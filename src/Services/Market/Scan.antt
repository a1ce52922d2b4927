-- ===== src/Services/Market/Scan.antt =====
-- lib/services/operations.ts: `startMarketScan`. `arrange` is the order in which the dials of a scan end.
use volta_hackathon.Prelude.{
  ℕ, String, Option, none, some, List, [], ◌∷◌, ◌==◌, Bool, find, or_throw, Result, ok, err,
  if◌then◌else◌,
}
use volta_hackathon.Prelude.Indexed.{get_elem?}
use volta_hackathon.Domain.Types.{
  CallAttempt, CallMode, CallStatus, Carrier, Offer, OperationSnapshot, Severity,
}
use volta_hackathon.Store.Environment.{Environment}
use volta_hackathon.Store.Ledger.{add_event}
use volta_hackathon.Store.Offers.{record_offer}
use volta_hackathon.Store.Calls.{create_call, update_call}
use volta_hackathon.Store.Transcripts.{finalize_call_brief}
use volta_hackathon.Store.Session.{Session, Interference, answer, read, perform, ◌>>=◌, ◌>>◌}
use volta_hackathon.Services.Operations.{Legs, lifted, no_change, ringing, failed_with, new_call}
use volta_hackathon.Services.Verification.{Channels}
use volta_hackathon.Services.Rounds.{all_of, three_rounds, indexed_from}
use volta_hackathon.Services.Market.{operation_event, auto_book_if_settled}

-- `demoOffers`
pub record Fixture : Type 0 where
  pub carrier_id : String
  pub amount : ℕ
  pub pickup_date : String
  pub pickup_time : String

abbrev pub demo_offers : List Fixture
demo_offers =
    record {
      carrier_id = "carrier-azul";
      amount = 8900;
      pickup_date = "2026-09-03";
      pickup_time = "11:00";
    }
    ∷ record {
      carrier_id = "carrier-rutapac";
      amount = 8500;
      pickup_date = "2026-09-03";
      pickup_time = "10:00";
    }
    ∷ record {
      carrier_id = "carrier-manzanillo";
      amount = 8200;
      pickup_date = "2026-09-04";
      pickup_time = "09:00";
    }
    ∷ []

abbrev carrier_of : OperationSnapshot → Option String → Option Carrier
carrier_of s none = none
carrier_of s (some id) = find (λ c. c.id == id) s.carriers

module _ (env : Environment) (interference : Interference) (channels : Channels)
    (dial_voice_call : CallAttempt → Carrier → Result Legs)
    (arrange : List CallAttempt → List CallAttempt) (live : Bool) where
  -- The body of the `try`.
  unfoldable pub ring_carrier : OperationSnapshot → CallAttempt → Session (Unit {0})
  ring_carrier s call = do
    carrier ← lifted (
        or_throw (carrier_of s call.carrier_id)
          "Cannot read properties of undefined (reading 'phoneE164')")
    legs ← lifted (dial_voice_call call carrier)
    perform env interference (update_call env call.id (ringing env.voice_provider_tag legs))
    answer tt

  -- What the dial throws is written to the call.
  unfoldable pub dial_quote : OperationSnapshot → CallAttempt → Session (Unit {0})
  dial_quote s call w =
      let (r, w') = ring_carrier s call w in
      elim r [
        | ok a ↦ (ok a, w')
        | err message ↦
            (perform env interference (update_call env call.id (failed_with message)) >> answer tt)
              w'
      ]

  abbrev demo_offer : String → CallAttempt × ℕ → Session Offer
  demo_offer operation_id (call, index) = do
    fixture ← lifted (
        or_throw (get_elem? demo_offers index)
          "Cannot read properties of undefined (reading 'carrierId')")
    perform env interference (
        record_offer env (record {
          operation_id = operation_id;
          carrier_id = fixture.carrier_id;
          call_id = call.id;
          amount = fixture.amount;
          currency = "MXN";
          pickup_date = fixture.pickup_date;
          pickup_time = fixture.pickup_time;
          conditions = none;
        }))

  unfoldable pub simulated_scan : String → List CallAttempt → Session (Unit {0})
  simulated_scan operation_id calls = do
    three_rounds
        (λ c.
          perform env interference
            (update_call env c.0.id (record no_change { status = some CallStatus.completed })))
        (demo_offer operation_id) (λ c. perform env interference (finalize_call_brief env c.0.id))
        (indexed_from 0 calls)
    perform env interference (
        add_event env (
          operation_event operation_id none "demo.simulated" Severity.warning
            "Market scan simulated because live telephony is not configured"))
    auto_book_if_settled env interference channels dial_voice_call live operation_id
    answer tt

  unfoldable pub start_market_scan : String → Session OperationSnapshot
  start_market_scan operation_id = do
    s ← read operation_id
    calls ←
        all_of
          (λ c.
            perform env interference (create_call env (new_call operation_id c.id CallMode.quote)))
          s.carriers
    if live
        then all_of (dial_quote s) (arrange calls) >> answer tt
        else simulated_scan operation_id calls
    read operation_id
