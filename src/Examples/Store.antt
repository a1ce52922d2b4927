-- ===== src/Examples/Store.antt =====
-- Runs of the other methods of the store.
use volta_hackathon.Prelude.{
  ◌∷◌, some, [], map, none, true, false, ◌≡◌, refl, ok, arith, eq_iff, Result,
}
use volta_hackathon.Prelude.Sort.{sort}
use volta_hackathon.Prelude.Text.{trim, text_lt}
use volta_hackathon.Domain.Types.{
  Offer, DecisionInput, DecisionOutcome, DecisionSource, TranscriptSegment, TranscriptSpeaker,
}
use volta_hackathon.Domain.Policy.{evaluate_offer}
use volta_hackathon.Store.Action.{Draft}
use volta_hackathon.Store.Ledger.{write_event, write_decision}
use volta_hackathon.Store.Ledger.Limits.{
  WithinLimit, write_decision_idempotent, write_decision-WithinLimit,
}
use volta_hackathon.Store.Offers.{record_offer, previous_offer, restates_offer}
use volta_hackathon.Store.Offers.Order.{InOrder}
use volta_hackathon.Store.Offers.Revisions.{record_offer-InOrder}
use volta_hackathon.Store.Transcripts.{record_transcript}
use volta_hackathon.Store.Transcripts.Capture.{record_transcript_idempotent}
use volta_hackathon.Store.Configuration.{ConfigurationInput, update_configuration}
use volta_hackathon.Store.Configuration.Identity.{update_configuration_identity}
use volta_hackathon.Domain.Types.{Carrier, OperationSnapshot}
use volta_hackathon.Examples.{
  runtime, strokes, market, draft_of, better_terms, azul_offer, spoken, rutapac_offer,
}

abbrev revised : Offer
revised = record azul_offer {
  id = "id-||";
  revision = 2;
  amount = 8400;
  pickup_time = "11:00";
  created_at = "|||";
}

other_carrier : azul_offer.carrier_id ≡ rutapac_offer.carrier_id → ⊥
other_carrier e =
    let h : false ≡ true = (eq_iff "carrier-azul" "carrier-rutapac").1 e in absurd (cc)

market-InOrder : InOrder market.offers
market-InOrder = ((λ e. absurd (other_carrier e), tt), (tt, tt))

in_order_example : InOrder (record_offer runtime better_terms (draft_of market)).1.snapshot.offers
unfolding record_offer previous_offer evaluate_offer restates_offer sort text_lt strokes
in_order_example =
    record_offer-InOrder runtime better_terms (draft_of market) revised market-InOrder refl

abbrev decision : DecisionInput
decision = record {
  operation_id = "op-2041";
  call_id = "call-azul";
  kind = "OFFER_EVALUATED";
  outcome = DecisionOutcome.allow;
  rationale = "first";
  reason_codes = none;
  source = DecisionSource.mandate_engine;
  related_offer_id = none;
  transcript_segment_ids = none;
  idempotency_key = "offer:1:evaluated";
}

idempotent_example :
    write_decision runtime
      (record decision { rationale = "second" })
      (write_decision runtime decision (draft_of market)).1
    ≡ write_decision runtime decision (draft_of market)
idempotent_example =
    write_decision_idempotent runtime decision (record decision { rationale = "second" })
      (draft_of market) refl

market-WithinLimit : WithinLimit market
market-WithinLimit = record { events = omega arith; decisions = omega arith }

limits_example : WithinLimit (write_decision runtime decision (draft_of market)).1.snapshot
limits_example = write_decision-WithinLimit runtime decision (draft_of market) market-WithinLimit

abbrev segment : TranscriptSegment
segment = record {
  id = "id-|";
  operation_id = "op-2041";
  call_id = "call-azul";
  speaker = TranscriptSpeaker.counterparty;
  provider_item_id = "item-1";
  text = "ocho mil novecientos";
  occurred_at = "||";
}

abbrev recording : Result TranscriptSegment × Draft
recording = record_transcript runtime spoken (draft_of market)

transcript_example :
    record_transcript runtime (record spoken { text = "otra cosa" }) recording.1
    ≡ (ok segment, recording.1)
unfolding record_transcript strokes trim
transcript_example =
    record_transcript_idempotent runtime spoken "otra cosa" segment (draft_of market) recording.1
      refl

abbrev later_window : ConfigurationInput
later_window = record {
  operation = record {
    id = some "op-9999";
    reference = none;
    customer = none;
    container_reference = none;
    pickup_location = none;
    delivery_location = none;
    pickup_date = none;
    pickup_window_start = none;
    pickup_window_end = some "18:00";
    handoff_phone_e164 = none;
    language = none;
    status = none;
    created_at = none;
    updated_at = none;
  };
  mandate = none;
  carriers = none;
  keys = "pickupWindowEnd" ∷ [];
}

abbrev configured : Result OperationSnapshot × Draft
configured = update_configuration runtime "op-2041" later_window (draft_of market)

identity_example :
    (map (λ (c : Carrier). c.id) configured.1.snapshot.carriers
      ≡ map (λ (c : Carrier). c.id) market.carriers)
    × (configured.1.snapshot.operation.id ≡ "op-2041")
    × (configured.1.snapshot.mandate.operation_id ≡ "op-2041")
    × (configured.1.snapshot.offers ≡ market.offers)
    × (configured.1.snapshot.commitment ≡ none)
unfolding update_configuration write_event
identity_example =
    update_configuration_identity runtime "op-2041" later_window (draft_of market)
      configured.1.snapshot refl
