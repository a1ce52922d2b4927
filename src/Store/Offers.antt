-- ===== src/Store/Offers.antt =====
-- lib/store/base.ts: `recordOffer`, with `restatesOffer`.
pub mod Order
pub mod Terms
pub mod Revisions
pub mod Outcome
use volta_hackathon.Prelude.{
  ℕ, ◌+◌, String, Option, none, some, List, [], ◌∷◌, ◌++◌, ◌==◌, Bool, false, not, ◌&&◌, filter,
  all, head?, length, ltb, leb, eqb, is_some, or_else, update_first, if◌then◌else◌,
}
use volta_hackathon.Prelude.Text.{◌<>◌, join, includes}
use volta_hackathon.Prelude.Sort.{sort}
use volta_hackathon.Domain.Types.{
  Operation, OperationStatus, OperationSnapshot, Offer, OfferInput, DecisionInput, DecisionOutcome,
  DecisionSource, Severity, PayloadValue,
}
use volta_hackathon.Domain.Policy.{
  PolicyDecision, evaluate_offer, winner, condition_count, is_quote, is_settled,
}
use volta_hackathon.Store.Environment.{Environment}
use volta_hackathon.Store.Action.{
  Draft, Action, pure, always, gets, throw_if, modify, fresh_id, now, ◌>>=◌, ◌>>◌,
}
use volta_hackathon.Store.Ledger.{
  EventInput, push_event, push_decision, decide, logs_of, with_logs, field,
}
use volta_hackathon.Store.Booking.{last_segment_ids, said_on, set_operation_status}

-- `incoming.conditions?.includes(condition)`
abbrev pub mentions : Option (List String) → String → Bool
mentions none condition = false
mentions (some conditions) condition = includes conditions condition

unfoldable pub same_conditions : Offer → OfferInput → Bool
same_conditions standing incoming =
    eqb (length standing.conditions) (condition_count incoming)
    && all (mentions incoming.conditions) standing.conditions

unfoldable pub restates_offer : Offer → OfferInput → Bool
unfolding same_conditions
restates_offer standing incoming =
    eqb standing.amount incoming.amount
    && (standing.currency == incoming.currency
        && (standing.pickup_date == incoming.pickup_date
            && (standing.pickup_time == incoming.pickup_time && same_conditions standing incoming)))

-- `offers.filter(…).sort((a, b) => b.revision - a.revision)[0]`
unfoldable pub previous_offer : String → List Offer → Option Offer
previous_offer carrier_id offers =
    head?
      (sort (λ a b. ltb b.revision a.revision) (filter (λ o. o.carrier_id == carrier_id) offers))

-- The test behind which the operation counts as quoted.
unfoldable pub quotes_are_settled : OperationSnapshot → Bool
quotes_are_settled s =
    let quotes = filter (λ call. is_quote call.mode) s.calls in
    leb (length s.carriers) (length quotes) && all (λ call. is_settled call.status) quotes

-- Writes through the reference that `previous_offer` returned.
unfoldable pub supersede_offer : Offer → String → List Offer → List Offer
supersede_offer previous at offers =
    update_first (λ o. o.carrier_id == previous.carrier_id && eqb o.revision previous.revision)
      (λ o. record o { superseded_at = some at }) offers

-- `previous && !previous.supersededAt`
abbrev pub stands : Option Offer → Bool
stands none = false
stands (some p) = not (is_some p.superseded_at)

-- The list of offers once the previous one is superseded, if it stood.
abbrev pub retired : Option Offer → String → List Offer → List Offer
retired none at offers = offers
retired (some p) at offers = if is_some p.superseded_at then offers else supersede_offer p at offers

abbrev pub standing : Option Offer → OfferInput → Option Offer
standing none input = none
standing (some p) input =
    if not (is_some p.superseded_at) && restates_offer p input then some p else none

abbrev pub revision_of : Option Offer → ℕ
revision_of none = 0
revision_of (some p) = p.revision

abbrev same_offer : Option Offer → Offer → Bool
same_offer none offer = false
same_offer (some selected) offer = selected.id == offer.id

module _ (env : Environment) where
  -- The time of the supersession is read only where there is one.
  supersede_previous : Option Offer → Draft → Unit {0} × Draft
  supersede_previous previous d = (
    tt,
    record d {
      snapshot = record d.snapshot {
        offers = retired previous (env.iso (env.millis d.tick)) d.snapshot.offers;
      };
      tick = if stands previous then d.tick + 1 else d.tick;
    },
  )

  new_offer : OfferInput → ℕ → PolicyDecision → String → String → Offer
  new_offer input revision decision id created_at = record {
    id = id;
    operation_id = input.operation_id;
    carrier_id = input.carrier_id;
    call_id = input.call_id;
    revision = revision;
    amount = input.amount;
    currency = input.currency;
    pickup_date = input.pickup_date;
    pickup_time = input.pickup_time;
    conditions = or_else input.conditions [];
    eligible = decision.eligible;
    violations = decision.violations;
    superseded_at = none;
    created_at = created_at;
  }

  offer_event : Offer → EventInput
  offer_event offer = record {
    operation_id = offer.operation_id;
    call_id = some offer.call_id;
    type = if offer.eligible then "offer.eligible" else "offer.blocked";
    severity = some (if offer.eligible then Severity.success else Severity.warning);
    summary =
        if offer.eligible
        then "Eligible offer recorded at MXN " <> env.amount_text offer.amount
        else "Offer blocked: " <> join ", " offer.violations;
    payload =
        field "offerId" (PayloadValue.text offer.id)
        ∷ field "revision" (PayloadValue.number offer.revision)
        ∷ field "violations" (PayloadValue.texts offer.violations)
        ∷ [];
  }

  abbrev codes_or : List String → String → List String
  codes_or [] code = code ∷ []
  codes_or (v ∷ vs) code = v ∷ vs

  evaluated_decision : Offer → List String → DecisionInput
  evaluated_decision offer segments = record {
    operation_id = offer.operation_id;
    call_id = offer.call_id;
    kind = "OFFER_EVALUATED";
    outcome = if offer.eligible then DecisionOutcome.allow else DecisionOutcome.block;
    rationale =
        if offer.eligible
        then "Offer satisfies every rule in the human mandate."
        else "Offer violates: " <> join ", " offer.violations <> ".";
    reason_codes = some (codes_or offer.violations "within_mandate");
    source = DecisionSource.mandate_engine;
    related_offer_id = some offer.id;
    transcript_segment_ids = some segments;
    idempotency_key = "offer:" <> offer.id <> ":evaluated";
  }

  winner_decision : Offer → List String → DecisionInput
  winner_decision offer segments = record {
    operation_id = offer.operation_id;
    call_id = offer.call_id;
    kind = "MARKET_WINNER_UPDATED";
    outcome = DecisionOutcome.select;
    rationale =
        "Lowest eligible rate, then earliest pickup time and stable carrier-name tie-break.";
    reason_codes = some ("best_eligible_offer" ∷ []);
    source = DecisionSource.market_ranking;
    related_offer_id = some offer.id;
    transcript_segment_ids = some segments;
    idempotency_key = "offer:" <> offer.id <> ":winner";
  }

  -- The second decision, for an offer that the market now selects.
  select_winner : Offer → List String → Draft → Unit {0} × Draft
  unfolding winner_decision
  select_winner offer segments d =
      let selected = winner env.locale_compare d.snapshot in
      let logs =
        if same_offer selected offer
        then (decide env (winner_decision offer segments) (logs_of d)).1
        else logs_of d in
      (tt, with_logs logs d)

  -- What `recordOffer` does with an offer that opens a revision.
  open_revision : OfferInput → Option Offer → OperationSnapshot → Action Offer
  unfolding supersede_previous new_offer offer_event evaluated_decision select_winner
  open_revision input previous s = do
    always (supersede_previous previous)
    let revision = revision_of previous + 1
    let decision = evaluate_offer s.operation s.mandate input revision
    let segments = last_segment_ids 1 (said_on input.call_id) s
    id ← fresh_id env
    created_at ← now env
    let offer = new_offer input revision decision id created_at
    modify (λ t. record t { offers = t.offers ++ offer ∷ [] })
    modify (λ t.
        set_operation_status
          (if quotes_are_settled t then OperationStatus.quoted else OperationStatus.scanning) t)
    push_event env (offer_event offer)
    push_decision env (evaluated_decision offer segments)
    always (select_winner offer segments)
    pure offer

  unfoldable pub record_offer : OfferInput → Action Offer
  unfolding open_revision
  record_offer input = do
    s ← gets (λ s. s)
    throw_if (not (s.operation.id == input.operation_id)) "Operation not found"
    let previous = previous_offer input.carrier_id s.offers
    elim (standing previous input) [ some p ↦ pure p | none ↦ open_revision input previous s ]
