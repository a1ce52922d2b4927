-- ===== src/Domain/Policy.antt =====
-- lib/domain/policy.ts: the mandate engine and the market ranking. `localeCompare`, which the
-- JavaScript engine takes from its locale data, is the parameter `locale_compare`.
pub mod Eligibility
pub mod Ranking
pub mod Booking
use volta_hackathon.Prelude.{
  ℕ, ◌-◌, String, Bool, true, false, not, ◌&&◌, ◌||◌, Option, none, some, List, [], ◌∷◌, ◌++◌, ltb,
  leb, eqb, ◌==◌, if◌then◌else◌, length, find, filter, any, all, head?, is_some, compare, Ordering,
  Result, ok, err,
}
use volta_hackathon.Prelude.Text.{text_lt}
use volta_hackathon.Prelude.Sort.{sort}
use volta_hackathon.Domain.Types.{
  Operation, Mandate, Carrier, CallMode, CallStatus, Offer, OfferInput, OperationSnapshot,
}

pub record PolicyDecision : Type 0 where
  pub eligible : Bool
  pub violations : List String

unfoldable pub counter_budget : Mandate → ℕ
counter_budget mandate = if mandate.negotiate_rate then mandate.maximum_counters else 0

-- `if (broken) violations.push(code)`
abbrev pub flag : Bool → String → List String
flag broken code = if broken then code ∷ [] else []

-- `offer.conditions?.length ?? 0`
abbrev pub condition_count : OfferInput → ℕ
condition_count offer = elim offer.conditions [ none ↦ 0 | some conditions ↦ length conditions ]

unfoldable pub violations_of : Operation → Mandate → OfferInput → ℕ → List String
unfolding counter_budget
violations_of operation mandate offer revision =
    flag (ltb (counter_budget mandate) (revision - 1)) (
      if mandate.negotiate_rate
      then "counter_limit_exhausted"
      else "rate_negotiation_not_authorized")
    ++ (flag (not (offer.currency == mandate.currency)) "currency_mismatch"
        ++ (flag (ltb mandate.maximum_rate offer.amount) "rate_above_mandate"
            ++ (flag (not (offer.pickup_date == operation.pickup_date)) "pickup_day_outside_mandate"
                ++ (flag
                      (text_lt offer.pickup_time operation.pickup_window_start
                        || text_lt operation.pickup_window_end offer.pickup_time)
                      "pickup_time_outside_window"
                    ++ flag (not mandate.accept_accessorials && ltb 0 (condition_count offer))
                        "unsupported_accessorial"))))

unfoldable pub evaluate_offer : Operation → Mandate → OfferInput → ℕ → PolicyDecision
unfolding violations_of
evaluate_offer operation mandate offer revision =
    let violations = violations_of operation mandate offer revision in
    record { eligible = eqb (length violations) 0; violations = violations }

-- `Map.set`: an offer takes the place of the one that its carrier has, if its revision is higher.
unfoldable pub keep_latest : List Offer → Offer → List Offer
keep_latest [] offer = offer ∷ []
keep_latest (previous ∷ rest) offer =
    if previous.carrier_id == offer.carrier_id
    then (if ltb previous.revision offer.revision then offer else previous) ∷ rest
    else previous ∷ keep_latest rest offer

-- The loop of `latestOffers`, over the values of its map in insertion order.
unfoldable pub latest_from : List Offer → List Offer → List Offer
latest_from current [] = current
latest_from current (offer ∷ offers) = latest_from (keep_latest current offer) offers

unfoldable pub latest_offers : List Offer → List Offer
unfolding keep_latest latest_from
latest_offers offers = latest_from [] (filter (λ o. not (is_some o.superseded_at)) offers)

-- `new Map(carriers.map((carrier) => [carrier.id, carrier.name]))`: a later entry wins.
unfoldable pub carrier_name : List Carrier → String → Option String
carrier_name [] id = none
carrier_name (carrier ∷ carriers) id = elim (carrier_name carriers id) [
  | some name ↦ some name
  | none ↦ if carrier.id == id then some carrier.name else none
]

abbrev pub is_quote : CallMode → Bool
is_quote CallMode.quote = true
is_quote _ = false

-- `["COMPLETED", "FAILED"].includes(status)`
abbrev pub is_settled : CallStatus → Bool
is_settled CallStatus.completed = true
is_settled CallStatus.failed = true
is_settled _ = false

abbrev pub is_negative : Ordering → Bool
is_negative Ordering.lt = true
is_negative _ = false

abbrev pub or_empty : Option String → String
or_empty none = ""
or_empty (some name) = name

abbrev pub same_id : Option String → String → Bool
same_id none id = false
same_id (some other) id = other == id

pub data CloseReason : Type 0 where
  offer_not_found offer_outside_mandate not_the_standing_winner met_target_rate market_settled
        market_still_open :
      CloseReason

pub record CloseVerdict : Type 0 where
  pub allowed : Bool
  pub reason : CloseReason

-- Every carrier but the offer's own has a quote call that ended.
unfoldable pub market_is_settled : OperationSnapshot → Offer → Bool
market_is_settled snapshot offer =
    all
      (λ carrier.
        any
          (λ call.
            same_id call.carrier_id carrier.id && (is_quote call.mode && is_settled call.status))
          snapshot.calls)
      (filter (λ carrier. not (carrier.id == offer.carrier_id)) snapshot.carriers)

module _ (locale_compare : String → String → Ordering) where
  unfoldable pub compare_offers : List Carrier → Offer → Offer → Ordering
  unfolding carrier_name
  compare_offers carriers left right =
      if not (eqb left.amount right.amount)
      then compare left.amount right.amount
      else if not (left.pickup_time == right.pickup_time)
      then locale_compare left.pickup_time right.pickup_time
      else locale_compare (or_empty (carrier_name carriers left.carrier_id))
          (or_empty (carrier_name carriers right.carrier_id))

  unfoldable pub rank_offers : OperationSnapshot → List Offer
  unfolding latest_offers compare_offers
  rank_offers snapshot =
      sort (λ left right. is_negative (compare_offers snapshot.carriers left right))
        (filter (λ o. o.eligible) (latest_offers snapshot.offers))

  unfoldable pub winner : OperationSnapshot → Option Offer
  unfolding rank_offers
  winner snapshot = head? (rank_offers snapshot)

  unfoldable pub assert_offer_bookable : OperationSnapshot → String → Result Offer
  assert_offer_bookable snapshot offer_id = elim (find (λ o. o.id == offer_id) snapshot.offers) [
    | none ↦ err "Offer not found"
    | some selected ↦
        if is_some selected.superseded_at
        then err "Superseded offer cannot be booked"
        else elim (winner snapshot) [
          | none ↦ err "Offer is not the current winner"
          | some expected ↦
              if not (expected.id == selected.id)
              then err "Offer is not the current winner"
              else if not selected.eligible
              then err "Offer violates the human mandate"
              else ok selected
        ]
  ]

  unfoldable pub may_close_on_quote : OperationSnapshot → String → CloseVerdict
  unfolding market_is_settled
  may_close_on_quote snapshot offer_id = elim (find (λ o. o.id == offer_id) snapshot.offers) [
    | none ↦ record { allowed = false; reason = offer_not_found }
    | some offer ↦
        if not offer.eligible
        then record { allowed = false; reason = offer_outside_mandate }
        else elim (winner snapshot) [
          | none ↦ record { allowed = false; reason = not_the_standing_winner }
          | some standing ↦
              if not (standing.id == offer.id)
              then record { allowed = false; reason = not_the_standing_winner }
              else if leb offer.amount snapshot.mandate.target_rate
              then record { allowed = true; reason = met_target_rate }
              else if market_is_settled snapshot offer
              then record { allowed = true; reason = market_settled }
              else record { allowed = false; reason = market_still_open }
        ]
  ]
