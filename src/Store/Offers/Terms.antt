-- ===== src/Store/Offers/Terms.antt =====
-- lib/store/base.ts: what `restatesOffer` compares, and what becomes of the offer before a new one.
use volta_hackathon.Prelude.{
  String, ◌≡◌, ◌↔◌, inl, inr, refl, Option, none, some, true, ◌&&◌, ◌==◌, List, [], ◌∷◌, arith,
  eq_iff, Bool-cases, Option-cases, is_some, or_else, length, all, eqb, All, In,
}
use volta_hackathon.Prelude.Text.{includes}
use volta_hackathon.Domain.Types.{Offer, OfferInput}
use volta_hackathon.Domain.Policy.{condition_count}
use volta_hackathon.Store.Offers.{
  mentions, same_conditions, restates_offer, standing, retired, supersede_offer, previous_offer,
}
use volta_hackathon.Store.Offers.Order.{In-tail, previous_offer-IsMax}

-- The standing offer has the amount, the currency and the pickup of the input, and as many conditions
-- as the input, each of which the input lists.
pub record SameTerms (standing : Offer) (input : OfferInput) : Type 0 where
  pub amount : standing.amount ≡ input.amount
  pub currency : standing.currency ≡ input.currency
  pub pickup_date : standing.pickup_date ≡ input.pickup_date
  pub pickup_time : standing.pickup_time ≡ input.pickup_time
  pub count : length standing.conditions ≡ length (or_else input.conditions [])
  pub listed : All (λ x. In x (or_else input.conditions [])) standing.conditions

-- One offer of the list, with the carrier and the revision of `p`, is marked as superseded at a time,
-- and the rest is what it was.
pub data Supersedes (p : Offer) (at : String) : List Offer → List Offer → Type 0 where
  here :
      {o : Offer} {os : List Offer}
      → o.carrier_id ≡ p.carrier_id
      → o.revision ≡ p.revision
      → Supersedes p at (o ∷ os) (record o { superseded_at = some at } ∷ os)
  there :
      {o : Offer} {os os' : List Offer}
      → Supersedes p at os os'
      → Supersedes p at (o ∷ os) (o ∷ os')

-- What becomes of the offers before the new one: a previous offer that stands has other terms and is
-- superseded.
pub data Retires (input : OfferInput) (at : String) (offers kept : List Offer)
    : Option Offer → Type 0 where
  first : kept ≡ offers → Retires input at offers kept none
  already :
      {p : Offer}
      → is_some p.superseded_at ≡ true
      → kept ≡ offers
      → Retires input at offers kept (some p)
  replaced :
      {p : Offer}
      → p.superseded_at ≡ none
      → ¬ SameTerms p input
      → Supersedes p at offers kept
      → Retires input at offers kept (some p)

includes_iff : (xs : List String) (x : String) → (includes xs x ≡ true) ↔ In x xs
includes_iff [] x = (λ h. cc, λ i. absurd i)
includes_iff (y ∷ ys) x =
    let ih = includes_iff ys x in
    (λ h. ground (arith, eq_iff y x, ih), λ i. ground (arith, eq_iff y x, ih))

mentioned :
    (given : Option (List String)) (xs : List String)
    → (all (mentions given) xs ≡ true) ↔ All (λ x. In x (or_else given [])) xs
mentioned given [] = (λ h. tt, λ h. refl)
mentioned none (x ∷ xs) = (λ h. absurd (ground arith), λ h. absurd h.0)
mentioned (some ys) (x ∷ xs) =
    let ih = mentioned (some ys) xs in
    (
      λ h. ((includes_iff ys x).0 (ground arith), ih.0 (ground arith)),
      λ h. ground (arith, (includes_iff ys x).1 h.0, ih.1 h.1),
    )

counted : (input : OfferInput) → condition_count input ≡ length (or_else input.conditions [])
counted input = elim (Option-cases input.conditions) [
  | inl e ↦ rw (e, condition_count) refl
  | inr (xs, e) ↦ rw (e, condition_count) refl
]

pub restates_offer_iff :
    (p : Offer) (input : OfferInput) → (restates_offer p input ≡ true) ↔ SameTerms p input
unfolding restates_offer same_conditions
restates_offer_iff p input = (
  λ h. record {
    amount = ground arith;
    currency = ground (arith, eq_iff p.currency input.currency);
    pickup_date = ground (arith, eq_iff p.pickup_date input.pickup_date);
    pickup_time = ground (arith, eq_iff p.pickup_time input.pickup_time);
    count = ground (arith, counted input);
    listed = (mentioned input.conditions p.conditions).0 (ground arith);
  },
  λ t. ground (
    arith,
    t.amount,
    t.count,
    counted input,
    (eq_iff p.currency input.currency).1 t.currency,
    (eq_iff p.pickup_date input.pickup_date).1 t.pickup_date,
    (eq_iff p.pickup_time input.pickup_time).1 t.pickup_time,
    (mentioned input.conditions p.conditions).1 t.listed,
  ),
)

supersede_offer-Supersedes :
    (p : Offer) (at : String) (offers : List Offer)
    → In p offers
    → Supersedes p at offers (supersede_offer p at offers)
unfolding supersede_offer
supersede_offer-Supersedes p at [] i = absurd i
supersede_offer-Supersedes p at (o ∷ os) i =
    elim (Bool-cases (o.carrier_id == p.carrier_id && eqb o.revision p.revision)) [
      | inl e ↦ rw e (here (ground (arith, eq_iff o.carrier_id p.carrier_id)) (ground arith))
      | inr e ↦ rw e (there (supersede_offer-Supersedes p at os (In-tail p o os i e)))
    ]

pub retired-Retires :
    (input : OfferInput) (at : String) (offers : List Offer) (prev : Option Offer)
    → standing prev input ≡ none
    → previous_offer input.carrier_id offers ≡ prev
    → Retires input at offers (retired prev at offers) prev
retired-Retires input at offers none fresh e = first refl
retired-Retires input at offers (some p) fresh e = elim (Bool-cases (is_some p.superseded_at)) [
  | inl s ↦ already s (rw s refl)
  | inr s ↦
      replaced (ground arith)
        (λ t. let same = (restates_offer_iff p input).1 t in absurd (ground arith))
        (rw s (
          supersede_offer-Supersedes p at offers
            (previous_offer-IsMax input.carrier_id offers p e).listed))
]
