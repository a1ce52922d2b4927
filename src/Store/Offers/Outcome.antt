-- ===== src/Store/Offers/Outcome.antt =====
-- lib/store/base.ts: the outcomes of `recordOffer`.
use volta_hackathon.Prelude.{
  ◌+◌, String, ◌≡◌, ◌⊎◌, inl, inr, refl, ap, ◌∙◌, subst, Option, none, some, true, not, ◌&&◌, ◌==◌,
  List, [], ◌∷◌, ◌++◌, arith, ok, or_else, Bool-cases, is_some,
}
use volta_hackathon.Domain.Types.{Offer, OfferInput, OperationSnapshot}
use volta_hackathon.Domain.Policy.{evaluate_offer}
use volta_hackathon.Store.Environment.{Environment}
use volta_hackathon.Store.Action.{Draft}
use volta_hackathon.Store.Ledger.{write_event, write_decision}
use volta_hackathon.Store.Offers.Terms.{SameTerms, Retires, restates_offer_iff, retired-Retires}
use volta_hackathon.Store.Offers.{
  record_offer, open_revision, previous_offer, restates_offer, revision_of, standing, retired,
}

-- `o` was appended as the next revision of its carrier, judged by the mandate at that revision.
pub record Opens (input : OfferInput) (before after : OperationSnapshot) (o : Offer) : Type 0 where
  pub revision : o.revision ≡ revision_of (previous_offer input.carrier_id before.offers) + 1
  pub eligible :
      o.eligible ≡ (evaluate_offer before.operation before.mandate input o.revision).eligible
  pub violations :
      o.violations ≡ (evaluate_offer before.operation before.mandate input o.revision).violations
  pub carrier : o.carrier_id ≡ input.carrier_id
  pub amount : o.amount ≡ input.amount
  pub terms :
      (o.currency ≡ input.currency)
      × (o.pickup_date ≡ input.pickup_date)
      × (o.pickup_time ≡ input.pickup_time)
      × (o.conditions ≡ or_else input.conditions [])
  pub live : o.superseded_at ≡ none
  pub at : String
  pub kept : List Offer
  pub retires : Retires input at before.offers kept (previous_offer input.carrier_id before.offers)
  pub kept_retired : kept ≡ retired (previous_offer input.carrier_id before.offers) at before.offers
  pub offers : after.offers ≡ kept ++ o ∷ []

-- `o` stood already, with the terms of the input, and nothing changed.
pub record Restates (input : OfferInput) (before after : Draft) (o : Offer) : Type 0 where
  pub previous : previous_offer input.carrier_id before.snapshot.offers ≡ some o
  pub live : o.superseded_at ≡ none
  pub same_terms : SameTerms o input
  pub unchanged : after ≡ before

module _ (env : Environment) (input : OfferInput) (d : Draft) where
  abbrev previous : Option Offer
  previous = previous_offer input.carrier_id d.snapshot.offers

  open_revision-Opens :
      (o : Offer)
      → standing previous input ≡ none
      → (open_revision env input previous d.snapshot d).0 ≡ ok o
      → Opens input d.snapshot (open_revision env input previous d.snapshot d).1.snapshot o
  unfolding open_revision write_event write_decision
  open_revision-Opens o fresh h = record {
    revision = ground arith;
    eligible = ground arith;
    violations = ground arith;
    carrier = ground arith;
    amount = ground arith;
    terms = ground arith;
    live = ground arith;
    at = env.iso (env.millis d.tick);
    kept = retired previous (env.iso (env.millis d.tick)) d.snapshot.offers;
    retires =
        retired-Retires input (env.iso (env.millis d.tick)) d.snapshot.offers previous fresh refl;
    kept_retired = refl;
    offers = ground arith;
  }

  restates_cases :
      (p : Option Offer)
      → (standing p input ≡ none)
        ⊎ ((o : Offer) × (p ≡ some o)
            × (o.superseded_at ≡ none)
            × (restates_offer o input ≡ true)
            × (standing p input ≡ some o))
  restates_cases none = inl refl
  restates_cases (some p) =
      elim (Bool-cases (not (is_some p.superseded_at) && restates_offer p input)) [
        | inl e ↦ inr (p, refl, ground arith, ground arith, rw e)
        | inr e ↦ inl (rw e)
      ]

  pub record_offer_cases :
      (o : Offer)
      → (record_offer env input d).0 ≡ ok o
      → Restates input d (record_offer env input d).1 o
        ⊎ Opens input d.snapshot (record_offer env input d).1.snapshot o
  unfolding record_offer
  record_offer_cases o h = elim (Bool-cases (d.snapshot.operation.id == input.operation_id)) [
    | inr e ↦ absurd (ground arith)
    | inl e ↦ elim (restates_cases previous) [
      | inl fresh ↦ rw (e, fresh) (inr (open_revision-Opens o fresh (rw (e, fresh) at h)))
      | inr (p, was, live, same, restated) ↦
          let returned : ok p ≡ ok o = rw (e, restated) at h in
          let is_p : p ≡ o = ground arith in
          rw (e, restated)
            (inl (record {
              previous = was ∙ ap some is_p;
              live = subst (λ x. x.superseded_at ≡ none) is_p live;
              same_terms =
                  subst (λ x. SameTerms x input) is_p ((restates_offer_iff p input).0 same);
              unchanged = refl;
            }))
    ]
  ]
