-- ===== src/Store/Offers/Revisions.antt =====
-- lib/store/base.ts: the revisions that `recordOffer` makes of the offers of one carrier.
use volta_hackathon.Prelude.{
  ℕ, ◌+◌, ◌≤◌, String, ◌≡◌, ◌≢◌, inl, inr, refl, sym, ◌∙◌, subst, Option, none, some, true, List,
  [], ◌∷◌, ◌++◌, arith, ok, Bool-cases, is_some, In, All-of_In,
}
use volta_hackathon.Domain.Types.{Offer, OfferInput}
use volta_hackathon.Domain.Policy.Ranking.{IsStanding}
use volta_hackathon.Store.Environment.{Environment}
use volta_hackathon.Store.Action.{Draft}
use volta_hackathon.Store.Offers.{record_offer, previous_offer, revision_of, retired}
use volta_hackathon.Store.Offers.Outcome.{record_offer_cases}
use volta_hackathon.Store.Offers.Order.{
  InOrder, previous_offer-IsMax, previous_offer-none, supersede-InOrder, Silent, supersede-Silent,
  Silent-of_superseded, Below, supersede-Below, append-Follows, one_stands, IsMax,
}

-- The list behind which a new revision is appended.
record IsReady (c : String) (n : ℕ) (xs : List Offer) : Type 0 where
  in_order : InOrder xs
  silent : Silent c xs
  below : Below c n xs

absent-Silent :
    (c : String) (xs : List Offer) → ((o : Offer) → In o xs → o.carrier_id ≢ c) → Silent c xs
absent-Silent c xs f =
    All-of_In (λ a. a.carrier_id ≡ c → is_some a.superseded_at ≡ true) xs λ a i e. absurd (f a i e)

absent-Below :
    (c : String) (n : ℕ) (xs : List Offer)
    → ((o : Offer) → In o xs → o.carrier_id ≢ c)
    → Below c n xs
absent-Below c n xs f =
    All-of_In (λ a. a.carrier_id ≡ c → a.revision ≤ n) xs λ a i e. absurd (f a i e)

retired-some-IsReady :
    (p : Offer) (at : String) (xs : List Offer)
    → InOrder xs
    → IsMax p.carrier_id xs p
    → IsReady p.carrier_id p.revision (retired (some p) at xs)
retired-some-IsReady p at xs h m =
    let below : Below p.carrier_id p.revision xs =
      All-of_In (λ a. a.carrier_id ≡ p.carrier_id → a.revision ≤ p.revision) xs m.top in
    elim (Bool-cases (is_some p.superseded_at)) [
      | inl e ↦
          rw e (record { in_order = h; silent = Silent-of_superseded p xs h m e; below = below })
      | inr e ↦ rw e (record {
        in_order = supersede-InOrder p at xs h;
        silent = supersede-Silent p at xs h m;
        below = supersede-Below p at p.carrier_id p.revision xs below;
      })
    ]

retired-IsReady :
    (c at : String) (xs : List Offer) (prev : Option Offer)
    → InOrder xs
    → previous_offer c xs ≡ prev
    → IsReady c (revision_of prev) (retired prev at xs)
retired-IsReady c at xs none h e =
    let absent : (o : Offer) → In o xs → o.carrier_id ≢ c = λ o i. previous_offer-none c xs o e i in
    record { in_order = h; silent = absent-Silent c xs absent; below = absent-Below c 0 xs absent }
retired-IsReady c at xs (some p) h e =
    let m = previous_offer-IsMax c xs p e in
    let ready = retired-some-IsReady p at xs h (subst (λ d. IsMax d xs p) (sym m.carrier) m) in
    subst (λ d. IsReady d p.revision (retired (some p) at xs)) m.carrier ready

append-InOrder :
    (xs : List Offer) (o : Offer) (c : String) (n : ℕ)
    → IsReady c n xs
    → o.carrier_id ≡ c
    → o.revision ≡ n + 1
    → InOrder (xs ++ o ∷ [])
append-InOrder [] o c n r e v = (tt, tt)
append-InOrder (x ∷ xs) o c n r e v = (
  append-Follows xs o x r.in_order.0
      (λ same. (ground (arith, r.below.0 (same ∙ e)), r.silent.0 (same ∙ e))),
  append-InOrder xs o c n
      (record { in_order = r.in_order.1; silent = r.silent.1; below = r.below.1 }) e v,
)

-- Recording an offer keeps, for every carrier, rising revisions of which only the last can stand.
pub record_offer-InOrder :
    (env : Environment) (input : OfferInput) (d : Draft) (o : Offer)
    → InOrder d.snapshot.offers
    → (record_offer env input d).0 ≡ ok o
    → InOrder (record_offer env input d).1.snapshot.offers
record_offer-InOrder env input d o h r = elim (record_offer_cases env input d o r) [
  | inl same ↦ subst (λ (x : Draft). InOrder x.snapshot.offers) (sym same.unchanged) h
  | inr opens ↦
      rw (opens.offers, opens.kept_retired)
        (append-InOrder _ o input.carrier_id _
          (retired-IsReady input.carrier_id opens.at d.snapshot.offers
            (previous_offer input.carrier_id d.snapshot.offers) h refl)
          opens.carrier opens.revision)
]

-- In such a list, an offer that is not superseded is the one that its carrier stands by.
pub InOrder-IsStanding :
    (offers : List Offer) (o : Offer)
    → InOrder offers
    → In o offers
    → o.superseded_at ≡ none
    → IsStanding offers o
InOrder-IsStanding offers o h i e = record {
  listed = i;
  live = e;
  newest = λ p j f c. inl (one_stands offers o p h i j e f (sym c));
}
