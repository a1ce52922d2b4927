-- ===== src/Store/Offers/Order.antt =====
-- lib/store/base.ts: the revisions of a carrier's offers, and what retiring and appending do to them.
use volta_hackathon.Prelude.{
  ℕ, ◌≤◌, ◌<◌, String, ◌≡◌, ◌≢◌, inl, inr, refl, ap, sym, ◌∙◌, subst, none, some, Bool, true, false,
  ◌&&◌, List, [], ◌∷◌, ◌++◌, arith, eq_iff, Bool-cases, is_some, filter, head?, head-none, ltb, eqb,
  ◌==◌, In, In-head, In-filter, In-filter_of, All, All-In, All-of_In,
}
use volta_hackathon.Prelude.Sort.{sort, IsSorted, sort-IsSorted, In-sort, In-sort_of}
use volta_hackathon.Domain.Types.{Offer}
use volta_hackathon.Store.Offers.{previous_offer, supersede_offer}

-- An earlier offer of the same carrier has a lower revision and is superseded.
abbrev pub Follows : Offer → Offer → Type 0
Follows a b =
    a.carrier_id ≡ b.carrier_id → (a.revision < b.revision) × (is_some a.superseded_at ≡ true)

abbrev pub InOrder : List Offer → Type 0
InOrder = IsSorted Follows

-- `p` is the highest revision of the carrier.
pub record IsMax (c : String) (offers : List Offer) (p : Offer) : Type 0 where
  pub listed : In p offers
  pub carrier : p.carrier_id ≡ c
  pub top : (o : Offer) → In o offers → o.carrier_id ≡ c → o.revision ≤ p.revision

abbrev of_carrier : String → Offer → Bool
of_carrier c o = o.carrier_id == c

abbrev later_first : Offer → Offer → Bool
later_first a b = ltb b.revision a.revision

top-least :
    (xs : List Offer) (p o : Offer)
    → IsSorted (λ a b. b.revision ≤ a.revision) xs
    → head? xs ≡ some p
    → In o xs
    → o.revision ≤ p.revision
top-least [] p o s e i = absurd i
top-least (x ∷ xs) p o s e (inl same) = ground arith
top-least (x ∷ xs) p o (k, s) e (inr i) =
    ground (arith, All-In (λ (b : Offer). b.revision ≤ x.revision) xs o k i)

pub previous_offer-IsMax :
    (c : String) (offers : List Offer) (p : Offer)
    → previous_offer c offers ≡ some p
    → IsMax c offers p
unfolding previous_offer
previous_offer-IsMax c offers p e =
    let mine = filter (of_carrier c) offers in
    let (i, k) =
      In-filter (of_carrier c) offers p
        (In-sort later_first mine p (In-head (sort later_first mine) p e)) in
    record {
      listed = i;
      carrier = (eq_iff p.carrier_id c).0 k;
      top = λ o io co.
          top-least (sort later_first mine) p o
            (sort-IsSorted (λ a b. b.revision ≤ a.revision) later_first (λ x y h. ground arith)
              (λ x y h. ground arith) (λ x y z h k. omega arith) mine)
            e
            (In-sort_of later_first mine o
              (In-filter_of (of_carrier c) offers o io ((eq_iff o.carrier_id c).1 co)));
    }

pub previous_offer-none :
    (c : String) (offers : List Offer) (o : Offer)
    → previous_offer c offers ≡ none
    → In o offers
    → o.carrier_id ≢ c
unfolding previous_offer
previous_offer-none c offers o e i co =
    let mine = filter (of_carrier c) offers in
    head-none (sort later_first mine) o e (
      In-sort_of later_first mine o
        (In-filter_of (of_carrier c) offers o i ((eq_iff o.carrier_id c).1 co)))

supersede-Follows :
    (p : Offer) (at : String) (a : Offer) (xs : List Offer)
    → All (Follows a) xs
    → All (Follows a) (supersede_offer p at xs)
unfolding supersede_offer
supersede-Follows p at a [] h = tt
supersede-Follows p at a (x ∷ xs) (k, h) = ground (arith, supersede-Follows p at a xs h)

superseded-Follows :
    (at : String) (a : Offer) (xs : List Offer)
    → All (Follows a) xs
    → All (Follows (record a { superseded_at = some at })) xs
superseded-Follows at a [] h = tt
superseded-Follows at a (x ∷ xs) (k, h) = (λ e. ((k e).0, refl), superseded-Follows at a xs h)

pub supersede-InOrder :
    (p : Offer) (at : String) (xs : List Offer) → InOrder xs → InOrder (supersede_offer p at xs)
unfolding supersede_offer
supersede-InOrder p at [] h = tt
supersede-InOrder p at (x ∷ xs) (k, h) =
    elim (Bool-cases (x.carrier_id == p.carrier_id && eqb x.revision p.revision)) [
      | inl e ↦ rw e (superseded-Follows at x xs k, h)
      | inr e ↦ rw e (supersede-Follows p at x xs k, supersede-InOrder p at xs h)
    ]

pub In-tail :
    (p x : Offer) (xs : List Offer)
    → In p (x ∷ xs)
    → (x.carrier_id == p.carrier_id && eqb x.revision p.revision) ≡ false
    → In p xs
In-tail p x xs (inl same) e = absurd (ground (arith, eq_iff x.carrier_id p.carrier_id))
In-tail p x xs (inr i) e = i

-- Every offer of the carrier is superseded.
abbrev pub Silent : String → List Offer → Type 0
Silent c = All (λ a. a.carrier_id ≡ c → is_some a.superseded_at ≡ true)

-- Nothing of the carrier follows its highest revision.
Silent-after :
    (p x : Offer) (xs : List Offer)
    → x.carrier_id ≡ p.carrier_id
    → x.revision ≡ p.revision
    → All (Follows x) xs
    → ((o : Offer) → In o xs → o.carrier_id ≡ p.carrier_id → o.revision ≤ p.revision)
    → Silent p.carrier_id xs
Silent-after p x xs same rev k top =
    All-of_In (λ a. a.carrier_id ≡ p.carrier_id → is_some a.superseded_at ≡ true) xs
      λ a i e.
        let later = (All-In (Follows x) xs a k i (same ∙ sym e)).0 in
        let bound = top a i e in absurd (omega arith)

pub supersede-Silent :
    (p : Offer) (at : String) (xs : List Offer)
    → InOrder xs
    → IsMax p.carrier_id xs p
    → Silent p.carrier_id (supersede_offer p at xs)
unfolding supersede_offer
supersede-Silent p at [] h m = tt
supersede-Silent p at (x ∷ xs) (k, h) m =
    elim (Bool-cases (x.carrier_id == p.carrier_id && eqb x.revision p.revision)) [
      | inl e ↦ rw e (
        λ _. refl,
        Silent-after p x xs (ground (arith, eq_iff x.carrier_id p.carrier_id)) (ground arith) k
            (λ o i c. m.top o (inr i) c),
      )
      | inr e ↦
          let later = In-tail p x xs m.listed e in
          rw e (
            λ c. (All-In (Follows x) xs p k later c).1,
            supersede-Silent p at xs h
                (record { listed = later; carrier = refl; top = λ o i c. m.top o (inr i) c }),
          )
    ]

-- Where the highest revision is superseded already, so is every offer of its carrier.
pub Silent-of_superseded :
    (p : Offer) (xs : List Offer)
    → InOrder xs
    → IsMax p.carrier_id xs p
    → is_some p.superseded_at ≡ true
    → Silent p.carrier_id xs
Silent-of_superseded p [] h m s = tt
Silent-of_superseded p (x ∷ xs) (k, h) m s = elim m.listed [
  | inl same ↦ (
    λ _. subst (λ y. is_some y.superseded_at ≡ true) same s,
    Silent-after p x xs (ap (λ y. y.carrier_id) (sym same)) (ap (λ y. y.revision) (sym same)) k
        (λ o i c. m.top o (inr i) c),
  )
  | inr later ↦ (
    λ c. (All-In (Follows x) xs p k later c).1,
    Silent-of_superseded p xs h
        (record { listed = later; carrier = refl; top = λ o i c. m.top o (inr i) c }) s,
  )
]

-- Every offer of the carrier has at most this revision.
abbrev pub Below : String → ℕ → List Offer → Type 0
Below c n = All (λ a. a.carrier_id ≡ c → a.revision ≤ n)

pub supersede-Below :
    (p : Offer) (at c : String) (n : ℕ) (xs : List Offer)
    → Below c n xs
    → Below c n (supersede_offer p at xs)
unfolding supersede_offer
supersede-Below p at c n [] h = tt
supersede-Below p at c n (x ∷ xs) (k, h) =
    elim (Bool-cases (x.carrier_id == p.carrier_id && eqb x.revision p.revision)) [
      | inl e ↦ rw e (k, h)
      | inr e ↦ rw e (k, supersede-Below p at c n xs h)
    ]

pub append-Follows :
    (xs : List Offer) (o x : Offer)
    → All (Follows x) xs
    → Follows x o
    → All (Follows x) (xs ++ o ∷ [])
append-Follows [] o x h f = (f, tt)
append-Follows (y ∷ ys) o x (k, h) f = (k, append-Follows ys o x h f)

live_not_superseded : (a : Offer) → a.superseded_at ≡ none → is_some a.superseded_at ≡ true → ⊥
live_not_superseded a e s = ground arith

-- At most one offer of a carrier stands.
pub one_stands :
    (offers : List Offer) (a b : Offer)
    → InOrder offers
    → In a offers
    → In b offers
    → a.superseded_at ≡ none
    → b.superseded_at ≡ none
    → a.carrier_id ≡ b.carrier_id
    → b ≡ a
one_stands [] a b h i j e f c = absurd i
one_stands (x ∷ xs) a b h (inl p) (inl q) e f c = q ∙ sym p
one_stands (x ∷ xs) a b (k, h) (inl p) (inr j) e f c = absurd (
    live_not_superseded x (subst (λ y. y.superseded_at ≡ none) p e)
      (All-In (Follows x) xs b k j (ap (λ y. y.carrier_id) (sym p) ∙ c)).1)
one_stands (x ∷ xs) a b (k, h) (inr i) (inl q) e f c = absurd (
    live_not_superseded x (subst (λ y. y.superseded_at ≡ none) q f)
      (All-In (Follows x) xs a k i (ap (λ y. y.carrier_id) (sym q) ∙ sym c)).1)
one_stands (x ∷ xs) a b (k, h) (inr i) (inr j) e f c = one_stands xs a b h i j e f c
