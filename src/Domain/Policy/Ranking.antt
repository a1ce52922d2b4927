-- ===== src/Domain/Policy/Ranking.antt =====
-- Which offers stand, and which of them wins.
use volta_hackathon.Prelude.{
  ◌≤◌, ◌<◌, String, ◌≡◌, ◌≢◌, ◌⊎◌, inl, inr, refl, Bool, true, false, not, none, some, List, [],
  ◌∷◌, arith, eq_iff, In, All, All-In, In-filter, In-filter_of, subst, sym, In-head, filter,
  is_some, Bool-cases, head-none, Ordering, head?,
}
use volta_hackathon.Prelude.Sort.{IsSorted, sort-IsSorted, In-sort, In-sort_of}
use volta_hackathon.Domain.Types.{Carrier, Offer, OperationSnapshot}
use volta_hackathon.Domain.Policy.{
  keep_latest, latest_from, latest_offers, compare_offers, rank_offers, winner, is_negative,
}

In-keep_latest :
    (current : List Offer) (o a : Offer) → In a (keep_latest current o) → (a ≡ o) ⊎ In a current
unfolding keep_latest
In-keep_latest [] o a h = h
In-keep_latest (p ∷ ps) o a h = ground (arith, In-keep_latest ps o a)

In-latest_from :
    (current offers : List Offer) (a : Offer)
    → In a (latest_from current offers)
    → In a current ⊎ In a offers
unfolding latest_from
In-latest_from current [] a h = inl h
In-latest_from current (o ∷ offers) a h =
    ground (arith, In-latest_from (keep_latest current o) offers a, In-keep_latest current o a)

-- The list holds an offer of the same carrier, at the same revision or a later one.
abbrev pub Covers : List Offer → Offer → Type 0
Covers [] o = ⊥
Covers (l ∷ ls) o = ((l.carrier_id ≡ o.carrier_id) × (o.revision ≤ l.revision)) ⊎ Covers ls o

Covers-keep_latest_new : (current : List Offer) (o : Offer) → Covers (keep_latest current o) o
unfolding keep_latest
Covers-keep_latest_new [] o = inl (refl, omega arith)
Covers-keep_latest_new (p ∷ ps) o =
    ground (arith, eq_iff p.carrier_id o.carrier_id, Covers-keep_latest_new ps o)

Covers-keep_latest :
    (current : List Offer) (o a : Offer) → Covers current a → Covers (keep_latest current o) a
unfolding keep_latest
Covers-keep_latest [] o a h = absurd h
Covers-keep_latest (p ∷ ps) o a h =
    ground (arith, eq_iff p.carrier_id o.carrier_id, Covers-keep_latest ps o a)

Covers-latest_from_kept :
    (current offers : List Offer) (a : Offer)
    → Covers current a
    → Covers (latest_from current offers) a
unfolding latest_from
Covers-latest_from_kept current [] a h = h
Covers-latest_from_kept current (o ∷ offers) a h =
    Covers-latest_from_kept (keep_latest current o) offers a (Covers-keep_latest current o a h)

Covers-latest_from :
    (current offers : List Offer) (a : Offer) → In a offers → Covers (latest_from current offers) a
unfolding latest_from
Covers-latest_from current [] a h = absurd h
Covers-latest_from current (o ∷ offers) a (inl e) =
    Covers-latest_from_kept (keep_latest current o) offers a
      (subst (Covers (keep_latest current o)) (sym e) (Covers-keep_latest_new current o))
Covers-latest_from current (o ∷ offers) a (inr h) =
    Covers-latest_from (keep_latest current o) offers a h

-- No two offers of the list are of one carrier.
abbrev pub OnePerCarrier : List Offer → Type 0
OnePerCarrier = IsSorted (λ a b. a.carrier_id ≢ b.carrier_id)

keep_latest-avoids :
    (c : Offer) (ps : List Offer) (o : Offer)
    → All (λ b. c.carrier_id ≢ b.carrier_id) ps
    → c.carrier_id ≢ o.carrier_id
    → All (λ b. c.carrier_id ≢ b.carrier_id) (keep_latest ps o)
unfolding keep_latest
keep_latest-avoids c [] o h k = (k, tt)
keep_latest-avoids c (p ∷ ps) o h k =
    ground (arith, eq_iff p.carrier_id o.carrier_id, keep_latest-avoids c ps o h.1 k)

avoids_same :
    (p o : Offer) (ps : List Offer)
    → p.carrier_id ≡ o.carrier_id
    → All (λ b. p.carrier_id ≢ b.carrier_id) ps
    → All (λ b. o.carrier_id ≢ b.carrier_id) ps
avoids_same p o [] e h = tt
avoids_same p o (q ∷ qs) e (k, h) = (ground arith, avoids_same p o qs e h)

keep_latest-OnePerCarrier :
    (current : List Offer) (o : Offer)
    → OnePerCarrier current
    → OnePerCarrier (keep_latest current o)
unfolding keep_latest
keep_latest-OnePerCarrier [] o h = (tt, tt)
keep_latest-OnePerCarrier (p ∷ ps) o (k, h) = ground (
  arith,
  eq_iff p.carrier_id o.carrier_id,
  avoids_same p o ps,
  keep_latest-avoids p ps o k,
  keep_latest-OnePerCarrier ps o h,
)

latest_from-OnePerCarrier :
    (current offers : List Offer)
    → OnePerCarrier current
    → OnePerCarrier (latest_from current offers)
unfolding latest_from
latest_from-OnePerCarrier current [] h = h
latest_from-OnePerCarrier current (o ∷ offers) h =
    latest_from-OnePerCarrier (keep_latest current o) offers (keep_latest-OnePerCarrier current o h)

abbrev live : Offer → Bool
live o = not (is_some o.superseded_at)

-- What `latest_offers` promises: it returns standing offers of the list, no two of one carrier, and
-- every standing offer is covered by the one of its carrier.
pub record IsLatest (offers current : List Offer) : Type 0 where
  pub from_list : (o : Offer) → In o current → In o offers × (o.superseded_at ≡ none)
  pub one_each : OnePerCarrier current
  pub covers : (o : Offer) → In o offers → o.superseded_at ≡ none → Covers current o

live→none : (o : Offer) → live o ≡ true → o.superseded_at ≡ none
live→none o h = ground arith

-- `latest_offers` returns, for each carrier with a standing offer, exactly one standing offer of the
-- list, at the carrier's highest standing revision.
pub latest_offers-IsLatest : (offers : List Offer) → IsLatest offers (latest_offers offers)
unfolding latest_offers
latest_offers-IsLatest offers = record {
  from_list =
      λ o i. ground (arith, In-latest_from [] (filter live offers) o i, In-filter live offers o);
  one_each = latest_from-OnePerCarrier [] (filter live offers) tt;
  covers =
      λ o i e. Covers-latest_from [] (filter live offers) o (In-filter_of live offers o i (rw e));
}

abbrev pub Cheapest : List Offer → Type 0
Cheapest = IsSorted (λ a b. a.amount ≤ b.amount)

head-least :
    (xs : List Offer) (w o : Offer)
    → Cheapest xs
    → head? xs ≡ some w
    → In o xs
    → w.amount ≤ o.amount
head-least [] w o c e i = absurd i
head-least (x ∷ xs) w o c e (inl same) = ground arith
head-least (x ∷ xs) w o (k, c) e (inr i) =
    ground (arith, All-In (λ b. x.amount ≤ b.amount) xs o k i)

module _ (locale_compare : String → String → Ordering) where
  abbrev before : List Carrier → Offer → Offer → Bool
  before carriers a b = is_negative (compare_offers locale_compare carriers a b)

  before-amount :
      (carriers : List Carrier) (a b : Offer) → before carriers a b ≡ true → a.amount ≤ b.amount
  unfolding compare_offers
  before-amount carriers a b h = ground arith

  after-amount :
      (carriers : List Carrier) (a b : Offer) → before carriers a b ≡ false → b.amount ≤ a.amount
  unfolding compare_offers
  after-amount carriers a b h = ground arith

  rank_offers-Cheapest : (s : OperationSnapshot) → Cheapest (rank_offers locale_compare s)
  unfolding rank_offers
  rank_offers-Cheapest s =
      sort-IsSorted (λ a b. a.amount ≤ b.amount) (before s.carriers) (before-amount s.carriers)
        (after-amount s.carriers) (λ a b c p q. omega arith)
        (filter (λ o. o.eligible) (latest_offers s.offers))

-- `o` is the offer that its carrier stands by: it is not superseded, and every other standing offer
-- of the carrier has a lower revision.
pub record IsStanding (offers : List Offer) (o : Offer) : Type 0 where
  pub listed : In o offers
  pub live : o.superseded_at ≡ none
  pub newest :
      (p : Offer)
      → In p offers
      → p.superseded_at ≡ none
      → p.carrier_id ≡ o.carrier_id
      → (p ≡ o) ⊎ (p.revision < o.revision)

covering :
    (current : List Offer) (o : Offer)
    → Covers current o
    → (l : Offer) × In l current × (l.carrier_id ≡ o.carrier_id) × (o.revision ≤ l.revision)
covering [] o h = absurd h
covering (l ∷ ls) o (inl (e, r)) = (l, inl refl, e, r)
covering (l ∷ ls) o (inr h) = let (m, i, e, r) = covering ls o h in (m, inr i, e, r)

latest_offers-keeps_standing :
    (offers : List Offer) (o : Offer) → IsStanding offers o → In o (latest_offers offers)
latest_offers-keeps_standing offers o st =
    let spec = latest_offers-IsLatest offers in
    let (l, i, same, later) = covering (latest_offers offers) o (spec.covers o st.listed st.live) in
    let (listed, live) = spec.from_list l i in
    elim (st.newest l listed live same) [
      | inl e ↦ subst (λ x. In x (latest_offers offers)) e i
      | inr lower ↦ absurd (omega arith)
    ]

module _ (locale_compare : String → String → Ordering) (s : OperationSnapshot) where
  -- What a winner is: an eligible standing offer of the list, at no more than any eligible offer
  -- that a carrier stands by.
  pub record Wins (w : Offer) : Type 0 where
    pub listed : In w s.offers
    pub live : w.superseded_at ≡ none
    pub eligible : w.eligible ≡ true
    pub cheapest : (o : Offer) → IsStanding s.offers o → o.eligible ≡ true → w.amount ≤ o.amount

  In-rank_offers :
      (o : Offer)
      → In o (rank_offers locale_compare s)
      → In o (latest_offers s.offers) × (o.eligible ≡ true)
  unfolding rank_offers
  In-rank_offers o i =
      In-filter (λ x. x.eligible) (latest_offers s.offers) o
        (In-sort (before locale_compare s.carriers)
          (filter (λ x. x.eligible) (latest_offers s.offers)) o i)

  In-rank_offers_of :
      (o : Offer) → IsStanding s.offers o → o.eligible ≡ true → In o (rank_offers locale_compare s)
  unfolding rank_offers
  In-rank_offers_of o st e =
      In-sort_of (before locale_compare s.carriers)
        (filter (λ x. x.eligible) (latest_offers s.offers)) o
        (In-filter_of (λ x. x.eligible) (latest_offers s.offers) o
          (latest_offers-keeps_standing s.offers o st) e)

  -- The winner is a standing, eligible offer of the list, and no standing eligible offer is cheaper.
  pub winner-Wins : (w : Offer) → winner locale_compare s ≡ some w → Wins w
  unfolding winner
  winner-Wins w e =
      let (i, eligible) = In-rank_offers w (In-head (rank_offers locale_compare s) w e) in
      let (listed, live) = (latest_offers-IsLatest s.offers).from_list w i in
      record {
        listed = listed;
        live = live;
        eligible = eligible;
        cheapest = λ o st el.
            head-least (rank_offers locale_compare s) w o (rank_offers-Cheapest locale_compare s) e
              (In-rank_offers_of o st el);
      }

  -- There is no winner only when no carrier stands by an eligible offer.
  pub winner-none :
      winner locale_compare s ≡ none → (o : Offer) → IsStanding s.offers o → o.eligible ≡ false
  unfolding winner
  winner-none e o st = elim (Bool-cases o.eligible) [
    | inl yes' ↦ absurd (head-none (rank_offers locale_compare s) o e (In-rank_offers_of o st yes'))
    | inr no' ↦ no'
  ]
