-- ===== src/Domain/Policy/Booking.antt =====
-- Which offers may be booked, and which quote calls may close the deal.
use volta_hackathon.Prelude.{
  ◌≤◌, String, ◌≡◌, ◌≢◌, ◌↔◌, ◌⊎◌, inl, inr, ap, Bool, true, not, ◌&&◌, Option, none, some, arith,
  eq_iff, ◌==◌, In, In-find, find_sound, find-key, ok, key_unique, Option-cases, ◌∙◌, find,
  any_sound, In-all, In-filter_of, DistinctKeys, Ordering, any, filter,
}
use volta_hackathon.Domain.Types.{
  Carrier, CallAttempt, CallMode, CallStatus, Offer, OperationSnapshot,
}
use volta_hackathon.Domain.Policy.{
  winner, assert_offer_bookable, market_is_settled, may_close_on_quote, same_id, is_quote,
  is_settled,
}
use volta_hackathon.Domain.Policy.Ranking.{winner-Wins}

ended_facts :
    (owner : Option String) (mode : CallMode) (status : CallStatus) (id : String)
    → (same_id owner id && (is_quote mode && is_settled status)) ≡ true
    → (owner ≡ some id)
      × (mode ≡ CallMode.quote)
      × ((status ≡ CallStatus.completed) ⊎ (status ≡ CallStatus.failed))
ended_facts none mode status id h = absurd (cc)
ended_facts (some owner) mode status id h = ground (arith, eq_iff owner id)

module _ (locale_compare : String → String → Ordering) (s : OperationSnapshot) where
  bookable_inv :
      (id : String) (o : Offer)
      → assert_offer_bookable locale_compare s id ≡ ok o
      → (find (λ x. x.id == id) s.offers ≡ some o)
        × ((w : Offer) × (winner locale_compare s ≡ some w) × (w.id ≡ o.id))
  unfolding assert_offer_bookable
  bookable_inv id o h = elim (Option-cases (find (λ x. x.id == id) s.offers)) [
    | inl e ↦ absurd (ground arith)
    | inr (p, e) ↦ elim (Option-cases (winner locale_compare s)) [
      | inl f ↦ absurd (ground arith)
      | inr (w, f) ↦ (ground arith, (w, f, ground (arith, eq_iff w.id p.id)))
    ]
  ]

  bookable_wins :
      (id : String) (o : Offer)
      → DistinctKeys (λ x. x.id) s.offers
      → assert_offer_bookable locale_compare s id ≡ ok o
      → (winner locale_compare s ≡ some o) × (o.id ≡ id)
  bookable_wins id o d h =
      let (found, (w, wins, same)) = bookable_inv id o h in
      let listed : In o s.offers = In-find (λ x. x.id == id) s.offers o found in
      let e : w ≡ o =
        key_unique (λ x. x.id) s.offers w o d (winner-Wins locale_compare s w wins).listed listed
          same in
      (
        wins ∙ ap some e,
        (eq_iff o.id id).0 (find_sound (λ (x : Offer). x.id == id) s.offers o found),
      )

  wins_bookable :
      (o : Offer)
      → DistinctKeys (λ x. x.id) s.offers
      → winner locale_compare s ≡ some o
      → assert_offer_bookable locale_compare s o.id ≡ ok o
  unfolding assert_offer_bookable
  wins_bookable o d h =
      let w = winner-Wins locale_compare s o h in
      ground (arith, find-key (λ (x : Offer). x.id) s.offers o d w.listed, eq_iff o.id o.id)

  -- With distinct offer ids, an offer can be booked exactly when it is the current winner.
  pub assert_offer_bookable_iff :
      (o : Offer)
      → DistinctKeys (λ x. x.id) s.offers
      → (assert_offer_bookable locale_compare s o.id ≡ ok o) ↔ (winner locale_compare s ≡ some o)
  assert_offer_bookable_iff o d = (λ h. (bookable_wins o.id o d h).0, wins_bookable o d)

  -- The carrier answered: one of its quote calls has ended.
  abbrev pub Answered : Carrier → Type 0
  Answered carrier =
      (call : CallAttempt) × In call s.calls
      × (call.carrier_id ≡ some carrier.id)
      × (call.mode ≡ CallMode.quote)
      × ((call.status ≡ CallStatus.completed) ⊎ (call.status ≡ CallStatus.failed))

  abbrev ended_quote : Carrier → CallAttempt → Bool
  ended_quote carrier call =
      same_id call.carrier_id carrier.id && (is_quote call.mode && is_settled call.status)

  ended_quote-Answered :
      (carrier : Carrier) → any (ended_quote carrier) s.calls ≡ true → Answered carrier
  ended_quote-Answered carrier h =
      let (call, listed, ended) = any_sound (ended_quote carrier) s.calls h in
      let (owner, mode, status) =
        ended_facts call.carrier_id call.mode call.status carrier.id ended in
      (call, listed, owner, mode, status)

  market_is_settled-Answered :
      (o : Offer)
      → market_is_settled s o ≡ true
      → (carrier : Carrier) → In carrier s.carriers
      → carrier.id ≢ o.carrier_id
      → Answered carrier
  unfolding market_is_settled
  market_is_settled-Answered o h carrier listed other = ended_quote-Answered carrier (
      In-all (λ c. any (ended_quote c) s.calls)
        (filter (λ c. not (c.id == o.carrier_id)) s.carriers) carrier h
        (In-filter_of (λ c. not (c.id == o.carrier_id)) s.carriers carrier listed
          (ground (arith, eq_iff carrier.id o.carrier_id))))

  may_close_inv :
      (id : String)
      → (may_close_on_quote locale_compare s id).allowed ≡ true
      → (o : Offer) × (find (λ x. x.id == id) s.offers ≡ some o)
        × ((w : Offer) × (winner locale_compare s ≡ some w) × (w.id ≡ o.id))
        × ((o.amount ≤ s.mandate.target_rate) ⊎ (market_is_settled s o ≡ true))
  unfolding may_close_on_quote
  may_close_inv id h = elim (Option-cases (find (λ x. x.id == id) s.offers)) [
    | inl e ↦ absurd (ground arith)
    | inr (p, e) ↦ elim (Option-cases (winner locale_compare s)) [
      | inl f ↦ absurd (ground arith)
      | inr (w, f) ↦
          (p, e, (w, f, ground (arith, eq_iff w.id p.id)), ground (arith, eq_iff w.id p.id))
    ]
  ]

  -- With distinct offer ids, a quote call may close the deal only on the current winner, and only if
  -- it met the target rate or every other carrier has a quote call that ended.
  pub may_close_sound :
      (id : String)
      → DistinctKeys (λ x. x.id) s.offers
      → (may_close_on_quote locale_compare s id).allowed ≡ true
      → (o : Offer) × (o.id ≡ id)
        × (winner locale_compare s ≡ some o)
        × ((o.amount ≤ s.mandate.target_rate)
            ⊎ ((carrier : Carrier)
                → In carrier s.carriers
                → carrier.id ≢ o.carrier_id
                → Answered carrier))
  may_close_sound id d h =
      let (o, found, (w, wins, same), why) = may_close_inv id h in
      let e : w ≡ o =
        key_unique (λ x. x.id) s.offers w o d (winner-Wins locale_compare s w wins).listed
          (In-find (λ x. x.id == id) s.offers o found) same in
      (
        o,
        (eq_iff o.id id).0 (find_sound (λ (x : Offer). x.id == id) s.offers o found),
        wins ∙ ap some e,
        elim why [
          | inl cheap ↦ inl cheap
          | inr settled ↦ inr (market_is_settled-Answered o settled)
        ],
      )
