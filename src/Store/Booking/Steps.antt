-- ===== src/Store/Booking/Steps.antt =====
-- What each step on the commitment needs and does, and the run from a staged to a confirmed booking.
use volta_hackathon.Prelude.{
  ◌+◌, ◌*◌, ◌≤◌, String, ◌≡◌, refl, ap, ◌∙◌, some, arith, eq_iff, eq_refl, sym, ok, err, Result,
  Option-cases, inl, inr,
}
use volta_hackathon.Domain.Types.{
  Offer, Commitment, proposed, verbally_confirmed, OperationSnapshot,
}
use volta_hackathon.Domain.Policy.{assert_offer_bookable, winner, rank_offers}
use volta_hackathon.Domain.Commitment.{transition_commitment}
use volta_hackathon.Store.Environment.{Environment, IsClock}
use volta_hackathon.Store.Action.{Draft}
use volta_hackathon.Store.Ledger.{write_event, write_decision}
use volta_hackathon.Store.Booking.{stage_booking, confirm_booking, StageBookingResult}

module _ (env : Environment) where
  -- What holds before and after a successful confirmation.
  pub record Confirms (id token : String) (d : Draft) (after : OperationSnapshot) (c' : Commitment)
      : Type 0 where
    pub before : Commitment
    pub standing : d.snapshot.commitment ≡ some before
    pub named : before.id ≡ id
    pub was_proposed : before.status ≡ proposed
    pub in_time : env.millis d.tick ≤ env.parse_time before.token_expires_at
    pub token_matches : env.sha256 token ≡ before.confirmation_token_hash
    pub offer : Offer
    pub still_bookable :
        assert_offer_bookable env.locale_compare d.snapshot before.offer_id ≡ ok offer
    pub now_confirmed : c'.status ≡ verbally_confirmed
    pub same_terms :
        (c'.id ≡ before.id) × (c'.offer_id ≡ before.offer_id) × (c'.recap_text ≡ before.recap_text)
    pub stored : after.commitment ≡ some c'

  bookable_offer :
      (r : Result Offer) (P : Type 0)
      → ((o : Offer) → r ≡ ok o → P)
      → ((m : String) → r ≡ err m → P)
      → P
  bookable_offer (ok o) P f g = f o refl
  bookable_offer (err m) P f g = g m refl

  -- A confirmation that succeeds needed the named commitment to stand as a proposal, a token that
  -- matches and has not expired and an offer that is still bookable, and it leaves the same terms
  -- verbally confirmed.
  pub confirm_booking-Confirms :
      (id token : String) (d : Draft) (c' : Commitment)
      → (confirm_booking env id token d).0 ≡ ok c'
      → Confirms id token d (confirm_booking env id token d).1.snapshot c'
  unfolding confirm_booking transition_commitment write_event write_decision
  confirm_booking-Confirms id token d c' r = elim (Option-cases d.snapshot.commitment) [
    | inl e ↦ absurd (ground arith)
    | inr (c, e) ↦
        bookable_offer (assert_offer_bookable env.locale_compare d.snapshot c.offer_id) _
          (λ o b. record {
            before = c;
            standing = e;
            named = ground (arith, eq_iff c.id id);
            was_proposed = ground arith;
            in_time = ground arith;
            token_matches = ground (arith, eq_iff (env.sha256 token) c.confirmation_token_hash);
            offer = o;
            still_bookable = b;
            now_confirmed = ground arith;
            same_terms = ground arith;
            stored = ground arith;
          })
          (λ m b. absurd (ground arith))
  ]

  -- What a successful staging leaves: a fresh proposal for the current winner, under the hash of the
  -- token that it returns, with twenty minutes to confirm.
  pub record Stages (operation_id offer_id : String) (d : Draft) (after : Draft)
      (r : StageBookingResult) : Type 0 where
    pub OnOperation : d.snapshot.operation.id ≡ operation_id
    pub offer : Offer
    pub bookable : assert_offer_bookable env.locale_compare d.snapshot offer_id ≡ ok offer
    pub stored : after.snapshot.commitment ≡ some r.commitment
    pub is_proposed : r.commitment.status ≡ proposed
    pub for_offer :
        (r.commitment.offer_id ≡ offer_id) × (r.commitment.carrier_id ≡ offer.carrier_id)
    pub token_hash : r.commitment.confirmation_token_hash ≡ env.sha256 r.confirmation_token
    pub expires : r.commitment.token_expires_at ≡ env.iso (env.millis (d.tick + 2) + 20 * 60000)
    pub same_market :
        (after.snapshot.offers ≡ d.snapshot.offers)
        × (after.snapshot.carriers ≡ d.snapshot.carriers)

  -- Staging that succeeds was for a bookable offer of the operation, and leaves a proposal for that
  -- offer, with the hash of the returned token and twenty minutes to confirm it.
  pub stage_booking-Stages :
      (operation_id offer_id call_id : String) (d : Draft) (r : StageBookingResult)
      → (stage_booking env operation_id offer_id call_id d).0 ≡ ok r
      → Stages operation_id offer_id d (stage_booking env operation_id offer_id call_id d).1 r
  unfolding stage_booking write_event write_decision
  stage_booking-Stages operation_id offer_id call_id d r h =
      bookable_offer (assert_offer_bookable env.locale_compare d.snapshot offer_id) _
        (λ o b. record {
          OnOperation = ground (arith, eq_iff d.snapshot.operation.id operation_id);
          offer = o;
          bookable = b;
          stored = ground arith;
          is_proposed = ground arith;
          for_offer = ground arith;
          token_hash = ground arith;
          expires = ground arith;
          same_market = ground arith;
        })
        (λ m b. absurd (ground arith))

  assert_same_market :
      (s t : OperationSnapshot) (id : String)
      → t.offers ≡ s.offers
      → t.carriers ≡ s.carriers
      → assert_offer_bookable env.locale_compare t id
        ≡ assert_offer_bookable env.locale_compare s id
  unfolding assert_offer_bookable winner rank_offers
  assert_same_market s t id e f = rw (e, f)

  confirm_booking_succeeds :
      (d : Draft) (token : String) (c : Commitment) (o : Offer)
      → d.snapshot.commitment ≡ some c
      → c.status ≡ proposed
      → env.millis d.tick ≤ env.parse_time c.token_expires_at
      → env.sha256 token ≡ c.confirmation_token_hash
      → assert_offer_bookable env.locale_compare d.snapshot c.offer_id ≡ ok o
      → (confirm_booking env c.id token d).0
        ≡ ok (record c {
          status = verbally_confirmed;
          verbally_confirmed_at = some (env.iso (env.millis (d.tick + 1)));
        })
  unfolding confirm_booking transition_commitment
  confirm_booking_succeeds d token c o e st t k b =
      ground (arith, eq_refl c.id, eq_iff (env.sha256 token) c.confirmation_token_hash)

  -- Confirming what was just staged, with the token that staging returned and before it expires,
  -- succeeds, under a clock whose printed times parse back: the stored commitment is then the returned
  -- one, verbally confirmed, for that offer.
  pub confirm_booking-stage_booking :
      IsClock env
      → (operation_id offer_id call_id : String) (d later : Draft) (r : StageBookingResult)
      → (stage_booking env operation_id offer_id call_id d).0 ≡ ok r
      → later.snapshot ≡ (stage_booking env operation_id offer_id call_id d).1.snapshot
      → env.millis later.tick ≤ env.millis (d.tick + 2) + 20 * 60000
      → (c : Commitment) × ((confirm_booking env r.commitment.id r.confirmation_token later).0
          ≡ ok c)
        × ((confirm_booking env r.commitment.id r.confirmation_token later).1.snapshot.commitment
            ≡ some c)
        × (c.id ≡ r.commitment.id)
        × (c.status ≡ verbally_confirmed)
        × (c.offer_id ≡ offer_id)
  confirm_booking-stage_booking clk operation_id offer_id call_id d later r h same soon =
      let st = stage_booking-Stages operation_id offer_id call_id d r h in
      let stored : later.snapshot.commitment ≡ some r.commitment =
        ap (λ (x : OperationSnapshot). x.commitment) same ∙ st.stored in
      let bookable =
        assert_same_market d.snapshot later.snapshot offer_id
          (ap (λ (x : OperationSnapshot). x.offers) same ∙ st.same_market.0)
          (ap (λ (x : OperationSnapshot). x.carriers) same ∙ st.same_market.1)
        ∙ st.bookable in
      let in_time : env.millis later.tick ≤ env.parse_time r.commitment.token_expires_at =
        rw st.expires (rw (clk.round_trip (env.millis (d.tick + 2) + 20 * 60000)) soon) in
      let c' : Commitment = record r.commitment {
        status = verbally_confirmed;
        verbally_confirmed_at = some (env.iso (env.millis (later.tick + 1)));
      } in
      let returned =
        confirm_booking_succeeds later r.confirmation_token r.commitment st.offer stored
          st.is_proposed in_time (sym st.token_hash)
          (ap (assert_offer_bookable env.locale_compare later.snapshot) st.for_offer.0
            ∙ bookable) in
      (
        c',
        returned,
        (confirm_booking-Confirms r.commitment.id r.confirmation_token later c' returned).stored,
        refl,
        refl,
        st.for_offer.0,
      )
