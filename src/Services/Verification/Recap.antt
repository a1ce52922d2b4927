-- ===== src/Services/Verification/Recap.antt =====
-- lib/services/verification.ts: `sendCommitmentRecap`, and the channels that deliver.
use volta_hackathon.Prelude.{
  ℕ, String, Option, none, some, List, [], Bool, true, false, ◌&&◌, ◌==◌, find, Result, ok, err,
  is_ok, if◌then◌else◌, ◌≡◌, ◌≢◌, inl, inr, refl, arith, sym, subst, ◌∙◌, Option-cases,
}
use volta_hackathon.Domain.Types.{Commitment, OperationSnapshot}
use volta_hackathon.Store.Environment.{Environment}
use volta_hackathon.Store.Mutation.{World, mutate, attempts, default_operation}
use volta_hackathon.Store.Mutation.Isolation.{Result-cases}
use volta_hackathon.Store.Mutation.Isolation.Keeps.{attempt_mutation-Keeps}
use volta_hackathon.Store.Ledger.{EventInput, add_event, write_event}
use volta_hackathon.Store.Session.{Session, Interference, answer, read, perform, ◌>>=◌, ◌>>◌}
use volta_hackathon.Services.Verification.{
  Channels, Delivery, delivered_as, Attempts, no_attempts, deliver_text_recap, attempt,
  attempt_text, attempt_email, conclude, send_recap, send_commitment_recap, recap_body,
  recap_subject, has_address, awaits_recap,
}

-- Other writers leave the commitment alone.
abbrev pub KeepCommitment : Interference → Type 0
KeepCommitment interference =
    (tick n : ℕ) (s : OperationSnapshot) → (interference tick n s).commitment ≡ s.commitment

module _ (env : Environment) (interference : Interference)
    (keep : KeepCommitment interference) where
  add_event-commitment :
      (input : EventInput) (w : World)
      → (perform env interference (add_event env input) w).1.stored.commitment ≡ w.stored.commitment
  unfolding mutate
  add_event-commitment input w =
      attempt_mutation-Keeps env (interference w.tick) (add_event env input)
        (λ s. s.commitment ≡ w.stored.commitment) (λ n s p. keep w.tick n s ∙ p) (λ s v at p. p)
        (λ d a p e. unfold add_event write_event in p) attempts w refl

  module _ (channels : Channels)
      (text_fails : (phone body : String) → is_ok (deliver_text_recap channels phone body) ≡ false)
      (email_fails : (address subject body : String)
        → channels.is_email_configured && is_ok (channels.send_recap_email address subject body)
          ≡ false) where
    -- A session that returns no commitment and leaves the stored one.
    abbrev Idle : Session (Option Commitment) → World → Type 0
    Idle m w =
        ((c : Commitment) → (m w).0 ≢ ok (some c))
        × ((m w).1.stored.commitment ≡ w.stored.commitment)

    attempt_fails :
        (channel prefix : String) (r : Result Delivery) (event : Delivery → EventInput)
        (a : Attempts) (w : World)
        → is_ok r ≡ false
        → (f : List String) × (attempt env interference channel prefix r event a w
            ≡ (ok (record { delivered = a.delivered; failed = f }), w))
    unfolding attempt
    attempt_fails channel prefix (ok d) event a w h = absurd (cc)
    attempt_fails channel prefix (err m) event a w h = (_, refl)

    after :
        {A : Type 0} (m : Session A) (k : A → Session (Option Commitment)) (w : World)
        → (m w).1.stored.commitment ≡ w.stored.commitment
        → ((a : A) → (m w).0 ≡ ok a → Idle (k a) (m w).1)
        → Idle (m >>= k) w
    after m k w kept h = elim (Result-cases (m w).0) [
      | inl (a, e) ↦ rw (e, ◌>>=◌) ((h a e).0, (h a e).1 ∙ kept)
      | inr (message, e) ↦ rw (e, ◌>>=◌) ((λ c. λ f. absurd (cc)), kept)
    ]

    conclude_fails :
        (c : Commitment) (call_id : String) (failed : List String) (w : World)
        → Idle (conclude env interference c call_id [] failed) w
    unfolding conclude
    conclude_fails c call_id failed w =
        after (perform env interference (add_event env _)) (λ e. answer none) w
          (add_event-commitment _ w) (λ a e. ((λ c. λ f. absurd (cc)), refl))

    -- A session that delivers nothing and leaves the stored commitment.
    abbrev Misses : Session Attempts → World → Type 0
    Misses m w =
        ((b : Attempts) → (m w).0 ≡ ok b → b.delivered ≡ [])
        × ((m w).1.stored.commitment ≡ w.stored.commitment)

    logged_miss :
        (input : EventInput) (a : Attempts) (w : World)
        → a.delivered ≡ []
        → Misses (perform env interference (add_event env input) >> answer a) w
    logged_miss input a w h =
        elim (Result-cases (perform env interference (add_event env input) w).0) [
          | inl (b, e) ↦ rw (e, ◌>>◌, ◌>>=◌) ((λ b' f. cc), add_event-commitment input w)
          | inr (message, e) ↦
              rw (e, ◌>>◌, ◌>>=◌) ((λ b' f. absurd (cc)), add_event-commitment input w)
        ]

    failed_miss :
        (channel prefix : String) (r : Result Delivery) (event : Delivery → EventInput)
        (a : Attempts) (w : World)
        → is_ok r ≡ false
        → a.delivered ≡ []
        → Misses (attempt env interference channel prefix r event a) w
    failed_miss channel prefix r event a w f h =
        let (failed, e) = attempt_fails channel prefix r event a w f in rw (e) ((λ b g. cc), refl)

    relabelled : (r : Result String) → is_ok (delivered_as "email" "" r) ≡ is_ok r
    relabelled (ok id) = refl
    relabelled (err message) = refl

    only : {b c : Bool} → b ≡ true → b && c ≡ false → c ≡ false
    only e f = ground arith

    either :
        (b : Bool) (x y : Session Attempts) (w : World)
        → (b ≡ true → Misses x w)
        → (b ≡ false → Misses y w)
        → Misses (if b then x else y) w
    either true x y w f g = f refl
    either false x y w f g = g refl

    email-Misses :
        (c : Commitment) (call_id subject : String) (address : Option String) (a : Attempts)
        (w : World)
        → a.delivered ≡ []
        → Misses (attempt_email env interference channels c call_id subject address a) w
    unfolding attempt_email
    email-Misses c call_id subject none a w h = ((λ b e. cc), refl)
    email-Misses c call_id subject (some email) a w h =
        let f = email_fails email subject (recap_body c) in
        either channels.is_email_configured _ _ w
          (λ e.
            failed_miss "email" "EM_"
              (delivered_as "email" "" (channels.send_recap_email email subject (recap_body c))) _ a
              w (relabelled _ ∙ only e f) h)
          (λ e. logged_miss _ a w h)

    text-Misses :
        (c : Commitment) (call_id phone : String) (w : World)
        → Misses (attempt_text env interference channels c call_id phone no_attempts) w
    unfolding attempt_text
    text-Misses c call_id phone w =
        failed_miss "text" "" (deliver_text_recap channels phone (recap_body c)) _ no_attempts w
          (text_fails phone (recap_body c)) refl

    nothing_concluded :
        (c : Commitment) (call_id : String) (b : Attempts) (w : World)
        → b.delivered ≡ []
        → Idle (conclude env interference c call_id b.delivered b.failed) w
    nothing_concluded c call_id b w e =
        subst (λ d. Idle (conclude env interference c call_id d b.failed) w) (sym e)
          (conclude_fails c call_id b.failed w)

    emailed :
        (c : Commitment) (call_id subject : String) (address : Option String) (a : Attempts)
        (w : World)
        → a.delivered ≡ []
        → Idle
            (attempt_email env interference channels c call_id subject address a >>= λ b.
              conclude env interference c call_id b.delivered b.failed)
            w
    emailed c call_id subject address a w h =
        let e = attempt_email env interference channels c call_id subject address a in
        let m = email-Misses c call_id subject address a w h in
        after e (λ b. conclude env interference c call_id b.delivered b.failed) w m.1
          (λ b g. nothing_concluded c call_id b (e w).1 (m.0 b g))

    send_recap_fails :
        (s : OperationSnapshot) (call_id : String) (c : Option Commitment) (w : World)
        → Idle (send_recap env interference channels s call_id c) w
    unfolding send_recap
    send_recap_fails s call_id none w = ((λ c f. cc), refl)
    send_recap_fails s call_id (some c) w =
        elim (Option-cases (find (λ x. x.id == c.carrier_id) s.carriers)) [
          | inl e ↦ rw (e, send_recap, Idle) ((λ c f. cc), refl)
          | inr (carrier, e) ↦
              rw (e, send_recap, Idle)
                (let t = text-Misses c call_id carrier.phone_e164 w in
                  after
                    (attempt_text env interference channels c call_id carrier.phone_e164
                      no_attempts)
                    (λ a.
                      attempt_email env interference channels c call_id (recap_subject s)
                        (has_address carrier.email) a
                      >>= λ b. conclude env interference c call_id b.delivered b.failed)
                    w t.1
                    (λ a f.
                      emailed c call_id (recap_subject s) (has_address carrier.email) a
                        (attempt_text env interference channels c call_id carrier.phone_e164
                          no_attempts w).1
                        (t.0 a f)))
        ]

    -- If neither the text channel nor, where it is configured, the e-mail delivers, then
    -- `sendCommitmentRecap` returns no commitment: it answers null or throws. As long as the other
    -- writers leave the commitment alone, the stored one is then what it was.
    pub send_commitment_recap_undelivered :
        (call_id : String) (w : World)
        → ((c : Commitment)
            → (send_commitment_recap env interference channels call_id w).0 ≢ ok (some c))
          × ((send_commitment_recap env interference channels call_id w).1.stored.commitment
              ≡ w.stored.commitment)
    unfolding send_commitment_recap
    send_commitment_recap_undelivered call_id w =
        after (read default_operation)
          (λ s. send_recap env interference channels s call_id (awaits_recap call_id s.commitment))
          w refl (λ s e. send_recap_fails s call_id (awaits_recap call_id s.commitment) w)
