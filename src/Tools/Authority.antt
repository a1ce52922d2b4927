-- ===== src/Tools/Authority.antt =====
-- What a tool leaves behind it when it has refused.
use volta_hackathon.Prelude.{
  ℕ, String, Option, some, List, [], ◌∷◌, ◌==◌, true, false, find, ◌≡◌, ◌≢◌, ◌⊎◌, ◌∙◌, ◌≤◌,
  DistinctKeys, In, inl, inr, refl, sym, subst, arith, ok, is_some, ap,
}
use volta_hackathon.Domain.Types.{Carrier, Offer, Escalation, CommitmentStatus}
use volta_hackathon.Domain.Policy.{may_close_on_quote, winner}
use volta_hackathon.Domain.Policy.Booking.{may_close_sound, Answered}
use volta_hackathon.Domain.Confirmation.{has_disqualifier}
use volta_hackathon.Domain.Confirmation.Words.{Text, codes}
use volta_hackathon.Store.Environment.{Environment}
use volta_hackathon.Store.Ledger.{add_event, record_decision}
use volta_hackathon.Store.Escalations.{create_escalation, live_escalation}
use volta_hackathon.Store.Escalations.Live.{create_escalation-live}
use volta_hackathon.Prelude.Text.{◌<>◌, trim}
use volta_hackathon.Store.Mutation.{World, mutate, read_snapshot, get_snapshot}
use volta_hackathon.Store.Mutation.Isolation.{AreVersioned, attempt_mutation_isolated, Result-cases}
use volta_hackathon.Store.Session.{Session, Interference, perform, answer, read, ◌>>=◌, ◌>>◌}
use volta_hackathon.Services.Judge.Veto.{Grounds, ask, judge_confirmation_iff}
use volta_hackathon.Services.Judge.{ConfirmationVerdict, ClassifierReply}
use volta_hackathon.Tools.{
  staged, stage_booking_tool, is_quote_call, ChangeArguments, ChangeAnswer, change_event,
  change_decision, change_violations, conclude, change_answer, report_operational_change,
  ConfirmArguments, accepted, confirm_booking_tool, judgement_on, recap_of, reject,
}

-- A session that returned came through its first step.
bind-ok :
    {A B : Type 0} (m : Session A) (f : A → Session B) (w : World) (b : B)
    → ((m >>= f) w).0 ≡ ok b
    → (a : A) × ((m w).0 ≡ ok a) × ((m >>= f) w ≡ f a (m w).1)
bind-ok m f w b h = elim (Result-cases (m w).0) [
  | inl (a, e) ↦ (a, e, rw (e, ◌>>=◌) refl)
  | inr (message, e) ↦ absurd (let h' = rw (e, ◌>>=◌) at h in cc)
]

-- What every second step leaves, the session leaves.
bind-leaves :
    {A B : Type 0} (Q : World → Type 0) (m : Session A) (f : A → Session B) (w : World) (b : B)
    → ((a : A) (w' : World) → (f a w').0 ≡ ok b → Q (f a w').1)
    → ((m >>= f) w).0 ≡ ok b
    → Q ((m >>= f) w).1
bind-leaves Q m f w b k h =
    let (a, e, step) = bind-ok m f w b h in
    subst (λ r. Q r.1) (sym step) (k a (m w).1 (ap (λ r. r.0) (sym step) ∙ h))

module _ (env : Environment) (interference : Interference)
    (versioned : (tick : ℕ) → AreVersioned (interference tick)) where
  performed-live :
      (operation_id call_id reason requested_change : String) (w : World) (e : Escalation)
      → (perform env interference
          (create_escalation env operation_id call_id reason requested_change)
          w).0
        ≡ ok e
      → is_some (
          live_escalation call_id
            (perform env interference
              (create_escalation env operation_id call_id reason requested_change)
              w).1.stored.escalation)
        ≡ true
  unfolding mutate
  performed-live operation_id call_id reason requested_change w e h =
      let (base, by, applied) =
        attempt_mutation_isolated env (interference w.tick)
          (create_escalation env operation_id call_id reason requested_change) 6 w e
          (versioned w.tick) h in
      ap (λ s. is_some (live_escalation call_id s.escalation)) applied.result
      ∙ create_escalation-live env operation_id call_id reason requested_change
          (record { snapshot = base; tick = applied.tick })

  conclude-live :
      (input : ChangeArguments) (violations : List String) (w : World) (a : ChangeAnswer)
      → (conclude env interference input violations w).0 ≡ ok a
      → a.allowed ≡ false
      → is_some (
          live_escalation input.call_id
            (conclude env interference input violations w).1.stored.escalation)
        ≡ true
  unfolding conclude
  conclude-live input [] w a h n = absurd (ground arith)
  conclude-live input (v ∷ vs) w a h n =
      let request =
        create_escalation env input.operation_id input.call_id
          ("Blocked change outside the mandate: " <> input.description) input.description in
      let (e, ok_e, step) =
        bind-ok (perform env interference request) (λ _. answer (change_answer (v ∷ vs))) w a h in
      ap (λ r. is_some (live_escalation input.call_id r.1.stored.escalation)) step
      ∙ performed-live input.operation_id input.call_id
          ("Blocked change outside the mandate: " <> input.description) input.description w e ok_e

  -- A report of a change that returns and does not allow it leaves a live escalation on its call in the
  -- stored snapshot, if the other writers go by the version check.
  pub report_operational_change-live :
      (input : ChangeArguments) (w : World) (a : ChangeAnswer)
      → (report_operational_change env interference input w).0 ≡ ok a
      → a.allowed ≡ false
      → is_some (
          live_escalation input.call_id
            (report_operational_change env interference input w).1.stored.escalation)
        ≡ true
  unfolding report_operational_change
  report_operational_change-live input w a h n =
      let Live : World → Type 0 =
        λ w. is_some (live_escalation input.call_id w.stored.escalation) ≡ true in
      bind-leaves Live (read input.operation_id)
        (λ s.
          perform env interference (add_event env (change_event input (change_violations s input)))
          >> (perform env interference (
                record_decision env
                  (change_decision env interference input (change_violations s input)))
              >> conclude env interference input (change_violations s input)))
        w a
        (λ s w1 h1.
          bind-leaves Live
            (perform env interference
              (add_event env (change_event input (change_violations s input))))
            (λ _.
              perform env interference (
                record_decision env
                  (change_decision env interference input (change_violations s input)))
              >> conclude env interference input (change_violations s input))
            w1 a
            (λ _ w2 h2.
              bind-leaves Live
                (perform env interference (
                  record_decision env
                    (change_decision env interference input (change_violations s input))))
                (λ _. conclude env interference input (change_violations s input)) w2 a
                (λ _ w3 h3. conclude-live input (change_violations s input) w3 a h3 n) h2)
            h1)
        h

module _ (env : Environment) (interference : Interference) where
  staged_inv :
      (operation_id call_id offer_id commitment_id token recap instruction : String) (w : World)
      → (stage_booking_tool env interference operation_id call_id offer_id w).0
        ≡ ok (staged commitment_id token recap instruction)
      → is_quote_call (find (λ call. call.id == call_id) w.stored.calls) ≡ true
      → (may_close_on_quote env.locale_compare w.stored offer_id).allowed ≡ true
  unfolding stage_booking_tool get_snapshot read_snapshot
  staged_inv operation_id call_id offer_id commitment_id token recap instruction w h q =
      ground (arith, q)

  module _ (nfd lower_case : Text → Text)
      (client : Option (String → String → ClassifierReply)) where
    accepted_inv :
        (input : ConfirmArguments) (status : CommitmentStatus) (instruction : String) (w : World)
        → (confirm_booking_tool env interference nfd lower_case client input w).0
          ≡ ok (accepted status instruction)
        → (judgement_on env interference nfd lower_case client w.stored.commitment
            input.confirmation_text).verdict
          ≡ ConfirmationVerdict.confirms
    unfolding confirm_booking_tool get_snapshot read_snapshot reject
    accepted_inv input status instruction w h = ground (arith)

  -- With distinct offer ids, a booking staged on a quote call is one of the standing winner, that met
  -- the target rate or that every other carrier's ended quote call had its chance to beat.
  pub stage_booking_tool-IsAllowed :
      (operation_id call_id offer_id commitment_id token recap instruction : String) (w : World)
      → DistinctKeys (λ o. o.id) w.stored.offers
      → (stage_booking_tool env interference operation_id call_id offer_id w).0
        ≡ ok (staged commitment_id token recap instruction)
      → is_quote_call (find (λ call. call.id == call_id) w.stored.calls) ≡ true
      → (o : Offer) × (o.id ≡ offer_id)
        × (winner env.locale_compare w.stored ≡ some o)
        × ((o.amount ≤ w.stored.mandate.target_rate)
            ⊎ ((carrier : Carrier)
                → In carrier w.stored.carriers
                → carrier.id ≢ o.carrier_id
                → Answered env.locale_compare w.stored carrier))
  stage_booking_tool-IsAllowed operation_id call_id offer_id commitment_id token recap instruction w
        d h q =
      may_close_sound env.locale_compare w.stored offer_id d
        (staged_inv operation_id call_id offer_id commitment_id token recap instruction w h q)

  -- Whatever the classifier replies, the tool accepts a booking only on an answer that is not empty
  -- and that nothing in it disqualifies, judged against the recap of the stored commitment, with
  -- CONFIRMS from the classifier or, where none was reached, the agreement of the strict rules.
  pub confirm_booking_tool-IsGuarded :
      (nfd lower_case : Text → Text) (client : Option (String → String → ClassifierReply))
      (input : ConfirmArguments) (status : CommitmentStatus) (instruction : String) (w : World)
      → (confirm_booking_tool env interference nfd lower_case client input w).0
        ≡ ok (accepted status instruction)
      → ((trim input.confirmation_text == "") ≡ false)
        × (has_disqualifier nfd lower_case (codes (trim input.confirmation_text)) ≡ false)
        × Grounds nfd lower_case
            (trim input.confirmation_text)
            (ask client (recap_of w.stored.commitment) (trim input.confirmation_text))
  confirm_booking_tool-IsGuarded nfd lower_case client input status instruction w h =
      (judge_confirmation_iff nfd lower_case client (recap_of w.stored.commitment)
          input.confirmation_text).0
        (accepted_inv nfd lower_case client input status instruction w h)
