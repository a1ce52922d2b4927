-- ===== src/Services/Handoff/Order.antt =====
-- lib/services/operations.ts: `takeOver`, and what it records of the handoff.
use volta_hackathon.Prelude.{
  ℕ, String, Option, none, some, Bool, true, false, ◌&&◌, ◌||◌, find, In, In-find, ◌==◌, or_throw,
  ok, is_some, if◌then◌else◌, ◌≡◌, ◌⊎◌, inl, inr, refl, arith, sym, subst, Option-cases,
}
use volta_hackathon.Domain.Types.{
  CallAttempt, Escalation, dialing, OperationSnapshot, VoiceProvider,
}
use volta_hackathon.Store.Environment.{Environment}
use volta_hackathon.Store.Action.{Action}
use volta_hackathon.Store.Mutation.{World, mutate, attempts, get_snapshot}
use volta_hackathon.Store.Mutation.Isolation.{Result-cases}
use volta_hackathon.Store.Mutation.Isolation.Keeps.{attempt_mutation-Keeps}
use volta_hackathon.Store.Ledger.{EventInput, add_event, write_event}
use volta_hackathon.Store.Escalations.{update_escalation}
use volta_hackathon.Store.Booking.Invariant.{Keeps}
use volta_hackathon.Store.Session.{Session, Interference, answer, read, perform, ◌>>=◌, ◌>>◌}
use volta_hackathon.Services.Operations.{lifted}
use volta_hackathon.Services.Handoff.{
  HandoffProvider, present, trimmed, take_over, hand_off, take_over_whatsapp, call_operator,
}

-- The handoff reaches a telephone: the transport dials, or a transfer or a call to the operator is
-- possible.
abbrev pub rings_human : HandoffProvider → Option String → Option String → VoiceProvider → Bool
rings_human p phone provider_call_id VoiceProvider.whatsapp =
    is_some (trimmed phone) && (is_some (present provider_call_id) || p.is_telnyx_configured)
rings_human p phone provider_call_id _ = true

abbrev pub IsDialing : Option Escalation → Type 0
IsDialing none = ⊥
IsDialing (some e) = e.status ≡ dialing

module _ (env : Environment) (interference : Interference)
    (keep : (tick n : ℕ) (s : OperationSnapshot)
      → (interference tick n s).escalation ≡ s.escalation)
    (before : Option Escalation) where
  -- The escalation is what it was before, or it is being dialled.
  abbrev Waits : OperationSnapshot → Type 0
  Waits s = (s.escalation ≡ before) ⊎ IsDialing s.escalation

  perform-Waits :
      {A : Type 0} (fn : Action A)
      → Keeps Waits fn
      → (w : World) → Waits w.stored
      → Waits (perform env interference fn w).1.stored
  unfolding mutate
  perform-Waits fn k w p =
      attempt_mutation-Keeps env (interference w.tick) fn Waits
        (λ n s q. subst (λ e. (e ≡ before) ⊎ IsDialing e) (sym (keep w.tick n s)) q) (λ s v at q. q)
        k attempts w p

  add_event-Waits : (input : EventInput) → Keeps Waits (add_event env input)
  unfolding add_event write_event
  add_event-Waits input d a p e = p

  dialing-Waits : (id : String) → Keeps Waits (update_escalation env id dialing)
  unfolding update_escalation write_event
  dialing-Waits id d a p e = inr (ground arith)

  abbrev KeepsWaits : {A : Type 0} → Session A → Type 0
  KeepsWaits m = (w : World) → Waits w.stored → Waits (m w).1.stored

  bind-Waits :
      {A B : Type 0} (m : Session A) (k : A → Session B)
      → KeepsWaits m
      → ((a : A) → KeepsWaits (k a))
      → KeepsWaits (m >>= k)
  bind-Waits m k h g w p = elim (Result-cases (m w).0) [
    | inl (a, e) ↦ rw (e, ◌>>=◌) (g a (m w).1 (h w p))
    | inr (message, e) ↦ rw (e, ◌>>=◌) (h w p)
  ]

  logged-Waits :
      (input : EventInput)
      → KeepsWaits (perform env interference (add_event env input) >> answer tt)
  logged-Waits input =
      bind-Waits (perform env interference (add_event env input)) (λ e. answer tt)
        (perform-Waits (add_event env input) (add_event-Waits input)) (λ e w p. p)

  when_true :
      (b : Bool) (x y : Session (Unit {0}))
      → b ≡ true
      → KeepsWaits x
      → KeepsWaits (if b then x else y)
  when_true true x y e h = h
  when_true false x y e h = absurd (cc)

  module _ (provider : HandoffProvider) where
    operator-Waits :
        (operation_id : String) (e : Escalation) (call : CallAttempt) (phone : String)
        → provider.is_telnyx_configured ≡ true
        → KeepsWaits (call_operator env interference provider true operation_id e call phone)
    unfolding call_operator
    operator-Waits operation_id e call phone h =
        let asked = lifted (provider.call_operator_with_context phone call.id) in
        when_true provider.is_telnyx_configured _ _ h (
          bind-Waits (asked >> perform env interference (add_event env _)) (λ x. answer tt)
            (bind-Waits asked (λ x. perform env interference (add_event env _)) (λ w p. p)
              (λ x. perform-Waits (add_event env _) (add_event-Waits _)))
            (λ x w p. p))

    whatsapp-Waits :
        (operation_id : String) (e : Escalation) (call : CallAttempt)
        (phone provider_call_id : Option String)
        → is_some phone && (is_some provider_call_id || provider.is_telnyx_configured) ≡ true
        → KeepsWaits (
            take_over_whatsapp env interference provider true operation_id e call phone
              provider_call_id)
    unfolding take_over_whatsapp
    whatsapp-Waits operation_id e call none provider_call_id h = absurd (cc)
    whatsapp-Waits operation_id e call (some phone) none h =
        operator-Waits operation_id e call phone h
    whatsapp-Waits operation_id e call (some phone) (some id) h =
        bind-Waits (lifted (provider.transfer_whatsapp_call id phone)) _ (λ w p. p)
          (λ dialed. logged-Waits _)

    hand_off-Waits :
        (operation_id : String) (e : Escalation) (call : CallAttempt) (phone : Option String)
        (transport : VoiceProvider)
        → rings_human provider phone call.provider_call_id transport ≡ true
        → KeepsWaits (hand_off env interference provider true operation_id e call phone transport)
    unfolding hand_off
    hand_off-Waits operation_id e call phone VoiceProvider.whatsapp h =
        whatsapp-Waits operation_id e call (trimmed phone) (present call.provider_call_id) h
    hand_off-Waits operation_id e call phone VoiceProvider.telnyx h =
        bind-Waits
          (lifted (
            or_throw (present call.openai_call_id)
              "The escalated call has no live realtime session"))
          _ (λ w p. p) (λ session w p. p)
    hand_off-Waits operation_id e call phone VoiceProvider.twilio h = λ w p. p

    abbrev handed : String → OperationSnapshot → Escalation → CallAttempt → Session (Unit {0})
    handed operation_id s e call =
        hand_off env interference provider true operation_id e call s.operation.handoff_phone_e164
          provider.transport

    taken-Waits :
        (operation_id : String) (s : OperationSnapshot) (e : Escalation) (call : CallAttempt)
        → rings_human provider s.operation.handoff_phone_e164 call.provider_call_id
            provider.transport
          ≡ true
        → KeepsWaits (
            perform env interference (update_escalation env e.id dialing)
            >> (handed operation_id s e call >> read operation_id))
    taken-Waits operation_id s e call h =
        bind-Waits (perform env interference (update_escalation env e.id dialing))
          (λ x. handed operation_id s e call >> read operation_id)
          (perform-Waits (update_escalation env e.id dialing) (dialing-Waits e.id))
          (λ x.
            bind-Waits (handed operation_id s e call) (λ x. read operation_id)
              (hand_off-Waits operation_id e call s.operation.handoff_phone_e164 provider.transport
                h)
              (λ x w p. p))

    abbrev taken : String → OperationSnapshot → Escalation → Session OperationSnapshot
    taken operation_id s e =
        lifted (or_throw (find (λ c. c.id == e.call_id) s.calls) "Escalated call not found")
        >>= λ call.
            perform env interference (update_escalation env e.id dialing)
            >> (handed operation_id s e call >> read operation_id)

    found-Waits :
        (operation_id : String) (s : OperationSnapshot) (e : Escalation)
        → ((call : CallAttempt)
            → In call s.calls
            → rings_human provider s.operation.handoff_phone_e164 call.provider_call_id
                provider.transport
              ≡ true)
        → KeepsWaits (taken operation_id s e)
    found-Waits operation_id s e h = elim (Option-cases (find (λ c. c.id == e.call_id) s.calls)) [
      | inl n ↦ rw (n, KeepsWaits, ◌>>=◌) (λ w p. p)
      | inr (call, f) ↦
          rw (f, KeepsWaits, ◌>>=◌)
            (taken-Waits operation_id s e call
              (h call (In-find (λ c. c.id == e.call_id) s.calls call f)))
    ]

    escalated-Waits :
        (operation_id : String) (s : OperationSnapshot)
        → ((call : CallAttempt)
            → In call s.calls
            → rings_human provider s.operation.handoff_phone_e164 call.provider_call_id
                provider.transport
              ≡ true)
        → (e : Option Escalation)
        → KeepsWaits (lifted (or_throw e "No open escalation") >>= λ e. taken operation_id s e)
    escalated-Waits operation_id s h none w p = p
    escalated-Waits operation_id s h (some e) w p = found-Waits operation_id s e h w p

-- Where telephony is live and a telephone of a human can be rung for every call of the operation,
-- `takeOver` does not record that a human is connected: as long as the other writers leave the
-- escalation alone, it is afterwards what it was, or it is being dialled.
pub take_over_waits :
    (env : Environment) (interference : Interference) (provider : HandoffProvider)
    → ((tick n : ℕ) (s : OperationSnapshot) → (interference tick n s).escalation ≡ s.escalation)
    → (operation_id : String) (s : OperationSnapshot) (w : World)
    → get_snapshot operation_id w ≡ ok s
    → ((call : CallAttempt)
        → In call s.calls
        → rings_human provider s.operation.handoff_phone_e164 call.provider_call_id
            provider.transport
          ≡ true)
    → ((take_over env interference provider true operation_id w).1.stored.escalation
        ≡ w.stored.escalation)
      ⊎ IsDialing (take_over env interference provider true operation_id w).1.stored.escalation
unfolding take_over
take_over_waits env interference provider keep operation_id s w e h =
    rw (e, take_over, ◌>>=◌)
      (escalated-Waits env interference keep w.stored.escalation provider operation_id s h
        s.escalation w (inl refl))
