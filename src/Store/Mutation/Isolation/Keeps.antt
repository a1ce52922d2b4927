-- ===== src/Store/Mutation/Isolation/Keeps.antt =====
-- lib/store/base.ts: `attemptMutation`, and facts that the writers keep.
use volta_hackathon.Prelude.{ℕ, zero, suc, ◌+◌, String, inl, inr, Bool-cases}
use volta_hackathon.Domain.Types.{OperationSnapshot}
use volta_hackathon.Store.Environment.{Environment}
use volta_hackathon.Store.Action.{Action}
use volta_hackathon.Store.Booking.Invariant.{Keeps}
use volta_hackathon.Store.Mutation.{World, attempt_mutation, stamped}
use volta_hackathon.Store.Mutation.Isolation.{
  Result-cases, run, is_here, is_unchanged, step_wrong, step_failed, step_won, step_lost,
}

module _ (env : Environment) {A : Type 0} (others : ℕ → OperationSnapshot → OperationSnapshot)
    (fn : Action A) (P : OperationSnapshot → Type 0)
    (kept_by_others : (n : ℕ) (s : OperationSnapshot) → P s → P (others n s))
    (kept_by_stamp : (s : OperationSnapshot) (version : ℕ) (at : String)
      → P s
      → P (stamped s version at))
    (kept_by_body : Keeps P fn) where
  -- Where the body, the stamp and the other writers keep a fact, the mutation keeps it, whether it
  -- returns, throws or runs out of attempts.
  pub attempt_mutation-Keeps :
      (left : ℕ) (w : World) → P w.stored → P (attempt_mutation env others left fn w).1.stored
  attempt_mutation-Keeps zero w p = unfold attempt_mutation in p
  attempt_mutation-Keeps (suc left) w p = elim (Bool-cases (is_here env others fn w)) [
    | inr wrong ↦ rw (step_wrong env others fn left w wrong) p
    | inl here ↦ elim (Result-cases (run env others fn w).0) [
      | inr (m, failed) ↦ rw (step_failed env others fn left w m here failed) p
      | inl (a, ran) ↦ elim (Bool-cases (is_unchanged env others fn left w)) [
        | inl won ↦ rw (step_won env others fn left w a here ran won) (
            kept_by_stamp (run env others fn w).1.snapshot (w.stored.version + 1)
              (env.iso (env.millis (run env others fn w).1.tick))
              (kept_by_body (record { snapshot = w.stored; tick = w.tick }) a p ran))
        | inr lost ↦ rw (step_lost env others fn left w a here ran lost) (
            attempt_mutation-Keeps left
              (record { stored = others left w.stored; tick = (run env others fn w).1.tick + 1 })
              (kept_by_others left w.stored p))
      ]
    ]
  ]
