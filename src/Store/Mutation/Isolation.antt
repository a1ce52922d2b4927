-- ===== src/Store/Mutation/Isolation.antt =====
-- lib/store/base.ts: `attemptMutation`, and the snapshots that its attempts run on.
pub mod Keeps
use volta_hackathon.Prelude.{
  ℕ, zero, suc, ◌+◌, String, ◌≡◌, ◌⊎◌, inl, inr, refl, sym, subst, ◌∙◌, Bool, true, false, arith,
  eqb, ◌==◌, ok, err, Result, Bool-cases, if◌then◌else◌,
}
use volta_hackathon.Domain.Types.{OperationSnapshot}
use volta_hackathon.Store.Environment.{Environment}
use volta_hackathon.Store.Action.{Draft, Action}
use volta_hackathon.Store.Mutation.{
  World, attempt_mutation, write_snapshot, default_operation, stamped,
}

-- Other writers go by the same version check: a write of theirs changes the version.
abbrev pub AreVersioned : (ℕ → OperationSnapshot → OperationSnapshot) → Type 0
AreVersioned others =
    (n : ℕ) (s : OperationSnapshot) → (others n s).version ≡ s.version → others n s ≡ s

-- `after` is what `fn` makes of `base`, with the next version.
pub record Applied {A : Type 0} (env : Environment) (fn : Action A) (base after : OperationSnapshot)
    (a : A) : Type 0 where
  pub tick : ℕ
  pub returned : (fn (record { snapshot = base; tick = tick })).0 ≡ ok a
  pub at : String
  pub result :
      after
      ≡ stamped (fn (record { snapshot = base; tick = tick })).1.snapshot (base.version + 1) at

-- `t` is what the other writers have made of `s` when one of at most `n` attempts writes.
pub data LeftBy (others : ℕ → OperationSnapshot → OperationSnapshot)
    : ℕ → OperationSnapshot → OperationSnapshot → Type 0 where
  now : {n : ℕ} {s : OperationSnapshot} → LeftBy others (suc n) s (others n s)
  later :
      {n : ℕ} {s t : OperationSnapshot} → LeftBy others n (others n s) t → LeftBy others (suc n) s t

pub Result-cases :
    {A : Type 0} (r : Result A) → ((a : A) × (r ≡ ok a)) ⊎ ((m : String) × (r ≡ err m))
Result-cases (ok a) = inl (a, refl)
Result-cases (err m) = inr (m, refl)

write_won :
    (s : OperationSnapshot) (v : ℕ) (stored : OperationSnapshot)
    → eqb stored.version v ≡ true
    → write_snapshot s v stored ≡ (true, s)
unfolding write_snapshot
write_won s v stored e = rw e

write_lost :
    (s : OperationSnapshot) (v : ℕ) (stored : OperationSnapshot)
    → eqb stored.version v ≡ false
    → write_snapshot s v stored ≡ (false, stored)
unfolding write_snapshot
write_lost s v stored e = rw e

module _ (env : Environment) {A : Type 0} (others : ℕ → OperationSnapshot → OperationSnapshot)
    (fn : Action A) where
  -- One run of the body, on what is stored.
  abbrev run : World → Result A × Draft
  run w = fn (record { snapshot = w.stored; tick = w.tick })

  abbrev next : World → OperationSnapshot
  next w = stamped (run w).1.snapshot (w.stored.version + 1) (env.iso (env.millis (run w).1.tick))

  abbrev After : ℕ → World → Result A × World → Type 0
  After left w r = attempt_mutation env others (suc left) fn w ≡ r

  abbrev is_here : World → Bool
  is_here w = w.stored.operation.id == default_operation

  abbrev is_unchanged : ℕ → World → Bool
  is_unchanged left w = eqb (others left w.stored).version w.stored.version

  step_wrong :
      (left : ℕ) (w : World) → is_here w ≡ false → After left w (err "Operation not found", w)
  unfolding attempt_mutation
  step_wrong left w e = rw (e, attempt_mutation)

  step_failed :
      (left : ℕ) (w : World) (m : String)
      → is_here w ≡ true
      → (run w).0 ≡ err m
      → After left w (err m, record { stored = w.stored; tick = (run w).1.tick })
  unfolding attempt_mutation
  step_failed left w m e f = rw (e, attempt_mutation) (rw (f, attempt_mutation))

  step_won :
      (left : ℕ) (w : World) (a : A)
      → is_here w ≡ true
      → (run w).0 ≡ ok a
      → is_unchanged left w ≡ true
      → After left w (ok a, record { stored = next w; tick = (run w).1.tick + 1 })
  unfolding attempt_mutation
  step_won left w a e f g =
      rw (e, attempt_mutation)
        (rw (f, attempt_mutation)
          (rw (write_won (next w) w.stored.version (others left w.stored) g)
            (rw (write_won (next w) w.stored.version (others left w.stored) g))))

  step_lost :
      (left : ℕ) (w : World) (a : A)
      → is_here w ≡ true
      → (run w).0 ≡ ok a
      → is_unchanged left w ≡ false
      → After left w (
          attempt_mutation env others left fn
            (record { stored = others left w.stored; tick = (run w).1.tick + 1 }))
  unfolding attempt_mutation
  step_lost left w a e f g =
      rw (e, attempt_mutation)
        (rw (f, attempt_mutation)
          (rw (write_lost (next w) w.stored.version (others left w.stored) g)
            (rw (write_lost (next w) w.stored.version (others left w.stored) g))))

  -- The base of a mutation that returned is what the others left when it wrote, so no write of
  -- theirs is lost, and the body ran on it as a whole.
  pub attempt_mutation_isolated :
      (left : ℕ) (w : World) (a : A)
      → AreVersioned others
      → (attempt_mutation env others left fn w).0 ≡ ok a
      → (base : OperationSnapshot) × LeftBy others left w.stored base
        × Applied env fn base (attempt_mutation env others left fn w).1.stored a
  attempt_mutation_isolated zero w a v h = absurd (unfold attempt_mutation in cc)
  attempt_mutation_isolated (suc left) w a v h = elim (Bool-cases (is_here w)) [
    | inr wrong ↦ absurd (let h' = rw (step_wrong left w wrong) at h in cc)
    | inl here ↦ elim (Result-cases (run w).0) [
      | inr (m, failed) ↦ absurd (let h' = rw (step_failed left w m here failed) at h in cc)
      | inl (b, ran) ↦ elim (Bool-cases (is_unchanged left w)) [
        | inl won ↦
            let h' : ok b ≡ ok a = rw (step_won left w b here ran won) at h in
            let same = v left w.stored (ground arith) in
            (
              others left w.stored,
              now,
              rw (step_won left w b here ran won) (
                  subst (λ base. Applied env fn base (next w) a) (sym same)
                    (record {
                      tick = w.tick;
                      returned = ran ∙ h';
                      at = env.iso (env.millis (run w).1.tick);
                      result = refl;
                    })),
            )
        | inr lost ↦
            let e = step_lost left w b here ran lost in
            let (base, by, applied) =
              attempt_mutation_isolated left
                (record { stored = others left w.stored; tick = (run w).1.tick + 1 }) a v
                (rw e at h) in
            (base, later by, rw e applied)
      ]
    ]
  ]
