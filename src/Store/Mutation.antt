-- ===== src/Store/Mutation.antt =====
-- lib/store/base.ts: `attemptMutation`, `getSnapshot` and `reset`, over lib/store/memory.ts. Between
-- the read and the write of an attempt other instances may write: `others n` is what they do to the
-- stored snapshot when `n` attempts are left behind this one. The promise queue of `mutate` runs the
-- mutations of one process one after the other, as here. A snapshot is a value, so `clone` has no
-- counterpart, and the stored snapshots have all their fields, so `normalizeSnapshot` changes nothing.
pub mod Isolation
use volta_hackathon.Prelude.{
  ℕ, zero, suc, ◌+◌, String, Bool, true, false, not, ◌==◌, eqb, if◌then◌else◌, Result, ok, err,
}
use volta_hackathon.Domain.Types.{OperationSnapshot}
use volta_hackathon.Domain.Seed.{create_seed_snapshot}
use volta_hackathon.Store.Environment.{Environment}
use volta_hackathon.Store.Action.{Action}

pub record World : Type 0 where
  pub stored : OperationSnapshot
  pub tick : ℕ

abbrev pub attempts : ℕ
attempts = 6

abbrev pub default_operation : String
default_operation = "op-2041"

-- `MemoryVoltaStore.readSnapshot`
unfoldable pub read_snapshot : String → OperationSnapshot → Result OperationSnapshot
read_snapshot operation_id stored =
    if stored.operation.id == operation_id then ok stored else err "Operation not found"

-- `MemoryVoltaStore.writeSnapshot`: the result says whether the write took place.
unfoldable pub write_snapshot : OperationSnapshot → ℕ → OperationSnapshot → Bool × OperationSnapshot
write_snapshot snapshot expected_version stored =
    if eqb stored.version expected_version then (true, snapshot) else (false, stored)

-- The snapshot that an attempt writes.
abbrev pub stamped : OperationSnapshot → ℕ → String → OperationSnapshot
stamped s version at = record s {
  version = version;
  operation = record s.operation { updated_at = at };
}

module _ (env : Environment) (others : ℕ → OperationSnapshot → OperationSnapshot) where
  unfoldable pub attempt_mutation : {A : Type 0} → ℕ → Action A → World → Result A × World
  unfolding read_snapshot
  attempt_mutation zero fn w = (err "Concurrent operation update; retry the action", w)
  attempt_mutation (suc left) fn w = elim (read_snapshot default_operation w.stored) [
    | err message ↦ (err message, w)
    | ok snapshot ↦
        let (result, d) = fn (record { snapshot = snapshot; tick = w.tick }) in
        elim result [
          | err message ↦ (err message, record { stored = w.stored; tick = d.tick })
          | ok a ↦
              let next = stamped d.snapshot (snapshot.version + 1) (env.iso (env.millis d.tick)) in
              let (written, stored) = write_snapshot next snapshot.version (others left w.stored) in
              let w' : World = record { stored = stored; tick = d.tick + 1 } in
              elim written [ true ↦ (ok a, w') | false ↦ attempt_mutation left fn w' ]
        ]
  ]

  unfoldable pub mutate : {A : Type 0} → Action A → World → Result A × World
  mutate fn w = attempt_mutation attempts fn w

unfoldable pub get_snapshot : String → World → Result OperationSnapshot
unfolding read_snapshot
get_snapshot operation_id w = read_snapshot operation_id w.stored

abbrev version_or_zero : Result OperationSnapshot → ℕ
version_or_zero (ok s) = s.version
version_or_zero (err message) = 0

-- `reset` ignores whether its write took place.
unfoldable pub reset : World → OperationSnapshot × World
unfolding read_snapshot write_snapshot
reset w =
    let version = version_or_zero (read_snapshot default_operation w.stored) in
    let snapshot = record create_seed_snapshot { version = version + 1 } in
    (snapshot, record w { stored = (write_snapshot snapshot version w.stored).1 })
