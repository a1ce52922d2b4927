-- ===== src/Store/Action.antt =====
-- The body of a mutation: it works on a copy of the snapshot and may throw. The copy comes back
-- beside an error too, and it is `Mutation` that drops it.
use volta_hackathon.Prelude.{ℕ, ◌+◌, String, Bool, Result, ok, err, if◌then◌else◌}
use volta_hackathon.Domain.Types.{OperationSnapshot}
use volta_hackathon.Store.Environment.{Environment}

pub record Draft : Type 0 where
  pub snapshot : OperationSnapshot
  pub tick : ℕ

abbrev pub Action : Type 0 → Type 0
Action A = Draft → Result A × Draft

module _ {A : Type 0} where
  abbrev pub pure : A → Action A
  pure a d = (ok a, d)

  abbrev pub throw : String → Action A
  throw message d = (err message, d)

  abbrev pub lift : Result A → Action A
  lift r d = (r, d)

  abbrev pub gets : (OperationSnapshot → A) → Action A
  gets f d = (ok (f d.snapshot), d)

-- A step that cannot throw.
abbrev pub always : {A : Type 0} → (Draft → A × Draft) → Action A
always f d = (ok (f d).0, (f d).1)

abbrev pub throw_if : Bool → String → Action (Unit {0})
throw_if broken message d = (if broken then err message else ok tt, d)

abbrev pub modify : (OperationSnapshot → OperationSnapshot) → Action (Unit {0})
modify f d = (ok tt, record d { snapshot = f d.snapshot })

infixl 5 ◌>>=◌ ◌>>◌
abbrev pub ◌>>=◌ : {A B : Type 0} → Action A → (A → Action B) → Action B
◌>>=◌ m f d = let (r, d') = m d in elim r [ ok a ↦ f a d' | err message ↦ (err message, d') ]

abbrev pub ◌>>◌ : {A B : Type 0} → Action A → Action B → Action B
m >> k = m >>= λ _. k

module _ (env : Environment) where
  -- `randomUUID()`
  abbrev pub fresh_id : Action String
  fresh_id d = (ok (env.uuid d.tick), record d { tick = d.tick + 1 })

  -- `randomBytes(24).toString("base64url")`
  abbrev pub fresh_token : Action String
  fresh_token d = (ok (env.random_token d.tick), record d { tick = d.tick + 1 })

  -- `Date.now()`
  abbrev pub clock : Action ℕ
  clock d = (ok (env.millis d.tick), record d { tick = d.tick + 1 })

  -- `now()`
  abbrev pub now : Action String
  now d = (ok (env.iso (env.millis d.tick)), record d { tick = d.tick + 1 })
