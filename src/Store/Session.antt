-- ===== src/Store/Session.antt =====
-- A caller of the store: a sequence of reads and mutations. Other instances may write between the
-- attempts of every mutation: `interference` gives what they do, by the tick at which it begins.
use volta_hackathon.Prelude.{ℕ, String, Result, ok, err}
use volta_hackathon.Domain.Types.{OperationSnapshot}
use volta_hackathon.Store.Environment.{Environment}
use volta_hackathon.Store.Action.{Action}
use volta_hackathon.Store.Mutation.{World, mutate, get_snapshot}

abbrev pub Session : Type 0 → Type 0
Session A = World → Result A × World

abbrev pub answer : {A : Type 0} → A → Session A
answer a w = (ok a, w)

abbrev pub fail : {A : Type 0} → String → Session A
fail message w = (err message, w)

infixl 5 ◌>>=◌ ◌>>◌
abbrev pub ◌>>=◌ : {A B : Type 0} → Session A → (A → Session B) → Session B
◌>>=◌ m f w = let (r, w') = m w in elim r [ ok a ↦ f a w' | err message ↦ (err message, w') ]

abbrev pub ◌>>◌ : {A B : Type 0} → Session A → Session B → Session B
m >> k = m >>= λ _. k

abbrev pub read : String → Session OperationSnapshot
read operation_id w = (get_snapshot operation_id w, w)

abbrev pub Interference : Type 0
Interference = ℕ → ℕ → OperationSnapshot → OperationSnapshot

abbrev pub perform : {A : Type 0} → Environment → Interference → Action A → Session A
perform env interference fn w = mutate env (interference w.tick) fn w
