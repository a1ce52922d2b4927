-- ===== src/Prelude/Throws.antt =====
-- A computation that may throw: `err` holds the message of the `Error`.
use mathlib.Core.Bool.{Bool, true, false}
use mathlib.Core.Option.{Option, none, some}
use Prim.Native.String.{String}

pub data Result {ℓ} (A : Type ℓ) : Type ℓ where
  ok : A → Result A
  err : String → Result A

module _ {ℓ} {A : Type ℓ} where
  -- `if (!value) throw new Error(message)`
  abbrev pub or_throw : Option A → String → Result A
  or_throw none message = err message
  or_throw (some a) message = ok a

  abbrev pub is_ok : Result A → Bool
  is_ok (ok a) = true
  is_ok (err message) = false
