-- ===== src/Prelude/Indexed.antt =====
-- Reading and writing a list at an index.
use Prim.Native.Nat.{ℕ, zero, suc}
use mathlib.Core.Option.{Option, none, some}
use mathlib.Core.List.{List, [], ◌∷◌}

module _ {ℓ} {A : Type ℓ} where
  abbrev pub get_elem? : List A → ℕ → Option A
  get_elem? [] i = none
  get_elem? (x ∷ xs) zero = some x
  get_elem? (x ∷ xs) (suc i) = get_elem? xs i

  -- A write past the end changes nothing.
  abbrev pub put : ℕ → A → List A → List A
  put i a [] = []
  put zero a (x ∷ xs) = a ∷ xs
  put (suc i) a (x ∷ xs) = x ∷ put i a xs
