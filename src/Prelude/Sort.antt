-- ===== src/Prelude/Sort.antt =====
-- `Array.prototype.sort`, which is stable: a value is placed behind those that are not after it.
use volta_hackathon.Prelude.Tests.{if◌then◌else◌}
use volta_hackathon.Prelude.Lists.{All, In}
use mathlib.Core.Path.{◌≡◌}
use mathlib.Core.Logic.{◌⊎◌, inl, inr}
use mathlib.Core.Bool.{Bool, true, false}
use mathlib.Core.List.{List, [], ◌∷◌}
use native.Mathlib.Omega.{arith}

-- `before x y`: the comparator is negative at `x` and `y`.
module _ {A : Type 0} (before : A → A → Bool) where
  unfoldable pub place : A → List A → List A
  place x [] = x ∷ []
  place x (y ∷ ys) = let rest = place x ys in if before x y then x ∷ y ∷ ys else y ∷ rest

  sort_onto : List A → List A → List A
  sort_onto done [] = done
  sort_onto done (x ∷ xs) = sort_onto (place x done) xs

  unfoldable pub sort : List A → List A
  unfolding place sort_onto
  sort xs = sort_onto [] xs

  In-place : (x : A) (ys : List A) (a : A) → In a (place x ys) → (a ≡ x) ⊎ In a ys
  unfolding place
  In-place x [] a h = h
  In-place x (y ∷ ys) a h = ground (arith, In-place x ys a)

  In-place_of : (x : A) (ys : List A) (a : A) → (a ≡ x) ⊎ In a ys → In a (place x ys)
  unfolding place
  In-place_of x [] a h = h
  In-place_of x (y ∷ ys) a h = ground (arith, In-place_of x ys a)

  In-sort_onto : (done xs : List A) (a : A) → In a (sort_onto done xs) → In a done ⊎ In a xs
  unfolding sort_onto
  In-sort_onto done [] a h = inl h
  In-sort_onto done (x ∷ xs) a h =
      ground (arith, In-sort_onto (place x done) xs a, In-place x done a)

  In-sort_onto_of : (done xs : List A) (a : A) → In a done ⊎ In a xs → In a (sort_onto done xs)
  unfolding sort_onto
  In-sort_onto_of done [] a h = ground arith
  In-sort_onto_of done (x ∷ xs) a h =
      ground (arith, In-sort_onto_of (place x done) xs a, In-place_of x done a)

  -- Sorting adds nothing and loses nothing.
  pub In-sort : (xs : List A) (a : A) → In a (sort xs) → In a xs
  unfolding sort
  In-sort xs a h = ground (arith, In-sort_onto [] xs a)

  pub In-sort_of : (xs : List A) (a : A) → In a xs → In a (sort xs)
  unfolding sort
  In-sort_of xs a h = In-sort_onto_of [] xs a (inr h)

module _ {A : Type 0} (R : A → A → Type 0) where
  abbrev pub IsSorted : List A → Type 0
  IsSorted [] = Unit
  IsSorted (x ∷ xs) = All (R x) xs × IsSorted xs

module _ {A : Type 0} (R : A → A → Type 0) (before : A → A → Bool)
    (before-R : (x y : A) → before x y ≡ true → R x y)
    (after-R : (x y : A) → before x y ≡ false → R y x)
    (R-trans : (x y z : A) → R x y → R y z → R x z) where
  All-place : (a x : A) (ys : List A) → R a x → All (R a) ys → All (R a) (place before x ys)
  unfolding place
  All-place a x [] r h = (r, tt)
  All-place a x (y ∷ ys) r h = ground (arith, All-place a x ys r h.1)

  All-trans : (x y : A) (ys : List A) → R x y → All (R y) ys → All (R x) ys
  All-trans x y [] r h = tt
  All-trans x y (z ∷ zs) r (p, h) = (R-trans x y z r p, All-trans x y zs r h)

  place-IsSorted : (x : A) (ys : List A) → IsSorted R ys → IsSorted R (place before x ys)
  unfolding place
  place-IsSorted x [] h = (tt, tt)
  place-IsSorted x (y ∷ ys) (p, h) =
      ground (
        arith,
        before-R x y,
        after-R x y,
        All-trans x y ys,
        All-place y x ys,
        place-IsSorted x ys h,
      )

  sort_onto-IsSorted : (done xs : List A) → IsSorted R done → IsSorted R (sort_onto before done xs)
  unfolding sort_onto
  sort_onto-IsSorted done [] h = h
  sort_onto-IsSorted done (x ∷ xs) h =
      sort_onto-IsSorted (place before x done) xs (place-IsSorted x done h)

  -- The result is in order, for any relation that the comparator decides one way or the other.
  pub sort-IsSorted : (xs : List A) → IsSorted R (sort before xs)
  unfolding sort
  sort-IsSorted xs = sort_onto-IsSorted [] xs tt
