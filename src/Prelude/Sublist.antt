-- ===== src/Prelude/Sublist.antt =====
-- Lists that leave out elements of another list and keep the order of the rest.
use mathlib.Core.List.{List, [], ◌∷◌, ◌++◌}

module _ {A : Type 0} where
  pub data Sublist : List A → List A → Type 0 where
    done : Sublist [] []
    keep : {xs ys : List A} (x : A) → Sublist xs ys → Sublist (x ∷ xs) (x ∷ ys)
    skip : {xs ys : List A} (y : A) → Sublist xs ys → Sublist xs (y ∷ ys)

  pub Sublist_refl : (xs : List A) → Sublist xs xs
  Sublist_refl [] = done
  Sublist_refl (x ∷ xs) = keep x (Sublist_refl xs)

  pub Sublist-none : (ys : List A) → Sublist [] ys
  Sublist-none [] = done
  Sublist-none (y ∷ ys) = skip y (Sublist-none ys)

  pub Sublist-append :
      {xs ys zs ws : List A} → Sublist xs ys → Sublist zs ws → Sublist (xs ++ zs) (ys ++ ws)
  Sublist-append done t = t
  Sublist-append (keep x s) t = keep x (Sublist-append s t)
  Sublist-append (skip y s) t = skip y (Sublist-append s t)
