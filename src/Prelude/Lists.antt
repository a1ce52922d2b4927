-- ===== src/Prelude/Lists.antt =====
-- The array methods of the program (`find`, `filter`, `some`, `every`, `slice`, `at`), with
-- Boolean tests and native lengths, and the laws that the components share.
use Prim.Native.Nat.{ℕ, zero, suc, ◌-◌, ◌≤◌}
use mathlib.Core.Path.{◌≡◌, refl, sym, subst}
use mathlib.Core.Bool.{Bool, true, false, ◌&&◌, ◌||◌}
use mathlib.Core.Option.{Option, none, some}
use mathlib.Core.List.{List, [], ◌∷◌, ◌++◌}
use mathlib.Core.Logic.{◌≢◌, ◌⊎◌, inl, inr}
use native.Mathlib.Omega.{arith}
use Prim.Native.String.{String}
use text.Mathlib.Text.{◌==◌}
use text.Mathlib.TextEquality.{eq_iff}
use volta_hackathon.Prelude.Tests.{Bool-cases, if◌then◌else◌}

module _ {ℓ} {A : Type ℓ} where
  abbrev pub length : List A → ℕ
  length [] = 0
  length (x ∷ xs) = suc (length xs)

  -- `xs.find(p)`
  abbrev pub find : (A → Bool) → List A → Option A
  find p [] = none
  find p (x ∷ xs) = if p x then some x else find p xs

  -- `xs.filter(p)`
  abbrev pub filter : (A → Bool) → List A → List A
  filter p [] = []
  filter p (x ∷ xs) = let rest = filter p xs in if p x then x ∷ rest else rest

  -- `xs.some(p)`
  abbrev pub any : (A → Bool) → List A → Bool
  any p [] = false
  any p (x ∷ xs) = p x || any p xs

  -- `xs.every(p)`
  abbrev pub all : (A → Bool) → List A → Bool
  all p [] = true
  all p (x ∷ xs) = p x && all p xs

  abbrev pub head? : List A → Option A
  head? [] = none
  head? (x ∷ xs) = some x

  -- `xs.at(-1)`
  abbrev pub last? : List A → Option A
  last? [] = none
  last? (x ∷ []) = some x
  last? (x ∷ y ∷ xs) = last? (y ∷ xs)

  -- `xs.slice(0, n)`
  abbrev pub take : ℕ → List A → List A
  take zero xs = []
  take (suc n) [] = []
  take (suc n) (x ∷ xs) = x ∷ take n xs

  abbrev pub drop : ℕ → List A → List A
  drop zero xs = xs
  drop (suc n) [] = []
  drop (suc n) (x ∷ xs) = drop n xs

  -- `xs.slice(-n)` for a positive `n`
  abbrev pub take_last : ℕ → List A → List A
  take_last n xs = drop (length xs - n) xs

  -- A write through the reference that `find(p)` returned.
  abbrev pub update_first : (A → Bool) → (A → A) → List A → List A
  update_first p f [] = []
  update_first p f (x ∷ xs) = if p x then f x ∷ xs else x ∷ update_first p f xs

  pub length-take-le : (n : ℕ) (xs : List A) → length (take n xs) ≤ n
  length-take-le zero xs = omega arith
  length-take-le (suc n) [] = omega arith
  length-take-le (suc n) (x ∷ xs) = omega (arith, length-take-le n xs)

  pub find_sound : (p : A → Bool) (xs : List A) (a : A) → find p xs ≡ some a → p a ≡ true
  find_sound p [] a h = cc
  find_sound p (x ∷ xs) a h = ground (arith, find_sound p xs a)

module _ {A : Type 0} where
  -- `a` occurs in the list.
  abbrev pub In : A → List A → Type 0
  In a [] = ⊥
  In a (x ∷ xs) = (a ≡ x) ⊎ In a xs

  pub In-find : (p : A → Bool) (xs : List A) (a : A) → find p xs ≡ some a → In a xs
  In-find p [] a h = absurd (cc)
  In-find p (x ∷ xs) a h = ground (arith, In-find p xs a)

  pub In-filter : (p : A → Bool) (xs : List A) (a : A) → In a (filter p xs) → In a xs × (p a ≡ true)
  In-filter p [] a h = absurd h
  In-filter p (x ∷ xs) a h = ground (arith, In-filter p xs a)

  pub In-filter_of :
      (p : A → Bool) (xs : List A) (a : A) → In a xs → p a ≡ true → In a (filter p xs)
  In-filter_of p [] a h e = absurd h
  In-filter_of p (x ∷ xs) a h e = ground (arith, In-filter_of p xs a)

  pub In-all : (p : A → Bool) (xs : List A) (a : A) → all p xs ≡ true → In a xs → p a ≡ true
  In-all p [] a h i = absurd i
  In-all p (x ∷ xs) a h i = ground (arith, In-all p xs a)

  pub all_of_In : (p : A → Bool) (xs : List A) → ((a : A) → In a xs → p a ≡ true) → all p xs ≡ true
  all_of_In p [] f = refl
  all_of_In p (x ∷ xs) f = ground (arith, f x (inl refl), all_of_In p xs (λ a i. f a (inr i)))

  pub any_sound : (p : A → Bool) (xs : List A) → any p xs ≡ true → (a : A) × In a xs × (p a ≡ true)
  any_sound p [] h = absurd (cc)
  any_sound p (x ∷ xs) h = elim (Bool-cases (p x)) [
    | inl e ↦ (x, inl refl, e)
    | inr e ↦ let (a, i, q) = any_sound p xs (ground arith) in (a, inr i, q)
  ]

  pub head-none : (xs : List A) (a : A) → head? xs ≡ none → In a xs → ⊥
  head-none [] a h i = i
  head-none (x ∷ xs) a h i = cc

  pub find-none : (p : A → Bool) (xs : List A) (a : A) → find p xs ≡ none → In a xs → p a ≡ false
  find-none p [] a h i = absurd i
  find-none p (x ∷ xs) a h i = ground (arith, find-none p xs a)

  -- No two values of the list have one key.
  abbrev pub DistinctKeys : (A → String) → List A → Type 0
  DistinctKeys key [] = Unit
  DistinctKeys key (x ∷ xs) = ((a : A) → In a xs → key x ≢ key a) × DistinctKeys key xs

  -- With distinct keys, a search by key finds the value itself.
  pub find-key :
      (key : A → String) (xs : List A) (a : A)
      → DistinctKeys key xs
      → In a xs
      → find (λ x. key x == key a) xs ≡ some a
  find-key key [] a d i = absurd i
  find-key key (x ∷ xs) a (k, d) (inl e) = ground (arith, eq_iff (key x) (key a))
  find-key key (x ∷ xs) a (k, d) (inr i) =
      ground (arith, eq_iff (key x) (key a), k a i, find-key key xs a d i)

  pub key_unique :
      (key : A → String) (xs : List A) (a b : A)
      → DistinctKeys key xs
      → In a xs
      → In b xs
      → key a ≡ key b
      → a ≡ b
  key_unique key xs a b d i j e =
      let found : find (λ x. key x == key b) xs ≡ some a =
        subst (λ k. find (λ x. key x == k) xs ≡ some a) e (find-key key xs a d i) in
      cc (find-key key xs b d j)

  pub In-head : (xs : List A) (a : A) → head? xs ≡ some a → In a xs
  In-head [] a h = absurd (cc)
  In-head (x ∷ xs) a h = inl (cc)

module _ {ℓ κ} {A : Type ℓ} (P : A → Type κ) where
  abbrev pub All : List A → Type κ
  All [] = Unit
  All (x ∷ xs) = P x × All xs

  pub All-take : (n : ℕ) (xs : List A) → All xs → All (take n xs)
  All-take zero xs h = tt
  All-take (suc n) [] h = tt
  All-take (suc n) (x ∷ xs) (p, h) = (p, All-take n xs h)

  pub All-append : (xs ys : List A) → All xs → All ys → All (xs ++ ys)
  All-append [] ys h k = k
  All-append (x ∷ xs) ys (p, h) k = (p, All-append xs ys h k)

  pub All-find : (p : A → Bool) (xs : List A) (a : A) → All xs → find p xs ≡ some a → P a
  All-find p [] a h e = absurd (cc)
  All-find p (x ∷ xs) a (q, h) e = ground (arith, All-find p xs a h)

module _ {A : Type 0} (P : A → Type 0) where
  pub All-In : (xs : List A) (a : A) → All P xs → In a xs → P a
  All-In [] a h i = absurd i
  All-In (x ∷ xs) a (p, h) (inl e) = subst P (sym e) p
  All-In (x ∷ xs) a (p, h) (inr i) = All-In xs a h i

  pub All-of_In : (xs : List A) → ((a : A) → In a xs → P a) → All P xs
  All-of_In [] f = tt
  All-of_In (x ∷ xs) f = (f x (inl refl), All-of_In xs (λ a i. f a (inr i)))
