-- ===== src/Prelude/Last.antt =====
-- `[...xs].reverse().find(p)`: the last element that passes.
use mathlib.Core.Path.{◌≡◌, refl, sym, ap, ◌∙◌}
use mathlib.Core.Bool.{Bool, true, false}
use mathlib.Core.Option.{Option, none, some}
use mathlib.Core.List.{List, [], ◌∷◌, ◌++◌}
use mathlib.Core.Logic.{inl, inr}
use native.Mathlib.Omega.{arith}
use volta_hackathon.Prelude.Tests.{Option-cases, if◌then◌else◌}
use volta_hackathon.Prelude.Lists.{find, any}

abbrev pub reverse_onto : {A : Type 0} → List A → List A → List A
reverse_onto [] ys = ys
reverse_onto (x ∷ xs) ys = reverse_onto xs (x ∷ ys)

abbrev pub reversed : {A : Type 0} → List A → List A
reversed xs = reverse_onto xs []

module _ {A : Type 0} (p : A → Bool) where
  abbrev find_last : List A → Option A
  find_last [] = none
  find_last (x ∷ xs) = elim (find_last xs) [ some s ↦ some s | none ↦ if p x then some x else none ]

  abbrev first_of : Option A → Option A → Option A
  first_of none b = b
  first_of (some a) b = some a

  find-reverse_onto :
      (xs ys : List A) → find p (reverse_onto xs ys) ≡ first_of (find_last xs) (find p ys)
  find-reverse_onto [] ys = refl
  find-reverse_onto (x ∷ xs) ys = find-reverse_onto xs (x ∷ ys) ∙ joined (find_last xs)
    where
      joined :
          (r : Option A)
          → first_of r (if p x then some x else find p ys)
            ≡ first_of
                (elim r [ some s ↦ some s | none ↦ if p x then some x else none ])
                (find p ys)
      joined r = ground arith

  find_last-none : (xs : List A) → find_last xs ≡ none → any p xs ≡ false
  find_last-none [] h = refl
  find_last-none (x ∷ xs) h =
      let k : find_last xs ≡ none → any p xs ≡ false = find_last-none xs in ground arith

  -- The last element that passes, with what stands before and after it.
  pub record Last (xs : List A) (s : A) : Type 0 where
    pub before : List A
    pub after : List A
    pub split : xs ≡ before ++ s ∷ after
    pub passes : p s ≡ true
    pub none_later : any p after ≡ false

  here : (x s : A) → (if p x then some x else none) ≡ some s → (p x ≡ true) × (x ≡ s)
  here x s h = ground arith

  find_last-Last : (xs : List A) (s : A) → find_last xs ≡ some s → Last xs s
  find_last-Last [] s h = absurd (cc)
  find_last-Last (x ∷ xs) s h = elim (Option-cases (find_last xs)) [
    | inl e ↦
        let k : (p x ≡ true) × (x ≡ s) = here x s (rw (e) at h) in
        record {
          before = [];
          after = xs;
          split = ap (λ t. t ∷ xs) k.1;
          passes = rw (sym k.1) k.0;
          none_later = find_last-none xs e;
        }
    | inr (t, e) ↦
        let l = find_last-Last xs t e in
        let k : t ≡ s = cc in
        record {
          before = x ∷ l.before;
          after = l.after;
          split = rw (sym k) (ap (λ t. x ∷ t) l.split);
          passes = rw (sym k) l.passes;
          none_later = l.none_later;
        }
  ]

  pub find-reversed : (xs : List A) (s : A) → find p (reversed xs) ≡ some s → Last xs s
  find-reversed xs s h =
      find_last-Last xs s (alone (find_last xs) (sym (find-reverse_onto xs []) ∙ h))
    where
      alone : (r : Option A) → first_of r none ≡ some s → r ≡ some s
      alone r e = ground arith
