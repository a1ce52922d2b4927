-- ===== src/Examples/Bytes.antt =====
-- A comparison of bytes, and the bytes of a text of ASCII characters.
use Prim.Native.Char.{code}
use text.Mathlib.TextEquality.{Char-path}
use volta_hackathon.Prelude.{
  ℕ, String, Bool, true, false, List, [], ◌∷◌, ◌≡◌, ◌↔◌, ◌∙◌, refl, ap, arith, subst, eqb, ◌&&◌,
  length,
}
use volta_hackathon.Domain.Confirmation.Words.{codes}

unfoldable pub same_bytes : List ℕ → List ℕ → Bool
same_bytes [] [] = true
same_bytes (x ∷ xs) (y ∷ ys) = eqb x y && same_bytes xs ys
same_bytes _ _ = false

same_bytes_sound : (xs ys : List ℕ) → same_bytes xs ys ≡ true → xs ≡ ys
unfolding same_bytes
same_bytes_sound [] [] h = refl
same_bytes_sound [] (y ∷ ys) h = absurd (ground arith)
same_bytes_sound (x ∷ xs) [] h = absurd (ground arith)
same_bytes_sound (x ∷ xs) (y ∷ ys) h = grind (arith, same_bytes_sound xs ys)

same_bytes_refl : (xs : List ℕ) → same_bytes xs xs ≡ true
unfolding same_bytes
same_bytes_refl [] = refl
same_bytes_refl (x ∷ xs) = ground (arith, same_bytes_refl xs)

pub same_bytes_iff :
    (xs ys : List ℕ) → length xs ≡ length ys → (same_bytes xs ys ≡ true) ↔ (xs ≡ ys)
same_bytes_iff xs ys n =
    (same_bytes_sound xs ys, λ e. subst (λ zs. same_bytes xs zs ≡ true) e (same_bytes_refl xs))

-- The bytes of a text of ASCII characters are its codes.
pub codes-injective : (s t : String) → codes s ≡ codes t → s ≡ t
codes-injective String.[] String.[] e = refl
codes-injective String.[] (String.◌∷◌ d t) e = absurd (cc)
codes-injective (String.◌∷◌ c s) String.[] e = absurd (cc)
codes-injective (String.◌∷◌ c s) (String.◌∷◌ d t) e =
    let h : code c ≡ code d = cc in
    let r : codes s ≡ codes t = cc in
    ap (λ x. String.◌∷◌ x s) (Char-path c d h) ∙ ap (String.◌∷◌ d) (codes-injective s t r)
