-- ===== src/Examples/Base64.antt =====
-- The encodings of RFC 4648, sections 4 and 5, and a run of the relay's authorization with them.
use Prim.Native.Nat.{◌/◌, ◌%◌}
use Prim.Native.Char.{Char}
use volta_hackathon.Prelude.{
  ℕ, zero, suc, ◌+◌, ◌*◌, String, Bool, true, ◌&&◌, List, [], ◌∷◌, map, ◌≡◌, ◌↔◌, refl, inl, inr,
  arith, Bool-cases, eqb, if◌then◌else◌,
}
use volta_hackathon.Prelude.Text.{trim}
use volta_hackathon.Domain.Confirmation.Words.{codes}
use volta_hackathon.Server.RelayAuth.{relay_secret, create_stream_authorization}
use volta_hackathon.Worker.Authorization.{stream_authorization_valid}
use volta_hackathon.Worker.Authorization.Alphabet.{
  is_alphanumeric, done, pad, Transliterates, padding, letter, plus, slash,
}
use volta_hackathon.Worker.Authorization.Agreement.{stream_authorization_valid_iff}
use volta_hackathon.Examples.Bytes.{same_bytes, same_bytes_iff, codes-injective}

abbrev letters : String
letters = "ABCDEFGHIJKLMNOPQRSTUVWXYZabcdefghijklmnopqrstuvwxyz0123456789"

abbrev letter_at : String → ℕ → Char
letter_at String.[] n = "A"
letter_at (String.◌∷◌ c s) zero = c
letter_at (String.◌∷◌ c s) (suc n) = letter_at s n

abbrev all_alphanumeric : String → Bool
all_alphanumeric String.[] = true
all_alphanumeric (String.◌∷◌ c s) = is_alphanumeric c && all_alphanumeric s

letter_at-alphanumeric :
    (s : String) (n : ℕ) → all_alphanumeric s ≡ true → is_alphanumeric (letter_at s n) ≡ true
letter_at-alphanumeric String.[] n h = refl
letter_at-alphanumeric (String.◌∷◌ c s) zero h = ground arith
letter_at-alphanumeric (String.◌∷◌ c s) (suc n) h = letter_at-alphanumeric s n (ground arith)

-- Both encodings: the letters for 62 and 63, and the padding of one and of two characters.
module _ (p q : Char) where
  sextet : ℕ → Char
  sextet n = if eqb n 62 then p else if eqb n 63 then q else letter_at letters n

  encode : String → String → List ℕ → String
  unfolding sextet
  encode one two [] = ""
  encode one two (a ∷ []) = String.◌∷◌ (sextet (a / 4)) (String.◌∷◌ (sextet (a % 4 * 16)) two)
  encode one two (a ∷ b ∷ []) =
      String.◌∷◌ (sextet (a / 4))
        (String.◌∷◌ (sextet (a % 4 * 16 + b / 16)) (String.◌∷◌ (sextet (b % 16 * 4)) one))
  encode one two (a ∷ b ∷ c ∷ rest) = String.◌∷◌ (sextet (a / 4)) (
      String.◌∷◌ (sextet (a % 4 * 16 + b / 16)) (
        String.◌∷◌ (sextet (b % 16 * 4 + c / 64))
          (String.◌∷◌ (sextet (c % 64)) (encode one two rest))))

abbrev base64 : List ℕ → String
base64 bytes = encode "+" "/" "=" "==" bytes

abbrev base64url : List ℕ → String
base64url bytes = encode "-" "_" "" "" bytes

-- One more digit in both texts.
digit :
    (n : ℕ) {s t : String}
    → Transliterates s t
    → Transliterates (String.◌∷◌ (sextet "+" "/" n) s) (String.◌∷◌ (sextet "-" "_" n) t)
unfolding sextet
digit n h = elim (Bool-cases (eqb n 62)) [
  | inl e ↦ rw e (plus h)
  | inr e ↦ rw e (elim (Bool-cases (eqb n 63)) [
    | inl f ↦ rw f (slash h)
    | inr f ↦ rw f (letter (letter_at-alphanumeric letters n refl) h)
  ])
]

transliterates : (bytes : List ℕ) → Transliterates (base64 bytes) (base64url bytes)
unfolding encode
transliterates [] = padding done
transliterates (a ∷ []) = digit (a / 4) (digit (a % 4 * 16) (padding (pad (pad done))))
transliterates (a ∷ b ∷ []) =
    digit (a / 4) (digit (a % 4 * 16 + b / 16) (digit (b % 16 * 4) (padding (pad done))))
transliterates (a ∷ b ∷ c ∷ rest) = digit (a / 4) (
    digit (a % 4 * 16 + b / 16)
      (digit (b % 16 * 4 + c / 64) (digit (c % 64) (transliterates rest))))

-- A keyed sum in the place of the keyed hash.
abbrev hmac : String → String → List ℕ
hmac key message = map (λ c. c + 154) (codes message)

authorized_example :
    (stream_authorization_valid codes same_bytes hmac base64 "ae" "-_8" "secret" ≡ true)
    ↔ (◌≡◌ {A = String} "-_8" "-_8")
unfolding create_stream_authorization relay_secret trim encode sextet
authorized_example =
    stream_authorization_valid_iff codes same_bytes hmac base64 base64url same_bytes_iff
      codes-injective transliterates "ae" "secret" "-_8" "-_8" refl refl
