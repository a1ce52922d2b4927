-- ===== src/Worker/Authorization/Alphabet.antt =====
-- RFC 4648, section 5: what base64url has in the place of each character of base64. The standard's
-- text, and `url_form` of the worker, which is to agree with it.
use Prim.Native.Char.{Char, code}
use Prim.Native.String.{String}
use volta_hackathon.Prelude.{◌≡◌, refl, Bool, true, ◌&&◌, ◌||◌, leb, arith}
use volta_hackathon.Worker.Authorization.{url_letters, without_padding, url_form}

-- `A` to `Z`, `a` to `z` and `0` to `9`: the first 62 letters of both alphabets.
abbrev pub is_alphanumeric : Char → Bool
is_alphanumeric c =
    (leb b'A' (code c) && leb (code c) b'Z')
    || (leb b'a' (code c) && leb (code c) b'z')
    || (leb b'0' (code c) && leb (code c) b'9')

-- Nothing but `=`.
pub data IsPadding : String → Type 0 where
  done : IsPadding ""
  pad : {s : String} → IsPadding s → IsPadding (String.◌∷◌ "=" s)

-- `Transliterates s t`: where `s` is base64 with padding, `t` is base64url without.
pub data Transliterates : String → String → Type 0 where
  padding : {s : String} → IsPadding s → Transliterates s ""
  letter :
      {c : Char} {s t : String}
      → is_alphanumeric c ≡ true
      → Transliterates s t
      → Transliterates (String.◌∷◌ c s) (String.◌∷◌ c t)
  plus : {s t : String} → Transliterates s t → Transliterates (String.◌∷◌ "+" s) (String.◌∷◌ "-" t)
  slash : {s t : String} → Transliterates s t → Transliterates (String.◌∷◌ "/" s) (String.◌∷◌ "_" t)

padding-dropped : {s : String} → IsPadding s → url_form s ≡ ""
unfolding url_form url_letters without_padding
padding-dropped done = refl
padding-dropped (pad p) = let ih = padding-dropped p in rw ih refl

pub url_form_lem : {s t : String} → Transliterates s t → url_form s ≡ t
unfolding url_form url_letters without_padding
url_form_lem (padding p) = padding-dropped p
url_form_lem (letter {c} {s} {t} a h) = let ih = url_form_lem h in ground arith
url_form_lem (plus h) = let ih = url_form_lem h in rw ih refl
url_form_lem (slash h) = let ih = url_form_lem h in rw ih refl
