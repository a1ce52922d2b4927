-- ===== src/Domain/Confirmation/Words.antt =====
-- The string operations of confirmation.ts, over lists of code points: word boundaries, the search
-- for a phrase between two of them, global replacement, `split(" ")` and `trim`.
pub mod Matching
use Prim.Native.Char.{code}
use Prim.Native.String.{String}
use volta_hackathon.Prelude.{
  ℕ, zero, suc, ◌-◌, Bool, true, false, not, ◌&&◌, ◌||◌, Option, none, some, List, [], ◌∷◌, ◌++◌,
  eqb, leb, if◌then◌else◌, length,
}
use volta_hackathon.Prelude.Text.{is_space}

abbrev pub Text : Type 0
Text = List ℕ

abbrev pub codes : String → Text
codes String.[] = []
codes (String.◌∷◌ c s) = code c ∷ codes s

-- `\w`: an ASCII letter, a digit or an underscore.
abbrev pub is_word : ℕ → Bool
is_word c =
    (leb b'a' c && leb c b'z')
    || (leb b'A' c && leb c b'Z')
    || (leb b'0' c && leb c b'9')
    || eqb c b'_'

-- Whether the character beside a position is a word character; there is none at either end.
abbrev pub head_is_word : Text → Bool
head_is_word [] = false
head_is_word (c ∷ cs) = is_word c

-- `\b`, between what stands before and what stands behind.
abbrev pub boundary : Bool → Text → Bool
boundary before rest = elim before [ true ↦ not (head_is_word rest) | false ↦ head_is_word rest ]

-- The rest of a text behind a prefix.
unfoldable pub strip : Text → Text → Option Text
strip [] text = some text
strip (p ∷ ps) [] = none
strip (p ∷ ps) (c ∷ cs) = if eqb p c then strip ps cs else none

abbrev pub last_is_word : Bool → Text → Bool
last_is_word before [] = before
last_is_word before (c ∷ cs) = last_is_word (is_word c) cs

abbrev ends_at_boundary : Bool → Option Text → Bool
ends_at_boundary before none = false
ends_at_boundary before (some rest) = boundary before rest

-- `\bphrase\b` at this position.
unfoldable pub matches_here : Bool → Text → Text → Bool
unfolding strip
matches_here before phrase text =
    boundary before text && ends_at_boundary (last_is_word before phrase) (strip phrase text)

unfoldable pub first_match : Bool → List Text → Text → Option Text
unfolding matches_here
first_match before [] text = none
first_match before (phrase ∷ phrases) text =
    if matches_here before phrase text then some phrase else first_match before phrases text

abbrev found : Option Text → Bool
found none = false
found (some phrase) = true

-- `/\b(p|q|…)\b/.test(text)`, from a position with `before` on its left.
unfoldable pub has_phrase_from : Bool → List Text → Text → Bool
unfolding first_match
has_phrase_from before phrases [] = found (first_match before phrases [])
has_phrase_from before phrases (c ∷ cs) =
    found (first_match before phrases (c ∷ cs)) || has_phrase_from (is_word c) phrases cs

abbrev pub has_phrase : List Text → Text → Bool
has_phrase phrases text = has_phrase_from false phrases text

-- `text.replace(/\b(p|q|…)\b/g, by)`, with `skip` characters of the last match still to pass.
unfoldable pub replace_from : Bool → ℕ → List Text → Text → Text → Text
unfolding first_match
replace_from before skip phrases by [] = []
replace_from before (suc skip) phrases by (c ∷ cs) = replace_from (is_word c) skip phrases by cs
replace_from before zero phrases by (c ∷ cs) = elim (first_match before phrases (c ∷ cs)) [
  | none ↦ c ∷ replace_from (is_word c) zero phrases by cs
  | some phrase ↦ by ++ replace_from (is_word c) (length phrase - 1) phrases by cs
]

abbrev pub replace_word : List Text → Text → Text → Text
replace_word phrases by text = replace_from false zero phrases by text

-- `text.replace(/[…]+/g, " ")`: each run of the characters becomes one space.
unfoldable pub squeeze : (ℕ → Bool) → Bool → Text → Text
squeeze p inside [] = []
squeeze p inside (c ∷ cs) =
    let rest = squeeze p (p c) cs in
    if p c then (if inside then rest else 0x20 ∷ rest) else c ∷ rest

abbrev pub is_punctuation : ℕ → Bool
is_punctuation c =
    eqb c b'.'
    || eqb c b','
    || eqb c b'!'
    || eqb c b'?'
    || eqb c 0xbf
    || eqb c 0xa1
    || eqb c b';'
    || eqb c b':'

unfoldable pub trim_start : Text → Text
trim_start [] = []
trim_start (c ∷ cs) = if is_space c then trim_start cs else c ∷ cs

unfoldable pub trim_end : Text → Text
trim_end [] = []
trim_end (c ∷ cs) = elim (trim_end cs) [
  | [] ↦ if is_space c then [] else c ∷ []
  | d ∷ ds ↦ c ∷ d ∷ ds
]

abbrev pub trim : Text → Text
trim text = trim_end (trim_start text)

abbrev push_word : Text → List Text → List Text
push_word [] rest = rest
push_word (c ∷ cs) rest = (c ∷ cs) ∷ rest

-- `text.split(" ").filter(Boolean)`; `word` is the part read so far.
unfoldable pub words_from : Text → Text → List Text
words_from word [] = push_word word []
words_from word (c ∷ cs) = elim (eqb c 0x20) [
  | true ↦ push_word word (words_from [] cs)
  | false ↦ words_from (word ++ c ∷ []) cs
]

abbrev pub words : Text → List Text
words text = words_from [] text

abbrev pub same_text : Text → Text → Bool
same_text [] [] = true
same_text (a ∷ as') (b ∷ bs) = eqb a b && same_text as' bs
same_text _ _ = false

-- `set.has(word)`
abbrev pub member : List Text → Text → Bool
member [] word = false
member (w ∷ ws) word = same_text w word || member ws word

abbrev pub is_empty : Text → Bool
is_empty [] = true
is_empty (c ∷ cs) = false
