-- ===== src/Domain/Confirmation/Words/Matching.antt =====
-- The search for a phrase between word boundaries, against a description of its occurrences.
use volta_hackathon.Prelude.{
  ℕ, ◌≡◌, ◌↔◌, inl, inr, refl, sym, ap, Bool, true, some, List, [], ◌∷◌, ◌++◌, arith, In,
  Bool-cases, Option-cases, subst,
}
use volta_hackathon.Domain.Confirmation.Words.{
  Text, boundary, last_is_word, strip, matches_here, first_match, has_phrase_from, is_word, found,
}

strip_sound : (p text rest : Text) → strip p text ≡ some rest → text ≡ p ++ rest
unfolding strip
strip_sound [] text rest h = ground arith
strip_sound (a ∷ p) [] rest h = absurd (cc)
strip_sound (a ∷ p) (c ∷ cs) rest h = ground (arith, strip_sound p cs rest)

strip_complete : (p rest : Text) → strip p (p ++ rest) ≡ some rest
unfolding strip
strip_complete [] rest = refl
strip_complete (a ∷ p) rest = ground (arith, strip_complete p rest)

-- A phrase of the list stands in the text, with a word boundary on either side; `before` says
-- whether a word character stands to the left of the text.
pub record Occurs (before : Bool) (phrases : List Text) (text : Text) : Type 0 where
  pub left : Text
  pub phrase : Text
  pub right : Text
  pub listed : In phrase phrases
  pub splits : text ≡ left ++ (phrase ++ right)
  pub opens : boundary (last_is_word before left) (phrase ++ right) ≡ true
  pub closes : boundary (last_is_word (last_is_word before left) phrase) right ≡ true

matches_here_sound :
    (before : Bool) (phrase text : Text)
    → matches_here before phrase text ≡ true
    → (right : Text) × (text ≡ phrase ++ right)
      × (boundary before (phrase ++ right) ≡ true)
      × (boundary (last_is_word before phrase) right ≡ true)
unfolding matches_here
matches_here_sound before phrase text h = elim (Option-cases (strip phrase text)) [
  | inl e ↦ absurd (ground arith)
  | inr (right, e) ↦
      let whole = strip_sound phrase text right e in
      (right, whole, subst (λ t. boundary before t ≡ true) whole (ground arith), ground arith)
]

matches_here_complete :
    (before : Bool) (phrase right : Text)
    → boundary before (phrase ++ right) ≡ true
    → boundary (last_is_word before phrase) right ≡ true
    → matches_here before phrase (phrase ++ right) ≡ true
unfolding matches_here
matches_here_complete before phrase right h k = rw (h, strip_complete phrase right) k

first_match_sound :
    (before : Bool) (ps : List Text) (text phrase : Text)
    → first_match before ps text ≡ some phrase
    → In phrase ps × (matches_here before phrase text ≡ true)
unfolding first_match
first_match_sound before [] text phrase h = absurd (cc)
first_match_sound before (p ∷ ps) text phrase h = elim (Bool-cases (matches_here before p text)) [
  | inl e ↦
      let same : p ≡ phrase = ground arith in
      (inl (sym same), subst (λ q. matches_here before q text ≡ true) same e)
  | inr e ↦ let (i, m) = first_match_sound before ps text phrase (ground arith) in (inr i, m)
]

first_match_complete :
    (before : Bool) (ps : List Text) (text phrase : Text)
    → In phrase ps
    → matches_here before phrase text ≡ true
    → found (first_match before ps text) ≡ true
unfolding first_match
first_match_complete before [] text phrase i m = absurd i
first_match_complete before (p ∷ ps) text phrase (inl e) m =
    let m' = subst (λ q. matches_here before q text ≡ true) e m in rw m'
first_match_complete before (p ∷ ps) text phrase (inr i) m =
    ground (arith, first_match_complete before ps text phrase i m)

Occurs-cons :
    (before : Bool) (ps : List Text) (c : ℕ) (cs : Text)
    → Occurs (is_word c) ps cs
    → Occurs before ps (c ∷ cs)
Occurs-cons before ps c cs o = record {
  left = c ∷ o.left;
  phrase = o.phrase;
  right = o.right;
  listed = o.listed;
  splits = ap (◌∷◌ c) o.splits;
  opens = o.opens;
  closes = o.closes;
}

first_match-Occurs :
    (before : Bool) (ps : List Text) (text phrase : Text)
    → first_match before ps text ≡ some phrase
    → Occurs before ps text
first_match-Occurs before ps text phrase e =
    let (i, m) = first_match_sound before ps text phrase e in
    let (right, whole, opens, closes) = matches_here_sound before phrase text m in
    record {
      left = [];
      phrase = phrase;
      right = right;
      listed = i;
      splits = whole;
      opens = opens;
      closes = closes;
    }

has_phrase_from_sound :
    (before : Bool) (ps : List Text) (text : Text)
    → has_phrase_from before ps text ≡ true
    → Occurs before ps text
unfolding has_phrase_from
has_phrase_from_sound before ps [] h = elim (Option-cases (first_match before ps [])) [
  | inl e ↦ absurd (ground arith)
  | inr (phrase, e) ↦ first_match-Occurs before ps [] phrase e
]
has_phrase_from_sound before ps (c ∷ cs) h = elim (Option-cases (first_match before ps (c ∷ cs))) [
  | inl e ↦ Occurs-cons before ps c cs (has_phrase_from_sound (is_word c) ps cs (ground arith))
  | inr (phrase, e) ↦ first_match-Occurs before ps (c ∷ cs) phrase e
]

has_phrase_from_here :
    (before : Bool) (ps : List Text) (text : Text)
    → found (first_match before ps text) ≡ true
    → has_phrase_from before ps text ≡ true
unfolding has_phrase_from
has_phrase_from_here before ps [] h = h
has_phrase_from_here before ps (c ∷ cs) h = rw h

has_phrase_from_complete :
    (before : Bool) (ps : List Text) (left phrase right : Text)
    → In phrase ps
    → boundary (last_is_word before left) (phrase ++ right) ≡ true
    → boundary (last_is_word (last_is_word before left) phrase) right ≡ true
    → has_phrase_from before ps (left ++ (phrase ++ right)) ≡ true
unfolding has_phrase_from
has_phrase_from_complete before ps [] phrase right i h k =
    has_phrase_from_here before ps (phrase ++ right) (
      first_match_complete before ps (phrase ++ right) phrase i
        (matches_here_complete before phrase right h k))
has_phrase_from_complete before ps (c ∷ left) phrase right i h k =
    ground (arith, has_phrase_from_complete (is_word c) ps left phrase right i h k)

-- The search succeeds exactly when a phrase of the list stands somewhere in the text between word
-- boundaries.
pub has_phrase_from_iff :
    (before : Bool) (ps : List Text) (text : Text)
    → (has_phrase_from before ps text ≡ true) ↔ Occurs before ps text
has_phrase_from_iff before ps text = (
  has_phrase_from_sound before ps text,
  λ o.
      subst (λ t. has_phrase_from before ps t ≡ true) (sym o.splits)
        (has_phrase_from_complete before ps o.left o.phrase o.right o.listed o.opens o.closes),
)
