-- ===== src/Domain/Confirmation/Veto.antt =====
-- The veto and the acceptance rules against each other.
use volta_hackathon.Prelude.{◌≤◌, ◌<◌, ◌≡◌, ◌⊎◌, ◌↔◌, true, false, arith, inl, inr, length, all}
use volta_hackathon.Domain.Confirmation.{
  contradiction, confirms, bare_yes, supporting, first_word_in, is_disqualified, is_unequivocal,
  normalize, has_disqualifier, is_unequivocal_confirmation,
}
use volta_hackathon.Domain.Confirmation.Words.{Text, words, member, has_phrase}
use volta_hackathon.Domain.Confirmation.Words.Matching.{Occurs, has_phrase_from_iff}

unequivocal-vetoes : (t : Text) → is_unequivocal t ≡ true → is_disqualified t ≡ false
unfolding is_unequivocal is_disqualified
unequivocal-vetoes t h = ground arith

-- What an accepted answer is, on its normalized text.
pub record Accepted (t : Text) : Type 0 where
  pub not_vetoed : is_disqualified t ≡ false
  pub some_word : 0 < length (words t)
  pub few_words : length (words t) ≤ 12
  pub agrees :
      Occurs false confirms t
      ⊎ ((first_word_in bare_yes (words t) ≡ true) × (all (member supporting) (words t) ≡ true))

unequivocal-agrees :
    (t : Text)
    → is_unequivocal t ≡ true
    → (has_phrase confirms t ≡ true)
      ⊎ ((first_word_in bare_yes (words t) ≡ true) × (all (member supporting) (words t) ≡ true))
unfolding is_unequivocal
unequivocal-agrees t h = ground arith

unequivocal-Accepted : (t : Text) → is_unequivocal t ≡ true → Accepted t
unfolding is_unequivocal
unequivocal-Accepted t h = record {
  not_vetoed = unequivocal-vetoes t h;
  some_word = ground arith;
  few_words = ground arith;
  agrees = elim (unequivocal-agrees t h) [
    | inl e ↦ inl ((has_phrase_from_iff false confirms t).0 e)
    | inr p ↦ inr p
  ];
}

Accepted-unequivocal : (t : Text) → Accepted t → is_unequivocal t ≡ true
unfolding is_unequivocal is_disqualified
Accepted-unequivocal t a = elim a.agrees [
  | inl o ↦
      let e : has_phrase confirms t ≡ true = (has_phrase_from_iff false confirms t).1 o in
      ground (arith, a.not_vetoed, a.some_word, a.few_words)
  | inr p ↦ ground (arith, a.not_vetoed, a.some_word, a.few_words)
]

vetoed :
    (t : Text)
    → has_phrase contradiction t ≡ true
    → (is_disqualified t ≡ true) × (is_unequivocal t ≡ false)
unfolding is_unequivocal is_disqualified
vetoed t e = ground arith

module _ (nfd lower_case : Text → Text) where
  -- An answer is accepted exactly when it is not vetoed, has one to twelve words, and either holds
  -- a confirming word between word boundaries or is a bare yes among supporting words.
  pub is_unequivocal_confirmation_iff :
      (value : Text)
      → (is_unequivocal_confirmation nfd lower_case value ≡ true)
        ↔ Accepted (normalize nfd lower_case value)
  unfolding is_unequivocal_confirmation
  is_unequivocal_confirmation_iff value = (
    unequivocal-Accepted (normalize nfd lower_case value),
    Accepted-unequivocal (normalize nfd lower_case value),
  )

  -- A disqualifying phrase that stands between word boundaries anywhere in the normalized answer
  -- vetoes it, and the answer is then not accepted, however the rest of it reads.
  pub contradiction_vetoes :
      (value : Text)
      → Occurs false contradiction (normalize nfd lower_case value)
      → (has_disqualifier nfd lower_case value ≡ true)
        × (is_unequivocal_confirmation nfd lower_case value ≡ false)
  unfolding has_disqualifier is_unequivocal_confirmation
  contradiction_vetoes value o =
      let e = (has_phrase_from_iff false contradiction (normalize nfd lower_case value)).1 o in
      vetoed (normalize nfd lower_case value) e
