-- ===== src/Services/Judge/Veto.antt =====
-- What a confirming judgement rests on.
use volta_hackathon.Prelude.{
  String, Option, none, some, true, false, ◌==◌, ◌≡◌, ◌↔◌, arith, eq_iff, refl,
}
use volta_hackathon.Prelude.Text.{trim}
use volta_hackathon.Domain.Confirmation.{has_disqualifier, is_unequivocal_confirmation}
use volta_hackathon.Domain.Confirmation.Words.{Text, codes}
use volta_hackathon.Services.Judge.{
  ConfirmationVerdict, ClassifierReply, unreachable, answered, judge_confirmation, by_classifier,
  read_verdict,
}

pub data Grounds (nfd lower_case : Text → Text) (spoken : String)
    : Option ClassifierReply → Type 0 where
  no_classifier :
      is_unequivocal_confirmation nfd lower_case (codes spoken) ≡ true
      → Grounds nfd lower_case spoken none
  unreachable_classifier :
      is_unequivocal_confirmation nfd lower_case (codes spoken) ≡ true
      → Grounds nfd lower_case spoken (some unreachable)
  classified :
      (reason : Option String)
      → Grounds nfd lower_case spoken (some (answered (some "CONFIRMS") reason))

abbrev pub ask :
    Option (String → String → ClassifierReply) → String → String → Option ClassifierReply
ask none recap_text spoken = none
ask (some f) recap_text spoken = some (f recap_text spoken)

read_verdict-confirms :
    (v : Option String) → read_verdict v ≡ some ConfirmationVerdict.confirms → v ≡ some "CONFIRMS"
unfolding read_verdict
read_verdict-confirms none h = absurd (cc)
read_verdict-confirms (some v) h = ground (arith, eq_iff v "CONFIRMS")

module _ (nfd lower_case : Text → Text) where
  classified_lem :
      (spoken : String) (reply : ClassifierReply)
      → (by_classifier nfd lower_case spoken reply).verdict ≡ ConfirmationVerdict.confirms
      → Grounds nfd lower_case spoken (some reply)
  unfolding by_classifier
  classified_lem spoken unreachable h = unreachable_classifier (ground arith)
  classified_lem spoken (answered verdict reason) h =
      let e : read_verdict verdict ≡ some ConfirmationVerdict.confirms = ground arith in
      rw (read_verdict-confirms verdict e) (classified reason)

  classified_of :
      (spoken : String) (reply : ClassifierReply)
      → Grounds nfd lower_case spoken (some reply)
      → (by_classifier nfd lower_case spoken reply).verdict ≡ ConfirmationVerdict.confirms
  unfolding by_classifier read_verdict
  classified_of spoken unreachable (unreachable_classifier e) = ground (arith, e)
  classified_of spoken (answered verdict reason) (classified _) = refl

  unclassified :
      (spoken : String)
      → Grounds nfd lower_case spoken none
      → is_unequivocal_confirmation nfd lower_case (codes spoken) ≡ true
  unclassified spoken (no_classifier e) = e

  abbrev Passed : String → Type 0
  Passed spoken =
      ((spoken == "") ≡ false) × (has_disqualifier nfd lower_case (codes spoken) ≡ false)

  confirms-Passed :
      (client : Option (String → String → ClassifierReply)) (recap_text utterance : String)
      → (judge_confirmation nfd lower_case client recap_text utterance).verdict
        ≡ ConfirmationVerdict.confirms
      → Passed (trim utterance)
  unfolding judge_confirmation
  confirms-Passed client recap_text utterance h = (ground arith, ground arith)

  judged :
      (client : Option (String → String → ClassifierReply)) (recap_text utterance : String)
      → Passed (trim utterance)
      → ((judge_confirmation nfd lower_case client recap_text utterance).verdict
          ≡ ConfirmationVerdict.confirms)
        ↔ Grounds nfd lower_case (trim utterance) (ask client recap_text (trim utterance))
  unfolding judge_confirmation
  judged none recap_text utterance (e, d) = (
    λ h. no_classifier (ground (arith, e, d)),
    λ g.
        rw (e, judge_confirmation)
          (rw (d, judge_confirmation)
            (rw (unclassified (trim utterance) g, judge_confirmation) refl)),
  )
  judged (some f) recap_text utterance (e, d) =
      let reply = f recap_text (trim utterance) in
      (
        λ h.
            classified_lem (trim utterance) reply
              (rw (d, judge_confirmation) at (rw (e, judge_confirmation) at h)),
        λ g.
            rw (e, judge_confirmation)
              (rw (d, judge_confirmation) (classified_of (trim utterance) reply g)),
      )

  -- Whatever the classifier replies, an answer is judged to confirm exactly when it is not empty,
  -- holds nothing that disqualifies it, and either the classifier answered CONFIRMS or there was no
  -- classifier to reach and the strict rules accept the answer.
  pub judge_confirmation_iff :
      (client : Option (String → String → ClassifierReply)) (recap_text utterance : String)
      → ((judge_confirmation nfd lower_case client recap_text utterance).verdict
          ≡ ConfirmationVerdict.confirms)
        ↔ (((trim utterance == "") ≡ false)
            × (has_disqualifier nfd lower_case (codes (trim utterance)) ≡ false)
            × Grounds nfd lower_case (trim utterance) (ask client recap_text (trim utterance)))
  judge_confirmation_iff client recap_text utterance = (
    λ h.
        let p = confirms-Passed client recap_text utterance h in
        (p.0, p.1, (judged client recap_text utterance p).0 h),
    λ (e, d, g). (judged client recap_text utterance (e, d)).1 g,
  )
