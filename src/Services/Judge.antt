-- ===== src/Services/Judge.antt =====
-- lib/services/confirmation-judge.ts: who decides whether an answer confirms the terms. The classifier
-- is a parameter: `none` where no client is configured, and what it replies to a recap and an answer.
pub mod Veto
use volta_hackathon.Prelude.{String, Option, none, some, Bool, ◌==◌, if◌then◌else◌, or_else}
use volta_hackathon.Prelude.Text.{trim, slice_units}
use volta_hackathon.Domain.Confirmation.{has_disqualifier, is_unequivocal_confirmation}
use volta_hackathon.Domain.Confirmation.Words.{Text, codes}

pub data ConfirmationVerdict : Type 0 where
  confirms refuses conditional ambiguous : ConfirmationVerdict

pub data JudgementSource : Type 0 where
  classifier rules rules_veto : JudgementSource

pub record ConfirmationJudgement : Type 0 where
  pub verdict : ConfirmationVerdict
  pub reason : String
  pub source : JudgementSource

-- A completion whose content parses, with the two fields that are read, or whatever throws.
pub data ClassifierReply : Type 0 where
  answered : Option String → Option String → ClassifierReply
  unreachable : ClassifierReply

unfoldable pub read_verdict : Option String → Option ConfirmationVerdict
read_verdict none = none
read_verdict (some verdict) =
    if verdict == "CONFIRMS"
    then some ConfirmationVerdict.confirms
    else if verdict == "REFUSES"
    then some ConfirmationVerdict.refuses
    else if verdict == "CONDITIONAL"
    then some ConfirmationVerdict.conditional
    else if verdict == "AMBIGUOUS"
    then some ConfirmationVerdict.ambiguous
    else none

abbrev ambiguous_because : String → JudgementSource → ConfirmationJudgement
ambiguous_because reason source = record {
  verdict = ConfirmationVerdict.ambiguous;
  reason = reason;
  source = source;
}

module _ (nfd lower_case : Text → Text) where
  -- The strict rules, where there is no classifier to ask.
  abbrev by_rules : String → String → ConfirmationJudgement
  by_rules spoken otherwise =
      if is_unequivocal_confirmation nfd lower_case (codes spoken)
      then record {
        verdict = ConfirmationVerdict.confirms;
        reason = "explicit agreement";
        source = JudgementSource.rules;
      }
      else ambiguous_because otherwise JudgementSource.rules

  unfoldable pub by_classifier : String → ClassifierReply → ConfirmationJudgement
  by_classifier spoken unreachable = by_rules spoken "classifier unavailable"
  by_classifier spoken (answered verdict reason) = elim (read_verdict verdict) [
    | none ↦ ambiguous_because "unreadable verdict" JudgementSource.rules
    | some v ↦ record {
      verdict = v;
      reason = slice_units 80 (or_else reason "");
      source = JudgementSource.classifier;
    }
  ]

  unfoldable pub judge_confirmation :
      Option (String → String → ClassifierReply) → String → String → ConfirmationJudgement
  unfolding by_classifier
  judge_confirmation client recap_text utterance =
      let spoken = trim utterance in
      if spoken == ""
      then ambiguous_because "empty reply" JudgementSource.rules
      else if has_disqualifier nfd lower_case (codes spoken)
      then ambiguous_because "borrowed authority or condition" JudgementSource.rules_veto
      else elim client [
        | none ↦ by_rules spoken "no classifier available"
        | some ask ↦ by_classifier spoken (ask recap_text spoken)
      ]
