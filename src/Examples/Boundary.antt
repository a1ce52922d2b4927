-- ===== src/Examples/Boundary.antt =====
-- Runs of the confirmation rules, the tools, the version check and the guards of the server.
use volta_hackathon.Prelude.{
  ℕ, ◌≤◌, ◌<◌, String, true, false, none, some, [], ◌∷◌, ◌==◌, ◌≡◌, ◌≢◌, ◌↔◌, ◌⊎◌, refl, arith,
  length, filter, is_some, In,
}
use volta_hackathon.Prelude.Sort.{sort}
use volta_hackathon.Prelude.Text.{trim, decimal}
use volta_hackathon.Domain.Types.{
  Carrier, CommitmentStatus, Offer, OperationSnapshot, Escalation, EscalationStatus,
}
use volta_hackathon.Domain.Policy.{winner, may_close_on_quote, assert_offer_bookable}
use volta_hackathon.Domain.Policy.Booking.{Answered}
use volta_hackathon.Domain.Commitment.{transition_commitment}
use volta_hackathon.Domain.Confirmation.{
  is_unequivocal_confirmation, normalize, contradiction, has_disqualifier, inner_words,
}
use volta_hackathon.Domain.Confirmation.Words.{
  Text, codes, has_phrase_from, trim_end, trim_start, squeeze, replace_from, words_from,
}
use volta_hackathon.Domain.Confirmation.Words.Matching.{Occurs, has_phrase_from_iff}
use volta_hackathon.Domain.Confirmation.Veto.{
  Accepted, is_unequivocal_confirmation_iff, contradiction_vetoes,
}
use volta_hackathon.Store.Booking.Invariant.{Keeps}
use volta_hackathon.Store.Escalations.{live_escalation, create_escalation}
use volta_hackathon.Store.Booking.{link_evidence, stage_booking, confirm_booking}
use volta_hackathon.Store.Ledger.{add_event, record_decision, write_event, write_decision}
use volta_hackathon.Store.Mutation.{
  World, attempt_mutation, mutate, write_snapshot, read_snapshot, get_snapshot,
}
use volta_hackathon.Store.Mutation.Isolation.{
  AreVersioned, LeftBy, Applied, attempt_mutation_isolated,
}
use volta_hackathon.Store.Mutation.Isolation.Keeps.{attempt_mutation-Keeps}
use volta_hackathon.Store.Session.{Interference}
use volta_hackathon.Services.Judge.{
  read_verdict, ClassifierReply, answered, judge_confirmation, ConfirmationVerdict,
}
use volta_hackathon.Services.Judge.Veto.{Grounds, judge_confirmation_iff}
use volta_hackathon.Tools.{
  stage, ChangeAnswer, accept, change_violations, conclude, ChangeArguments, ConfirmArguments,
  confirm_booking_tool, report_operational_change, stage_booking_tool,
}
use volta_hackathon.Tools.Authority.{
  report_operational_change-live, stage_booking_tool-IsAllowed, confirm_booking_tool-IsGuarded,
}
use volta_hackathon.Server.RateLimit.{allow_request, is_recent}
use volta_hackathon.Server.RateLimit.Window.{Run, allow_request_iff}
use volta_hackathon.Server.Auth.{Role, Settings, verify_access_code}
use volta_hackathon.Server.Auth.Roles.{IsCode, verify_access_code_iff}
use volta_hackathon.Examples.Bytes.{same_bytes, same_bytes_iff, codes-injective}
use volta_hackathon.Examples.{runtime, market, strokes, count, world_of, booked_at, audio, two_ids}

-- The two text functions on answers that are plain already.
abbrev plain : Text → Text
plain text = text

unequivocal_example :
    (is_unequivocal_confirmation plain plain (codes "si, confirmo") ≡ true)
    ↔ Accepted (normalize plain plain (codes "si, confirmo"))
unequivocal_example = is_unequivocal_confirmation_iff plain plain (codes "si, confirmo")

phrase_example :
    (has_phrase_from false contradiction (codes "mi jefe confirmo") ≡ true)
    ↔ Occurs false contradiction (codes "mi jefe confirmo")
phrase_example = has_phrase_from_iff false contradiction (codes "mi jefe confirmo")

classifier : String → String → ClassifierReply
classifier recap reply = answered (some "CONFIRMS") (some "agreed")

judge_example :
    ((judge_confirmation plain plain (some classifier) "recap" " confirmo ").verdict
      ≡ ConfirmationVerdict.confirms)
    ↔ (((trim " confirmo " == "") ≡ false)
        × (has_disqualifier plain plain (codes (trim " confirmo ")) ≡ false)
        × Grounds plain plain (trim " confirmo ") (some (classifier "recap" (trim " confirmo "))))
judge_example = judge_confirmation_iff plain plain (some classifier) "recap" " confirmo "

-- Nobody else writes.
abbrev alone : ℕ → OperationSnapshot → OperationSnapshot
alone n s = s

alone-AreVersioned : AreVersioned alone
alone-AreVersioned n s e = refl

abbrev quiet : Interference
quiet tick = alone

limited_example :
    ((allow_request "login" 2 60 7 (allow_request "login" 2 60 3 (λ k. none)).1).0 ≡ true)
    ↔ (length (filter (is_recent 60 7) (3 ∷ [])) < 2)
unfolding allow_request
limited_example =
    allow_request_iff 2 60 "login" 3 7 (3 ∷ []) (allow_request "login" 2 60 3 (λ k. none)).1
      (Run.granted Run.start (omega arith) refl) (omega arith)

borrowed : Occurs false contradiction (normalize plain plain (codes "mi jefe confirmo"))
unfolding has_phrase_from contradiction normalize trim_end trim_start squeeze replace_from
borrowed =
    (has_phrase_from_iff false contradiction (normalize plain plain (codes "mi jefe confirmo"))).0
      refl

contradiction_example :
    (has_disqualifier plain plain (codes "mi jefe confirmo") ≡ true)
    × (is_unequivocal_confirmation plain plain (codes "mi jefe confirmo") ≡ false)
contradiction_example = contradiction_vetoes plain plain (codes "mi jefe confirmo") borrowed

abbrev proposed_world : World
proposed_world = world_of (booked_at CommitmentStatus.proposed)

abbrev guard : ConfirmArguments
guard = record {
  commitment_id = "commitment";
  confirmation_token = "token";
  confirmation_text = " confirmo ";
}

accepted_example :
    ((trim " confirmo " == "") ≡ false)
    × (has_disqualifier plain plain (codes (trim " confirmo ")) ≡ false)
    × Grounds plain plain (trim " confirmo ") (some (classifier "recap" (trim " confirmo ")))
unfolding confirm_booking_tool get_snapshot read_snapshot trim judge_confirmation has_disqualifier
    classifier accept mutate attempt_mutation write_snapshot confirm_booking assert_offer_bookable
    winner sort transition_commitment count strokes trim_end trim_start squeeze replace_from
    has_phrase_from contradiction inner_words words_from read_verdict
accepted_example =
    confirm_booking_tool-IsGuarded runtime quiet plain plain (some classifier) guard
      CommitmentStatus.verbally_confirmed
      "Thank the dispatcher. The written recap will be sent after the call ends." proposed_world
      refl

abbrev friday : ChangeArguments
friday = record {
  operation_id = "op-2041";
  call_id = "call-azul";
  requested_pickup_date = some "2026-09-04";
  requested_amount = none;
  description = "Friday instead";
}

abbrev refused : ChangeAnswer
refused = record {
  allowed = false;
  escalation_required = true;
  violations = "pickup_day_change_not_authorized" ∷ [];
  instruction =
      "A human has already been brought in. Tell the caller that, explain the authority limit, and wait without negotiating.";
}

blocked_example :
    is_some (
      live_escalation "call-azul"
        (report_operational_change runtime quiet friday (world_of market)).1.stored.escalation)
    ≡ true
unfolding report_operational_change change_violations conclude get_snapshot read_snapshot mutate
    attempt_mutation write_snapshot add_event record_decision create_escalation write_event
    write_decision
blocked_example =
    report_operational_change-live runtime quiet (λ tick. alone-AreVersioned) friday
      (world_of market) refused refl refl

abbrev escalation : Escalation
escalation = record {
  id = "id-|";
  operation_id = "op-2041";
  call_id = "call-azul";
  status = EscalationStatus.open_;
  reason = "reason";
  requested_change = "change";
  created_at = "||";
  connected_at = none;
}

isolated_example :
    (base : OperationSnapshot) × LeftBy alone 6 market base
    × Applied runtime
        (create_escalation runtime "op-2041" "call-azul" "reason" "change")
        base
        (attempt_mutation runtime alone 6
          (create_escalation runtime "op-2041" "call-azul" "reason" "change")
          (world_of market)).1.stored
        escalation
unfolding attempt_mutation read_snapshot write_snapshot create_escalation strokes
isolated_example =
    attempt_mutation_isolated runtime alone
      (create_escalation runtime "op-2041" "call-azul" "reason" "change") 6 (world_of market)
      escalation alone-AreVersioned refl

-- The operation stays the one of the store.
abbrev OnOperation : OperationSnapshot → Type 0
OnOperation s = s.operation.id ≡ "op-2041"

link-Keeps : Keeps OnOperation (link_evidence runtime "commitment" audio)
unfolding link_evidence transition_commitment write_event
link-Keeps d e p h = ground arith

keeps_example :
    OnOperation
      (attempt_mutation runtime alone 6
        (link_evidence runtime "commitment" audio)
        (world_of (booked_at CommitmentStatus.recap_sent))).1.stored
keeps_example =
    attempt_mutation-Keeps runtime alone (link_evidence runtime "commitment" audio) OnOperation
      (λ n s p. p) (λ s v at p. p) link-Keeps 6 (world_of (booked_at CommitmentStatus.recap_sent))
      refl

stage_example :
    (o : Offer) × (o.id ≡ "offer-rutapac")
    × (winner runtime.locale_compare market ≡ some o)
    × ((o.amount ≤ 8500)
        ⊎ ((carrier : Carrier)
            → In carrier market.carriers
            → carrier.id ≢ o.carrier_id
            → Answered runtime.locale_compare market carrier))
unfolding stage_booking_tool get_snapshot read_snapshot may_close_on_quote stage mutate
    attempt_mutation write_snapshot stage_booking assert_offer_bookable winner sort decimal strokes
stage_example =
    stage_booking_tool-IsAllowed runtime quiet "op-2041" "call-rutapac" "offer-rutapac" "id-||"
      "token-|"
      "Volta / OP-2041: RutaPac confirma recolección el 2026-09-03 a las 10:00, de Port of Manzanillo a Guadalajara, por MXN 8500."
      "Read the recap exactly, then ask for an explicit yes or no." (world_of market) two_ids refl
      refl

abbrev settings : Settings
settings = record {
  demo_access_code = some "operator-code";
  demo_viewer_code = some "viewer-code";
  production = true;
}

access_example :
    ((verify_access_code codes same_bytes settings "viewer-code" ≡ some Role.operator)
      ↔ IsCode "operator-code" "viewer-code")
    × ((verify_access_code codes same_bytes settings "viewer-code" ≡ some Role.viewer)
        ↔ ((IsCode "operator-code" "viewer-code" → ⊥) × IsCode "viewer-code" "viewer-code"))
access_example =
    verify_access_code_iff codes same_bytes same_bytes_iff codes-injective settings "viewer-code"
