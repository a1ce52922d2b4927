-- ===== src/Examples/Bookings.antt =====
-- Runs of the steps on the commitment.
use volta_hackathon.Prelude.{ℕ, zero, suc, none, some, ◌≡◌, refl, ok, err, ap, arith, Result}
use volta_hackathon.Prelude.Sort.{sort}
use volta_hackathon.Prelude.Text.{decimal}
use volta_hackathon.Domain.Types.{Commitment, CommitmentStatus, Evidence, OperationSnapshot}
use volta_hackathon.Domain.Policy.{winner, assert_offer_bookable}
use volta_hackathon.Domain.Commitment.{transition_commitment}
use volta_hackathon.Store.Environment.{IsClock}
use volta_hackathon.Store.Action.{Draft, ◌>>◌}
use volta_hackathon.Store.Ledger.{write_event}
use volta_hackathon.Store.Booking.{
  StageBookingResult, stage_booking, confirm_booking, mark_recap_sent, link_evidence,
}
use volta_hackathon.Store.Booking.Invariant.{
  IsBacked, mark_recap_sent-IsBacked, link_evidence-IsBacked,
}
use volta_hackathon.Store.Booking.Committing.{Commits, recap_evidence_any_order}
use volta_hackathon.Store.Booking.Steps.{
  Confirms, Stages, confirm_booking-Confirms, stage_booking-Stages, confirm_booking-stage_booking,
}
use volta_hackathon.Examples.{
  runtime, strokes, count, market, draft_of, booked_at, commitment_at, audio,
}

abbrev confirmed : Commitment
confirmed = record (commitment_at CommitmentStatus.verbally_confirmed) {
  verbally_confirmed_at = some "||";
}

confirms_example :
    Confirms runtime "commitment" "token"
      (draft_of (booked_at CommitmentStatus.proposed))
      (confirm_booking runtime "commitment" "token"
        (draft_of (booked_at CommitmentStatus.proposed))).1.snapshot
      confirmed
unfolding confirm_booking assert_offer_bookable winner sort transition_commitment count strokes
confirms_example =
    confirm_booking-Confirms runtime "commitment" "token"
      (draft_of (booked_at CommitmentStatus.proposed)) confirmed refl

abbrev result_or : {A : Type 0} → Result A → A → A
result_or (ok a) b = a
result_or (err message) b = b

abbrev recapped : OperationSnapshot
recapped = booked_at CommitmentStatus.recap_sent

abbrev evidence : Evidence
evidence = record {
  id = "id-|";
  operation_id = "op-2041";
  commitment_id = "commitment";
  call_id = "call-booking";
  recording_url = audio.recording_url;
  storage_path = none;
  speaker = "COUNTERPARTY";
  segment_text = "confirmo";
  start_seconds = 40;
  end_seconds = 42;
  verified_at = "||";
}

recapped-IsBacked : IsBacked recapped
recapped-IsBacked = record {
  confirmed = λ h. refl;
  recapped = λ h. refl;
  referenced = λ h. refl;
  dated = λ h. ground arith;
  evidenced = λ h. ground arith;
}

link_evidence_example :
    IsBacked (link_evidence runtime "commitment" audio (draft_of recapped)).1.snapshot
unfolding link_evidence transition_commitment strokes
link_evidence_example =
    link_evidence-IsBacked runtime "commitment" audio (draft_of recapped) evidence recapped-IsBacked
      refl

abbrev evidenced : OperationSnapshot
evidenced = record (booked_at CommitmentStatus.verbally_confirmed) { evidence = some evidence }

evidenced-IsBacked : IsBacked evidenced
evidenced-IsBacked = record {
  confirmed = λ h. refl;
  recapped = λ h. refl;
  referenced = λ h. refl;
  dated = λ h. ground arith;
  evidenced = λ h. ground arith;
}

abbrev sent : Commitment
sent = record (commitment_at CommitmentStatus.committed) {
  recap_sent_at = some "|";
  twilio_message_sid = some "SM1";
  committed_at = some "||||";
}

mark_recap_sent_example :
    IsBacked (mark_recap_sent runtime "commitment" "SM1" (draft_of evidenced)).1.snapshot
unfolding mark_recap_sent transition_commitment write_event strokes
mark_recap_sent_example =
    mark_recap_sent-IsBacked runtime "commitment" "SM1" (draft_of evidenced) sent evidenced-IsBacked
      refl

abbrev verbal : Draft
verbal = draft_of (booked_at CommitmentStatus.verbally_confirmed)

any_order_example :
    Commits "SM1" audio (commitment_at CommitmentStatus.verbally_confirmed) (
      (mark_recap_sent runtime "commitment" "SM1" >> link_evidence runtime "commitment" audio)
        verbal)
    × Commits "SM1" audio (commitment_at CommitmentStatus.verbally_confirmed) (
        (link_evidence runtime "commitment" audio >> mark_recap_sent runtime "commitment" "SM1")
          verbal)
any_order_example =
    recap_evidence_any_order runtime "commitment" "SM1" audio verbal
      (commitment_at CommitmentStatus.verbally_confirmed) refl refl refl

count-strokes : (n : ℕ) → count (strokes n) ≡ n
unfolding count strokes
count-strokes zero = refl
count-strokes (suc n) = ap suc (count-strokes n)

runtime-IsClock : IsClock runtime
runtime-IsClock = record { forward = λ m n h. h; round_trip = count-strokes }

abbrev staging : Result StageBookingResult × Draft
staging = stage_booking runtime "op-2041" "offer-rutapac" "call-booking" (draft_of market)

abbrev staged : StageBookingResult
staged = record {
  commitment = record {
    id = "id-||";
    operation_id = "op-2041";
    carrier_id = "carrier-rutapac";
    offer_id = "offer-rutapac";
    booking_call_id = "call-booking";
    status = CommitmentStatus.proposed;
    recap_text =
        "Volta / OP-2041: RutaPac confirma recolección el 2026-09-03 a las 10:00, de Port of Manzanillo a Guadalajara, por MXN 8500.";
    confirmation_token_hash = "sha256:token-|";
    token_expires_at = strokes 1200003;
    verbally_confirmed_at = none;
    recap_sent_at = none;
    twilio_message_sid = none;
    committed_at = none;
  };
  confirmation_token = "token-|";
}

staging_example : Stages runtime "op-2041" "offer-rutapac" (draft_of market) staging.1 staged
unfolding stage_booking assert_offer_bookable winner sort decimal strokes
staging_example =
    stage_booking-Stages runtime "op-2041" "offer-rutapac" "call-booking" (draft_of market) staged
      refl

abbrev later : Draft
later = record { snapshot = staging.1.snapshot; tick = 60000 }

confirm_staged_example :
    (c : Commitment) × ((confirm_booking runtime "id-||" "token-|" later).0 ≡ ok c)
    × ((confirm_booking runtime "id-||" "token-|" later).1.snapshot.commitment ≡ some c)
    × (c.id ≡ "id-||")
    × (c.status ≡ CommitmentStatus.verbally_confirmed)
    × (c.offer_id ≡ "offer-rutapac")
unfolding stage_booking assert_offer_bookable winner sort decimal strokes
confirm_staged_example =
    confirm_booking-stage_booking runtime runtime-IsClock "op-2041" "offer-rutapac" "call-booking"
      (draft_of market) later staged refl refl (omega arith)
