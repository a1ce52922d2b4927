-- ===== src/Examples/Services.antt =====
-- Runs of the services and of the callbacks.
use volta_hackathon.Prelude.{
  String, true, false, none, some, List, [], ◌∷◌, ◌==◌, if◌then◌else◌, Result, ◌≡◌, ◌≢◌, ◌⊎◌, refl,
  ok, err,
}
use volta_hackathon.Domain.Types.{
  CallAttempt, Carrier, Commitment, CommitmentStatus, EscalationStatus, OperationSnapshot,
  VoiceProvider,
}
use volta_hackathon.Domain.Confirmation.Words.{Text}
use volta_hackathon.Store.Mutation.{World, get_snapshot, read_snapshot}
use volta_hackathon.Store.Session.{Interference}
use volta_hackathon.Services.Operations.{Legs}
use volta_hackathon.Services.Verification.{Channels, send_commitment_recap, deliver_text_recap}
use volta_hackathon.Services.Verification.Recap.{send_commitment_recap_undelivered}
use volta_hackathon.Services.Verification.Recording.{
  Provider, DiarizedSegment, Media, process_recording,
}
use volta_hackathon.Services.Verification.Recording.Evidence.{Outcome, process_recording_evidence}
use volta_hackathon.Services.Market.{auto_book_if_settled}
use volta_hackathon.Services.Market.Settled.{Settled, auto_book_if_settled_acts}
use volta_hackathon.Services.Handoff.{HandoffProvider, take_over}
use volta_hackathon.Services.Handoff.Order.{IsDialing, take_over_waits}
use volta_hackathon.Api.Receipts.{Site}
use volta_hackathon.Api.Callbacks.{
  Callback, post_twilio_status, post_telnyx_status, post_twilio_message, post_twilio_conference,
}
use volta_hackathon.Api.Callbacks.Repeats.{Repeats, callbacks_repeat}
use volta_hackathon.Examples.{runtime, market, world_of, booked_at}

abbrev quiet : Interference
quiet tick n s = s

abbrev plain : Text → Text
plain text = text

-- Every channel is down.
abbrev dead : Channels
dead = record {
  demo_mode = false;
  transport = VoiceProvider.telnyx;
  send_whatsapp_text = λ phone body. err "down";
  send_telnyx_sms = λ phone body. err "Telnyx request failed (500)";
  is_twilio_configured = false;
  create_message = λ request. err "down";
  is_email_configured = true;
  send_recap_email = λ address subject body. err "down";
  public_base_url = "https://volta.example";
}

abbrev confirmed_world : World
confirmed_world = world_of (booked_at CommitmentStatus.verbally_confirmed)

undelivered_example :
    ((c : Commitment)
      → (send_commitment_recap runtime quiet dead "call-booking" confirmed_world).0 ≢ ok (some c))
    × ((send_commitment_recap runtime quiet dead "call-booking" confirmed_world).1.stored.commitment
        ≡ confirmed_world.stored.commitment)
unfolding deliver_text_recap
undelivered_example =
    send_commitment_recap_undelivered runtime quiet (λ tick n s. refl) dead (λ phone body. refl)
      (λ address subject body. refl) "call-booking" confirmed_world

abbrev transcript : Media → List DiarizedSegment
transcript media =
    record { speaker = some "A"; text = some "si, confirmo"; start = some 40; end_ = some 42 } ∷ []

abbrev recorder : Provider
recorder = record {
  transport = VoiceProvider.twilio;
  telnyx_api_key = none;
  twilio_account_sid = some "AC1";
  twilio_auth_token = some "token";
  is_twilio_configured = true;
  public_base_url = "https://volta.example";
  base64 = λ text. text;
  download_recording = λ url. ok "bytes";
  fetch = λ url header. ok (record { status = 200; bytes = "bytes" });
  client = some (λ media. ok (transcript media));
}

quoted_example :
    Outcome plain plain runtime quiet
      (λ tick n s. refl)
      recorder
      "call-booking"
      "supabase://calls/1"
      (process_recording plain plain runtime quiet recorder "call-booking" "supabase://calls/1")
      confirmed_world
quoted_example =
    process_recording_evidence plain plain runtime quiet (λ tick n s. refl) recorder "call-booking"
      "supabase://calls/1" confirmed_world

abbrev no_dial : CallAttempt → Carrier → Result Legs
no_dial call carrier = err "no dial"

auto_book_example :
    (auto_book_if_settled runtime quiet dead no_dial false "op-2041" (world_of market)
      ≡ (ok none, world_of market))
    ⊎ ((message : String) × (auto_book_if_settled runtime quiet dead no_dial false "op-2041"
            (world_of market)
          ≡ (err message, world_of market)))
    ⊎ ((s : OperationSnapshot) × (get_snapshot "op-2041" (world_of market) ≡ ok s) × Settled s)
auto_book_example =
    auto_book_if_settled_acts runtime quiet dead no_dial false "op-2041" (world_of market)

abbrev escalated : OperationSnapshot
escalated = record market {
  escalation = some (record {
    id = "escalation";
    operation_id = "op-2041";
    call_id = "call-azul";
    status = EscalationStatus.open_;
    reason = "breakdown";
    requested_change = "Friday";
    created_at = "|";
    connected_at = none;
  });
}

abbrev phones : HandoffProvider
phones = record {
  transport = VoiceProvider.twilio;
  transfer_whatsapp_call = λ leg phone. err "down";
  is_telnyx_configured = false;
  call_operator_with_context = λ phone call_id. ok tt;
  refer_call_to_operator = λ session phone. ok tt;
  dial_human_takeover = λ call phone. ok tt;
}

taken_example :
    ((take_over runtime quiet phones true "op-2041" (world_of escalated)).1.stored.escalation
      ≡ escalated.escalation)
    ⊎ IsDialing
        (take_over runtime quiet phones true "op-2041" (world_of escalated)).1.stored.escalation
unfolding get_snapshot read_snapshot
taken_example =
    take_over_waits runtime quiet phones (λ tick n s. refl) "op-2041" escalated (world_of escalated)
      refl (λ call i. refl)

abbrev completed : Callback
completed = record {
  form = ok (λ name.
      if name == "CallSid"
      then some "CA1"
      else if name == "CallStatus"
      then some "completed"
      else none);
  search_param = λ name.
      if name == "callId"
      then some "call-azul"
      else if name == "role"
      then some "carrier"
      else none;
}

abbrev site : Site
site = record { world = world_of market; receipts = [] }

repeated_example :
    Repeats (post_twilio_status runtime quiet dead none completed) site
    × Repeats (post_telnyx_status runtime quiet dead none completed) site
    × Repeats (post_twilio_message runtime quiet dead none completed) site
    × Repeats (post_twilio_conference runtime quiet dead none (λ sid. ok tt) completed) site
repeated_example = callbacks_repeat runtime quiet dead (λ sid. ok tt) completed site
