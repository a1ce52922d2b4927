-- ===== src/Examples.antt =====
-- Test data: a runtime, a market of three carriers with two offers, and a booking of the cheaper one.
pub mod Market
pub mod Bookings
pub mod Store
pub mod Jobs
pub mod Bytes
pub mod Boundary
pub mod Relay
pub mod Services
pub mod Base64
use volta_hackathon.Prelude.{
  ℕ, zero, suc, String, none, some, [], ◌∷◌, true, false, ◌≡◌, ◌∙◌, ap, inl, inr, DistinctKeys,
  eq_iff, if◌then◌else◌, Ordering,
}
use volta_hackathon.Prelude.Text.{◌<>◌, text_lt, decimal}
use volta_hackathon.Domain.Types.{
  CallAttempt, CallMode, CallStatus, Commitment, CommitmentStatus, Offer, OfferInput,
  OperationSnapshot, TranscriptInput, TranscriptSpeaker, VoiceProvider,
}
use volta_hackathon.Domain.Seed.{create_seed_snapshot}
use volta_hackathon.Store.Environment.{Environment}
use volta_hackathon.Store.Action.{Draft}
use volta_hackathon.Store.Booking.{EvidenceInput}
use volta_hackathon.Store.Mutation.{World}

-- A time is printed in strokes.
unfoldable pub strokes : ℕ → String
strokes zero = ""
strokes (suc n) = String.◌∷◌ "|" (strokes n)

unfoldable pub count : String → ℕ
count String.[] = 0
count (String.◌∷◌ c s) = suc (count s)

abbrev pub runtime : Environment
runtime = record {
  uuid = λ n. "id-" <> strokes n;
  random_token = λ n. "token-" <> strokes n;
  millis = λ n. n;
  iso = strokes;
  parse_time = count;
  sha256 = λ text. "sha256:" <> text;
  locale_compare =
      λ a b. if text_lt a b then Ordering.lt else if text_lt b a then Ordering.gt else Ordering.eq;
  amount_text = decimal;
  lower_case = λ text. text;
  voice_provider_tag = VoiceProvider.twilio;
}

abbrev pub quote_call : String → String → CallAttempt
quote_call id carrier_id = record {
  id = id;
  operation_id = "op-2041";
  carrier_id = some carrier_id;
  mode = CallMode.quote;
  status = CallStatus.completed;
  conference_name = "volta-op-2041";
  twilio_call_sid = none;
  twilio_agent_call_sid = none;
  openai_call_id = none;
  provider = some VoiceProvider.twilio;
  provider_call_id = none;
  started_at = none;
  ended_at = none;
  failure_reason = none;
}

abbrev pub offer_of : String → String → String → ℕ → Offer
offer_of id carrier_id call_id amount = record {
  id = id;
  operation_id = "op-2041";
  carrier_id = carrier_id;
  call_id = call_id;
  revision = 1;
  amount = amount;
  currency = "MXN";
  pickup_date = "2026-09-03";
  pickup_time = "10:00";
  conditions = [];
  eligible = true;
  violations = [];
  superseded_at = none;
  created_at = "";
}

abbrev pub azul_offer : Offer
azul_offer = offer_of "offer-azul" "carrier-azul" "call-azul" 8900

abbrev pub rutapac_offer : Offer
rutapac_offer = offer_of "offer-rutapac" "carrier-rutapac" "call-rutapac" 8500

abbrev pub market : OperationSnapshot
market = record create_seed_snapshot {
  calls = quote_call "call-azul" "carrier-azul" ∷ quote_call "call-rutapac" "carrier-rutapac" ∷ [];
  offers = azul_offer ∷ rutapac_offer ∷ [];
}

abbrev pub draft_of : OperationSnapshot → Draft
draft_of s = record { snapshot = s; tick = 1 }

abbrev pub world_of : OperationSnapshot → World
world_of s = record { stored = s; tick = 1 }

abbrev pub better_terms : OfferInput
better_terms = record {
  operation_id = "op-2041";
  carrier_id = "carrier-azul";
  call_id = "call-azul";
  amount = 8400;
  currency = "MXN";
  pickup_date = "2026-09-03";
  pickup_time = "11:00";
  conditions = none;
}

abbrev pub commitment_at : CommitmentStatus → Commitment
commitment_at status = record {
  id = "commitment";
  operation_id = "op-2041";
  carrier_id = "carrier-rutapac";
  offer_id = "offer-rutapac";
  booking_call_id = "call-booking";
  status = status;
  recap_text = "recap";
  confirmation_token_hash = "sha256:token";
  token_expires_at = "||||||||";
  verbally_confirmed_at = some "|";
  recap_sent_at = some "||";
  twilio_message_sid = some "sid";
  committed_at = none;
}

abbrev pub booked_at : CommitmentStatus → OperationSnapshot
booked_at status = record market { commitment = some (commitment_at status) }

abbrev pub audio : EvidenceInput
audio = record {
  call_id = "call-booking";
  recording_url = "https://recordings.example/1";
  storage_path = none;
  speaker = "COUNTERPARTY";
  segment_text = "confirmo";
  start_seconds = 40;
  end_seconds = 42;
}

abbrev pub spoken : TranscriptInput
spoken = record {
  operation_id = "op-2041";
  call_id = "call-azul";
  speaker = TranscriptSpeaker.counterparty;
  provider_item_id = "item-1";
  text = " ocho mil novecientos ";
}

apart : azul_offer.id ≡ rutapac_offer.id → ⊥
apart e = let h : false ≡ true = (eq_iff "offer-azul" "offer-rutapac").1 e in absurd (cc)

pub two_ids : DistinctKeys (λ (x : Offer). x.id) market.offers
two_ids =
    (λ a i k. elim i [ inl e ↦ apart (k ∙ ap (λ x. x.id) e) | inr n ↦ n ], (λ a i. absurd i, tt))
