-- ===== src/Examples/Relay.antt =====
-- A run of the voice relay: a start, audio that waits, the socket to the model, and more audio.
use volta_hackathon.Prelude.{
  ◌≤◌, String, Bool, true, ◌==◌, some, List, [], ◌∷◌, ◌++◌, any, length, ◌≡◌, inr, refl, arith,
}
use volta_hackathon.Prelude.Sublist.{Sublist}
use volta_hackathon.Worker.Messages.{TwilioMessage}
use volta_hackathon.Worker.Relay.{
  Relay, Event, Effect, Trace, next, start, handle, accepted, twilio_message, checked, token,
  upstream_opened, is_opened, state_of, audio_limit, on_twilio_message, on_start, on_media,
  on_checked, on_token, on_upstream_opened,
}
use volta_hackathon.Worker.Relay.Audio.{sent, received}
use volta_hackathon.Worker.Relay.Audio.Runs.{audio_in_order, audio_delivered}
use volta_hackathon.Worker.Relay.Admission.Steps.{admits}
use volta_hackathon.Worker.Relay.Admission.Runs.{model_only_when_admitted}

abbrev valid : String → String → Bool
valid call_id stream_auth = stream_auth == "signed"

record Run : Type 0 where
  events : List Event
  relay : Relay
  effects : List Effect
  trace : Trace valid events relay effects

abbrev step : Run → Event → Run
step run event = record {
  events = run.events ++ event ∷ [];
  relay = (handle valid event run.relay).0;
  effects = run.effects ++ (handle valid event run.relay).1;
  trace = next run.trace event;
}

abbrev waiting : Run
waiting =
    step
      (step (record { events = []; relay = accepted valid; effects = []; trace = start })
        (twilio_message (some (TwilioMessage.start "MZ1" (some "call-1") (some "signed")))))
      (twilio_message (some (TwilioMessage.media "MZ1" "hola")))

abbrev talking : Run
talking =
    step (step (step (step waiting (checked 0)) (token 0)) (upstream_opened 0))
      (twilio_message (some (TwilioMessage.media "MZ1" "bueno")))

audio_in_order_example :
    Sublist (sent talking.effects ++ talking.relay.pending_audio) (received talking.events)
    × (length talking.relay.pending_audio ≤ audio_limit)
    × (is_opened (state_of talking.relay.current talking.relay.upstreams) ≡ true
        → talking.relay.pending_audio ≡ [])
audio_in_order_example =
    audio_in_order valid talking.events talking.relay talking.effects talking.trace

audio_delivered_example : sent talking.effects ≡ received talking.events
unfolding handle on_twilio_message on_start on_media on_checked on_token on_upstream_opened
audio_delivered_example =
    audio_delivered valid talking.events talking.relay talking.effects talking.trace (omega arith)
      refl

admitted_example : any (admits valid) talking.events ≡ true
unfolding handle on_twilio_message on_start on_media on_checked on_token on_upstream_opened
admitted_example =
    model_only_when_admitted valid talking.events talking.relay talking.effects talking.trace
      (inr (λ e. absurd (cc)))
