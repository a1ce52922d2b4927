-- ===== src/Worker/Relay/Admission.antt =====
-- Who is let through to the model in `handleTwilioStream` (workers/realtime-relay/src/index.ts).
pub mod Steps
pub mod Runs
use volta_hackathon.Prelude.{
  all, ℕ, zero, suc, String, Option, none, some, Bool, true, false, ◌&&◌, List, [], ◌∷◌, ◌++◌,
  length, ◌≡◌, inl, inr, refl, arith, ap, sym, if◌then◌else◌, or_else, Option-cases, ◌==◌,
}
use volta_hackathon.Prelude.Text.{slice_units}
use volta_hackathon.Prelude.Indexed.{get_elem?, put}
use volta_hackathon.Worker.Messages.{OpenAiEvent}
use volta_hackathon.Worker.Relay.{
  ReadyState, closed, Relay, Effect, OpenAiCommand, to_open_ai, append, report, log_error,
  to_twilio, media, clear, is_some_text, or_empty, close_upstream, close_twilio, if_open, reported,
  finish, Task, finished, fetching, authorizing, on_stop, on_thrown, on_upstream_message,
  on_upstream_closed, on_twilio_closed, fail, close_both, closed_upstreams, upstream_closes,
  on_open_ai_event, after_close, thrown,
}

abbrev pub commands : List Effect → List OpenAiCommand
commands [] = []
commands (to_open_ai n command ∷ effects) = command ∷ commands effects
commands (effect ∷ effects) = commands effects

pub commands-append :
    (xs ys : List Effect) → commands xs ≡ [] → commands ys ≡ [] → commands (xs ++ ys) ≡ []
commands-append [] ys e f = f
commands-append (to_open_ai n c ∷ xs) ys e f = absurd (cc)
commands-append (report c t d ∷ xs) ys e f = commands-append xs ys e f
commands-append (log_error c m ∷ xs) ys e f = commands-append xs ys e f
commands-append (to_twilio c ∷ xs) ys e f = commands-append xs ys e f
commands-append (close_upstream n c m ∷ xs) ys e f = commands-append xs ys e f
commands-append (close_twilio c m ∷ xs) ys e f = commands-append xs ys e f

closes_commands :
    (current : Option ℕ) (upstreams : List ReadyState) (code : ℕ) (reason : String)
    → commands (upstream_closes current upstreams code reason) ≡ []
unfolding upstream_closes
closes_commands none upstreams code reason = refl
closes_commands (some n) upstreams code reason = ground arith

shut_commands :
    (state : ReadyState) (code : ℕ) (reason : String)
    → commands (if_open state (close_twilio code reason)) ≡ []
shut_commands state code reason = ground arith

commands-reported :
    (call_id : Option String) (type : String) (extra : Option String)
    → commands (reported call_id type extra) ≡ []
commands-reported call_id type extra = ground arith

pub length-put : (n : ℕ) (u : ReadyState) (us : List ReadyState) → length (put n u us) ≡ length us
length-put n u [] = refl
length-put zero u (v ∷ us) = refl
length-put (suc n) u (v ∷ us) = ap suc (length-put n u us)

closed_count :
    (current : Option ℕ) (us : List ReadyState) → length (closed_upstreams current us) ≡ length us
unfolding closed_upstreams
closed_count none us = refl
closed_count (some n) us = elim (Option-cases (get_elem? us n)) [
  | inl e ↦ rw (e, closed_upstreams) refl
  | inr (state, e) ↦ rw (e, closed_upstreams) (length-put n (after_close state) us)
]

pub all-put :
    (p : Task → Bool) (n : ℕ) (t : Task) (ts : List Task)
    → p t ≡ true
    → all p ts ≡ true
    → all p (put n t ts) ≡ true
all-put p n t [] e h = refl
all-put p zero t (u ∷ ts) e h = ground arith
all-put p (suc n) t (u ∷ ts) e h =
    let k : all p ts ≡ true → all p (put n t ts) ≡ true = all-put p n t ts e in ground arith

pub all-append :
    (p : Task → Bool) (t : Task) (ts : List Task)
    → p t ≡ true
    → all p ts ≡ true
    → all p (ts ++ t ∷ []) ≡ true
all-append p t [] e h = ground arith
all-append p t (u ∷ ts) e h =
    let k : all p ts ≡ true → all p (ts ++ t ∷ []) ≡ true = all-append p t ts e in ground arith

pub all-get :
    (p : Task → Bool) (n : ℕ) (t : Task) (ts : List Task)
    → get_elem? ts n ≡ some t
    → all p ts ≡ true
    → p t ≡ true
all-get p n t [] e h = absurd (cc)
all-get p zero t (u ∷ ts) e h = let k : u ≡ t = cc in rw (sym k) (ground arith)
all-get p (suc n) t (u ∷ ts) e h = all-get p n t ts e (ground arith)

-- A step that starts nothing and says nothing to the model.
pub record Quiet (r r' : Relay) (effects : List Effect) : Type 0 where
  pub no_commands : commands effects ≡ []
  pub same_count : length r'.upstreams ≡ length r.upstreams
  pub no_start :
      (p : Task → Bool) → p finished ≡ true → all p r.tasks ≡ true → all p r'.tasks ≡ true

abbrev pub QuietFor : Relay → Relay × List Effect → Type 0
QuietFor r p = Quiet r p.0 p.1

close_both-Quiet : (code : ℕ) (reason : String) (r : Relay) → QuietFor r (close_both code reason r)
unfolding close_both
close_both-Quiet code reason r = record {
  no_commands =
      commands-append (upstream_closes r.current r.upstreams code reason)
        (if_open r.twilio (close_twilio code (slice_units 123 reason)))
        (closes_commands r.current r.upstreams code reason)
        (shut_commands r.twilio code (slice_units 123 reason));
  same_count = closed_count r.current r.upstreams;
  no_start = λ p e h. h;
}

pub fail-Quiet : (message : String) (r : Relay) → QuietFor r (fail message r)
unfolding fail
fail-Quiet message r =
    let c = close_both-Quiet 1011 "Relay failed" r in
    record {
      no_commands =
          commands-append (reported r.call_id "relay.error" (some message))
            (close_both 1011 "Relay failed" r).1
            (commands-reported r.call_id "relay.error" (some message)) c.no_commands;
      same_count = c.same_count;
      no_start = c.no_start;
    }

pub idle-Quiet : (r : Relay) (effects : List Effect) → commands effects ≡ [] → Quiet r r effects
idle-Quiet r effects e = record { no_commands = e; same_count = refl; no_start = λ p f h. h }

if-Quiet :
    (r : Relay) (b : Bool) (x y : Relay × List Effect)
    → QuietFor r x
    → QuietFor r y
    → QuietFor r (if b then x else y)
if-Quiet r true x y s t = s
if-Quiet r false x y s t = t

pub on_stop-Quiet : (r : Relay) → QuietFor r (on_stop r)
unfolding on_stop
on_stop-Quiet r =
    let c = close_both-Quiet 1000 "Twilio stream stopped" r in
    record {
      no_commands =
          commands-append (reported r.call_id "stream.stopped" none)
            (close_both 1000 "Twilio stream stopped" r).1
            (commands-reported r.call_id "stream.stopped" none) c.no_commands;
      same_count = c.same_count;
      no_start = c.no_start;
    }

pub on_twilio_closed-Quiet : (r : Relay) → QuietFor r (on_twilio_closed r)
unfolding on_twilio_closed
on_twilio_closed-Quiet r = record {
  no_commands = closes_commands r.current r.upstreams 1000 "Twilio disconnected";
  same_count = closed_count r.current r.upstreams;
  no_start = λ p e h. h;
}

pub finish-Quiet : (n : ℕ) (message : String) (r : Relay) → QuietFor r (fail message (finish n r))
finish-Quiet n message r =
    let s = fail-Quiet message (finish n r) in
    record {
      no_commands = s.no_commands;
      same_count = s.same_count;
      no_start = λ p e h. s.no_start p e (all-put p n finished r.tasks e h);
    }

thrown-Quiet :
    (n : ℕ) (message : String) (r : Relay) (task : Option Task)
    → QuietFor r (elim task [
      | none ↦ (r, [])
      | some finished ↦ (r, [])
      | some fetching ↦ fail message (finish n r)
      | some (authorizing c a) ↦ fail message (finish n r)
    ])
thrown-Quiet n message r none = idle-Quiet r [] refl
thrown-Quiet n message r (some finished) = idle-Quiet r [] refl
thrown-Quiet n message r (some fetching) = finish-Quiet n message r
thrown-Quiet n message r (some (authorizing c a)) = finish-Quiet n message r

pub on_thrown-Quiet : (n : ℕ) (message : String) (r : Relay) → QuietFor r (on_thrown n message r)
unfolding on_thrown
on_thrown-Quiet n message r = thrown-Quiet n message r (get_elem? r.tasks n)

on_open_ai_event-Quiet :
    (event : OpenAiEvent) (stream_sid : String) (r : Relay)
    → QuietFor r (on_open_ai_event event stream_sid r)
unfolding on_open_ai_event
on_open_ai_event-Quiet event stream_sid r =
    if-Quiet r (event.type == "response.output_audio.delta" && is_some_text event.delta) _ _
      (idle-Quiet r (to_twilio (media stream_sid (or_empty event.delta)) ∷ []) refl)
      (if-Quiet r (event.type == "input_audio_buffer.speech_started") _ _
        (idle-Quiet r (to_twilio (clear stream_sid) ∷ []) refl)
        (if-Quiet r (event.type == "session.created" && is_some_text r.call_id) _ _
          (idle-Quiet r (report r.call_id "session.created" event.session_id ∷ []) refl)
          (if-Quiet r (event.type == "response.done" && is_some_text r.call_id) _ _
            (idle-Quiet r (report r.call_id "response.done" none ∷ []) refl)
            (if-Quiet r (event.type == "error") _ _
              (fail-Quiet (or_else event.error_message "OpenAI Realtime error") r)
              (idle-Quiet r [] refl)))))

message-Quiet :
    (event : OpenAiEvent) (r : Relay) (stream_sid : Option String)
    → QuietFor r (elim stream_sid [
      | none ↦ (r, [])
      | some stream_sid ↦ if stream_sid == "" then (r, []) else on_open_ai_event event stream_sid r
    ])
message-Quiet event r none = idle-Quiet r [] refl
message-Quiet event r (some stream_sid) =
    if-Quiet r (stream_sid == "") (r, []) (on_open_ai_event event stream_sid r)
      (idle-Quiet r [] refl) (on_open_ai_event-Quiet event stream_sid r)

pub on_upstream_message-Quiet :
    (event : Option OpenAiEvent) (r : Relay) → QuietFor r (on_upstream_message event r)
unfolding on_upstream_message
on_upstream_message-Quiet none r = idle-Quiet r [] refl
on_upstream_message-Quiet (some event) r = message-Quiet event r r.stream_sid

pub on_upstream_closed-Quiet : (n : ℕ) (r : Relay) → QuietFor r (on_upstream_closed n r)
unfolding on_upstream_closed
on_upstream_closed-Quiet n r = record {
  no_commands = shut_commands r.twilio 1000 "OpenAI session ended";
  same_count = length-put n closed r.upstreams;
  no_start = λ p e h. h;
}
