-- ===== src/Worker/Relay/Audio.antt =====
-- The audio of the telephone side on its way to the model (workers/realtime-relay/src/index.ts), and
-- the listeners that leave it alone.
pub mod Delivery
pub mod Runs
use volta_hackathon.Prelude.{
  ℕ, zero, suc, ◌+◌, String, Option, none, some, Bool, true, false, List, [], ◌∷◌, ◌++◌, map, ◌≡◌,
  inl, inr, refl, arith, ap, ◌∙◌, if◌then◌else◌, or_else, Option-cases, ◌==◌, ◌&&◌,
}
use volta_hackathon.Prelude.Text.{slice_units}
use volta_hackathon.Prelude.Indexed.{get_elem?, put}
use volta_hackathon.Worker.Messages.{TwilioMessage, OpenAiEvent}
use volta_hackathon.Worker.Relay.{
  ReadyState, Relay, Event, Effect, to_open_ai, append, create_response, report, log_error,
  to_twilio, close_upstream, close_twilio, if_open, reported, finish, Task, finished, fetching,
  authorizing, state_of, is_opened, on_start, on_stop, on_thrown, on_twilio_closed, fail, media,
  clear, is_some_text, or_empty, close_both, closed_upstreams, upstream_closes, on_open_ai_event,
  after_close, twilio_message,
}

-- The audio that the effects hand to the model, in order.
abbrev pub sent : List Effect → List String
sent [] = []
sent (to_open_ai n (append audio) ∷ effects) = audio ∷ sent effects
sent (effect ∷ effects) = sent effects

-- The audio that the telephone side sent, in order.
abbrev pub received : List Event → List String
received [] = []
received (twilio_message (some (TwilioMessage.media stream_sid audio)) ∷ events) =
    audio ∷ received events
received (event ∷ events) = received events

-- While the socket to the model is open, no audio waits.
abbrev pub IsFlushed : Relay → Type 0
IsFlushed r = is_opened (state_of r.current r.upstreams) ≡ true → r.pending_audio ≡ []

pub sent-append : (xs ys : List Effect) → sent (xs ++ ys) ≡ sent xs ++ sent ys
sent-append [] ys = refl
sent-append (to_open_ai n (append audio) ∷ xs) ys = ap (λ t. audio ∷ t) (sent-append xs ys)
sent-append (to_open_ai n create_response ∷ xs) ys = sent-append xs ys
sent-append (report c t e ∷ xs) ys = sent-append xs ys
sent-append (log_error c m ∷ xs) ys = sent-append xs ys
sent-append (to_twilio c ∷ xs) ys = sent-append xs ys
sent-append (close_upstream n c m ∷ xs) ys = sent-append xs ys
sent-append (close_twilio c m ∷ xs) ys = sent-append xs ys

pub sent_flush :
    (n : ℕ) (audio : List String)
    → sent (map (λ a. to_open_ai n (append a)) audio ++ to_open_ai n create_response ∷ []) ≡ audio
sent_flush n [] = refl
sent_flush n (a ∷ audio) = ap (λ t. a ∷ t) (sent_flush n audio)

closes_silent :
    (current : Option ℕ) (upstreams : List ReadyState) (code : ℕ) (reason : String)
    → sent (upstream_closes current upstreams code reason) ≡ []
unfolding upstream_closes
closes_silent none upstreams code reason = refl
closes_silent (some n) upstreams code reason = ground arith

-- A write of a state that is not open opens no socket.
pub put_shut :
    (n m : ℕ) (state : ReadyState) (upstreams : List ReadyState)
    → is_opened (some state) ≡ false
    → is_opened (get_elem? (put n state upstreams) m) ≡ true
    → is_opened (get_elem? upstreams m) ≡ true
put_shut n m state [] e h = h
put_shut zero zero state (u ∷ upstreams) e h = absurd (cc)
put_shut zero (suc m) state (u ∷ upstreams) e h = h
put_shut (suc n) zero state (u ∷ upstreams) e h = h
put_shut (suc n) (suc m) state (u ∷ upstreams) e h = put_shut n m state upstreams e h

after_close_shut : (state : ReadyState) → is_opened (some (after_close state)) ≡ false
after_close_shut state = ground arith

closed_shut :
    (current : Option ℕ) (upstreams : List ReadyState)
    → is_opened (state_of current (closed_upstreams current upstreams)) ≡ true
    → is_opened (state_of current upstreams) ≡ true
unfolding closed_upstreams
closed_shut none upstreams h = h
closed_shut (some n) upstreams h = elim (Option-cases (get_elem? upstreams n)) [
  | inl e ↦ rw (e, is_opened, closed_upstreams) at h
  | inr (state, e) ↦
      put_shut n n (after_close state) upstreams (after_close_shut state)
        (rw (e, is_opened, closed_upstreams) at h)
]

pub record Silent (r r' : Relay) (effects : List Effect) : Type 0 where
  pub nothing_sent : sent effects ≡ []
  pub same_pending : r'.pending_audio ≡ r.pending_audio
  pub still_shut :
      is_opened (state_of r'.current r'.upstreams) ≡ true
      → is_opened (state_of r.current r.upstreams) ≡ true

silent_append : (xs ys : List Effect) → sent xs ≡ [] → sent ys ≡ [] → sent (xs ++ ys) ≡ []
silent_append xs ys e f = rw (sent-append xs ys) (rw (e, f) refl)

pub shut_silent :
    (state : ReadyState) (code : ℕ) (reason : String)
    → sent (if_open state (close_twilio code reason)) ≡ []
shut_silent state code reason = ground arith

reported_silent :
    (call_id : Option String) (type : String) (extra : Option String)
    → sent (reported call_id type extra) ≡ []
reported_silent call_id type extra = ground arith

close_both-Silent :
    (code : ℕ) (reason : String) (r : Relay)
    → Silent r (close_both code reason r).0 (close_both code reason r).1
unfolding close_both
close_both-Silent code reason r = record {
  nothing_sent =
      silent_append (upstream_closes r.current r.upstreams code reason)
        (if_open r.twilio (close_twilio code (slice_units 123 reason)))
        (closes_silent r.current r.upstreams code reason)
        (shut_silent r.twilio code (slice_units 123 reason));
  same_pending = refl;
  still_shut = closed_shut r.current r.upstreams;
}

pub fail-Silent : (message : String) (r : Relay) → Silent r (fail message r).0 (fail message r).1
unfolding fail
fail-Silent message r =
    let c = close_both-Silent 1011 "Relay failed" r in
    record {
      nothing_sent =
          silent_append (reported r.call_id "relay.error" (some message))
            (close_both 1011 "Relay failed" r).1
            (reported_silent r.call_id "relay.error" (some message)) c.nothing_sent;
      same_pending = c.same_pending;
      still_shut = c.still_shut;
    }

-- A step that changes neither the audio nor the sockets.
pub kept-Silent :
    (r r' : Relay) (effects : List Effect)
    → sent effects ≡ []
    → r'.pending_audio ≡ r.pending_audio
    → r'.current ≡ r.current
    → r'.upstreams ≡ r.upstreams
    → Silent r r' effects
kept-Silent r r' effects n p c u = record {
  nothing_sent = n;
  same_pending = p;
  still_shut = λ h. rw (c, u) at h;
}

pub if-Silent :
    (r : Relay) (b : Bool) (x y : Relay × List Effect)
    → Silent r x.0 x.1
    → Silent r y.0 y.1
    → Silent r (if b then x else y).0 (if b then x else y).1
if-Silent r true x y s t = s
if-Silent r false x y s t = t

-- The record that `fail` works on may differ in what the audio does not depend on.
through-Silent :
    (r q r' : Relay) (effects : List Effect)
    → q.pending_audio ≡ r.pending_audio
    → q.current ≡ r.current
    → q.upstreams ≡ r.upstreams
    → Silent q r' effects
    → Silent r r' effects
through-Silent r q r' effects p c u s = record {
  nothing_sent = s.nothing_sent;
  same_pending = s.same_pending ∙ p;
  still_shut = λ h. rw (c, u) at (s.still_shut h);
}

pub idle-Silent : (r : Relay) → Silent r r []
idle-Silent r = record { nothing_sent = refl; same_pending = refl; still_shut = λ h. h }

pub on_start-Silent :
    (stream_sid : String) (call_id stream_auth : Option String) (r : Relay)
    → Silent r
        (on_start stream_sid call_id stream_auth r).0
        (on_start stream_sid call_id stream_auth r).1
unfolding on_start
on_start-Silent stream_sid none stream_auth r =
    let q = record r { stream_sid = some stream_sid; call_id = none } in
    through-Silent r q _ _ refl refl refl (fail-Silent "Missing Volta call id" q)
on_start-Silent stream_sid (some call_id) stream_auth r =
    let q = record r { stream_sid = some stream_sid; call_id = some call_id } in
    if-Silent r (call_id == "") _ _
      (through-Silent r q _ _ refl refl refl (fail-Silent "Missing Volta call id" q))
      (kept-Silent r _ [] refl refl refl refl)

pub on_stop-Silent : (r : Relay) → Silent r (on_stop r).0 (on_stop r).1
unfolding on_stop
on_stop-Silent r =
    let c = close_both-Silent 1000 "Twilio stream stopped" r in
    record {
      nothing_sent =
          silent_append (reported r.call_id "stream.stopped" none)
            (close_both 1000 "Twilio stream stopped" r).1
            (reported_silent r.call_id "stream.stopped" none) c.nothing_sent;
      same_pending = c.same_pending;
      still_shut = c.still_shut;
    }

pub on_twilio_closed-Silent : (r : Relay) → Silent r (on_twilio_closed r).0 (on_twilio_closed r).1
unfolding on_twilio_closed
on_twilio_closed-Silent r = record {
  nothing_sent = closes_silent r.current r.upstreams 1000 "Twilio disconnected";
  same_pending = refl;
  still_shut = closed_shut r.current r.upstreams;
}

abbrev pub SilentFor : Relay → Relay × List Effect → Type 0
SilentFor r p = Silent r p.0 p.1

-- An end of a task by an error.
pub finish-Silent : (n : ℕ) (message : String) (r : Relay) → SilentFor r (fail message (finish n r))
finish-Silent n message r =
    through-Silent r (finish n r) _ _ refl refl refl (fail-Silent message (finish n r))

thrown-Silent :
    (n : ℕ) (message : String) (r : Relay) (task : Option Task)
    → SilentFor r (elim task [
      | none ↦ (r, [])
      | some finished ↦ (r, [])
      | some fetching ↦ fail message (finish n r)
      | some (authorizing c a) ↦ fail message (finish n r)
    ])
thrown-Silent n message r none = idle-Silent r
thrown-Silent n message r (some finished) = idle-Silent r
thrown-Silent n message r (some fetching) = finish-Silent n message r
thrown-Silent n message r (some (authorizing c a)) = finish-Silent n message r

pub on_thrown-Silent : (n : ℕ) (message : String) (r : Relay) → SilentFor r (on_thrown n message r)
unfolding on_thrown
on_thrown-Silent n message r = thrown-Silent n message r (get_elem? r.tasks n)

pub on_open_ai_event-Silent :
    (event : OpenAiEvent) (stream_sid : String) (r : Relay)
    → SilentFor r (on_open_ai_event event stream_sid r)
unfolding on_open_ai_event
on_open_ai_event-Silent event stream_sid r =
    let kept : (effects : List Effect) → sent effects ≡ [] → SilentFor r (r, effects) =
      λ effects e. kept-Silent r r effects e refl refl refl in
    if-Silent r (event.type == "response.output_audio.delta" && is_some_text event.delta) _ _
      (kept (to_twilio (media stream_sid (or_empty event.delta)) ∷ []) refl)
      (if-Silent r (event.type == "input_audio_buffer.speech_started") _ _
        (kept (to_twilio (clear stream_sid) ∷ []) refl)
        (if-Silent r (event.type == "session.created" && is_some_text r.call_id) _ _
          (kept (report r.call_id "session.created" event.session_id ∷ []) refl)
          (if-Silent r (event.type == "response.done" && is_some_text r.call_id) _ _
            (kept (report r.call_id "response.done" none ∷ []) refl)
            (if-Silent r (event.type == "error") _ _
              (fail-Silent (or_else event.error_message "OpenAI Realtime error") r)
              (idle-Silent r)))))
