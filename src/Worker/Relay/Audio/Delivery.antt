-- ===== src/Worker/Relay/Audio/Delivery.antt =====
-- The way of the audio through `handleTwilioStream` (workers/realtime-relay/src/index.ts): what every
-- listener makes of it, and what a whole run hands to the model.
use volta_hackathon.Prelude.{
  ℕ, ◌+◌, ◌≤◌, String, Option, none, some, Bool, true, false, List, [], ◌∷◌, ◌++◌, length, ◌≡◌, ◌⊎◌,
  inl, inr, refl, arith, ap, sym, ◌∙◌, if◌then◌else◌, Bool-cases, ltb, ◌==◌,
}
use volta_hackathon.Prelude.Indexed.{get_elem?, put}
use volta_hackathon.Worker.Messages.{TwilioMessage, OpenAiEvent}
use volta_hackathon.Worker.Relay.{
  ReadyState, opened, connecting, closing, closed, Relay, Event, Effect, to_open_ai, append, report,
  Task, finished, fetching, authorizing, handle, state_of, is_opened, audio_limit, on_media,
  on_twilio_message, on_token, on_checked, on_upstream_opened, on_upstream_message,
  on_upstream_closed, twilio_message, twilio_error, twilio_closed, checked, thrown, token,
  upstream_opened, upstream_message, upstream_error, upstream_closed, on_open_ai_event, on_media,
}
use volta_hackathon.Worker.Relay.Audio.{
  sent, received, IsFlushed, Silent, SilentFor, sent_flush, put_shut, fail-Silent, kept-Silent,
  shut_silent, idle-Silent, finish-Silent, if-Silent, on_start-Silent, on_stop-Silent,
  on_twilio_closed-Silent, on_thrown-Silent, on_open_ai_event-Silent,
}

-- What one event makes of the audio: it joins what is on its way, unless a hundred and fifty pieces
-- wait already and this one is dropped.
abbrev pub Carries : List String → Relay → Relay → List Effect → Type 0
Carries audio r r' effects =
    IsFlushed r'
    × (length r.pending_audio ≤ audio_limit → length r'.pending_audio ≤ audio_limit)
    × ((sent effects ++ r'.pending_audio ≡ r.pending_audio ++ audio)
        ⊎ ((audio_limit ≤ length r.pending_audio)
            × (sent effects ≡ [])
            × (r'.pending_audio ≡ r.pending_audio)))

pub append-nil : (xs : List String) → xs ++ [] ≡ xs
append-nil [] = refl
append-nil (x ∷ xs) = ap (λ t. x ∷ t) (append-nil xs)

Silent-Carries :
    (r r' : Relay) (effects : List Effect)
    → IsFlushed r
    → Silent r r' effects
    → Carries [] r r' effects
Silent-Carries r r' effects f s = (
  (λ h. s.same_pending ∙ f (s.still_shut h)),
  (λ l. rw (s.same_pending) l),
  inl (
      ap (λ t. t ++ r'.pending_audio) s.nothing_sent
      ∙ s.same_pending
      ∙ sym (append-nil r.pending_audio)),
)

new_shut :
    {A : Type 0} (us : List ReadyState)
    → is_opened (get_elem? (us ++ connecting ∷ []) (length us)) ≡ true
    → A
new_shut [] h = absurd (cc)
new_shut (v ∷ us) h = new_shut us h

token-Silent :
    (n : ℕ) (r : Relay) (task : Option Task)
    → get_elem? r.tasks n ≡ task
    → SilentFor r (on_token n r)
unfolding on_token
token-Silent n r none e = rw (e, on_token) (idle-Silent r)
token-Silent n r (some finished) e = rw (e, on_token) (idle-Silent r)
token-Silent n r (some (authorizing c a)) e = rw (e, on_token) (idle-Silent r)
token-Silent n r (some fetching) e =
    rw (e, on_token)
      record { nothing_sent = refl; same_pending = refl; still_shut = new_shut r.upstreams }

message-Silent :
    (event : OpenAiEvent) (r : Relay) (stream_sid : Option String)
    → SilentFor r (elim stream_sid [
      | none ↦ (r, [])
      | some stream_sid ↦ if stream_sid == "" then (r, []) else on_open_ai_event event stream_sid r
    ])
message-Silent event r none = idle-Silent r
message-Silent event r (some stream_sid) =
    if-Silent r (stream_sid == "") (r, []) (on_open_ai_event event stream_sid r) (idle-Silent r)
      (on_open_ai_event-Silent event stream_sid r)

on_upstream_message-Silent :
    (event : Option OpenAiEvent) (r : Relay) → SilentFor r (on_upstream_message event r)
unfolding on_upstream_message
on_upstream_message-Silent none r = idle-Silent r
on_upstream_message-Silent (some event) r = message-Silent event r r.stream_sid

closed_elsewhere :
    (n : ℕ) (current : Option ℕ) (us : List ReadyState)
    → is_opened (state_of current (put n closed us)) ≡ true
    → is_opened (state_of current us) ≡ true
closed_elsewhere n none us h = h
closed_elsewhere n (some m) us h = put_shut n m closed us refl h

on_upstream_closed-Silent : (n : ℕ) (r : Relay) → SilentFor r (on_upstream_closed n r)
unfolding on_upstream_closed
on_upstream_closed-Silent n r = record {
  nothing_sent = shut_silent r.twilio 1000 "OpenAI session ended";
  same_pending = refl;
  still_shut = closed_elsewhere n r.current r.upstreams;
}

opened-Carries :
    (n : ℕ) (r : Relay) (state : Option ReadyState)
    → get_elem? r.upstreams n ≡ state
    → IsFlushed r
    → Carries [] r (on_upstream_opened n r).0 (on_upstream_opened n r).1
unfolding on_upstream_opened
opened-Carries n r none e f =
    rw (e, on_upstream_opened, Carries) (Silent-Carries r r [] f (idle-Silent r))
opened-Carries n r (some opened) e f =
    rw (e, on_upstream_opened, Carries) (Silent-Carries r r [] f (idle-Silent r))
opened-Carries n r (some closing) e f =
    rw (e, on_upstream_opened, Carries) (Silent-Carries r r [] f (idle-Silent r))
opened-Carries n r (some closed) e f =
    rw (e, on_upstream_opened, Carries) (Silent-Carries r r [] f (idle-Silent r))
opened-Carries n r (some connecting) e f =
    rw (e, on_upstream_opened, Carries)
      ((λ h. refl), (λ l. ground arith), inl (ap (λ t. t ++ []) (sent_flush n r.pending_audio)))

media_target :
    (audio : String) (current : Option ℕ) (us : List ReadyState)
    → is_opened (state_of current us) ≡ true
    → sent (elim current [ none ↦ [] | some n ↦ to_open_ai n (append audio) ∷ [] ]) ≡ audio ∷ []
media_target audio none us h = absurd (cc)
media_target audio (some n) us h = refl

pub length-append : (xs ys : List String) → length (xs ++ ys) ≡ length xs + length ys
length-append [] ys = omega arith
length-append (x ∷ xs) ys = let e = length-append xs ys in omega arith

one_more :
    (audio : String) (pending : List String)
    → ltb (length pending) audio_limit ≡ true
    → length (pending ++ audio ∷ []) ≤ audio_limit
one_more audio pending e = rw (length-append pending (audio ∷ [])) (ground arith)

-- By whether the socket to the model is open.
media-Carries :
    (audio : String) (r : Relay) (b : Bool)
    → is_opened (state_of r.current r.upstreams) ≡ b
    → IsFlushed r
    → Carries (audio ∷ []) r (on_media audio r).0 (on_media audio r).1
unfolding on_media
media-Carries audio r true h f =
    rw (h, on_media, Carries)
      (f, (λ l. l), inl (rw (f h) (append-nil _ ∙ media_target audio r.current r.upstreams h)))
media-Carries audio r false h f = elim (Bool-cases (ltb (length r.pending_audio) audio_limit)) [
  | inl e ↦
      rw (h, e, on_media, Carries)
        ((λ k. absurd (cc)), (λ l. one_more audio r.pending_audio e), inl refl)
  | inr e ↦
      rw (h, e, on_media, Carries) ((λ k. absurd (cc)), (λ l. l), inr (ground arith, refl, refl))
]

module _ (valid : String → String → Bool) where
  checked-Silent :
      (n : ℕ) (r : Relay) (task : Option Task)
      → get_elem? r.tasks n ≡ task
      → SilentFor r (on_checked valid n r)
  unfolding on_checked
  checked-Silent n r none e = rw (e, on_checked) (idle-Silent r)
  checked-Silent n r (some finished) e = rw (e, on_checked) (idle-Silent r)
  checked-Silent n r (some fetching) e = rw (e, on_checked) (idle-Silent r)
  checked-Silent n r (some (authorizing c a)) e =
      rw (e, on_checked)
        (if-Silent r (valid c a) _ _
          (kept-Silent r (record r { tasks = put n fetching r.tasks })
            (report r.call_id "stream.started" none ∷ []) refl refl refl refl)
          (finish-Silent n "Invalid stream authorization" r))

  pub handle-Carries :
      (event : Event) (r : Relay)
      → IsFlushed r
      → Carries (received (event ∷ [])) r (handle valid event r).0 (handle valid event r).1
  unfolding handle on_twilio_message
  handle-Carries (twilio_message none) r f = Silent-Carries r r [] f (idle-Silent r)
  handle-Carries (twilio_message (some (TwilioMessage.start s c a))) r f =
      Silent-Carries r _ _ f (on_start-Silent s c a r)
  handle-Carries (twilio_message (some (TwilioMessage.media s audio))) r f =
      media-Carries audio r (is_opened (state_of r.current r.upstreams)) refl f
  handle-Carries (twilio_message (some (TwilioMessage.stop s))) r f =
      Silent-Carries r _ _ f (on_stop-Silent r)
  handle-Carries (twilio_message (some TwilioMessage.other)) r f =
      Silent-Carries r r [] f (idle-Silent r)
  handle-Carries twilio_error r f = Silent-Carries r _ _ f (fail-Silent "Twilio WebSocket error" r)
  handle-Carries twilio_closed r f = Silent-Carries r _ _ f (on_twilio_closed-Silent r)
  handle-Carries (checked n) r f =
      Silent-Carries r _ _ f (checked-Silent n r (get_elem? r.tasks n) refl)
  handle-Carries (thrown n message) r f = Silent-Carries r _ _ f (on_thrown-Silent n message r)
  handle-Carries (token n) r f =
      Silent-Carries r _ _ f (token-Silent n r (get_elem? r.tasks n) refl)
  handle-Carries (upstream_opened n) r f = opened-Carries n r (get_elem? r.upstreams n) refl f
  handle-Carries (upstream_message n event) r f =
      Silent-Carries r _ _ f (on_upstream_message-Silent event r)
  handle-Carries (upstream_error n) r f =
      Silent-Carries r _ _ f (fail-Silent "OpenAI WebSocket error" r)
  handle-Carries (upstream_closed n) r f = Silent-Carries r _ _ f (on_upstream_closed-Silent n r)
