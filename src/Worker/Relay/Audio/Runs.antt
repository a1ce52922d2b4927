-- ===== src/Worker/Relay/Audio/Runs.antt =====
-- The audio over a whole run of `handleTwilioStream` (workers/realtime-relay/src/index.ts), whatever the
-- order of its events.
use volta_hackathon.Prelude.{
  ◌≤◌, String, none, some, Bool, true, List, [], ◌∷◌, ◌++◌, length, ◌≡◌, ◌⊎◌, inl, inr, refl, arith,
  ap, sym, subst, ◌∙◌,
}
use volta_hackathon.Prelude.Sublist.{Sublist, done, Sublist_refl, Sublist-none, Sublist-append}
use volta_hackathon.Worker.Messages.{TwilioMessage}
use volta_hackathon.Worker.Relay.{
  Relay, Event, Effect, Trace, handle, state_of, is_opened, audio_limit, twilio_message, next,
  start,
}
use volta_hackathon.Worker.Relay.Audio.{sent, received, IsFlushed, sent-append}
use volta_hackathon.Worker.Relay.Audio.Delivery.{handle-Carries, append-nil, length-append}

received-append :
    (xs : List Event) (event : Event)
    → received (xs ++ event ∷ []) ≡ received xs ++ received (event ∷ [])
received-append [] event = refl
received-append (twilio_message (some (TwilioMessage.media s audio)) ∷ xs) event =
    ap (λ t. audio ∷ t) (received-append xs event)
received-append (twilio_message none ∷ xs) event = received-append xs event
received-append (twilio_message (some (TwilioMessage.start s c a)) ∷ xs) event =
    received-append xs event
received-append (twilio_message (some (TwilioMessage.stop s)) ∷ xs) event = received-append xs event
received-append (twilio_message (some TwilioMessage.other) ∷ xs) event = received-append xs event
received-append (Event.twilio_error ∷ xs) event = received-append xs event
received-append (Event.twilio_closed ∷ xs) event = received-append xs event
received-append (Event.checked n ∷ xs) event = received-append xs event
received-append (Event.thrown n m ∷ xs) event = received-append xs event
received-append (Event.token n ∷ xs) event = received-append xs event
received-append (Event.upstream_opened n ∷ xs) event = received-append xs event
received-append (Event.upstream_message n m ∷ xs) event = received-append xs event
received-append (Event.upstream_error n ∷ xs) event = received-append xs event
received-append (Event.upstream_closed n ∷ xs) event = received-append xs event

append_assoc : (xs ys zs : List String) → (xs ++ ys) ++ zs ≡ xs ++ (ys ++ zs)
append_assoc [] ys zs = refl
append_assoc (x ∷ xs) ys zs = ap (λ t. x ∷ t) (append_assoc xs ys zs)

-- What the effects of a step add to what was on its way.
joined :
    (before after : List Effect) (old new audio : List String)
    → sent after ++ new ≡ old ++ audio
    → sent (before ++ after) ++ new ≡ (sent before ++ old) ++ audio
joined before after old new audio e =
    ap (λ t. t ++ new) (sent-append before after)
    ∙ append_assoc (sent before) (sent after) new
    ∙ ap (λ t. sent before ++ t) e
    ∙ sym (append_assoc (sent before) old audio)

-- A piece that is dropped leaves all as it was.
dropped :
    (before after : List Effect) (old new : List String)
    → sent after ≡ []
    → new ≡ old
    → sent (before ++ after) ++ new ≡ sent before ++ old
dropped before after old new e f =
    joined before after old new [] (rw (e, f) (sym (append-nil old)))
    ∙ append-nil (sent before ++ old)

full : (came audio : List String) → length audio ≡ 0 → came ≡ came ++ audio
full came [] l = sym (append-nil came)
full came (a ∷ audio) l = absurd (ground arith)

module _ (valid : String → String → Bool) where
  flushed :
      {events : List Event} {r : Relay} {effects : List Effect}
      → Trace valid events r effects
      → IsFlushed r
  flushed start = λ h. refl
  flushed (next {r = r} t event) = (handle-Carries valid event r (flushed t)).0

  bounded :
      {events : List Event} {r : Relay} {effects : List Effect}
      → Trace valid events r effects
      → length r.pending_audio ≤ audio_limit
  bounded start = ground arith
  bounded (next {r = r} t event) = (handle-Carries valid event r (flushed t)).1 (bounded t)

  ordered_step :
      (before after : List Effect) (old new came audio : List String)
      → Sublist (sent before ++ old) came
      → (sent after ++ new ≡ old ++ audio)
        ⊎ ((audio_limit ≤ length old) × (sent after ≡ []) × (new ≡ old))
      → Sublist (sent (before ++ after) ++ new) (came ++ audio)
  ordered_step before after old new came audio s (inl e) =
      rw (joined before after old new audio e) (Sublist-append s (Sublist_refl audio))
  ordered_step before after old new came audio s (inr (l, e, f)) =
      rw (dropped before after old new e f) (
        subst (λ t. Sublist t (came ++ audio)) (append-nil (sent before ++ old))
          (Sublist-append s (Sublist-none audio)))

  ordered :
      {events : List Event} {r : Relay} {effects : List Effect}
      → Trace valid events r effects
      → Sublist (sent effects ++ r.pending_audio) (received events)
  ordered start = done
  ordered (next {events = events} {r = r} {effects = effects} t event) =
      rw (received-append events event) (
        ordered_step effects (handle valid event r).1 r.pending_audio
          (handle valid event r).0.pending_audio (received events) (received (event ∷ []))
          (ordered t) (handle-Carries valid event r (flushed t)).2)

  complete_step :
      (before after : List Effect) (old new came audio : List String)
      → length (came ++ audio) ≤ audio_limit
      → (length came ≤ audio_limit → sent before ++ old ≡ came)
      → (sent after ++ new ≡ old ++ audio)
        ⊎ ((audio_limit ≤ length old) × (sent after ≡ []) × (new ≡ old))
      → sent (before ++ after) ++ new ≡ came ++ audio
  complete_step before after old new came audio l s (inl e) =
      let k = length-append came audio in
      joined before after old new audio e ∙ ap (λ t. t ++ audio) (s (omega arith))
  complete_step before after old new came audio l s (inr (m, e, f)) =
      let k = length-append came audio in
      let q = s (omega arith) in
      let v = ap (λ t. length t) q in
      let w = length-append (sent before) old in
      dropped before after old new e f ∙ q ∙ full came audio (omega arith)

  complete :
      {events : List Event} {r : Relay} {effects : List Effect}
      → Trace valid events r effects
      → length (received events) ≤ audio_limit
      → sent effects ++ r.pending_audio ≡ received events
  complete start l = refl
  complete (next {events = events} {r = r} {effects = effects} t event) l =
      rw (received-append events event) (
        complete_step effects (handle valid event r).1 r.pending_audio
          (handle valid event r).0.pending_audio (received events) (received (event ∷ []))
          (rw (received-append events event) at l) (complete t)
          (handle-Carries valid event r (flushed t)).2)

  -- In any run, the audio that was handed to the model, followed by what still waits, is part of what
  -- the telephone side sent, in the same order: nothing is invented, repeated or reordered. At most a
  -- hundred and fifty pieces wait, and none while the socket to the model is open.
  pub audio_in_order :
      (events : List Event) (r : Relay) (effects : List Effect)
      → Trace valid events r effects
      → Sublist (sent effects ++ r.pending_audio) (received events)
        × (length r.pending_audio ≤ audio_limit)
        × (is_opened (state_of r.current r.upstreams) ≡ true → r.pending_audio ≡ [])
  audio_in_order events r effects t = (ordered t, bounded t, flushed t)

  -- If the telephone side has sent at most a hundred and fifty pieces of audio and the socket to the
  -- model is open now, then every piece has been handed to the model, in the order in which they came.
  pub audio_delivered :
      (events : List Event) (r : Relay) (effects : List Effect)
      → Trace valid events r effects
      → length (received events) ≤ audio_limit
      → is_opened (state_of r.current r.upstreams) ≡ true
      → sent effects ≡ received events
  audio_delivered events r effects t l h =
      sym (append-nil (sent effects))
      ∙ ap (λ w. sent effects ++ w) (sym (flushed t h))
      ∙ complete t l
