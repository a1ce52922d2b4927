-- ===== src/Worker/Relay/Admission/Steps.antt =====
-- What every step of `handleTwilioStream` keeps of the admission (workers/realtime-relay/src/index.ts).
use volta_hackathon.Prelude.{
  ℕ, String, Option, none, some, Bool, true, false, ◌&&◌, any, all, List, [], ◌∷◌, ◌++◌, length,
  ◌≡◌, ltb, ◌⊎◌, inl, inr, refl, arith, ◌∙◌, or_else, Bool-cases, ◌==◌, eq_iff, eq_refl,
}
use volta_hackathon.Prelude.Indexed.{get_elem?}
use volta_hackathon.Worker.Messages.{TwilioMessage}
use volta_hackathon.Worker.Relay.{
  ReadyState, opened, connecting, closing, closed, Relay, Event, Effect, finish, Task, finished,
  fetching, authorizing, handle, state_of, is_opened, audio_limit, on_media, on_start,
  on_twilio_message, on_token, on_checked, on_upstream_opened, fail, twilio_message, twilio_error,
  twilio_closed, checked, thrown, token, upstream_opened, upstream_message, upstream_error,
  upstream_closed,
}
use volta_hackathon.Worker.Relay.Admission.{
  commands, QuietFor, all-put, all-append, all-get, fail-Quiet, finish-Quiet, on_stop-Quiet,
  on_twilio_closed-Quiet, on_thrown-Quiet, on_upstream_message-Quiet, on_upstream_closed-Quiet,
}

-- The start message names this call and this authorization.
abbrev asks : String → String → Event → Bool
asks call_id stream_auth (twilio_message (some (TwilioMessage.start s (some c) a))) =
    c == call_id && or_else a "" == stream_auth
asks call_id stream_auth _ = false

pub any-append : (p : Event → Bool) (xs ys : List Event) → any p xs ≡ true → any p (xs ++ ys) ≡ true
any-append p [] ys h = absurd (cc)
any-append p (x ∷ xs) ys h =
    let k : any p xs ≡ true → any p (xs ++ ys) ≡ true = any-append p xs ys in ground arith

any_last :
    (p : Event → Bool) (xs : List Event) (x : Event) → p x ≡ true → any p (xs ++ x ∷ []) ≡ true
any_last p [] x h = ground arith
any_last p (y ∷ xs) x h = let k = any_last p xs x h in ground arith

none_open :
    {A : Type 0} (current : Option ℕ) (us : List ReadyState)
    → is_opened (state_of current us) ≡ true
    → length us ≡ 0
    → A
none_open none us h l = absurd (cc)
none_open (some n) [] h l = absurd (cc)
none_open (some n) (u ∷ us) h l = absurd (omega arith)

pub empty : (us : List ReadyState) → length us ≡ 0 → us ≡ []
empty [] l = refl
empty (u ∷ us) l = absurd (omega arith)

none_there :
    {A : Type 0} (n : ℕ) (u : ReadyState) (us : List ReadyState)
    → get_elem? us n ≡ some u
    → length us ≡ 0
    → A
none_there n u [] h l = absurd (cc)
none_there n u (v ∷ us) h l = absurd (omega arith)

module _ (valid : String → String → Bool) where
  -- The start message carries an authorization that is valid for its call.
  abbrev pub admits : Event → Bool
  admits (twilio_message (some (TwilioMessage.start s (some c) a))) = valid c (or_else a "")
  admits _ = false

  asks-admits :
      (c a : String) (event : Event)
      → valid c a ≡ true
      → asks c a event ≡ true
      → admits event ≡ true
  asks-admits c a (twilio_message (some (TwilioMessage.start s (some d) b))) v h =
      let e : d ≡ c = (eq_iff d c).0 (ground arith) in
      let f : or_else b "" ≡ a = (eq_iff (or_else b "") a).0 (ground arith) in rw (e, f) v
  asks-admits c a _ v h = absurd (cc)

  asked_admitted :
      (c a : String) (events : List Event)
      → valid c a ≡ true
      → any (asks c a) events ≡ true
      → any admits events ≡ true
  asked_admitted c a [] v h = absurd (cc)
  asked_admitted c a (x ∷ xs) v h =
      let k : any (asks c a) xs ≡ true → any admits xs ≡ true = asked_admitted c a xs v in
      let l : asks c a x ≡ true → admits x ≡ true = asks-admits c a x v in ground arith

  -- What a task stands on.
  abbrev backed : List Event → Task → Bool
  backed events (authorizing c a) = any (asks c a) events
  backed events fetching = any admits events
  backed events finished = true

  later :
      (xs ys : List Event) (tasks : List Task)
      → all (backed xs) tasks ≡ true
      → all (backed (xs ++ ys)) tasks ≡ true
  later xs ys [] h = refl
  later xs ys (authorizing c a ∷ tasks) h =
      let k : all (backed xs) tasks ≡ true → all (backed (xs ++ ys)) tasks ≡ true =
        later xs ys tasks in
      let l : any (asks c a) xs ≡ true → any (asks c a) (xs ++ ys) ≡ true =
        any-append (asks c a) xs ys in
      ground arith
  later xs ys (fetching ∷ tasks) h =
      let k : all (backed xs) tasks ≡ true → all (backed (xs ++ ys)) tasks ≡ true =
        later xs ys tasks in
      let l : any admits xs ≡ true → any admits (xs ++ ys) ≡ true = any-append admits xs ys in
      ground arith
  later xs ys (finished ∷ tasks) h = later xs ys tasks h

  abbrev pub Backed : List Event → Relay → Type 0
  Backed events r =
      (all (backed events) r.tasks ≡ true) × ((length r.upstreams ≡ 0) ⊎ (any admits events ≡ true))

  -- What a step keeps, for the events up to and with its own.
  abbrev pub Step : List Event → Relay × List Effect → Type 0
  Step events p = Backed events p.0 × ((commands p.1 ≡ []) ⊎ (any admits events ≡ true))

  Quiet-Step :
      (events : List Event) (r : Relay) (p : Relay × List Effect)
      → Backed events r
      → QuietFor r p
      → Step events p
  Quiet-Step events r p (b, inl c) q =
      ((q.no_start (backed events) refl b, inl (q.same_count ∙ c)), inl q.no_commands)
  Quiet-Step events r p (b, inr c) q =
      ((q.no_start (backed events) refl b, inr c), inl q.no_commands)

  checked-Step :
      (events : List Event) (n : ℕ) (r : Relay) (task : Option Task)
      → get_elem? r.tasks n ≡ task
      → Backed events r
      → Step events (on_checked valid n r)
  unfolding on_checked
  checked-Step events n r none e b = rw (e, on_checked, Step) (b, inl refl)
  checked-Step events n r (some finished) e b = rw (e, on_checked, Step) (b, inl refl)
  checked-Step events n r (some fetching) e b = rw (e, on_checked, Step) (b, inl refl)
  checked-Step events n r (some (authorizing c a)) e b =
      let k : any (asks c a) events ≡ true =
        all-get (backed events) n (authorizing c a) r.tasks e b.0 in
      elim (Bool-cases (valid c a)) [
        | inl v ↦
            rw (e, v, on_checked, Step)
              (
                (
                  all-put (backed events) n fetching r.tasks (asked_admitted c a events v k) b.0,
                  b.1,
                ),
                inl refl,
              )
        | inr v ↦
            rw (e, v, on_checked, Step)
              (Quiet-Step events r (fail "Invalid stream authorization" (finish n r)) b
                (finish-Quiet n "Invalid stream authorization" r))
      ]

  token-Step :
      (events : List Event) (n : ℕ) (r : Relay) (task : Option Task)
      → get_elem? r.tasks n ≡ task
      → Backed events r
      → Step events (on_token n r)
  unfolding on_token
  token-Step events n r none e b = rw (e, on_token, Step) (b, inl refl)
  token-Step events n r (some finished) e b = rw (e, on_token, Step) (b, inl refl)
  token-Step events n r (some (authorizing c a)) e b = rw (e, on_token, Step) (b, inl refl)
  token-Step events n r (some fetching) e b =
      rw (e, on_token, Step)
        (
          (
            all-put (backed events) n finished r.tasks refl b.0,
            inr (all-get (backed events) n fetching r.tasks e b.0),
          ),
          inl refl,
        )

  -- An open socket was admitted.
  from_open :
      (events : List Event) (r : Relay)
      → Backed events r
      → is_opened (state_of r.current r.upstreams) ≡ true
      → any admits events ≡ true
  from_open events r (b, inl c) h = none_open r.current r.upstreams h c
  from_open events r (b, inr c) h = c

  from_there :
      (events : List Event) (n : ℕ) (u : ReadyState) (r : Relay)
      → Backed events r
      → get_elem? r.upstreams n ≡ some u
      → any admits events ≡ true
  from_there events n u r (b, inl c) h = none_there n u r.upstreams h c
  from_there events n u r (b, inr c) h = c

  opened-Step :
      (events : List Event) (n : ℕ) (r : Relay) (state : Option ReadyState)
      → get_elem? r.upstreams n ≡ state
      → Backed events r
      → Step events (on_upstream_opened n r)
  unfolding on_upstream_opened
  opened-Step events n r none e b = rw (e, on_upstream_opened, Step) (b, inl refl)
  opened-Step events n r (some opened) e b = rw (e, on_upstream_opened, Step) (b, inl refl)
  opened-Step events n r (some closing) e b = rw (e, on_upstream_opened, Step) (b, inl refl)
  opened-Step events n r (some closed) e b = rw (e, on_upstream_opened, Step) (b, inl refl)
  opened-Step events n r (some connecting) e b =
      let h = from_there events n connecting r b e in
      rw (e, on_upstream_opened, Step) ((b.0, inr h), inr h)

  media-Step :
      (events : List Event) (audio : String) (r : Relay) (open_now : Bool)
      → is_opened (state_of r.current r.upstreams) ≡ open_now
      → Backed events r
      → Step events (on_media audio r)
  unfolding on_media
  media-Step events audio r true h b = rw (h, on_media, Step) (b, inr (from_open events r b h))
  media-Step events audio r false h b =
      elim (Bool-cases (ltb (length r.pending_audio) audio_limit)) [
        | inl e ↦ rw (h, e, on_media, Step) (b, inl refl)
        | inr e ↦ rw (h, e, on_media, Step) (b, inl refl)
      ]

  start_failed :
      (events : List Event) (q : Relay)
      → Backed events q
      → Step events (fail "Missing Volta call id" q)
  start_failed events q b =
      Quiet-Step events q (fail "Missing Volta call id" q) b (fail-Quiet "Missing Volta call id" q)

  start-Step :
      (events : List Event) (s : String) (c : Option String) (a : Option String) (r : Relay)
      → Backed (events ++ twilio_message (some (TwilioMessage.start s c a)) ∷ []) r
      → Step (events ++ twilio_message (some (TwilioMessage.start s c a)) ∷ []) (on_start s c a r)
  unfolding on_start
  start-Step events s none a r b =
      start_failed (events ++ twilio_message (some (TwilioMessage.start s none a)) ∷ [])
        (record r { stream_sid = some s; call_id = none }) b
  start-Step events s (some c) a r b =
      let event = twilio_message (some (TwilioMessage.start s (some c) a)) in
      elim (Bool-cases (c == "")) [
        | inl e ↦
            rw (e, on_start, Step)
              (start_failed (events ++ event ∷ [])
                (record r { stream_sid = some s; call_id = some c }) b)
        | inr e ↦
            rw (e, on_start, Step)
              (
                (
                  all-append (backed (events ++ event ∷ [])) (authorizing c (or_else a "")) r.tasks
                      (any_last (asks c (or_else a "")) events event
                        (rw (eq_refl c, eq_refl (or_else a "")) refl))
                      b.0,
                  b.1,
                ),
                inl refl,
              )
      ]

  pub later-Backed : (xs ys : List Event) (r : Relay) → Backed xs r → Backed (xs ++ ys) r
  later-Backed xs ys r (b, inl c) = (later xs ys r.tasks b, inl c)
  later-Backed xs ys r (b, inr c) = (later xs ys r.tasks b, inr (any-append admits xs ys c))

  pub handle-Step :
      (events : List Event) (event : Event) (r : Relay)
      → Backed (events ++ event ∷ []) r
      → Step (events ++ event ∷ []) (handle valid event r)
  unfolding handle on_twilio_message
  handle-Step events (twilio_message none) r b = (b, inl refl)
  handle-Step events (twilio_message (some (TwilioMessage.start s c a))) r b =
      start-Step events s c a r b
  handle-Step events (twilio_message (some (TwilioMessage.media s audio))) r b =
      media-Step (events ++ _ ∷ []) audio r (is_opened (state_of r.current r.upstreams)) refl b
  handle-Step events (twilio_message (some (TwilioMessage.stop s))) r b =
      Quiet-Step (events ++ _ ∷ []) r _ b (on_stop-Quiet r)
  handle-Step events (twilio_message (some TwilioMessage.other)) r b = (b, inl refl)
  handle-Step events twilio_error r b =
      Quiet-Step (events ++ _ ∷ []) r _ b (fail-Quiet "Twilio WebSocket error" r)
  handle-Step events twilio_closed r b =
      Quiet-Step (events ++ _ ∷ []) r _ b (on_twilio_closed-Quiet r)
  handle-Step events (checked n) r b =
      checked-Step (events ++ _ ∷ []) n r (get_elem? r.tasks n) refl b
  handle-Step events (thrown n message) r b =
      Quiet-Step (events ++ _ ∷ []) r _ b (on_thrown-Quiet n message r)
  handle-Step events (token n) r b = token-Step (events ++ _ ∷ []) n r (get_elem? r.tasks n) refl b
  handle-Step events (upstream_opened n) r b =
      opened-Step (events ++ _ ∷ []) n r (get_elem? r.upstreams n) refl b
  handle-Step events (upstream_message n event) r b =
      Quiet-Step (events ++ _ ∷ []) r _ b (on_upstream_message-Quiet event r)
  handle-Step events (upstream_error n) r b =
      Quiet-Step (events ++ _ ∷ []) r _ b (fail-Quiet "OpenAI WebSocket error" r)
  handle-Step events (upstream_closed n) r b =
      Quiet-Step (events ++ _ ∷ []) r _ b (on_upstream_closed-Quiet n r)
