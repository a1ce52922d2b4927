-- ===== src/Worker/Relay/Admission/Runs.antt =====
-- Admission over a whole run of `handleTwilioStream` (workers/realtime-relay/src/index.ts).
use volta_hackathon.Prelude.{
  String, Bool, true, any, List, [], ◌∷◌, ◌++◌, ◌≡◌, ◌≢◌, ◌⊎◌, inl, inr, refl,
}
use volta_hackathon.Worker.Relay.{Relay, Event, Effect, Trace, handle, next, start}
use volta_hackathon.Worker.Relay.Admission.{commands, commands-append}
use volta_hackathon.Worker.Relay.Admission.Steps.{
  admits, any-append, empty, Backed, later-Backed, handle-Step,
}

module _ (valid : String → String → Bool) where
  said :
      (events : List Event) (event : Event) (before after : List Effect)
      → (commands before ≡ []) ⊎ (any (admits valid) events ≡ true)
      → (commands after ≡ []) ⊎ (any (admits valid) (events ++ event ∷ []) ≡ true)
      → (commands (before ++ after) ≡ []) ⊎ (any (admits valid) (events ++ event ∷ []) ≡ true)
  said events event before after (inr c) d = inr (any-append (admits valid) events (event ∷ []) c)
  said events event before after (inl c) (inr d) = inr d
  said events event before after (inl c) (inl d) = inl (commands-append before after c d)

  admitted_of :
      (events : List Event) (r : Relay) (effects : List Effect)
      → Backed valid events r
      → (commands effects ≡ []) ⊎ (any (admits valid) events ≡ true)
      → ((r.upstreams ≢ []) ⊎ (commands effects ≢ []))
      → any (admits valid) events ≡ true
  admitted_of events r effects b c (inl h) = elim b.1 [
    | inl e ↦ absurd (h (empty r.upstreams e))
    | inr e ↦ e
  ]
  admitted_of events r effects b c (inr h) = elim c [ inl e ↦ absurd (h e) | inr e ↦ e ]

  run-Backed :
      {events : List Event} {r : Relay} {effects : List Effect}
      → Trace valid events r effects
      → Backed valid events r × ((commands effects ≡ []) ⊎ (any (admits valid) events ≡ true))
  run-Backed start = ((refl, inl refl), inl refl)
  run-Backed (next {events = events} {r = r} {effects = effects} t event) =
      let (b, c) = run-Backed t in
      let (b', d) = handle-Step valid events event r (later-Backed valid events (event ∷ []) r b) in
      (b', said events event effects (handle valid event r).1 c d)

  -- In any run: if a socket to the model was ever made, or anything was sent to the model, then a start
  -- message has come whose authorization is valid for the call that it names.
  pub model_only_when_admitted :
      (events : List Event) (r : Relay) (effects : List Effect)
      → Trace valid events r effects
      → ((r.upstreams ≢ []) ⊎ (commands effects ≢ []))
      → any (admits valid) events ≡ true
  model_only_when_admitted events r effects t h =
      let b = run-Backed t in admitted_of events r effects b.0 b.1 h
