-- ===== src/Api/Callbacks/Repeats.antt =====
-- app/api/twilio/voice/status/route.ts and its three siblings: a callback that the provider repeats.
use volta_hackathon.Prelude.{String, Option, none, some, Result, ok, err, ap, ◌≡◌, refl}
use volta_hackathon.Store.Environment.{Environment}
use volta_hackathon.Store.Session.{Session, Interference}
use volta_hackathon.Services.Handoff.{present}
use volta_hackathon.Services.Verification.{Channels}
use volta_hackathon.Api.Receipts.{Site, Handler, Response, once}
use volta_hackathon.Api.Receipts.Twice.{once_twice}
use volta_hackathon.Api.Callbacks.{
  Callback, guarded, post_twilio_status, post_telnyx_status, post_twilio_message,
  post_twilio_conference,
}

abbrev pub Repeats : Handler → Site → Type 0
Repeats post s = (post (post s).1).1 ≡ (post s).1

once-Repeats :
    (provider event_id : String) (body : Session (Unit {0})) (on_error : Response) (s : Site)
    → Repeats (once none provider event_id body on_error) s
once-Repeats provider event_id body on_error s =
    ap (λ p. p.1) (once_twice provider event_id body on_error s)

guarded-Repeats :
    (form : Result (String → Option String)) (id : Option String)
    (go : (String → Option String) → String → Handler) (s : Site)
    → ((f : String → Option String) (i : String) → Repeats (go f i) s)
    → Repeats (guarded form id go) s
guarded-Repeats (err message) id go s h = refl
guarded-Repeats (ok form) none go s h = refl
guarded-Repeats (ok form) (some id) go s h = h form id

-- With the receipts in memory, a callback of Twilio or Telnyx that comes a second time, the same in its
-- form and its query, changes nothing that the first one left, whether the first one succeeded or
-- failed: neither the operation nor the receipts.
pub callbacks_repeat :
    (env : Environment) (interference : Interference) (channels : Channels)
    (hang_up : String → Result (Unit {0})) (q : Callback) (s : Site)
    → Repeats (post_twilio_status env interference channels none q) s
      × Repeats (post_telnyx_status env interference channels none q) s
      × Repeats (post_twilio_message env interference channels none q) s
      × Repeats (post_twilio_conference env interference channels none hang_up q) s
unfolding post_twilio_status post_telnyx_status post_twilio_message post_twilio_conference
callbacks_repeat env interference channels hang_up q s = (
  guarded-Repeats q.form (present (q.search_param "callId")) _ s (λ f i. once-Repeats _ _ _ _ s),
  guarded-Repeats q.form (present (q.search_param "callId")) _ s (λ f i. once-Repeats _ _ _ _ s),
  guarded-Repeats q.form (present (q.search_param "commitmentId")) _ s
      (λ f i. once-Repeats _ _ _ _ s),
  guarded-Repeats q.form (present (q.search_param "callId")) _ s (λ f i. once-Repeats _ _ _ _ s),
)
