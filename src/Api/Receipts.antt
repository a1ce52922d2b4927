-- ===== src/Api/Receipts.antt =====
-- lib/webhooks/idempotency.ts: `registerWebhookReceipt`, and the handlers that begin with it. `insert` is
-- the table of receipts in the database, none where it is not configured; the receipts in memory are
-- part of the site.
pub mod Twice
use volta_hackathon.Prelude.{
  ℕ, String, Option, none, some, List, ◌∷◌, Bool, true, false, Result, ok, err, if◌then◌else◌,
}
use volta_hackathon.Prelude.Text.{◌<>◌, includes}
use volta_hackathon.Store.Mutation.{World}
use volta_hackathon.Store.Session.{Session}

pub record Site : Type 0 where
  pub world : World
  pub receipts : List String

pub record Response : Type 0 where
  pub status : ℕ
  pub body : String

abbrev pub empty_response : ℕ → Response
empty_response status = record { status = status; body = "" }

abbrev pub Handler : Type 0
Handler = Site → Response × Site

pub data Inserted : Type 0 where
  inserted conflict : Inserted
  refused : String → Inserted

-- Whether the receipt is new, and the receipts in memory afterwards.
unfoldable pub register_webhook_receipt :
    Option (String → String → Inserted) → String → String → List String → Result Bool × List String
register_webhook_receipt (some insert) provider event_id receipts =
    elim (insert provider event_id) [
      | inserted ↦ (ok true, receipts)
      | conflict ↦ (ok false, receipts)
      | refused message ↦ (err ("Webhook receipt failed: " <> message), receipts)
    ]
register_webhook_receipt none provider event_id receipts =
    let key = provider <> ":" <> event_id in
    if includes receipts key then (ok false, receipts) else (ok true, key ∷ receipts)

-- The body of a handler, which answers 204 unless it throws.
abbrev run_body : Session (Unit {0}) → Response → List String → World → Response × Site
run_body body on_error receipts w =
    let (r, w') = body w in
    elim r [
      | ok done ↦ (empty_response 204, record { world = w'; receipts = receipts })
      | err message ↦ (on_error, record { world = w'; receipts = receipts })
    ]

-- `if (!(await registerWebhookReceipt(…))) return new Response(null, { status: 204 })`, and the rest.
unfoldable pub once :
    Option (String → String → Inserted) → String → String → Session (Unit {0}) → Response → Handler
once insert provider event_id body on_error s =
    let (fresh, receipts) = register_webhook_receipt insert provider event_id s.receipts in
    elim fresh [
      | err message ↦ (on_error, s)
      | ok is_new ↦
          if is_new then run_body body on_error receipts s.world else (empty_response 204, s)
    ]
