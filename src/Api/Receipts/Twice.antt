-- ===== src/Api/Receipts/Twice.antt =====
-- lib/webhooks/idempotency.ts: a second delivery of one callback, with the receipts in memory.
use volta_hackathon.Prelude.{
  String, none, List, ◌∷◌, true, false, ok, ◌≡◌, inl, inr, refl, Bool-cases, eq_refl,
}
use volta_hackathon.Prelude.Text.{◌<>◌, includes}
use volta_hackathon.Store.Mutation.{World}
use volta_hackathon.Store.Mutation.Isolation.{Result-cases}
use volta_hackathon.Store.Session.{Session}
use volta_hackathon.Api.Receipts.{
  Site, Response, empty_response, register_webhook_receipt, once, run_body,
}

body_receipts :
    (body : Session (Unit {0})) (on_error : Response) (receipts : List String) (w : World)
    → (run_body body on_error receipts w).1.receipts ≡ receipts
body_receipts body on_error receipts w = elim (Result-cases (body w).0) [
  | inl (a, e) ↦ rw (e, run_body) refl
  | inr (m, e) ↦ rw (e, run_body) refl
]

seen :
    (provider event_id : String) (body : Session (Unit {0})) (on_error : Response) (s : Site)
    → includes s.receipts (provider <> ":" <> event_id) ≡ true
    → once none provider event_id body on_error s ≡ (empty_response 204, s)
unfolding once register_webhook_receipt
seen provider event_id body on_error s e = rw (e, once, register_webhook_receipt) refl

registered :
    (provider event_id : String) (receipts : List String)
    → includes receipts (provider <> ":" <> event_id) ≡ false
    → register_webhook_receipt none provider event_id receipts
      ≡ (ok true, (provider <> ":" <> event_id) ∷ receipts)
unfolding register_webhook_receipt
registered provider event_id receipts e = rw (e, register_webhook_receipt) refl

fresh :
    (provider event_id : String) (body : Session (Unit {0})) (on_error : Response) (s : Site)
    → includes s.receipts (provider <> ":" <> event_id) ≡ false
    → once none provider event_id body on_error s
      ≡ run_body body on_error ((provider <> ":" <> event_id) ∷ s.receipts) s.world
unfolding once register_webhook_receipt
fresh provider event_id body on_error s e =
    let k = registered provider event_id s.receipts e in rw (k, once) (rw (k, once) refl)

-- What was registered once is answered with 204 and changes nothing.
pub once_twice :
    (provider event_id : String) (body : Session (Unit {0})) (on_error : Response) (s : Site)
    → once none provider event_id body on_error (once none provider event_id body on_error s).1
      ≡ (empty_response 204, (once none provider event_id body on_error s).1)
once_twice provider event_id body on_error s =
    let key = provider <> ":" <> event_id in
    elim (Bool-cases (includes s.receipts key)) [
      | inl e ↦
          rw (seen provider event_id body on_error s e) (seen provider event_id body on_error s e)
      | inr e ↦ rw (fresh provider event_id body on_error s e) (
          let k = body_receipts body on_error (key ∷ s.receipts) s.world in
          seen provider event_id body on_error (run_body body on_error (key ∷ s.receipts) s.world).1
            (rw (k) (rw (eq_refl key) refl)))
    ]
