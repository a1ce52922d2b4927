-- ===== src/Api/Access.antt =====
-- app/api/auth/login/route.ts, app/api/openai/realtime/token/route.ts and app/api/mcp/route.ts. What the
-- schemas make of a body, or throw, is an argument; `verify` is `verifyAccessCode` under the settings,
-- `sign` is `issueSession`, `create_secret` is `createRealtimeClientSecret`.
use Prim.Native.Char.{code}
use Prim.Native.String.{String}
use volta_hackathon.Prelude.{
  ℕ, Option, none, some, Bool, true, false, not, ◌==◌, eqb, find, or_else, Result, ok, err,
  if◌then◌else◌, ◌⊎◌, inl, inr,
}
use volta_hackathon.Prelude.Text.{◌<>◌, trim}
use volta_hackathon.Domain.Types.{CallAttempt, Carrier, OperationSnapshot}
use volta_hackathon.Server.Auth.{Role}
use volta_hackathon.Server.RateLimit.{Buckets, allow_request}
use volta_hackathon.Store.Mutation.{World, default_operation, get_snapshot}
use volta_hackathon.Services.Handoff.{present}
use volta_hackathon.Api.Takeover.{Thrown, http_error, Failure, api_error}

-- `header.split(",")[0]`
abbrev pub first_part : String → String
first_part String.[] = ""
first_part (String.◌∷◌ c s) =
    let rest = first_part s in if eqb (code c) b',' then "" else String.◌∷◌ c rest

abbrev client_ip : Option String → String
client_ip none = "local"
client_ip (some header) = trim (first_part header)

pub data LoginAnswer : Type 0 where
  -- With the value of the session cookie.
  opened : Role → String → LoginAnswer
  failed : Failure → LoginAnswer

abbrev login_answer : (Role → String) → Option Role → LoginAnswer
login_answer sign none = failed (api_error (http_error 401 "Invalid access code"))
login_answer sign (some role) = opened role (sign role)

-- Five attempts a minute for an address.
unfoldable pub post_login :
    (String → Option Role)
    → (Role → String)
    → Option String
    → ℕ
    → (String ⊎ Thrown)
    → Buckets
    → LoginAnswer × Buckets
post_login verify sign forwarded_for current body buckets =
    let (allowed, buckets') =
      allow_request ("login:" <> client_ip forwarded_for) 5 60000 current buckets in
    (
      if not allowed then failed (api_error (http_error 429 "Too many attempts")) else elim body [
        | inl given ↦ login_answer sign (verify given)
        | inr thrown ↦ failed (api_error thrown)
      ],
      buckets',
    )

pub data Transport : Type 0 where
  telephony whatsapp : Transport

pub record ClientSecret : Type 0 where
  pub value : String
  pub expires_at : ℕ

pub data TokenAnswer : Type 0 where
  -- With the id of the project.
  issued : ClientSecret → Option String → TokenAnswer
  refused : ℕ → String → TokenAnswer

abbrev carrier_of_call : OperationSnapshot → CallAttempt → Option Carrier
carrier_of_call s call = elim call.carrier_id [
  | none ↦ none
  | some id ↦ find (λ c. c.id == id) s.carriers
]

abbrev creation_failed : TokenAnswer
creation_failed = refused 400 "Realtime token creation failed"

module _
    (create_secret : OperationSnapshot
      → CallAttempt
      → Option Carrier
      → Transport
      → Result ClientSecret)
    (project_id : Option String) where
  abbrev answer_secret : Result ClientSecret → TokenAnswer
  answer_secret (ok secret) = issued secret (present project_id)
  answer_secret (err message) = creation_failed

  unfoldable pub token_for : Result OperationSnapshot → String → Transport → TokenAnswer
  token_for (err message) call_id transport = creation_failed
  token_for (ok s) call_id transport = elim (find (λ c. c.id == call_id) s.calls) [
    | none ↦ refused 404 "Call not found"
    | some call ↦ answer_secret (create_secret s call (carrier_of_call s call) transport)
  ]

  -- The body holds the call and, if it names one, the transport.
  unfoldable pub post_token : Result Bool → Result (String × Option Transport) → World → TokenAnswer
  post_token (err message) body w = creation_failed
  post_token (ok false) body w = refused 401 "Unauthorized"
  post_token (ok true) (err message) w = creation_failed
  post_token (ok true) (ok (call_id, transport)) w =
      token_for (get_snapshot default_operation w) call_id (or_else transport telephony)

-- `authorized`, with the secret of the settings, whether this is production, and the header.
unfoldable pub mcp_authorized : Option String → Bool → Option String → Bool
mcp_authorized secret production header = elim (present secret) [
  | none ↦ not production
  | some expected ↦ elim header [ none ↦ false | some given ↦ given == ("Bearer " <> expected) ]
]

pub data RpcAnswer (A : Type 0) : Type 0 where
  initialized accepted pong tool_list : RpcAnswer A
  tool_result : A → RpcAnswer A
  tool_error : String → RpcAnswer A
  rpc_error : ℕ → String → ℕ → RpcAnswer A

-- A request that parsed; `run` is the tool of its arguments, or what it throws. The code of an error
-- is shown without its minus sign.
abbrev answer_method : {A : Type 0} → Result A → String → RpcAnswer A
answer_method run method =
    if method == "initialize"
    then initialized
    else if method == "notifications/initialized"
    then accepted
    else if method == "ping"
    then pong
    else if method == "tools/list"
    then tool_list
    else if method == "tools/call"
    then elim run [ ok output ↦ tool_result output | err message ↦ tool_error message ]
    else rpc_error 32601 "Method not found" 400

unfoldable pub post_mcp : {A : Type 0} → Bool → Option (Option String × Result A) → RpcAnswer A
post_mcp false message = rpc_error 32001 "Unauthorized" 401
post_mcp true none = rpc_error 32700 "Parse error" 400
post_mcp true (some (none, run)) = rpc_error 32601 "Method not found" 400
post_mcp true (some (some method, run)) = answer_method run method
