-- ===== src/Server/Auth.antt =====
-- lib/server/auth.ts: the two roles, their access codes and what a session may do. The environment
-- variables, the bytes of a text, the comparison of node:crypto and the verified payload of a token are
-- parameters.
pub mod Roles
use volta_hackathon.Prelude.{
  ℕ, String, Option, none, some, Bool, true, false, not, ◌&&◌, ◌==◌, length, List, eqb, Result, ok,
  err, or_else, is_some, if◌then◌else◌,
}

pub data Role : Type 0 where
  operator viewer : Role

-- The variables of the process that are read: `production` says whether `NODE_ENV` is.
pub record Settings : Type 0 where
  pub demo_access_code : Option String
  pub demo_viewer_code : Option String
  pub production : Bool

-- The claims of a token whose signature and expiry `jwtVerify` accepts.
pub record Payload : Type 0 where
  pub scope : Option String
  pub role : Option String

abbrev pub operator_code : Settings → String
operator_code settings =
    or_else settings.demo_access_code (if settings.production then "" else "volta")

abbrev pub viewer_code : Settings → String
viewer_code settings = or_else settings.demo_viewer_code ""

module _ (bytes : String → List ℕ) (timing_safe_equal : List ℕ → List ℕ → Bool) where
  unfoldable pub constant_time_equal : String → String → Bool
  constant_time_equal left right =
      if not (eqb (length (bytes left)) (length (bytes right)))
      then false
      else timing_safe_equal (bytes left) (bytes right)

  role_for : String → String → String → Option Role
  role_for operator_code viewer_code given =
      let is_operator = not (operator_code == "") && constant_time_equal given operator_code in
      let is_viewer = not (viewer_code == "") && constant_time_equal given viewer_code in
      if is_operator then some Role.operator else if is_viewer then some Role.viewer else none

  unfoldable pub verify_access_code : Settings → String → Option Role
  unfolding role_for
  verify_access_code settings given = role_for (operator_code settings) (viewer_code settings) given

abbrev read_role : Option String → Option Role
read_role none = none
read_role (some role) =
    if role == "operator"
    then some Role.operator
    else if role == "viewer"
    then some Role.viewer
    else none

abbrev has_scope : Option String → Bool
has_scope none = false
has_scope (some scope) = scope == "op-2041"

-- `jwt_verify` is `none` where the verification throws.
module _ (jwt_verify : String → Option Payload) where
  unfoldable pub session_role : Option String → Option Role
  session_role none = none
  session_role (some token) = if token == "" then none else elim (jwt_verify token) [
    | none ↦ none
    | some payload ↦ if has_scope payload.scope then read_role payload.role else none
  ]

  unfoldable pub verify_session : Option String → Bool
  verify_session token = is_some (session_role token)

  -- The token is that of the session cookie of the request.
  unfoldable pub require_session : Option String → Result Role
  require_session token = elim (session_role token) [
    | none ↦ err "UNAUTHORIZED"
    | some role ↦ ok role
  ]

  abbrev is_operator_role : Option Role → Bool
  is_operator_role (some Role.operator) = true
  is_operator_role _ = false

  unfoldable pub require_operator : Option String → Result (Unit {0})
  require_operator token =
      if is_operator_role (session_role token) then ok tt else err "UNAUTHORIZED"
