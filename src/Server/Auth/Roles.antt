-- ===== src/Server/Auth/Roles.antt =====
-- What the two codes and the two guards let through.
use volta_hackathon.Prelude.{
  ℕ, String, Option, some, Bool, true, ◌≡◌, ◌≢◌, ◌↔◌, List, length, ok, arith, eq_iff, refl, subst,
}
use volta_hackathon.Server.Auth.{
  Role, Settings, Payload, constant_time_equal, role_for, verify_access_code, operator_code,
  viewer_code, require_session, require_operator,
}

module _ (jwt_verify : String → Option Payload) where
  -- A request passes the guard of the operator exactly when it passes that of a session with the
  -- role of the operator.
  pub require_operator_iff :
      (token : Option String)
      → (require_operator jwt_verify token ≡ ok tt)
        ↔ (require_session jwt_verify token ≡ ok Role.operator)
  unfolding require_operator require_session
  require_operator_iff token = (λ h. ground arith, λ h. ground arith)

-- A code that is set, and is the one given.
abbrev pub IsCode : String → String → Type 0
IsCode code given = (code ≢ "") × (given ≡ code)

module _ (bytes : String → List ℕ) (timing_safe_equal : List ℕ → List ℕ → Bool)
    (compares : (a b : List ℕ) → length a ≡ length b → (timing_safe_equal a b ≡ true) ↔ (a ≡ b))
    (encodes : (s t : String) → bytes s ≡ bytes t → s ≡ t) where
  equal_self : (s : String) → constant_time_equal bytes timing_safe_equal s s ≡ true
  unfolding constant_time_equal
  equal_self s = ground (arith, (compares (bytes s) (bytes s) refl).1 refl)

  constant_time_equal_iff :
      (s t : String) → (constant_time_equal bytes timing_safe_equal s t ≡ true) ↔ (s ≡ t)
  unfolding constant_time_equal
  constant_time_equal_iff s t = (
    λ h. encodes s t ((compares (bytes s) (bytes t) (ground arith)).0 (ground arith)),
    λ e. subst (λ u. constant_time_equal bytes timing_safe_equal s u ≡ true) e (equal_self s),
  )

  role_for_iff :
      (o v given : String)
      → ((role_for bytes timing_safe_equal o v given ≡ some Role.operator) ↔ IsCode o given)
        × ((role_for bytes timing_safe_equal o v given ≡ some Role.viewer)
            ↔ ((IsCode o given → ⊥) × IsCode v given))
  unfolding role_for
  role_for_iff o v given =
      let a = constant_time_equal_iff given o in
      let b = constant_time_equal_iff given v in
      let e = eq_iff o "" in
      let f = eq_iff v "" in
      (
        (λ h. (ground arith, ground arith), λ h. ground arith),
        (λ h. (ground arith, (ground arith, ground arith)), λ h. ground arith),
      )

  -- With a comparison of bytes that is right on equal lengths, and bytes that tell texts apart, a
  -- code opens the operator's session exactly when an operator code is set and it is that one, and the
  -- viewer's when it is not the operator's and a viewer code is set and it is that one.
  pub verify_access_code_iff :
      (settings : Settings) (given : String)
      → ((verify_access_code bytes timing_safe_equal settings given ≡ some Role.operator)
          ↔ IsCode (operator_code settings) given)
        × ((verify_access_code bytes timing_safe_equal settings given ≡ some Role.viewer)
            ↔ ((IsCode (operator_code settings) given → ⊥) × IsCode (viewer_code settings) given))
  unfolding verify_access_code
  verify_access_code_iff settings given =
      role_for_iff (operator_code settings) (viewer_code settings) given
