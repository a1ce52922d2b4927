-- ===== src/Worker/Authorization/Agreement.antt =====
-- The server's authorization of a stream against the worker's check of it.
use volta_hackathon.Prelude.{
  ℕ, String, some, Bool, true, ◌&&◌, ◌≡◌, ◌↔◌, List, eqb, length, ok, refl, arith, subst, sym, ap,
  ◌∙◌,
}
use volta_hackathon.Prelude.Text.{trim}
use volta_hackathon.Server.RelayAuth.{relay_secret, create_stream_authorization}
use volta_hackathon.Worker.Authorization.Alphabet.{Transliterates, url_form_lem}
use volta_hackathon.Worker.Authorization.{url_form, stream_authorization_valid}

module _ (bytes : String → List ℕ) (timing_safe_equal : List ℕ → List ℕ → Bool)
    (hmac : String → String → List ℕ) (base64 base64url : List ℕ → String)
    (compares : (a b : List ℕ) → length a ≡ length b → (timing_safe_equal a b ≡ true) ↔ (a ≡ b))
    (encodes : (s t : String) → bytes s ≡ bytes t → s ≡ t)
    (transliterates : (b : List ℕ) → Transliterates (base64 b) (base64url b)) where
  abbrev compared : String → String → Bool
  compared expected provided =
      eqb (length (bytes expected)) (length (bytes provided))
      && timing_safe_equal (bytes expected) (bytes provided)

  compared_self : (s : String) → compared s s ≡ true
  compared_self s = ground (arith, (compares (bytes s) (bytes s) refl).1 refl)

  compared_iff :
      (expected provided : String) → (compared expected provided ≡ true) ↔ (expected ≡ provided)
  compared_iff expected provided = (
    λ h.
        encodes expected provided
          ((compares (bytes expected) (bytes provided) (ground arith)).0 (ground arith)),
    λ e. subst (λ u. compared expected u ≡ true) e (compared_self expected),
  )

  created :
      (call_id secret token : String)
      → create_stream_authorization hmac base64url call_id (some secret) ≡ ok token
      → base64url (hmac (trim secret) call_id) ≡ token
  unfolding create_stream_authorization relay_secret
  created call_id secret token h = ground arith

  -- The worker accepts for a call exactly the text that the server made for it, if the secret has no
  -- surrounding space, base64url is base64 with `-` and `_` for `+` and `/` and without its padding,
  -- as RFC 4648 has it, the comparison is right on equal lengths, and bytes tell texts apart.
  pub stream_authorization_valid_iff :
      (call_id secret token provided : String)
      → trim secret ≡ secret
      → create_stream_authorization hmac base64url call_id (some secret) ≡ ok token
      → (stream_authorization_valid bytes timing_safe_equal hmac base64 call_id provided secret
          ≡ true)
        ↔ (token ≡ provided)
  unfolding stream_authorization_valid
  stream_authorization_valid_iff call_id secret token provided t h =
      let made : url_form (base64 (hmac secret call_id)) ≡ token =
        url_form_lem (transliterates (hmac secret call_id))
        ∙ ap (λ k. base64url (hmac k call_id)) (sym t)
        ∙ created call_id secret token h in
      subst
        (λ x. (compared (url_form (base64 (hmac secret call_id))) provided ≡ true) ↔ (x ≡ provided))
        made (compared_iff (url_form (base64 (hmac secret call_id))) provided)
