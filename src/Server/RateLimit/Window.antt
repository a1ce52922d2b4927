-- ===== src/Server/RateLimit/Window.antt =====
-- The promise of the limiter over a whole run of requests.
use volta_hackathon.Prelude.{
  ℕ, ◌+◌, ◌≤◌, ◌<◌, String, none, List, [], ◌∷◌, ◌++◌, ◌≡◌, ◌≢◌, ◌↔◌, inl, inr, Bool, true, false,
  filter, length, arith, refl, eq_refl, eq_iff, ap, sym, ◌∙◌, Bool-cases,
}
use volta_hackathon.Server.RateLimit.{Buckets, is_recent, bucket, allow_request}

filter-filter :
    (window last current : ℕ) (xs : List ℕ)
    → last ≤ current
    → filter (is_recent window current) (filter (is_recent window last) xs)
      ≡ filter (is_recent window current) xs
filter-filter window last current [] h = refl
filter-filter window last current (x ∷ xs) h = grind (arith, filter-filter window last current xs h)

filter-append : (p : ℕ → Bool) (xs ys : List ℕ) → filter p (xs ++ ys) ≡ filter p xs ++ filter p ys
filter-append p [] ys = refl
filter-append p (x ∷ xs) ys = grind (arith, filter-append p xs ys)

length-append-one : (xs : List ℕ) (x : ℕ) → length (xs ++ x ∷ []) ≡ length xs + 1
length-append-one [] x = refl
length-append-one (x ∷ xs) y = omega (arith, length-append-one xs y)

module _ (limit window : ℕ) (key : String) where
  -- The states of the limiter after requests in the order of the clock: the last time, the times at
  -- which requests for `key` were let through, oldest first, and the buckets.
  pub data Run : ℕ → List ℕ → Buckets → Type 0 where
    start : Run 0 [] (λ k. none)
    granted :
        {last current : ℕ} {grants : List ℕ} {buckets : Buckets}
        → Run last grants buckets
        → last ≤ current
        → (allow_request key limit window current buckets).0 ≡ true
        → Run current (grants ++ current ∷ []) (allow_request key limit window current buckets).1
    refused :
        {last current : ℕ} {grants : List ℕ} {buckets : Buckets}
        → Run last grants buckets
        → last ≤ current
        → (allow_request key limit window current buckets).0 ≡ false
        → Run current grants (allow_request key limit window current buckets).1
    elsewhere :
        {last current : ℕ} {grants : List ℕ} {buckets : Buckets} {other : String}
        → Run last grants buckets
        → last ≤ current
        → other ≢ key
        → Run current grants (allow_request other limit window current buckets).1

  abbrev recent : ℕ → List ℕ → List ℕ
  recent = λ current times. filter (is_recent window current) times

  bucket-granted :
      (current : ℕ) (buckets : Buckets)
      → (allow_request key limit window current buckets).0 ≡ true
      → (bucket (allow_request key limit window current buckets).1 key
          ≡ recent current (bucket buckets key) ++ current ∷ [])
        × (length (recent current (bucket buckets key)) < limit)
  unfolding allow_request
  bucket-granted current buckets h = ground (arith, eq_refl key)

  bucket-refused :
      (current : ℕ) (buckets : Buckets)
      → (allow_request key limit window current buckets).0 ≡ false
      → (bucket (allow_request key limit window current buckets).1 key ≡ bucket buckets key)
        × (limit ≤ length (recent current (bucket buckets key)))
  unfolding allow_request
  bucket-refused current buckets h = ground (arith)

  bucket-elsewhere :
      (current : ℕ) (other : String) (buckets : Buckets)
      → other ≢ key
      → bucket (allow_request other limit window current buckets).1 key ≡ bucket buckets key
  unfolding allow_request
  bucket-elsewhere current other buckets n = ground (arith, eq_iff key other)

  -- The bucket holds the grants that any later request may still count.
  tracked :
      (last : ℕ) (grants : List ℕ) (buckets : Buckets)
      → Run last grants buckets
      → (now : ℕ) → last ≤ now
      → recent now (bucket buckets key) ≡ recent now grants
  tracked last grants buckets start now h = refl
  tracked last grants buckets (granted {last = l} {grants = g} {buckets = b} r le through) now h =
      ap (recent now) (bucket-granted last b through).0
      ∙ filter-append (is_recent window now) (recent last (bucket b key)) (last ∷ [])
      ∙ ap (λ xs. xs ++ recent now (last ∷ []))
          (filter-filter window last now (bucket b key) h ∙ tracked l g b r now (omega arith))
      ∙ sym (filter-append (is_recent window now) g (last ∷ []))
  tracked last grants buckets (refused {last = l} {buckets = b} r le shut) now h =
      ap (recent now) (bucket-refused last b shut).0 ∙ tracked l grants b r now (omega arith)
  tracked last grants buckets (elsewhere {last = l} {buckets = b} {other = o} r le n) now h =
      ap (recent now) (bucket-elsewhere last o b n) ∙ tracked l grants b r now (omega arith)

  -- After any run of requests, a request is let through exactly when fewer than `limit` were let
  -- through in the window before it.
  pub allow_request_iff :
      (last current : ℕ) (grants : List ℕ) (buckets : Buckets)
      → Run last grants buckets
      → last ≤ current
      → ((allow_request key limit window current buckets).0 ≡ true)
        ↔ (length (filter (is_recent window current) grants) < limit)
  allow_request_iff last current grants buckets r h =
      let e = ap length (tracked last grants buckets r current h) in
      (
        λ through. omega (arith, e, (bucket-granted current buckets through).1),
        λ few. elim (Bool-cases (allow_request key limit window current buckets).0) [
          | inl through ↦ through
          | inr shut ↦ absurd (omega (arith, e, (bucket-refused current buckets shut).1))
        ],
      )
