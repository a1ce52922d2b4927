-- ===== src/Server/RateLimit.antt =====
-- lib/server/rate-limit.ts: `allowRequest`. The buckets are a map from keys to the times of the
-- requests that were let through, and `current` is `Date.now()`.
pub mod Window
use volta_hackathon.Prelude.{
  ℕ, ◌+◌, String, Option, some, List, [], ◌∷◌, ◌++◌, ◌==◌, Bool, true, false, filter, length, ltb,
  leb, or_else, if◌then◌else◌,
}

abbrev pub Buckets : Type 0
Buckets = String → Option (List ℕ)

-- `current - timestamp < windowMs`
abbrev pub is_recent : ℕ → ℕ → ℕ → Bool
is_recent window current timestamp = ltb current (timestamp + window)

abbrev pub bucket : Buckets → String → List ℕ
bucket buckets key = or_else (buckets key) []

abbrev pub set : String → List ℕ → Buckets → Buckets
set key times buckets k = if k == key then some times else buckets k

unfoldable pub allow_request : String → ℕ → ℕ → ℕ → Buckets → Bool × Buckets
allow_request key limit window current buckets =
    let recent = filter (is_recent window current) (bucket buckets key) in
    if leb limit (length recent)
    then (false, buckets)
    else (true, set key (recent ++ current ∷ []) buckets)
