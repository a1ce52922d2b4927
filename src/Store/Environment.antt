-- ===== src/Store/Environment.antt =====
-- What the store takes from the runtime: clocks, random values, the hash, and the locale data. Each
-- use of a clock or of a random source is one tick, and the runtime answers by the tick.
use volta_hackathon.Prelude.{ℕ, String, Ordering, ◌≡◌, ◌≤◌}
use volta_hackathon.Domain.Types.{VoiceProvider}

pub record Environment : Type 0 where
  -- `randomUUID()`
  pub uuid : ℕ → String
  -- `randomBytes(24).toString("base64url")`
  pub random_token : ℕ → String
  -- `Date.now()`
  pub millis : ℕ → ℕ
  -- `new Date(ms).toISOString()`
  pub iso : ℕ → String
  -- `new Date(text).getTime()`
  pub parse_time : String → ℕ
  -- `createHash("sha256").update(text).digest("hex")`
  pub sha256 : String → String
  -- `a.localeCompare(b)`
  pub locale_compare : String → String → Ordering
  -- `amount.toLocaleString("en-US")`
  pub amount_text : ℕ → String
  -- `text.toLowerCase()`
  pub lower_case : String → String
  -- `voiceProviderTag()`, which reads `VOLTA_VOICE_TRANSPORT`
  pub voice_provider_tag : VoiceProvider

-- The documented behaviour of the clock: time does not run backwards, and parsing a printed time
-- gives the time.
pub record IsClock (env : Environment) : Type 0 where
  pub forward : (m n : ℕ) → m ≤ n → env.millis m ≤ env.millis n
  pub round_trip : (t : ℕ) → env.parse_time (env.iso t) ≡ t

-- Random identifiers do not repeat.
pub record IsUnique (env : Environment) : Type 0 where
  pub distinct : (m n : ℕ) → env.uuid m ≡ env.uuid n → m ≡ n
