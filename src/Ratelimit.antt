-- ===== src/Ratelimit.antt =====
-- agent/src/ratelimit.rs: the token buckets, one per key. The source counts tokens in f64; here they
-- are counted exactly, in parts of 1 / (60 * 10^9) of a token, since `per_minute` tokens a minute
-- are `per_minute` such parts a nanosecond. Instants are nanoseconds on the monotone clock.
pub mod Bound
use analytics.Common.{
  ℕ, ◌+◌, ◌-◌, ◌*◌, min, max, Bool, true, false, Option, none, some, Text, text_eq, leb, ltb,
  if◌then◌else◌,
}

abbrev pub token : ℕ
token = 60 * 1000000000

pub record Bucket : Type 0 where
  pub tokens : ℕ
  pub last : ℕ

-- The limiter's settings, and its buckets by key.
pub record RateLimiter : Type 0 where
  pub capacity : ℕ
  pub refill_per_ns : ℕ
  pub buckets : Text → Option Bucket

unfoldable pub new_limiter : ℕ → ℕ → RateLimiter
new_limiter per_minute burst = record {
  capacity = max burst 1 * token;
  refill_per_ns = max per_minute 1;
  buckets = λ key. none;
}

abbrev pub set_bucket : Text → Bucket → RateLimiter → RateLimiter
set_bucket key b r = record r { buckets = λ k. if text_eq key k then some b else r.buckets k }

-- `entry(key).or_insert(...)`
abbrev pub entry : Text → ℕ → RateLimiter → Bucket
entry key now r = elim (r.buckets key) [
  | none ↦ record { tokens = r.capacity; last = now }
  | some b ↦ b
]

-- The tokens of a bucket at an instant; `duration_since` of a later instant is zero.
abbrev pub refilled : Bucket → ℕ → RateLimiter → ℕ
refilled b now r = min (b.tokens + (now - b.last) * r.refill_per_ns) r.capacity

unfoldable pub check : Text → ℕ → RateLimiter → Bool × RateLimiter
check key now r =
    let tokens = refilled (entry key now r) now r in
    let allowed = leb token tokens in
    (
      allowed,
      set_bucket key (record { tokens = if allowed then tokens - token else tokens; last = now }) r,
    )

abbrev retained : ℕ → RateLimiter → Option Bucket → Option Bucket
retained now r none = none
retained now r (some b) = if ltb (refilled b now r) r.capacity then some b else none

unfoldable pub cleanup : ℕ → RateLimiter → RateLimiter
cleanup now r = record r { buckets = λ k. retained now r (r.buckets k) }
