-- ===== src/Stats.antt =====
-- agent/src/analytics/mod.rs: the trend of the occurrences of an exception group.
pub mod Trend
use analytics.Common.{
  ℕ, zero, suc, ◌+◌, ◌*◌, ◌/◌, ◌-◌, max, min, ℤ, pos, negsuc, ◌-ℤ◌, List, [], ◌∷◌, wrap_i64,
}

abbrev pub trend_buckets : ℕ
trend_buckets = 20

abbrev pub zeros : ℕ → List ℕ
zeros zero = []
zeros (suc n) = 0 ∷ zeros n

-- `(to_ms - from_ms).max(1)`
abbrev pub span_of : ℤ → ℕ
span_of (pos n) = max n 1
span_of (negsuc n) = 1

-- The bucket of an offset, clamped into the range of indices. A negative offset has a quotient
-- that is not positive, so the clamp gives 0.
unfoldable pub bucket_of : ℕ → ℤ → ℕ
bucket_of span (pos d) = min (d * trend_buckets / span) (trend_buckets - 1)
bucket_of span (negsuc d) = 0

-- `buckets[idx] += 1`, on an index inside.
unfoldable pub bump : ℕ → List ℕ → List ℕ
bump i [] = []
bump zero (b ∷ bs) = (b + 1) ∷ bs
bump (suc i) (b ∷ bs) = b ∷ bump i bs

unfoldable pub count_into : (ℤ → ℕ) → List ℤ → List ℕ → List ℕ
unfolding bump
count_into bucket [] buckets = buckets
count_into bucket (t ∷ ts) buckets = count_into bucket ts (bump (bucket t) buckets)

unfoldable pub trend_of : List ℤ → ℤ → ℤ → List ℕ
unfolding count_into bucket_of wrap_i64
trend_of times from to =
    let span = span_of (wrap_i64 (to -ℤ from)) in
    count_into (λ t. bucket_of span (wrap_i64 (t -ℤ from))) times (zeros trend_buckets)
