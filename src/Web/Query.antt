-- ===== src/Web/Query.antt =====
-- agent/src/web/api/query.rs: the range of time and the size of the buckets of a time series.
-- The clock and the parameters are i64; the operations stay inside i64, since both ends are clamped
-- into [0, 2100-01-01] before they are used.
pub mod Range
use analytics.Common.{
  ℕ, ◌+◌, ◌-◌, ◌*◌, ◌/◌, ◌≤◌, ◌<◌, max, ◌≡◌, refl, sym, ap, ◌∙◌, subst, Bool, true, false, ◌&&◌,
  Bool-cases, Option, none, some, Option-cases, List, [], ◌∷◌, All, All-imp, map, arith, inl, inr,
  ℤ, pos, negsuc, ◌-ℤ◌, Text, codes, text_eq, leb, ltb, if◌then◌else◌,
}

abbrev pub day_ms : ℕ
day_ms = 86400000

abbrev pub buckets_ms : List (Text × ℕ)
buckets_ms =
    (codes "minute", 60000)
    ∷ (codes "15m", 900000)
    ∷ (codes "hour", 3600000)
    ∷ (codes "4h", 14400000)
    ∷ (codes "6h", 21600000)
    ∷ (codes "day", 86400000)
    ∷ (codes "week", 604800000)
    ∷ []

abbrev pub max_buckets : ℕ
max_buckets = 2000

abbrev pub max_instant_ms : ℕ
max_instant_ms = 4102444800000

-- `clamp` between bounds that are not negative.
abbrev pub clamp : ℕ → ℕ → ℤ → ℕ
clamp low high (pos n) = if ltb n low then low else if ltb high n then high else n
clamp low high (negsuc n) = low

abbrev pub unwrap_or {ℓ} : {A : Type ℓ} → A → Option A → A
unwrap_or a none = a
unwrap_or a (some b) = b

unfoldable pub find_named : Text → List (Text × ℕ) → Option ℕ
find_named name [] = none
find_named name ((n, ms) ∷ rest) = if text_eq n name then some ms else find_named name rest

abbrev pub requested : Option Text → ℕ
requested none = day_ms
requested (some name) = unwrap_or day_ms (find_named name buckets_ms)

-- The first bucket that is not finer than `requested` and keeps the series under the cap.
unfoldable pub find_bucket : ℕ → ℕ → List (Text × ℕ) → Option ℕ
find_bucket span req [] = none
find_bucket span req ((_, ms) ∷ rest) =
    if leb req ms && leb (span / ms) max_buckets then some ms else find_bucket span req rest

abbrev pub wide_bucket : ℕ → ℕ
wide_bucket span = max (span / max_buckets + 1) (7 * day_ms)

unfoldable pub bucket_for : ℕ → ℕ → ℕ
bucket_for span req = unwrap_or (wide_bucket span) (find_bucket span req buckets_ms)

-- `now` is the clock in milliseconds. Answers (from, to, bucket).
unfoldable pub resolve_range : Option ℤ → Option ℤ → Option Text → ℤ → ℕ × ℕ × ℕ
unfolding bucket_for
resolve_range from to interval now =
    let end = clamp 1 max_instant_ms (unwrap_or now to) in
    let start = clamp 0 (end - 1) (unwrap_or (pos end -ℤ pos (7 * day_ms)) from) in
    let span = max (end - start) 1 in (start, end, bucket_for span (requested interval))
