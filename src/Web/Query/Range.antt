-- ===== src/Web/Query/Range.antt =====
-- What `resolve_range` promises of every range and bucket.
use mathlib.Core.List.{Memᴰ}
use native.Mathlib.Nat.{div-le_of_le-mul}
use analytics.Common.{
  ℕ, ◌-◌, ◌*◌, ◌/◌, ◌≤◌, ◌<◌, max, ◌≡◌, ◌≢◌, ◌⊎◌, ap, text_eq, text_eq_iff, refl, sym, subst, ◌&&◌,
  Bool-cases, Option, none, some, Option-cases, List, [], ◌∷◌, All, All-imp, arith, inl, inr, ℤ,
  pos, negsuc, ◌-ℤ◌, Text, leb,
}
use analytics.Web.Query.{
  day_ms, buckets_ms, max_buckets, max_instant_ms, clamp, unwrap_or, find_named, requested,
  find_bucket, wide_bucket, bucket_for, resolve_range,
}

clamp_bounds :
    (low high : ℕ) (z : ℤ) → low ≤ high → (low ≤ clamp low high z) × (clamp low high z ≤ high)
clamp_bounds low high (pos n) h = (ground arith, ground arith)
clamp_bounds low high (negsuc n) h = (omega arith, h)

-- What a bucket of the ladder has passed.
find_bucket-found :
    (span req b : ℕ) (l : List (Text × ℕ))
    → find_bucket span req l ≡ some b
    → (req ≤ b) × (span / b ≤ max_buckets)
unfolding find_bucket
find_bucket-found span req b [] h = cc
find_bucket-found span req b ((n, ms) ∷ l) h =
    (ground (arith, find_bucket-found span req b l), ground (arith, find_bucket-found span req b l))

-- A rung of the ladder that would do is not finer than the one that was found.
abbrev pub IsCoarserIfFits : ℕ → ℕ → ℕ → Text × ℕ → Type 0
IsCoarserIfFits span req b rung = req ≤ rung.1 → span / rung.1 ≤ max_buckets → b ≤ rung.1

abbrev IsAtLeast : ℕ → Text × ℕ → Type 0
IsAtLeast b rung = b ≤ rung.1

abbrev Climbs : List (Text × ℕ) → Type 0
Climbs [] = Unit
Climbs (rung ∷ l) = All (IsAtLeast rung.1) l × Climbs l

find_bucket-first :
    (span req b : ℕ) (l : List (Text × ℕ))
    → Climbs l
    → find_bucket span req l ≡ some b
    → All (IsCoarserIfFits span req b) l
unfolding find_bucket
find_bucket-first span req b [] c h = tt
find_bucket-first span req b ((n, ms) ∷ l) c h =
    elim (Bool-cases (leb req ms && leb (span / ms) max_buckets)) [
      | inl fits ↦
          let found : some ms ≡ some b = rw (fits, find_bucket) at h in
          let same : ms ≡ b = cc in
          (
            λ _ _. omega (arith, same),
            All-imp (IsAtLeast ms) (IsCoarserIfFits span req b) l
                (λ rung g _ _. omega (arith, same, g)) c.0,
          )
      | inr fails ↦ (
        λ coarse few. absurd (ground arith),
        find_bucket-first span req b l c.1 (rw (fails, find_bucket) at h),
      )
    ]

buckets_ms-Climbs : Climbs buckets_ms
buckets_ms-Climbs = (
  (omega arith, (omega arith, (omega arith, (omega arith, (omega arith, (omega arith, tt)))))),
  (
    (omega arith, (omega arith, (omega arith, (omega arith, (omega arith, tt))))),
    (
      (omega arith, (omega arith, (omega arith, (omega arith, tt)))),
      (
        (omega arith, (omega arith, (omega arith, tt))),
        ((omega arith, (omega arith, tt)), ((omega arith, tt), (tt, tt))),
      ),
    ),
  ),
)

wide_bucket_few : (span : ℕ) → span / wide_bucket span ≤ max_buckets
wide_bucket_few span = div-le_of_le-mul (wide_bucket span) (omega arith)

abbrev pub BucketPost : ℕ → ℕ → ℕ → Type 0
BucketPost span req b =
    (req ≤ b) × (span / b ≤ max_buckets) × All (IsCoarserIfFits span req b) buckets_ms

requested-le : (interval : Option Text) → requested interval ≤ 7 * day_ms
unfolding find_named
requested-le none = omega arith
requested-le (some name) = ground arith

none_fits :
    (span req b : ℕ) (l : List (Text × ℕ))
    → find_bucket span req l ≡ none
    → All (IsCoarserIfFits span req b) l
unfolding find_bucket
none_fits span req b [] h = tt
none_fits span req b ((n, ms) ∷ l) h =
    elim (Bool-cases (leb req ms && leb (span / ms) max_buckets)) [
      | inl fits ↦ absurd (ground arith)
      | inr fails ↦ (λ coarse few. absurd (ground arith), none_fits span req b l (ground arith))
    ]

bucket_for-BucketPost :
    (span req : ℕ) → req ≤ 7 * day_ms → BucketPost span req (bucket_for span req)
unfolding bucket_for
bucket_for-BucketPost span req h = elim (Option-cases (find_bucket span req buckets_ms)) [
  | inl missing ↦
      subst (λ o. BucketPost span req (unwrap_or (wide_bucket span) o)) (sym missing)
        (
          omega arith,
          wide_bucket_few span,
          none_fits span req (wide_bucket span) buckets_ms missing,
        )
  | inr (b, found) ↦
      let (coarse, few) = find_bucket-found span req b buckets_ms found in
      subst (λ o. BucketPost span req (unwrap_or (wide_bucket span) o)) (sym found)
        (coarse, few, find_bucket-first span req b buckets_ms buckets_ms-Climbs found)
]

-- The bucket that a client asks for: that of the name, or a day without a name or with one that the
-- ladder has not.
abbrev pub AskedFor : Option Text → ℕ → Type 0
AskedFor none ms = ms ≡ day_ms
AskedFor (some name) ms =
    Memᴰ (name, ms) buckets_ms ⊎ (All (λ (b : Text × ℕ). b.0 ≢ name) buckets_ms × (ms ≡ day_ms))

find_named-AskedFor :
    (name : Text) (l : List (Text × ℕ))
    → Memᴰ (name, unwrap_or day_ms (find_named name l)) l
      ⊎ (All (λ (b : Text × ℕ). b.0 ≢ name) l × (unwrap_or day_ms (find_named name l) ≡ day_ms))
unfolding find_named
find_named-AskedFor name [] = inr (tt, refl)
find_named-AskedFor name ((n, ms) ∷ l) = elim (Bool-cases (text_eq n name)) [
  | inl same ↦ rw same (inl (Memᴰ.head (ap (λ x. (x, ms)) (sym ((text_eq_iff n name).0 same)))))
  | inr other ↦
      rw other (later (λ e. ground (arith, (text_eq_iff n name).1 e)) (find_named-AskedFor name l))
]
  where
    later :
        {d : ℕ}
        → n ≢ name
        → Memᴰ (name, d) l ⊎ (All (λ (b : Text × ℕ). b.0 ≢ name) l × (d ≡ day_ms))
        → Memᴰ (name, d) ((n, ms) ∷ l)
          ⊎ (All (λ (b : Text × ℕ). b.0 ≢ name) ((n, ms) ∷ l) × (d ≡ day_ms))
    later other (inl m) = inl (Memᴰ.tail m)
    later other (inr (absent, e)) = inr ((other, absent), e)

requested-AskedFor : (interval : Option Text) → AskedFor interval (requested interval)
requested-AskedFor none = refl
requested-AskedFor (some name) = find_named-AskedFor name buckets_ms

abbrev pub RangePost : Option Text → ℕ × ℕ × ℕ → Type 0
RangePost interval (from, to, bucket) =
    (from < to)
    × (to ≤ max_instant_ms)
    × AskedFor interval (requested interval)
    × BucketPost (to - from) (requested interval) bucket

-- Whatever a client sends and whatever the clock says, the range is not empty and ends by 2100, the
-- series has at most 2000 whole buckets, each at least as long as the one that was asked for (the
-- rung of the name, or a day without a name or with an unknown one), and no rung of the ladder that
-- would do as well is finer.
pub resolve_range-RangePost :
    (from to : Option ℤ) (interval : Option Text) (now : ℤ)
    → RangePost interval (resolve_range from to interval now)
unfolding resolve_range
resolve_range-RangePost from to interval now =
    let end = clamp 1 max_instant_ms (unwrap_or now to) in
    let start = clamp 0 (end - 1) (unwrap_or (pos end -ℤ pos (7 * day_ms)) from) in
    let high : (1 ≤ end) × (end ≤ max_instant_ms) =
      clamp_bounds 1 max_instant_ms (unwrap_or now to) (omega arith) in
    let low : (0 ≤ start) × (start ≤ end - 1) =
      clamp_bounds 0 (end - 1) (unwrap_or (pos end -ℤ pos (7 * day_ms)) from) (omega arith) in
    let span : max (end - start) 1 ≡ end - start = omega arith in
    (
      omega arith,
      high.1,
      requested-AskedFor interval,
      subst
          (λ s.
            BucketPost s (requested interval)
              (bucket_for (max (end - start) 1) (requested interval)))
          span
          (bucket_for-BucketPost (max (end - start) 1) (requested interval)
            (requested-le interval)),
    )

-- A range inside the bounds is taken as it is.
pub resolve_range_exact :
    (a b : ℕ) (interval : Option Text) (now : ℤ)
    → a < b
    → b ≤ max_instant_ms
    → resolve_range (some (pos a)) (some (pos b)) interval now
      ≡ (a, b, bucket_for (b - a) (requested interval))
unfolding resolve_range
resolve_range_exact a b interval now h k =
    let end : clamp 1 max_instant_ms (pos b) ≡ b = ground arith in
    let start : clamp 0 (b - 1) (pos a) ≡ a = ground arith in
    let span : max (b - a) 1 ≡ b - a = omega arith in rw (end) (rw (start) (rw (span) refl))
