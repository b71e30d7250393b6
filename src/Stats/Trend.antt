-- ===== src/Stats/Trend.antt =====
-- What the buckets of a trend count.
use mathlib.Core.Path.{fun_ext}
use native.Mathlib.Nat.{le-div_iff_mul-le, div-lt_iff_lt-mul, zero-div}
use analytics.Common.{
  ◌*◌, ◌/◌, pos_part, ltb, leb, max, min, ◌≤◌, ◌&&◌, ◌||◌, ◌↔◌, ℕ, zero, suc, ◌+◌, ◌<◌, ℤ, pos,
  negsuc, ◌-ℤ◌, List, [], ◌∷◌, wrap_i64, length, Bool, true, false, ◌==◌, if◌then◌else◌, ◌≡◌, sym,
  refl, ap, ◌∙◌, arith,
}
use analytics.Stats.{trend_buckets, zeros, span_of, bucket_of, bump, count_into, trend_of}

abbrev nth : ℕ → List ℕ → ℕ
nth k [] = 0
nth zero (b ∷ bs) = b
nth (suc k) (b ∷ bs) = nth k bs

-- How many of the times meet a test.
abbrev count_if : (ℤ → Bool) → List ℤ → ℕ
count_if p [] = 0
count_if p (t ∷ ts) = let rest = count_if p ts in if p t then suc rest else rest

abbrev total : List ℕ → ℕ
total [] = 0
total (b ∷ bs) = b + total bs

length-bump : (i : ℕ) (bs : List ℕ) → length (bump i bs) ≡ length bs
unfolding bump
length-bump i [] = refl
length-bump zero (b ∷ bs) = refl
length-bump (suc i) (b ∷ bs) = ap suc (length-bump i bs)

total-bump : (i : ℕ) (bs : List ℕ) → i < length bs → total (bump i bs) ≡ suc (total bs)
unfolding bump
total-bump i [] h = absurd (omega arith)
total-bump zero (b ∷ bs) h = omega arith
total-bump (suc i) (b ∷ bs) h = omega (arith, total-bump i bs (omega arith))

nth-bump :
    (i k : ℕ) (bs : List ℕ)
    → i < length bs
    → nth k (bump i bs) ≡ (if i == k then suc (nth k bs) else nth k bs)
unfolding bump
nth-bump i k [] h = absurd (omega arith)
nth-bump zero zero (b ∷ bs) h = omega arith
nth-bump zero (suc k) (b ∷ bs) h = ground arith
nth-bump (suc i) zero (b ∷ bs) h = ground arith
nth-bump (suc i) (suc k) (b ∷ bs) h = ground (arith, nth-bump i k bs (omega arith))

module _ (bucket : ℤ → ℕ) (n : ℕ) (inside : (t : ℤ) → bucket t < n) where
  length-count_into : (ts : List ℤ) (bs : List ℕ) → length (count_into bucket ts bs) ≡ length bs
  unfolding count_into
  length-count_into [] bs = refl
  length-count_into (t ∷ ts) bs =
      length-count_into ts (bump (bucket t) bs) ∙ length-bump (bucket t) bs

  total-count_into :
      (ts : List ℤ) (bs : List ℕ)
      → length bs ≡ n
      → total (count_into bucket ts bs) ≡ length ts + total bs
  unfolding count_into
  total-count_into [] bs h = omega arith
  total-count_into (t ∷ ts) bs h = omega (
    arith,
    total-count_into ts (bump (bucket t) bs) (length-bump (bucket t) bs ∙ h),
    total-bump (bucket t) bs (omega (arith, inside t)),
  )

  nth-count_into :
      (k : ℕ) (ts : List ℤ) (bs : List ℕ)
      → length bs ≡ n
      → nth k (count_into bucket ts bs) ≡ count_if (λ t. bucket t == k) ts + nth k bs
  unfolding count_into
  nth-count_into k [] bs h = omega arith
  nth-count_into k (t ∷ ts) bs h =
      nth-count_into k ts (bump (bucket t) bs) (length-bump (bucket t) bs ∙ h)
      ∙ step (bucket t == k) (nth k bs) (count_if (λ t. bucket t == k) ts)
          (nth k (bump (bucket t) bs)) (nth-bump (bucket t) k bs (omega (arith, inside t)))
    where
      step :
          (b : Bool) (x r y : ℕ)
          → y ≡ (if b then suc x else x)
          → r + y ≡ (if b then suc r else r) + x
      step true x r y e = omega arith
      step false x r y e = omega arith

bucket_of-inside : (span : ℕ) (d : ℤ) → bucket_of span d < trend_buckets
unfolding bucket_of
bucket_of-inside span (pos d) = omega arith
bucket_of-inside span (negsuc d) = omega arith

length-zeros : (n : ℕ) → length (zeros n) ≡ n
length-zeros zero = refl
length-zeros (suc n) = ap suc (length-zeros n)

total-zeros : (n : ℕ) → total (zeros n) ≡ 0
total-zeros zero = refl
total-zeros (suc n) = omega (arith, total-zeros n)

nth-zeros : (k n : ℕ) → nth k (zeros n) ≡ 0
nth-zeros k zero = refl
nth-zeros zero (suc n) = refl
nth-zeros (suc k) (suc n) = nth-zeros k n

-- Whether an offset lies in slice k of twenty equal slices of a width: not before the edge
-- k * width / 20 where the slice is not the first, which has also what comes before, and before the
-- edge (k + 1) * width / 20 where it is not the last, which has also what comes after. Edges are
-- compared without division, and a width that is not positive counts as 1.
abbrev pub in_slice : ℤ → ℕ → ℤ → Bool
in_slice width k offset =
    let w = max (pos_part width) 1 in
    let d = pos_part offset in
    ltb k 20 && ((k == 0) || leb (k * w) (d * 20)) && ((k == 19) || ltb (d * 20) (suc k * w))

edges-slice :
    (q a k x y : ℕ)
    → (k ≤ q) ↔ (x ≤ a)
    → (q < suc k) ↔ (a < y)
    → (min q 19 == k) ≡ (ltb k 20 && ((k == 0) || leb x a) && ((k == 19) || ltb a y))
edges-slice q a k x y lower upper = ground arith

bucket_of-in_slice :
    (width offset : ℤ) (k : ℕ) → (bucket_of (span_of width) offset == k) ≡ in_slice width k offset
unfolding bucket_of
bucket_of-in_slice (pos w) (pos d) k =
    edges-slice (d * 20 / max w 1) (d * 20) k _ _ (le-div_iff_mul-le (omega arith))
      (div-lt_iff_lt-mul (omega arith))
bucket_of-in_slice (negsuc w) (pos d) k =
    edges-slice (d * 20 / 1) (d * 20) k _ _ (le-div_iff_mul-le (omega arith))
      (div-lt_iff_lt-mul (omega arith))
bucket_of-in_slice width (negsuc d) k =
    ap (λ q. min q 19 == k) (sym (zero-div (max (pos_part width) 1)))
    ∙ edges-slice (0 / max (pos_part width) 1) 0 k _ _ (le-div_iff_mul-le (omega arith))
        (div-lt_iff_lt-mul (omega arith))

-- A trend has twenty buckets, counts each time once, and counts in each bucket the times that lie
-- in that slice of the range. Both differences are those of i64.
pub record TrendPost (times : List ℤ) (from to : ℤ) : Type 0 where
  buckets : length (trend_of times from to) ≡ 20
  everything : total (trend_of times from to) ≡ length times
  each :
      (k : ℕ)
      → nth k (trend_of times from to)
        ≡ count_if (λ t. in_slice (wrap_i64 (to -ℤ from)) k (wrap_i64 (t -ℤ from))) times

-- The trend of any times over any range has twenty buckets and its counts add up to the number of
-- the times. The count of bucket k is how many of the times lie from the edge k / 20 of the range on
-- and before the edge (k + 1) / 20, where the first bucket has also the times before the range and
-- the last one those after it; the differences of times wrap around as i64, and a range that is
-- empty or reversed counts as one millisecond wide.
pub trend_of-TrendPost : (times : List ℤ) (from to : ℤ) → TrendPost times from to
unfolding trend_of
trend_of-TrendPost times from to = record {
  buckets = length-count_into slot trend_buckets inside times none_yet ∙ length-zeros trend_buckets;
  everything = omega (
    arith,
    total-count_into slot trend_buckets inside times none_yet (length-zeros trend_buckets),
    total-zeros trend_buckets,
  );
  each = λ k. omega (
    arith,
    nth-count_into slot trend_buckets inside k times none_yet (length-zeros trend_buckets),
    nth-zeros k trend_buckets,
    ap (λ p. count_if p times)
        (fun_ext λ t. bucket_of-in_slice (wrap_i64 (to -ℤ from)) (wrap_i64 (t -ℤ from)) k),
  );
}
  where
    none_yet : List ℕ
    none_yet = zeros trend_buckets

    slot : ℤ → ℕ
    slot t = bucket_of (span_of (wrap_i64 (to -ℤ from))) (wrap_i64 (t -ℤ from))

    inside : (t : ℤ) → slot t < trend_buckets
    inside t = bucket_of-inside (span_of (wrap_i64 (to -ℤ from))) (wrap_i64 (t -ℤ from))
