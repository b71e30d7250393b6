-- ===== src/Ratelimit/Bound.antt =====
-- How many requests a limiter lets through in a span of time.
use native.Mathlib.Nat.{mul-le-mul_right, add-mul}
use analytics.Common.{
  ℕ, ◌+◌, ◌-◌, ◌*◌, ◌≤◌, max, ◌≡◌, refl, sym, ap, ◌∙◌, subst, Bool, true, false, Bool-cases,
  Option-cases, List, [], ◌∷◌, arith, inl, inr, Text, text_eq, text_eq_iff, text_eq_refl,
  if◌then◌else◌,
}
use analytics.Ratelimit.{token, RateLimiter, new_limiter, entry, refilled, check, cleanup}

-- The tokens that a request for a key would find.
abbrev pub level : Text → ℕ → RateLimiter → ℕ
level key now r = refilled (entry key now r) now r

abbrev pub spent : Bool → ℕ
spent true = token
spent false = 0

gain : (a b c n : ℕ) → a ≤ b + c → a * n ≤ b * n + c * n
gain a b c n h = omega (arith, mul-le-mul_right n h, add-mul b c n)

-- A request takes its token from what it finds.
check-level :
    (key : Text) (now : ℕ) (r : RateLimiter)
    → spent (check key now r).0 + level key now (check key now r).1 ≡ level key now r
unfolding check
check-level key now r = ground (arith, text_eq_refl key)

-- From one instant to a later one a bucket gains at most what is refilled.
level_mono :
    (key : Text) (now later : ℕ) (r : RateLimiter)
    → now ≤ later
    → level key later r ≤ level key now r + (later - now) * r.refill_per_ns
level_mono key now later r h = elim (Option-cases (r.buckets key)) [
  | inl e ↦ ground arith
  | inr (b, e) ↦
      let g = gain (later - b.last) (now - b.last) (later - now) r.refill_per_ns (omega arith) in
      ground arith
]

-- A request of one key leaves the others alone.
check_other :
    (key other : Text) (now later : ℕ) (r : RateLimiter)
    → text_eq key other ≡ false
    → level other later (check key now r).1 ≡ level other later r
unfolding check
check_other key other now later r h = ground arith

-- A bucket that is dropped was full, and a full one stays full.
level-cleanup :
    (key : Text) (now later : ℕ) (r : RateLimiter)
    → now ≤ later
    → level key later (cleanup now r) ≡ level key later r
unfolding cleanup
level-cleanup key now later r h = elim (Option-cases (r.buckets key)) [
  | inl e ↦ ground arith
  | inr (b, e) ↦
      let g = gain (now - b.last) (later - b.last) 0 r.refill_per_ns (omega arith) in ground arith
]

level-le : (key : Text) (now : ℕ) (r : RateLimiter) → level key now r ≤ r.capacity
level-le key now r = ground arith

-- What the server does with a limiter, each at its instant.
pub data Op : Type 0 where
  request : Text → ℕ → Op
  sweep : ℕ → Op

abbrev pub at : Op → ℕ
at (request key now) = now
at (sweep now) = now

abbrev pub step : Op → RateLimiter → RateLimiter
step (request key now) r = (check key now r).1
step (sweep now) r = cleanup now r

-- Whether the operation is a request of the key that is allowed, as a number.
abbrev pub passes : Text → Op → RateLimiter → ℕ
passes key (request k now) r = if text_eq k key then (if (check k now r).0 then 1 else 0) else 0
passes key (sweep now) r = 0

abbrev pub allowed : Text → List Op → RateLimiter → ℕ
allowed key [] r = 0
allowed key (op ∷ ops) r = passes key op r + allowed key ops (step op r)

-- The clock is monotone.
abbrev pub IsOrdered : ℕ → List Op → Type 0
IsOrdered t [] = Unit
IsOrdered t (op ∷ ops) = (t ≤ at op) × IsOrdered (at op) ops

abbrev pub finish : ℕ → List Op → ℕ
finish t [] = t
finish t (op ∷ ops) = finish (at op) ops

finish-le : (t : ℕ) (ops : List Op) → IsOrdered t ops → t ≤ finish t ops
finish-le t [] o = omega arith
finish-le t (op ∷ ops) o = omega (arith, o.0, finish-le (at op) ops o.1)

-- One operation pays for what it lets through.
step-level :
    (key : Text) (op : Op) (r : RateLimiter)
    → passes key op r * token + level key (at op) (step op r) ≤ level key (at op) r
step-level key (request k now) r = elim (Bool-cases (text_eq k key)) [
  | inl same ↦
      let same_key : k ≡ key = (text_eq_iff k key).0 same in
      subst
        (λ j.
          passes j (request k now) r * token + level j now (step (request k now) r) ≤ level j now r)
        same_key (own k now r)
  | inr other ↦ let e = check_other k key now now r other in ground arith
]
  where
    own :
        (k : Text) (now : ℕ) (r : RateLimiter)
        → passes k (request k now) r * token + level k now (step (request k now) r) ≤ level k now r
    own k now r =
        let e = check-level k now r in
        elim (Bool-cases (check k now r).0) [
          | inl passed ↦ ground (arith, text_eq_refl k)
          | inr refused ↦ ground (arith, text_eq_refl k)
        ]
step-level key (sweep now) r = omega (arith, level-cleanup key now now r (omega arith))

step_rate : (op : Op) (r : RateLimiter) → (step op r).refill_per_ns ≡ r.refill_per_ns
unfolding check cleanup
step_rate (request k now) r = refl
step_rate (sweep now) r = refl

split_span : (a b c n : ℕ) → a ≤ b → b ≤ c → (b - a) * n + (c - b) * n ≡ (c - a) * n
split_span a b c n h k = sym (add-mul (b - a) (c - b) n) ∙ ap (λ (d : ℕ). d * n) (omega arith)

-- However requests of this key and of others and cleanups alternate, what is let through for the
-- key is paid for by its tokens at the start and by what is refilled until the end.
allowed-level :
    (key : Text) (t : ℕ) (ops : List Op) (r : RateLimiter)
    → IsOrdered t ops
    → allowed key ops r * token ≤ level key t r + (finish t ops - t) * r.refill_per_ns
allowed-level key t [] r o = omega arith
allowed-level key t (op ∷ ops) r o =
    let ih = allowed-level key (at op) ops (step op r) o.1 in
    let rate = step_rate op r in
    let ih' : allowed key ops (step op r) * token
        ≤ level key (at op) (step op r) + (finish (at op) ops - at op) * r.refill_per_ns =
      subst
        (λ n.
          allowed key ops (step op r) * token
          ≤ level key (at op) (step op r) + (finish (at op) ops - at op) * n)
        rate ih in
    let paid = step-level key op r in
    let gained = level_mono key t (at op) r o.0 in
    let spans =
      split_span t (at op) (finish (at op) ops) r.refill_per_ns o.0 (finish-le (at op) ops o.1) in
    omega arith

-- In any run of a limiter, in the order of a monotone clock, the requests of a key that are let
-- through are at most the burst (at least one) plus one minute's allowance (at least one) for each
-- minute that passes from the start to the end, cleanups and the requests of other keys included.
pub allowed_bound :
    (per_minute burst : ℕ) (key : Text) (t : ℕ) (ops : List Op)
    → IsOrdered t ops
    → allowed key ops (new_limiter per_minute burst) * token
      ≤ max burst 1 * token + (finish t ops - t) * max per_minute 1
unfolding new_limiter
allowed_bound per_minute burst key t ops o =
    let r = new_limiter per_minute burst in
    let bound = allowed-level key t ops r o in let full = level-le key t r in omega arith

-- The requests of the key.
abbrev pub requests : Text → List Op → ℕ
requests key [] = 0
requests key (request k now ∷ ops) = (if text_eq k key then 1 else 0) + requests key ops
requests key (sweep now ∷ ops) = requests key ops

-- A bucket loses nothing by waiting.
level_wait :
    (key : Text) (now later : ℕ) (r : RateLimiter)
    → now ≤ later
    → level key now r ≤ level key later r
level_wait key now later r h = elim (Option-cases (r.buckets key)) [
  | inl e ↦ ground arith
  | inr (b, e) ↦
      let g = gain (now - b.last) (later - b.last) 0 r.refill_per_ns (omega arith) in ground arith
]

check_passes :
    (key : Text) (now : ℕ) (r : RateLimiter) → token ≤ level key now r → (check key now r).0 ≡ true
unfolding check
check_passes key now r enough = ground arith

-- Where the tokens at the start pay for all the requests that follow, none is refused.
allowed_all :
    (key : Text) (t : ℕ) (ops : List Op) (r : RateLimiter)
    → IsOrdered t ops
    → requests key ops * token ≤ level key t r
    → allowed key ops r ≡ requests key ops
allowed_all key t [] r o h = refl
allowed_all key t (sweep now ∷ ops) r o h =
    let rest =
      allowed_all key now ops (cleanup now r) o.1
        (omega (arith, level-cleanup key now now r (omega arith), level_wait key t now r o.0)) in
    omega arith
allowed_all key t (request k now ∷ ops) r o h =
    let waited = level_wait key t now r o.0 in
    let ih = allowed_all key now ops (check k now r).1 o.1 in
    elim (Bool-cases (text_eq k key)) [
      | inl same ↦
          let same_key : k ≡ key = (text_eq_iff k key).0 same in
          let enough : token + requests key ops * token ≤ level key now r = ground arith in
          let passed : (check k now r).0 ≡ true =
            check_passes k now r
              (subst (λ j. token ≤ level j now r) (sym same_key) (omega arith)) in
          let paid : spent (check k now r).0 + level k now (check k now r).1 ≡ level k now r =
            check-level k now r in
          let left : requests key ops * token ≤ level key now (check k now r).1 =
            subst (λ j. requests key ops * token ≤ level j now (check k now r).1) same_key
              (let there : token + requests key ops * token ≤ level k now r =
                  subst (λ j. token + requests key ops * token ≤ level j now r) (sym same_key)
                    enough in
                ground arith) in
          let rest = ih left in ground arith
      | inr other ↦
          let e = check_other k key now now r other in let rest = ih (ground arith) in ground arith
    ]

-- A client that stays within its burst is never refused: in any run of a fresh limiter with at most
-- as many requests of the key as the burst (at least one), all of them are let through.
pub allowed_burst :
    (per_minute burst : ℕ) (key : Text) (t : ℕ) (ops : List Op)
    → IsOrdered t ops
    → requests key ops ≤ max burst 1
    → allowed key ops (new_limiter per_minute burst) ≡ requests key ops
unfolding new_limiter
allowed_burst per_minute burst key t ops o h =
    allowed_all key t ops (new_limiter per_minute burst) o
      (let g = mul-le-mul_right token h in ground arith)
