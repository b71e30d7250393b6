-- ===== src/Store/Keys/Order.antt =====
-- The order and the round trips of the keys of store/tables.rs.
use native.Mathlib.Nat.{pow-suc}
use analytics.Common.{
  ℕ, zero, suc, ◌+◌, ◌*◌, ◌/◌, ◌%◌, ◌^◌, ◌<◌, ◌≡◌, refl, sym, ap, ◌∙◌, ◌≢◌, [], ◌∷◌, ◌++◌, ℤ,
  pos_part, ◌&&◌, ◌||◌, arith, All, length, length-append, take, ltb, ◌==◌, text_eq, text_eq_refl,
  Text,
}
use analytics.Platform.{Bytes, lex_lt}
use analytics.Store.Keys.{
  be_bytes, of_be_from, event_key, u64_from_be, u32_from_be, triage_key, unit_separator,
}

-- On two prefixes of one length the order is decided by them, or else by what follows.
pub lex_lt-append :
    (xs ys p q : Bytes)
    → length xs ≡ length ys
    → lex_lt (xs ++ p) (ys ++ q) ≡ (lex_lt xs ys || (text_eq xs ys && lex_lt p q))
unfolding lex_lt text_eq
lex_lt-append [] [] p q h = ground arith
lex_lt-append [] (y ∷ ys) p q h = absurd (omega arith)
lex_lt-append (x ∷ xs) [] p q h = absurd (omega arith)
lex_lt-append (x ∷ xs) (y ∷ ys) p q h = ground (arith, lex_lt-append xs ys p q (omega arith))

pub text_eq-append :
    (xs ys p q : Bytes)
    → length xs ≡ length ys
    → text_eq (xs ++ p) (ys ++ q) ≡ (text_eq xs ys && text_eq p q)
unfolding text_eq
text_eq-append [] [] p q h = ground arith
text_eq-append [] (y ∷ ys) p q h = absurd (omega arith)
text_eq-append (x ∷ xs) [] p q h = absurd (omega arith)
text_eq-append (x ∷ xs) (y ∷ ys) p q h = ground (arith, text_eq-append xs ys p q (omega arith))

pub length-be_bytes : (k n : ℕ) → length (be_bytes k n) ≡ k
unfolding be_bytes
length-be_bytes zero n = refl
length-be_bytes (suc k) n =
    omega
      (arith, length-append (be_bytes k (n / 256)) ((n % 256) ∷ []), length-be_bytes k (n / 256))

same_length : (k a b : ℕ) → length (be_bytes k a) ≡ length (be_bytes k b)
same_length k a b = length-be_bytes k a ∙ sym (length-be_bytes k b)

-- The bound of the higher bytes.
div_bound : (k a : ℕ) → a < 256 ^ suc k → a / 256 < 256 ^ k
div_bound k a h = omega (arith, pow-suc 256 k)

text_eq-singleton : (a b : ℕ) → text_eq (a ∷ []) (b ∷ []) ≡ (a == b)
unfolding text_eq
text_eq-singleton a b = ground arith

lex_lt-singleton : (a b : ℕ) → lex_lt (a ∷ []) (b ∷ []) ≡ ltb a b
unfolding lex_lt
lex_lt-singleton a b = ground arith

text_eq-be_bytes :
    (k a b : ℕ) → a < 256 ^ k → b < 256 ^ k → text_eq (be_bytes k a) (be_bytes k b) ≡ (a == b)
unfolding be_bytes
text_eq-be_bytes zero a b h g = ground (arith, text_eq_refl [])
text_eq-be_bytes (suc k) a b h g =
    let ih = text_eq-be_bytes k (a / 256) (b / 256) (div_bound k a h) (div_bound k b g) in
    ground (
      arith,
      ih,
      text_eq-append (be_bytes k (a / 256)) (be_bytes k (b / 256)) ((a % 256) ∷ []) ((b % 256) ∷ [])
          (same_length k (a / 256) (b / 256)),
      text_eq-singleton (a % 256) (b % 256),
    )

lex_lt-be_bytes :
    (k a b : ℕ) → a < 256 ^ k → b < 256 ^ k → lex_lt (be_bytes k a) (be_bytes k b) ≡ ltb a b
unfolding be_bytes lex_lt
lex_lt-be_bytes zero a b h g = ground arith
lex_lt-be_bytes (suc k) a b h g =
    let ih = lex_lt-be_bytes k (a / 256) (b / 256) (div_bound k a h) (div_bound k b g) in
    ground (
      arith,
      ih,
      lex_lt-append (be_bytes k (a / 256)) (be_bytes k (b / 256)) ((a % 256) ∷ []) ((b % 256) ∷ [])
          (same_length k (a / 256) (b / 256)),
      text_eq-be_bytes k (a / 256) (b / 256) (div_bound k a h) (div_bound k b g),
      lex_lt-singleton (a % 256) (b % 256),
    )

lex_lt-key :
    (k a b s t : ℕ)
    → a < 256 ^ k
    → b < 256 ^ k
    → s < 256 ^ k
    → t < 256 ^ k
    → lex_lt (be_bytes k a ++ be_bytes k s) (be_bytes k b ++ be_bytes k t)
      ≡ (ltb a b || (a == b && ltb s t))
lex_lt-key k a b s t ha hb hs ht = rw (
  lex_lt-append (be_bytes k a) (be_bytes k b) (be_bytes k s) (be_bytes k t) (same_length k a b),
  lex_lt-be_bytes k a b ha hb,
  text_eq-be_bytes k a b ha hb,
  lex_lt-be_bytes k s t hs ht,
)

text_eq-key :
    (k a b s t : ℕ)
    → a < 256 ^ k
    → b < 256 ^ k
    → s < 256 ^ k
    → t < 256 ^ k
    → text_eq (be_bytes k a ++ be_bytes k s) (be_bytes k b ++ be_bytes k t) ≡ (a == b && s == t)
text_eq-key k a b s t ha hb hs ht = rw (
  text_eq-append (be_bytes k a) (be_bytes k b) (be_bytes k s) (be_bytes k t) (same_length k a b),
  text_eq-be_bytes k a b ha hb,
  text_eq-be_bytes k s t hs ht,
)

-- A scan by key goes through the events by receive time, then by sequence number: for times and
-- numbers of 64 bits the byte order of two keys is the lexicographic order of (time, number), where
-- a negative time counts as 0.
pub lex_lt-event_key :
    (m n : ℤ) (s t : ℕ)
    → pos_part m < 2 ^ 64
    → pos_part n < 2 ^ 64
    → s < 2 ^ 64
    → t < 2 ^ 64
    → lex_lt (event_key m s) (event_key n t)
      ≡ (ltb (pos_part m) (pos_part n) || (pos_part m == pos_part n && ltb s t))
unfolding event_key
lex_lt-event_key m n s t hm hn hs ht = lex_lt-key 8 (pos_part m) (pos_part n) s t hm hn hs ht

pub text_eq-event_key :
    (m n : ℤ) (s t : ℕ)
    → pos_part m < 2 ^ 64
    → pos_part n < 2 ^ 64
    → s < 2 ^ 64
    → t < 2 ^ 64
    → text_eq (event_key m s) (event_key n t) ≡ (pos_part m == pos_part n && s == t)
unfolding event_key
text_eq-event_key m n s t hm hn hs ht = text_eq-key 8 (pos_part m) (pos_part n) s t hm hn hs ht

of_be_from-append :
    (acc b : ℕ) (bs : Bytes) → of_be_from acc (bs ++ b ∷ []) ≡ of_be_from acc bs * 256 + b
unfolding of_be_from
of_be_from-append acc b [] = refl
of_be_from-append acc b (c ∷ bs) = of_be_from-append (acc * 256 + c) b bs

of_be_from-be_bytes : (k n : ℕ) → n < 256 ^ k → of_be_from 0 (be_bytes k n) ≡ n
unfolding be_bytes
of_be_from-be_bytes zero n h = unfold of_be_from in omega arith
of_be_from-be_bytes (suc k) n h = omega (
  arith,
  of_be_from-append 0 (n % 256) (be_bytes k (n / 256)),
  of_be_from-be_bytes k (n / 256) (div_bound k n h),
)

take_prefix : (k : ℕ) (xs ys : Bytes) → length xs ≡ k → take k (xs ++ ys) ≡ xs
take_prefix zero [] ys h = refl
take_prefix zero (x ∷ xs) ys h = absurd (omega arith)
take_prefix (suc k) [] ys h = absurd (omega arith)
take_prefix (suc k) (x ∷ xs) ys h = ap (λ t. x ∷ t) (take_prefix k xs ys (omega arith))

-- Reading the first eight bytes gives back the number that was written there.
pub u64_from_be-be_bytes :
    (n : ℕ) (rest : Bytes) → n < 2 ^ 64 → u64_from_be (be_bytes 8 n ++ rest) ≡ n
u64_from_be-be_bytes n rest h =
    unfold u64_from_be in
    rw (take_prefix 8 (be_bytes 8 n) rest (length-be_bytes 8 n)) (of_be_from-be_bytes 8 n h)

take_all : (k : ℕ) (xs : Bytes) → length xs ≡ k → take k xs ≡ xs
take_all zero [] h = refl
take_all zero (x ∷ xs) h = absurd (omega arith)
take_all (suc k) [] h = absurd (omega arith)
take_all (suc k) (x ∷ xs) h = ap (λ t. x ∷ t) (take_all k xs (omega arith))

pub u32_from_be-be_bytes : (n : ℕ) → n < 2 ^ 32 → u32_from_be (be_bytes 4 n) ≡ n
u32_from_be-be_bytes n h =
    unfold u32_from_be in
    rw (take_all 4 (be_bytes 4 n) (length-be_bytes 4 n)) (of_be_from-be_bytes 4 n h)

-- The time that `events_before_with_keys` reads from a key is the time of the event.
pub u64_from_be-event_key :
    (m : ℤ) (s : ℕ) → pos_part m < 2 ^ 64 → u64_from_be (event_key m s) ≡ pos_part m
unfolding event_key
u64_from_be-event_key m s h = u64_from_be-be_bytes (pos_part m) (be_bytes 8 s) h

-- The separator occurs in no project id, so two keys of the triage table are equal only if the
-- project and the group are.
pub triage_key_injective :
    (p q g h : Text)
    → All (λ c. c ≢ unit_separator) p
    → All (λ c. c ≢ unit_separator) q
    → triage_key p g ≡ triage_key q h
    → (p ≡ q) × (g ≡ h)
unfolding triage_key
triage_key_injective [] [] g h hp hq e = ground arith
triage_key_injective [] (d ∷ q) g h hp hq e = ground arith
triage_key_injective (c ∷ p) [] g h hp hq e = ground arith
triage_key_injective (c ∷ p) (d ∷ q) g h hp hq e =
    ground (arith, triage_key_injective p q g h hp.1 hq.1)
