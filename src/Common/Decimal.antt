-- ===== src/Common/Decimal.antt =====
-- Rust's `to_string` and `parse` of an i64, and the wrap-around of its arithmetic.
use Prim.Native.Nat.{ℕ, zero, suc, ◌+◌, ◌-◌, ◌*◌, ◌/◌, ◌%◌, ◌^◌, ◌<◌}
use mathlib.Core.Path.{◌≡◌, refl, sym, ap, ◌∙◌, subst}
use mathlib.Core.Bool.{Bool, true, false}
use mathlib.Core.Option.{Option, none, some}
use mathlib.Core.List.{[], ◌∷◌, ◌++◌}
use native.Mathlib.Omega.{arith}
use analytics.Common.Tests.{ltb, ◌==◌, if◌then◌else◌}
use analytics.Common.Int.{ℤ, pos, negsuc}
use analytics.Common.Str.{Text, is_ascii_digit}

-- The value of an i64 is below 2^63 in size.
abbrev pub IsI64 : ℤ → Type 0
IsI64 (pos n) = n < 2 ^ 63
IsI64 (negsuc n) = n < 2 ^ 63

unfoldable pub wrap_i64 : ℤ → ℤ
wrap_i64 (pos n) = let m = n % 2 ^ 64 in if ltb m (2 ^ 63) then pos m else negsuc (2 ^ 64 - 1 - m)
wrap_i64 (negsuc n) =
    let m = n % 2 ^ 64 in if ltb m (2 ^ 63) then negsuc m else pos (2 ^ 64 - 1 - m)

-- The digits of a number, for as many rounds as it may have digits.
unfoldable pub digits : ℕ → ℕ → Text
digits zero n = []
digits (suc fuel) n =
    let front = digits fuel (n / 10) in (if ltb n 10 then [] else front) ++ (b'0' + n % 10) ∷ []

unfoldable pub to_string : ℤ → Text
unfolding digits
to_string (pos n) = digits 20 n
to_string (negsuc n) = b'-' ∷ digits 20 (suc n)

unfoldable pub read_digits : ℕ → Text → Option ℕ
read_digits acc [] = some acc
read_digits acc (c ∷ s) =
    let rest = read_digits (acc * 10 + (c - b'0')) s in if is_ascii_digit c then rest else none

abbrev pub read_nat : Text → Option ℕ
read_nat [] = none
read_nat (c ∷ s) = read_digits 0 (c ∷ s)

abbrev pub positive : Option ℕ → Option ℤ
positive none = none
positive (some n) = if ltb n (2 ^ 63) then some (pos n) else none

abbrev pub negative : Option ℕ → Option ℤ
negative none = none
negative (some zero) = some (pos 0)
negative (some (suc n)) = if ltb n (2 ^ 63) then some (negsuc n) else none

unfoldable pub parse_i64 : Text → Option ℤ
unfolding read_digits
parse_i64 [] = none
parse_i64 (c ∷ s) =
    if c == b'-'
    then negative (read_nat s)
    else if c == b'+'
    then positive (read_nat s)
    else positive (read_nat (c ∷ s))

abbrev then_read : Option ℕ → Text → Option ℕ
then_read none t = none
then_read (some m) t = read_digits m t

read_digits-append :
    (acc : ℕ) (s t : Text) → read_digits acc (s ++ t) ≡ then_read (read_digits acc s) t
unfolding read_digits
read_digits-append acc [] t = refl
read_digits-append acc (c ∷ s) t =
    go (is_ascii_digit c) (read_digits-append (acc * 10 + (c - b'0')) s t)
  where
    go :
        (b : Bool)
        → read_digits (acc * 10 + (c - b'0')) (s ++ t)
          ≡ then_read (read_digits (acc * 10 + (c - b'0')) s) t
        → (if b then read_digits (acc * 10 + (c - b'0')) (s ++ t) else none)
          ≡ then_read (if b then read_digits (acc * 10 + (c - b'0')) s else none) t
    go true ih = ih
    go false ih = refl

read_one : (m d : ℕ) → d < 10 → read_digits m ((b'0' + d) ∷ []) ≡ some (m * 10 + d)
unfolding read_digits
read_one m d h = ground arith

last_digit :
    (n : ℕ) (o : Option ℕ) → o ≡ some (n / 10) → then_read o ((b'0' + n % 10) ∷ []) ≡ some n
last_digit n o h =
    subst (λ x. then_read x ((b'0' + n % 10) ∷ []) ≡ some n) (sym h)
      (read_one (n / 10) (n % 10) (omega arith) ∙ ap some (omega arith))

read_digits-digits : (fuel n : ℕ) → n < 10 ^ fuel → read_digits 0 (digits fuel n) ≡ some n
unfolding digits read_digits
read_digits-digits zero n h = ap some (omega arith)
read_digits-digits (suc fuel) n h =
    go (ltb n 10) refl (λ k. read_digits-digits fuel (n / 10) (omega arith))
  where
    go :
        (b : Bool)
        → ltb n 10 ≡ b
        → (ltb n 10 ≡ false → read_digits 0 (digits fuel (n / 10)) ≡ some (n / 10))
        → read_digits 0 ((if b then [] else digits fuel (n / 10)) ++ (b'0' + n % 10) ∷ []) ≡ some n
    go true e ih = read_one 0 (n % 10) (omega arith) ∙ ap some (ground arith)
    go false e ih =
        read_digits-append 0 (digits fuel (n / 10)) _
        ∙ last_digit n (read_digits 0 (digits fuel (n / 10))) (ih e)

-- A text that begins with a digit.
abbrev StartsDigit : Text → Type 0
StartsDigit [] = ⊥
StartsDigit (c ∷ _) = is_ascii_digit c ≡ true

StartsDigit-append : (s t : Text) → StartsDigit s → StartsDigit (s ++ t)
StartsDigit-append [] t h = absurd h
StartsDigit-append (c ∷ s) t h = h

digit_code : (n : ℕ) → is_ascii_digit (b'0' + n % 10) ≡ true
digit_code n = ground arith

StartsDigit-step :
    (b : Bool) (n : ℕ) (front : Text)
    → (b ≡ false → StartsDigit front)
    → StartsDigit ((if b then [] else front) ++ (b'0' + n % 10) ∷ [])
StartsDigit-step true n front h = digit_code n
StartsDigit-step false n front h = StartsDigit-append front _ (h refl)

digits-StartsDigit : (fuel n : ℕ) → n < 10 ^ suc fuel → StartsDigit (digits (suc fuel) n)
unfolding digits
digits-StartsDigit zero n h = StartsDigit-step (ltb n 10) n [] λ e. absurd (ground arith)
digits-StartsDigit (suc fuel) n h =
    StartsDigit-step (ltb n 10) n _ λ e. digits-StartsDigit fuel (n / 10) (omega arith)

parse_negative :
    (n : ℕ) (s : Text)
    → n < 2 ^ 63
    → StartsDigit s
    → read_digits 0 s ≡ some (suc n)
    → parse_i64 (b'-' ∷ s) ≡ some (negsuc n)
unfolding parse_i64
parse_negative n [] h d r = absurd d
parse_negative n (c ∷ s) h d r = rw r (ground arith)

parse_positive :
    (n : ℕ) (s : Text)
    → n < 2 ^ 63
    → StartsDigit s
    → read_digits 0 s ≡ some n
    → parse_i64 s ≡ some (pos n)
unfolding parse_i64
parse_positive n [] h d r = absurd d
parse_positive n (c ∷ s) h d r = rw r (ground arith)

-- An i64 reads back from its decimal form.
pub parse_i64-to_string : (z : ℤ) → IsI64 z → parse_i64 (to_string z) ≡ some z
unfolding to_string
parse_i64-to_string (pos n) h =
    parse_positive n (digits 20 n) h (digits-StartsDigit 19 n (omega arith))
      (read_digits-digits 20 n (omega arith))
parse_i64-to_string (negsuc n) h =
    parse_negative n (digits 20 (suc n)) h (digits-StartsDigit 19 (suc n) (omega arith))
      (read_digits-digits 20 (suc n) (omega arith))
