-- ===== src/Ingest/Fields/Bounds.antt =====
-- The size of a text field.
use analytics.Common.{
  ℕ, ◌+◌, ◌-◌, ◌≤◌, ◌<◌, ◌≡◌, refl, sym, ap, subst, ◌⊎◌, inl, inr, Bool, Bool-cases, [], ◌∷◌, ◌++◌,
  arith, Text, leb, utf8_width, utf8_len, if◌then◌else◌,
}
use analytics.Ingest.Fields.{ellipsis, prefix_of, truncate}

utf8_len-append : (s t : Text) → utf8_len (s ++ t) ≡ utf8_len s + utf8_len t
utf8_len-append [] t = omega arith
utf8_len-append (c ∷ s) t = omega (arith, utf8_len-append s t)

prefix_of-le : (room : ℕ) (s : Text) → utf8_len (prefix_of room s) ≤ room
unfolding prefix_of
prefix_of-le room [] = omega arith
prefix_of-le room (c ∷ s) = ground (arith, prefix_of-le (room - utf8_width c) s)

-- A prefix of the value in at most so many bytes, which the next code point would exceed.
pub record Cut (value : Text) (max : ℕ) (kept : Text) : Type 0 where
  pub next : ℕ
  pub rest : Text
  pub whole : value ≡ kept ++ (next ∷ rest)
  pub fits : utf8_len kept ≤ max
  pub tight : max < utf8_len kept + utf8_width next

prefix_of-Cut : (room : ℕ) (s : Text) → room < utf8_len s → Cut s room (prefix_of room s)
unfolding prefix_of
prefix_of-Cut room [] h = absurd (omega arith)
prefix_of-Cut room (c ∷ s) h = elim (Bool-cases (leb (utf8_width c) room)) [
  | inl fits ↦
      let ih = prefix_of-Cut (room - utf8_width c) s (ground arith) in
      let narrow : utf8_width c ≤ room = ground arith in
      subst (Cut (c ∷ s) room)
        (ap (λ (b : Bool). if b then c ∷ prefix_of (room - utf8_width c) s else []) (sym fits))
        (record {
          next = ih.next;
          rest = ih.rest;
          whole = ap (λ (t : Text). c ∷ t) ih.whole;
          fits = omega (arith, ih.fits, narrow);
          tight = omega (arith, ih.tight, narrow);
        })
  | inr wide ↦
      let broad : room < utf8_width c = ground arith in
      subst (Cut (c ∷ s) room)
        (ap (λ (b : Bool). if b then c ∷ prefix_of (room - utf8_width c) s else []) (sym wide))
        (record {
          next = c;
          rest = s;
          whole = refl;
          fits = omega arith;
          tight = omega (arith, broad);
        })
]

abbrev pub TruncatePost : Text → ℕ → Text → Type 0
TruncatePost value max out =
    ((utf8_len value ≤ max) × (out ≡ value))
    ⊎ ((max < utf8_len value)
        × (kept : Text) × Cut value max kept
        × (out ≡ kept ++ (ellipsis ∷ [])))

-- A value of at most `max` bytes is kept; of a longer one the longest prefix of whole code points
-- in `max` bytes is kept, with the ellipsis behind it.
pub truncate-TruncatePost : (value : Text) (max : ℕ) → TruncatePost value max (truncate value max)
unfolding truncate
truncate-TruncatePost value max = elim (Bool-cases (leb (utf8_len value) max)) [
  | inl short ↦ inl (ground arith, ground arith)
  | inr long ↦
      let more : max < utf8_len value = ground arith in
      inr (more, prefix_of max value, prefix_of-Cut max value more, rw (long) refl)
]

-- So a stored field takes at most three bytes more than its cap.
pub truncate-le : (value : Text) (max : ℕ) → utf8_len (truncate value max) ≤ max + 3
truncate-le value max = elim (truncate-TruncatePost value max) [
  | inl (short, same) ↦ rw (same) (omega arith)
  | inr (long, kept, cut, same) ↦
      rw (same) (omega (arith, utf8_len-append kept (ellipsis ∷ []), cut.fits))
]
