-- ===== src/Ingest/Normalize/UrlScan.antt =====
-- The rounds of the loop of `strip_urls`, and that they bring no "//" behind a colon.
use analytics.Common.{
  ℕ, zero, suc, ◌≡◌, refl, sym, subst, true, false, Bool-cases, none, some, Option-cases, [], ◌∷◌,
  arith, inl, inr, Text, codes, ◌==◌, is_ascii_alphabetic, strip_prefix,
}
use analytics.Ingest.Normalize.{after_target, after_colon, after_scheme, url_end, strip_from}

abbrev pub NoSlash : Text → Type 0
NoSlash s = strip_prefix (codes "/") s ≡ none

after_target-NoSlash : (s : Text) → NoSlash (after_target s)
unfolding after_target strip_prefix
after_target-NoSlash [] = refl
after_target-NoSlash (c ∷ s) = ground (arith, after_target-NoSlash s)

after_colon-NoSlash : (s rest : Text) → after_colon s ≡ some rest → NoSlash rest
after_colon-NoSlash s rest h = elim (Option-cases (strip_prefix (codes "://") s)) [
  | inl clear ↦ ground arith
  | inr (t, e) ↦
      let same : after_target t ≡ rest = ground arith in subst NoSlash same (after_target-NoSlash t)
]

after_scheme-NoSlash : (s rest : Text) → after_scheme s ≡ some rest → NoSlash rest
unfolding after_scheme
after_scheme-NoSlash [] rest h = cc
after_scheme-NoSlash (c ∷ s) rest h =
    let ih = after_scheme-NoSlash s rest in
    let here = after_colon-NoSlash (c ∷ s) rest in
    elim (Bool-cases (is_ascii_alphabetic c)) [
      | inl letter ↦ ih (rw (letter, after_scheme) at h)
      | inr other ↦ here (rw (other, after_scheme) at h)
    ]

url_end-NoSlash : (s rest : Text) → url_end s ≡ some rest → NoSlash rest
unfolding url_end
url_end-NoSlash [] rest h = cc
url_end-NoSlash (c ∷ s) rest h = elim (Bool-cases (is_ascii_alphabetic c)) [
  | inl letter ↦ after_scheme-NoSlash s rest (rw (letter, url_end) at h)
  | inr other ↦ absurd (let k = rw (other, url_end) at h in cc)
]

-- One round of the loop.
pub strip_from-push :
    (n c : ℕ) (s : Text) → url_end (c ∷ s) ≡ none → strip_from (suc n) (c ∷ s) ≡ c ∷ strip_from n s
unfolding strip_from
strip_from-push n c s h = rw (h, strip_from) refl

pub strip_from-skip :
    (n c : ℕ) (s rest : Text)
    → url_end (c ∷ s) ≡ some rest
    → strip_from (suc n) (c ∷ s) ≡ strip_from n rest
unfolding strip_from
strip_from-skip n c s rest h = rw (h, strip_from) refl

NoSlash-head : (c : ℕ) (s t : Text) → NoSlash (c ∷ s) → NoSlash (c ∷ t)
unfolding strip_prefix
NoSlash-head c s t h = ground arith

-- Removing URLs brings no slash to the front.
strip_from-NoSlash : (n : ℕ) (s : Text) → NoSlash s → NoSlash (strip_from n s)
unfolding strip_from
strip_from-NoSlash zero s h = unfold strip_prefix in refl
strip_from-NoSlash (suc n) [] h = h
strip_from-NoSlash (suc n) (c ∷ s) h =
    let ih = λ (r : Text). strip_from-NoSlash n r in
    elim (Option-cases (url_end (c ∷ s))) [
      | inl clear ↦ subst NoSlash (sym (strip_from-push n c s clear)) (pushed (strip_from n s))
      | inr (rest, e) ↦
          subst NoSlash (sym (strip_from-skip n c s rest e))
            (ih rest (url_end-NoSlash (c ∷ s) rest e))
    ]
  where
    pushed : (t : Text) → NoSlash (c ∷ t)
    pushed t = NoSlash-head c s t h

abbrev pub NoSlashes : Text → Type 0
NoSlashes s = strip_prefix (codes "//") s ≡ none

NoSlashes-of_NoSlash : (s : Text) → NoSlash s → NoSlashes s
unfolding strip_prefix
NoSlashes-of_NoSlash [] h = refl
NoSlashes-of_NoSlash (c ∷ s) h = ground arith

NoSlashes-tail : (s : Text) → NoSlashes (b'/' ∷ s) → NoSlash s
unfolding strip_prefix
NoSlashes-tail s h = h

NoSlashes-cons : (s : Text) → NoSlash s → NoSlashes (b'/' ∷ s)
unfolding strip_prefix
NoSlashes-cons s h = h

NoSlashes-head : (c : ℕ) (t : Text) → (c == b'/') ≡ false → NoSlashes (c ∷ t)
unfolding strip_prefix
NoSlashes-head c t h = ground arith

url_end-slash : (s : Text) → url_end (b'/' ∷ s) ≡ none
unfolding url_end
url_end-slash s = refl

url_end-colon : (s : Text) → url_end (b':' ∷ s) ≡ none
unfolding url_end
url_end-colon s = refl

pub strip_from-NoSlashes : (n : ℕ) (s : Text) → NoSlashes s → NoSlashes (strip_from n s)
strip_from-NoSlashes zero s h = unfold strip_from strip_prefix in refl
strip_from-NoSlashes (suc n) [] h = unfold strip_from in h
strip_from-NoSlashes (suc n) (c ∷ s) h = elim (Option-cases (url_end (c ∷ s))) [
  | inl clear ↦ subst NoSlashes (sym (strip_from-push n c s clear)) (elim (Bool-cases (c == b'/')) [
    | inl slash ↦
        let same : b'/' ≡ c = ground arith in
        subst (λ d. NoSlashes (d ∷ strip_from n s)) same
          (NoSlashes-cons (strip_from n s) (
            strip_from-NoSlash n s
              (NoSlashes-tail s (subst (λ d. NoSlashes (d ∷ s)) (sym same) h))))
    | inr other ↦ NoSlashes-head c (strip_from n s) other
  ])
  | inr (rest, e) ↦ subst NoSlashes (sym (strip_from-skip n c s rest e)) (
      NoSlashes-of_NoSlash (strip_from n rest)
        (strip_from-NoSlash n rest (url_end-NoSlash (c ∷ s) rest e)))
]

-- A text starts with "://" exactly where it does with a colon that "//" follows.
pub after_colon-tail : (s : Text) → after_colon (b':' ∷ s) ≡ none → NoSlashes s
unfolding strip_prefix
after_colon-tail s h = elim (Option-cases (strip_prefix (codes "//") s)) [
  | inl clear ↦ clear
  | inr (t, e) ↦ absurd (let k = rw (e) at h in cc)
]

pub after_colon-cons : (s : Text) → NoSlashes s → after_colon (b':' ∷ s) ≡ none
unfolding strip_prefix
after_colon-cons s h = rw (h) refl

pub after_colon-head : (c : ℕ) (t : Text) → (c == b':') ≡ false → after_colon (c ∷ t) ≡ none
unfolding strip_prefix
after_colon-head c t h = ground arith

pub after_scheme-letter :
    (c : ℕ) (s : Text) → is_ascii_alphabetic c ≡ true → after_scheme (c ∷ s) ≡ after_scheme s
unfolding after_scheme
after_scheme-letter c s h = rw (h, after_scheme) refl

pub after_scheme-other :
    (c : ℕ) (s : Text) → is_ascii_alphabetic c ≡ false → after_scheme (c ∷ s) ≡ after_colon (c ∷ s)
unfolding after_scheme
after_scheme-other c s h = rw (h, after_scheme) refl

pub url_end-letter :
    (c : ℕ) (s : Text) → is_ascii_alphabetic c ≡ true → url_end (c ∷ s) ≡ after_scheme s
unfolding url_end
url_end-letter c s h = rw (h, url_end) refl

pub url_end-other : (c : ℕ) (s : Text) → is_ascii_alphabetic c ≡ false → url_end (c ∷ s) ≡ none
unfolding url_end
url_end-other c s h = rw (h, url_end) refl
