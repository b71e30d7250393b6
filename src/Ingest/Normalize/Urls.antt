-- ===== src/Ingest/Normalize/Urls.antt =====
-- No URL is left in what `strip_urls` returns.
use analytics.Common.{
  ℕ, zero, suc, ◌≡◌, refl, sym, ap, ◌∙◌, subst, false, Bool-cases, none, Option-cases, [], ◌∷◌,
  arith, inl, inr, Text, codes, length, ◌==◌, is_ascii_alphabetic, contains, starts_with,
}
use analytics.Ingest.Normalize.{after_colon, after_scheme, url_end, strip_from, strip_urls}
use analytics.Ingest.Normalize.UrlScan.{
  strip_from-push, strip_from-skip, strip_from-NoSlashes, after_colon-tail, after_colon-cons,
  after_colon-head, after_scheme-letter, after_scheme-other, url_end-letter, url_end-other,
}

-- No URL starts at any place of the text.
abbrev pub IsUrlFree : Text → Type 0
IsUrlFree [] = Unit
IsUrlFree (c ∷ s) = (url_end (c ∷ s) ≡ none) × IsUrlFree s

-- Where no URL follows a scheme, none does after the removal.
strip_from_scheme :
    (n : ℕ) (s : Text) → after_scheme s ≡ none → after_scheme (strip_from n s) ≡ none
strip_from_scheme zero s h = unfold strip_from after_scheme in refl
strip_from_scheme (suc n) [] h = unfold strip_from in h
strip_from_scheme (suc n) (c ∷ s) h =
    let ih = strip_from_scheme n s in
    elim (Bool-cases (is_ascii_alphabetic c)) [
      | inl letter ↦
          let clear : after_scheme s ≡ none = sym (after_scheme-letter c s letter) ∙ h in
          ap after_scheme (strip_from-push n c s (url_end-letter c s letter ∙ clear))
          ∙ after_scheme-letter c (strip_from n s) letter
          ∙ ih clear
      | inr other ↦
          ap after_scheme (strip_from-push n c s (url_end-other c s other))
          ∙ after_scheme-other c (strip_from n s) other
          ∙ (elim (Bool-cases (c == b':')) [
            | inl colon ↦
                let same : b':' ≡ c = ground arith in
                subst (λ d. after_colon (d ∷ strip_from n s) ≡ none) same
                  (after_colon-cons (strip_from n s) (
                    strip_from-NoSlashes n s (
                      after_colon-tail s (
                        subst (λ d. after_colon (d ∷ s) ≡ none) (sym same)
                          (sym (after_scheme-other c s other) ∙ h)))))
            | inr letter' ↦ after_colon-head c (strip_from n s) letter'
          ])
    ]

strip_from-IsUrlFree : (n : ℕ) (s : Text) → IsUrlFree (strip_from n s)
strip_from-IsUrlFree zero s = unfold strip_from in tt
strip_from-IsUrlFree (suc n) [] = unfold strip_from in tt
strip_from-IsUrlFree (suc n) (c ∷ s) =
    let ih = strip_from-IsUrlFree n s in
    let skipped = λ (r : Text). strip_from-IsUrlFree n r in
    elim (Option-cases (url_end (c ∷ s))) [
      | inl clear ↦ subst IsUrlFree (sym (strip_from-push n c s clear)) (
        elim (Bool-cases (is_ascii_alphabetic c)) [
          | inl letter ↦
              url_end-letter c (strip_from n s) letter
              ∙ strip_from_scheme n s (sym (url_end-letter c s letter) ∙ clear)
          | inr other ↦ url_end-other c (strip_from n s) other
        ],
        ih,
      )
      | inr (rest, e) ↦ subst IsUrlFree (sym (strip_from-skip n c s rest e)) (skipped rest)
    ]

-- A text without "://" holds no URL.
contains_scheme : (s : Text) → contains (codes "://") s ≡ false → after_scheme s ≡ none
unfolding contains starts_with after_scheme
contains_scheme [] h = refl
contains_scheme (c ∷ s) h =
    let ih = contains_scheme s (ground arith) in
    elim (Bool-cases (is_ascii_alphabetic c)) [
      | inl letter ↦ after_scheme-letter c s letter ∙ ih
      | inr other ↦ after_scheme-other c s other ∙ (ground arith)
    ]

contains-IsUrlFree : (s : Text) → contains (codes "://") s ≡ false → IsUrlFree s
unfolding contains
contains-IsUrlFree [] h = tt
contains-IsUrlFree (c ∷ s) h =
    let rest = contains_scheme s (ground arith) in
    (
      elim (Bool-cases (is_ascii_alphabetic c)) [
        | inl letter ↦ url_end-letter c s letter ∙ rest
        | inr other ↦ url_end-other c s other
      ],
      contains-IsUrlFree s (ground arith),
    )

strip_from_same : (s : Text) → IsUrlFree s → strip_from (length s) s ≡ s
strip_from_same [] h = unfold strip_from in refl
strip_from_same (c ∷ s) h =
    strip_from-push (length s) c s h.0 ∙ ap (λ (t : Text). c ∷ t) (strip_from_same s h.1)

-- No URL is left: at no place of the result does a run of letters with "://" behind it start.
pub strip_urls-IsUrlFree : (input : Text) → IsUrlFree (strip_urls input)
unfolding strip_urls
strip_urls-IsUrlFree input = elim (Bool-cases (contains (codes "://") input)) [
  | inl found ↦ rw (found) (strip_from-IsUrlFree (length input) input)
  | inr clear ↦ rw (clear) (contains-IsUrlFree input clear)
]

-- A text in which no URL starts at any place is kept as it is.
pub strip_urls_same : (input : Text) → IsUrlFree input → strip_urls input ≡ input
unfolding strip_urls
strip_urls_same input h = elim (Bool-cases (contains (codes "://") input)) [
  | inl found ↦ rw (found) (strip_from_same input h)
  | inr clear ↦ rw (clear) refl
]
