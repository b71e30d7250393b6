-- ===== src/Ingest/Normalize/Shape.antt =====
-- What is left in a normalized frame or message.
use analytics.Common.{
  ℕ, ◌≡◌, ◌≢◌, refl, sym, ap, subst, Bool, true, false, ◌||◌, not, Bool-cases, List, [], ◌∷◌, map,
  All, All-imp, arith, inl, inr, Text, codes, keep, text_eq, text_eq_iff, is_ascii_digit,
  is_whitespace, trim, split_by, is_empty, split_whitespace, join, lines, if◌then◌else◌,
}
use analytics.Ingest.Normalize.{
  drop_query, strip_urls, normalize_paths, normalize_uuids, normalize_hex_addresses,
  normalize_hashes, strip_digits, collapse_whitespace, run, dedup, dedup_after, frame_pipeline,
  is_filled, frames, message,
}

-- Words, none empty and without whitespace or digits, with one space between two.
abbrev pub IsPlain : ℕ → Type 0
IsPlain c = (is_ascii_digit c || is_whitespace c) ≡ false

abbrev pub IsWord : Text → Type 0
IsWord w = (is_empty w ≡ false) × All IsPlain w

pub record IsNormal (t : Text) : Type 0 where
  pub words : List Text
  pub joined : t ≡ join (codes " ") words
  pub plain : All IsWord words

module _ (p : ℕ → Bool) where
  -- The fields between separators hold none.
  split_by-All :
      (Q : ℕ → Type 0) (s : Text) → All Q s → All (All (λ c. (p c ≡ false) × Q c)) (split_by p s)
  unfolding split_by
  split_by-All Q [] h = (tt, tt)
  split_by-All Q (c ∷ s) (q, h) = push c (p c) refl q (split_by p s) (split_by-All Q s h)
    where
      push :
          (c : ℕ) (b : Bool)
          → p c ≡ b
          → Q c
          → (fs : List Text) → All (All (λ d. (p d ≡ false) × Q d)) fs
          → All
              (All (λ d. (p d ≡ false) × Q d))
              (if b then [] ∷ fs else elim fs [ [] ↦ (c ∷ []) ∷ [] | f ∷ fs' ↦ (c ∷ f) ∷ fs' ])
      push c true e q fs h = (tt, h)
      push c false e q [] h = (((e, q), tt), tt)
      push c false e q (f ∷ fs) (k, h) = (((e, q), k), h)

keep-All :
    {A : Type 0} (p : A → Bool) (Q : A → Type 0) (l : List A)
    → All Q l
    → All (λ x. (p x ≡ true) × Q x) (keep p l)
keep-All p Q [] h = tt
keep-All p Q (x ∷ l) (q, h) =
    let ih = keep-All p Q l h in
    elim (Bool-cases (p x)) [
      | inl e ↦
          subst (All (λ y. (p y ≡ true) × Q y))
            (ap (λ (b : Bool). if b then x ∷ keep p l else keep p l) (sym e)) ((e, q), ih)
      | inr e ↦
          subst (All (λ y. (p y ≡ true) × Q y))
            (ap (λ (b : Bool). if b then x ∷ keep p l else keep p l) (sym e)) ih
    ]

All-any : {A : Type 0} (l : List A) → All (λ x. Unit {0}) l
All-any [] = tt
All-any (x ∷ l) = (tt, All-any l)

-- The last two stages, whatever comes before them.
collapse_whitespace-IsNormal : (s : Text) → IsNormal (collapse_whitespace (strip_digits s))
unfolding collapse_whitespace split_whitespace
collapse_whitespace-IsNormal s = record {
  words = split_whitespace (strip_digits s);
  joined = refl;
  plain =
      All-imp
        (λ w.
          (not (is_empty w) ≡ true)
          × All (λ c. (is_whitespace c ≡ false) × ((not (is_ascii_digit c) ≡ true) × Unit {0})) w)
        IsWord (split_whitespace (strip_digits s))
        (λ w h. (
          ground (arith, h.0),
          All-imp (λ c. (is_whitespace c ≡ false) × ((not (is_ascii_digit c) ≡ true) × Unit {0}))
              IsPlain w (λ c k. let (a, bu) = k in let b = bu.0 in ground arith) h.1,
        ))
        (keep-All (λ w. not (is_empty w))
          (All (λ c. (is_whitespace c ≡ false) × ((not (is_ascii_digit c) ≡ true) × Unit {0})))
          (split_by is_whitespace (strip_digits s))
          (split_by-All is_whitespace (λ c. (not (is_ascii_digit c) ≡ true) × Unit {0})
            (strip_digits s)
            (keep-All (λ c. not (is_ascii_digit c)) (λ c. Unit {0}) s (All-any s))));
}

-- No entry is the one before it.
abbrev pub Differs : Text → List Text → Type 0
Differs last [] = Unit
Differs last (f ∷ fs) = (last ≢ f) × Differs f fs

abbrev pub IsDeduped : List Text → Type 0
IsDeduped [] = Unit
IsDeduped (f ∷ fs) = Differs f fs

dedup_after-Differs : (last : Text) (fs : List Text) → Differs last (dedup_after last fs)
dedup_after-Differs last [] = tt
dedup_after-Differs last (f ∷ fs) =
    let same = dedup_after-Differs last fs in
    let other = dedup_after-Differs f fs in
    elim (Bool-cases (text_eq last f)) [
      | inl e ↦
          subst (Differs last)
            (ap (λ (b : Bool). if b then dedup_after last fs else f ∷ dedup_after f fs) (sym e))
            same
      | inr e ↦
          subst (Differs last)
            (ap (λ (b : Bool). if b then dedup_after last fs else f ∷ dedup_after f fs) (sym e))
            (λ (q : last ≡ f). let r = (text_eq_iff last f).1 q in ground arith, other)
    ]

dedup_after-All :
    (Q : Text → Type 0) (last : Text) (fs : List Text) → All Q fs → All Q (dedup_after last fs)
dedup_after-All Q last [] h = tt
dedup_after-All Q last (f ∷ fs) (q, h) =
    let same = dedup_after-All Q last fs h in
    let other = dedup_after-All Q f fs h in
    elim (Bool-cases (text_eq last f)) [
      | inl e ↦
          subst (All Q)
            (ap (λ (b : Bool). if b then dedup_after last fs else f ∷ dedup_after f fs) (sym e))
            same
      | inr e ↦
          subst (All Q)
            (ap (λ (b : Bool). if b then dedup_after last fs else f ∷ dedup_after f fs) (sym e))
            (q, other)
    ]

dedup-IsDeduped : (fs : List Text) → IsDeduped (dedup fs)
unfolding dedup
dedup-IsDeduped [] = tt
dedup-IsDeduped (f ∷ fs) = dedup_after-Differs f fs

dedup-All : (Q : Text → Type 0) (fs : List Text) → All Q fs → All Q (dedup fs)
unfolding dedup
dedup-All Q [] h = tt
dedup-All Q (f ∷ fs) (q, h) = (q, dedup_after-All Q f fs h)

map-All :
    {A B : Type 0} (f : A → B) (Q : B → Type 0) (l : List A) → ((x : A) → Q (f x)) → All Q (map f l)
map-All f Q [] h = tt
map-All f Q (x ∷ l) h = (h x, map-All f Q l h)

module _ (to_lowercase : Text → Text) where
  -- A message is words without digits, one space apart.
  pub message-IsNormal : (text : Text) → IsNormal (message to_lowercase text)
  unfolding message
  message-IsNormal text = collapse_whitespace-IsNormal (
      normalize_hashes (normalize_hex_addresses (normalize_uuids (to_lowercase (strip_urls text)))))

  abbrev pub FramesPost : List Text → Type 0
  FramesPost fs = All (λ f. (is_filled to_lowercase f ≡ true) × IsNormal f) fs × IsDeduped fs

  -- The frames of any stack: none is empty, none repeats the one before it, and each is words
  -- without digits, one space apart.
  pub frames-FramesPost : (stack : Text) → FramesPost (frames to_lowercase stack)
  unfolding frames
  frames-FramesPost stack = (
    dedup-All (λ f. (is_filled to_lowercase f ≡ true) × IsNormal f) _
        (keep-All (is_filled to_lowercase) IsNormal _ (
          map-All (run (frame_pipeline to_lowercase)) IsNormal
            (keep (is_filled to_lowercase) (map trim (lines stack)))
            (λ line. collapse_whitespace-IsNormal (
              normalize_hashes (
                normalize_hex_addresses (
                  normalize_uuids
                    (to_lowercase (normalize_paths (strip_urls (drop_query line)))))))))),
    dedup-IsDeduped _,
  )
