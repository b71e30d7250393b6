-- ===== src/Web/Projects/Slug.antt =====
-- agent/src/web/api/projects.rs: slugify.
use analytics.Common.{
  ℕ, Bool, true, false, ◌&&◌, ◌||◌, not, [], ◌∷◌, Text, codes, is_empty, is_ascii_alphanumeric,
  is_ascii_digit, subst, ◌⊎◌, to_ascii_lower, trim_matches, trim_start_by, trim_end_by, ◌==◌,
  if◌then◌else◌, ◌≡◌, refl, sym, inl, inr, arith, leb,
}

-- The loop, where `started` says that the slug has a character and `last_dash` that it ends in a dash.
unfoldable pub slug_from : Bool → Bool → Text → Text
slug_from started last_dash [] = []
slug_from started last_dash (c ∷ s) =
    let next = slug_from true false s in
    let dashed = slug_from started true s in
    let skipped = slug_from started last_dash s in
    if is_ascii_alphanumeric c
    then to_ascii_lower c ∷ next
    else if not last_dash && started
    then b'-' ∷ dashed
    else skipped

abbrev or_project : Text → Text
or_project slug = if is_empty slug then codes "project" else slug

unfoldable pub slugify : Text → Text
unfolding slug_from trim_matches
slugify name = or_project (trim_matches (λ c. c == b'-') (slug_from false false name))

abbrev is_slug_char : ℕ → Bool
is_slug_char c = is_ascii_digit c || (leb b'a' c && leb c b'z')

-- The rest of a slug, where `b` says that a dash may not come next: at the start and after a dash.
abbrev SlugFrom : Bool → Text → Type 0
SlugFrom b [] = b ≡ false
SlugFrom b (c ∷ s) =
    ((is_slug_char c ≡ true) × SlugFrom false s) ⊎ ((c ≡ b'-') × (b ≡ false) × SlugFrom true s)

-- Runs of lower-case letters and digits, with single dashes between them.
abbrev pub IsSlug : Text → Type 0
IsSlug s = SlugFrom true s

-- The same, but a last dash is allowed, and there may be nothing.
abbrev Dashed : Bool → Text → Type 0
Dashed b [] = Unit
Dashed b (c ∷ s) =
    ((is_slug_char c ≡ true) × Dashed false s) ⊎ ((c ≡ b'-') × (b ≡ false) × Dashed true s)

lower-char : (c : ℕ) → is_ascii_alphanumeric c ≡ true → is_slug_char (to_ascii_lower c) ≡ true
lower-char c h = ground arith

slug_from-Dashed :
    (started last_dash : Bool) (s : Text)
    → Dashed (not started || last_dash) (slug_from started last_dash s)
unfolding slug_from
slug_from-Dashed started last_dash [] = tt
slug_from-Dashed started last_dash (c ∷ s) =
    go started last_dash (is_ascii_alphanumeric c) refl (slug_from-Dashed true false s)
      (slug_from-Dashed started true s) (slug_from-Dashed started last_dash s)
  where
    go :
        (st l b : Bool)
        → is_ascii_alphanumeric c ≡ b
        → Dashed false (slug_from true false s)
        → Dashed (not st || true) (slug_from st true s)
        → Dashed (not st || l) (slug_from st l s)
        → Dashed (not st || l) (
            if b
            then to_ascii_lower c ∷ slug_from true false s
            else if not l && st
            then b'-' ∷ slug_from st true s
            else slug_from st l s)
    go st l true h next dashed skipped = inl (lower-char c h, next)
    go true false false h next dashed skipped = inr (refl, refl, dashed)
    go true true false h next dashed skipped = skipped
    go false true false h next dashed skipped = skipped
    go false false false h next dashed skipped = skipped

-- Trimming takes the last dash away.
abbrev NothingOr : (Text → Type 0) → Text → Type 0
NothingOr P [] = Unit
NothingOr P (c ∷ s) = P (c ∷ s)

trim_end_by-SlugFrom :
    (b : Bool) (s : Text) → Dashed b s → NothingOr (SlugFrom b) (trim_end_by (λ c. c == b'-') s)
unfolding trim_end_by
trim_end_by-SlugFrom b [] h = tt
trim_end_by-SlugFrom b (c ∷ s) (inl (char, h)) =
    go (trim_end_by (λ c. c == b'-') s) (trim_end_by-SlugFrom false s h) (c == b'-') (ground arith)
  where
    go :
        (r : Text)
        → NothingOr (SlugFrom false) r
        → (x : Bool) → x ≡ false
        → NothingOr
            (SlugFrom b)
            (elim r as (λ _. Text) [ [] ↦ if x then [] else c ∷ [] | d ∷ t ↦ c ∷ d ∷ t ])
    go [] ih true e = cc
    go [] ih false e = inl (char, refl)
    go (d ∷ t) ih x e = inl (char, ih)
trim_end_by-SlugFrom b (c ∷ s) (inr (dash, free, h)) =
    go (trim_end_by (λ c. c == b'-') s) (trim_end_by-SlugFrom true s h) (c == b'-') (ground arith)
  where
    go :
        (r : Text)
        → NothingOr (SlugFrom true) r
        → (x : Bool) → x ≡ true
        → NothingOr
            (SlugFrom b)
            (elim r as (λ _. Text) [ [] ↦ if x then [] else c ∷ [] | d ∷ t ↦ c ∷ d ∷ t ])
    go [] ih true e = tt
    go [] ih false e = cc
    go (d ∷ t) ih x e = inr (dash, free, ih)

-- A text that does not begin with a dash loses nothing at its start.
trim_start_by-Dashed : (s : Text) → Dashed true s → trim_start_by (λ c. c == b'-') s ≡ s
unfolding trim_start_by
trim_start_by-Dashed [] h = refl
trim_start_by-Dashed (c ∷ s) (inl (char, h)) = go (c == b'-') (ground arith)
  where
    go : (b : Bool) → b ≡ false → (if b then trim_start_by (λ c. c == b'-') s else c ∷ s) ≡ c ∷ s
    go true e = cc
    go false e = refl
trim_start_by-Dashed (c ∷ s) (inr (dash, free, h)) = cc

or_project-IsSlug : (s : Text) → NothingOr IsSlug s → IsSlug (or_project s)
or_project-IsSlug [] h =
    inl (refl, inl (refl, inl (refl, inl (refl, inl (refl, inl (refl, inl (refl, refl)))))))
or_project-IsSlug (c ∷ s) h = h

-- The slug of any name is runs of lower-case letters and digits with single dashes between them: it is
-- not empty, and no dash stands at an end or beside another.
pub slugify-IsSlug : (name : Text) → IsSlug (slugify name)
unfolding slugify trim_matches
slugify-IsSlug name =
    let h = slug_from-Dashed false false name in
    or_project-IsSlug _ (
      subst (λ t. NothingOr IsSlug (trim_end_by (λ c. c == b'-') t))
        (sym (trim_start_by-Dashed (slug_from false false name) h))
        (trim_end_by-SlugFrom true (slug_from false false name) h))
