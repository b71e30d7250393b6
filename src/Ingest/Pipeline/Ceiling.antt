-- ===== src/Ingest/Pipeline/Ceiling.antt =====
-- The sources that a batch adds: no more than the ceiling, each once, and none left out below it.

use analytics.Common.{
  ℕ, ◌+◌, ◌≤◌, ◌≡◌, refl, subst, ◌⊎◌, inl, inr, true, false, ◌||◌, Bool-cases, List, [], ◌∷◌, ◌++◌,
  All, arith, Text, max, length, length-append, leb, text_eq, text_eq_refl, text_eq_iff,
}
use analytics.Store.Event.{StoredEvent}
use analytics.Ingest.Pipeline.{is_in, select_new}

-- The list of sources to register grows to the ceiling at most.
pub length-select_new :
    (known : List Text) (max_sources : ℕ) (es : List StoredEvent) (seen new : List Text)
    → length known + length new ≤ max (length known) max_sources
    → length known + length (select_new known max_sources es seen new)
      ≤ max (length known) max_sources
unfolding select_new
length-select_new known max_sources [] seen new h = h
length-select_new known max_sources (e ∷ es) seen new h =
    let skipped = length-select_new known max_sources es seen new h in
    let capped = length-select_new known max_sources es (e.source ∷ seen) new h in
    let added = length-select_new known max_sources es (e.source ∷ seen) (new ++ (e.source ∷ [])) in
    let longer = length-append new (e.source ∷ []) in
    elim (Bool-cases (is_in e.source known || is_in e.source seen)) [
      | inl old ↦ rw (old) skipped
      | inr fresh ↦ elim (Bool-cases (leb max_sources (length known + length new))) [
        | inl full ↦ rw (fresh) (rw (full) capped)
        | inr room ↦ rw (fresh) (rw (room) (added (ground arith)))
      ]
    ]

is_in-append : (t : Text) (l m : List Text) → is_in t (l ++ m) ≡ (is_in t l || is_in t m)
is_in-append t [] m = refl
is_in-append t (s ∷ l) m = ground (arith, is_in-append t l m)

select_new-le :
    (known : List Text) (max_sources : ℕ) (es : List StoredEvent) (seen new : List Text)
    → length new ≤ length (select_new known max_sources es seen new)
unfolding select_new
select_new-le known max_sources [] seen new = omega arith
select_new-le known max_sources (e ∷ es) seen new = ground (
  arith,
  select_new-le known max_sources es seen new,
  select_new-le known max_sources es (e.source ∷ seen) new,
  select_new-le known max_sources es (e.source ∷ seen) (new ++ (e.source ∷ [])),
  length-append new (e.source ∷ []),
)

-- No source stands twice in the list.
abbrev pub IsDistinct : List Text → Type 0
IsDistinct [] = Unit
IsDistinct (s ∷ l) = (is_in s l ≡ false) × IsDistinct l

abbrev pub IsIncluded : List Text → List Text → Type 0
IsIncluded l m = (t : Text) → is_in t l ≡ true → is_in t m ≡ true

IsDistinct-snoc :
    (l : List Text) (x : Text) → IsDistinct l → is_in x l ≡ false → IsDistinct (l ++ (x ∷ []))
IsDistinct-snoc [] x d h = (refl, tt)
IsDistinct-snoc (s ∷ l) x d h =
    let rest = IsDistinct-snoc l x d.1 (ground arith) in
    let e = is_in-append s l (x ∷ []) in
    let first = d.0 in (ground (arith, text_eq_iff x s, text_eq_iff s x), rest)

-- What the loop adds is new: not known, and not there yet.
pub record Fresh (known new : List Text) : Type 0 where
  pub distinct : IsDistinct new
  pub unknown : (t : Text) → is_in t new ≡ true → is_in t known ≡ false

Fresh-snoc :
    (known new : List Text) (x : Text)
    → Fresh known new
    → is_in x known ≡ false
    → is_in x new ≡ false
    → Fresh known (new ++ (x ∷ []))
Fresh-snoc known new x f k n = record {
  distinct = IsDistinct-snoc new x f.distinct n;
  unknown = λ t h.
      let e = is_in-append t new (x ∷ []) in
      let old = f.unknown t in
      elim (Bool-cases (text_eq x t)) [
        | inl same ↦
            let x_is : x ≡ t = (text_eq_iff x t).0 same in subst (λ y. is_in y known ≡ false) x_is k
        | inr other ↦ ground arith
      ];
}

pub select_new-Fresh :
    (known : List Text) (max_sources : ℕ) (es : List StoredEvent) (seen new : List Text)
    → IsIncluded new seen
    → Fresh known new
    → Fresh known (select_new known max_sources es seen new)
unfolding select_new
select_new-Fresh known max_sources [] seen new i f = f
select_new-Fresh known max_sources (e ∷ es) seen new i f =
    let skipped = select_new-Fresh known max_sources es seen new i f in
    let capped =
      select_new-Fresh known max_sources es (e.source ∷ seen) new
        (λ t h. let k = i t h in ground arith) f in
    let added = select_new-Fresh known max_sources es (e.source ∷ seen) (new ++ (e.source ∷ [])) in
    elim (Bool-cases (is_in e.source known || is_in e.source seen)) [
      | inl old ↦ rw (old) skipped
      | inr fresh ↦ elim (Bool-cases (leb max_sources (length known + length new))) [
        | inl full ↦ rw (fresh) (rw (full) capped)
        | inr room ↦ rw (fresh) (
            rw (room) (
              added
                (λ t h. let a = is_in-append t new (e.source ∷ []) in let k = i t in ground arith)
                (Fresh-snoc known new e.source f (ground arith)
                  (let k = i e.source in ground arith))))
      ]
    ]

abbrev pub HasSource : List Text → List Text → StoredEvent → Type 0
HasSource known new e = (is_in e.source known || is_in e.source new) ≡ true

abbrev pub Covers : List Text → ℕ → List StoredEvent → List Text → List Text → Type 0
Covers known max_sources es new r =
    (max_sources ≤ length known + length r) ⊎ (All (HasSource known r) es × IsIncluded new r)

-- Below the ceiling no source of the batch is left out.
pub select_new-Covers :
    (known : List Text) (max_sources : ℕ) (es : List StoredEvent) (seen new : List Text)
    → IsIncluded seen new
    → Covers known max_sources es new (select_new known max_sources es seen new)
unfolding select_new
select_new-Covers known max_sources [] seen new i = inr (tt, λ t h. h)
select_new-Covers known max_sources (e ∷ es) seen new i =
    let skipped = select_new-Covers known max_sources es seen new i in
    let more = select_new-le known max_sources es (e.source ∷ seen) new in
    let added = select_new-Covers known max_sources es (e.source ∷ seen) (new ++ (e.source ∷ [])) in
    let longer = new ++ (e.source ∷ []) in
    elim (Bool-cases (is_in e.source known || is_in e.source seen)) [
      | inl old ↦
          let eq : select_new known max_sources es seen new
              ≡ select_new known max_sources (e ∷ es) seen new =
            rw (old) refl in
          subst (Covers known max_sources (e ∷ es) new) eq (elim skipped [
            | inl full ↦ inl full
            | inr (all, kept) ↦
                inr ((let k = kept e.source in let l = i e.source in ground arith, all), kept)
          ])
      | inr fresh ↦ elim (Bool-cases (leb max_sources (length known + length new))) [
        | inl full ↦
            let eq : select_new known max_sources es (e.source ∷ seen) new
                ≡ select_new known max_sources (e ∷ es) seen new =
              rw (fresh) (rw (full) refl) in
            subst (Covers known max_sources (e ∷ es) new) eq (inl (ground arith))
        | inr room ↦
            let eq : select_new known max_sources es (e.source ∷ seen) longer
                ≡ select_new known max_sources (e ∷ es) seen new =
              rw (fresh) (rw (room) refl) in
            subst (Covers known max_sources (e ∷ es) new) eq
              (elim (added (λ t h.
                let a = is_in-append t new (e.source ∷ []) in let k = i t in ground arith)) [
                  | inl full ↦ inl full
                  | inr (all, kept) ↦ inr (
                    (
                      let k = kept e.source in
                          let a = is_in-append e.source new (e.source ∷ []) in
                          ground (arith, text_eq_refl e.source),
                      all,
                    ),
                    λ t h.
                        let k = kept t in
                        let a = is_in-append t new (e.source ∷ []) in ground arith,
                  )
                ])
      ]
    ]
