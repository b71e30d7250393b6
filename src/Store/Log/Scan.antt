-- ===== src/Store/Log/Scan.antt =====
-- What a scan below a time selects, and what deleting a list of keys leaves.
use analytics.Common.{
  ℕ, ◌≡◌, refl, sym, ap, ◌∙◌, Bool, true, false, Bool-cases, Option, none, some, List, [], ◌∷◌, map,
  arith, text_eq, text_eq_iff, inl, inr, if◌then◌else◌, any, ltb,
}
use analytics.Platform.{Bytes, Platform, lookup}
use analytics.Store.Keys.{u64_from_be}
use analytics.Store.Event.{StoredEvent}
use analytics.Store.Db.{Result, ok, ◌>>=◌, or_system_err, Json, bind-eq-ok, or_system_err-eq-ok}
use analytics.Store.Log.{select_before, remove_all}

-- `none` where the key is absent; a corrupt value cannot have been selected.
abbrev pub decoded_at {ℓ} : {A : Type ℓ} → (Bytes → Option A) → Option Bytes → Option A
decoded_at d none = none
decoded_at d (some b) = d b

module _ (P : Platform) (J : Json P) where
  select_low :
      (threshold : ℕ) (j : List ℕ) (b : Bytes) (rest : Result (List (List ℕ × StoredEvent)))
      (pairs : List (List ℕ × StoredEvent))
      → (or_system_err (J.event.decode b) >>= λ e. rest >>= λ r. ok ((j, e) ∷ r)) ≡ ok pairs
      → (e : StoredEvent) × (J.event.decode b ≡ some e)
        × (r : List (List ℕ × StoredEvent)) × (rest ≡ ok r)
        × (pairs ≡ (j, e) ∷ r)
  select_low threshold j b rest pairs h =
      let (e, decoded, h') = bind-eq-ok (or_system_err (J.event.decode b)) _ pairs h in
      let (r, read, split) = bind-eq-ok rest _ pairs h' in
      (e, or_system_err-eq-ok (J.event.decode b) e decoded, r, read, cc)

  selected_here :
      (threshold : ℕ) (j : List ℕ) (b : Bytes) (m : List (List ℕ × Bytes))
      (r pairs : List (List ℕ × StoredEvent)) (e : StoredEvent) (k : List ℕ)
      → ltb (u64_from_be j) threshold ≡ true
      → J.event.decode b ≡ some e
      → pairs ≡ (j, e) ∷ r
      → lookup k r
        ≡ (if ltb (u64_from_be k) threshold then decoded_at J.event.decode (lookup k m) else none)
      → lookup k pairs ≡ (
          if ltb (u64_from_be k) threshold
          then decoded_at J.event.decode (lookup k ((j, b) ∷ m))
          else none)
  selected_here threshold j b m r pairs e k low decoded split ih =
      rw split (elim (Bool-cases (text_eq j k)) [
        | inl same ↦
            let eq = (text_eq_iff j k).0 same in
            rw (same, ap (λ i. ltb (u64_from_be i) threshold) (sym eq), low) (sym decoded)
        | inr other ↦ rw other ih
      ])

  skipped_here :
      (threshold : ℕ) (j : List ℕ) (b : Bytes) (m : List (List ℕ × Bytes))
      (pairs : List (List ℕ × StoredEvent)) (k : List ℕ)
      → ltb (u64_from_be j) threshold ≡ false
      → lookup k pairs
        ≡ (if ltb (u64_from_be k) threshold then decoded_at J.event.decode (lookup k m) else none)
      → lookup k pairs ≡ (
          if ltb (u64_from_be k) threshold
          then decoded_at J.event.decode (lookup k ((j, b) ∷ m))
          else none)
  skipped_here threshold j b m pairs k high ih = elim (Bool-cases (text_eq j k)) [
    | inl same ↦
        let high' =
          ap (λ i. ltb (u64_from_be i) threshold) (sym ((text_eq_iff j k).0 same)) ∙ high in
        rw high' (rw high' at ih)
    | inr other ↦ rw other ih
  ]

  -- A scan finds under each key below the threshold what was stored there, and nothing else.
  pub lookup-select_before :
      (threshold : ℕ) (entries : List (List ℕ × Bytes)) (pairs : List (List ℕ × StoredEvent))
      (k : List ℕ)
      → select_before P J threshold entries ≡ ok pairs
      → lookup k pairs ≡ (
          if ltb (u64_from_be k) threshold
          then decoded_at J.event.decode (lookup k entries)
          else none)
  unfolding select_before
  lookup-select_before threshold [] pairs k h = ground arith
  lookup-select_before threshold ((j, b) ∷ m) pairs k h =
      let ih = λ (r : List (List ℕ × StoredEvent)) (e : select_before P J threshold m ≡ ok r).
        lookup-select_before threshold m r k e in
      elim (Bool-cases (ltb (u64_from_be j) threshold)) [
        | inl low ↦
            let (e, decoded, r, rest, split) =
              select_low threshold j b (select_before P J threshold m) pairs (rw low at h) in
            selected_here threshold j b m r pairs e k low decoded split (ih r rest)
        | inr high ↦ skipped_here threshold j b m pairs k high (ih pairs (rw high at h))
      ]

  -- A scan that succeeds has decoded every value below the threshold.
  pub select_before-decodes :
      (threshold : ℕ) (entries : List (List ℕ × Bytes)) (pairs : List (List ℕ × StoredEvent))
      (k : List ℕ) (b : Bytes)
      → select_before P J threshold entries ≡ ok pairs
      → lookup k entries ≡ some b
      → ltb (u64_from_be k) threshold ≡ true
      → (e : StoredEvent) × (J.event.decode b ≡ some e)
  unfolding select_before
  select_before-decodes threshold [] pairs k b h found low = cc
  select_before-decodes threshold ((j, c) ∷ m) pairs k b h found low =
      let ih =
        λ (r : List (List ℕ × StoredEvent)) (e : select_before P J threshold m ≡ ok r)
            (f : lookup k m ≡ some b).
          select_before-decodes threshold m r k b e f low in
      elim (Bool-cases (ltb (u64_from_be j) threshold)) [
        | inl low_j ↦
            let (e, decoded, r, rest, split) =
              select_low threshold j c (select_before P J threshold m) pairs (rw low_j at h) in
            elim (Bool-cases (text_eq j k)) [
              | inl same ↦ (let same_value : c ≡ b = ground arith in (e, rw (← same_value) decoded))
              | inr other ↦ ih r rest (rw other at found)
            ]
        | inr high ↦ elim (Bool-cases (text_eq j k)) [
          | inl same ↦ absurd (
              high_low (ap (λ i. ltb (u64_from_be i) threshold) ((text_eq_iff j k).0 same)) high
                low)
          | inr other ↦ ih pairs (rw high at h) (rw other at found)
        ]
      ]
    where
      high_low : {x y : Bool} → x ≡ y → x ≡ false → y ≡ true → ⊥
      high_low e f g = cc

pub any-key-lookup {ℓ} :
    {V : Type ℓ} (k : List ℕ) (pairs : List (List ℕ × V))
    → any (λ j. text_eq j k) (map (λ e. e.0) pairs)
      ≡ (elim (lookup k pairs) [ none ↦ false | some _ ↦ true ])
any-key-lookup k [] = refl
any-key-lookup k ((j, v) ∷ m) = elim (Bool-cases (text_eq j k)) [
  | inl h ↦ rw h refl
  | inr h ↦ rw h (any-key-lookup k m)
]

-- Exactly the listed keys are gone.
pub get-remove_all :
    (P : Platform) (ks : List (List ℕ)) (t : P.Table) (k : List ℕ)
    → P.get (remove_all P ks t) k ≡ (if any (λ j. text_eq j k) ks then none else P.get t k)
unfolding remove_all
get-remove_all P [] t k = refl
get-remove_all P (j ∷ ks) t k =
    ground (arith, get-remove_all P ks (P.remove j t) k, P.get-remove j k t)
