-- ===== src/Store/Rewrite/Laws.antt =====
-- What a table holds under each key after a bulk update.
use analytics.Common.{
  ℕ, ◌≡◌, refl, sym, ap, ◌∙◌, subst, Bool, false, Bool-cases, Option, none, some, List, [], ◌∷◌,
  arith, inl, inr, any, text_eq, text_eq_iff, text_eq_refl, if◌then◌else◌,
}
use analytics.Platform.{Bytes, Platform, lookup}
use analytics.Platform.Order.{HasDistinctKeys, HasDistinctKeys-of_IsAscending}
use analytics.Store.Db.{Result, ok, err, or_system_err, bind-eq-ok, or_system_err-eq-ok}
use analytics.Store.Rewrite.{pushed, collect, select_keys, insert_all}

-- The change that `f` makes to a stored value, `none` where it leaves it alone.

abbrev pub change :
    {A : Type 0} → (Bytes → Option A) → (A → Result (Option Bytes)) → Option Bytes → Option Bytes
change decode f none = none
change decode f (some b) = elim (decode b) [
  | none ↦ none
  | some a ↦ elim (f a) [ err x ↦ none | ok o ↦ o ]
]

abbrev pub or_else {ℓ} : {V : Type ℓ} → Option V → Option V → Option V
or_else none o = o
or_else (some v) o = some v

module _ {A : Type 0} (decode : Bytes → Option A) (f : A → Result (Option Bytes)) where
  -- One round of a loop that succeeds.
  collect-inv :
      (k : List ℕ) (b : Bytes) (m ups : List (List ℕ × Bytes))
      → collect decode f ((k, b) ∷ m) ≡ ok ups
      → (o : Option Bytes) × (rest : List (List ℕ × Bytes)) × (change decode f (some b) ≡ o)
        × (collect decode f m ≡ ok rest)
        × (ups ≡ pushed decode k o rest)
  unfolding collect
  collect-inv k b m ups h =
      let (a, decoded, h1) = bind-eq-ok (or_system_err (decode b)) _ ups h in
      let (o, made, h2) = bind-eq-ok (f a) _ ups h1 in
      let (rest, more, split) = bind-eq-ok (collect decode f m) _ ups h2 in
      (o, rest, ground (arith, or_system_err-eq-ok (decode b) a decoded), more, cc)

  lookup-pushed :
      (j k : List ℕ) (b : Bytes) (m ups rest : List (List ℕ × Bytes)) (o : Option Bytes)
      → lookup j m ≡ none
      → change decode f (some b) ≡ o
      → ups ≡ pushed decode j o rest
      → lookup k rest ≡ change decode f (lookup k m)
      → lookup k ups ≡ change decode f (lookup k ((j, b) ∷ m))
  lookup-pushed j k b m ups rest o alone made split ih = rw split (elim (Bool-cases (text_eq j k)) [
    | inl same ↦ rw same (here o ((text_eq_iff j k).0 same) made)
    | inr other ↦ rw other (there o other)
  ])
    where
      here :
          (o : Option Bytes)
          → j ≡ k
          → change decode f (some b) ≡ o
          → lookup k (pushed decode j o rest) ≡ change decode f (some b)
      here none e made = ih ∙ ap (change decode f) (ap (λ i. lookup i m) (sym e) ∙ alone) ∙ sym made
      here (some c) e made = rw e (rw (text_eq_refl k) (sym made))

      there :
          (o : Option Bytes)
          → text_eq j k ≡ false
          → lookup k (pushed decode j o rest) ≡ change decode f (lookup k m)
      there none other = ih
      there (some c) other = rw other ih

  -- What the loop collects under a key is the change of what stands there.
  pub lookup-collect :
      (m ups : List (List ℕ × Bytes)) (k : List ℕ)
      → HasDistinctKeys m
      → collect decode f m ≡ ok ups
      → lookup k ups ≡ change decode f (lookup k m)
  lookup-collect [] ups k d h = unfold collect in ground arith
  lookup-collect ((j, b) ∷ m) ups k d h =
      let (o, rest, made, more, split) = collect-inv j b m ups h in
      lookup-pushed j k b m ups rest o d.0 made split (lookup-collect m rest k d.1 more)

  pub collect-HasDistinctKeys :
      (m ups : List (List ℕ × Bytes))
      → HasDistinctKeys m
      → collect decode f m ≡ ok ups
      → HasDistinctKeys ups
  collect-HasDistinctKeys [] ups d h = unfold collect in subst HasDistinctKeys (empty_is ups h) tt
    where
      empty_is :
          (u : List (List ℕ × Bytes))
          → ◌≡◌ {A = Result (List (List ℕ × Bytes))} (ok []) (ok u)
          → [] ≡ u
      empty_is u e = cc
  collect-HasDistinctKeys ((j, b) ∷ m) ups d h =
      let (o, rest, made, more, split) = collect-inv j b m ups h in
      let alone : lookup j rest ≡ none =
        lookup-collect m rest j d.1 more ∙ ap (change decode f) d.0 in
      subst HasDistinctKeys (sym split)
        (distinct_pushed o rest alone (collect-HasDistinctKeys m rest d.1 more))
    where
      distinct_pushed :
          (o : Option Bytes) (rest : List (List ℕ × Bytes))
          → lookup j rest ≡ none
          → HasDistinctKeys rest
          → HasDistinctKeys (pushed decode j o rest)
      distinct_pushed none rest alone r = r
      distinct_pushed (some c) rest alone r = (alone, r)

module _ (P : Platform) where
  pub get-insert_all :
      (ups : List (List ℕ × Bytes)) (t : P.Table) (k : List ℕ)
      → HasDistinctKeys ups
      → P.get (insert_all P ups t) k ≡ or_else (lookup k ups) (P.get t k)
  unfolding insert_all
  get-insert_all [] t k d = refl
  get-insert_all ((j, b) ∷ m) t k d =
      ground (arith, get-insert_all m (P.insert j b t) k d.1, P.get-insert j k b t, text_eq_iff j k)

  module _ {A : Type 0} (decode : Bytes → Option A) (f : A → Result (Option Bytes)) where
    -- After a bulk update each key holds the changed value, or what it held before.
    pub get-rewritten :
        (t : P.Table) (ups : List (List ℕ × Bytes)) (k : List ℕ)
        → collect decode f (P.iter t) ≡ ok ups
        → P.get (insert_all P ups t) k ≡ or_else (change decode f (P.get t k)) (P.get t k)
    get-rewritten t ups k h =
        let d = HasDistinctKeys-of_IsAscending (P.iter t) (P.iter-IsAscending t) in
        get-insert_all ups t k (collect-HasDistinctKeys decode f (P.iter t) ups d h)
        ∙ ap (λ o. or_else o (P.get t k)) (lookup-collect decode f (P.iter t) ups k d h)
        ∙ ap (λ o. or_else (change decode f o) (P.get t k)) (P.get-iter t k)

-- Whether `p` holds of a stored value.
abbrev pub selects : {A : Type 0} → (Bytes → Option A) → (A → Bool) → Option Bytes → Bool
selects decode p none = false
selects decode p (some b) = elim (decode b) [ none ↦ false | some a ↦ p a ]

module _ {A : Type 0} (decode : Bytes → Option A) (p : A → Bool) where
  select_keys-inv :
      (k : List ℕ) (b : Bytes) (m : List (List ℕ × Bytes)) (ks : List (List ℕ))
      → select_keys decode p ((k, b) ∷ m) ≡ ok ks
      → (a : A) × (rest : List (List ℕ)) × (decode b ≡ some a)
        × (select_keys decode p m ≡ ok rest)
        × (ks ≡ (if p a then k ∷ rest else rest))
  unfolding select_keys
  select_keys-inv k b m ks h =
      let (a, decoded, h1) = bind-eq-ok (or_system_err (decode b)) _ ks h in
      let (rest, more, split) = bind-eq-ok (select_keys decode p m) _ ks h1 in
      (a, rest, or_system_err-eq-ok (decode b) a decoded, more, cc)

  selected_step :
      (j k : List ℕ) (b : Bytes) (m : List (List ℕ × Bytes)) (ks rest : List (List ℕ)) (a : A)
      → lookup j m ≡ none
      → decode b ≡ some a
      → ks ≡ (if p a then j ∷ rest else rest)
      → any (λ i. text_eq i k) rest ≡ selects decode p (lookup k m)
      → any (λ i. text_eq i k) ks ≡ selects decode p (lookup k ((j, b) ∷ m))
  selected_step j k b m ks rest a alone decoded split ih = elim (Bool-cases (text_eq j k)) [
    | inl same ↦
        let absent : lookup k m ≡ none =
          ap (λ i. lookup i m) (sym ((text_eq_iff j k).0 same)) ∙ alone in
        rw (split, same) (ground arith)
    | inr other ↦ rw (split, other) (ground arith)
  ]

  pub any-select_keys :
      (m : List (List ℕ × Bytes)) (ks : List (List ℕ)) (k : List ℕ)
      → HasDistinctKeys m
      → select_keys decode p m ≡ ok ks
      → any (λ j. text_eq j k) ks ≡ selects decode p (lookup k m)
  any-select_keys [] ks k d h = unfold select_keys in ground arith
  any-select_keys ((j, b) ∷ m) ks k d h =
      let (a, rest, decoded, more, split) = select_keys-inv j b m ks h in
      selected_step j k b m ks rest a d.0 decoded split (any-select_keys m rest k d.1 more)

module _ {A : Type 0} (decode : Bytes → Option A) (f : A → Result (Option Bytes)) where
  collect_first :
      (k : List ℕ) (b : Bytes) (m ups : List (List ℕ × Bytes))
      → collect decode f ((k, b) ∷ m) ≡ ok ups
      → (a : A) × (decode b ≡ some a)
        × ((o : Option Bytes) × (f a ≡ ok o)
            × (rest : List (List ℕ × Bytes)) × (collect decode f m ≡ ok rest))
  unfolding collect
  collect_first k b m ups h =
      let (a, decoded, h1) = bind-eq-ok (or_system_err (decode b)) _ ups h in
      let (o, made, h2) = bind-eq-ok (f a) _ ups h1 in
      let (rest, more, split) = bind-eq-ok (collect decode f m) _ ups h2 in
      (a, or_system_err-eq-ok (decode b) a decoded, (o, made, rest, more))

  -- A loop that succeeds has decoded and changed every entry.
  pub collect-decodes :
      (m ups : List (List ℕ × Bytes)) (k : List ℕ) (b : Bytes)
      → collect decode f m ≡ ok ups
      → lookup k m ≡ some b
      → (a : A) × (o : Option Bytes) × (decode b ≡ some a) × (f a ≡ ok o)
  collect-decodes [] ups k b h found = cc
  collect-decodes ((j, c) ∷ m) ups k b h found =
      let (a, decoded, h1) = collect_first j c m ups h in
      let (o, made, rest, more) = h1 in
      let ih = λ (g : lookup k m ≡ some b). collect-decodes m rest k b more g in
      elim (Bool-cases (text_eq j k)) [
        | inl same ↦
            let same_value : c ≡ b = ground arith in (a, o, rw (← same_value) decoded, made)
        | inr other ↦ ih (rw other at found)
      ]

  -- What a successful bulk update leaves under a key that was there.
  pub get-rewritten_at :
      (P : Platform) (t : P.Table) (ups : List (List ℕ × Bytes)) (k : List ℕ) (b : Bytes)
      → collect decode f (P.iter t) ≡ ok ups
      → P.get t k ≡ some b
      → (a : A) × (o : Option Bytes) × (decode b ≡ some a)
        × (f a ≡ ok o)
        × (P.get (insert_all P ups t) k ≡ or_else o (some b))
  get-rewritten_at P t ups k b collected found =
      let (a, o, decoded, made) =
        collect-decodes (P.iter t) ups k b collected (P.get-iter t k ∙ found) in
      (
        a,
        o,
        decoded,
        made,
        get-rewritten P decode f t ups k collected ∙ (rw found (changed_at a o decoded made)),
      )
    where
      changed_at :
          (a : A) (o : Option Bytes)
          → decode b ≡ some a
          → f a ≡ ok o
          → or_else (change decode f (some b)) (some b) ≡ or_else o (some b)
      changed_at a o decoded made = ground arith
