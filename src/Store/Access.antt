-- ===== src/Store/Access.antt =====
-- What a table of records holds under each key, and what a write by key makes of it.
use analytics.Common.{
  Bool, true, false, ◌||◌, Option, none, some, List, [], ◌∷◌, map, any, Text, text_eq, text_eq_refl,
  eq_of_text_eq, if◌then◌else◌, ◌≡◌, refl, sym, ap, ◌∙◌, subst, Bool-cases, inl, inr, ◌⊎◌,
}
use analytics.Platform.{Bytes, Platform, Codec, lookup}
use analytics.Store.Db.{
  Result, ok, ◌>>=◌, or_system_err, bind-eq-ok, or_system_err-eq-ok, ok-injective, decode_all,
  put_json, get_json, list_json,
}

or_left : (a b : Bool) → a ≡ true → (a || b) ≡ true
or_left true b h = refl
or_left false b h = cc

or_right : (a b : Bool) → b ≡ true → (a || b) ≡ true
or_right true b h = refl
or_right false b h = h

-- Every entry of a scan that decodes is in what the scan answers.
any-decode_all :
    {A : Type 0} (decode : Bytes → Option A) (m : List (Text × Bytes)) (entries : List (Text × A))
    (p : A → Bool) (i : Text) (b : Bytes) (a : A)
    → decode_all decode m ≡ ok entries
    → lookup i m ≡ some b
    → decode b ≡ some a
    → p a ≡ true
    → any p (map (λ (e : Text × A). e.1) entries) ≡ true
unfolding decode_all
any-decode_all decode [] entries p i b a h found decoded hp = cc
any-decode_all decode ((k, c) ∷ m) entries p i b a h found decoded hp =
    let (x, hx, h1) = bind-eq-ok (or_system_err (decode c)) _ entries h in
    let (rest, hr, h2) = bind-eq-ok (decode_all decode m) _ entries h1 in
    subst (λ es. any p (map (λ (e : Text × _). e.1) es) ≡ true) (ok-injective _ entries h2)
      (elim (Bool-cases (text_eq k i)) [
        | inl here ↦
            or_left (p x) (any p (map (λ (e : Text × _). e.1) rest))
              (cc (rw here at found, or_system_err-eq-ok _ x hx, decoded, hp))
        | inr later ↦
            or_right (p x) (any p (map (λ (e : Text × _). e.1) rest))
              (any-decode_all decode m rest p i b a hr (rw later at found) decoded hp)
      ])

module _ (P : Platform) {T : Type 0} (c : Codec T) where
  -- The record under a key.
  abbrev pub Holds : Text → T → P.Table → Type 0
  Holds i x t = (b : Bytes) × (P.get t i ≡ some b) × (c.decode b ≡ some x)

  pub get_json-Holds :
      (i : Text) (x : T) (t : P.Table) → get_json P c i t ≡ ok (some x) → Holds i x t
  unfolding get_json
  get_json-Holds i x t h = go (P.get t i) h
    where
      go :
          (o : Option Bytes)
          → (elim o as (λ _. Result (Option T)) [
            | none ↦ ok none
            | some b ↦ or_system_err (c.decode b) >>= λ v. ok (some v)
          ])
            ≡ ok (some x)
          → (b : Bytes) × (o ≡ some b) × (c.decode b ≡ some x)
      go none h = cc
      go (some b) h =
          let (v, hv, k) = bind-eq-ok (or_system_err (c.decode b)) _ (some x) h in
          (b, refl, or_system_err-eq-ok _ v hv ∙ ok-injective (some v) (some x) k)

  pub get_json-of_Holds :
      (i : Text) (x : T) (t : P.Table) → Holds i x t → get_json P c i t ≡ ok (some x)
  unfolding get_json
  get_json-of_Holds i x t (b, found, decoded) =
      ap of_bytes found ∙ ap (λ o. or_system_err o >>= λ v. ok (some v)) decoded
    where
      of_bytes : Option Bytes → Result (Option T)
      of_bytes o = elim o [
        | none ↦ ok none
        | some b ↦ or_system_err (c.decode b) >>= λ v. ok (some v)
      ]

  -- A successful write, and what each key holds after it.
  pub put_json-get :
      (k : Text) (x : T) (t t' : P.Table)
      → put_json P c k x t ≡ ok t'
      → (b : Bytes) × (c.encode x ≡ some b)
        × ((i : Text) → P.get t' i ≡ (if text_eq k i then some b else P.get t i))
  unfolding put_json
  put_json-get k x t t' h =
      let (b, he, k1) = bind-eq-ok (or_system_err (c.encode x)) _ t' h in
      (
        b,
        or_system_err-eq-ok _ b he,
        λ i. ap (λ u. P.get u i) (sym (ok-injective _ t' k1)) ∙ P.get-insert k i b t,
      )

  pub put_json-Holds :
      (k : Text) (x : T) (t t' : P.Table) → put_json P c k x t ≡ ok t' → Holds k x t'
  put_json-Holds k x t t' h =
      let (b, encoded, after) = put_json-get k x t t' h in
      (
        b,
        after k ∙ ap (λ y. if y then some b else P.get t k) (text_eq_refl k),
        c.decode-encode x b encoded,
      )

  -- What is there after a write is what was written, or was there before under another key.
  pub Holds-put_json :
      (k : Text) (x : T) (t t' : P.Table) (i : Text) (y : T)
      → put_json P c k x t ≡ ok t'
      → Holds i y t'
      → ((k ≡ i) × (y ≡ x)) ⊎ ((text_eq k i ≡ false) × Holds i y t)
  Holds-put_json k x t t' i y h (b', found, decoded) =
      let (b, encoded, after) = put_json-get k x t t' h in
      let there = sym (after i) ∙ found in
      elim (Bool-cases (text_eq k i)) [
        | inl same ↦ inl (
          eq_of_text_eq k i same,
          some-injective (
              sym decoded
              ∙ ap c.decode (some-injective (sym (rw same at there)))
              ∙ c.decode-encode x b encoded),
        )
        | inr other ↦ inr (other, (b', (rw other at there), decoded))
      ]
    where
      some-injective : {A : Type 0} {u v : A} → ◌≡◌ {A = Option A} (some u) (some v) → u ≡ v
      some-injective h = cc

  pub Holds-put_json_other :
      (k : Text) (x : T) (t t' : P.Table) (i : Text) (y : T)
      → put_json P c k x t ≡ ok t'
      → text_eq k i ≡ false
      → Holds i y t
      → Holds i y t'
  Holds-put_json_other k x t t' i y h other (b', found, decoded) =
      let (b, encoded, after) = put_json-get k x t t' h in
      (b', after i ∙ ap (λ z. if z then some b else P.get t i) other ∙ found, decoded)

  -- Every record under a key is in the list of all.
  pub any-list_json :
      (t : P.Table) (xs : List T) (p : T → Bool) (i : Text) (x : T)
      → list_json P c t ≡ ok xs
      → Holds i x t
      → p x ≡ true
      → any p xs ≡ true
  unfolding list_json
  any-list_json t xs p i x h (b, found, decoded) hp =
      let (entries, he, k) = bind-eq-ok (decode_all c.decode (P.iter t)) _ xs h in
      subst (λ ys. any p ys ≡ true) (ok-injective _ xs k)
        (any-decode_all c.decode (P.iter t) entries p i b x he (P.get-iter t i ∙ found) decoded hp)
