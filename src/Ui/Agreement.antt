-- ===== src/Ui/Agreement.antt =====
-- What the dashboard sends and what the agent takes: the tables of fields of ui/src/filters.rs against
-- those of agent/src/analytics/filter.rs.
pub mod Fields
pub mod Chips
use analytics.Common.{
  text_eq_sym, Bool, true, false, ◌&&◌, ◌||◌, not, Option, none, some, List, [], ◌∷◌, ◌++◌, map,
  All, Text, codes, text_eq, all, any, if◌then◌else◌, ◌≡◌, refl, sym, ap, ◌∙◌, subst, Bool-cases,
  inl, inr, eq_of_text_eq, text_eq_refl, arith,
}
use analytics.Filter.Columns.{
  FieldSet, dashboard, exceptions, Field, column, find_field, common_fields, own_fields,
}
use analytics.Filter.Predicate.{elem}
use analytics.Ui.Dims.{fields_of}

abbrev pub is_some {ℓ} : {A : Type ℓ} → Option A → Bool
is_some none = false
is_some (some _) = true

-- The same truth on both sides.
pub iff_Bool : (a b : Bool) → (a ≡ true → b ≡ true) → (b ≡ true → a ≡ true) → a ≡ b
iff_Bool true b f g = sym (f refl)
iff_Bool false true f g = g refl
iff_Bool false false f g = refl

elem_subset :
    (xs ys : List Text) (s : Text)
    → All (λ x. elem ys x ≡ true) xs
    → elem xs s ≡ true
    → elem ys s ≡ true
elem_subset [] ys s h e = cc
elem_subset (x ∷ xs) ys s (h, hs) e = elim (Bool-cases (text_eq s x)) [
  | inl k ↦ subst (λ y. elem ys y ≡ true) (sym (eq_of_text_eq s x k)) h
  | inr k ↦ elem_subset xs ys s hs (rw k at e)
]

-- The names of a table of fields, and which of them it finds.
abbrev names : List (Text × Field) → List Text
names [] = []
names ((n, f) ∷ rest) = n ∷ names rest

find_field-names :
    (s : Text) (table : List (Text × Field)) → is_some (find_field s table) ≡ elem (names table) s
unfolding find_field
find_field-names s [] = refl
find_field-names s ((n, f) ∷ rest) =
    go (text_eq n s) (text_eq s n) (text_eq_sym n s) (find_field-names s rest)
  where
    go :
        (a b : Bool)
        → a ≡ b
        → is_some (find_field s rest) ≡ elem (names rest) s
        → is_some (if a then some f else find_field s rest) ≡ (b || elem (names rest) s)
    go true true e ih = refl
    go false false e ih = ih
    go true false e ih = cc
    go false true e ih = cc

abbrev agent_names : FieldSet → List Text
agent_names fs = codes "project" ∷ names (common_fields ++ own_fields fs)

ui_in_agent : (fs : FieldSet) → All (λ x. elem (agent_names fs) x ≡ true) (fields_of fs)
unfolding text_eq
ui_in_agent dashboard = (
  refl,
  (
    refl,
    (
      refl,
      (refl, (refl, (refl, (refl, (refl, (refl, (refl, (refl, (refl, (refl, (refl, tt))))))))))),
    ),
  ),
)
ui_in_agent exceptions =
    (refl, (refl, (refl, (refl, (refl, (refl, (refl, (refl, (refl, (refl, (refl, tt)))))))))))

agent_in_ui : (fs : FieldSet) → All (λ x. elem (fields_of fs) x ≡ true) (agent_names fs)
unfolding text_eq
agent_in_ui dashboard = (
  refl,
  (
    refl,
    (
      refl,
      (refl, (refl, (refl, (refl, (refl, (refl, (refl, (refl, (refl, (refl, (refl, tt))))))))))),
    ),
  ),
)
agent_in_ui exceptions =
    (refl, (refl, (refl, (refl, (refl, (refl, (refl, (refl, (refl, (refl, (refl, tt)))))))))))

-- The fields that the dashboard takes an endpoint to know are those that the agent knows: the project
-- and the names that have a column.
pub fields_of-column :
    (fs : FieldSet) (name : Text)
    → elem (fields_of fs) name ≡ (text_eq name (codes "project") || is_some (column fs name))
unfolding column
fields_of-column fs name =
    iff_Bool (elem (fields_of fs) name) (elem (agent_names fs) name)
      (elem_subset (fields_of fs) (agent_names fs) name (ui_in_agent fs))
      (elem_subset (agent_names fs) (fields_of fs) name (agent_in_ui fs))
    ∙ ap (λ b. text_eq name (codes "project") || b)
        (sym (find_field-names name (common_fields ++ own_fields fs)))
