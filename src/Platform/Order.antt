-- ===== src/Platform/Order.antt =====
-- The order of a scan: each key once.
use analytics.Common.{ℕ, ◌≡◌, refl, true, false, none, List, [], ◌∷◌, arith, text_eq_iff}
use analytics.Platform.{lex_lt, lookup, IsAscending}

pub lex_lt_trans : (a b c : List ℕ) → lex_lt a b ≡ true → lex_lt b c ≡ true → lex_lt a c ≡ true
unfolding lex_lt
lex_lt_trans [] [] c h k = cc
lex_lt_trans [] (y ∷ b) [] h k = cc
lex_lt_trans [] (y ∷ b) (z ∷ c) h k = refl
lex_lt_trans (x ∷ a) [] c h k = cc
lex_lt_trans (x ∷ a) (y ∷ b) [] h k = cc
lex_lt_trans (x ∷ a) (y ∷ b) (z ∷ c) h k = ground (arith, lex_lt_trans a b c)

lex_lt_irrefl : (a : List ℕ) → lex_lt a a ≡ false
unfolding lex_lt
lex_lt_irrefl [] = refl
lex_lt_irrefl (x ∷ a) = ground (arith, lex_lt_irrefl a)

-- A key is found in no later entry.
abbrev pub HasDistinctKeys {ℓ} : {V : Type ℓ} → List (List ℕ × V) → Type ℓ
HasDistinctKeys [] = Unit
HasDistinctKeys ((k, v) ∷ m) = (lookup k m ≡ none) × HasDistinctKeys m

module _ {V : Type 0} where
  absent_below :
      (k j : List ℕ) (w : V) (m : List (List ℕ × V))
      → lex_lt k j ≡ true
      → IsAscending ((j, w) ∷ m)
      → lookup k ((j, w) ∷ m) ≡ none
  absent_below k j w [] h a = ground (arith, text_eq_iff j k, lex_lt_irrefl k)
  absent_below k j w ((i, u) ∷ m) h a =
      ground (
        arith,
        text_eq_iff j k,
        lex_lt_irrefl k,
        absent_below k i u m (lex_lt_trans k j i h a.0) a.1,
      )

  pub HasDistinctKeys-of_IsAscending : (m : List (List ℕ × V)) → IsAscending m → HasDistinctKeys m
  HasDistinctKeys-of_IsAscending [] a = tt
  HasDistinctKeys-of_IsAscending ((k, v) ∷ []) a = (refl, tt)
  HasDistinctKeys-of_IsAscending ((k, v) ∷ (j, w) ∷ m) a =
      (absent_below k j w m a.0 a.1, HasDistinctKeys-of_IsAscending ((j, w) ∷ m) a.1)
