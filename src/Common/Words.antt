-- ===== src/Common/Words.antt =====
-- More operations of `str`: words, lines, and the bytes of a text.
use Prim.Native.Nat.{ℕ, zero, suc, ◌+◌, ◌/◌, ◌%◌}
use mathlib.Core.Bool.{Bool, true, false, ◌&&◌, not}
use mathlib.Core.Option.{Option, none, some}
use mathlib.Core.List.{List, [], ◌∷◌, ◌++◌, map}
use analytics.Common.Tests.{ltb, leb, ◌==◌, if◌then◌else◌}
use analytics.Common.Lists.{length, keep}
use analytics.Common.Str.{
  Text, text_eq, is_whitespace, strip_prefix, trim_start_by, trim_end_by, split_by,
}

abbrev pub is_empty : Text → Bool
is_empty [] = true
is_empty (_ ∷ _) = false

-- `split_whitespace`
unfoldable pub split_whitespace : Text → List Text
unfolding split_by
split_whitespace s = keep (λ w. not (is_empty w)) (split_by is_whitespace s)

-- `join`
unfoldable pub join : Text → List Text → Text
join sep [] = []
join sep (w ∷ []) = w
join sep (w ∷ v ∷ ws) = w ++ (sep ++ join sep (v ∷ ws))

abbrev starts_line_feed : Text → Bool
starts_line_feed [] = false
starts_line_feed (c ∷ s) = c == 10

abbrev add_first : ℕ → List Text → List Text
add_first c [] = (c ∷ []) ∷ []
add_first c (l ∷ ls) = (c ∷ l) ∷ ls

-- `lines`: a line ends at LF or CR LF, and an empty last one is left out.
unfoldable pub lines : Text → List Text
lines [] = []
lines (c ∷ s) =
    let rest = lines s in
    if c == 10 then [] ∷ rest else if c == 13 && starts_line_feed s then rest else add_first c rest

-- `trim_matches`, and `trim_start_matches` with a prefix, for as many rounds as there are code points.
unfoldable pub trim_matches : (ℕ → Bool) → Text → Text
unfolding trim_start_by trim_end_by
trim_matches p s = trim_end_by p (trim_start_by p s)

unfoldable pub trim_start_matches : ℕ → Text → Text → Text
trim_start_matches zero prefix s = s
trim_start_matches (suc fuel) prefix s = elim (strip_prefix prefix s) [
  | none ↦ s
  | some rest ↦ trim_start_matches fuel prefix rest
]

abbrev pub to_ascii_lower : ℕ → ℕ
to_ascii_lower c = if leb b'A' c && leb c b'Z' then c + 32 else c

abbrev pub to_ascii_lowercase : Text → Text
to_ascii_lowercase s = map to_ascii_lower s

unfoldable pub eq_ignore_ascii_case : Text → Text → Bool
unfolding text_eq
eq_ignore_ascii_case s t = text_eq (to_ascii_lowercase s) (to_ascii_lowercase t)

abbrev push_front : ℕ → Option (Text × Text) → Option (Text × Text)
push_front c none = none
push_front c (some (a, b)) = some (c ∷ a, b)

-- `split_once` with one code point
unfoldable pub split_once : ℕ → Text → Option (Text × Text)
split_once sep [] = none
split_once sep (c ∷ s) =
    let rest = split_once sep s in if c == sep then some ([], s) else push_front c rest

abbrev pub count : (ℕ → Bool) → Text → ℕ
count p s = length (keep p s)

-- `as_bytes`: UTF-8.
abbrev utf8_char : ℕ → List ℕ
utf8_char c =
    if ltb c 0x80
    then c ∷ []
    else if ltb c 0x800
    then (0xc0 + c / 64) ∷ (0x80 + c % 64) ∷ []
    else if ltb c 0x10000
    then (0xe0 + c / 4096) ∷ (0x80 + c / 64 % 64) ∷ (0x80 + c % 64) ∷ []
    else (0xf0 + c / 262144) ∷ (0x80 + c / 4096 % 64) ∷ (0x80 + c / 64 % 64) ∷ (0x80 + c % 64) ∷ []

unfoldable pub as_bytes : Text → List ℕ
as_bytes [] = []
as_bytes (c ∷ s) = utf8_char c ++ as_bytes s
