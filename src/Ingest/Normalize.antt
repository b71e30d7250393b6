-- ===== src/Ingest/Normalize.antt =====
-- agent/src/ingest/normalize.rs: the noise that is taken out of the frames and the messages of
-- exceptions before they are grouped. A scan by index over the characters is one over the rest of
-- the text. `to_lowercase` of Unicode is an argument.
pub mod Shape
pub mod UrlScan
pub mod Urls
use analytics.Common.{
  ℕ, zero, suc, ◌+◌, ◌≤◌, Bool, true, false, ◌&&◌, ◌||◌, not, Option, none, some, List, [], ◌∷◌,
  ◌++◌, map, Text, codes, length, keep, all, any, ltb, leb, ◌==◌, text_eq, is_ascii_digit,
  is_ascii_alphabetic, is_ascii_alphanumeric, is_ascii_hexdigit, utf8_len, trim, contains,
  strip_prefix, split_by, before_first, is_empty, split_whitespace, join, lines, count,
  if◌then◌else◌,
}

-- `DropQuery`
abbrev pub drop_query : Text → Text
drop_query input = before_first (λ c. c == b'?') input

-- `url_end`: what follows a URL that the text starts with.
abbrev pub is_terminator : ℕ → Bool
is_terminator c =
    c == b' '
    || c == 9
    || c == 10
    || c == 13
    || c == b')'
    || c == b']'
    || c == b'}'
    || c == b'>'
    || c == 34
    || c == 39
    || c == b'`'
    || c == b','
    || c == b';'

unfoldable pub after_target : Text → Text
after_target [] = []
after_target (c ∷ s) = let rest = after_target s in if is_terminator c then c ∷ s else rest

abbrev pub after_colon : Text → Option Text
after_colon s = elim (strip_prefix (codes "://") s) [ none ↦ none | some t ↦ some (after_target t) ]

unfoldable pub after_scheme : Text → Option Text
unfolding after_target
after_scheme [] = none
after_scheme (c ∷ s) =
    let rest = after_scheme s in if is_ascii_alphabetic c then rest else after_colon (c ∷ s)

unfoldable pub url_end : Text → Option Text
unfolding after_scheme
url_end [] = none
url_end (c ∷ s) = if is_ascii_alphabetic c then after_scheme s else none

-- The loop; each round takes at least one code point.
unfoldable pub strip_from : ℕ → Text → Text
strip_from zero s = []
strip_from (suc fuel) [] = []
strip_from (suc fuel) (c ∷ s) = elim (url_end (c ∷ s)) [
  | none ↦ c ∷ strip_from fuel s
  | some rest ↦ strip_from fuel rest
]

-- `strip_urls`
unfoldable pub strip_urls : Text → Text
unfolding strip_from
strip_urls input = if contains (codes "://") input then strip_from (length input) input else input

abbrev pub is_separator : ℕ → Bool
is_separator c = c == b'/' || c == 92

abbrev pub is_path_char : ℕ → Bool
is_path_char c =
    is_ascii_alphanumeric c
    || c == b'.'
    || c == b'_'
    || c == b'-'
    || c == b'~'
    || c == b'@'
    || c == b'+'
    || c == b'$'

-- The last segment that is not empty.
abbrev last_filled : Text → List Text → Text
last_filled found [] = found
last_filled found (segment ∷ rest) = last_filled (if is_empty segment then found else segment) rest

unfoldable pub basename : Text → Text
unfolding split_by
basename path =
    if any (λ s. not (is_empty s)) (split_by is_separator path)
    then last_filled [] (split_by is_separator path)
    else path

unfoldable pub looks_like_path : Text → Bool
unfolding basename
looks_like_path run =
    let separators = count is_separator run in
    leb 2 separators || (separators == 1 && contains (codes ".") (basename run))

abbrev pub emit_run : Text → Text
emit_run run = if looks_like_path run then basename run else run

-- The loop of `normalize_paths`, with the run that it is in.
unfoldable pub paths_from : Text → Text → Text
paths_from run [] = emit_run run
paths_from run (c ∷ s) =
    let longer = paths_from (run ++ (c ∷ [])) s in
    let after = paths_from [] s in
    if is_path_char c || is_separator c then longer else emit_run run ++ (c ∷ after)

unfoldable pub normalize_paths : Text → Text
unfolding paths_from
normalize_paths input = if any is_separator input then paths_from [] input else input

abbrev pub is_token_char : ℕ → Bool
is_token_char c = is_ascii_alphanumeric c || c == b'-' || c == b'_'

abbrev pub emit_token : (Text → Option Text) → Text → Text
emit_token classify token = elim (classify token) [ some placeholder ↦ placeholder | none ↦ token ]

-- The loop of `map_tokens`, with the token that it is in, if any.
unfoldable pub tokens_from : (Text → Option Text) → Text → Text → Text
tokens_from classify [] [] = []
tokens_from classify (d ∷ token) [] = emit_token classify (d ∷ token)
tokens_from classify token (c ∷ s) =
    let longer = tokens_from classify (token ++ (c ∷ [])) s in
    let after = tokens_from classify [] s in
    if is_token_char c
    then longer
    else (if is_empty token then [] else emit_token classify token) ++ (c ∷ after)

unfoldable pub map_tokens : Text → (Text → Option Text) → Text
unfolding tokens_from
map_tokens input classify = tokens_from classify [] input

-- The test of `is_uuid` on the byte at an index. On a token every byte is a code point.
abbrev pub uuid_byte : ℕ → ℕ → Bool
uuid_byte i b = if i == 8 || i == 13 || i == 18 || i == 23 then b == b'-' else is_ascii_hexdigit b

abbrev pub all_from : ℕ → Text → Bool
all_from i [] = true
all_from i (b ∷ s) = uuid_byte i b && all_from (i + 1) s

unfoldable pub is_uuid : Text → Bool
is_uuid token = utf8_len token == 36 && all_from 0 token

abbrev pub is_hex_rest : Option Text → Bool
is_hex_rest none = false
is_hex_rest (some rest) = not (is_empty rest) && all is_ascii_hexdigit rest

unfoldable pub is_hex_address : Text → Bool
is_hex_address token = is_hex_rest (strip_prefix (codes "0x") token)

unfoldable pub is_hex_hash : Text → Bool
is_hex_hash token =
    leb 10 (utf8_len token) && all is_ascii_hexdigit token && any is_ascii_digit token

-- `then_some`
abbrev pub then_some : Bool → Text → Option Text
then_some b t = if b then some t else none

-- `NormalizeUuids`, `NormalizeHexAddresses` and `NormalizeHashes`
abbrev pub normalize_uuids : Text → Text
normalize_uuids input = map_tokens input (λ t. then_some (is_uuid t) (codes "<uuid>"))

abbrev pub normalize_hex_addresses : Text → Text
normalize_hex_addresses input =
    map_tokens input (λ t. then_some (is_hex_address t) (codes "<addr>"))

abbrev pub normalize_hashes : Text → Text
normalize_hashes input = map_tokens input (λ t. then_some (is_hex_hash t) (codes "<hash>"))

-- `StripDigits`
abbrev pub strip_digits : Text → Text
strip_digits input = keep (λ c. not (is_ascii_digit c)) input

-- `CollapseWhitespace`
unfoldable pub collapse_whitespace : Text → Text
unfolding split_whitespace join
collapse_whitespace input = join (codes " ") (split_whitespace input)

-- `Pipeline::run`
abbrev pub run : List (Text → Text) → Text → Text
run [] text = text
run (stage ∷ stages) text = run stages (stage text)

-- `Vec::dedup`
abbrev pub dedup_after : Text → List Text → List Text
dedup_after last [] = []
dedup_after last (f ∷ fs) =
    let same = dedup_after last fs in
    let other = dedup_after f fs in if text_eq last f then same else f ∷ other

unfoldable pub dedup : List Text → List Text
dedup [] = []
dedup (f ∷ fs) = f ∷ dedup_after f fs

module _ (to_lowercase : Text → Text) where
  abbrev pub frame_pipeline : List (Text → Text)
  frame_pipeline =
      drop_query ∷ strip_urls ∷ normalize_paths ∷ to_lowercase ∷ normalize_uuids
      ∷ normalize_hex_addresses ∷ normalize_hashes ∷ strip_digits ∷ collapse_whitespace ∷ []

  abbrev pub message_pipeline : List (Text → Text)
  message_pipeline =
      strip_urls ∷ to_lowercase ∷ normalize_uuids ∷ normalize_hex_addresses ∷ normalize_hashes
      ∷ strip_digits ∷ collapse_whitespace ∷ []

  abbrev pub is_filled : Text → Bool
  is_filled line = not (is_empty line)

  unfoldable pub frames : Text → List Text
  unfolding dedup
  frames stack =
      dedup (keep is_filled (map (run frame_pipeline) (keep is_filled (map trim (lines stack)))))

  unfoldable pub message : Text → Text
  message text = run message_pipeline text
