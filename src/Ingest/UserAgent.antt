-- ===== src/Ingest/UserAgent.antt =====
-- agent/src/ingest/ua.rs: the classes of a user agent. woothee's parser and `to_lowercase` of Unicode
-- are arguments. A scan by byte index is one over the rest of the text with the characters before it.
pub mod Classify
use analytics.Common.{
  ℕ, zero, suc, ◌+◌, ◌-◌, Bool, true, false, ◌&&◌, ◌||◌, not, Option, none, some, List, [], ◌∷◌,
  ◌++◌, map, Text, codes, length, all, any, ltb, ◌==◌, text_eq, is_ascii_digit,
  is_ascii_alphanumeric, trim, contains, starts_with, strip_prefix, is_empty, split_whitespace,
  split_once, count, trim_matches, eq_ignore_ascii_case, to_ascii_lowercase, if◌then◌else◌,
}

pub data UaKind : Type 0 where
  desktop mobile app bot : UaKind

-- `UaKind::as_str`
abbrev pub kind_name : UaKind → Text
kind_name desktop = codes "Desktop"
kind_name mobile = codes "Mobile"
kind_name app = codes "App"
kind_name bot = codes "Bot"

pub record UaClasses : Type 0 where
  pub app_name : Option Text
  pub version : Option Text
  pub os : Option Text
  pub kind : UaKind

-- What woothee tells of a user agent.
pub record WootheeResult : Type 0 where
  pub name : Text
  pub category : Text
  pub os : Text
  pub version : Text

unfoldable pub clean : Text → Option Text
clean value =
    if is_empty value || eq_ignore_ascii_case value (codes "UNKNOWN") then none else some value

-- The last character before a place, and the one before that.
abbrev is_joined : Option ℕ → Bool
is_joined none = false
is_joined (some c) = is_ascii_alphanumeric c

abbrev pub head_of : Text → Option ℕ
head_of [] = none
head_of (c ∷ s) = some c

abbrev pub bounded_word : Option ℕ → Option Text → Bool
bounded_word before none = false
bounded_word before (some after) = not (is_joined before) && not (is_joined (head_of after))

-- `contains_word`: an occurrence with no letter or digit on either side.
unfoldable pub word_from : Option ℕ → Text → Text → Bool
word_from before needle [] = bounded_word before (strip_prefix needle [])
word_from before needle (c ∷ s) =
    bounded_word before (strip_prefix needle (c ∷ s)) || word_from (some c) needle s

unfoldable pub contains_word : Text → Text → Bool
unfolding word_from
contains_word haystack needle = word_from none needle haystack

unfoldable pub looks_like_version : Text → Bool
looks_like_version token = not (is_empty token) && all (λ c. is_ascii_digit c || c == b'.') token

unfoldable pub strip_parens_from : ℕ → Text → Text
strip_parens_from depth [] = []
strip_parens_from depth (c ∷ s) =
    let deeper = strip_parens_from (depth + 1) s in
    let shallower = strip_parens_from (depth - 1) s in
    let same = strip_parens_from depth s in
    if c == b'('
    then deeper
    else if c == b')'
    then shallower
    else if depth == 0
    then c ∷ same
    else same

unfoldable pub strip_parens : Text → Text
unfolding strip_parens_from
strip_parens agent = strip_parens_from 0 agent

-- A run of digits and what follows it.
unfoldable pub digit_run : Text → Text × Text
digit_run [] = ([], [])
digit_run (c ∷ s) = let r = digit_run s in if is_ascii_digit c then (c ∷ r.0, r.1) else ([], c ∷ s)

-- The groups `.\d+` that follow, their number, and the rest.
unfoldable pub dotted_groups : ℕ → Text → Text × ℕ × Text
unfolding digit_run
dotted_groups zero s = ([], 0, s)
dotted_groups (suc fuel) [] = ([], 0, [])
dotted_groups (suc fuel) (c ∷ s) =
    let (run, after) = digit_run s in
    let (groups, n, rest) = dotted_groups fuel after in
    if c == b'.' && not (is_empty run) then (c ∷ (run ++ groups), n + 1, rest) else ([], 0, c ∷ s)

-- Whether a version may start behind these two characters, the nearer one first.
abbrev pub bounded_left : Option ℕ → Option ℕ → Bool
bounded_left none before = true
bounded_left (some prev) before =
    ((prev == b'v' || prev == b'V') && not (is_joined before))
    || (not (is_ascii_alphanumeric prev) && not (prev == b'.'))

abbrev last_two : Option ℕ → Option ℕ → Text → Option ℕ × Option ℕ
last_two prev before [] = (prev, before)
last_two prev before (c ∷ s) = last_two (some c) prev s

-- `find_version`, with fuel for its rounds: each takes at least one character.
unfoldable pub version_from : ℕ → Option ℕ → Option ℕ → Text → Option Text
unfolding digit_run dotted_groups
version_from zero prev before s = none
version_from (suc fuel) prev before [] = none
version_from (suc fuel) prev before (c ∷ s) =
    let (run, after) = digit_run (c ∷ s) in
    let (groups, n, rest) = dotted_groups (length after) after in
    let taken = run ++ groups in
    let (prev', before') = last_two prev before taken in
    let skipped = version_from fuel (some c) prev s in
    let later = version_from fuel prev' before' rest in
    if not (is_ascii_digit c)
    then skipped
    else if bounded_left prev before && not (is_joined (head_of rest)) && ltb 0 n
    then some taken
    else later

unfoldable pub find_version : Text → Option Text
unfolding version_from
find_version s = version_from (length s) none none s

abbrev pub structural : List Text
structural =
    codes "mozilla"
    ∷ codes "compatible"
    ∷ codes "applewebkit"
    ∷ codes "khtml"
    ∷ codes "gecko"
    ∷ codes "like"
    ∷ []

abbrev pub or_option {ℓ} : {A : Type ℓ} → Option A → Option A → Option A
or_option none o = o
or_option (some a) o = some a

abbrev pub version_of : Option Text → Option Text
version_of none = none
version_of (some v) = find_version v

abbrev name_and_version : Text → Text × Option Text
name_and_version token = elim (split_once b'/' token) [
  | none ↦ (token, none)
  | some (name, v) ↦ (name, some v)
]

abbrev is_no_name : Text → Bool
is_no_name name =
    is_empty name
    || looks_like_version name
    || any (λ t. text_eq t (to_ascii_lowercase name)) structural

-- The loop of `product_token`, with the depth of parentheses.
unfoldable pub token_from : Text → ℕ → List Text → Option Text × Option Text
token_from agent depth [] = (none, none)
token_from agent depth (token ∷ tokens) =
    let opens = count (λ c. c == b'(') token in
    let closes = count (λ c. c == b')') token in
    let inside = token_from agent (depth + opens - closes) tokens in
    let skipped = token_from agent depth tokens in
    let (name, v) = name_and_version token in
    let name' = trim_matches (λ c. not (is_ascii_alphanumeric c)) name in
    if ltb 0 depth || ltb 0 opens
    then inside
    else if contains (codes "://") token
    then skipped
    else if is_no_name name'
    then skipped
    else (some name', or_option (version_of v) (find_version (strip_parens agent)))

unfoldable pub product_token : Text → Option Text × Option Text
unfolding token_from
product_token agent = token_from agent 0 (split_whitespace agent)

module _ (to_lowercase : Text → Text) where
  unfoldable pub is_bot_name : Text → Bool
  is_bot_name name =
      any (λ marker. contains marker (to_lowercase name))
        (codes "bot" ∷ codes "crawler" ∷ codes "spider" ∷ [])

  unfoldable pub normalize_os : Text → Option Text
  normalize_os os =
      let lower = to_lowercase os in
      if starts_with (codes "windows") lower
      then some (codes "Windows")
      else if starts_with (codes "iphone") lower
          || starts_with (codes "ipad") lower
          || starts_with (codes "ipod") lower
          || starts_with (codes "ios") lower
      then some (codes "iOS")
      else if starts_with (codes "mac os") lower || starts_with (codes "macos") lower
      then some (codes "macOS")
      else if starts_with (codes "android") lower
      then some (codes "Android")
      else if starts_with (codes "chromeos") lower
      then some (codes "ChromeOS")
      else if starts_with (codes "linux") lower
      then some (codes "Linux")
      else clean os

  unfoldable pub sniff_os : Text → Option Text
  sniff_os agent =
      let lower = to_lowercase agent in
      if contains_word lower (codes "iphone")
        || contains_word lower (codes "ipad")
        || contains_word lower (codes "ipod")
        || contains_word lower (codes "ios")
      then some (codes "iOS")
      else if contains_word lower (codes "android")
      then some (codes "Android")
      else if contains_word lower (codes "windows")
      then some (codes "Windows")
      else if contains (codes "mac os x") lower
          || contains_word lower (codes "macos")
          || contains_word lower (codes "macintosh")
          || contains_word lower (codes "darwin")
      then some (codes "macOS")
      else if contains_word lower (codes "cros")
      then some (codes "ChromeOS")
      else if contains_word lower (codes "linux")
          || contains_word lower (codes "ubuntu")
          || contains_word lower (codes "debian")
          || contains_word lower (codes "fedora")
      then some (codes "Linux")
      else none
