-- ===== src/Ingest/Fields.antt =====
-- agent/src/ingest/mod.rs, language.rs and referrer.rs, and summary_line of api/src/exception.rs: the
-- text fields of an event. A text of the model is a list of code points and its length in bytes is
-- that of its UTF-8 encoding; `to_lowercase` of Unicode and the parser of URLs are arguments.
pub mod Bounds
use analytics.Common.{
  ℕ, ◌+◌, ◌-◌, ◌≤◌, Bool, true, false, ◌&&◌, ◌||◌, not, Option, none, some, List, [], ◌∷◌, ◌++◌,
  map, Text, codes, all, any, leb, ltb, ◌==◌, utf8_width, utf8_len, is_ascii_alphabetic, trim,
  contains, before_first, is_empty, lines, eq_ignore_ascii_case, trim_start_matches, length,
  if◌then◌else◌,
}

abbrev pub ellipsis : ℕ
ellipsis = 0x2026

-- The longest prefix of at most so many bytes that ends between code points.
unfoldable pub prefix_of : ℕ → Text → Text
prefix_of room [] = []
prefix_of room (c ∷ s) =
    let rest = prefix_of (room - utf8_width c) s in if leb (utf8_width c) room then c ∷ rest else []

unfoldable pub truncate : Text → ℕ → Text
unfolding prefix_of
truncate value max =
    if leb (utf8_len value) max then value else prefix_of max value ++ (ellipsis ∷ [])

abbrev pub non_empty : Text → Option Text
non_empty t = if is_empty t then none else some t

-- `str::trim` and `filter(!is_empty)` on an optional text
abbrev pub filled : Option Text → Option Text
filled none = none
filled (some t) = non_empty (trim t)

-- `summary_line`
abbrev first_filled : List Text → Text
first_filled [] = []
first_filled (l ∷ ls) = let rest = first_filled ls in if is_empty l then rest else l

unfoldable pub summary_line : Text → Text
summary_line message = first_filled (map trim (lines message))

module _ (to_lowercase : Text → Text) where
  unfoldable pub primary_language : Text → Option Text
  primary_language accept_language =
      let first = before_first (λ c. c == b',') accept_language in
      let tag = trim (before_first (λ c. c == b';') first) in
      let base = to_lowercase (trim (before_first (λ c. c == b'-') tag)) in
      if is_empty base || not (all is_ascii_alphabetic base) then none else some base

  -- `normalize` of referrer.rs, and the host of build_event
  unfoldable pub normalize_host : Text → Text
  unfolding trim_start_matches
  normalize_host host = to_lowercase (trim_start_matches (length host) (codes "www.") host)

abbrev pub search_hosts : List Text
search_hosts =
    codes "google."
    ∷ codes "bing."
    ∷ codes "duckduckgo."
    ∷ codes "yahoo."
    ∷ codes "yandex."
    ∷ codes "baidu."
    ∷ codes "ecosia."
    ∷ codes "brave."
    ∷ codes "startpage."
    ∷ codes "qwant."
    ∷ []

abbrev pub social_hosts : List Text
social_hosts =
    codes "facebook."
    ∷ codes "twitter."
    ∷ codes "x.com"
    ∷ codes "t.co"
    ∷ codes "linkedin."
    ∷ codes "reddit."
    ∷ codes "instagram."
    ∷ codes "youtube."
    ∷ codes "mastodon"
    ∷ codes "bsky."
    ∷ codes "pinterest."
    ∷ codes "tiktok."
    ∷ codes "news.ycombinator.com"
    ∷ codes "lobste.rs"
    ∷ codes "threads."
    ∷ []

unfoldable pub group_for : Text → Option Text
group_for host =
    if any (λ p. contains p host) search_hosts
    then some (codes "Search")
    else if any (λ p. contains p host) social_hosts
    then some (codes "Social")
    else none

pub record Referrer : Type 0 where
  pub host : Option Text
  pub group : Option Text

abbrev pub no_referrer : Referrer
no_referrer = record { host = none; group = none }

-- The `url` crate: a URL that parses, and its parts.
pub record UrlParser : Type 1 where
  pub Url : Type 0
  pub parse : Text → Option Url
  pub host_str : Url → Option Text
  pub path : Url → Text
  pub query_pairs : Url → List (Text × Text)

module _ (to_lowercase : Text → Text) (U : UrlParser) where
  abbrev pub parsed_host : Option U.Url → Option Text
  parsed_host none = none
  parsed_host (some u) = elim (U.host_str u) [
    | none ↦ none
    | some h ↦ some (normalize_host to_lowercase h)
  ]

  abbrev referrer_of : Text → Option Text → Referrer
  referrer_of self_host none = no_referrer
  referrer_of self_host (some host) =
      if eq_ignore_ascii_case host self_host
      then no_referrer
      else record { host = some host; group = group_for host }

  -- `classify` of referrer.rs
  unfoldable pub classify_referrer : Option Text → Text → Referrer
  classify_referrer referrer self_host = elim (filled referrer) [
    | none ↦ no_referrer
    | some raw ↦ referrer_of self_host (parsed_host (U.parse raw))
  ]
