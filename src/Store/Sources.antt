-- ===== src/Store/Sources.antt =====
-- api/src/source.rs: the URIs that identify the sources. Lower-casing is an argument: the tables of
-- Unicode are not in the repository.
use analytics.Common.{
  ◌||◌, Option, none, some, ◌++◌, Text, codes, starts_with, strip_prefix, trim, trim_end_by, ◌==◌,
  if◌then◌else◌,
}
use analytics.Store.Records.{SourceKind, website, application}

pub data SourceScheme : Type 0 where
  website_scheme application_scheme pixel_scheme other_scheme : SourceScheme

unfoldable pub website_source : (Text → Text) → Text → Text
website_source to_lowercase hostname =
    codes "https://" ++ to_lowercase (trim_end_by (λ c. c == b'.') (trim hostname))

unfoldable pub app_source : Text → Text
app_source name = codes "app://" ++ trim name

unfoldable pub pixel_source : Text → Text
pixel_source id = codes "pixel://" ++ id

unfoldable pub source_scheme : Text → SourceScheme
source_scheme source =
    if starts_with (codes "https://") source || starts_with (codes "http://") source
    then website_scheme
    else if starts_with (codes "app://") source
    then application_scheme
    else if starts_with (codes "pixel://") source
    then pixel_scheme
    else other_scheme

unfoldable pub pixel_id_of : Text → Option Text
pixel_id_of source = strip_prefix (codes "pixel://") source

abbrev or_strip : Text → Text → Option Text → Option Text
or_strip prefix source none = strip_prefix prefix source
or_strip prefix source (some rest) = some rest

unfoldable pub source_label : Text → Text
source_label source =
    elim (or_strip (codes "pixel://") source (
      or_strip (codes "app://") source
        (or_strip (codes "http://") source (strip_prefix (codes "https://") source)))) [
          | none ↦ source
          | some rest ↦ rest
        ]

unfoldable pub default_kind : Text → SourceKind
default_kind source = elim (source_scheme source) [ application_scheme ↦ application | _ ↦ website ]
