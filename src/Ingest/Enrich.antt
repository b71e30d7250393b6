-- ===== src/Ingest/Enrich.antt =====
-- agent/src/ingest/enrich.rs: the event built from a beacon.
pub mod Bounds
use analytics.Common.{
  ℕ, ℤ, Bool, true, false, Option, none, some, List, [], ◌∷◌, Text, codes, text_eq, take, ◌==◌,
  trim, trim_end_by, is_empty, if◌then◌else◌,
}
use analytics.Platform.{lex_lt}
use analytics.Store.Event.{EventKind, StoredEvent, default_event}
use analytics.Store.Sources.{website_source}
use analytics.Ingest.Fields.{
  truncate, filled, primary_language, Referrer, classify_referrer, UrlParser, parsed_host,
}
use analytics.Ingest.UserAgent.{UaKind, kind_name, UaClasses}
use analytics.Ingest.UserAgent.Classify.{classify}
use analytics.Ingest.Exception.{max_field, map_option, clean_session, Crates, accepted}

abbrev pub max_path : ℕ
max_path = 1024

abbrev pub max_metadata_entries : ℕ
max_metadata_entries = 32

abbrev pub max_metadata_value : ℕ
max_metadata_value = 1024

pub data BeaconKind : Type 0 where
  load unload custom_kind : BeaconKind

abbrev pub kind_of_beacon : BeaconKind → EventKind
kind_of_beacon load = EventKind.page_load
kind_of_beacon unload = EventKind.page_unload
kind_of_beacon custom_kind = EventKind.custom

pub record TrackEvent : Type 0 where
  pub beacon : Text
  pub session : Option Text
  pub kind : BeaconKind
  pub url : Text
  pub referrer : Option Text
  pub unique_visit : Bool
  pub unique_page : Bool
  pub timezone : Option Text
  pub duration_ms : Option ℤ
  pub event_name : Option Text
  pub metadata : Option (List (Text × Text))

pub record Utm : Type 0 where
  pub source : Option Text
  pub medium : Option Text
  pub campaign : Option Text

abbrev pub set_utm : Text → Text → Utm → Utm
set_utm key value u =
    if text_eq key (codes "utm_source")
    then record u { source = some value }
    else if text_eq key (codes "utm_medium")
    then record u { medium = some value }
    else if text_eq key (codes "utm_campaign")
    then record u { campaign = some value }
    else u

-- The last value of a key counts; blank values are passed over.
unfoldable pub extract_utm : List (Text × Text) → Utm → Utm
extract_utm [] u = u
extract_utm ((key, raw) ∷ pairs) u =
    let value = trim raw in
    extract_utm pairs (if is_empty value then u else set_utm key (truncate value max_field) u)

unfoldable pub normalize_path : Text → Text
normalize_path path =
    let trimmed = trim_end_by (λ c. c == b'/') path in
    if is_empty trimmed then codes "/" else trimmed

-- `collect` into a sorted map: of entries whose keys are cut to the same text the last one stays.
unfoldable pub insert_entry : Text → Text → List (Text × Text) → List (Text × Text)
insert_entry k v [] = (k, v) ∷ []
insert_entry k v ((j, w) ∷ m) =
    let rest = insert_entry k v m in
    if text_eq k j then (k, v) ∷ m else if lex_lt k j then (k, v) ∷ (j, w) ∷ m else (j, w) ∷ rest

unfoldable pub capped_into : List (Text × Text) → List (Text × Text) → List (Text × Text)
unfolding insert_entry
capped_into [] m = m
capped_into ((k, v) ∷ entries) m =
    capped_into entries (insert_entry (truncate k max_field) (truncate v max_metadata_value) m)

abbrev pub capped : List (Text × Text) → List (Text × Text)
capped meta = capped_into (take max_metadata_entries meta) []

abbrev pub serialize_metadata :
    (List (Text × Text) → Option Text) → Option (List (Text × Text)) → Option Text
serialize_metadata to_string none = none
serialize_metadata to_string (some []) = none
serialize_metadata to_string (some (e ∷ m)) = to_string (capped (e ∷ m))

abbrev pub bind_option : (Text → Option Text) → Option Text → Option Text
bind_option f none = none
bind_option f (some t) = f t

module _ (X : Crates) where
  abbrev pub pairs_of : Option X.url_parser.Url → List (Text × Text)
  pairs_of none = []
  pairs_of (some u) = X.url_parser.query_pairs u

  abbrev pub path_of : Option X.url_parser.Url → Text
  path_of none = []
  path_of (some u) = X.url_parser.path u

  abbrev pub no_utm : Utm
  no_utm = record { source = none; medium = none; campaign = none }

  abbrev pub track_event :
      TrackEvent → Option X.url_parser.Url → Text → UaClasses → Option Text → ℤ → StoredEvent
  track_event track url hostname ua accept_language received_ms =
      let referrer = classify_referrer X.to_lowercase X.url_parser track.referrer hostname in
      let utm = extract_utm (pairs_of url) no_utm in
      record default_event {
        created_ms = received_ms;
        received_ms = received_ms;
        bid = truncate track.beacon max_field;
        sid = clean_session track.session;
        kind = kind_of_beacon track.kind;
        source = website_source X.to_lowercase hostname;
        pathname = some (truncate (normalize_path (path_of url)) max_path);
        is_unique_user = track.unique_visit;
        is_unique_page = track.unique_page;
        referrer_host = referrer.host;
        referrer_group = referrer.group;
        country = bind_option X.country_code_from_timezone track.timezone;
        language = bind_option (primary_language X.to_lowercase) accept_language;
        ua_browser = ua.app_name;
        ua_version = ua.version;
        ua_os = ua.os;
        ua_device = some (kind_name ua.kind);
        utm_source = utm.source;
        utm_medium = utm.medium;
        utm_campaign = utm.campaign;
        duration_ms = track.duration_ms;
        event_name = map_option (λ n. truncate n max_field) track.event_name;
        metadata_json = serialize_metadata X.map_to_string track.metadata;
      }

  unfoldable pub build_event : TrackEvent → Text → Option Text → ℤ → Option StoredEvent
  unfolding extract_utm normalize_path capped_into
  build_event track user_agent accept_language received_ms =
      let ua = classify X.to_lowercase X.woothee user_agent in
      let url = X.url_parser.parse track.url in
      elim (accepted X (parsed_host X.to_lowercase X.url_parser url) ua) [
        | none ↦ none
        | some hostname ↦ some (track_event track url hostname ua accept_language received_ms)
      ]
