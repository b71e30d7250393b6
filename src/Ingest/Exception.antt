-- ===== src/Ingest/Exception.antt =====
-- agent/src/ingest/exception.rs: the fingerprint of an exception and the event built from a report.
-- SHA-256, serde_json and the crates of Fields and UserAgent are arguments.
use analytics.Common.{
  ℕ, ℤ, Bool, true, false, Option, none, some, List, [], ◌∷◌, ◌++◌, Text, take, ◌+◌, ◌/◌, ◌%◌, ltb,
  trim, is_empty, as_bytes, if◌then◌else◌,
}
use analytics.Platform.{Bytes}
use analytics.Store.Event.{EventKind, StoredEvent, default_event}
use analytics.Store.Sources.{website_source}
use analytics.Ingest.Normalize.{frames, message}
use analytics.Ingest.Fields.{truncate, filled, summary_line, UrlParser, parsed_host}
use analytics.Ingest.UserAgent.{UaKind, bot, kind_name, UaClasses, WootheeResult}
use analytics.Ingest.UserAgent.Classify.{classify}

abbrev pub top_frames : ℕ
top_frames = 5

abbrev pub max_message : ℕ
max_message = 1000

abbrev pub max_stack : ℕ
max_stack = 16000

abbrev pub max_app_field : ℕ
max_app_field = 120

abbrev pub max_field : ℕ
max_field = 256

-- `{b:02x}`
abbrev pub hex_digit : ℕ → ℕ
hex_digit d = if ltb d 10 then b'0' + d else 87 + d

abbrev pub hex_byte : ℕ → Text
hex_byte b = hex_digit (b / 16) ∷ hex_digit (b % 16) ∷ []

abbrev pub hex : Bytes → Text
hex [] = []
hex (b ∷ bs) = hex_byte b ++ hex bs

abbrev pub frame_lines : List Text → Bytes
frame_lines [] = []
frame_lines (f ∷ fs) = as_bytes f ++ (10 ∷ frame_lines fs)

module _ (sha256 : Bytes → Bytes) where
  unfoldable pub short_hash : Bytes → Text
  short_hash bytes = hex (take 8 (sha256 bytes))

  module _ (to_lowercase : Text → Text) where
    -- What is hashed of a report without a fingerprint of its own.
    abbrev pub grouped_by : Text → Text → Option Text → Bytes
    grouped_by exc_type text none =
        as_bytes (to_lowercase (trim exc_type))
        ++ (10 ∷ as_bytes (message to_lowercase (summary_line text)))
    grouped_by exc_type text (some stack) =
        as_bytes (to_lowercase (trim exc_type))
        ++ (10 ∷ frame_lines (take top_frames (frames to_lowercase stack)))

    unfoldable pub fingerprint : Text → Text → Option Text → Option Text → Text
    unfolding short_hash
    fingerprint exc_type text stack override_fp = elim (filled override_fp) [
      | some fp ↦ short_hash (as_bytes fp)
      | none ↦ short_hash (sha256 (grouped_by exc_type text (filled stack)))
    ]

abbrev pub map_option : (Text → Text) → Option Text → Option Text
map_option f none = none
map_option f (some t) = some (f t)

unfoldable pub clean_app_field : Option Text → Option Text
clean_app_field value = map_option (λ v. truncate v max_app_field) (filled value)

-- `clean_session` of enrich.rs
unfoldable pub clean_session : Option Text → Option Text
clean_session session = map_option (λ s. truncate s max_field) (filled session)

pub record ExceptionReport : Type 0 where
  pub exc_type : Text
  pub message_text : Text
  pub url : Text
  pub stack : Option Text
  pub handled : Bool
  pub beacon : Option Text
  pub session : Option Text
  pub app_version : Option Text
  pub metadata : Option (List (Text × Text))
  pub own_fingerprint : Option Text

abbrev pub is_bot : UaKind → Bool
is_bot bot = true
is_bot _ = false

abbrev unwrap_empty : Option Text → Text
unwrap_empty none = []
unwrap_empty (some t) = t

abbrev non_empty_json :
    (List (Text × Text) → Option Text) → Option (List (Text × Text)) → Option Text
non_empty_json to_string none = none
non_empty_json to_string (some []) = none
non_empty_json to_string (some (e ∷ m)) = to_string (e ∷ m)

-- The crates that the ingest of an event calls.
pub record Crates : Type 1 where
  pub to_lowercase : Text → Text
  pub url_parser : UrlParser
  pub woothee : Text → Option WootheeResult
  pub sha256 : Bytes → Bytes
  pub map_to_string : List (Text × Text) → Option Text
  pub country_code_from_timezone : Text → Option Text

module _ (X : Crates) where
  abbrev pub exception_event : ExceptionReport → Text → UaClasses → ℤ → StoredEvent
  exception_event report hostname ua received_ms = record default_event {
    created_ms = received_ms;
    received_ms = received_ms;
    bid = unwrap_empty report.beacon;
    sid = clean_session report.session;
    kind = EventKind.exception;
    source = website_source X.to_lowercase hostname;
    is_unique_user = false;
    is_unique_page = false;
    ua_browser = ua.app_name;
    ua_version = ua.version;
    ua_os = ua.os;
    ua_device = some (kind_name ua.kind);
    metadata_json = non_empty_json X.map_to_string report.metadata;
    app_version = clean_app_field report.app_version;
    exc_type = some (truncate report.exc_type max_message);
    exc_message = some (truncate report.message_text max_message);
    exc_stack = map_option (λ s. truncate s max_stack) report.stack;
    exc_group = some (
        fingerprint X.sha256 X.to_lowercase report.exc_type report.message_text report.stack
          report.own_fingerprint);
    exc_handled = some report.handled;
  }

  -- The host of a URL, unless the event is to be dropped: no host, or a bot.
  abbrev pub accepted : Option Text → UaClasses → Option Text
  accepted none ua = none
  accepted (some host) ua =
      if is_empty host then none else if is_bot ua.kind then none else some host

  unfoldable pub build_exception : ExceptionReport → Text → ℤ → Option StoredEvent
  unfolding fingerprint clean_app_field clean_session
  build_exception report user_agent received_ms =
      let ua = classify X.to_lowercase X.woothee user_agent in
      elim (accepted (parsed_host X.to_lowercase X.url_parser (X.url_parser.parse report.url)) ua) [
        | none ↦ none
        | some hostname ↦ some (exception_event report hostname ua received_ms)
      ]
