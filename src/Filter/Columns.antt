-- ===== src/Filter/Columns.antt =====
-- agent/src/analytics/filter.rs: the fields that a query may name, and the columns they stand for.
use analytics.Common.{
  Bool, true, false, Option, none, some, List, [], ◌∷◌, ◌++◌, Text, codes, text_eq, if◌then◌else◌,
}

pub data FieldSet : Type 0 where
  dashboard exceptions : FieldSet

pub record Field : Type 0 where
  pub column : Text
  pub boolean : Bool

abbrev string_field : Text → Field
string_field c = record { column = c; boolean = false }

abbrev pub common_fields : List (Text × Field)
common_fields =
    (codes "source", string_field (codes "source"))
    ∷ (codes "browser", string_field (codes "ua_browser"))
    ∷ (codes "version", string_field (codes "ua_version"))
    ∷ (codes "os", string_field (codes "ua_os"))
    ∷ (codes "device", string_field (codes "ua_device"))
    ∷ []

abbrev pub own_fields : FieldSet → List (Text × Field)
own_fields dashboard =
    (codes "path", string_field (codes "pathname"))
    ∷ (codes "referrer", string_field (codes "referrer_host"))
    ∷ (codes "country", string_field (codes "country"))
    ∷ (codes "language", string_field (codes "language"))
    ∷ (codes "utm_source", string_field (codes "utm_source"))
    ∷ (codes "utm_medium", string_field (codes "utm_medium"))
    ∷ (codes "utm_campaign", string_field (codes "utm_campaign"))
    ∷ (codes "event", string_field (codes "event_name"))
    ∷ []
own_fields exceptions =
    (codes "app", string_field (codes "source"))
    ∷ (codes "app_version", string_field (codes "app_version"))
    ∷ (codes "type", string_field (codes "exc_type"))
    ∷ (codes "message", string_field (codes "exc_message"))
    ∷ (codes "handled", record { column = codes "exc_handled"; boolean = true })
    ∷ []

unfoldable pub find_field : Text → List (Text × Field) → Option Field
find_field name [] = none
find_field name ((n, f) ∷ rest) = if text_eq n name then some f else find_field name rest

unfoldable pub column : FieldSet → Text → Option Field
column fields name = find_field name (common_fields ++ own_fields fields)
