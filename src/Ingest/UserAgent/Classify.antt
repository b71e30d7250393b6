-- ===== src/Ingest/UserAgent/Classify.antt =====
-- agent/src/ingest/ua.rs: `classify`.
use analytics.Common.{
  Bool, true, false, ◌||◌, Option, none, some, Text, codes, text_eq, trim, is_empty,
  eq_ignore_ascii_case, if◌then◌else◌,
}
use analytics.Ingest.UserAgent.{
  UaKind, desktop, mobile, app, bot, UaClasses, WootheeResult, clean, is_bot_name, normalize_os,
  sniff_os, product_token, or_option,
}

abbrev pub default_classes : UaClasses
default_classes = record { app_name = none; version = none; os = none; kind = bot }

abbrev pub is_generic : Text → Bool
is_generic name = text_eq name (codes "HTTP Library") || text_eq name (codes "RSSReader")

abbrev pub is_crawler : Option WootheeResult → Bool
is_crawler none = false
is_crawler (some r) = eq_ignore_ascii_case r.category (codes "crawler")

abbrev pub kind_of_category : Text → UaKind
kind_of_category category =
    if text_eq category (codes "smartphone") || text_eq category (codes "mobilephone")
    then mobile
    else if text_eq category (codes "pc") || text_eq category (codes "appliance")
    then desktop
    else app

-- The name by which woothee knows the client, and what it tells.
abbrev pub known : Option WootheeResult → Option (Text × WootheeResult)
known none = none
known (some r) = elim (clean r.name) [
  | none ↦ none
  | some name ↦ if is_generic name then none else some (name, r)
]

abbrev pub os_label : Option WootheeResult → Option Text
os_label none = none
os_label (some r) = clean r.os

abbrev pub version_label : Option WootheeResult → Option Text
version_label none = none
version_label (some r) = clean r.version

module _ (to_lowercase : Text → Text) where
  abbrev pub fold_os : Option Text → Option Text
  fold_os none = none
  fold_os (some os) = normalize_os to_lowercase os

  abbrev pub known_classes : Text → WootheeResult → UaClasses
  known_classes name r = record {
    app_name = some name;
    version = clean r.version;
    os = fold_os (clean r.os);
    kind =
        if is_bot_name to_lowercase name || is_crawler (some r)
        then bot
        else kind_of_category r.category;
  }

  abbrev pub kind_of_unknown : Bool → Option Text → Option Text → UaKind
  kind_of_unknown true name os = bot
  kind_of_unknown false (some name) os = if is_bot_name to_lowercase name then bot else app
  kind_of_unknown false none none = bot
  kind_of_unknown false none (some os) = app

  abbrev pub unknown_classes : Text → Option WootheeResult → UaClasses
  unknown_classes agent parsed =
      let os = or_option (fold_os (os_label parsed)) (sniff_os to_lowercase agent) in
      let (name, v) = product_token agent in
      record {
        app_name = name;
        version = or_option v (version_label parsed);
        os = os;
        kind = kind_of_unknown (is_crawler parsed) name os;
      }

  -- `woothee` is its parser on the trimmed user agent.
  unfoldable pub classify : (Text → Option WootheeResult) → Text → UaClasses
  classify woothee user_agent =
      let agent = trim user_agent in
      if is_empty agent then default_classes else elim (known (woothee agent)) [
        | some (name, r) ↦ known_classes name r
        | none ↦ unknown_classes agent (woothee agent)
      ]
