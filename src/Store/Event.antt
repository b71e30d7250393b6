-- ===== src/Store/Event.antt =====
-- agent/src/store/event.rs: an ingested event and its kind.
use analytics.Common.{ℕ, ℤ, pos, Bool, true, false, Option, none, [], Text, codes}

pub data EventKind : Type 0 where
  page_load page_unload custom pixel exception : EventKind

-- `EventKind::as_str`
unfoldable pub as_str : EventKind → Text
as_str page_load = codes "page_load"
as_str page_unload = codes "page_unload"
as_str custom = codes "custom"
as_str pixel = codes "pixel"
as_str exception = codes "exception"

abbrev pub is_exception : EventKind → Bool
is_exception exception = true
is_exception _ = false

pub record StoredEvent : Type 0 where
  pub created_ms : ℤ
  pub received_ms : ℤ
  pub seq : ℕ
  pub bid : Text
  pub sid : Option Text
  pub kind : EventKind
  pub source : Text
  pub pathname : Option Text
  pub is_unique_user : Bool
  pub is_unique_page : Bool
  pub referrer_host : Option Text
  pub referrer_group : Option Text
  pub country : Option Text
  pub language : Option Text
  pub ua_browser : Option Text
  pub ua_version : Option Text
  pub ua_os : Option Text
  pub ua_device : Option Text
  pub utm_source : Option Text
  pub utm_medium : Option Text
  pub utm_campaign : Option Text
  pub duration_ms : Option ℤ
  pub event_name : Option Text
  pub metadata_json : Option Text
  pub app_version : Option Text
  pub exc_type : Option Text
  pub exc_message : Option Text
  pub exc_stack : Option Text
  pub exc_group : Option Text
  pub exc_handled : Option Bool

-- `StoredEvent::default()`
abbrev pub default_event : StoredEvent
default_event = record {
  created_ms = pos 0;
  received_ms = pos 0;
  seq = 0;
  bid = [];
  sid = none;
  kind = page_load;
  source = [];
  pathname = none;
  is_unique_user = false;
  is_unique_page = false;
  referrer_host = none;
  referrer_group = none;
  country = none;
  language = none;
  ua_browser = none;
  ua_version = none;
  ua_os = none;
  ua_device = none;
  utm_source = none;
  utm_medium = none;
  utm_campaign = none;
  duration_ms = none;
  event_name = none;
  metadata_json = none;
  app_version = none;
  exc_type = none;
  exc_message = none;
  exc_stack = none;
  exc_group = none;
  exc_handled = none;
}
