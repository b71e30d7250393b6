-- ===== src/Ingest/Enrich/Bounds.antt =====
-- What an event that is built from a request can hold.
use analytics.Common.{
  ℕ, ℤ, ◌+◌, ◌≤◌, ◌≡◌, ◌⊎◌, refl, sym, ap, ◌∙◌, subst, false, Bool-cases, Option, none, some,
  Option-cases, [], ◌∷◌, ◌++◌, arith, inl, inr, Text, utf8_len, is_empty, if◌then◌else◌,
}
use analytics.Store.Event.{EventKind, StoredEvent}
use analytics.Store.Sources.{website_source}
use analytics.Ingest.Fields.{truncate, filled, parsed_host}
use analytics.Ingest.Fields.Bounds.{truncate-le}
use analytics.Ingest.UserAgent.{UaKind, UaClasses}
use analytics.Ingest.UserAgent.Classify.{classify}
use analytics.Ingest.Exception.{
  max_field, max_message, max_stack, max_app_field, map_option, clean_session, clean_app_field,
  Crates, accepted, is_bot, ExceptionReport, exception_event, build_exception,
}
use analytics.Ingest.Enrich.{max_path, max_metadata_value, TrackEvent, Utm}

-- At most so many bytes, and the ellipsis.
abbrev pub IsCapped : ℕ → Option Text → Type 0
IsCapped max none = Unit
IsCapped max (some t) = utf8_len t ≤ max + 3

map_option-IsCapped :
    (max : ℕ) (o : Option Text) → IsCapped max (map_option (λ t. truncate t max) o)
map_option-IsCapped max none = tt
map_option-IsCapped max (some t) = truncate-le t max

pub record IsCappedUtm (u : Utm) : Type 0 where
  pub source : IsCapped max_field u.source
  pub medium : IsCapped max_field u.medium
  pub campaign : IsCapped max_field u.campaign

-- The metadata that is serialized: few entries, each key and value cut.
abbrev pub IsCappedEntry : Text × Text → Type 0
IsCappedEntry (k, v) = (utf8_len k ≤ max_field + 3) × (utf8_len v ≤ max_metadata_value + 3)

module _ (X : Crates) where
  -- An event that is kept comes from a URL with a host and from a client that is no bot.
  pub record Accepted (url : Text) (user_agent : Text) (e : StoredEvent) : Type 0 where
    pub hostname : Text
    pub has_host : parsed_host X.to_lowercase X.url_parser (X.url_parser.parse url) ≡ some hostname
    pub named : is_empty hostname ≡ false
    pub no_bot : is_bot (classify X.to_lowercase X.woothee user_agent).kind ≡ false
    pub source : e.source ≡ website_source X.to_lowercase hostname

  pub record CappedEvent (e : StoredEvent) : Type 0 where
    pub bid : utf8_len e.bid ≤ max_field + 3
    pub sid : IsCapped max_field e.sid
    pub pathname : IsCapped max_path e.pathname
    pub utm_source : IsCapped max_field e.utm_source
    pub utm_medium : IsCapped max_field e.utm_medium
    pub utm_campaign : IsCapped max_field e.utm_campaign
    pub event_name : IsCapped max_field e.event_name

  -- No host, an empty one, or a bot.
  abbrev pub Refused : Option Text → UaClasses → Type 0
  Refused host ua = (host ≡ none) ⊎ ((host ≡ some []) ⊎ (ua.kind ≡ UaKind.bot))

  accepted-none : (o : Option Text) (ua : UaClasses) → accepted X o ua ≡ none → Refused o ua
  accepted-none none ua h = inl refl
  accepted-none (some []) ua h = inr (inl refl)
  accepted-none (some (c ∷ t)) ua h = inr (inr (bot_of ua.kind h))
    where
      bot_of : (k : UaKind) → (if is_bot k then none else some (c ∷ t)) ≡ none → k ≡ UaKind.bot
      bot_of UaKind.bot e = refl
      bot_of UaKind.desktop e = cc
      bot_of UaKind.mobile e = cc
      bot_of UaKind.app e = cc

  abbrev pub BuildPost : TrackEvent → Text → ℤ → Option StoredEvent → Type 0
  BuildPost track ua ms none =
      Refused (parsed_host X.to_lowercase X.url_parser (X.url_parser.parse track.url))
        (classify X.to_lowercase X.woothee ua)
  BuildPost track ua ms (some e) =
      Accepted track.url ua e × CappedEvent e × (e.received_ms ≡ ms) × (e.created_ms ≡ ms)

  accepted-inv :
      (o : Option Text) (ua : UaClasses) (host : Text)
      → accepted X o ua ≡ some host
      → (o ≡ some host) × (is_empty host ≡ false) × (is_bot ua.kind ≡ false)
  accepted-inv none ua host h = cc
  accepted-inv (some h') ua host h = (ground arith, ground arith, ground arith)

  pub record CappedException (e : StoredEvent) : Type 0 where
    pub sid : IsCapped max_field e.sid
    pub app_version : IsCapped max_app_field e.app_version
    pub exc_type : IsCapped max_message e.exc_type
    pub exc_message : IsCapped max_message e.exc_message
    pub exc_stack : IsCapped max_stack e.exc_stack

  abbrev pub ExceptionPost : ExceptionReport → Text → ℤ → Option StoredEvent → Type 0
  ExceptionPost report ua ms none =
      Refused (parsed_host X.to_lowercase X.url_parser (X.url_parser.parse report.url))
        (classify X.to_lowercase X.woothee ua)
  ExceptionPost report ua ms (some e) =
      Accepted report.url ua e
      × CappedException e
      × (e.received_ms ≡ ms)
      × (e.kind ≡ EventKind.exception)

  -- What a report becomes: nothing, where its URL has no host or its client is a bot; else an
  -- exception of that host, received now, with its session, version, type, message and stack cut to
  -- their caps.
  pub build_exception-ExceptionPost :
      (report : ExceptionReport) (ua : Text) (ms : ℤ)
      → ExceptionPost report ua ms (build_exception X report ua ms)
  unfolding build_exception clean_session clean_app_field
  build_exception-ExceptionPost report ua ms =
      let classes = classify X.to_lowercase X.woothee ua in
      let host = parsed_host X.to_lowercase X.url_parser (X.url_parser.parse report.url) in
      elim (Option-cases (accepted X host classes)) [
        | inl dropped ↦
            subst (ExceptionPost report ua ms)
              (ap
                (λ (o : Option Text). elim o [
                  | none ↦ none
                  | some h ↦ some (exception_event X report h classes ms)
                ])
                (sym dropped))
              (accepted-none host classes dropped)
        | inr (hostname, kept) ↦
            let (has, named, no_bot) = accepted-inv host classes hostname kept in
            subst (ExceptionPost report ua ms)
              (ap
                (λ (o : Option Text). elim o [
                  | none ↦ none
                  | some h ↦ some (exception_event X report h classes ms)
                ])
                (sym kept))
              (
                record {
                  hostname = hostname;
                  has_host = has;
                  named = named;
                  no_bot = no_bot;
                  source = refl;
                },
                record {
                  sid = map_option-IsCapped max_field (filled report.session);
                  app_version = map_option-IsCapped max_app_field (filled report.app_version);
                  exc_type = truncate-le report.exc_type max_message;
                  exc_message = truncate-le report.message_text max_message;
                  exc_stack = map_option-IsCapped max_stack report.stack;
                },
                refl,
                refl,
              )
      ]
