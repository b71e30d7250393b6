-- ===== src/Examples/Codecs/Records.antt =====
-- The encodings of the stored records, and all of them together.
use analytics.Common.{ℕ, ℤ, ◌≡◌, refl, Bool, Option, List, Text}
use analytics.Platform.{Codec}
use analytics.Store.Event.{EventKind, StoredEvent}
use analytics.Store.Records.{
  Project, Source, SourceKind, website, application, Pixel, ExceptionTriage, LegacyTriage,
}
use analytics.Store.Db.{Json}
use analytics.Examples.Tables.{list_platform}
use analytics.Examples.Codecs.{
  Stream, ◌⊗◌, via, codec_via, number, integer, flag, list, option, text, texts, event_kind,
}

abbrev kind_flag : SourceKind → Bool
kind_flag website = Bool.false
kind_flag application = Bool.true

abbrev flag_kind : Bool → SourceKind
flag_kind Bool.false = website
flag_kind Bool.true = application

pub flag_kind-kind_flag : (k : SourceKind) → flag_kind (kind_flag k) ≡ k
flag_kind-kind_flag website = refl
flag_kind-kind_flag application = refl

abbrev source_kind : Stream SourceKind
source_kind = via kind_flag flag_kind flag_kind-kind_flag flag

abbrev EventFields : Type 0
EventFields =
    ℤ
    × (ℤ
        × (ℕ
            × (Text
                × ((Option Text)
                    × (EventKind
                        × (Text
                            × ((Option Text)
                                × (Bool
                                    × (Bool
                                        × ((Option Text)
                                            × ((Option Text)
                                                × ((Option Text)
                                                    × ((Option Text)
                                                        × ((Option Text)
                                                            × ((Option Text)
                                                            × ((Option Text)
                                                            × ((Option Text)
                                                            × ((Option Text)
                                                            × ((Option Text)
                                                            × ((Option Text)
                                                            × ((Option ℤ)
                                                            × ((Option Text)
                                                            × ((Option Text)
                                                            × ((Option Text)
                                                            × ((Option Text)
                                                            × ((Option Text)
                                                            × ((Option Text)
                                                            × ((Option Text)
                                                            × ((Option
                                                            Bool))))))))))))))))))))))))))))))

abbrev event_to : StoredEvent → EventFields
event_to e = (
  e.created_ms,
  (
    e.received_ms,
    (
      e.seq,
      (
        e.bid,
        (
          e.sid,
          (
            e.kind,
            (
              e.source,
              (
                e.pathname,
                (
                  e.is_unique_user,
                  (
                    e.is_unique_page,
                    (
                      e.referrer_host,
                      (
                        e.referrer_group,
                        (
                          e.country,
                          (
                            e.language,
                            (
                              e.ua_browser,
                              (
                                e.ua_version,
                                (
                                  e.ua_os,
                                  (
                                    e.ua_device,
                                    (
                                      e.utm_source,
                                      (
                                        e.utm_medium,
                                        (
                                          e.utm_campaign,
                                          (
                                            e.duration_ms,
                                            (
                                              e.event_name,
                                              (
                                                e.metadata_json,
                                                (
                                                  e.app_version,
                                                  (
                                                    e.exc_type,
                                                    (
                                                      e.exc_message,
                                                      (e.exc_stack, (e.exc_group, e.exc_handled)),
                                                    ),
                                                  ),
                                                ),
                                              ),
                                            ),
                                          ),
                                        ),
                                      ),
                                    ),
                                  ),
                                ),
                              ),
                            ),
                          ),
                        ),
                      ),
                    ),
                  ),
                ),
              ),
            ),
          ),
        ),
      ),
    ),
  ),
)

abbrev event_from : EventFields → StoredEvent
event_from p = record {
  created_ms = p.0;
  received_ms = p.1.0;
  seq = p.1.1.0;
  bid = p.1.1.1.0;
  sid = p.1.1.1.1.0;
  kind = p.1.1.1.1.1.0;
  source = p.1.1.1.1.1.1.0;
  pathname = p.1.1.1.1.1.1.1.0;
  is_unique_user = p.1.1.1.1.1.1.1.1.0;
  is_unique_page = p.1.1.1.1.1.1.1.1.1.0;
  referrer_host = p.1.1.1.1.1.1.1.1.1.1.0;
  referrer_group = p.1.1.1.1.1.1.1.1.1.1.1.0;
  country = p.1.1.1.1.1.1.1.1.1.1.1.1.0;
  language = p.1.1.1.1.1.1.1.1.1.1.1.1.1.0;
  ua_browser = p.1.1.1.1.1.1.1.1.1.1.1.1.1.1.0;
  ua_version = p.1.1.1.1.1.1.1.1.1.1.1.1.1.1.1.0;
  ua_os = p.1.1.1.1.1.1.1.1.1.1.1.1.1.1.1.1.0;
  ua_device = p.1.1.1.1.1.1.1.1.1.1.1.1.1.1.1.1.1.0;
  utm_source = p.1.1.1.1.1.1.1.1.1.1.1.1.1.1.1.1.1.1.0;
  utm_medium = p.1.1.1.1.1.1.1.1.1.1.1.1.1.1.1.1.1.1.1.0;
  utm_campaign = p.1.1.1.1.1.1.1.1.1.1.1.1.1.1.1.1.1.1.1.1.0;
  duration_ms = p.1.1.1.1.1.1.1.1.1.1.1.1.1.1.1.1.1.1.1.1.1.0;
  event_name = p.1.1.1.1.1.1.1.1.1.1.1.1.1.1.1.1.1.1.1.1.1.1.0;
  metadata_json = p.1.1.1.1.1.1.1.1.1.1.1.1.1.1.1.1.1.1.1.1.1.1.1.0;
  app_version = p.1.1.1.1.1.1.1.1.1.1.1.1.1.1.1.1.1.1.1.1.1.1.1.1.0;
  exc_type = p.1.1.1.1.1.1.1.1.1.1.1.1.1.1.1.1.1.1.1.1.1.1.1.1.1.0;
  exc_message = p.1.1.1.1.1.1.1.1.1.1.1.1.1.1.1.1.1.1.1.1.1.1.1.1.1.1.0;
  exc_stack = p.1.1.1.1.1.1.1.1.1.1.1.1.1.1.1.1.1.1.1.1.1.1.1.1.1.1.1.0;
  exc_group = p.1.1.1.1.1.1.1.1.1.1.1.1.1.1.1.1.1.1.1.1.1.1.1.1.1.1.1.1.0;
  exc_handled = p.1.1.1.1.1.1.1.1.1.1.1.1.1.1.1.1.1.1.1.1.1.1.1.1.1.1.1.1.1;
}

abbrev event_stream : Stream EventFields
event_stream =
    integer
    ⊗ integer
    ⊗ number
    ⊗ text
    ⊗ texts
    ⊗ event_kind
    ⊗ text
    ⊗ texts
    ⊗ flag
    ⊗ flag
    ⊗ texts
    ⊗ texts
    ⊗ texts
    ⊗ texts
    ⊗ texts
    ⊗ texts
    ⊗ texts
    ⊗ texts
    ⊗ texts
    ⊗ texts
    ⊗ texts
    ⊗ (option integer)
    ⊗ texts
    ⊗ texts
    ⊗ texts
    ⊗ texts
    ⊗ texts
    ⊗ texts
    ⊗ texts
    ⊗ (option flag)

abbrev pub event_codec : Codec (StoredEvent)
event_codec = codec_via event_to event_from (λ e. refl) event_stream

abbrev ProjectFields : Type 0
ProjectFields = Text × (Text × (Text × (ℤ)))

abbrev project_to : Project ℤ → ProjectFields
project_to e = (e.id, (e.name, (e.slug, e.created_at)))

abbrev project_from : ProjectFields → Project ℤ
project_from p = record { id = p.0; name = p.1.0; slug = p.1.1.0; created_at = p.1.1.1 }

abbrev project_stream : Stream ProjectFields
project_stream = text ⊗ text ⊗ text ⊗ integer

abbrev pub project_codec : Codec (Project ℤ)
project_codec = codec_via project_to project_from (λ e. refl) project_stream

abbrev SourceFields : Type 0
SourceFields =
    Text × ((Option Text) × (SourceKind × ((Option Text) × (ℤ × ((Option ℤ) × ((Option ℤ)))))))

abbrev source_to : Source ℤ → SourceFields
source_to e =
    (e.uri, (e.project_id, (e.kind, (e.display_name, (e.created_at, (e.first_seen, e.last_seen))))))

abbrev source_from : SourceFields → Source ℤ
source_from p = record {
  uri = p.0;
  project_id = p.1.0;
  kind = p.1.1.0;
  display_name = p.1.1.1.0;
  created_at = p.1.1.1.1.0;
  first_seen = p.1.1.1.1.1.0;
  last_seen = p.1.1.1.1.1.1;
}

abbrev source_stream : Stream SourceFields
source_stream = text ⊗ texts ⊗ source_kind ⊗ texts ⊗ integer ⊗ (option integer) ⊗ (option integer)

abbrev pub source_codec : Codec (Source ℤ)
source_codec = codec_via source_to source_from (λ e. refl) source_stream

abbrev PixelFields : Type 0
PixelFields = Text × (Text × (Text × (Text × ((List (Text × Text)) × (ℤ × ((Option ℤ)))))))

abbrev pixel_to : Pixel ℤ → PixelFields
pixel_to e =
    (e.id, (e.project_id, (e.name, (e.event_name, (e.metadata, (e.created_at, e.last_hit))))))

abbrev pixel_from : PixelFields → Pixel ℤ
pixel_from p = record {
  id = p.0;
  project_id = p.1.0;
  name = p.1.1.0;
  event_name = p.1.1.1.0;
  metadata = p.1.1.1.1.0;
  created_at = p.1.1.1.1.1.0;
  last_hit = p.1.1.1.1.1.1;
}

abbrev pixel_stream : Stream PixelFields
pixel_stream = text ⊗ text ⊗ text ⊗ text ⊗ (list (text ⊗ text)) ⊗ integer ⊗ (option integer)

abbrev pub pixel_codec : Codec (Pixel ℤ)
pixel_codec = codec_via pixel_to pixel_from (λ e. refl) pixel_stream

abbrev TriageFields : Type 0
TriageFields = (Option ℤ) × ((Option ℤ) × ((Option Text) × (ℤ × ((Option Text)))))

abbrev triage_to : ExceptionTriage ℤ → TriageFields
triage_to e = (e.resolved_at, (e.muted_at, (e.note, (e.updated_at, e.updated_by))))

abbrev triage_from : TriageFields → ExceptionTriage ℤ
triage_from p = record {
  resolved_at = p.0;
  muted_at = p.1.0;
  note = p.1.1.0;
  updated_at = p.1.1.1.0;
  updated_by = p.1.1.1.1;
}

abbrev triage_stream : Stream TriageFields
triage_stream = (option integer) ⊗ (option integer) ⊗ texts ⊗ integer ⊗ texts

abbrev pub triage_codec : Codec (ExceptionTriage ℤ)
triage_codec = codec_via triage_to triage_from (λ e. refl) triage_stream

abbrev LegacyFields : Type 0
LegacyFields = Text × ((Option Text) × (ℤ × ((Option Text))))

abbrev legacy_to : LegacyTriage ℤ → LegacyFields
legacy_to e = (e.status, (e.note, (e.updated_at, e.updated_by)))

abbrev legacy_from : LegacyFields → LegacyTriage ℤ
legacy_from p = record { status = p.0; note = p.1.0; updated_at = p.1.1.0; updated_by = p.1.1.1 }

abbrev legacy_stream : Stream LegacyFields
legacy_stream = text ⊗ texts ⊗ integer ⊗ texts

abbrev pub legacy_codec : Codec (LegacyTriage ℤ)
legacy_codec = codec_via legacy_to legacy_from (λ e. refl) legacy_stream

abbrev pub json : Json list_platform
json = record {
  event = event_codec;
  project = project_codec;
  source = source_codec;
  pixel = pixel_codec;
  triage = triage_codec;
  legacy_triage = legacy_codec.decode;
}
