-- ===== src/Examples/Metadata.antt =====
-- Projects, triage and the schema on a small database.
use analytics.Common.{ℤ, pos, ◌≡◌, text_eq, refl, Bool, true, false, none, some, [], arith, codes}
use analytics.Platform.{lex_lt}
use analytics.Store.Records.{Project, Source, website, Pixel, ExceptionTriage}
use analytics.Store.Db.{Result, ok, err, Db, read_next_seq}
use analytics.Store.Entities.{
  put_project, put_source, put_pixel, delete_project_cascade, delete_existing,
}
use analytics.Store.Entities.Cascade.{CascadePost, delete_project_cascade-CascadePost}
use analytics.Store.Rewrite.{collect, select_keys}
use analytics.Store.Triage.{TriageInput, triage, apply_triage, is_resolved, is_muted}
use analytics.Store.Triage.Axes.{TriagePost, triage-TriagePost, apply_triage_axes}
use analytics.Store.Log.Append.{IsBelow}
use analytics.Store.Schema.{migrate, open_store}
use analytics.Store.Schema.Migration.{
  MigratePost, migrate-MigratePost, OpenPost, open_store-OpenPost,
}
use analytics.Examples.Tables.{list_platform}
use analytics.Examples.Codecs.Records.{json}

abbrev shop : Project ℤ
shop = record { id = codes "p1"; name = codes "Shop"; slug = codes "shop"; created_at = pos 1 }

abbrev shop_site : Source ℤ
shop_site = record {
  uri = codes "https://shop.com";
  project_id = some (codes "p1");
  kind = website;
  display_name = none;
  created_at = pos 1;
  first_seen = none;
  last_seen = none;
}

abbrev shop_pixel : Pixel ℤ
shop_pixel = record {
  id = codes "x1";
  project_id = codes "p1";
  name = codes "mail";
  event_name = codes "opened";
  metadata = [];
  created_at = pos 1;
  last_hit = none;
}

abbrev metadata_db : Db list_platform
metadata_db = record {
  events = list_platform.empty;
  projects = list_platform.empty;
  sources = list_platform.empty;
  pixels = list_platform.empty;
  exception_triage = list_platform.empty;
  meta = list_platform.empty;
}

abbrev or_old : Db list_platform → Result (Db list_platform) → Db list_platform
or_old db (ok db') = db'
or_old db (err e) = db

abbrev with_project : Db list_platform
with_project = or_old metadata_db (put_project list_platform json shop metadata_db)

abbrev with_source : Db list_platform
with_source = or_old with_project (put_source list_platform json shop_site with_project)

abbrev with_pixel : Db list_platform
with_pixel = or_old with_source (put_pixel list_platform json shop_pixel with_source)

abbrev deleted_or :
    Bool × Db list_platform → Result (Bool × Db list_platform) → Bool × Db list_platform
deleted_or d (ok r) = r
deleted_or d (err e) = d

abbrev deleted : Bool × Db list_platform
deleted =
    deleted_or (false, with_pixel)
      (delete_project_cascade list_platform json (codes "p1") with_pixel)

deletes : delete_project_cascade list_platform json (codes "p1") with_pixel ≡ ok deleted
unfolding delete_project_cascade delete_existing put_project put_source put_pixel lex_lt text_eq
    collect select_keys
deletes = refl

delete_project_cascade-CascadePost_example :
    CascadePost list_platform json (codes "p1") with_pixel deleted
delete_project_cascade-CascadePost_example =
    delete_project_cascade-CascadePost list_platform json (codes "p1") with_pixel deleted deletes

migrate-MigratePost_example :
    MigratePost list_platform json with_pixel (migrate list_platform json with_pixel)
migrate-MigratePost_example = migrate-MigratePost list_platform json with_pixel

no_events_IsBelow :
    IsBelow list_platform json (read_next_seq list_platform with_pixel) with_pixel.events
unfolding put_project put_source put_pixel
no_events_IsBelow k b h = cc

no_counter : read_next_seq list_platform with_pixel ≡ 0
unfolding read_next_seq put_project put_source put_pixel
no_counter = refl

open_store-OpenPost_example :
    OpenPost list_platform json with_pixel (open_store list_platform json with_pixel)
open_store-OpenPost_example =
    open_store-OpenPost list_platform json with_pixel no_events_IsBelow (omega (arith, no_counter))

abbrev resolving : TriageInput
resolving = record {
  project_id = codes "p1";
  resolved = some true;
  muted = none;
  note = none;
  source = codes " https://shop.com";
}

triage-TriagePost_example :
    TriagePost list_platform json
      (codes "g1")
      resolving
      none
      (pos 9)
      with_pixel
      (triage list_platform json (codes "g1") resolving none (pos 9) with_pixel)
triage-TriagePost_example =
    triage-TriagePost list_platform json (codes "g1") resolving none (pos 9) with_pixel

abbrev muted_before : ExceptionTriage ℤ
muted_before = record {
  resolved_at = none;
  muted_at = some (pos 3);
  note = none;
  updated_at = pos 3;
  updated_by = none;
}

apply_triage_axes_example :
    (is_resolved list_platform
        (apply_triage list_platform resolving none (pos 9) muted_before)
        (pos 9)
      ≡ true)
    × (is_muted list_platform (apply_triage list_platform resolving none (pos 9) muted_before)
        ≡ is_muted list_platform muted_before)
apply_triage_axes_example =
    apply_triage_axes list_platform resolving none (pos 9) muted_before (pos 9)
