-- ===== src/Examples/Regroup.antt =====
-- The pass that groups stored exceptions again, on one exception and one page view.
use analytics.Common.{ℕ, pos, ◌≡◌, refl, some, [], ◌∷◌, ◌++◌, codes, text_eq}
use analytics.Platform.{lex_lt}
use analytics.Store.Keys.{event_key, be_bytes}
use analytics.Store.Event.{StoredEvent, EventKind, default_event}
use analytics.Store.Db.{Result, ok, err, Db}
use analytics.Store.Log.{append_events, append_loop}
use analytics.Store.Rewrite.{collect, insert_all}
use analytics.Store.Regroup.{Remap, regroup_hot_exceptions}
use analytics.Store.Regroup.Hot.{
  Regrouped, regroup_hot_exceptions-Regrouped, regroup_hot_exceptions_again,
}
use analytics.Examples.Tables.{list_platform}
use analytics.Examples.Codecs.Records.{json}

abbrev by_type : Remap
by_type exc_type text stack = codes "v2-" ++ exc_type

abbrev crash : StoredEvent
crash = record default_event {
  received_ms = pos 1000;
  kind = EventKind.exception;
  exc_type = some (codes "TypeError");
  exc_group = some (codes "old");
}

abbrev empty_tables : Db list_platform
empty_tables = record {
  events = list_platform.empty;
  projects = list_platform.empty;
  sources = list_platform.empty;
  pixels = list_platform.empty;
  exception_triage = list_platform.empty;
  meta = list_platform.empty;
}

abbrev crashed : Db list_platform
crashed =
    (append_events list_platform json (crash ∷ default_event ∷ [])
      (record { db = empty_tables; next_seq = 0 })).1.db

abbrev or_first : ℕ × Db list_platform → Result (ℕ × Db list_platform) → ℕ × Db list_platform
or_first d (ok r) = r
or_first d (err e) = d

abbrev after_pass : ℕ × Db list_platform
after_pass = or_first (0, crashed) (regroup_hot_exceptions list_platform json by_type crashed)

one_changed : after_pass.0 ≡ 1
unfolding regroup_hot_exceptions append_events append_loop collect insert_all lex_lt text_eq
    event_key be_bytes
one_changed = refl

passes_once : regroup_hot_exceptions list_platform json by_type crashed ≡ ok after_pass
unfolding regroup_hot_exceptions append_events append_loop collect insert_all lex_lt text_eq
    event_key be_bytes
passes_once = refl

regroup_hot_exceptions-Regrouped_example : Regrouped list_platform json by_type crashed after_pass.1
regroup_hot_exceptions-Regrouped_example =
    regroup_hot_exceptions-Regrouped list_platform json by_type crashed after_pass passes_once

regroup_hot_exceptions_again_example :
    regroup_hot_exceptions list_platform json by_type after_pass.1 ≡ ok (0, after_pass.1)
regroup_hot_exceptions_again_example =
    regroup_hot_exceptions_again list_platform json by_type crashed after_pass passes_once
