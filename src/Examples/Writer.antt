-- ===== src/Examples/Writer.antt =====
-- The writer of the ingest pipeline on a batch of two events of one new source.
use analytics.Common.{pos, ◌<◌, ◌≡◌, refl, false, [], ◌∷◌, codes, arith, length, text_eq}
use analytics.Store.Event.{StoredEvent, default_event}
use analytics.Store.Db.{Db}
use analytics.Ingest.Pipeline.{Writer, closed, flush_batch, select_new, writer_step, batch_size}
use analytics.Ingest.Pipeline.Flush.{FlushPost, flush_batch-FlushPost, writer_step_batch}
use analytics.Examples.Tables.{list_platform}
use analytics.Examples.Codecs.Records.{json}

abbrev no_tables : Db list_platform
no_tables = record {
  events = list_platform.empty;
  projects = list_platform.empty;
  sources = list_platform.empty;
  pixels = list_platform.empty;
  exception_triage = list_platform.empty;
  meta = list_platform.empty;
}

abbrev visit : StoredEvent
visit = record default_event { received_ms = pos 1000; source = codes "https://a.com" }

abbrev writer : Writer list_platform json
writer = record {
  store = record { db = no_tables; next_seq = 0 };
  batch = visit ∷ visit ∷ [];
  known_sources = [];
}

one_source : select_new [] 5 (visit ∷ visit ∷ []) [] [] ≡ codes "https://a.com" ∷ []
unfolding select_new text_eq
one_source = refl

no_room : select_new [] 0 (visit ∷ visit ∷ []) [] [] ≡ []
unfolding select_new text_eq
no_room = refl

flush_batch-FlushPost_example :
    FlushPost list_platform json 5 (pos 9) writer (flush_batch list_platform json 5 (pos 9) writer)
flush_batch-FlushPost_example = flush_batch-FlushPost list_platform json 5 (pos 9) writer

writer_step_batch_example :
    (length (writer_step list_platform json 5 (pos 9) closed writer).1.batch < batch_size)
    × ((writer_step list_platform json 5 (pos 9) closed writer).0 ≡ false
        → (writer_step list_platform json 5 (pos 9) closed writer).1.batch ≡ [])
writer_step_batch_example =
    writer_step_batch list_platform json 5 (pos 9) closed writer (omega arith)
