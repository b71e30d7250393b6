-- ===== src/Lib.antt =====
-- Analytics: a model of the agent of a privacy-friendly web analytics service, and of the parts of
-- its shared API crate that the agent computes with.
--
-- The agent takes page views and exceptions over HTTP, enriches and groups them, and appends them
-- to a hot store (redb). A compactor moves old events into day partitions (Parquet). A metadata
-- store beside the events keeps projects, sources, pixels and the triage of exception groups.
-- Queries read both stores over a range of time.
--
-- The files and the code:
--
-- Common and its children: lists, signed integers and text over the native numbers. A text is its
-- list of code points; its length in bytes is that of its UTF-8 form.
-- Platform: what redb, chrono and serde_json are taken to do, as records of operations and laws.
-- Examples gives a table that is a sorted list and encodings that meet the laws.
-- Store.Keys, Store.Event, Store.Records, Store.Db, Store.Log: agent/src/store/tables.rs,
-- event.rs, json.rs, mod.rs and events.rs. Store.Log.append_events is Store::append_events, and so
-- on by name. A method on Store is a function from the database to a Result; an error leaves the
-- database as it was, since redb drops the transaction.
-- Store.Rewrite: the loop that the bulk updates of the store share. Store.Entities, Store.Sources:
-- agent/src/store/entities.rs and api/src/source.rs. Store.Triage: agent/src/store/triage.rs, the
-- status of api/src/exception.rs and the triage handler of agent/src/web/api/exceptions.rs.
-- Store.Schema: agent/src/store/schema.rs and Store::open. Store.Regroup:
-- agent/src/store/regroup.rs, regroup_partition of parquet.rs and agent/src/ingest/regroup.rs.
-- Ingest.Compactor: agent/src/ingest/compactor.rs; the reads, writes and deletes of one run are
-- separate transactions, and what other threads commit in between is an argument.
-- Ingest.Compactor.Retention: compact_once and enforce_retention, with the directories and the
-- calendar as arguments.
-- Ingest.Pipeline: agent/src/ingest/pipeline.rs; a round of the writer loop is a step on what it
-- wakes up for, and the set of known sources is a list without repetition.
-- Ingest.Normalize and Ingest.Exception: agent/src/ingest/normalize.rs and exception.rs.
-- Ingest.Fields: mod.rs, language.rs, referrer.rs and summary_line. Ingest.UserAgent: ua.rs.
-- Ingest.Enrich: enrich.rs.
-- Ratelimit: agent/src/ratelimit.rs, with tokens counted exactly instead of in f64. Web.Query:
-- agent/src/web/api/query.rs. Web.Auth: the middleware of agent/src/web/api/mod.rs and the
-- client's address of agent/src/web/extract.rs, with the check of a token and the access rule as
-- arguments. Web.Projects and its children: agent/src/web/api/projects.rs, pixels.rs and
-- sources.rs; Web.Projects.create_project is projects::create, and so on. Stats: trend_of of
-- agent/src/analytics/mod.rs.
-- Filter and its children: agent/src/analytics/filter.rs. Filter.Compile.visit is the visitor
-- Compiler, one clause for each of its methods; Filter.Predicate is the interface to the
-- expressions of polars, Filter.Meaning says what a query says of an event without them.
-- Filter.Projects: the sources of a project, of agent/src/analytics/mod.rs.
-- Ui and its children: ui/src/filters.rs. Ui.FilterSet.of_pairs is FilterSet::parse after the URL
-- has been split, and so on by name; with is with_term. Ui.Agreement is about both ends of a
-- query.
-- Examples: a platform, encodings, tests, and an instance of each theorem below.
--
-- Fuel: trim_start_matches, strip_from, dotted_groups and version_from take the length of their
-- text as the number of their rounds, which is enough since each round takes at least one code
-- point; migrate_steps takes the number of versions to go; digits takes 20 rounds, as many as an
-- i64 has digits. All other loops are structural.
--
-- Bounds: the sequence counter wraps at 2^64 as in the code, and the theorems that need room below
-- it say so. Times are integers; the key of an event counts a negative time as 0.
--
-- Not modelled: faults of the disk below redb, the rounding of f64, the polars queries and data
-- frames beyond the predicate of a filter, the OIDC exchange, the HTTP handlers other than those
-- of triage, projects, pixels and sources, configuration, telemetry, the front end beyond its
-- filter state, and the tracking script. Parameters: redb, serde_json, chrono, the url crate,
-- woothee, SHA-256, the lower-casing of Unicode, the table of time zones, the parser of filt-rs,
-- the expressions of polars, the browser's codec of URI components, and the Parquet files.
pub mod Common
pub mod Platform
pub mod Store
pub mod Ingest
pub mod Examples
pub mod Ratelimit
pub mod Web
pub mod Filter
pub mod Ui
pub mod Stats
