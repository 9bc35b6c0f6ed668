-- ===== src/Lib.antt =====
-- Cinema Collections: short clips before a film. Two programs work together. The Worker
-- (app/src/cinema_collections_worker) catalogues source clips, compiles them with FFmpeg and keeps
-- collections, profiles and jobs in SQLite. The Home Assistant integration
-- (custom_components/cinema_collections) decides which collection is active, picks the next clip
-- without repeats and asks the Worker to compile on a schedule. The integration knows the Worker by
-- the clips that it lists and the requests that it takes.
--
-- Files and what they model:
--
-- - Prelude and its children: names passed on, Boolean tests, and the shared ground. Prelude.Tables
--   is SQL on lists of rows (select_where, find_where, update_where, first_by) with its laws,
--   Prelude.Sorting is sorted(key=…), Prelude.Dict is Python's dict by order of insertion,
--   Prelude.Json is what the json module reads, Prelude.Text is str.strip and code points,
--   Prelude.Order is the order of texts,
--   Prelude.Results is a call that may raise, Prelude.Effects a call that changes a state and may
--   raise, with except and finally, and Prelude.Options a chain that may end without a result.
-- - Slug: the regular expression of collection ids, in
--   app/src/cinema_collections_worker/paths.py and custom_components/cinema_collections/resolver.py, as
--   data, and a matcher that stands for fullmatch of the language's re.
-- - Worker.Database: the tables that the queue uses (database.py, models.py, catalog.py, jobs.py).
-- - Worker.Queue: PersistentJobQueue (queue.py): enqueue, enqueue_many, has_succeeded, claim_next,
--   update, request_cancel and get. Each is a transaction; an error gives no new tables.
-- - Worker.Domain and Worker.Records: what is created, patched and stored of a collection (domain.py,
--   database.py). Worker.Collections: CollectionRepository (repositories.py): create, patch and get, with
--   the idempotency records, the audit trail and the demotion of other defaults. The digest of a
--   request is a parameter of which nothing is assumed.
-- - Worker.Jobs and its children: JobWorker (jobs.py): run_once and all that it calls. Outcome is what
--   is written to the queue, Progress is FFmpeg's report, Loop is the watch over a process, Output the
--   check of the file that comes out, Compile, Phases and Publish the compilation, Maintenance the
--   scan, the clean-up and the edits, Once the pass of the worker. Worker.Ends has the proofs about
--   them, in the same order.
-- - Worker.Library and Worker.Requests: JobService (jobs.py): the listing, the details of a clip, the
--   plan of a compilation with its disk space, and the requests that go into the queue.
-- - Worker.Sources and Worker.Scans: CatalogService (catalog.py): what a scan finds of each file and
--   how it updates the rows of the catalogue. Worker.Durations: OutputDurations (output_duration.py),
--   which measures files that have no duration yet. Worker.Samples is the data that the tests share.
-- - Integration.Const: the enums of const.py and normalize_clip_order.
-- - Integration.Resolver: resolve_active_collection and CollectionPolicy (resolver.py).
-- - Integration.Rounds and Integration.History: PlaybackHistoryStore (history.py): async_select,
--   async_reset, async_handle_daily_reset and snapshot. `disk` is the payload saved last. The lock of
--   the source makes each call one step, so a call is a function of the store.
--   Integration.History.Loading is what is read from storage, damaged or not, and async_setup with the
--   calls that start with it. What Home Assistant's storage gives back is an argument.
-- - Integration.Tokens: the stores of schedule tokens, and Integration.Scheduler: async_handle_due
--   (both scheduler.py). The scheduler takes any store that has the laws of Tokens.Laws.
-- - Integration.Upcoming, Integration.Schedules and Integration.Coordinator: the poll of the Worker with
--   its back-off, the policies and schedules that it reads, and the snapshot that it gives
--   (coordinator.py, and schedules_from_mapping of scheduler.py). Upcoming is _next_schedule.
-- - Integration.WorkerClip: WorkerClip.from_dict, the contract of a clip that the Worker sends (models.py).
-- - Integration.Availability and Integration.Selection: the clips, requests and responses, and
--   SelectionService.async_select (selection.py), on top of the history.
--
-- Numbers and times. Revisions, attempts and counts are Python's unbounded integers, here natural
-- numbers. An instant of the resolver is a number; the times of the Worker's tables are the ISO texts
-- that it stores; a date that the history keeps is its ISO text. Durations are whole nanoseconds, where
-- the source has floating-point seconds. Home Assistant's as_local, the chooser of random mode,
-- casefold, the builder of media URIs and the Worker's responses are arguments.
--
-- What the Worker asks of the system is the record Outside: the clock, the file system, FFmpeg and
-- ffprobe, JSON and the settings. A process is the finite list of what each look at it shows; one that
-- hangs has turns up to its deadline and past it, so the loop that watches it ends with the list. The
-- requests of other threads come before each look at the cancel flag. A percentage is its whole part,
-- trims are milliseconds, and frame rates are billionths.
--
-- Loops are structural recursion on lists, so there is no fuel. The limits of the source are 100 lines
-- of a job's log (last_100), 512 tokens of a config entry (max_schedule_run_tokens), 16,000 characters
-- of a process's output and 500 rows of worker_logs.
--
-- Not modelled: the HTTP and web layers, authentication, the argument lists of FFmpeg (ffmpeg.py), the
-- signals that stop a process, the removal of private data from messages (its result is an argument),
-- the library manager, the
-- settings and their validation by pydantic, the profile repository, the migrations of the database
-- and of config entries, and the entities and flows of Home Assistant. They are input and output, or
-- wait for models of their own.
pub mod Prelude
pub mod Slug
pub mod Worker
pub mod Integration
