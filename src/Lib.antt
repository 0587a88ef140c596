-- ===== src/Lib.antt =====
-- The core of llmbroker: which model a call is handed, what an attempt does to it, which key pays,
-- and how a model list is merged.
--
-- The program keeps a pool of models. A caller that asks is handed free slots of the pool, best
-- first; an attempt on a slot ends with an answer or with a failure, hands the slot back, cools the
-- model down where the failure is the model's, writes a row of the journal, and teaches the
-- optimizer, whose streaks set the next cooldown and whose ratings order the next selection. A key
-- that a provider rejects is withdrawn in the ring of the caller who paid. The entries of the pool
-- come from model lists that are merged.
--
-- The parts, and where they stand:
--
--  Base        lists, options, dicts, integers, stable sorting and counting, over native numbers.
--  Models      src/llmbroker/models.py: the records and enumerations.
--  Http        src/llmbroker/http_status.py; Http.Verdict is src/llmbroker/broker/verdict.py
--              (`classify`, `classify_status`) with `retry_after_seconds` and `provider_error` of
--              src/llmbroker/chat.py.
--  Optimizer   src/llmbroker/optimizer.py: `Optimizer`, with its sliding windows in
--              Optimizer.Windows and the float operations it needs in Optimizer.Floats.
--  Pool        src/llmbroker/broker/pool.py, `LLMPool`: slots (Pool.Slots), `_rank` and its parts
--              (Pool.Ranking), `_candidates`, `_reserve` and `_cover` (Pool.Reserve), `acquire_many`,
--              `take_free`, `retry_at` and the reasons of a refusal (Pool.Acquire).
--  KeyRing     src/llmbroker/broker/keyring.py: `KeyRing`, a chain of rings with the caller's first.
--  Merge       src/llmbroker/broker/merge.py: `merge_upstream`, `merge_model_list` and their guards.
--  Metadata    src/llmbroker/models.py: `LLMConfig.to_metadata` and `from_metadata`.
--  Values      how Python reads a value of a JSON body or of a TOML table.
--  Curated     src/llmbroker/broker/curated.py: `providers_from`, `models_from` and the declarations.
--  Aliases     src/llmbroker/broker/aliases.py: `resolve_declared` and its parts.
--  Catalog     src/llmbroker/broker/catalog.py: `check_overlay` and `find_declared`
--              (Catalog.Overlay), `_reconcile` and `_resync_disabled` (Catalog.Membership),
--              `_measure` and its parts (Catalog.Measure), `_report_health` and
--              `_report_missing_keys` (Catalog.Reports), `seed_secrets` (Catalog.Seeding).
--  Chat        src/llmbroker/chat.py: `parse_usage`, `build_chat_request` (Chat.Requests),
--              `_parse_completion` and `parse_stream_chunk` (Chat.Completions), and the chunks of a
--              stream (Chat.Sse).
--  Learning    src/llmbroker/broker/learning.py, with src/llmbroker/broker/stats.py: what a read of
--              the journal's tail says of the models, and `relearn`.
--  ToolLoop    src/llmbroker/tool_loop.py: `execute_tool_calls` and the loop over `max_steps`.
--  Router      src/llmbroker/broker/router.py: `_attempt`, `_dispose`, `_finish_ok`,
--              `_settle_superseded`, `_spent_budget`, `_record` and `_log_call`, on a World of the
--              pool, the rings, the optimizer and the journal, with `Learner.observe` of
--              src/llmbroker/broker/learning.py.
--              Router.Calls is `RouteCall` of src/llmbroker/broker/route_state.py with `_acquire` and
--              `_expired`; Router.Race is `_race` with its lanes, and Router.Route is `_route`.
--  Streaming   src/llmbroker/broker/streaming.py: `stream_attempt` and its settlements;
--              `stream_deltas` (Streaming.Deltas), the lanes and `StreamRace` (Streaming.Lanes), `StreamBudget` and `budgeted_await`
--              (Streaming.Budget). Streaming.Owner is `RoutedStream` of
--              src/llmbroker/broker/stream_owner.py: `_explicit_initial` (Streaming.Owner.Initial),
--              `_ordinary_initial` (Streaming.Owner.Ordinary), what they raise
--              (Streaming.Owner.Faults), `_next_answer` (Streaming.Owner.Answers), and `_close`
--              (Streaming.Owner.Closing).
--  Store       src/llmbroker/backends/ports.py over src/llmbroker/backends/inmemory.py, with
--              src/llmbroker/journal_policy.py: rows, `journal_view` and `purge` (Store.Journal), the
--              disabled map, the registry and the secrets (Store.Tables), `PurgeClock`, `record` and
--              `record_quality` (Store.Retention).
--  Results     src/llmbroker/broker/result.py: ratings, and `StreamHandle` (Results.Handles).
--  Callers     src/llmbroker/broker/llms.py: `AsyncLLMs`, with src/llmbroker/broker/pool_view.py.
--  Refresher   src/llmbroker/broker/refresher.py: the clock, with `stamp_age` of
--              src/llmbroker/broker/stamps.py.
--  Examples    concrete inputs.
--
-- How the program's state is kept:
--
--  A dict is an association list in insertion order, as Python's is. A slot is known by its key,
--  and a change of a slot is a change of the pool's entry. A function that changes state takes it and
--  returns the new one. What Python raises is a constructor of a result.
--
--  Instants are whole microseconds, the resolution of `datetime`; spans are integers of them where
--  they may be negative. A timeout, a delay and a budget are spans, where the code has floats of
--  seconds. `backoff_factor` is a whole number. Scores and weights are of an opaque type, and the
--  float operations on them are the parameter FloatOps. An instant counts from `datetime.min`; where
--  the settlement of an attempt goes past `datetime.max`, past `datetime.min` or past the largest
--  float, the attempt ends in the OverflowError that Python raises there.
--
--  The clocks that an operation reads are its arguments, one for each reading where the code reads
--  more than once. `acquire_many` waits on a condition variable: here its loop runs over a schedule,
--  what each wait comes back to (a reading of the clocks, and the pool as the others left it), so it
--  needs no fuel. A race is a list of events: what the task of a lane does next (begin, come to the
--  settlement of its attempt, finish), and the driver waking up. A lane
--  resolves its key as it begins; all else that its attempt does to the pool, to the rings and to the
--  journal it does at one event, that of its settlement. `_route` runs over turns, each of them an
--  acquisition with the attempt or the race that follows; where the schedule ends first, the call is
--  still pending. The tool loop is recursion on `max_steps`,
--  and all other loops on a list.
--
--  A streamed attempt runs over the chunks that arrive and the way in which they end. The owner of a
--  stream takes one turn at a time, each on the lanes as their tasks have left them, so its loops need
--  no fuel; the schedule of turns is a list. Waves of lanes count from 1. The journal of the store is a
--  list of rows, oldest first, and a row is a record of its columns. The clock of the refresher and a
--  stream's handle are state machines whose steps come in any order.
--
--  What an attempt meets outside (the provider's reply or exception, the secrets backend, whether the
--  journal could be written) is the record Moment; Python's parsers of a header are the record
--  Parsers; equality of two configs is a parameter of the merge.
--
-- Not modelled: log messages and the text of errors; the request to a provider
-- (src/llmbroker/chat.py) and the synchronous facade; what other callers do to the pool while a race
-- runs; the broker's wiring, the catalog's rebuild and its files; `sync` of the refresher; the files of
-- `FileStore`, the drivers of databases, the secret services, and the command line.
pub mod Base
pub mod Models
pub mod Values
pub mod Http
pub mod Optimizer
pub mod Pool
pub mod KeyRing
pub mod Merge
pub mod Metadata
pub mod Curated
pub mod Aliases
pub mod Catalog
pub mod Chat
pub mod Learning
pub mod ToolLoop
pub mod Router
pub mod Streaming
pub mod Store
pub mod Results
pub mod Callers
pub mod Refresher
pub mod Examples
