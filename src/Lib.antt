-- ===== src/Lib.antt =====
-- oc-slimapi is a sidecar in front of an opencode server: it reduces the server's HTTP answers and
-- re-publishes its event stream to mobile clients. This library models the parts that keep state of
-- their own and that a client's correctness depends on.
--
-- Parts, files and the code they are about (paths from the repository's root):
--
-- Replay is src/oc_slimapi/sse/replay_log.py. `ReplayLog` keeps one window of published frames per
-- domain. Types has its state; Evict its internals (_drop_head, _ttl_evict_head, _evict_for_count,
-- _evict_for_bytes); Write its write path (append, reserve_seq, rollback_seq, write_barrier,
-- mark_invalidated, recycle_domain, sweep, close); Read its read path (replay, metrics_snapshot,
-- first_connect_invalidated, last_seq); Epoch its constructor. Reach has the steps of a log between
-- two connects: every operation but close, in any order, where an append without a reserved seq and a
-- reservation find no reservation outstanding in their domain (the contract of reserve_seq). The other files carry lemmas: Window, Invariant,
-- Victim, Heads, Budget, Settle, Append, Maintain for well-formedness; Moves, Steps, Evolve, Paced for
-- what a step may do to one domain; Classify, Barrier, Published, Sweep, Always, Reserve for the results.
-- Wire is src/oc_slimapi/sse/replay_wire.py. The id of a frame, the parser of `Last-Event-ID` and the
-- classification of a connect (classify_reconnect), which calls the log of Replay.
-- Turns is src/oc_slimapi/turn_registry.py. Turns has TurnRegistry (bump_turn, snapshot); Incarnation
-- has IncarnationStore (_read_path, load_or_bump, _write_persisted) on two files; Paths has
-- extract_sid_from_path and is_turn_bumping_path. Bump and Counts are about the counters, Reading,
-- Restarts and Raises about the store.
-- Since is src/oc_slimapi/since_cache.py: SinceCache with observe (current is the same) and commit.
-- Evict and Budget are about the eviction and the bounds, Commit about well-formedness, Race about two requests
-- that observed the same snapshot. Keys are of any type with decidable equality.
-- Burst is src/oc_slimapi/burst_watch.py (record_5xx): Counts is about the counters of a warning, Window about when it comes.
-- Directory is src/oc_slimapi/directory.py (normalize_directory, validate_directory).
-- Gzip is src/oc_slimapi/gzip_util.py: accepts_gzip and compress_if_beneficial. Etag is
-- src/oc_slimapi/etag.py: compute_etag, if_none_match_matches, judge_conditional and
-- encode_conditional_tail, which uses Gzip. Candidates and Match are about the parser of If-None-Match,
-- Verdict about the judgment, Revalidate about the tail.
-- Flight is src/oc_slimapi/singleflight.py with max_bytes, the leased profile: the entry's methods (_refund, _reap,
-- _release_caller, _drop_grace, _expire_grace, _convert_success, _fail, _new_entry), in Flight/Calls the callers that hold
-- references, in Flight/Events fetch_or_bypass, _join, _lead, _try_reserve, the leases, the timers and shutdown as events.
-- Keeps, Convert, Methods, Stop and Moves are about one entry, Ledger and Index about all of them, Admit, Reach, Shutdown
-- and Steps about the events, and Shared states what holds after any of them. Flight/Plain is the plain profile: fetch,
-- _convert_success, _drop, _evict_over_budget, the expiry and shutdown; Rounds, Bounds and Evict are about its bounds.
-- Tokens is src/oc_slimapi/sse/tokenstream: in Tokens.antt budgets.py (_reserve, _evict_part_for_memory, _start_part,
-- _check_pending_budget, drop_part, the tombstones, _next_part_revision) with the records of models.py and flush and
-- flush_sid of flush_engine.py, in Tokens/Ingest the events of ingest.py. Gauges is about a drop, a flush and an eviction,
-- Reserve and Start about admission, Bounds and Always about the caps after any events, Tombstones and Revisions
-- about the maps of keys, which lose their oldest entries (Stands).
-- Catalog is src/oc_slimapi/catalog_cache.py: lookup, the end of refresh with its generation fence, _store, invalidate
-- and shutdown. Store and Caps are about the caps and the time to live, Fence about invalidation;
-- Memory is what the cache promises, Refine that it keeps the promise.
-- Selector is src/oc_slimapi/selector.py, with _is_slimapi_path of src/oc_slimapi/versioning.py: Paths has the path
-- tables, Query the segments of a query string, Request the judgment of the version, Dispatch the directory and the
-- middleware. Strip is about stripped keys, Admission about the version, Ladder and Passed about the steps of a request,
-- Forward about what the application sees.
-- Readiness is src/oc_slimapi/readiness.py: Normal is about normalize, Emit about readiness_payload, which it relates to
-- the deferred methods of the selector.
-- Prelude has tests on numbers, lists, texts, dictionaries in insertion order (Dict), decimal
-- numerals (Decimal), splitting and joining at a separator (Split), stripping and prefixes (Strip).
--
-- Conventions. A text is the list of its code points, a byte string the list of its bytes; a Python
-- dict or OrderedDict is an association list in insertion order, the oldest entry first. Integers of
-- the code that are never negative are natural numbers, so a difference that the code keeps above 0
-- is the cut-off one. Clock readings are natural numbers of some unit; a function that reads the
-- clock takes the reading as an argument. An operation that raises returns the raised error together
-- with the state it leaves behind.
--
-- Loops. `for` loops are recursion on the list; a `while` loop that drops heads is recursion on the
-- window (shed_while). The loop of _evict_for_bytes runs on fuel (byte_loop), which is the
-- number of frames that the code itself counts down, so it never runs out before the loop's own test
-- does.
--
-- Parameters. size_of (the size of a payload, which may raise) and the payload type of Replay are
-- arguments.
-- The files of Turns are values: what is found at each path, the directory that may not be searched and the text that is
-- not UTF-8 included, on which a reading raises; the outcome of each write attempt is an argument.
-- The generation counter of Since, which all caches of the process share, is an argument and a result.
-- The digest (sha256 as hexadecimal), gzip.compress and float() are arguments of Gzip and Etag; the
-- theorems of Etag assume that a digest is a text without quotes, not empty, and where they say so that
-- it does not collide on the two inputs in question.
-- The rounds of the eviction in Flight/Plain are as many as there are entries, each of which drops one.
-- In Tokens the loops of evictions run for as many rounds as there are parts, each of which evicts one; the gates of
-- deleted sessions and retired messages, whether anyone is subscribed and the session status are told with an event. A
-- flush has no frames there: only the windows and their bytes are modelled, and the revision that a published delta takes
-- (_fanout_delta_frame of fanout.py) is an event of its own. Where the cap of live parts is 0, the code's min raises on no
-- parts; the model has room. The bytes of a text are those of its UTF-8 form, with 3 for a lone surrogate, on which
-- the code's encode raises.
-- In Catalog the test that a body is a JSON list is a parameter.
-- In Selector unquote_plus of the standard library is a parameter, and the methods are ASCII. A path pattern is matched
-- segment by segment, with the line feed that `$` lets pass.
-- Not modelled: HTTP routes, the other ASGI middleware, logging, the database side channel, the JSON
-- projections, the hubs that feed the replay log, configuration. They are I/O, glue over the parts
-- above, or parts of which no model exists yet.
pub mod Burst
pub mod Catalog
pub mod Directory
pub mod Etag
pub mod Flight
pub mod Gzip
pub mod Prelude
pub mod Readiness
pub mod Replay
pub mod Selector
pub mod Since
pub mod Tokens
pub mod Turns
pub mod Wire
