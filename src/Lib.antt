-- ===== src/Lib.antt =====
-- grok-inspection: a plugin that probes the xAI accounts of a CPA host, keeps accounts that fail out of
-- its pool for a while, and applies what an operator or a schedule asks for.
--
-- The parts, and the files that model them:
--
-- - Ban/Evidence, Ban/Headers, Ban/Detector (ban_detector.go, classify.go): what a failed request says
--   of its account: the evidence in codes and messages, the window that the headers give, and detectBan,
--   which makes a ban of the two.
-- - Ban/Store (ban_store.go): the pool, a map of bans by account under one mutex, with a revision for
--   each write. Each method is one function on the pool; a method that waits for no one is one step.
-- - Ban/Save (ban_store.go, Save): concurrent saves. A step is what one call does between two moments
--   where it lets go of saveMu; the file that a write leaves is part of the state. A call that never lets
--   go of saveMu ends the history.
-- - Ban/Persist (ban_persist.go): the worker that saves the pool after marks of its changes, as the turns
--   of the goroutines under its mutex. A mark takes the configuration that it has read before, and a
--   reconfiguration is two steps: it publishes the configuration, and it tells the worker.
-- - Ban/Queue (ban_dispose_queue.go): the bounded queue between the usage path and the workers that
--   disable accounts in CPA; a step is what one goroutine does under the queue's lock.
-- - Ban/Disposal (ban_dispose_queue.go, applyBanDisposeWithStore): what a worker does with an account.
-- - Ban/Scheduler (ban_scheduler.go): handleUsageRecord, which puts a ban into the pool and asks the
--   queue for its disposal, and restoreExpiredBans, which lifts bans whose window has passed. What other
--   goroutines do between the calls of handleUsageRecord is a parameter. CPA's two calls are parameters;
--   each returns the pool as it leaves it, since other goroutines use the pool while a call runs.
-- - Host/Gate (host_gate.go): the admission of calls into the host, at most sixteen at a time, and the
--   shutdown that waits for them.
-- - Inspect/Classify (classify.go), with Json: the classification of a probe's answer and the advice.
-- - Inspect/Sample (sample.go): the size of a sample of the accounts, and its draw.
-- - Inspect/Version (xai_version.go): the client version of the probes, refreshed from a registry.
-- - Accounts (identity.go, apply_lookup.go, apply_run.go, with the types of engine_types.go and
--   cpasdk/pluginapi/types.go): how rows and auth entries are matched, which row a name means
--   (Accounts/Lookup), and which rows an apply request acts on (Accounts/Select).
-- - Accounts/Aliases and Ban/Aliases (apply_lookup.go, apply_ban_sync.go): the names under which a ban
--   may know an account, and the bans of an account under all of them: listed, cleared, cleared only
--   where no newer one has come, and replaced by that of a disable.
-- - Schedule/Settings, Schedule/Store (inspection_schedule.go, schedule_store.go): the settings of the
--   schedule, their update, the status that a run leaves in them, and their file.
-- - Schedule/Targets (inspection_schedule.go, inspection_schedule_dispose.go): the accounts that a
--   scheduled run acts on. Schedule/Progress, Schedule/Dispose (inspection_schedule.go): the run once its
--   inspection has ended: whether it acts, its five actions in their order, what it counts and reports.
-- - Engine/State, Engine/Start, Engine/Run, Engine/Rows (engine_types.go, engine_lifecycle.go,
--   identity.go): the engine's state, and each call that starts, stops or ends an inspection, writes its
--   rows or reads its outcome. Engine/Plan (engine.go, identity.go): the accounts that a run probes.
--   Engine/Jobs (apply_run.go): the start, progress and end of a bulk apply
--   and of a row action. Engine/Slot (ban_unban_job.go, engine.go): the slot of the unban and the delete
--   job, and the shutdown.
-- - Engine/Owner: all of these calls in any order, with the workers that they have started, and the
--   abstract view of them, one turn, which each kind of call moves in its own way; the probes of a
--   stopped run are not counted among the workers. Engine/Outcome: what is seen of a run that has been replaced.
-- - Engine/Unban (ban_unban_job.go): the unban job, with the management calls' answers as inputs and
--   what other threads do to the pool as a function; Engine/Unban/One: the unban of one account.
-- - Lang (i18n.go): the operator's language and the table of messages.
-- - Base, Text, Dict, Time: lists and numbers, and what the code uses of Go's strings, strconv, maps
--   and time. An instant is a count of nanoseconds since year 1, a Duration an int64 that wraps around.
-- - Examples: the theorems at concrete inputs.
--
-- Bounds: revisions wrap around at 2^64 as in Go, and the theorems that order them assume that the
-- counter does not get there; so do the generations of the saves. Printing a number recurses on fuel, the number itself, which has more
-- units than digits. The ids of the runs wrap around at 2^64 too, and what is said of a past run holds
-- for fewer calls than that. Everything else recurses on its data, so that every function returns.
--
-- Not modelled: the parsers of encoding/json and time (parameters), upper-case letters outside ASCII
-- in ToLower, the file formats, the delete job, the workers of an apply and their management calls, the
-- loops of the engine's run over its probes, the timer of the schedule, the probe's HTTP calls,
-- configuration, and the management pages.
pub mod Base
pub mod Text
pub mod Lang
pub mod Json
pub mod Time
pub mod Dict
pub mod Ban
pub mod Host
pub mod Inspect
pub mod Accounts
pub mod Schedule
pub mod Engine
pub mod Examples
