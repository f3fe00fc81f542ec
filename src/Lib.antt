-- ===== src/Lib.antt =====
-- Verification of the automation bridge and of the frontend's library code.
--
-- The bridge (automation-bridge/) runs beside a Next.js site and changes its files on behalf of a
-- control plane; the frontend (frontend/) is the control plane's user interface. A change set is
-- authenticated, planned against a virtual file system, and applied file by file under the site's
-- lock; a revision with a snapshot is recorded before the first file is written, from which a failed
-- or interrupted apply is undone.
--
-- Files and the code they model:
--
--   Common         the helpers: Boolean tests, lists with native lengths, association lists for
--                  JavaScript's Map, and a monad of state and exceptions with postconditions.
--   Bridge/Errors  automation-bridge/src/core/errors.ts: the codes and their HTTP statuses.
--   Bridge/Files   buffers, roots and files: fsutil.ts, diff.ts and rootById of config.ts, all in
--                  automation-bridge/src/core/.
--   Bridge/Revisions  the index of revisions, automation-bridge/src/core/revisions.ts: add_event is
--                  a round of the loop of list, and current and list are the methods of that name.
--   Bridge/World   the state that an apply acts on: the disk, the snapshots and records, the events
--                  of the index, the IN_PROGRESS markers, and what the environment does. Every
--                  call that changes something takes the next entry of a schedule of faults: it
--                  passes, throws before its effect, or throws after it. Reads of the state
--                  directory do not fail. The site's answers are a list as well.
--   Bridge/Writes  the steps of executeChanges, automation-bridge/src/core/engine.ts, up to the end
--                  of its try: the targets, the writes, the verification and the route checks. A
--                  look at a file may fail, and the file is then taken for absent, as in the code.
--   Bridge/Execute executeChanges, restoreSnapshot and recoverInterrupted of the same file:
--                  execute_changes is prepare (all that precedes the try), try_body and undo (the
--                  catch).
--   Bridge/Apply   applyChangeSet of the same file, given the outcome of planChangeSet.
--   Bridge/Rollback  rollbackRevision of the same file, and get of revisions.ts beside it.
--   Bridge/Jobs    JobRegistry of automation-bridge/src/core/jobs.ts; its generator stream is cut
--                  into a start, heartbeats and rounds, which any sequence of actions interleaves.
--   Bridge/Locks   the mutex of automation-bridge/src/core/lock.ts inside one process: a chain of
--                  slots, with the settling of each promise as an event; not its lock file.
--   Bridge/Auth    Nonces and Rates are NonceCache and RateLimiter of
--                  automation-bridge/src/core/auth/limits.ts, Keys is rotation and revocation of
--                  automation-bridge/src/core/auth/keystore.ts, Signing is signing.ts beside it and
--                  Requests is verify of authenticate.ts, over the keys and the nonces.
--   Bridge/Vfs     ChangeVfs of automation-bridge/src/core/vfs.ts: read, write and changes.
--   Bridge/Paths   automation-bridge/src/core/paths.ts: the syntax of relative paths, and Resolve with
--                  the walk to the deepest ancestor that exists, the rules and the real path.
--   Bridge/Redirects  the cases redirect.upsert and redirect.delete of planOne in
--                  automation-bridge/src/core/engine.ts, on the list of redirects.
--   Bridge/Plan    planChangeSet of the same file: its loop, Steps and Operations with the cases of
--                  planOne, and Outcome with the response. Each operation acts on ChangeVfs; an
--                  adapter is any script of reads and writes of that interface.
--   Bridge/Idempotency  run of automation-bridge/src/core/idempotency.ts, cut into steps where it
--                  awaits.
--   Frontend/Diff  toSideBySideRows and simpleFileDiff of frontend/src/lib/diff.js.
--   Frontend/ChangeSets  the statuses and predicates of frontend/src/lib/changesets.js.
--   Frontend/Metadata  fieldsToForm and formToFields of frontend/src/lib/metadata.js.
--   Frontend/Roles the ranks of roles, frontend/src/lib/roles.js.
--   Frontend/Health  the webpack plugin and the health endpoints of
--                  frontend/plugins/health-check: hooks are events, an endpoint is a function.
--   Frontend/Toasts  the reducer and the timers of frontend/src/hooks/use-toast.js.
--
-- Conventions. Times are natural numbers of milliseconds, passed where the code asks the clock. A
-- buffer is a text. What node:crypto and node:fs compute is a parameter, and so are the path checks of
-- paths.ts where they are called by Bridge/Vfs, Bridge/Plan and Bridge/Execute. Random
-- ids are arguments. The one function on fuel is rows_from of Frontend/Diff, which
-- to_side_by_side_rows gives one more than the number of lines: each round takes at least one.
-- The HTTP layer, Docker, backups, the schemas, React components and the Python backend are not
-- modelled: they call outside systems, render, or are generated.
mod Common
pub mod Bridge
pub mod Frontend
