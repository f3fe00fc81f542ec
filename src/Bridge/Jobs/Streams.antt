-- ===== src/Bridge/Jobs/Streams.antt =====
-- The generator of `JobRegistry.stream`, cut into steps: its start, a heartbeat, a round of its loop.
use wordpress.Common.{
  Bool, List, Option, String, [], false, if◌then◌else◌, insert, lookup, map, none, some, suc, true,
  zero, ℕ, ◌++◌, ◌∷◌,
}
use wordpress.Bridge.Jobs.{
  Job, JobEvent, JobKind, JobRegistry, LiveJob, StepPatch, Stream, create, heartbeat_event,
  is_terminal, log, step_update, update,
}

abbrev pub queued_events : List JobEvent → List (Option JobEvent)
queued_events es = map some es

-- The start on a live job: the history, then the end if the job is terminal, or the listener.
unfoldable pub open_stream : LiveJob → LiveJob
unfolding is_terminal
open_stream l =
    let s =
      if is_terminal l.job.status_now
      then record {
        queue = queued_events l.events ++ none ∷ [];
        listening = false;
        sent = [];
        returned = false;
      }
      else record {
        queue = queued_events l.events;
        listening = true;
        sent = [];
        returned = false;
      } in
    record l { streams = l.streams ++ s ∷ [] }

-- The interval pushes a heartbeat until it is cleared.
unfoldable pub beat : Stream → Stream
beat s = if s.returned then s else record s { queue = s.queue ++ some heartbeat_event ∷ [] }

-- The `finally` block.
unfoldable pub close_stream : Stream → Stream
close_stream s = record s { listening = false; returned = true }

unfoldable pub pull_queue : List (Option JobEvent) → Stream → Stream
unfolding close_stream
pull_queue [] s = s
pull_queue (none ∷ q) s = close_stream (record s { queue = q })
pull_queue (some e ∷ q) s = record s { queue = q; sent = s.sent ++ e ∷ [] }

-- A round of the loop; with an empty queue the generator waits.
unfoldable pub pull : Bool → Stream → Stream
unfolding close_stream pull_queue
pull aborted s = if s.returned then s else if aborted then close_stream s else pull_queue s.queue s

unfoldable pub change_at : ℕ → (Stream → Stream) → List Stream → List Stream
change_at n f [] = []
change_at zero f (s ∷ ss) = f s ∷ ss
change_at (suc n) f (s ∷ ss) = s ∷ change_at n f ss

-- What happens in a registry.
pub data JobAction : Type 0 where
  created_job : String → JobKind → List String → ℕ → JobAction
  logged : String → String → String → JobAction
  updated : String → (Job → Job) → Bool → ℕ → JobAction
  step_updated : String → String → StepPatch → ℕ → JobAction
  opened : String → JobAction
  beaten : String → ℕ → JobAction
  pulled : String → ℕ → Bool → JobAction

unfoldable pub on_live : String → (LiveJob → LiveJob) → JobRegistry → JobRegistry
on_live id f r = elim (lookup id r.live) [
  | none ↦ r
  | some l ↦ record r { live = insert id (f l) r.live }
]

module _ (json_bytes : JobEvent → ℕ) where
  unfoldable pub job_step : JobRegistry → JobAction → JobRegistry
  unfolding create log update step_update on_live open_stream beat pull change_at
  job_step r (created_job id kind names now) = create json_bytes r id kind names now
  job_step r (logged id step chunk) = log json_bytes r id step chunk
  job_step r (updated id mutate as_status now) = update json_bytes r id mutate as_status now
  job_step r (step_updated id name p now) = step_update json_bytes r id name p now
  job_step r (opened id) = on_live id open_stream r
  job_step r (beaten id n) = on_live id (λ l. record l { streams = change_at n beat l.streams }) r
  job_step r (pulled id n aborted) =
      on_live id (λ l. record l { streams = change_at n (pull aborted) l.streams }) r

  unfoldable pub job_run : JobRegistry → List JobAction → JobRegistry
  unfolding job_step
  job_run r [] = r
  job_run r (a ∷ as') = job_run (job_step r a) as'
