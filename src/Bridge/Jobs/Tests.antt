-- ===== src/Bridge/Jobs/Tests.antt =====
-- A job with a stream.
use wordpress.Common.{
  All, List, [], false, insert, length, lookup, none, refl, some, true, ℕ, ◌∷◌, ◌≡◌,
}
use wordpress.Bridge.Jobs.{
  Job, JobEvent, JobRegistry, LiveJob, all_id_codes, create, emit, emit_live, end_stream, finish,
  get_job, hear, heartbeat_event, is_job_id, is_terminal, job_queued, job_succeeded, log, log_event,
  new_live, new_step, preview, push_event, status_event, step_pending, update, update_live,
}
use wordpress.Bridge.Jobs.Bounds.{Bounded}
use wordpress.Bridge.Jobs.Every.{Every}
use wordpress.Bridge.Jobs.History.{Followed, job_run-Followed, pulls, terminal_returns}
use wordpress.Bridge.Jobs.Limits.{job_run-Bounded}
use wordpress.Bridge.Jobs.Streams.{
  JobAction, beat, beaten, change_at, created_job, job_run, job_step, logged, on_live, open_stream,
  opened, pull, pull_queue, pulled, updated,
}

abbrev each_ten : JobEvent → ℕ
each_ten e = 10

abbrev uses : List JobAction
uses =
    created_job "j_1" preview ("build" ∷ []) 5
    ∷ opened "j_1"
    ∷ logged "j_1" "build" "ok"
    ∷ beaten "j_1" 0
    ∷ pulled "j_1" 0 false
    ∷ updated "j_1" (λ j. record j { status_now = job_succeeded }) true 9
    ∷ opened "j_1"
    ∷ []

abbrev empty_registry : JobRegistry
empty_registry = record { live = []; writes = [] }

abbrev end_job : Job
end_job = record {
  job_id = "j_1";
  kind = preview;
  status_now = job_succeeded;
  steps =
      record {
        name = "build";
        status_now = step_pending;
        exit_code = none;
        duration_ms = none;
        output_tail = "";
      }
      ∷ [];
  result = none;
  error = none;
  created_at = 5;
  finished_at = some 9;
}

abbrev end_live : LiveJob
end_live = record {
  job = end_job;
  events =
      status_event job_queued none ∷ log_event "build" "ok" ∷ status_event job_succeeded none ∷ [];
  streams =
      record {
        queue =
            some (log_event "build" "ok")
            ∷ some heartbeat_event
            ∷ some (status_event job_succeeded none)
            ∷ none
            ∷ [];
        listening = false;
        sent = status_event job_queued none ∷ [];
        returned = false;
      }
      ∷ record {
        queue =
            some (status_event job_queued none)
            ∷ some (log_event "build" "ok")
            ∷ some (status_event job_succeeded none)
            ∷ none
            ∷ [];
        listening = false;
        sent = [];
        returned = false;
      }
      ∷ [];
  log_bytes = 10;
}

abbrev end_registry : JobRegistry
end_registry = record { live = ("j_1", end_live) ∷ []; writes = ("j_1", end_job) ∷ [] }

run_uses : job_run each_ten empty_registry uses ≡ end_registry
unfolding job_run job_step create log update on_live open_stream beat pull change_at emit emit_live
    push_event hear end_stream new_live new_step update_live finish is_terminal pull_queue lookup
    insert
run_uses = refl

test_get : get_job [] end_registry "j_1" ≡ some end_job
unfolding get_job is_job_id all_id_codes lookup
test_get = refl

job_run-Bounded_example : Every (Bounded each_ten) (job_run each_ten empty_registry uses)
job_run-Bounded_example = job_run-Bounded each_ten uses

job_run-Followed_example : Every Followed (job_run each_ten empty_registry uses)
job_run-Followed_example = job_run-Followed each_ten uses

terminal_returns_example : All (λ s. (pulls (length s.queue) s).returned ≡ true) end_live.streams
terminal_returns_example =
    terminal_returns each_ten uses "j_1" end_live (rw run_uses (unfold lookup in refl))
      (unfold is_terminal in refl)
