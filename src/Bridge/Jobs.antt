-- ===== src/Bridge/Jobs.antt =====
-- Jobs and the streams of their events: automation-bridge/src/core/jobs.ts, `JobRegistry`. The file of
-- a finished job is written later; here the write is put in a list. The number of bytes of an event's
-- data as JSON is a parameter. A `step` event holds a reference to the step, so it is modelled by the
-- step's place in the job, and read when it is sent.
pub mod Streams
pub mod Every
pub mod Bounds
pub mod Limits
pub mod Delivery
pub mod History
pub mod Tests
use wordpress.Common.{
  Bool, List, Map, Option, String, [], false, if◌then◌else◌, insert, leb, lookup, ltb, map, nat_eq,
  none, or_else, some, suc, true, ℕ, ◌&&◌, ◌*◌, ◌++◌, ◌+◌, ◌==◌, ◌||◌, ◌∷◌,
}
use Prim.Native.String
use Prim.Native.Char.{code}

pub data JobKind : Type 0 where
  validation preview deployment : JobKind

pub data JobStatus : Type 0 where
  job_queued job_running job_succeeded job_failed job_cancelled : JobStatus

pub data StepStatus : Type 0 where
  step_pending step_running step_succeeded step_failed step_skipped : StepStatus

pub record JobStep : Type 0 where
  pub name : String
  pub status_now : StepStatus
  pub exit_code : Option ℕ
  pub duration_ms : Option ℕ
  pub output_tail : String

pub record Job : Type 0 where
  pub job_id : String
  pub kind : JobKind
  pub status_now : JobStatus
  pub steps : List JobStep
  pub result : Option String
  pub error : Option String
  pub created_at : ℕ
  pub finished_at : Option ℕ

pub data JobEvent : Type 0 where
  log_event : String → String → JobEvent
  status_event : JobStatus → Option String → JobEvent
  step_event : ℕ → JobEvent
  heartbeat_event : JobEvent

-- A stream: the queue of its generator, in which `none` is the end, whether its listener is among the
-- job's, the events that it has sent, and whether it has returned.
pub record Stream : Type 0 where
  pub queue : List (Option JobEvent)
  pub listening : Bool
  pub sent : List JobEvent
  pub returned : Bool

pub record LiveJob : Type 0 where
  pub job : Job
  pub events : List JobEvent
  pub streams : List Stream
  pub log_bytes : ℕ

pub record JobRegistry : Type 0 where
  pub live : Map LiveJob
  pub writes : List (String × Job)

abbrev pub max_event_log_bytes : ℕ
max_event_log_bytes = 2 * 1024 * 1024

unfoldable pub is_terminal : JobStatus → Bool
is_terminal job_succeeded = true
is_terminal job_failed = true
is_terminal job_cancelled = true
is_terminal _ = false

-- A call of the listener `fn(e)`, or `fn(null)`.
unfoldable pub hear : Option JobEvent → Stream → Stream
hear e s = if s.listening then record s { queue = s.queue ++ e ∷ [] } else s

unfoldable pub end_stream : Stream → Stream
unfolding hear
end_stream s = record (hear none s) { listening = false }

abbrev pub is_log : JobEvent → Bool
is_log (log_event step chunk) = true
is_log _ = false

unfoldable pub push_event : JobEvent → LiveJob → LiveJob
unfolding hear
push_event e l = record l { events = l.events ++ e ∷ []; streams = map (hear (some e)) l.streams }

unfoldable pub new_step : String → JobStep
new_step name = record {
  name = name;
  status_now = step_pending;
  exit_code = none;
  duration_ms = none;
  output_tail = "";
}

-- The properties that `Object.assign(s, patch)` overwrites.
pub record StepPatch : Type 0 where
  pub status_now : Option StepStatus
  pub exit_code : Option (Option ℕ)
  pub duration_ms : Option (Option ℕ)
  pub output_tail : Option String

unfoldable pub assign_step : StepPatch → JobStep → JobStep
assign_step p s = record s {
  status_now = or_else p.status_now s.status_now;
  exit_code = or_else p.exit_code s.exit_code;
  duration_ms = or_else p.duration_ms s.duration_ms;
  output_tail = or_else p.output_tail s.output_tail;
}

-- The place of the step that `find` finds, counted from `i`, and a change to that step.
unfoldable pub step_index : String → ℕ → List JobStep → Option ℕ
step_index name i [] = none
step_index name i (s ∷ ss) = if s.name == name then some i else step_index name (suc i) ss

unfoldable pub patch_step : String → StepPatch → List JobStep → List JobStep
unfolding assign_step
patch_step name p [] = []
patch_step name p (s ∷ ss) =
    let rest = patch_step name p ss in if s.name == name then assign_step p s ∷ ss else s ∷ rest

unfoldable pub new_live : String → JobKind → List String → ℕ → LiveJob
unfolding new_step
new_live id kind names now = record {
  job = record {
    job_id = id;
    kind = kind;
    status_now = job_queued;
    steps = map new_step names;
    result = none;
    error = none;
    created_at = now;
    finished_at = none;
  };
  events = [];
  streams = [];
  log_bytes = 0;
}

module _ (json_bytes : JobEvent → ℕ) where
  -- `emit` on the live job that it finds.
  unfoldable pub emit_live : JobEvent → LiveJob → LiveJob
  unfolding push_event
  emit_live e l =
      if is_log e
      then if ltb max_event_log_bytes (l.log_bytes + json_bytes e)
        then l
        else push_event e (record l { log_bytes = l.log_bytes + json_bytes e })
      else push_event e l

  unfoldable pub emit : JobRegistry → String → JobEvent → JobRegistry
  unfolding emit_live
  emit r id e = elim (lookup id r.live) [
    | none ↦ r
    | some l ↦ record r { live = insert id (emit_live e l) r.live }
  ]

  unfoldable pub create : JobRegistry → String → JobKind → List String → ℕ → JobRegistry
  unfolding emit new_live
  create r id kind names now =
      emit (record r { live = insert id (new_live id kind names now) r.live }) id
        (status_event job_queued none)

  unfoldable pub log : JobRegistry → String → String → String → JobRegistry
  unfolding emit
  log r id step chunk = emit r id (log_event step chunk)

  -- `l.job.finished_at ??= nowIso()`, and the end of the listeners.
  unfoldable pub finish : ℕ → LiveJob → LiveJob
  unfolding end_stream
  finish now l = record l {
    job = record l.job { finished_at = some (or_else l.job.finished_at now) };
    streams = map end_stream l.streams;
  }

  -- `update` on the live job that it finds; `as_status` says that the event is "status".
  unfoldable pub update_live : (Job → Job) → Bool → ℕ → LiveJob → LiveJob
  unfolding emit_live finish is_terminal
  update_live mutate as_status now l =
      let m = record l { job = mutate l.job } in
      let e = if as_status then emit_live (status_event m.job.status_now m.job.error) m else m in
      if is_terminal e.job.status_now then finish now e else e

  unfoldable pub update : JobRegistry → String → (Job → Job) → Bool → ℕ → JobRegistry
  unfolding update_live is_terminal
  update r id mutate as_status now = elim (lookup id r.live) [
    | none ↦ r
    | some l ↦
        let u = update_live mutate as_status now l in
        record {
          live = insert id u r.live;
          writes = if is_terminal u.job.status_now then r.writes ++ (id, u.job) ∷ [] else r.writes;
        }
  ]

  unfoldable pub emit_step : JobRegistry → String → String → JobRegistry
  unfolding emit step_index
  emit_step r id name = elim (lookup id r.live) [
    | none ↦ r
    | some l ↦ elim (step_index name 0 l.job.steps) [ none ↦ r | some i ↦ emit r id (step_event i) ]
  ]

  unfoldable pub step_update : JobRegistry → String → String → StepPatch → ℕ → JobRegistry
  unfolding update emit_step patch_step
  step_update r id name p now =
      emit_step (update r id (λ j. record j { steps = patch_step name p j.steps }) false now) id
        name

-- `/^j_[a-z0-9]+$/`
abbrev pub is_id_code : ℕ → Bool
is_id_code n = leb 97 n && leb n 122 || leb 48 n && leb n 57

unfoldable pub all_id_codes : String → Bool
all_id_codes String.[] = true
all_id_codes (String.◌∷◌ c s) = is_id_code (code c) && all_id_codes s

unfoldable pub is_job_id : String → Bool
unfolding all_id_codes
is_job_id (String.◌∷◌ a (String.◌∷◌ b (String.◌∷◌ c s))) =
    nat_eq (code a) 106 && nat_eq (code b) 95 && is_id_code (code c) && all_id_codes s
is_job_id _ = false

-- `get`: a live job, or else what was written of it.
unfoldable pub get_job : Map Job → JobRegistry → String → Option Job
unfolding is_job_id
get_job files r id =
    if is_job_id id
    then elim (lookup id r.live) [ some l ↦ some l.job | none ↦ lookup id files ]
    else none
