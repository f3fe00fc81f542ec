-- ===== src/Bridge/Jobs/Every.antt =====
-- What every operation on a live job keeps holds of every job of a registry, however it is used.
use wordpress.Common.{
  Bool, List, Option, Option-cases, String, [], ap, arith, false, if◌then◌else◌, inl, inr, insert,
  lookup, lookup-insert, none, or_else, some, sym, true, ℕ, ◌++◌, ◌==◌, ◌∙◌, ◌∷◌, ◌≡◌,
}
use wordpress.Bridge.Jobs.{
  Job, JobEvent, JobKind, JobRegistry, LiveJob, create, emit, emit_live, emit_step, is_terminal,
  job_queued, log, log_event, new_live, patch_step, status_event, step_event, step_index,
  step_update, update, update_live,
}
use wordpress.Bridge.Jobs.Streams.{
  JobAction, beat, beaten, change_at, created_job, job_run, job_step, logged, on_live, open_stream,
  opened, pull, pulled, step_updated, updated,
}
use mathlib.Core.Path.{subst}

-- A property of the live jobs holds of each.
unfoldable pub Every : (LiveJob → Type 0) → JobRegistry → Type 0
Every P r = (id : String) (l : LiveJob) → lookup id r.live ≡ some l → P l

module _ (P : LiveJob → Type 0) where
  either_way :
      (b : Bool) (o : Option LiveJob) (l m : LiveJob)
      → (if b then some l else o) ≡ some m
      → P l
      → (o ≡ some m → P m)
      → P m
  either_way true o l m e p k = subst P (ap (λ x. or_else x l) e) p
  either_way false o l m e p k = k e

  Every-insert :
      (r : JobRegistry) (id : String) (l : LiveJob) (writes : List (String × Job))
      → Every P r
      → P l
      → Every P (record { live = insert id l r.live; writes = writes })
  unfolding Every
  Every-insert r id l writes h p j m found =
      either_way (id == j) (lookup j r.live) l m (sym (lookup-insert id j l r.live) ∙ found) p
        (h j m)

  pub Every-on_live :
      (r : JobRegistry) (id : String) (f : LiveJob → LiveJob)
      → ((l : LiveJob) → P l → P (f l))
      → Every P r
      → Every P (on_live id f r)
  unfolding on_live
  Every-on_live r id f keeps h = elim (Option-cases (lookup id r.live)) [
    | inl missing ↦ rw (missing, on_live) h
    | inr (l, found) ↦
        rw (found, on_live)
          (Every-insert r id (f l) r.writes h (keeps l (unfold Every in h id l found)))
  ]

module _ (json_bytes : JobEvent → ℕ) where
  -- A property of live jobs that each operation keeps.
  pub record Kept (P : LiveJob → Type 0) : Type 0 where
    pub fresh :
        (id : String) (kind : JobKind) (names : List String) (now : ℕ)
        → P (new_live id kind names now)
    pub emitted : (e : JobEvent) (l : LiveJob) → P l → P (emit_live json_bytes e l)
    pub mutated :
        (f : Job → Job) (as_status : Bool) (now : ℕ) (l : LiveJob)
        → P l
        → P (update_live json_bytes f as_status now l)
    pub joined : (l : LiveJob) → P l → P (open_stream l)
    pub beaten_at :
        (n : ℕ) (l : LiveJob) → P l → P (record l { streams = change_at n beat l.streams })
    pub pulled_at :
        (n : ℕ) (aborted : Bool) (l : LiveJob)
        → P l
        → P (record l { streams = change_at n (pull aborted) l.streams })

  module _ (P : LiveJob → Type 0) (k : Kept P) where
    Every-emit :
        (r : JobRegistry) (id : String) (e : JobEvent)
        → Every P r
        → Every P (emit json_bytes r id e)
    unfolding emit
    Every-emit r id e h = elim (Option-cases (lookup id r.live)) [
      | inl missing ↦ rw (missing, emit) h
      | inr (l, found) ↦
          rw (found, emit)
            (Every-insert P r id (emit_live json_bytes e l) r.writes h
              (k.emitted e l (unfold Every in h id l found)))
    ]

    Every-update :
        (r : JobRegistry) (id : String) (f : Job → Job) (as_status : Bool) (now : ℕ)
        → Every P r
        → Every P (update json_bytes r id f as_status now)
    unfolding update
    Every-update r id f as_status now h = elim (Option-cases (lookup id r.live)) [
      | inl missing ↦ rw (missing, update) h
      | inr (l, found) ↦
          let u = update_live json_bytes f as_status now l in
          rw (found, update)
            (Every-insert P r id u
              (if is_terminal u.job.status_now then r.writes ++ (id, u.job) ∷ [] else r.writes) h
              (k.mutated f as_status now l (unfold Every in h id l found)))
    ]

    Every-emit_step :
        (r : JobRegistry) (id name : String) → Every P r → Every P (emit_step json_bytes r id name)
    unfolding emit_step
    Every-emit_step r id name h = elim (Option-cases (lookup id r.live)) [
      | inl missing ↦ rw (missing, emit_step) h
      | inr (l, found) ↦ elim (Option-cases (step_index name 0 l.job.steps)) [
        | inl absent ↦ rw (found, emit_step) (rw absent h)
        | inr (i, there) ↦ rw (found, emit_step) (rw there (Every-emit r id (step_event i) h))
      ]
    ]

    Every-job_step :
        (r : JobRegistry) (a : JobAction) → Every P r → Every P (job_step json_bytes r a)
    unfolding job_step create log step_update
    Every-job_step r (created_job id kind names now) h =
        Every-emit (record r { live = insert id (new_live id kind names now) r.live }) id
          (status_event job_queued none)
          (Every-insert P r id (new_live id kind names now) r.writes h (k.fresh id kind names now))
    Every-job_step r (logged id step chunk) h = Every-emit r id (log_event step chunk) h
    Every-job_step r (updated id f as_status now) h = Every-update r id f as_status now h
    Every-job_step r (step_updated id name p now) h =
        let f : Job → Job = λ j. record j { steps = patch_step name p j.steps } in
        Every-emit_step (update json_bytes r id f false now) id name
          (Every-update r id f false now h)
    Every-job_step r (opened id) h = Every-on_live P r id open_stream k.joined h
    Every-job_step r (beaten id n) h =
        Every-on_live P r id (λ l. record l { streams = change_at n beat l.streams })
          (k.beaten_at n) h
    Every-job_step r (pulled id n aborted) h =
        Every-on_live P r id (λ l. record l { streams = change_at n (pull aborted) l.streams })
          (k.pulled_at n aborted) h

    Every-job_run_from :
        (r : JobRegistry) (as' : List JobAction) → Every P r → Every P (job_run json_bytes r as')
    unfolding job_run
    Every-job_run_from r [] h = h
    Every-job_run_from r (a ∷ as') h =
        Every-job_run_from (job_step json_bytes r a) as' (Every-job_step r a h)

    pub Every-job_run :
        (as' : List JobAction)
        → Every P (job_run json_bytes (record { live = []; writes = [] }) as')
    Every-job_run as' =
        Every-job_run_from (record { live = []; writes = [] }) as'
          (unfold Every lookup in λ id l e. ground arith)
