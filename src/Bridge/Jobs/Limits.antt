-- ===== src/Bridge/Jobs/Limits.antt =====
-- Every operation keeps the bounds of a live job.
use wordpress.Common.{
  All, All-append, Bool, Bool-cases, List, [], arith, false, if◌then◌else◌, inl, inr, refl, some,
  true, ℕ, ◌≡◌,
}
use wordpress.Bridge.Jobs.{
  Job, JobEvent, LiveJob, Stream, emit_live, finish, is_terminal, new_live, push_event,
  status_event, update_live,
}
use wordpress.Bridge.Jobs.Bounds.{
  Bounded, Logged, Logged-emit_live, listening-beat, listening-pull, log_total, quiet-change,
  quiet-end, quiet-hear,
}
use wordpress.Bridge.Jobs.Every.{Every, Every-job_run, Kept}
use wordpress.Bridge.Jobs.Streams.{JobAction, beat, change_at, job_run, open_stream, pull}

module _ (json_bytes : JobEvent → ℕ) where
  abbrev Ok : LiveJob → Type 0
  Ok l = Bounded json_bytes l

  Ok-finish :
      (now : ℕ) (l : LiveJob)
      → Logged json_bytes l
      → Ok (if is_terminal l.job.status_now then finish json_bytes now l else l)
  unfolding finish
  Ok-finish now l (c, b) = elim (Bool-cases (is_terminal l.job.status_now)) [
    | inl over ↦
        rw over
          (record { counted = c; few = b; finished = λ t. refl; quiet = λ t. quiet-end l.streams })
    | inr going ↦ rw going (record {
      counted = c;
      few = b;
      finished = λ t. ground (arith, going, t);
      quiet = λ t. ground (arith, going, t);
    })
  ]

  Logged-announce :
      (as_status : Bool) (m : LiveJob)
      → Logged json_bytes m
      → Logged json_bytes (
          if as_status
          then emit_live json_bytes (status_event m.job.status_now m.job.error) m
          else m)
  Logged-announce true m h =
      Logged-emit_live json_bytes (status_event m.job.status_now m.job.error) m h
  Logged-announce false m h = h

  Ok-update_live :
      (f : Job → Job) (as_status : Bool) (now : ℕ) (l : LiveJob)
      → Ok l
      → Ok (update_live json_bytes f as_status now l)
  unfolding update_live
  Ok-update_live f as_status now l h =
      let m : LiveJob = record l { job = f l.job } in
      Ok-finish now
        (if as_status
          then emit_live json_bytes (status_event m.job.status_now m.job.error) m
          else m)
        (Logged-announce as_status m (h.counted, h.few))

  job-emit_live : (e : JobEvent) (l : LiveJob) → (emit_live json_bytes e l).job ≡ l.job
  unfolding emit_live push_event
  job-emit_live e l = ground arith

  quiet-emit_live :
      (e : JobEvent) (l : LiveJob)
      → All (λ s. s.listening ≡ false) l.streams
      → All (λ s. s.listening ≡ false) (emit_live json_bytes e l).streams
  unfolding emit_live push_event
  quiet-emit_live e l h = ground (arith, h, quiet-hear (some e) l.streams h)

  Ok-emit_live : (e : JobEvent) (l : LiveJob) → Ok l → Ok (emit_live json_bytes e l)
  Ok-emit_live e l h =
      let g = Logged-emit_live json_bytes e l (h.counted, h.few) in
      record {
        counted = g.0;
        few = g.1;
        finished = rw (job-emit_live e l) h.finished;
        quiet = rw (job-emit_live e l) (λ t. quiet-emit_live e l (h.quiet t));
      }

  Ok-open_stream : (l : LiveJob) → Ok l → Ok (open_stream l)
  unfolding open_stream
  Ok-open_stream l h = record {
    counted = h.counted;
    few = h.few;
    finished = h.finished;
    quiet = λ t. All-append (λ s. s.listening ≡ false) l.streams _ (h.quiet t) (rw t (refl, tt));
  }

  Ok-change :
      (n : ℕ) (f : Stream → Stream) (l : LiveJob)
      → ((s : Stream) → s.listening ≡ false → (f s).listening ≡ false)
      → Ok l
      → Ok (record l { streams = change_at n f l.streams })
  Ok-change n f l k h = record {
    counted = h.counted;
    few = h.few;
    finished = h.finished;
    quiet = λ t. quiet-change n f l.streams k (h.quiet t);
  }

  Ok-Kept : Kept json_bytes (Bounded json_bytes)
  Ok-Kept = record {
    fresh = λ id kind names now.
        unfold new_live log_total is_terminal in
        record { counted = refl; few = omega arith; finished = ground arith; quiet = λ t. tt };
    emitted = Ok-emit_live;
    mutated = Ok-update_live;
    joined = Ok-open_stream;
    beaten_at = λ n l h. Ok-change n beat l listening-beat h;
    pulled_at = λ n aborted l h. Ok-change n (pull aborted) l (listening-pull aborted) h;
  }

  -- However a registry is used from the start, the log events of a job take 2 MiB at most and are
  -- counted exactly, and a job in a terminal state has its time of finishing and no stream that listens.
  pub job_run-Bounded :
      (as' : List JobAction)
      → Every (Bounded json_bytes) (job_run json_bytes (record { live = []; writes = [] }) as')
  job_run-Bounded as' = Every-job_run json_bytes (Bounded json_bytes) Ok-Kept as'
