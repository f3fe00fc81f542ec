-- ===== src/Bridge/Jobs/Bounds.antt =====
-- The history of a job is bounded, and a job in a terminal state has finished.
use wordpress.Common.{
  All, Bool, Bool-cases, List, Option, [], arith, false, if◌then◌else◌, inl, inr, is_some, ltb, map,
  none, refl, some, suc, true, zero, ℕ, ◌++◌, ◌+◌, ◌∙◌, ◌∷◌, ◌≡◌, ◌≤◌,
}
use wordpress.Bridge.Jobs.{
  JobEvent, LiveJob, Stream, emit_live, end_stream, hear, is_log, is_terminal, max_event_log_bytes,
  push_event,
}
use wordpress.Bridge.Jobs.Streams.{beat, change_at, close_stream, pull, pull_queue}

module _ (json_bytes : JobEvent → ℕ) where
  -- The bytes of the log events of a history.
  unfoldable pub log_total : List JobEvent → ℕ
  log_total [] = 0
  log_total (e ∷ es) = let rest = log_total es in if is_log e then json_bytes e + rest else rest

  log_total-append :
      (es : List JobEvent) (e : JobEvent)
      → log_total (es ++ e ∷ []) ≡ log_total es + (if is_log e then json_bytes e else 0)
  unfolding log_total
  log_total-append [] e = ground arith
  log_total-append (d ∷ es) e = ground (arith, log_total-append es e)

  -- The logged bytes are counted, and not more than 2 MiB; a terminal job has its time of finishing
  -- and no stream that listens.
  pub record Bounded (l : LiveJob) : Type 0 where
    pub counted : l.log_bytes ≡ log_total l.events
    pub few : l.log_bytes ≤ max_event_log_bytes
    pub finished : is_terminal l.job.status_now ≡ true → is_some l.job.finished_at ≡ true
    pub quiet : is_terminal l.job.status_now ≡ true → All (λ s. s.listening ≡ false) l.streams

  -- What concerns the events alone.
  abbrev pub Logged : LiveJob → Type 0
  Logged l = (l.log_bytes ≡ log_total l.events) × (l.log_bytes ≤ max_event_log_bytes)

  pub Logged-emit_live : (e : JobEvent) (l : LiveJob) → Logged l → Logged (emit_live json_bytes e l)
  unfolding emit_live push_event
  Logged-emit_live e l (c, b) = elim (Bool-cases (is_log e)) [
    | inl it ↦ elim (Bool-cases (ltb max_event_log_bytes (l.log_bytes + json_bytes e))) [
      | inl full ↦ rw it (rw full (c, b))
      | inr room ↦
          rw it (rw room (ground (arith, c, it, log_total-append l.events e), ground arith))
    ]
    | inr other ↦ rw other (ground (arith, c, other, log_total-append l.events e), b)
  ]

listening-hear : (e : Option JobEvent) (s : Stream) → (hear e s).listening ≡ s.listening
unfolding hear
listening-hear e s = ground arith

pub quiet-hear :
    (e : Option JobEvent) (ss : List Stream)
    → All (λ s. s.listening ≡ false) ss
    → All (λ s. s.listening ≡ false) (map (hear e) ss)
quiet-hear e [] h = tt
quiet-hear e (s ∷ ss) (q, h) = (listening-hear e s ∙ q, quiet-hear e ss h)

pub quiet-end : (ss : List Stream) → All (λ s. s.listening ≡ false) (map end_stream ss)
unfolding end_stream
quiet-end [] = tt
quiet-end (s ∷ ss) = (refl, quiet-end ss)

pub quiet-change :
    (n : ℕ) (f : Stream → Stream) (ss : List Stream)
    → ((s : Stream) → s.listening ≡ false → (f s).listening ≡ false)
    → All (λ s. s.listening ≡ false) ss
    → All (λ s. s.listening ≡ false) (change_at n f ss)
unfolding change_at
quiet-change n f [] k h = tt
quiet-change zero f (s ∷ ss) k (q, h) = (k s q, h)
quiet-change (suc n) f (s ∷ ss) k (q, h) = (q, quiet-change n f ss k h)

pub listening-beat : (s : Stream) → s.listening ≡ false → (beat s).listening ≡ false
unfolding beat
listening-beat s q = ground (arith, q)

listening-pull_queue :
    (q : List (Option JobEvent)) (s : Stream)
    → s.listening ≡ false
    → (pull_queue q s).listening ≡ false
unfolding pull_queue close_stream
listening-pull_queue [] s h = h
listening-pull_queue (none ∷ q) s h = refl
listening-pull_queue (some e ∷ q) s h = h

pub listening-pull :
    (aborted : Bool) (s : Stream) → s.listening ≡ false → (pull aborted s).listening ≡ false
unfolding pull close_stream
listening-pull aborted s h = ground (arith, h, listening-pull_queue s.queue s h)
