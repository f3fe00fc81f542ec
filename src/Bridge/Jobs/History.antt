-- ===== src/Bridge/Jobs/History.antt =====
-- Every stream of every job follows the history of the job, and returns once the job is over.
use wordpress.Common.{
  All, All-append, Bool, Bool-cases, List, Option, String, [], arith, false, if◌then◌else◌, inl,
  inr, length, lookup, ltb, map, none, refl, some, suc, true, zero, ℕ, ◌++◌, ◌+◌, ◌∷◌, ◌≡◌,
}
use wordpress.Bridge.Jobs.{
  Job, JobEvent, LiveJob, Stream, emit_live, end_stream, finish, hear, is_log, is_terminal,
  max_event_log_bytes, new_live, push_event, status_event, update_live,
}
use wordpress.Bridge.Jobs.Delivery.{
  Follows, Follows-beat, Follows-end, Follows-fresh, Follows-hear, Follows-late, Follows-pull,
  FollowsAs, has_end,
}
use wordpress.Bridge.Jobs.Every.{Every, Every-job_run, Kept}
use wordpress.Bridge.Jobs.Limits.{job_run-Bounded}
use wordpress.Bridge.Jobs.Streams.{
  JobAction, beat, change_at, close_stream, job_run, open_stream, pull, pull_queue,
}

-- Every stream follows the job's history.
unfoldable pub Followed : LiveJob → Type 0
Followed l = All (Follows l.events) l.streams

all-hear :
    (e : JobEvent) (es : List JobEvent) (ss : List Stream)
    → All (Follows es) ss
    → All (Follows (es ++ e ∷ [])) (map (hear (some e)) ss)
all-hear e es [] h = tt
all-hear e es (s ∷ ss) (f, h) = (
  Follows-hear e es s.listening s.returned s.sent s.queue (unfold Follows in f),
  all-hear e es ss h,
)

all-end :
    (es : List JobEvent) (ss : List Stream)
    → All (Follows es) ss
    → All (Follows es) (map end_stream ss)
all-end es [] h = tt
all-end es (s ∷ ss) (f, h) =
    (Follows-end es s.listening s.returned s.sent s.queue (unfold Follows in f), all-end es ss h)

all-change :
    (es : List JobEvent) (n : ℕ) (f : Stream → Stream) (ss : List Stream)
    → ((s : Stream) → Follows es s → Follows es (f s))
    → All (Follows es) ss
    → All (Follows es) (change_at n f ss)
unfolding change_at
all-change es n f [] k h = tt
all-change es zero f (s ∷ ss) k (g, h) = (k s g, h)
all-change es (suc n) f (s ∷ ss) k (g, h) = (g, all-change es n f ss k h)

module _ (json_bytes : JobEvent → ℕ) where
  Followed-push : (e : JobEvent) (l : LiveJob) → Followed l → Followed (push_event e l)
  unfolding Followed push_event
  Followed-push e l h = all-hear e l.events l.streams h

  Followed-emit_live :
      (e : JobEvent) (l : LiveJob) → Followed l → Followed (emit_live json_bytes e l)
  unfolding emit_live
  Followed-emit_live e l h = elim (Bool-cases (is_log e)) [
    | inl it ↦ elim (Bool-cases (ltb max_event_log_bytes (l.log_bytes + json_bytes e))) [
      | inl full ↦ rw it (rw full h)
      | inr room ↦ rw it (
          rw room (
            Followed-push e (record l { log_bytes = l.log_bytes + json_bytes e })
              (unfold Followed in h)))
    ]
    | inr other ↦ rw other (Followed-push e l h)
  ]

  Followed-finish :
      (now : ℕ) (l : LiveJob)
      → Followed l
      → Followed (if is_terminal l.job.status_now then finish json_bytes now l else l)
  unfolding finish
  Followed-finish now l h = elim (Bool-cases (is_terminal l.job.status_now)) [
    | inl over ↦ rw over (unfold Followed in all-end l.events l.streams h)
    | inr going ↦ rw going h
  ]

  Followed-announce :
      (as_status : Bool) (m : LiveJob)
      → Followed m
      → Followed (
          if as_status
          then emit_live json_bytes (status_event m.job.status_now m.job.error) m
          else m)
  Followed-announce true m h = Followed-emit_live (status_event m.job.status_now m.job.error) m h
  Followed-announce false m h = h

  Followed-update_live :
      (f : Job → Job) (as_status : Bool) (now : ℕ) (l : LiveJob)
      → Followed l
      → Followed (update_live json_bytes f as_status now l)
  unfolding update_live
  Followed-update_live f as_status now l h =
      let m : LiveJob = record l { job = f l.job } in
      Followed-finish now
        (if as_status
          then emit_live json_bytes (status_event m.job.status_now m.job.error) m
          else m)
        (Followed-announce as_status m (unfold Followed in h))

  Followed-open : (l : LiveJob) → Followed l → Followed (open_stream l)
  unfolding open_stream Followed
  Followed-open l h = elim (Bool-cases (is_terminal l.job.status_now)) [
    | inl over ↦
        rw over (
          All-append (Follows l.events) l.streams _ h (unfold Follows in Follows-late l.events, tt))
    | inr going ↦
        rw going (
          All-append (Follows l.events) l.streams _ h
            (unfold Follows in Follows-fresh l.events, tt))
  ]

  Followed-Kept : Kept json_bytes Followed
  unfolding Followed
  Followed-Kept = record {
    fresh = λ id kind names now. unfold new_live in tt;
    emitted = Followed-emit_live;
    mutated = Followed-update_live;
    joined = Followed-open;
    beaten_at = λ n l h.
        all-change l.events n beat l.streams
          (λ s g. Follows-beat l.events s.listening s.returned s.sent s.queue (unfold Follows in g))
          h;
    pulled_at = λ n aborted l h.
        all-change l.events n (pull aborted) l.streams
          (λ s g.
            Follows-pull l.events aborted s.listening s.returned s.sent s.queue
              (unfold Follows in g))
          h;
  }

  -- However a registry is used from the start, every stream of a job follows the job's history: what a
  -- listening stream has sent and has queued is the whole history but for heartbeats, what another one
  -- sends is a part of it from the beginning, which ends if the stream has not returned.
  pub job_run-Followed :
      (as' : List JobAction)
      → Every Followed (job_run json_bytes (record { live = []; writes = [] }) as')
  job_run-Followed as' = Every-job_run json_bytes Followed Followed-Kept as'

-- `n` rounds of the generator.
unfoldable pub pulls : ℕ → Stream → Stream
pulls zero s = s
pulls (suc n) s = pulls n (pull false s)

pulls-returned :
    (n : ℕ) (q : List (Option JobEvent)) (b : Bool) (sent : List JobEvent)
    → (pulls n (record { queue = q; listening = b; sent = sent; returned = true })).returned ≡ true
unfolding pulls pull
pulls-returned zero q b sent = refl
pulls-returned (suc n) q b sent = pulls-returned n q b sent

pulls-end :
    (q : List (Option JobEvent)) (b : Bool) (sent : List JobEvent)
    → has_end q ≡ true
    → (pulls
        (length q)
        (record { queue = q; listening = b; sent = sent; returned = false })).returned
      ≡ true
unfolding pulls pull pull_queue has_end
pulls-end [] b sent h = ground (arith, h)
pulls-end (none ∷ q) b sent h = unfold close_stream in pulls-returned (length q) q false sent
pulls-end (some e ∷ q) b sent h = pulls-end q b (sent ++ e ∷ []) h

-- A stream that does not listen returns when it has taken what is in its queue.
quiet_returns :
    (es : List JobEvent) (b r : Bool) (sent : List JobEvent) (q : List (Option JobEvent))
    → b ≡ false
    → FollowsAs es b r sent q
    → (pulls (length q) (record { queue = q; listening = b; sent = sent; returned = r })).returned
      ≡ true
unfolding FollowsAs
quiet_returns es true r sent q e h = ground (arith, e)
quiet_returns es false true sent q e h = pulls-returned (length q) q false sent
quiet_returns es false false sent q e h = pulls-end q false sent h.1

all_return :
    (es : List JobEvent) (ss : List Stream)
    → All (λ s. s.listening ≡ false) ss
    → All (Follows es) ss
    → All (λ s. (pulls (length s.queue) s).returned ≡ true) ss
all_return es [] u h = tt
all_return es (s ∷ ss) (e, u) (f, h) = (
  quiet_returns es s.listening s.returned s.sent s.queue e (unfold Follows in f),
  all_return es ss u h,
)

-- Where a job that is found in a registry, however it was used, is in a terminal state, every stream of
-- it returns after as many rounds as there are entries in its queue.
pub terminal_returns :
    (json_bytes : JobEvent → ℕ) (as' : List JobAction) (id : String) (l : LiveJob)
    → lookup id (job_run json_bytes (record { live = []; writes = [] }) as').live ≡ some l
    → is_terminal l.job.status_now ≡ true
    → All (λ s. (pulls (length s.queue) s).returned ≡ true) l.streams
unfolding Every Followed
terminal_returns json_bytes as' id l found over =
    all_return l.events l.streams ((job_run-Bounded json_bytes as' id l found).quiet over)
      (job_run-Followed json_bytes as' id l found)
