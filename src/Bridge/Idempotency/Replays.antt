-- ===== src/Bridge/Idempotency/Replays.antt =====
-- What a later call with the same key gets.
use wordpress.Common.{
  All, Bool, List, String, [], ap, false, if◌then◌else◌, le→leb, lookup, lookup-insert,
  lookup-remove, map, none, refl, some, str_eq_refl, true, ℕ, ◌-◌, ◌==◌, ◌∷◌, ◌≡◌, ◌≤◌,
}
use wordpress.Bridge.Idempotency.{
  Answer, IdempotencyStore, StoredResponse, after_load, answer_of, call_run, check_memory,
  check_stored, finish_run, first_look, is_fresh, mismatch, replay, replays, secret_gone,
  store_response,
}

module _ (file_for : String → String) where
  -- What a second call is told within the time to live, given what the first was given.
  abbrev pub told : String → String → StoredResponse → Answer
  told first second r = if first == second then replays (replay r) else mismatch

  finished_inflight :
      (s : IdempotencyStore) (key fp : String) (now : ℕ) (sensitive : Bool) (r : StoredResponse)
      → lookup key (finish_run file_for s key fp now sensitive true r).inflight ≡ none
  unfolding finish_run
  finished_inflight s key fp now sensitive r = rw lookup-remove (rw (str_eq_refl key) refl)

  -- A call that memory answers, and one that a file answers.
  call_remembered :
      (s : IdempotencyStore) (key fp : String) (now : ℕ) (a : Answer)
      → lookup key s.inflight ≡ none
      → check_memory s.ttl (lookup key s.memory) fp now ≡ some a
      → call_run file_for s key fp now ≡ (s, a)
  unfolding call_run first_look
  call_remembered s key fp now a idle known = rw (idle, first_look, call_run) (rw known refl)

  call_stored :
      (s : IdempotencyStore) (key fp : String) (now : ℕ) (a : Answer)
      → lookup key s.inflight ≡ none
      → check_memory s.ttl (lookup key s.memory) fp now ≡ none
      → check_stored s.ttl (lookup (file_for key) s.files) fp now ≡ some a
      → call_run file_for s key fp now ≡ (s, a)
  unfolding call_run first_look after_load
  call_stored s key fp now a idle unknown found =
      rw (idle, first_look, call_run) (rw unknown (rw (found, after_load) refl))

  finished_file :
      (s : IdempotencyStore) (key fp fp' : String) (now later : ℕ) (sensitive : Bool)
      (r : StoredResponse)
      → later - now ≤ s.ttl
      → check_stored s.ttl
          (lookup (file_for key) (finish_run file_for s key fp now sensitive true r).files)
          fp'
          later
        ≡ some (if fp == fp' then answer_of (if sensitive then none else some r) else mismatch)
  unfolding finish_run store_response check_stored is_fresh
  finished_file s key fp fp' now later sensitive r fresh =
      rw lookup-insert
        (rw (str_eq_refl (file_for key)) (rw (le→leb (later - now) s.ttl fresh) refl))

  -- One call on the store as it was left.
  stored_once :
      (s : IdempotencyStore) (key fp fp' : String) (now later : ℕ) (r : StoredResponse)
      → lookup key s.memory ≡ none
      → later - now ≤ s.ttl
      → call_run file_for (finish_run file_for s key fp now false true r) key fp' later
        ≡ (finish_run file_for s key fp now false true r, told fp fp' r)
  unfolding finish_run store_response answer_of
  stored_once s key fp fp' now later r no_memory fresh =
      call_stored (finish_run file_for s key fp now false true r) key fp' later (told fp fp' r)
        (finished_inflight s key fp now false r) (rw no_memory (unfold check_memory in refl))
        (finished_file s key fp fp' now later false r fresh)

  -- The answers to calls with a key, one after the other; a call has its fingerprint and its time.
  unfoldable pub answers : IdempotencyStore → String → List (String × ℕ) → List Answer
  answers s key [] = []
  answers s key ((fp, time) ∷ calls) =
      let o = call_run file_for s key fp time in o.1 ∷ answers o.0 key calls

  -- A response that is not sensitive and is stored when nothing is in memory for its key answers each
  -- of the calls with that key that come next, one after the other, while its time to live lasts: the
  -- same request gets the response again, marked as a replay, and another one is refused; `fn` is not
  -- run.
  pub stored_replays :
      (s : IdempotencyStore) (key fp : String) (now : ℕ) (r : StoredResponse)
      (calls : List (String × ℕ))
      → lookup key s.memory ≡ none
      → All (λ c. c.1 - now ≤ s.ttl) calls
      → answers (finish_run file_for s key fp now false true r) key calls
        ≡ map (λ c. told fp c.0 r) calls
  unfolding answers
  stored_replays s key fp now r [] no_memory fresh = refl
  stored_replays s key fp now r ((fp', later) ∷ calls) no_memory (f, fresh) =
      rw (stored_once s key fp fp' now later r no_memory f)
        (ap (λ as'. told fp fp' r ∷ as') (stored_replays s key fp now r calls no_memory fresh))

  -- A sensitive response that is stored is replayed from memory while its time to live lasts. After a
  -- restart, which leaves the files only, the same request is refused because the secret is gone, and
  -- another one because it differs: `fn` is not run in either case.
  pub sensitive_replays :
      (s : IdempotencyStore) (key fp fp' : String) (now later : ℕ) (r : StoredResponse)
      → later - now ≤ s.ttl
      → (call_run file_for (finish_run file_for s key fp now true true r) key fp' later
          ≡ (finish_run file_for s key fp now true true r, told fp fp' r))
        × ((call_run file_for
              (record (finish_run file_for s key fp now true true r) { memory = []; inflight = [] })
              key
              fp'
              later).1
            ≡ (if fp == fp' then secret_gone else mismatch))
  unfolding finish_run store_response answer_of check_memory is_fresh lookup
  sensitive_replays s key fp fp' now later r fresh =
      let t = finish_run file_for s key fp now true true r in
      (
        call_remembered t key fp' later (told fp fp' r) (finished_inflight s key fp now true r)
            (rw lookup-insert (rw (str_eq_refl key) (rw (le→leb (later - now) s.ttl fresh) refl))),
        ap (λ (x : IdempotencyStore × Answer). x.1)
            (call_stored (record t { memory = []; inflight = [] }) key fp' later
              (if fp == fp' then secret_gone else mismatch) refl refl
              (finished_file s key fp fp' now later true r fresh)),
      )
