-- ===== src/Bridge/Idempotency.antt =====
-- The idempotency store: automation-bridge/src/core/idempotency.ts. A call of `run` is three steps, cut
-- where the code awaits: the look at what is in flight and in memory, what follows the load of the
-- file, and what follows the end of `fn`. The key is the one that `run` builds; the file's name is the
-- parameter `file_for`. Reading and writing files does not fail.
pub mod Replays
pub mod Tests
use wordpress.Common.{
  Bool, Map, Option, String, if◌then◌else◌, insert, leb, lookup, none, remove, some, ℕ, ◌-◌, ◌==◌,
}

pub record StoredResponse : Type 0 where
  pub status_code : ℕ
  pub headers : Map String
  pub body : String

-- What is in memory, and what is in a file, where `none` is a response that is not written.
pub record Remembered : Type 0 where
  pub fingerprint : String
  pub created_at : ℕ
  pub response : StoredResponse

pub record StoredRecord : Type 0 where
  pub fingerprint : String
  pub created_at : ℕ
  pub response : Option StoredResponse

pub record IdempotencyStore : Type 0 where
  pub ttl : ℕ
  pub memory : Map Remembered
  pub inflight : Map String
  pub files : Map StoredRecord

-- How a step answers: it waits for the call in flight, it throws (the request differs, or the response
-- held a secret), it replays a response, it runs `fn`.
pub data Answer : Type 0 where
  waits mismatch secret_gone runs : Answer
  replays : StoredResponse → Answer

unfoldable pub replay : StoredResponse → StoredResponse
replay r = record r { headers = insert "idempotent-replay" "true" r.headers }

-- `now - created_at <= this.ttlMs`
unfoldable pub is_fresh : ℕ → ℕ → ℕ → Bool
is_fresh ttl created_at now = leb (now - created_at) ttl

unfoldable pub check_inflight : String → String → Answer
check_inflight live fp = if live == fp then waits else mismatch

unfoldable pub check_memory : ℕ → Option Remembered → String → ℕ → Option Answer
unfolding is_fresh replay
check_memory ttl none fp now = none
check_memory ttl (some m) fp now =
    if is_fresh ttl m.created_at now
    then some (if m.fingerprint == fp then replays (replay m.response) else mismatch)
    else none

-- Up to the load; `none` goes on.
unfoldable pub first_look : IdempotencyStore → String → String → ℕ → Option Answer
unfolding check_inflight check_memory
first_look s key fp now = elim (lookup key s.inflight) [
  | some live ↦ some (check_inflight live fp)
  | none ↦ check_memory s.ttl (lookup key s.memory) fp now
]

unfoldable pub answer_of : Option StoredResponse → Answer
unfolding replay
answer_of none = secret_gone
answer_of (some r) = replays (replay r)

-- What a record that was loaded answers; an expired one counts as absent.
unfoldable pub check_stored : ℕ → Option StoredRecord → String → ℕ → Option Answer
unfolding is_fresh answer_of
check_stored ttl none fp now = none
check_stored ttl (some r) fp now =
    if is_fresh ttl r.created_at now
    then some (if r.fingerprint == fp then answer_of r.response else mismatch)
    else none

module _ (file_for : String → String) where
  -- From the load on: `fn` is run if nothing is stored, and the call is in flight.
  unfoldable pub after_load : IdempotencyStore → String → String → ℕ → IdempotencyStore × Answer
  unfolding check_stored
  after_load s key fp now = elim (check_stored s.ttl (lookup (file_for key) s.files) fp now) [
    | some a ↦ (s, a)
    | none ↦ (record s { inflight = insert key fp s.inflight }, runs)
  ]

  -- A call that no other one interrupts before `fn` is started.
  unfoldable pub call_run : IdempotencyStore → String → String → ℕ → IdempotencyStore × Answer
  unfolding first_look after_load
  call_run s key fp now = elim (first_look s key fp now) [
    | some a ↦ (s, a)
    | none ↦ after_load s key fp now
  ]

  -- After `fn`: the response is stored if `should_store`, in memory only if it is sensitive.
  unfoldable pub store_response :
      IdempotencyStore → String → String → ℕ → Bool → StoredResponse → IdempotencyStore
  store_response s key fp now sensitive r = record s {
    memory =
        if sensitive
        then insert key (record { fingerprint = fp; created_at = now; response = r }) s.memory
        else s.memory;
    files =
        insert (file_for key)
          (record {
            fingerprint = fp;
            created_at = now;
            response = if sensitive then none else some r;
          })
          s.files;
  }

  unfoldable pub finish_run :
      IdempotencyStore → String → String → ℕ → Bool → Bool → StoredResponse → IdempotencyStore
  unfolding store_response
  finish_run s key fp now sensitive should_store r =
      let stored = store_response s key fp now sensitive r in
      let t = if should_store then stored else s in record t { inflight = remove key t.inflight }
