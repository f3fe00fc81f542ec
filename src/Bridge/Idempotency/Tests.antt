-- ===== src/Bridge/Idempotency/Tests.antt =====
-- Runs of the idempotency store.
use wordpress.Common.{◌∷◌, String, [], arith, false, insert, lookup, none, refl, true, ◌≡◌}
use wordpress.Bridge.Idempotency.{
  IdempotencyStore, StoredResponse, after_load, call_run, check_memory, check_stored, finish_run,
  first_look, mismatch, replay, replays, runs,
}
use wordpress.Bridge.Idempotency.Replays.{answers, sensitive_replays, stored_replays}

abbrev no_calls : IdempotencyStore
no_calls = record { ttl = 86_400_000; memory = []; inflight = []; files = [] }

abbrev named : String → String
named key = key

abbrev created_answer : StoredResponse
created_answer = record { status_code = 200; headers = []; body = "{}" }

-- Two calls with one key that both look before either has loaded its file: both run `fn`.
two_calls_run :
    (first_look no_calls "k" "f" 5 ≡ none)
    × ((after_load named no_calls "k" "f" 5).1 ≡ runs)
    × ((after_load named (after_load named no_calls "k" "f" 5).0 "k" "f" 5).1 ≡ runs)
unfolding first_look check_memory after_load check_stored lookup insert
two_calls_run = (refl, refl, refl)

stored_replays_example :
    answers named
      (finish_run named no_calls "k" "f" 100 false true created_answer)
      "k"
      (("f", 2_000) ∷ ("g", 3_000) ∷ [])
    ≡ replays (replay created_answer) ∷ mismatch ∷ []
unfolding lookup
stored_replays_example =
    stored_replays named no_calls "k" "f" 100 created_answer (("f", 2_000) ∷ ("g", 3_000) ∷ []) refl
      (omega arith, (omega arith, tt))

sensitive_replays_example :
    (call_run named (finish_run named no_calls "k" "f" 100 true true created_answer) "k" "g" 2_000
      ≡ (finish_run named no_calls "k" "f" 100 true true created_answer, mismatch))
    × ((call_run named
          (record (finish_run named no_calls "k" "f" 100 true true created_answer) {
            memory = [];
            inflight = [];
          })
          "k"
          "g"
          2_000).1
        ≡ mismatch)
sensitive_replays_example =
    sensitive_replays named no_calls "k" "f" "g" 100 2_000 created_answer (omega arith)
