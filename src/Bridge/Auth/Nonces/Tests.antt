-- ===== src/Bridge/Auth/Nonces/Tests.antt =====
-- Runs of the nonce cache.
use wordpress.Common.{String, [], arith, false, insert, lookup, refl, some, ◌∷◌, ◌≡◌}
use wordpress.Bridge.Auth.Nonces.{
  NonceCache, add_nonce, check_and_remember, check_key, live_entries, persist, persist_file, prune,
  remember, sweep, young_files,
}
use wordpress.Bridge.Auth.Nonces.Replay.{Call, after_calls, no_replay}

abbrev same_text : String → String
same_text s = s

abbrev empty_cache : NonceCache
empty_cache = record { seen = []; ttl = 600_000; max_size = 3; dir = some []; last_sweep = 0 }

abbrev other_call : Call
other_call = record { key_id = "k2"; nonce = "n"; at = 1_200_500 }

no_replay_example :
    (check_and_remember same_text
      (after_calls same_text
        (check_and_remember same_text empty_cache "k1" "n" 1_000_000).0
        (other_call ∷ []))
      "k1"
      "n"
      1_500_000).1
    ≡ false
unfolding check_and_remember check_key prune sweep young_files live_entries add_nonce remember
    persist persist_file lookup insert
no_replay_example =
    no_replay same_text empty_cache "k1" "n" 1_000_000 1_500_000 (other_call ∷ []) refl
      (omega arith, tt) (omega arith)
