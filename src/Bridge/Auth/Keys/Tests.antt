-- ===== src/Bridge/Auth/Keys/Tests.antt =====
-- Runs of the key store.
use wordpress.Common.{
  false, ◌||◌, List, String, [], arith, false, length, ltb, none, refl, some, true, ℕ, ◌&&◌, ◌==◌,
  ◌∷◌, ◌≡◌, ◌≤◌,
}
use wordpress.Bridge.Auth.Keys.{
  KeyEntry, Scope, active_admins, admin, find_key, is_active, read, revoke, rotate,
}
use wordpress.Bridge.Auth.Keys.Laws.{is_no_date, revoke-revoked, revoke_keeps_admin, rotate_lem}

abbrev entry_of : String → List Scope → KeyEntry
entry_of id scopes = record {
  key_id = id;
  secret = "s";
  scopes = scopes;
  created_at = 0;
  not_after = none;
  revoked_at = none;
}

abbrev two_keys : List KeyEntry
two_keys = entry_of "ops" (admin ∷ []) ∷ entry_of "reader" (read ∷ []) ∷ []

revoke_keeps_admin_example : 1 ≤ length (active_admins (revoke two_keys "ops" false 50).0 50)
unfolding active_admins is_active
revoke_keeps_admin_example = revoke_keeps_admin two_keys "ops" 50 (omega arith)

revoke-revoked_example :
    ((k : KeyEntry) × (find_key (revoke two_keys "reader" false 50).0 "reader" ≡ some k)
      × ((t : ℕ) → is_active k t ≡ false))
    × ((j : String)
        → ("reader" == j) ≡ false
        → find_key (revoke two_keys "reader" false 50).0 j ≡ find_key two_keys j)
unfolding revoke find_key active_admins is_active
revoke-revoked_example = revoke-revoked two_keys "reader" false 50 refl

rotate_lem_example :
    (keys' : List KeyEntry) × (entry : KeyEntry) × (rotate two_keys "ops" 60 50 "ops-2" "t"
      ≡ some (keys', entry))
    × (find_key keys' "ops-2" ≡ some entry)
    × (entry.scopes ≡ admin ∷ [])
    × ((t : ℕ) → is_active entry t ≡ true)
    × ((caller' : KeyEntry) × (find_key keys' "ops" ≡ some caller')
        × ((t : ℕ)
            → is_active caller' t
              ≡ (is_active (entry_of "ops" (admin ∷ [])) t && (ltb t 60_050 || false))))
unfolding find_key is_no_date
rotate_lem_example =
    rotate_lem two_keys (entry_of "ops" (admin ∷ [])) "ops" "ops-2" "t" 60 50 refl refl
