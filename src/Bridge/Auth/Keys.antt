-- ===== src/Bridge/Auth/Keys.antt =====
-- The key store: automation-bridge/src/core/auth/keystore.ts, with the list of keys as its state.
-- Times are milliseconds. The file behind it is not modelled: `persist` writes what the state holds.
pub mod Laws
pub mod Tests
use wordpress.Common.{
  Bool, List, Option, String, [], any, false, find?, if◌then◌else◌, is_some, keep, leb, ltb, none,
  not, some, true, ℕ, ◌&&◌, ◌*◌, ◌++◌, ◌+◌, ◌==◌, ◌∷◌,
}

pub data Scope : Type 0 where
  read write deploy admin : Scope

-- What `Date.parse` reads in a text: a time, or NaN, which every comparison refuses.
pub data Stamp : Type 0 where
  at_time : ℕ → Stamp
  unreadable : Stamp

pub record KeyEntry : Type 0 where
  pub key_id : String
  pub secret : String
  pub scopes : List Scope
  pub created_at : ℕ
  pub not_after : Option Stamp
  pub revoked_at : Option ℕ

abbrev pub scope_eq : Scope → Scope → Bool
scope_eq read read = true
scope_eq write write = true
scope_eq deploy deploy = true
scope_eq admin admin = true
scope_eq _ _ = false

-- `scopes.includes(s)`
abbrev pub has_scope : Scope → List Scope → Bool
has_scope s = any (scope_eq s)

abbrev pub is_expired : ℕ → Option Stamp → Bool
is_expired now none = false
is_expired now (some (at_time t)) = leb t now
is_expired now (some unreadable) = false

unfoldable pub is_active : KeyEntry → ℕ → Bool
is_active k now = if is_some k.revoked_at then false else not (is_expired now k.not_after)

unfoldable pub find_key : List KeyEntry → String → Option KeyEntry
find_key keys id = find? (λ k. k.key_id == id) keys

-- The entry that `find` returns is changed in place.
unfoldable pub update_key : List KeyEntry → String → (KeyEntry → KeyEntry) → List KeyEntry
update_key [] id f = []
update_key (k ∷ keys) id f =
    let rest = update_key keys id f in if k.key_id == id then f k ∷ keys else k ∷ rest

-- `if (!not_after || Date.parse(not_after) > Date.parse(graceEnd)) not_after = graceEnd`
unfoldable pub grace_end : ℕ → Option Stamp → Stamp
grace_end end none = at_time end
grace_end end (some (at_time t)) = at_time (if ltb end t then end else t)
grace_end end (some unreadable) = unreadable

unfoldable pub grace : ℕ → KeyEntry → KeyEntry
unfolding grace_end
grace end k = record k { not_after = some (grace_end end k.not_after) }

-- `rotate`, with the new id and secret; `none` is the thrown error.
unfoldable pub rotate :
    List KeyEntry → String → ℕ → ℕ → String → String → Option (List KeyEntry × KeyEntry)
unfolding find_key update_key grace
rotate keys caller_id grace_seconds now new_id secret = elim (find_key keys caller_id) [
  | none ↦ none
  | some caller ↦
      let entry : KeyEntry = record {
        key_id = new_id;
        secret = secret;
        scopes = caller.scopes;
        created_at = now;
        not_after = none;
        revoked_at = none;
      } in
      some (update_key keys caller_id (grace (now + grace_seconds * 1000)) ++ entry ∷ [], entry)
]

pub data Revocation : Type 0 where
  revoked not_found last_admin : Revocation

unfoldable pub active_admins : List KeyEntry → ℕ → List KeyEntry
unfolding is_active
active_admins keys now = keep (λ k. is_active k now && has_scope admin k.scopes) keys

-- `activeAdmins.length <= 1 && activeAdmins[0]?.key_id === keyId`
abbrev pub is_only : List KeyEntry → String → Bool
is_only [] id = false
is_only (k ∷ []) id = k.key_id == id
is_only (k ∷ l ∷ ks) id = false

unfoldable pub set_revoked : ℕ → KeyEntry → KeyEntry
set_revoked now k = record k { revoked_at = some now }

unfoldable pub revoke : List KeyEntry → String → Bool → ℕ → List KeyEntry × Revocation
unfolding find_key update_key active_admins set_revoked
revoke keys id confirm_last now = elim (find_key keys id) [
  | none ↦ (keys, not_found)
  | some k ↦
      if is_some k.revoked_at
      then (keys, not_found)
      else if has_scope admin k.scopes && is_only (active_admins keys now) id && not confirm_last
      then (keys, last_admin)
      else (update_key keys id (set_revoked now), revoked)
]
