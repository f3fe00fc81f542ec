-- ===== src/Bridge/Auth/Keys/Laws.antt =====
-- What rotating and revoking keys leave in the key store.
use wordpress.Common.{
  Option, ◌||◌, Bool, List, Option-cases, String, [], arith, eq_iff, false, if◌then◌else◌, inl, inr,
  is_some, length, ltb, none, not, refl, some, str_eq_refl, true, ℕ, ◌&&◌, ◌*◌, ◌++◌, ◌+◌, ◌==◌,
  ◌∷◌, ◌≡◌, ◌≤◌,
}
use wordpress.Bridge.Auth.Keys.{
  Stamp, at_time, unreadable, grace_end, is_expired, KeyEntry, active_admins, admin, find_key,
  grace, has_scope, is_active, is_only, last_admin, not_found, revoke, revoked, rotate, set_revoked,
  update_key,
}
use mathlib.Core.Option

-- An update that keeps ids changes what is found under its id and nothing else.
find_key-update_key :
    (keys : List KeyEntry) (id j : String) (f : KeyEntry → KeyEntry)
    → ((k : KeyEntry) → (f k).key_id ≡ k.key_id)
    → find_key (update_key keys id f) j
      ≡ (if id == j then Option.map f (find_key keys j) else find_key keys j)
unfolding find_key update_key
find_key-update_key [] id j f h = ground arith
find_key-update_key (k ∷ keys) id j f h = ground (
  arith,
  h k,
  eq_iff id j,
  eq_iff k.key_id id,
  eq_iff k.key_id j,
  find_key-update_key keys id j f h,
)

-- What `revoke` does with a key that it finds.
abbrev protects : List KeyEntry → String → Bool → ℕ → KeyEntry → Bool
protects keys id confirm_last now k =
    has_scope admin k.scopes && is_only (active_admins keys now) id && not confirm_last

revoke_absent :
    (keys : List KeyEntry) (id : String) (confirm_last : Bool) (now : ℕ)
    → find_key keys id ≡ none
    → revoke keys id confirm_last now ≡ (keys, not_found)
unfolding revoke
revoke_absent keys id confirm_last now absent = rw (absent, revoke) refl

revoke_found :
    (keys : List KeyEntry) (id : String) (confirm_last : Bool) (now : ℕ) (k : KeyEntry)
    → find_key keys id ≡ some k
    → revoke keys id confirm_last now ≡ (
        if is_some k.revoked_at
        then (keys, not_found)
        else if protects keys id confirm_last now k
        then (keys, last_admin)
        else (update_key keys id (set_revoked now), revoked))
unfolding revoke
revoke_found keys id confirm_last now k found = rw (found, revoke) refl

-- A revocation that goes through has found its key and marked it.
revoked_key :
    (keys : List KeyEntry) (id : String) (confirm_last : Bool) (now : ℕ)
    → (revoke keys id confirm_last now).1 ≡ revoked
    → (k : KeyEntry) × (find_key keys id ≡ some k)
      × ((revoke keys id confirm_last now).0 ≡ update_key keys id (set_revoked now))
      × (protects keys id confirm_last now k ≡ false)
revoked_key keys id confirm_last now e = elim (Option-cases (find_key keys id)) [
  | inl absent ↦ ground (arith, revoke_absent keys id confirm_last now absent)
  | inr (k, found) ↦ (
    k,
    found,
    ground (arith, revoke_found keys id confirm_last now k found),
    ground (arith, revoke_found keys id confirm_last now k found),
  )
]

-- The number of active administrators after the key that is found is marked.
count_update :
    (keys : List KeyEntry) (id : String) (k : KeyEntry) (now : ℕ)
    → find_key keys id ≡ some k
    → length (active_admins (update_key keys id (set_revoked now)) now)
        + (if is_active k now && has_scope admin k.scopes then 1 else 0)
      ≡ length (active_admins keys now)
unfolding find_key update_key active_admins set_revoked
count_update [] id k now e = cc
count_update (l ∷ keys) id k now e = ground (arith, count_update keys id k now)

-- Where the key that is found is an active administrator but not the only one, there are two.
two_admins :
    (keys : List KeyEntry) (id : String) (k : KeyEntry) (now : ℕ)
    → find_key keys id ≡ some k
    → (is_active k now && has_scope admin k.scopes) ≡ true
    → is_only (active_admins keys now) id ≡ false
    → 2 ≤ length (active_admins keys now)
unfolding find_key active_admins
two_admins [] id k now e a o = cc
two_admins (l ∷ keys) id k now e a o =
    ground (arith, two_admins keys id k now, count_update keys id k now)

-- After `revoke` answers "revoked", the key that is found under the id is active at no time, and
-- every other key is found as it was.
pub revoke-revoked :
    (keys : List KeyEntry) (id : String) (confirm_last : Bool) (now : ℕ)
    → (revoke keys id confirm_last now).1 ≡ revoked
    → ((k : KeyEntry) × (find_key (revoke keys id confirm_last now).0 id ≡ some k)
        × ((t : ℕ) → is_active k t ≡ false))
      × ((j : String)
          → (id == j) ≡ false
          → find_key (revoke keys id confirm_last now).0 j ≡ find_key keys j)
revoke-revoked keys id confirm_last now e =
    let (k, found, marked, _) = revoked_key keys id confirm_last now e in
    (
      (
        set_revoked now k,
        rw marked (
            rw (find_key-update_key keys id id (set_revoked now) (λ k. unfold set_revoked in refl))
              (rw (str_eq_refl id) (rw found refl))),
        λ t. unfold is_active set_revoked in refl,
      ),
      λ j other. rw marked (
          rw (find_key-update_key keys id j (set_revoked now) (λ k. unfold set_revoked in refl))
            (rw other refl)),
    )

-- Without `confirmLast`, `revoke` leaves an active administrator wherever there was one, whatever it
-- answers.
pub revoke_keeps_admin :
    (keys : List KeyEntry) (id : String) (now : ℕ)
    → 1 ≤ length (active_admins keys now)
    → 1 ≤ length (active_admins (revoke keys id false now).0 now)
revoke_keeps_admin keys id now one = elim (Option-cases (find_key keys id)) [
  | inl absent ↦ rw (revoke_absent keys id false now absent) one
  | inr (k, found) ↦
      rw (revoke_found keys id false now k found)
        (ground (arith, count_update keys id k now found, two_admins keys id k now found))
]

find_key-append :
    (keys : List KeyEntry) (e : KeyEntry) (id : String)
    → find_key (keys ++ e ∷ []) id
      ≡ elim (find_key keys id) [ none ↦ if e.key_id == id then some e else none | some k ↦ some k ]
unfolding find_key
find_key-append [] e id = refl
find_key-append (k ∷ keys) e id = ground (arith, find_key-append keys e id)

-- The text is there, and is no date.
unfoldable pub is_no_date : Option Stamp → Bool
is_no_date none = false
is_no_date (some (at_time t)) = false
is_no_date (some unreadable) = true

is_expired-grace_end :
    (end : ℕ) (o : Option Stamp) (t : ℕ)
    → is_expired t (some (grace_end end o)) ≡ (is_expired t o || not (ltb t end || is_no_date o))
unfolding grace_end is_no_date
is_expired-grace_end end none t = ground arith
is_expired-grace_end end (some (at_time u)) t = ground arith
is_expired-grace_end end (some unreadable) t = ground arith

active_and :
    (gone past early : Bool)
    → (if gone then false else not (past || not early))
      ≡ ((if gone then false else not past) && early)
active_and gone past early = ground arith

grace-is_active :
    (end : ℕ) (k : KeyEntry) (t : ℕ)
    → is_active (grace end k) t ≡ (is_active k t && (ltb t end || is_no_date k.not_after))
unfolding grace is_active
grace-is_active end k t = rw (is_expired-grace_end end k.not_after t) (
    active_and (is_some k.revoked_at) (is_expired t k.not_after)
      (ltb t end || is_no_date k.not_after))

abbrev new_entry : KeyEntry → String → String → ℕ → KeyEntry
new_entry caller new_id secret now = record {
  key_id = new_id;
  secret = secret;
  scopes = caller.scopes;
  created_at = now;
  not_after = none;
  revoked_at = none;
}

-- After `rotate` the new key is found where its id was free, has the caller's scopes and no expiry; the
-- caller's key is active when it was before and the grace period is not over, and where its expiry is no
-- date also after that.
pub rotate_lem :
    (keys : List KeyEntry) (caller : KeyEntry) (id new_id secret : String) (grace_seconds now : ℕ)
    → find_key keys id ≡ some caller
    → find_key keys new_id ≡ none
    → (keys' : List KeyEntry) × (entry : KeyEntry) × (rotate keys id grace_seconds now new_id secret
        ≡ some (keys', entry))
      × (find_key keys' new_id ≡ some entry)
      × (entry.scopes ≡ caller.scopes)
      × ((t : ℕ) → is_active entry t ≡ true)
      × ((caller' : KeyEntry) × (find_key keys' id ≡ some caller')
          × ((t : ℕ)
              → is_active caller' t ≡ (
                  is_active caller t
                  && (ltb t (now + grace_seconds * 1000) || is_no_date caller.not_after))))
unfolding rotate
rotate_lem keys caller id new_id secret grace_seconds now found free =
    let end = now + grace_seconds * 1000 in
    let entry = new_entry caller new_id secret now in
    let keys' = update_key keys id (grace end) in
    let kept = find_key-update_key keys id id (grace end) (λ k. unfold grace in refl) in
    let still_free = find_key-update_key keys id new_id (grace end) (λ k. unfold grace in refl) in
    (
      keys' ++ entry ∷ [],
      entry,
      rw (found, rotate) refl,
      rw (find_key-append keys' entry new_id)
          (rw still_free (ground (arith, free, str_eq_refl new_id))),
      refl,
      λ t. unfold is_active in refl,
      (
        grace end caller,
        rw (find_key-append keys' entry id) (rw kept (rw (str_eq_refl id) (rw found refl))),
        λ t. grace-is_active end caller t,
      ),
    )
