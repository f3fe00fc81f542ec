-- ===== src/Bridge/Execute/Tests.antt =====
-- Runs of the engine on a small site, and the theorems at such inputs.
use wordpress.Common.{
  Bool, List, Option, Post, Result, [], arith, err, false, if◌then◌else◌, insert, lookup, none, ok,
  refl, some, true, ℕ, ◌==◌, ◌∷◌, ◌≡◌,
}
use wordpress.Bridge.Execute.{execute_changes, recover_interrupted, restore_item}
use wordpress.Bridge.Errors.{Thrown, bridge, verify_failed}
use wordpress.Bridge.Execute.Atomic.{Applied, Safe, execute_changes-atomic}
use wordpress.Bridge.Execute.Recovery.{Recovered, recover_interrupted-Recovered}
use wordpress.Bridge.Execute.Targets.{Readable}
use wordpress.Bridge.Execute.Undo.{Recoverable}
use wordpress.Bridge.Files.{Disk, Fault, FileChange, Root, code, put_file, read_file, root_by_id}
use wordpress.Bridge.Revisions.{add_event, changeset, created, current, index_from, list}
use wordpress.Bridge.World.{World}
use wordpress.Bridge.Writes.{ExecuteInput, Site, resolve_target, snapshot_item, write_target}

abbrev code_root : Root
code_root = record { id = "code"; kind = code; writable = true }

-- Roots are disjoint folders, there are no links, and the hash is the content itself.
abbrev pub demo : Site
demo = record {
  roots = code_root ∷ [];
  resolve_in_root = λ r p. ok p;
  look_fails = λ k p. false;
  is_symlink = λ p. false;
  sha256 = λ b. b;
  has_internal_url = true;
  revalidator_enabled = true;
}

abbrev pub old_disk : Disk
old_disk p = if p == "a" then some (record { content = "one"; mode = 420 }) else none

abbrev quiet_world : List Fault → List (Option ℕ) → World
quiet_world faults answers = record {
  disk = old_disk;
  snapshots = [];
  records = [];
  events = [];
  in_progress = λ id. false;
  locals = record { step = ""; revalidated = []; routes = [] };
  faults = faults;
  answers = answers;
}

abbrev pub change_a : FileChange
change_a = record { root = "code"; path = "a"; before = some "one"; after = some "two" }

abbrev pub create_b : FileChange
create_b = record { root = "code"; path = "b"; before = none; after = some "new" }

abbrev edit : ExecuteInput
edit = record {
  kind = changeset;
  change_id = "cs_1";
  changes = change_a ∷ create_b ∷ [];
  impacted_routes = "/" ∷ [];
  reason = none;
  reverts = none;
  revision_id = "r_1";
  now = 7;
}

abbrev is_ok : {A : Type 0} → Result Thrown A × World → Bool
is_ok (ok a, w) = true
is_ok (err e, w) = false

-- The apply passes, and the new contents are there.
execute_passes :
    let o = execute_changes demo edit (quiet_world [] (some 200 ∷ some 200 ∷ [])) in
    (is_ok o ≡ true) × (read_file o.1.disk "a" ≡ some "two") × (read_file o.1.disk "b" ≡ some "new")
unfolding execute_changes lookup insert resolve_target write_target restore_item snapshot_item
execute_passes = (refl, refl, refl)

-- The route breaks after the apply: the old contents are back, and the created file is gone.
execute_restores :
    let o = execute_changes demo edit (quiet_world [] (some 200 ∷ some 500 ∷ [])) in
    (o.0 ≡ err (bridge verify_failed))
    × (read_file o.1.disk "a" ≡ some "one")
    × (read_file o.1.disk "b" ≡ none)
    × (o.1.in_progress "r_1" ≡ false)
unfolding execute_changes lookup insert resolve_target write_target restore_item snapshot_item
execute_restores = (refl, refl, refl, refl)

execute_changes-atomic_example :
    let w = quiet_world [] (some 200 ∷ some 500 ∷ []) in
    Post
      (λ _ v. Applied demo old_disk edit v)
      (λ _ v. Safe demo old_disk "r_1" v)
      (execute_changes demo edit w)
unfolding Readable
execute_changes-atomic_example =
    execute_changes-atomic demo (λ k p. refl) edit (quiet_world [] (some 200 ∷ some 500 ∷ []))

-- A crash after the first of the two writes.
abbrev crashed : World
crashed = record (quiet_world [] []) {
  disk = put_file old_disk "a" (some (record { content = "two"; mode = 420 }));
  snapshots =
      (
        "r_1",
        record { root = "code"; path = "a"; absent = false; mode = some 420; content = some "one" }
            ∷ record { root = "code"; path = "b"; absent = true; mode = none; content = none }
            ∷ [],
      )
      ∷ [];
  events =
      created (record {
        revision_id = "r_1";
        change_id = "cs_1";
        parent_revision = none;
        files = 2;
        created_at = 7;
      })
      ∷ [];
  in_progress = λ id. "r_1" == id;
}

crashed-Recoverable : Recoverable demo old_disk "r_1" crashed
unfolding lookup root_by_id
crashed-Recoverable = record {
  items =
      record { root = "code"; path = "a"; absent = false; mode = some 420; content = some "one" }
      ∷ record { root = "code"; path = "b"; absent = true; mode = none; content = none }
      ∷ [];
  marked = refl;
  snapshot = refl;
  saved = (
    record {
      root = code_root;
      abs = "a";
      known = refl;
      resolved = refl;
      file = (refl, refl, refl);
    },
    (record { root = code_root; abs = "b"; known = refl; resolved = refl; file = refl }, tt),
  );
  near = λ p n. ground arith;
}

recover_interrupted-Recovered_example :
    Post (λ _. Recovered demo old_disk "r_1") (λ _ _. ⊥) (recover_interrupted demo crashed)
unfolding current list index_from add_event lookup insert
recover_interrupted-Recovered_example =
    recover_interrupted-Recovered demo old_disk "r_1" crashed refl crashed-Recoverable
      (record { unmarked = λ j n. n; no_faults = refl })
