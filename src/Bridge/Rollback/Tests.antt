-- ===== src/Bridge/Rollback/Tests.antt =====
-- A revision that changed one file and created another is rolled back.
use wordpress.Common.{[], false, insert, lookup, none, ok, refl, some, true, ◌∷◌, ◌≡◌}
use wordpress.Bridge.Rollback.{
  add_found, add_round, apply_found, get_revision, locate, planned_change, rollback_input,
  rollback_revision, scan,
}
use wordpress.Bridge.Execute.{execute_changes, restore_item}
use wordpress.Bridge.Execute.Tests.{change_a, create_b, demo, old_disk}
use wordpress.Bridge.Files.{Disk, put_file, read_file}
use wordpress.Bridge.Revisions.{
  add_event, changeset, created, current, find_revision, index_from, list,
}
use wordpress.Bridge.World.{SnapshotItem, World}
use wordpress.Bridge.Writes.{resolve_target, snapshot_item, write_target}

-- The disk after the revision `edit`, and the world with its record and snapshot.
abbrev new_disk : Disk
new_disk =
    put_file (put_file old_disk "a" (some (record { content = "two"; mode = 420 }))) "b"
      (some (record { content = "new"; mode = 420 }))

abbrev snapshot_a : SnapshotItem
snapshot_a = record {
  root = "code";
  path = "a";
  absent = false;
  mode = some 420;
  content = some "one";
}

abbrev snapshot_b : SnapshotItem
snapshot_b = record { root = "code"; path = "b"; absent = true; mode = none; content = none }

abbrev edited : World
edited = record {
  disk = new_disk;
  snapshots = ("r_1", snapshot_a ∷ snapshot_b ∷ []) ∷ [];
  records =
      (
        "r_1",
        record {
          revision_id = "r_1";
          change_id = "cs_1";
          kind = changeset;
          reverts = none;
          parent_revision = none;
          file_changes = change_a ∷ create_b ∷ [];
          impacted_routes = [];
          created_at = 7;
          reason = none;
        },
      )
      ∷ [];
  events =
      created (record {
        revision_id = "r_1";
        change_id = "cs_1";
        parent_revision = none;
        files = 2;
        created_at = 7;
      })
      ∷ [];
  in_progress = λ id. false;
  locals = record { step = ""; revalidated = []; routes = [] };
  faults = [];
  answers = [];
}

rollback_passes :
    let o = rollback_revision demo "r_1" "" false "r_2" 9 edited in
    (o.0 ≡ ok false) × (read_file o.1.disk "a" ≡ some "one") × (read_file o.1.disk "b" ≡ none)
unfolding rollback_revision apply_found get_revision find_revision scan locate add_round add_found
    planned_change rollback_input execute_changes lookup insert resolve_target write_target
    restore_item snapshot_item list current index_from add_event
rollback_passes = (refl, refl, refl)
