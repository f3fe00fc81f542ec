-- ===== src/Bridge/Revisions/Tests.antt =====
-- Runs of the index of revisions, and its laws at concrete events.
use wordpress.Common.{List, [], none, refl, some, ◌++◌, ◌∷◌, ◌≡◌}
use wordpress.Bridge.Revisions.{Created, IndexEvent, created, current, rolled_back, status}
use wordpress.Bridge.Revisions.Laws.{current-rolled_back}

abbrev first_event : Created
first_event = record {
  revision_id = "r_1";
  change_id = "c_1";
  parent_revision = none;
  files = 1;
  created_at = 10;
}

abbrev second_event : Created
second_event = record {
  revision_id = "r_2";
  change_id = "c_2";
  parent_revision = some "r_1";
  files = 2;
  created_at = 20;
}

abbrev history : List IndexEvent
history = created first_event ∷ []

current-rolled_back_example :
    current (history ++ created second_event ∷ status "r_2" rolled_back (some "failed") ∷ [])
    ≡ current history
current-rolled_back_example = current-rolled_back history second_event (some "failed") (refl, tt)
