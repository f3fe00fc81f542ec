-- ===== src/Bridge/Rollback/Restored.antt =====
-- A rollback gives back what the files of a revision were.
use wordpress.Common.{All, List, String, some, true, ◌≡◌, ◌⊎◌}
use wordpress.Bridge.Execute.Atomic.{Safe}
use wordpress.Bridge.Execute.Restore.{abs_of}
use wordpress.Bridge.Files.{Disk, read_file}
use wordpress.Bridge.World.{SnapshotItem, World}
use wordpress.Bridge.Writes.{Site, hash_ok}

module _ (site : Site) where
  -- The file of an entry has, by its hash, the content that it had on the old disk.
  abbrev pub Back : Disk → Disk → SnapshotItem → Type 0
  Back was d i =
      (p : String)
      → abs_of site i.root i.path ≡ some p
      → hash_ok site (read_file was p) (read_file d p) ≡ true

  -- How a rollback can throw: the files are as before, or the new revision's marked snapshot restores
  -- them, or they are all back and only the status of the old revision is missing.
  abbrev pub Halted : World → List SnapshotItem → Disk → String → World → Type 0
  Halted w items was new_id v = Safe site w.disk new_id v ⊎ All (Back was v.disk) items
