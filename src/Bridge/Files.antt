-- ===== src/Bridge/Files.antt =====
-- The files that the bridge writes: automation-bridge/src/core/fsutil.ts (`atomicWrite`,
-- `durableDelete`), the roots of config.ts, and `FileChange` of diff.ts. A buffer is a text whose
-- characters are its bytes. A disk maps an absolute path to the regular file there, if any.
-- Every fallible call takes one entry of a schedule of faults, which the environment chooses.
use wordpress.Common.{
  Bool, List, Option, String, [], false, find?, if◌then◌else◌, none, or_else, some, true, ℕ, ◌==◌,
  ◌∷◌,
}

abbrev pub Buffer : Type 0
Buffer = String

pub data RootKind : Type 0 where
  content assets code overrides : RootKind

pub record Root : Type 0 where
  pub id : String
  pub kind : RootKind
  pub writable : Bool

-- `if (!id) return undefined`: no root has the empty id.
unfoldable pub root_by_id : List Root → String → Option Root
root_by_id roots id = if id == "" then none else find? (λ r. r.id == id) roots

pub record FileChange : Type 0 where
  pub root : String
  pub path : String
  pub before : Option Buffer
  pub after : Option Buffer

-- `a === null && b === null || a !== null && b !== null && a.equals(b)`
unfoldable pub same_content : Option Buffer → Option Buffer → Bool
same_content none none = true
same_content none (some b) = false
same_content (some a) none = false
same_content (some a) (some b) = a == b

pub record File : Type 0 where
  pub content : Buffer
  pub mode : ℕ

abbrev pub Disk : Type 0
Disk = String → Option File

abbrev pub put_file : Disk → String → Option File → Disk
put_file d p f q = if p == q then f else d q

-- What `fsp.readFile` gives where it does not fail on a file that is there.
abbrev pub read_file : Disk → String → Option Buffer
read_file d p = elim (d p) [ none ↦ none | some f ↦ some f.content ]

-- What `currentMode` of engine.ts gives where `stat` does not fail on a file that is there.
unfoldable pub current_mode : Disk → String → Option ℕ
current_mode d p = elim (d p) [ none ↦ none | some f ↦ some f.mode ]

-- A call passes, throws before its effect, or throws after it (the directory's fsync fails).
pub data Fault : Type 0 where
  passes before_effect after_effect : Fault

abbrev pub next_fault : List Fault → Fault
next_fault [] = passes
next_fault (f ∷ fs) = f

abbrev pub later_faults : List Fault → List Fault
later_faults [] = []
later_faults (f ∷ fs) = fs

-- The mode of the new file: the one asked for, the old file's, or 0o644.
unfoldable pub new_mode : Disk → String → Option ℕ → ℕ
unfolding current_mode
new_mode d p mode = or_else mode (or_else (current_mode d p) 0o644)
