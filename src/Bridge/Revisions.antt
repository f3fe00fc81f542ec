-- ===== src/Bridge/Revisions.antt =====
-- The index of revisions: automation-bridge/src/core/revisions.ts. The index is an append-only list
-- of events; a timestamp is a number of milliseconds.
pub mod Laws
pub mod Tests
use wordpress.Common.{
  Bool, List, Map, Option, String, [], false, find?, if◌then◌else◌, insert, lookup, none, not, some,
  true, ℕ, ◌==◌, ◌∷◌,
}

pub data RevisionStatus : Type 0 where
  applied rolled_back reverted : RevisionStatus

pub data RevisionKind : Type 0 where
  changeset rollback restore : RevisionKind

pub record Created : Type 0 where
  pub revision_id : String
  pub change_id : String
  pub parent_revision : Option String
  pub files : ℕ
  pub created_at : ℕ

pub data IndexEvent : Type 0 where
  created : Created → IndexEvent
  status : (revision_id : String) → RevisionStatus → (error : Option String) → IndexEvent

abbrev pub event_id : IndexEvent → String
event_id (created e) = e.revision_id
event_id (status id s e) = id

pub record RevisionSummary : Type 0 where
  pub revision_id : String
  pub change_id : String
  pub status : RevisionStatus
  pub parent_revision : Option String
  pub files : ℕ
  pub created_at : ℕ
  pub error : Option String

unfoldable pub summary : Created → RevisionSummary
summary e = record {
  revision_id = e.revision_id;
  change_id = e.change_id;
  status = applied;
  parent_revision = e.parent_revision;
  files = e.files;
  created_at = e.created_at;
  error = none;
}

-- `if (e.error) r.error = e.error`
unfoldable pub new_error : Option String → Option String → Option String
new_error none old = old
new_error (some e) old = if e == "" then old else some e

unfoldable pub with_status : RevisionStatus → Option String → RevisionSummary → RevisionSummary
unfolding new_error
with_status s e r = record r { status = s; error = new_error e r.error }

-- The map and the order that `list` builds; the order has the newest first, as `reverse` leaves it.
pub record Index : Type 0 where
  pub map : Map RevisionSummary
  pub order : List String

unfoldable pub on_status :
    String
    → RevisionStatus
    → Option String
    → Map RevisionSummary
    → Option RevisionSummary
    → Map RevisionSummary
unfolding with_status
on_status id s e m none = m
on_status id s e m (some r) = insert id (with_status s e r) m

-- One round of the loop of `list`.
unfoldable pub add_event : Index → IndexEvent → Index
unfolding summary on_status
add_event x (created e) = record {
  map = insert e.revision_id (summary e) x.map;
  order = e.revision_id ∷ x.order;
}
add_event x (status id s e) = record x { map = on_status id s e x.map (lookup id x.map) }

unfoldable pub index_from : Index → List IndexEvent → Index
index_from x [] = x
index_from x (e ∷ es) = index_from (add_event x e) es

abbrev pub empty_index : Index
empty_index = record { map = []; order = [] }

-- `order.map((id) => map.get(id)!)`
unfoldable pub summaries : Map RevisionSummary → List String → List RevisionSummary
summaries m [] = []
summaries m (id ∷ ids) = elim (lookup id m) [
  | none ↦ summaries m ids
  | some r ↦ r ∷ summaries m ids
]

-- Newest first.
unfoldable pub list : List IndexEvent → List RevisionSummary
unfolding summaries
list es = let x = index_from empty_index es in summaries x.map x.order

abbrev pub is_rolled_back : RevisionStatus → Bool
is_rolled_back rolled_back = true
is_rolled_back _ = false

-- The first revision of a list that is not rolled back.
abbrev pub first_live : List RevisionSummary → Option String
first_live [] = none
first_live (r ∷ rs) = if not (is_rolled_back r.status) then some r.revision_id else first_live rs

unfoldable pub current : List IndexEvent → Option String
current es = first_live (list es)

-- The summary that `get` finds, or `none`.
unfoldable pub find_revision : List IndexEvent → String → Option RevisionSummary
find_revision es id = find? (λ r. r.revision_id == id) (list es)
