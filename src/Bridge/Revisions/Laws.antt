-- ===== src/Bridge/Revisions/Laws.antt =====
-- What a later event changes in the index of revisions.
use wordpress.Common.{
  All, List, Map, Option, Option-cases, String, [], arith, eq_iff, false, inl, inr, insert, lookup,
  lookup-insert, none, refl, some, str_eq_refl, ◌++◌, ◌==◌, ◌∷◌, ◌≡◌,
}
use wordpress.Bridge.Revisions.{
  Created, Index, IndexEvent, RevisionSummary, add_event, created, current, empty_index, event_id,
  first_live, index_from, list, rolled_back, status, summaries, summary, with_status,
}

index_from-append :
    (x : Index) (es : List IndexEvent) (e : IndexEvent)
    → index_from x (es ++ e ∷ []) ≡ add_event (index_from x es) e
unfolding index_from
index_from-append x [] e = refl
index_from-append x (d ∷ es) e = index_from-append (add_event x d) es e

first_live-created :
    (x : Index) (e : Created)
    → first_live (summaries (add_event x (created e)).map (add_event x (created e)).order)
      ≡ some e.revision_id
unfolding add_event summaries
first_live-created x e =
    ground (
      arith,
      lookup-insert e.revision_id e.revision_id (summary e) x.map,
      str_eq_refl e.revision_id,
    )

-- Once a `created` event is appended, its revision is the current one, whatever the index held.
pub current-created :
    (es : List IndexEvent) (e : Created) → current (es ++ created e ∷ []) ≡ some e.revision_id
unfolding current list
current-created es e = rw index_from-append (first_live-created (index_from empty_index es) e)

-- No event of the index names this id.
abbrev pub IsFresh : String → List IndexEvent → Type 0
IsFresh id = All (λ e. (event_id e == id) ≡ false)

-- Nothing in an index names the id.
record Lacks (id : String) (x : Index) : Type 0 where
  in_map : lookup id x.map ≡ none
  in_order : All (λ j. (j == id) ≡ false) x.order

Lacks-add_event :
    (id : String) (x : Index) (e : IndexEvent)
    → Lacks id x
    → (event_id e == id) ≡ false
    → Lacks id (add_event x e)
unfolding add_event
Lacks-add_event id x (created e) h n = record {
  in_map = rw lookup-insert (rw n h.in_map);
  in_order = (n, h.in_order);
}
Lacks-add_event id x (status j s e) h n = elim (Option-cases (lookup j x.map)) [
  | inl absent ↦ rw absent h
  | inr (r, found) ↦
      rw found (record { in_map = rw lookup-insert (rw n h.in_map); in_order = h.in_order })
]

Lacks-index_from :
    (id : String) (x : Index) (es : List IndexEvent)
    → Lacks id x
    → IsFresh id es
    → Lacks id (index_from x es)
unfolding index_from
Lacks-index_from id x [] h f = h
Lacks-index_from id x (e ∷ es) h (n, f) =
    Lacks-index_from id (add_event x e) es (Lacks-add_event id x e h n) f

-- Writing another key changes no summary.
summaries-insert :
    (id : String) (r : RevisionSummary) (m : Map RevisionSummary) (ids : List String)
    → All (λ j. (j == id) ≡ false) ids
    → summaries (insert id r m) ids ≡ summaries m ids
unfolding summaries
summaries-insert id r m [] h = refl
summaries-insert id r m (j ∷ ids) (n, h) =
    ground (arith, lookup-insert id j r m, eq_iff id j, eq_iff j id, summaries-insert id r m ids h)

index_from-append_two :
    (x : Index) (es : List IndexEvent) (d e : IndexEvent)
    → index_from x (es ++ d ∷ e ∷ []) ≡ add_event (add_event (index_from x es) d) e
unfolding index_from
index_from-append_two x [] d e = refl
index_from-append_two x (c ∷ es) d e = index_from-append_two (add_event x c) es d e

add_event-rolled_back :
    (x : Index) (e : Created) (why : Option String)
    → Lacks e.revision_id x
    → first_live (
        summaries
          (add_event (add_event x (created e)) (status e.revision_id rolled_back why)).map
          (add_event (add_event x (created e)) (status e.revision_id rolled_back why)).order)
      ≡ first_live (summaries x.map x.order)
unfolding add_event
add_event-rolled_back x e why h =
    let id = e.revision_id in
    let m = insert id (summary e) x.map in
    let r = with_status rolled_back why (summary e) in
    let found : lookup id m ≡ some (summary e) = rw lookup-insert (rw str_eq_refl) in
    rw found (
      unfold summaries in
      ground (
        arith,
        lookup-insert id id r m,
        str_eq_refl id,
        summaries-insert id r m x.order h.in_order,
        summaries-insert id (summary e) x.map x.order h.in_order,
      ))

-- Creating a revision with a fresh id and marking it rolled back leaves the current revision what
-- it was.
pub current-rolled_back :
    (es : List IndexEvent) (e : Created) (why : Option String)
    → IsFresh e.revision_id es
    → current (es ++ created e ∷ status e.revision_id rolled_back why ∷ []) ≡ current es
unfolding current list
current-rolled_back es e why f = rw index_from-append_two (
    add_event-rolled_back (index_from empty_index es) e why (
      Lacks-index_from e.revision_id empty_index es
        (record { in_map = unfold lookup in refl; in_order = tt }) f))
