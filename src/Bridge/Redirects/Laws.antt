-- ===== src/Bridge/Redirects/Laws.antt =====
-- What the redirect operations keep true of the store.
use wordpress.Common.{
  Bool, Bool-cases, List, Option, String, arith, eq_iff, err, false, if◌then◌else◌, inl, inr,
  length, ltb, none, ok, refl, some, sym, true, ◌<◌, ◌==◌, ◌||◌, ◌∙◌, ◌≡◌, ◌≢◌, ◌≤◌, ◌⊎◌,
}
use wordpress.Bridge.Redirects.{
  Redirect, delete_redirect, drop_source, has_source, put_entry, sort_redirects, turns_back,
  upsert_redirect,
}
use wordpress.Bridge.Errors.{bridge, not_found, operation_not_allowed}
use wordpress.Bridge.Redirects.Store.{
  IsUnique, IsUnique-drop_source, IsUnique-put_entry, IsUnique-sort_redirects, has_source-sends,
  length-sort_redirects, sends, sends-drop_source, sends-put_entry, sends-sort_redirects,
  sends-turns_back, turns_back-sends,
}

-- Sources occur once, no redirect leads to itself, and no two lead to each other.
pub record WellFormed (rs : List Redirect) : Type 0 where
  pub unique : IsUnique rs
  pub no_self : (s d : String) → sends s rs ≡ some d → d ≢ s
  pub no_turn : (s d : String) → sends s rs ≡ some d → sends d rs ≢ some s

-- The same of a store, given where it sends each source.
WellFormed-by :
    (rs rs' : List Redirect)
    → IsUnique rs'
    → ((key : String) → sends key rs' ≡ sends key rs)
    → WellFormed rs
    → WellFormed rs'
WellFormed-by rs rs' u same_map w = record {
  unique = u;
  no_self = λ s d is. w.no_self s d (rw same_map at is);
  no_turn = λ s d is back. w.no_turn s d (rw same_map at is) (rw same_map at back);
}

-- A map without self loops and two-element loops has none after one more entry that makes none.
map_no_self :
    (f : String → Option String) (src dst s d : String)
    → (dst == src) ≡ false
    → (f s ≡ some d → d ≢ s)
    → (if src == s then some dst else f s) ≡ some d
    → d ≢ s
map_no_self f src dst s d apart w is same_text =
    ground (arith, eq_iff src s, eq_iff dst src, eq_iff d s, w)

map_no_turn :
    (f : String → Option String) (src dst s d : String)
    → (dst == src) ≡ false
    → f dst ≢ some src
    → (f s ≡ some d → f d ≢ some s)
    → (if src == s then some dst else f s) ≡ some d
    → (if src == d then some dst else f d) ≢ some s
map_no_turn f src dst s d apart turn w is back =
    ground (arith, eq_iff src s, eq_iff src d, eq_iff dst src, w, turn)

-- What is sent after a source is dropped was sent before.
kept_by :
    (key d source : String) (rs : List Redirect)
    → (if source == key then none else sends key rs) ≡ some d
    → sends key rs ≡ some d
kept_by key d source rs is = ground arith

WellFormed-put_entry :
    (e : Redirect) (rs : List Redirect)
    → (e.destination == e.source || turns_back e rs) ≡ false
    → WellFormed rs
    → WellFormed (put_entry e rs)
WellFormed-put_entry e rs guard w =
    let turn = turns_back-sends e rs (ground (arith, guard)) w.unique in
    let apart : (e.destination == e.source) ≡ false = ground (arith, guard) in
    record {
      unique = IsUnique-put_entry e rs w.unique;
      no_self = λ s d is.
          map_no_self (λ key. sends key rs) e.source e.destination s d apart (w.no_self s d)
            (rw sends-put_entry at is);
      no_turn = λ s d is back.
          map_no_turn (λ key. sends key rs) e.source e.destination s d apart turn (w.no_turn s d)
            (rw sends-put_entry at is) (rw sends-put_entry at back);
    }

-- Why the guards of an upsert refuse.
refusal :
    (e : Redirect) (rs : List Redirect)
    → IsUnique rs
    → (e.destination == e.source || turns_back e rs) ≡ true
    → (e.destination ≡ e.source)
      ⊎ ((sends e.destination rs ≡ some e.source) ⊎ (5000 < length (put_entry e rs)))
refusal e rs u refused = elim (Bool-cases (e.destination == e.source)) [
  | inl loop ↦ inl ((eq_iff e.destination e.source).0 loop)
  | inr apart ↦ inr (inl (sends-turns_back e rs (rw apart at refused) u))
]

-- `redirect.upsert` on a well-formed store: if it returns, the store is well-formed, holds at most 5000
-- redirects, sends the source to the new destination and every other source where it did; it returns
-- unless the destination is the source, a redirect turns back, or there would be too many.
pub upsert_redirect-WellFormed :
    (before : String → String → Bool) (e : Redirect) (rs : List Redirect)
    → WellFormed rs
    → ((rs' : List Redirect) × (upsert_redirect before e rs ≡ ok rs')
        × WellFormed rs'
        × (length rs' ≤ 5000)
        × ((key : String)
            → sends key rs' ≡ (if e.source == key then some e.destination else sends key rs)))
      ⊎ ((upsert_redirect before e rs ≡ err (bridge operation_not_allowed))
          × ((e.destination ≡ e.source)
              ⊎ ((sends e.destination rs ≡ some e.source) ⊎ (5000 < length (put_entry e rs)))))
unfolding upsert_redirect
upsert_redirect-WellFormed before e rs w =
    elim (Bool-cases (e.destination == e.source || turns_back e rs)) [
      | inl refused ↦ inr (rw (refused, upsert_redirect) refl, refusal e rs w.unique refused)
      | inr allowed ↦ elim (Bool-cases (ltb 5000 (length (put_entry e rs)))) [
        | inl many ↦
            inr (rw (allowed, upsert_redirect) (rw many refl), inr (inr (ground (arith, many))))
        | inr few ↦ inl (
          sort_redirects before (put_entry e rs),
          rw (allowed, upsert_redirect) (rw few refl),
          WellFormed-by (put_entry e rs) _
              (IsUnique-sort_redirects before (put_entry e rs) (IsUnique-put_entry e rs w.unique))
              (λ key.
                sends-sort_redirects before key (put_entry e rs) (IsUnique-put_entry e rs w.unique))
              (WellFormed-put_entry e rs allowed w),
          rw length-sort_redirects (ground (arith, few)),
          λ key.
              sends-sort_redirects before key (put_entry e rs) (IsUnique-put_entry e rs w.unique)
              ∙ sends-put_entry e key rs,
        )
      ]
    ]

-- `redirect.delete` on a well-formed store: it returns exactly where the source is redirected, and then
-- the store is well-formed, does not redirect the source, and sends every other source where it did.
pub delete_redirect-WellFormed :
    (before : String → String → Bool) (source : String) (rs : List Redirect)
    → WellFormed rs
    → ((rs' : List Redirect) × (delete_redirect before source rs ≡ ok rs')
        × WellFormed rs'
        × (sends source rs ≢ none)
        × ((key : String) → sends key rs' ≡ (if source == key then none else sends key rs)))
      ⊎ ((delete_redirect before source rs ≡ err (bridge not_found)) × (sends source rs ≡ none))
unfolding delete_redirect
delete_redirect-WellFormed before source rs w = elim (Bool-cases (has_source source rs)) [
  | inr absent ↦
      inr (rw (absent, delete_redirect) refl, ground (arith, has_source-sends source rs, absent))
  | inl found ↦
      let u = IsUnique-drop_source source rs w.unique in
      let sent = λ (key : String).
        sends-sort_redirects before key (drop_source source rs) u
        ∙ sends-drop_source source key rs w.unique in
      inl (
        sort_redirects before (drop_source source rs),
        rw (found, delete_redirect) refl,
        record {
          unique = IsUnique-sort_redirects before (drop_source source rs) u;
          no_self = λ s d is. w.no_self s d (kept_by s d source rs (sym (sent s) ∙ is));
          no_turn = λ s d is back.
              w.no_turn s d (kept_by s d source rs (sym (sent s) ∙ is))
                (kept_by d s source rs (sym (sent d) ∙ back));
        },
        λ none_sent. ground (arith, has_source-sends source rs, found, none_sent),
        sent,
      )
]
