-- ===== src/Bridge/Redirects/Store.antt =====
-- The store of redirects as a map from sources to destinations.
use wordpress.Common.{
  Bool, List, Option, String, [], arith, eq_iff, false, if◌then◌else◌, is_some, length, none, refl,
  some, suc, true, ◌==◌, ◌||◌, ◌∷◌, ◌≡◌, ◌≢◌,
}
use wordpress.Bridge.Redirects.{
  Redirect, drop_source, has_source, put_entry, sort_in, sort_redirects, turns_back,
}

-- Where the store sends a source.
unfoldable pub sends : String → List Redirect → Option String
sends key [] = none
sends key (r ∷ rs) = if r.source == key then some r.destination else sends key rs

-- Sources occur once.
unfoldable pub IsUnique : List Redirect → Type 0
unfolding has_source
IsUnique [] = Unit
IsUnique (r ∷ rs) = (has_source r.source rs ≡ false) × IsUnique rs

pub has_source-sends :
    (key : String) (rs : List Redirect) → has_source key rs ≡ is_some (sends key rs)
unfolding has_source sends
has_source-sends key [] = refl
has_source-sends key (r ∷ rs) = ground (arith, has_source-sends key rs)

pub sends-put_entry :
    (e : Redirect) (key : String) (rs : List Redirect)
    → sends key (put_entry e rs) ≡ (if e.source == key then some e.destination else sends key rs)
unfolding sends put_entry
sends-put_entry e key [] = refl
sends-put_entry e key (r ∷ rs) = ground (
  arith,
  eq_iff r.source e.source,
  eq_iff e.source key,
  eq_iff r.source key,
  sends-put_entry e key rs,
)

has_source-put_entry :
    (e : Redirect) (key : String) (rs : List Redirect)
    → has_source key (put_entry e rs) ≡ (e.source == key || has_source key rs)
unfolding has_source put_entry
has_source-put_entry e key [] = refl
has_source-put_entry e key (r ∷ rs) = ground (
  arith,
  eq_iff r.source e.source,
  eq_iff e.source key,
  eq_iff r.source key,
  has_source-put_entry e key rs,
)

pub IsUnique-put_entry :
    (e : Redirect) (rs : List Redirect) → IsUnique rs → IsUnique (put_entry e rs)
unfolding IsUnique put_entry
IsUnique-put_entry e [] h = (unfold has_source in refl, tt)
IsUnique-put_entry e (r ∷ rs) (n, h) = ground (
  arith,
  eq_iff r.source e.source,
  eq_iff e.source r.source,
  has_source-put_entry e r.source rs,
  IsUnique-put_entry e rs h,
)

pub turns_back-sends :
    (e : Redirect) (rs : List Redirect)
    → turns_back e rs ≡ false
    → IsUnique rs
    → sends e.destination rs ≢ some e.source
unfolding turns_back sends IsUnique
turns_back-sends e [] f u = λ is. cc
turns_back-sends e (r ∷ rs) f (n, u) = λ is.
    ground
      (arith, eq_iff r.source e.destination, eq_iff r.destination e.source, turns_back-sends e rs)

module _ (before : String → String → Bool) where
  has_source-sort_in :
      (e : Redirect) (key : String) (rs : List Redirect)
      → has_source key (sort_in before e rs) ≡ (e.source == key || has_source key rs)
  unfolding has_source sort_in
  has_source-sort_in e key [] = refl
  has_source-sort_in e key (r ∷ rs) = ground (arith, has_source-sort_in e key rs)

  sends-sort_in :
      (e : Redirect) (key : String) (rs : List Redirect)
      → has_source e.source rs ≡ false
      → sends key (sort_in before e rs)
        ≡ (if e.source == key then some e.destination else sends key rs)
  unfolding sends sort_in has_source
  sends-sort_in e key [] h = refl
  sends-sort_in e key (r ∷ rs) h = ground (
    arith,
    eq_iff r.source key,
    eq_iff e.source key,
    eq_iff r.source e.source,
    sends-sort_in e key rs,
  )

  IsUnique-sort_in :
      (e : Redirect) (rs : List Redirect)
      → has_source e.source rs ≡ false
      → IsUnique rs
      → IsUnique (sort_in before e rs)
  unfolding IsUnique sort_in has_source
  IsUnique-sort_in e [] h u = (refl, tt)
  IsUnique-sort_in e (r ∷ rs) h (n, u) = ground (
    arith,
    eq_iff r.source e.source,
    eq_iff e.source r.source,
    has_source-sort_in e r.source rs,
    IsUnique-sort_in e rs,
  )

  length-sort_in :
      (e : Redirect) (rs : List Redirect) → length (sort_in before e rs) ≡ suc (length rs)
  unfolding sort_in
  length-sort_in e [] = refl
  length-sort_in e (r ∷ rs) = ground (arith, length-sort_in e rs)

  has_source-sort_redirects :
      (key : String) (rs : List Redirect)
      → has_source key (sort_redirects before rs) ≡ has_source key rs
  unfolding has_source sort_redirects
  has_source-sort_redirects key [] = refl
  has_source-sort_redirects key (r ∷ rs) =
      ground (
        arith,
        has_source-sort_in r key (sort_redirects before rs),
        has_source-sort_redirects key rs,
      )

  pub IsUnique-sort_redirects :
      (rs : List Redirect) → IsUnique rs → IsUnique (sort_redirects before rs)
  unfolding IsUnique sort_redirects
  IsUnique-sort_redirects [] u = tt
  IsUnique-sort_redirects (r ∷ rs) (n, u) =
      IsUnique-sort_in r (sort_redirects before rs) (rw (has_source-sort_redirects r.source rs) n)
        (IsUnique-sort_redirects rs u)

  pub sends-sort_redirects :
      (key : String) (rs : List Redirect)
      → IsUnique rs
      → sends key (sort_redirects before rs) ≡ sends key rs
  unfolding IsUnique sends sort_redirects
  sends-sort_redirects key [] u = refl
  sends-sort_redirects key (r ∷ rs) (n, u) = ground (
    arith,
    sends-sort_in r key (sort_redirects before rs),
    has_source-sort_redirects r.source rs,
    sends-sort_redirects key rs u,
  )

  pub length-sort_redirects : (rs : List Redirect) → length (sort_redirects before rs) ≡ length rs
  unfolding sort_redirects
  length-sort_redirects [] = refl
  length-sort_redirects (r ∷ rs) =
      ground (arith, length-sort_in r (sort_redirects before rs), length-sort_redirects rs)

pub sends-drop_source :
    (source key : String) (rs : List Redirect)
    → IsUnique rs
    → sends key (drop_source source rs) ≡ (if source == key then none else sends key rs)
unfolding IsUnique sends drop_source
sends-drop_source source key [] u = ground arith
sends-drop_source source key (r ∷ rs) (n, u) = ground (
  arith,
  eq_iff r.source source,
  eq_iff source key,
  eq_iff r.source key,
  has_source-sends r.source rs,
  sends-drop_source source key rs u,
)

has_source-drop_source :
    (source key : String) (rs : List Redirect)
    → has_source key rs ≡ false
    → has_source key (drop_source source rs) ≡ false
unfolding has_source drop_source
has_source-drop_source source key [] h = refl
has_source-drop_source source key (r ∷ rs) h = ground (arith, has_source-drop_source source key rs)

pub IsUnique-drop_source :
    (source : String) (rs : List Redirect) → IsUnique rs → IsUnique (drop_source source rs)
unfolding IsUnique drop_source
IsUnique-drop_source source [] u = tt
IsUnique-drop_source source (r ∷ rs) (n, u) =
    ground (arith, has_source-drop_source source r.source rs n, IsUnique-drop_source source rs u)

pub sends-turns_back :
    (e : Redirect) (rs : List Redirect)
    → turns_back e rs ≡ true
    → IsUnique rs
    → sends e.destination rs ≡ some e.source
unfolding turns_back sends IsUnique
sends-turns_back e [] t u = cc
sends-turns_back e (r ∷ rs) t (n, u) = ground (
  arith,
  eq_iff r.source e.destination,
  eq_iff r.destination e.source,
  has_source-sends e.destination rs,
  λ (later : turns_back e rs ≡ true). sends-turns_back e rs later u,
)
