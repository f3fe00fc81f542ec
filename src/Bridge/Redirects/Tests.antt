-- ===== src/Bridge/Redirects/Tests.antt =====
-- Runs of the redirect operations.
use wordpress.Common.{
  Bool, List, String, [], arith, eq_iff, err, false, if◌then◌else◌, length, none, ok, refl, some,
  true, ◌<◌, ◌==◌, ◌∷◌, ◌≡◌, ◌≢◌, ◌≤◌, ◌⊎◌,
}
use wordpress.Bridge.Redirects.{
  Redirect, delete_redirect, has_source, put_entry, sort_in, sort_redirects, turns_back,
  upsert_redirect,
}
use wordpress.Bridge.Errors.{bridge, not_found, operation_not_allowed}
use wordpress.Bridge.Redirects.Laws.{
  WellFormed, delete_redirect-WellFormed, upsert_redirect-WellFormed,
}
use wordpress.Bridge.Redirects.Store.{IsUnique, sends}
use Prim.Native.String.{compare}
use Prim.Native.Nat.{Ordering}

abbrev redirect_of : String → String → Redirect
redirect_of s d = record { source = s; destination = d; permanent = true; change_id = "c" }

abbrev by_text : String → String → Bool
by_text a b = elim (compare a b) [ Ordering.lt ↦ true | _ ↦ false ]

abbrev one_redirect : List Redirect
one_redirect = redirect_of "/b" "/c" ∷ []

upserted :
    upsert_redirect by_text (redirect_of "/a" "/b") one_redirect
    ≡ ok (redirect_of "/a" "/b" ∷ one_redirect)
unfolding upsert_redirect put_entry turns_back sort_redirects sort_in
upserted = refl

turn_refused :
    upsert_redirect by_text (redirect_of "/c" "/b") one_redirect
    ≡ err (bridge operation_not_allowed)
unfolding upsert_redirect put_entry turns_back
turn_refused = refl

one_redirect-WellFormed : WellFormed one_redirect
unfolding IsUnique sends has_source
one_redirect-WellFormed = record {
  unique = (refl, tt);
  no_self = λ s d is same_text. ground (arith, eq_iff "/b" s, eq_iff "/b" "/c");
  no_turn = λ s d is back. ground (arith, eq_iff "/b" s, eq_iff "/b" d, eq_iff "/b" "/c");
}

upsert_redirect-WellFormed_example :
    ((rs' : List Redirect) × (upsert_redirect by_text (redirect_of "/a" "/b") one_redirect ≡ ok rs')
      × WellFormed rs'
      × (length rs' ≤ 5000)
      × ((key : String)
          → sends key rs' ≡ (if "/a" == key then some "/b" else sends key one_redirect)))
    ⊎ ((upsert_redirect by_text (redirect_of "/a" "/b") one_redirect
          ≡ err (bridge operation_not_allowed))
        × ((◌≡◌ {A = String} "/b" "/a")
            ⊎ ((sends "/b" one_redirect ≡ some "/a")
                ⊎ (5000 < length (put_entry (redirect_of "/a" "/b") one_redirect)))))
upsert_redirect-WellFormed_example =
    upsert_redirect-WellFormed by_text (redirect_of "/a" "/b") one_redirect one_redirect-WellFormed

delete_redirect-WellFormed_example :
    ((rs' : List Redirect) × (delete_redirect by_text "/b" one_redirect ≡ ok rs')
      × WellFormed rs'
      × (sends "/b" one_redirect ≢ none)
      × ((key : String) → sends key rs' ≡ (if "/b" == key then none else sends key one_redirect)))
    ⊎ ((delete_redirect by_text "/b" one_redirect ≡ err (bridge not_found))
        × (sends "/b" one_redirect ≡ none))
delete_redirect-WellFormed_example =
    delete_redirect-WellFormed by_text "/b" one_redirect one_redirect-WellFormed
