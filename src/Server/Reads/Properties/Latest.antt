-- ===== src/Server/Reads/Properties/Latest.antt =====
-- The updates of a property that the server lists, and the one that it shows as the value:
-- fetchPropertyQuery of server/db/records.js.
use mathlib.Core.List.{head?}
use mathlib.Core.Path.{subst}
use dgc_database_tp.Prelude.{
  ℕ, String, true, List, [], ◌∷◌, all, Perm, Option, none, some, ◌≡◌, refl, sym, leb, ◌==◌,
  text_test, >>=-eq-some, map_option, head-filter, map-eq-some, arith,
}
use dgc_database_tp.Rethink.Sorting.{Sorting, IsDescending, all_of_head}
use dgc_database_tp.Documents.{Property}
use dgc_database_tp.LedgerSync.Ledger.{Stores, Ledger}
use dgc_database_tp.Server.Reads.{current_block}
use dgc_database_tp.Server.Reads.Current.{query_asked}
use dgc_database_tp.Server.Reads.Properties.{
  Update, PropertyView, concat_values, pages_of, get_update, find_property, find_reported_values,
  get_property_values, fetch_property_query, fetch_property,
}

-- No update is shown when there is none, and otherwise one that no other is later than.
abbrev IsLatest : Option Update → List Update → Type 0
IsLatest none us = us ≡ []
IsLatest (some u) us = all (λ v. leb v.timestamp u.timestamp) us ≡ true

head-IsLatest : (us : List Update) → IsDescending (λ u. u.timestamp) us → IsLatest (head? us) us
head-IsLatest [] d = refl
head-IsLatest (u ∷ us) d = all_of_head (λ u. u.timestamp) u us d

module _ (S : Stores) (O : Sorting) (l : Ledger S) where
  -- Every reported value of the pages of a property, as an update.
  abbrev all_updates : ℕ → String → String → Property → Option (List Update)
  all_updates block record_id name p =
      map_option (get_update S O l block p.data_type p.reporters)
        (concat_values (pages_of S O l block record_id name))

  pub record IsListed (block : ℕ) (record_id name : String) (view : PropertyView) : Type 0 where
    pub property : Property
    pub updates : List Update
    pub found : find_property S O l block record_id name ≡ some property
    pub resolved : all_updates block record_id name property ≡ some updates
    pub same : Perm view.updates updates
    pub latest_first : IsDescending (λ u. u.timestamp) view.updates
    pub latest : IsLatest view.value view.updates

  pub find_property-name :
      (block : ℕ) (record_id name : String) (p : Property)
      → find_property S O l block record_id name ≡ some p
      → p.name ≡ name
  unfolding find_property
  find_property-name block record_id name p h =
      (text_test.decides p.name name).0 (head-filter (λ q. q.name == name) _ h)

  sorted-IsListed :
      (block : ℕ) (record_id name : String) (view : PropertyView) (p : Property) (us : List Update)
      → find_property S O l block record_id name ≡ some p
      → all_updates block record_id name p ≡ some us
      → O.desc Update (λ u. u.timestamp) us ≡ view.updates
      → view.value ≡ head? view.updates
      → IsListed block record_id name view
  sorted-IsListed block record_id name view p us found resolved sorted shown =
      let descending : IsDescending (λ u. u.timestamp) view.updates =
        subst (IsDescending (λ u. u.timestamp)) sorted
          (O.desc-IsDescending Update (λ u. u.timestamp) us) in
      record {
        property = p;
        updates = us;
        found = found;
        resolved = resolved;
        same = subst (λ vs. Perm vs us) sorted (O.desc-perm Update (λ u. u.timestamp) us);
        latest_first = descending;
        latest =
            subst (λ v. IsLatest v view.updates) (sym shown)
              (head-IsLatest view.updates descending);
      }

  pub fetch_property_query-IsListed :
      (block : ℕ) (record_id name : String) (view : PropertyView)
      → fetch_property_query S O l block record_id name ≡ some view
      → IsListed block record_id name view
  unfolding fetch_property_query get_property_values find_reported_values
  fetch_property_query-IsListed block record_id name view h =
      let (p, found, h1) = >>=-eq-some (find_property S O l block record_id name) _ h in
      let (v, values, shown) = >>=-eq-some (get_property_values S O l block record_id p) _ h1 in
      let (us, listed, built) =
        >>=-eq-some (find_reported_values S O l block record_id p.name p.data_type p.reporters) _
          values in
      let (raw, resolved, sorted) =
        map-eq-some (O.desc Update (λ u. u.timestamp)) (all_updates block record_id p.name p)
          listed in
      sorted-IsListed block record_id name view p raw found
        (subst (λ n. all_updates block record_id n p ≡ some raw)
          (find_property-name block record_id name p found) resolved)
        (ground arith) (ground arith)

module _ (S : Stores) (O : Sorting) where
  -- When fetchProperty succeeds, it lists every reported value of all pages of the property at the
  -- current block, each with its type's field, its time and its reporter, the latest first; the
  -- value that it shows is none when there are no reported values, and otherwise one that no other
  -- is later than.
  fetch_property-IsListed :
      (record_id name : String) (l : Ledger S) (view : PropertyView)
      → fetch_property S O record_id name l ≡ some view
      → (block : ℕ) × (current_block S O l ≡ some block) × IsListed S O l block record_id name view
  unfolding fetch_property
  fetch_property-IsListed record_id name l view h =
      let (block, now, asked) =
        query_asked S O (λ block. fetch_property_query S O l block record_id name) l h in
      (block, now, fetch_property_query-IsListed S O l block record_id name view asked)
