-- ===== src/Server/Reads/Retrieve/Answers.antt =====
-- What retrieveRecordsQuery of server/db/records.js answers for every record of a table.
use mathlib.Core.Path.{subst}
use dgc_database_tp.Prelude.{
  ℕ, ◌<◌, String, Bool, true, false, List, map, filter, length, Perm, Option, some, ◌≡◌, refl, sym,
  Every, Any, inl, inr, map-perm, Any-imp, Every-imp, Each, map_option-Each, ltb, ◌==◌, text_test,
  if◌then◌else◌, >>=-eq-some, arith,
}
use dgc_database_tp.Rethink.Sorting.{Sorting}
use dgc_database_tp.Documents.{Record, PropertyPage}
use dgc_database_tp.Documents.Structs.{Value}
use dgc_database_tp.LedgerSync.Ledger.{Stores, Ledger}
use dgc_database_tp.Server.Reads.{get_table, current_block}
use dgc_database_tp.Server.Reads.Current.{query_asked}
use dgc_database_tp.Server.Reads.Properties.{
  Reported, concat_values, pages_of, reported_values, find_property,
}
use dgc_database_tp.Server.Reads.Retrieve.{
  Query, no_terms, terms, Params, Answer, unmatched, retrieved, count_option, add_ones, matches,
  get_field_value, find_record_id, find_property_values, retrieve_record, retrieve_matching,
  retrieve_one, selected, retrieve_records_query, retrieve_records,
}
use dgc_database_tp.Server.Reads.{make_object}
use dgc_database_tp.Server.Reads.Retrieve.Counting.{count_option-cases, add_ones-ones, ones-cases}
use dgc_database_tp.Server.Reads.Retrieve.Objects.{IsDistinct, make_object-IsDistinct, values-names}

same_answer : {A : Type 0} {x y : A} → some x ≡ some y → x ≡ y
same_answer h = cc

if_true : {A : Type 0} (b : Bool) (x m : A) {y : A} → (if b then x else m) ≡ y → b ≡ true → x ≡ y
if_true b x m h e = ground arith

if_false : {A : Type 0} (b : Bool) (x m : A) {y : A} → (if b then x else m) ≡ y → b ≡ false → m ≡ y
if_false b x m h e = ground arith

module _ (S : Stores) (O : Sorting) (l : Ledger S) (block : ℕ) where
  -- The reported values of a property that a term names.
  abbrev pub values_named : String → String → List Reported
  values_named record_id name = concat_values (pages_of S O l block record_id name)

  abbrev pub pages_stored : String → List PropertyPage
  pages_stored record_id =
      filter (λ page. page.record_id == record_id)
        (get_table S.property_pages block l.property_pages)

module _ {J : Type 0} (equal : Value → J → Bool) (S : Stores) (O : Sorting) (l : Ledger S)
    (block : ℕ) where
  -- Some reported value of the property equals the value that is asked for; none does.
  abbrev pub HasMatch : String → String × J → Type 0
  HasMatch record_id t =
      Any (λ v. matches equal t.1 v ≡ some true) (values_named S O l block record_id t.0)

  abbrev pub NoMatch : String → String × J → Type 0
  NoMatch record_id t =
      Every (λ v. matches equal t.1 v ≡ some false) (values_named S O l block record_id t.0)

  -- The properties of a record that is retrieved: one for every page that is stored.
  abbrev IsObject : String → List (String × Option Value) → Type 0
  IsObject record_id ps =
      Perm (map (λ p. p.0) ps) (map (λ page. page.name) (pages_stored S O l block record_id))
      × IsDistinct ps

  -- The answer for a record: `{}` exactly when a term has no match.
  abbrev pub IsAnswer : Query J → Record → Answer → Type 0
  IsAnswer no_terms r unmatched = ⊥
  IsAnswer no_terms r (retrieved id ps) = (id ≡ r.record_id) × IsObject r.record_id ps
  IsAnswer (terms ts) r unmatched = Any (NoMatch r.record_id) ts
  IsAnswer (terms ts) r (retrieved id ps) =
      (id ≡ r.record_id) × IsObject r.record_id ps × Every (HasMatch r.record_id) ts

  retrieve_record-IsObject :
      (record_id : String) (answer : Answer)
      → retrieve_record S O l block record_id ≡ some answer
      → (ps : List (String × Option Value)) × (answer ≡ retrieved record_id ps)
        × IsObject record_id ps
  unfolding retrieve_record find_property_values
  retrieve_record-IsObject record_id answer h =
      let (values, found, h1) = >>=-eq-some (find_property_values S O l block record_id) _ h in
      let (object, made, h2) = >>=-eq-some (make_object values) _ h1 in
      let (same, distinct) = make_object-IsDistinct values made in
      let names =
        values-names (λ page. find_property S O l block record_id page.name)
          (λ page p. get_field_value p.data_type (reported_values page.reported_values))
          (O.desc PropertyPage (λ page. 0) (pages_stored S O l block record_id)) values found in
      let ordered =
        map-perm (λ page. page.name)
          (O.desc-perm PropertyPage (λ page. 0) (pages_stored S O l block record_id)) in
      (
        values,
        (ground (arith, h2, same)),
        (
          subst (λ ns. Perm ns (map (λ page. page.name) (pages_stored S O l block record_id)))
              (sym names) ordered,
          distinct,
        ),
      )

  term_holds :
      (record_id : String) (t : String × J)
      → (n : ℕ) × (count_option (matches equal t.1) (values_named S O l block record_id t.0)
          ≡ some n)
        × (0 < n)
      → HasMatch record_id t
  term_holds record_id t (n, counted, positive) =
      elim (count_option-cases (matches equal t.1) (values_named S O l block record_id t.0) n
        counted) [ inl (nought, never) ↦ absurd (ground arith) | inr (some_match, any) ↦ any ]

  term_fails :
      (record_id : String) (t : String × J)
      → count_option (matches equal t.1) (values_named S O l block record_id t.0) ≡ some 0
      → NoMatch record_id t
  term_fails record_id t counted =
      elim (count_option-cases (matches equal t.1) (values_named S O l block record_id t.0) 0
        counted) [ inl (nought, never) ↦ never | inr (some_match, any) ↦ absurd (ground arith) ]

  retrieve_matching-IsAnswer :
      (ts : List (String × J)) (r : Record) (answer : Answer)
      → retrieve_matching equal S O l block ts r.record_id ≡ some answer
      → IsAnswer (terms ts) r answer
  unfolding retrieve_matching find_record_id
  retrieve_matching-IsAnswer ts r answer h =
      let (ns, found, h1) = >>=-eq-some (find_record_id equal S O l block ts r.record_id) _ h in
      let (sum, added, h2) = >>=-eq-some (add_ones ns) _ h1 in
      let same = add_ones-ones ns sum added in
      elim (ones-cases
        (λ t. count_option (matches equal t.1) (values_named S O l block r.record_id t.0)) ts ns
        found) [
          | inl (fewer, any) ↦
              subst (IsAnswer (terms ts) r)
                (same_answer (if_true (ltb sum (length ts)) _ _ h2 (ground arith)))
                (Any-imp _ _ ts (term_fails r.record_id) any)
          | inr (all, each) ↦
              let (ps, built, object) =
                retrieve_record-IsObject r.record_id answer
                  (if_false (ltb sum (length ts)) _ _ h2 (ground arith)) in
              subst (IsAnswer (terms ts) r) (sym built)
                (refl, object, Every-imp _ _ ts (term_holds r.record_id) each)
        ]

  pub retrieve_one-IsAnswer :
      (query : Query J) (r : Record) (answer : Answer)
      → retrieve_one equal S O l block query r.record_id ≡ some answer
      → IsAnswer query r answer
  retrieve_one-IsAnswer no_terms r answer h =
      let (ps, built, object) = retrieve_record-IsObject r.record_id answer h in
      subst (IsAnswer no_terms r) (sym built) (refl, object)
  retrieve_one-IsAnswer (terms ts) r answer h = retrieve_matching-IsAnswer ts r answer h

module _ {J : Type 0} (equal : Value → J → Bool) (S : Stores) (O : Sorting) where
  -- When retrieveRecords succeeds, it has one answer for each record of the table that is not
  -- final at the current block, in their order: an empty object exactly where some term of the
  -- query has no matching reported value in the record, and otherwise the record's id with one
  -- property for each of its pages, no two of the same name.
  pub retrieve_records-IsAnswer :
      (params : Params J) (l : Ledger S) (answers : List Answer)
      → retrieve_records equal S O params l ≡ some answers
      → (block : ℕ) × (current_block S O l ≡ some block)
        × Each (IsAnswer equal S O l block params.query) (selected S O l block params.table) answers
  unfolding retrieve_records retrieve_records_query
  retrieve_records-IsAnswer params l answers h =
      let (block, now, asked) =
        query_asked S O (λ block. retrieve_records_query equal S O l block params) l h in
      (
        block,
        now,
        map_option-Each (IsAnswer equal S O l block params.query) _
            (selected S O l block params.table) answers
            (λ r answer. retrieve_one-IsAnswer equal S O l block params.query r answer) asked,
      )
