-- ===== src/Server/Reads/Retrieve/Complete.antt =====
-- When retrieveRecords of server/db/records.js succeeds.
use mathlib.Core.Option
use mathlib.Core.Path.{subst}
use dgc_database_tp.Prelude.{
  ℕ, ◌≤◌, String, Bool, true, false, List, [], ◌∷◌, map, count, count-map, count-perm, all,
  all-perm, length, Perm, Option, some, ◌≡◌, ◌∙◌, refl, sym, ap, Every, Every-imp, ltb, ◌==◌,
  text_test, if◌then◌else◌, >>=-succeeds, map_option-Every, Each, map_option-Each,
}
use dgc_database_tp.Rethink.Sorting.{Sorting}
use dgc_database_tp.Documents.{Property, PropertyPage}
use dgc_database_tp.Documents.Structs.{Value}
use dgc_database_tp.LedgerSync.Ledger.{Stores, Ledger}
use dgc_database_tp.Server.Reads.{current_block}
use dgc_database_tp.Server.Reads.Current.{query_at}
use dgc_database_tp.Server.Reads.Properties.{find_property, reported_values}
use dgc_database_tp.Server.Reads.Retrieve.{
  Query, no_terms, terms, Params, Answer, unmatched, count_option, matches, get_field_value,
  find_record_id, find_property_values, retrieve_record, retrieve_matching, retrieve_one, selected,
  retrieve_records_query, retrieve_records,
}
use dgc_database_tp.Server.Reads.Retrieve.Objects.{values-names}
use dgc_database_tp.Server.Reads.Retrieve.Answers.{
  pages_stored, values_named, IsAnswer, retrieve_one-IsAnswer,
}
use dgc_database_tp.Server.Reads.Retrieve.Totals.{
  IsStored, is_some, count_option_total, add_ones_total, make_object-succeeds, IsDistinct-count,
  all-Every, matches-IsStored,
}

module _ (S : Stores) (O : Sorting) (l : Ledger S) (block : ℕ) where
  -- Each page of a record has a property, and each property has one page.
  pub record IsComplete (record_id : String) : Type 0 where
    pub known :
        all
          (λ page. is_some (find_property S O l block record_id page.name))
          (pages_stored S O l block record_id)
        ≡ true
    pub single :
        (name : String) → count (λ page. page.name == name) (pages_stored S O l block record_id) ≤ 1

  once_of :
      (record_id : String) (values : List (String × Option Value)) (pages : List PropertyPage)
      → map (λ p. p.0) values ≡ map (λ page. page.name) pages
      → Perm pages (pages_stored S O l block record_id)
      → ((name : String)
          → count (λ page. page.name == name) (pages_stored S O l block record_id) ≤ 1)
      → (k : String) → count (λ p. p.0 == k) values ≤ 1
  once_of record_id values pages names perm single k =
      let of_values = count-map (λ n. n == k) (λ p. p.0) values in
      let of_pages = count-map (λ n. n == k) (λ page. page.name) pages in
      let named = ap (λ ns. count (λ n. n == k) ns) names in
      let stored = count-perm (λ page. page.name == k) perm in
      let bound = single k in
      subst (λ n. n ≤ 1) (sym stored ∙ sym of_pages ∙ sym named ∙ of_values) bound

  retrieve_record-IsComplete :
      (record_id : String)
      → IsComplete record_id
      → (answer : Answer) × (retrieve_record S O l block record_id ≡ some answer)
  unfolding retrieve_record find_property_values
  retrieve_record-IsComplete record_id h =
      let pages = O.desc PropertyPage (λ page. 0) (pages_stored S O l block record_id) in
      let perm = O.desc-perm PropertyPage (λ page. 0) (pages_stored S O l block record_id) in
      let property : PropertyPage → Option Property =
        λ page. find_property S O l block record_id page.name in
      let found =
        all-Every property pages (all-perm (λ page. is_some (property page)) perm ∙ h.known) in
      let (values, done) =
        map_option-Every
          (λ page.
            Option.map
              (λ p. (page.name, get_field_value p.data_type (reported_values page.reported_values)))
              (property page))
          pages
          (Every-imp _ _ pages
            (λ page h. (
              _,
              ap
                  (Option.map (λ p. (
                    page.name,
                    get_field_value p.data_type (reported_values page.reported_values),
                  )))
                  h.1,
            ))
            found) in
      let names =
        values-names property
          (λ page p. get_field_value p.data_type (reported_values page.reported_values)) pages
          values done in
      let once : (k : String) → count (λ p. p.0 == k) values ≤ 1 =
        λ k. once_of record_id values pages names perm h.single k in
      let made = make_object-succeeds values (IsDistinct-count values once) in
      >>=-succeeds _ _ (values, (done, >>=-succeeds _ _ (values, (made, (_, refl)))))

  module _ {J : Type 0} (equal : Value → J → Bool) where
    -- Every value that a term is compared with is a stored one.
    abbrev pub IsComparable : Query J → String → Type 0
    IsComparable no_terms record_id = Unit
    IsComparable (terms []) record_id = ⊥
    IsComparable (terms (t ∷ ts)) record_id =
        Every (λ u. Every IsStored (values_named S O l block record_id u.0)) (t ∷ ts)

    counts_total :
        (record_id : String) (t : String × J)
        → Every IsStored (values_named S O l block record_id t.0)
        → (n : ℕ) × (count_option (matches equal t.1) (values_named S O l block record_id t.0)
            ≡ some n)
    counts_total record_id t h =
        count_option_total (matches equal t.1) (values_named S O l block record_id t.0)
          (Every-imp _ _ _ (matches-IsStored equal t.1) h)

    branch_total :
        (b : Bool) (answer : Answer) (m : Option Answer)
        → ((a : Answer) × (m ≡ some a))
        → (a : Answer) × ((if b then some answer else m) ≡ some a)
    branch_total true answer m h = (answer, refl)
    branch_total false answer m h = h

    retrieve_one-IsComplete :
        (query : Query J) (record_id : String)
        → IsComplete record_id
        → IsComparable query record_id
        → (answer : Answer) × (retrieve_one equal S O l block query record_id ≡ some answer)
    unfolding retrieve_matching find_record_id
    retrieve_one-IsComplete no_terms record_id h k = retrieve_record-IsComplete record_id h
    retrieve_one-IsComplete (terms []) record_id h k = elim k [ ]
    retrieve_one-IsComplete (terms (t ∷ ts)) record_id h k =
        let (n, first) = counts_total record_id t k.0 in
        let (ns, rest) =
          map_option-Every
            (λ t. count_option (matches equal t.1) (values_named S O l block record_id t.0)) ts
            (Every-imp _ _ ts (counts_total record_id) k.1) in
        let (sum, added) = add_ones_total n ns in
        let counted : find_record_id equal S O l block (t ∷ ts) record_id ≡ some (n ∷ ns) =
          rw (first, rest) refl in
        >>=-succeeds (find_record_id equal S O l block (t ∷ ts) record_id) _ (
          n ∷ ns,
          (
            counted,
            >>=-succeeds _ _ (
              sum,
              (
                added,
                branch_total (ltb sum (length (t ∷ ts))) unmatched _
                    (retrieve_record-IsComplete record_id h),
              ),
            ),
          ),
        )

module _ {J : Type 0} (equal : Value → J → Bool) (S : Stores) (O : Sorting) where
  -- When every page of each record of the table that is not final has a property and is the only
  -- page of its name, and the values that a query, of one term or more, compares were converted
  -- when they were stored, retrieveRecords succeeds at the current block with one answer for each
  -- of these records, in their order: an empty object exactly where some term of the query has no
  -- matching reported value in the record, and otherwise the record's id with one property for
  -- each of its pages.
  pub retrieve_records-IsComplete :
      (params : Params J) (l : Ledger S) (block : ℕ)
      → current_block S O l ≡ some block
      → Every
          (λ r.
            IsComplete S O l block r.record_id
            × IsComparable S O l block equal params.query r.record_id)
          (selected S O l block params.table)
      → (answers : List Answer) × (retrieve_records equal S O params l ≡ some answers)
        × Each (IsAnswer equal S O l block params.query) (selected S O l block params.table) answers
  unfolding retrieve_records retrieve_records_query
  retrieve_records-IsComplete params l block now h =
      let (answers, done) =
        map_option-Every (λ r. retrieve_one equal S O l block params.query r.record_id)
          (selected S O l block params.table)
          (Every-imp _ _ (selected S O l block params.table)
            (λ r k. retrieve_one-IsComplete S O l block equal params.query r.record_id k.0 k.1)
            h) in
      (
        answers,
        query_at S O (λ b. retrieve_records_query equal S O l b params) l now ∙ done,
        map_option-Each (IsAnswer equal S O l block params.query) _
            (selected S O l block params.table) answers
            (λ r answer. retrieve_one-IsAnswer equal S O l block params.query r answer) done,
      )
