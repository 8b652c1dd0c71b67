-- ===== src/Server/Reads/Retrieve.antt =====
-- retrieveRecordsQuery of server/db/records.js. `none` is a query that fails.
pub mod Counting
pub mod Objects
pub mod Answers
pub mod Totals
pub mod Complete
use mathlib.Core.Option
use mathlib.Core.List.{head?}
use dgc_database_tp.Prelude.{
  ℕ, ◌+◌, String, Bool, true, false, not, ◌&&◌, List, [], ◌∷◌, ◌++◌, map, filter, length, Option,
  none, some, ltb, eqb, ℕ_test, ◌==◌, text_test, if◌then◌else◌, ◌>>=◌, map_option,
}
use dgc_database_tp.Rethink.Sorting.{Sorting}
use dgc_database_tp.Documents.{Record, PropertyPage}
use dgc_database_tp.Documents.Structs.{
  DataType, type_unset, bytes, boolean, number, string, enum, struct, location, Value,
}
use dgc_database_tp.LedgerSync.Ledger.{Stores, Ledger}
use dgc_database_tp.Server.Reads.{get_table, make_object, query_with_current_block}
use dgc_database_tp.Server.Reads.Properties.{
  Reported, concat_values, reported_values, value_of, find_property, pages_of,
}

-- `no_terms` is a query whose `length` is 0, such as `[]`; any other is an object, listed by its keys,
-- with the JSON values `J`.
pub data Query (J : Type 0) : Type 0 where
  no_terms : Query J
  terms : List (String × J) → Query J

pub record Params (J : Type 0) : Type 0 where
  pub table : String
  pub query : Query J

-- `unmatched` is `{}`; a value that is `none` is null.
pub data Answer : Type 0 where
  unmatched : Answer
  retrieved : String → List (String × Option Value) → Answer

-- `value(field)` of an array: the fields of the elements that have it.
abbrev pub collect : DataType → List Reported → List Value
collect data_type [] = []
collect data_type (v ∷ vs) = elim (value_of data_type v) [
  | none ↦ collect data_type vs
  | some x ↦ x ∷ collect data_type vs
]

abbrev pub last? : {A : Type 0} → List A → Option A
last? [] = none
last? (x ∷ []) = some x
last? (_ ∷ y ∷ ys) = last? (y ∷ ys)

unfoldable pub get_field_value : DataType → List Reported → Option Value
get_field_value type_unset vs = none
get_field_value boolean vs = last? (collect boolean vs)
get_field_value number vs = last? (collect number vs)
get_field_value string vs = last? (collect string vs)
get_field_value bytes vs = last? (collect bytes vs)
get_field_value location vs = last? (collect location vs)
get_field_value enum vs = last? (collect enum vs)
get_field_value struct vs = last? (collect struct vs)

-- `.or`, which reads its second argument when the first is false
abbrev pub or_else : Option Bool → Option Bool → Option Bool
or_else none other = none
or_else (some true) other = some true
or_else (some false) other = other

-- `concatMap` of a test: how many of the values pass it
abbrev pub count_option : {A : Type 0} → (A → Option Bool) → List A → Option ℕ
count_option f [] = some 0
count_option f (x ∷ xs) = do found ← f x; n ← count_option f xs; some ((if found then 1 else 0) + n)

-- `r.add` of no argument is an error.
abbrev pub add_ones : List ℕ → Option ℕ
add_ones [] = none
add_ones (n ∷ []) = some (if eqb n 0 then 0 else 1)
add_ones (n ∷ m ∷ ns) = Option.map (λ k. (if eqb n 0 then 0 else 1) + k) (add_ones (m ∷ ns))

module _ (S : Stores) (O : Sorting) (l : Ledger S) (block : ℕ) where
  -- A page has no `timestamp`, so `orderBy` sorts by a field that no page has.
  unfoldable pub find_property_values : String → Option (List (String × Option Value))
  find_property_values record_id =
      map_option
        (λ page.
          Option.map
            (λ p. (page.name, get_field_value p.data_type (reported_values page.reported_values)))
            (find_property S O l block record_id page.name))
        (O.desc PropertyPage (λ page. 0)
          (filter (λ page. page.record_id == record_id)
            (get_table S.property_pages block l.property_pages)))

  unfoldable pub retrieve_record : String → Option Answer
  retrieve_record record_id = do
    values ← find_property_values record_id
    object ← make_object values
    some (retrieved record_id object)

  abbrev pub selected : String → List Record
  selected table =
      filter (λ r. not r.final)
        (filter (λ r. r.table == table) (get_table S.records block l.records))

-- `equal` is `r.eq` of a value of a document and a value of a query.
module _ {J : Type 0} (equal : Value → J → Bool) where
  abbrev equal_field : J → DataType → Reported → Option Bool
  equal_field j data_type v = Option.map (λ x. equal x j) (value_of data_type v)

  -- The test of `findRecordId`
  unfoldable pub matches : J → Reported → Option Bool
  matches j v = or_else (equal_field j boolean v) (
      or_else (equal_field j number v) (
        or_else (equal_field j string v) (
          or_else (equal_field j bytes v) (
            or_else (equal_field j location v)
              (or_else (equal_field j enum v) (equal_field j struct v))))))

  module _ (S : Stores) (O : Sorting) (l : Ledger S) (block : ℕ) where
    -- For each term, the number of the reported values that match it.
    unfoldable pub find_record_id : List (String × J) → String → Option (List ℕ)
    find_record_id ts record_id =
        map_option
          (λ t. count_option (matches t.1) (concat_values (pages_of S O l block record_id t.0))) ts

    unfoldable pub retrieve_matching : List (String × J) → String → Option Answer
    retrieve_matching ts record_id = do
      found ← find_record_id ts record_id
      sum ← add_ones found
      if ltb sum (length ts) then some unmatched else retrieve_record S O l block record_id

    abbrev pub retrieve_one : Query J → String → Option Answer
    retrieve_one no_terms record_id = retrieve_record S O l block record_id
    retrieve_one (terms ts) record_id = retrieve_matching ts record_id

    -- `retrieveRecordsQuery`
    unfoldable pub retrieve_records_query : Params J → Option (List Answer)
    retrieve_records_query params =
        map_option (λ r. retrieve_one params.query r.record_id) (selected S O l block params.table)

  module _ (S : Stores) (O : Sorting) where
    unfoldable pub retrieve_records : Params J → Ledger S → Option (List Answer)
    retrieve_records params l =
        query_with_current_block S O (λ block. retrieve_records_query S O l block params) l
