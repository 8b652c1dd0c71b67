-- ===== src/Server/Reads/Records/Fetched.antt =====
-- What fetchRecord answers for the records that listRecords lists.
use dgc_database_tp.Prelude.{
  ℕ, String, Bool, filter_none, count_never, Option, none, some, ◌≡◌, refl, ◌∙◌, ◌>>=◌,
}
use dgc_database_tp.Rethink.Sorting.{Sorting}
use dgc_database_tp.Documents.{Record}
use dgc_database_tp.LedgerSync.Ledger.{Stores, Ledger}
use dgc_database_tp.Server.Reads.{get_table, current_block}
use dgc_database_tp.Server.Reads.Current.{query_at}
use dgc_database_tp.Server.Reads.Records.{
  has_name, find_record, get_table_properties, load_record, fetch_record_query, fetch_record,
  list_records,
}

module _ (S : Stores) (O : Sorting) where
  get_table_properties-none :
      (l : Ledger S) (block : ℕ) (r : Record) → get_table_properties S O l block r ≡ none
  unfolding get_table_properties
  get_table_properties-none l block r =
      let tables = get_table S.tables block l.tables in
      rw (filter_none (has_name none) tables (count_never (has_name none) tables (λ t. refl))) refl

  find_then_none :
      (l : Ledger S) (block : ℕ) (found : Option Record)
      → (found >>= load_record S O l block) ≡ none
  unfolding load_record
  find_then_none l block none = refl
  find_then_none l block (some r) = rw (get_table_properties-none l block r) refl

  -- When there is a current block, listRecords answers all records of that block, whatever its
  -- filter is, and fetchRecord fails for every record id.
  pub fetch_record-fails :
      (l : Ledger S) (block : ℕ) (query : Record → Bool)
      → current_block S O l ≡ some block
      → (list_records S O query l ≡ some (get_table S.records block l.records))
        × ((record_id : String) → fetch_record S O record_id l ≡ none)
  unfolding list_records fetch_record fetch_record_query
  fetch_record-fails l block query now = (
    query_at S O (λ b. some (get_table S.records b l.records)) l now,
    λ record_id.
        query_at S O (λ b. fetch_record_query S O l b record_id) l now
        ∙ find_then_none l block (find_record S O l block record_id),
  )
