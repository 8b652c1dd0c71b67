-- ===== src/Server/Reads/Tables/Served.antt =====
-- From a block of the ledger sync to the tables that the server shows.
use mathlib.Core.List.{head?}
use mathlib.Core.Path.{fun_ext}
use mathlib.Core.Bool.{and_comm}
use dgc_database_tp.Prelude.{
  ℕ, String, List, [], ◌∷◌, ◌++◌, ◌≡◌, ◌∙◌, refl, ap, filter, filter-filter, perm_singleton, some,
  text_test, String-set,
}
use dgc_database_tp.Rethink.Sorting.{Sorting}
use dgc_database_tp.Documents.{TableSchema, Block}
use dgc_database_tp.LedgerSync.Versions.{Version, version_of, has_block, has_index}
use dgc_database_tp.LedgerSync.Versions.Reading.{read_at}
use dgc_database_tp.LedgerSync.Versions.Writing.{first_at}
use dgc_database_tp.LedgerSync.Ledger.{Stores, Ledger, IsSynced, table_index}
use dgc_database_tp.LedgerSync.State.Synced.{Entry}
use dgc_database_tp.LedgerSync.Deltas.{handle}
use dgc_database_tp.Server.Auth.{json}
use dgc_database_tp.Server.Reads.Current.{query_at}
use dgc_database_tp.Server.Reads.Handled.{IsNext, tables_of, table_part, handle-read_at}
use dgc_database_tp.Server.Reads.Tables.{
  PublishedTable, publish_table, from_block, published_first, fetch_query, reply_table, fetch,
}

TableSchema-set : IsSet (Version TableSchema)
TableSchema-set = hlevel String-set

module _ (S : Stores) (O : Sorting) where
  fetch_query-read_at :
      (name : String) (l : Ledger S) (block : ℕ)
      → fetch_query S O name l block
        ≡ published_first (head? (read_at S.tables table_index name block l.tables))
  unfolding fetch_query read_at from_block
  fetch_query-read_at name l block =
      ap (λ vs. published_first (head? vs))
        (filter-filter (from_block block) (has_index table_index name) (S.tables.docs l.tables)
          ∙ ap (λ p. filter p (S.tables.docs l.tables))
              (fun_ext (λ v. and_comm (has_index table_index name v) (has_block block v))))

  -- A table of a block that was handled is shown as it is published.
  pub handle-fetch :
      (pages others : List Entry) (block : Block) (n : ℕ) (l : Ledger S) (d : TableSchema)
      (t : PublishedTable)
      → IsSynced S n l
      → IsNext S block n l
      → first_at S.tables table_index d.name (tables_of (others ++ pages)) ≡ some d
      → publish_table d ≡ some t
      → (l' : Ledger S) × (handle S (pages, others) block l ≡ some l')
        × (fetch S O d.name l' ≡ json t)
  unfolding fetch
  handle-fetch pages others block n l d t synced next named published =
      let (l', done, now, seen) =
        handle-read_at S O (table_part S) d.name pages others block n l synced.tables next in
      let only : read_at S.tables table_index d.name block.block_num l'.tables
          ≡ version_of d block.block_num ∷ [] =
        perm_singleton TableSchema-set (version_of d block.block_num) (rw named at seen) in
      let asked =
        query_at S O (fetch_query S O d.name l') l' now
        ∙ fetch_query-read_at d.name l' block.block_num in
      (l', done, ap (reply_table S O) asked ∙ rw (only, published) refl)
