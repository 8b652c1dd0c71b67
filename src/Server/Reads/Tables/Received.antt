-- ===== src/Server/Reads/Tables/Received.antt =====
-- From an event of the validator to the tables that the server shows.
use dgc_database_tp.Prelude.{ℕ, true, List, ◌++◌, some, ◌≡◌, text_test}
use dgc_database_tp.Rethink.Sorting.{Sorting}
use dgc_database_tp.Documents.{TableSchema, Block}
use dgc_database_tp.LedgerSync.Versions.Writing.{first_at}
use dgc_database_tp.LedgerSync.Ledger.{Stores, Ledger, IsSynced, table_index}
use dgc_database_tp.LedgerSync.State.Synced.{Entry}
use dgc_database_tp.LedgerSync.Deltas.{Protos, partition}
use dgc_database_tp.LedgerSync.Events.{
  Message, Decoders, get_block, get_changes, handle_event, receive,
}
use dgc_database_tp.Server.Auth.{json}
use dgc_database_tp.Server.Reads.Handled.{IsNext, tables_of}
use dgc_database_tp.Server.Reads.Tables.{PublishedTable, publish_table, fetch}
use dgc_database_tp.Server.Reads.Tables.Served.{handle-fetch}

module _ (X : Decoders) (P : Protos) (S : Stores) (O : Sorting) where
  -- When the queries of a block are executed in the order of the code, each to its end before the
  -- next and the block's own last (other orders are possible, since no write is awaited): a
  -- message of the validator with the commit of the next block, below 2^53 - 1, and with changes
  -- of the own family that all have a known prefix, brings a well formed database to a state in
  -- which the server answers a request for a table that the block changed by that table as it is
  -- published: the first change of the name in the block, whose properties have different names.
  pub receive-fetch :
      (msg : Message) (pages others : List Entry) (block : Block) (n : ℕ) (l : Ledger S)
      (d : TableSchema) (t : PublishedTable)
      → msg.client_events ≡ true
      → get_block X (X.events msg.content) ≡ some block
      → partition P (get_changes X (X.events msg.content)) ≡ some (pages, others)
      → IsSynced S n l
      → IsNext S block n l
      → first_at S.tables table_index d.name (tables_of (others ++ pages)) ≡ some d
      → publish_table d ≡ some t
      → (l' : Ledger S) × (receive X P S msg l ≡ some l') × (fetch S O d.name l' ≡ json t)
  unfolding receive handle_event
  receive-fetch msg pages others block n l d t client committed own synced next named published =
      let (l', done, shown) =
        handle-fetch S O pages others block n l d t synced next named published in
      (l', rw (client, committed, own) done, shown)
