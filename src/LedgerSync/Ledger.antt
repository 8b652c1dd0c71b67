-- ===== src/LedgerSync/Ledger.antt =====
-- The tables of the database that the ledger sync writes, as server/system/bootstrap_db.js makes
-- them: seven tables of versioned documents, and the blocks under their numbers.
use dgc_database_tp.Prelude.{ℕ, String, ℕ_test, text_test, pair_test}
use dgc_database_tp.Rethink.{Table, KeyedTable}
use dgc_database_tp.Documents.{
  Participant, Record, TableSchema, Property, PropertyPage, Proposal, Exchange, Block,
}
use dgc_database_tp.LedgerSync.Versions.{Version}
use dgc_database_tp.LedgerSync.Versions.Adding.{IsLedger}

abbrev pub block_key : Block → ℕ
block_key b = b.block_num

pub record Stores : Type 1 where
  pub participants : Table (Version Participant)
  pub records : Table (Version Record)
  pub tables : Table (Version TableSchema)
  pub properties : Table (Version Property)
  pub property_pages : Table (Version PropertyPage)
  pub proposals : Table (Version Proposal)
  pub exchanges : Table (Version Exchange)
  pub blocks : KeyedTable ℕ Block block_key

pub record Ledger (S : Stores) : Type 0 where
  pub participants : S.participants.State
  pub records : S.records.State
  pub tables : S.tables.State
  pub properties : S.properties.State
  pub property_pages : S.property_pages.State
  pub proposals : S.proposals.State
  pub exchanges : S.exchanges.State
  pub blocks : S.blocks.State

-- The indexes: `indexCreate` with one field, or the array of the fields of `attributes`.
abbrev pub participant_index : Participant → String
participant_index d = d.public_key

abbrev pub record_index : Record → String
record_index d = d.record_id

abbrev pub table_index : TableSchema → String
table_index d = d.name

abbrev pub property_index : Property → String × String
property_index d = (d.name, d.record_id)

abbrev pub page_index : PropertyPage → String × (String × ℕ)
page_index d = (d.name, (d.record_id, d.page_num))

abbrev pub proposal_index : Proposal → String
proposal_index d = d.proposal_id

abbrev pub exchange_index : Exchange → String × String
exchange_index d = (d.buy_proposal_id, d.sell_proposal_id)

-- Every table of the ledger is well formed at block `n`.
pub record IsSynced (S : Stores) (n : ℕ) (l : Ledger S) : Type 0 where
  pub participants : IsLedger S.participants participant_index n l.participants
  pub records : IsLedger S.records record_index n l.records
  pub tables : IsLedger S.tables table_index n l.tables
  pub properties : IsLedger S.properties property_index n l.properties
  pub property_pages : IsLedger S.property_pages page_index n l.property_pages
  pub proposals : IsLedger S.proposals proposal_index n l.proposals
  pub exchanges : IsLedger S.exchanges exchange_index n l.exchanges
