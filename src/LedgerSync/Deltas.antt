-- ===== src/LedgerSync/Deltas.antt =====
-- handle of ledger_sync/subscriber/deltas.js: the entries of a block's changes, and then the block.
-- What protobufjs decodes is an argument; `none` stands for an error that is thrown.
pub mod Schedules
use mathlib.Core.Option
use dgc_database_tp.Prelude.{
  ℕ, String, Bool, true, false, not, List, [], ◌∷◌, ◌++◌, map, filter, Option, none, some, leb,
  if◌then◌else◌,
}
use dgc_database_tp.Documents.{
  Participant, Record, TableSchema, Property, PropertyPage, Proposal, Exchange, Block,
}
use dgc_database_tp.LedgerSync.Ledger.{Stores, Ledger}
use dgc_database_tp.LedgerSync.State.{find_page_property, store_page}
use dgc_database_tp.LedgerSync.State.Synced.{
  Entry, a_participant, a_record, a_table, a_property, a_page, a_proposal, an_exchange, add_entry,
}
use dgc_database_tp.LedgerSync.Blocks
use dgc_database_tp.LedgerSync.Addresses.{
  ProtoName, property, property_page, participant, proposal, exchange_name, record_name, table,
  get_proto_name, page_num,
}

pub record Change : Type 0 where
  pub address : List ℕ
  pub value : String

-- `protos[...Container].decode(value).entries`, each through `toObject`
pub record Protos : Type 0 where
  pub participants : String → List Participant
  pub records : String → List Record
  pub tables : String → List TableSchema
  pub properties : String → List Property
  pub property_pages : String → List PropertyPage
  pub proposals : String → List Proposal
  pub exchanges : String → List Exchange

module _ (P : Protos) where
  -- `obj.pageNum = parseInt(address.slice(-4), 16)`
  abbrev pub number_page : List ℕ → PropertyPage → PropertyPage
  number_page address page = record page { page_num = page_num address }

  unfoldable pub get_entries : ProtoName → Change → List Entry
  get_entries property c = map a_property (P.properties c.value)
  get_entries property_page c =
      map (λ p. a_page (number_page c.address p)) (P.property_pages c.value)
  get_entries participant c = map a_participant (P.participants c.value)
  get_entries proposal c = map a_proposal (P.proposals c.value)
  get_entries exchange_name c = map an_exchange (P.exchanges c.value)
  get_entries record_name c = map a_record (P.records c.value)
  get_entries table c = map a_table (P.tables c.value)

  -- The entries of the pages, and those of all other changes: `_.partition` and `entryAdder`. An
  -- address of no known prefix stops the whole.
  abbrev pub put_entries :
      ProtoName → List Entry → List Entry × List Entry → List Entry × List Entry
  put_entries property_page es (pages, others) = (es ++ pages, others)
  put_entries _ es (pages, others) = (pages, es ++ others)

  unfoldable pub partition : List Change → Option (List Entry × List Entry)
  partition [] = some ([], [])
  partition (c ∷ cs) = elim (get_proto_name c.address) [
    | none ↦ none
    | some n ↦ Option.map (put_entries n (get_entries n c)) (partition cs)
  ]

module _ (S : Stores) where
  -- The entries in order, each query finished before the next is sent. Nothing waits for these
  -- queries, so that this is one of their orders; Schedules has all of them.
  unfoldable pub add_all : List Entry → ℕ → Ledger S → Ledger S
  add_all [] b l = l
  add_all (x ∷ xs) b l = add_all xs b (add_entry S x b l)

  -- The order that `handle` sets up: the other changes, the pages, the block. It is the execution
  -- in which each query ends before the next; in others a write ends after the block's own query.
  unfoldable pub handle : List Entry × List Entry → Block → Ledger S → Option (Ledger S)
  handle (pages, others) block l =
      Blocks.insert S block (add_all pages block.block_num (add_all others block.block_num l))
