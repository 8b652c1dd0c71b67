-- ===== src/LedgerSync/State.antt =====
-- ledger_sync/db/state.js: one function for each kind of document on the chain.
pub mod Synced
use mathlib.Core.Option
use dgc_database_tp.Prelude.{
  Bool, true, false, ◌&&◌, all, if◌then◌else◌, ℕ, ◌≤◌, ◌<◌, String, List, map, filter, Option, none,
  some, get_elem?, [], ◌∷◌, ◌==◌, ℕ_test, text_test, pair_test, max_safe_integer,
}
use dgc_database_tp.Documents.{
  Participant, Record, TableSchema, Property, PropertyPage, Proposal, Exchange, ReportedValue,
  StoredValue, PageValues, decoded, stored,
}
use dgc_database_tp.Documents.Structs.{
  DataType, enum, struct, Fields, empty, field, Value, of_struct, undefined, xform_struct,
}
use dgc_database_tp.LedgerSync.Versions.{Version, is_open, has_index, add_block_state}
use dgc_database_tp.LedgerSync.Versions.Adding.{IsLedger, add_block_state-IsLedger}
use dgc_database_tp.LedgerSync.Ledger.{
  Stores, Ledger, participant_index, record_index, table_index, property_index, page_index,
  proposal_index, exchange_index, IsSynced,
}

-- An enumeration's index becomes the option's name, or `undefined` past the options; other values
-- get the empty string.
unfoldable pub enum_name : DataType → List String → ℕ → Option String
enum_name enum options i = get_elem? options i
enum_name _ options i = some ""

-- A struct's values become an object; other values get the empty object.
unfoldable pub struct_object : DataType → ReportedValue → Fields
struct_object struct v = xform_struct v.struct_values
struct_object _ v = empty

unfoldable pub store_value : Property → ReportedValue → StoredValue
unfolding enum_name struct_object
store_value p v = record {
  reporter_index = v.reporter_index;
  timestamp = v.timestamp;
  scalars = v.scalars;
  enum_value = enum_name p.data_type p.enum_options v.enum_value;
  struct_value = struct_object p.data_type v;
}

abbrev pub convert_values : Property → PageValues → PageValues
convert_values p (decoded vs) = stored (map (store_value p) vs)
convert_values p (stored vs) = stored vs

-- RethinkDB's driver refuses an object with an undefined field.
unfoldable mutual
  pub is_defined : Value → Bool
  is_defined undefined = false
  is_defined (of_struct fs) = all_defined fs
  is_defined v = true

  pub all_defined : Fields → Bool
  all_defined empty = true
  all_defined (field k v fs) = is_defined v && all_defined fs

abbrev is_named : Option String → Bool
is_named none = false
is_named (some name) = true

unfoldable pub is_storable : PageValues → Bool
unfolding all_defined
is_storable (decoded vs) = true
is_storable (stored vs) = all (λ v. is_named v.enum_value && all_defined v.struct_value) vs

-- the first `then` of `addPropertyPage`: without a property the page goes on as it is
unfoldable pub convert_page : Option Property → PropertyPage → PropertyPage
convert_page none page = page
convert_page (some p) page = record page { reported_values = convert_values p page.reported_values }

abbrev pub first_doc {ℓ} : {D : Type ℓ} → List D → Option D
first_doc [] = none
first_doc (v ∷ vs) = some v

module _ (S : Stores) where
  unfoldable pub add_participant : Participant → ℕ → Ledger S → Ledger S
  add_participant d b l = record l {
    participants =
        add_block_state S.participants participant_index (participant_index d) d b l.participants;
  }

  unfoldable pub add_record : Record → ℕ → Ledger S → Ledger S
  add_record d b l = record l {
    records = add_block_state S.records record_index (record_index d) d b l.records;
  }

  unfoldable pub add_table : TableSchema → ℕ → Ledger S → Ledger S
  add_table d b l = record l {
    tables = add_block_state S.tables table_index (table_index d) d b l.tables;
  }

  unfoldable pub add_property : Property → ℕ → Ledger S → Ledger S
  add_property d b l = record l {
    properties = add_block_state S.properties property_index (property_index d) d b l.properties;
  }

  unfoldable pub add_proposal : Proposal → ℕ → Ledger S → Ledger S
  add_proposal d b l = record l {
    proposals = add_block_state S.proposals proposal_index (proposal_index d) d b l.proposals;
  }

  unfoldable pub add_exchange : Exchange → ℕ → Ledger S → Ledger S
  add_exchange d b l = record l {
    exchanges = add_block_state S.exchanges exchange_index (exchange_index d) d b l.exchanges;
  }

  -- the query of `addPropertyPage`, and `properties[0]` of its result
  unfoldable pub find_page_property : PropertyPage → Ledger S → Option Property
  find_page_property page l =
      Option.map (λ v. v.doc)
        (first_doc (
          filter is_open (
            filter (has_index property_index (page.name, page.record_id))
              (S.properties.docs l.properties))))

  -- A page that the driver refuses is not stored, and nothing is told of it.
  unfoldable pub store_page : Option Property → PropertyPage → ℕ → Ledger S → Ledger S
  store_page p page b l = record l {
    property_pages =
        if is_storable (convert_page p page).reported_values
        then add_block_state S.property_pages page_index (page_index page) (convert_page p page) b
            l.property_pages
        else l.property_pages;
  }

  unfoldable pub add_property_page : PropertyPage → ℕ → Ledger S → Ledger S
  add_property_page page b l = store_page (find_page_property page l) page b l
