-- ===== src/LedgerSync/Samples.antt =====
-- A small ledger for the tests.
use dgc_database_tp.Prelude.{ℕ, List, [], ◌∷◌, refl, text_test, ℕ_test, pair_test, arith}
use dgc_database_tp.Rethink.{Table}
use dgc_database_tp.Rethink.Lists.{list_table, list_keyed_table}
use dgc_database_tp.Documents.{TableSchema, Block}
use dgc_database_tp.LedgerSync.Versions.{Version, version_of}
use dgc_database_tp.LedgerSync.Versions.Adding.{IsLedger}
use dgc_database_tp.LedgerSync.Ledger.{Stores, Ledger, IsSynced, table_index, block_key}

abbrev pub car : TableSchema
car = record { name = "car"; properties = [] }

abbrev pub schemas : Table (Version TableSchema)
schemas = list_table (Version TableSchema)

abbrev pub first : Version TableSchema
first = record { doc = car; start_block_num = 1; end_block_num = 2 }

-- a table that was written at blocks 1 and 2
abbrev pub two_versions : List (Version TableSchema)
two_versions = version_of car 2 ∷ first ∷ []

pub two_versions-IsLedger : IsLedger schemas table_index 2 two_versions
two_versions-IsLedger = record { bounded = refl; one_open = λ k. ground arith }

abbrev pub lists : Stores
lists = record {
  participants = list_table _;
  records = list_table _;
  tables = schemas;
  properties = list_table _;
  property_pages = list_table _;
  proposals = list_table _;
  exchanges = list_table _;
  blocks = list_keyed_table block_key;
}

abbrev pub block_of : ℕ → Block
block_of n = record { block_num = n; block_id = "b"; state_root_hash = "" }

abbrev pub sample : Ledger lists
sample = record {
  participants = [];
  records = [];
  tables = two_versions;
  properties = [];
  property_pages = [];
  proposals = [];
  exchanges = [];
  blocks = block_of 2 ∷ block_of 1 ∷ [];
}

pub sample-IsSynced : IsSynced lists 2 sample
sample-IsSynced = record {
  participants = record { bounded = refl; one_open = λ k. omega arith };
  records = record { bounded = refl; one_open = λ k. omega arith };
  tables = two_versions-IsLedger;
  properties = record { bounded = refl; one_open = λ k. omega arith };
  property_pages = record { bounded = refl; one_open = λ k. omega arith };
  proposals = record { bounded = refl; one_open = λ k. omega arith };
  exchanges = record { bounded = refl; one_open = λ k. omega arith };
}
