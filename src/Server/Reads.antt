-- ===== src/Server/Reads.antt =====
-- How the server reads the tables that the ledger sync writes: queryWithCurrentBlock of
-- server/db/index.js, and getTable with its block filter, which every file of server/db/ has. A query
-- that fails, such as `nth` of a sequence that is too short, is `none`.
pub mod Current
pub mod Following
pub mod Handled
pub mod Participants
pub mod Properties
pub mod Proposals
pub mod Retrieve
pub mod Records
pub mod Executing
pub mod Inserted
pub mod Scheduled
pub mod Tables
mod Tests
mod BlockTests
use mathlib.Core.Option
use mathlib.Core.List.{head?}
use dgc_database_tp.Prelude.{
  ℕ, String, text_test, ◌==◌, ◌||◌, if◌then◌else◌, [], ◌∷◌, false, Bool, true, List, map, filter,
  Option, none, some,
}
use dgc_database_tp.Rethink.{Table}
use dgc_database_tp.Rethink.Sorting.{Sorting}
use dgc_database_tp.Documents.{Block}
use dgc_database_tp.LedgerSync.Versions.{Version, has_block}
use dgc_database_tp.LedgerSync.Ledger.{Stores, Ledger, block_key}

-- `getTable(tableName, block)`, without the block numbers
unfoldable pub get_table : {D : Type 0} (T : Table (Version D)) → ℕ → T.State → List D
get_table T block t = map (λ v. v.doc) (filter (has_block block) (T.docs t))

-- `r.object`, of pairs listed by their keys: a key that is given twice is an error.
module _ {V : Type 0} where
  abbrev pub names_key : String → List (String × V) → Bool
  names_key k [] = false
  names_key k ((j, v) ∷ ps) = j == k || names_key k ps

  abbrev pub add_key : String → V → List (String × V) → Option (List (String × V))
  add_key k v ps = if names_key k ps then none else some ((k, v) ∷ ps)

  unfoldable pub make_object : List (String × V) → Option (List (String × V))
  make_object [] = some []
  make_object ((k, v) ∷ ps) = elim (make_object ps) [
    | none ↦ none
    | some object ↦ add_key k v object
  ]

module _ (S : Stores) (O : Sorting) where
  -- `r.table('blocks').orderBy(r.desc('blockNum')).nth(0)('blockNum')`
  unfoldable pub current_block : Ledger S → Option ℕ
  current_block l =
      Option.map block_key (head? (O.desc Block block_key (S.blocks.query (λ b. true) l.blocks)))

  unfoldable pub query_with_current_block {ℓ} : {A : Type ℓ} → (ℕ → Option A) → Ledger S → Option A
  query_with_current_block query l = elim (current_block l) [
    | none ↦ none
    | some block ↦ query block
  ]
