-- ===== src/LedgerSync/Blocks.antt =====
-- ledger_sync/db/blocks.js: the chain of blocks, and the removal of a fork. `none` is a promise that
-- is rejected.
pub mod Chain
use mathlib.Core.Option
use dgc_database_tp.Prelude.{
  ℕ, Bool, ◌||◌, String, Option, none, some, leb, if◌then◌else◌, ◌==◌, ℕ_test, text_test,
}
use dgc_database_tp.Documents.{Block}
use dgc_database_tp.LedgerSync.Ledger.{Stores, Ledger}
use dgc_database_tp.LedgerSync.Fork.{remove_forked_docs}

module _ (S : Stores) where
  -- `Promise.all(stateTables.map(...))`: six tables, each changed on its own, `exchanges` not among
  -- them
  unfoldable pub remove_forks : ℕ → Ledger S → Ledger S
  remove_forks n l = record l {
    participants = remove_forked_docs S.participants n l.participants;
    records = remove_forked_docs S.records n l.records;
    tables = remove_forked_docs S.tables n l.tables;
    properties = remove_forked_docs S.properties n l.properties;
    property_pages = remove_forked_docs S.property_pages n l.property_pages;
    proposals = remove_forked_docs S.proposals n l.proposals;
  }

  abbrev pub with_blocks : Ledger S → S.blocks.State → Ledger S
  with_blocks l bs = record l { blocks = bs }

  unfoldable pub resolve_fork : Block → Ledger S → Option (Ledger S)
  resolve_fork block l =
      Option.map (λ bs. remove_forks block.block_num (with_blocks l bs))
        (S.blocks.insert block (S.blocks.delete (leb block.block_num) l.blocks))

  -- `!result.blockId || result.blockId === block.blockId` of a block that was found
  abbrev pub is_same_block : Block → Block → Bool
  is_same_block found block = found.block_id == "" || found.block_id == block.block_id

  unfoldable pub insert : Block → Ledger S → Option (Ledger S)
  insert block l = elim (S.blocks.get block.block_num l.blocks) [
    | none ↦ Option.map (with_blocks l) (S.blocks.insert block l.blocks)
    | some found ↦ if is_same_block found block then some l else resolve_fork block l
  ]
