-- ===== src/LedgerSync/Versions.antt =====
-- addBlockState of ledger_sync/db/state.js: a document with the range of blocks that it is valid
-- for. `hasBlock` of server/db/records.js is the test by which the server reads such a table.
pub mod Adding
pub mod Reading
pub mod Writing
use dgc_database_tp.Prelude.{
  ℕ, Bool, ◌&&◌, List, [], ◌∷◌, filter, length, ltb, leb, eqb, if◌then◌else◌, max_safe_integer,
  EqTest, ◌==◌,
}
use dgc_database_tp.Rethink.{Table}

pub record Version (D : Type 0) : Type 0 where
  pub doc : D
  pub start_block_num : ℕ
  pub end_block_num : ℕ

module _ {D : Type 0} where
  -- `{ endBlockNum: Number.MAX_SAFE_INTEGER }`
  abbrev pub is_open : Version D → Bool
  is_open v = eqb v.end_block_num max_safe_integer

  -- `{ startBlockNum: blockNum }`
  abbrev pub starts_at : ℕ → Version D → Bool
  starts_at block_num v = eqb v.start_block_num block_num

  -- `_.assign({}, doc, { startBlockNum, endBlockNum })`
  abbrev pub version_of : D → ℕ → Version D
  version_of doc block_num = record {
    doc = doc;
    start_block_num = block_num;
    end_block_num = max_safe_integer;
  }

  abbrev pub set_end : ℕ → Version D → Version D
  set_end block_num v = record v { end_block_num = block_num }

  abbrev pub has_block : ℕ → Version D → Bool
  has_block block v = leb v.start_block_num block && ltb block v.end_block_num

module _ {D K : Type 0} ⦃e : EqTest K⦄ (index : D → K) where
  -- `getAll(value, { index })`
  abbrev pub has_index : K → Version D → Bool
  has_index value v = index v.doc == value

  abbrev pub is_open_at : K → Version D → Bool
  is_open_at value v = has_index value v && is_open v

module _ {D K : Type 0} ⦃e : EqTest K⦄ (T : Table (Version D)) (index : D → K) where
  open T use {State, docs, insert, update}

  abbrev pub old_docs : K → State → List (Version D)
  old_docs value t = filter is_open (filter (has_index index value) (docs t))

  unfoldable pub add_block_state : K → D → ℕ → State → State
  add_block_state value doc block_num t =
      if ltb 0 (length (filter (starts_at block_num) (old_docs value t)))
      then t
      else insert (version_of doc block_num) (update (has_index index value) (set_end block_num) t)

  -- `entryAdder` for the entries of one table: the writes of a block, one after another
  unfoldable pub write_all : List D → ℕ → State → State
  write_all [] b t = t
  write_all (d ∷ ds) b t = write_all ds b (add_block_state (index d) d b t)
