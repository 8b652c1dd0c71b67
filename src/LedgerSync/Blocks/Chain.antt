-- ===== src/LedgerSync/Blocks/Chain.antt =====
-- What inserting a block does to the chain and to the tables.
use text.Mathlib.TextEquality.{eq_iff}
use dgc_database_tp.Prelude.{
  ℕ, ◌<◌, Bool, true, false, ◌&&◌, ◌||◌, none, some, ◌≡◌, refl, all, leb, ltb, if◌then◌else◌, ◌==◌,
  ℕ_test, text_test, arith,
}
use dgc_database_tp.Documents.{Block}
use dgc_database_tp.LedgerSync.Versions.{Version, is_open}
use dgc_database_tp.LedgerSync.Ledger.{Stores, Ledger}
use dgc_database_tp.LedgerSync.Fork.{remove_forked_docs-before}
use dgc_database_tp.LedgerSync.Blocks.{
  remove_forks, with_blocks, resolve_fork, is_same_block, insert,
}

-- Every version began before block `b`, and is open or ended before `b`.
abbrev pub is_before : {D : Type 0} → ℕ → Version D → Bool
is_before b v = ltb v.start_block_num b && (ltb v.end_block_num b || is_open v)

module _ (S : Stores) where
  pub record IsRolledBack (b : ℕ) (l : Ledger S) : Type 0 where
    pub participants : all (is_before b) (S.participants.docs l.participants) ≡ true
    pub records : all (is_before b) (S.records.docs l.records) ≡ true
    pub tables : all (is_before b) (S.tables.docs l.tables) ≡ true
    pub properties : all (is_before b) (S.properties.docs l.properties) ≡ true
    pub property_pages : all (is_before b) (S.property_pages.docs l.property_pages) ≡ true
    pub proposals : all (is_before b) (S.proposals.docs l.proposals) ≡ true

  remove_forks-IsRolledBack : (b : ℕ) (l : Ledger S) → IsRolledBack b (remove_forks S b l)
  unfolding remove_forks
  remove_forks-IsRolledBack b l = record {
    participants = remove_forked_docs-before S.participants b l.participants;
    records = remove_forked_docs-before S.records b l.records;
    tables = remove_forked_docs-before S.tables b l.tables;
    properties = remove_forked_docs-before S.properties b l.properties;
    property_pages = remove_forked_docs-before S.property_pages b l.property_pages;
    proposals = remove_forked_docs-before S.proposals b l.proposals;
  }

  -- the table of blocks after the old chain is cut
  cut-insert :
      (block : Block) (bs : S.blocks.State)
      → (cs : S.blocks.State) × (S.blocks.insert block (S.blocks.delete (leb block.block_num) bs)
          ≡ some cs)
  cut-insert block bs =
      S.blocks.insert-free block (S.blocks.delete (leb block.block_num) bs)
        (rw (S.blocks.get-delete (leb block.block_num) bs block.block_num) (ground arith))

  -- A fork: a block of this number is known, under another id.
  pub record IsFork (block : Block) (l : Ledger S) : Type 0 where
    pub found : Block
    pub known : S.blocks.get block.block_num l.blocks ≡ some found
    pub other : is_same_block S found block ≡ false

  -- The outcome of a resolved fork.
  pub record IsResolved (block : Block) (l l' : Ledger S) : Type 0 where
    pub rolled_back : IsRolledBack block.block_num l'
    pub head : S.blocks.get block.block_num l'.blocks ≡ some block
    pub cut : (n : ℕ) → block.block_num < n → S.blocks.get n l'.blocks ≡ none
    pub older : (n : ℕ) → n < block.block_num → S.blocks.get n l'.blocks ≡ S.blocks.get n l.blocks
    pub exchanges : l'.exchanges ≡ l.exchanges

  resolved :
      (block : Block) (l : Ledger S) (cs : S.blocks.State)
      → S.blocks.insert block (S.blocks.delete (leb block.block_num) l.blocks) ≡ some cs
      → IsResolved block l (remove_forks S block.block_num (with_blocks S l cs))
  unfolding remove_forks
  resolved block l cs e =
      let bs = S.blocks.delete (leb block.block_num) l.blocks in
      record {
        rolled_back = remove_forks-IsRolledBack block.block_num (with_blocks S l cs);
        head = ground (arith, S.blocks.get-insert block bs cs block.block_num e);
        cut = λ n lt. ground (
          arith,
          S.blocks.get-insert block bs cs n e,
          S.blocks.get-delete (leb block.block_num) l.blocks n,
        );
        older = λ n lt. ground (
          arith,
          S.blocks.get-insert block bs cs n e,
          S.blocks.get-delete (leb block.block_num) l.blocks n,
        );
        exchanges = refl;
      }

  -- A block that forks the known chain is always accepted: the chain is cut at its number and ends
  -- with it, every state table but exchanges holds only what began before it with no version
  -- closed at it or later, and the exchanges are as they were.
  pub insert-IsResolved :
      (block : Block) (l : Ledger S)
      → IsFork block l
      → (l' : Ledger S) × (insert S block l ≡ some l') × IsResolved block l l'
  unfolding insert resolve_fork
  insert-IsResolved block l f =
      let (cs, e) = cut-insert block l.blocks in
      (
        remove_forks S block.block_num (with_blocks S l cs),
        ground (arith, f.known, f.other, e),
        resolved block l cs e,
      )

  -- A block that is already known under the same id changes nothing.
  pub insert_known :
      (block found : Block) (l : Ledger S)
      → S.blocks.get block.block_num l.blocks ≡ some found
      → found.block_id ≡ block.block_id
      → insert S block l ≡ some l
  unfolding insert
  insert_known block found l e same = ground (arith, e, eq_iff found.block_id block.block_id)

  -- A block with a new number is added, and nothing else changes.
  pub insert_new :
      (block : Block) (l : Ledger S)
      → S.blocks.get block.block_num l.blocks ≡ none
      → (bs : S.blocks.State) × (insert S block l ≡ some (with_blocks S l bs))
        × ((n : ℕ)
            → S.blocks.get n bs
              ≡ (if block.block_num == n then some block else S.blocks.get n l.blocks))
  unfolding insert
  insert_new block l e =
      let (bs, done) = S.blocks.insert-free block l.blocks e in
      (bs, ground (arith, e, done), λ n. S.blocks.get-insert block l.blocks bs n done)
