-- ===== src/LedgerSync/Deltas/Schedules.antt =====
-- The queries of `handle` in the orders that they can finish in. `stateAdder` does not return the
-- promise of its write, so nothing waits for a write: it can finish after any later query.
use mathlib.Core.Path.{subst}
use mathlib.Core.Option.{some-injective}
use native.Mathlib.Nat.{le_refl}
use dgc_database_tp.Prelude.{
  ℕ, ◌<◌, List, [], ◌∷◌, ◌++◌, Option, none, some, ◌≡◌, ◌⊎◌, inl, inr, refl, ◌∙◌, max_safe_integer,
  ℕ_test, eqb_iff,
}
use dgc_database_tp.Documents.{Property, PropertyPage, Block}
use dgc_database_tp.LedgerSync.Ledger.{Stores, Ledger, IsSynced}
use dgc_database_tp.LedgerSync.State.{
  find_page_property, store_page, add_property_page, add_participant, add_record, add_table,
  add_property, add_proposal, add_exchange,
}
use dgc_database_tp.LedgerSync.State.Synced.{
  Entry, a_participant, a_record, a_table, a_property, a_page, a_proposal, an_exchange, add_entry,
  add_entry-IsSynced, store_page-IsSynced,
}
use dgc_database_tp.LedgerSync.Blocks
use dgc_database_tp.LedgerSync.Blocks.{with_blocks}
use dgc_database_tp.LedgerSync.Blocks.Chain.{
  IsRolledBack, IsFork, insert-IsResolved, insert_known, insert_new,
}
use dgc_database_tp.LedgerSync.Deltas.{add_all, handle}

module _ (S : Stores) where
  pub blocks-add_entry : (x : Entry) (b : ℕ) (l : Ledger S) → (add_entry S x b l).blocks ≡ l.blocks
  unfolding add_entry add_participant add_record add_table add_property add_proposal add_exchange
      add_property_page store_page
  blocks-add_entry (a_participant d) b l = refl
  blocks-add_entry (a_record d) b l = refl
  blocks-add_entry (a_table d) b l = refl
  blocks-add_entry (a_property d) b l = refl
  blocks-add_entry (a_page d) b l = refl
  blocks-add_entry (a_proposal d) b l = refl
  blocks-add_entry (an_exchange d) b l = refl

  pub blocks-add_all :
      (xs : List Entry) (b : ℕ) (l : Ledger S) → (add_all S xs b l).blocks ≡ l.blocks
  unfolding add_all
  blocks-add_all [] b l = refl
  blocks-add_all (x ∷ xs) b l = blocks-add_all xs b (add_entry S x b l) ∙ blocks-add_entry x b l

  IsFork-blocks :
      (block : Block) (l l' : Ledger S)
      → l'.blocks ≡ l.blocks
      → IsFork S block l
      → IsFork S block l'
  IsFork-blocks block l l' e f = record { found = f.found; known = rw e f.known; other = f.other }

  -- When the queries finish in the order of the code, the changes of a block that forks are lost:
  -- handle succeeds, and afterwards no document of the block or of a later one is left in a table
  -- that is rolled back.
  pub handle_fork_loses_changes :
      (pages others : List Entry) (block : Block) (l : Ledger S)
      → IsFork S block l
      → (l' : Ledger S) × (handle S (pages, others) block l ≡ some l')
        × IsRolledBack S block.block_num l'
  unfolding handle
  handle_fork_loses_changes pages others block l f =
      let before = add_all S others block.block_num l in
      let written = add_all S pages block.block_num before in
      let same =
        blocks-add_all pages block.block_num before ∙ blocks-add_all others block.block_num l in
      let (l', done, r) =
        insert-IsResolved S block written (IsFork-blocks block l written same f) in
      (l', done, r.rolled_back)

  -- A query that was sent. A page is two queries: the second is sent when the first has its answer.
  pub data Job : Type 0 where
    write : Entry → Job
    store : Option Property → PropertyPage → Job
    insert_block : Job

  pub record World : Type 0 where
    pub ledger : Ledger S
    pub stages : List (List Job)
    pub pending : List Job

  module _ (block : Block) where
    abbrev insert_and : Option (Ledger S) → Option (Ledger S × List Job)
    insert_and none = none
    insert_and (some l) = some (l, [])

    -- What a query does when it is executed, and the queries that its answer sends.
    unfoldable pub perform : Job → Ledger S → Option (Ledger S × List Job)
    perform (write (a_page p)) l = some (l, store (find_page_property S p l) p ∷ [])
    perform (write x) l = some (add_entry S x block.block_num l, [])
    perform (store p page) l = some (store_page S p page block.block_num l, [])
    perform insert_block l = insert_and (Blocks.insert S block l)

    -- The stages are sent in order, whether or not the last one is done; any query that was sent
    -- may be the next to be executed.
    pub data Step (w u : World) : Type 0 where
      send :
          (stage : List Job) (rest : List (List Job))
          → w.stages ≡ stage ∷ rest
          → u ≡ record w { stages = rest; pending = w.pending ++ stage }
          → Step w u
      execute :
          (before : List Job) (j : Job) (after : List Job) (l : Ledger S) (more : List Job)
          → w.pending ≡ before ++ j ∷ after
          → perform j w.ledger ≡ some (l, more)
          → u ≡ record w { ledger = l; pending = before ++ (after ++ more) }
          → Step w u

    pub data Reach (w : World) : World → Type 0 where
      here : Reach w w
      next : {u v : World} → Reach w u → Step u v → Reach w v

    -- The block's number is new, or known under the block's own id.
    abbrev pub IsExtension : Ledger S → Type 0
    IsExtension l =
        (S.blocks.get block.block_num l.blocks ≡ none)
        ⊎ ((found : Block) × (S.blocks.get block.block_num l.blocks ≡ some found)
            × (found.block_id ≡ block.block_id))

    pub record IsGood (l : Ledger S) : Type 0 where
      pub synced : IsSynced S block.block_num l
      pub extension : IsExtension l

    IsExtension-blocks : (l l' : Ledger S) → l'.blocks ≡ l.blocks → IsExtension l → IsExtension l'
    IsExtension-blocks l l' e h = rw e h

    pub IsSynced-with_blocks :
        (l : Ledger S) (bs : S.blocks.State) (n : ℕ)
        → IsSynced S n l
        → IsSynced S n (with_blocks S l bs)
    IsSynced-with_blocks l bs n h = record {
      participants = h.participants;
      records = h.records;
      tables = h.tables;
      properties = h.properties;
      property_pages = h.property_pages;
      proposals = h.proposals;
      exchanges = h.exchanges;
    }

    -- Inserting the block succeeds and keeps the ledger good.
    insert-IsGood :
        (l : Ledger S)
        → IsGood l
        → (l' : Ledger S) × (Blocks.insert S block l ≡ some l') × IsGood l'
    insert-IsGood l h = go h.extension
      where
        go : IsExtension l → (l' : Ledger S) × (Blocks.insert S block l ≡ some l') × IsGood l'
        go (inl unknown) =
            let (bs, done, get) = insert_new S block l unknown in
            (
              with_blocks S l bs,
              done,
              record {
                synced = IsSynced-with_blocks l bs block.block_num h.synced;
                extension = inr (
                  block,
                  (get block.block_num ∙ rw ((eqb_iff block.block_num block.block_num).1 refl)),
                  refl,
                );
              },
            )
        go (inr (found, known, same)) = (l, insert_known S block found l known same, h)

    same-IsGood :
        (r r' : Ledger S × List Job)
        → IsGood r.0
        → ◌≡◌ {A = Option (Ledger S × List Job)} (some r) (some r')
        → IsGood r'.0
    same-IsGood r r' h e = subst (λ (x : Ledger S × List Job). IsGood x.0) (some-injective r r' e) h

    write-IsGood :
        (x : Entry) (l : Ledger S)
        → block.block_num < max_safe_integer
        → IsGood l
        → IsGood (add_entry S x block.block_num l)
    write-IsGood x l lt h = record {
      synced = add_entry-IsSynced S x block.block_num block.block_num l (le_refl _) lt h.synced;
      extension =
          IsExtension-blocks l (add_entry S x block.block_num l)
            (blocks-add_entry x block.block_num l) h.extension;
    }

    pub blocks-store_page :
        (p : Option Property) (page : PropertyPage) (l : Ledger S)
        → (store_page S p page block.block_num l).blocks ≡ l.blocks
    unfolding store_page
    blocks-store_page p page l = refl

    store-IsGood :
        (p : Option Property) (page : PropertyPage) (l : Ledger S)
        → block.block_num < max_safe_integer
        → IsGood l
        → IsGood (store_page S p page block.block_num l)
    store-IsGood p page l lt h = record {
      synced =
          store_page-IsSynced S p page block.block_num block.block_num l (le_refl _) lt h.synced;
      extension =
          IsExtension-blocks l (store_page S p page block.block_num l) (blocks-store_page p page l)
            h.extension;
    }

    perform-IsGood :
        (j : Job) (l : Ledger S) (r : Ledger S × List Job)
        → block.block_num < max_safe_integer
        → IsGood l
        → perform j l ≡ some r
        → IsGood r.0
    unfolding perform
    perform-IsGood (write (a_page p)) l r lt h e =
        same-IsGood (l, store (find_page_property S p l) p ∷ []) r h e
    perform-IsGood (store p page) l r lt h e =
        same-IsGood (store_page S p page block.block_num l, []) r (store-IsGood p page l lt h) e
    perform-IsGood insert_block l r lt h e =
        let (l', done, good) = insert-IsGood l h in same-IsGood (l', []) r good (rw done at e)
    perform-IsGood (write x) l r lt h e =
        same-IsGood (add_entry S x block.block_num l, []) r (write-IsGood x l lt h) e

    Step-IsGood :
        {w u : World}
        → block.block_num < max_safe_integer
        → Step w u
        → IsGood w.ledger
        → IsGood u.ledger
    Step-IsGood lt (send stage rest e f) h = rw f h
    Step-IsGood lt (execute before j after l more e done f) h =
        rw f (perform-IsGood j _ (l, more) lt h done)

    -- In whatever order the queries of a block that forks nothing, with a number below 2^53 - 1,
    -- finish, every table stays well formed at that block: nothing is later than it and no key has
    -- two open versions.
    pub Reach-IsGood :
        {w u : World}
        → block.block_num < max_safe_integer
        → IsGood w.ledger
        → Reach w u
        → IsGood u.ledger
    Reach-IsGood lt h here = h
    Reach-IsGood lt h (next r st) = Step-IsGood lt st (Reach-IsGood lt h r)

    -- The block's own query never fails: while the block forks nothing it can always be executed.
    insert_block-progress :
        (l : Ledger S) → IsGood l → (r : Ledger S × List Job) × (perform insert_block l ≡ some r)
    unfolding perform
    insert_block-progress l h = let (l', done, good) = insert-IsGood l h in ((l', []), rw done)
