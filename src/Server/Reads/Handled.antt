-- ===== src/Server/Reads/Handled.antt =====
-- From a block that the ledger sync handles to what the server reads: `handle` of
-- ledger_sync/subscriber/deltas.js, and queries at the current block.
use native.Mathlib.Nat.{le_refl}
use dgc_database_tp.Prelude.{
  ℕ, ◌≤◌, ◌<◌, String, List, [], ◌∷◌, ◌++◌, ◌≡◌, ◌∙◌, refl, sym, ap, Perm, none, some, Option,
  max_safe_integer, EqTest, text_test, pair_test, ℕ_test, arith,
}
use dgc_database_tp.Rethink.{Table}
use dgc_database_tp.Rethink.Sorting.{Sorting}
use dgc_database_tp.Documents.{Participant, Record, TableSchema, Property, PropertyPage, Block}
use dgc_database_tp.LedgerSync.Versions.{Version, write_all}
use dgc_database_tp.LedgerSync.Versions.Adding.{IsLedger}
use dgc_database_tp.LedgerSync.Versions.Reading.{read_at}
use dgc_database_tp.LedgerSync.Versions.Writing.{first_at, first_or, write_all-read_at}
use dgc_database_tp.LedgerSync.Ledger.{
  Stores, Ledger, IsSynced, participant_index, record_index, table_index,
}
use dgc_database_tp.LedgerSync.State.{
  add_property_page, store_page, add_participant, add_record, add_table, add_property, add_proposal,
  add_exchange,
}
use dgc_database_tp.LedgerSync.State.Synced.{
  Entry, a_participant, a_record, a_table, a_property, a_page, a_proposal, an_exchange, add_entry,
}
use dgc_database_tp.LedgerSync.Blocks.{with_blocks}
use dgc_database_tp.LedgerSync.Blocks.Chain.{insert_new}
use dgc_database_tp.LedgerSync.Deltas.{add_all, handle}
use dgc_database_tp.LedgerSync.Deltas.Schedules.{blocks-add_all}
use dgc_database_tp.Server.Reads.{current_block}
use dgc_database_tp.Server.Reads.Current.{IsHead, current_block-head}

-- The documents of one kind among the entries of a block.
abbrev pub tables_of : List Entry → List TableSchema
tables_of [] = []
tables_of (a_table d ∷ xs) = d ∷ tables_of xs
tables_of (_ ∷ xs) = tables_of xs

abbrev pub participants_of : List Entry → List Participant
participants_of [] = []
participants_of (a_participant d ∷ xs) = d ∷ participants_of xs
participants_of (_ ∷ xs) = participants_of xs

abbrev pub records_of : List Entry → List Record
records_of [] = []
records_of (a_record d ∷ xs) = d ∷ records_of xs
records_of (_ ∷ xs) = records_of xs

module _ (S : Stores) where
  -- One table of the ledger, and how the entries of a block change it.
  pub record Part : Type 1 where
    pub D : Type 0
    pub K : Type 0
    pub test : EqTest K
    pub table : Table (Version D)
    pub index : D → K
    pub state : Ledger S → table.State
    pub docs_of : List Entry → List D
    pub state-add_all :
        (xs : List Entry) (b : ℕ) (l : Ledger S)
        → state (add_all S xs b l) ≡ write_all ⦃e = test⦄ table index (docs_of xs) b (state l)
    pub state-with_blocks :
        (l : Ledger S) (bs : S.blocks.State) → state (with_blocks S l bs) ≡ state l
    pub state-store_page :
        (p : Option Property) (page : PropertyPage) (b : ℕ) (l : Ledger S)
        → state (store_page S p page b l) ≡ state l
    pub docs_of-page : (page : PropertyPage) → docs_of (a_page page ∷ []) ≡ []
    pub state-IsLedger :
        (n : ℕ) (l : Ledger S) → IsSynced S n l → IsLedger ⦃e = test⦄ table index n (state l)

  pub tables-add_all :
      (xs : List Entry) (b : ℕ) (l : Ledger S)
      → (add_all S xs b l).tables ≡ write_all S.tables table_index (tables_of xs) b l.tables
  unfolding add_all write_all add_entry add_participant add_record add_table add_property
      add_proposal add_exchange add_property_page store_page
  tables-add_all [] b l = refl
  tables-add_all (a_participant d ∷ xs) b l = tables-add_all xs b (add_participant S d b l)
  tables-add_all (a_record d ∷ xs) b l = tables-add_all xs b (add_record S d b l)
  tables-add_all (a_table d ∷ xs) b l = tables-add_all xs b (add_table S d b l)
  tables-add_all (a_property d ∷ xs) b l = tables-add_all xs b (add_property S d b l)
  tables-add_all (a_page d ∷ xs) b l = tables-add_all xs b (add_property_page S d b l)
  tables-add_all (a_proposal d ∷ xs) b l = tables-add_all xs b (add_proposal S d b l)
  tables-add_all (an_exchange d ∷ xs) b l = tables-add_all xs b (add_exchange S d b l)

  pub tables-store_page :
      (p : Option Property) (page : PropertyPage) (b : ℕ) (l : Ledger S)
      → (store_page S p page b l).tables ≡ l.tables
  unfolding store_page
  tables-store_page p page b l = refl

  abbrev pub table_part : Part
  table_part = record {
    D = TableSchema;
    K = String;
    test = text_test;
    table = S.tables;
    index = table_index;
    state = λ l. l.tables;
    docs_of = tables_of;
    state-add_all = tables-add_all;
    state-with_blocks = λ l bs. refl;
    state-store_page = tables-store_page;
    docs_of-page = λ page. refl;
    state-IsLedger = λ n l h. h.tables;
  }

  pub participants-add_all :
      (xs : List Entry) (b : ℕ) (l : Ledger S)
      → (add_all S xs b l).participants
        ≡ write_all S.participants participant_index (participants_of xs) b l.participants
  unfolding add_all write_all add_entry add_participant add_record add_table add_property
      add_proposal add_exchange add_property_page store_page
  participants-add_all [] b l = refl
  participants-add_all (a_participant d ∷ xs) b l =
      participants-add_all xs b (add_participant S d b l)
  participants-add_all (a_record d ∷ xs) b l = participants-add_all xs b (add_record S d b l)
  participants-add_all (a_table d ∷ xs) b l = participants-add_all xs b (add_table S d b l)
  participants-add_all (a_property d ∷ xs) b l = participants-add_all xs b (add_property S d b l)
  participants-add_all (a_page d ∷ xs) b l = participants-add_all xs b (add_property_page S d b l)
  participants-add_all (a_proposal d ∷ xs) b l = participants-add_all xs b (add_proposal S d b l)
  participants-add_all (an_exchange d ∷ xs) b l = participants-add_all xs b (add_exchange S d b l)

  pub participants-store_page :
      (p : Option Property) (page : PropertyPage) (b : ℕ) (l : Ledger S)
      → (store_page S p page b l).participants ≡ l.participants
  unfolding store_page
  participants-store_page p page b l = refl

  abbrev pub participant_part : Part
  participant_part = record {
    D = Participant;
    K = String;
    test = text_test;
    table = S.participants;
    index = participant_index;
    state = λ l. l.participants;
    docs_of = participants_of;
    state-add_all = participants-add_all;
    state-with_blocks = λ l bs. refl;
    state-store_page = participants-store_page;
    docs_of-page = λ page. refl;
    state-IsLedger = λ n l h. h.participants;
  }

  pub records-add_all :
      (xs : List Entry) (b : ℕ) (l : Ledger S)
      → (add_all S xs b l).records ≡ write_all S.records record_index (records_of xs) b l.records
  unfolding add_all write_all add_entry add_participant add_record add_table add_property
      add_proposal add_exchange add_property_page store_page
  records-add_all [] b l = refl
  records-add_all (a_participant d ∷ xs) b l = records-add_all xs b (add_participant S d b l)
  records-add_all (a_record d ∷ xs) b l = records-add_all xs b (add_record S d b l)
  records-add_all (a_table d ∷ xs) b l = records-add_all xs b (add_table S d b l)
  records-add_all (a_property d ∷ xs) b l = records-add_all xs b (add_property S d b l)
  records-add_all (a_page d ∷ xs) b l = records-add_all xs b (add_property_page S d b l)
  records-add_all (a_proposal d ∷ xs) b l = records-add_all xs b (add_proposal S d b l)
  records-add_all (an_exchange d ∷ xs) b l = records-add_all xs b (add_exchange S d b l)

  pub records-store_page :
      (p : Option Property) (page : PropertyPage) (b : ℕ) (l : Ledger S)
      → (store_page S p page b l).records ≡ l.records
  unfolding store_page
  records-store_page p page b l = refl

  abbrev pub record_part : Part
  record_part = record {
    D = Record;
    K = String;
    test = text_test;
    table = S.records;
    index = record_index;
    state = λ l. l.records;
    docs_of = records_of;
    state-add_all = records-add_all;
    state-with_blocks = λ l bs. refl;
    state-store_page = records-store_page;
    docs_of-page = λ page. refl;
    state-IsLedger = λ n l h. h.records;
  }

  -- A block that is later than all that is known, with a number below 2 ^ 53 - 1.
  pub record IsNext (block : Block) (n : ℕ) (l : Ledger S) : Type 0 where
    pub later : n < block.block_num
    pub below : block.block_num < max_safe_integer
    pub fresh : (m : ℕ) → block.block_num ≤ m → S.blocks.get m l.blocks ≡ none

  add_all-append :
      (xs ys : List Entry) (b : ℕ) (l : Ledger S)
      → add_all S (xs ++ ys) b l ≡ add_all S ys b (add_all S xs b l)
  unfolding add_all
  add_all-append [] ys b l = refl
  add_all-append (x ∷ xs) ys b l = add_all-append xs ys b (add_entry S x b l)

module _ (S : Stores) (O : Sorting) (part : Part S) where
  open part use {D, K, test, table, index, state, docs_of, state-add_all, state-with_blocks}

  pub handle-read_at :
      (k : K) (pages others : List Entry) (block : Block) (n : ℕ) (l : Ledger S)
      → IsLedger ⦃e = test⦄ table index n (state l)
      → IsNext S block n l
      → (l' : Ledger S) × (handle S (pages, others) block l ≡ some l')
        × (current_block S O l' ≡ some block.block_num)
        × Perm (read_at ⦃e = test⦄ table index k block.block_num (state l')) (
            first_or ⦃e = test⦄ table index
              (first_at ⦃e = test⦄ table index k (docs_of (others ++ pages)))
              block.block_num
              (read_at ⦃e = test⦄ table index k block.block_num (state l)))
  unfolding handle
  handle-read_at k pages others block n l h next =
      let b = block.block_num in
      let old = add_all S others b l in
      let written = add_all S pages b old in
      let same : written.blocks ≡ l.blocks =
        blocks-add_all S pages b old ∙ blocks-add_all S others b l in
      let free : (m : ℕ) → b ≤ m → S.blocks.get m written.blocks ≡ none =
        λ m le. rw same (next.fresh m le) in
      let (bs, done, after) = insert_new S block written (free b (le_refl b)) in
      let l' = with_blocks S written bs in
      let head : IsHead S O block l' = record {
        known = ground (arith, after b);
        last = λ m lt. ground (arith, after m, free m (omega arith));
      } in
      let wrote : state l'
          ≡ write_all ⦃e = test⦄ table index (docs_of (others ++ pages)) b (state l) =
        state-with_blocks written bs
        ∙ ap state (sym (add_all-append S others pages b l))
        ∙ state-add_all (others ++ pages) b l in
      (
        l',
        done,
        current_block-head S O block l' head,
        rw wrote (
            write_all-read_at ⦃e = test⦄ table index (docs_of (others ++ pages)) k n b b (state l) h
              next.later (le_refl b) next.below),
      )
