-- ===== src/Server/Reads/Following.antt =====
-- Blocks that the ledger sync handles one after another, as the queue of
-- ledger_sync/subscriber/deltas.js calls `handle` for them, and what the server reads after the last.
use native.Mathlib.Nat.{le_refl}
use mathlib.Core.List.Perm
use mathlib.Core.Path.{subst}
use dgc_database_tp.Prelude.{
  ℕ, ◌≤◌, ◌<◌, true, List, [], ◌∷◌, ◌++◌, map, filter, filter_congr, ◌≡◌, ◌∙◌, refl, sym, ap, Perm,
  map-perm, Option, none, some, max_safe_integer, EqTest, ◌==◌, ◌>>=◌, arith,
}
use dgc_database_tp.Rethink.{Table}
use dgc_database_tp.Rethink.Sorting.{Sorting}
use dgc_database_tp.Documents.{Block}
use dgc_database_tp.LedgerSync.Versions.{Version, version_of}
use dgc_database_tp.LedgerSync.Versions.Adding.{is_bounded, IsLedger}
use dgc_database_tp.LedgerSync.Versions.Reading.{is_seen_at, read_at}
use dgc_database_tp.LedgerSync.Versions.Writing.{first_at, first_or}
use dgc_database_tp.LedgerSync.Ledger.{Stores, Ledger, IsSynced}
use dgc_database_tp.LedgerSync.State.Synced.{Entry, add_entry-IsSynced, IsSynced-mono}
use dgc_database_tp.LedgerSync.Blocks.{with_blocks}
use dgc_database_tp.LedgerSync.Blocks.Chain.{insert_new}
use dgc_database_tp.LedgerSync.Deltas.{add_all, handle}
use dgc_database_tp.LedgerSync.Deltas.Schedules.{blocks-add_all, IsSynced-with_blocks}
use dgc_database_tp.Server.Reads.{get_table, current_block}
use dgc_database_tp.Server.Reads.Current.{filter-get_table}
use dgc_database_tp.Server.Reads.Handled.{Part, IsNext, handle-read_at}

-- A block with the entries of its changes.
pub record Delta : Type 0 where
  pub pages : List Entry
  pub others : List Entry
  pub block : Block

-- Blocks that are handled one after another, in the order of Deltas.handle: nothing waits for the
-- writes of a block, so that this is one of their orders.
unfoldable pub handle_all : (S : Stores) → List Delta → Ledger S → Option (Ledger S)
handle_all S [] l = some l
handle_all S (d ∷ ds) l = handle S (d.pages, d.others) d.block l >>= handle_all S ds

-- The blocks have growing numbers, from `n` on, below 2 ^ 53 - 1.
abbrev IsChain : ℕ → List Delta → Type 0
IsChain n [] = Unit
IsChain n (d ∷ ds) =
    (n < d.block.block_num) × (d.block.block_num < max_safe_integer) × IsChain d.block.block_num ds

abbrev last_num : ℕ → List Delta → ℕ
last_num n [] = n
last_num n (d ∷ ds) = last_num d.block.block_num ds

module _ {D K : Type 0} ⦃e : EqTest K⦄ (T : Table (Version D)) (index : D → K) where
  seen_later :
      (k : K) (n b : ℕ) (v : Version D)
      → n ≤ b
      → b < max_safe_integer
      → is_bounded n v ≡ true
      → is_seen_at T index k b v ≡ is_seen_at T index k n v
  seen_later k n b v le lt h = ground arith

  -- What is read does not change as long as nothing is written.
  read_later :
      (k : K) (n b : ℕ) (t : T.State)
      → n ≤ b
      → b < max_safe_integer
      → IsLedger T index n t
      → read_at T index k b t ≡ read_at T index k n t
  unfolding read_at
  read_later k n b t le lt h =
      filter_congr (is_bounded n) (is_seen_at T index k b) (is_seen_at T index k n) (T.docs t)
        (λ v. seen_later k n b v le lt) h.bounded

module _ (S : Stores) where
  -- No block after `n` is known.
  abbrev IsHeadless : ℕ → Ledger S → Type 0
  IsHeadless n l = (m : ℕ) → n < m → S.blocks.get m l.blocks ≡ none

  add_all-IsSynced :
      (xs : List Entry) (b : ℕ) (l : Ledger S)
      → b < max_safe_integer
      → IsSynced S b l
      → IsSynced S b (add_all S xs b l)
  unfolding add_all
  add_all-IsSynced [] b l lt h = h
  add_all-IsSynced (x ∷ xs) b l lt h =
      add_all-IsSynced xs b _ lt (add_entry-IsSynced S x b b l (le_refl b) lt h)

  handle-IsSynced :
      (d : Delta) (n : ℕ) (l l' : Ledger S)
      → IsSynced S n l
      → IsNext S d.block n l
      → handle S (d.pages, d.others) d.block l ≡ some l'
      → IsSynced S d.block.block_num l' × IsHeadless d.block.block_num l'
  unfolding handle
  handle-IsSynced d n l l' h next done =
      let b = d.block.block_num in
      let old = add_all S d.others b l in
      let written = add_all S d.pages b old in
      let same : written.blocks ≡ l.blocks =
        blocks-add_all S d.pages b old ∙ blocks-add_all S d.others b l in
      let (bs, inserted, after) =
        insert_new S d.block written (rw same (next.fresh b (le_refl b))) in
      let e : some (with_blocks S written bs) ≡ some l' = sym inserted ∙ done in
      let p : with_blocks S written bs ≡ l' = cc in
      let synced : IsSynced S b written = add_all-IsSynced d.pages b old next.below (
        add_all-IsSynced d.others b l next.below (IsSynced-mono S (omega (arith, next.later)) h)) in
      subst (λ m. IsSynced S b m × IsHeadless b m) p
        (
          IsSynced-with_blocks S d.block written bs b synced,
          λ m lt.
              let free : S.blocks.get m written.blocks ≡ none =
                rw same (next.fresh m (omega arith)) in
              ground (arith, after m),
        )

module _ (S : Stores) (O : Sorting) (part : Part S) where
  open part use {D, K, test, table, index, state, docs_of, state-IsLedger}

  -- What the last of the blocks that has documents with the key says: the first of them.
  abbrev or_earlier : Option (Version D) → Option D → ℕ → Option (Version D)
  or_earlier (some v) o b = some v
  or_earlier none none b = none
  or_earlier none (some d) b = some (version_of d b)

  abbrev pub latest : K → List Delta → Option (Version D)
  latest k [] = none
  latest k (d ∷ ds) =
      or_earlier (latest k ds) (first_at ⦃e = test⦄ table index k (docs_of (d.others ++ d.pages)))
        d.block.block_num

  abbrev or_before : Option (Version D) → List (Version D) → List (Version D)
  or_before none before = before
  or_before (some v) before = v ∷ []

  or_before-perm :
      (o : Option (Version D)) {xs ys : List (Version D)}
      → Perm xs ys
      → Perm (or_before o xs) (or_before o ys)
  or_before-perm none h = h
  or_before-perm (some v) h = Perm.refl _

  or_before-first_or :
      (later : Option (Version D)) (o : Option D) (b : ℕ) (before : List (Version D))
      → or_before later (first_or ⦃e = test⦄ table index o b before)
        ≡ or_before (or_earlier later o b) before
  or_before-first_or (some v) o b before = refl
  or_before-first_or none none b before = refl
  or_before-first_or none (some d) b before = refl

  abbrev seen : K → ℕ → Ledger S → List (Version D)
  seen k n l = read_at ⦃e = test⦄ table index k n (state l)

  handle_all-seen :
      (k : K) (ds : List Delta) (n : ℕ) (l : Ledger S)
      → IsSynced S n l
      → IsHeadless S n l
      → current_block S O l ≡ some n
      → IsChain n ds
      → (l' : Ledger S) × (handle_all S ds l ≡ some l')
        × (current_block S O l' ≡ some (last_num n ds))
        × Perm (seen k (last_num n ds) l') (or_before (latest k ds) (seen k n l))
  unfolding handle_all
  handle_all-seen k [] n l h free at chain = (l, refl, at, Perm.refl _)
  handle_all-seen k (d ∷ ds) n l h free at (later, below, chain) =
      let next : IsNext S d.block n l = record {
        later = later;
        below = below;
        fresh = λ m le. free m (omega arith);
      } in
      let (l1, done, now, found) =
        handle-read_at S O part k d.pages d.others d.block n l (state-IsLedger n l h) next in
      let (h1, free1) = handle-IsSynced S d n l l1 h next done in
      let (l', rest, head, read) = handle_all-seen k ds d.block.block_num l1 h1 free1 now chain in
      let unchanged : seen k d.block.block_num l ≡ seen k n l =
        read_later ⦃e = test⦄ table index k n d.block.block_num (state l) (omega arith) below
          (state-IsLedger n l h) in
      let first = first_at ⦃e = test⦄ table index k (docs_of (d.others ++ d.pages)) in
      (
        l',
        rw done rest,
        head,
        Perm.trans read (
            subst (λ xs. Perm (or_before (latest k ds) (seen k d.block.block_num l1)) xs)
              (or_before-first_or (latest k ds) first d.block.block_num (seen k d.block.block_num l)
                ∙ ap (λ xs. or_before (or_earlier (latest k ds) first d.block.block_num) xs)
                    unchanged)
              (or_before-perm (latest k ds) found)),
      )

  -- When the queries of each block are executed in the order of the code, each to its end before
  -- the next, and the block's own before those of the next block (other orders are possible, since
  -- no write is awaited): for each kind of documents that the blocks write by one key, after any
  -- number of blocks with growing numbers, below 2^53 - 1, on a well formed database that is at
  -- its last block: the current block is the last of them, and under a key the server finds there
  -- what a map of the keys holds, the first document of the key in the last block that has one,
  -- or, when no block has one, what it found before.
  pub handle_all-read :
      (k : K) (ds : List Delta) (n : ℕ) (l : Ledger S)
      → IsSynced S n l
      → IsHeadless S n l
      → current_block S O l ≡ some n
      → IsChain n ds
      → (l' : Ledger S) × (handle_all S ds l ≡ some l')
        × (current_block S O l' ≡ some (last_num n ds))
        × Perm
            (filter (λ d. ◌==◌ ⦃t = test⦄ (index d) k) (get_table table (last_num n ds) (state l')))
            (map (λ v. v.doc) (or_before (latest k ds) (seen k n l)))
  handle_all-read k ds n l h free at chain =
      let (l', done, head, read) = handle_all-seen k ds n l h free at chain in
      (
        l',
        done,
        head,
        rw (filter-get_table ⦃e = test⦄ table index k (last_num n ds) (state l'))
            (map-perm (λ v. v.doc) read),
      )
