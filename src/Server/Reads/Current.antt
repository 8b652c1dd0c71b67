-- ===== src/Server/Reads/Current.antt =====
-- The current block, and what a table holds under a key at a block.
use mathlib.Core.Option
use mathlib.Core.List.{head?}
use dgc_database_tp.Prelude.{
  ℕ, ◌≤◌, ◌<◌, Bool, true, List, [], ◌∷◌, ◌≡◌, ◌∙◌, refl, sym, ap, inl, inr, map, filter,
  filter-map, filter-filter, all, all-perm, count, count-perm, count_absent, count_of_perm,
  Every-imp, Every, Option, none, some, Bool-cases, Option-cases, leb, eqb, eqb_iff, EqTest, ◌==◌,
  ℕ_test, arith,
}
use dgc_database_tp.Rethink.{Table}
use dgc_database_tp.Rethink.Sorting.{Sorting, IsDescending}
use dgc_database_tp.Documents.{Block}
use dgc_database_tp.LedgerSync.Versions.{Version, has_block}
use dgc_database_tp.LedgerSync.Versions.Reading.{read_at}
use dgc_database_tp.LedgerSync.Ledger.{Stores, Ledger, block_key}
use dgc_database_tp.Server.Reads.{get_table, current_block, query_with_current_block}

module _ {D K : Type 0} ⦃e : EqTest K⦄ (T : Table (Version D)) (index : D → K) where
  -- `getTable(...).filter(...)` by a key is what the reader of a version table sees.
  pub filter-get_table :
      (k : K) (b : ℕ) (t : T.State)
      → filter (λ d. index d == k) (get_table T b t) ≡ map (λ v. v.doc) (read_at T index k b t)
  unfolding get_table read_at
  filter-get_table k b t =
      rw (filter-map (λ d. index d == k) (λ v. v.doc) (filter (has_block b) (T.docs t))) (
        ap (λ vs. map (λ v. v.doc) vs)
          (filter-filter (λ v. index v.doc == k) (has_block b) (T.docs t)))

module _ (S : Stores) (O : Sorting) where
  -- The chain ends with block `b`.
  pub record IsHead (b : Block) (l : Ledger S) : Type 0 where
    pub known : S.blocks.get b.block_num l.blocks ≡ some b
    pub last : (n : ℕ) → b.block_num < n → S.blocks.get n l.blocks ≡ none

  abbrev all_blocks : Ledger S → List Block
  all_blocks l = S.blocks.query (λ b. true) l.blocks

  -- Every stored block is at most the head.
  all_blocks-le :
      (b : Block) (l : Ledger S) (bs : List Block)
      → IsHead b l
      → Every (λ d. (S.blocks.get (block_key d) l.blocks ≡ some d) × (Unit {0})) bs
      → all (λ d. leb d.block_num b.block_num) bs ≡ true
  all_blocks-le b l [] h e = refl
  all_blocks-le b l (d ∷ ds) h e = elim (Bool-cases (leb d.block_num b.block_num)) [
    | inl le ↦ rw le (all_blocks-le b l ds h e.1)
    | inr gt ↦
        let far : S.blocks.get d.block_num l.blocks ≡ none = h.last d.block_num (ground arith) in
        absurd (cc)
  ]

  -- The largest block of a descending list.
  head_of :
      (n : ℕ) (bs : List Block)
      → IsDescending block_key bs
      → all (λ d. leb d.block_num n) bs ≡ true
      → 1 ≤ count (λ d. eqb d.block_num n) bs
      → Option.map block_key (head? bs) ≡ some n
  head_of n [] d le found = absurd (omega arith)
  head_of n (b ∷ bs) d le found = elim (Bool-cases (eqb b.block_num n)) [
    | inl same ↦ ap some ((eqb_iff b.block_num n).0 same)
    | inr other ↦
        let none_left : count (λ x. eqb x.block_num n) bs ≡ 0 =
          count_absent (λ y. leb y.block_num b.block_num) (λ x. eqb x.block_num n) bs
            (λ x small. ground arith) d.0 in
        absurd (ground arith)
  ]

  pub current_block-head :
      (b : Block) (l : Ledger S) → IsHead b l → current_block S O l ≡ some b.block_num
  unfolding current_block
  current_block-head b l h =
      let p : Block → Bool = λ d. eqb d.block_num b.block_num in
      let sorted = O.desc-perm Block block_key (all_blocks l) in
      let found =
        count_of_perm p (all_blocks l) (S.blocks.query p l.blocks)
          (S.blocks.query-filter p l.blocks)
          (S.blocks.query-found p l.blocks b.block_num h.known
            ((eqb_iff b.block_num b.block_num).1 refl)) in
      head_of b.block_num (O.desc Block block_key (all_blocks l))
        (O.desc-IsDescending Block block_key (all_blocks l))
        (all-perm (λ d. leb d.block_num b.block_num) sorted
          ∙ all_blocks-le b l (all_blocks l) h (
              Every-imp (λ d. (S.blocks.get (block_key d) l.blocks ≡ some d) × (true ≡ true)) _
                (all_blocks l) (λ d k. (k.0, tt)) (S.blocks.query-stored (λ d. true) l.blocks)))
        (omega (arith, found, count-perm p sorted))

  pub query_at {ℓ} :
      {A : Type ℓ} (query : ℕ → Option A) (l : Ledger S) {b : ℕ}
      → current_block S O l ≡ some b
      → query_with_current_block S O query l ≡ query b
  unfolding query_with_current_block
  query_at query l now = rw (query_with_current_block, now) refl

  no_block {ℓ} :
      {A : Type ℓ} (query : ℕ → Option A) (l : Ledger S)
      → current_block S O l ≡ none
      → query_with_current_block S O query l ≡ none
  unfolding query_with_current_block
  no_block query l nothing = rw (query_with_current_block, nothing) refl

  -- A query that succeeds was asked at the current block.
  pub query_asked {ℓ} :
      {A : Type ℓ} (query : ℕ → Option A) (l : Ledger S) {x : A}
      → query_with_current_block S O query l ≡ some x
      → (b : ℕ) × (current_block S O l ≡ some b) × (query b ≡ some x)
  query_asked query l {x} h = elim (Option-cases (current_block S O l)) [
    | inl nothing ↦ let e = no_block query l nothing in absurd (cc)
    | inr (b, now) ↦ (b, now, sym (query_at query l now) ∙ h)
  ]
