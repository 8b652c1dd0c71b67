-- ===== src/Server/Reads/Inserted.antt =====
-- The current block after the queries of a block were executed in any order: the block's own query is
-- one of them.
use mathlib.Core.Path.{subst}
use mathlib.Core.Option.{some-injective}
use native.Mathlib.Nat.{le_refl}
use dgc_database_tp.Prelude.{
  ℕ, ◌+◌, List, [], ◌∷◌, ◌++◌, map, ◌≡◌, ◌∙◌, refl, sym, ◌⊎◌, inl, inr, none, some, Option-cases,
  if◌then◌else◌, ◌==◌, ℕ_test, eqb_iff, arith,
}
use dgc_database_tp.Rethink.Sorting.{Sorting}
use dgc_database_tp.Documents.{Block}
use dgc_database_tp.LedgerSync.Ledger.{Stores, Ledger}
use dgc_database_tp.LedgerSync.State.Synced.{Entry, a_page, add_entry}
use dgc_database_tp.LedgerSync.State.{store_page}
use dgc_database_tp.LedgerSync.Blocks
use dgc_database_tp.LedgerSync.Blocks.{with_blocks}
use dgc_database_tp.LedgerSync.Blocks.Chain.{insert_known, insert_new}
use dgc_database_tp.LedgerSync.Deltas.Schedules.{
  Job, write, store, insert_block, World, perform, Step, send, execute, Reach, here, next,
  blocks-add_entry, blocks-store_page,
}
use dgc_database_tp.Server.Reads.{current_block}
use dgc_database_tp.Server.Reads.Current.{current_block-head}
use dgc_database_tp.Server.Reads.Handled.{IsNext}
use dgc_database_tp.Server.Reads.Scheduled.{handling}

module _ (S : Stores) where
  -- How often the block's own query is left.
  abbrev job_inserts : Job S → ℕ
  job_inserts (write x) = 0
  job_inserts (store p page) = 0
  job_inserts insert_block = 1

  abbrev jobs_inserts : List (Job S) → ℕ
  jobs_inserts [] = 0
  jobs_inserts (j ∷ js) = job_inserts j + jobs_inserts js

  abbrev stages_inserts : List (List (Job S)) → ℕ
  stages_inserts [] = 0
  stages_inserts (js ∷ stages) = jobs_inserts js + stages_inserts stages

  abbrev inserts_left : World S → ℕ
  inserts_left w = jobs_inserts w.pending + stages_inserts w.stages

  jobs_inserts-append :
      (xs ys : List (Job S)) → jobs_inserts (xs ++ ys) ≡ jobs_inserts xs + jobs_inserts ys
  jobs_inserts-append [] ys = omega arith
  jobs_inserts-append (j ∷ xs) ys = let rest = jobs_inserts-append xs ys in omega arith

  jobs_inserts-writes : (xs : List Entry) → jobs_inserts (map write xs) ≡ 0
  jobs_inserts-writes [] = refl
  jobs_inserts-writes (x ∷ xs) = let rest = jobs_inserts-writes xs in omega arith

  inserts_left-handling :
      (pages others : List Entry) (l : Ledger S) → inserts_left (handling S pages others l) ≡ 1
  unfolding handling
  inserts_left-handling pages others l =
      rw (jobs_inserts-writes others, jobs_inserts-writes pages) refl

module _ (S : Stores) (block : Block) (l : Ledger S) where
  -- The block is known besides the blocks of before.
  abbrev IsInserted : Ledger S → Type 0
  IsInserted m =
      (n : ℕ)
      → S.blocks.get n m.blocks
        ≡ (if block.block_num == n then some block else S.blocks.get n l.blocks)

  -- The block's own query is left, and the blocks are those of before, or it was executed.
  abbrev IsDue : Ledger S → ℕ → Type 0
  IsDue m left = ((m.blocks ≡ l.blocks) × (left ≡ 1)) ⊎ IsInserted m

  same-IsDue :
      (m m' : Ledger S) (left left' : ℕ)
      → m'.blocks ≡ m.blocks
      → left' ≡ left
      → IsDue m left
      → IsDue m' left'
  same-IsDue m m' left left' e k (inl (same, one)) = inl (e ∙ same, k ∙ one)
  same-IsDue m m' left left' e k (inr there) = inr (λ n. rw e (there n))

  insert-IsInserted :
      (m m' : Ledger S) (left : ℕ)
      → S.blocks.get block.block_num l.blocks ≡ none
      → IsDue m left
      → Blocks.insert S block m ≡ some m'
      → IsInserted m'
  insert-IsInserted m m' left unknown (inl (same, one)) done =
      let (bs, inserted, get) = insert_new S block m (rw same unknown) in
      let p : with_blocks S m bs ≡ m' = some-injective _ _ (sym inserted ∙ done) in
      subst IsInserted p (λ n. get n ∙ rw same refl)
  insert-IsInserted m m' left unknown (inr there) done =
      let known : S.blocks.get block.block_num m.blocks ≡ some block =
        there block.block_num ∙ rw ((eqb_iff block.block_num block.block_num).1 refl) refl in
      let p : m ≡ m' = some-injective _ _ (sym (insert_known S block block m known refl) ∙ done) in
      subst IsInserted p there

  perform-IsDue :
      (j : Job S) (m : Ledger S) (r : Ledger S × List (Job S)) (rest : ℕ)
      → S.blocks.get block.block_num l.blocks ≡ none
      → perform S block j m ≡ some r
      → IsDue m (job_inserts S j + rest)
      → IsDue r.0 (jobs_inserts S r.1 + rest)
  unfolding perform
  perform-IsDue (write (a_page p)) m r rest unknown done h =
      subst (λ (x : Ledger S × List (Job S)). IsDue x.0 (jobs_inserts S x.1 + rest))
        (some-injective _ _ done) h
  perform-IsDue (store p page) m r rest unknown done h =
      subst (λ (x : Ledger S × List (Job S)). IsDue x.0 (jobs_inserts S x.1 + rest))
        (some-injective _ _ done)
        (same-IsDue m (store_page S p page block.block_num m) _ _
          (blocks-store_page S block p page m) refl h)
  perform-IsDue insert_block m r rest unknown done h =
      elim (Option-cases (Blocks.insert S block m)) [
        | inl fails ↦ absurd (let e : none ≡ some r = rw fails at done in cc)
        | inr (m', inserted) ↦
            let e : some (m', []) ≡ some r = rw inserted at done in
            subst (λ (x : Ledger S × List (Job S)). IsDue x.0 (jobs_inserts S x.1 + rest))
              (some-injective _ _ e) (inr (insert-IsInserted m m' (1 + rest) unknown h inserted))
      ]
  perform-IsDue (write x) m r rest unknown done h =
      subst (λ (x : Ledger S × List (Job S)). IsDue x.0 (jobs_inserts S x.1 + rest))
        (some-injective _ _ done)
        (same-IsDue m (add_entry S x block.block_num m) _ _ (blocks-add_entry S x block.block_num m)
          refl h)

  Step-IsDue :
      (w u : World S)
      → S.blocks.get block.block_num l.blocks ≡ none
      → Step S block w u
      → IsDue w.ledger (inserts_left S w)
      → IsDue u.ledger (inserts_left S u)
  Step-IsDue w u unknown (send stage rest at made) h =
      let same = jobs_inserts-append S w.pending stage in
      let left : inserts_left S (record w { stages = rest; pending = w.pending ++ stage })
          ≡ inserts_left S w =
        rw (at, same) (omega arith) in
      rw made (same-IsDue w.ledger w.ledger _ _ refl left h)
  Step-IsDue w u unknown (execute before j after m more at done made) h =
      let rest = jobs_inserts S before + (jobs_inserts S after + stages_inserts S w.stages) in
      let had : inserts_left S w ≡ job_inserts S j + rest =
        rw (at, jobs_inserts-append S before (j ∷ after)) (omega arith) in
      let has : inserts_left S (record w { ledger = m; pending = before ++ (after ++ more) })
          ≡ jobs_inserts S more + rest =
        rw (jobs_inserts-append S before (after ++ more), jobs_inserts-append S after more)
          (omega arith) in
      let old : IsDue w.ledger (job_inserts S j + rest) = subst (IsDue w.ledger) had h in
      rw made (subst (IsDue m) (sym has) (perform-IsDue j w.ledger (m, more) rest unknown done old))

  Reach-IsDue :
      (w u : World S)
      → S.blocks.get block.block_num l.blocks ≡ none
      → Reach S block w u
      → IsDue w.ledger (inserts_left S w)
      → IsDue u.ledger (inserts_left S u)
  Reach-IsDue w _ unknown here h = h
  Reach-IsDue w _ unknown (next {u} {v} reached step) h =
      Step-IsDue u v unknown step (Reach-IsDue w u unknown reached h)

  -- After all queries of the next block, in any order, it is the current block.
  pub Reach-current :
      (O : Sorting) (pages others : List Entry) (n : ℕ) (u : World S)
      → IsNext S block n l
      → Reach S block (handling S pages others l) u
      → u.pending ≡ []
      → u.stages ≡ []
      → current_block S O u.ledger ≡ some block.block_num
  unfolding handling
  Reach-current O pages others n u next_ reached ended sent =
      let free = next_.fresh in
      elim (Reach-IsDue (handling S pages others l) u (free block.block_num (le_refl _)) reached
        (inl (refl, inserts_left-handling S pages others l))) [
          | inl (same, one) ↦
              absurd (let none_left : 0 ≡ 1 = rw (ended, sent) at one in ground arith)
          | inr there ↦ current_block-head S O block u.ledger (record {
            known = ground (arith, there block.block_num);
            last = λ m lt. ground (arith, there m, free m (omega arith));
          })
        ]
