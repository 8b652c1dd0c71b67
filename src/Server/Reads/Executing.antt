-- ===== src/Server/Reads/Executing.antt =====
-- The documents that the queries of a block write, one query at a time: `perform` of
-- LedgerSync/Deltas/Schedules.antt at a table that the server reads.
use mathlib.Core.List.{append_assoc, append-nil}
use mathlib.Core.Path.{subst}
use mathlib.Core.Option.{some-injective}
use dgc_database_tp.Prelude.{
  List, [], ◌∷◌, ◌++◌, ◌≡◌, ◌∙◌, refl, sym, ap, inl, inr, Option-cases, none, some,
}
use dgc_database_tp.Documents.{Block}
use dgc_database_tp.LedgerSync.Versions.{write_all}
use dgc_database_tp.LedgerSync.Ledger.{Stores, Ledger}
use dgc_database_tp.LedgerSync.State.Synced.{Entry, a_page, add_entry}
use dgc_database_tp.LedgerSync.Blocks
use dgc_database_tp.LedgerSync.Blocks.{with_blocks}
use dgc_database_tp.LedgerSync.Blocks.Chain.{insert_known, insert_new}
use dgc_database_tp.LedgerSync.Deltas.{add_all}
use dgc_database_tp.LedgerSync.Deltas.Schedules.{
  Job, write, store, insert_block, World, perform, IsGood,
}
use dgc_database_tp.Server.Reads.Handled.{Part}

module _ (S : Stores) (part : Part S) (block : Block) where
  open part use {
    D, K, test, table, index, state, docs_of, state-add_all, state-with_blocks, state-store_page,
    docs_of-page,
  }

  -- The documents of a kind that queries still write; a page's second query writes none of them.
  abbrev pub job_docs : Job S → List D
  job_docs (write x) = docs_of (x ∷ [])
  job_docs (store p page) = []
  job_docs insert_block = []

  abbrev pub jobs_docs : List (Job S) → List D
  jobs_docs [] = []
  jobs_docs (j ∷ js) = job_docs j ++ jobs_docs js

  abbrev pub stages_docs : List (List (Job S)) → List D
  stages_docs [] = []
  stages_docs (js ∷ stages) = jobs_docs js ++ stages_docs stages

  abbrev pub docs_left : World S → List D
  docs_left w = jobs_docs w.pending ++ stages_docs w.stages

  abbrev pub wrote : List D → Ledger S → table.State
  wrote ds l = write_all ⦃e = test⦄ table index ds block.block_num (state l)

  wrote-none : (l : Ledger S) → wrote [] l ≡ state l
  unfolding write_all
  wrote-none l = refl

  insert-state :
      (l l' : Ledger S) → IsGood S block l → Blocks.insert S block l ≡ some l' → state l' ≡ state l
  insert-state l l' good done = elim good.extension [
    | inl unknown ↦
        let (bs, inserted, get) = insert_new S block l unknown in
        let p : with_blocks S l bs ≡ l' = some-injective _ _ (sym inserted ∙ done) in
        rw⁻¹ p (state-with_blocks l bs)
    | inr (found, known, same) ↦
        let p : l ≡ l' =
          some-injective _ _ (sym (insert_known S block found l known same) ∙ done) in
        rw⁻¹ p refl
  ]

  -- What the execution of a query does to the table: the writes of its documents.
  abbrev pub IsEffect : Job S → Ledger S → Ledger S × List (Job S) → Type 0
  IsEffect j l r = (state r.0 ≡ wrote (job_docs j) l) × (jobs_docs r.1 ≡ [])

  write-state :
      (x : Entry) (l : Ledger S)
      → state (add_entry S x block.block_num l) ≡ wrote (docs_of (x ∷ [])) l
  unfolding add_all
  write-state x l = state-add_all (x ∷ []) block.block_num l

  pub perform-IsEffect :
      (j : Job S) (l : Ledger S) (r : Ledger S × List (Job S))
      → IsGood S block l
      → perform S block j l ≡ some r
      → IsEffect j l r
  unfolding perform
  perform-IsEffect (write (a_page p)) l r good done =
      subst (IsEffect (write (a_page p)) l) (some-injective _ _ done)
        (sym (ap (λ ds. wrote ds l) (docs_of-page p) ∙ wrote-none l), refl)
  perform-IsEffect (store p page) l r good done =
      subst (IsEffect (store p page) l) (some-injective _ _ done)
        (state-store_page p page block.block_num l ∙ sym (wrote-none l), refl)
  perform-IsEffect insert_block l r good done = elim (Option-cases (Blocks.insert S block l)) [
    | inl fails ↦ absurd (let e : none ≡ some r = rw fails at done in cc)
    | inr (l', inserted) ↦
        let e : some (l', []) ≡ some r = rw inserted at done in
        subst (IsEffect insert_block l) (some-injective _ _ e)
          (insert-state l l' good inserted ∙ sym (wrote-none l), refl)
  ]
  perform-IsEffect (write x) l r good done =
      subst (IsEffect (write x) l) (some-injective _ _ done) (write-state x l, refl)

  jobs_docs-append : (xs ys : List (Job S)) → jobs_docs (xs ++ ys) ≡ jobs_docs xs ++ jobs_docs ys
  jobs_docs-append [] ys = refl
  jobs_docs-append (j ∷ xs) ys =
      ap (λ ds. job_docs j ++ ds) (jobs_docs-append xs ys)
      ∙ sym (append_assoc (job_docs j) (jobs_docs xs) (jobs_docs ys))

  pub sent-docs :
      (w : World S) (stage : List (Job S)) (rest : List (List (Job S)))
      → w.stages ≡ stage ∷ rest
      → docs_left (record w { stages = rest; pending = w.pending ++ stage }) ≡ docs_left w
  sent-docs w stage rest at =
      rw (at, jobs_docs-append w.pending stage)
        (append_assoc (jobs_docs w.pending) (jobs_docs stage) (stages_docs rest))

  -- The documents that are left before and after a query is executed.
  pub record IsTaken (j : Job S) (w u : World S) : Type 0 where
    pub before : List D
    pub after : List D
    pub had : docs_left w ≡ before ++ (job_docs j ++ after)
    pub has : docs_left u ≡ before ++ after

  pub executed-IsTaken :
      (w : World S) (before after more : List (Job S)) (j : Job S) (l : Ledger S)
      → w.pending ≡ before ++ j ∷ after
      → jobs_docs more ≡ []
      → IsTaken j w (record w { ledger = l; pending = before ++ (after ++ more) })
  executed-IsTaken w before after more j l at nothing = record {
    before = jobs_docs before;
    after = jobs_docs after ++ stages_docs w.stages;
    had =
        rw
          (
            at,
            jobs_docs-append before (j ∷ after),
            append_assoc (jobs_docs before) (job_docs j ++ jobs_docs after) (stages_docs w.stages),
            append_assoc (job_docs j) (jobs_docs after) (stages_docs w.stages),
          )
          refl;
    has =
        rw
          (
            jobs_docs-append before (after ++ more),
            jobs_docs-append after more,
            nothing,
            append-nil (jobs_docs after),
            append_assoc (jobs_docs before) (jobs_docs after) (stages_docs w.stages),
          )
          refl;
  }
