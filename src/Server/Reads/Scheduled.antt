-- ===== src/Server/Reads/Scheduled.antt =====
-- What the server reads after a block whose queries finished in any order: the steps of
-- LedgerSync/Deltas/Schedules.antt, which follow `handle` of ledger_sync/subscriber/deltas.js.
use mathlib.Core.List.Perm
use mathlib.Core.Path.{subst}
use dgc_database_tp.Prelude.{
  ℕ, ◌<◌, true, List, [], ◌∷◌, ◌++◌, map, filter, count, Every, ◌≡◌, ◌∙◌, refl, sym, ap, inl, inr,
  ◌⊎◌, Perm, Any, Every-imp, map-perm, count-append, Every-append, none, max_safe_integer, ◌==◌,
  arith,
}
use dgc_database_tp.Documents.{Block}
use dgc_database_tp.LedgerSync.Versions.{Version}
use dgc_database_tp.LedgerSync.Versions.Reading.{read_at, no_duplicate}
use dgc_database_tp.LedgerSync.Versions.Writing.{has_key}
use dgc_database_tp.LedgerSync.Versions.Writing.Kept.{
  IsUnwritten, IsWritten, write_all-IsWritten, write_all-cases,
}
use dgc_database_tp.LedgerSync.Ledger.{Stores, Ledger, IsSynced}
use dgc_database_tp.LedgerSync.State.Synced.{Entry, IsSynced-mono}
use dgc_database_tp.LedgerSync.Deltas.Schedules.{
  Job, write, insert_block, World, Step, send, execute, Reach, here, next, IsGood, Reach-IsGood,
}
use dgc_database_tp.Server.Reads.{get_table}
use dgc_database_tp.Server.Reads.Current.{filter-get_table}
use dgc_database_tp.Server.Reads.Handled.{Part}
use dgc_database_tp.Server.Reads.Executing.{
  docs_left, wrote, job_docs, IsTaken, perform-IsEffect, sent-docs, executed-IsTaken,
}

module _ (S : Stores) (part : Part S) (block : Block) where
  open part use {D, K, test, table, index, state}

  module _ (P : D → Type 0) (k : K) (before : List (Version D)) (total : ℕ) where
    abbrev named : List D → ℕ
    named ds = count (has_key ⦃e = test⦄ table index k) ds

    -- Nothing was written under the key and all its documents are left, or one was written.
    abbrev IsRead : Ledger S → List D → Type 0
    IsRead l ds =
        (IsUnwritten ⦃e = test⦄ table index k block.block_num before (state l) × (named ds ≡ total))
        ⊎ IsWritten ⦃e = test⦄ table index k block.block_num P (state l)

    abbrev IsOnWay : World S → Type 0
    IsOnWay w = Every P (docs_left S part block w) × IsRead w.ledger (docs_left S part block w)

    execute-IsOnWay :
        (w u : World S) (j : Job S)
        → block.block_num < max_safe_integer
        → state u.ledger ≡ wrote S part block (job_docs S part block j) w.ledger
        → IsTaken S part block j w u
        → IsOnWay w
        → IsOnWay u
    execute-IsOnWay w u j below effect taken (each, read) =
        let all_each = subst (Every P) taken.had each in
        let (first, later) =
          (Every-append P taken.before (job_docs S part block j ++ taken.after)).0 all_each in
        let (mine, rest) = (Every-append P (job_docs S part block j) taken.after).0 later in
        (
          subst (Every P) (sym taken.has)
              ((Every-append P taken.before taken.after).1 (first, rest)),
          elim read [
            | inr done ↦ inr (
                subst (IsWritten ⦃e = test⦄ table index k block.block_num P) (sym effect) (
                  write_all-IsWritten ⦃e = test⦄ table index k block.block_num P
                    (job_docs S part block j) (state w.ledger) below done))
            | inl (new, left) ↦
                elim (write_all-cases ⦃e = test⦄ table index k block.block_num P before
                  (job_docs S part block j) (state w.ledger) below mine new) [
                    | inr done ↦ inr (
                        subst (IsWritten ⦃e = test⦄ table index k block.block_num P) (sym effect)
                          done)
                    | inl (still, nought) ↦ inl (
                      subst (IsUnwritten ⦃e = test⦄ table index k block.block_num before)
                          (sym effect) still,
                      named_left w u j taken left nought,
                    )
                  ]
          ],
        )
      where
        named_left :
            (w u : World S) (j : Job S)
            → IsTaken S part block j w u
            → named (docs_left S part block w) ≡ total
            → named (job_docs S part block j) ≡ 0
            → named (docs_left S part block u) ≡ total
        named_left w u j taken left nought =
            let p = has_key ⦃e = test⦄ table index k in
            let had = ap named taken.had in
            let has = ap named taken.has in
            let one = count-append p taken.before (job_docs S part block j ++ taken.after) in
            let two = count-append p (job_docs S part block j) taken.after in
            let three = count-append p taken.before taken.after in omega arith

    Step-IsOnWay :
        (w u : World S)
        → block.block_num < max_safe_integer
        → IsGood S block w.ledger
        → Step S block w u
        → IsOnWay w
        → IsOnWay u
    Step-IsOnWay w u below good (send stage rest at made) h =
        let sent = record w { stages = rest; pending = w.pending ++ stage } in
        subst IsOnWay (sym made) (
          subst (λ ds. Every P ds × IsRead w.ledger ds)
            (sym (sent-docs S part block w stage rest at)) h)
    Step-IsOnWay w u below good (execute before_j j after_j l more at done made) h =
        let (effect, nothing) = perform-IsEffect S part block j w.ledger (l, more) good done in
        let taken = executed-IsTaken S part block w before_j after_j more j l at nothing in
        subst IsOnWay (sym made) (execute-IsOnWay w _ j below effect taken h)

    Reach-IsOnWay :
        (w u : World S)
        → block.block_num < max_safe_integer
        → IsGood S block w.ledger
        → Reach S block w u
        → IsOnWay w
        → IsOnWay u
    Reach-IsOnWay w _ below good here h = h
    Reach-IsOnWay w _ below good (next {u} {v} reached step) h =
        Step-IsOnWay u v below (Reach-IsGood S block below good reached) step
          (Reach-IsOnWay w u below good reached h)

-- The queries of `handle`, in their stages.
unfoldable pub handling : (S : Stores) → List Entry → List Entry → Ledger S → World S
handling S pages others l = record {
  ledger = l;
  stages = map write others ∷ map write pages ∷ (insert_block ∷ []) ∷ [];
  pending = [];
}

-- One of the documents.
abbrev pub IsAmong : {D : Type 0} → List D → D → Type 0
IsAmong ds d = Any (λ x. x ≡ d) ds

all-IsAmong : {D : Type 0} (ds : List D) → Every (IsAmong ds) ds
all-IsAmong [] = tt
all-IsAmong (d ∷ ds) =
    (inl refl, Every-imp (IsAmong ds) (IsAmong (d ∷ ds)) ds (λ x h. inr h) (all-IsAmong ds))

module _ (S : Stores) (part : Part S) (block : Block) where
  open part use {D, K, test, table, index, state, state-IsLedger}

  -- What the server finds under a key at the block.
  abbrev seen_by_key : K → Ledger S → List D
  seen_by_key k l =
      filter (λ d. ◌==◌ ⦃t = test⦄ (index d) k) (get_table table block.block_num (state l))

  -- For each kind of documents that a block writes by one key, on a database that is well formed
  -- at an earlier block and does not know the number of the block, which is below 2^53 - 1: in
  -- whatever order the queries of the block were executed, after all of them the server finds
  -- under a key at that block what it found there before, when the block has no document with the
  -- key, and otherwise one document alone, which has the key and is one of those of the block.
  pub Reach-read :
      (k : K) (pages others : List Entry) (n : ℕ) (l : Ledger S) (u : World S)
      → IsSynced S n l
      → n < block.block_num
      → block.block_num < max_safe_integer
      → S.blocks.get block.block_num l.blocks ≡ none
      → Reach S block (handling S pages others l) u
      → u.pending ≡ []
      → u.stages ≡ []
      → ((count
              (has_key ⦃e = test⦄ table index k)
              (docs_left S part block (handling S pages others l))
            ≡ 0)
          × Perm (seen_by_key k u.ledger) (seen_by_key k l))
        ⊎ ((d : D) × IsAmong (docs_left S part block (handling S pages others l)) d
            × ((◌==◌ ⦃t = test⦄ (index d) k) ≡ true)
            × Perm (seen_by_key k u.ledger) (d ∷ []))
  unfolding handling
  Reach-read k pages others n l u synced later below unknown reached ended sent =
      let w = handling S pages others l in
      let ds = docs_left S part block w in
      let b = block.block_num in
      let good : IsGood S block l = record {
        synced = IsSynced-mono S (omega arith) synced;
        extension = inl unknown;
      } in
      let first : IsUnwritten ⦃e = test⦄ table index k b
          (read_at ⦃e = test⦄ table index k b (state l)) (state l) =
        record {
          new =
              no_duplicate ⦃e = test⦄ table index k n b (state l) later (state-IsLedger n l synced);
          same = Perm.refl _;
        } in
      let on_way =
        Reach-IsOnWay S part block (IsAmong ds) k (read_at ⦃e = test⦄ table index k b (state l))
          (count (has_key ⦃e = test⦄ table index k) ds) w u below good reached
          (all-IsAmong ds, inl (first, refl)) in
      let shown = filter-get_table ⦃e = test⦄ table index k b in
      elim on_way.1 [
        | inl (still, left) ↦ inl (
          sym left ∙ rw (ended, sent) refl,
          rw (shown (state u.ledger), shown (state l)) (map-perm (λ v. v.doc) still.same),
        )
        | inr done ↦ inr (
          done.doc,
          done.holds,
          done.named,
          rw (shown (state u.ledger)) (map-perm (λ v. v.doc) done.found),
        )
      ]
