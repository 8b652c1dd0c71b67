-- ===== src/Server/Credits/Answered.antt =====
-- The answers that a credit or a transfer is given, before and after the queries of its block.
use mathlib.Core.Option
use dgc_database_tp.Prelude.{
  none, true, count, ◌<◌, inl, inr, arith, ℕ, String, List, [], ◌∷◌, map, filter, Perm, map-perm,
  some, ◌≡◌, ◌∙◌, ap, ◌==◌, text_test,
}
use dgc_database_tp.Rethink.Sorting.{Sorting}
use dgc_database_tp.Documents.{Proposal, Block, Role, credit_dgc, transfer_dgc}
use dgc_database_tp.LedgerSync.Versions.Reading.{read_at}
use dgc_database_tp.LedgerSync.Ledger.{Stores, Ledger, IsSynced, proposal_index}
use dgc_database_tp.LedgerSync.State.Synced.{Entry}
use dgc_database_tp.Server.Transactions.Payloads.{Action, answer_proposal, accept}
use dgc_database_tp.Server.Reads.{get_table, current_block}
use dgc_database_tp.Server.Reads.Current.{query_at, filter-get_table}
use dgc_database_tp.Server.Reads.Handled.{IsNext}
use dgc_database_tp.Server.Reads.Proposals.{retrieve_proposals}
use dgc_database_tp.Server.Reads.Proposals.Retrieved.{proposal_part}
use dgc_database_tp.Server.Reads.Executing.{docs_left}
use dgc_database_tp.Server.Reads.Scheduled.{handling, IsAmong, Reach-read}
use dgc_database_tp.Server.Reads.Inserted.{Reach-current}
use dgc_database_tp.LedgerSync.Deltas.Schedules.{World, Reach}
use native.Mathlib.Nat.{le_refl}
use dgc_database_tp.Server.Credits.{
  credit_answer, credit_answers, transfer_answer, transfer_answers,
}

-- The acceptance of a proposal by its id, for a receiver and with its amount.
abbrev pub acceptance : {D : Type 0} → (Proposal → D) → Role → String → Proposal → Action D
acceptance amount role receiver p = answer_proposal (record {
  response = accept;
  role = role;
  proposal_id = p.proposal_id;
  receiving_participant = some receiver;
  record_id = none;
  properties = none;
  dg_coin_amount = some (amount p);
  exchanges = none;
})

-- The proposals that the queries of a block write.
abbrev pub written_proposals :
    (S : Stores) → List Entry → List Entry → Block → Ledger S → List Proposal
written_proposals S pages others block l =
    docs_left S (proposal_part S) block (handling S pages others l)

module _ {D : Type 0} (S : Stores) (O : Sorting) (amount : Proposal → D) where
  -- On a well formed database, for the next block, below 2^53 - 1, and an id that some proposal of
  -- the block has: in whatever order the queries of the block were executed, after all of them
  -- applyDGCoinCredit and transferDGCoinProposal, when they look up the id at the current block,
  -- each make exactly one answer, the acceptance of one and the same of the block's proposals with
  -- the id: the credit for its issuer and the transfer for its receiver, with its amount.
  pub Reach-credit_answers :
      (proposal_id : String) (pages others : List Entry) (block : Block) (n : ℕ) (l : Ledger S)
      (u : World S)
      → IsSynced S n l
      → IsNext S block n l
      → 0 < count (λ p. p.proposal_id == proposal_id) (written_proposals S pages others block l)
      → Reach S block (handling S pages others l) u
      → u.pending ≡ []
      → u.stages ≡ []
      → (p : Proposal) × IsAmong (written_proposals S pages others block l) p
        × ((p.proposal_id == proposal_id) ≡ true)
        × ((credits : List (Action D)) × ((transfers : List (Action D)) × (credit_answers amount S O
                  proposal_id u.ledger
                ≡ some credits)
              × (transfer_answers amount S O proposal_id u.ledger ≡ some transfers)
              × Perm credits (acceptance amount credit_dgc p.issuing_participant p ∷ [])
              × Perm transfers (acceptance amount transfer_dgc p.receiving_participant p ∷ [])))
  unfolding credit_answers transfer_answers retrieve_proposals
  Reach-credit_answers proposal_id pages others block n l u synced next some_one reached ended
        sent =
      let q = λ (p : Proposal). p.proposal_id == proposal_id in
      let found = filter q (get_table S.proposals block.block_num u.ledger.proposals) in
      let now = Reach-current S block l O pages others n u next reached ended sent in
      let retrieved : retrieve_proposals S O q u.ledger ≡ some found =
        query_at S O (λ b. some (filter q (get_table S.proposals b u.ledger.proposals))) u.ledger
          now in
      elim (Reach-read S (proposal_part S) block proposal_id pages others n l u synced next.later
        next.below (next.fresh block.block_num (le_refl _)) reached ended sent) [
          | inl (nothing, same) ↦ absurd (let e = nothing in omega arith)
          | inr (p, among, named, only) ↦ (
            p,
            among,
            named,
            (
              map (credit_answer amount) found,
              (
                map (transfer_answer amount) found,
                ap (Option.map (map (credit_answer amount))) retrieved,
                ap (Option.map (map (transfer_answer amount))) retrieved,
                map-perm (credit_answer amount) only,
                map-perm (transfer_answer amount) only,
              ),
            ),
          )
        ]

  -- Nothing is answered while the ledger sync has no version of the proposal at the current block.
  unread-credit_answers :
      (l : Ledger S) (block : ℕ) (proposal_id : String)
      → current_block S O l ≡ some block
      → read_at S.proposals proposal_index proposal_id block l.proposals ≡ []
      → (credit_answers amount S O proposal_id l ≡ some [])
        × (transfer_answers amount S O proposal_id l ≡ some [])
  unfolding credit_answers transfer_answers retrieve_proposals
  unread-credit_answers l block proposal_id now unread =
      let nothing : retrieve_proposals S O (λ p. p.proposal_id == proposal_id) l ≡ some [] =
        query_at S O
          (λ b.
            some (filter (λ p. p.proposal_id == proposal_id) (get_table S.proposals b l.proposals)))
          l now
        ∙ ap some (
            filter-get_table S.proposals proposal_index proposal_id block l.proposals
            ∙ ap (map (λ v. v.doc)) unread) in
      (
        ap (Option.map (map (credit_answer amount))) nothing,
        ap (Option.map (map (transfer_answer amount))) nothing,
      )
