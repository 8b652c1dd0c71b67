-- ===== src/Server/Reads/BlockTests.antt =====
-- The theorems about several blocks, and about the order of a block's queries, at a concrete ledger.
use dgc_database_tp.Prelude.{
  ℕ, count, ◌⊎◌, filter, ◌==◌, true, none, List, [], ◌∷◌, Perm, some, ◌≡◌, refl, text_test, arith,
}
use dgc_database_tp.Rethink.Sorting.{by_insertion}
use dgc_database_tp.Documents.{TableSchema, Proposal, credit_dgc, transfer_dgc, open_status}
use dgc_database_tp.Server.Credits.{credit_answers, transfer_answers}
use dgc_database_tp.Server.Credits.Answered.{acceptance, written_proposals, Reach-credit_answers}
use dgc_database_tp.Server.Transactions.Payloads.{Action}
use dgc_database_tp.LedgerSync.Samples.{car, lists, block_of, sample, sample-IsSynced}
use dgc_database_tp.LedgerSync.Ledger.{Ledger}
use dgc_database_tp.LedgerSync.State.Synced.{a_table, a_proposal}
use dgc_database_tp.Server.Reads.{get_table, current_block}
use dgc_database_tp.Server.Reads.Handled.{IsNext, table_part}
use dgc_database_tp.LedgerSync.State.Synced.{Entry, add_entry}
use dgc_database_tp.LedgerSync.State.{add_table}
use dgc_database_tp.LedgerSync.Blocks.{with_blocks}
use dgc_database_tp.LedgerSync.Blocks.Chain.{insert_new}
use dgc_database_tp.LedgerSync.Deltas.Schedules.{
  Job, write, insert_block, World, perform, send, execute, Reach, here, next,
}
use dgc_database_tp.Server.Reads.Executing.{docs_left}
use dgc_database_tp.Server.Reads.Scheduled.{handling, IsAmong, Reach-read}
use dgc_database_tp.Server.Reads.Following.{Delta, handle_all, handle_all-read}

sample-block : current_block lists by_insertion sample ≡ some 2
unfolding current_block
sample-block = refl

abbrev van : TableSchema
van = record { name = "van"; properties = [] }

-- Block 3 brings a van and a car, and block 4 brings the van again.
abbrev two_blocks : List Delta
two_blocks =
    record { pages = []; others = a_table van ∷ a_table car ∷ []; block = block_of 3 }
    ∷ record { pages = []; others = a_table van ∷ []; block = block_of 4 }
    ∷ []

handle_all-read_example :
    (l' : Ledger lists) × (handle_all lists two_blocks sample ≡ some l')
    × (current_block lists by_insertion l' ≡ some 4)
    × Perm (filter (λ d. d.name == "car") (get_table lists.tables 4 l'.tables)) (car ∷ [])
handle_all-read_example =
    handle_all-read lists by_insertion (table_part lists) "car" two_blocks 2 sample sample-IsSynced
      (λ m lt. ground arith) sample-block (omega arith, omega arith, (omega arith, omega arith, tt))

-- A van and a car, of which the car is written first.
abbrev both : List Entry
both = a_table van ∷ a_table car ∷ []

abbrev last_stages : List (List (Job lists))
last_stages = [] ∷ (insert_block ∷ []) ∷ []

abbrev sent_both : World lists
sent_both = record {
  ledger = sample;
  stages = last_stages;
  pending = write (a_table van) ∷ write (a_table car) ∷ [];
}

abbrev wrote_car : World lists
wrote_car = record sent_both {
  ledger = add_entry lists (a_table car) 3 sample;
  pending = write (a_table van) ∷ [];
}

abbrev wrote_both : World lists
wrote_both = record wrote_car {
  ledger = add_entry lists (a_table van) 3 wrote_car.ledger;
  pending = [];
}

abbrev sent_block : World lists
sent_block = record wrote_both { stages = []; pending = insert_block ∷ [] }

both-new : lists.blocks.get 3 wrote_both.ledger.blocks ≡ none
unfolding add_entry add_table
both-new = refl

abbrev new_blocks : lists.blocks.State
new_blocks = (insert_new lists (block_of 3) wrote_both.ledger both-new).0

abbrev all_done : World lists
all_done = record sent_block {
  ledger = with_blocks lists wrote_both.ledger new_blocks;
  pending = [];
}

all_done-Reach : Reach lists (block_of 3) (handling lists [] both sample) all_done
unfolding handling perform
all_done-Reach =
    next
      (next
        (next
          (next
            (next (next here (send _ last_stages refl refl))
              (execute (write (a_table van) ∷ []) (write (a_table car)) [] _ [] refl refl refl))
            (execute [] (write (a_table van)) [] _ [] refl refl refl))
          (send [] ((insert_block ∷ []) ∷ []) refl refl))
        (send (insert_block ∷ []) [] refl refl))
      (execute [] insert_block [] all_done.ledger [] refl
        (rw ((insert_new lists (block_of 3) wrote_both.ledger both-new).1) refl) refl)

abbrev tables_at : Ledger lists → List TableSchema
tables_at l = filter (λ d. d.name == "car") (get_table lists.tables 3 l.tables)

Reach-read_example :
    ((count
          (λ d. d.name == "car")
          (docs_left lists (table_part lists) (block_of 3) (handling lists [] both sample))
        ≡ 0)
      × Perm (tables_at all_done.ledger) (tables_at sample))
    ⊎ ((d : TableSchema) × IsAmong
          (docs_left lists (table_part lists) (block_of 3) (handling lists [] both sample))
          d
        × ((d.name == "car") ≡ true)
        × Perm (tables_at all_done.ledger) (d ∷ []))
Reach-read_example =
    Reach-read lists (table_part lists) (block_of 3) "car" [] both 2 sample all_done sample-IsSynced
      (omega arith) (omega arith) refl all_done-Reach refl refl

abbrev coins : Proposal
coins = record {
  proposal_id = "transferDGC1";
  role = transfer_dgc;
  status = open_status;
  issuing_participant = "02a";
  receiving_participant = "03b";
  record_id = "";
  properties = [];
}

third-IsNext : IsNext lists (block_of 3) 2 sample
third-IsNext = record { later = omega arith; below = omega arith; fresh = λ m le. ground arith }

abbrev transfer : List Entry
transfer = a_proposal coins ∷ []

-- Both queries of the block are sent, and its own is executed first.
abbrev sent_transfer : World lists
sent_transfer = record {
  ledger = sample;
  stages = [];
  pending = write (a_proposal coins) ∷ insert_block ∷ [];
}

sample-new : lists.blocks.get 3 sample.blocks ≡ none
sample-new = refl

abbrev early_block : World lists
early_block = record sent_transfer {
  ledger = with_blocks lists sample ((insert_new lists (block_of 3) sample sample-new).0);
  pending = write (a_proposal coins) ∷ [];
}

abbrev transferred : World lists
transferred = record early_block {
  ledger = add_entry lists (a_proposal coins) 3 early_block.ledger;
  pending = [];
}

transferred-Reach : Reach lists (block_of 3) (handling lists [] transfer sample) transferred
unfolding handling perform
transferred-Reach =
    next
      (next
        (next
          (next (next here (send _ last_stages refl refl))
            (send [] ((insert_block ∷ []) ∷ []) refl refl))
          (send (insert_block ∷ []) [] refl refl))
        (execute (write (a_proposal coins) ∷ []) insert_block [] early_block.ledger [] refl
          (rw ((insert_new lists (block_of 3) sample sample-new).1) refl) refl))
      (execute [] (write (a_proposal coins)) [] _ [] refl refl refl)

Reach-credit_answers_example :
    (p : Proposal) × IsAmong (written_proposals lists [] transfer (block_of 3) sample) p
    × ((p.proposal_id == "transferDGC1") ≡ true)
    × ((credits : List (Action ℕ)) × ((transfers : List (Action ℕ)) × (credit_answers
              (λ q. 5)
              lists
              by_insertion
              "transferDGC1"
              transferred.ledger
            ≡ some credits)
          × (transfer_answers (λ q. 5) lists by_insertion "transferDGC1" transferred.ledger
              ≡ some transfers)
          × Perm credits (acceptance (λ q. 5) credit_dgc p.issuing_participant p ∷ [])
          × Perm transfers (acceptance (λ q. 5) transfer_dgc p.receiving_participant p ∷ [])))
unfolding handling
Reach-credit_answers_example =
    Reach-credit_answers lists by_insertion (λ q. 5) "transferDGC1" [] transfer (block_of 3) 2
      sample transferred sample-IsSynced third-IsNext (omega arith) transferred-Reach refl refl
