-- ===== src/Server/RecordUpdates/Tests.antt =====
-- The theorems about updateRecords at a concrete ledger and request.
use dgc_database_tp.Prelude.{ℕ, List, [], ◌∷◌, none, some, ◌≡◌, refl, inr, ◌⊎◌, Each}
use dgc_database_tp.Rethink.Sorting.{by_insertion}
use dgc_database_tp.LedgerSync.Samples.{lists}
use dgc_database_tp.Server.Samples.{plain_sdk, noon, fish_table, fish, fish_table-once}
use dgc_database_tp.Server.Transactions.{Header}
use dgc_database_tp.Server.Reads.{current_block}
use dgc_database_tp.Server.Reads.Retrieve.{selected, retrieve_records}
use dgc_database_tp.Server.RecordCalls.{ended}
use dgc_database_tp.Server.RecordCalls.Samples.{
  catch, same_number, weighed_five, answers, catch-answers,
}
use dgc_database_tp.Server.RecordUpdates.{
  fetching, Slot, Task, Call, fetched, slots_of, submitted, fetch_ends, submission, start,
  retrieval_ends, task_step, Reach, begin, next,
}
use dgc_database_tp.Server.RecordUpdates.Sending.{typed}
use dgc_database_tp.Server.RecordUpdates.Deciding.{IsUpdated, update_records-IsUpdated}
use dgc_database_tp.Server.RecordUpdates.Racing.{CanSend, right_or_empty}

-- The retrieval ends, the table comes for the species of the first record, and its update is
-- submitted, with the weight missing.
abbrev cod : Task Header ℕ
cod = record { record_id = some "cod"; slots = slots_of fish; sent = none }

abbrev later : List (Task Header ℕ)
later = record { record_id = none; slots = slots_of fish; sent = none } ∷ []

abbrev at_work : List (Task Header ℕ) → Call Header ℕ
at_work tasks = record { retrieval = ended; tasks = tasks }

abbrev species : Slot ℕ
species = record { name = "species"; value = 1; update = fetching }

abbrev others : List (Slot ℕ)
others = slots_of (("color", 2) ∷ ("weight", 3) ∷ [])

abbrev cod_fetched : Task Header ℕ
cod_fetched = record cod { slots = fetched (some fish_table) species ∷ others }

abbrev cod_sent : Task Header ℕ
cod_sent = submitted plain_sdk "server" "a" fish_table (λ n. noon) cod_fetched

abbrev done : Call Header ℕ
done = at_work (cod_sent ∷ later)

done-Reach : Reach plain_sdk "server" "a" fish_table fish (some answers) 3 done
unfolding slots_of
done-Reach =
    next 2 (at_work (cod_fetched ∷ later)) done
      (next 1 (at_work (cod ∷ later)) (at_work (cod_fetched ∷ later))
        (next 0 (start plain_sdk "server" "a" fish_table fish (some answers))
          (at_work (cod ∷ later)) begin (retrieval_ends _ _ (some answers) refl refl))
        (task_step _ _ [] later cod cod_fetched refl
          (fetch_ends cod cod_fetched (some fish_table) [] others species (inr refl) refl refl refl)
          refl))
      (task_step _ _ [] later cod_fetched cod_sent refl
        (submission cod_fetched cod_sent (λ n. noon) refl refl) refl)

done-retrieved :
    Reach plain_sdk "server" "a" fish_table fish
      (retrieve_records same_number lists by_insertion weighed_five catch)
      3
      done
done-retrieved = rw catch-answers done-Reach

update_records-IsUpdated_example :
    (done.tasks ≡ [])
    ⊎ ((block : ℕ) × (current_block lists by_insertion catch ≡ some block)
        × Each
            (IsUpdated plain_sdk "server" "a" fish_table fish same_number lists by_insertion catch
              block weighed_five.query)
            (selected lists by_insertion catch block "fish")
            done.tasks)
update_records-IsUpdated_example =
    update_records-IsUpdated plain_sdk "server" "a" fish_table fish same_number lists by_insertion
      catch weighed_five 3 done fish_table-once done-retrieved

right_or_empty_example :
    CanSend plain_sdk "server" "a" fish_table fish (λ nx p. p ≡ typed fish_table nx.0 nx.1) answers
    × CanSend plain_sdk "server" "a" fish_table fish (λ nx p. p ≡ none) answers
right_or_empty_example =
    right_or_empty plain_sdk "server" "a" fish_table fish answers (λ n. noon) fish_table-once
