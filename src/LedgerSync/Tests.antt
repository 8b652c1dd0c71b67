-- ===== src/LedgerSync/Tests.antt =====
-- The theorems about the ledger sync at concrete tables, and runs of its functions.
use mathlib.Core.Option
use dgc_database_tp.Prelude.{
  false, ℕ, ◌≤◌, ◌<◌, true, List, [], ◌∷◌, ◌++◌, none, some, ◌≡◌, refl, inl, count, Perm, text_test,
  ℕ_test, pair_test, arith,
}
use dgc_database_tp.Documents.{TableSchema, Block}
use dgc_database_tp.LedgerSync.Versions.{Version, version_of, is_open_at, add_block_state}
use dgc_database_tp.LedgerSync.Versions.Adding.{IsLedger}
use dgc_database_tp.LedgerSync.Versions.Reading.{read_at, add_block_state-read_at}
use dgc_database_tp.LedgerSync.Fork.{remove_forked_docs}
use dgc_database_tp.LedgerSync.Fork.Rollback.{rollback_restores, rollback_opens_history}
use dgc_database_tp.LedgerSync.Ledger.{Ledger, IsSynced, table_index}
use dgc_database_tp.LedgerSync.State.Synced.{a_table, add_entry, add_entry-IsSynced, IsSynced-mono}
use dgc_database_tp.LedgerSync.Blocks
use dgc_database_tp.LedgerSync.Blocks.Chain.{IsFork, IsResolved, IsRolledBack, insert-IsResolved}
use dgc_database_tp.LedgerSync.Deltas.{handle}
use dgc_database_tp.LedgerSync.Deltas.Schedules.{
  handle_fork_loses_changes, World, write, insert_block, perform, send, execute, IsGood, Reach,
  here, next, Reach-IsGood,
}
use dgc_database_tp.LedgerSync.Queue.{Event, added, resolved, rejected, new_queue, step, run}
use dgc_database_tp.LedgerSync.Queue.Draining.{ends, run_drains}
use dgc_database_tp.LedgerSync.Queue.Order.{run-order, run_stuck}
use dgc_database_tp.LedgerSync.Addresses.{
  char_codes, get_proto_name, property_page, page_num, page_num-range,
}
use dgc_database_tp.Documents.Structs.{
  Scalars, PropertyValues, value, cons, nil, boolean, string, pos, of_boolean, xform_struct,
  surface, said, get_field, set_field, get_path, property_at, get_path-xform_struct, struct,
}
use dgc_database_tp.LedgerSync.Samples.{
  car, schemas, two_versions, two_versions-IsLedger, lists, block_of, sample, sample-IsSynced,
}

empty-IsLedger : IsLedger schemas table_index 0 []
empty-IsLedger = record { bounded = refl; one_open = λ k. omega arith }

add_block_state-read_at_example :
    Perm
      (read_at schemas table_index "car" 4
        (add_block_state schemas table_index "car" car 3 two_versions))
      (version_of car 3 ∷ [])
add_block_state-read_at_example =
    add_block_state-read_at schemas table_index car "car" 2 3 4 two_versions two_versions-IsLedger
      (omega arith) (omega arith) (omega arith)

-- Two earlier versions, and both are open after the fork of block 3 is removed.
rollback_opens_history_example :
    count
      (is_open_at table_index "car")
      (remove_forked_docs schemas 3 (add_block_state schemas table_index "car" car 3 two_versions))
    ≡ 2
rollback_opens_history_example =
    rollback_opens_history schemas table_index car 2 3 two_versions two_versions-IsLedger
      (omega arith) (omega arith)

rollback_run :
    remove_forked_docs schemas 3 (add_block_state schemas table_index "car" car 3 two_versions)
    ≡ version_of car 2 ∷ version_of car 1 ∷ []
unfolding remove_forked_docs add_block_state
rollback_run = refl

abbrev one_version : List (Version TableSchema)
one_version = version_of car 2 ∷ []

one_version-IsLedger : IsLedger schemas table_index 2 one_version
one_version-IsLedger = record { bounded = refl; one_open = λ k. ground arith }

rollback_restores_example :
    Perm
      (remove_forked_docs schemas 3 (add_block_state schemas table_index "car" car 3 one_version))
      one_version
rollback_restores_example =
    rollback_restores schemas table_index car 2 3 one_version one_version-IsLedger (omega arith)
      refl

abbrev fork_of : ℕ → Block
fork_of n = record { block_num = n; block_id = "f"; state_root_hash = "" }

add_entry-IsSynced_example : IsSynced lists 3 (add_entry lists (a_table car) 3 sample)
add_entry-IsSynced_example =
    add_entry-IsSynced lists (a_table car) 2 3 sample (omega arith) (omega arith) sample-IsSynced

sample-IsFork : IsFork lists (fork_of 2) sample
sample-IsFork = record { found = block_of 2; known = refl; other = refl }

insert-IsResolved_example :
    (l : Ledger lists) × (Blocks.insert lists (fork_of 2) sample ≡ some l)
    × IsResolved lists (fork_of 2) sample l
insert-IsResolved_example = insert-IsResolved lists (fork_of 2) sample sample-IsFork

handle_fork_loses_changes_example :
    (l : Ledger lists) × (handle lists ([], a_table car ∷ []) (fork_of 2) sample ≡ some l)
    × IsRolledBack lists 2 l
handle_fork_loses_changes_example =
    handle_fork_loses_changes lists [] (a_table car ∷ []) (fork_of 2) sample sample-IsFork

abbrev pending_world : World lists
pending_world = record {
  ledger = sample;
  stages = (write (a_table car) ∷ []) ∷ (insert_block ∷ []) ∷ [];
  pending = [];
}

abbrev sent_world : World lists
sent_world = record {
  ledger = sample;
  stages = (insert_block ∷ []) ∷ [];
  pending = write (a_table car) ∷ [];
}

sample-IsGood : IsGood lists (block_of 3) sample
sample-IsGood = record {
  synced = IsSynced-mono lists (omega arith) sample-IsSynced;
  extension = inl refl;
}

abbrev written_world : World lists
written_world = record {
  ledger = add_entry lists (a_table car) 3 sample;
  stages = (insert_block ∷ []) ∷ [];
  pending = [];
}

written_world-Reach : Reach lists (block_of 3) pending_world written_world
unfolding perform
written_world-Reach =
    next (next here (send (write (a_table car) ∷ []) ((insert_block ∷ []) ∷ []) refl refl)) (
      execute [] (write (a_table car)) [] (add_entry lists (a_table car) 3 sample) [] refl refl
        refl)

Reach-IsGood_example : IsGood lists (block_of 3) written_world.ledger
Reach-IsGood_example =
    Reach-IsGood lists (block_of 3) {w = pending_world} {u = written_world} (omega arith)
      sample-IsGood written_world-Reach

-- The first of two functions is running when its promise is rejected.
abbrev first_runs : List (Event ℕ)
first_runs = added 7 ∷ added 8 ∷ []

run_stuck_example :
    (run (first_runs ++ rejected ∷ resolved ∷ added 9 ∷ []) new_queue).started
    ≡ (run first_runs new_queue).started
unfolding run step
run_stuck_example = run_stuck first_runs (resolved ∷ added 9 ∷ []) 7 refl

abbrev three_events : List (Event ℕ)
three_events = added 7 ∷ added 8 ∷ resolved ∷ resolved ∷ []

run-order_example :
    (run three_events new_queue).started ++ (run three_events new_queue).queue ≡ 7 ∷ 8 ∷ []
run-order_example = run-order three_events

-- 7 runs and 8 waits; then two promises resolve
run_drains_example :
    ((run {A = ℕ} (added 7 ∷ added 8 ∷ ends 2) new_queue).running ≡ false)
    × ((run {A = ℕ} (added 7 ∷ added 8 ∷ ends 2) new_queue).started ≡ 7 ∷ 8 ∷ [])
unfolding run step
run_drains_example = run_drains (added 7 ∷ added 8 ∷ []) 2 tt (omega arith)

abbrev page_address : List ℕ
page_address = char_codes "3bfc81ea00ff"

page_address-page : get_proto_name page_address ≡ some property_page
unfolding get_proto_name
page_address-page = refl

page_num-range_example : (1 ≤ page_num page_address) × (page_num page_address < 65536)
page_num-range_example = page_num-range page_address b'0' b'0' b'f' b'f' refl refl page_address-page

page_num_run : page_num page_address ≡ 255
unfolding page_num
page_num_run = refl

abbrev scalars : Scalars
scalars = record {
  bytes_value = "";
  boolean_value = true;
  number_value = pos 4;
  string_value = "red";
  location_value = none;
}

-- a struct that names the color twice
abbrev colors : PropertyValues
colors =
    cons (value "color" string scalars "" nil) (cons (value "color" boolean scalars "" nil) nil)

-- a struct in which a struct of the name wins over an earlier text
abbrev car_body : PropertyValues
car_body =
    cons (value "body" string scalars "" nil) (cons (value "body" struct scalars "" colors) nil)

get_path-xform_struct_example :
    Option.map surface (get_path "body" ("color" ∷ []) (xform_struct car_body))
    ≡ Option.map said (property_at "body" ("color" ∷ []) car_body)
get_path-xform_struct_example = get_path-xform_struct "body" ("color" ∷ []) car_body

get_path_run : get_path "body" ("color" ∷ []) (xform_struct car_body) ≡ some (of_boolean true)
unfolding get_path xform_struct get_field set_field
get_path_run = refl
