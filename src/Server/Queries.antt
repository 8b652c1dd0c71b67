-- ===== src/Server/Queries.antt =====
-- runQuery, queryTable, modifyTable, insertTable and updateTable of server/db/index.js, of which
-- ledger_sync/db/index.js has queryTable and modifyTable word for word: what they make of the answer
-- of the driver, which is an argument.
pub mod Reported
use dgc_database_tp.Prelude.{
  ℕ, String, Bool, true, false, ◌&&◌, List, Option, none, some, if◌then◌else◌, ltb, ◌==◌, ℕ_test,
}

-- The driver fails with a message, or has a result.
pub data Outcome {ℓ} (A : Type ℓ) : Type ℓ where
  failed : String → Outcome A
  answered : A → Outcome A

-- The errors that are thrown: the driver's own message, and those of the code, each with the name that
-- its text has.
pub data DbError : Type 0 where
  message unknown_error unable_to_insert unable_to_update : String → DbError

pub data Promised {ℓ} (A : Type ℓ) : Type ℓ where
  resolved : A → Promised A
  rejected : DbError → Promised A

-- The result of a query that modifies a table.
pub record Summary : Type 0 where
  pub errors : ℕ
  pub first_error : String
  pub inserted : ℕ
  pub replaced : ℕ
  pub unchanged : ℕ

unfoldable run_query {ℓ} : {A : Type ℓ} → Outcome A → Promised A
run_query (failed text) = rejected (message text)
run_query (answered result) = resolved result

-- `queryTable(table, query)`: `to_array` is what the cursor gives when it is read.
unfoldable query_table {ℓ κ} :
    {C : Type ℓ} {A : Type κ} → (C → Outcome (List A)) → Outcome C → Promised (List A)
query_table to_array (failed text) = rejected (message text)
query_table to_array (answered cursor) = run_query (to_array cursor)

-- `queryTable(table, query, false)`
abbrev query_results {ℓ} : {A : Type ℓ} → Outcome A → Promised A
query_results (failed text) = rejected (message text)
query_results (answered result) = resolved result

abbrev pub check_results : String → Promised (Option Summary) → Promised Summary
check_results table (rejected e) = rejected e
check_results table (resolved none) = rejected (unknown_error table)
check_results table (resolved (some results)) =
    if ltb 0 results.errors then rejected (message results.first_error) else resolved results

unfoldable pub modify_table : String → Outcome (Option Summary) → Promised Summary
modify_table table answer = check_results table (query_results answer)

abbrev pub check_inserted : String → Promised Summary → Promised Summary
check_inserted table (rejected e) = rejected e
check_inserted table (resolved results) =
    if results.inserted == 0 then rejected (unable_to_insert table) else resolved results

unfoldable pub insert_table : String → Outcome (Option Summary) → Promised Summary
insert_table table answer = check_inserted table (modify_table table answer)

abbrev pub check_updated : String → Promised Summary → Promised Summary
check_updated primary (rejected e) = rejected e
check_updated primary (resolved results) =
    if results.replaced == 0 && results.unchanged == 0
    then rejected (unable_to_update primary)
    else resolved results

unfoldable pub update_table : String → String → Outcome (Option Summary) → Promised Summary
update_table table primary answer = check_updated primary (modify_table table answer)
