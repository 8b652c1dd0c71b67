-- ===== src/Server/RecordUpdates.antt =====
-- updateRecords of server/transaction/records.js. For each record that is retrieved it starts an
-- update, which sends one transaction for each name of the data. The properties of these are objects
-- `{}` that the promises of tables.fetch fill later, and that the transactions are made of as they are
-- when the update is submitted; nothing waits for those promises, so that every promise is a step.
-- An update whose chain is rejected, as when createTxn throws for a key that is none, makes no step any
-- more, so that it never has its submission.
pub mod Sending
pub mod Deciding
pub mod Racing
mod Tests
use mathlib.Core.Option
use dgc_database_tp.Prelude.{
  ℕ, ◌+◌, String, List, [], ◌∷◌, ◌++◌, map, Option, none, some, ◌≡◌, ◌⊎◌, if◌then◌else◌, ◌==◌,
  text_test,
}
use dgc_database_tp.Server.Properties.{Written, write_property}
use dgc_database_tp.Server.Transactions.{Sdk, Moment, Transaction, Request, create_txns}
use dgc_database_tp.Server.Transactions.Payloads.{update_properties, property_message}
use dgc_database_tp.Server.Reads.Retrieve.{Answer}
use dgc_database_tp.Server.RecordCalls.{Retrieval, waiting, ended, record_id_of, encoded}

-- The loop over `Object.keys(table.properties)`, each key with its data type, on `property`. The
-- keys of an object differ, so that at most one of them is the name.
unfoldable pub fill_property :
    {V : Type 0} → List (String × String) → String → V → Option (Written V) → Option (Written V)
fill_property [] name x property = property
fill_property ((key, data_type) ∷ table) name x property =
    fill_property table name x
      (if key == name then some (write_property data_type name x) else property)

-- `property` while the table is fetched, and after that; `none` is `{}`.
pub data Filling (V : Type 0) : Type 0 where
  fetching : Filling V
  filled : Option (Written V) → Filling V

-- An element of `records`, less the private key, which is that of the call; its record id is that of
-- the update.
pub record Slot (V : Type 0) : Type 0 where
  pub name : String
  pub value : V
  pub update : Filling V

-- The update of one record: `sent` is what submitTxns was given.
pub record Task (Bytes V : Type 0) : Type 0 where
  pub record_id : Option String
  pub slots : List (Slot V)
  pub sent : Option (List (Transaction Bytes))

pub record Call (Bytes V : Type 0) : Type 0 where
  pub retrieval : Retrieval
  pub tasks : List (Task Bytes V)

module _ {V : Type 0} where
  abbrev pub property_of : Filling V → Option (Written V)
  property_of fetching = none
  property_of (filled property) = property

  -- The end of tables.fetch, with a table or, when it fails, with none.
  unfoldable pub fetched : Option (List (String × String)) → Slot V → Slot V
  fetched none s = record s { update = filled none }
  fetched (some table) s = record s { update = filled (fill_property table s.name s.value none) }

  -- `Object.keys(params.data).map(...)`
  unfoldable pub slots_of : List (String × V) → List (Slot V)
  slots_of [] = []
  slots_of ((name, x) ∷ data_) =
      record { name = name; value = x; update = fetching } ∷ slots_of data_

  -- `createUpdate`, at the `n`-th call of createTxn
  unfoldable pub create_update : String → Option String → (ℕ → Moment) → ℕ → Slot V → Request V
  create_update private_key record_id now n s = record {
    private_key = private_key;
    action = update_properties (encoded record_id) (property_message (property_of s.update) ∷ []);
    now = now n;
  }

  unfoldable pub updates_of :
      String → Option String → (ℕ → Moment) → ℕ → List (Slot V) → List (Request V)
  updates_of private_key record_id now n [] = []
  updates_of private_key record_id now n (s ∷ slots) =
      create_update private_key record_id now n s
      ∷ updates_of private_key record_id now (n + 1) slots

-- `table` is what tables.fetch finds, where it does not fail.
module _ {Bytes V : Type 0} (K : Sdk Bytes V) (batcher private_key : String)
    (table : List (String × String)) where
  -- The last step of `update`.
  unfoldable pub submitted : (ℕ → Moment) → Task Bytes V → Task Bytes V
  submitted now t = record t {
    sent = some (create_txns K batcher [] (updates_of private_key t.record_id now 0 t.slots));
  }

  pub data TaskStep : Task Bytes V → Task Bytes V → Type 0 where
    fetch_ends :
        (t t' : Task Bytes V) (answer : Option (List (String × String)))
        (before after : List (Slot V)) (s : Slot V)
        → (answer ≡ none) ⊎ (answer ≡ some table)
        → t.slots ≡ before ++ s ∷ after
        → s.update ≡ fetching
        → t' ≡ record t { slots = before ++ fetched answer s ∷ after }
        → TaskStep t t'
    submission :
        (t t' : Task Bytes V) (now : ℕ → Moment)
        → t.sent ≡ none
        → t' ≡ submitted now t
        → TaskStep t t'

  module _ (data_ : List (String × V)) where
    abbrev pub task_of : Answer → Task Bytes V
    task_of a = record { record_id = record_id_of a; slots = slots_of data_; sent = none }

    abbrev pub tasks_of : Option (List Answer) → List (Task Bytes V)
    tasks_of none = []
    tasks_of (some answers) = map task_of answers

    abbrev pub start : Option (List Answer) → Call Bytes V
    start result = record { retrieval = waiting result; tasks = [] }

    pub data Step : Call Bytes V → Call Bytes V → Type 0 where
      retrieval_ends :
          (c c' : Call Bytes V) (result : Option (List Answer))
          → c.retrieval ≡ waiting result
          → c' ≡ record { retrieval = ended; tasks = tasks_of result }
          → Step c c'
      task_step :
          (c c' : Call Bytes V) (before after : List (Task Bytes V)) (t t' : Task Bytes V)
          → c.tasks ≡ before ++ t ∷ after
          → TaskStep t t'
          → c' ≡ record c { tasks = before ++ t' ∷ after }
          → Step c c'

    -- The states that a call reaches in a number of steps.
    pub data Reach (result : Option (List Answer)) : ℕ → Call Bytes V → Type 0 where
      begin : Reach result 0 (start result)
      next : (n : ℕ) (c c' : Call Bytes V) → Reach result n c → Step c c' → Reach result (n + 1) c'
