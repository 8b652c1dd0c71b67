-- ===== src/Server/RecordUpdates/Deciding.antt =====
-- updateRecords of server/transaction/records.js on what retrieveRecords of server/db/records.js
-- answers.
use dgc_database_tp.Prelude.{
  ℕ, String, Bool, List, [], Option, none, some, ◌≡◌, inl, inr, ◌⊎◌, Every, Any, Each, Each-compose,
}
use mathlib.Core.Path.{subst}
use dgc_database_tp.Rethink.Sorting.{Sorting}
use dgc_database_tp.Documents.{Record}
use dgc_database_tp.Documents.Structs.{Value}
use dgc_database_tp.LedgerSync.Ledger.{Stores, Ledger}
use dgc_database_tp.Server.Transactions.{Sdk}
use dgc_database_tp.Server.Reads.{current_block}
use dgc_database_tp.Server.Reads.Retrieve.{
  Query, no_terms, terms, Params, Answer, unmatched, retrieved, selected, retrieve_records,
}
use dgc_database_tp.Server.Reads.Retrieve.Answers.{
  HasMatch, NoMatch, IsAnswer, retrieve_records-IsAnswer,
}
use dgc_database_tp.Server.RecordUpdates.{Task, Call, Reach}
use dgc_database_tp.Server.RecordUpdates.Sending.{IsSent, IsTaskFor, IsKeyed, Reach-IsStarted}

module _ {Bytes V J : Type 0} (K : Sdk Bytes V) (batcher private_key : String)
    (table : List (String × String)) (data_ : List (String × V)) (equal : Value → J → Bool)
    (S : Stores) (O : Sorting) (l : Ledger S) where
  -- What the update of a record sent, if it sent it, is for the given record id.
  abbrev IsSentFor : Option String → Task Bytes V → Type 0
  IsSentFor record_id t = IsSent K batcher private_key table data_ record_id t.sent

  -- A record that matches is updated; one that does not has transactions without a record id.
  abbrev pub IsUpdated : ℕ → Query J → Record → Task Bytes V → Type 0
  IsUpdated block no_terms r t = IsSentFor (some r.record_id) t
  IsUpdated block (terms ts) r t =
      (IsSentFor (some r.record_id) t × Every (HasMatch equal S O l block r.record_id) ts)
      ⊎ (IsSentFor none t × Any (NoMatch equal S O l block r.record_id) ts)

  answer-IsUpdated :
      (block : ℕ) (query : Query J) (r : Record) (a : Answer) (t : Task Bytes V)
      → IsAnswer equal S O l block query r a
      → IsTaskFor K batcher private_key table data_ a t
      → IsUpdated block query r t
  answer-IsUpdated block no_terms r unmatched t h k = elim h [ ]
  answer-IsUpdated block no_terms r (retrieved id ps) t h k =
      subst (λ i. IsSentFor (some i) t) h.0 k.sent
  answer-IsUpdated block (terms ts) r unmatched t h k = inr (k.sent, h)
  answer-IsUpdated block (terms ts) r (retrieved id ps) t h k =
      inl (subst (λ i. IsSentFor (some i) t) h.0 k.sent, h.2)

  -- Whatever the order of the steps of a call of updateRecords, for a table that has every name at
  -- most once, either no update was started or there is one for each record of the table that is
  -- not final at the current block, in their order. What an update sent is one transaction with
  -- the caller's key for each name of the data, each with one property: the one that the table
  -- gives to the name and the value, or the empty one. It names the id of its record when the
  -- query has no terms or each of them has a matching reported value of the record, and the empty
  -- id when some term has none.
  pub update_records-IsUpdated :
      (params : Params J) (n : ℕ) (c : Call Bytes V)
      → IsKeyed K batcher private_key table data_
      → Reach K batcher private_key table data_ (retrieve_records equal S O params l) n c
      → (c.tasks ≡ [])
        ⊎ ((block : ℕ) × (current_block S O l ≡ some block)
            × Each (IsUpdated block params.query) (selected S O l block params.table) c.tasks)
  update_records-IsUpdated params n c once h =
      elim (Reach-IsStarted K batcher private_key table data_ (retrieve_records equal S O params l)
        n c once h) [
          | inl nothing ↦ inl nothing
          | inr (answers, is, each) ↦
              let (block, now, answered) =
                retrieve_records-IsAnswer equal S O params l answers is in
              inr (
                block,
                now,
                Each-compose (IsAnswer equal S O l block params.query)
                    (IsTaskFor K batcher private_key table data_) (IsUpdated block params.query)
                    (selected S O l block params.table) answers c.tasks
                    (answer-IsUpdated block params.query) answered each,
              )
        ]
