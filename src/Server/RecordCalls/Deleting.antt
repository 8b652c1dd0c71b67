-- ===== src/Server/RecordCalls/Deleting.antt =====
-- deleteRecords of server/transaction/records.js on what retrieveRecords of server/db/records.js
-- answers.
use dgc_database_tp.Prelude.{
  ℕ, String, Bool, List, [], some, ◌≡◌, ◌∙◌, ap, inl, inr, ◌⊎◌, Every, Any, Each, Each-compose,
}
use dgc_database_tp.Rethink.Sorting.{Sorting}
use dgc_database_tp.Documents.{Record}
use dgc_database_tp.Documents.Structs.{Value}
use dgc_database_tp.LedgerSync.Ledger.{Stores, Ledger}
use dgc_database_tp.Server.Transactions.{Sdk, Moment, Transaction}
use dgc_database_tp.Server.Transactions.Payloads.{finalize_record}
use dgc_database_tp.Server.Transactions.Batches.{txn_of}
use dgc_database_tp.Server.Reads.{current_block}
use dgc_database_tp.Server.Reads.Retrieve.{
  Query, no_terms, terms, Params, Answer, unmatched, retrieved, selected, retrieve_records,
}
use dgc_database_tp.Server.Reads.Retrieve.Answers.{
  HasMatch, NoMatch, IsAnswer, retrieve_records-IsAnswer,
}
use dgc_database_tp.Server.RecordCalls.{Keys, Call, Reach, delete_records, action_of, row_param}
use dgc_database_tp.Server.RecordCalls.Sending.{IsFor, Reach-IsWhole}

module _ {Bytes D J : Type 0} (K : Sdk Bytes D) (batcher : String) (keys : Keys)
    (equal : Value → J → Bool) (S : Stores) (O : Sorting) (l : Ledger S) where
  -- The transaction that finalizes a record, with the caller's key.
  abbrev pub IsFinal : String → Transaction Bytes → Type 0
  IsFinal record_id t =
      (now : Moment) × (t
        ≡ txn_of K batcher (record {
          private_key = keys.private_key;
          action = finalize_record record_id;
          now = now;
        }))

  -- A record that matches is finalized; one that does not has a transaction with the empty id.
  abbrev pub IsFinalized : ℕ → Query J → Record → Transaction Bytes → Type 0
  IsFinalized block no_terms r t = IsFinal r.record_id t
  IsFinalized block (terms ts) r t =
      (IsFinal r.record_id t × Every (HasMatch equal S O l block r.record_id) ts)
      ⊎ (IsFinal "" t × Any (NoMatch equal S O l block r.record_id) ts)

  answer-IsFinalized :
      (block : ℕ) (query : Query J) (r : Record) (a : Answer) (t : Transaction Bytes)
      → IsAnswer equal S O l block query r a
      → IsFor K batcher delete_records keys a t
      → IsFinalized block query r t
  unfolding action_of row_param
  answer-IsFinalized block no_terms r unmatched t h made = elim h [ ]
  answer-IsFinalized block no_terms r (retrieved id ps) t h (stamp, (now, made)) = (
    now,
    made
        ∙ ap
            (λ i.
              txn_of K batcher
                (record { private_key = keys.private_key; action = finalize_record i; now = now }))
            h.0,
  )
  answer-IsFinalized block (terms ts) r unmatched t h (stamp, (now, made)) = inr ((now, made), h)
  answer-IsFinalized block (terms ts) r (retrieved id ps) t h (stamp, (now, made)) = inl (
    (
      now,
      made
          ∙ ap
              (λ i.
                txn_of K batcher (record {
                  private_key = keys.private_key;
                  action = finalize_record i;
                  now = now;
                }))
              h.0,
    ),
    h.2,
  )

  -- Whatever the order of the steps of a call of deleteRecords, what it sends is either an empty
  -- list, or one transaction with the caller's key for each record of the table that is not final
  -- at the current block, in their order: it finalizes a record of which every term of the query
  -- has a matching reported value, and it names the empty record id for a record of which some
  -- term has none. Without a query every record is finalized.
  pub delete_records-IsFinalized :
      (params : Params J) (c : Call Bytes D) (txns : List (Transaction Bytes))
      → Reach K batcher delete_records keys (retrieve_records equal S O params l) c
      → c.sent ≡ some txns
      → (txns ≡ [])
        ⊎ ((block : ℕ) × (current_block S O l ≡ some block)
            × Each (IsFinalized block params.query) (selected S O l block params.table) txns)
  delete_records-IsFinalized params c txns h sent =
      elim (Reach-IsWhole K batcher delete_records keys (retrieve_records equal S O params l) c txns
        h sent) [
          | inl nothing ↦ inl nothing
          | inr (answers, is, each) ↦
              let (block, now, answered) =
                retrieve_records-IsAnswer equal S O params l answers is in
              inr (
                block,
                now,
                Each-compose (IsAnswer equal S O l block params.query)
                    (IsFor K batcher delete_records keys) (IsFinalized block params.query)
                    (selected S O l block params.table) answers txns
                    (answer-IsFinalized block params.query) answered each,
              )
        ]
