-- ===== src/Server/Registering/Sent.antt =====
-- The transactions of createTables and createParticipant.
use dgc_database_tp.Prelude.{ℕ, ◌+◌, String, List, [], ◌∷◌, map, some, ◌≡◌, refl, Each}
use dgc_database_tp.Server.Transactions.{Sdk, Moment, Transaction, Batch, batch}
use dgc_database_tp.Server.Transactions.Payloads.{create_table}
use dgc_database_tp.Server.Transactions.Batches.{txn_of, batch-create_txns}
use dgc_database_tp.Server.Registering.{NewTable, table_requests, create_tables}

module _ {Bytes D : Type 0} (K : Sdk Bytes D) (batcher private_key : String) where
  -- The transaction that creates a table, made with the caller's key.
  abbrev IsTableOf : NewTable D → Transaction Bytes → Type 0
  IsTableOf t txn =
      (now : Moment) × (txn
        ≡ txn_of K batcher (record {
          private_key = private_key;
          action = create_table t.name t.properties;
          now = now;
        }))

  table_requests-Each :
      (now : ℕ → Moment) (n : ℕ) (ts : List (NewTable D))
      → Each IsTableOf ts (map (txn_of K batcher) (table_requests private_key now n ts))
  unfolding table_requests
  table_requests-Each now n [] = tt
  table_requests-Each now n (t ∷ ts) = ((now n, refl), table_requests-Each now (n + 1) ts)

  -- The batch of createTables has one transaction for each table of the request, in their order and
  -- with the caller's key.
  create_tables-Each :
      (now : ℕ → Moment) (ts : List (NewTable D))
      → (b : Batch Bytes) × (batch K batcher (create_tables K batcher private_key now ts) ≡ some b)
        × Each IsTableOf ts b.transactions
  unfolding create_tables
  create_tables-Each now ts = (
    record {
      signer_public_key = batcher;
      transaction_ids =
          map (λ t. t.header_signature)
            (map (txn_of K batcher) (table_requests private_key now 0 ts));
      transactions = map (txn_of K batcher) (table_requests private_key now 0 ts);
    },
    batch-create_txns K batcher (table_requests private_key now 0 ts),
    table_requests-Each now 0 ts,
  )
