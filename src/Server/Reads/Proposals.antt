-- ===== src/Server/Reads/Proposals.antt =====
-- server/db/proposals.js and server/db/exchanges.js: the queries that the API uses. A filter is an
-- argument, the test that RethinkDB makes of the object `params.query`.
pub mod Retrieved
use mathlib.Core.List.{head?}
use dgc_database_tp.Prelude.{ℕ, Bool, List, filter, Option, none, some}
use dgc_database_tp.Rethink.Sorting.{Sorting}
use dgc_database_tp.Documents.{Proposal, Exchange}
use dgc_database_tp.LedgerSync.Ledger.{Stores, Ledger}
use dgc_database_tp.Server.Reads.{get_table, query_with_current_block}

module _ (S : Stores) (O : Sorting) where
  -- `retrieve` of proposals.js
  unfoldable pub retrieve_proposals : (Proposal → Bool) → Ledger S → Option (List Proposal)
  retrieve_proposals query l =
      query_with_current_block S O
        (λ block. some (filter query (get_table S.proposals block l.proposals))) l

  -- `list` of proposals.js: it returns before its filter is used.
  unfoldable pub list_proposals : (Proposal → Bool) → Ledger S → Option (List Proposal)
  list_proposals query l =
      query_with_current_block S O (λ block. some (get_table S.proposals block l.proposals)) l

  -- `retrieve`, `list` and `last` of exchanges.js
  unfoldable pub retrieve_exchanges : (Exchange → Bool) → Ledger S → Option (List Exchange)
  retrieve_exchanges query l =
      query_with_current_block S O
        (λ block. some (filter query (get_table S.exchanges block l.exchanges))) l

  unfoldable pub list_exchanges : (Exchange → Bool) → Ledger S → Option (List Exchange)
  list_exchanges query l =
      query_with_current_block S O (λ block. some (get_table S.exchanges block l.exchanges)) l

  unfoldable pub last_exchange : (Exchange → Bool) → Ledger S → Option Exchange
  last_exchange query l =
      query_with_current_block S O
        (λ block. head? (filter query (get_table S.exchanges block l.exchanges))) l
