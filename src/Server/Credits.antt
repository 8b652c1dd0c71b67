-- ===== src/Server/Credits.antt =====
-- applyDGCoinCredit and transferDGCoinProposal of server/transaction/proposals.js: each creates a
-- proposal and then, once that transaction was submitted, answers the proposals of its id that the
-- database has.
pub mod Answered
use mathlib.Core.Option
use dgc_database_tp.Prelude.{ℕ, String, List, map, Option, none, some, ◌==◌, text_test}
use dgc_database_tp.Rethink.Sorting.{Sorting}
use dgc_database_tp.Documents.{Proposal}
use dgc_database_tp.LedgerSync.Ledger.{Stores, Ledger}
use dgc_database_tp.Server.Transactions.Payloads.{
  Action, Param, credit_dg_coin, answer_dg_coin_credit, transfer_dg_coin, answer_dg_coin,
}
use dgc_database_tp.Server.Reads.Proposals.{retrieve_proposals}

-- `params['data']`, with the two keys that are read.
pub record CreditData (D : Type 0) : Type 0 where
  pub dgc : Option D
  pub receiving_key : Option String

module _ {D : Type 0} where
  abbrev pub proposal_param : String → Option String → Option D → Param D
  proposal_param proposal_id receiving amount = record {
    proposal_id = proposal_id;
    receiving_participant = receiving;
    record_id = none;
    reportable_properties = none;
    dg_coin_amount = amount;
    currency_iso_codes = none;
    currency_quote_amount = none;
    exchanges = none;
  }

  -- What the first `then` of each function sends; `proposal_id` is made of the function's text and the
  -- seconds of the clock.
  unfoldable pub apply_dg_coin_credit : String → CreditData D → Action D
  apply_dg_coin_credit proposal_id data_ =
      credit_dg_coin (proposal_param proposal_id data_.receiving_key data_.dgc)

  unfoldable pub transfer_dg_coin_proposal : String → CreditData D → Action D
  transfer_dg_coin_proposal proposal_id data_ =
      transfer_dg_coin (proposal_param proposal_id data_.receiving_key data_.dgc)

  -- The answers of the second; `amount` reads `dgCoinAmount`, a number that the records of Documents
  -- leave out.
  module _ (amount : Proposal → D) where
    abbrev pub credit_answer : Proposal → Action D
    credit_answer p =
        answer_dg_coin_credit
          (proposal_param p.proposal_id (some p.issuing_participant) (some (amount p)))

    abbrev pub transfer_answer : Proposal → Action D
    transfer_answer p =
        answer_dg_coin
          (proposal_param p.proposal_id (some p.receiving_participant) (some (amount p)))

    module _ (S : Stores) (O : Sorting) where
      unfoldable pub credit_answers : String → Ledger S → Option (List (Action D))
      credit_answers proposal_id l =
          Option.map (map credit_answer)
            (retrieve_proposals S O (λ p. p.proposal_id == proposal_id) l)

      unfoldable pub transfer_answers : String → Ledger S → Option (List (Action D))
      transfer_answers proposal_id l =
          Option.map (map transfer_answer)
            (retrieve_proposals S O (λ p. p.proposal_id == proposal_id) l)
