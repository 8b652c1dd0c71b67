-- ===== src/Server/RecordCalls.antt =====
-- The functions of server/transaction/records.js and proposals.js that retrieve records and send a
-- transaction for each: deleteRecords, transferCustodianshipProposal, answerCustodianshipTransfer,
-- authorizeReporterProposal and answerReporterAuthorize. The code does not wait for the retrieval, so
-- its end and the submission are two steps in either order, on the list `records` that they share.
pub mod Sending
pub mod Deleting
pub mod Samples
mod Tests
use mathlib.Core.Option
use dgc_database_tp.Prelude.{ℕ, ◌+◌, String, List, [], ◌∷◌, ◌++◌, Option, none, some, ◌≡◌}
use dgc_database_tp.Server.Transactions.{Sdk, Moment, Transaction, Request, create_txns}
use dgc_database_tp.Server.Transactions.Payloads.{
  Action, Param, finalize_record, transfer_create, transfer_answer, authorize_create,
  authorize_answer,
}
use dgc_database_tp.Server.Reads.Retrieve.{Answer, unmatched, retrieved}

-- The five functions.
pub data Operation : Type 0 where
  delete_records transfer_custodianship_proposal answer_custodianship_transfer
        authorize_reporter_proposal answer_reporter_authorize :
      Operation

-- `privateKey` and `receivingKey` of the argument
pub record Keys : Type 0 where
  pub private_key : String
  pub receiving_key : String

-- An element of `records`.
pub record Row (D : Type 0) : Type 0 where
  pub private_key : String
  pub param : Param D

-- `param['recordId']`, which `{}` does not have
abbrev pub record_id_of : Answer → Option String
record_id_of unmatched = none
record_id_of (retrieved record_id properties) = some record_id

-- A text that is `undefined` is left out of a message, and read as the empty text.
abbrev pub encoded : Option String → String
encoded none = ""
encoded (some text) = text

module _ {D : Type 0} where
  abbrev pub param_of : String → Option String → Option String → Param D
  param_of proposal_id receiving_key record_id = record {
    proposal_id = proposal_id;
    receiving_participant = receiving_key;
    record_id = record_id;
    reportable_properties = none;
    dg_coin_amount = none;
    currency_iso_codes = none;
    currency_quote_amount = none;
    exchanges = none;
  }

  -- The proposal id that the functions give to a row; `stamp` is 'transferCustodianship' with the
  -- seconds of the clock.
  unfoldable pub row_param : Operation → Keys → String → Option String → Param D
  row_param delete_records keys stamp record_id = param_of "" none record_id
  row_param transfer_custodianship_proposal keys stamp record_id =
      param_of stamp (some keys.receiving_key) record_id
  row_param answer_custodianship_transfer keys stamp record_id =
      param_of "" (some keys.receiving_key) record_id
  row_param authorize_reporter_proposal keys stamp record_id =
      param_of stamp (some keys.receiving_key) record_id
  row_param answer_reporter_authorize keys stamp record_id =
      param_of "" (some keys.receiving_key) record_id

  -- `finalizeRecord: protos.FinalizeRecordAction.create({recordId: record.recordId})`
  abbrev pub final : Param D → Action D
  final param = finalize_record (encoded param.record_id)

  unfoldable pub action_of : Operation → Param D → Action D
  action_of delete_records param = final param
  action_of transfer_custodianship_proposal param = transfer_create param
  action_of answer_custodianship_transfer param = transfer_answer param
  action_of authorize_reporter_proposal param = authorize_create param
  action_of answer_reporter_authorize param = authorize_answer param

  -- The callback on the `n`-th answer and those after it: `stamps n` is the stamp that it makes.
  unfoldable pub rows_of : Operation → Keys → (ℕ → String) → ℕ → List Answer → List (Row D)
  rows_of op keys stamps n [] = []
  rows_of op keys stamps n (a ∷ as_) =
      record {
        private_key = keys.private_key;
        param = row_param op keys (stamps n) (record_id_of a);
      }
      ∷ rows_of op keys stamps (n + 1) as_

  -- `records.map(...)`: `now n` is the clock and the nonce of the `n`-th call of createTxn.
  unfoldable pub requests_of : Operation → (ℕ → Moment) → ℕ → List (Row D) → List (Request D)
  requests_of op now n [] = []
  requests_of op now n (r ∷ rs) =
      record { private_key = r.private_key; action = action_of op r.param; now = now n }
      ∷ requests_of op now (n + 1) rs

-- A retrieval that has not ended has its result, or the failure `none`, to come.
pub data Retrieval : Type 0 where
  waiting : Option (List Answer) → Retrieval
  ended : Retrieval

-- A call of one of the functions: `sent` is what submitTxns was given.
pub record Call (Bytes D : Type 0) : Type 0 where
  pub retrieval : Retrieval
  pub records : List (Row D)
  pub sent : Option (List (Transaction Bytes))

module _ {Bytes D : Type 0} (K : Sdk Bytes D) (batcher : String) (op : Operation)
    (keys : Keys) where
  abbrev pub start : Option (List Answer) → Call Bytes D
  start result = record { retrieval = waiting result; records = []; sent = none }

  -- The retrieval ends.
  abbrev pub delivered : (ℕ → String) → Option (List Answer) → Call Bytes D → Call Bytes D
  delivered stamps none c = record c { retrieval = ended }
  delivered stamps (some answers) c = record c {
    retrieval = ended;
    records = c.records ++ rows_of op keys stamps 0 answers;
  }

  -- The chain that began with protos.compile() reaches its last step.
  unfoldable pub submitted : (ℕ → Moment) → Call Bytes D → Call Bytes D
  submitted now c = record c {
    sent = some (create_txns K batcher [] (requests_of op now 0 c.records));
  }

  pub data Step : Call Bytes D → Call Bytes D → Type 0 where
    retrieval_ends :
        (c c' : Call Bytes D) (stamps : ℕ → String) (result : Option (List Answer))
        → c.retrieval ≡ waiting result
        → c' ≡ delivered stamps result c
        → Step c c'
    submission :
        (c c' : Call Bytes D) (now : ℕ → Moment) → c.sent ≡ none → c' ≡ submitted now c → Step c c'

  pub data Reach (result : Option (List Answer)) : Call Bytes D → Type 0 where
    begin : Reach result (start result)
    next : (c c' : Call Bytes D) → Reach result c → Step c c' → Reach result c'
