-- ===== src/Server/Submission.antt =====
-- submit of server/blockchain/index.js and waitParser of server/api/index.js. What the validator
-- answers is an argument, as is the reading of a number from a text (`none` is NaN); the number of
-- seconds to wait is only passed on, and taken to be whole.
pub mod Waiting
use dgc_database_tp.Prelude.{
  ℕ, String, Bool, true, false, List, [], ◌∷◌, Option, none, some, if◌then◌else◌, ◌==◌, EqTest,
  text_test,
}
use dgc_database_tp.Server.Transactions.{Transaction, Sdk, Batch, batch}

-- The answers to the batch and to the question of its status: the name of a status, and whether it
-- is OK, or COMMITTED.
pub record Answers : Type 0 where
  pub submit_status : String
  pub status : String
  pub batch_id : String
  pub messages : List String

pub data Submitted : Type 0 where
  bad_request : Submitted
  done : String → Submitted
  submit_failed : String → Submitted
  not_committed : String → String → String → Submitted

-- `invalidTransactions[0].message`, or the empty text
abbrev pub first_message : List String → String
first_message [] = ""
first_message (message ∷ rest) = message

-- `req.query.wait`: `none` is null; an absent parameter is `undefined`, which is not a number
unfoldable pub wait_parser : ℕ → (String → Option ℕ) → Option String → Option ℕ
wait_parser default_wait number none = none
wait_parser default_wait number (some text) = if text == "" then some default_wait else number text

module _ {Bytes D : Type 0} (K : Sdk Bytes D) (batcher : String)
    (sign_batch : Batch Bytes → String) where
  abbrev pub committed : Batch Bytes → Answers → Submitted
  committed b a =
      if a.status == "COMMITTED"
      then done (sign_batch b)
      else not_committed a.batch_id a.status (first_message a.messages)

  abbrev pub accepted : Batch Bytes → Option ℕ → Answers → Submitted
  accepted b none a = done (sign_batch b)
  accepted b (some wait) a = committed b a

  unfoldable pub submit : List (Transaction Bytes) → Option ℕ → Answers → Submitted
  submit txns wait a = elim (batch K batcher txns) [
    | none ↦ bad_request
    | some b ↦ if a.submit_status == "OK" then accepted b wait a else submit_failed a.submit_status
  ]
