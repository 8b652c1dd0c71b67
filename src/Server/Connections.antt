-- ===== src/Server/Connections.antt =====
-- Connections, with their retries: connect and awaitDatabase of server/db/index.js, which
-- ledger_sync/db/index.js has word for word, and awaitServerInfo and submitTxns of
-- server/system/submit_utils.js. What is answered to the attempts, one after the other, is an
-- argument; between two attempts the code waits for RETRY_WAIT.
pub mod Retrying
use mathlib.Core.Option
use dgc_database_tp.Prelude.{
  String, Bool, true, false, ◌||◌, List, [], ◌∷◌, Option, none, some, if◌then◌else◌, ◌==◌,
  text_test,
}
use dgc_database_tp.Server.Auth.{Reply, json, error}
use dgc_database_tp.Server.Info.{Info}

-- The answer of `r.connect`: a driver error, another error, or a connection.
pub data Attempt (C : Type 0) : Type 0 where
  driver_error : Attempt C
  other_error : String → Attempt C
  opened : C → Attempt C

-- Where the chain of promises stands when the answers are used up: `connection` is set in the last two.
pub data Progress (C : Type 0) : Type 0 where
  connecting : Progress C
  rejected : String → Progress C
  awaiting : C → Progress C
  connected : C → Progress C

abbrev pub includes : String → List String → Bool
includes name [] = false
includes name (n ∷ names) = n == name || includes name names

-- `awaitDatabase`: whether it has resolved; `none` is an error of `tableList`.
unfoldable pub await_database : List (Option (List String)) → Bool
await_database [] = false
await_database (none ∷ answers) = await_database answers
await_database (some names ∷ answers) =
    let later = await_database answers in if includes "blocks" names then true else later

module _ {C : Type 0} where
  unfoldable pub connect : List (Attempt C) → List (Option (List String)) → Progress C
  connect [] answers = connecting
  connect (driver_error ∷ attempts) answers = connect attempts answers
  connect (other_error message ∷ attempts) answers = rejected message
  connect (opened c ∷ attempts) answers = if await_database answers then connected c else awaiting c

module _ {A : Type 0} where
  -- `awaitServerInfo`: `none` is a request that fails, or the state of still waiting.
  unfoldable pub await_server_info : List (Option A) → Option A
  await_server_info [] = none
  await_server_info (none ∷ answers) = await_server_info answers
  await_server_info (some info ∷ answers) = some info

  -- `submitTxns`, which catches the error and goes on with `undefined`
  unfoldable submit_txns : Reply A → Option A
  submit_txns (json response) = some response
  submit_txns (error e) = none

unfoldable await_server_pubkey : List (Option Info) → Option String
await_server_pubkey answers = Option.map (λ i. i.pubkey) (await_server_info answers)
