-- ===== src/Server/Registering.antt =====
-- `create` of server/transaction/participants.js and of server/transaction/tables.js. A participant is
-- created by a transaction, whose answer is not looked at, and then by a request for an account, which
-- the server answers by what its database holds by then.
pub mod Joined
pub mod Sent
use dgc_database_tp.Prelude.{
  ℕ, String, Bool, List, [], ◌∷◌, ◌+◌, Option, ◌==◌, text_test, if◌then◌else◌,
}
use dgc_database_tp.Server.Users
use dgc_database_tp.Server.Users.{User, Accounts, Schema}
use dgc_database_tp.Server.Auth
use dgc_database_tp.Server.Auth.{Crypto, Reply, json, error, other, Session}
use dgc_database_tp.Server.Transactions.{Sdk, Moment, Transaction, Request, create_txns}
use dgc_database_tp.Server.Transactions.Payloads.{create_participant, create_table}

-- `params.data`; its `privateKey` is not read
pub record Applicant : Type 0 where
  pub name : String
  pub public_key : String
  pub username : String
  pub email : String
  pub encrypted_key : Option String
  pub hashed_password : String

-- `_.omit(params.data, 'name', 'privateKey', 'hashedPassword')`, with the password
unfoldable pub user_of : Applicant → User
user_of data_ = record {
  public_key = data_.public_key;
  username = data_.username;
  password = data_.hashed_password;
  email = data_.email;
  encrypted_key = data_.encrypted_key;
}

unfoldable participant_request : {D : Type 0} → String → Applicant → Moment → Request D
participant_request private_key data_ now = record {
  private_key = private_key;
  action = create_participant data_.name;
  now = now;
}

-- An element of the data of a request for tables.
pub record NewTable (D : Type 0) : Type 0 where
  pub name : String
  pub properties : List D

-- `params.data.map(...)`: `now n` is the clock and the nonce of the `n`-th call of createTxn.
unfoldable pub table_requests :
    {D : Type 0} → String → (ℕ → Moment) → ℕ → List (NewTable D) → List (Request D)
table_requests private_key now n [] = []
table_requests private_key now n (t ∷ ts) =
    record { private_key = private_key; action = create_table t.name t.properties; now = now n }
    ∷ table_requests private_key now (n + 1) ts

module _ {Bytes D : Type 0} (K : Sdk Bytes D) (batcher : String) where
  unfoldable pub create_tables :
      String → (ℕ → Moment) → List (NewTable D) → List (Transaction Bytes)
  create_tables private_key now ts = create_txns K batcher [] (table_requests private_key now 0 ts)

  unfoldable create_participants : String → Applicant → Moment → List (Transaction Bytes)
  create_participants private_key data_ now =
      create_txns K batcher [] (participant_request private_key data_ now ∷ [])

-- The answer to the request for an account, or the error that its client makes of another status.
abbrev pub answered : {A : Type 0} → A × Reply Session → A × Reply Session
answered (a, json session) = (a, json session)
answered (a, error e) = (a, error other)

module _ (C : Crypto) (secret : String) (U : Users.Stores) where
  -- The request for an account; `is_participant` is what the database holds when it is answered.
  unfoldable pub create_user :
      Schema User → (String → Bool) → ℕ → Applicant → Accounts U → Accounts U × Reply Session
  create_user schema is_participant salt data_ a =
      answered (Auth.create C secret U schema is_participant salt (user_of data_) a)
