-- ===== src/Server/Transactions.antt =====
-- The transactions of the server: getTxnCreator and encodeTimestampedPayload of
-- server/system/submit_utils.js, the `createTxn` that every function of server/transaction/ sets up,
-- and validateTxns and batch of server/blockchain/batcher.js. Keys, hashes, signatures and the
-- encodings are arguments.
pub mod Payloads
pub mod Batches
use dgc_database_tp.Prelude.{
  ℕ, String, Bool, true, false, List, [], ◌∷◌, map, all, Option, none, some, ◌≡◌, if◌then◌else◌,
  ◌==◌, EqTest, text_test,
}
use dgc_database_tp.Server.Transactions.Payloads.{Action}

pub record Header : Type 0 where
  pub signer_public_key : String
  pub batcher_public_key : String
  pub family_name : String
  pub family_version : String
  pub inputs : List String
  pub outputs : List String
  pub nonce : String
  pub payload_sha512 : String

-- `Bytes` are the encoded headers.
pub record Transaction (Bytes : Type 0) : Type 0 where
  pub header : Bytes
  pub header_signature : String
  pub payload : String

-- sawtooth-sdk, protobufjs and crypto; a header that was encoded is decoded as it was.
pub record Sdk (Bytes D : Type 0) : Type 0 where
  pub public_key : String → String
  pub sign : Bytes → String → String
  pub sha512 : String → String
  pub encode_payload : ℕ → Action D → String
  pub encode_header : Header → Bytes
  pub decode_header : Bytes → Header
  pub decode-encode : (h : Header) → decode_header (encode_header h) ≡ h

-- The clock, in seconds, and the random number of a call.
pub record Moment : Type 0 where
  pub seconds : ℕ
  pub nonce : String

-- `txnCreators`: the creators that were made, under their private keys.
abbrev pub Creators : Type 0 → Type 0
Creators Bytes = List (String × (String → Moment → Transaction Bytes))

abbrev pub find_creator :
    {Bytes : Type 0} → String → Creators Bytes → Option (String → Moment → Transaction Bytes)
find_creator key [] = none
find_creator key ((k, f) ∷ rest) = if k == key then some f else find_creator key rest

-- A key, an action, and the moment of the call.
pub record Request (D : Type 0) : Type 0 where
  pub private_key : String
  pub action : Action D
  pub now : Moment

pub record Batch (Bytes : Type 0) : Type 0 where
  pub signer_public_key : String
  pub transaction_ids : List String
  pub transactions : List (Transaction Bytes)

module _ {Bytes D : Type 0} (K : Sdk Bytes D) where
  -- the argument and the result of `encodeHeader`, before the encoding
  abbrev pub header_of : String → String → String → Moment → Header
  header_of signer batcher payload now = record {
    signer_public_key = signer;
    batcher_public_key = batcher;
    family_name = "dgc_REST_api";
    family_version = "1.1";
    inputs = "3bfc81" ∷ [];
    outputs = "3bfc81" ∷ [];
    nonce = now.nonce;
    payload_sha512 = K.sha512 payload;
  }

  -- The function that `getTxnCreator(privateKey, batcherPublicKey)` returns, for keys that are given,
  -- of which the private one can be decoded; for another the code throws, and there is no transaction.
  unfoldable pub get_txn_creator : String → String → String → Moment → Transaction Bytes
  get_txn_creator private_key batcher payload now =
      let header = K.encode_header (header_of (K.public_key private_key) batcher payload now) in
      record { header = header; header_signature = K.sign header private_key; payload = payload }

  -- `createTxn`
  unfoldable pub create_txn :
      String → Creators Bytes → String → String → Moment → Transaction Bytes × Creators Bytes
  create_txn batcher cs private_key payload now = elim (find_creator private_key cs) [
    | some f ↦ (f payload now, cs)
    | none ↦ let f = get_txn_creator private_key batcher in (f payload now, (private_key, f) ∷ cs)
  ]

  -- `records.map(record => createTxn(record.privateKey, encodeTimestampedPayload(...)))`
  unfoldable pub create_txns : String → Creators Bytes → List (Request D) → List (Transaction Bytes)
  create_txns batcher cs [] = []
  create_txns batcher cs (r ∷ rs) =
      let (txn, cs') =
        create_txn batcher cs r.private_key (K.encode_payload r.now.seconds r.action) r.now in
      txn ∷ create_txns batcher cs' rs

  -- `validateTxns`, and `batch`; `none` is the BadRequest
  unfoldable pub validate_txns : String → List (Transaction Bytes) → Bool
  validate_txns public_key txns =
      all (λ h. h.batcher_public_key == public_key) (map (λ t. K.decode_header t.header) txns)

  unfoldable pub batch : String → List (Transaction Bytes) → Option (Batch Bytes)
  batch public_key txns =
      if validate_txns public_key txns
      then some (record {
        signer_public_key = public_key;
        transaction_ids = map (λ t. t.header_signature) txns;
        transactions = txns;
      })
      else none
