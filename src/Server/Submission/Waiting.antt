-- ===== src/Server/Submission/Waiting.antt =====
-- When server/blockchain/index.js reports a batch as submitted.
use dgc_database_tp.Prelude.{
  ℕ, String, true, false, Every, ◌↔◌, List, [], ◌∷◌, map, Option, none, some, ◌≡◌, ◌∙◌, ap, sym,
  refl, ◌⊎◌, inl, inr, ◌==◌, text_test, Bool-cases, arith,
}
use dgc_database_tp.Server.Transactions.{Transaction, Sdk, Batch, batch, validate_txns}
use dgc_database_tp.Server.Submission.{Answers, done, submit, wait_parser, accepted}

module _ {Bytes D : Type 0} (K : Sdk Bytes D) (batcher : String)
    (sign_batch : Batch Bytes → String) where
  abbrev pub batch_of : List (Transaction Bytes) → Batch Bytes
  batch_of txns = record {
    signer_public_key = batcher;
    transaction_ids = map (λ t. t.header_signature) txns;
    transactions = txns;
  }

  -- The header of a transaction names the server as its batcher.
  abbrev pub NamesBatcher : Transaction Bytes → Type 0
  NamesBatcher t = (K.decode_header t.header).batcher_public_key ≡ batcher

  validate-NamesBatcher :
      (txns : List (Transaction Bytes))
      → validate_txns K batcher txns ≡ true
      → Every NamesBatcher txns
  unfolding validate_txns
  validate-NamesBatcher [] h = tt
  validate-NamesBatcher (t ∷ txns) h =
      elim (Bool-cases ((K.decode_header t.header).batcher_public_key == batcher)) [
        | inl same ↦ (
          (text_test.decides (K.decode_header t.header).batcher_public_key batcher).0 same,
          validate-NamesBatcher txns (rw same at h),
        )
        | inr other ↦ absurd (let f : false ≡ true = rw other at h in cc)
      ]

  NamesBatcher-validate :
      (txns : List (Transaction Bytes))
      → Every NamesBatcher txns
      → validate_txns K batcher txns ≡ true
  unfolding validate_txns
  NamesBatcher-validate [] h = refl
  NamesBatcher-validate (t ∷ txns) (here, later) =
      rw
        (
          (text_test.decides (K.decode_header t.header).batcher_public_key batcher).1 here,
          NamesBatcher-validate txns later,
        )
        refl

  -- What has to be the case for a batch to be reported as submitted, with its identifier.
  abbrev pub IsAccepted : List (Transaction Bytes) → Option ℕ → Answers → String → Type 0
  IsAccepted txns wait a id =
      Every NamesBatcher txns
      × (id ≡ sign_batch (batch_of txns))
      × (a.submit_status ≡ "OK")
      × ((wait ≡ none) ⊎ (a.status ≡ "COMMITTED"))

  accepted_commit :
      (b : Batch Bytes) (wait : Option ℕ) (a : Answers) (id : String)
      → accepted K batcher sign_batch b wait a ≡ done id
      → (id ≡ sign_batch b) × ((wait ≡ none) ⊎ (a.status ≡ "COMMITTED"))
  accepted_commit b none a id e = (cc, inl refl)
  accepted_commit b (some wait) a id e = elim (Bool-cases (a.status == "COMMITTED")) [
    | inl same ↦
        let f : done (sign_batch b) ≡ done id = rw same at e in
        (cc, inr ((text_test.decides a.status "COMMITTED").0 same))
    | inr other ↦ absurd (ground arith)
  ]

  committed_accept :
      (b : Batch Bytes) (wait : Option ℕ) (a : Answers)
      → (wait ≡ none) ⊎ (a.status ≡ "COMMITTED")
      → accepted K batcher sign_batch b wait a ≡ done (sign_batch b)
  committed_accept b none a h = refl
  committed_accept b (some wait) a (inl unwaited) = absurd (ground arith)
  committed_accept b (some wait) a (inr same) =
      rw ((text_test.decides a.status "COMMITTED").1 same) refl

  submit_sound :
      (txns : List (Transaction Bytes)) (wait : Option ℕ) (a : Answers) (id : String)
      → submit K batcher sign_batch txns wait a ≡ done id
      → IsAccepted txns wait a id
  unfolding submit batch
  submit_sound txns wait a id e = elim (Bool-cases (validate_txns K batcher txns)) [
    | inr bad ↦ absurd (ground arith)
    | inl ok ↦ elim (Bool-cases (a.submit_status == "OK")) [
      | inr refused ↦ absurd (ground arith)
      | inl same ↦
          let f = accepted_commit (batch_of txns) wait a id (rw (submit, batch, ok, same) at e) in
          (validate-NamesBatcher txns ok, f.0, (text_test.decides a.submit_status "OK").0 same, f.1)
    ]
  ]

  submit_complete :
      (txns : List (Transaction Bytes)) (wait : Option ℕ) (a : Answers) (id : String)
      → IsAccepted txns wait a id
      → submit K batcher sign_batch txns wait a ≡ done id
  unfolding submit batch
  submit_complete txns wait a id (named, signed, well, committed) =
      let same = (text_test.decides a.submit_status "OK").1 well in
      let valid = NamesBatcher-validate txns named in
      rw (submit, batch, valid, same) (committed_accept (batch_of txns) wait a committed)
      ∙ ap done (sym signed)

  -- A batch is reported as submitted, with an identifier, exactly when the header of each of the
  -- transactions that were given names the server as the batcher, the validator answered OK,
  -- either the request has no usable wait or the validator has committed the batch, and the
  -- identifier is the signature of the batch of all these transactions, in their order.
  pub submit-done :
      (txns : List (Transaction Bytes)) (wait : Option ℕ) (a : Answers) (id : String)
      → (submit K batcher sign_batch txns wait a ≡ done id) ↔ IsAccepted txns wait a id
  submit-done txns wait a id = (submit_sound txns wait a id, submit_complete txns wait a id)

  -- A batch that the request /transactions?wait of the server's own transactions reports as
  -- submitted has been committed.
  submit_waited :
      (txns : List (Transaction Bytes)) (default_wait : ℕ) (number : String → Option ℕ)
      (a : Answers) (id : String)
      → submit K batcher sign_batch txns (wait_parser default_wait number (some "")) a ≡ done id
      → a.status ≡ "COMMITTED"
  unfolding wait_parser
  submit_waited txns default_wait number a id e =
      elim (submit_sound txns (some default_wait) a id e).3 [
        | inl unwaited ↦ absurd (ground arith)
        | inr same ↦ same
      ]
