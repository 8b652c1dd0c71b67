-- ===== src/Server/Transactions/Batches.antt =====
-- The transactions that the server makes for itself are accepted by its own batcher.
use dgc_database_tp.Prelude.{
  String, true, false, List, [], ◌∷◌, map, none, some, ◌≡◌, ◌∙◌, refl, ap, if◌then◌else◌, sym, ◌++◌,
  ◌==◌, text_test, Option-cases, Bool-cases, inl, inr, arith,
}
use dgc_database_tp.Server.Transactions.{
  Sdk, Moment, Transaction, Request, Creators, find_creator, get_txn_creator, create_txn,
  create_txns, validate_txns, batch,
}

module _ {Bytes D : Type 0} (K : Sdk Bytes D) (batcher : String) where
  -- Every creator that is kept is the one that its key would be given anew.
  abbrev pub IsFaithful : Creators Bytes → Type 0
  IsFaithful [] = Unit
  IsFaithful ((k, f) ∷ cs) = (f ≡ get_txn_creator K k batcher) × IsFaithful cs

  find_creator-IsFaithful :
      (cs : Creators Bytes) (key : String) (f : String → Moment → Transaction Bytes)
      → IsFaithful cs
      → find_creator key cs ≡ some f
      → f ≡ get_txn_creator K key batcher
  find_creator-IsFaithful [] key f h e = cc
  find_creator-IsFaithful ((k, g) ∷ cs) key f h e = elim (Bool-cases (k == key)) [
    | inl same ↦
        let p : k ≡ key = (text_test.decides k key).0 same in
        let q : some g ≡ some f =
          ap (λ b. if b then some g else find_creator key cs) (sym same) ∙ e in
        let fg : f ≡ g = cc in fg ∙ h.0 ∙ ap (λ x. get_txn_creator K x batcher) p
    | inr other ↦
        find_creator-IsFaithful cs key f h.1
          (ap (λ b. if b then some g else find_creator key cs) (sym other) ∙ e)
  ]

  -- The transaction that a request is to be given.
  abbrev pub txn_of : Request D → Transaction Bytes
  txn_of r = get_txn_creator K r.private_key batcher (K.encode_payload r.now.seconds r.action) r.now

  create_txn-new :
      (cs : Creators Bytes) (key payload : String) (now : Moment)
      → find_creator key cs ≡ none
      → create_txn K batcher cs key payload now
        ≡ (get_txn_creator K key batcher payload now, (key, get_txn_creator K key batcher) ∷ cs)
  unfolding create_txn
  create_txn-new cs key payload now new = rw (new, create_txn) refl

  create_txn-kept :
      (cs : Creators Bytes) (key payload : String) (now : Moment)
      (f : String → Moment → Transaction Bytes)
      → find_creator key cs ≡ some f
      → create_txn K batcher cs key payload now ≡ (f payload now, cs)
  unfolding create_txn
  create_txn-kept cs key payload now f kept = rw (kept, create_txn) refl

  create_txn-IsFaithful :
      (cs : Creators Bytes) (key payload : String) (now : Moment)
      → IsFaithful cs
      → ((create_txn K batcher cs key payload now).0 ≡ get_txn_creator K key batcher payload now)
        × IsFaithful (create_txn K batcher cs key payload now).1
  create_txn-IsFaithful cs key payload now h = elim (Option-cases (find_creator key cs)) [
    | inl new ↦ rw (create_txn-new cs key payload now new) (refl, (refl, h))
    | inr (f, kept) ↦
        rw (create_txn-kept cs key payload now f kept)
          (ap (λ g. g payload now) (find_creator-IsFaithful cs key f h kept), h)
  ]

  -- From creators that were made of their own keys, every request of a call is given the
  -- transaction that a new creator for its private key makes of its action, whatever keys came
  -- before it.
  pub create_txns-each :
      (rs : List (Request D)) (cs : Creators Bytes)
      → IsFaithful cs
      → create_txns K batcher cs rs ≡ map txn_of rs
  unfolding create_txns
  create_txns-each [] cs h = refl
  create_txns-each (r ∷ rs) cs h =
      let step =
        create_txn-IsFaithful cs r.private_key (K.encode_payload r.now.seconds r.action) r.now h in
      rw (step.0, create_txns-each rs _ step.1) refl

  txn_of-header : (r : Request D) → (K.decode_header (txn_of r).header).batcher_public_key ≡ batcher
  unfolding get_txn_creator
  txn_of-header r = ap (λ h. h.batcher_public_key) (K.decode-encode _)

  valid : (rs : List (Request D)) → validate_txns K batcher (map txn_of rs) ≡ true
  unfolding validate_txns
  valid [] = refl
  valid (r ∷ rs) = ground (arith, (text_test.decides _ _).1 (txn_of-header r), valid rs)

  -- The transactions that the server makes of any list of requests are accepted by its own
  -- batcher, which batches all of them, in the order of the requests, with the signatures of their
  -- headers as identifiers.
  pub batch-create_txns :
      (rs : List (Request D))
      → batch K batcher (create_txns K batcher [] rs)
        ≡ some (record {
          signer_public_key = batcher;
          transaction_ids = map (λ t. t.header_signature) (map txn_of rs);
          transactions = map txn_of rs;
        })
  unfolding batch
  batch-create_txns rs = rw (create_txns-each rs [] tt, valid rs) refl

  validate_txns-other :
      (before after : List (Transaction Bytes)) (t : Transaction Bytes)
      → ¬ ((K.decode_header t.header).batcher_public_key ≡ batcher)
      → validate_txns K batcher (before ++ t ∷ after) ≡ false
  unfolding validate_txns
  validate_txns-other [] after t other =
      ground (arith, text_test.decides (K.decode_header t.header).batcher_public_key batcher)
  validate_txns-other (u ∷ before) after t other =
      ground (arith, validate_txns-other before after t other)

  -- A list with a transaction whose header names another batcher is refused as a whole.
  batch-other_batcher :
      (before after : List (Transaction Bytes)) (t : Transaction Bytes)
      → ¬ ((K.decode_header t.header).batcher_public_key ≡ batcher)
      → batch K batcher (before ++ t ∷ after) ≡ none
  unfolding batch
  batch-other_batcher before after t other = rw (validate_txns-other before after t other) refl
