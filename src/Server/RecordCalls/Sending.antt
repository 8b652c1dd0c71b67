-- ===== src/Server/RecordCalls/Sending.antt =====
-- What a call of one of the functions of Server/RecordCalls.antt submits, in either order of its steps.
use mathlib.Core.Path.{subst}
use dgc_database_tp.Prelude.{
  ℕ, ◌+◌, String, List, [], ◌∷◌, ◌++◌, map, Option, none, some, ◌≡◌, refl, sym, ap, inl, inr, ◌⊎◌,
  Each, arith,
}
use dgc_database_tp.Server.Transactions.{Sdk, Moment, Transaction, create_txns}
use dgc_database_tp.Server.Transactions.Batches.{txn_of, create_txns-each}
use dgc_database_tp.Server.Reads.Retrieve.{Answer}
use dgc_database_tp.Server.RecordCalls.{
  Operation, Keys, Row, row_param, record_id_of, action_of, rows_of, requests_of, waiting, ended,
  Call, start, delivered, submitted, Step, retrieval_ends, submission, Reach, begin, next,
}

module _ {Bytes D : Type 0} (K : Sdk Bytes D) (batcher : String) (op : Operation)
    (keys : Keys) where
  -- The transaction of the function for one record that was retrieved, made with the caller's key.
  abbrev pub IsFor : Answer → Transaction Bytes → Type 0
  IsFor a t =
      (stamp : String) × ((now : Moment) × (t
          ≡ txn_of K batcher (record {
            private_key = keys.private_key;
            action = action_of op (row_param op keys stamp (record_id_of a));
            now = now;
          })))

  requests-IsFor :
      (stamps : ℕ → String) (now : ℕ → Moment) (n m : ℕ) (answers : List Answer)
      → Each IsFor answers
          (map (txn_of K batcher) (requests_of op now m (rows_of op keys stamps n answers)))
  unfolding requests_of rows_of
  requests-IsFor stamps now n m [] = tt
  requests-IsFor stamps now n m (a ∷ as_) =
      ((stamps n, (now m, refl)), requests-IsFor stamps now (n + 1) (m + 1) as_)

  -- The list of records of a call: empty, or of the whole result.
  abbrev IsRows : Option (List Answer) → List (Row D) → Type 0
  IsRows result rows =
      (rows ≡ [])
      ⊎ ((answers : List Answer) × ((stamps : ℕ → String) × (result ≡ some answers)
            × (rows ≡ rows_of op keys stamps 0 answers)))

  -- What is sent: nothing at all, or one transaction for every record of the whole result.
  abbrev pub IsWhole : Option (List Answer) → List (Transaction Bytes) → Type 0
  IsWhole result txns =
      (txns ≡ []) ⊎ ((answers : List Answer) × (result ≡ some answers) × Each IsFor answers txns)

  abbrev IsSent : Option (List Answer) → Option (List (Transaction Bytes)) → Type 0
  IsSent result none = Unit
  IsSent result (some txns) = IsWhole result txns

  record IsCall (result : Option (List Answer)) (c : Call Bytes D) : Type 0 where
    to_come : (r : Option (List Answer)) → c.retrieval ≡ waiting r → (r ≡ result) × (c.records ≡ [])
    rows : IsRows result c.records
    whole : IsSent result c.sent

  rows-IsWhole :
      (result : Option (List Answer)) (rows : List (Row D)) (now : ℕ → Moment)
      → IsRows result rows
      → IsWhole result (create_txns K batcher [] (requests_of op now 0 rows))
  unfolding requests_of
  rows-IsWhole result rows now (inl empty) = inl (rw empty (create_txns-each K batcher [] [] tt))
  rows-IsWhole result rows now (inr (answers, (stamps, is, made))) = inr (
    answers,
    is,
    subst (Each IsFor answers) (sym (create_txns-each K batcher (requests_of op now 0 rows) [] tt))
        (subst (λ rs. Each IsFor answers (map (txn_of K batcher) (requests_of op now 0 rs)))
          (sym made) (requests-IsFor stamps now 0 0 answers)),
  )

  delivered-IsCall :
      (result r : Option (List Answer)) (c : Call Bytes D) (stamps : ℕ → String)
      → IsCall result c
      → c.retrieval ≡ waiting r
      → IsCall result (delivered K batcher op keys stamps r c)
  delivered-IsCall result none c stamps h at = record {
    to_come = λ r e. cc;
    rows = h.rows;
    whole = h.whole;
  }
  delivered-IsCall result (some answers) c stamps h at = record {
    to_come = λ r e. cc;
    rows = inr (
      answers,
      (
        stamps,
        sym ((h.to_come (some answers) at).0),
        ap (λ rs. rs ++ rows_of op keys stamps 0 answers) ((h.to_come (some answers) at).1),
      ),
    );
    whole = h.whole;
  }

  Step-IsCall :
      (result : Option (List Answer)) (c c' : Call Bytes D)
      → IsCall result c
      → Step K batcher op keys c c'
      → IsCall result c'
  unfolding submitted requests_of
  Step-IsCall result _ _ h (retrieval_ends c c' stamps r at made) =
      subst (IsCall result) (sym made) (delivered-IsCall result r c stamps h at)
  Step-IsCall result _ _ h (submission c c' now first made) =
      subst (IsCall result) (sym made) (record {
        to_come = h.to_come;
        rows = h.rows;
        whole = rows-IsWhole result c.records now h.rows;
      })

  Reach-IsCall :
      (result : Option (List Answer)) (c : Call Bytes D)
      → Reach K batcher op keys result c
      → IsCall result c
  Reach-IsCall result _ begin = record {
    to_come = λ r e. (ground arith, refl);
    rows = inl refl;
    whole = tt;
  }
  Reach-IsCall result _ (next c c' before step) =
      Step-IsCall result c c' (Reach-IsCall result c before) step

  -- In every state that a call of deleteRecords or of one of the four functions for custodians and
  -- reporters can reach, what was sent is either an empty list or one transaction for each record
  -- of the whole result of the retrieval, in its order and with the caller's key: a part of the
  -- result is never sent.
  pub Reach-IsWhole :
      (result : Option (List Answer)) (c : Call Bytes D) (txns : List (Transaction Bytes))
      → Reach K batcher op keys result c
      → c.sent ≡ some txns
      → IsWhole result txns
  Reach-IsWhole result c txns h sent = subst (IsSent result) sent ((Reach-IsCall result c h).whole)

  -- A call in which both steps were made, and what it sent.
  abbrev pub IsDone : Option (List Answer) → List (Transaction Bytes) → Type 0
  IsDone result txns =
      (c : Call Bytes D) × Reach K batcher op keys result c
      × (c.retrieval ≡ ended)
      × (c.sent ≡ some txns)

  -- For every result of the retrieval such a call can run to its end with one transaction sent for
  -- each record, and it can also run to its end with an empty list sent, since it does not wait
  -- for the retrieval.
  both_orders :
      (answers : List Answer) (stamps : ℕ → String) (now : ℕ → Moment)
      → ((txns : List (Transaction Bytes)) × IsDone (some answers) txns × Each IsFor answers txns)
        × IsDone (some answers) []
  unfolding submitted requests_of
  both_orders answers stamps now =
      let initial = start K batcher op keys (some answers) in
      let after = delivered K batcher op keys stamps (some answers) initial in
      let rows = rows_of op keys stamps 0 answers in
      let early : Call Bytes D = submitted K batcher op keys now initial in
      let to_all : Reach K batcher op keys (some answers) after =
        next initial after begin (retrieval_ends initial after stamps (some answers) refl refl) in
      let to_early : Reach K batcher op keys (some answers) early =
        next initial early begin (submission initial early now refl refl) in
      (
        (
          create_txns K batcher [] (requests_of op now 0 rows),
          (
            submitted K batcher op keys now after,
            next after (submitted K batcher op keys now after) to_all
                (submission after (submitted K batcher op keys now after) now refl refl),
            refl,
            refl,
          ),
          subst (Each IsFor answers)
              (sym (create_txns-each K batcher (requests_of op now 0 rows) [] tt))
              (requests-IsFor stamps now 0 0 answers),
        ),
        (
          delivered K batcher op keys stamps (some answers) early,
          next early (delivered K batcher op keys stamps (some answers) early) to_early (
              retrieval_ends early (delivered K batcher op keys stamps (some answers) early) stamps
                (some answers) refl refl),
          refl,
          ap some (create_txns-each K batcher [] [] tt),
        ),
      )
