-- ===== src/Server/Properties/Creating.antt =====
-- createRecord and create of server/transaction/records.js: the table is fetched once for each name
-- of the data, and create(record) does not wait for these promises. Each of them that ends pushes to
-- the list `properties` that the record shares with them; the submission reads that list.
use mathlib.Core.List.Perm
use dgc_database_tp.Prelude.{
  String, List, [], ◌∷◌, ◌++◌, map, Perm, Option, none, some, ◌≡◌, text_test,
}
use dgc_database_tp.Server.Transactions.{Sdk, Moment, Transaction, Request, create_txns}
use dgc_database_tp.Server.Transactions.Payloads
use dgc_database_tp.Server.Transactions.Payloads.{property_message}
use dgc_database_tp.Server.Transactions.Batches.{txn_of}
use dgc_database_tp.Server.Properties.{Written, push_property, record_properties}

-- The names whose fetch has not ended, the record's properties, and what submitTxns was given.
pub record Creation (Bytes V : Type 0) : Type 0 where
  pub pending : List (String × V)
  pub properties : List (Written V)
  pub sent : Option (List (Transaction Bytes))

-- The end of the fetch for a name, or the submission.
pub data Event (V : Type 0) : Type 0 where
  fetch_ended : String × V → Event V
  submission_made : Moment → Event V

-- `record`, less its properties: `record_id` is the name of the table with the seconds of the clock.
pub record NewRecord : Type 0 where
  pub private_key : String
  pub record_id : String
  pub table : String

-- The one request of `create`; `PropertyValue.create` and `Location.create` copy what they are given.
unfoldable pub create : {V : Type 0} → NewRecord → List (Written V) → Moment → Request V
create r properties now = record {
  private_key = r.private_key;
  action =
      Payloads.create_record r.record_id r.table (map (λ w. property_message (some w)) properties);
  now = now;
}

-- `table` is what the promises resolve with.
module _ {Bytes V : Type 0} (K : Sdk Bytes V) (batcher : String) (new : NewRecord)
    (table : List (String × String)) where
  abbrev pub creation_of : List (String × V) → Creation Bytes V
  creation_of data_ = record { pending = data_; properties = []; sent = none }

  unfoldable pub fetched : String × V → List (String × V) → Creation Bytes V → Creation Bytes V
  fetched nx pending c = record c {
    pending = pending;
    properties = c.properties ++ push_property table nx.0 nx.1;
  }

  -- The chain that began with protos.compile() reaches its last step.
  unfoldable pub submitted : Moment → Creation Bytes V → Creation Bytes V
  submitted now c = record c {
    sent = some (create_txns K batcher [] (create new c.properties now ∷ []));
  }

  pub data Step : Event V → Creation Bytes V → Creation Bytes V → Type 0 where
    fetch_ends :
        (c c' : Creation Bytes V) (nx : String × V) (before after : List (String × V))
        → c.pending ≡ before ++ nx ∷ after
        → c' ≡ fetched nx (before ++ after) c
        → Step (fetch_ended nx) c c'
    submission :
        (c c' : Creation Bytes V) (now : Moment)
        → c.sent ≡ none
        → c' ≡ submitted now c
        → Step (submission_made now) c c'

  -- The states that a call reaches by the events of a list, the first event first.
  pub data Reach (data_ : List (String × V)) : List (Event V) → Creation Bytes V → Type 0 where
    begin : Reach data_ [] (creation_of data_)
    next :
        (vs : List (Event V)) (v : Event V) (c c' : Creation Bytes V)
        → Reach data_ vs c
        → Step v c c'
        → Reach data_ (vs ++ v ∷ []) c'

  -- The names whose fetches end in a list of events, in the order of their ends.
  abbrev pub ended_in : List (Event V) → List (String × V)
  ended_in [] = []
  ended_in (fetch_ended nx ∷ vs) = nx ∷ ended_in vs
  ended_in (submission_made now ∷ vs) = ended_in vs

  -- The transactions of a submission of the record with these properties, with the caller's key.
  abbrev pub creating : List (Written V) → Moment → List (Transaction Bytes)
  creating ws now = txn_of K batcher (create new ws now) ∷ []

  -- Where in the events the submission is, and what it sent.
  abbrev pub IsSubmission : List (Event V) → List (Transaction Bytes) → List (Written V) → Type 0
  IsSubmission vs txns ws =
      (now : Moment) × ((before : List (Event V)) × ((after : List (Event V)) × (vs
            ≡ before ++ submission_made now ∷ after)
          × (ws ≡ record_properties table (ended_in before))
          × (txns ≡ creating ws now)))

  abbrev IsSent : List (Event V) → Option (List (Transaction Bytes)) → Type 0
  IsSent vs none = Unit
  IsSent vs (some txns) = (ws : List (Written V)) × IsSubmission vs txns ws

  record IsCreation (data_ : List (String × V)) (vs : List (Event V)) (c : Creation Bytes V)
      : Type 0 where
    parts : Perm (ended_in vs ++ c.pending) data_
    made : c.properties ≡ record_properties table (ended_in vs)
    sent_part : IsSent vs c.sent
