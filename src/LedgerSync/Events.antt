-- ===== src/LedgerSync/Events.antt =====
-- The events of the validator: getBlock, getChanges, handleEvent, subscribe and start of ledger_sync/subscriber/index.js.
-- What sawtooth-sdk decodes and `parseInt` are arguments.
use mathlib.Core.List.{head?}
use dgc_database_tp.Prelude.{
  ℕ, String, Bool, true, false, List, [], ◌∷◌, filter, take, Option, none, some, if◌then◌else◌,
  ◌==◌, text_test, list_test, ℕ_test, ◌>>=◌,
}
use dgc_database_tp.Documents.{Block}
use dgc_database_tp.LedgerSync.Ledger.{Stores, Ledger}
use dgc_database_tp.LedgerSync.Addresses.{char_codes}
use dgc_database_tp.LedgerSync.Deltas.{Change, Protos, partition, handle}

pub record Event : Type 0 where
  pub event_type : String
  pub attributes : List (String × String)
  pub data_ : String

-- `client_events` is whether the type of the message is CLIENT_EVENTS.
pub record Message : Type 0 where
  pub client_events : Bool
  pub content : String

pub record Decoders : Type 0 where
  pub events : String → List Event
  pub state_changes : String → List Change
  pub parse_int : String → Option ℕ

abbrev pub find_event : String → List Event → Option Event
find_event event_type events = head? (filter (λ e. e.event_type == event_type) events)

-- `_.fromPairs`, and the value of a key: the last of them
abbrev pub from_pairs : String → List (String × String) → Option String
from_pairs key [] = none
from_pairs key ((k, value) ∷ pairs) =
    let later = from_pairs key pairs in
    elim later [ some x ↦ some x | none ↦ if k == key then some value else none ]

abbrev pub is_own_change : Change → Bool
is_own_change c = take 6 c.address == char_codes "3bfc81"

module _ (X : Decoders) where
  -- `getBlock`; `none` is a block with NaN for its number or `undefined` for another field.
  unfoldable pub get_block : List Event → Option Block
  get_block events = do
    event ← find_event "sawtooth/block-commit" events
    digits ← from_pairs "block_num" event.attributes
    block_num ← X.parse_int digits
    block_id ← from_pairs "block_id" event.attributes
    state_root_hash ← from_pairs "state_root_hash" event.attributes
    some (record { block_num = block_num; block_id = block_id; state_root_hash = state_root_hash })

  abbrev pub own_changes : Option Event → List Change
  own_changes none = []
  own_changes (some event) = filter is_own_change (X.state_changes event.data_)

  unfoldable pub get_changes : List Event → List Change
  get_changes events = own_changes (find_event "sawtooth/state-delta" events)

  -- `handleEvent`: what is handed to deltas.handle
  unfoldable pub handle_event : Message → Option (Option Block × List Change)
  handle_event msg =
      if msg.client_events
      then some (get_block (X.events msg.content), get_changes (X.events msg.content))
      else none

  module _ (P : Protos) (S : Stores) where
    -- A call of deltas.handle that runs to its end; one for a block with NaN or `undefined` is not
    -- followed.
    abbrev pub apply : Option Block × List Change → Ledger S → Option (Ledger S)
    apply (none, changes) l = none
    apply (some block, changes) l = partition P changes >>= (λ entries. handle S entries block l)

    -- A message of another type changes nothing.
    unfoldable pub receive : Message → Ledger S → Option (Ledger S)
    receive msg l = elim (handle_event msg) [ none ↦ some l | some call ↦ apply call l ]

-- The subscription of `subscribe`: the type of an event, and the pattern for its addresses.
pub record Subscription : Type 0 where
  pub event_type : String
  pub match_string : Option String

pub record SubscribeRequest : Type 0 where
  pub last_known_block_ids : List String
  pub subscriptions : List Subscription

abbrev subscribe_request : SubscribeRequest
subscribe_request = record {
  last_known_block_ids = "0000000000000000" ∷ [];
  subscriptions =
      record { event_type = "sawtooth/block-commit"; match_string = none }
      ∷ record { event_type = "sawtooth/state-delta"; match_string = some "^3bfc81.*" }
      ∷ [];
}

-- Whether the promise of `start` resolves: `none` is a request that the stream did not answer. A
-- promise of `subscribe` that is rejected leaves it pending.
unfoldable pub start : Option String → Bool
start none = false
start (some status) = if status == "OK" then true else false
