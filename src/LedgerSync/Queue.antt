-- ===== src/LedgerSync/Queue.antt =====
-- deltaQueue of ledger_sync/subscriber/deltas.js: promised functions that run one after another.
-- `started` is not a field of the object: it records the functions that have been called, in order.
pub mod Order
pub mod Draining
use dgc_database_tp.Prelude.{
  Bool, true, false, List, [], ◌∷◌, ◌++◌, Option, none, some, if◌then◌else◌,
}

module _ {ℓ} (A : Type ℓ) where
  pub record Queue : Type ℓ where
    pub queue : List A
    pub running : Bool
    pub current : Option A
    pub started : List A

-- What can happen to the queue: a call of `add`, or the end of the promise that is awaited. A
-- promise that is rejected has no `then`, so `_runNext` is not called.
pub data Event {ℓ} (A : Type ℓ) : Type ℓ where
  added : A → Event A
  resolved rejected : Event A

module _ {ℓ} {A : Type ℓ} where
  abbrev pub new_queue : Queue A
  new_queue = record { queue = []; running = false; current = none; started = [] }

  -- `shift` of a list that is not empty, and the call
  abbrev pub run_first : List A → Queue A → Queue A
  run_first [] q = record q { running = false; current = none }
  run_first (c ∷ rest) q = record q {
    queue = rest;
    current = some c;
    started = q.started ++ c ∷ [];
  }

  unfoldable pub run_next : Queue A → Queue A
  run_next q = run_first q.queue q

  unfoldable pub run_until_empty : Queue A → Queue A
  unfolding run_next
  run_until_empty q = if q.running then q else run_next (record q { running = true })

  unfoldable pub add : A → Queue A → Queue A
  unfolding run_until_empty
  add a q = run_until_empty (record q { queue = q.queue ++ a ∷ [] })

  abbrev pub settle : Option A → Queue A → Queue A
  settle none q = q
  settle (some c) q = run_next q

  unfoldable pub step : Event A → Queue A → Queue A
  unfolding add run_next
  step (added a) q = add a q
  step resolved q = settle q.current q
  step rejected q = record q { current = none }

  unfoldable pub run : List (Event A) → Queue A → Queue A
  run [] q = q
  run (v ∷ vs) q = run vs (step v q)
