-- ===== src/Server/RecordUpdates/Sending.antt =====
-- What a call of updateRecords sends, in any order of its steps.
use mathlib.Core.Path.{subst}
use mathlib.Core.Option
use dgc_database_tp.Prelude.{
  ℕ, ◌+◌, ◌≤◌, String, List, [], ◌∷◌, count, map, Option, none, some, ◌≡◌, refl, sym, ap, inl, inr,
  ◌⊎◌, Bool-cases, ◌==◌, text_test, Each, Each-replace, Each-imp, append_cons-ne-nil, arith,
}
use dgc_database_tp.Server.Transactions.{Sdk, Moment, Transaction}
use dgc_database_tp.Server.Transactions.Payloads.{update_properties, property_message}
use dgc_database_tp.Server.Transactions.Batches.{txn_of, create_txns-each}
use dgc_database_tp.Server.Properties.{Written, write_property}
use dgc_database_tp.Server.Properties.Fields.{type_in}
use dgc_database_tp.Server.Reads.Retrieve.{Answer}
use dgc_database_tp.Server.RecordCalls.{waiting, record_id_of, encoded}
use dgc_database_tp.Server.RecordUpdates.{
  fill_property, property_of, Slot, Task, Call, fetched, slots_of, create_update, updates_of,
  submitted, TaskStep, fetch_ends, submission, task_of, tasks_of, Step, retrieval_ends, task_step,
  Reach, begin, next,
}

module _ {V : Type 0} where
  -- What a table gives to a property: nothing, where it does not have the name.
  abbrev pub typed : List (String × String) → String → V → Option (Written V)
  typed table name x = Option.map (λ t. write_property t name x) (type_in table name)

  fill_property-absent :
      (table : List (String × String)) (name : String) (x : V) (p : Option (Written V))
      → count (λ q. q.0 == name) table ≤ 0
      → fill_property table name x p ≡ p
  unfolding fill_property
  fill_property-absent [] name x p h = refl
  fill_property-absent ((key, t) ∷ table) name x p h = elim (Bool-cases (key == name)) [
    | inl same ↦ absurd (ground arith)
    | inr other ↦ rw other (fill_property-absent table name x p (ground arith))
  ]

  pub fill_property-typed :
      (table : List (String × String)) (name : String) (x : V)
      → count (λ q. q.0 == name) table ≤ 1
      → fill_property table name x none ≡ typed table name x
  unfolding fill_property
  fill_property-typed [] name x h = refl
  fill_property-typed ((key, t) ∷ table) name x h = elim (Bool-cases (key == name)) [
    | inl same ↦ rw same (fill_property-absent table name x _ (ground arith))
    | inr other ↦ rw other (fill_property-typed table name x (ground arith))
  ]

module _ {Bytes V : Type 0} (K : Sdk Bytes V) (batcher private_key : String)
    (table : List (String × String)) where
  -- The property is the one that the table gives to the name, or it is still `{}`.
  abbrev pub IsDue : String × V → Option (Written V) → Type 0
  IsDue nx p = (p ≡ none) ⊎ (p ≡ typed table nx.0 nx.1)

  -- The transaction that gives a property to a record, made with the caller's key.
  abbrev pub IsUpdateOf : Option String → Option (Written V) → Transaction Bytes → Type 0
  IsUpdateOf record_id p txn =
      (now : Moment) × (txn
        ≡ txn_of K batcher (record {
          private_key = private_key;
          action = update_properties (encoded record_id) (property_message p ∷ []);
          now = now;
        }))

  -- The transaction that gives a record a property of a name of which something holds.
  abbrev pub IsUpdateBy :
      (String × V → Option (Written V) → Type 0)
      → Option String
      → String × V
      → Transaction Bytes
      → Type 0
  IsUpdateBy P record_id nx txn = (p : Option (Written V)) × P nx p × IsUpdateOf record_id p txn

  abbrev pub IsUpdate : Option String → String × V → Transaction Bytes → Type 0
  IsUpdate record_id nx txn = IsUpdateBy IsDue record_id nx txn

  abbrev pub IsSent : List (String × V) → Option String → Option (List (Transaction Bytes)) → Type 0
  IsSent data_ record_id none = Unit
  IsSent data_ record_id (some txns) = Each (IsUpdate record_id) data_ txns

  abbrev IsSlot : String × V → Slot V → Type 0
  IsSlot nx s = (s.name ≡ nx.0) × (s.value ≡ nx.1) × IsDue nx (property_of s.update)

  -- The update of a record that was retrieved.
  pub record IsTask (data_ : List (String × V)) (record_id : Option String) (t : Task Bytes V)
      : Type 0 where
    pub same : t.record_id ≡ record_id
    pub slots : Each IsSlot data_ t.slots
    pub sent : IsSent data_ record_id t.sent

  slots_of-IsSlot : (data_ : List (String × V)) → Each IsSlot data_ (slots_of data_)
  unfolding slots_of
  slots_of-IsSlot [] = tt
  slots_of-IsSlot (nx ∷ data_) = ((refl, refl, inl refl), slots_of-IsSlot data_)

  -- The transactions of the slots, whatever holds of the properties in them.
  updates_of-IsUpdateBy :
      (P : String × V → Option (Written V) → Type 0) (now : ℕ → Moment) (n : ℕ)
      (record_id : Option String) (data_ : List (String × V)) (slots : List (Slot V))
      → Each (λ nx s. P nx (property_of s.update)) data_ slots
      → Each
          (IsUpdateBy P record_id)
          data_
          (map (txn_of K batcher) (updates_of private_key record_id now n slots))
  unfolding updates_of create_update
  updates_of-IsUpdateBy P now n record_id [] [] h = tt
  updates_of-IsUpdateBy P now n record_id [] (s ∷ slots) h = elim h [ ]
  updates_of-IsUpdateBy P now n record_id (nx ∷ data_) [] h = elim h [ ]
  updates_of-IsUpdateBy P now n record_id (nx ∷ data_) (s ∷ slots) h = (
    (property_of s.update, h.0, (now n, refl)),
    updates_of-IsUpdateBy P now (n + 1) record_id data_ slots h.1,
  )

  -- What a task submits.
  pub submitted-IsUpdateBy :
      (P : String × V → Option (Written V) → Type 0) (now : ℕ → Moment) (data_ : List (String × V))
      (t : Task Bytes V)
      → Each (λ nx s. P nx (property_of s.update)) data_ t.slots
      → (txns : List (Transaction Bytes)) × ((submitted K batcher private_key table now t).sent
          ≡ some txns)
        × Each (IsUpdateBy P t.record_id) data_ txns
  unfolding submitted
  submitted-IsUpdateBy P now data_ t h = (
    map (txn_of K batcher) (updates_of private_key t.record_id now 0 t.slots),
    ap some (create_txns-each K batcher (updates_of private_key t.record_id now 0 t.slots) [] tt),
    updates_of-IsUpdateBy P now 0 t.record_id data_ t.slots h,
  )

  module _ (data_ : List (String × V)) where
    -- Every name of the data stands in the table at most once.
    abbrev pub IsKeyed : Type 0
    IsKeyed = (name : String) → count (λ q. q.0 == name) table ≤ 1

    fetched-IsSlot :
        (answer : Option (List (String × String))) (nx : String × V) (s : Slot V)
        → IsKeyed
        → (answer ≡ none) ⊎ (answer ≡ some table)
        → IsSlot nx s
        → IsSlot nx (fetched answer s)
    unfolding fetched
    fetched-IsSlot none nx s once found (same, held, due) = (same, held, inl refl)
    fetched-IsSlot (some tb) nx s once (inl absent) h = cc
    fetched-IsSlot (some tb) nx s once (inr found) (same, held, due) =
        let p : tb ≡ table = cc in
        (same, held, inr (rw (p, same, held) (fill_property-typed table nx.0 nx.1 (once nx.0))))

    task_of-IsTask :
        (a : Answer) → IsTask data_ (record_id_of a) (task_of K batcher private_key table data_ a)
    task_of-IsTask a = record { same = refl; slots = slots_of-IsSlot data_; sent = tt }

    submitted-IsSent :
        (now : ℕ → Moment) (record_id : Option String) (t : Task Bytes V)
        → IsTask data_ record_id t
        → IsSent data_ record_id (submitted K batcher private_key table now t).sent
    submitted-IsSent now record_id t h =
        let (txns, is, each) = submitted-IsUpdateBy IsDue now data_ t (
          Each-imp IsSlot (λ nx s. IsDue nx (property_of s.update)) data_ t.slots (λ nx s k. k.2)
            h.slots) in
        subst (IsSent data_ record_id) (sym is)
          (subst (λ i. Each (IsUpdate i) data_ txns) h.same each)

    TaskStep-IsTask :
        (record_id : Option String) (t t' : Task Bytes V)
        → IsKeyed
        → IsTask data_ record_id t
        → TaskStep K batcher private_key table t t'
        → IsTask data_ record_id t'
    unfolding submitted
    TaskStep-IsTask record_id _ _ once h
          (fetch_ends t t' answer before after s found at first made) =
        subst (IsTask data_ record_id) (sym made) (record {
          same = h.same;
          slots =
              Each-replace IsSlot data_ before after s (fetched answer s)
                (λ nx k. fetched-IsSlot answer nx s once found k)
                (subst (Each IsSlot data_) at h.slots);
          sent = h.sent;
        })
    TaskStep-IsTask record_id _ _ once h (submission t t' now first made) =
        subst (IsTask data_ record_id) (sym made)
          (record { same = h.same; slots = h.slots; sent = submitted-IsSent now record_id t h })

    abbrev pub IsTaskFor : Answer → Task Bytes V → Type 0
    IsTaskFor a t = IsTask data_ (record_id_of a) t

    -- No update was started, or one for each record of the whole result.
    abbrev pub IsStarted : Option (List Answer) → List (Task Bytes V) → Type 0
    IsStarted result tasks =
        (tasks ≡ [])
        ⊎ ((answers : List Answer) × (result ≡ some answers) × Each IsTaskFor answers tasks)

    map-IsTaskFor :
        (answers : List Answer)
        → Each IsTaskFor answers (map (task_of K batcher private_key table data_) answers)
    map-IsTaskFor [] = tt
    map-IsTaskFor (a ∷ as_) = (task_of-IsTask a, map-IsTaskFor as_)

    tasks_of-IsStarted :
        (result : Option (List Answer))
        → IsStarted result (tasks_of K batcher private_key table data_ result)
    tasks_of-IsStarted none = inl refl
    tasks_of-IsStarted (some answers) = inr (answers, refl, map-IsTaskFor answers)

    record IsCall (result : Option (List Answer)) (c : Call Bytes V) : Type 0 where
      to_come : (r : Option (List Answer)) → c.retrieval ≡ waiting r → r ≡ result
      started : IsStarted result c.tasks

    Step-IsCall :
        (result : Option (List Answer)) (c c' : Call Bytes V)
        → IsKeyed
        → IsCall result c
        → Step K batcher private_key table data_ c c'
        → IsCall result c'
    Step-IsCall result _ _ once h (retrieval_ends c c' r at made) =
        subst (IsCall result) (sym made) (record {
          to_come = λ q e. cc;
          started = rw (h.to_come r at) (tasks_of-IsStarted result);
        })
    Step-IsCall result _ _ once h (task_step c c' before after t t' at step made) =
        subst (IsCall result) (sym made) (record {
          to_come = h.to_come;
          started = elim (subst (IsStarted result) at h.started) [
            | inl none_yet ↦ absurd (append_cons-ne-nil before after t none_yet)
            | inr (answers, is, each) ↦ inr (
              answers,
              is,
              Each-replace IsTaskFor answers before after t t'
                  (λ a k. TaskStep-IsTask (record_id_of a) t t' once k step) each,
            )
          ];
        })

    Reach-IsCall :
        (result : Option (List Answer)) (n : ℕ) (c : Call Bytes V)
        → IsKeyed
        → Reach K batcher private_key table data_ result n c
        → IsCall result c
    Reach-IsCall result _ _ once begin = record {
      to_come = λ r e. ground arith;
      started = inl refl;
    }
    Reach-IsCall result _ _ once (next n c c' before step) =
        Step-IsCall result c c' once (Reach-IsCall result n c once before) step

    pub Reach-IsStarted :
        (result : Option (List Answer)) (n : ℕ) (c : Call Bytes V)
        → IsKeyed
        → Reach K batcher private_key table data_ result n c
        → IsStarted result c.tasks
    Reach-IsStarted result n c once h = (Reach-IsCall result n c once h).started
