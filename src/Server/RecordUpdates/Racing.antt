-- ===== src/Server/RecordUpdates/Racing.antt =====
-- What a call of updateRecords can send, in one order of its steps and in another.
use mathlib.Core.Path.{subst}
use mathlib.Core.List.{append_assoc}
use dgc_database_tp.Prelude.{
  ℕ, ◌+◌, String, List, [], ◌∷◌, ◌++◌, map, Option, none, some, ◌≡◌, refl, sym, inr, Each,
}
use dgc_database_tp.Server.Transactions.{Sdk, Moment, Transaction}
use dgc_database_tp.Server.Properties.{Written}
use dgc_database_tp.Server.Reads.Retrieve.{Answer}
use dgc_database_tp.Server.RecordCalls.{ended, record_id_of}
use dgc_database_tp.Server.RecordUpdates.{
  fetching, property_of, Slot, Task, Call, fetched, slots_of, submitted, TaskStep, fetch_ends,
  submission, task_of, start, retrieval_ends, task_step, Reach, begin, next,
}
use dgc_database_tp.Server.RecordUpdates.Sending.{
  typed, fill_property-typed, IsKeyed, IsUpdateBy, submitted-IsUpdateBy,
}

module _ {Bytes V : Type 0} (K : Sdk Bytes V) (batcher private_key : String)
    (table : List (String × String)) (data_ : List (String × V)) where
  -- The steps of one update.
  data TaskRun : Task Bytes V → Task Bytes V → Type 0 where
    stay : (t : Task Bytes V) → TaskRun t t
    move :
        (t u v : Task Bytes V)
        → TaskStep K batcher private_key table t u
        → TaskRun u v
        → TaskRun t v

  run_then :
      (t u v : Task Bytes V) → TaskRun t u → TaskStep K batcher private_key table u v → TaskRun t v
  run_then _ _ v (stay t) last = move t v v last (stay v)
  run_then _ _ v (move t u w first rest) last = move t u v first (run_then u w v rest last)

  -- A state of the call after the retrieval.
  abbrev at_work : List (Task Bytes V) → Call Bytes V
  at_work tasks = record { retrieval = ended; tasks = tasks }

  abbrev Reaches : Option (List Answer) → Call Bytes V → Type 0
  Reaches result c = (n : ℕ) × Reach K batcher private_key table data_ result n c

  TaskRun-Reaches :
      (result : Option (List Answer)) (before after : List (Task Bytes V)) (t t' : Task Bytes V)
      → TaskRun t t'
      → Reaches result (at_work (before ++ t ∷ after))
      → Reaches result (at_work (before ++ t' ∷ after))
  TaskRun-Reaches result before after _ _ (stay t) h = h
  TaskRun-Reaches result before after _ _ (move t u v step rest) (n, h) =
      TaskRun-Reaches result before after u v rest (
        n + 1,
        next n (at_work (before ++ t ∷ after)) (at_work (before ++ u ∷ after)) h
            (task_step _ _ before after t u refl step refl),
      )

  -- Where each update has a run to a good state, the call reaches one in which all are good.
  run_all :
      (IsGood : Answer → Task Bytes V → Type 0) (result : Option (List Answer))
      → ((a : Answer)
          → (t : Task Bytes V) × TaskRun (task_of K batcher private_key table data_ a) t
            × IsGood a t)
      → (answers : List Answer) (before : List (Task Bytes V))
      → Reaches result (at_work (before ++ map (task_of K batcher private_key table data_) answers))
      → (tasks : List (Task Bytes V)) × Reaches result (at_work (before ++ tasks))
        × Each IsGood answers tasks
  run_all IsGood result each [] before h = ([], h, tt)
  run_all IsGood result each (a ∷ as_) before h =
      let (t, steps, good) = each a in
      let tasks = map (task_of K batcher private_key table data_) as_ in
      let h' =
        TaskRun-Reaches result before tasks (task_of K batcher private_key table data_ a) t steps
          h in
      let (rest, reached, all_good) =
        run_all IsGood result each as_ (before ++ t ∷ []) (
          subst (λ xs. Reaches result (at_work xs)) (sym (append_assoc before (t ∷ []) tasks))
            h') in
      (
        t ∷ rest,
        subst (λ xs. Reaches result (at_work xs)) (append_assoc before (t ∷ []) rest) reached,
        (good, all_good),
      )

  abbrev task_with : Option String → List (Slot V) → Task Bytes V
  task_with record_id slots = record { record_id = record_id; slots = slots; sent = none }

  fetch_all :
      (record_id : Option String) (rest : List (String × V)) (before : List (Slot V))
      → TaskRun
          (task_with record_id (before ++ slots_of rest))
          (task_with record_id (before ++ map (fetched (some table)) (slots_of rest)))
  unfolding slots_of
  fetch_all record_id [] before = stay _
  fetch_all record_id ((name, x) ∷ rest) before =
      let s : Slot V = record { name = name; value = x; update = fetching } in
      let s' = fetched (some table) s in
      move _ (task_with record_id (before ++ s' ∷ slots_of rest)) _
        (fetch_ends _ _ (some table) before (slots_of rest) s (inr refl) refl refl refl)
        (subst
          (λ xs.
            TaskRun (task_with record_id (before ++ s' ∷ slots_of rest)) (task_with record_id xs))
          (append_assoc before (s' ∷ []) (map (fetched (some table)) (slots_of rest)))
          (subst
            (λ xs. TaskRun (task_with record_id xs) (
              task_with record_id
                ((before ++ s' ∷ []) ++ map (fetched (some table)) (slots_of rest))))
            (append_assoc before (s' ∷ []) (slots_of rest))
            (fetch_all record_id rest (before ++ s' ∷ []))))

  abbrev IsBlank : String × V → Option (Written V) → Type 0
  IsBlank nx p = p ≡ none

  abbrev IsTyped : String × V → Option (Written V) → Type 0
  IsTyped nx p = p ≡ typed table nx.0 nx.1

  slots_of-IsBlank :
      (rest : List (String × V))
      → Each (λ nx s. IsBlank nx (property_of s.update)) rest (slots_of rest)
  unfolding slots_of
  slots_of-IsBlank [] = tt
  slots_of-IsBlank (nx ∷ rest) = (refl, slots_of-IsBlank rest)

  fetched-IsTyped :
      (rest : List (String × V))
      → IsKeyed K batcher private_key table data_
      → Each
          (λ nx s. IsTyped nx (property_of s.update))
          rest
          (map (fetched (some table)) (slots_of rest))
  unfolding slots_of fetched
  fetched-IsTyped [] once = tt
  fetched-IsTyped (nx ∷ rest) once =
      (fill_property-typed table nx.0 nx.1 (once nx.0), fetched-IsTyped rest once)

  -- The update was sent, each transaction with a property of which something holds.
  abbrev IsSentBy : (String × V → Option (Written V) → Type 0) → Answer → Task Bytes V → Type 0
  IsSentBy P a t =
      (txns : List (Transaction Bytes)) × (t.sent ≡ some txns)
      × Each (IsUpdateBy K batcher private_key table P (record_id_of a)) data_ txns

  submitted_early :
      (now : ℕ → Moment) (a : Answer)
      → (t : Task Bytes V) × TaskRun (task_of K batcher private_key table data_ a) t
        × IsSentBy IsBlank a t
  submitted_early now a =
      let t = task_of K batcher private_key table data_ a in
      let t' = submitted K batcher private_key table now t in
      (
        t',
        run_then t t t' (stay t) (submission t t' now refl refl),
        submitted-IsUpdateBy K batcher private_key table IsBlank now data_ t
            (slots_of-IsBlank data_),
      )

  submitted_late :
      (now : ℕ → Moment) (a : Answer)
      → IsKeyed K batcher private_key table data_
      → (t : Task Bytes V) × TaskRun (task_of K batcher private_key table data_ a) t
        × IsSentBy IsTyped a t
  submitted_late now a once =
      let t = task_with (record_id_of a) (map (fetched (some table)) (slots_of data_)) in
      let t' = submitted K batcher private_key table now t in
      (
        t',
        run_then _ t t' (fetch_all (record_id_of a) data_ []) (submission t t' now refl refl),
        submitted-IsUpdateBy K batcher private_key table IsTyped now data_ t
            (fetched-IsTyped data_ once),
      )

  -- The call reaches a state in which every update was sent.
  abbrev pub CanSend : (String × V → Option (Written V) → Type 0) → List Answer → Type 0
  CanSend P answers =
      (c : Call Bytes V) × Reaches (some answers) c × Each (IsSentBy P) answers c.tasks

  retrieved_all :
      (answers : List Answer)
      → Reaches (some answers) (at_work (map (task_of K batcher private_key table data_) answers))
  retrieved_all answers =
      let initial = start K batcher private_key table data_ (some answers) in
      (1, next 0 initial _ begin (retrieval_ends initial _ (some answers) refl refl))

  -- For any records that are retrieved, and a table that has every name at most once, a call of
  -- updateRecords can come to submit every update with the properties that the table gives to the
  -- names and values, and it can also come to submit every one with empty properties.
  pub right_or_empty :
      (answers : List Answer) (now : ℕ → Moment)
      → IsKeyed K batcher private_key table data_
      → CanSend IsTyped answers × CanSend IsBlank answers
  right_or_empty answers now once =
      let (late, reached, right) =
        run_all (IsSentBy IsTyped) (some answers) (λ a. submitted_late now a once) answers []
          (retrieved_all answers) in
      let (early, reached', empty) =
        run_all (IsSentBy IsBlank) (some answers) (λ a. submitted_early now a) answers []
          (retrieved_all answers) in
      ((at_work late, reached, right), (at_work early, reached', empty))
