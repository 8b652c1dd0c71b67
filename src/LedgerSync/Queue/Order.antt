-- ===== src/LedgerSync/Queue/Order.antt =====
-- The order in which the queue calls its functions, and what a rejected promise does to it.
use mathlib.Core.List.{append-nil, append_assoc}
use dgc_database_tp.Prelude.{
  true, false, List, [], ◌∷◌, ◌++◌, Option, none, some, ◌≡◌, refl, sym, ◌∙◌, ap, arith, Bool-cases,
  inl, inr,
}
use dgc_database_tp.LedgerSync.Queue.{
  Queue, new_queue, run_first, run_next, add, Event, added, resolved, rejected, settle, step, run,
}

module _ {ℓ} {A : Type ℓ} where
  -- The functions that the events add, in order.
  abbrev pub adds : List (Event A) → List A
  adds [] = []
  adds (added a ∷ vs) = a ∷ adds vs
  adds (resolved ∷ vs) = adds vs
  adds (rejected ∷ vs) = adds vs

  -- A queue whose function is not running has nothing left to run.
  pub record IsDrained (q : Queue A) : Type ℓ where
    pub empty : q.running ≡ false → q.queue ≡ []
    pub idle : q.running ≡ false → q.current ≡ none

  run_first-order :
      (l : List A) (q : Queue A)
      → q.queue ≡ l
      → (run_first l q).started ++ (run_first l q).queue ≡ q.started ++ l
  run_first-order [] q e = ap (λ r. q.started ++ r) e
  run_first-order (c ∷ rest) q e = append_assoc q.started (c ∷ []) rest

  settle-order :
      (o : Option A) (q : Queue A)
      → (settle o q).started ++ (settle o q).queue ≡ q.started ++ q.queue
  unfolding run_next
  settle-order none q = refl
  settle-order (some c) q = run_first-order q.queue q refl

  step-order :
      (v : Event A) (q : Queue A)
      → (step v q).started ++ (step v q).queue ≡ (q.started ++ q.queue) ++ adds (v ∷ [])
  unfolding step
  step-order (added a) q = elim (Bool-cases q.running) [
    | inl busy ↦ rw (busy, append_assoc q.started q.queue (a ∷ []))
    | inr free ↦
        rw (free, append_assoc q.started q.queue (a ∷ []))
          (run_first-order (q.queue ++ a ∷ [])
            (record q { queue = q.queue ++ a ∷ []; running = true }) refl)
  ]
  step-order resolved q = settle-order q.current q ∙ sym (append-nil _)
  step-order rejected q = rw append-nil

  adds-cons : (v : Event A) (vs : List (Event A)) → adds (v ∷ vs) ≡ adds (v ∷ []) ++ adds vs
  adds-cons (added a) vs = refl
  adds-cons resolved vs = refl
  adds-cons rejected vs = refl

  run-order_from :
      (vs : List (Event A)) (q : Queue A)
      → (run vs q).started ++ (run vs q).queue ≡ (q.started ++ q.queue) ++ adds vs
  unfolding run
  run-order_from [] q = rw append-nil
  run-order_from (v ∷ vs) q =
      run-order_from vs (step v q)
      ∙ rw (step-order v q, adds-cons v vs)
          (append_assoc (q.started ++ q.queue) (adds (v ∷ [])) (adds vs))

  -- Whatever happens to a new queue, the functions that were called, followed by those that wait,
  -- are all the functions that were added, in the order in which they were added.
  pub run-order :
      (vs : List (Event A)) → (run vs new_queue).started ++ (run vs new_queue).queue ≡ adds vs
  run-order vs = run-order_from vs new_queue

  pub run_first-IsDrained :
      (l : List A) (q : Queue A) → q.queue ≡ l → q.running ≡ true → IsDrained (run_first l q)
  run_first-IsDrained [] q e r = record { empty = λ _. e; idle = λ _. refl }
  run_first-IsDrained (c ∷ rest) q e r = ground arith

  settle-IsDrained :
      (o : Option A) (q : Queue A) → q.current ≡ o → IsDrained q → IsDrained (settle o q)
  unfolding run_next
  settle-IsDrained none q e h = h
  settle-IsDrained (some c) q e h = run_first-IsDrained q.queue q refl (ground arith)

  step-IsDrained : (v : Event A) (q : Queue A) → IsDrained q → IsDrained (step v q)
  unfolding step
  step-IsDrained (added a) q h = elim (Bool-cases q.running) [
    | inl busy ↦ ground arith
    | inr free ↦ rw free (
        run_first-IsDrained (q.queue ++ a ∷ [])
          (record q { queue = q.queue ++ a ∷ []; running = true }) refl refl)
  ]
  step-IsDrained resolved q h = settle-IsDrained q.current q refl h
  step-IsDrained rejected q h = ground arith

  pub run-IsDrained : (vs : List (Event A)) (q : Queue A) → IsDrained q → IsDrained (run vs q)
  unfolding run
  run-IsDrained [] q h = h
  run-IsDrained (v ∷ vs) q h = run-IsDrained vs (step v q) (step-IsDrained v q h)

  -- Whenever the queue is not running, every function that was added to it has been called, in the
  -- order in which they were added.
  pub run_idle :
      (vs : List (Event A))
      → (run vs new_queue).running ≡ false
      → (run vs new_queue).started ≡ adds vs
  run_idle vs e =
      let h = run-IsDrained vs new_queue (record { empty = λ _. refl; idle = λ _. refl }) in
      sym (append-nil _)
      ∙ ap (λ r. (run vs new_queue).started ++ r) (sym (h.empty e))
      ∙ run-order vs

  -- A promise was rejected: the queue is marked as running, and nothing runs.
  pub record IsStuck (q : Queue A) : Type ℓ where
    pub busy : q.running ≡ true
    pub idle : q.current ≡ none

  step-IsStuck :
      (v : Event A) (q : Queue A)
      → IsStuck q
      → IsStuck (step v q) × ((step v q).started ≡ q.started)
  unfolding step
  step-IsStuck (added a) q h = ground arith
  step-IsStuck resolved q h = ground arith
  step-IsStuck rejected q h = ground arith

  stuck-run : (vs : List (Event A)) (q : Queue A) → IsStuck q → (run vs q).started ≡ q.started
  unfolding run
  stuck-run [] q h = refl
  stuck-run (v ∷ vs) q h =
      let (stuck, same) = step-IsStuck v q h in stuck-run vs (step v q) stuck ∙ same

  -- A queue that waits for a promise is marked as running.
  abbrev IsAwaiting : Queue A → Type ℓ
  IsAwaiting q = (c : A) → q.current ≡ some c → q.running ≡ true

  run_first-IsAwaiting : (l : List A) (q : Queue A) → q.running ≡ true → IsAwaiting (run_first l q)
  run_first-IsAwaiting [] q busy c e = cc
  run_first-IsAwaiting (d ∷ rest) q busy c e = busy

  settle-IsAwaiting :
      (o : Option A) (q : Queue A) → q.current ≡ o → IsAwaiting q → IsAwaiting (settle o q)
  unfolding run_next
  settle-IsAwaiting none q e h = h
  settle-IsAwaiting (some c) q e h = run_first-IsAwaiting q.queue q (h c e)

  add-busy : (a : A) (q : Queue A) → q.running ≡ true → (add a q).running ≡ true
  unfolding add
  add-busy a q busy = rw busy refl

  step-IsAwaiting : (v : Event A) (q : Queue A) → IsAwaiting q → IsAwaiting (step v q)
  unfolding step
  step-IsAwaiting (added a) q h = elim (Bool-cases q.running) [
    | inl busy ↦ λ c e. add-busy a q busy
    | inr free ↦ rw free (
        run_first-IsAwaiting (q.queue ++ a ∷ [])
          (record q { queue = q.queue ++ a ∷ []; running = true }) refl)
  ]
  step-IsAwaiting resolved q h = settle-IsAwaiting q.current q refl h
  step-IsAwaiting rejected q h = λ c e. cc

  run-IsAwaiting : (vs : List (Event A)) (q : Queue A) → IsAwaiting q → IsAwaiting (run vs q)
  unfolding run
  run-IsAwaiting [] q h = h
  run-IsAwaiting (v ∷ vs) q h = run-IsAwaiting vs (step v q) (step-IsAwaiting v q h)

  run-append : (vs ws : List (Event A)) (q : Queue A) → run (vs ++ ws) q ≡ run ws (run vs q)
  unfolding run
  run-append [] ws q = refl
  run-append (v ∷ vs) ws q = run-append vs ws (step v q)

  rejected-stuck :
      (ws : List (Event A)) (q : Queue A)
      → q.running ≡ true
      → (run (rejected ∷ ws) q).started ≡ q.started
  unfolding run step
  rejected-stuck ws q busy =
      stuck-run ws (record q { current = none }) (record { busy = busy; idle = refl })

  -- When the promise that a new queue waits for is rejected, after any events, no function is ever
  -- called again, whatever is added and whatever happens then.
  pub run_stuck :
      (vs ws : List (Event A)) (c : A)
      → (run vs new_queue).current ≡ some c
      → (run (vs ++ rejected ∷ ws) new_queue).started ≡ (run vs new_queue).started
  run_stuck vs ws c waits =
      let q = run vs new_queue in
      let busy = run-IsAwaiting vs new_queue (λ d e. cc) c waits in
      ap (λ r. r.started) (run-append vs (rejected ∷ ws) new_queue) ∙ rejected-stuck ws q busy
