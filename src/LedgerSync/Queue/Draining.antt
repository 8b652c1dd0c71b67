-- ===== src/LedgerSync/Queue/Draining.antt =====
-- When the queue comes to rest.
use dgc_database_tp.Prelude.{
  ℕ, zero, suc, ◌<◌, true, false, List, [], ◌∷◌, ◌++◌, length, Option, none, some, ◌≡◌, refl, ◌∙◌,
  ap, arith, Bool-cases, inl, inr,
}
use dgc_database_tp.LedgerSync.Queue.{
  Queue, new_queue, run_first, run_next, Event, added, resolved, rejected, settle, step, run,
}
use dgc_database_tp.LedgerSync.Queue.Order.{
  adds, IsDrained, run-IsDrained, run_first-IsDrained, run_idle,
}

module _ {ℓ} {A : Type ℓ} where
  -- No promise of the events is rejected.
  abbrev IsResolving : List (Event A) → Type 0
  IsResolving [] = Unit
  IsResolving (added a ∷ vs) = IsResolving vs
  IsResolving (resolved ∷ vs) = IsResolving vs
  IsResolving (rejected ∷ vs) = ⊥

  -- So many promises resolve.
  abbrev pub ends : ℕ → List (Event A)
  ends zero = []
  ends (suc n) = resolved ∷ ends n

  -- A queue that is running awaits a promise.
  abbrev IsLive : Queue A → Type ℓ
  IsLive q = q.running ≡ true → (c : A) × (q.current ≡ some c)

  run_first-IsLive : (l : List A) (q : Queue A) → IsLive (run_first l q)
  run_first-IsLive [] q h = cc
  run_first-IsLive (c ∷ rest) q h = (c, refl)

  settle-IsLive : (o : Option A) (q : Queue A) → IsLive q → IsLive (settle o q)
  unfolding run_next
  settle-IsLive none q h = h
  settle-IsLive (some c) q h = run_first-IsLive q.queue q

  run-IsLive : (vs : List (Event A)) (q : Queue A) → IsResolving vs → IsLive q → IsLive (run vs q)
  unfolding run step
  run-IsLive [] q ok h = h
  run-IsLive (added a ∷ vs) q ok h = elim (Bool-cases q.running) [
    | inl busy ↦ run-IsLive vs _ ok (rw busy (λ e. h busy))
    | inr free ↦ run-IsLive vs _ ok (rw free (run_first-IsLive (q.queue ++ a ∷ []) _))
  ]
  run-IsLive (resolved ∷ vs) q ok h = run-IsLive vs _ ok (settle-IsLive q.current q h)
  run-IsLive (rejected ∷ vs) q ok h = elim ok [ ]

  idle_stays :
      (n : ℕ) (q : Queue A) → IsDrained q → q.running ≡ false → (run (ends n) q).running ≡ false
  unfolding run step
  idle_stays zero q h idle = idle
  idle_stays (suc n) q h idle =
      let same : step resolved q ≡ q = ap (λ o. settle o q) (h.idle idle) in
      ap (λ p. (run (ends n) p).running) same ∙ idle_stays n q h idle

  next_step :
      (q : Queue A) (c : A) (waiting : List A)
      → q.current ≡ some c
      → q.queue ≡ waiting
      → step resolved q ≡ run_first waiting q
  unfolding step run_next
  next_step q c waiting at is = ap (λ o. settle o q) at ∙ ap (λ xs. run_first xs q) is

  drain :
      (n : ℕ) (waiting : List A) (q : Queue A) (c : A)
      → q.running ≡ true
      → q.current ≡ some c
      → q.queue ≡ waiting
      → length waiting < n
      → (run (ends n) q).running ≡ false
  unfolding run
  drain zero waiting q c busy at is le = absurd (omega arith)
  drain (suc n) [] q c busy at is le =
      ap (λ p. (run (ends n) p).running) (next_step q c [] at is)
      ∙ idle_stays n (run_first [] q) (run_first-IsDrained [] q is busy) refl
  drain (suc n) (d ∷ rest) q c busy at is le =
      ap (λ p. (run (ends n) p).running) (next_step q c (d ∷ rest) at is)
      ∙ drain n rest (run_first (d ∷ rest) q) d busy refl refl (omega arith)

  run-append : (vs ws : List (Event A)) (q : Queue A) → run (vs ++ ws) q ≡ run ws (run vs q)
  unfolding run
  run-append [] ws q = refl
  run-append (v ∷ vs) ws q = run-append vs ws (step v q)

  adds-ends : (vs : List (Event A)) (n : ℕ) → adds (vs ++ ends n) ≡ adds vs
  adds-ends [] zero = refl
  adds-ends [] (suc n) = adds-ends [] n
  adds-ends (added a ∷ vs) n = ap (λ xs. a ∷ xs) (adds-ends vs n)
  adds-ends (resolved ∷ vs) n = adds-ends vs n
  adds-ends (rejected ∷ vs) n = adds-ends vs n

  -- When no promise of a new queue was rejected, and then more promises resolve than functions
  -- wait, the queue comes to rest, and every function that was added has been called, in the order
  -- in which they were added.
  pub run_drains :
      (vs : List (Event A)) (n : ℕ)
      → IsResolving vs
      → length (run vs new_queue).queue < n
      → ((run (vs ++ ends n) new_queue).running ≡ false)
        × ((run (vs ++ ends n) new_queue).started ≡ adds vs)
  run_drains vs n ok enough =
      let q = run vs new_queue in
      let drained : IsDrained q =
        run-IsDrained vs new_queue (record { empty = λ _. refl; idle = λ _. refl }) in
      let rests : (run (ends n) q).running ≡ false = elim (Bool-cases q.running) [
        | inl busy ↦
            let (c, at) = run-IsLive vs new_queue ok (λ e. cc) busy in
            drain n q.queue q c busy at refl enough
        | inr idle ↦ idle_stays n q drained idle
      ] in
      let done : (run (vs ++ ends n) new_queue).running ≡ false =
        ap (λ p. p.running) (run-append vs (ends n) new_queue) ∙ rests in
      (done, run_idle (vs ++ ends n) done ∙ adds-ends vs n)
