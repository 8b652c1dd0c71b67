-- ===== src/LedgerSync/Versions/Adding.antt =====
-- What addBlockState leaves in a table.
use dgc_database_tp.Prelude.{
  ℕ, ◌+◌, ◌≤◌, ◌<◌, ◌⊎◌, Bool, true, false, ◌&&◌, ◌||◌, ◌≡◌, refl, ◌∙◌, ap, inl, inr, filter, count,
  all, length, count_never, count_narrow, length-filter, count-filter, all-map, all_imp, leb, ltb,
  if◌then◌else◌, max_safe_integer, EqTest, ◌==◌, Bool-cases, arith,
}
use mathlib.Core.Path.{fun_ext}
use dgc_database_tp.Rethink.{Table, alter}
use dgc_database_tp.Rethink.Counts.{count-insert, count-update, all-insert, all-update}
use dgc_database_tp.LedgerSync.Versions.{
  Version, is_open, starts_at, version_of, set_end, has_index, is_open_at, old_docs,
  add_block_state,
}

-- Every version began by block `n`, and is open or was closed by block `n`.
abbrev pub is_bounded : {D : Type 0} → ℕ → Version D → Bool
is_bounded n v = leb v.start_block_num n && (leb v.end_block_num n || is_open v)

module _ {D K : Type 0} ⦃e : EqTest K⦄ (T : Table (Version D)) (index : D → K) where
  open T use {State, docs, insert, update}

  -- The table of a ledger at block `n`: bounded, with at most one open version of a key.
  pub record IsLedger (n : ℕ) (t : State) : Type 0 where
    pub bounded : all (is_bounded n) (docs t) ≡ true
    pub one_open : (k : K) → count (is_open_at index k) (docs t) ≤ 1

  -- The versions of a key that `addBlockState` takes for duplicates.
  abbrev pub duplicates : K → ℕ → State → ℕ
  duplicates k b t = count (λ v. has_index index k v && (is_open v && starts_at b v)) (docs t)

  length-duplicates :
      (k : K) (b : ℕ) (t : State)
      → length (filter (starts_at b) (old_docs T index k t)) ≡ duplicates k b t
  length-duplicates k b t =
      length-filter (starts_at b) (old_docs T index k t)
      ∙ count-filter (starts_at b) is_open (filter (has_index index k) (docs t))
      ∙ count-filter (λ v. is_open v && starts_at b v) (has_index index k) (docs t)

  pub add_block_state_lem :
      (k : K) (d : D) (b : ℕ) (t : State)
      → add_block_state T index k d b t ≡ (
          if ltb 0 (duplicates k b t)
          then t
          else insert (version_of d b) (update (has_index index k) (set_end b) t))
  unfolding add_block_state
  add_block_state_lem k d b t = rw (length-duplicates k b t)

  open_after :
      (k j : K) (b : ℕ) (v : Version D)
      → b < max_safe_integer
      → is_open_at index j (alter (has_index index k) (set_end b) v)
        ≡ (if k == j then false else is_open_at index j v)
  open_after k j b v lt =
      ground (arith, e.decides k j, e.decides (index v.doc) k, e.decides (index v.doc) j)

  abbrev pub added : D → ℕ → State → State
  added d b t = insert (version_of d b) (update (has_index index (index d)) (set_end b) t)

  count-open-added :
      (d : D) (j : K) (b : ℕ) (t : State)
      → b < max_safe_integer
      → count (is_open_at index j) (docs (added d b t))
        ≡ (if index d == j then 1 else count (is_open_at index j) (docs t))
  count-open-added d j b t lt =
      count-insert T (is_open_at index j) (version_of d b)
        (update (has_index index (index d)) (set_end b) t)
      ∙ ap (λ (n : ℕ). (if is_open_at index j (version_of d b) then 1 else 0) + n)
          (count-update T (is_open_at index j) (has_index index (index d)) (set_end b) t)
      ∙ rw (fun_ext (λ v. open_after (index d) j b v lt)) (split (Bool-cases (index d == j)))
    where
      split :
          ((index d == j) ≡ true) ⊎ ((index d == j) ≡ false)
          → (if is_open_at index j (version_of d b) then 1 else 0)
              + count (λ v. if index d == j then false else is_open_at index j v) (docs t)
            ≡ (if index d == j then 1 else count (is_open_at index j) (docs t))
      split (inl s) = rw s (rw (count_never (λ (v : Version D). false) (docs t) (λ v. refl)))
      split (inr s) = rw s (omega arith)

  bounded_after :
      (p : Version D → Bool) (n b : ℕ) (v : Version D)
      → n ≤ b
      → is_bounded n v ≡ true
      → is_bounded b (alter p (set_end b) v) ≡ true
  bounded_after p n b v le h = ground arith

  bounded_new : (d : D) (b : ℕ) → is_bounded b (version_of d b) ≡ true
  bounded_new d b = ground arith

  bounded-added :
      (d : D) (n b : ℕ) (t : State)
      → n ≤ b
      → all (is_bounded n) (docs t) ≡ true
      → all (is_bounded b) (docs (added d b t)) ≡ true
  bounded-added d n b t le h =
      all-insert T (is_bounded b) (version_of d b)
        (update (has_index index (index d)) (set_end b) t)
      ∙ rw (bounded_new d b) (
          all-update T (is_bounded b) (has_index index (index d)) (set_end b) t
          ∙ all-map (is_bounded b) (is_bounded n) (alter (has_index index (index d)) (set_end b))
              (docs t) (λ v. bounded_after (has_index index (index d)) n b v le) h)

  widen : (n b : ℕ) (v : Version D) → n ≤ b → is_bounded n v ≡ true → is_bounded b v ≡ true
  widen n b v le w = ground arith

  pub IsLedger-mono : {n b : ℕ} {t : State} → n ≤ b → IsLedger n t → IsLedger b t
  IsLedger-mono {n} {b} {t} le h = record {
    bounded = all_imp (is_bounded n) (is_bounded b) (docs t) (λ v. widen n b v le) h.bounded;
    one_open = h.one_open;
  }

  -- A state write at block b, below 2^53 - 1, leaves a table that is well formed at b or an
  -- earlier block well formed at b: no key has two open versions, and nothing is later than b.
  pub add_block_state-IsLedger :
      (d : D) (n b : ℕ) (t : State)
      → n ≤ b
      → b < max_safe_integer
      → IsLedger n t
      → IsLedger b (add_block_state T index (index d) d b t)
  add_block_state-IsLedger d n b t le lt h =
      rw (add_block_state_lem (index d) d b t)
        (elim (Bool-cases (ltb 0 (duplicates (index d) b t))) [
          | inl dup ↦ rw dup (IsLedger-mono le h)
          | inr new ↦ rw new (record {
            bounded = bounded-added d n b t le h.bounded;
            one_open = λ k. ground (arith, count-open-added d k b t lt, h.one_open k);
          })
        ])

  -- After a state write at a block below 2^53 - 1 to a table that is well formed at any block,
  -- exactly one version of the key of the document is open.
  add_block_state-one_open :
      (d : D) (n b : ℕ) (t : State)
      → b < max_safe_integer
      → IsLedger n t
      → count (is_open_at index (index d)) (docs (add_block_state T index (index d) d b t)) ≡ 1
  add_block_state-one_open d n b t lt h =
      rw (add_block_state_lem (index d) d b t)
        (elim (Bool-cases (ltb 0 (duplicates (index d) b t))) [
          | inl dup ↦ rw dup (
              ground (
                arith,
                h.one_open (index d),
                count_narrow (has_index index (index d)) (λ v. is_open v) (starts_at b) (docs t),
              ))
          | inr new ↦
              rw new
                (ground (arith, count-open-added d (index d) b t lt, e.decides (index d) (index d)))
        ])
