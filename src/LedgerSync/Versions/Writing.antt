-- ===== src/LedgerSync/Versions/Writing.antt =====
-- What a reader finds in a table after all the writes of a block (entryAdder of
-- ledger_sync/subscriber/deltas.js, for one table).
pub mod Kept
use mathlib.Core.List.Perm
use mathlib.Core.Path.{fun_ext, subst}
use dgc_database_tp.Prelude.{
  ℕ, ◌≤◌, ◌<◌, Bool, true, false, ◌&&◌, List, [], ◌∷◌, ◌≡◌, ◌∙◌, refl, sym, inl, inr, Perm,
  filter-perm, Option, none, some, ltb, if◌then◌else◌, max_safe_integer, EqTest, ◌==◌, Bool-cases,
  arith,
}
use dgc_database_tp.Rethink.{Table, alter}
use dgc_database_tp.Rethink.Counts.{count-insert, count-update}
use dgc_database_tp.LedgerSync.Versions.{
  Version, is_open, starts_at, version_of, set_end, has_index, add_block_state, write_all,
}
use dgc_database_tp.LedgerSync.Versions.Adding.{IsLedger, duplicates, add_block_state_lem}
use dgc_database_tp.LedgerSync.Versions.Reading.{
  read_at, is_seen_at, read-list, docs-added, no_duplicate, written,
}

module _ {D K : Type 0} ⦃e : EqTest K⦄ (T : Table (Version D)) (index : D → K) where
  open T use {State, docs, insert, update}

  abbrev pub has_key : K → D → Bool
  has_key j d = index d == j

  -- The first document of a list that has the key.
  abbrev pub first_at : K → List D → Option D
  first_at j [] = none
  first_at j (d ∷ ds) = if has_key j d then some d else first_at j ds

  abbrev write : D → ℕ → State → State
  write d b t = add_block_state T index (index d) d b t

  read_fresh :
      (d : D) (j : K) (b c : ℕ) (t : State)
      → ltb 0 (duplicates T index (index d) b t) ≡ false
      → b ≤ c
      → c < max_safe_integer
      → Perm
          (read_at T index j c (write d b t))
          (if index d == j then version_of d b ∷ [] else read_at T index j c t)
  unfolding read_at
  read_fresh d j b c t new le below =
      rw
        (
          add_block_state_lem T index (index d) d b t,
          new,
          ← read-list T index d j b c (docs t) le below,
        )
        (filter-perm (is_seen_at T index j c) (docs-added T index d b t))

  read_other :
      (d : D) (j : K) (b c : ℕ) (t : State)
      → (index d == j) ≡ false
      → b ≤ c
      → c < max_safe_integer
      → Perm (read_at T index j c (write d b t)) (read_at T index j c t)
  read_other d j b c t other le below =
      elim (Bool-cases (ltb 0 (duplicates T index (index d) b t))) [
        | inl dup ↦ rw (add_block_state_lem T index (index d) d b t, dup) (Perm.refl _)
        | inr new ↦
            let same : Perm (read_at T index j c (write d b t))
                (if index d == j then version_of d b ∷ [] else read_at T index j c t) =
              read_fresh d j b c t new le below in
            rw other at same
      ]

  duplicate_after :
      (k j : K) (b : ℕ) (v : Version D)
      → (k == j) ≡ false
      → (has_index index j (alter (has_index index k) (set_end b) v)
          && (is_open (alter (has_index index k) (set_end b) v)
              && starts_at b (alter (has_index index k) (set_end b) v)))
        ≡ (has_index index j v && (is_open v && starts_at b v))
  duplicate_after k j b v other =
      ground (arith, e.decides k j, e.decides (index v.doc) k, e.decides (index v.doc) j)

  duplicates-other :
      (d : D) (j : K) (b : ℕ) (t : State)
      → (index d == j) ≡ false
      → duplicates T index j b (write d b t) ≡ duplicates T index j b t
  duplicates-other d j b t other =
      rw (add_block_state_lem T index (index d) d b t)
        (elim (Bool-cases (ltb 0 (duplicates T index (index d) b t))) [
          | inl dup ↦ rw dup refl
          | inr new ↦ rw new (
              count-insert T (λ v. has_index index j v && (is_open v && starts_at b v))
                (version_of d b) (update (has_index index (index d)) (set_end b) t)
              ∙ rw
                  (
                    count-update T (λ v. has_index index j v && (is_open v && starts_at b v))
                        (has_index index (index d)) (set_end b) t,
                    fun_ext (λ v. duplicate_after (index d) j b v other),
                    other,
                  )
                  (omega arith))
        ])

  write_again :
      (d : D) (j : K) (b : ℕ) (t : State)
      → (index d == j) ≡ true
      → ltb 0 (duplicates T index j b t) ≡ true
      → write d b t ≡ t
  write_again d j b t same dup =
      let q : j ≡ index d = sym ((e.decides (index d) j).0 same) in
      rw
        (
          add_block_state_lem T index (index d) d b t,
          subst (λ k. ltb 0 (duplicates T index k b t) ≡ true) q dup,
        )
        refl

  -- Once the key is written, no later write of the block changes what is read under it.
  read_kept :
      (ds : List D) (j : K) (b c : ℕ) (t : State)
      → ltb 0 (duplicates T index j b t) ≡ true
      → b ≤ c
      → c < max_safe_integer
      → Perm (read_at T index j c (write_all T index ds b t)) (read_at T index j c t)
  unfolding write_all
  read_kept [] j b c t dup le below = Perm.refl _
  read_kept (d ∷ ds) j b c t dup le below = elim (Bool-cases (index d == j)) [
    | inl same ↦ rw (write_again d j b t same dup) (read_kept ds j b c t dup le below)
    | inr other ↦
        Perm.trans
          (read_kept ds j b c (write d b t) (rw (duplicates-other d j b t other) dup) le below)
          (read_other d j b c t other le below)
  ]

  -- What a reader is to find: the first of the documents with the key, or what was there.
  abbrev pub first_or : Option D → ℕ → List (Version D) → List (Version D)
  first_or none b before = before
  first_or (some d) b before = version_of d b ∷ []

  first_or-perm :
      (o : Option D) (b : ℕ) {xs ys : List (Version D)}
      → Perm xs ys
      → Perm (first_or o b xs) (first_or o b ys)
  first_or-perm none b h = h
  first_or-perm (some d) b h = Perm.refl _

  read_first :
      (ds : List D) (j : K) (b c : ℕ) (t : State)
      → ltb 0 (duplicates T index j b t) ≡ false
      → b ≤ c
      → c < max_safe_integer
      → Perm
          (read_at T index j c (write_all T index ds b t))
          (first_or (first_at j ds) b (read_at T index j c t))
  unfolding write_all
  read_first [] j b c t new le below = Perm.refl _
  read_first (d ∷ ds) j b c t new le below = elim (Bool-cases (index d == j)) [
    | inl same ↦
        let q : j ≡ index d = sym ((e.decides (index d) j).0 same) in
        let fresh : ltb 0 (duplicates T index (index d) b t) ≡ false =
          subst (λ k. ltb 0 (duplicates T index k b t) ≡ false) q new in
        let once : ltb 0 (duplicates T index j b (write d b t)) ≡ true =
          subst (λ k. ltb 0 (duplicates T index k b (write d b t)) ≡ true) (sym q)
            (written T index d b t) in
        let found : Perm (read_at T index j c (write d b t))
            (if index d == j then version_of d b ∷ [] else read_at T index j c t) =
          read_fresh d j b c t fresh le below in
        rw same (Perm.trans (read_kept ds j b c (write d b t) once le below) (rw same at found))
    | inr other ↦ rw other (
        Perm.trans
          (read_first ds j b c (write d b t) (rw (duplicates-other d j b t other) new) le below)
          (first_or-perm (first_at j ds) b (read_other d j b c t other le below)))
  ]

  -- On a table that is well formed at an earlier block, the writes of a whole block, in any number
  -- and of any keys, are a map update by the first document of each key: a reader at the block of
  -- the writes or later (below 2^53 - 1) finds that document alone under its key, and under a key
  -- that is not written what was there.
  pub write_all-read_at :
      (ds : List D) (j : K) (n b c : ℕ) (t : State)
      → IsLedger T index n t
      → n < b
      → b ≤ c
      → c < max_safe_integer
      → Perm
          (read_at T index j c (write_all T index ds b t))
          (first_or (first_at j ds) b (read_at T index j c t))
  write_all-read_at ds j n b c t h lt le below =
      read_first ds j b c t (no_duplicate T index j n b t lt h) le below
