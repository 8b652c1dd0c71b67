-- ===== src/LedgerSync/Versions/Reading.antt =====
-- What the server's block filter finds in a table after addBlockState.
use mathlib.Core.List.Perm
use dgc_database_tp.Prelude.{
  ℕ, ◌≤◌, ◌<◌, Bool, true, false, ◌&&◌, List, [], ◌∷◌, ◌≡◌, ◌∙◌, inl, inr, map, filter, Perm,
  filter-perm, filter_none, filter-map_fixed, count-map, count_never, count_absent, ltb,
  if◌then◌else◌, max_safe_integer, EqTest, ◌==◌, Bool-cases, arith,
}
use dgc_database_tp.Rethink.{Table, alter}
use dgc_database_tp.Rethink.Counts.{count-insert}
use dgc_database_tp.LedgerSync.Versions.{
  Version, is_open, starts_at, version_of, set_end, has_block, has_index, add_block_state,
}
use dgc_database_tp.LedgerSync.Versions.Adding.{
  is_bounded, IsLedger, duplicates, add_block_state_lem, added,
}

module _ {D K : Type 0} ⦃e : EqTest K⦄ (T : Table (Version D)) (index : D → K) where
  open T use {State, docs, insert, update, docs-insert, docs-update}

  -- `getTable(name, block).filter(hasX(value))`: what a reader at a block sees of a key.
  abbrev pub is_seen_at : K → ℕ → Version D → Bool
  is_seen_at value block v = has_block block v && has_index index value v

  unfoldable pub read_at : K → ℕ → State → List (Version D)
  read_at value block t = filter (is_seen_at value block) (docs t)

  seen_closed :
      (k j : K) (b c : ℕ) (v : Version D)
      → b ≤ c
      → (k == j) ≡ true
      → is_seen_at j c (alter (has_index index k) (set_end b) v) ≡ false
  seen_closed k j b c v le s =
      ground (arith, e.decides k j, e.decides (index v.doc) k, e.decides (index v.doc) j)

  seen_other :
      (k j : K) (b c : ℕ) (v : Version D)
      → (k == j) ≡ false
      → is_seen_at j c (alter (has_index index k) (set_end b) v) ≡ is_seen_at j c v
  seen_other k j b c v s =
      ground (arith, e.decides k j, e.decides (index v.doc) k, e.decides (index v.doc) j)

  fixed_other :
      (k j : K) (b c : ℕ) (v : Version D)
      → (k == j) ≡ false
      → is_seen_at j c v ≡ true
      → alter (has_index index k) (set_end b) v ≡ v
  fixed_other k j b c v s h =
      ground (arith, e.decides k j, e.decides (index v.doc) k, e.decides (index v.doc) j)

  new_seen :
      (d : D) (j : K) (b c : ℕ)
      → b ≤ c
      → c < max_safe_integer
      → is_seen_at j c (version_of d b) ≡ (index d == j)
  new_seen d j b c le lt = ground arith

  closed_unseen :
      (k j : K) (b c : ℕ) (l : List (Version D))
      → b ≤ c
      → (k == j) ≡ true
      → filter (is_seen_at j c) (map (alter (has_index index k) (set_end b)) l) ≡ []
  closed_unseen k j b c l le s =
      filter_none (is_seen_at j c) (map (alter (has_index index k) (set_end b)) l) (
        count-map (is_seen_at j c) (alter (has_index index k) (set_end b)) l
        ∙ count_never (λ v. is_seen_at j c (alter (has_index index k) (set_end b) v)) l
            (λ v. seen_closed k j b c v le s))

  pub read-list :
      (d : D) (j : K) (b c : ℕ) (l : List (Version D))
      → b ≤ c
      → c < max_safe_integer
      → filter
          (is_seen_at j c)
          (version_of d b ∷ map (alter (has_index index (index d)) (set_end b)) l)
        ≡ (if index d == j then version_of d b ∷ [] else filter (is_seen_at j c) l)
  read-list d j b c l le lt = elim (Bool-cases (index d == j)) [
    | inl s ↦ rw (new_seen d j b c le lt, s, closed_unseen (index d) j b c l le s)
    | inr s ↦
        rw (new_seen d j b c le lt, s)
          (filter-map_fixed (is_seen_at j c) (alter (has_index index (index d)) (set_end b)) l
            (λ v. seen_other (index d) j b c v s) (λ v. fixed_other (index d) j b c v s))
  ]

  pub docs-added :
      (d : D) (b : ℕ) (t : State)
      → Perm
          (docs (added T index d b t))
          (version_of d b ∷ map (alter (has_index index (index d)) (set_end b)) (docs t))
  docs-added d b t =
      Perm.trans (docs-insert (version_of d b) (update (has_index index (index d)) (set_end b) t))
        (Perm.cons (version_of d b) (docs-update (has_index index (index d)) (set_end b) t))

  pub no_duplicate :
      (k : K) (n b : ℕ) (t : State)
      → n < b
      → IsLedger T index n t
      → ltb 0 (duplicates T index k b t) ≡ false
  no_duplicate k n b t lt h = rw (
      count_absent (is_bounded n) (λ v. has_index index k v && (is_open v && starts_at b v))
        (docs t) early h.bounded)
    where
      early :
          (v : Version D)
          → is_bounded n v ≡ true
          → (has_index index k v && (is_open v && starts_at b v)) ≡ false
      early v w = ground arith

  -- On a table that is well formed at an earlier block, a state write is a map update: a reader at
  -- the block of the write or later (below 2^53 - 1) sees the written document alone under its
  -- key, and under any other key the documents it saw before, up to order.
  pub add_block_state-read_at :
      (d : D) (j : K) (n b c : ℕ) (t : State)
      → IsLedger T index n t
      → n < b
      → b ≤ c
      → c < max_safe_integer
      → Perm
          (read_at j c (add_block_state T index (index d) d b t))
          (if index d == j then version_of d b ∷ [] else read_at j c t)
  unfolding read_at
  add_block_state-read_at d j n b c t h lt le below =
      rw
        (
          add_block_state_lem T index (index d) d b t,
          no_duplicate (index d) n b t lt h,
          ← read-list d j b c (docs t) le below,
        )
        (filter-perm (is_seen_at j c) (docs-added d b t))

  new_duplicate :
      (d : D) (b : ℕ)
      → (has_index index (index d) (version_of d b)
          && (is_open (version_of d b) && starts_at b (version_of d b)))
        ≡ true
  new_duplicate d b = ground (arith, e.decides (index d) (index d))

  -- Once a key is written at a block, a second write at that block finds a duplicate.
  pub written :
      (d : D) (b : ℕ) (t : State)
      → ltb 0 (duplicates T index (index d) b (add_block_state T index (index d) d b t)) ≡ true
  written d b t =
      rw (add_block_state_lem T index (index d) d b t)
        (elim (Bool-cases (ltb 0 (duplicates T index (index d) b t))) [
          | inl dup ↦ rw dup dup
          | inr new ↦
              rw
                (
                  new,
                  count-insert T (λ v. has_index index (index d) v && (is_open v && starts_at b v))
                      (version_of d b) (update (has_index index (index d)) (set_end b) t),
                  new_duplicate d b,
                )
                (ground arith)
        ])

  -- The first write of a key in a block wins: any later write of that key in the same block, of
  -- the same document or of another, changes nothing.
  add_block_state_again :
      (d d' : D) (b : ℕ) (t : State)
      → index d ≡ index d'
      → add_block_state T index (index d') d' b (add_block_state T index (index d) d b t)
        ≡ add_block_state T index (index d) d b t
  add_block_state_again d d' b t same = rw (
    add_block_state_lem T index (index d') d' b (add_block_state T index (index d) d b t),
    ← same,
    written d b t,
  )
