-- ===== src/LedgerSync/Fork/Rollback.antt =====
-- addBlockState of a block, and then the removal of that block's fork.
use mathlib.Core.List.Perm
use mathlib.Core.Path.{ap₂}
use dgc_database_tp.Prelude.{
  ℕ, ◌≤◌, ◌<◌, Bool, true, false, not, ◌&&◌, ◌||◌, List, [], ◌∷◌, ◌≡◌, refl, ◌∙◌, map, filter,
  count, all, Perm, filter-perm, map-perm, count_congr, max_safe_integer, EqTest, arith,
}
use dgc_database_tp.Rethink.{Table, alter}
use dgc_database_tp.Rethink.Counts.{count-insert, count-update}
use dgc_database_tp.LedgerSync.Versions.{
  Version, is_open, version_of, set_end, has_index, is_open_at, add_block_state,
}
use dgc_database_tp.LedgerSync.Versions.Adding.{is_bounded, IsLedger, add_block_state_lem, added}
use dgc_database_tp.LedgerSync.Versions.Reading.{docs-added, no_duplicate}
use dgc_database_tp.LedgerSync.Fork.{
  starts_from, ends_from, remove_forked_docs, is_reopened, count-open-remove_forked_docs,
}

module _ {D K : Type 0} ⦃e : EqTest K⦄ (index : D → K) where
  -- A version that is open, or is not of the key.
  abbrev pub is_current_or_other : K → Version D → Bool
  is_current_or_other k v = not (has_index index k v) || is_open v

module _ {D K : Type 0} ⦃e : EqTest K⦄ (T : Table (Version D)) (index : D → K) where
  open T use {State, docs, insert, update, delete, docs-update, docs-delete}

  add_block_state_new :
      (d : D) (n b : ℕ) (t : State)
      → IsLedger T index n t
      → n < b
      → add_block_state T index (index d) d b t ≡ added T index d b t
  add_block_state_new d n b t h lt =
      rw (add_block_state_lem T index (index d) d b t, no_duplicate T index (index d) n b t lt h)

  docs-remove_forked_docs :
      (b : ℕ) (t : State)
      → Perm (docs (remove_forked_docs T b t)) (
          map
            (alter (ends_from b) (set_end max_safe_integer))
            (filter (λ v. not (starts_from b v)) (docs t)))
  unfolding remove_forked_docs
  docs-remove_forked_docs b t =
      Perm.trans (docs-update (ends_from b) (set_end max_safe_integer) (delete (starts_from b) t))
        (map-perm (alter (ends_from b) (set_end max_safe_integer)) (docs-delete (starts_from b) t))

  undone :
      (k : K) (n b : ℕ) (v : Version D)
      → n < b
      → (is_bounded n v && is_current_or_other index k v) ≡ true
      → alter (ends_from b) (set_end max_safe_integer) (alter (has_index index k) (set_end b) v) ≡ v
  undone k n b v lt h = ground arith

  stays :
      (k : K) (n b : ℕ) (v : Version D)
      → n < b
      → is_bounded n v ≡ true
      → not (starts_from b (alter (has_index index k) (set_end b) v)) ≡ true
  stays k n b v lt h = ground arith

  undone_list :
      (k : K) (n b : ℕ) (l : List (Version D))
      → n < b
      → all (is_bounded n) l ≡ true
      → all (is_current_or_other index k) l ≡ true
      → map
          (alter (ends_from b) (set_end max_safe_integer))
          (filter (λ v. not (starts_from b v)) (map (alter (has_index index k) (set_end b)) l))
        ≡ l
  undone_list k n b [] lt h u = refl
  undone_list k n b (v ∷ l) lt h u =
      let here : is_bounded n v ≡ true = ground arith in
      let same : (is_bounded n v && is_current_or_other index k v) ≡ true = ground arith in
      rw (stays k n b v lt here)
        (ap₂ (◌∷◌) (undone k n b v lt same) (undone_list k n b l lt (ground arith) (ground arith)))

  new_goes : (d : D) (b : ℕ) → not (starts_from b (version_of d b)) ≡ false
  new_goes d b = ground arith

  -- On a table that is well formed at a block before b and whose key has no closed version, the
  -- roll-back of block b after a state write at b gives back the documents of before the write, up
  -- to order.
  pub rollback_restores :
      (d : D) (n b : ℕ) (t : State)
      → IsLedger T index n t
      → n < b
      → all (is_current_or_other index (index d)) (docs t) ≡ true
      → Perm (docs (remove_forked_docs T b (add_block_state T index (index d) d b t))) (docs t)
  rollback_restores d n b t h lt u =
      Perm.trans (docs-remove_forked_docs b (add_block_state T index (index d) d b t)) (
        rw (add_block_state_new d n b t h lt) (
          Perm.trans
            (map-perm (alter (ends_from b) (set_end max_safe_integer))
              (filter-perm (λ v. not (starts_from b v)) (docs-added T index d b t)))
            (rw (new_goes d b, undone_list (index d) n b (docs t) lt h.bounded u) (Perm.refl _))))

  all_reopened :
      (k : K) (n b : ℕ) (v : Version D)
      → n < b
      → b ≤ max_safe_integer
      → is_bounded n v ≡ true
      → is_reopened index k b (alter (has_index index k) (set_end b) v) ≡ has_index index k v
  all_reopened k n b v lt le h = ground arith

  new_unopened : (d : D) (b : ℕ) → is_reopened index (index d) b (version_of d b) ≡ false
  new_unopened d b = ground arith

  -- On a table that is well formed at a block before b, the roll-back of a state write at b opens
  -- the whole history of its key: as many versions of it are open afterwards as the key had
  -- versions before the write, closed ones included.
  pub rollback_opens_history :
      (d : D) (n b : ℕ) (t : State)
      → IsLedger T index n t
      → n < b
      → b ≤ max_safe_integer
      → count
          (is_open_at index (index d))
          (docs (remove_forked_docs T b (add_block_state T index (index d) d b t)))
        ≡ count (has_index index (index d)) (docs t)
  rollback_opens_history d n b t h lt le =
      count-open-remove_forked_docs T index (index d) b (add_block_state T index (index d) d b t) le
      ∙ rw (add_block_state_new d n b t h lt) (
          count-insert T (is_reopened index (index d) b) (version_of d b)
            (update (has_index index (index d)) (set_end b) t)
          ∙ rw (new_unopened d b) (
              omega (
                arith,
                count-update T (is_reopened index (index d) b) (has_index index (index d))
                    (set_end b) t,
                count_congr (is_bounded n)
                    (λ v.
                      is_reopened index (index d) b
                        (alter (has_index index (index d)) (set_end b) v))
                    (has_index index (index d)) (docs t) (λ v. all_reopened (index d) n b v lt le)
                    h.bounded,
              )))
