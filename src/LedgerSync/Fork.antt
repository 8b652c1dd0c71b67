-- ===== src/LedgerSync/Fork.antt =====
-- getForkedDocRemover of ledger_sync/db/blocks.js: one table rolled back before a block.
pub mod Rollback
use mathlib.Core.List.Perm
use mathlib.Core.Path.{fun_ext}
use dgc_database_tp.Prelude.{
  ℕ, ◌≤◌, ◌<◌, Bool, true, false, not, ◌&&◌, ◌||◌, List, [], ◌∷◌, ◌≡◌, refl, ◌∙◌, map, filter,
  count, all, Perm, filter-perm, map-perm, count-map, filter_congr, all-map, all-filter, map_fixed,
  count_congr, filter_kept, leb, ltb, eqb, if◌then◌else◌, max_safe_integer, EqTest, ◌==◌, arith,
}
use dgc_database_tp.Rethink.{Table, alter}
use dgc_database_tp.Rethink.Counts.{
  count-delete, count-update, count-insert, all-delete, all-update,
}
use dgc_database_tp.LedgerSync.Versions.{
  Version, is_open, version_of, set_end, has_index, is_open_at, add_block_state,
}
use dgc_database_tp.LedgerSync.Versions.Adding.{is_bounded, IsLedger, add_block_state_lem, added}
use dgc_database_tp.LedgerSync.Versions.Reading.{docs-added, no_duplicate}

-- `r.row('startBlockNum').ge(blockNum)` and `doc('endBlockNum').ge(blockNum)`
abbrev pub starts_from : {D : Type 0} → ℕ → Version D → Bool
starts_from block_num v = leb block_num v.start_block_num

abbrev pub ends_from : {D : Type 0} → ℕ → Version D → Bool
ends_from block_num v = leb block_num v.end_block_num

module _ {D : Type 0} (T : Table (Version D)) where
  open T use {State, docs, update, delete, docs-update, docs-delete}

  unfoldable pub remove_forked_docs : ℕ → State → State
  remove_forked_docs block_num t =
      update (ends_from block_num) (set_end max_safe_integer) (delete (starts_from block_num) t)

  all-removed :
      (q r : Version D → Bool) (b : ℕ) (t : State)
      → ((v : Version D) → r v ≡ true → q (alter (ends_from b) (set_end max_safe_integer) v) ≡ true)
      → ((v : Version D) → not (starts_from b v) ≡ true → r v ≡ true)
      → all q (docs (remove_forked_docs b t)) ≡ true
  unfolding remove_forked_docs
  all-removed q r b t h k =
      all-update T q (ends_from b) (set_end max_safe_integer) (delete (starts_from b) t)
      ∙ all-map q r (alter (ends_from b) (set_end max_safe_integer))
          (docs (delete (starts_from b) t)) h
          (all-delete T r (starts_from b) t ∙ all-filter r (λ v. not (starts_from b v)) (docs t) k)

  -- After the roll-back of block b no version began at b or later, and every version that is not
  -- open ended before b.
  pub remove_forked_docs-before :
      (b : ℕ) (t : State)
      → all
          (λ v. ltb v.start_block_num b && (ltb v.end_block_num b || is_open v))
          (docs (remove_forked_docs b t))
        ≡ true
  remove_forked_docs-before b t =
      all-removed (λ v. ltb v.start_block_num b && (ltb v.end_block_num b || is_open v))
        (λ v. ltb v.start_block_num b) b t (λ v. reset v) (λ v. kept v)
    where
      reset :
          (v : Version D)
          → ltb v.start_block_num b ≡ true
          → (ltb (alter (ends_from b) (set_end max_safe_integer) v).start_block_num b
              && (ltb (alter (ends_from b) (set_end max_safe_integer) v).end_block_num b
                  || is_open (alter (ends_from b) (set_end max_safe_integer) v)))
            ≡ true
      reset v h = ground arith

      kept : (v : Version D) → not (starts_from b v) ≡ true → ltb v.start_block_num b ≡ true
      kept v h = ground arith

module _ {D K : Type 0} ⦃e : EqTest K⦄ (index : D → K) where
  -- The versions of a key that the roll-back of block `b` leaves open.
  abbrev pub is_reopened : K → ℕ → Version D → Bool
  is_reopened k b v = has_index index k v && (ltb v.start_block_num b && ends_from b v)

module _ {D K : Type 0} ⦃e : EqTest K⦄ (T : Table (Version D)) (index : D → K) where
  open T use {State, docs, insert, update, delete, docs-update, docs-delete}

  reopened :
      (k : K) (b : ℕ) (v : Version D)
      → b ≤ max_safe_integer
      → (not (starts_from b v)
          && is_open_at index k (alter (ends_from b) (set_end max_safe_integer) v))
        ≡ is_reopened index k b v
  reopened k b v le = ground arith

  -- After the roll-back of block b, at most 2^53 - 1, a key has as many open versions as it had
  -- versions that began before b and ended at b or later.
  pub count-open-remove_forked_docs :
      (k : K) (b : ℕ) (t : State)
      → b ≤ max_safe_integer
      → count (is_open_at index k) (docs (remove_forked_docs T b t))
        ≡ count (is_reopened index k b) (docs t)
  unfolding remove_forked_docs
  count-open-remove_forked_docs k b t le =
      count-update T (is_open_at index k) (ends_from b) (set_end max_safe_integer)
        (delete (starts_from b) t)
      ∙ count-delete T (λ v. is_open_at index k (alter (ends_from b) (set_end max_safe_integer) v))
          (starts_from b) t
      ∙ rw (fun_ext (λ v. reopened k b v le))
