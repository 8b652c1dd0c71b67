-- ===== src/Rethink/Counts.antt =====
-- The laws of a table, read as counts and universal tests over its documents.
use dgc_database_tp.Prelude.{
  ◌+◌, Bool, not, ◌&&◌, ◌≡◌, ◌∙◌, map, filter, count, all, count-perm, all-perm, count-map,
  count-filter, if◌then◌else◌,
}
use dgc_database_tp.Rethink.{Table, alter}

module _ {D : Type 0} (T : Table D) where
  open T use {State, docs, insert, update, delete, docs-insert, docs-update, docs-delete}

  pub count-insert :
      (q : D → Bool) (d : D) (s : State)
      → count q (docs (insert d s)) ≡ (if q d then 1 else 0) + count q (docs s)
  count-insert q d s = count-perm q (docs-insert d s)

  pub count-update :
      (q p : D → Bool) (f : D → D) (s : State)
      → count q (docs (update p f s)) ≡ count (λ d. q (alter p f d)) (docs s)
  count-update q p f s = count-perm q (docs-update p f s) ∙ count-map q (alter p f) (docs s)

  pub count-delete :
      (q p : D → Bool) (s : State)
      → count q (docs (delete p s)) ≡ count (λ d. not (p d) && q d) (docs s)
  count-delete q p s = count-perm q (docs-delete p s) ∙ count-filter q (λ d. not (p d)) (docs s)

  pub all-insert :
      (q : D → Bool) (d : D) (s : State) → all q (docs (insert d s)) ≡ (q d && all q (docs s))
  all-insert q d s = all-perm q (docs-insert d s)

  pub all-update :
      (q p : D → Bool) (f : D → D) (s : State)
      → all q (docs (update p f s)) ≡ all q (map (alter p f) (docs s))
  all-update q p f s = all-perm q (docs-update p f s)

  pub all-delete :
      (q p : D → Bool) (s : State)
      → all q (docs (delete p s)) ≡ all q (filter (λ d. not (p d)) (docs s))
  all-delete q p s = all-perm q (docs-delete p s)
