-- ===== src/LedgerSync/Versions/Writing/Kept.antt =====
-- What a reader finds under a key while the writes of a block go on, in several parts.
use mathlib.Core.List.Perm
use mathlib.Core.Path.{subst}
use dgc_database_tp.Prelude.{
  ℕ, ◌<◌, true, false, List, [], ◌∷◌, count, ◌≡◌, ◌∙◌, refl, inl, inr, ◌⊎◌, Perm, Every, none, some,
  ltb, max_safe_integer, EqTest, ◌==◌, Bool-cases, arith,
}
use dgc_database_tp.Rethink.{Table}
use dgc_database_tp.LedgerSync.Versions.{Version, version_of, write_all}
use dgc_database_tp.LedgerSync.Versions.Adding.{duplicates}
use dgc_database_tp.LedgerSync.Versions.Reading.{read_at, written}
use dgc_database_tp.LedgerSync.Versions.Writing.{
  has_key, first_at, write, duplicates-other, write_again, read_kept, read_first,
}

module _ {D K : Type 0} ⦃e : EqTest K⦄ (T : Table (Version D)) (index : D → K) (k : K) (b : ℕ) where
  open T use {State}

  -- Whether the key was written at the block, as addBlockState sees it.
  abbrev IsDuplicate : State → Type 0
  IsDuplicate t = ltb 0 (duplicates T index k b t) ≡ true

  -- The key was not written yet, and the reader finds what was there.
  pub record IsUnwritten (before : List (Version D)) (t : State) : Type 0 where
    pub new : ltb 0 (duplicates T index k b t) ≡ false
    pub same : Perm (read_at T index k b t) before

  -- The key was written, and the reader finds one document, of which something holds.
  pub record IsWritten (P : D → Type 0) (t : State) : Type 0 where
    pub dup : ltb 0 (duplicates T index k b t) ≡ true
    pub doc : D
    pub holds : P doc
    pub named : (index doc == k) ≡ true
    pub found : Perm (read_at T index k b t) (version_of doc b ∷ [])

  write-dup : (d : D) (t : State) → IsDuplicate t → IsDuplicate (write T index d b t)
  write-dup d t dup = elim (Bool-cases (index d == k)) [
    | inl same ↦ rw (write_again T index d k b t same dup) dup
    | inr other ↦ rw (duplicates-other T index d k b t other) dup
  ]

  write_all-dup : (ds : List D) (t : State) → IsDuplicate t → IsDuplicate (write_all T index ds b t)
  unfolding write_all
  write_all-dup [] t dup = dup
  write_all-dup (d ∷ ds) t dup = write_all-dup ds (write T index d b t) (write-dup d t dup)

  pub write_all-IsWritten :
      (P : D → Type 0) (ds : List D) (t : State)
      → b < max_safe_integer
      → IsWritten P t
      → IsWritten P (write_all T index ds b t)
  write_all-IsWritten P ds t below h = record {
    dup = write_all-dup ds t h.dup;
    doc = h.doc;
    holds = h.holds;
    named = h.named;
    found = Perm.trans (read_kept T index ds k b b t h.dup (omega arith) below) h.found;
  }

  -- The documents of the key that a list has: none, or a first one.
  abbrev IsNamed : (D → Type 0) → List D → Type 0
  IsNamed P ds = (d : D) × P d × ((index d == k) ≡ true) × (first_at T index k ds ≡ some d)

  first_at-cases :
      (P : D → Type 0) (ds : List D)
      → Every P ds
      → ((first_at T index k ds ≡ none) × (count (has_key T index k) ds ≡ 0)) ⊎ IsNamed P ds
  first_at-cases P [] h = inl (refl, refl)
  first_at-cases P (d ∷ ds) (here, later) = elim (Bool-cases (index d == k)) [
    | inl same ↦ inr (d, here, same, rw same refl)
    | inr other ↦ elim (first_at-cases P ds later) [
      | inl (nothing, nought) ↦ inl (rw (other, nothing) refl, rw (other, nought) (omega arith))
      | inr (c, holds, named, first) ↦ inr (c, holds, named, rw (other, first) refl)
    ]
  ]

  write_all-absent :
      (ds : List D) (t : State)
      → first_at T index k ds ≡ none
      → duplicates T index k b (write_all T index ds b t) ≡ duplicates T index k b t
  unfolding write_all
  write_all-absent [] t h = refl
  write_all-absent (d ∷ ds) t h = elim (Bool-cases (index d == k)) [
    | inl same ↦ absurd (let c : some d ≡ none = rw same at h in cc)
    | inr other ↦
        write_all-absent ds (write T index d b t) (rw other at h)
        ∙ duplicates-other T index d k b t other
  ]

  write_all-named :
      (ds : List D) (t : State) {d : D}
      → first_at T index k ds ≡ some d
      → IsDuplicate (write_all T index ds b t)
  unfolding write_all
  write_all-named [] t h = cc
  write_all-named (c ∷ ds) t {d} h = elim (Bool-cases (index c == k)) [
    | inl same ↦
        let q : index c ≡ k = (e.decides (index c) k).0 same in
        write_all-dup ds (write T index c b t) (
          subst (λ j. ltb 0 (duplicates T index j b (write T index c b t)) ≡ true) q
            (written T index c b t))
    | inr other ↦ write_all-named ds (write T index c b t) (rw other at h)
  ]

  pub write_all-cases :
      (P : D → Type 0) (before : List (Version D)) (ds : List D) (t : State)
      → b < max_safe_integer
      → Every P ds
      → IsUnwritten before t
      → (IsUnwritten before (write_all T index ds b t) × (count (has_key T index k) ds ≡ 0))
        ⊎ IsWritten P (write_all T index ds b t)
  write_all-cases P before ds t below each h =
      let read = read_first T index ds k b b t h.new (omega arith) below in
      elim (first_at-cases P ds each) [
        | inl (nothing, nought) ↦ inl (
          record {
            new = rw (write_all-absent ds t nothing) h.new;
            same = Perm.trans (rw nothing at read) h.same;
          },
          nought,
        )
        | inr (d, holds, named, first) ↦ inr (record {
          dup = write_all-named ds t first;
          doc = d;
          holds = holds;
          named = named;
          found = rw first at read;
        })
      ]
