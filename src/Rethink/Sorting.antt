-- ===== src/Rethink/Sorting.antt =====
-- `orderBy(r.desc(...))` of RethinkDB: the same documents, the largest values first. Which of two
-- documents with the same value comes first is not fixed.
use mathlib.Core.List.Perm
use dgc_database_tp.Prelude.{
  ℕ, ◌≤◌, true, List, [], ◌∷◌, ◌≡◌, ◌∙◌, refl, all, all-perm, all_imp, leb, Perm, inl, inr,
  Bool-cases, if◌then◌else◌, arith,
}

-- Every value is at least each of those that follow.
abbrev pub IsDescending : {D : Type 0} → (D → ℕ) → List D → Type 0
IsDescending f [] = Unit
IsDescending f (x ∷ xs) = (all (λ y. leb (f y) (f x)) xs ≡ true) × IsDescending f xs

pub record Sorting : Type 1 where
  pub desc : (D : Type 0) → (D → ℕ) → List D → List D
  pub desc-perm : (D : Type 0) (f : D → ℕ) (xs : List D) → Perm (desc D f xs) xs
  pub desc-IsDescending : (D : Type 0) (f : D → ℕ) (xs : List D) → IsDescending f (desc D f xs)

-- The first of a sorted list is the largest.
pub all_of_head :
    {D : Type 0} (f : D → ℕ) (x : D) (xs : List D)
    → IsDescending f (x ∷ xs)
    → all (λ y. leb (f y) (f x)) (x ∷ xs) ≡ true
all_of_head f x xs h = ground arith

-- Sorting by insertion.
module _ {D : Type 0} (f : D → ℕ) where
  abbrev insert_desc : D → List D → List D
  insert_desc x [] = x ∷ []
  insert_desc x (y ∷ ys) =
      let rest = insert_desc x ys in if leb (f y) (f x) then x ∷ y ∷ ys else y ∷ rest

  abbrev pub sort_desc : List D → List D
  sort_desc [] = []
  sort_desc (x ∷ xs) = insert_desc x (sort_desc xs)

  insert_desc-perm : (x : D) (xs : List D) → Perm (insert_desc x xs) (x ∷ xs)
  insert_desc-perm x [] = Perm.refl _
  insert_desc-perm x (y ∷ ys) = elim (Bool-cases (leb (f y) (f x))) [
    | inl le ↦ rw le (Perm.refl _)
    | inr gt ↦ rw gt (Perm.trans (Perm.cons y (insert_desc-perm x ys)) (Perm.swap x y ys))
  ]

  pub sort_desc-perm : (xs : List D) → Perm (sort_desc xs) xs
  sort_desc-perm [] = Perm.refl _
  sort_desc-perm (x ∷ xs) =
      Perm.trans (insert_desc-perm x (sort_desc xs)) (Perm.cons x (sort_desc-perm xs))

  lower :
      (x y : D) (ys : List D)
      → f y ≤ f x
      → all (λ z. leb (f z) (f y)) ys ≡ true
      → all (λ z. leb (f z) (f x)) ys ≡ true
  lower x y ys le h =
      all_imp (λ z. leb (f z) (f y)) (λ z. leb (f z) (f x)) ys (λ z k. ground arith) h

  insert-IsDescending :
      (x : D) (xs : List D) → IsDescending f xs → IsDescending f (insert_desc x xs)
  insert-IsDescending x [] h = (refl, tt)
  insert-IsDescending x (y ∷ ys) h = elim (Bool-cases (leb (f y) (f x))) [
    | inl le ↦ rw le ((ground (arith, lower x y ys (ground arith) h.0)), h)
    | inr gt ↦ rw gt (
      all-perm (λ z. leb (f z) (f y)) (insert_desc-perm x ys) ∙ ground (arith, h.0),
      insert-IsDescending x ys h.1,
    )
  ]

  pub sort_desc-IsDescending : (xs : List D) → IsDescending f (sort_desc xs)
  sort_desc-IsDescending [] = tt
  sort_desc-IsDescending (x ∷ xs) = insert-IsDescending x (sort_desc xs) (sort_desc-IsDescending xs)

abbrev pub by_insertion : Sorting
by_insertion = record {
  desc = λ D f xs. sort_desc f xs;
  desc-perm = λ D f xs. sort_desc-perm f xs;
  desc-IsDescending = λ D f xs. sort_desc-IsDescending f xs;
}
