-- ===== src/Rethink.antt =====
-- What the program asks of RethinkDB (the npm package `rethinkdb` and its server), as interfaces.
-- A table is read as a sequence in no particular order, so the laws hold up to permutation.
pub mod Lists
pub mod Sorting
pub mod Counts
use dgc_database_tp.Prelude.{
  ◌≢◌, true, [], Every, Bool, not, List, ◌∷◌, map, Perm, Option, none, some, ◌≡◌, EqTest, ◌==◌,
  if◌then◌else◌, filter,
}

-- The change that `selection.update(f)` makes to a document, selected by `p`.
abbrev pub alter : {D : Type 0} → (D → Bool) → (D → D) → D → D
alter p f d = if p d then f d else d

-- A table whose primary key is generated: an insert always adds one document.
pub record Table (D : Type 0) : Type 1 where
  pub State : Type 0
  pub docs : State → List D
  pub insert : D → State → State
  pub update : (D → Bool) → (D → D) → State → State
  pub delete : (D → Bool) → State → State
  pub docs-insert : (d : D) (s : State) → Perm (docs (insert d s)) (d ∷ docs s)
  pub docs-update :
      (p : D → Bool) (f : D → D) (s : State) → Perm (docs (update p f s)) (map (alter p f) (docs s))
  pub docs-delete :
      (p : D → Bool) (s : State) → Perm (docs (delete p s)) (filter (λ d. not (p d)) (docs s))

-- A table with a primary key of the program's: an insert at a key in use is an error (`none`).
pub record KeyedTable (K D : Type 0) ⦃e : EqTest K⦄ (key : D → K) : Type 1 where
  pub State : Type 0
  pub get : K → State → Option D
  pub query : (D → Bool) → State → List D
  pub insert : D → State → Option State
  pub replace : D → State → State
  pub delete : (K → Bool) → State → State
  pub get-key : (k : K) (s : State) {d : D} → get k s ≡ some d → key d ≡ k
  pub query-stored :
      (p : D → Bool) (s : State) → Every (λ d. (get (key d) s ≡ some d) × (p d ≡ true)) (query p s)
  pub query-found :
      (p : D → Bool) (s : State) (k : K) {d : D} → get k s ≡ some d → p d ≡ true → query p s ≢ []
  pub query-filter : (p : D → Bool) (s : State) → Perm (query p s) (filter p (query (λ d. true) s))
  pub insert-free : (d : D) (s : State) → get (key d) s ≡ none → (t : State) × (insert d s ≡ some t)
  pub insert-used : (d : D) (s : State) {old : D} → get (key d) s ≡ some old → insert d s ≡ none
  pub get-insert :
      (d : D) (s t : State) (k : K)
      → insert d s ≡ some t
      → get k t ≡ (if key d == k then some d else get k s)
  pub get-replace :
      (d : D) (s : State) (k : K) → get k (replace d s) ≡ (if key d == k then some d else get k s)
  pub get-delete :
      (p : K → Bool) (s : State) (k : K) → get k (delete p s) ≡ (if p k then none else get k s)
