-- ===== src/Rethink/Lists.antt =====
-- Tables held as plain lists: the interfaces can be met.
use mathlib.Core.List.Perm
use mathlib.Core.Path.{fun_ext}
use dgc_database_tp.Prelude.{
  ◌≤◌, ◌≢◌, true, false, ◌&&◌, inl, inr, Every, Every-filter, Bool-cases, count, count-filter,
  count-pos-ne-nil, filter-filter, Perm, Bool, not, List, [], ◌∷◌, map, Option, none, some, ◌≡◌,
  refl, EqTest, ◌==◌, if◌then◌else◌, filter, arith,
}
use dgc_database_tp.Rethink.{Table, KeyedTable, alter}

abbrev pub list_table : (D : Type 0) → Table D
list_table D = record {
  State = List D;
  docs = λ s. s;
  insert = λ d s. d ∷ s;
  update = λ p f s. map (alter p f) s;
  delete = λ p s. filter (λ d. not (p d)) s;
  docs-insert = λ d s. Perm.refl _;
  docs-update = λ p f s. Perm.refl _;
  docs-delete = λ p s. Perm.refl _;
}

module _ {K D : Type 0} ⦃e : EqTest K⦄ (key : D → K) where
  abbrev pub find : K → List D → Option D
  find k [] = none
  find k (d ∷ ds) = if key d == k then some d else find k ds

  abbrev pub add_new : D → List D → Option (List D)
  add_new d s = elim (find (key d) s) [ none ↦ some (d ∷ s) | some old ↦ none ]

  pub find-key : (k : K) (s : List D) {d : D} → find k s ≡ some d → key d ≡ k
  find-key k [] h = cc
  find-key k (d ∷ ds) {d = r} h = elim (Bool-cases (key d == k)) [
    | inl same ↦ ground (arith, e.decides (key d) k)
    | inr other ↦ find-key k ds {d = r} (ground arith)
  ]

  pub find-add_new :
      (d : D) (s t : List D) (k : K)
      → add_new d s ≡ some t
      → find k t ≡ (if key d == k then some d else find k s)
  find-add_new d s t k h = ground arith

  pub find-filter :
      (p : K → Bool) (s : List D) (k : K)
      → find k (filter (λ d. not (p (key d))) s) ≡ (if p k then none else find k s)
  find-filter p [] k = ground arith
  find-filter p (d ∷ ds) k = ground (arith, find-filter p ds k, e.decides (key d) k)

  pub add_new_free :
      (d : D) (s : List D) → find (key d) s ≡ none → (t : List D) × (add_new d s ≡ some t)
  add_new_free d s h = (d ∷ s, rw (h, add_new))

  pub add_new_used : (d : D) (s : List D) {old : D} → find (key d) s ≡ some old → add_new d s ≡ none
  add_new_used d s h = rw (h, add_new)

  -- the documents that `find` returns
  abbrev pub listed : List D → List D
  listed [] = []
  listed (d ∷ ds) = d ∷ filter (λ x. not (key d == key x)) (listed ds)

  abbrev IsFound : List D → D → Type 0
  IsFound s d = find (key d) s ≡ some d

  later-IsFound :
      (d x : D) (ds : List D) → IsFound ds x → not (key d == key x) ≡ true → IsFound (d ∷ ds) x
  later-IsFound d x ds h n = ground arith

  listed-IsFound : (s : List D) → Every (IsFound s) (listed s)
  listed-IsFound [] = tt
  listed-IsFound (d ∷ ds) = (
    rw ((e.decides (key d) (key d)).1 refl),
    Every-filter (IsFound ds) (IsFound (d ∷ ds)) (λ x. not (key d == key x)) (listed ds)
        (λ x. later-IsFound d x ds) (listed-IsFound ds),
  )

  pub query_listed :
      (p : D → Bool) (s : List D)
      → Every (λ d. (find (key d) s ≡ some d) × (p d ≡ true)) (filter p (listed s))
  query_listed p s =
      Every-filter (IsFound s) (λ d. IsFound s d × (p d ≡ true)) p (listed s) (λ x h t. (h, t))
        (listed-IsFound s)

  other_key :
      (p : D → Bool) (d : D) (k : K) (x : D)
      → (key d == k) ≡ false
      → (not (key d == key x) && (p x && (key x == k))) ≡ (p x && (key x == k))
  other_key p d k x h =
      ground (arith, e.decides (key d) (key x), e.decides (key d) k, e.decides (key x) k)

  count-others :
      (p : D → Bool) (d : D) (k : K) (xs : List D)
      → (key d == k) ≡ false
      → count (λ x. p x && (key x == k)) (filter (λ x. not (key d == key x)) xs)
        ≡ count (λ x. p x && (key x == k)) xs
  count-others p d k xs h = rw (
    count-filter (λ x. p x && (key x == k)) (λ x. not (key d == key x)) xs,
    fun_ext (λ y. other_key p d k y h),
  )

  listed-count :
      (p : D → Bool) (s : List D) (k : K) (d : D)
      → find k s ≡ some d
      → p d ≡ true
      → 1 ≤ count (λ x. p x && (key x == k)) (listed s)
  listed-count p [] k d h t = cc
  listed-count p (x ∷ ds) k d h t = elim (Bool-cases (key x == k)) [
    | inl same ↦ ground arith
    | inr other ↦
        omega (arith, listed-count p ds k d (ground arith) t, count-others p x k (listed ds) other)
  ]

  pub listed-found :
      (p : D → Bool) (s : List D) (k : K) {d : D}
      → find k s ≡ some d
      → p d ≡ true
      → filter p (listed s) ≢ []
  listed-found p s k {d} h t =
      count-pos-ne-nil p (λ x. key x == k) (listed s) (listed-count p s k d h t)

  pub query_all :
      (p : D → Bool) (s : List D)
      → Perm (filter p (listed s)) (filter p (filter (λ d. true) (listed s)))
  query_all p s = rw (filter-filter p (λ d. true) (listed s)) (Perm.refl _)

  abbrev pub list_keyed_table : KeyedTable K D key
  list_keyed_table = record {
    State = List D;
    get = find;
    query = λ p s. filter p (listed s);
    get-key = find-key;
    query-stored = query_listed;
    query-found = listed-found;
    query-filter = query_all;
    insert = add_new;
    replace = λ d s. d ∷ s;
    delete = λ p s. filter (λ d. not (p (key d))) s;
    insert-free = add_new_free;
    insert-used = add_new_used;
    get-insert = find-add_new;
    get-replace = λ d s k. refl;
    get-delete = find-filter;
  }
