-- ===== src/Prelude/Lists.antt =====
-- Lists filtered and counted by Boolean tests, with native lengths.
use Prim.Native.Nat.{ℕ, zero, suc, ◌+◌, ◌≤◌}
use mathlib.Core.Path.{◌≡◌, refl, ap}
use mathlib.Core.Bool.{Bool, true, false, ◌&&◌}
use mathlib.Core.List.{List, [], ◌∷◌, ◌++◌, map}
use mathlib.Core.Option.{Option, none, some}
use native.Mathlib.Omega.{arith}
use mathlib.Core.Logic.{◌≢◌, ◌↔◌, inl, inr}
use dgc_database_tp.Prelude.Tests.{Bool-cases, if◌then◌else◌}

module _ {ℓ} {A : Type ℓ} where
  abbrev pub length : List A → ℕ
  length [] = 0
  length (x ∷ xs) = suc (length xs)

  abbrev pub filter : (A → Bool) → List A → List A
  filter p [] = []
  filter p (x ∷ xs) = let rest = filter p xs in if p x then x ∷ rest else rest

  abbrev pub count : (A → Bool) → List A → ℕ
  count p [] = 0
  count p (x ∷ xs) = (if p x then 1 else 0) + count p xs

  abbrev pub all : (A → Bool) → List A → Bool
  all p [] = true
  all p (x ∷ xs) = p x && all p xs

  abbrev pub get_elem? : List A → ℕ → Option A
  get_elem? [] i = none
  get_elem? (x ∷ xs) zero = some x
  get_elem? (x ∷ xs) (suc i) = get_elem? xs i

  abbrev pub take : ℕ → List A → List A
  take zero xs = []
  take (suc n) [] = []
  take (suc n) (x ∷ xs) = x ∷ take n xs

  abbrev pub drop : ℕ → List A → List A
  drop zero xs = xs
  drop (suc n) [] = []
  drop (suc n) (x ∷ xs) = drop n xs

  pub length-filter : (p : A → Bool) (xs : List A) → length (filter p xs) ≡ count p xs
  length-filter p [] = refl
  length-filter p (x ∷ xs) = ground (arith, length-filter p xs)

  pub filter-filter :
      (p q : A → Bool) (xs : List A) → filter p (filter q xs) ≡ filter (λ x. q x && p x) xs
  filter-filter p q [] = refl
  filter-filter p q (x ∷ xs) = ground (arith, filter-filter p q xs)

  pub count-filter :
      (p q : A → Bool) (xs : List A) → count p (filter q xs) ≡ count (λ x. q x && p x) xs
  count-filter p q [] = refl
  count-filter p q (x ∷ xs) = ground (arith, count-filter p q xs)

  pub all-filter :
      (p q : A → Bool) (xs : List A)
      → ((x : A) → q x ≡ true → p x ≡ true)
      → all p (filter q xs) ≡ true
  all-filter p q [] h = refl
  all-filter p q (x ∷ xs) h = ground (arith, all-filter p q xs h, h x)

  -- What holds of all is enough to compare two filters.
  pub filter_congr :
      (i p q : A → Bool) (xs : List A)
      → ((x : A) → i x ≡ true → p x ≡ q x)
      → all i xs ≡ true
      → filter p xs ≡ filter q xs
  filter_congr i p q [] h a = refl
  filter_congr i p q (x ∷ xs) h a = ground (arith, filter_congr i p q xs h, h x)

  pub filter_none : (p : A → Bool) (xs : List A) → count p xs ≡ 0 → filter p xs ≡ []
  filter_none p [] h = refl
  filter_none p (x ∷ xs) h = ground (arith, filter_none p xs)

  pub count_never : (p : A → Bool) (xs : List A) → ((x : A) → p x ≡ false) → count p xs ≡ 0
  count_never p [] h = refl
  count_never p (x ∷ xs) h = ground (arith, count_never p xs h, h x)

  pub count_absent :
      (i p : A → Bool) (xs : List A)
      → ((x : A) → i x ≡ true → p x ≡ false)
      → all i xs ≡ true
      → count p xs ≡ 0
  count_absent i p [] h a = refl
  count_absent i p (x ∷ xs) h a = ground (arith, count_absent i p xs h, h x)

  -- What holds of all is enough to compare two counts.
  pub count_congr :
      (i p q : A → Bool) (xs : List A)
      → ((x : A) → i x ≡ true → p x ≡ q x)
      → all i xs ≡ true
      → count p xs ≡ count q xs
  count_congr i p q [] h a = refl
  count_congr i p q (x ∷ xs) h a = ground (arith, count_congr i p q xs h, h x)

  pub filter_kept :
      (i p : A → Bool) (xs : List A)
      → ((x : A) → i x ≡ true → p x ≡ true)
      → all i xs ≡ true
      → filter p xs ≡ xs
  filter_kept i p [] h a = refl
  filter_kept i p (x ∷ xs) h a = ground (arith, filter_kept i p xs h, h x)

  pub count_narrow :
      (p q r : A → Bool) (xs : List A)
      → count (λ x. p x && (q x && r x)) xs ≤ count (λ x. p x && q x) xs
  count_narrow p q r [] = omega arith
  count_narrow p q r (x ∷ xs) = ground (arith, count_narrow p q r xs)

  count_le :
      (i p q : A → Bool) (xs : List A)
      → ((x : A) → i x ≡ true → p x ≡ true → q x ≡ true)
      → all i xs ≡ true
      → count p xs ≤ count q xs
  count_le i p q [] h a = omega arith
  count_le i p q (x ∷ xs) h a = ground (arith, count_le i p q xs h, h x)

  pub all_imp :
      (p q : A → Bool) (xs : List A)
      → ((x : A) → p x ≡ true → q x ≡ true)
      → all p xs ≡ true
      → all q xs ≡ true
  all_imp p q [] h a = refl
  all_imp p q (x ∷ xs) h a = ground (arith, all_imp p q xs h, h x)

module _ {ℓ} {A : Type ℓ} where
  pub count-append : (p : A → Bool) (xs ys : List A) → count p (xs ++ ys) ≡ count p xs + count p ys
  count-append p [] ys = omega arith
  count-append p (x ∷ xs) ys = let rest = count-append p xs ys in omega arith

module _ {A : Type 0} where
  pub append_cons-ne-nil : (before after : List A) (y : A) → before ++ y ∷ after ≢ []
  append_cons-ne-nil [] after y e = cc
  append_cons-ne-nil (b ∷ before) after y e = cc

module _ {ℓ κ} {A : Type ℓ} where
  abbrev pub Every : (A → Type κ) → List A → Type κ
  Every P [] = Unit
  Every P (x ∷ xs) = P x × Every P xs

  pub Every-imp : (P Q : A → Type κ) (xs : List A) → ((x : A) → P x → Q x) → Every P xs → Every Q xs
  Every-imp P Q [] h e = tt
  Every-imp P Q (x ∷ xs) h (here, later) = (h x here, Every-imp P Q xs h later)

module _ {A : Type 0} where
  pub Every-append :
      (P : A → Type 0) (xs ys : List A) → Every P (xs ++ ys) ↔ (Every P xs × Every P ys)
  Every-append P [] ys = (λ h. (tt, h), λ h. h.1)
  Every-append P (x ∷ xs) ys =
      let rest = Every-append P xs ys in
      (λ h. let both = rest.0 h.1 in ((h.0, both.0), both.1), λ h. (h.0.0, rest.1 (h.0.1, h.1)))

module _ {A : Type 0} where
  pub Every-filter :
      (P Q : A → Type 0) (p : A → Bool) (xs : List A)
      → ((x : A) → P x → p x ≡ true → Q x)
      → Every P xs
      → Every Q (filter p xs)
  Every-filter P Q p [] h e = tt
  Every-filter P Q p (x ∷ xs) h (here, later) = elim (Bool-cases (p x)) [
    | inl t ↦ rw t (h x here t, Every-filter P Q p xs h later)
    | inr f ↦ rw f (Every-filter P Q p xs h later)
  ]

  pub count-pos-ne-nil :
      (p q : A → Bool) (xs : List A) → 1 ≤ count (λ x. p x && q x) xs → filter p xs ≢ []
  count-pos-ne-nil p q [] h e = absurd (omega arith)
  count-pos-ne-nil p q (x ∷ xs) h e = ground (arith, count-pos-ne-nil p q xs)

module _ {ℓ κ} {A : Type ℓ} {B : Type κ} where
  pub count-map :
      (p : B → Bool) (f : A → B) (xs : List A) → count p (map f xs) ≡ count (λ x. p (f x)) xs
  count-map p f [] = refl
  count-map p f (x ∷ xs) = ap (λ (n : ℕ). (if p (f x) then 1 else 0) + n) (count-map p f xs)

  pub filter-map :
      (p : B → Bool) (f : A → B) (xs : List A)
      → filter p (map f xs) ≡ map f (filter (λ x. p (f x)) xs)
  filter-map p f [] = refl
  filter-map p f (x ∷ xs) = ground (arith, filter-map p f xs)

  pub all-map :
      (p : B → Bool) (q : A → Bool) (f : A → B) (xs : List A)
      → ((x : A) → q x ≡ true → p (f x) ≡ true)
      → all q xs ≡ true
      → all p (map f xs) ≡ true
  all-map p q f [] h a = refl
  all-map p q f (x ∷ xs) h a = ground (arith, all-map p q f xs h, h x)

module _ {ℓ} {A : Type ℓ} where
  -- A map that keeps a test, and fixes what passes it, does not change what the filter finds.
  pub filter-map_fixed :
      (p : A → Bool) (f : A → A) (xs : List A)
      → ((x : A) → p (f x) ≡ p x)
      → ((x : A) → p x ≡ true → f x ≡ x)
      → filter p (map f xs) ≡ filter p xs
  filter-map_fixed p f [] h k = refl
  filter-map_fixed p f (x ∷ xs) h k = ground (arith, filter-map_fixed p f xs h k, h x, k x)

  -- A map that fixes every element of a list leaves the list.
  pub map_fixed :
      (i : A → Bool) (f : A → A) (xs : List A)
      → ((x : A) → i x ≡ true → f x ≡ x)
      → all i xs ≡ true
      → map f xs ≡ xs
  map_fixed i f [] h a = refl
  map_fixed i f (x ∷ xs) h a = ground (arith, map_fixed i f xs h, h x)
