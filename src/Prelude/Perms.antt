-- ===== src/Prelude/Perms.antt =====
-- What a permutation keeps: counts, universal tests, filters and images.
use mathlib.Core.Path.{subst, ◌≡◌, refl, ◌∙◌, ap, sym}
use mathlib.Core.Bool.{Bool, true, false, Bool-set}
use mathlib.Core.Logic.{∥∥₁_elim, ∥∥₁_map}
use mathlib.Core.List.{List, [], ◌∷◌, map, Perm, Permᴰ}
use mathlib.Core.List.Permᴰ
use mathlib.Core.List
use native.Mathlib.Nat.{ℕ_set}
use native.Mathlib.Omega.{arith}
use mathlib.Core.Logic.{◌≢◌, inl, inr}
use Prim.Native.Nat.{◌≤◌}
use dgc_database_tp.Prelude.Tests.{Bool-cases, eqb}
use dgc_database_tp.Prelude.Lists.{filter_none, count, all, filter}

module _ {ℓ} {A : Type ℓ} where
  count-permᴰ : (p : A → Bool) {xs ys : List A} → Permᴰ xs ys → count p xs ≡ count p ys
  count-permᴰ p Permᴰ.nil = refl
  count-permᴰ p (Permᴰ.cons e h) = grind (arith, ap p e, count-permᴰ p h)
  count-permᴰ p (Permᴰ.swap e f) = grind (arith, ap p e, ap p f)
  count-permᴰ p (Permᴰ.trans h k) = count-permᴰ p h ∙ count-permᴰ p k

  pub count-perm : (p : A → Bool) {xs ys : List A} → Perm xs ys → count p xs ≡ count p ys
  count-perm p h = ∥∥₁_elim h (ℕ_set _ _) (count-permᴰ p)

  all-permᴰ : (p : A → Bool) {xs ys : List A} → Permᴰ xs ys → all p xs ≡ all p ys
  all-permᴰ p Permᴰ.nil = refl
  all-permᴰ p (Permᴰ.cons e h) = grind (arith, ap p e, all-permᴰ p h)
  all-permᴰ p (Permᴰ.swap e f) = grind (arith, ap p e, ap p f)
  all-permᴰ p (Permᴰ.trans h k) = all-permᴰ p h ∙ all-permᴰ p k

  pub all-perm : (p : A → Bool) {xs ys : List A} → Perm xs ys → all p xs ≡ all p ys
  all-perm p h = ∥∥₁_elim h (Bool-set _ _) (all-permᴰ p)

  filter-cons-permᴰ :
      (p : A → Bool) (x y : A) (xs ys : List A)
      → x ≡ y
      → Permᴰ (filter p xs) (filter p ys)
      → Permᴰ (filter p (x ∷ xs)) (filter p (y ∷ ys))
  filter-cons-permᴰ p x y xs ys e h = elim (Bool-cases (p x)) [
    | inl t ↦ let u : p y ≡ true = sym (ap p e) ∙ t in rw (t, u) (Permᴰ.cons e h)
    | inr t ↦ let u : p y ≡ false = sym (ap p e) ∙ t in rw (t, u) h
  ]

  filter-swap-permᴰ :
      (p : A → Bool) (x y : A) (xs : List A) → Permᴰ (filter p (x ∷ y ∷ xs)) (filter p (y ∷ x ∷ xs))
  filter-swap-permᴰ p x y xs = elim (Bool-cases (p x)) [
    | inl t ↦ elim (Bool-cases (p y)) [
      | inl u ↦ rw (t, u) (Permᴰ.swap refl refl)
      | inr u ↦ rw (t, u) (Permᴰ.refl _)
    ]
    | inr t ↦ rw t (Permᴰ.refl _)
  ]

  filter-permᴰ : (p : A → Bool) {xs ys : List A} → Permᴰ xs ys → Permᴰ (filter p xs) (filter p ys)
  filter-permᴰ p Permᴰ.nil = Permᴰ.nil
  filter-permᴰ p (Permᴰ.cons {a} {b} {l₁} {l₂} e h) =
      filter-cons-permᴰ p a b l₁ l₂ e (filter-permᴰ p h)
  filter-permᴰ p (Permᴰ.swap {a} {b} {a'} {b'} {l} e f) =
      Permᴰ.trans (filter-swap-permᴰ p a b l) (
        filter-cons-permᴰ p b a' (a ∷ l) (b' ∷ l) f (filter-cons-permᴰ p a b' l l e (Permᴰ.refl _)))
  filter-permᴰ p (Permᴰ.trans h k) = Permᴰ.trans (filter-permᴰ p h) (filter-permᴰ p k)

  pub filter-perm : (p : A → Bool) {xs ys : List A} → Perm xs ys → Perm (filter p xs) (filter p ys)
  filter-perm p h = ∥∥₁_map h (filter-permᴰ p)

module _ {ℓ κ} {A : Type ℓ} {B : Type κ} where
  map-permᴰ : (f : A → B) {xs ys : List A} → Permᴰ xs ys → Permᴰ (map f xs) (map f ys)
  map-permᴰ f Permᴰ.nil = Permᴰ.nil
  map-permᴰ f (Permᴰ.cons e h) = Permᴰ.cons (ap f e) (map-permᴰ f h)
  map-permᴰ f (Permᴰ.swap e g) = Permᴰ.swap (ap f e) (ap f g)
  map-permᴰ f (Permᴰ.trans h k) = Permᴰ.trans (map-permᴰ f h) (map-permᴰ f k)

  pub map-perm : (f : A → B) {xs ys : List A} → Perm xs ys → Perm (map f xs) (map f ys)
  map-perm f h = ∥∥₁_map h (map-permᴰ f)

module _ {ℓ} {A : Type ℓ} where
  perm_nilᴰ : {xs ys : List A} → Permᴰ xs ys → ys ≡ [] → xs ≡ []
  perm_nilᴰ Permᴰ.nil h = refl
  perm_nilᴰ (Permᴰ.cons e p) h = cc
  perm_nilᴰ (Permᴰ.swap e f) h = cc
  perm_nilᴰ (Permᴰ.trans p q) h = perm_nilᴰ p (perm_nilᴰ q h)

  perm_singletonᴰ : {xs ys : List A} (x : A) → Permᴰ xs ys → ys ≡ x ∷ [] → xs ≡ x ∷ []
  perm_singletonᴰ x Permᴰ.nil h = h
  perm_singletonᴰ x (Permᴰ.cons {a} {b} {l₁} {l₂} e p) h =
      let rest : l₁ ≡ [] = perm_nilᴰ p (cc) in cc
  perm_singletonᴰ x (Permᴰ.swap e f) h = cc
  perm_singletonᴰ x (Permᴰ.trans p q) h = perm_singletonᴰ x p (perm_singletonᴰ x q h)

  pub perm_singleton : IsSet A → {xs : List A} (x : A) → Perm xs (x ∷ []) → xs ≡ x ∷ []
  perm_singleton s x h = ∥∥₁_elim h (List.is_set s _ _) (λ p. perm_singletonᴰ x p refl)

  not_perm_nil : {xs : List A} → xs ≢ [] → ¬ Perm xs []
  not_perm_nil {xs} h p = ∥∥₁_elim p (hlevel) (λ q. h (perm_nilᴰ q refl))

  -- What is found by a test under a permutation is counted.
  pub count_of_perm :
      (p : A → Bool) (xs ys : List A) → Perm ys (filter p xs) → ys ≢ [] → 1 ≤ count p xs
  count_of_perm p xs ys h ne = elim (Bool-cases (eqb (count p xs) 0)) [
    | inl zero_ ↦
        absurd (not_perm_nil ne (subst (λ zs. Perm ys zs) (filter_none p xs (ground arith)) h))
    | inr more ↦ ground arith
  ]
