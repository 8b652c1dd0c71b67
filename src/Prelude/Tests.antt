-- ===== src/Prelude/Tests.antt =====
-- Boolean tests, the conditional, and the equality tests that the models compare keys by.
use Prim.Native.Nat.{ℕ, compare, Ordering}
use Prim.Native.String.{String}
use mathlib.Core.Path.{◌≡◌, refl}
use mathlib.Core.Logic.{◌↔◌, ◌⊎◌, inl, inr}
use mathlib.Core.HLevel.{hedberg}
use mathlib.Core.Bool.{Bool, true, false, ◌&&◌}
use mathlib.Core.List.{List, [], ◌∷◌}
use mathlib.Core.Option.{Option, none, some}
use native.Mathlib.Omega.{arith}
use text.Mathlib.Text.{◌==◌ as str_eq}
use text.Mathlib.TextEquality.{eq_iff}

-- These compute to `compare`, which `ground` and `grind` read with no lemma listed.
abbrev pub ltb : ℕ → ℕ → Bool
ltb a b = elim (compare a b) [ Ordering.lt ↦ true | _ ↦ false ]

abbrev pub leb : ℕ → ℕ → Bool
leb a b = elim (compare a b) [ Ordering.gt ↦ false | _ ↦ true ]

abbrev pub eqb : ℕ → ℕ → Bool
eqb a b = elim (compare a b) [ Ordering.eq ↦ true | _ ↦ false ]

infix 1 if◌then◌else◌
abbrev pub if◌then◌else◌ {ℓ} : {A : Type ℓ} → Bool → A → A → A
if true then x else y = x
if false then x else y = y

pub eqb_iff : (a b : ℕ) → (eqb a b ≡ true) ↔ (a ≡ b)
eqb_iff a b = ground arith

-- How the program compares two values of a type, with `===` or with `r.eq`.
pub record EqTest {ℓ} (A : Type ℓ) : Type ℓ where
  pub test : (x y : A) → Bool
  pub decides : (x y : A) → (test x y ≡ true) ↔ (x ≡ y)

module _ {ℓ} {A : Type ℓ} ⦃t : EqTest A⦄ where
  infix 50 ◌==◌
  abbrev pub ◌==◌ : A → A → Bool
  x == y = t.test x y

instance abbrev pub text_test : EqTest String
text_test = record { test = str_eq; decides = eq_iff }

module _ {ℓ} {A B : Type ℓ} ⦃a : EqTest A⦄ ⦃b : EqTest B⦄ where
  abbrev pair_same : A × B → A × B → Bool
  pair_same p q = (p.0 == q.0) && (p.1 == q.1)

  pub pair_same_iff : (p q : A × B) → (pair_same p q ≡ true) ↔ (p ≡ q)
  pair_same_iff (x, y) (u, v) = ground (arith, a.decides x u, b.decides y v)

  -- ReQL compares compound index values componentwise.
  instance abbrev pub pair_test : EqTest (A × B)
  pair_test = record { test = pair_same; decides = pair_same_iff }

module _ {ℓ} {A : Type ℓ} ⦃a : EqTest A⦄ where
  abbrev pub list_same : List A → List A → Bool
  list_same [] [] = true
  list_same (x ∷ xs) (y ∷ ys) = (x == y) && list_same xs ys
  list_same _ _ = false

  pub list_same_iff : (xs ys : List A) → (list_same xs ys ≡ true) ↔ (xs ≡ ys)
  list_same_iff [] [] = ground arith
  list_same_iff (x ∷ xs) (y ∷ ys) = ground (arith, a.decides x y, list_same_iff xs ys)
  list_same_iff _ _ = ground arith

  instance abbrev pub list_test : EqTest (List A)
  list_test = record { test = list_same; decides = list_same_iff }

module _ {ℓ} {A : Type ℓ} ⦃a : EqTest A⦄ where
  abbrev pub option_same : Option A → Option A → Bool
  option_same none none = true
  option_same (some x) (some y) = x == y
  option_same _ _ = false

instance abbrev pub ℕ_test : EqTest ℕ
ℕ_test = record { test = eqb; decides = eqb_iff }

-- To split on a computed value and keep the equation.
pub Bool-cases : (b : Bool) → (b ≡ true) ⊎ (b ≡ false)
Bool-cases true = inl refl
Bool-cases false = inr refl

module _ {ℓ} {A : Type ℓ} ⦃t : EqTest A⦄ where
  by_test : Discrete A
  by_test x y = elim (Bool-cases (t.test x y)) [
    | inl same ↦ yes ((t.decides x y).0 same)
    | inr other ↦ no (λ p. ground (arith, t.decides x y))
  ]

  pub EqTest-set : IsSet A
  EqTest-set = hedberg by_test

pub String-set : IsSet String
String-set = EqTest-set

pub Option-cases {ℓ} : {A : Type ℓ} (o : Option A) → (o ≡ none) ⊎ ((a : A) × (o ≡ some a))
Option-cases none = inl refl
Option-cases (some a) = inr (a, refl)

-- 2 ^ 53 - 1, JavaScript's Number.MAX_SAFE_INTEGER.
abbrev pub max_safe_integer : ℕ
max_safe_integer = 9007199254740991
