-- ===== src/Prelude/Options.antt =====
-- Steps that may fail: chains of them, one for every element of a list, and the relation of a list
-- with its results.
use mathlib.Core.Path.{◌≡◌, refl, subst, sym}
use mathlib.Core.Bool.{Bool, true}
use mathlib.Core.List.{List, [], ◌∷◌, ◌++◌, head?}
use mathlib.Core.Option
use mathlib.Core.Option.{Option, none, some}
use native.Mathlib.Omega.{arith}
use mathlib.Core.Logic.{◌⊎◌, inl, inr}
use dgc_database_tp.Prelude.Tests.{Bool-cases}
use dgc_database_tp.Prelude.Lists.{filter, Every}

-- A chain of steps that may fail, and a step for every element.
module _ {ℓ κ} {A : Type ℓ} {B : Type κ} where
  infixl 5 ◌>>=◌
  abbrev pub ◌>>=◌ : Option A → (A → Option B) → Option B
  none >>= f = none
  some a >>= f = f a

  pub >>=-eq-some :
      (m : Option A) (f : A → Option B) {b : B}
      → (m >>= f) ≡ some b
      → (a : A) × (m ≡ some a) × (f a ≡ some b)
  >>=-eq-some none f h = cc
  >>=-eq-some (some a) f h = (a, refl, h)

module _ {κ} {B : Type κ} where
  abbrev cons_option : Option B → Option (List B) → Option (List B)
  cons_option none ys = none
  cons_option (some y) none = none
  cons_option (some y) (some ys) = some (y ∷ ys)

module _ {ℓ κ} {A : Type ℓ} {B : Type κ} where
  abbrev pub map_option : (A → Option B) → List A → Option (List B)
  map_option f [] = some []
  map_option f (x ∷ xs) = cons_option (f x) (map_option f xs)

module _ {ℓ κ} {A : Type ℓ} {B : Type κ} where
  pub map-eq-some :
      (f : A → B) (m : Option A) {b : B}
      → Option.map f m ≡ some b
      → (a : A) × (m ≡ some a) × (f a ≡ b)
  map-eq-some f none h = cc
  map-eq-some f (some a) h = (a, refl, ground arith)

module _ {ℓ} {A : Type ℓ} where
  -- What a filter finds first passes it.
  pub head-filter : (p : A → Bool) (xs : List A) {y : A} → head? (filter p xs) ≡ some y → p y ≡ true
  head-filter p [] h = cc
  head-filter p (x ∷ xs) {y} h = elim (Bool-cases (p x)) [
    | inl holds ↦ let first : some x ≡ some y = rw holds at h in cc
    | inr fails ↦ head-filter p xs (rw fails at h)
  ]

module _ {ℓ} {A : Type ℓ} where
  abbrev pub Any : (A → Type 0) → List A → Type 0
  Any P [] = ⊥
  Any P (x ∷ xs) = P x ⊎ Any P xs

module _ {κ} {B : Type κ} where
  cons_option-eq-some :
      (m : Option B) (ms : Option (List B)) {ys : List B}
      → cons_option m ms ≡ some ys
      → (z : B) × ((zs : List B) × (m ≡ some z) × (ms ≡ some zs) × (ys ≡ z ∷ zs))
  cons_option-eq-some none ms h = cc
  cons_option-eq-some (some z) none h = cc
  cons_option-eq-some (some z) (some zs) h = (z, (zs, refl, refl, ground arith))

module _ {ℓ κ} {A : Type ℓ} {B : Type κ} where
  -- A step for every element that succeeds, taken apart.
  pub map_option-cons :
      (f : A → Option B) (x : A) (xs : List A) {ys : List B}
      → map_option f (x ∷ xs) ≡ some ys
      → (z : B) × ((zs : List B) × (f x ≡ some z) × (map_option f xs ≡ some zs) × (ys ≡ z ∷ zs))
  map_option-cons f x xs h = cons_option-eq-some (f x) (map_option f xs) h

module _ {ℓ} {A : Type ℓ} where
  pub Any-imp : (P Q : A → Type 0) (xs : List A) → ((x : A) → P x → Q x) → Any P xs → Any Q xs
  Any-imp P Q [] f h = elim h [ ]
  Any-imp P Q (x ∷ xs) f (inl p) = inl (f x p)
  Any-imp P Q (x ∷ xs) f (inr p) = inr (Any-imp P Q xs f p)

-- A step for every element of a list relates the list and the results.
abbrev pub Each : {A B : Type 0} → (A → B → Type 0) → List A → List B → Type 0
Each R [] [] = Unit
Each R [] (y ∷ ys) = ⊥
Each R (x ∷ xs) [] = ⊥
Each R (x ∷ xs) (y ∷ ys) = R x y × Each R xs ys

pub map_option-Each :
    {A B : Type 0} (R : A → B → Type 0) (f : A → Option B) (xs : List A) (ys : List B)
    → ((x : A) (y : B) → f x ≡ some y → R x y)
    → map_option f xs ≡ some ys
    → Each R xs ys
map_option-Each R f [] [] step h = tt
map_option-Each R f [] (y ∷ ys) step h = cc
map_option-Each R f (x ∷ xs) ys step h =
    let (z, (zs, first, rest, parts)) = map_option-cons f x xs h in
    subst (Each R (x ∷ xs)) (sym parts) (step x z first, map_option-Each R f xs zs step rest)

pub Each-compose :
    {A B C : Type 0} (R : A → B → Type 0) (Q : B → C → Type 0) (T : A → C → Type 0) (xs : List A)
    (ys : List B) (zs : List C)
    → ((x : A) (y : B) (z : C) → R x y → Q y z → T x z)
    → Each R xs ys
    → Each Q ys zs
    → Each T xs zs
Each-compose R Q T [] [] [] f h k = tt
Each-compose R Q T [] [] (z ∷ zs) f h k = elim k [ ]
Each-compose R Q T [] (y ∷ ys) zs f h k = elim h [ ]
Each-compose R Q T (x ∷ xs) [] zs f h k = elim h [ ]
Each-compose R Q T (x ∷ xs) (y ∷ ys) [] f h k = elim k [ ]
Each-compose R Q T (x ∷ xs) (y ∷ ys) (z ∷ zs) f h k =
    (f x y z h.0 k.0, Each-compose R Q T xs ys zs f h.1 k.1)

-- One related element may be replaced by another.
pub Each-replace :
    {A B : Type 0} (R : A → B → Type 0) (xs : List A) (before after : List B) (y y' : B)
    → ((x : A) → R x y → R x y')
    → Each R xs (before ++ y ∷ after)
    → Each R xs (before ++ y' ∷ after)
Each-replace R [] [] after y y' f h = elim h [ ]
Each-replace R [] (b ∷ before) after y y' f h = elim h [ ]
Each-replace R (x ∷ xs) [] after y y' f h = (f x h.0, h.1)
Each-replace R (x ∷ xs) (b ∷ before) after y y' f h =
    (h.0, Each-replace R xs before after y y' f h.1)

pub Each-imp :
    {A B : Type 0} (R Q : A → B → Type 0) (xs : List A) (ys : List B)
    → ((x : A) (y : B) → R x y → Q x y)
    → Each R xs ys
    → Each Q xs ys
Each-imp R Q [] [] f h = tt
Each-imp R Q [] (y ∷ ys) f h = elim h [ ]
Each-imp R Q (x ∷ xs) [] f h = elim h [ ]
Each-imp R Q (x ∷ xs) (y ∷ ys) f h = (f x y h.0, Each-imp R Q xs ys f h.1)

module _ {ℓ κ} {A : Type ℓ} {B : Type κ} where
  -- A step for every element succeeds when each of them does.
  pub map_option-Every :
      (f : A → Option B) (xs : List A)
      → Every (λ x. (y : B) × (f x ≡ some y)) xs
      → (ys : List B) × (map_option f xs ≡ some ys)
  map_option-Every f [] h = ([], refl)
  map_option-Every f (x ∷ xs) ((y, first), rest) =
      let (ys, done) = map_option-Every f xs rest in (y ∷ ys, rw (first, done) refl)

  -- A chain succeeds when its first step does, and the rest does on its result.
  pub >>=-succeeds :
      (m : Option A) (f : A → Option B)
      → ((a : A) × ((m ≡ some a) × ((b : B) × (f a ≡ some b))))
      → (b : B) × ((m >>= f) ≡ some b)
  >>=-succeeds m f (a, (first, (b, rest))) = (b, rw first rest)
