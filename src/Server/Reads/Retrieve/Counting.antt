-- ===== src/Server/Reads/Retrieve/Counting.antt =====
-- The counts of findRecordId of server/db/records.js, and the sum that is compared with their number.
use mathlib.Core.Path.{subst}
use dgc_database_tp.Prelude.{
  ℕ, ◌+◌, ◌<◌, Bool, true, false, List, [], ◌∷◌, length, Option, some, ◌≡◌, ◌∙◌, sym, ap, Every,
  Any, inl, inr, ◌⊎◌, eqb, text_test, if◌then◌else◌, >>=-eq-some, map_option, map_option-cons,
  map-eq-some, zero, suc, arith,
}
use dgc_database_tp.Server.Reads.Retrieve.{count_option, add_ones}

-- A count is 0 when no element passes, and positive when one does.
pub count_option-cases :
    {A : Type 0} (f : A → Option Bool) (xs : List A) (n : ℕ)
    → count_option f xs ≡ some n
    → ((n ≡ 0) × Every (λ x. f x ≡ some false) xs) ⊎ ((0 < n) × Any (λ x. f x ≡ some true) xs)
count_option-cases f [] n h = inl (ground arith, tt)
count_option-cases f (x ∷ xs) n h =
    let (b, test, h1) = >>=-eq-some (f x) _ h in
    let (k, rest, sum) = >>=-eq-some (count_option f xs) _ h1 in
    add b k test (count_option-cases f xs k rest) sum
  where
    add :
        (b : Bool) (k : ℕ)
        → f x ≡ some b
        → ((k ≡ 0) × Every (λ x. f x ≡ some false) xs) ⊎ ((0 < k) × Any (λ x. f x ≡ some true) xs)
        → some ((if b then 1 else 0) + k) ≡ some n
        → ((n ≡ 0) × Every (λ x. f x ≡ some false) (x ∷ xs))
          ⊎ ((0 < n) × Any (λ x. f x ≡ some true) (x ∷ xs))
    add true k test cases sum = inr (ground arith, inl test)
    add false k test (inl (nought, never)) sum = inl (ground arith, (test, never))
    add false k test (inr (pos, any)) sum = inr (ground arith, inr any)

-- The number of the counts that are not 0.
abbrev pub ones : List ℕ → ℕ
ones [] = 0
ones (n ∷ ns) = (if eqb n 0 then 0 else 1) + ones ns

pub add_ones-ones : (ns : List ℕ) (sum : ℕ) → add_ones ns ≡ some sum → sum ≡ ones ns
add_ones-ones [] sum h = cc
add_ones-ones (n ∷ []) sum h = ground arith
add_ones-ones (n ∷ m ∷ ns) sum h =
    let (k, rest, total) =
      map-eq-some (λ k. (if eqb n 0 then 0 else 1) + k) (add_ones (m ∷ ns)) h in
    sym total ∙ ap (λ j. (if eqb n 0 then 0 else 1) + j) (add_ones-ones (m ∷ ns) k rest)

-- Fewer than all of the counts are not 0 when one of them is 0.
pub ones-cases :
    {T : Type 0} (g : T → Option ℕ) (ts : List T) (ns : List ℕ)
    → map_option g ts ≡ some ns
    → ((ones ns < length ts) × Any (λ t. g t ≡ some 0) ts)
      ⊎ ((ones ns ≡ length ts) × Every (λ t. (n : ℕ) × (g t ≡ some n) × (0 < n)) ts)
ones-cases g [] ns h = inr (ground arith, tt)
ones-cases g (t ∷ ts) ns h =
    let (n, (ms, first, rest, parts)) = map_option-cons g t ts h in
    subst
      (λ ks.
        ((ones ks < length (t ∷ ts)) × Any (λ t. g t ≡ some 0) (t ∷ ts))
        ⊎ ((ones ks ≡ length (t ∷ ts)) × Every (λ t. (n : ℕ) × (g t ≡ some n) × (0 < n)) (t ∷ ts)))
      (sym parts) (add n ms first (ones-cases g ts ms rest))
  where
    add :
        (n : ℕ) (ms : List ℕ)
        → g t ≡ some n
        → ((ones ms < length ts) × Any (λ t. g t ≡ some 0) ts)
          ⊎ ((ones ms ≡ length ts) × Every (λ t. (n : ℕ) × (g t ≡ some n) × (0 < n)) ts)
        → ((ones (n ∷ ms) < length (t ∷ ts)) × Any (λ t. g t ≡ some 0) (t ∷ ts))
          ⊎ ((ones (n ∷ ms) ≡ length (t ∷ ts))
              × Every (λ t. (n : ℕ) × (g t ≡ some n) × (0 < n)) (t ∷ ts))
    add zero ms first (inl (fewer, any)) = inl (ground arith, inl first)
    add zero ms first (inr (same, each)) = inl (ground arith, inl first)
    add (suc n) ms first (inl (fewer, any)) = inl (ground arith, inr any)
    add (suc n) ms first (inr (same, each)) =
        inr (ground arith, ((suc n, first, ground arith), each))
