-- ===== src/Server/Reads/Retrieve/Totals.antt =====
-- The steps of retrieveRecords of server/db/records.js that cannot fail, and when the others do not.
use mathlib.Core.Option
use mathlib.Core.Path.{subst}
use dgc_database_tp.Prelude.{
  ℕ, ◌≤◌, String, Bool, true, false, List, [], ◌∷◌, count, all, Option, none, some, ◌≡◌, refl, sym,
  ap, Every, inl, inr, Bool-cases, Option-cases, ◌==◌, text_test, >>=-succeeds, arith,
}
use dgc_database_tp.Documents.{StoredValue}
use dgc_database_tp.Documents.Structs.{
  Value, DataType, bytes, boolean, number, string, enum, struct, location, of_enum,
}
use dgc_database_tp.Server.Reads.{names_key, make_object}
use dgc_database_tp.Server.Reads.Properties.{Reported, converted, value_of}
use dgc_database_tp.Server.Reads.Retrieve.{or_else, count_option, add_ones, equal_field, matches}
use dgc_database_tp.Server.Reads.Retrieve.Objects.{IsDistinct}

-- A reported value that the ledger sync converted, with the name of its enumeration's option.
abbrev pub IsStored : Reported → Type 0
IsStored v = (w : StoredValue) × ((e : String) × (v ≡ converted w) × (w.enum_value ≡ some e))

or_else_total :
    (m n : Option Bool)
    → ((a : Bool) × (m ≡ some a))
    → ((b : Bool) × (n ≡ some b))
    → (c : Bool) × (or_else m n ≡ some c)
or_else_total none n (a, e) h = cc
or_else_total (some true) n g h = (true, refl)
or_else_total (some false) n g h = h

pub count_option_total :
    {A : Type 0} (f : A → Option Bool) (xs : List A)
    → Every (λ x. (b : Bool) × (f x ≡ some b)) xs
    → (n : ℕ) × (count_option f xs ≡ some n)
count_option_total f [] h = (0, refl)
count_option_total f (x ∷ xs) ((b, first), rest) =
    let (n, counted) = count_option_total f xs rest in
    >>=-succeeds _ _ (b, (first, >>=-succeeds _ _ (n, (counted, (_, refl)))))

pub add_ones_total : (n : ℕ) (ns : List ℕ) → (sum : ℕ) × (add_ones (n ∷ ns) ≡ some sum)
add_ones_total n [] = (_, refl)
add_ones_total n (m ∷ ns) = let (sum, added) = add_ones_total m ns in (_, ap (Option.map _) added)

module _ {J : Type 0} (equal : Value → J → Bool) where
  field_total :
      (j : J) (d : DataType) (v : Reported) (x : Value)
      → value_of d v ≡ some x
      → (b : Bool) × (equal_field equal j d v ≡ some b)
  field_total j d v x h = (equal x j, ap (Option.map (λ y. equal y j)) h)

  matches-converted :
      (j : J) (w : StoredValue) (e : String)
      → w.enum_value ≡ some e
      → (b : Bool) × (matches equal j (converted w) ≡ some b)
  unfolding matches value_of
  matches-converted j w e named = or_else_total _ _ (field_total j boolean (converted w) _ refl) (
      or_else_total _ _ (field_total j number (converted w) _ refl) (
        or_else_total _ _ (field_total j string (converted w) _ refl) (
          or_else_total _ _ (field_total j bytes (converted w) _ refl) (
            or_else_total _ _ (field_total j location (converted w) _ refl) (
              or_else_total _ _
                (field_total j enum (converted w) (of_enum e) (ap (Option.map of_enum) named))
                (field_total j struct (converted w) _ refl))))))

  pub matches-IsStored :
      (j : J) (v : Reported) → IsStored v → (b : Bool) × (matches equal j v ≡ some b)
  matches-IsStored j v (w, (e, made, named)) =
      subst (λ u. (b : Bool) × (matches equal j u ≡ some b)) (sym made)
        (matches-converted j w e named)

-- Pairs of which no key is counted twice are an object.
names_key-count :
    {V : Type 0} (k : String) (ps : List (String × V))
    → names_key k ps ≡ true
    → 1 ≤ count (λ p. p.0 == k) ps
names_key-count k [] h = cc
names_key-count k ((j, v) ∷ ps) h = ground (arith, names_key-count k ps)

names_key-once :
    {V : Type 0} (k : String) (v : V) (ps : List (String × V))
    → count (λ p. p.0 == k) ((k, v) ∷ ps) ≤ 1
    → names_key k ps ≡ false
names_key-once k v ps h = elim (Bool-cases (names_key k ps)) [
  | inl used ↦
      let again = names_key-count k ps used in
      let same = (text_test.decides k k).1 refl in absurd (ground arith)
  | inr free ↦ free
]

pub IsDistinct-count :
    {V : Type 0} (ps : List (String × V))
    → ((k : String) → count (λ p. p.0 == k) ps ≤ 1)
    → IsDistinct ps
IsDistinct-count [] h = tt
IsDistinct-count ((k, v) ∷ ps) h =
    (names_key-once k v ps (h k), IsDistinct-count ps (λ j. ground (arith, h j)))

pub make_object-succeeds :
    {V : Type 0} (ps : List (String × V)) → IsDistinct ps → make_object ps ≡ some ps
unfolding make_object
make_object-succeeds [] h = refl
make_object-succeeds ((k, v) ∷ ps) (free, rest) = rw (make_object-succeeds ps rest, free) refl

abbrev pub is_some : {A : Type 0} → Option A → Bool
is_some none = false
is_some (some x) = true

pub all-Every :
    {A B : Type 0} (f : A → Option B) (xs : List A)
    → all (λ x. is_some (f x)) xs ≡ true
    → Every (λ x. (y : B) × (f x ≡ some y)) xs
all-Every f [] h = tt
all-Every f (x ∷ xs) h = elim (Option-cases (f x)) [
  | inl fails ↦ absurd (ground (arith, h, fails))
  | inr (y, found) ↦ ((y, found), all-Every f xs (ground (arith, h, found)))
]
