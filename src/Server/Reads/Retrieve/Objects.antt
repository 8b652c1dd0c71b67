-- ===== src/Server/Reads/Retrieve/Objects.antt =====
-- The object that _retrieveRecord of server/db/records.js makes of the pages of a record.
use mathlib.Core.Path.{subst}
use dgc_database_tp.Prelude.{
  String, false, List, [], ◌∷◌, map, Option, none, some, ◌≡◌, inl, inr, Bool-cases, Option-cases,
  text_test, map_option, map_option-cons, map-eq-some, arith,
}
use mathlib.Core.Option
use dgc_database_tp.Documents.{PropertyPage}
use dgc_database_tp.Server.Reads.{names_key, add_key, make_object}

-- No key is given twice.
abbrev pub IsDistinct : {V : Type 0} → List (String × V) → Type 0
IsDistinct [] = Unit
IsDistinct ((k, v) ∷ ps) = (names_key k ps ≡ false) × IsDistinct ps

add_key-IsDistinct :
    {V : Type 0} (k : String) (v : V) (ps ms : List (String × V)) {object : List (String × V)}
    → (ms ≡ ps) × IsDistinct ps
    → add_key k v ms ≡ some object
    → (object ≡ (k, v) ∷ ps) × IsDistinct ((k, v) ∷ ps)
add_key-IsDistinct k v ps ms {object} (same, distinct) h = elim (Bool-cases (names_key k ms)) [
  | inl used ↦ absurd (ground (arith, h, used))
  | inr free ↦
      let built : some ((k, v) ∷ ms) ≡ some object = rw free at h in
      (ground arith, (subst (λ xs. names_key k xs ≡ false) same free, distinct))
]

pub make_object-IsDistinct :
    {V : Type 0} (ps : List (String × V)) {object : List (String × V)}
    → make_object ps ≡ some object
    → (object ≡ ps) × IsDistinct ps
unfolding make_object
make_object-IsDistinct [] h = (ground arith, tt)
make_object-IsDistinct ((k, v) ∷ ps) {object} h = elim (Option-cases (make_object ps)) [
  | inl fails ↦ absurd (let e : none ≡ some object = rw fails at h in cc)
  | inr (ms, made) ↦ add_key-IsDistinct k v ps ms (make_object-IsDistinct ps made) (rw made at h)
]

-- One pair for every page, under the page's name.
pub values-names :
    {P V : Type 0} (find : PropertyPage → Option P) (v : PropertyPage → P → V)
    (pages : List PropertyPage) (ps : List (String × V))
    → map_option (λ page. Option.map (λ p. (page.name, v page p)) (find page)) pages ≡ some ps
    → map (λ p. p.0) ps ≡ map (λ page. page.name) pages
values-names find v [] ps h = ground arith
values-names find v (page ∷ pages) ps h =
    let (q, (qs, first, rest, parts)) =
      map_option-cons (λ page. Option.map (λ p. (page.name, v page p)) (find page)) page pages h in
    let (p, found, made) = map-eq-some (λ p. (page.name, v page p)) (find page) first in
    let ih = values-names find v pages qs rest in ground (arith, ih)
