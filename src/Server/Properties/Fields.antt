-- ===== src/Server/Properties/Fields.antt =====
-- The fields that server/transaction/records.js sets, and those that are read.
use mathlib.Core.Path.{subst}
use dgc_database_tp.Prelude.{
  String, true, false, List, [], ◌∷◌, ◌++◌, count, ◌≤◌, Option, none, some, ◌≡◌, refl, sym, ap,
  if◌then◌else◌, ◌==◌, text_test, Bool-cases, inl, inr, arith,
}
use dgc_database_tp.Server.Properties.{
  Written, is_message_field, write_property, push_property, record_properties, get_value,
}

-- None of the seven data types.
pub record IsUnknown (t : String) : Type 0 where
  pub bytes : (t == "BYTES") ≡ false
  pub boolean : (t == "BOOLEAN") ≡ false
  pub number : (t == "NUMBER") ≡ false
  pub string : (t == "STRING") ≡ false
  pub enum : (t == "ENUM") ≡ false
  pub struct : (t == "STRUCT") ≡ false
  pub location : (t == "LOCATION") ≡ false

by_name : (P : String → Type 0) (t name : String) → P name → ((t == name) ≡ false → P t) → P t
by_name P t name hit miss = elim (Bool-cases (t == name)) [
  | inl same ↦ subst P (sym ((text_test.decides t name).0 same)) hit
  | inr other ↦ miss other
]

-- What holds of the seven data types and of every other text holds of all texts.
by_type :
    (P : String → Type 0) (t : String)
    → P "BYTES"
    → P "BOOLEAN"
    → P "NUMBER"
    → P "STRING"
    → P "ENUM"
    → P "STRUCT"
    → P "LOCATION"
    → (IsUnknown t → P t)
    → P t
by_type P t b bo nu st en sr lo un = by_name P t "BYTES" b (λ y. by_name P t "BOOLEAN" bo (λ o.
    by_name P t "NUMBER" nu (λ n. by_name P t "STRING" st (λ s. by_name P t "ENUM" en (λ e.
      by_name P t "STRUCT" sr (λ r. by_name P t "LOCATION" lo (λ l. un (record {
        bytes = y;
        boolean = o;
        number = n;
        string = s;
        enum = e;
        struct = r;
        location = l;
      }))))))))

-- The data type that a table has for a name.
abbrev pub type_in : List (String × String) → String → Option String
type_in [] name = none
type_in ((key, t) ∷ table) name = if key == name then some t else type_in table name

module _ {V : Type 0} where
  -- Whatever the data type of a property is, an unknown one included, the field that is read for
  -- that type is the one that was set, and holds the value of the request.
  get_value-write_property :
      (data_type name : String) (x : V)
      → get_value data_type (write_property data_type name x) ≡ some x
  unfolding get_value write_property
  get_value-write_property data_type name x =
      by_type (λ t. get_value t (write_property t name x) ≡ some x) data_type refl refl refl refl
        refl refl refl
        (λ u. rw (u.bytes, u.boolean, u.number, u.string, u.enum, u.struct, u.location) refl)

  -- The field that is set for a property is one of the message that is sent, for every data type
  -- but STRUCT.
  write_property-struct :
      (data_type name : String) (x : V)
      → is_message_field (write_property data_type name x).field
        ≡ (if data_type == "STRUCT" then false else true)
  unfolding write_property
  write_property-struct data_type name x =
      by_type
        (λ t.
          is_message_field (write_property t name x).field
          ≡ (if t == "STRUCT" then false else true))
        data_type refl refl refl refl refl refl refl
        (λ u. rw (u.bytes, u.boolean, u.number, u.string, u.enum, u.struct, u.location) refl)

  abbrev pub append_property : Option String → String → V → List (Written V) → List (Written V)
  append_property none name x ws = ws
  append_property (some t) name x ws = write_property t name x ∷ ws

  -- The properties that a request is meant to give: one for each of its names that the table has.
  abbrev pub meant : List (String × String) → List (String × V) → List (Written V)
  meant table [] = []
  meant table ((name, x) ∷ data_) = append_property (type_in table name) name x (meant table data_)

  push_property-none :
      (table : List (String × String)) (name : String) (x : V)
      → count (λ p. p.0 == name) table ≤ 0
      → push_property table name x ≡ []
  unfolding push_property
  push_property-none [] name x h = refl
  push_property-none ((key, t) ∷ table) name x h = elim (Bool-cases (key == name)) [
    | inl same ↦ absurd (ground arith)
    | inr other ↦ rw other (push_property-none table name x (ground arith))
  ]

  push_property-type_in :
      (table : List (String × String)) (name : String) (x : V)
      → count (λ p. p.0 == name) table ≤ 1
      → push_property table name x ≡ append_property (type_in table name) name x []
  unfolding push_property
  push_property-type_in [] name x h = refl
  push_property-type_in ((key, t) ∷ table) name x h = elim (Bool-cases (key == name)) [
    | inl same ↦
        rw same
          (ap (λ ws. write_property t name x ∷ ws) (push_property-none table name x (ground arith)))
    | inr other ↦ rw other (push_property-type_in table name x (ground arith))
  ]

  append-append_property :
      (t : Option String) (name : String) (x : V) (ws : List (Written V))
      → append_property t name x [] ++ ws ≡ append_property t name x ws
  append-append_property none name x ws = refl
  append-append_property (some t) name x ws = refl

  -- Where a table has every name at most once, the properties of a new record are those of the
  -- request's names that the table has, in the order of the request, each written with the data
  -- type that the table gives it; other names are left out.
  pub record_properties-meant :
      (table : List (String × String)) (data_ : List (String × V))
      → ((name : String) → count (λ p. p.0 == name) table ≤ 1)
      → record_properties table data_ ≡ meant table data_
  unfolding record_properties
  record_properties-meant table [] h = refl
  record_properties-meant table ((name, x) ∷ data_) h =
      rw (push_property-type_in table name x (h name), record_properties-meant table data_ h)
        (append-append_property (type_in table name) name x (meant table data_))
