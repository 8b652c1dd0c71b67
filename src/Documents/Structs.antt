-- ===== src/Documents/Structs.antt =====
-- PropertyValue of protos/property.proto, and xformStruct of ledger_sync/db/state.js, which turns
-- the array of a struct's values into an object.
use mathlib.Core.Option
use text.Mathlib.TextEquality.{eq_iff}
use dgc_database_tp.Prelude.{
  ℕ, String, Bool, List, [], ◌∷◌, ap, Option, none, some, ◌≡◌, refl, ◌∙◌, ◌==◌, text_test,
  if◌then◌else◌, arith,
}

pub data DataType : Type 0 where
  type_unset bytes boolean number string enum struct location : DataType

-- A number that the protocol carries with a sign; `negsuc n` is -(n + 1).
pub data ℤ : Type 0 where
  pos : ℕ → ℤ
  negsuc : ℕ → ℤ

pub record Location : Type 0 where
  pub latitude : ℤ
  pub longitude : ℤ

-- The type-specific fields that are not enumerations or structs.
pub record Scalars : Type 0 where
  pub bytes_value : String
  pub boolean_value : Bool
  pub number_value : ℤ
  pub string_value : String
  pub location_value : Option Location

mutual
  pub data PropertyValue : Type 0 where
    value : String → DataType → Scalars → String → PropertyValues → PropertyValue

  pub data PropertyValues : Type 0 where
    nil : PropertyValues
    cons : PropertyValue → PropertyValues → PropertyValues

-- The values of the object, and the object: for a key that is set twice the later value counts.
mutual
  pub data Value : Type 0 where
    of_bytes of_string of_enum : String → Value
    of_boolean : Bool → Value
    of_number : ℤ → Value
    of_location : Option Location → Value
    of_struct : Fields → Value
    undefined : Value

  pub data Fields : Type 0 where
    empty : Fields
    field : String → Value → Fields → Fields

-- `property[valueNames[property.dataType]]`; `valueNames` has no entry for TYPE_UNSET or STRUCT
abbrev pub scalar_value : DataType → Scalars → String → Value
scalar_value bytes s e = of_bytes s.bytes_value
scalar_value boolean s e = of_boolean s.boolean_value
scalar_value number s e = of_number s.number_value
scalar_value string s e = of_string s.string_value
scalar_value enum s e = of_enum e
scalar_value location s e = of_location s.location_value
scalar_value type_unset s e = undefined
scalar_value struct s e = undefined

-- `result[key] = value`
unfoldable pub set_field : String → Value → Fields → Fields
set_field k v empty = field k v empty
set_field k v (field j w fs) = if j == k then field j v fs else field j w (set_field k v fs)

unfoldable pub get_field : String → Fields → Option Value
get_field k empty = none
get_field k (field j w fs) = if j == k then some w else get_field k fs

abbrev pub name_of : PropertyValue → String
name_of (value n t s e vs) = n

unfoldable mutual
  pub xform_value : PropertyValue → Value
  xform_value (value n struct s e vs) = of_struct (xform_pairs vs empty)
  xform_value (value n t s e vs) = scalar_value t s e

  -- the loop of `_.fromPairs` over the mapped properties
  pub xform_pairs : PropertyValues → Fields → Fields
  xform_pairs nil fs = fs
  xform_pairs (cons p ps) fs = xform_pairs ps (set_field (name_of p) (xform_value p) fs)

unfoldable pub xform_struct : PropertyValues → Fields
unfolding xform_pairs
xform_struct ps = xform_pairs ps empty

-- The last property of a name, if there is any.
unfoldable pub last_named : String → PropertyValues → Option PropertyValue
last_named k nil = none
last_named k (cons p ps) = elim (last_named k ps) [
  | none ↦ if name_of p == k then some p else none
  | some q ↦ some q
]

get-set_field :
    (k j : String) (v : Value) (fs : Fields)
    → get_field j (set_field k v fs) ≡ (if k == j then some v else get_field j fs)
unfolding get_field set_field
get-set_field k j v empty = refl
get-set_field k j v (field i w fs) =
    ground (arith, eq_iff k j, eq_iff i k, eq_iff i j, get-set_field k j v fs)

abbrev or_else : Option Value → Option Value → Option Value
or_else none d = d
or_else (some v) d = some v

or_else-none : (o : Option Value) → or_else o none ≡ o
or_else-none none = refl
or_else-none (some v) = refl

get-xform_pairs :
    (k : String) (ps : PropertyValues) (fs : Fields)
    → get_field k (xform_pairs ps fs)
      ≡ or_else (Option.map xform_value (last_named k ps)) (get_field k fs)
unfolding xform_pairs last_named
get-xform_pairs k nil fs = refl
get-xform_pairs k (cons p ps) fs =
    get-xform_pairs k ps (set_field (name_of p) (xform_value p) fs)
    ∙ ground (arith, get-set_field (name_of p) k (xform_value p) fs)

get_field-xform_struct :
    (k : String) (ps : PropertyValues)
    → get_field k (xform_struct ps) ≡ Option.map xform_value (last_named k ps)
unfolding xform_struct get_field
get_field-xform_struct k ps =
    get-xform_pairs k ps empty ∙ or_else-none (Option.map xform_value (last_named k ps))

-- What can be read of a value without reading a field of it: a struct's is that it is an object.
abbrev pub surface : Value → Value
surface (of_struct fs) = of_struct empty
surface v = v

-- What a property's message says by its data type: the field of the type, and for a struct that it
-- is an object. A type that is not set says nothing.
unfoldable pub said : PropertyValue → Value
said (value n bytes s e vs) = of_bytes s.bytes_value
said (value n boolean s e vs) = of_boolean s.boolean_value
said (value n number s e vs) = of_number s.number_value
said (value n string s e vs) = of_string s.string_value
said (value n enum s e vs) = of_enum e
said (value n location s e vs) = of_location s.location_value
said (value n struct s e vs) = of_struct empty
said (value n type_unset s e vs) = undefined

abbrev fields_of : Option Value → Fields
fields_of none = empty
fields_of (some (of_struct fs)) = fs
fields_of (some v) = empty

-- `object[k][j]...`, at the names of a path.
unfoldable pub get_path : String → List String → Fields → Option Value
get_path k [] fs = get_field k fs
get_path k (j ∷ path) fs = get_path j path (fields_of (get_field k fs))

abbrev struct_values_of : Option PropertyValue → PropertyValues
struct_values_of none = nil
struct_values_of (some (value n struct s e vs)) = vs
struct_values_of (some p) = nil

-- The property at a path: of each name the last one, and where it is a struct the path goes on in it.
unfoldable pub property_at : String → List String → PropertyValues → Option PropertyValue
property_at k [] ps = last_named k ps
property_at k (j ∷ path) ps = property_at j path (struct_values_of (last_named k ps))

surface-xform_value : (p : PropertyValue) → surface (xform_value p) ≡ said p
unfolding xform_value said
surface-xform_value (value n bytes s e vs) = refl
surface-xform_value (value n boolean s e vs) = refl
surface-xform_value (value n number s e vs) = refl
surface-xform_value (value n string s e vs) = refl
surface-xform_value (value n enum s e vs) = refl
surface-xform_value (value n location s e vs) = refl
surface-xform_value (value n struct s e vs) = refl
surface-xform_value (value n type_unset s e vs) = refl

fields-xform_value :
    (o : Option PropertyValue)
    → fields_of (Option.map xform_value o) ≡ xform_struct (struct_values_of o)
unfolding xform_value xform_struct xform_pairs
fields-xform_value none = refl
fields-xform_value (some (value n bytes s e vs)) = refl
fields-xform_value (some (value n boolean s e vs)) = refl
fields-xform_value (some (value n number s e vs)) = refl
fields-xform_value (some (value n string s e vs)) = refl
fields-xform_value (some (value n enum s e vs)) = refl
fields-xform_value (some (value n location s e vs)) = refl
fields-xform_value (some (value n struct s e vs)) = refl
fields-xform_value (some (value n type_unset s e vs)) = refl

surface-map :
    (o : Option PropertyValue) → Option.map surface (Option.map xform_value o) ≡ Option.map said o
surface-map none = refl
surface-map (some p) = ap some (surface-xform_value p)

-- At every path of names, through structs in structs, the object that a struct becomes shows what
-- the message says there: of each name the last property counts, a property shows the field of its
-- data type, a struct an object, a type that is not set no value, and where no property has a name
-- of the path there is nothing.
pub get_path-xform_struct :
    (k : String) (path : List String) (ps : PropertyValues)
    → Option.map surface (get_path k path (xform_struct ps))
      ≡ Option.map said (property_at k path ps)
unfolding get_path property_at
get_path-xform_struct k [] ps =
    ap (Option.map surface) (get_field-xform_struct k ps) ∙ surface-map (last_named k ps)
get_path-xform_struct k (j ∷ path) ps =
    ap (λ fs. Option.map surface (get_path j path fs))
      (ap fields_of (get_field-xform_struct k ps) ∙ fields-xform_value (last_named k ps))
    ∙ get_path-xform_struct j path (struct_values_of (last_named k ps))
