-- ===== src/Server/Properties.antt =====
-- The properties that server/transaction/records.js makes of a request's data, createRecord and
-- updateRecords, and getValue of server/db/records.js, which reads a stored value. A value of the
-- request is of any type `V`; the rows of the table are taken to have arrived when they are read.
pub mod Fields
pub mod Creating
mod Tests
use dgc_database_tp.Prelude.{
  ℕ, String, Bool, true, false, List, [], ◌∷◌, ◌++◌, Option, none, some, if◌then◌else◌, ◌==◌,
  EqTest, text_test,
}

-- The fields that a value is put in.
pub data Field : Type 0 where
  bytes_value boolean_value number_value string_value enum_value struct_value location_value : Field

-- `property`: its name, the number of its data type, and the one field that is set.
pub record Written (V : Type 0) : Type 0 where
  pub name : String
  pub data_type : ℕ
  pub field : Field
  pub content : V

-- Whether the message PropertyValue of protos/property.proto has the field.
abbrev pub is_message_field : Field → Bool
is_message_field struct_value = false
is_message_field _ = true

-- Only the field that was set can be read.
abbrev same_field : Field → Field → Bool
same_field bytes_value bytes_value = true
same_field boolean_value boolean_value = true
same_field number_value number_value = true
same_field string_value string_value = true
same_field enum_value enum_value = true
same_field struct_value struct_value = true
same_field location_value location_value = true
same_field _ _ = false

module _ {V : Type 0} where
  abbrev pub written : String → ℕ → Field → V → Written V
  written name data_type field content = record {
    name = name;
    data_type = data_type;
    field = field;
    content = content;
  }

  -- The chain of conditions on `dataType`.
  unfoldable pub write_property : String → String → V → Written V
  write_property data_type name x =
      if data_type == "BYTES"
      then written name 1 bytes_value x
      else if data_type == "BOOLEAN"
      then written name 2 boolean_value x
      else if data_type == "NUMBER"
      then written name 3 number_value x
      else if data_type == "STRING"
      then written name 4 string_value x
      else if data_type == "ENUM"
      then written name 5 enum_value x
      else if data_type == "STRUCT"
      then written name 6 struct_value x
      else if data_type == "LOCATION"
      then written name 7 location_value x
      else written name 0 bytes_value x

  -- The keys of `table.properties` that are the property's name, each with its data type.
  unfoldable pub push_property : List (String × String) → String → V → List (Written V)
  push_property [] name x = []
  push_property ((key, data_type) ∷ table) name x =
      let rest = push_property table name x in
      if key == name then write_property data_type name x ∷ rest else rest

  -- `properties` of createRecord
  unfoldable pub record_properties : List (String × String) → List (String × V) → List (Written V)
  record_properties table [] = []
  record_properties table ((name, x) ∷ data_) =
      push_property table name x ++ record_properties table data_

  abbrev pub field_of : Written V → Field → Option V
  field_of w f = if same_field w.field f then some w.content else none

  unfoldable pub get_value : String → Written V → Option V
  get_value data_type w =
      if data_type == "BOOLEAN"
      then field_of w boolean_value
      else if data_type == "NUMBER"
      then field_of w number_value
      else if data_type == "STRING"
      then field_of w string_value
      else if data_type == "BYTES"
      then field_of w bytes_value
      else if data_type == "LOCATION"
      then field_of w location_value
      else if data_type == "ENUM"
      then field_of w enum_value
      else if data_type == "STRUCT"
      then field_of w struct_value
      else field_of w bytes_value
