-- ===== src/Server/Reads/Properties.antt =====
-- The properties of records, as server/db/records.js reads them. The number that stands for a
-- query that fails is `none`.
pub mod Latest
pub mod Found
use mathlib.Core.Option
use mathlib.Core.List.{head?}
use dgc_database_tp.Prelude.{
  ℕ, String, Bool, true, false, ◌&&◌, List, [], ◌∷◌, ◌++◌, map, filter, Option, none, some,
  if◌then◌else◌, ◌==◌, text_test, get_elem?, ◌>>=◌, map_option,
}
use dgc_database_tp.Rethink.Sorting.{Sorting}
use dgc_database_tp.Documents.{
  Participant, Property, Reporter, PropertyPage, PageValues, decoded, stored, ReportedValue,
  StoredValue,
}
use dgc_database_tp.Documents.Structs.{
  DataType, type_unset, bytes, boolean, number, string, enum, struct, location, ℤ, pos, Value,
  of_bytes, of_string, of_enum, of_boolean, of_number, of_location, of_struct,
}
use dgc_database_tp.LedgerSync.Ledger.{Stores, Ledger}
use dgc_database_tp.Server.Reads.{get_table, query_with_current_block}

-- A reported value as it is stored, or as it was decoded where its page had no property.
pub data Reported : Type 0 where
  converted : StoredValue → Reported
  raw : ReportedValue → Reported

abbrev pub reported_values : PageValues → List Reported
reported_values (decoded vs) = map raw vs
reported_values (stored vs) = map converted vs

-- `concatMap(getReportedValues)`
abbrev pub concat_values : List PropertyPage → List Reported
concat_values [] = []
concat_values (page ∷ pages) = reported_values page.reported_values ++ concat_values pages

abbrev pub reporter_index : Reported → ℕ
reporter_index (converted v) = v.reporter_index
reporter_index (raw v) = v.reporter_index

abbrev pub timestamp_of : Reported → ℕ
timestamp_of (converted v) = v.timestamp
timestamp_of (raw v) = v.timestamp

-- `getValue`: a field that a document does not have is an error.
unfoldable pub value_of : DataType → Reported → Option Value
value_of boolean (converted v) = some (of_boolean v.scalars.boolean_value)
value_of boolean (raw v) = some (of_boolean v.scalars.boolean_value)
value_of number (converted v) = some (of_number v.scalars.number_value)
value_of number (raw v) = some (of_number v.scalars.number_value)
value_of string (converted v) = some (of_string v.scalars.string_value)
value_of string (raw v) = some (of_string v.scalars.string_value)
value_of bytes (converted v) = some (of_bytes v.scalars.bytes_value)
value_of bytes (raw v) = some (of_bytes v.scalars.bytes_value)
value_of location (converted v) = some (of_location v.scalars.location_value)
value_of location (raw v) = some (of_location v.scalars.location_value)
value_of enum (converted v) = Option.map of_enum v.enum_value
value_of enum (raw v) = some (of_number (pos v.enum_value))
value_of struct (converted v) = some (of_struct v.struct_value)
value_of struct (raw v) = none
value_of type_unset (converted v) = some (of_bytes v.scalars.bytes_value)
value_of type_unset (raw v) = some (of_bytes v.scalars.bytes_value)

-- What the queries build.
pub record ReporterName : Type 0 where
  pub name : String
  pub public_key : String

pub record Update : Type 0 where
  pub value : Value
  pub timestamp : ℕ
  pub reporter : ReporterName

pub record PropertyValues : Type 0 where
  pub name : String
  pub data_type : DataType
  pub fixed : Bool
  pub number_exponent : ℤ
  pub unit : String
  pub reporter_keys : List Reporter
  pub values : List Update

pub record PropertyView : Type 0 where
  pub name : String
  pub record_id : String
  pub reporters : List String
  pub data_type : DataType
  pub value : Option Update
  pub updates : List Update

-- `getReporter`, of the participants that were found
unfoldable pub first_reporter : List Participant → ReporterName
first_reporter [] = record { name = "BAD DATA"; public_key = "BAD DATA" }
first_reporter (p ∷ ps) = record { name = p.name; public_key = p.public_key }

unfoldable pub get_authorized_reporter_keys : List Reporter → List String
get_authorized_reporter_keys rs = map (λ r. r.public_key) (filter (λ r. r.authorized) rs)

module _ (S : Stores) (O : Sorting) (l : Ledger S) (block : ℕ) where
  unfoldable pub find_property : String → String → Option Property
  find_property record_id name = head? (
      filter (λ p. p.name == name)
        (filter (λ p. p.record_id == record_id) (get_table S.properties block l.properties)))

  unfoldable pub get_reporter : String → ReporterName
  get_reporter public_key =
      first_reporter
        (filter (λ p. p.public_key == public_key) (get_table S.participants block l.participants))

  -- `getUpdate`
  unfoldable pub get_update : DataType → List Reporter → Reported → Option Update
  get_update data_type reporters v = do
    value ← value_of data_type v
    reporter ← get_elem? reporters (reporter_index v)
    some (record {
      value = value;
      timestamp = timestamp_of v;
      reporter = get_reporter reporter.public_key;
    })

  unfoldable pub pages_of : String → String → List PropertyPage
  pages_of record_id name =
      filter (λ p. p.name == name)
        (filter (λ p. p.record_id == record_id) (get_table S.property_pages block l.property_pages))

  unfoldable pub find_reported_values :
      String → String → DataType → List Reporter → Option (List Update)
  find_reported_values record_id name data_type reporters =
      Option.map (O.desc Update (λ u. u.timestamp))
        (map_option (get_update data_type reporters) (concat_values (pages_of record_id name)))

  unfoldable pub get_property_values : String → Property → Option PropertyValues
  get_property_values record_id p = do
    values ← find_reported_values record_id p.name p.data_type p.reporters
    some (record {
      name = p.name;
      data_type = p.data_type;
      fixed = p.fixed;
      number_exponent = p.number_exponent;
      unit = p.unit;
      reporter_keys = p.reporters;
      values = values;
    })

  -- `fetchPropertyQuery`
  unfoldable pub fetch_property_query : String → String → Option PropertyView
  fetch_property_query record_id name = do
    property ← find_property record_id name
    v ← get_property_values record_id property
    some (record {
      name = name;
      record_id = record_id;
      reporters = get_authorized_reporter_keys v.reporter_keys;
      data_type = v.data_type;
      value = head? v.values;
      updates = v.values;
    })

module _ (S : Stores) (O : Sorting) where
  unfoldable pub fetch_property : String → String → Ledger S → Option PropertyView
  fetch_property record_id name l =
      query_with_current_block S O (λ block. fetch_property_query S O l block record_id name) l
