-- ===== src/Documents.antt =====
-- The documents that the ledger sync writes and the server reads: protos/*.proto as protobufjs turns
-- them into objects, with the fields that the two programs use.
pub mod Structs
use dgc_database_tp.Prelude.{ℕ, String, Bool, List, Option}
use dgc_database_tp.Documents.Structs.{DataType, ℤ, Scalars, PropertyValues, Fields}

pub record Participant : Type 0 where
  pub public_key : String
  pub name : String

pub record AssociatedParticipant : Type 0 where
  pub participant_id : String
  pub timestamp : ℕ

pub record Record : Type 0 where
  pub record_id : String
  pub table : String
  pub owners : List AssociatedParticipant
  pub custodians : List AssociatedParticipant
  pub final : Bool

-- The properties of a struct's schema, each with its own struct_properties.
pub data NestedSchemas : Type 0 where
  no_schemas : NestedSchemas
  nested :
      String
      → DataType
      → Bool
      → Bool
      → Bool
      → ℤ
      → List String
      → NestedSchemas
      → String
      → NestedSchemas
      → NestedSchemas

-- The fields of a PropertySchema other than its name.
pub record SchemaRest : Type 0 where
  pub data_type : DataType
  pub required : Bool
  pub fixed : Bool
  pub delayed : Bool
  pub number_exponent : ℤ
  pub enum_options : List String
  pub struct_properties : NestedSchemas
  pub unit : String

pub record PropertySchema : Type 0 where
  pub name : String
  pub rest : SchemaRest

pub record TableSchema : Type 0 where
  pub name : String
  pub properties : List PropertySchema

pub record Reporter : Type 0 where
  pub public_key : String
  pub authorized : Bool

pub record Property : Type 0 where
  pub name : String
  pub record_id : String
  pub data_type : DataType
  pub reporters : List Reporter
  pub fixed : Bool
  pub number_exponent : ℤ
  pub unit : String
  pub enum_options : List String

-- An entry of a page as it is decoded: `enumValue` is an index, `structValues` an array.
pub record ReportedValue : Type 0 where
  pub reporter_index : ℕ
  pub timestamp : ℕ
  pub scalars : Scalars
  pub enum_value : ℕ
  pub struct_values : PropertyValues

-- The entry as it is stored; `enum_value` is `none` for JavaScript's `undefined`.
pub record StoredValue : Type 0 where
  pub reporter_index : ℕ
  pub timestamp : ℕ
  pub scalars : Scalars
  pub enum_value : Option String
  pub struct_value : Fields

-- A page whose property was not found is stored as it was decoded.
pub data PageValues : Type 0 where
  decoded : List ReportedValue → PageValues
  stored : List StoredValue → PageValues

pub record PropertyPage : Type 0 where
  pub name : String
  pub record_id : String
  pub page_num : ℕ
  pub reported_values : PageValues

pub data Role : Type 0 where
  transfer_ownership transfer_custodianship authorize_reporter buy_dgc sell_dgc credit_dgc
        transfer_dgc :
      Role

pub data Status : Type 0 where
  open_status accepted rejected canceled closed : Status

pub record Proposal : Type 0 where
  pub proposal_id : String
  pub role : Role
  pub status : Status
  pub issuing_participant : String
  pub receiving_participant : String
  pub record_id : String
  pub properties : List String

pub record Exchange : Type 0 where
  pub timestamp : ℕ
  pub currency_iso_codes : String
  pub buy_proposal_id : String
  pub sell_proposal_id : String

pub record Block : Type 0 where
  pub block_num : ℕ
  pub block_id : String
  pub state_root_hash : String
