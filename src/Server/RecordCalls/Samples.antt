-- ===== src/Server/RecordCalls/Samples.antt =====
-- A ledger with two records, and a query on it, for the tests.
use dgc_database_tp.Prelude.{
  ℕ, String, Bool, true, false, List, [], ◌∷◌, none, some, ◌≡◌, refl, ◌==◌, text_test, ℕ_test,
}
use dgc_database_tp.Rethink.Sorting.{by_insertion}
use dgc_database_tp.Documents.{Participant, Record, Property, PropertyPage, stored, StoredValue}
use dgc_database_tp.Documents.Structs.{number, pos, Value, of_number, empty}
use dgc_database_tp.LedgerSync.Samples.{lists, sample}
use dgc_database_tp.LedgerSync.Versions.{version_of}
use dgc_database_tp.LedgerSync.Ledger.{Ledger}
use dgc_database_tp.Server.Reads.{get_table, current_block, query_with_current_block, make_object}
use dgc_database_tp.Server.Reads.Properties.{find_property, value_of, pages_of}
use dgc_database_tp.Server.Reads.Retrieve.{
  terms, Params, Answer, unmatched, retrieved, retrieve_records, retrieve_records_query,
  retrieve_matching, retrieve_record, find_record_id, find_property_values, get_field_value,
  matches,
}

abbrev pub owner : Participant
owner = record { public_key = "02a"; name = "Ann" }

abbrev pub weight : String → Property
weight record_id = record {
  name = "weight";
  record_id = record_id;
  data_type = number;
  reporters = record { public_key = "02a"; authorized = true } ∷ [];
  fixed = false;
  number_exponent = pos 0;
  unit = "kg";
  enum_options = [];
}

abbrev pub weighed : ℕ → ℕ → StoredValue
weighed grams timestamp = record {
  reporter_index = 0;
  timestamp = timestamp;
  scalars = record {
    bytes_value = "";
    boolean_value = false;
    number_value = pos grams;
    string_value = "";
    location_value = none;
  };
  enum_value = some "";
  struct_value = empty;
}

abbrev pub page_of : String → List StoredValue → PropertyPage
page_of record_id vs = record {
  name = "weight";
  record_id = record_id;
  page_num = 1;
  reported_values = stored vs;
}

abbrev pub fish : String → Record
fish record_id = record {
  record_id = record_id;
  table = "fish";
  owners = [];
  custodians = [];
  final = false;
}

-- two fishes, the first of which was weighed twice
abbrev pub catch : Ledger lists
catch = record sample {
  participants = version_of owner 2 ∷ [];
  records = version_of (fish "cod") 2 ∷ version_of (fish "eel") 2 ∷ [];
  properties = version_of (weight "cod") 2 ∷ version_of (weight "eel") 2 ∷ [];
  property_pages =
      version_of (page_of "cod" (weighed 5 100 ∷ weighed 7 200 ∷ [])) 2
      ∷ version_of (page_of "eel" (weighed 4 150 ∷ [])) 2
      ∷ [];
}

-- `r.eq` of a number and any other value
abbrev pub same_number : Value → ℕ → Bool
same_number (of_number (pos n)) m = n == m
same_number _ m = false

-- the fishes that once weighed 5
abbrev pub weighed_five : Params ℕ
weighed_five = record { table = "fish"; query = terms (("weight", 5) ∷ []) }

abbrev pub answers : List Answer
answers = retrieved "cod" (("weight", some (of_number (pos 7))) ∷ []) ∷ unmatched ∷ []

pub catch-answers :
    retrieve_records same_number lists by_insertion weighed_five catch ≡ some answers
unfolding retrieve_records retrieve_records_query retrieve_matching retrieve_record find_record_id
    find_property_values get_field_value matches find_property value_of pages_of get_table
    make_object current_block query_with_current_block
catch-answers = refl
