-- ===== src/Server/Reads/Records.antt =====
-- fetchRecord and listRecords of server/db/records.js. A query that fails is `none`.
pub mod Fetched
use mathlib.Core.Option
use mathlib.Core.List.{head?}
use dgc_database_tp.Prelude.{
  ℕ, String, Bool, true, false, List, [], ◌∷◌, map, filter, Option, none, some, if◌then◌else◌, ◌==◌,
  text_test, ◌>>=◌, map_option,
}
use dgc_database_tp.Rethink.Sorting.{Sorting}
use dgc_database_tp.Documents.{
  Record, AssociatedParticipant, TableSchema, Property, Proposal, Role, Status, open_status,
  accepted, rejected, canceled, closed,
}
use dgc_database_tp.Documents.Structs.{DataType, number, ℤ, Value}
use dgc_database_tp.LedgerSync.Ledger.{Stores, Ledger}
use dgc_database_tp.Server.Reads.{get_table, query_with_current_block}
use dgc_database_tp.Server.Reads.Properties
use dgc_database_tp.Server.Reads.Properties.{
  Update, get_authorized_reporter_keys, find_property, get_property_values,
}

-- What `_loadRecord` builds: a field that is merged in by `r.branch` is optional.
pub record RecordProperty : Type 0 where
  pub name : String
  pub data_type : DataType
  pub value : Option Value
  pub reporters : List String
  pub number_exponent : Option ℤ
  pub fixed : Option Bool
  pub unit : Option String

pub record OpenProposal : Type 0 where
  pub role : Role
  pub properties : List String

-- The values of a property with their times: `pluck('value', 'timestamp')`
abbrev pub History : Type 0
History = List (Value × ℕ)

pub record RecordView : Type 0 where
  pub record_id : String
  pub owner : String
  pub custodian : String
  pub final : Bool
  pub properties : List RecordProperty
  pub owners : List AssociatedParticipant
  pub custodians : List AssociatedParticipant
  pub histories : List (String × History)
  pub proposals : List OpenProposal

-- `getName(record)`: the document of a record has no attribute of that name.
abbrev pub record_name : Record → Option String
record_name r = none

-- `hasName`, in a filter, which leaves out a document for which the test fails
abbrev pub has_name : Option String → TableSchema → Bool
has_name none t = false
has_name (some name) t = t.name == name

abbrev pub is_open_proposal : Status → Bool
is_open_proposal open_status = true
is_open_proposal _ = false

-- `record(role).nth(-1)('participantId')`
unfoldable pub last_participant : List AssociatedParticipant → Option String
last_participant [] = none
last_participant (p ∷ []) = some p.participant_id
last_participant (p ∷ q ∷ ps) = last_participant (q ∷ ps)

-- `merge`, of an object with one key
abbrev pub merge_history : String → History → List (String × History) → List (String × History)
merge_history name values [] = (name, values) ∷ []
merge_history name values ((n, vs) ∷ rest) =
    let later = merge_history name values rest in
    if n == name then (name, values) ∷ rest else (n, vs) ∷ later

-- `makePropertiesEntry`, on what came before
unfoldable pub make_properties_entry :
    List Properties.PropertyValues → List (String × History) → List (String × History)
make_properties_entry [] object = object
make_properties_entry (v ∷ vs) object =
    make_properties_entry vs
      (merge_history v.name (map (λ u. (u.value, u.timestamp)) v.values) object)

abbrev pub exponent_of : DataType → ℤ → Option ℤ
exponent_of number exponent = some exponent
exponent_of _ exponent = none

-- An element of `properties`
unfoldable pub record_property : Properties.PropertyValues → RecordProperty
record_property v = record {
  name = v.name;
  data_type = v.data_type;
  value = Option.map (λ u. u.value) (head? v.values);
  reporters = get_authorized_reporter_keys v.reporter_keys;
  number_exponent = exponent_of v.data_type v.number_exponent;
  fixed = if v.fixed then some v.fixed else none;
  unit = if v.unit == "" then none else some v.unit;
}

module _ (S : Stores) (O : Sorting) (l : Ledger S) (block : ℕ) where
  unfoldable pub find_record : String → Option Record
  find_record record_id =
      head? (filter (λ r. r.record_id == record_id) (get_table S.records block l.records))

  -- `getProposals`: the documents have no attribute `receivingKey` or `issuingKey` to pluck.
  unfoldable pub get_proposals : String → List OpenProposal
  get_proposals record_id =
      map (λ p. record { role = p.role; properties = p.properties })
        (filter (λ p. is_open_proposal p.status)
          (filter (λ p. p.record_id == record_id) (get_table S.proposals block l.proposals)))

  unfoldable pub get_table_properties : Record → Option (List Property)
  get_table_properties r = do
    names ← head? (
        map (λ t. map (λ p. p.name) t.properties)
          (filter (has_name (record_name r)) (get_table S.tables block l.tables)))
    map_option (find_property S O l block r.record_id) names

  unfoldable pub load_record : Record → Option RecordView
  load_record r = do
    properties ← get_table_properties r
    values ← map_option (get_property_values S O l block r.record_id) properties
    owner ← last_participant r.owners
    custodian ← last_participant r.custodians
    some (record {
      record_id = r.record_id;
      owner = owner;
      custodian = custodian;
      final = r.final;
      properties = map record_property values;
      owners = O.desc AssociatedParticipant (λ p. p.timestamp) r.owners;
      custodians = O.desc AssociatedParticipant (λ p. p.timestamp) r.custodians;
      histories = make_properties_entry values [];
      proposals = get_proposals r.record_id;
    })

  unfoldable pub fetch_record_query : String → Option RecordView
  fetch_record_query record_id = find_record record_id >>= load_record

module _ (S : Stores) (O : Sorting) where
  unfoldable pub fetch_record : String → Ledger S → Option RecordView
  fetch_record record_id l =
      query_with_current_block S O (λ block. fetch_record_query S O l block record_id) l

  -- `listRecordsQuery` returns before its filter is used.
  unfoldable pub list_records : (Record → Bool) → Ledger S → Option (List Record)
  list_records query l =
      query_with_current_block S O (λ block. some (get_table S.records block l.records)) l
