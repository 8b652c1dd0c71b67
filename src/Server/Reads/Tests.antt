-- ===== src/Server/Reads/Tests.antt =====
-- The theorems about the server's reads at concrete ledgers, requests and accounts.
use dgc_database_tp.Prelude.{String, true, false, none, [], ◌∷◌, some, ◌≡◌, refl, text_test, arith}
use dgc_database_tp.Rethink.Sorting.{by_insertion}
use dgc_database_tp.Documents.{SchemaRest, no_schemas, Participant, TableSchema}
use dgc_database_tp.Documents.Structs.{number, pos}
use dgc_database_tp.LedgerSync.Samples.{car, lists, block_of, sample, sample-IsSynced}
use dgc_database_tp.LedgerSync.Ledger.{Ledger}
use dgc_database_tp.LedgerSync.State.Synced.{a_participant, a_table}
use dgc_database_tp.LedgerSync.Addresses.{char_codes, get_proto_name}
use dgc_database_tp.LedgerSync.Deltas.{Change, Protos, partition, get_entries, handle}
use dgc_database_tp.LedgerSync.Events.{Event, Message, Decoders, get_block, get_changes, receive}
use dgc_database_tp.Server.Users.{Accounts}
use dgc_database_tp.Server.Auth.{authorize, json, error, other}
use dgc_database_tp.Server.Auth.Login.{new_session_of, session_of}
use dgc_database_tp.Server.Samples.{stores, any_user, nobody, open_crypto, nobody-IsUnnamed}
use dgc_database_tp.Server.Reads.{get_table, current_block, query_with_current_block}
use dgc_database_tp.Server.Reads.Handled.{IsNext}
use dgc_database_tp.Server.Reads.Tables.{PublishedTable, array_to_object, publish_table}
use dgc_database_tp.Server.Reads.Tables
use dgc_database_tp.Server.Reads.Tables.Received.{receive-fetch}
use dgc_database_tp.Server.Reads.Participants.{
  UserPart, Profile, pluck_user, profile_of, is_participant,
}
use dgc_database_tp.Server.Reads.Participants
use dgc_database_tp.Server.Reads.Records.{fetch_record, list_records}
use dgc_database_tp.Server.Reads.Records.Fetched.{fetch_record-fails}
use dgc_database_tp.Server.Registering.{Applicant, user_of, create_user}
use dgc_database_tp.Server.Registering.Joined.{early_or_late}

sample-IsNext : IsNext lists (block_of 3) 2 sample
sample-IsNext = record { later = omega arith; below = omega arith; fresh = λ m le. ground arith }

-- An event of block 3, with a change of a table and one of another family.
abbrev own_change : Change
own_change = record { address = char_codes "3bfc81ee00"; value = "car" }

abbrev foreign_change : Change
foreign_change = record { address = char_codes "000000ee00"; value = "" }

abbrev block_commit : Event
block_commit = record {
  event_type = "sawtooth/block-commit";
  attributes = ("block_num", "3") ∷ ("block_id", "b") ∷ ("state_root_hash", "") ∷ [];
  data_ = "";
}

abbrev state_delta : Event
state_delta = record { event_type = "sawtooth/state-delta"; attributes = []; data_ = "" }

abbrev decoders : Decoders
decoders = record {
  events = λ content. state_delta ∷ block_commit ∷ [];
  state_changes = λ data_. foreign_change ∷ own_change ∷ [];
  parse_int = λ text. some 3;
}

abbrev gears : SchemaRest
gears = record {
  data_type = number;
  required = true;
  fixed = false;
  delayed = false;
  number_exponent = pos 0;
  enum_options = [];
  struct_properties = no_schemas;
  unit = "";
}

abbrev bike : TableSchema
bike = record { name = "bike"; properties = record { name = "gears"; rest = gears } ∷ [] }

abbrev protos : Protos
protos = record {
  participants = λ v. [];
  records = λ v. [];
  tables = λ v. car ∷ bike ∷ [];
  properties = λ v. [];
  property_pages = λ v. [];
  proposals = λ v. [];
  exchanges = λ v. [];
}

abbrev commit : Message
commit = record { client_events = true; content = "" }

abbrev published_bike : PublishedTable
published_bike = record { name = "bike"; properties = ("gears", gears) ∷ [] }

commit-block : get_block decoders (decoders.events "") ≡ some (block_of 3)
unfolding get_block
commit-block = refl

commit-changes :
    partition protos (get_changes decoders (decoders.events ""))
    ≡ some ([], a_table car ∷ a_table bike ∷ [])
unfolding get_changes partition get_entries get_proto_name
commit-changes = refl

bike-published : publish_table bike ≡ some published_bike
unfolding publish_table array_to_object
bike-published = refl

receive-fetch_example :
    (l' : Ledger lists) × (receive decoders protos lists commit sample ≡ some l')
    × (Tables.fetch lists by_insertion "bike" l' ≡ json published_bike)
receive-fetch_example =
    receive-fetch decoders protos lists by_insertion commit [] (a_table car ∷ a_table bike ∷ [])
      (block_of 3) 2 sample bike published_bike refl commit-block commit-changes sample-IsSynced
      sample-IsNext refl bike-published

abbrev ann_participant : Participant
ann_participant = record { public_key = "02a"; name = "Ann" }

abbrev applicant : Applicant
applicant = record {
  name = "Ann";
  public_key = "02a";
  username = "ann";
  email = "ann@example.com";
  encrypted_key = none;
  hashed_password = "secret";
}

not_yet : is_participant lists by_insertion stores sample nobody "02a" ≡ false
unfolding is_participant Participants.fetch_query query_with_current_block current_block get_table
not_yet = refl

early_or_late_example :
    (create_user open_crypto "k" stores any_user
        (is_participant lists by_insertion stores sample nobody)
        10
        applicant
        nobody
      ≡ (nobody, error other))
    × ((l' : Ledger lists) × (handle lists
            ([], a_participant ann_participant ∷ [])
            (block_of 3)
            sample
          ≡ some l')
        × ((b : Accounts stores) × (create_user open_crypto "k" stores any_user
                (is_participant lists by_insertion stores l' nobody)
                10
                applicant
                nobody
              ≡ (b, json (new_session_of open_crypto "k" stores (user_of applicant))))
            × (authorize open_crypto "k" stores (some "ann") (some "secret") b
                ≡ json (session_of open_crypto "k" stores (user_of applicant)))))
unfolding user_of
early_or_late_example =
    early_or_late open_crypto "k" stores lists by_insertion [] (a_participant ann_participant ∷ [])
      (block_of 3) 2 sample ann_participant any_user 10 applicant nobody sample-IsSynced
      sample-IsNext refl not_yet refl refl refl nobody-IsUnnamed refl refl

sample-block : current_block lists by_insertion sample ≡ some 2
unfolding current_block
sample-block = refl

fetch_record-fails_example :
    (list_records lists by_insertion (λ r. true) sample
      ≡ some (get_table lists.records 2 sample.records))
    × ((record_id : String) → fetch_record lists by_insertion record_id sample ≡ none)
fetch_record-fails_example = fetch_record-fails lists by_insertion sample 2 (λ r. true) sample-block
