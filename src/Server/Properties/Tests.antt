-- ===== src/Server/Properties/Tests.antt =====
-- The theorems about createRecord at a concrete request.
use dgc_database_tp.Prelude.{ℕ, List, [], ◌∷◌}
use dgc_database_tp.Server.Samples.{plain_sdk, noon, fish_table, fish}
use dgc_database_tp.Server.Transactions.{Transaction, Header, create_txns}
use dgc_database_tp.Server.Properties.Creating.{
  NewRecord, Creation, create, creation_of, fetched, submitted, Event, fetch_ended, submission_made,
}

abbrev new : NewRecord
new = record { private_key = "a"; record_id = "fish43200"; table = "fish" }

-- The weight's fetch ends, and then the record is submitted.
abbrev creation : Creation Header ℕ
creation = creation_of plain_sdk "server" new fish_table fish

abbrev weighed : Creation Header ℕ
weighed =
    fetched plain_sdk "server" new fish_table ("weight", 3) (("species", 1) ∷ ("color", 2) ∷ [])
      creation

abbrev created : Creation Header ℕ
created = submitted plain_sdk "server" new fish_table noon weighed

abbrev sent : List (Transaction Header)
sent = create_txns plain_sdk "server" [] (create new weighed.properties noon ∷ [])

abbrev events : List (Event ℕ)
events = fetch_ended ("weight", 3) ∷ submission_made noon ∷ []
