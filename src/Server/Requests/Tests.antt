-- ===== src/Server/Requests/Tests.antt =====
-- The theorems about requests at a concrete request.
use dgc_database_tp.Prelude.{ℕ, [], ◌∷◌, Option, none, some, ◌≡◌, refl, text_test}
use dgc_database_tp.Rethink.Sorting.{by_insertion}
use dgc_database_tp.LedgerSync.Samples.{lists, sample}
use dgc_database_tp.LedgerSync.Versions.{version_of}
use dgc_database_tp.LedgerSync.Ledger.{Ledger}
use dgc_database_tp.Server.Users.{User}
use dgc_database_tp.Server.Auth.{json, authed_key}
use dgc_database_tp.Server.Submission.{wait_parser}
use dgc_database_tp.Server.Samples.{stores, two, open_crypto}
use dgc_database_tp.Server.Reads.{get_table, current_block, query_with_current_block}
use dgc_database_tp.Server.Reads.Participants
use dgc_database_tp.Server.Reads.Participants.{pluck_user}
use dgc_database_tp.Server.Requests.{
  Value, of_text, Object, Request, single, get_key, split, split_from, pick, assign, merged,
  filter_params, filter_query_params, handle, init_internal_params, parse_wait, auth_handler,
  prepared, user_object, fetch_participant,
}
use dgc_database_tp.Server.Requests.Merging.{get_key-prepared}
use dgc_database_tp.Server.Requests.Showing.{fetch_participant-private}

-- ann asks for her e-mail address, and claims another key in the query
abbrev request : Request ℕ
request = record {
  query = ("fields", of_text "email,name") ∷ ("authedKey", of_text "03b") ∷ [];
  params = ("publicKey", of_text "02a") ∷ [];
  authorization = some "02a";
  internal = [];
}

abbrev no_number : Value ℕ → Option ℕ
no_number v = none

get_key-prepared_example :
    get_key "authedKey" (merged (prepared 5000 no_number open_crypto "k" stores request))
    ≡ some (of_text "02a")
unfolding authed_key
get_key-prepared_example =
    get_key-prepared 5000 no_number open_crypto "k" stores "authedKey" request

abbrev with_ann : Ledger lists
with_ann = record sample {
  participants = version_of (record { public_key = "02a"; name = "Ann" }) 2 ∷ [];
}

abbrev shown : Object ℕ
shown = ("name", of_text "Ann") ∷ ("email", of_text "ann@example.com") ∷ []

request-shown :
    handle
      (fetch_participant lists by_insertion stores with_ann two)
      (prepared 5000 no_number open_crypto "k" stores request)
    ≡ json (single shown)
unfolding handle fetch_participant prepared init_internal_params parse_wait auth_handler merged
    assign filter_query_params filter_params split split_from pick authed_key wait_parser
    Participants.fetch Participants.fetch_query Participants.fetch_user query_with_current_block
    current_block get_table
request-shown = refl

fetch_participant-private_example :
    (authed_key open_crypto "k" stores (some "02a") ≡ some "02a")
    × ((u : User) × (stores.users.get "02a" two.users ≡ some u)
        × (get_key "email" (user_object {J = ℕ} (some (pluck_user u)))
            ≡ some (of_text "ann@example.com")))
fetch_participant-private_example =
    fetch_participant-private 5000 no_number open_crypto "k" lists by_insertion stores "02a" "email"
      (of_text "ann@example.com") request with_ann two shown refl refl refl request-shown refl
