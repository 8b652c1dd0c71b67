-- ===== src/Server/Tests.antt =====
-- The theorems about the server at concrete accounts, keys and proposals.
use dgc_database_tp.Prelude.{
  Any, ◌↔◌, ℕ, true, not, List, [], ◌∷◌, map, ◌+◌, ◌-◌, ◌*◌, ◌/◌, ltb, none, some, ◌≡◌, refl, ◌==◌,
  text_test, false, ℕ_test, Option,
}
use dgc_database_tp.Server.Users.{
  User, Changes, Accounts, merge, same_user, resolved, rejected, database_error, insert, update,
}
use dgc_database_tp.Server.Users.Inserting.{insert_taken_name, RemovedAt}
use dgc_database_tp.Server.Users.Renaming.{IsRename, update_free_name}
use dgc_database_tp.Server.Auth.{create_token, create, authorize, patch_user, json}
use dgc_database_tp.Server.Auth.Login.{
  authorize_sound, create_then_authorize, patch_user-others, session_of, new_session_of,
}
use dgc_database_tp.Server.Transactions.Payloads.{create_participant, finalize_record}
use dgc_database_tp.Server.Transactions.{Request, create_txns, batch}
use dgc_database_tp.Server.Transactions.Batches.{txn_of, batch-create_txns}
use dgc_database_tp.Server.Matching.{Numbers, Offer, Own, Match, other_closed, empty_param}
use dgc_database_tp.Server.Matching.Selling.{sell_match, sell_matches, settle_sell, sell_reply}
use dgc_database_tp.Server.Matching.Buying.{buy_matches, settle_buy, buy_reply}
use dgc_database_tp.Server.Matching.Fair.{
  IsFairSale, amount_of, sell_match-IsFairSale, sell_matches-oversold,
}
use dgc_database_tp.Server.Matching.Mirror.{
  mirror_match, mirror_own, mirror, reversed, mirror-buy_matches,
}
use dgc_database_tp.Server.Submission.{Answers, done, submit}
use dgc_database_tp.Server.Submission.Waiting.{IsAccepted, submit-done}
use dgc_database_tp.Server.Routes.{Route, get_endpoints}
use dgc_database_tp.Server.Routes.Listed.{get_endpoints-listed}
use dgc_database_tp.Server.Connections.{driver_error, opened, connect, connected}
use dgc_database_tp.Server.Connections.Retrying.{IsOpened, IsReady, connect-connected}
use dgc_database_tp.Server.Samples.{
  stores, any_user, any_changes, ann, bob, two, nobody, open_crypto, nobody-IsUnnamed, plain_sdk,
  noon,
}

abbrev other_ann : User
other_ann = record ann { public_key = "04c" }

-- ann loses her account when she asks for the name that she has
insert_taken_name_example :
    (b : Accounts stores) × (insert stores any_user ann two ≡ (b, rejected database_error))
    × (b.usernames ≡ two.usernames)
    × RemovedAt stores any_user "02a" two b
insert_taken_name_example = insert_taken_name stores any_user ann two refl refl

abbrev no_changes : Changes
no_changes = record {
  public_key = none;
  username = none;
  password = none;
  email = none;
  encrypted_key = none;
}

abbrev to_eve : Changes
to_eve = record no_changes { username = some "eve" }

ann-IsRename : IsRename stores any_changes "02a" to_eve two ann "eve"
unfolding same_user merge
ann-IsRename = record {
  valid = refl;
  stored = refl;
  keeps_key = refl;
  names = refl;
  not_empty = refl;
  differs = refl;
  changed = refl;
}

update_free_name_example :
    (b : Accounts stores) × (update stores any_changes "02a" to_eve two
      ≡ (b, resolved (merge to_eve ann)))
    × ((merge to_eve ann).username ≡ "eve")
    × (stores.users.get "02a" b.users ≡ some (merge to_eve ann))
    × (stores.usernames.get "eve" b.usernames ≡ some (record { username = "eve" }))
    × (stores.usernames.get "ann" b.usernames ≡ none)
update_free_name_example =
    update_free_name stores any_changes "02a" to_eve two ann "eve" ann-IsRename refl

authorize_sound_example :
    (u : User) × ((stores.users.get u.public_key two.users ≡ some u)
      × ((u.username == "bob") ≡ true))
    × (("secret" == u.password) ≡ true)
    × (open_crypto.verify "k" "03b" ≡ some u.public_key)
unfolding authorize create_token
authorize_sound_example =
    authorize_sound open_crypto "k" stores (some "bob") (some "secret") two
      (session_of open_crypto "k" stores bob) refl

create_then_authorize_example :
    (b : Accounts stores) × (create open_crypto "k" stores any_user (λ k. true) 10 ann nobody
      ≡ (b, json (new_session_of open_crypto "k" stores ann)))
    × (authorize open_crypto "k" stores (some "ann") (some "secret") b
        ≡ json (session_of open_crypto "k" stores ann))
    × (open_crypto.verify "k" "02a" ≡ some "02a")
unfolding create_token
create_then_authorize_example =
    create_then_authorize open_crypto "k" stores any_user (λ k. true) 10 ann nobody refl refl refl
      refl nobody-IsUnnamed refl refl

-- bob, with a token of his own, at the path of ann's account
patch_user-others_example :
    stores.users.get "02a"
      (patch_user open_crypto "k" stores any_changes 10 (some "03b") "02a" to_eve two).0.users
    ≡ stores.users.get "02a" two.users
patch_user-others_example =
    patch_user-others open_crypto "k" stores any_changes 10 (some "03b") "02a" to_eve two "02a" refl

abbrev whole_numbers : Numbers ℕ
whole_numbers = record {
  nought = 0;
  sub = λ x y. x - y;
  mul = λ x y. x * y;
  quotient = λ x y. x / y;
  half_sum = λ x y. (x + y) / 2;
  ge = λ x y. not (ltb x y);
  gt = λ x y. ltb y x;
}

-- 10 coins at a rate of 3
abbrev own : Own ℕ
own = record { param = empty_param whole_numbers "mine"; exchange_rate = 3; balance = 10 }

-- 12 coins, 2 of them exchanged, for 60
abbrev offer : Offer ℕ
offer = record {
  proposal_id = "theirs";
  currency_iso_codes = "USD";
  dg_coin_amount = 12;
  dg_coin_exchanged = 2;
  currency_quote_amount = 60;
}

abbrev cheap : Offer ℕ
cheap = record offer { currency_quote_amount = 24 }

sell_match-IsFairSale_example :
    IsFairSale whole_numbers 7 own offer (sell_match whole_numbers 7 own offer)
sell_match-IsFairSale_example = sell_match-IsFairSale whole_numbers 7 own offer refl

-- 10 coins are sold to each of two purchases
sell_matches-oversold_example :
    map (λ a. amount_of a.0) (sell_matches whole_numbers 7 own (offer ∷ offer ∷ []))
    ≡ some 10 ∷ some 10 ∷ []
sell_matches-oversold_example =
    sell_matches-oversold whole_numbers 7 own (offer ∷ offer ∷ [])
      ((refl, refl), ((refl, refl), tt))

abbrev both : Match ℕ
both = record { branch = other_closed; offer = cheap; offer_balance = 10; mean_rate = 2 }

mirror-buy_matches_example :
    (map mirror_match (buy_matches whole_numbers 7 own (cheap ∷ []))
      ≡ sell_matches (reversed whole_numbers) 7 own (cheap ∷ []))
    × (mirror_own (settle_buy whole_numbers 7 both own)
        ≡ settle_sell (reversed whole_numbers) 7 both (mirror_own own))
    × (mirror (buy_reply whole_numbers both own)
        ≡ sell_reply (reversed whole_numbers) both (mirror_own own))
mirror-buy_matches_example = mirror-buy_matches whole_numbers 7 own both (cheap ∷ [])

-- two requests of one key and one of another
abbrev three_requests : List (Request ℕ)
three_requests =
    record { private_key = "a"; action = create_participant "ann"; now = noon }
    ∷ record { private_key = "b"; action = create_participant "bob"; now = noon }
    ∷ record { private_key = "a"; action = finalize_record "fish"; now = noon }
    ∷ []

batch-create_txns_example :
    batch plain_sdk "server" (create_txns plain_sdk "server" [] three_requests)
    ≡ some (record {
      signer_public_key = "server";
      transaction_ids =
          map (λ t. t.header_signature) (map (txn_of plain_sdk "server") three_requests);
      transactions = map (txn_of plain_sdk "server") three_requests;
    })
batch-create_txns_example = batch-create_txns plain_sdk "server" three_requests

abbrev all_well : Answers
all_well = record { submit_status = "OK"; status = "COMMITTED"; batch_id = "b"; messages = [] }

submit-done_example :
    (submit plain_sdk "server"
        (λ b. "sig")
        (map (txn_of plain_sdk "server") three_requests)
        (some 5)
        all_well
      ≡ done "sig")
    ↔ IsAccepted plain_sdk "server"
        (λ b. "sig")
        (map (txn_of plain_sdk "server") three_requests)
        (some 5)
        all_well
        "sig"
submit-done_example =
    submit-done plain_sdk "server" (λ b. "sig") (map (txn_of plain_sdk "server") three_requests)
      (some 5) all_well "sig"

-- A middleware, and the routes of /users.
abbrev router : List (Option Route)
router =
    none
    ∷ some (record {
      path = "/users";
      stack =
          record { name = ""; method = "post" }
          ∷ record { name = "restrict"; method = "patch" }
          ∷ record { name = ""; method = "patch" }
          ∷ [];
    })
    ∷ []

get_endpoints-listed_example :
    get_endpoints (λ m. m) router
    ≡ some (
        record { path = "/users"; method = "post"; restricted = false }
        ∷ record { path = "/users"; method = "patch"; restricted = true }
        ∷ [])
get_endpoints-listed_example = get_endpoints-listed (λ m. m) router

-- One refusal, and a database that has its tables at the third look.
connect-connected_example :
    (connect {C = ℕ} (driver_error ∷ opened 1 ∷ []) (none ∷ some [] ∷ some ("blocks" ∷ []) ∷ [])
      ≡ connected 1)
    ↔ (IsOpened {C = ℕ} 1 (driver_error ∷ opened 1 ∷ [])
        × Any IsReady (none ∷ some [] ∷ some ("blocks" ∷ []) ∷ []))
connect-connected_example =
    connect-connected 1 (driver_error ∷ opened 1 ∷ []) (none ∷ some [] ∷ some ("blocks" ∷ []) ∷ [])
