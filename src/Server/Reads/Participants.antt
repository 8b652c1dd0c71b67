-- ===== src/Server/Reads/Participants.antt =====
-- server/db/participants.js, and `fetch` of server/api/participants.js. The documents have no
-- `dg_coin_balance` (protobufjs writes its fields in camel case), so `pluck` leaves that key out.
pub mod Private
pub mod Registered
use mathlib.Core.Option
use mathlib.Core.List.{head?}
use dgc_database_tp.Prelude.{
  ℕ, String, Bool, true, false, List, [], ◌∷◌, map, filter, Option, none, some, if◌then◌else◌, ◌==◌,
  text_test,
}
use dgc_database_tp.Rethink.Sorting.{Sorting}
use dgc_database_tp.Documents.{Participant}
use dgc_database_tp.LedgerSync.Ledger
use dgc_database_tp.LedgerSync.Ledger.{Ledger}
use dgc_database_tp.Server.Users
use dgc_database_tp.Server.Users.{User, Accounts}
use dgc_database_tp.Server.Reads.{get_table, query_with_current_block}

-- `pluck('username', 'email', 'encryptedKey')`
pub record UserPart : Type 0 where
  pub username : String
  pub email : String
  pub encrypted_key : Option String

-- What `fetch` answers: the participant, and for a request of their own the user's part.
pub record Profile : Type 0 where
  pub name : String
  pub public_key : String
  pub user : Option UserPart

abbrev pub profile_of : Participant → Option UserPart → Profile
profile_of p user = record { name = p.name; public_key = p.public_key; user = user }

abbrev pub pluck_user : User → UserPart
pluck_user u = record { username = u.username; email = u.email; encrypted_key = u.encrypted_key }

module _ (U : Users.Stores) where
  unfoldable pub fetch_user : String → Accounts U → Option UserPart
  fetch_user public_key a =
      Option.map pluck_user (head? (U.users.query (λ u. public_key == u.public_key) a.users))

-- `publicKey === authedKey`
abbrev pub is_own_key : String → Option String → Bool
is_own_key public_key none = false
is_own_key public_key (some key) = public_key == key

module _ (S : Ledger.Stores) (O : Sorting) (U : Users.Stores) where
  -- `r.branch(auth, participant.merge(fetchUser(publicKey)), participant)`
  abbrev pub with_user : String → Bool → Accounts U → Participant → Option Profile
  with_user public_key true a p =
      Option.map (λ user. profile_of p (some user)) (fetch_user U public_key a)
  with_user public_key false a p = some (profile_of p none)

  unfoldable pub fetch_query : String → Bool → Ledger S → Accounts U → ℕ → Option Profile
  fetch_query public_key auth l a block =
      elim (head? (
        filter (λ p. p.public_key == public_key) (get_table S.participants block l.participants))) [
          | none ↦ none
          | some p ↦ with_user public_key auth a p
        ]

  unfoldable pub fetch : String → Option String → Ledger S → Accounts U → Option Profile
  fetch public_key authed_key l a =
      query_with_current_block S O (fetch_query public_key (is_own_key public_key authed_key) l a) l

  -- `listQuery`, whose filter stands after the `return`
  unfoldable pub list_query : Ledger S → ℕ → List Participant
  list_query l block = get_table S.participants block l.participants

  -- Whether `participants.fetch(publicKey, null)` finds anyone, as `create` of server/api/users.js asks.
  abbrev is_found : Option Profile → Bool
  is_found none = false
  is_found (some p) = true

  unfoldable pub is_participant : Ledger S → Accounts U → String → Bool
  is_participant l a public_key =
      is_found (query_with_current_block S O (fetch_query public_key false l a) l)
