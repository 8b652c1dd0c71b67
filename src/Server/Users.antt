-- ===== src/Server/Users.antt =====
-- server/db/users.js, with validate, insertTable and updateTable of server/db/index.js. The queries
-- that a call sends are executed in the order in which they are sent.
pub mod Inserting
pub mod Renaming
use dgc_database_tp.Prelude.{
  ◌≡◌, ◌⊎◌, inl, inr, refl, Bool-cases, String, Bool, true, false, ◌&&◌, List, [], ◌∷◌, Option,
  none, some, if◌then◌else◌, ◌==◌, EqTest, text_test, option_same,
}
use dgc_database_tp.Rethink.{KeyedTable}

pub record User : Type 0 where
  pub public_key : String
  pub username : String
  pub password : String
  pub email : String
  pub encrypted_key : Option String

-- The keys of the update schema are all optional.
pub record Changes : Type 0 where
  pub public_key : Option String
  pub username : Option String
  pub password : Option String
  pub email : Option String
  pub encrypted_key : Option String

pub record Username : Type 0 where
  pub username : String

pub data Error : Type 0 where
  forbidden_keys : Error
  invalid_input : String → String → Error
  no_entries : Error
  database_error : Error
  unable_to_update : Error

-- How a promise is settled.
pub data Result {ℓ} (A : Type ℓ) : Type ℓ where
  resolved : A → Result A
  rejected : Error → Result A

-- A schema of the npm package `js-schema`: the test, and `errors`, whose entries are in order.
pub record Schema (A : Type 0) : Type 0 where
  pub accepts : A → Bool
  pub errors : A → Option (List (String × String))

abbrev first_error : {A : Type 0} → Option (List (String × String)) → Result A
first_error none = rejected forbidden_keys
first_error (some []) = rejected no_entries
first_error (some ((key, message) ∷ rest)) = rejected (invalid_input key message)

unfoldable pub validate : {A : Type 0} → A → Schema A → Result A
validate input schema =
    if schema.accepts input then resolved input else first_error (schema.errors input)

-- An input is passed on as it is, or refused.
pub validate-cases :
    {A : Type 0} (input : A) (schema : Schema A)
    → (validate input schema ≡ resolved input)
      ⊎ ((e : Error) × (validate input schema ≡ rejected e))
unfolding validate
validate-cases input schema = elim (Bool-cases (schema.accepts input)) [
  | inl ok ↦ inl (rw ok)
  | inr bad ↦ inr (refused (schema.errors input) (rw bad))
]
  where
    refused :
        (o : Option (List (String × String)))
        → validate input schema ≡ first_error o
        → (e : Error) × (validate input schema ≡ rejected e)
    refused none p = (forbidden_keys, p)
    refused (some []) p = (no_entries, p)
    refused (some ((key, message) ∷ rest)) p = (invalid_input key message, p)

abbrev pub user_key : User → String
user_key u = u.public_key

abbrev pub username_key : Username → String
username_key u = u.username

pub record Stores : Type 1 where
  pub users : KeyedTable String User user_key
  pub usernames : KeyedTable String Username username_key

pub record Accounts (S : Stores) : Type 0 where
  pub users : S.users.State
  pub usernames : S.usernames.State

abbrev pub or_keep : {A : Type 0} → Option A → A → A
or_keep none a = a
or_keep (some b) a = b

-- `update(changes)` merges; the primary key is not among what it can change
unfoldable pub merge : Changes → User → User
merge c u = record u {
  username = or_keep c.username u.username;
  password = or_keep c.password u.password;
  email = or_keep c.email u.email;
  encrypted_key = elim c.encrypted_key [ none ↦ u.encrypted_key | some k ↦ some k ];
}

abbrev pub changes_of : User → Changes
changes_of u = record {
  public_key = some u.public_key;
  username = some u.username;
  password = some u.password;
  email = some u.email;
  encrypted_key = u.encrypted_key;
}

unfoldable pub same_user : User → User → Bool
same_user u v =
    u.public_key == v.public_key
    && (u.username == v.username
        && (u.password == v.password
            && (u.email == v.email && option_same u.encrypted_key v.encrypted_key)))

-- What `t.get(primary).update(changes)` reports: no document, an error, no change, or the document
-- before and after.
pub data Update : Type 0 where
  skipped failed : Update
  unchanged : User → Update
  replaced : User → User → Update

-- A new primary key is an error of the database.
abbrev pub moves : String → Option String → Bool
moves primary none = false
moves primary (some k) = if k == primary then false else true

unfoldable pub report : String → Changes → Option User → Update
report primary c none = skipped
report primary c (some u) =
    if moves primary c.public_key
    then failed
    else if same_user (merge c u) u
    then unchanged u
    else replaced u (merge c u)

-- `!changes.username`
abbrev pub is_falsy : Option String → Bool
is_falsy none = true
is_falsy (some s) = s == ""

-- a value that is not `undefined`
abbrev pub or_empty : Option String → String
or_empty none = ""
or_empty (some s) = s

module _ (S : Stores) (schema : Schema User) where
  -- The promise of the first insert is not returned: its failure goes unnoticed.
  unfoldable pub insert_user : User → Accounts S → Accounts S
  insert_user user a = elim (S.users.insert user a.users) [
    | some users ↦ record a { users = users }
    | none ↦ a
  ]

  -- On failure the user is deleted, and the error thrown again.
  unfoldable pub insert_username : User → Accounts S → Accounts S × Result (Unit {0})
  insert_username user a =
      elim (S.usernames.insert (record { username = user.username }) a.usernames) [
        | some names ↦ (record a { usernames = names }, resolved tt)
        | none ↦ (
          record a { users = S.users.delete (λ k. k == user.public_key) a.users },
          rejected database_error,
        )
      ]

  unfoldable pub insert : User → Accounts S → Accounts S × Result (Unit {0})
  insert user a = elim (validate user schema) [
    | rejected e ↦ (a, rejected e)
    | resolved valid ↦ insert_username user (insert_user user a)
  ]

module _ (S : Stores) (schema : Schema Changes) where
  unfoldable pub update_table : String → Changes → Accounts S → Update
  update_table primary changes a = report primary changes (S.users.get primary a.users)

  -- the write of the names, and on its failure the reset of the user
  unfoldable pub rename : Changes → User → User → String → Accounts S → Accounts S × Result User
  rename changes old new name a =
      let names = S.usernames.delete (λ k. k == old.username) a.usernames in
      elim (S.usernames.insert (record { username = name }) names) [
        | some names' ↦ (record a { usernames = names' }, resolved new)
        | none ↦ (
          record {
            users = S.users.replace (merge (changes_of old) new) a.users;
            usernames = names;
          },
          rejected database_error,
        )
      ]

  -- the steps after `updateTable`
  unfoldable pub settle : Changes → Accounts S → Update → Accounts S × Result User
  settle changes a skipped = (a, rejected unable_to_update)
  settle changes a failed = (a, rejected database_error)
  settle changes a (unchanged u) = (a, resolved u)
  settle changes a (replaced old new) =
      let b = record a { users = S.users.replace new a.users } in
      if is_falsy changes.username
      then (b, resolved new)
      else rename changes old new (or_empty changes.username) b

  unfoldable pub update : String → Changes → Accounts S → Accounts S × Result User
  update public_key changes a = elim (validate changes schema) [
    | rejected e ↦ (a, rejected e)
    | resolved valid ↦ settle changes a (update_table public_key changes a)
  ]
