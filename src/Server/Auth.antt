-- ===== src/Server/Auth.antt =====
-- server/api/users.js, server/api/auth.js, and the middleware of server/api/index.js that reads the
-- Authorization header. bcrypt and jsonwebtoken are arguments, with what the code relies on as laws.
pub mod Login
use dgc_database_tp.Prelude.{
  ℕ, String, Bool, true, false, ◌||◌, List, [], ◌∷◌, Option, none, some, ◌≡◌, if◌then◌else◌, ◌==◌,
  EqTest, text_test,
}
use dgc_database_tp.Server.Users
use dgc_database_tp.Server.Users.{
  User, Changes, Schema, Stores, Accounts, Result, resolved, rejected, is_falsy,
}

-- A password that was hashed, under any salt, compares with itself; a token that was signed is
-- verified under the same secret to the payload that was signed.
pub record Crypto : Type 0 where
  pub hash : ℕ → String → String
  pub compare : String → String → Bool
  pub sign : String → String → String
  pub verify : String → String → Option String
  pub compare-hash : (salt : ℕ) (pass : String) → compare pass (hash salt pass) ≡ true
  pub verify-sign : (secret payload : String) → verify secret (sign secret payload) ≡ some payload

-- The classes of server/api/errors.js, and any other error.
pub data ApiError : Type 0 where
  bad_request unauthorized not_found internal other : ApiError

-- `this.status`, or 500 in `errorHandler` for an error without one
unfoldable pub status : ApiError → ℕ
status bad_request = 400
status unauthorized = 401
status not_found = 404
status internal = 500
status other = 500

pub data Reply {ℓ} (A : Type ℓ) : Type ℓ where
  json : A → Reply A
  error : ApiError → Reply A

pub record Session : Type 0 where
  pub authorization : String
  pub encrypted_key : Option String

-- A user without the password: `_.omit(updated, 'password')`.
pub record PublicUser : Type 0 where
  pub public_key : String
  pub username : String
  pub email : String
  pub encrypted_key : Option String

abbrev pub omit_password : User → PublicUser
omit_password u = record {
  public_key = u.public_key;
  username = u.username;
  email = u.email;
  encrypted_key = u.encrypted_key;
}

-- `user.encryptedKey || null`: an empty text is null
abbrev pub or_null : Option String → Option String
or_null none = none
or_null (some key) = if key == "" then none else some key

module _ (C : Crypto) (secret : String) (S : Stores) where
  unfoldable pub create_token : String → String
  create_token payload = C.sign secret payload

  -- `results => createToken(...)`, or the database's error as a BadRequest
  abbrev pub answer_create : User → Accounts S × Result (Unit {0}) → Accounts S × Reply Session
  answer_create user (a, resolved done) = (
    a,
    json (record {
      authorization = create_token user.public_key;
      encrypted_key = or_null user.encrypted_key;
    }),
  )
  answer_create user (a, rejected e) = (a, error bad_request)

  -- `create` of server/api/users.js: `is_participant` is what `participants.fetch` finds.
  unfoldable pub create :
      Schema User → (String → Bool) → ℕ → User → Accounts S → Accounts S × Reply Session
  create schema is_participant salt user a =
      if is_participant user.public_key
      then answer_create user
          (Users.insert S schema (record user { password = C.hash salt user.password }) a)
      else (a, error bad_request)

  abbrev pub check_password : String → List User → Reply Session
  check_password password [] = error unauthorized
  check_password password (user ∷ rest) =
      if C.compare password user.password
      then json (record {
        authorization = create_token user.public_key;
        encrypted_key = user.encrypted_key;
      })
      else error unauthorized

  -- `authorize` of server/api/auth.js
  unfoldable pub authorize : Option String → Option String → Accounts S → Reply Session
  authorize username password a =
      if is_falsy username || is_falsy password
      then error bad_request
      else check_password (Users.or_empty password)
          (S.users.query (λ u. u.username == Users.or_empty username) a.users)

  -- `authHandler`: the key of the request, if its token can be verified
  unfoldable pub authed_key : Option String → Option String
  authed_key none = none
  authed_key (some token) = if token == "" then none else C.verify secret token

  -- `restrict`
  unfoldable pub restrict {ℓ} : {A : Type ℓ} → Option String → (String → Reply A) → Reply A
  restrict none handler = error unauthorized
  restrict (some key) handler = if key == "" then error unauthorized else handler key

  abbrev pub hashed : ℕ → Changes → Changes
  hashed salt c =
      if is_falsy c.password
      then c
      else record c { password = some (C.hash salt (Users.or_empty c.password)) }

  abbrev pub answer_update : Accounts S × Result User → Accounts S × Reply PublicUser
  answer_update (a, resolved u) = (a, json (omit_password u))
  answer_update (a, rejected e) = (a, error other)

  -- `update` of server/api/users.js
  unfoldable pub update :
      Schema Changes → ℕ → Changes → String → Accounts S → Accounts S × Reply PublicUser
  update schema salt c key a = answer_update (Users.update S schema key (hashed salt c) a)

  -- `router.patch('/users/:publicKey', restrict, ...)`
  unfoldable pub patch_user :
      Schema Changes
      → ℕ
      → Option String
      → String
      → Changes
      → Accounts S
      → Accounts S × Reply PublicUser
  patch_user schema salt none public_key c a = (a, error unauthorized)
  patch_user schema salt (some key) public_key c a =
      if key == ""
      then (a, error unauthorized)
      else if public_key == key
      then update schema salt c key a
      else (a, error unauthorized)
