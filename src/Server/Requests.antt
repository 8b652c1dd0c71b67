-- ===== src/Server/Requests.antt =====
-- What server/api/index.js makes of a request before a function of the API has it, and of the
-- function's result: initInternalParams, waitParser, authHandler, handle, handleBody and
-- filterQueryParams, with the route of a participant. An object is listed by its keys, which differ.
pub mod Merging
pub mod Showing
mod Tests
use mathlib.Core.Option
use Prim.Native.String.{len, slice}
use dgc_database_tp.Prelude.{
  ℕ, zero, suc, ◌+◌, String, Bool, true, false, not, List, [], ◌∷◌, ◌||◌, map, filter, map_option,
  Option, none, some, if◌then◌else◌, ◌==◌, text_test, ℕ_test,
}
use dgc_database_tp.Rethink.Sorting.{Sorting}
use dgc_database_tp.LedgerSync.Ledger
use dgc_database_tp.LedgerSync.Ledger.{Ledger}
use dgc_database_tp.Server.Users
use dgc_database_tp.Server.Users.{Accounts}
use dgc_database_tp.Server.Auth.{Crypto, Reply, json, error, other, authed_key}
use dgc_database_tp.Server.Submission.{wait_parser}
use dgc_database_tp.Server.Reads.Participants.{UserPart, Profile, fetch}

-- A value of a request or of a reply; `J` are the arrays and objects.
pub data Value (J : Type 0) : Type 0 where
  null : Value J
  of_text : String → Value J
  of_number : ℕ → Value J
  of_json : J → Value J

abbrev pub Object : Type 0 → Type 0
Object J = List (String × Value J)

-- The parts of a request that the functions read: `req.params` are those of its path.
pub record Request (J : Type 0) : Type 0 where
  pub query : Object J
  pub params : Object J
  pub authorization : Option String
  pub internal : Object J

-- The result of a function of the API, when it is an object or an array of objects.
pub data Result (J : Type 0) : Type 0 where
  single : Object J → Result J
  many : List (Object J) → Result J

-- The parts of a text from byte `start`, of which the bytes up to `i` were looked at and `n` are left.
unfoldable pub split_from : String → ℕ → ℕ → ℕ → List String
split_from s start i zero = slice s start (len s) ∷ []
split_from s start i (suc n) = elim (slice s i (i + 1) == ",") [
  | true ↦ slice s start i ∷ split_from s (i + 1) (i + 1) n
  | false ↦ split_from s start (i + 1) n
]

-- `text.split(',')`
unfoldable pub split : String → List String
split s = split_from s 0 0 (len s)

abbrev pub is_in : List String → String → Bool
is_in [] name = false
is_in (n ∷ names) name = n == name || is_in names name

module _ {J : Type 0} where
  abbrev pub get_key : String → Object J → Option (Value J)
  get_key k [] = none
  get_key k ((j, v) ∷ ps) = if j == k then some v else get_key k ps

  -- `object[key] = value`
  abbrev pub set_key : String → Value J → Object J → Object J
  set_key k v [] = (k, v) ∷ []
  set_key k v ((j, w) ∷ ps) =
      let rest = set_key k v ps in if j == k then (k, v) ∷ ps else (j, w) ∷ rest

  -- `_.assign(target, source)`
  unfoldable pub assign : Object J → Object J → Object J
  assign target [] = target
  assign target ((k, v) ∷ source) = set_key k v (assign target source)

  unfoldable pub merged : Request J → Object J
  merged req = assign (assign (assign [] req.query) req.params) req.internal

  abbrev pub is_truthy : Option (Value J) → Bool
  is_truthy none = false
  is_truthy (some null) = false
  is_truthy (some (of_text s)) = not (s == "")
  is_truthy (some (of_number n)) = not (n == 0)
  is_truthy (some (of_json j)) = true

  -- `value.split(',')`, a TypeError for what is not a text
  abbrev names_of : Option (Value J) → Option (List String)
  names_of (some (of_text s)) = some (split s)
  names_of _ = none

  -- `_.pick` and `_.omit`, of names that are not lodash's paths into nested objects
  unfoldable pub pick : List String → Object J → Object J
  pick names object = filter (λ p. is_in names p.0) object

  unfoldable pub omit : List String → Object J → Object J
  omit names object = filter (λ p. not (is_in names p.0)) object

  unfoldable pub filter_params : Option (Value J) → Option (Value J) → Object J → Option (Object J)
  filter_params fields omitted object =
      if is_truthy fields
      then Option.map (λ names. pick names object) (names_of fields)
      else if is_truthy omitted
      then Option.map (λ names. omit names object) (names_of omitted)
      else some object

  abbrev pub reply_of : Option (Result J) → Reply (Result J)
  reply_of none = error other
  reply_of (some result) = json result

  unfoldable pub filter_query_params : Object J → Result J → Reply (Result J)
  filter_query_params query (single object) =
      reply_of
        (Option.map single (filter_params (get_key "fields" query) (get_key "omit" query) object))
  filter_query_params query (many objects) = reply_of (
      Option.map many
        (map_option (filter_params (get_key "fields" query) (get_key "omit" query)) objects))

  -- `handlePromisedResponse`, on what the function promises
  abbrev pub respond : Object J → Reply (Result J) → Reply (Result J)
  respond query (error e) = error e
  respond query (json result) = filter_query_params query result

  unfoldable pub handle : (Object J → Reply (Result J)) → Request J → Reply (Result J)
  handle func req = respond req.query (func (merged req))

  unfoldable handle_body {ℓ} :
      {B : Type ℓ} → (B → Object J → Reply (Result J)) → B → Request J → Reply (Result J)
  handle_body func body req = respond req.query (func body (merged req))

  unfoldable pub init_internal_params : Request J → Request J
  init_internal_params req = record req { internal = [] }

  abbrev pub number_or_null : Option ℕ → Value J
  number_or_null none = null
  number_or_null (some n) = of_number n

  abbrev pub text_or_null : Option String → Value J
  text_or_null none = null
  text_or_null (some s) = of_text s

  -- The middlewares: `to_number` is `Number`, with none for NaN.
  module _ (default_wait : ℕ) (to_number : Value J → Option ℕ) where
    abbrev pub wait_of : Option (Value J) → Option ℕ
    wait_of none = wait_parser default_wait (λ s. to_number (of_text s)) none
    wait_of (some (of_text s)) = wait_parser default_wait (λ s. to_number (of_text s)) (some s)
    wait_of (some v) = to_number v

    unfoldable pub parse_wait : Request J → Request J
    parse_wait req = record req {
      query = set_key "wait" (number_or_null (wait_of (get_key "wait" req.query))) req.query;
    }

    module _ (C : Crypto) (secret : String) (U : Users.Stores) where
      unfoldable pub auth_handler : Request J → Request J
      auth_handler req = record req {
        internal =
            set_key "authedKey" (text_or_null (authed_key C secret U req.authorization))
              req.internal;
      }

      -- The middlewares in their order.
      unfoldable pub prepared : Request J → Request J
      prepared req = auth_handler (parse_wait (init_internal_params req))

  -- `publicKey` and `authedKey` of a function's parameters
  abbrev pub text_of : Option (Value J) → Option String
  text_of (some (of_text s)) = some s
  text_of _ = none

  abbrev pub user_object : Option UserPart → Object J
  user_object none = []
  user_object (some u) =
      ("username", of_text u.username) ∷ ("email", of_text u.email) ∷ encrypted u.encrypted_key
    where
      encrypted : Option String → Object J
      encrypted none = []
      encrypted (some k) = ("encryptedKey", of_text k) ∷ []

  abbrev pub profile_object : Profile → Object J
  profile_object p =
      ("name", of_text p.name) ∷ ("publicKey", of_text p.public_key) ∷ user_object p.user

  -- `fetch` of server/api/participants.js; a query that fails is an error without a status.
  abbrev pub profile_reply : Option Profile → Reply (Result J)
  profile_reply none = error other
  profile_reply (some p) = json (single (profile_object p))

  module _ (S : Ledger.Stores) (O : Sorting) (U : Users.Stores) where
    abbrev fetch_by : Option String → Option String → Ledger S → Accounts U → Reply (Result J)
    fetch_by none authed l a = error other
    fetch_by (some public_key) authed l a = profile_reply (fetch S O U public_key authed l a)

    unfoldable pub fetch_participant : Ledger S → Accounts U → Object J → Reply (Result J)
    fetch_participant l a params =
        fetch_by (text_of (get_key "publicKey" params)) (text_of (get_key "authedKey" params)) l a
