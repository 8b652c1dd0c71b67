-- ===== src/Server/Info.antt =====
-- The routes /info and /info/mapsApiKey of server/api/index.js, on the key that the configuration
-- holds; an empty key counts as none.
use dgc_database_tp.Prelude.{
  String, false, List, [], ◌∷◌, Option, ◌≡◌, refl, if◌then◌else◌, inl, inr, Bool-cases,
}
use dgc_database_tp.Server.Users.{is_falsy}
use dgc_database_tp.Server.Auth.{Reply, json, error, bad_request}
use dgc_database_tp.Server.Routes.{Endpoint}

pub record Info : Type 0 where
  pub pubkey : String
  pub maps_api_key : Option String
  pub endpoints : List Endpoint

unfoldable pub info : String → List Endpoint → Option String → Info
info pubkey endpoints key = record { pubkey = pubkey; maps_api_key = key; endpoints = endpoints }

-- The reply holds the key, which stands in its text; `none` is a body without the key.
unfoldable set_maps_api_key : Option String → Option String → Option String × Reply (Option String)
set_maps_api_key body key = if is_falsy key then (body, json body) else (key, error bad_request)

-- The key after some requests.
unfoldable key_after : List (Option String) → Option String → Option String
key_after [] key = key
key_after (body ∷ bodies) key = key_after bodies (set_maps_api_key body key).0

-- The first key that is not empty.
abbrev first_given : List (Option String) → Option String → Option String
first_given [] key = key
first_given (body ∷ bodies) key = if is_falsy key then first_given bodies body else key

key_after-kept :
    (bodies : List (Option String)) (key : Option String)
    → is_falsy key ≡ false
    → key_after bodies key ≡ key
unfolding key_after set_maps_api_key
key_after-kept [] key h = refl
key_after-kept (body ∷ bodies) key h = rw h (key_after-kept bodies key h)

-- Once a key that is not empty is set it stays, whatever requests follow; until then every request
-- replaces it.
key_after-first_given :
    (bodies : List (Option String)) (key : Option String)
    → key_after bodies key ≡ first_given bodies key
unfolding key_after set_maps_api_key
key_after-first_given [] key = refl
key_after-first_given (body ∷ bodies) key = elim (Bool-cases (is_falsy key)) [
  | inl empty ↦ rw empty (key_after-first_given bodies body)
  | inr given ↦ rw given (key_after-kept bodies key given)
]
