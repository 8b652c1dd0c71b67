-- ===== src/Server/Requests/Merging.antt =====
-- The parameters that a function of the API is given.
use text.Mathlib.TextEquality.{eq_iff}
use dgc_database_tp.Prelude.{
  ℕ, String, [], ◌∷◌, Option, none, some, ◌≡◌, refl, ap, ◌∙◌, if◌then◌else◌, ◌==◌, text_test,
  Bool-cases, inl, inr, arith,
}
use dgc_database_tp.Server.Users
use dgc_database_tp.Server.Auth.{Crypto, authed_key}
use dgc_database_tp.Server.Requests.{
  Value, Object, Request, get_key, set_key, assign, merged, init_internal_params, number_or_null,
  wait_of, parse_wait, text_or_null, auth_handler, prepared,
}

module _ {J : Type 0} where
  abbrev pub or_else : Option (Value J) → Option (Value J) → Option (Value J)
  or_else none d = d
  or_else (some v) d = some v

  get-set_key :
      (k j : String) (v : Value J) (o : Object J)
      → get_key k (set_key j v o) ≡ (if j == k then some v else get_key k o)
  get-set_key k j v [] = refl
  get-set_key k j v ((i, w) ∷ o) =
      ground (arith, eq_iff j k, eq_iff i k, eq_iff i j, get-set_key k j v o)

  get-assign :
      (k : String) (target source : Object J)
      → get_key k (assign target source) ≡ or_else (get_key k source) (get_key k target)
  unfolding assign
  get-assign k target [] = refl
  get-assign k target ((j, v) ∷ source) =
      ground (arith, get-set_key k j v (assign target source), get-assign k target source)

  or_else-none : (v : Option (Value J)) → or_else v none ≡ v
  or_else-none none = refl
  or_else-none (some v) = refl

  get-merged :
      (k : String) (req : Request J)
      → get_key k (merged req)
        ≡ or_else (get_key k req.internal) (or_else (get_key k req.params) (get_key k req.query))
  unfolding merged
  get-merged k req =
      let query = assign [] req.query in
      get-assign k (assign query req.params) req.internal
      ∙ ap (λ v. or_else (get_key k req.internal) v)
          (get-assign k query req.params
            ∙ ap (λ v. or_else (get_key k req.params) v)
                (get-assign k [] req.query ∙ or_else-none (get_key k req.query)))

  module _ (default_wait : ℕ) (to_number : Value J → Option ℕ) (C : Crypto) (secret : String)
      (U : Users.Stores) where
    -- What the path and the query give to a parameter, where `wait` was parsed.
    abbrev pub given : String → Request J → Option (Value J)
    given k req = or_else (get_key k req.params) (
        if "wait" == k
        then some (number_or_null (wait_of default_wait to_number (get_key "wait" req.query)))
        else get_key k req.query)

    -- The parameters that a function of the API is given, after the handlers that come before it:
    -- authedKey is the key that the token of the request verifies to, or null, whatever the path
    -- and the query say; any other parameter is that of the path, if the path has it, or else that
    -- of the query, in which the number of seconds to wait was parsed.
    pub get_key-prepared :
        (k : String) (req : Request J)
        → get_key k (merged (prepared default_wait to_number C secret U req)) ≡ (
            if "authedKey" == k
            then some (text_or_null (authed_key C secret U req.authorization))
            else given k req)
    unfolding prepared auth_handler parse_wait init_internal_params
    get_key-prepared k req =
        get-merged k (prepared default_wait to_number C secret U req)
        ∙ elim (Bool-cases ("authedKey" == k)) [
          | inl own ↦ rw own refl
          | inr other ↦ rw (other, get-set_key k "wait" _ req.query) refl
        ]
