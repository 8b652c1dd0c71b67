-- ===== src/Server/Requests/Showing.antt =====
-- What the route of a participant shows, of whom and to whom.
use dgc_database_tp.Prelude.{
  ℕ, String, Bool, false, not, [], ◌∷◌, filter, Option, none, some, ◌≡◌, refl, ap, ◌∙◌,
  if◌then◌else◌, ◌==◌, text_test, Bool-cases, Option-cases, inl, inr, map-eq-some, arith,
}
use dgc_database_tp.Rethink.Sorting.{Sorting}
use dgc_database_tp.LedgerSync.Ledger
use dgc_database_tp.LedgerSync.Ledger.{Ledger}
use dgc_database_tp.Server.Users
use dgc_database_tp.Server.Users.{User, Accounts}
use dgc_database_tp.Server.Auth.{Crypto, json, error, other, authed_key}
use dgc_database_tp.Server.Reads.Participants.{UserPart, Profile, pluck_user, fetch}
use dgc_database_tp.Server.Reads.Participants.Private.{fetch_private}
use dgc_database_tp.Server.Requests.{
  Value, of_text, Object, Request, single, is_in, get_key, merged, is_truthy, pick, omit,
  filter_params, filter_query_params, respond, reply_of, handle, text_or_null, prepared, text_of,
  user_object, profile_object, profile_reply, fetch_participant,
}
use dgc_database_tp.Server.Requests.Merging.{get_key-prepared}

text_of-text_or_null :
    (J : Type 0) (o : Option String) → text_of (some (text_or_null {J = J} o)) ≡ o
text_of-text_or_null J none = refl
text_of-text_or_null J (some s) = refl

module _ {J : Type 0} where
  get_key-filter :
      (q : String → Bool) (k : String) (object : Object J)
      → get_key k (filter (λ p. q p.0) object) ≡ (if q k then get_key k object else none)
  get_key-filter q k [] = ground arith
  get_key-filter q k ((j, w) ∷ object) =
      let rest = get_key-filter q k object in
      elim (Bool-cases (j == k)) [
        | inl same ↦
            let p : j ≡ k = (text_test.decides j k).0 same in
            let qs : q j ≡ q k = ap q p in ground (arith, same, qs, rest)
        | inr different ↦ ground (arith, different, rest)
      ]

  get_key-filtered :
      (q : String → Bool) (k : String) (v : Value J) (object : Object J)
      → get_key k (filter (λ p. q p.0) object) ≡ some v
      → get_key k object ≡ some v
  get_key-filtered q k v object h = let both = get_key-filter q k object in ground arith

  filter_params-get_key :
      (fields omitted : Option (Value J)) (k : String) (v : Value J) (object shown : Object J)
      → filter_params fields omitted object ≡ some shown
      → get_key k shown ≡ some v
      → get_key k object ≡ some v
  unfolding filter_params pick omit
  filter_params-get_key fields omitted k v object shown h at =
      elim (Bool-cases (is_truthy fields)) [
        | inl chosen ↦
            let (names, given, made) = map-eq-some _ _ (rw chosen at h) in
            get_key-filtered (is_in names) k v object (rw made at)
        | inr all ↦ elim (Bool-cases (is_truthy omitted)) [
          | inl dropped ↦
              let (names, given, made) = map-eq-some _ _ (rw (all, dropped) at h) in
              get_key-filtered (λ n. not (is_in names n)) k v object (rw made at)
          | inr none_dropped ↦
              let same : some object ≡ some shown = rw (all, none_dropped) at h in
              let e : object ≡ shown = cc in rw e at
        ]
      ]

  respond-single :
      (query : Object J) (object shown : Object J)
      → respond query (json (single object)) ≡ json (single shown)
      → filter_params (get_key "fields" query) (get_key "omit" query) object ≡ some shown
  unfolding filter_query_params
  respond-single query object shown h =
      elim (Option-cases (filter_params (get_key "fields" query) (get_key "omit" query) object)) [
        | inl fails ↦ absurd (let e : reply_of none ≡ json (single shown) = rw fails at h in cc)
        | inr (o, made) ↦
            let e : json (single o) ≡ json (single shown) = rw made at h in
            let same : o ≡ shown = cc in made ∙ ap some same
      ]

  get_key-profile_object :
      (name : String) (v : Value J) (p : Profile)
      → ("name" == name) ≡ false
      → ("publicKey" == name) ≡ false
      → get_key name (profile_object p) ≡ some v
      → (part : UserPart) × (p.user ≡ some part) × (get_key name (user_object (some part)) ≡ some v)
  get_key-profile_object name v p n1 n2 h = seen p.user (rw (n1, n2) at h)
    where
      seen :
          (o : Option UserPart)
          → get_key name (user_object o) ≡ some v
          → (part : UserPart) × (o ≡ some part) × (get_key name (user_object (some part)) ≡ some v)
      seen none e = cc
      seen (some part) e = (part, refl, e)

  module _ (default_wait : ℕ) (to_number : Value J → Option ℕ) (C : Crypto) (secret : String)
      (S : Ledger.Stores) (O : Sorting) (U : Users.Stores) where
    fetch_participant-prepared :
        (key : String) (req : Request J) (l : Ledger S) (a : Accounts U)
        → get_key "publicKey" req.params ≡ some (of_text key)
        → fetch_participant S O U l a (merged (prepared default_wait to_number C secret U req))
          ≡ profile_reply (fetch S O U key (authed_key C secret U req.authorization) l a)
    unfolding fetch_participant
    fetch_participant-prepared key req l a path =
        rw
          (
            get_key-prepared default_wait to_number C secret U "publicKey" req,
            get_key-prepared default_wait to_number C secret U "authedKey" req,
            path,
            text_of-text_or_null J (authed_key C secret U req.authorization),
          )
          refl

    -- Whatever a request for a participant has in its query, what it is shown besides the name and
    -- the public key is shown only when its token verifies to the public key of its path, and is
    -- the value of that field of the stored account of that key.
    pub fetch_participant-private :
        (key name : String) (v : Value J) (req : Request J) (l : Ledger S) (a : Accounts U)
        (shown : Object J)
        → get_key "publicKey" req.params ≡ some (of_text key)
        → ("name" == name) ≡ false
        → ("publicKey" == name) ≡ false
        → handle (fetch_participant S O U l a) (prepared default_wait to_number C secret U req)
          ≡ json (single shown)
        → get_key name shown ≡ some v
        → (authed_key C secret U req.authorization ≡ some key)
          × ((u : User) × (U.users.get key a.users ≡ some u)
              × (get_key name (user_object (some (pluck_user u))) ≡ some v))
    unfolding handle
    fetch_participant-private key name v req l a shown path n1 n2 h at =
        elim (Option-cases (fetch S O U key (authed_key C secret U req.authorization) l a)) [
          | inl fails ↦ absurd (
              let e : error other ≡ json (single shown) =
                rw (fetch_participant-prepared key req l a path, fails) at h in
              cc)
          | inr (profile, found) ↦
              let filtered =
                respond-single _ (profile_object profile) shown
                  (rw (fetch_participant-prepared key req l a path, found) at h) in
              let (part, has, private) =
                get_key-profile_object name v profile n1 n2
                  (filter_params-get_key _ _ name v (profile_object profile) shown filtered at) in
              let (own, (u, stored, is)) =
                fetch_private S O U key (authed_key C secret U req.authorization) l a profile part
                  found has in
              (own, (u, stored, rw is at private))
        ]
