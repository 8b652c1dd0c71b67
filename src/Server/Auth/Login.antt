-- ===== src/Server/Auth/Login.antt =====
-- Creating an account, logging in to it, and what a request may do with the token.
use text.Mathlib.TextEquality.{eq_iff}
use dgc_database_tp.Prelude.{
  ℕ, String, Bool, true, false, ◌||◌, List, [], ◌∷◌, Option, none, some, ◌≡◌, ◌≢◌, inl, inr, refl,
  ◌∙◌, Every-imp, if◌then◌else◌, ◌==◌, text_test, Bool-cases, Every, arith,
}
use dgc_database_tp.Server.Users
use dgc_database_tp.Server.Users.{
  User, Changes, Schema, Stores, Accounts, Result, resolved, rejected, is_falsy, or_empty,
}
use dgc_database_tp.Server.Users.Inserting.{IsCreated, insert-IsCreated}
use dgc_database_tp.Server.Users.Renaming.{update-others}
use dgc_database_tp.Server.Auth.{
  Crypto, json, Session, create_token, create, check_password, authorize, Reply, error,
  unauthorized, or_null, authed_key, restrict, hashed, answer_update, update, patch_user,
}

module _ (C : Crypto) (secret : String) (S : Stores) where
  abbrev pub session_of : User → Session
  session_of u = record {
    authorization = create_token C secret S u.public_key;
    encrypted_key = u.encrypted_key;
  }

  -- The session of an account that was just created.
  abbrev pub new_session_of : User → Session
  new_session_of u = record {
    authorization = create_token C secret S u.public_key;
    encrypted_key = or_null u.encrypted_key;
  }

  check_password-eq-json :
      (password : String) (us : List User) (s : Session) (P : User → Type 0)
      → Every P us
      → check_password C secret S password us ≡ json s
      → (u : User) × P u × (C.compare password u.password ≡ true) × (s ≡ session_of u)
  check_password-eq-json password [] s P e h = cc
  check_password-eq-json password (u ∷ us) s P e h =
      elim (Bool-cases (C.compare password u.password)) [
        | inl ok ↦ (u, e.0, ok, ground arith)
        | inr bad ↦ absurd (ground arith)
      ]

  -- Whoever is given a session named a stored account and gave a password that its hash accepts,
  -- and the token of the session verifies to that account's public key.
  pub authorize_sound :
      (username password : Option String) (a : Accounts S) (s : Session)
      → authorize C secret S username password a ≡ json s
      → (u : User) × ((S.users.get u.public_key a.users ≡ some u)
          × ((u.username == or_empty username) ≡ true))
        × (C.compare (or_empty password) u.password ≡ true)
        × (C.verify secret s.authorization ≡ some u.public_key)
  unfolding authorize create_token
  authorize_sound username password a s h =
      elim (Bool-cases (is_falsy username || is_falsy password)) [
        | inl missing ↦ absurd (ground arith)
        | inr given ↦
            let p = λ (u : User). u.username == or_empty username in
            let (u, stored, ok, same) =
              check_password-eq-json (or_empty password) (S.users.query p a.users) s
                (λ u. (S.users.get u.public_key a.users ≡ some u) × (p u ≡ true))
                (S.users.query-stored p a.users) (ground arith) in
            (u, stored, ok, rw same (C.verify-sign secret u.public_key))
      ]

  -- The token of a session that a login gave, when it is not empty, makes the handlers of the
  -- Authorization header pass the request on under the public key of the stored account that was
  -- named; only an account with an empty key is refused.
  authorize-restrict :
      {R : Type 0} (username password : Option String) (a : Accounts S) (s : Session)
      (handler : String → Reply R)
      → authorize C secret S username password a ≡ json s
      → (s.authorization == "") ≡ false
      → (u : User) × (S.users.get u.public_key a.users ≡ some u)
        × ((u.username == or_empty username) ≡ true)
        × (restrict C secret S (authed_key C secret S (some s.authorization)) handler
            ≡ (if u.public_key == "" then error unauthorized else handler u.public_key))
  unfolding authed_key restrict
  authorize-restrict username password a s handler e given =
      let (u, stored, ok, token) = authorize_sound username password a s e in
      (u, stored.0, stored.1, rw (given, token) refl)

  -- No stored account has the name.
  abbrev pub IsUnnamed : String → Accounts S → Type 0
  IsUnnamed name a =
      (k : String) (w : User) → S.users.get k a.users ≡ some w → (w.username == name) ≡ false

  only_created :
      (u v : User) (a b : Accounts S)
      → IsCreated S u a b
      → IsUnnamed u.username a
      → S.users.get v.public_key b.users ≡ some v
      → (v.username == u.username) ≡ true
      → v ≡ u
  only_created u v a b h free stored named = elim (Bool-cases (u.public_key == v.public_key)) [
    | inl same ↦ ground (arith, h.users v.public_key)
    | inr other ↦
        let before : S.users.get v.public_key a.users ≡ some v =
          ground (arith, h.users v.public_key) in
        let clash : ⊥ = ground (arith, free v.public_key v before) in absurd clash
  ]

  check_password-only :
      (u : User) (password : String) (vs : List User)
      → vs ≢ []
      → Every (λ v. v ≡ u) vs
      → C.compare password u.password ≡ true
      → check_password C secret S password vs ≡ json (session_of u)
  check_password-only u password [] ne e ok = absurd (ne refl)
  check_password-only u password (v ∷ vs) ne e ok = rw (e.0) (rw ok)

  abbrev pub stored_as : ℕ → User → User
  stored_as salt u = record u { password = C.hash salt u.password }

  -- A participant who creates an account that the schema accepts, under a public key that is free
  -- and a name that is free and that no stored account has, with a name and a password that are
  -- not empty, is given a session; the same name and password then log in to that account, and the
  -- token verifies to its public key.
  pub create_then_authorize :
      (schema : Schema User) (is_participant : String → Bool) (salt : ℕ) (u : User) (a : Accounts S)
      → is_participant u.public_key ≡ true
      → schema.accepts (stored_as salt u) ≡ true
      → S.users.get u.public_key a.users ≡ none
      → S.usernames.get u.username a.usernames ≡ none
      → IsUnnamed u.username a
      → (u.username == "") ≡ false
      → (u.password == "") ≡ false
      → (b : Accounts S) × (create C secret S schema is_participant salt u a
          ≡ (b, json (new_session_of u)))
        × (authorize C secret S (some u.username) (some u.password) b ≡ json (session_of u))
        × (C.verify secret (session_of u).authorization ≡ some u.public_key)
  unfolding create authorize create_token
  create_then_authorize schema is_participant salt u a part ok free fresh unnamed n p =
      let v = stored_as salt u in
      let (b, done, created) = insert-IsCreated S schema v a ok free fresh in
      let q = λ (w : User). w.username == u.username in
      let at_row : (k : String)
          → S.users.get k b.users ≡ (if u.public_key == k then some v else S.users.get k a.users) =
        created.users in
      (
        b,
        rw (part, done),
        rw (n, p)
            (check_password-only v u.password (S.users.query q b.users)
              (S.users.query-found q b.users u.public_key {d = v}
                (at_row u.public_key ∙ rw ((eq_iff u.public_key u.public_key).1 refl))
                ((eq_iff u.username u.username).1 refl))
              (Every-imp (λ w. (S.users.get w.public_key b.users ≡ some w) × (q w ≡ true))
                (λ w. w ≡ v) (S.users.query q b.users)
                (λ w h. only_created v w a b created unnamed h.0 h.1)
                (S.users.query-stored q b.users))
              (C.compare-hash salt u.password)),
        C.verify-sign secret u.public_key,
      )

  users-answer_update : (r : Accounts S × Result User) → (answer_update C secret S r).0 ≡ r.0
  users-answer_update (a, resolved u) = refl
  users-answer_update (a, rejected e) = refl

  -- A request to change an account, whatever key its token was verified to and whatever key its
  -- path names, leaves the row of every key but the token's own as it was.
  pub patch_user-others :
      (schema : Schema Changes) (salt : ℕ) (key : Option String) (public_key : String) (c : Changes)
      (a : Accounts S) (k : String)
      → (or_empty key == k) ≡ false
      → S.users.get k (patch_user C secret S schema salt key public_key c a).0.users
        ≡ S.users.get k a.users
  unfolding patch_user update
  patch_user-others schema salt none public_key c a k h = refl
  patch_user-others schema salt (some key) public_key c a k h = elim (Bool-cases (key == "")) [
    | inl no_key ↦ rw no_key
    | inr given ↦ elim (Bool-cases (public_key == key)) [
      | inl own ↦
          rw
            (
              given,
              own,
              users-answer_update (Users.update S schema key (hashed C secret S salt c) a),
            )
            (update-others S schema key (hashed C secret S salt c) a k h)
      | inr foreign ↦ rw (given, foreign)
    ]
  ]
