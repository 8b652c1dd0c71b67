-- ===== src/Server/Users/Inserting.antt =====
-- What `insert` of server/db/users.js does to the two tables.
use dgc_database_tp.Prelude.{
  String, true, none, some, ◌≡◌, inl, inr, refl, ◌∙◌, if◌then◌else◌, ◌==◌, text_test, Option-cases,
  arith,
}
use text.Mathlib.TextEquality.{eq_iff}
use dgc_database_tp.Server.Users.{
  User, Username, database_error, resolved, rejected, Schema, validate, Stores, Accounts,
  insert_user, insert_username, insert,
}

abbrev pub name_row : User → Username
name_row u = record { username = u.username }

module _ (S : Stores) where
  -- A new public key and a new name: both rows are written, and no others.
  pub record IsCreated (u : User) (a b : Accounts S) : Type 0 where
    pub users :
        (k : String)
        → S.users.get k b.users ≡ (if u.public_key == k then some u else S.users.get k a.users)
    pub names :
        (k : String)
        → S.usernames.get k b.usernames
          ≡ (if u.username == k then some (name_row u) else S.usernames.get k a.usernames)

module _ (S : Stores) (schema : Schema User) where
  accepted : (u : User) → schema.accepts u ≡ true → validate u schema ≡ resolved u
  unfolding validate
  accepted u ok = rw ok

  insert_accepted :
      (u : User) (a : Accounts S)
      → schema.accepts u ≡ true
      → insert S schema u a ≡ insert_username S schema u (insert_user S schema u a)
  unfolding insert
  insert_accepted u a ok = rw (accepted u ok, insert)

  -- An accepted user whose public key and name are both free is stored: the promise resolves, the
  -- user is found under the key, the name is reserved, and no other row changes.
  pub insert-IsCreated :
      (u : User) (a : Accounts S)
      → schema.accepts u ≡ true
      → S.users.get u.public_key a.users ≡ none
      → S.usernames.get u.username a.usernames ≡ none
      → (b : Accounts S) × (insert S schema u a ≡ (b, resolved tt)) × IsCreated S u a b
  unfolding insert_user insert_username
  insert-IsCreated u a ok free fresh =
      let (us, e) = S.users.insert-free u a.users free in
      let (ns, f) = S.usernames.insert-free (name_row u) a.usernames fresh in
      (
        record { users = us; usernames = ns },
        insert_accepted u a ok ∙ ground (arith, e, f),
        record {
          users = λ k. S.users.get-insert u a.users us k e;
          names = λ k. S.usernames.get-insert (name_row u) a.usernames ns k f;
        },
      )

  -- What a failed insert leaves under the key of the user.
  abbrev pub RemovedAt : String → Accounts S → Accounts S → Type 0
  RemovedAt key a b =
      (k : String) → S.users.get k b.users ≡ (if k == key then none else S.users.get k a.users)

  after_failure :
      (u : User) (a : Accounts S) (k : String)
      → S.users.get k (S.users.delete (λ j. j == u.public_key) (insert_user S schema u a).users)
        ≡ (if k == u.public_key then none else S.users.get k a.users)
  unfolding insert_user
  after_failure u a k = elim (Option-cases (S.users.get u.public_key a.users)) [
    | inl free ↦
        let (us, e) = S.users.insert-free u a.users free in
        ground (
          arith,
          e,
          S.users.get-delete (λ j. j == u.public_key) us k,
          S.users.get-insert u a.users us k e,
          eq_iff k u.public_key,
          eq_iff u.public_key k,
        )
    | inr (old, used) ↦ ground (
      arith,
      S.users.insert-used u a.users used,
      S.users.get-delete (λ j. j == u.public_key) a.users k,
    )
  ]

  names-insert_user :
      (u : User) (a : Accounts S) → (insert_user S schema u a).usernames ≡ a.usernames
  unfolding insert_user
  names-insert_user u a = ground arith

  -- An accepted user whose name is taken is refused and the names are as they were, but afterwards
  -- no user is stored under the given public key, not even an account that had it before; every
  -- other account stays.
  pub insert_taken_name :
      (u : User) (a : Accounts S) {row : Username}
      → schema.accepts u ≡ true
      → S.usernames.get u.username a.usernames ≡ some row
      → (b : Accounts S) × (insert S schema u a ≡ (b, rejected database_error))
        × (b.usernames ≡ a.usernames)
        × RemovedAt u.public_key a b
  unfolding insert_username
  insert_taken_name u a ok taken =
      let c = insert_user S schema u a in
      let f = S.usernames.insert-used (name_row u) a.usernames taken in
      (
        record c { users = S.users.delete (λ k. k == u.public_key) c.users },
        insert_accepted u a ok ∙ ground (arith, f, names-insert_user u a),
        names-insert_user u a,
        λ k. after_failure u a k,
      )

  -- For an accepted user whose public key is in use and whose name is free the promise resolves as
  -- if the user had been stored, but the users are as they were and only the name is reserved.
  insert_used_key :
      (u : User) (a : Accounts S) {old : User}
      → schema.accepts u ≡ true
      → S.users.get u.public_key a.users ≡ some old
      → S.usernames.get u.username a.usernames ≡ none
      → (b : Accounts S) × (insert S schema u a ≡ (b, resolved tt))
        × (b.users ≡ a.users)
        × (S.usernames.get u.username b.usernames ≡ some (name_row u))
  unfolding insert_user insert_username
  insert_used_key u a ok used fresh =
      let e = S.users.insert-used u a.users used in
      let (ns, f) = S.usernames.insert-free (name_row u) a.usernames fresh in
      (
        record a { usernames = ns },
        insert_accepted u a ok ∙ ground (arith, e, f),
        refl,
        S.usernames.get-insert (name_row u) a.usernames ns u.username f
            ∙ rw ((eq_iff u.username u.username).1 refl),
      )
