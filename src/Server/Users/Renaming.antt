-- ===== src/Server/Users/Renaming.antt =====
-- What `update` of server/db/users.js does to the two tables when the name is among the changes.
use dgc_database_tp.Prelude.{
  String, true, false, none, some, ◌≡◌, refl, ◌∙◌, ◌==◌, text_test, Bool-cases, Option-cases, inl,
  inr, arith,
}
use text.Mathlib.TextEquality.{eq_iff}
use dgc_database_tp.Server.Users.{
  User, Changes, Username, database_error, resolved, rejected, Schema, validate, Stores, Accounts,
  merge, changes_of, same_user, validate-cases, replaced, skipped, failed, unchanged, Update, moves,
  is_falsy, or_empty, report, update_table, settle, rename, update,
}

module _ (S : Stores) (schema : Schema Changes) where
  -- A request that gives an account another name, and that changes something.
  pub record IsRename (pk : String) (c : Changes) (a : Accounts S) (old : User) (name : String)
      : Type 0 where
    pub valid : schema.accepts c ≡ true
    pub stored : S.users.get pk a.users ≡ some old
    pub keeps_key : c.public_key ≡ none
    pub names : c.username ≡ some name
    pub not_empty : (name == "") ≡ false
    pub differs : (name == old.username) ≡ false
    pub changed : same_user (merge c old) old ≡ false

  report-rename :
      (pk : String) (c : Changes) (old : User)
      → c.public_key ≡ none
      → same_user (merge c old) old ≡ false
      → report pk c (some old) ≡ replaced old (merge c old)
  unfolding report
  report-rename pk c old keeps changed = simp (keeps, changed)

  update-rename :
      (pk : String) (c : Changes) (a : Accounts S) (old : User) (name : String)
      → IsRename pk c a old name
      → update S schema pk c a
        ≡ rename S schema c old
            (merge c old)
            name
            (record a { users = S.users.replace (merge c old) a.users })
  unfolding update validate update_table settle
  update-rename pk c a old name h =
      let r = report-rename pk c old h.keeps_key h.changed in
      ground (arith, h.valid, h.stored, r, h.names, h.not_empty)

  -- What a change of one account leaves under the other keys.
  others-rename :
      (c : Changes) (old new : User) (name : String) (a : Accounts S) (k : String)
      → (new.public_key == k) ≡ false
      → S.users.get k (rename S schema c old new name a).0.users ≡ S.users.get k a.users
  unfolding rename merge
  others-rename c old new name a k h =
      ground (arith, S.users.get-replace (merge (changes_of old) new) a.users k)

  abbrev KeepsKey : String → Update → Type 0
  KeepsKey pk (replaced old new) = new.public_key ≡ pk
  KeepsKey pk skipped = Unit
  KeepsKey pk failed = Unit
  KeepsKey pk (unchanged u) = Unit

  report-KeepsKey :
      (pk : String) (c : Changes) (u : User)
      → u.public_key ≡ pk
      → KeepsKey pk (report pk c (some u))
  unfolding report
  report-KeepsKey pk c u e = elim (Bool-cases (moves pk c.public_key)) [
    | inl moved ↦ rw moved tt
    | inr stays ↦ elim (Bool-cases (same_user (merge c u) u)) [
      | inl same ↦ rw (stays, same) tt
      | inr changed ↦ rw (stays, changed) (unfold merge in e)
    ]
  ]

  update_table-KeepsKey :
      (pk : String) (c : Changes) (a : Accounts S) → KeepsKey pk (update_table S schema pk c a)
  unfolding update_table
  update_table-KeepsKey pk c a = elim (Option-cases (S.users.get pk a.users)) [
    | inl missing ↦ rw missing (unfold report in tt)
    | inr (u, found) ↦ rw found (report-KeepsKey pk c u (S.users.get-key pk a.users found))
  ]

  settle-others :
      (pk : String) (c : Changes) (a : Accounts S) (v : Update) (k : String)
      → (pk == k) ≡ false
      → KeepsKey pk v
      → S.users.get k (settle S schema c a v).0.users ≡ S.users.get k a.users
  unfolding settle
  settle-others pk c a skipped k h e = refl
  settle-others pk c a failed k h e = refl
  settle-others pk c a (unchanged u) k h e = refl
  settle-others pk c a (replaced old new) k h e =
      let b : Accounts S = record a { users = S.users.replace new a.users } in
      let ne : (new.public_key == k) ≡ false = rw e h in
      let put = S.users.get-replace new a.users k in
      elim (Bool-cases (is_falsy c.username)) [
        | inl unnamed ↦ rw unnamed (put ∙ rw ne)
        | inr named ↦ rw named (others-rename c old new (or_empty c.username) b k ne ∙ put ∙ rw ne)
      ]

  -- Whatever the changes are, and whether or not the update succeeds, the row of no other account
  -- changes.
  pub update-others :
      (pk : String) (c : Changes) (a : Accounts S) (k : String)
      → (pk == k) ≡ false
      → S.users.get k (update S schema pk c a).0.users ≡ S.users.get k a.users
  unfolding update
  update-others pk c a k h = elim (validate-cases c schema) [
    | inl valid ↦
        rw (valid, update)
          (settle-others pk c a (update_table S schema pk c a) k h (update_table-KeepsKey pk c a))
    | inr (e, bad) ↦ rw (bad, update)
  ]

  get-replaced :
      (u : User) (pk : String) (us : S.users.State)
      → u.public_key ≡ pk
      → S.users.get pk (S.users.replace u us) ≡ some u
  get-replaced u pk us e = S.users.get-replace u us pk ∙ rw ((eq_iff u.public_key pk).1 e)

  -- The name that was deleted is free.
  get-deleted :
      (name : String) (ns : S.usernames.State)
      → S.usernames.get name (S.usernames.delete (λ k. k == name) ns) ≡ none
  get-deleted name ns =
      S.usernames.get-delete (λ k. k == name) ns name ∙ rw ((eq_iff name name).1 refl)

  merge-name :
      (c : Changes) (old : User) (name : String)
      → c.username ≡ some name
      → (merge c old).username ≡ name
  unfolding merge
  merge-name c old name e = rw e

  key-merge : (c : Changes) (old : User) → (merge c old).public_key ≡ old.public_key
  unfolding merge
  key-merge c old = refl

  name-reset : (old new : User) → (merge (changes_of old) new).username ≡ old.username
  unfolding merge
  name-reset old new = refl

  key-reset : (old new : User) → (merge (changes_of old) new).public_key ≡ new.public_key
  unfolding merge
  key-reset old new = refl

  -- A change of an account's name to one that is free: the promise resolves with the merged user,
  -- the user is stored with it, the new name is reserved and the old one is free again.
  pub update_free_name :
      (pk : String) (c : Changes) (a : Accounts S) (old : User) (name : String)
      → IsRename pk c a old name
      → S.usernames.get name a.usernames ≡ none
      → (b : Accounts S) × (update S schema pk c a ≡ (b, resolved (merge c old)))
        × ((merge c old).username ≡ name)
        × (S.users.get pk b.users ≡ some (merge c old))
        × (S.usernames.get name b.usernames ≡ some (record { username = name }))
        × (S.usernames.get old.username b.usernames ≡ none)
  unfolding rename merge
  update_free_name pk c a old name h free =
      let us = S.users.replace (merge c old) a.users in
      let ns = S.usernames.delete (λ k. k == old.username) a.usernames in
      let (ms, e) =
        S.usernames.insert-free (record { username = name }) ns
          (S.usernames.get-delete (λ k. k == old.username) a.usernames name
            ∙ rw (h.differs) free) in
      (
        record { users = us; usernames = ms },
        update-rename pk c a old name h ∙ ground (arith, e),
        merge-name c old name h.names,
        get-replaced (merge c old) pk a.users (S.users.get-key pk a.users h.stored),
        S.usernames.get-insert (record { username = name }) ns ms name e
            ∙ rw ((eq_iff name name).1 refl),
        S.usernames.get-insert (record { username = name }) ns ms old.username e
            ∙ rw (h.differs) (get-deleted old.username a.usernames),
      )

  -- A change of an account's name to one that is taken is rejected and the user keeps the old
  -- name, but the old name is not reserved any more.
  update_taken_name :
      (pk : String) (c : Changes) (a : Accounts S) (old : User) (name : String) {row : Username}
      → IsRename pk c a old name
      → S.usernames.get name a.usernames ≡ some row
      → (b : Accounts S) × (update S schema pk c a ≡ (b, rejected database_error))
        × ((user : User) × (S.users.get pk b.users ≡ some user) × (user.username ≡ old.username))
        × (S.usernames.get old.username b.usernames ≡ none)
  unfolding rename merge
  update_taken_name pk c a old name {row} h taken =
      let us = S.users.replace (merge c old) a.users in
      let ns = S.usernames.delete (λ k. k == old.username) a.usernames in
      let e =
        S.usernames.insert-used (record { username = name }) ns {old = row}
          (S.usernames.get-delete (λ k. k == old.username) a.usernames name
            ∙ rw (h.differs) taken) in
      (
        record {
          users = S.users.replace (merge (changes_of old) (merge c old)) us;
          usernames = ns;
        },
        update-rename pk c a old name h ∙ ground (arith, e),
        (
          merge (changes_of old) (merge c old),
          get-replaced (merge (changes_of old) (merge c old)) pk us
              (S.users.get-key pk a.users h.stored),
          name-reset old (merge c old),
        ),
        get-deleted old.username a.usernames,
      )
