-- ===== src/Server/Connections/Retrying.antt =====
-- When the connection to the database is made.
use dgc_database_tp.Prelude.{
  String, true, List, [], ◌∷◌, ◌++◌, Option, none, some, ◌≡◌, refl, ap, inl, inr, ◌↔◌, Every, Any,
  Bool-cases, text_test, arith,
}
use dgc_database_tp.Server.Connections.{
  Attempt, driver_error, other_error, opened, awaiting, connected, includes, await_database,
  connect, await_server_info,
}

-- The database has the table that the program waits for.
abbrev pub IsReady : Option (List String) → Type 0
IsReady none = ⊥
IsReady (some names) = includes "blocks" names ≡ true

await_database-Any :
    (answers : List (Option (List String))) → await_database answers ≡ true → Any IsReady answers
unfolding await_database
await_database-Any [] h = cc
await_database-Any (none ∷ answers) h = inr (await_database-Any answers h)
await_database-Any (some names ∷ answers) h = elim (Bool-cases (includes "blocks" names)) [
  | inl ready ↦ inl ready
  | inr not_yet ↦ inr (await_database-Any answers (rw not_yet at h))
]

Any-await_database :
    (answers : List (Option (List String))) → Any IsReady answers → await_database answers ≡ true
unfolding await_database
Any-await_database [] h = elim h [ ]
Any-await_database (none ∷ answers) (inl h) = elim h [ ]
Any-await_database (none ∷ answers) (inr h) = Any-await_database answers h
Any-await_database (some names ∷ answers) (inl h) = rw h refl
Any-await_database (some names ∷ answers) (inr h) =
    let later = Any-await_database answers h in ground arith

module _ {C : Type 0} where
  -- Driver errors, and then a connection.
  pub record IsOpened (c : C) (attempts : List (Attempt C)) : Type 0 where
    pub refused : List (Attempt C)
    pub rest : List (Attempt C)
    pub errors : Every (λ a. a ≡ driver_error) refused
    pub parts : attempts ≡ refused ++ opened c ∷ rest

  connect_opened :
      (c : C) (refused rest : List (Attempt C)) (answers : List (Option (List String)))
      → Every (λ a. a ≡ driver_error) refused
      → Any IsReady answers
      → connect (refused ++ opened c ∷ rest) answers ≡ connected c
  unfolding connect
  connect_opened c [] rest answers h ready = rw (Any-await_database answers ready) refl
  connect_opened c (a ∷ refused) rest answers h ready =
      rw h.0 (connect_opened c refused rest answers h.1 ready)

  IsOpened-connect :
      (c : C) (attempts : List (Attempt C)) (answers : List (Option (List String)))
      → connect attempts answers ≡ connected c
      → IsOpened c attempts × Any IsReady answers
  unfolding connect
  IsOpened-connect c [] answers h = cc
  IsOpened-connect c (driver_error ∷ attempts) answers h =
      let (first, ready) = IsOpened-connect c attempts answers h in
      (
        record {
          refused = driver_error ∷ first.refused;
          rest = first.rest;
          errors = (refl, first.errors);
          parts = ap (λ as_. driver_error ∷ as_) first.parts;
        },
        ready,
      )
  IsOpened-connect c (other_error message ∷ attempts) answers h = cc
  IsOpened-connect c (opened d ∷ attempts) answers h = elim (Bool-cases (await_database answers)) [
    | inl ready ↦
        let same : connected d ≡ connected c = rw ready at h in
        let p : d ≡ c = cc in
        (
          record {
            refused = [];
            rest = attempts;
            errors = tt;
            parts = ap (λ x. opened x ∷ attempts) p;
          },
          await_database-Any answers ready,
        )
    | inr not_yet ↦ absurd (let e : awaiting d ≡ connected c = rw not_yet at h in cc)
  ]

  -- The program is connected, with a given connection, exactly when the driver answered with any
  -- number of driver errors and then that connection, and the list of tables had the awaited table
  -- at some look, whatever failures came before it.
  pub connect-connected :
      (c : C) (attempts : List (Attempt C)) (answers : List (Option (List String)))
      → (connect attempts answers ≡ connected c) ↔ (IsOpened c attempts × Any IsReady answers)
  connect-connected c attempts answers = (
    IsOpened-connect c attempts answers,
    λ h. rw h.0.parts (connect_opened c h.0.refused h.0.rest answers h.0.errors h.1),
  )

module _ {A : Type 0} where
  -- Requests that failed, and then one with an answer.
  pub record IsServed (info : A) (answers : List (Option A)) : Type 0 where
    pub refused : List (Option A)
    pub rest : List (Option A)
    pub errors : Every (λ a. a ≡ none) refused
    pub parts : answers ≡ refused ++ some info ∷ rest

  IsServed-await_server_info :
      (info : A) (answers : List (Option A))
      → await_server_info answers ≡ some info
      → IsServed info answers
  unfolding await_server_info
  IsServed-await_server_info info [] h = cc
  IsServed-await_server_info info (none ∷ answers) h =
      let first = IsServed-await_server_info info answers h in
      record {
        refused = none ∷ first.refused;
        rest = first.rest;
        errors = (refl, first.errors);
        parts = ap (λ as_. none ∷ as_) first.parts;
      }
  IsServed-await_server_info info (some found ∷ answers) h = record {
    refused = [];
    rest = answers;
    errors = tt;
    parts = ap (λ (o : Option A). o ∷ answers) h;
  }

  await_server_info-served :
      (info : A) (refused rest : List (Option A))
      → Every (λ a. a ≡ none) refused
      → await_server_info (refused ++ some info ∷ rest) ≡ some info
  unfolding await_server_info
  await_server_info-served info [] rest h = refl
  await_server_info-served info (a ∷ refused) rest h =
      rw h.0 (await_server_info-served info refused rest h.1)

  -- The information of the server is there exactly when it answered after any number of requests
  -- that failed, and it is that of the first answer.
  await_server_info_iff :
      (info : A) (answers : List (Option A))
      → (await_server_info answers ≡ some info) ↔ IsServed info answers
  await_server_info_iff info answers = (
    IsServed-await_server_info info answers,
    λ h. rw h.parts (await_server_info-served info h.refused h.rest h.errors),
  )
