-- ===== src/Server/Registering/Joined.antt =====
-- When a participant who is created is given an account.
use dgc_database_tp.Prelude.{
  ℕ, String, true, false, List, ◌++◌, none, some, ◌≡◌, refl, ap, ◌==◌, text_test,
}
use dgc_database_tp.Rethink.Sorting.{Sorting}
use dgc_database_tp.Documents.{Participant, Block}
use dgc_database_tp.LedgerSync.Versions.Writing.{first_at}
use dgc_database_tp.LedgerSync.Ledger
use dgc_database_tp.LedgerSync.Ledger.{Ledger, IsSynced, participant_index}
use dgc_database_tp.LedgerSync.State.Synced.{Entry}
use dgc_database_tp.LedgerSync.Deltas.{handle}
use dgc_database_tp.Server.Users
use dgc_database_tp.Server.Users.{User, Accounts, Schema}
use dgc_database_tp.Server.Auth
use dgc_database_tp.Server.Auth.{Crypto, json, error, other, authorize}
use dgc_database_tp.Server.Auth.Login.{session_of, new_session_of, stored_as, IsUnnamed}
use dgc_database_tp.Server.Reads.Handled.{IsNext, participants_of}
use dgc_database_tp.Server.Reads.Participants.{is_participant}
use dgc_database_tp.Server.Reads.Participants.Registered.{handle_then_create}
use dgc_database_tp.Server.Registering.{Applicant, user_of, answered, create_user}

module _ (C : Crypto) (secret : String) (U : Users.Stores) where
  create_user-early :
      (schema : Schema User) (joined : String → _) (salt : ℕ) (data_ : Applicant) (a : Accounts U)
      → joined data_.public_key ≡ false
      → create_user C secret U schema joined salt data_ a ≡ (a, error other)
  unfolding create_user Auth.create user_of
  create_user-early schema joined salt data_ a unknown = rw unknown refl

  module _ (S : Ledger.Stores) (O : Sorting) where
    -- For a well formed database that has no participant with the public key of an applicant, and
    -- a next block, below 2^53 - 1, that brings one: the request for an account that
    -- createParticipant makes is refused without a change of the accounts when it is answered
    -- before the ledger sync has handled the block; when it is answered after that, and the schema
    -- accepts the account, its key and its name are free, no stored account has the name, and the
    -- name and the password are not empty, the account is created, and logs in with the password
    -- of the request.
    pub early_or_late :
        (pages others : List Entry) (block : Block) (n : ℕ) (l : Ledger S) (p : Participant)
        (schema : Schema User) (salt : ℕ) (data_ : Applicant) (a : Accounts U)
        → IsSynced S n l
        → IsNext S block n l
        → first_at S.participants participant_index data_.public_key
            (participants_of (others ++ pages))
          ≡ some p
        → is_participant S O U l a data_.public_key ≡ false
        → schema.accepts (stored_as C secret U salt (user_of data_)) ≡ true
        → U.users.get data_.public_key a.users ≡ none
        → U.usernames.get data_.username a.usernames ≡ none
        → IsUnnamed C secret U data_.username a
        → (data_.username == "") ≡ false
        → (data_.hashed_password == "") ≡ false
        → (create_user C secret U schema (is_participant S O U l a) salt data_ a ≡ (a, error other))
          × ((l' : Ledger S) × (handle S (pages, others) block l ≡ some l')
              × ((b : Accounts U) × (create_user C secret U schema
                      (is_participant S O U l' a)
                      salt
                      data_
                      a
                    ≡ (b, json (new_session_of C secret U (user_of data_))))
                  × (authorize C secret U (some data_.username) (some data_.hashed_password) b
                      ≡ json (session_of C secret U (user_of data_)))))
    unfolding create_user user_of
    early_or_late pages others block n l p schema salt data_ a synced next named unknown ok free
          fresh unnamed n1 n2 =
        let (l', done, (b, made, logged)) =
          handle_then_create S O U C secret pages others block n l p schema salt (user_of data_) a
            synced next named ok free fresh unnamed n1 n2 in
        (
          create_user-early schema (is_participant S O U l a) salt data_ a unknown,
          (l', done, (b, ap answered made, logged)),
        )
