-- ===== src/Server/Reads/Participants/Registered.antt =====
-- From a participant on the blockchain to an account (server/api/users.js and server/api/auth.js).
use dgc_database_tp.Prelude.{
  ℕ, String, String-set, true, false, List, [], ◌∷◌, ◌++◌, none, some, ◌≡◌, refl, perm_singleton,
  ◌==◌, text_test,
}
use dgc_database_tp.Rethink.Sorting.{Sorting}
use dgc_database_tp.Documents.{Participant, Block}
use dgc_database_tp.LedgerSync.Versions.{Version, version_of}
use dgc_database_tp.LedgerSync.Versions.Reading.{read_at}
use dgc_database_tp.LedgerSync.Versions.Writing.{first_at}
use dgc_database_tp.LedgerSync.Ledger
use dgc_database_tp.LedgerSync.Ledger.{Ledger, IsSynced, participant_index}
use dgc_database_tp.LedgerSync.State.Synced.{Entry}
use dgc_database_tp.LedgerSync.Deltas.{handle}
use dgc_database_tp.Server.Users
use dgc_database_tp.Server.Users.{User, Accounts, Schema}
use dgc_database_tp.Server.Auth.{Crypto, json, create, authorize}
use dgc_database_tp.Server.Auth.Login.{
  session_of, new_session_of, stored_as, IsUnnamed, create_then_authorize,
}
use dgc_database_tp.Server.Reads.Current.{filter-get_table, query_at}
use dgc_database_tp.Server.Reads.Handled.{IsNext, participants_of, participant_part, handle-read_at}
use dgc_database_tp.Server.Reads.Participants.{profile_of, fetch_query, is_participant}

Participant-set : IsSet (Version Participant)
Participant-set = hlevel String-set

module _ (S : Ledger.Stores) (O : Sorting) (U : Users.Stores) where
  fetch_query-one :
      (key : String) (l : Ledger S) (a : Accounts U) (b : ℕ) (p : Participant)
      → read_at S.participants participant_index key b l.participants ≡ version_of p b ∷ []
      → fetch_query S O U key false l a b ≡ some (profile_of p none)
  unfolding fetch_query
  fetch_query-one key l a b p only =
      rw (fetch_query, filter-get_table S.participants participant_index key b l.participants, only)
        refl

  handle-is_participant :
      (key : String) (pages others : List Entry) (block : Block) (n : ℕ) (l : Ledger S)
      (p : Participant)
      → IsSynced S n l
      → IsNext S block n l
      → first_at S.participants participant_index key (participants_of (others ++ pages)) ≡ some p
      → (l' : Ledger S) × (handle S (pages, others) block l ≡ some l')
        × ((a : Accounts U) → is_participant S O U l' a key ≡ true)
  unfolding is_participant
  handle-is_participant key pages others block n l p synced next named =
      let (l', done, now, seen) =
        handle-read_at S O (participant_part S) key pages others block n l synced.participants
          next in
      let only : read_at S.participants participant_index key block.block_num l'.participants
          ≡ version_of p block.block_num ∷ [] =
        perm_singleton Participant-set (version_of p block.block_num) (rw named at seen) in
      (
        l',
        done,
        λ a.
            rw
              (
                query_at S O (fetch_query S O U key false l' a) l' now,
                fetch_query-one key l' a block.block_num p only,
              )
              refl,
      )

  module _ (C : Crypto) (secret : String) where
    -- From a well formed database, after the next block, below 2^53 - 1, has brought a
    -- participant, whoever creates an account that the schema accepts under that public key, with
    -- a free key, a free name that no stored account has, and with a name and a password that are
    -- not empty, is given a session, and logs in with them.
    pub handle_then_create :
        (pages others : List Entry) (block : Block) (n : ℕ) (l : Ledger S) (p : Participant)
        (schema : Schema User) (salt : ℕ) (u : User) (a : Accounts U)
        → IsSynced S n l
        → IsNext S block n l
        → first_at S.participants participant_index u.public_key (participants_of (others ++ pages))
          ≡ some p
        → schema.accepts (stored_as C secret U salt u) ≡ true
        → U.users.get u.public_key a.users ≡ none
        → U.usernames.get u.username a.usernames ≡ none
        → IsUnnamed C secret U u.username a
        → (u.username == "") ≡ false
        → (u.password == "") ≡ false
        → (l' : Ledger S) × (handle S (pages, others) block l ≡ some l')
          × ((b : Accounts U) × (create C secret U schema (is_participant S O U l' a) salt u a
                ≡ (b, json (new_session_of C secret U u)))
              × (authorize C secret U (some u.username) (some u.password) b
                  ≡ json (session_of C secret U u)))
    handle_then_create pages others block n l p schema salt u a synced next named ok free fresh
          unnamed n1 n2 =
        let (l', done, joined) =
          handle-is_participant u.public_key pages others block n l p synced next named in
        let (b, made, logged, token) =
          create_then_authorize C secret U schema (is_participant S O U l' a) salt u a (joined a) ok
            free fresh unnamed n1 n2 in
        (l', done, (b, made, logged))
