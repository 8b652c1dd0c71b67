-- ===== src/Server/Reads/Participants/Private.antt =====
-- Who is shown the user's part of a profile.
use mathlib.Core.Option
use mathlib.Core.Path.{subst}
use mathlib.Core.List.{head?}
use dgc_database_tp.Prelude.{
  ℕ, String, Bool, true, false, List, [], ◌∷◌, Every, filter, Option, none, some, ◌≡◌, refl, sym,
  ap, ◌==◌, text_test, arith,
}
use dgc_database_tp.Rethink.Sorting.{Sorting}
use dgc_database_tp.Documents.{Participant}
use dgc_database_tp.LedgerSync.Ledger
use dgc_database_tp.LedgerSync.Ledger.{Ledger}
use dgc_database_tp.Server.Users
use dgc_database_tp.Server.Users.{User, Accounts}
use dgc_database_tp.Server.Reads.{get_table}
use dgc_database_tp.Server.Reads.Current.{query_asked}
use dgc_database_tp.Server.Reads.Participants.{
  UserPart, Profile, fetch_user, pluck_user, profile_of, is_own_key, with_user, fetch_query, fetch,
}

module _ (U : Users.Stores) where
  head_stored :
      (P : User → Type 0) (us : List User) (part : UserPart)
      → Every P us
      → Option.map pluck_user (head? us) ≡ some part
      → (u : User) × P u × (part ≡ pluck_user u)
  head_stored P [] part e h = cc
  head_stored P (u ∷ us) part e h = (u, e.0, cc)

  fetch_user_stored :
      (key : String) (a : Accounts U) (part : UserPart)
      → fetch_user U key a ≡ some part
      → (u : User) × (U.users.get key a.users ≡ some u) × (part ≡ pluck_user u)
  unfolding fetch_user
  fetch_user_stored key a part h =
      let (u, (stored, own), same) =
        head_stored
          (λ u. (U.users.get u.public_key a.users ≡ some u) × ((key == u.public_key) ≡ true))
          (U.users.query (λ u. key == u.public_key) a.users) part
          (U.users.query-stored (λ u. key == u.public_key) a.users) h in
      (
        u,
        subst (λ k. U.users.get k a.users ≡ some u)
            (sym ((text_test.decides key u.public_key).0 own)) stored,
        same,
      )

module _ (S : Ledger.Stores) (O : Sorting) (U : Users.Stores) where
  with_user_private :
      (key : String) (auth : Bool) (a : Accounts U) (p : Participant) (profile : Profile)
      (part : UserPart)
      → with_user S O U key auth a p ≡ some profile
      → profile.user ≡ some part
      → (auth ≡ true) × (fetch_user U key a ≡ some part)
  with_user_private key true a p profile part h shown = (refl, invert (fetch_user U key a) h shown)
    where
      invert :
          (o : Option UserPart)
          → Option.map (λ u. profile_of p (some u)) o ≡ some profile
          → profile.user ≡ some part
          → o ≡ some part
      invert none e k = cc
      invert (some u) e k = ground arith
  with_user_private key false a p profile part h shown = absurd (ground arith)

  fetch_query_private :
      (key : String) (auth : Bool) (l : Ledger S) (a : Accounts U) (b : ℕ) (profile : Profile)
      (part : UserPart)
      → fetch_query S O U key auth l a b ≡ some profile
      → profile.user ≡ some part
      → (auth ≡ true) × (fetch_user U key a ≡ some part)
  unfolding fetch_query
  fetch_query_private key auth l a b profile part h shown =
      invert (head? (filter (λ p. p.public_key == key) (get_table S.participants b l.participants)))
        h
    where
      invert :
          (o : Option Participant)
          → elim o as (λ _. Option Profile) [ none ↦ none | some p ↦ with_user S O U key auth a p ]
            ≡ some profile
          → (auth ≡ true) × (fetch_user U key a ≡ some part)
      invert none e = cc
      invert (some p) e = with_user_private key auth a p profile part e shown

  -- The user's part of a profile is shown only to a request whose verified key is the public key
  -- that is asked for, and it is the part of the stored account of that key.
  pub fetch_private :
      (key : String) (authed : Option String) (l : Ledger S) (a : Accounts U) (profile : Profile)
      (part : UserPart)
      → fetch S O U key authed l a ≡ some profile
      → profile.user ≡ some part
      → (authed ≡ some key)
        × ((u : User) × (U.users.get key a.users ≡ some u) × (part ≡ pluck_user u))
  unfolding fetch
  fetch_private key authed l a profile part h shown =
      let (b, now, asked) =
        query_asked S O (fetch_query S O U key (is_own_key key authed) l a) l h in
      let (own, found) =
        fetch_query_private key (is_own_key key authed) l a b profile part asked shown in
      (own_key authed own, fetch_user_stored U key a part found)
    where
      own_key : (k : Option String) → is_own_key key k ≡ true → k ≡ some key
      own_key none e = cc
      own_key (some k) e = ap some (sym ((text_test.decides key k).0 e))
