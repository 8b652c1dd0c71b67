-- ===== src/Server/Samples.antt =====
-- Accounts, keys and stores for the tests.
use text.Mathlib.TextEquality.{eq_iff}
use mathlib.Core.Path.{subst}
use dgc_database_tp.Prelude.{
  String, List, count, ◌≤◌, Bool-cases, inl, inr, arith, ℕ, true, [], ◌∷◌, none, some, refl, ◌==◌,
  text_test, ℕ_test,
}
use dgc_database_tp.Rethink.Lists.{list_keyed_table}
use dgc_database_tp.Server.Users.{User, Changes, Schema, Stores, Accounts, user_key, username_key}
use dgc_database_tp.Server.Auth.{Crypto}
use dgc_database_tp.Server.Auth.Login.{IsUnnamed}
use dgc_database_tp.Server.Transactions.{Sdk, Moment, Header}

abbrev pub stores : Stores
stores = record { users = list_keyed_table user_key; usernames = list_keyed_table username_key }

-- every input is taken
abbrev pub any_user : Schema User
any_user = record { accepts = λ u. true; errors = λ u. none }

abbrev pub any_changes : Schema Changes
any_changes = record { accepts = λ u. true; errors = λ u. none }

abbrev pub ann : User
ann = record {
  public_key = "02a";
  username = "ann";
  password = "secret";
  email = "ann@example.com";
  encrypted_key = none;
}

abbrev pub bob : User
bob = record ann { public_key = "03b"; username = "bob" }

-- ann's and bob's accounts
abbrev pub two : Accounts stores
two = record {
  users = ann ∷ bob ∷ [];
  usernames = record { username = "ann" } ∷ record { username = "bob" } ∷ [];
}

abbrev pub nobody : Accounts stores
nobody = record { users = []; usernames = [] }

-- Hashes and tokens that hide nothing.
abbrev pub open_crypto : Crypto
open_crypto = record {
  hash = λ salt p. p;
  compare = λ p h. p == h;
  sign = λ s p. p;
  verify = λ s t. some t;
  compare-hash = λ salt p. (eq_iff p p).1 refl;
  verify-sign = λ s p. refl;
}

pub nobody-IsUnnamed : IsUnnamed open_crypto "k" stores "ann" nobody
nobody-IsUnnamed k w h = cc

-- Headers that are left as they are.
abbrev pub plain_sdk : Sdk Header ℕ
plain_sdk = record {
  public_key = λ k. k;
  sign = λ h k. k;
  sha512 = λ p. p;
  encode_payload = λ n a. "";
  encode_header = λ h. h;
  decode_header = λ h. h;
  decode-encode = λ h. refl;
}

abbrev pub noon : Moment
noon = record { seconds = 43200; nonce = "1" }

abbrev pub fish_table : List (String × String)
fish_table = ("weight", "NUMBER") ∷ ("species", "STRING") ∷ []

abbrev pub fish : List (String × ℕ)
fish = ("species", 1) ∷ ("color", 2) ∷ ("weight", 3) ∷ []

pub fish_table-once : (name : String) → count (λ p. p.0 == name) fish_table ≤ 1
fish_table-once name = elim (Bool-cases ("weight" == name)) [
  | inl same ↦
      subst (λ n. count (λ p. p.0 == n) fish_table ≤ 1) ((text_test.decides "weight" name).0 same)
        (omega arith)
  | inr other ↦ ground arith
]
