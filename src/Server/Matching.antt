-- ===== src/Server/Matching.antt =====
-- The exchange of server/transaction/proposals.js: sellDGCoinProposal and buyDGCoinProposal, which
-- create a proposal and answer it against the open proposals of the other side. The open proposals
-- that the database returns are arguments, and so is the arithmetic of JavaScript's numbers. Bluebird
-- runs the callbacks of `.map` one after the other before any of their continuations, so every
-- callback sees the balance of the start; a continuation changes the shared object (`settle_*`), and
-- the answer that it sends reads that object later (`*_reply`). The retrieval of the own proposal is
-- not awaited by the code; it is taken to be finished before that of the others.
pub mod Selling
pub mod Buying
pub mod Fair
pub mod Mirror
use dgc_database_tp.Prelude.{
  ℕ, String, Bool, true, false, ◌&&◌, List, [], ◌∷◌, Option, none, some, if◌then◌else◌, ◌==◌,
  EqTest, text_test,
}
use dgc_database_tp.Server.Transactions.Payloads.{Action, Param, Exchange}

-- The numbers: `half_sum a b` is (a + b) / 2, `ge` and `gt` are >= and >.
pub record Numbers (D : Type 0) : Type 0 where
  pub nought : D
  pub sub : D → D → D
  pub mul : D → D → D
  pub quotient : D → D → D
  pub half_sum : D → D → D
  pub ge : D → D → Bool
  pub gt : D → D → Bool

-- A proposal as the database returns it.
pub record Offer (D : Type 0) : Type 0 where
  pub proposal_id : String
  pub currency_iso_codes : String
  pub dg_coin_amount : D
  pub dg_coin_exchanged : D
  pub currency_quote_amount : D

-- The shared object: `exchangeRate` and `balance` are set once the proposal was found.
pub record Own (D : Type 0) : Type 0 where
  pub param : Param D
  pub exchange_rate : D
  pub balance : D

-- What a continuation knows: the branch that it is in and its own proposal of the other side.
pub data Branch : Type 0 where
  other_closed own_closed both_closed : Branch

pub record Match (D : Type 0) : Type 0 where
  pub branch : Branch
  pub offer : Offer D
  pub offer_balance : D
  pub mean_rate : D

module _ {D : Type 0} (N : Numbers D) where
  abbrev pub rate_of : Offer D → D
  rate_of o = N.quotient o.currency_quote_amount o.dg_coin_amount

  abbrev pub balance_of : Offer D → D
  balance_of o = N.sub o.dg_coin_amount o.dg_coin_exchanged

  -- `DGC` is the amount, any other key is a currency; the last one stays.
  abbrev pub read_key : Param D → String × D → Param D
  read_key param (key, x) =
      if key == "DGC"
      then record param { dg_coin_amount = some x }
      else record param { currency_iso_codes = some key; currency_quote_amount = some x }

  unfoldable pub read_data : Param D → List (String × D) → Param D
  read_data param [] = param
  read_data param (kx ∷ data_) = read_data (read_key param kx) data_

  abbrev pub empty_param : String → Param D
  empty_param proposal_id = record {
    proposal_id = proposal_id;
    receiving_participant = none;
    record_id = none;
    reportable_properties = none;
    dg_coin_amount = none;
    currency_iso_codes = none;
    currency_quote_amount = none;
    exchanges = none;
  }

  -- The object once the proposal itself was retrieved; while it is not found there is no rate.
  unfoldable pub found : Param D → List (Offer D) → Option (Own D)
  found param [] = none
  found param (o ∷ os) =
      let later = found param os in
      elim later [
        | some own ↦ some own
        | none ↦ some (record { param = param; exchange_rate = rate_of o; balance = balance_of o })
      ]

  -- The parameters of an answer for a proposal of the other side.
  abbrev pub answer_param : Offer D → D → Option (List (Exchange D)) → Param D
  answer_param o amount exchanges = record (empty_param o.proposal_id) {
    dg_coin_amount = some amount;
    exchanges = exchanges;
  }

  abbrev pub match_of : Branch → Own D → Offer D → Match D
  match_of branch own o = record {
    branch = branch;
    offer = o;
    offer_balance = balance_of o;
    mean_rate = N.half_sum (rate_of o) own.exchange_rate;
  }

  abbrev pub set_amount : Own D → D → Param D
  set_amount own amount = record own.param { dg_coin_amount = some amount }
