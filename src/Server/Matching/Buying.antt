-- ===== src/Server/Matching/Buying.antt =====
-- buyDGCoinProposal of server/transaction/proposals.js. The receiving participants that it sets are in
-- none of the actions.
use dgc_database_tp.Prelude.{ℕ, String, ◌&&◌, List, [], ◌∷◌, Option, none, some, if◌then◌else◌}
use dgc_database_tp.Server.Transactions.Payloads.{
  Action, Exchange, buy_dg_coin, buy_close_auto_answer, buy_open_auto_answer,
  sell_close_auto_answer, sell_open_auto_answer,
}
use dgc_database_tp.Server.Matching.{
  Numbers, Offer, Own, other_closed, own_closed, both_closed, Match, rate_of, balance_of, read_data,
  empty_param, found, answer_param, match_of, set_amount,
}

module _ {D : Type 0} (N : Numbers D) where
  -- buyDGCoinProposal, for one open sellDGC proposal
  abbrev pub buy_exchange : ℕ → Own D → Offer D → D → D → Exchange D
  buy_exchange now buy sell amount rate = record {
    timestamp = now;
    buy_proposal_id = buy.param.proposal_id;
    sell_proposal_id = sell.proposal_id;
    currency_iso_codes = sell.currency_iso_codes;
    last_dgc_price = amount;
    last_currency_price = N.mul amount rate;
  }

  unfoldable pub buy_match : ℕ → Own D → Offer D → Option (Action D × Match D)
  buy_match now buy sell =
      let rate = N.half_sum (rate_of N sell) buy.exchange_rate in
      let balance = balance_of N sell in
      if N.ge buy.exchange_rate (rate_of N sell) && N.gt buy.balance N.nought
      then (if N.gt buy.balance balance
          then some (
            sell_close_auto_answer
                (answer_param N sell balance (some (buy_exchange now buy sell balance rate ∷ []))),
            match_of N other_closed buy sell,
          )
          else (if N.gt balance buy.balance
              then some (
                sell_open_auto_answer (answer_param N sell buy.balance none),
                match_of N own_closed buy sell,
              )
              else some (
                sell_close_auto_answer (
                    answer_param N sell buy.balance
                      (some (buy_exchange now buy sell buy.balance rate ∷ []))),
                match_of N both_closed buy sell,
              )))
      else none

  -- What the continuation of a match does to `buy_proposal`.
  unfoldable pub settle_buy : ℕ → Match D → Own D → Own D
  settle_buy now m buy = elim m.branch [
    | other_closed ↦ record buy {
      param = set_amount N buy m.offer_balance;
      balance = N.sub buy.balance m.offer_balance;
    }
    | own_closed ↦ record buy {
      param = record (set_amount N buy buy.balance) {
        exchanges = some (buy_exchange now buy m.offer buy.balance m.mean_rate ∷ []);
      };
      balance = N.nought;
    }
    | both_closed ↦ record buy { param = set_amount N buy buy.balance; balance = N.nought }
  ]

  -- The answer to its own proposal that a continuation sends.
  unfoldable pub buy_reply : Match D → Own D → Action D
  buy_reply m buy = elim m.branch [
    | other_closed ↦ buy_open_auto_answer buy.param
    | own_closed ↦ buy_close_auto_answer buy.param
    | both_closed ↦ buy_close_auto_answer buy.param
  ]

  -- The matches of all the open proposals, each against the balance of the start.
  unfoldable pub buy_matches : ℕ → Own D → List (Offer D) → List (Action D × Match D)
  buy_matches now buy [] = []
  buy_matches now buy (sell ∷ sells) =
      let rest = buy_matches now buy sells in
      elim (buy_match now buy sell) [ some a ↦ a ∷ rest | none ↦ rest ]

  -- buyDGCoinProposal: the proposal that it creates, and the answers for the other side
  unfoldable pub buy_dg_coin_proposal :
      ℕ
      → String
      → List (String × D)
      → List (Offer D)
      → List (Offer D)
      → Action D × List (Action D × Match D)
  buy_dg_coin_proposal now proposal_id data_ stored sells =
      let param = read_data N (empty_param N proposal_id) data_ in
      (
        buy_dg_coin param,
        elim (found N param stored) [ some own ↦ buy_matches now own sells | none ↦ [] ],
      )
