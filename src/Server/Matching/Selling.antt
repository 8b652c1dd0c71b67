-- ===== src/Server/Matching/Selling.antt =====
-- sellDGCoinProposal of server/transaction/proposals.js.
use dgc_database_tp.Prelude.{ℕ, String, ◌&&◌, List, [], ◌∷◌, Option, none, some, if◌then◌else◌}
use dgc_database_tp.Server.Transactions.Payloads.{
  Action, Exchange, sell_dg_coin, sell_close_auto_answer, sell_open_auto_answer,
  buy_close_auto_answer, buy_open_auto_answer,
}
use dgc_database_tp.Server.Matching.{
  Numbers, Offer, Own, other_closed, own_closed, both_closed, Match, rate_of, balance_of, read_data,
  empty_param, found, answer_param, match_of, set_amount,
}

module _ {D : Type 0} (N : Numbers D) where
  -- sellDGCoinProposal, for one open buyDGC proposal
  abbrev pub sell_exchange : ℕ → Own D → Offer D → D → D → Exchange D
  sell_exchange now sell buy amount rate = record {
    timestamp = now;
    buy_proposal_id = buy.proposal_id;
    sell_proposal_id = sell.param.proposal_id;
    currency_iso_codes = buy.currency_iso_codes;
    last_dgc_price = amount;
    last_currency_price = N.mul amount rate;
  }

  unfoldable pub sell_match : ℕ → Own D → Offer D → Option (Action D × Match D)
  sell_match now sell buy =
      let rate = N.half_sum (rate_of N buy) sell.exchange_rate in
      let balance = balance_of N buy in
      if N.ge (rate_of N buy) sell.exchange_rate && N.gt sell.balance N.nought
      then (if N.gt sell.balance balance
          then some (
            buy_close_auto_answer
                (answer_param N buy balance (some (sell_exchange now sell buy balance rate ∷ []))),
            match_of N other_closed sell buy,
          )
          else (if N.gt balance sell.balance
              then some (
                buy_open_auto_answer (answer_param N buy sell.balance none),
                match_of N own_closed sell buy,
              )
              else some (
                buy_close_auto_answer (
                    answer_param N buy sell.balance
                      (some (sell_exchange now sell buy sell.balance rate ∷ []))),
                match_of N both_closed sell buy,
              )))
      else none

  -- What the continuation of a match does to `sell_proposal`.
  unfoldable pub settle_sell : ℕ → Match D → Own D → Own D
  settle_sell now m sell = elim m.branch [
    | other_closed ↦ record sell {
      param = set_amount N sell m.offer_balance;
      balance = N.sub sell.balance m.offer_balance;
    }
    | own_closed ↦ record sell {
      param = record (set_amount N sell sell.balance) {
        exchanges = some (sell_exchange now sell m.offer sell.balance m.mean_rate ∷ []);
      };
      balance = N.nought;
    }
    | both_closed ↦ record sell { param = set_amount N sell sell.balance; balance = N.nought }
  ]

  -- The answer to its own proposal that a continuation sends.
  unfoldable pub sell_reply : Match D → Own D → Action D
  sell_reply m sell = elim m.branch [
    | other_closed ↦ sell_open_auto_answer sell.param
    | own_closed ↦ sell_close_auto_answer sell.param
    | both_closed ↦ sell_close_auto_answer sell.param
  ]

  -- The matches of all the open proposals, each against the balance of the start.
  unfoldable pub sell_matches : ℕ → Own D → List (Offer D) → List (Action D × Match D)
  sell_matches now sell [] = []
  sell_matches now sell (buy ∷ buys) =
      let rest = sell_matches now sell buys in
      elim (sell_match now sell buy) [ some a ↦ a ∷ rest | none ↦ rest ]

  -- sellDGCoinProposal: the proposal that it creates, and the answers for the other side
  unfoldable pub sell_dg_coin_proposal :
      ℕ
      → String
      → List (String × D)
      → List (Offer D)
      → List (Offer D)
      → Action D × List (Action D × Match D)
  sell_dg_coin_proposal now proposal_id data_ stored buys =
      let param = read_data N (empty_param N proposal_id) data_ in
      (
        sell_dg_coin param,
        elim (found N param stored) [ some own ↦ sell_matches now own buys | none ↦ [] ],
      )
