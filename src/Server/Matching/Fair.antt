-- ===== src/Server/Matching/Fair.antt =====
-- What one match of server/transaction/proposals.js exchanges, seen in the two answers that it sends.
use dgc_database_tp.Prelude.{
  ℕ, Bool, true, false, ◌&&◌, ◌||◌, List, [], ◌∷◌, ◌++◌, map, Option, none, some, if◌then◌else◌,
  ◌≡◌, refl, Bool-cases, inl, inr, Every,
}
use dgc_database_tp.Server.Transactions.Payloads.{
  Action, Exchange, Response, answer_proposal, auto_close,
}
use dgc_database_tp.Server.Matching.{Numbers, Offer, Own, Match, rate_of, balance_of}
use dgc_database_tp.Server.Matching.Selling.{
  sell_exchange, sell_match, settle_sell, sell_reply, sell_matches,
}
use dgc_database_tp.Server.Matching.Buying.{buy_exchange, buy_match, settle_buy, buy_reply}

abbrev is_close : Response → Bool
is_close auto_close = true
is_close _ = false

module _ {D : Type 0} where
  abbrev pub amount_of : Action D → Option D
  amount_of (answer_proposal a) = a.dg_coin_amount
  amount_of _ = none

  abbrev pub closes : Action D → Bool
  closes (answer_proposal a) = is_close a.response
  closes _ = false

  abbrev listed : Option (List (Exchange D)) → List (Exchange D)
  listed none = []
  listed (some es) = es

  abbrev pub exchanges_of : Action D → List (Exchange D)
  exchanges_of (answer_proposal a) = listed a.exchanges
  exchanges_of _ = []

  -- Both answers give the same amount, at least one of the two proposals is closed, and the exchange stands in
  -- exactly one of the answers.
  abbrev pub IsFair : D → Exchange D → Action D → Action D → Type 0
  IsFair amount exchange a b =
      (amount_of a ≡ some amount)
      × (amount_of b ≡ some amount)
      × ((closes a || closes b) ≡ true)
      × (exchanges_of a ++ exchanges_of b ≡ exchange ∷ [])

module _ {D : Type 0} (N : Numbers D) where
  abbrev pub lesser : D → D → D
  lesser x y = if N.gt x y then y else x

  -- What is left of a balance against another one.
  abbrev pub rest_of : D → D → D
  rest_of x y = if N.gt x y then N.sub x y else N.nought

  abbrev pub IsFairSale : ℕ → Own D → Offer D → Option (Action D × Match D) → Type 0
  IsFairSale now sell buy none =
      (N.ge (rate_of N buy) sell.exchange_rate && N.gt sell.balance N.nought) ≡ false
  IsFairSale now sell buy (some (a, m)) =
      let amount = lesser sell.balance (balance_of N buy) in
      let rate = N.half_sum (rate_of N buy) sell.exchange_rate in
      let after = settle_sell N now m sell in
      ((N.ge (rate_of N buy) sell.exchange_rate && N.gt sell.balance N.nought) ≡ true)
      × IsFair amount (sell_exchange N now sell buy amount rate) a (sell_reply N m after)
      × (after.balance ≡ rest_of sell.balance (balance_of N buy))

  abbrev pub IsFairPurchase : ℕ → Own D → Offer D → Option (Action D × Match D) → Type 0
  IsFairPurchase now buy sell none =
      (N.ge buy.exchange_rate (rate_of N sell) && N.gt buy.balance N.nought) ≡ false
  IsFairPurchase now buy sell (some (a, m)) =
      let amount = lesser buy.balance (balance_of N sell) in
      let rate = N.half_sum (rate_of N sell) buy.exchange_rate in
      let after = settle_buy N now m buy in
      ((N.ge buy.exchange_rate (rate_of N sell) && N.gt buy.balance N.nought) ≡ true)
      × IsFair amount (buy_exchange N now buy sell amount rate) a (buy_reply N m after)
      × (after.balance ≡ rest_of buy.balance (balance_of N sell))

  -- Where a sale that has recorded no exchange meets an open purchase, there is a match exactly
  -- when the rate of the purchase is at least that of the sale and the sale has a positive
  -- balance; then both answers give the lesser of the two balances, at least one of them closes
  -- its proposal, the exchange at the mean rate is recorded in exactly one, and the sale keeps the
  -- difference or nothing.
  pub sell_match-IsFairSale :
      (now : ℕ) (sell : Own D) (buy : Offer D)
      → sell.param.exchanges ≡ none
      → IsFairSale now sell buy (sell_match N now sell buy)
  unfolding sell_match settle_sell sell_reply
  sell_match-IsFairSale now sell buy e =
      elim (Bool-cases (N.ge (rate_of N buy) sell.exchange_rate && N.gt sell.balance N.nought)) [
        | inr refused ↦ rw refused refused
        | inl ok ↦ elim (Bool-cases (N.gt sell.balance (balance_of N buy))) [
          | inl more ↦
              rw (ok, more) (ok, (rw more refl, rw more refl, refl, rw more refl), rw more refl)
          | inr no_more ↦ elim (Bool-cases (N.gt (balance_of N buy) sell.balance)) [
            | inl less ↦
                rw (ok, no_more, less)
                  (ok, (rw no_more refl, rw no_more refl, refl, rw no_more refl), rw no_more refl)
            | inr same ↦
                rw (ok, no_more, same)
                  (
                    ok,
                    (rw no_more refl, rw no_more refl, refl, rw (no_more, e) refl),
                    rw no_more refl,
                  )
          ]
        ]
      ]

  -- Where a purchase that has recorded no exchange meets an open sale, there is a match exactly
  -- when the rate of the sale is at most that of the purchase and the purchase has a positive
  -- balance; then both answers give the lesser of the two balances, at least one of them closes
  -- its proposal, the exchange at the mean rate is recorded in exactly one, and the purchase keeps
  -- the difference or nothing.
  buy_match-IsFairPurchase :
      (now : ℕ) (buy : Own D) (sell : Offer D)
      → buy.param.exchanges ≡ none
      → IsFairPurchase now buy sell (buy_match N now buy sell)
  unfolding buy_match settle_buy buy_reply
  buy_match-IsFairPurchase now buy sell e =
      elim (Bool-cases (N.ge buy.exchange_rate (rate_of N sell) && N.gt buy.balance N.nought)) [
        | inr refused ↦ rw refused refused
        | inl ok ↦ elim (Bool-cases (N.gt buy.balance (balance_of N sell))) [
          | inl more ↦
              rw (ok, more) (ok, (rw more refl, rw more refl, refl, rw more refl), rw more refl)
          | inr no_more ↦ elim (Bool-cases (N.gt (balance_of N sell) buy.balance)) [
            | inl less ↦
                rw (ok, no_more, less)
                  (ok, (rw no_more refl, rw no_more refl, refl, rw no_more refl), rw no_more refl)
            | inr same ↦
                rw (ok, no_more, same)
                  (
                    ok,
                    (rw no_more refl, rw no_more refl, refl, rw (no_more, e) refl),
                    rw no_more refl,
                  )
          ]
        ]
      ]

  sell_match-not_more :
      (now : ℕ) (sell : Own D) (buy : Offer D)
      → (N.ge (rate_of N buy) sell.exchange_rate && N.gt sell.balance N.nought) ≡ true
      → N.gt sell.balance (balance_of N buy) ≡ false
      → (a : Action D × Match D) × ((sell_match N now sell buy ≡ some a)
          × (amount_of a.0 ≡ some sell.balance))
  unfolding sell_match
  sell_match-not_more now sell buy ok no_more =
      elim (Bool-cases (N.gt (balance_of N buy) sell.balance)) [
        | inl less ↦ rw (ok, no_more, less) (_, (refl, refl))
        | inr same ↦ rw (ok, no_more, same) (_, (refl, refl))
      ]

  -- A purchase that a sale would match with the whole of its balance.
  abbrev pub TakesAll : Own D → Offer D → Type 0
  TakesAll sell buy =
      ((N.ge (rate_of N buy) sell.exchange_rate && N.gt sell.balance N.nought) ≡ true)
      × (N.gt sell.balance (balance_of N buy) ≡ false)

  -- When each of several open purchases is acceptable and has a balance that the balance of the
  -- sale does not exceed, every one of them is answered with the whole balance of the sale.
  pub sell_matches-oversold :
      (now : ℕ) (sell : Own D) (buys : List (Offer D))
      → Every (TakesAll sell) buys
      → map (λ a. amount_of a.0) (sell_matches N now sell buys)
        ≡ map (λ buy. some sell.balance) buys
  unfolding sell_matches
  sell_matches-oversold now sell [] h = refl
  sell_matches-oversold now sell (buy ∷ buys) h =
      let (a, (e, amount)) = sell_match-not_more now sell buy h.0.0 h.0.1 in
      rw (sell_matches, e, amount, sell_matches-oversold now sell buys h.1) refl
