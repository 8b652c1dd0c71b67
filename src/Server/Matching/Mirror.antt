-- ===== src/Server/Matching/Mirror.antt =====
-- The two routines of server/transaction/proposals.js that match proposals, against each other.
use dgc_database_tp.Prelude.{
  ℕ, ◌&&◌, List, [], ◌∷◌, map, Option, none, some, ◌≡◌, refl, sym, ap, Bool-cases, inl, inr,
}
use dgc_database_tp.Documents.{Role, buy_dgc, sell_dgc}
use dgc_database_tp.Server.Transactions.Payloads.{Action, Exchange, answer_proposal}
use dgc_database_tp.Server.Matching.{
  Numbers, Offer, Own, Branch, Match, rate_of, balance_of, other_closed, own_closed, both_closed,
}
use dgc_database_tp.Server.Matching.Selling.{sell_match, settle_sell, sell_reply, sell_matches}
use dgc_database_tp.Server.Matching.Buying.{buy_match, settle_buy, buy_reply, buy_matches}

abbrev pub mirror_role : Role → Role
mirror_role buy_dgc = sell_dgc
mirror_role sell_dgc = buy_dgc
mirror_role role = role

module _ {D : Type 0} where
  abbrev pub mirror_exchange : Exchange D → Exchange D
  mirror_exchange e = record e {
    buy_proposal_id = e.sell_proposal_id;
    sell_proposal_id = e.buy_proposal_id;
  }

  abbrev pub mirror_listed : Option (List (Exchange D)) → Option (List (Exchange D))
  mirror_listed none = none
  mirror_listed (some es) = some (map mirror_exchange es)

  abbrev pub mirror : Action D → Action D
  mirror (answer_proposal a) =
      answer_proposal
        (record a { role = mirror_role a.role; exchanges = mirror_listed a.exchanges })
  mirror a = a

  abbrev pub mirror_own : Own D → Own D
  mirror_own own = record own {
    param = record own.param { exchanges = mirror_listed own.param.exchanges };
  }

  abbrev pub mirror_match : Action D × Match D → Action D × Match D
  mirror_match (a, m) = (mirror a, m)

  abbrev pub mirrored : Option (Action D × Match D) → Option (Action D × Match D)
  mirrored none = none
  mirrored (some a) = some (mirror_match a)

  mirror_some :
      (a : Option (Action D × Match D)) (rest : List (Action D × Match D))
      {rest' : List (Action D × Match D)}
      → map mirror_match rest ≡ rest'
      → map mirror_match (elim a [ some x ↦ x ∷ rest | none ↦ rest ])
        ≡ elim (mirrored a) [ some x ↦ x ∷ rest' | none ↦ rest' ]
  mirror_some none rest e = e
  mirror_some (some a) rest e = ap (λ xs. mirror_match a ∷ xs) e

  -- The numbers with the order of prices turned round.
  abbrev pub reversed : Numbers D → Numbers D
  reversed N = record N { ge = λ x y. N.ge y x }

module _ {D : Type 0} (N : Numbers D) where
  -- A purchase matches an open sale as a sale matches an open purchase, with the sides and the
  -- comparison of the rates exchanged.
  mirror-buy_match :
      (now : ℕ) (own : Own D) (o : Offer D)
      → mirrored (buy_match N now own o) ≡ sell_match (reversed N) now own o
  unfolding buy_match sell_match
  mirror-buy_match now own o =
      elim (Bool-cases (N.ge own.exchange_rate (rate_of N o) && N.gt own.balance N.nought)) [
        | inr refused ↦ rw refused refl
        | inl ok ↦ elim (Bool-cases (N.gt own.balance (balance_of N o))) [
          | inl more ↦ rw (ok, more) refl
          | inr no_more ↦ elim (Bool-cases (N.gt (balance_of N o) own.balance)) [
            | inl less ↦ rw (ok, no_more, less) refl
            | inr same ↦ rw (ok, no_more, same) refl
          ]
        ]
      ]

  mirror-buy_list :
      (now : ℕ) (own : Own D) (os : List (Offer D))
      → map mirror_match (buy_matches N now own os) ≡ sell_matches (reversed N) now own os
  unfolding buy_matches sell_matches
  mirror-buy_list now own [] = refl
  mirror-buy_list now own (o ∷ os) =
      rw (buy_matches, sell_matches, sym (mirror-buy_match now own o))
        (mirror_some (buy_match N now own o) (buy_matches N now own os)
          (mirror-buy_list now own os))

  mirror-settle_buy :
      (now : ℕ) (own : Own D) (m : Match D) (b : Branch)
      → mirror_own (settle_buy N now (record m { branch = b }) own)
        ≡ settle_sell (reversed N) now (record m { branch = b }) (mirror_own own)
  unfolding settle_buy settle_sell
  mirror-settle_buy now own m other_closed = refl
  mirror-settle_buy now own m own_closed = refl
  mirror-settle_buy now own m both_closed = refl

  mirror-buy_reply :
      (own : Own D) (m : Match D) (b : Branch)
      → mirror (buy_reply N (record m { branch = b }) own)
        ≡ sell_reply (reversed N) (record m { branch = b }) (mirror_own own)
  unfolding buy_reply sell_reply
  mirror-buy_reply own m other_closed = refl
  mirror-buy_reply own m own_closed = refl
  mirror-buy_reply own m both_closed = refl

  -- The purchase routine is the sale routine with the sides and the comparison of the rates
  -- exchanged: their matches of any list, what their continuations do to the shared proposal and
  -- the answers that these send agree.
  pub mirror-buy_matches :
      (now : ℕ) (own : Own D) (m : Match D) (os : List (Offer D))
      → (map mirror_match (buy_matches N now own os) ≡ sell_matches (reversed N) now own os)
        × (mirror_own (settle_buy N now m own) ≡ settle_sell (reversed N) now m (mirror_own own))
        × (mirror (buy_reply N m own) ≡ sell_reply (reversed N) m (mirror_own own))
  mirror-buy_matches now own m os = (
    mirror-buy_list now own os,
    mirror-settle_buy now own m m.branch,
    mirror-buy_reply own m m.branch,
  )
