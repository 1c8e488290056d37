-- ===== src/Order/Decision.antt =====
-- What a decision to trade says of the quantities: how they were computed.
use counterparty_core.Prelude.{
  ℕ, ◌≡◌, refl, sym, ◌∙◌, ap, Bool, false, Option, none, some, arith, ◌&&◌, ◌||◌, inl, inr,
  Bool-cases,
}
use counterparty_core.Prelude.Int.{ℤ}
use counterparty_core.Text.{text_eq}
use counterparty_core.Config.{btc}
use counterparty_core.Tables.{OrderRow}
use counterparty_core.Price.{Price, of_int, truncate, round, ltb_price}
use counterparty_core.Env.{Env}
use counterparty_core.Exec.{Result, ok, raised, bind}
use counterparty_core.Order.Trade.{
  Taker, Trade, price, times, order_price, plain_trade, maker_pays, taker_pays, with_fee, trade_at,
  consider, inverse_price, involves_btc, lacks_funds, since, is_below_minimum, min_ℤ, is_zero,
}

-- A step of a chain that returned has returned.
pub bind-ok :
    {A B : Type 0} (r : Result A) (f : A → Result B) (b : B)
    → bind r f ≡ ok b
    → (a : A) × (r ≡ ok a) × (f a ≡ ok b)
bind-ok (ok a) f b h = (a, refl, h)
bind-ok (raised e) f b h = cc

module _ (env : Env) where
  -- What the fee leaves of a planned trade.
  SameQuantities : Trade → Trade → Type 0
  SameQuantities a b =
      (a.forward_quantity ≡ b.forward_quantity) × (a.backward_quantity ≡ b.backward_quantity)

  maker_pays-same :
      (plan trade : Trade) (fee : ℤ) (b : ℕ)
      → maker_pays env plan fee b ≡ some trade
      → SameQuantities trade plan
  unfolding maker_pays SameQuantities
  maker_pays-same plan trade fee b h = ground arith

  taker_pays-same :
      (plan trade : Trade) (fee : ℤ) (b : ℕ)
      → taker_pays env plan fee b ≡ some trade
      → SameQuantities trade plan
  unfolding taker_pays SameQuantities
  taker_pays-same plan trade fee b h = ground arith

  paid :
      (r : Result ℤ) (f : ℤ → Option Trade) (trade : Trade)
      → bind r (λ fee. ok (f fee)) ≡ ok (some trade)
      → (fee : ℤ) × (f fee ≡ some trade)
  paid (ok a) f trade h = (a, cc)
  paid (raised e) f trade h = cc

  with_fee-same :
      (tx0 tx1 : OrderRow) (t : Taker) (plan trade : Trade) (b : ℕ)
      → with_fee env tx0 tx1 t plan b ≡ ok (some trade)
      → SameQuantities trade plan
  unfolding with_fee SameQuantities
  with_fee-same tx0 tx1 t plan trade b h = elim (Bool-cases (since env 286500 b)) [
    | inl late ↦ elim (Bool-cases (text_eq tx1.get_asset btc)) [
      | inl get ↦
          let (fee, e) = paid _ _ trade (rw (late, get) at h) in maker_pays-same plan trade fee b e
      | inr other ↦ elim (Bool-cases (text_eq tx1.give_asset btc)) [
        | inl give ↦
            let (fee, e) = paid _ _ trade (rw (late, other, give) at h) in
            taker_pays-same plan trade fee b e
        | inr neither ↦ let same = rw (late, other, neither) at h in (cc, cc)
      ]
    ]
    | inr early ↦ ground (arith, early)
  ]

  pub no_trade : {P : Type 0} (trade : Trade) → ok none ≡ ok (some trade) → P
  no_trade trade h = cc

  -- The quantities that `trade_at` computes, where it makes a trade.
  trade_at-ok :
      (tx0 tx1 : OrderRow) (t : Taker) (b : ℕ) (p wanted : Price) (trade : Trade)
      → trade_at env tx0 tx1 t b p wanted ≡ ok (some trade)
      → (trade.forward_quantity ≡ min_ℤ tx0.give_remaining (truncate wanted))
        × (trade.backward_quantity ≡ round (times env trade.forward_quantity p))
        × (is_zero trade.forward_quantity ≡ false)
  unfolding trade_at SameQuantities
  trade_at-ok tx0 tx1 t b p wanted trade h =
      let forward : ℤ = min_ℤ tx0.give_remaining (truncate wanted) in
      let backward : ℤ = round (times env forward p) in
      let refused : Bool =
        is_zero forward
        || (since env 286500 b && is_zero backward)
        || is_below_minimum env tx1 forward backward b in
      elim (Bool-cases refused) [
        | inl refuse ↦ no_trade trade (rw refuse at h)
        | inr make ↦
            let (f, k) =
              with_fee-same tx0 tx1 t (plain_trade env tx0 t forward backward) trade b
                (rw make at h) in
            (
              f ∙ (unfold plain_trade in refl),
              k ∙ (unfold plain_trade in ap (λ q. round (times env q p)) (sym f)),
              rw f (unfold plain_trade in ground arith),
            )
      ]

  -- The same of `consider`, with the prices that it computed.
  pub consider-ok :
      (tx0 tx1 : OrderRow) (t : Taker) (b tx_block : ℕ) (trade : Trade)
      → consider env tx0 tx1 t b tx_block ≡ ok (some trade)
      → (p : Price) × (wanted : Price) × (order_price env tx0 ≡ ok p)
        × (price env (of_int t.give_remaining) p ≡ ok wanted)
        × (trade.forward_quantity ≡ min_ℤ tx0.give_remaining (truncate wanted))
        × (trade.backward_quantity ≡ round (times env trade.forward_quantity p))
        × (is_zero trade.forward_quantity ≡ false)
  unfolding consider
  consider-ok tx0 tx1 t b tx_block trade h =
      elim (Bool-cases (involves_btc tx0 && lacks_funds env tx0 t b)) [
        | inl refuse ↦ no_trade trade (rw refuse at h)
        | inr try ↦
            let (p, ep, h1) = bind-ok (order_price env tx0) _ (some trade) (rw try at h) in
            let (limit, el, h2) = bind-ok (inverse_price env tx1 tx_block) _ (some trade) h1 in
            elim (Bool-cases (ltb_price limit p)) [
              | inl refuse ↦ no_trade trade (rw refuse at h2)
              | inr agree ↦
                  let (wanted, ew, h3) =
                    bind-ok (price env (of_int t.give_remaining) p) _ (some trade)
                      (rw agree at h2) in
                  let (f, k, z) = trade_at-ok tx0 tx1 t b p wanted trade h3 in
                  (p, wanted, ep, ew, f, k, z)
            ]
      ]
