-- ===== src/Risk/Sizing.antt =====
-- Position sizes (app/risk.py): how many units a capital affords, in whole lots.
use tv_zerodha_bot.Prelude.{
  ◌≡◌, refl, Bool, true, false, not, ◌||◌, ◌⊎◌, inl, inr, if◌then◌else◌, Bool-cases, arith,
}
use tv_zerodha_bot.Prelude.Int.{ℤ, pos, ◌*ℤ◌, ltb_ℤ, leb_ℤ, one_*ℤ}
use tv_zerodha_bot.Numbers.{Numbers}

module _ (n : Numbers) where
  open n use {Decimal, dec_zero, dec_lt, dec_mul, dec_div, dec_of_int, dec_trunc}

  -- `x <= 0`
  unfoldable pub not_positive : Decimal → Bool
  not_positive x = not (dec_lt dec_zero x)

  unfoldable pub compute_option_qty : (capital_per_trade option_ltp lot_size : Decimal) → ℤ
  unfolding not_positive
  compute_option_qty capital_per_trade option_ltp lot_size =
      if not_positive option_ltp || not_positive lot_size
      then pos 0
      else (let lots = dec_trunc (dec_div (dec_div capital_per_trade option_ltp) lot_size) in
          let qty = lots *ℤ dec_trunc lot_size in
          if ltb_ℤ qty (dec_trunc lot_size)
          then pos 0
          else if dec_lt capital_per_trade (dec_mul option_ltp (dec_of_int qty))
          then dec_trunc lot_size
          else qty)

  unfoldable pub compute_equity_qty : (capital_per_trade price : Decimal) → ℤ
  unfolding not_positive
  compute_equity_qty capital_per_trade price =
      if not_positive price
      then pos 0
      else (let qty = dec_trunc (dec_div capital_per_trade price) in
          if leb_ℤ (pos 1) qty then qty else pos 0)

  unfoldable pub compute_futures_qty : (capital_risk sl_distance lot_size : Decimal) → ℤ
  unfolding not_positive
  compute_futures_qty capital_risk sl_distance lot_size =
      if not_positive capital_risk || not_positive sl_distance || not_positive lot_size
      then pos 0
      else (let lots = dec_trunc (dec_div (dec_div capital_risk sl_distance) lot_size) in
          let qty = lots *ℤ dec_trunc lot_size in
          if leb_ℤ (dec_trunc lot_size) qty then qty else pos 0)

  -- Nothing, or at least a lot and a whole number of lots.
  abbrev pub WholeLots : (lot qty : ℤ) → Type 0
  WholeLots lot qty = (qty ≡ pos 0) ⊎ ((leb_ℤ lot qty ≡ true) × (lots : ℤ) × (qty ≡ lots *ℤ lot))

  -- However decimals are rounded, a size for options is nothing or a whole number of lots, at least
  -- one, and more than one lot never costs more than the capital.
  pub compute_option_qty_lem :
      (capital ltp lot_size : Decimal)
      → let qty = compute_option_qty capital ltp lot_size in
        WholeLots (dec_trunc lot_size) qty
        × ((qty ≡ pos 0)
            ⊎ (qty ≡ dec_trunc lot_size)
            ⊎ (dec_lt capital (dec_mul ltp (dec_of_int qty)) ≡ false))
  unfolding compute_option_qty not_positive
  compute_option_qty_lem capital ltp lot_size =
      let lot = dec_trunc lot_size in
      let lots = dec_trunc (dec_div (dec_div capital ltp) lot_size) in
      elim (Bool-cases (not_positive ltp || not_positive lot_size)) [
        | inl bad ↦ rw bad (inl refl, inl refl)
        | inr good ↦ elim (Bool-cases (ltb_ℤ (lots *ℤ lot) lot)) [
          | inl few ↦ rw (good, few) (inl refl, inl refl)
          | inr enough ↦
              elim (Bool-cases (dec_lt capital (dec_mul ltp (dec_of_int (lots *ℤ lot))))) [
                | inl dear ↦
                    rw (good, enough, dear)
                      (inr (ground arith, pos 1, ground (arith, one_*ℤ lot)), inr (inl refl))
                | inr cheap ↦
                    rw (good, enough, cheap) (inr (ground arith, lots, refl), inr (inr cheap))
              ]
        ]
      ]
