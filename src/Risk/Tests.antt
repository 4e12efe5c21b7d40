-- ===== src/Risk/Tests.antt =====
-- Sizes, gates and results of app/risk.py at concrete trades.
use tv_zerodha_bot.Prelude.{ℕ, ◌*◌, ◌≡◌, refl, Bool, true, false, ◌⊎◌, none, [], ◌∷◌, ◌++◌}
use tv_zerodha_bot.Prelude.Int.{ℤ, pos, negsuc, ◌*ℤ◌}
use tv_zerodha_bot.Numbers.Fixed.{fixed, scale}
use tv_zerodha_bot.Storage.{ClosedTrade}
use tv_zerodha_bot.Paper.Once.{Distinct, trade_ids}
use tv_zerodha_bot.Paper.Tests.{db}
use tv_zerodha_bot.Risk.Sizing.{compute_option_qty, WholeLots, compute_option_qty_lem}
use tv_zerodha_bot.Risk.Gates.{daily_realized_pnl, check_risk_gates}
use tv_zerodha_bot.Risk.Streak.{IsGated, check_risk_gates_lem, check_risk_gates_apart}
use tv_zerodha_bot.Risk.Results.{record_trade_result}
use tv_zerodha_bot.Risk.Upsert.{record_trade_result_lem}

-- A capital of 10,000 buys three lots of 25 at 120.
abbrev capital : ℤ
capital = pos (10000 * scale)

abbrev premium : ℤ
premium = pos (120 * scale)

abbrev lot : ℤ
lot = pos (25 * scale)

option_qty_run : compute_option_qty fixed capital premium lot ≡ pos 75
unfolding compute_option_qty ◌*ℤ◌
option_qty_run = refl

compute_option_qty_lem_example :
    let qty = compute_option_qty fixed capital premium lot in
    WholeLots fixed (fixed.dec_trunc lot) qty
    × ((qty ≡ pos 0)
        ⊎ (qty ≡ fixed.dec_trunc lot)
        ⊎ (fixed.dec_lt capital (fixed.dec_mul premium (fixed.dec_of_int qty)) ≡ false))
compute_option_qty_lem_example = compute_option_qty_lem fixed capital premium lot

abbrev closed : Bool → ℤ → ℕ → ClosedTrade fixed
closed dry_run pnl at = record {
  position_id = at;
  exchange = "MCX";
  tradingsymbol = "NG";
  entry_premium = pos 100000;
  exit_premium = pos 100000;
  pnl = pnl;
  exit_reason = "SL_HIT";
  opened_at = 0;
  closed_at = at;
  strategy_id = none;
  dry_run = dry_run;
}

-- Two live losses of 1.00, and a paper one of 100.00.
abbrev live_loss : ℕ → ClosedTrade fixed
live_loss = closed false (negsuc 9999)

abbrev paper_loss : ClosedTrade fixed
paper_loss = closed true (negsuc 999999) 3

check_risk_gates_lem_example :
    IsGated {n = fixed}
      (pos 500000)
      (live_loss 1 ∷ live_loss 2 ∷ [])
      10
      5
      false
      (check_risk_gates (pos 500000) (live_loss 1 ∷ live_loss 2 ∷ []) 10 5 false)
check_risk_gates_lem_example =
    check_risk_gates_lem {n = fixed} (pos 500000) (live_loss 1 ∷ live_loss 2 ∷ []) 10 5 false refl

check_risk_gates_apart_example :
    (check_risk_gates (pos 500000) ((live_loss 1 ∷ []) ++ paper_loss ∷ live_loss 2 ∷ []) 10 5 false
      ≡ check_risk_gates (pos 500000) ((live_loss 1 ∷ []) ++ live_loss 2 ∷ []) 10 5 false)
    × (daily_realized_pnl ((live_loss 1 ∷ []) ++ paper_loss ∷ live_loss 2 ∷ []) 10 false
        ≡ daily_realized_pnl ((live_loss 1 ∷ []) ++ live_loss 2 ∷ []) 10 false)
check_risk_gates_apart_example =
    check_risk_gates_apart {n = fixed} (pos 500000) (live_loss 1 ∷ []) (live_loss 2 ∷ []) paper_loss
      10 5 false refl

record_trade_result_lem_example :
    Distinct (trade_ids (record_trade_result "PAPER-1" (pos 10) 5 db).closed_trades)
    × (record_trade_result "PAPER-1" (pos 20) 6 (record_trade_result "PAPER-1" (pos 10) 5 db)
        ≡ record_trade_result "PAPER-1" (pos 20) 6 db)
record_trade_result_lem_example =
    record_trade_result_lem {n = fixed} "PAPER-1" (pos 10) (pos 20) 5 6 db tt
