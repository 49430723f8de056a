-- ===== src/Execution/Exit.antt =====
-- src/poly_meridian/execution/exit_monitor.py: the scan that closes positions.
-- The end dates and the settlement prices that a scan reads from the market cache are arguments,
-- and so is the executor, through what a submission does: it returns or it raises. Dashboard
-- pushes, the calibration hook and log calls are left out.
use Prim.Native.Nat.{◌+◌}
use poly_meridian.Prelude.{
  ℕ, suc, ◌≡◌, refl, Bool, true, false, not, ◌&&◌, Option, none, some, List, [], ◌∷◌, ◌++◌, String,
  if◌then◌else◌, ltb, string_eq,
}
use poly_meridian.Prelude.Dict.{Dict, get, insert}
use poly_meridian.Num.{
  Num, Convert, Quantize, quantize, to_float, to_decimal, ◌-◌, ◌*◌, ◌/◌, ◌<?◌, ◌≤?◌, lit, neg, abs,
}
use poly_meridian.Domain.{Datetime, Clock, Side, OrderType, TradeDecision}
use poly_meridian.Portfolio.Ledger.{PositionState, Horizon, to_resolution, intraday}
pub mod Rules

pub data ExitReason : Type 0 where
  profit_take stop_loss time_decay_close settlement : ExitReason

pub record ExitMonitor (F : Type 0) : Type 0 where
  pub profit_take_pct : F
  pub stop_loss_pct : F
  pub time_decay_safety_hours : F
  pub min_position_notional_usd : F
  pub cooldown_until : Dict String Datetime

-- The cooldown of thirty seconds, in microseconds.
abbrev pub cooldown : ℕ
cooldown = 30000000

-- An order that the monitor builds: why, and for what.
pub record Exit (D : Type 0) : Type 0 where
  pub reason : ExitReason
  pub token_id : String
  pub side : Side
  pub order_type : OrderType
  pub price : D
  pub size : D

abbrev pub holds_to_resolution : Option Horizon → Bool
holds_to_resolution (some to_resolution) = true
holds_to_resolution _ = false

module _ {F : Type 0} ⦃nf : Num F⦄ ⦃ck : Clock F⦄ where
  -- `(end_date - now).total_seconds() / 3600.0`
  abbrev pub hours_left : Datetime → Datetime → F
  hours_left end_date now = ck.seconds_between end_date now / lit 3600 0

  -- The trigger that looks at the time to resolution.
  unfoldable pub time_decay : ExitMonitor F → Option Datetime → Datetime → Option ExitReason
  time_decay m none now = none
  time_decay m (some end_date) now =
      if hours_left end_date now <? m.time_decay_safety_hours then some time_decay_close else none

module _ {F D : Type 0} ⦃nf : Num F⦄ ⦃nd : Num D⦄ ⦃cv : Convert F D⦄ ⦃ck : Clock F⦄ where
  abbrev pub mtm_pct : PositionState F D → F
  mtm_pct pos = to_float ((pos.last_mark - pos.avg_cost) / pos.avg_cost)

  unfoldable pub decide :
      ExitMonitor F → PositionState F D → Option Datetime → Datetime → Option ExitReason × F
  unfolding time_decay
  decide m pos end_date now =
      if pos.avg_cost ≤? lit 0 0
      then (none, lit 0 0)
      else let pct = mtm_pct pos in
        if not (holds_to_resolution pos.horizon) && (m.profit_take_pct ≤? pct)
        then (some profit_take, pct)
        else if not (holds_to_resolution pos.horizon) && (pct ≤? neg m.stop_loss_pct)
        then (some stop_loss, pct)
        else (time_decay m end_date now, pct)

module _ {F D : Type 0} ⦃nf : Num F⦄ ⦃nd : Num D⦄ ⦃qd : Quantize D⦄ ⦃cv : Convert F D⦄ where
  -- `Decimal(str(abs(float(pos.qty)))).quantize(Decimal("0.01"))`
  abbrev pub exit_size : PositionState F D → D
  exit_size pos = let qty : F = to_float pos.qty in quantize 2 (to_decimal (abs qty))

  -- A sell of the whole position at a price; none if the size rounds to nothing.
  unfoldable pub exit_order : ExitReason → D → PositionState F D → Option (Exit D)
  exit_order reason price pos =
      if exit_size pos ≤? lit 0 0
      then none
      else some (record {
        reason = reason;
        token_id = pos.token_id;
        side = Side.sell;
        order_type = OrderType.fak;
        price = quantize 4 price;
        size = exit_size pos;
      })

  -- `_emit_exit` sells at the mark, `_emit_settlement` at the settlement price.
  unfoldable pub emit_exit : ExitReason → PositionState F D → Option (Exit D)
  unfolding exit_order
  emit_exit reason pos = exit_order reason pos.last_mark pos

  unfoldable pub emit_settlement : F → PositionState F D → Option (Exit D)
  unfolding exit_order
  emit_settlement settle_price pos = exit_order settlement (to_decimal settle_price) pos

-- What a scan carries: the exits counted, the orders submitted, the cooldowns.
pub record Scan (D : Type 0) : Type 0 where
  pub n_exits : ℕ
  pub submitted : List (Exit D)
  pub until : Dict String Datetime

abbrev pub is_cooling : Option Datetime → Datetime → Bool
is_cooling none now = false
is_cooling (some until) now = ltb now until

module _ {D : Type 0} where
  -- An order that is submitted; whether the exit goes through without an exception.
  abbrev pub send : (Exit D → Bool) → Option (Exit D) → Scan D → Bool × Scan D
  send raises none s = (true, s)
  send raises (some e) s =
      if raises e then (false, s) else (true, record s { submitted = s.submitted ++ e ∷ [] })

  abbrev pub count_exit : Bool × Scan D → Scan D
  count_exit (true, s) = record s { n_exits = suc s.n_exits }
  count_exit (false, s) = s

  abbrev pub cool_down : String → Datetime → Bool × Scan D → Scan D
  cool_down token now (true, s) = record s {
    n_exits = suc s.n_exits;
    until = insert token (now + cooldown) s.until;
  }
  cool_down token now (false, s) = s

module _ {F D : Type 0} ⦃nf : Num F⦄ ⦃nd : Num D⦄ ⦃qd : Quantize D⦄ ⦃cv : Convert F D⦄
    ⦃ck : Clock F⦄ (raises : Exit D → Bool) where
  -- The round of the scan over one position.
  unfoldable pub scan_position :
      ExitMonitor F
      → Dict String Datetime
      → Dict String F
      → Datetime
      → PositionState F D
      → Scan D
      → Scan D
  unfolding decide emit_exit emit_settlement
  scan_position m tok_to_end tok_to_settle now pos s = elim (get pos.token_id tok_to_settle) [
    | some settle_px ↦ count_exit (send raises (emit_settlement settle_px pos) s)
    | none ↦
        (let qty : F = to_float (abs pos.qty) in
          let notional = qty * to_float pos.last_mark in
          if notional <? m.min_position_notional_usd
          then s
          else if is_cooling (get pos.token_id s.until) now
          then s
          else elim (decide m pos (get pos.token_id tok_to_end) now).0 [
            | none ↦ s
            | some reason ↦ cool_down pos.token_id now (send raises (emit_exit reason pos) s)
          ])
  ]

  unfoldable pub scan_positions :
      ExitMonitor F
      → Dict String Datetime
      → Dict String F
      → Datetime
      → List (PositionState F D)
      → Scan D
      → Scan D
  unfolding scan_position
  scan_positions m ends settles now [] s = s
  scan_positions m ends settles now (p ∷ ps) s =
      scan_positions m ends settles now ps (scan_position m ends settles now p s)

  -- `scan_once`: the count, the orders submitted, and the monitor with its cooldowns.
  unfoldable pub scan_once :
      Bool
      → Dict String Datetime
      → Dict String F
      → Datetime
      → List (PositionState F D)
      → ExitMonitor F
      → ℕ × List (Exit D) × ExitMonitor F
  unfolding scan_positions
  scan_once kill_engaged ends settles now positions m =
      if kill_engaged
      then (0, [], m)
      else let s : Scan D =
          scan_positions m ends settles now positions
            (record { n_exits = 0; submitted = []; until = m.cooldown_until }) in
        (s.n_exits, s.submitted, record m { cooldown_until = s.until })
