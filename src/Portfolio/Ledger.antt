-- ===== src/Portfolio/Ledger.antt =====
-- src/poly_meridian/portfolio/ledger.py: positions, cash and the log of entries. Log calls are
-- left out.
pub mod History
pub mod Tags
use text.Mathlib.Text.{starts_with}
use poly_meridian.Prelude.{
  ℕ, suc, ◌≡◌, refl, Bool, true, false, not, Option, none, some, List, [], ◌∷◌, ◌++◌, map, String,
  if◌then◌else◌, get_or, filter, ◌==◌, string_eq, is_some,
}
use poly_meridian.Prelude.Dict.{Dict, get, insert, values}
use poly_meridian.Num.{Num, Quantize, quantize, ◌+◌, ◌-◌, ◌*◌, ◌/◌, ◌<?◌, lit, neg, max, num_eq}
use poly_meridian.Domain.{Datetime, Order, Side, buy, sell, partial, filled}

pub record LedgerEntry (D : Type 0) : Type 0 where
  pub ts : Datetime
  pub order_id : String
  pub strategy : String
  pub token_id : String
  pub side : Side
  pub qty : D
  pub price : D
  pub notional : D
  pub fee : D

pub data Horizon : Type 0 where
  intraday to_resolution : Horizon

pub record PositionState (F D : Type 0) : Type 0 where
  pub token_id : String
  pub qty : D
  pub avg_cost : D
  pub realized_pnl : D
  pub last_mark : D
  pub last_updated : Datetime
  pub fees_paid : D
  pub entry_strategy : Option String
  pub horizon : Option Horizon
  pub claimed_p_long : Option F
  pub claimed_confidence : Option F
  pub claimed_base_rate : Option F

pub record Ledger (F D : Type 0) : Type 0 where
  pub cash : D
  pub entries : List (LedgerEntry D)
  pub positions_by_token : Dict String (PositionState F D)
  pub starting_cash : D

-- The arguments of `apply_fill`.
pub record Fill (D : Type 0) : Type 0 where
  pub ts : Datetime
  pub order : Order D
  pub filled_qty : D
  pub fill_price : D
  pub fee : D

-- A persisted position: `malformed` is a row that raises while it is read.
pub data Row (F D : Type 0) : Type 0 where
  malformed : Row F D
  position : PositionState F D → Row F D

module _ {F D : Type 0} ⦃nd : Num D⦄ where
  abbrev pub new_ledger : D → Ledger F D
  new_ledger starting_cash_usd = record {
    cash = starting_cash_usd;
    entries = [];
    positions_by_token = [];
    starting_cash = starting_cash_usd;
  }

  -- `PositionState(token_id=...)`
  abbrev pub new_position : String → Datetime → PositionState F D
  new_position token now = record {
    token_id = token;
    qty = lit 0 0;
    avg_cost = lit 0 0;
    realized_pnl = lit 0 0;
    last_mark = lit 0 0;
    last_updated = now;
    fees_paid = lit 0 0;
    entry_strategy = none;
    horizon = none;
    claimed_p_long = none;
    claimed_confidence = none;
    claimed_base_rate = none;
  }

  unfoldable pub unrealized_pnl : PositionState F D → D
  unrealized_pnl p = p.qty * (p.last_mark - p.avg_cost)

  abbrev pub is_held : PositionState F D → Bool
  is_held p = not (p.qty == lit 0 0)

  unfoldable pub positions : Ledger F D → List (PositionState F D)
  positions l = filter is_held (values l.positions_by_token)

  abbrev pub held_only : Option (PositionState F D) → Option (PositionState F D)
  held_only none = none
  held_only (some p) = if is_held p then some p else none

  unfoldable pub get_position : String → Ledger F D → Option (PositionState F D)
  get_position token l = held_only (get token l.positions_by_token)

  -- The position of a token, as `setdefault` leaves it.
  abbrev pub position_or_new : String → Datetime → Ledger F D → PositionState F D
  position_or_new token now l = get_or (get token l.positions_by_token) (new_position token now)

  -- The tag that the first buy stamps on a position.
  unfoldable pub stamp : String → PositionState F D → PositionState F D
  stamp strategy p = elim p.entry_strategy [
    | some _ ↦ p
    | none ↦ record p {
      entry_strategy = some strategy;
      horizon = some (if starts_with strategy "fundamentals" then to_resolution else intraday);
    }
  ]

  unfoldable pub mark : String → D → Datetime → Ledger F D → Ledger F D
  mark token mid_price now l = elim (get token l.positions_by_token) [
    | none ↦ l
    | some p ↦
        (if p.qty == lit 0 0 then l else record l {
          positions_by_token =
              insert token (record p { last_mark = mid_price; last_updated = now })
                l.positions_by_token;
        })
  ]

  -- The loop of `restore_positions`, with the number restored so far.
  unfoldable pub restore_from : ℕ → List (Row F D) → Ledger F D → ℕ × Ledger F D
  restore_from n [] l = (n, l)
  restore_from n (malformed ∷ rows) l = restore_from n rows l
  restore_from n (position p ∷ rows) l = restore_from (if p.qty == lit 0 0 then n else suc n) rows (
      if p.qty == lit 0 0 then l else record l {
        positions_by_token = insert p.token_id p l.positions_by_token;
        cash = l.cash - p.qty * p.avg_cost;
      })

  unfoldable pub restore_positions : List (Row F D) → Ledger F D → ℕ × Ledger F D
  unfolding restore_from
  restore_positions = restore_from 0

module _ {D : Type 0} ⦃nd : Num D⦄ where
  abbrev pub signed_qty : Fill D → D
  signed_qty f = elim f.order.side [ buy ↦ f.filled_qty | sell ↦ neg f.filled_qty ]

  abbrev pub notional : Fill D → D
  notional f = elim f.order.side [
    | buy ↦ neg (f.filled_qty * f.fill_price) - f.fee
    | sell ↦ f.filled_qty * f.fill_price - f.fee
  ]

  abbrev pub entry_of : Fill D → LedgerEntry D
  entry_of f = record {
    ts = f.ts;
    order_id = f.order.order_id;
    strategy = f.order.strategy;
    token_id = f.order.token_id;
    side = f.order.side;
    qty = signed_qty f;
    price = f.fill_price;
    notional = notional f;
    fee = f.fee;
  }

module _ {F D : Type 0} ⦃nd : Num D⦄ ⦃qd : Quantize D⦄ where
  -- The branch of a buy: weighted-average cost, quantity, fees and the entry tag.
  unfoldable pub buy_position : Fill D → PositionState F D → PositionState F D
  unfolding stamp
  buy_position f p =
      let new_qty = p.qty + f.filled_qty in
      stamp f.order.strategy (record p {
        avg_cost =
            if new_qty == lit 0 0
            then p.avg_cost
            else quantize 4 ((p.qty * p.avg_cost + f.filled_qty * f.fill_price) / new_qty);
        qty = new_qty;
        fees_paid = p.fees_paid + f.fee;
      })

  -- The branch of a sell: realized P&L net of the fees of both legs.
  unfoldable pub sell_position : Fill D → PositionState F D → PositionState F D
  sell_position f p =
      let buy_fee_share =
        if lit 0 0 <? p.qty then p.fees_paid * f.filled_qty / p.qty else lit 0 0 in
      record p {
        realized_pnl =
            p.realized_pnl + ((f.fill_price - p.avg_cost) * f.filled_qty - buy_fee_share - f.fee);
        fees_paid = max (lit 0 0) (p.fees_paid - buy_fee_share);
        qty = p.qty + neg f.filled_qty;
      }

  -- The position after a fill.
  unfoldable pub filled_position : Fill D → PositionState F D → PositionState F D
  unfolding buy_position sell_position
  filled_position f p =
      let traded : PositionState F D = elim f.order.side [
        | buy ↦ buy_position f p
        | sell ↦ sell_position f p
      ] in
      record traded { last_mark = f.fill_price; last_updated = f.ts }

  unfoldable pub apply_fill : Fill D → Ledger F D → LedgerEntry D × Ledger F D
  unfolding filled_position
  apply_fill f l = (
    entry_of f,
    record l {
      positions_by_token =
          insert f.order.token_id (filled_position f (position_or_new f.order.token_id f.ts l))
            l.positions_by_token;
      cash = l.cash + notional f;
      entries = l.entries ++ entry_of f ∷ [];
    },
  )

module _ {D : Type 0} where
  -- Only sells realize a profit or a loss.
  pub has_realized_pnl : Order D → Bool
  has_realized_pnl o = elim o.side [
    | buy ↦ false
    | sell ↦ elim o.status [ partial ↦ true | filled ↦ true | _ ↦ false ]
  ]
