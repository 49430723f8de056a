-- ===== src/Portfolio/Pnl.antt =====
-- src/poly_meridian/portfolio/pnl.py and src/poly_meridian/portfolio/mark_to_market.py: the value
-- of a ledger, the snapshot that the risk policy reads, and the marks that come from the books.
pub mod Marks
pub mod Snapshot
pub mod Rollup
use poly_meridian.Prelude.{
  ℕ, ◌≡◌, refl, Bool, true, false, Option, none, some, List, [], ◌∷◌, map, String, if◌then◌else◌,
  get_or, string_eq, length,
}
use poly_meridian.Prelude.Dict.{Dict, get, insert}
use poly_meridian.Num.{
  Num, Quantize, Convert, to_float, ◌+◌, ◌-◌, ◌*◌, ◌/◌, ◌<?◌, ◌≤?◌, lit, abs, sum,
}
use poly_meridian.Domain.{Datetime, Position, PortfolioSnapshot}
use poly_meridian.Book.{LocalBook, mid}
use poly_meridian.Portfolio.Ledger.{Ledger, PositionState, positions, mark}
use poly_meridian.Portfolio.Ledger

module _ {F D : Type 0} ⦃nd : Num D⦄ where
  unfoldable pub nav_usd : Ledger F D → D
  nav_usd l = l.cash + sum (map (λ (p : PositionState F D). p.qty * p.last_mark) (positions l))

  unfoldable pub realized_pnl : Ledger F D → D
  realized_pnl l = sum (map (λ (p : PositionState F D). p.realized_pnl) (positions l))

  unfoldable pub unrealized_pnl : Ledger F D → D
  unrealized_pnl l = sum (map Ledger.unrealized_pnl (positions l))

  -- The absolute value of a position at its mark.
  abbrev pub exposure_of : PositionState F D → D
  exposure_of p = abs p.qty * p.last_mark

  unfoldable pub total_exposure_usd : Ledger F D → D
  total_exposure_usd l = sum (map exposure_of (positions l))

  -- The loop of `category_exposure_usd`, over a dict whose missing values are zero.
  unfoldable pub add_exposures :
      Dict String String → List (PositionState F D) → Dict String D → Dict String D
  add_exposures categories [] out = out
  add_exposures categories (p ∷ ps) out =
      let cat = get_or (get p.token_id categories) "uncategorized" in
      add_exposures categories ps (insert cat (get_or (get cat out) (lit 0 0) + exposure_of p) out)

  unfoldable pub category_exposure_usd : Dict String String → Ledger F D → Dict String D
  unfolding add_exposures
  category_exposure_usd categories l = add_exposures categories (positions l) []

  abbrev pub position_of : PositionState F D → Position D
  position_of p = record {
    token_id = p.token_id;
    qty = p.qty;
    avg_cost = p.avg_cost;
    last_mark = p.last_mark;
    last_updated = p.last_updated;
  }

-- `if not d`
abbrev pub is_empty : Dict String String → Bool
is_empty [] = true
is_empty (_ ∷ _) = false

abbrev pub over_nav :
    {F D : Type 0} ⦃nd : Num D⦄ ⦃cv : Convert F D⦄ → D → Dict String D → Dict String F
over_nav nav [] = []
over_nav nav ((k, v) ∷ rest) = (k, to_float (v / nav)) ∷ over_nav nav rest

module _ {F D : Type 0} ⦃nf : Num F⦄ ⦃nd : Num D⦄ ⦃cv : Convert F D⦄ where
  unfoldable pub daily_pnl_pct : Option D → Ledger F D → F
  daily_pnl_pct none l = lit 0 0
  daily_pnl_pct (some day_start_nav) l =
      if day_start_nav ≤? lit 0 0
      then lit 0 0
      else to_float ((nav_usd l - day_start_nav) / day_start_nav)

  -- `if nav > 0` guards the total and every category; no categories are given as an empty dict.
  unfoldable pub snapshot :
      Dict String String → Option D → Datetime → Ledger F D → PortfolioSnapshot F D
  unfolding daily_pnl_pct
  snapshot token_to_category day_start_nav ts l =
      let nav = nav_usd l in
      let held : List (Position D) = map position_of (positions l) in
      record {
        ts = ts;
        nav_usd = nav;
        cash_usd = l.cash;
        positions = held;
        daily_pnl_pct = daily_pnl_pct day_start_nav l;
        total_exposure_pct =
            if lit 0 0 <? nav then to_float (total_exposure_usd l / nav) else lit 0 0;
        category_exposure_pct =
            if is_empty token_to_category
            then []
            else if lit 0 0 <? nav
            then over_nav nav (category_exposure_usd token_to_category l)
            else [];
        open_position_count = length held;
      }

module _ {D : Type 0} ⦃nd : Num D⦄ where
  -- The price that a position is marked at: the mid of its token's book, if there is one.
  abbrev pub mid_of : Dict String (LocalBook D) → String → Option D
  mid_of books token = elim (get token books) [ none ↦ none | some b ↦ mid b ]

module _ {F D : Type 0} ⦃nd : Num D⦄ where
  unfoldable pub mark_each :
      Dict String (LocalBook D) → Datetime → List (PositionState F D) → Ledger F D → Ledger F D
  unfolding mark
  mark_each books ts [] l = l
  mark_each books ts (p ∷ ps) l =
      mark_each books ts ps
        (elim (mid_of books p.token_id) [ none ↦ l | some m ↦ mark p.token_id m ts l ])

  unfoldable pub mark_all : Dict String (LocalBook D) → Datetime → Ledger F D → Ledger F D
  unfolding mark_each
  mark_all books ts l = mark_each books ts (positions l) l
