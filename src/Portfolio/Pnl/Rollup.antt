-- ===== src/Portfolio/Pnl/Rollup.antt =====
-- src/poly_meridian/portfolio/pnl.py: `daily_roll_up`, the report of one day from the log.
use Prim.Native.Nat.{◌+◌, ◌/◌}
use poly_meridian.Prelude.{
  ℕ, suc, ◌≤◌, ◌≡◌, refl, Bool, not, ◌&&◌, List, [], ◌∷◌, map, String, if◌then◌else◌, get_or,
  filter, length, count, ltb, nat_eq, ◌==◌, string_eq, arith,
}
use poly_meridian.Prelude.Dict.{Dict, get, insert}
use poly_meridian.Num.{Num, ◌*◌, ◌<?◌, lit, sum, num_eq}
use poly_meridian.Domain.{Datetime}
use poly_meridian.Portfolio.Ledger.{Ledger, LedgerEntry}
use poly_meridian.Portfolio.Pnl.{nav_usd, realized_pnl, unrealized_pnl}

-- The UTC date of a datetime, as a count of days.
abbrev pub date_of : Datetime → ℕ
date_of ts = ts / 86400000000

-- The variables of the loop over the entries.
pub record Costs (D : Type 0) : Type 0 where
  pub avg_cost_by_token : Dict String D
  pub qty_by_token : Dict String D
  pub win_count : ℕ

pub record RollUp (D : Type 0) : Type 0 where
  pub date : ℕ
  pub starting_nav : D
  pub ending_nav : D
  pub realized : D
  pub unrealized : D
  pub fees : D
  pub trade_count : ℕ
  pub win_count : ℕ

module _ {D : Type 0} ⦃nd : Num D⦄ where
  abbrev pub is_today : ℕ → LedgerEntry D → Bool
  is_today day e = date_of e.ts == day

  abbrev pub is_purchase : LedgerEntry D → Bool
  is_purchase e = lit 0 0 <? e.qty

  -- A sale of the day above the average cost of its token.
  unfoldable pub is_win : ℕ → LedgerEntry D → Costs D → Bool
  is_win day e c =
      let ac = get_or (get e.token_id c.avg_cost_by_token) (lit 0 0) in
      is_today day e && (lit 0 0 <? ac && ac <? e.price)

  unfoldable pub buy_entry : LedgerEntry D → Costs D → Costs D
  buy_entry e c =
      let prior_qty = get_or (get e.token_id c.qty_by_token) (lit 0 0) in
      let prior_cost = get_or (get e.token_id c.avg_cost_by_token) (lit 0 0) in
      let new_qty = nd.add prior_qty e.qty in
      record c {
        avg_cost_by_token =
            if new_qty == lit 0 0
            then c.avg_cost_by_token
            else insert e.token_id
                (nd.div (nd.add (prior_qty * prior_cost) (e.qty * e.price)) new_qty)
                c.avg_cost_by_token;
        qty_by_token = insert e.token_id new_qty c.qty_by_token;
      }

  unfoldable pub count_entry : ℕ → LedgerEntry D → Costs D → Costs D
  unfolding is_win buy_entry
  count_entry day e c =
      if ltb day (date_of e.ts) then c else if is_purchase e then buy_entry e c else record c {
        win_count = if is_win day e c then suc c.win_count else c.win_count;
        qty_by_token =
            insert e.token_id (nd.add (get_or (get e.token_id c.qty_by_token) (lit 0 0)) e.qty)
              c.qty_by_token;
      }

  unfoldable pub count_entries : ℕ → List (LedgerEntry D) → Costs D → Costs D
  unfolding count_entry
  count_entries day [] c = c
  count_entries day (e ∷ es) c = count_entries day es (count_entry day e c)

module _ {F D : Type 0} ⦃nd : Num D⦄ where
  unfoldable pub daily_roll_up : ℕ → Ledger F D → RollUp D
  unfolding count_entries
  daily_roll_up day l =
      let trades_today = filter (is_today day) l.entries in
      let costs : Costs D =
        count_entries day l.entries
          (record { avg_cost_by_token = []; qty_by_token = []; win_count = 0 }) in
      record {
        date = day;
        starting_nav = l.starting_cash;
        ending_nav = nav_usd l;
        realized = realized_pnl l;
        unrealized = unrealized_pnl l;
        fees = sum (map (λ (e : LedgerEntry D). e.fee) trades_today);
        trade_count = length trades_today;
        win_count = costs.win_count;
      }

module _ {D : Type 0} ⦃nd : Num D⦄ where
  abbrev pub is_sale_today : ℕ → LedgerEntry D → Bool
  is_sale_today day e = is_today day e && not (is_purchase e)

  count_entry_wins :
      (day : ℕ) (e : LedgerEntry D) (c : Costs D)
      → (count_entry day e c).win_count ≤ c.win_count + (if is_sale_today day e then 1 else 0)
  unfolding count_entry is_win buy_entry
  count_entry_wins day e c = ground arith

  count_entries_wins :
      (day : ℕ) (es : List (LedgerEntry D)) (c : Costs D)
      → (count_entries day es c).win_count ≤ c.win_count + count (is_sale_today day) es
  unfolding count_entries
  count_entries_wins day [] c = ground arith
  count_entries_wins day (e ∷ es) c =
      ground (arith, count_entries_wins day es (count_entry day e c), count_entry_wins day e c)

  today_split :
      (day : ℕ) (es : List (LedgerEntry D))
      → length (filter (is_today day) es)
        ≡ count (is_sale_today day) es
          + count (λ (e : LedgerEntry D). is_today day e && is_purchase e) es
  today_split day [] = refl
  today_split day (e ∷ es) = ground (arith, today_split day es)

module _ {F D : Type 0} ⦃nd : Num D⦄ where
  -- The report of a day counts as trades exactly the day's sales and purchases, and at most its
  -- sales as wins.
  pub daily_roll_up_counts :
      (day : ℕ) (l : Ledger F D)
      → let r = daily_roll_up day l in
        (r.win_count ≤ count (is_sale_today day) l.entries)
        × (r.trade_count
            ≡ count (is_sale_today day) l.entries
              + count (λ (e : LedgerEntry D). is_today day e && is_purchase e) l.entries)
  unfolding daily_roll_up
  daily_roll_up_counts day l = (
    omega (
      arith,
      count_entries_wins day l.entries
          (record { avg_cost_by_token = []; qty_by_token = []; win_count = 0 }),
    ),
    today_split day l.entries,
  )
