-- ===== src/Promotion/Closed.antt =====
-- run_gate: what a promotion rests on.
use Prim.Native.Nat.{◌+◌ as ◌+ℕ◌}
use poly_meridian.Prelude.{
  ℕ, ◌≡◌, refl, ◌≤◌, ◌<◌, true, false, Option, none, some, List, length, arith, string_eq,
}
use poly_meridian.Num.{Num, Maths, Convert, ◌≤?◌, lit}
use poly_meridian.Domain.{Datetime, Clock}
use poly_meridian.Backtest.Folds.{days}
use poly_meridian.Promotion.{
  Query, fetched, db_error, Drill, legacy, evidence, absent, unreadable, Evidence, GateConfig,
  check_paper_history_age, check_paper_metrics, check_drill, check_initial_cap_ratio, drill_done,
  metrics_pass, cap_ratio, report_passed, run_gate,
}

-- A drill was done within the last seven days: it left evidence that it passed, or the old mark.
pub data Done (now : Datetime) (d : Drill) : Type 0 where
  marked : (t : Datetime) → d ≡ legacy t → now < t +ℕ days 7 → Done now d
  proved : (t : Datetime) → d ≡ evidence true (some t) → now < t +ℕ days 7 → Done now d

drill_done-Done : (now : Datetime) (d : Drill) → drill_done now d ≡ true → Done now d
unfolding drill_done
drill_done-Done now absent h = absurd (ground arith)
drill_done-Done now (legacy t) h = marked t refl (ground arith)
drill_done-Done now unreadable h = absurd (ground arith)
drill_done-Done now (evidence passed none) h = absurd (ground arith)
drill_done-Done now (evidence true (some t)) h = proved t refl (ground arith)
drill_done-Done now (evidence false (some t)) h = absurd (ground arith)

age_lem :
    (now : Datetime) (q : Query (Option Datetime)) (min_days : ℕ)
    → (check_paper_history_age now q min_days).passed ≡ true
    → (t : Datetime) × (q ≡ fetched (some t)) × (t +ℕ days min_days ≤ now)
unfolding check_paper_history_age
age_lem now db_error min_days h = absurd (ground arith)
age_lem now (fetched none) min_days h = absurd (ground arith)
age_lem now (fetched (some t)) min_days h = (t, refl, ground arith)

module _ {F : Type 0} ⦃nf : Num F⦄ ⦃ck : Clock F⦄ (maths : Maths F) where
  metrics_lem :
      (q : Query (List (Datetime × F))) (min_sharpe max_dd : F)
      → (check_paper_metrics maths q min_sharpe max_dd).passed ≡ true
      → (rows : List (Datetime × F)) × (q ≡ fetched rows)
        × (7 ≤ length rows)
        × (metrics_pass maths rows min_sharpe max_dd ≡ true)
  unfolding check_paper_metrics
  metrics_lem db_error min_sharpe max_dd h = absurd (ground arith)
  metrics_lem (fetched rows) min_sharpe max_dd h = (rows, refl, ground arith, ground arith)

module _ {F D : Type 0} ⦃nf : Num F⦄ ⦃nd : Num D⦄ ⦃cv : Convert F D⦄ where
  cap_lem :
      (q : Query (Option D)) (proposed : D) (most : F)
      → (check_initial_cap_ratio q proposed most).passed ≡ true
      → (nav : D) × (q ≡ fetched (some nav)) × ((cap_ratio proposed nav ≤? most) ≡ true)
  unfolding check_initial_cap_ratio
  cap_lem db_error proposed most h = absurd (ground arith)
  cap_lem (fetched none) proposed most h = absurd (ground arith)
  cap_lem (fetched (some nav)) proposed most h = (nav, refl, ground arith)

module _ {F D : Type 0} ⦃nf : Num F⦄ ⦃nd : Num D⦄ ⦃cv : Convert F D⦄ ⦃ck : Clock F⦄
    (maths : Maths F) where
  -- Every source answered, and every condition of a promotion is met.
  pub record IsPromotable (now : Datetime) (e : Evidence F D) (g : GateConfig F D) : Type 0 where
    pub oldest : Datetime
    pub has_orders : e.oldest_order ≡ fetched (some oldest)
    pub old_enough : oldest +ℕ days g.min_paper_days ≤ now
    pub rows : List (Datetime × F)
    pub has_days : e.pnl_daily ≡ fetched rows
    pub enough_days : 7 ≤ length rows
    pub performs : metrics_pass maths rows g.min_sharpe g.max_drawdown ≡ true
    pub kill_switch_drill : Done now (e.drill "kill_switch")
    pub reconnect_drill : Done now (e.drill "reconnect")
    pub secrets_drill : Done now (e.drill "secrets")
    pub backup_drill : Done now (e.drill "backup")
    pub legal_review : Done now (e.drill "legal")
    pub nav : D
    pub has_nav : e.paper_nav ≡ fetched (some nav)
    pub small : (cap_ratio {F = F} g.proposed_live_usd nav ≤? lit 5 2) ≡ true

  -- The gate fails closed: it passes only when the database answered every query, the paper history is
  -- old and good enough, each of the five drills was done within seven days, and the proposed capital
  -- is at most a twentieth of the paper value.
  pub run_gate-IsPromotable :
      (now : Datetime) (e : Evidence F D) (g : GateConfig F D)
      → report_passed (run_gate maths now e g) ≡ true
      → IsPromotable now e g
  unfolding run_gate check_drill
  run_gate-IsPromotable now e g h =
      let (oldest, has_orders, old_enough) =
        age_lem now e.oldest_order g.min_paper_days (ground arith) in
      let (rows, has_days, enough_days, performs) =
        metrics_lem maths e.pnl_daily g.min_sharpe g.max_drawdown (ground arith) in
      let (nav, has_nav, small) =
        cap_lem {F = F} e.paper_nav g.proposed_live_usd (lit 5 2) (ground arith) in
      record {
        oldest = oldest;
        has_orders = has_orders;
        old_enough = old_enough;
        rows = rows;
        has_days = has_days;
        enough_days = enough_days;
        performs = performs;
        kill_switch_drill = drill_done-Done now (e.drill "kill_switch") (ground arith);
        reconnect_drill = drill_done-Done now (e.drill "reconnect") (ground arith);
        secrets_drill = drill_done-Done now (e.drill "secrets") (ground arith);
        backup_drill = drill_done-Done now (e.drill "backup") (ground arith);
        legal_review = drill_done-Done now (e.drill "legal") (ground arith);
        nav = nav;
        has_nav = has_nav;
        small = small;
      }
