-- ===== src/Promotion.antt =====
-- src/poly_meridian/promotion.py: the gate from paper to live trading. What the database, the files
-- of the drills and the settings answer is an argument; the texts of the report are left out.
use Prim.Native.Nat.{◌+◌ as ◌+ℕ◌}
use poly_meridian.Prelude.{
  ℕ, ◌≡◌, Bool, true, false, not, ◌&&◌, ◌||◌, Option, none, some, List, [], ◌∷◌, map, String,
  if◌then◌else◌, length, leb, ltb, ◌==◌, string_eq,
}
use poly_meridian.Num.{Num, Maths, Convert, to_float, ◌/◌, ◌<?◌, ◌≤?◌, lit, max}
use poly_meridian.Domain.{Datetime, Clock}
use poly_meridian.Backtest.Metrics.{compute_all}
use poly_meridian.Backtest.Folds.{days}
pub mod Closed

-- A query raises or returns.
pub data Query (A : Type 0) : Type 0 where
  db_error : Query A
  fetched : A → Query A

-- The evidence of a drill: no file, an old mark with its time, a file that does not parse, or whether
-- it passed and when, if the time can be read.
pub data Drill : Type 0 where
  absent : Drill
  legacy : Datetime → Drill
  unreadable : Drill
  evidence : Bool → Option Datetime → Drill

pub record Evidence (F D : Type 0) : Type 0 where
  pub oldest_order : Query (Option Datetime)
  pub pnl_daily : Query (List (Datetime × F))
  pub paper_nav : Query (Option D)
  pub drill : String → Drill
  pub slack_webhook_url : String
  pub telegram_bot_token : String
  pub telegram_chat_id : String

pub record GateConfig (F D : Type 0) : Type 0 where
  pub proposed_live_usd : D
  pub min_paper_days : ℕ
  pub min_sharpe : F
  pub max_drawdown : F

pub record CheckResult : Type 0 where
  pub name : String
  pub passed : Bool

abbrev pub check : String → Bool → CheckResult
check name passed = record { name = name; passed = passed }

-- `now - t < timedelta(days=DRILL_VALIDITY_DAYS)`
abbrev pub is_recent : Datetime → Datetime → Bool
is_recent now t = ltb now (t +ℕ days 7)

unfoldable pub drill_done : Datetime → Drill → Bool
drill_done now absent = false
drill_done now (legacy t) = is_recent now t
drill_done now unreadable = false
drill_done now (evidence passed none) = false
drill_done now (evidence passed (some t)) = passed && is_recent now t

-- At least `min_days` whole days lie between the oldest order and now.
unfoldable pub check_paper_history_age : Datetime → Query (Option Datetime) → ℕ → CheckResult
check_paper_history_age now db_error min_days = check "paper_history_age" false
check_paper_history_age now (fetched none) min_days = check "paper_history_age" false
check_paper_history_age now (fetched (some t)) min_days =
    check "paper_history_age" (leb (t +ℕ days min_days) now)

unfoldable pub check_drill : Datetime → String → Drill → CheckResult
unfolding drill_done
check_drill now name d = check name (drill_done now d)

unfoldable pub check_alerting : String → String → String → CheckResult
check_alerting slack token chat =
    check "alerting" (not (slack == "") || not (token == "") && not (chat == ""))

module _ {F : Type 0} where
  abbrev pub last_date : Datetime → List (Datetime × F) → Datetime
  last_date t [] = t
  last_date t (r ∷ rs) = last_date r.0 rs

module _ {F : Type 0} ⦃nf : Num F⦄ ⦃ck : Clock F⦄ (maths : Maths F) where
  -- Whether the daily values meet the thresholds.
  unfoldable pub metrics_pass : List (Datetime × F) → F → F → Bool
  metrics_pass [] min_sharpe max_drawdown = false
  metrics_pass (r ∷ rs) min_sharpe max_drawdown =
      let duration = max (lit 1 0) (ck.seconds_between (last_date r.0 rs) r.0) in
      let m =
        compute_all maths (map (λ (e : Datetime × F). e.1) (r ∷ rs)) [] duration (lit 86400 0) in
      (min_sharpe ≤? m.sharpe) && (m.max_drawdown <? max_drawdown)

  unfoldable pub check_paper_metrics : Query (List (Datetime × F)) → F → F → CheckResult
  unfolding metrics_pass
  check_paper_metrics db_error min_sharpe max_drawdown = check "paper_metrics" false
  check_paper_metrics (fetched rows) min_sharpe max_drawdown =
      check "paper_metrics" (not (ltb (length rows) 7) && metrics_pass rows min_sharpe max_drawdown)

module _ {F D : Type 0} ⦃nf : Num F⦄ ⦃nd : Num D⦄ ⦃cv : Convert F D⦄ where
  abbrev pub cap_ratio : D → D → F
  cap_ratio proposed nav = if lit 0 0 <? nav then to_float (proposed / nav) else lit 1 0

  unfoldable pub check_initial_cap_ratio : Query (Option D) → D → F → CheckResult
  check_initial_cap_ratio db_error proposed max_ratio = check "initial_cap" false
  check_initial_cap_ratio (fetched none) proposed max_ratio = check "initial_cap" false
  check_initial_cap_ratio (fetched (some nav)) proposed max_ratio =
      check "initial_cap" (cap_ratio proposed nav ≤? max_ratio)

-- `PromotionReport.passed`
abbrev pub report_passed : List CheckResult → Bool
report_passed [] = true
report_passed (c ∷ cs) = c.passed && report_passed cs

module _ {F D : Type 0} ⦃nf : Num F⦄ ⦃nd : Num D⦄ ⦃cv : Convert F D⦄ ⦃ck : Clock F⦄
    (maths : Maths F) where
  unfoldable pub run_gate : Datetime → Evidence F D → GateConfig F D → List CheckResult
  unfolding check_paper_history_age check_paper_metrics check_drill check_alerting
      check_initial_cap_ratio
  run_gate now e g =
      check_paper_history_age now e.oldest_order g.min_paper_days
      ∷ check_paper_metrics maths e.pnl_daily g.min_sharpe g.max_drawdown
      ∷ check_drill now "kill_switch" (e.drill "kill_switch")
      ∷ check_drill now "reconnect" (e.drill "reconnect")
      ∷ check_drill now "secrets" (e.drill "secrets")
      ∷ check_drill now "backup" (e.drill "backup")
      ∷ check_drill now "legal" (e.drill "legal")
      ∷ check_alerting e.slack_webhook_url e.telegram_bot_token e.telegram_chat_id
      ∷ check_initial_cap_ratio {F = F} e.paper_nav g.proposed_live_usd (lit 5 2)
      ∷ []
