-- ===== src/Risk/KillSwitch.antt =====
-- src/poly_meridian/risk/kill_switch.py: the engagement state machine. `now` is `time.time()`;
-- the log calls are left out.
pub mod Latch
pub mod Window
use poly_meridian.Prelude.{
  ℕ, suc, ◌≡◌, refl, Bool, true, false, not, Option, none, some, List, [], ◌∷◌, String, leb,
  if◌then◌else◌,
}
use poly_meridian.Prelude.Dict.{Dict}
use poly_meridian.Num.{Num, ◌-◌, ◌/◌, ◌<?◌, lit, neg, abs}

pub data KillReason : Type 0 where
  daily_loss slippage_anomaly api_error_rate ws_disconnect manual wallet_balance_mismatch :
      KillReason

pub record KillSwitchConfig (F : Type 0) : Type 0 where
  pub daily_loss_trigger_pct : F
  pub abnormal_slippage_bps : F
  pub api_error_rate_threshold : F
  pub websocket_disconnect_grace_sec : F
  pub manual_override_enabled : Bool

-- A value of `_detail`.
pub data Detail (F : Type 0) : Type 0 where
  number : F → Detail F
  text : String → Detail F

pub record KillSwitch (F : Type 0) : Type 0 where
  pub config : KillSwitchConfig F
  pub engaged : Bool
  pub reason : Option KillReason
  pub engaged_at : Option F
  pub detail : Dict String (Detail F)
  pub api_error_count : ℕ
  pub api_call_count : ℕ

module _ {F : Type 0} ⦃nf : Num F⦄ where
  abbrev pub default_config : KillSwitchConfig F
  default_config = record {
    daily_loss_trigger_pct = lit 5 2;
    abnormal_slippage_bps = lit 200 0;
    api_error_rate_threshold = lit 5 2;
    websocket_disconnect_grace_sec = lit 60 0;
    manual_override_enabled = true;
  }

  -- `KillSwitch(config)`
  abbrev pub new : KillSwitchConfig F → KillSwitch F
  new config = record {
    config = config;
    engaged = false;
    reason = none;
    engaged_at = none;
    detail = [];
    api_error_count = 0;
    api_call_count = 0;
  }

  unfoldable pub engage : F → KillReason → Dict String (Detail F) → KillSwitch F → KillSwitch F
  engage now why what k =
      if k.engaged
      then k
      else record k { engaged = true; reason = some why; engaged_at = some now; detail = what }

  unfoldable pub disengage : KillSwitch F → Bool × KillSwitch F
  disengage k =
      if not k.engaged
      then (false, k)
      else (true, record k { engaged = false; reason = none; engaged_at = none; detail = [] })

  unfoldable pub observe_daily_pnl : F → F → KillSwitch F → KillSwitch F
  unfolding engage
  observe_daily_pnl now daily_pnl_pct k =
      if daily_pnl_pct <? neg k.config.daily_loss_trigger_pct
      then engage now KillReason.daily_loss
          (("daily_pnl_pct", number daily_pnl_pct)
            ∷ ("threshold", number (neg k.config.daily_loss_trigger_pct))
            ∷ [])
          k
      else k

  unfoldable pub observe_slippage : F → F → String → KillSwitch F → KillSwitch F
  unfolding engage
  observe_slippage now observed_bps token_id k =
      if k.config.abnormal_slippage_bps <? observed_bps
      then engage now KillReason.slippage_anomaly
          (("observed_bps", number observed_bps)
            ∷ ("threshold", number k.config.abnormal_slippage_bps)
            ∷ ("token_id", text token_id)
            ∷ [])
          k
      else k

  -- The quotient of two ints is a float.
  abbrev pub rate_of : ℕ → ℕ → F
  rate_of errors calls = lit errors 0 / lit calls 0

  -- A full window of twenty calls is judged, and the counters start again.
  unfoldable pub close_window : F → KillSwitch F → KillSwitch F
  unfolding engage
  close_window now k =
      let rate = rate_of k.api_error_count k.api_call_count in
      let judged : KillSwitch F =
        if k.config.api_error_rate_threshold <? rate
        then engage now KillReason.api_error_rate
            (("error_rate", number rate)
              ∷ ("threshold", number k.config.api_error_rate_threshold)
              ∷ [])
            k
        else k in
      record judged { api_error_count = 0; api_call_count = 0 }

  unfoldable pub observe_api_call : F → Bool → KillSwitch F → KillSwitch F
  unfolding close_window
  observe_api_call now ok k =
      let counted : KillSwitch F = record k {
        api_call_count = suc k.api_call_count;
        api_error_count = if ok then k.api_error_count else suc k.api_error_count;
      } in
      if leb 20 counted.api_call_count then close_window now counted else counted

  unfoldable pub observe_ws_disconnect : F → F → KillSwitch F → KillSwitch F
  unfolding engage
  observe_ws_disconnect now disconnected_for_sec k =
      if k.config.websocket_disconnect_grace_sec <? disconnected_for_sec
      then engage now KillReason.ws_disconnect
          (("disconnected_for_sec", number disconnected_for_sec)
            ∷ ("grace", number k.config.websocket_disconnect_grace_sec)
            ∷ [])
          k
      else k

  unfoldable pub manual_engage : F → String → KillSwitch F → KillSwitch F
  unfolding engage
  manual_engage now note k =
      if not k.config.manual_override_enabled
      then k
      else engage now KillReason.manual (("note", text note) ∷ []) k

  unfoldable pub observe_wallet_balance : F → F → F → F → KillSwitch F → KillSwitch F
  unfolding engage
  observe_wallet_balance now expected_usd actual_usd tol_usd k =
      if tol_usd <? abs (expected_usd - actual_usd)
      then engage now KillReason.wallet_balance_mismatch
          (("expected_usd", number expected_usd)
            ∷ ("actual_usd", number actual_usd)
            ∷ ("tol_usd", number tol_usd)
            ∷ [])
          k
      else k
