-- ===== src/Risk/KillSwitch/Window.antt =====
-- The API error window of KillSwitch.observe_api_call.
use poly_meridian.Prelude.{◌≡◌, Bool, false, not, List, [], ◌∷◌, arith, length, count}
use Prim.Native.Nat.{◌+◌}
use poly_meridian.Num.{Num, ◌<?◌}
use poly_meridian.Risk.KillSwitch.{KillSwitch, observe_api_call, rate_of}

-- A call with the time at which it ends: did it succeed?
abbrev pub Outcome : Type 0 → Type 0
Outcome F = F × Bool

module _ {F : Type 0} ⦃nf : Num F⦄ where
  abbrev pub is_failure : Outcome F → Bool
  is_failure c = not c.1

  unfoldable pub observe_calls : List (Outcome F) → KillSwitch F → KillSwitch F
  unfolding observe_api_call
  observe_calls [] k = k
  observe_calls (c ∷ cs) k = observe_calls cs (observe_api_call c.0 c.1 k)

  window_closes :
      (c : Outcome F) (cs : List (Outcome F)) (k : KillSwitch F)
      → k.engaged ≡ false
      → k.api_call_count + length (c ∷ cs) ≡ 20
      → let j = observe_calls (c ∷ cs) k in
        (j.engaged ≡ (
          k.config.api_error_rate_threshold
          <? rate_of (k.api_error_count + count is_failure (c ∷ cs)) 20))
        × (j.api_call_count ≡ 0)
        × (j.api_error_count ≡ 0)
  unfolding observe_calls
  window_closes c [] k clear full = ground arith
  window_closes c (d ∷ cs) k clear full =
      ground (arith, window_closes d cs (observe_api_call c.0 c.1 k))

  -- From a clear switch at the start of a window, twenty calls engage the switch exactly when
  -- the share of failures among them is over the threshold, and a new window starts.
  pub observe_calls_window :
      (cs : List (Outcome F)) (k : KillSwitch F)
      → k.engaged ≡ false
      → k.api_call_count ≡ 0
      → k.api_error_count ≡ 0
      → length cs ≡ 20
      → let j = observe_calls cs k in
        (j.engaged ≡ (k.config.api_error_rate_threshold <? rate_of (count is_failure cs) 20))
        × (j.api_call_count ≡ 0)
        × (j.api_error_count ≡ 0)
  observe_calls_window [] k clear calls errors full = absurd (omega arith)
  observe_calls_window (c ∷ cs) k clear calls errors full =
      ground (arith, window_closes c cs k clear)
