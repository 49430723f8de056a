-- ===== src/Risk/Policy/Condition.antt =====
-- DefaultRiskPolicy.register_market and the guard against a self-hedge in evaluate.
use poly_meridian.Prelude.{
  ◌≤◌, ◌≡◌, ◌≢◌, Bool, true, false, Option, some, List, [], ◌∷◌, ◌++◌, String, arith, count,
  string_eq, if◌then◌else◌, ◌∙◌, Bool-cases, inl, inr, ◌⊎◌, ap,
}
use poly_meridian.Prelude.Dict.{get, insert, get-insert}
use poly_meridian.Num.{Num, Convert, to_float, ◌≤?◌, lit}
use poly_meridian.Domain.{AggregatedSignal, PortfolioSnapshot, Position}
use poly_meridian.Risk.KillSwitch.{KillSwitch, observe_daily_pnl}
use poly_meridian.Risk.Limits.{is_held_in}
use poly_meridian.Risk.Policy.{
  DefaultRiskPolicy, Evaluation, type_error, decided, reject, evaluate, observed, register_market,
}
use poly_meridian.Risk.Policy.Gate.{passes, passes-Admissible, verdict_blocked}

count-middle :
    {A : Type 0} (t : A → Bool) (xs ys : List A) (x : A) → t x ≡ true → 1 ≤ count t (xs ++ x ∷ ys)
count-middle t [] ys x h = ground arith
count-middle t (z ∷ xs) ys x h = ground (arith, count-middle t xs ys x h)

module _ {F : Type 0} where
  -- Registration maps both tokens to the condition.
  register_market_tokens :
      (c y n token : String) (event : Option String) (p : DefaultRiskPolicy F)
      → (token ≡ y) ⊎ (token ≡ n)
      → get token (register_market c y n event p).token_to_condition ≡ some c
  unfolding register_market
  register_market_tokens c y n token event p h =
      let d = insert y c p.token_to_condition in
      ground (
        arith,
        get-insert {V = String} n token c d,
        get-insert {V = String} y token c p.token_to_condition,
        string_eq.beq_iff n token,
        string_eq.beq_iff y token,
      )

  register_market_limits :
      (c y n : String) (event : Option String) (p : DefaultRiskPolicy F)
      → (register_market c y n event p).limits ≡ p.limits
  unfolding register_market
  register_market_limits c y n event p = ground arith

  register_market-kill_switch :
      (c y n : String) (event : Option String) (p : DefaultRiskPolicy F)
      → (register_market c y n event p).kill_switch ≡ p.kill_switch
  unfolding register_market
  register_market-kill_switch c y n event p = ground arith

module _ {F D : Type 0} ⦃nf : Num F⦄ ⦃nd : Num D⦄ ⦃cv : Convert F D⦄ where
  held :
      (p : DefaultRiskPolicy F) (c : String) (pos : Position D)
      → c ≢ ""
      → get pos.token_id p.token_to_condition ≡ some c
      → (let qty : F = to_float pos.qty in qty ≤? lit 0 0) ≡ false
      → is_held_in F p.token_to_condition c pos ≡ true
  held p c pos named e h = ground (arith, string_eq.beq_iff c c, string_eq.beq_iff c "")

  -- While a registered market, whose condition id is not empty, has a position of positive size in either of its tokens, and one
  -- position per condition is the limit, the call on a signal of that market's condition is rejected,
  -- or raises when the kill switch is engaged once it has seen the day's P&L.
  pub evaluate_no_hedge :
      (now : F) (s : AggregatedSignal F D) (port : PortfolioSnapshot F D) (p : DefaultRiskPolicy F)
      → (c y n : String) (event : Option String) (before after : List (Position D))
        (pos : Position D)
      → c ≢ ""
      → s.condition_id ≡ c
      → p.limits.max_positions_per_condition ≤ 1
      → port.positions ≡ before ++ pos ∷ after
      → (pos.token_id ≡ y) ⊎ (pos.token_id ≡ n)
      → (let qty : F = to_float pos.qty in qty ≤? lit 0 0) ≡ false
      → (evaluate now s port (register_market c y n event p)).0
        ≡ (if (observed now port p).kill_switch.engaged then type_error else decided reject)
  unfolding evaluate
  evaluate_no_hedge now s port p c y n event before after pos named on limit held_by of_market
        positive =
      let q = register_market c y n event p in
      elim (Bool-cases (passes (observed now port q) s port)) [
        | inr blocked ↦
            ap (λ (x : Evaluation × DefaultRiskPolicy F). x.0)
              (verdict_blocked (observed now port q) s port blocked)
            ∙ ap
                (λ (k : KillSwitch F).
                  if (observe_daily_pnl now port.daily_pnl_pct k).engaged
                  then type_error
                  else decided reject)
                (register_market-kill_switch c y n event p)
        | inl fine ↦
            (let fits = (passes-Admissible (observed now port q) s port fine).condition_fits in
              let known = register_market_tokens c y n pos.token_id event p of_market in
              let mine = held q c pos named known positive in
              let one = count-middle (is_held_in F q.token_to_condition c) before after pos mine in
              let fits' = rw (on, held_by, register_market_limits c y n event p) at fits in
              absurd (omega arith))
      ]
