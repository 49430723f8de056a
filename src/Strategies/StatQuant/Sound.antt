-- ===== src/Strategies/StatQuant/Sound.antt =====
-- StatQuantStrategy: what holds of every signal that it sends.
use poly_meridian.Prelude.{
  ◌≡◌, refl, ◌⊎◌, inl, inr, true, Option, none, some, List, [], ◌∷◌, String, if◌then◌else◌, All,
  arith, Bool-cases, string_eq,
}
use poly_meridian.Prelude.Dict.{Dict}
use mathlib.Core.Path.{subst}
use poly_meridian.Prelude.Chain.{Ends, Ends-some, bind-Ends, require-Ends}
use mathlib.Core.Option.{some-injective}
use poly_meridian.Num.{Num, Maths, Convert, to_float, ◌+◌, ◌<?◌, ◌≤?◌, lit, min}
use poly_meridian.Num.Order.{min_le_left, le_max_left, le_refl, le_trans, le_of_lt, le_of_not_lt}
use poly_meridian.Domain.{Datetime, Clock, Action, Market}
use poly_meridian.Book.{LocalBook}
use poly_meridian.Features.{ask_of}
use poly_meridian.Aggregator.{StrategySignal}
use poly_meridian.Strategies.StatQuant.{
  StatQuantStrategy, Rationale, Sub, token_of, bet, signal_of, trend_action, leaning, candidates,
  evaluate, strongest, strongest_from, with_candidate, mean_reversion_signal, momentum_signal,
  vol_breakout_signal, time_decay_signal,
}

module _ {F D : Type 0} ⦃nf : Num F⦄ ⦃nd : Num D⦄ ⦃cv : Convert F D⦄ where
  -- A signal buys one of the market's two tokens, at that token's best ask, with a conviction of at
  -- most one; the probability it claims is at least a hundredth.
  pub record IsBuyable (books : Dict String (LocalBook D)) (m : Market D)
      (g : StrategySignal (Rationale F) F) : Type 0 where
    pub buys : (g.suggested_action ≡ Action.buy_yes) ⊎ (g.suggested_action ≡ Action.buy_no)
    pub token : g.token_id ≡ token_of g.suggested_action m
    pub price : D
    pub offered : ask_of books g.token_id ≡ some price
    pub at_ask : g.rationale.best_ask ≡ to_float price
    pub certain : (g.conviction ≤? lit 1 0) ≡ true
    pub likely : (lit 1 2 ≤? g.rationale.our_p_long) ≡ true

  signal_of-IsBuyable :
      (now : Datetime) (m : Market D) (books : Dict String (LocalBook D)) (sub : Sub F)
      (action : Action) (price : D) (x edge cap : F)
      → (action ≡ Action.buy_yes) ⊎ (action ≡ Action.buy_no)
      → ask_of books (token_of action m) ≡ some price
      → IsBuyable books m (signal_of now m sub action price (min (lit 1 0) x) edge cap)
  signal_of-IsBuyable now m books sub action price x edge cap buys offered = record {
    buys = buys;
    token = refl;
    price = price;
    offered = offered;
    at_ask = refl;
    certain = min_le_left {A = F} (lit 1 0) x;
    likely = le_max_left {A = F} (lit 1 2) (min (lit 99 2) (to_float price + edge));
  }

module _ {F : Type 0} ⦃nf : Num F⦄ where
  leaning-buys :
      (threshold yes_p : F) (action : Action)
      → leaning threshold yes_p ≡ some action
      → (action ≡ Action.buy_yes) ⊎ (action ≡ Action.buy_no)
  leaning-buys threshold yes_p action e = ground arith

module _ {F D : Type 0} ⦃nf : Num F⦄ ⦃nd : Num D⦄ ⦃cv : Convert F D⦄ where
  bet-Ends :
      (now : Datetime) (m : Market D) (books : Dict String (LocalBook D)) (sub : Sub F)
      (action : Action) (x floor edge cap : F)
      → (action ≡ Action.buy_yes) ⊎ (action ≡ Action.buy_no)
      → Ends (IsBuyable books m) (bet now m books sub action (min (lit 1 0) x) floor edge cap)
  unfolding bet
  bet-Ends now m books sub action x floor edge cap buys = bind-Ends _ _ (λ price offered.
      require-Ends _ _ (λ fine.
        Ends-some (signal_of-IsBuyable now m books sub action price x edge cap buys offered)))

  momentum_signal-Ends :
      (now : Datetime) (m : Market D) (s : StatQuantStrategy F D)
      → Ends (IsBuyable s.books m) (momentum_signal now m s)
  unfolding momentum_signal
  momentum_signal-Ends now m s = bind-Ends _ _ (λ w known. require-Ends _ _ (λ long.
      bind-Ends _ _ (λ ret moved. require-Ends _ _ (λ far.
        require-Ends _ _
          (λ traded. bet-Ends now m s.books _ (trend_action ret) _ _ _ _ (ground arith))))))

  time_decay_signal-Ends :
      ⦃ck : Clock F⦄ (now : Datetime) (m : Market D) (s : StatQuantStrategy F D)
      → Ends (IsBuyable s.books m) (time_decay_signal now m s)
  unfolding time_decay_signal
  time_decay_signal-Ends now m s = bind-Ends _ _ (λ hours dated. require-Ends _ _ (λ near.
      bind-Ends _ _ (λ yes_mid yes. bind-Ends _ _ (λ no_mid no. bind-Ends _ _ (λ action leans.
        bet-Ends now m s.books _ action _ _ _ _
          (leaning-buys s.config.td_price_deviation_threshold (to_float yes_mid) action leans))))))

module _ {F D : Type 0} ⦃nf : Num F⦄ ⦃nd : Num D⦄ ⦃cv : Convert F D⦄ (maths : Maths F) where
  mean_reversion_signal-Ends :
      (now : Datetime) (m : Market D) (s : StatQuantStrategy F D)
      → Ends (IsBuyable s.books m) (mean_reversion_signal maths now m s)
  unfolding mean_reversion_signal
  mean_reversion_signal-Ends now m s = bind-Ends _ _ (λ w known. require-Ends _ _ (λ long.
      bind-Ends _ _ (λ z scored. require-Ends _ _ (λ far.
        bet-Ends now m s.books _ (if lit 0 0 <? z then Action.buy_no else Action.buy_yes) _ _ _ _
          (ground arith)))))

  vol_breakout_signal-Ends :
      (now : Datetime) (m : Market D) (s : StatQuantStrategy F D)
      → Ends (IsBuyable s.books m) (vol_breakout_signal maths now m s)
  unfolding vol_breakout_signal
  vol_breakout_signal-Ends now m s = bind-Ends _ _ (λ w known. require-Ends _ _ (λ full.
      require-Ends _ _ (λ calm.
        require-Ends _ _
          (λ wild. require-Ends _ _ (λ moved. bet-Ends now m s.books _ _ _ _ _ _ (ground arith))))))

module _ {R F : Type 0} ⦃nf : Num F⦄ where
  -- No signal of a list is stronger than this one.
  abbrev pub IsStrongest : List (StrategySignal R F) → StrategySignal R F → Type 0
  IsStrongest cs g = All (λ (c : StrategySignal R F). (c.conviction ≤? g.conviction) ≡ true) cs

  strongest_from-step :
      (g c : StrategySignal R F) (cs : List (StrategySignal R F))
      → strongest_from g (c ∷ cs)
        ≡ (if g.conviction <? c.conviction then strongest_from c cs else strongest_from g cs)
  unfolding strongest_from
  strongest_from-step g c cs = refl

  strongest_from-IsStrongest :
      (g : StrategySignal R F) (cs : List (StrategySignal R F))
      → IsStrongest (g ∷ cs) (strongest_from g cs)
  unfolding strongest_from
  strongest_from-IsStrongest g [] = (le_refl {A = F} g.conviction, tt)
  strongest_from-IsStrongest g (c ∷ cs) = elim (Bool-cases (g.conviction <? c.conviction)) [
    | inl more ↦
        (let (first, rest) = strongest_from-IsStrongest c cs in
          let top = strongest_from c cs in
          let step : top ≡ strongest_from g (c ∷ cs) = ground (arith, strongest_from-step g c cs) in
          subst (IsStrongest (g ∷ c ∷ cs)) step (
            le_trans {A = F} g.conviction c.conviction top.conviction
                (le_of_lt {A = F} g.conviction c.conviction more) first,
            (first, rest),
          ))
    | inr less ↦
        (let (first, rest) = strongest_from-IsStrongest g cs in
          let top = strongest_from g cs in
          let step : top ≡ strongest_from g (c ∷ cs) = ground (arith, strongest_from-step g c cs) in
          subst (IsStrongest (g ∷ c ∷ cs)) step (
            first,
            (
              le_trans {A = F} c.conviction g.conviction top.conviction
                  (le_of_not_lt {A = F} c.conviction g.conviction less) first,
              rest,
            ),
          ))
  ]

  strongest_from-keeps :
      (P : StrategySignal R F → Type 0) (g : StrategySignal R F) (cs : List (StrategySignal R F))
      → P g
      → All P cs
      → P (strongest_from g cs)
  unfolding strongest_from
  strongest_from-keeps P g [] h hs = h
  strongest_from-keeps P g (c ∷ cs) h (k, hs) = elim (Bool-cases (g.conviction <? c.conviction)) [
    | inl more ↦ rw (strongest_from, more) (strongest_from-keeps P c cs k hs)
    | inr less ↦ rw (strongest_from, less) (strongest_from-keeps P g cs h hs)
  ]

module _ {F D : Type 0} ⦃nf : Num F⦄ ⦃nd : Num D⦄ ⦃cv : Convert F D⦄ where
  with_candidate-All :
      (books : Dict String (LocalBook D)) (m : Market D)
      (o : Option (StrategySignal (Rationale F) F)) (cs : List (StrategySignal (Rationale F) F))
      → Ends (IsBuyable books m) o
      → All (IsBuyable books m) cs
      → All (IsBuyable books m) (with_candidate o cs)
  with_candidate-All books m none cs h hs = hs
  with_candidate-All books m (some g) cs h hs = (h.each g refl, hs)

module _ {F D : Type 0} ⦃nf : Num F⦄ ⦃nd : Num D⦄ ⦃cv : Convert F D⦄ ⦃ck : Clock F⦄
    (maths : Maths F) where
  candidates-All :
      (now : Datetime) (m : Market D) (s : StatQuantStrategy F D)
      → All (IsBuyable s.books m) (candidates maths now m s)
  unfolding candidates
  candidates-All now m s =
      with_candidate-All s.books m _ _ (mean_reversion_signal-Ends maths now m s) (
        with_candidate-All s.books m _ _ (momentum_signal-Ends now m s) (
          with_candidate-All s.books m _ _ (vol_breakout_signal-Ends maths now m s)
            (with_candidate-All s.books m _ [] (time_decay_signal-Ends now m s) tt)))

  strongest_lem :
      (books : Dict String (LocalBook D)) (m : Market D)
      (cs : List (StrategySignal (Rationale F) F)) (g : StrategySignal (Rationale F) F)
      → All (IsBuyable books m) cs
      → strongest cs ≡ some g
      → IsBuyable books m g × IsStrongest cs g
  unfolding strongest
  strongest_lem books m [] g hs e = absurd (ground arith)
  strongest_lem books m (c ∷ cs) g hs e =
      subst (λ (k : StrategySignal (Rationale F) F). IsBuyable books m k × IsStrongest (c ∷ cs) k)
        (some-injective (strongest_from c cs) g e)
        (strongest_from-keeps (IsBuyable books m) c cs hs.0 hs.1, strongest_from-IsStrongest c cs)

  -- A signal that the strategy sends buys one of the market's tokens at that token's best ask, with a
  -- conviction of at most one and a claimed probability of at least a hundredth, and none of the
  -- four rules has a stronger signal.
  pub evaluate-IsBuyable :
      (now : Datetime) (m : Market D) (s : StatQuantStrategy F D)
      (g : StrategySignal (Rationale F) F)
      → evaluate maths now m s ≡ some g
      → IsBuyable s.books m g × IsStrongest (candidates maths now m s) g
  unfolding evaluate
  evaluate-IsBuyable now m s g e =
      strongest_lem s.books m (candidates maths now m s) g (candidates-All now m s) (ground arith)
