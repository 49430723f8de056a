-- ===== src/Strategies/Arbitrage/Gap.antt =====
-- ArbitrageStrategy.evaluate: when a signal is sent, and which.
use poly_meridian.Prelude.{
  ◌≡◌, ◌↔◌, ◌∙◌, ap, refl, true, some, String, arith, string_eq, if◌then◌else◌, Option-cases, inl,
  inr,
}
use poly_meridian.Prelude.Chain.{◌>>=◌, require, Ends, Ends-some, bind-Ends, require-Ends}
use poly_meridian.Prelude.Dict.{Dict, get}
use poly_meridian.Num.{Num, Convert, to_float, ◌+◌, ◌-◌, ◌*◌, ◌<?◌, ◌≤?◌, lit}
use poly_meridian.Domain.{Datetime, Market, Action}
use poly_meridian.Book.{LocalBook}
use poly_meridian.Book.Levels.{IsLowest, best_ask_iff}
use poly_meridian.Aggregator.{StrategySignal}
use poly_meridian.Strategies.Arbitrage.{
  ArbitrageStrategy, Rationale, top_ask, raw_edge, net_edge_bps, signal_of, evaluate,
}

module _ {D : Type 0} ⦃nd : Num D⦄ where
  offered :
      (books : Dict String (LocalBook D)) (token : String) (top : D × D)
      → top_ask books token ≡ some top
      → (b : LocalBook D) × (get token books ≡ some b) × IsLowest top b.asks
  offered books token top h = elim (Option-cases (get token books)) [
    | inl missing ↦ absurd (ground arith)
    | inr (b, known) ↦ (b, known, (best_ask_iff b top).0 (ground arith))
  ]

module _ {F D : Type 0} ⦃nf : Num F⦄ ⦃nd : Num D⦄ ⦃cv : Convert F D⦄ where
  -- The book of each token is known, and these are its lowest asks. Against the dollar that one of
  -- the two tokens pays, buying both at these asks saves at least the threshold and, in basis points
  -- and after a taker fee on each leg, at least the least edge.
  pub record HasGap (m : Market D) (s : ArbitrageStrategy F D) (yes_top no_top : D × D)
      : Type 0 where
    pub enabled : s.enabled ≡ true
    pub yes_book : LocalBook D
    pub no_book : LocalBook D
    pub yes_known : get m.yes_token_id s.books ≡ some yes_book
    pub no_known : get m.no_token_id s.books ≡ some no_book
    pub yes_lowest : IsLowest yes_top yes_book.asks
    pub no_lowest : IsLowest no_top no_book.asks
    pub saves :
        (let cost : F = to_float (yes_top.0 + no_top.0) in
          s.imbalance_threshold ≤? (lit 1 0 - cost))
        ≡ true
    pub pays :
        (let cost : F = to_float (yes_top.0 + no_top.0) in
          s.min_edge_after_fees_bps
          ≤? ((lit 1 0 - cost) * lit 10000 0 - s.default_taker_fee_bps * lit 2 0))
        ≡ true

  -- A purchase of the yes token with what is left of the dollar as its edge, which carries the no
  -- token as its partner, both prices, and the smaller of the two sizes.
  pub record BuysBoth (now : Datetime) (m : Market D) (s : ArbitrageStrategy F D)
      (yes_top no_top : D × D) (g : StrategySignal (Rationale F) F) : Type 0 where
    pub at : g.ts ≡ now
    pub named : g.strategy ≡ "arbitrage"
    pub of_market : g.condition_id ≡ m.condition_id
    pub buys_yes : (g.suggested_action ≡ Action.buy_yes) × (g.token_id ≡ m.yes_token_id)
    pub certain : g.conviction ≡ s.conviction_default
    pub edge_of : g.edge ≡ lit 1 0 - to_float (yes_top.0 + no_top.0)
    pub partner : g.rationale.partner_token ≡ m.no_token_id
    pub prices :
        (g.rationale.yes_ask ≡ to_float yes_top.0) × (g.rationale.no_ask ≡ to_float no_top.0)
    pub shown :
        (g.rationale.total_ask ≡ to_float (yes_top.0 + no_top.0))
        × (g.rationale.raw_edge ≡ lit 1 0 - to_float (yes_top.0 + no_top.0))
        × (g.rationale.net_edge_bps
            ≡ (lit 1 0 - to_float (yes_top.0 + no_top.0)) * lit 10000 0
              - s.default_taker_fee_bps * lit 2 0)
    pub depth :
        g.rationale.depth_min_units
        ≡ to_float (if no_top.1 <? yes_top.1 then no_top.1 else yes_top.1)

  signal_of-BuysBoth :
      (now : Datetime) (m : Market D) (s : ArbitrageStrategy F D) (yes_top no_top : D × D)
      → BuysBoth now m s yes_top no_top (signal_of now m s yes_top no_top)
  signal_of-BuysBoth now m s yes_top no_top = record {
    at = refl;
    named = refl;
    of_market = refl;
    buys_yes = (refl, refl);
    certain = refl;
    edge_of = refl;
    partner = refl;
    prices = (refl, refl);
    shown = (refl, refl, refl);
    depth = refl;
  }

  sound :
      (now : Datetime) (m : Market D) (s : ArbitrageStrategy F D)
      → Ends
          (λ g.
            (yes_top : D × D) × (no_top : D × D) × HasGap m s yes_top no_top
            × BuysBoth now m s yes_top no_top g)
          (evaluate now m s)
  unfolding evaluate
  sound now m s = require-Ends _ _ (λ enabled. bind-Ends _ _ (λ yes_top yes_offered.
      bind-Ends _ _ (λ no_top no_offered. require-Ends _ _ (λ gap. require-Ends _ _ (λ pays.
        Ends-some (
          let (yes_book, yes_known, yes_lowest) =
            offered s.books m.yes_token_id yes_top yes_offered in
          let (no_book, no_known, no_lowest) = offered s.books m.no_token_id no_top no_offered in
          (
            yes_top,
            no_top,
            record {
              enabled = enabled;
              yes_book = yes_book;
              no_book = no_book;
              yes_known = yes_known;
              no_known = no_known;
              yes_lowest = yes_lowest;
              no_lowest = no_lowest;
              saves = ground (arith, nf.le_not_lt s.imbalance_threshold (raw_edge yes_top no_top));
              pays = ground (
                arith,
                nf.le_not_lt s.min_edge_after_fees_bps
                    (net_edge_bps s.default_taker_fee_bps yes_top no_top),
              );
            },
            signal_of-BuysBoth now m s yes_top no_top,
          )))))))

  complete :
      (now : Datetime) (m : Market D) (s : ArbitrageStrategy F D) (yes_top no_top : D × D)
      → HasGap m s yes_top no_top
      → evaluate now m s ≡ some (signal_of now m s yes_top no_top)
  unfolding evaluate ◌>>=◌ require
  complete now m s yes_top no_top h =
      let yes_best = (best_ask_iff h.yes_book yes_top).1 h.yes_lowest in
      let no_best = (best_ask_iff h.no_book no_top).1 h.no_lowest in
      ground (
        arith,
        h.enabled,
        h.yes_known,
        h.no_known,
        yes_best,
        no_best,
        h.saves,
        h.pays,
        nf.le_not_lt s.imbalance_threshold (raw_edge yes_top no_top),
        nf.le_not_lt s.min_edge_after_fees_bps
            (net_edge_bps s.default_taker_fee_bps yes_top no_top),
      )

  BuysBoth-signal_of :
      (now : Datetime) (m : Market D) (s : ArbitrageStrategy F D) (yes_top no_top : D × D)
      (g : StrategySignal (Rationale F) F)
      → BuysBoth now m s yes_top no_top g
      → signal_of now m s yes_top no_top ≡ g
  BuysBoth-signal_of now m s yes_top no_top g b = ground (
    arith, b.at, b.named, b.of_market, b.buys_yes, b.certain, b.edge_of, b.partner, b.prices,
    b.shown, b.depth,
  )

  -- The strategy sends a signal exactly when it is enabled, the books of both tokens have lowest asks,
  -- what buying both at these asks leaves of a dollar is at least the threshold and, after a taker
  -- fee on each leg, at least the least edge, and the signal is the one that buys both at these asks.
  pub evaluate-HasGap :
      (now : Datetime) (m : Market D) (s : ArbitrageStrategy F D)
      (g : StrategySignal (Rationale F) F)
      → (evaluate now m s ≡ some g) ↔ (
          (yes_top : D × D) × (no_top : D × D) × HasGap m s yes_top no_top
          × BuysBoth now m s yes_top no_top g)
  evaluate-HasGap now m s g = (
    (sound now m s).each g,
    λ h.
        let (yes_top, no_top, gap, b) = h in
        complete now m s yes_top no_top gap
        ∙ ap (λ (x : StrategySignal (Rationale F) F). some x)
            (BuysBoth-signal_of now m s yes_top no_top g b),
  )
