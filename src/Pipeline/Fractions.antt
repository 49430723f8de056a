-- ===== src/Pipeline/Fractions.antt =====
-- The fraction of the bankroll behind a trade: what `evaluate` stores and what `size` makes of it.
use poly_meridian.Prelude.{
  ◌≡◌, ◌≢◌, refl, ◌⊎◌, inl, inr, Bool, true, false, none, some, String, arith, string_eq, get_or,
}
use poly_meridian.Prelude.Dict.{get, get-remove, get-insert, remove, insert}
use poly_meridian.Num.{Num, Convert, Quantize, quantize, to_decimal, ◌*◌, ◌/◌, ◌<?◌, ◌≤?◌, lit, min}
use poly_meridian.Num.Order.{le_of_lt, le_refl, min_le_left, min_le_right, le_trans}
use poly_meridian.Domain.{AggregatedSignal, PortfolioSnapshot, TradeDecision, Side, OrderType}
use poly_meridian.Risk.Policy.{
  DefaultRiskPolicy, Evaluation, decided, approve, reduce, Verdict, failed, approved, refused,
  reduced_to, verdict, settle, evaluate, observed, used_size_pct, sized_decision,
}
use poly_meridian.Risk.Policy.Decisions.{evaluate-reduce}
use poly_meridian.Risk.Limits.{RiskLimits}

pub reduce-cases : (d : Evaluation) → (d ≢ decided reduce) ⊎ (d ≡ decided reduce)
reduce-cases d = ground arith

-- The call decided, and did not reject.
abbrev pub admits : Evaluation → Bool
admits (decided approve) = true
admits (decided reduce) = true
admits _ = false

module _ {F : Type 0} where
  -- No reduced size waits for its signal.
  pub record IsSettled (p : DefaultRiskPolicy F) : Type 0 where
    pub none_pending : (c : String) → get c p.reduced_size_pct ≡ none

module _ {F : Type 0} ⦃nf : Num F⦄ where
  -- Multiplying by the drift multiplier does not enlarge: a product that is positive is at most
  -- the size itself.
  abbrev pub Throttles : F → Type 0
  Throttles m = (x : F) → (lit 0 0 <? x * m) ≡ true → (x * m ≤? x) ≡ true

module _ {F D : Type 0} ⦃nf : Num F⦄ ⦃nd : Num D⦄ ⦃qd : Quantize D⦄ ⦃cv : Convert F D⦄ where
  -- The used size is at most the stored or the asked size, and at most the position cap.
  pub used_size_bounds :
      (p : DefaultRiskPolicy F) (s : AggregatedSignal F D)
      → Throttles p.drift_size_multiplier
      → (used_size_pct p s ≤? lit 0 0) ≡ false
      → ((used_size_pct p s ≤? get_or (get s.condition_id p.reduced_size_pct) s.size_pct) ≡ true)
        × ((used_size_pct p s ≤? p.limits.max_position_pct_of_bankroll) ≡ true)
  unfolding used_size_pct
  used_size_bounds p s throttles positive =
      let asked = get_or (get s.condition_id p.reduced_size_pct) s.size_pct in
      let cap_pct = p.limits.max_position_pct_of_bankroll in
      let m = p.drift_size_multiplier in
      ground (
        arith,
        min_le_left {A = F} asked cap_pct,
        min_le_right {A = F} asked cap_pct,
        throttles (min asked cap_pct),
        nf.le_not_lt (min asked cap_pct * m) (lit 0 0),
        le_trans {A = F} (min asked cap_pct * m) (min asked cap_pct) asked,
        le_trans {A = F} (min asked cap_pct * m) (min asked cap_pct) cap_pct,
      )

  -- What a trade that leaves the gate keeps of its signal.
  pub record Sized (l : RiskLimits F) (s : AggregatedSignal F D) (port : PortfolioSnapshot F D)
      (d : TradeDecision D) : Type 0 where
    pub pct : F
    pub pct_positive : (lit 0 0 <? pct) ≡ true
    pub pct_below_asked : (pct ≤? s.size_pct) ≡ true
    pub pct_below_cap : (pct ≤? l.max_position_pct_of_bankroll) ≡ true
    pub price : D
    pub priced : s.proposed_price ≡ some price
    pub same_price : d.price ≡ some price
    pub size_of : d.size ≡ quantize 2 (quantize 2 (port.nav_usd * to_decimal pct) / price)
    pub size_positive : (lit 0 0 <? d.size) ≡ true
    pub side_of : d.side ≡ Side.buy
    pub type_of : d.order_type ≡ OrderType.gtc
    pub token_of : d.token_id ≡ s.token_id

  pub sized_lem :
      (p : DefaultRiskPolicy F) (s : AggregatedSignal F D) (port : PortfolioSnapshot F D)
      (price : D) (pct : F) {d : TradeDecision D}
      → s.proposed_price ≡ some price
      → sized_decision p s port price pct ≡ some d
      → ((pct ≤? lit 0 0) ≡ false → (pct ≤? s.size_pct) ≡ true)
      → ((pct ≤? lit 0 0) ≡ false → (pct ≤? p.limits.max_position_pct_of_bankroll) ≡ true)
      → Sized p.limits s port d
  unfolding sized_decision
  sized_lem p s port price pct {d} e h asked room =
      let units = quantize 2 (quantize 2 (port.nav_usd * to_decimal pct) / price) in
      record {
        pct = pct;
        pct_positive = ground (arith, nf.le_not_lt pct (lit 0 0));
        pct_below_asked = ground arith;
        pct_below_cap = ground arith;
        price = price;
        priced = e;
        same_price = ground arith;
        size_of = ground arith;
        size_positive = ground (arith, nd.le_not_lt units (lit 0 0));
        side_of = ground arith;
        type_of = ground arith;
        token_of = ground arith;
      }

  -- What `evaluate` leaves alone, and the one size that it may store.
  pub evaluate_frame :
      (now : F) (s : AggregatedSignal F D) (port : PortfolioSnapshot F D) (p : DefaultRiskPolicy F)
      → let q = (evaluate now s port p).1 in
        (q.limits ≡ p.limits)
        × (q.drift_size_multiplier ≡ p.drift_size_multiplier)
        × ((evaluate now s port p).0 ≢ decided reduce → q.reduced_size_pct ≡ p.reduced_size_pct)
        × ((c : String)
            → get c (remove s.condition_id q.reduced_size_pct)
              ≡ get c (remove s.condition_id p.reduced_size_pct))
  unfolding evaluate
  evaluate_frame now s port p = go (verdict (observed now port p) s port)
    where
      go :
          (v : Verdict F)
          → let q = (settle s.condition_id (observed now port p) v).1 in
            (q.limits ≡ p.limits)
            × (q.drift_size_multiplier ≡ p.drift_size_multiplier)
            × ((settle s.condition_id (observed now port p) v).0 ≢ decided reduce
                → q.reduced_size_pct ≡ p.reduced_size_pct)
            × ((c : String)
                → get c (remove s.condition_id q.reduced_size_pct)
                  ≡ get c (remove s.condition_id p.reduced_size_pct))
      go failed = (refl, refl, λ _. refl, λ c. refl)
      go approved = (refl, refl, λ _. refl, λ c. refl)
      go (refused why) = (refl, refl, λ _. refl, λ c. refl)
      go (reduced_to r) = (refl, refl, λ h. absurd (h refl), λ c. remove-insert c r)
        where
          remove-insert :
              (c : String) (r : F)
              → get c (remove s.condition_id (insert s.condition_id r p.reduced_size_pct))
                ≡ get c (remove s.condition_id p.reduced_size_pct)
          remove-insert c r = ground (
            arith,
            get-remove s.condition_id c (insert s.condition_id r p.reduced_size_pct),
            get-remove s.condition_id c p.reduced_size_pct,
            get-insert s.condition_id c r p.reduced_size_pct,
          )

  -- After `evaluate`, the size that `size` starts from is at most the signal's own.
  pub stored-le :
      (now : F) (s : AggregatedSignal F D) (port : PortfolioSnapshot F D) (p : DefaultRiskPolicy F)
      → IsSettled p
      → (get_or (get s.condition_id (evaluate now s port p).1.reduced_size_pct) s.size_pct
          ≤? s.size_pct)
        ≡ true
  stored-le now s port p settled = elim (reduce-cases (evaluate now s port p).0) [
    | inl e ↦
        rw ((evaluate_frame now s port p).2 e, settled.none_pending s.condition_id)
          (le_refl {A = F} s.size_pct)
    | inr e ↦
        (let (_, (r, stored, reduction)) = evaluate-reduce now s port p e in
          rw stored (le_of_lt {A = F} r s.size_pct reduction.below_asked))
  ]
