-- ===== src/Risk/Policy/Decisions.antt =====
-- The decisions of `evaluate` against the limits.
use poly_meridian.Prelude.{
  ◌≡◌, ◌≢◌, refl, sym, ap, ◌∙◌, ◌↔◌, ◌⊎◌, inl, inr, true, false, Option, none, some, String, arith,
  Bool-cases, Option-cases, if◌then◌else◌, string_eq,
}
use poly_meridian.Prelude.Dict.{get, get-insert_self}
use poly_meridian.Num.{Num, Convert, ◌+◌, ◌<?◌, ◌≤?◌, lit}
use poly_meridian.Num.Order.{le_refl}
use poly_meridian.Domain.{AggregatedSignal, PortfolioSnapshot}
use poly_meridian.Risk.Limits.{
  RiskLimits, Reason, check_total_exposure, check_category_exposure, check_position_size_cap,
  headroom_total, headroom_cat, reduce_size_if_breached,
}
use poly_meridian.Risk.Limits.Checks.{
  total_iff, CategoryFits, category_iff, size_cap_iff, reduction_bounds,
}
use poly_meridian.Risk.Policy.{
  DefaultRiskPolicy, Evaluation, decided, approve, reduce, Verdict, failed, approved, refused,
  reduced_to, reduce_or_refuse, size_verdict, verdict, settle, evaluate, observed,
}
use poly_meridian.Risk.Policy.Gate.{
  Admissible, refusal, passes, verdict-passes, verdict_blocked, passes-Admissible,
  Admissible-passes,
}

module _ {F : Type 0} where
  -- `settle` keeps the kind of the verdict.
  settle-approve :
      (c : String) (p : DefaultRiskPolicy F) (v : Verdict F)
      → (settle c p v).0 ≡ decided approve
      → v ≡ approved
  settle-approve c p v h = ground arith

  settle-reduce :
      (c : String) (p : DefaultRiskPolicy F) (v : Verdict F)
      → (settle c p v).0 ≡ decided reduce
      → (r : F) × (v ≡ reduced_to r) × (get c (settle c p v).1.reduced_size_pct ≡ some r)
  settle-reduce c p failed h = cc
  settle-reduce c p approved h = cc
  settle-reduce c p (refused why) h = cc
  settle-reduce c p (reduced_to r) h = (r, refl, get-insert_self c r p.reduced_size_pct)

module _ {F D : Type 0} ⦃nf : Num F⦄ where
  -- The proposed size fits the position cap and both exposure limits.
  pub record SizeFits (l : RiskLimits F) (s : AggregatedSignal F D) (port : PortfolioSnapshot F D)
      : Type 0 where
    pub cap_fits : (s.size_pct ≤? l.max_position_pct_of_bankroll) ≡ true
    pub total_fits : ((port.total_exposure_pct + s.size_pct) ≤? l.max_total_exposure_pct) ≡ true
    pub category_fits : CategoryFits s port l

  -- A reduced size is below what was asked and below the position cap. Either an exposure limit
  -- is breached, and the size is positive and within both headrooms, or it is the position cap.
  pub record Reduction (l : RiskLimits F) (s : AggregatedSignal F D) (port : PortfolioSnapshot F D)
      (r : F) : Type 0 where
    pub below_asked : (r <? s.size_pct) ≡ true
    pub below_cap : (r ≤? l.max_position_pct_of_bankroll) ≡ true
    pub headroom :
        ((r ≤? lit 0 0) ≡ false)
          × ((r ≤? headroom_total port l) ≡ true)
          × ((r ≤? headroom_cat s port l) ≡ true)
        ⊎ (r ≡ l.max_position_pct_of_bankroll)
          × (check_total_exposure s port l ≡ none)
          × (check_category_exposure s port l ≡ none)

module _ {F D : Type 0} ⦃nf : Num F⦄ ⦃nd : Num D⦄ ⦃cv : Convert F D⦄ where
  size_approved_iff :
      (l : RiskLimits F) (s : AggregatedSignal F D) (port : PortfolioSnapshot F D)
      → (size_verdict l s port ≡ approved) ↔ (
          (check_position_size_cap s l ≡ none)
          × (check_total_exposure s port l ≡ none)
          × (check_category_exposure s port l ≡ none))
  unfolding size_verdict reduce_or_refuse
  size_approved_iff l s port = ground arith

  exposure_reduced :
      (l : RiskLimits F) (s : AggregatedSignal F D) (port : PortfolioSnapshot F D) (why : Reason F)
      (r : F)
      → reduce_or_refuse l s port why ≡ reduced_to r
      → Reduction l s port r
  unfolding reduce_or_refuse
  exposure_reduced l s port why r h =
      let (some_r, positive) = taken (reduce_size_if_breached s port l) h in
      let b = reduction_bounds s port l some_r positive in
      record { below_asked = b.0; below_cap = b.1; headroom = inl (positive, b.2, b.3) }
    where
      taken :
          (o : Option F)
          → ◌≡◌ {A = Verdict F}
              (elim o [
                | none ↦ refused why
                | some pct ↦ (if pct ≤? lit 0 0 then refused why else reduced_to pct)
              ])
              (reduced_to r)
          → (o ≡ some r) × ((r ≤? lit 0 0) ≡ false)
      taken o e = ground arith

  over_cap :
      (s : AggregatedSignal F D) (l : RiskLimits F) {why : Reason F}
      → check_position_size_cap s l ≡ some why
      → (l.max_position_pct_of_bankroll <? s.size_pct) ≡ true
  unfolding check_position_size_cap
  over_cap s l e = ground arith

  size_reduced :
      (l : RiskLimits F) (s : AggregatedSignal F D) (port : PortfolioSnapshot F D) (r : F)
      → size_verdict l s port ≡ reduced_to r
      → Reduction l s port r
  unfolding size_verdict
  size_reduced l s port r h = elim (Option-cases (check_total_exposure s port l)) [
    | inr (why, over) ↦ exposure_reduced l s port why r (ground arith)
    | inl total ↦ elim (Option-cases (check_category_exposure s port l)) [
      | inr (why, over) ↦ exposure_reduced l s port why r (ground arith)
      | inl category ↦ elim (Option-cases (check_position_size_cap s l)) [
        | inl fits ↦ absurd (ground arith)
        | inr (why, over) ↦
            (let same : r ≡ l.max_position_pct_of_bankroll = ground arith in
              record {
                below_asked = rw same (over_cap s l over);
                below_cap = rw same (le_refl {A = F} l.max_position_pct_of_bankroll);
                headroom = inr (same, total, category);
              })
      ]
    ]
  ]

  not_blocked :
      (p : DefaultRiskPolicy F) (s : AggregatedSignal F D) (port : PortfolioSnapshot F D)
      → (settle s.condition_id p (verdict p s port)).0 ≢ refusal p
      → passes p s port ≡ true
  not_blocked p s port h = elim (Bool-cases (passes p s port)) [
    | inl fine ↦ fine
    | inr blocked ↦
        absurd (
          h (ap (λ (x : Evaluation × DefaultRiskPolicy F). x.0) (verdict_blocked p s port blocked)))
  ]

  -- A signal is approved exactly when the kill switch is clear once it has seen the day's P&L,
  -- every blocking check passes, and the size fits the position cap and both exposure limits.
  pub evaluate-approve_iff :
      (now : F) (s : AggregatedSignal F D) (port : PortfolioSnapshot F D) (p : DefaultRiskPolicy F)
      → ((evaluate now s port p).0 ≡ decided approve)
        ↔ (Admissible (observed now port p) s port × SizeFits p.limits s port)
  unfolding evaluate
  evaluate-approve_iff now s port p = (
    λ h.
        let q = observed now port p in
        let good = not_blocked q s port (λ e. ground arith) in
        let v = settle-approve s.condition_id q (verdict q s port) h in
        let fits = (size_approved_iff p.limits s port).0 (sym (verdict-passes q s port good) ∙ v) in
        (
          passes-Admissible q s port good,
          record {
            cap_fits = (size_cap_iff s p.limits).0 fits.0;
            total_fits = (total_iff s port p.limits).0 fits.1;
            category_fits = (category_iff s port p.limits).0 fits.2;
          },
        ),
    λ h.
        let q = observed now port p in
        let good = verdict-passes q s port (Admissible-passes q s port h.0) in
        let fits = (size_approved_iff p.limits s port).1 (
          (size_cap_iff s p.limits).1 h.1.cap_fits,
          (total_iff s port p.limits).1 h.1.total_fits,
          (category_iff s port p.limits).1 h.1.category_fits,
        ) in
        rw (good ∙ fits) refl,
  )

  -- A reduced signal is admissible, and the policy stores for its condition a size that is a
  -- reduction of the one asked.
  pub evaluate-reduce :
      (now : F) (s : AggregatedSignal F D) (port : PortfolioSnapshot F D) (p : DefaultRiskPolicy F)
      → (evaluate now s port p).0 ≡ decided reduce
      → Admissible (observed now port p) s port
        × ((r : F) × (get s.condition_id (evaluate now s port p).1.reduced_size_pct ≡ some r)
            × Reduction p.limits s port r)
  unfolding evaluate
  evaluate-reduce now s port p h =
      let q = observed now port p in
      let good = not_blocked q s port (λ e. ground arith) in
      let (r, v, stored) = settle-reduce s.condition_id q (verdict q s port) h in
      (
        passes-Admissible q s port good,
        (r, stored, size_reduced p.limits s port r (sym (verdict-passes q s port good) ∙ v)),
      )
