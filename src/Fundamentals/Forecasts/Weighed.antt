-- ===== src/Fundamentals/Forecasts/Weighed.antt =====
-- PoliticsResolver.resolve and CryptoResolver.resolve: what an estimate rests on.
use Prim.Native.Nat.{◌+◌ as ◌+ℕ◌}
use poly_meridian.Prelude.{
  ◌≡◌, refl, inl, inr, ◌≤◌, true, false, some, List, [], ◌∷◌, String, length, filter, is_some,
  get_or, arith, Option-cases, ◌==◌, string_eq,
}
use poly_meridian.Prelude.Chain.{Ends, Ends-some, bind-Ends, require-Ends}
use poly_meridian.Prelude.Dict.{Dict, get}
use poly_meridian.Num.{Num, Maths, ◌<?◌, ◌≤?◌, lit}
use poly_meridian.Num.Order.{min_le_left}
use poly_meridian.Domain.{Datetime, Clock, Market}
use poly_meridian.Strategies.Fundamentals.{ProbabilityEstimate}
use poly_meridian.Fundamentals.Forecasts.{
  Poll, PoliticsResolver, PollTally, CryptoMetadata, CryptoResolver, CryptoContext, deadline_of,
  usable_poll, add_poll, tally_polls, empty_tally, politics_estimate, resolve_politics,
  resolve_crypto,
}

module _ {F : Type 0} ⦃nf : Num F⦄ where
  abbrev pub usable_polls : List (Poll F) → List (Poll F)
  usable_polls ps = filter (λ (p : Poll F). is_some (usable_poll p)) ps

module _ {F : Type 0} ⦃nf : Num F⦄ ⦃ck : Clock F⦄ (maths : Maths F) where
  -- The loop counts the polls whose share is a number between zero and one and whose time is known.
  pub tally_polls-accepted :
      (now : Datetime) (half_life : F) (ps : List (Poll F)) (t : PollTally F)
      → (tally_polls maths now half_life ps t).accepted ≡ t.accepted +ℕ length (usable_polls ps)
  unfolding tally_polls
  tally_polls-accepted now half_life [] t = omega arith
  tally_polls-accepted now half_life (p ∷ ps) t = elim (Option-cases (usable_poll p)) [
    | inl e ↦ ground (arith, e, tally_polls-accepted now half_life ps t)
    | inr (a, e) ↦
        ground (
          arith,
          e,
          tally_polls-accepted now half_life ps (add_poll maths now half_life p a.0 a.1 t),
        )
  ]

  -- Enough polls count, and together they weigh enough.
  pub record IsWeighed (now : Datetime) (polls : List (Poll F)) (r : PoliticsResolver F)
      (p : ProbabilityEstimate F) : Type 0 where
    pub enough : r.min_polls ≤ length (usable_polls polls)
    pub tally : PollTally F
    pub summed : tally ≡ tally_polls maths now r.recency_half_life_days polls (empty_tally maths)
    pub heavy : (tally.total_weight <? r.min_total_weight) ≡ false
    pub made : p ≡ politics_estimate maths tally

module _ {F D : Type 0} ⦃nf : Num F⦄ ⦃ck : Clock F⦄ (maths : Maths F) where
  -- A political estimate is made only from enough usable polls of the market with enough weight, and it
  -- is their weighted mean.
  pub resolve_politics-IsWeighed :
      (now : Datetime) (m : Market D) (all_polls : Dict String (List (Poll F)))
      (r : PoliticsResolver F)
      → Ends
          (IsWeighed maths now (get_or (get m.condition_id all_polls) []) r)
          (resolve_politics maths now m all_polls r)
  unfolding resolve_politics
  resolve_politics-IsWeighed now m all_polls r =
      let polls = get_or (get m.condition_id all_polls) [] in
      require-Ends _ _ (λ some_polls. require-Ends _ _ (λ h. Ends-some (record {
        enough = ground (
          arith,
          tally_polls-accepted maths now r.recency_half_life_days polls (empty_tally maths),
        );
        tally = tally_polls maths now r.recency_half_life_days polls (empty_tally maths);
        summed = refl;
        heavy = ground arith;
        made = refl;
      })))

  -- A symbol with a positive price and a positive target, and a deadline ahead.
  pub record IsPriced (now : Datetime) (m : Market D) (ctx : CryptoContext F)
      (p : ProbabilityEstimate F) : Type 0 where
    pub meta : CryptoMetadata F
    pub has_meta : get m.condition_id ctx.crypto_metadata ≡ some meta
    pub named : (meta.symbol == "") ≡ false
    pub target : F
    pub has_target : meta.target_price ≡ some target
    pub positive_target : (target ≤? lit 0 0) ≡ false
    pub spot : F
    pub has_spot : get meta.symbol ctx.spot_prices ≡ some spot
    pub positive_spot : (spot ≤? lit 0 0) ≡ false
    pub deadline : Datetime
    pub has_deadline : deadline_of meta.deadline_ts m.end_date_iso ≡ some deadline
    pub ahead : (ck.seconds_between deadline now ≤? lit 0 0) ≡ false
    pub confidence_bounds : (p.confidence ≤? lit 1 0) ≡ true

  -- A crypto estimate is made only with a named symbol, a positive price and target, and a deadline
  -- ahead, and its confidence is at most one.
  pub resolve_crypto-IsPriced :
      (lower : String → String) (now : Datetime) (m : Market D) (ctx : CryptoContext F)
      (r : CryptoResolver F)
      → Ends (IsPriced now m ctx) (resolve_crypto maths lower now m ctx r)
  unfolding resolve_crypto
  resolve_crypto-IsPriced lower now m ctx r = bind-Ends _ _ (λ meta has_meta.
      require-Ends _ _ (λ named. bind-Ends _ _ (λ target has_target.
        bind-Ends _ _ (λ deadline has_deadline. bind-Ends _ _ (λ spot has_spot.
          require-Ends _ _ (λ prices. require-Ends _ _ (λ ahead. require-Ends _ _ (λ spread.
            Ends-some (record {
              meta = meta;
              has_meta = has_meta;
              named = ground arith;
              target = target;
              has_target = has_target;
              positive_target = ground arith;
              spot = spot;
              has_spot = has_spot;
              positive_spot = ground arith;
              deadline = deadline;
              has_deadline = has_deadline;
              ahead = ground arith;
              confidence_bounds = min_le_left {A = F} _ _;
            })))))))))
