-- ===== src/Fundamentals/Resolvers.antt =====
-- src/poly_meridian/fundamentals/sports.py (`EloEngine`, `SportsResolver`) and
-- src/poly_meridian/fundamentals/macro.py (`MacroResolver`). The power of floats and the lower case of
-- a text are arguments; an absent text is empty. The rationale is left out.
use Prim.Native.Nat.{◌-◌ as ◌-ℕ◌, ◌+◌ as ◌+ℕ◌}
use poly_meridian.Prelude.{
  ℕ, suc, ◌≡◌, Bool, true, false, not, ◌&&◌, ◌||◌, Option, none, some, List, [], ◌∷◌, String,
  if◌then◌else◌, get_or, ltb, ◌==◌, string_eq,
}
use poly_meridian.Prelude.Chain.{◌>>=◌, require}
use poly_meridian.Prelude.Dict.{Dict, get}
use poly_meridian.Num.{Num, Maths, ◌+◌, ◌-◌, ◌*◌, ◌/◌, lit, neg, min, abs}
use poly_meridian.Domain.{Datetime, Market}
use poly_meridian.Backtest.Folds.{days}
use poly_meridian.Strategies.Fundamentals.{ProbabilityEstimate}
pub mod Known

pub record EloEngine (F : Type 0) : Type 0 where
  pub k_factor : F
  pub base_rating : F

-- `ctx.sports_metadata[condition_id]`
pub record SportsMetadata (F : Type 0) : Type 0 where
  pub home_team_id : String
  pub away_team_id : String
  pub home_advantage_elo : Option F
  pub yes_means_home_wins : Option Bool

-- `ctx.macro_metadata[condition_id]`
pub record MacroMetadata : Type 0 where
  pub event_type : String
  pub yes_means_hawkish : Option Bool

-- A row of `ctx.economic_events`: the time is none where it is not a datetime.
pub record EconomicEvent : Type 0 where
  pub event_type : String
  pub ts : Option Datetime
  pub outcome : String

module _ {F : Type 0} ⦃nf : Num F⦄ (maths : Maths F) where
  -- The probability that A beats B.
  unfoldable pub expected_score : F → F → F → F
  expected_score rating_a rating_b home_advantage =
      let adj = (rating_a + home_advantage) - rating_b in
      lit 1 0 / (lit 1 0 + maths.power (lit 10 0) (neg adj / lit 400 0))

  unfoldable pub update : F → F → F → F → EloEngine F → F × F
  unfolding expected_score
  update rating_a rating_b score_a home_advantage e =
      let expected_a = expected_score rating_a rating_b home_advantage in
      (
        rating_a + e.k_factor * (score_a - expected_a),
        rating_b + e.k_factor * ((lit 1 0 - score_a) - (lit 1 0 - expected_a)),
      )

  abbrev pub sports_estimate : SportsMetadata F → F → F → ProbabilityEstimate F
  sports_estimate meta r_home r_away =
      let p_home = expected_score r_home r_away (get_or meta.home_advantage_elo (lit 80 0)) in
      record {
        p_yes = if get_or meta.yes_means_home_wins true then p_home else lit 1 0 - p_home;
        confidence = min (lit 1 0) (lit 5 1 + abs (r_home - r_away) / lit 400 0);
      }

module _ {F D : Type 0} ⦃nf : Num F⦄ (maths : Maths F) where
  -- `SportsResolver.resolve`, with the metadata and the ratings of the context.
  unfoldable pub resolve_sports :
      Market D → Dict String (SportsMetadata F) → Dict String F → Option (ProbabilityEstimate F)
  resolve_sports m sports_metadata elo_ratings = do
    meta ← get m.condition_id sports_metadata
    _ ← require (not (meta.home_team_id == "" || meta.away_team_id == ""))
    r_home ← get meta.home_team_id elo_ratings
    r_away ← get meta.away_team_id elo_ratings
    some (sports_estimate maths meta r_home r_away)

-- A row of the given kind that is not older than the cutoff.
unfoldable pub is_recent_print : String → Datetime → EconomicEvent → Bool
is_recent_print event_type cutoff ev =
    ev.event_type == event_type && elim ev.ts [ none ↦ false | some t ↦ not (ltb t cutoff) ]

-- The loop over the events: how many were hawkish and how many dovish.
unfoldable pub count_prints : (String → String) → String → Datetime → List EconomicEvent → ℕ × ℕ
count_prints lower event_type cutoff [] = (0, 0)
count_prints lower event_type cutoff (ev ∷ evs) =
    let (hawkish, dovish) = count_prints lower event_type cutoff evs in
    if not (is_recent_print event_type cutoff ev)
    then (hawkish, dovish)
    else if lower ev.outcome == "hawkish"
    then (suc hawkish, dovish)
    else if lower ev.outcome == "dovish"
    then (hawkish, suc dovish)
    else (hawkish, dovish)

module _ {F : Type 0} ⦃nf : Num F⦄ where
  abbrev pub macro_estimate : MacroMetadata → ℕ → ℕ → ProbabilityEstimate F
  macro_estimate meta hawkish dovish =
      let hawk_ratio : F = lit hawkish 0 / lit (hawkish +ℕ dovish) 0 in
      record {
        p_yes = if get_or meta.yes_means_hawkish true then hawk_ratio else lit 1 0 - hawk_ratio;
        confidence = min (lit 85 2) (lit 3 1 + lit 1 1 * lit (hawkish +ℕ dovish) 0);
      }

module _ {F D : Type 0} ⦃nf : Num F⦄ where
  -- `MacroResolver.resolve`
  unfoldable pub resolve_macro :
      (String → String)
      → Datetime
      → Market D
      → ℕ
      → Dict String MacroMetadata
      → List EconomicEvent
      → Option (ProbabilityEstimate F)
  unfolding count_prints
  resolve_macro lower now m lookback_days macro_metadata economic_events = do
    meta ← get m.condition_id macro_metadata
    _ ← require (not (meta.event_type == ""))
    let counts = count_prints lower meta.event_type (now -ℕ days lookback_days) economic_events
    _ ← require (not (ltb (counts.0 +ℕ counts.1) 2))
    some (macro_estimate meta counts.0 counts.1)
