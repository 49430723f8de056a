-- ===== src/Fundamentals/Resolvers/Known.antt =====
-- SportsResolver.resolve and MacroResolver.resolve: what an estimate rests on.
use Prim.Native.Nat.{◌-◌ as ◌-ℕ◌, ◌+◌ as ◌+ℕ◌}
use mathlib.Core.Path.{subst}
use poly_meridian.Prelude.{
  sym, ℕ, ◌≡◌, refl, ◌≤◌, true, false, ◌&&◌, ◌||◌, some, List, [], ◌∷◌, String, length, filter,
  arith, ◌==◌, string_eq,
}
use poly_meridian.Prelude.Chain.{Ends, Ends-some, bind-Ends, require-Ends}
use poly_meridian.Prelude.Dict.{Dict, get}
use poly_meridian.Num.{Num, Maths, ◌≤?◌, lit}
use poly_meridian.Num.Order.{min_le_left}
use poly_meridian.Domain.{Datetime, Market}
use poly_meridian.Backtest.Folds.{days}
use poly_meridian.Strategies.Fundamentals.{ProbabilityEstimate}
use poly_meridian.Fundamentals.Resolvers.{
  SportsMetadata, MacroMetadata, EconomicEvent, sports_estimate, resolve_sports, is_recent_print,
  count_prints, resolve_macro,
}

module _ {F D : Type 0} ⦃nf : Num F⦄ (maths : Maths F) where
  -- Both teams are named and rated, and the estimate is the one of their ratings.
  pub record IsRated (m : Market D) (ms : Dict String (SportsMetadata F)) (elo : Dict String F)
      (p : ProbabilityEstimate F) : Type 0 where
    pub meta : SportsMetadata F
    pub has_meta : get m.condition_id ms ≡ some meta
    pub named : (meta.home_team_id == "" || meta.away_team_id == "") ≡ false
    pub r_home : F
    pub r_away : F
    pub home_rated : get meta.home_team_id elo ≡ some r_home
    pub away_rated : get meta.away_team_id elo ≡ some r_away
    pub made : p ≡ sports_estimate maths meta r_home r_away
    pub confidence_bounds : (p.confidence ≤? lit 1 0) ≡ true

  -- A sports estimate is made only from the metadata of the market and the ratings of two named
  -- teams, and its confidence is at most one.
  pub resolve_sports-IsRated :
      (m : Market D) (ms : Dict String (SportsMetadata F)) (elo : Dict String F)
      → Ends (IsRated m ms elo) (resolve_sports maths m ms elo)
  unfolding resolve_sports
  resolve_sports-IsRated m ms elo = bind-Ends _ _ (λ meta has_meta. require-Ends _ _ (λ named.
      bind-Ends _ _ (λ r_home home_rated. bind-Ends _ _ (λ r_away away_rated. Ends-some (record {
        meta = meta;
        has_meta = has_meta;
        named = ground arith;
        r_home = r_home;
        r_away = r_away;
        home_rated = home_rated;
        away_rated = away_rated;
        made = refl;
        confidence_bounds = min_le_left {A = F} _ _;
      })))))

-- The rows with the outcome, of the given kind and not older than the cutoff.
abbrev pub prints_of :
    (String → String) → String → Datetime → String → List EconomicEvent → List EconomicEvent
prints_of lower event_type cutoff outcome evs =
    filter
      (λ (ev : EconomicEvent). is_recent_print event_type cutoff ev && lower ev.outcome == outcome)
      evs

exclusive : (s : String) → (s == "hawkish") ≡ true → (s == "dovish") ≡ false
exclusive s h =
    subst (λ (t : String). (t == "dovish") ≡ false) (sym ((string_eq.beq_iff s "hawkish").0 h)) refl

-- The loop counts the recent rows of either outcome.
pub count_prints-counts :
    (lower : String → String) (event_type : String) (cutoff : Datetime) (evs : List EconomicEvent)
    → count_prints lower event_type cutoff evs ≡ (
      length (prints_of lower event_type cutoff "hawkish" evs),
      length (prints_of lower event_type cutoff "dovish" evs),
    )
unfolding count_prints
count_prints-counts lower event_type cutoff [] = refl
count_prints-counts lower event_type cutoff (ev ∷ evs) =
    let ih = count_prints-counts lower event_type cutoff evs in
    ground (arith, ih, exclusive (lower ev.outcome))

module _ {F D : Type 0} ⦃nf : Num F⦄ where
  -- At least two recent rows decided, and the estimate is the one of their counts.
  pub record IsCounted (lower : String → String) (now : Datetime) (m : Market D) (lookback : ℕ)
      (ms : Dict String MacroMetadata) (evs : List EconomicEvent) (p : ProbabilityEstimate F)
      : Type 0 where
    pub meta : MacroMetadata
    pub has_meta : get m.condition_id ms ≡ some meta
    pub named : (meta.event_type == "") ≡ false
    pub enough :
        2
        ≤ (count_prints lower meta.event_type (now -ℕ days lookback) evs).0
          +ℕ (count_prints lower meta.event_type (now -ℕ days lookback) evs).1
    pub confidence_bounds : (p.confidence ≤? lit 85 2) ≡ true

  -- A macro estimate is made only from at least two recent rows of the market's kind of event, and its
  -- confidence is at most 0.85.
  pub resolve_macro-IsCounted :
      (lower : String → String) (now : Datetime) (m : Market D) (lookback : ℕ)
      (ms : Dict String MacroMetadata) (evs : List EconomicEvent)
      → Ends (IsCounted lower now m lookback ms evs) (resolve_macro lower now m lookback ms evs)
  unfolding resolve_macro
  resolve_macro-IsCounted lower now m lookback ms evs = bind-Ends _ _ (λ meta has_meta.
      require-Ends _ _ (λ named. require-Ends _ _ (λ enough. Ends-some (record {
        meta = meta;
        has_meta = has_meta;
        named = ground arith;
        enough = ground arith;
        confidence_bounds = min_le_left {A = F} _ _;
      }))))
