-- ===== src/Fundamentals/Forecasts.antt =====
-- src/poly_meridian/fundamentals/politics.py (`PoliticsResolver`) and
-- src/poly_meridian/fundamentals/crypto.py (`CryptoResolver`). `math` is an interface, the lower case of
-- a text is an argument, and an absent text is empty. The rationale is left out.
use text.Mathlib.Text.{starts_with}
use poly_meridian.Prelude.{
  ℕ, zero, suc, ◌≡◌, Bool, true, false, not, ◌&&◌, ◌||◌, Option, none, some, List, [], ◌∷◌, String,
  if◌then◌else◌, get_or, length, ltb, ◌==◌, string_eq,
}
use poly_meridian.Prelude.Chain.{◌>>=◌, require}
use poly_meridian.Prelude.Dict.{Dict, get}
use poly_meridian.Num.{Num, Maths, ◌+◌, ◌-◌, ◌*◌, ◌/◌, ◌<?◌, ◌≤?◌, lit, neg, min, max, abs}
use poly_meridian.Domain.{Datetime, Clock, Market}
use poly_meridian.Strategies.Fundamentals.{ProbabilityEstimate, is_member}
pub mod Weighed

-- A row of `ctx.polls[condition_id]`: a value or a time of another type is none.
pub record Poll (F : Type 0) : Type 0 where
  pub yes_pct : Option F
  pub ts : Option Datetime
  pub sample_size : ℕ
  pub methodology_weight : F
  pub house_bias : F
  pub source : String

pub record PoliticsResolver (F : Type 0) : Type 0 where
  pub recency_half_life_days : F
  pub min_total_weight : F
  pub min_polls : ℕ

-- The sums of the loop over the polls.
pub record PollTally (F : Type 0) : Type 0 where
  pub weighted_sum : F
  pub total_weight : F
  pub sources : List String
  pub accepted : ℕ

-- `ctx.crypto_metadata[condition_id]`
pub record CryptoMetadata (F : Type 0) : Type 0 where
  pub symbol : String
  pub target_price : Option F
  pub deadline_ts : Option Datetime
  pub direction : String

pub record CryptoResolver (F : Type 0) : Type 0 where
  pub default_annual_vol : F
  pub funding_weight : F
  pub netflow_weight : F

pub record CryptoContext (F : Type 0) : Type 0 where
  pub spot_prices : Dict String F
  pub funding_rates : Dict String F
  pub netflow_24h : Dict String F
  pub crypto_metadata : Dict String (CryptoMetadata F)

-- The deadline of the metadata, or else the end of the market.
abbrev pub deadline_of : Option Datetime → Option Datetime → Option Datetime
deadline_of (some t) end_date = some t
deadline_of none end_date = end_date

abbrev pub add_source : String → List String → List String
add_source s ss = if is_member s ss then ss else s ∷ ss

module _ {F : Type 0} ⦃nf : Num F⦄ where
  -- The share and the time of a poll that counts.
  unfoldable pub usable_poll : Poll F → Option (F × Datetime)
  usable_poll p = do
    yes_pct ← p.yes_pct
    _ ← require ((lit 0 0 ≤? yes_pct) && (yes_pct ≤? lit 1 0))
    ts ← p.ts
    some (yes_pct, ts)

  -- The share without the bias of the house, between zero and one.
  abbrev pub corrected : F → F → F
  corrected yes_pct bias = max (lit 0 0) (min (lit 1 0) (yes_pct - bias))

module _ {F : Type 0} ⦃nf : Num F⦄ ⦃ck : Clock F⦄ (maths : Maths F) where
  abbrev pub weight_of : Datetime → F → Poll F → Datetime → F
  weight_of now half_life p ts =
      let age_days = ck.seconds_between now ts / lit 86400 0 in
      let sample : ℕ = elim p.sample_size [ zero ↦ 1 | suc n ↦ suc n ] in
      maths.sqrt (lit sample 0)
      * p.methodology_weight
      * maths.power (lit 5 1) (age_days / half_life)

  -- A poll that counts is added to the sums.
  abbrev pub add_poll : Datetime → F → Poll F → F → Datetime → PollTally F → PollTally F
  add_poll now half_life p yes_pct ts t =
      let weight = weight_of now half_life p ts in
      record {
        weighted_sum = t.weighted_sum + corrected yes_pct p.house_bias * weight;
        total_weight = t.total_weight + weight;
        sources = add_source p.source t.sources;
        accepted = suc t.accepted;
      }

  unfoldable pub tally_polls : Datetime → F → List (Poll F) → PollTally F → PollTally F
  tally_polls now half_life [] t = t
  tally_polls now half_life (p ∷ ps) t = elim (usable_poll p) [
    | none ↦ tally_polls now half_life ps t
    | some (yes_pct, ts) ↦ tally_polls now half_life ps (add_poll now half_life p yes_pct ts t)
  ]

  abbrev pub empty_tally : PollTally F
  empty_tally = record {
    weighted_sum = lit 0 0;
    total_weight = lit 0 0;
    sources = [];
    accepted = 0;
  }

  abbrev pub politics_estimate : PollTally F → ProbabilityEstimate F
  politics_estimate t =
      let weight_factor = lit 1 0 - maths.exp (neg t.total_weight / lit 50 0) in
      let diversity_factor = min (lit 1 0) (lit (length t.sources) 0 / lit 3 0) in
      record {
        p_yes = t.weighted_sum / t.total_weight;
        confidence = weight_factor * (lit 6 1 + lit 4 1 * diversity_factor);
      }

  -- `_norm_cdf` for an argument that is not negative.
  unfoldable pub upper_cdf : F → F
  upper_cdf x =
      let t = lit 1 0 / (lit 1 0 + lit 3275911 7 * x) in
      let poly =
        (((lit 1061405429 9 * t + neg (lit 1453152027 9)) * t + lit 1421413741 9) * t
            + neg (lit 284496736 9))
          * t
        + lit 254829592 9 in
      let erf = lit 1 0 - poly * t * maths.exp (neg x * x) in lit 5 1 * (lit 1 0 + erf)

  unfoldable pub norm_cdf : F → F
  unfolding upper_cdf
  norm_cdf x = if x <? lit 0 0 then lit 1 0 - upper_cdf (neg x) else upper_cdf x

  abbrev pub drift_of : CryptoResolver F → CryptoContext F → String → F
  drift_of r ctx symbol =
      r.funding_weight * (get_or (get symbol ctx.funding_rates) (lit 0 0) * lit 365 0 * lit 3 0)
      + r.netflow_weight * get_or (get symbol ctx.netflow_24h) (lit 0 0)

  abbrev pub std_of : CryptoResolver F → F → F
  std_of r years_left = r.default_annual_vol * maths.sqrt (max years_left (lit 1 6))

  -- How many deviations the target is from where the drift leads.
  abbrev pub z_score : CryptoResolver F → CryptoContext F → String → F → F → F → F
  z_score r ctx symbol spot target years_left =
      (maths.log (target / spot) - drift_of r ctx symbol * years_left) / std_of r years_left

  abbrev pub crypto_estimate : Bool → F → ProbabilityEstimate F
  crypto_estimate above z =
      let p_above = lit 1 0 - norm_cdf z in
      record {
        p_yes = if above then p_above else lit 1 0 - p_above;
        confidence = min (lit 1 0) (lit 4 1 + min (lit 6 1) (abs z / lit 3 0));
      }

module _ {F D : Type 0} ⦃nf : Num F⦄ ⦃ck : Clock F⦄ (maths : Maths F) where
  -- `PoliticsResolver.resolve`, with the polls of the context.
  unfoldable pub resolve_politics :
      Datetime
      → Market D
      → Dict String (List (Poll F))
      → PoliticsResolver F
      → Option (ProbabilityEstimate F)
  resolve_politics now m all_polls r = do
    let polls = get_or (get m.condition_id all_polls) []
    _ ← require (not (ltb (length polls) r.min_polls))
    let t = tally_polls maths now r.recency_half_life_days polls (empty_tally maths)
    _ ← require (not ((t.total_weight <? r.min_total_weight) || ltb t.accepted r.min_polls))
    some (politics_estimate maths t)

  -- `CryptoResolver.resolve`
  unfoldable pub resolve_crypto :
      (String → String)
      → Datetime
      → Market D
      → CryptoContext F
      → CryptoResolver F
      → Option (ProbabilityEstimate F)
  resolve_crypto lower now m ctx r = do
    meta ← get m.condition_id ctx.crypto_metadata
    _ ← require (not (meta.symbol == ""))
    target ← meta.target_price
    deadline ← deadline_of meta.deadline_ts m.end_date_iso
    spot ← get meta.symbol ctx.spot_prices
    _ ← require (not (spot ≤? lit 0 0) && not (target ≤? lit 0 0))
    let seconds_left = ck.seconds_between deadline now
    _ ← require (not (seconds_left ≤? lit 0 0))
    let years_left = seconds_left / lit 31557600 0
    _ ← require (not (std_of maths r years_left ≤? lit 0 0))
    let direction = lower (if meta.direction == "" then "above" else meta.direction)
    some (
        crypto_estimate maths (starts_with direction "above")
          (z_score maths r ctx meta.symbol spot target years_left))
