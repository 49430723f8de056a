-- ===== src/Fundamentals/Calibration/Metrics.antt =====
-- src/poly_meridian/fundamentals/calibration.py: CalibrationStore.metrics.
use poly_meridian.Prelude.{
  ℕ, suc, ◌≡◌, refl, Bool, true, false, ◌&&◌, Option, none, some, List, [], ◌∷◌, map, String,
  if◌then◌else◌, get_or, length, ltb, string_eq,
}
use poly_meridian.Prelude.Dict.{Dict, get, insert}
use poly_meridian.Num.{Num, Maths, ◌+◌, ◌-◌, ◌/◌, ◌<?◌, ◌≤?◌, lit}
use poly_meridian.Fundamentals.Calibration.{CalibrationEntry, CalibrationMetrics, CalibrationStore}
pub mod Buckets

-- The variables of the loop over the entries.
pub record Sums (F : Type 0) : Type 0 where
  pub squared_err : F
  pub wins : ℕ
  pub sum_conf : F
  pub sum_p : F
  pub sum_pnl : F
  pub bucket_n : Dict String ℕ
  pub bucket_wins : Dict String ℕ

-- `d[name] += k` on a dict that has the name.
abbrev pub bump : String → Dict String ℕ → Dict String ℕ
bump name d = insert name (suc (get_or (get name d) 0)) d

module _ {F : Type 0} ⦃nf : Num F⦄ where
  abbrev pub buckets : List (String × F × F)
  buckets =
      ("0.50-0.60", lit 50 2, lit 60 2)
      ∷ ("0.60-0.70", lit 60 2, lit 70 2)
      ∷ ("0.70-0.80", lit 70 2, lit 80 2)
      ∷ ("0.80-0.90", lit 80 2, lit 90 2)
      ∷ ("0.90-1.00", lit 90 2, lit 101 2)
      ∷ []

  -- The name of the first bucket that has the probability.
  unfoldable pub bucket_of : F → List (String × F × F) → Option String
  bucket_of p [] = none
  bucket_of p ((name, lo, hi) ∷ bs) =
      let rest = bucket_of p bs in if (lo ≤? p) && (p <? hi) then some name else rest

  abbrev pub zero_counts : List (String × F × F) → Dict String ℕ
  zero_counts [] = []
  zero_counts ((name, lo, hi) ∷ bs) = (name, 0) ∷ zero_counts bs

  abbrev pub no_sums : Sums F
  no_sums = record {
    squared_err = lit 0 0;
    wins = 0;
    sum_conf = lit 0 0;
    sum_p = lit 0 0;
    sum_pnl = lit 0 0;
    bucket_n = zero_counts buckets;
    bucket_wins = zero_counts buckets;
  }

  abbrev pub outcome : CalibrationEntry F → F
  outcome e = if e.won then lit 1 0 else lit 0 0

  abbrev pub in_bucket : Option String → Bool → Sums F → Sums F
  in_bucket none won t = t
  in_bucket (some name) won t = record t {
    bucket_n = bump name t.bucket_n;
    bucket_wins = if won then bump name t.bucket_wins else t.bucket_wins;
  }

module _ {F : Type 0} ⦃nf : Num F⦄ (maths : Maths F) where
  -- One round of the loop.
  unfoldable pub tally_entry : CalibrationEntry F → Sums F → Sums F
  tally_entry e t = in_bucket (bucket_of e.claimed_p_long (buckets {F = F})) e.won (record t {
    squared_err = t.squared_err + maths.power (e.claimed_p_long - outcome e) (lit 2 0);
    wins = if e.won then suc t.wins else t.wins;
    sum_conf = t.sum_conf + e.confidence;
    sum_p = t.sum_p + e.claimed_p_long;
    sum_pnl = t.sum_pnl + e.pnl_usd;
  })

  unfoldable pub tally_entries : List (CalibrationEntry F) → Sums F → Sums F
  unfolding tally_entry
  tally_entries [] t = t
  tally_entries (e ∷ es) t = tally_entries es (tally_entry e t)

module _ {F : Type 0} ⦃nf : Num F⦄ (maths : Maths F) (round : F → ℕ → F) where
  abbrev pub bucket_rates : Dict String ℕ → Dict String ℕ → Dict String (Option F)
  bucket_rates wins [] = []
  bucket_rates wins ((name, n) ∷ d) =
      (name, if ltb 0 n then some (round (lit (get_or (get name wins) 0) 0 / lit n 0) 4) else none)
      ∷ bucket_rates wins d

  unfoldable pub metrics_of : List (CalibrationEntry F) → CalibrationMetrics F
  unfolding tally_entries
  metrics_of [] = record {
    n_entries = 0;
    brier_score = none;
    accuracy = none;
    bucket_accuracy = [];
    bucket_counts = [];
    mean_confidence = none;
    mean_p_long = none;
    total_pnl_usd = lit 0 0;
  }
  metrics_of (e ∷ es) =
      let t = tally_entries maths (e ∷ es) no_sums in
      let n = lit (length (e ∷ es)) 0 in
      record {
        n_entries = length (e ∷ es);
        brier_score = some (round (t.squared_err / n) 4);
        accuracy = some (round (lit t.wins 0 / n) 4);
        bucket_accuracy = bucket_rates t.bucket_wins t.bucket_n;
        bucket_counts = t.bucket_n;
        mean_confidence = some (round (t.sum_conf / n) 4);
        mean_p_long = some (round (t.sum_p / n) 4);
        total_pnl_usd = t.sum_pnl;
      }

  -- The metrics of the entries that the window holds.
  unfoldable pub metrics : CalibrationStore F → CalibrationMetrics F
  unfolding metrics_of
  metrics s = metrics_of s.entries
