-- ===== src/Fundamentals/Calibration/Metrics/Buckets.antt =====
-- CalibrationStore.metrics: how many entries the buckets count.
use Prim.Native.Nat.{◌+◌}
use poly_meridian.Prelude.{
  ℕ, suc, ◌≡◌, refl, Bool, List, [], ◌∷◌, String, if◌then◌else◌, length, count, is_some, string_eq,
  arith, Option-cases, inl, inr,
}
use poly_meridian.Prelude.Dict.{Dict}
use poly_meridian.Num.{Num, Maths}
use poly_meridian.Fundamentals.Calibration.{CalibrationEntry, CalibrationStore}
use poly_meridian.Fundamentals.Calibration.Metrics.{
  Sums, bump, buckets, bucket_of, no_sums, tally_entry, tally_entries, metrics_of, metrics,
}

abbrev pub total : Dict String ℕ → ℕ
total [] = 0
total ((k, n) ∷ d) = n + total d

total-bump : (name : String) (d : Dict String ℕ) → total (bump name d) ≡ suc (total d)
total-bump name [] = refl
total-bump name ((k, n) ∷ d) = ground (arith, total-bump name d)

module _ {F : Type 0} ⦃nf : Num F⦄ where
  -- The claimed probability lies in a bucket.
  abbrev pub is_bucketed : CalibrationEntry F → Bool
  is_bucketed e = is_some (bucket_of e.claimed_p_long (buckets {F = F}))

module _ {F : Type 0} ⦃nf : Num F⦄ (maths : Maths F) where
  tally_entry-total :
      (e : CalibrationEntry F) (t : Sums F)
      → total (tally_entry maths e t).bucket_n
        ≡ (if is_bucketed e then suc (total t.bucket_n) else total t.bucket_n)
  unfolding tally_entry
  tally_entry-total e t = elim (Option-cases (bucket_of e.claimed_p_long (buckets {F = F}))) [
    | inl outside ↦ ground (arith, outside)
    | inr (name, inside) ↦ ground (arith, inside, total-bump name t.bucket_n)
  ]

  tally_entries-total :
      (es : List (CalibrationEntry F)) (t : Sums F)
      → total (tally_entries maths es t).bucket_n ≡ total t.bucket_n + count is_bucketed es
  unfolding tally_entries
  tally_entries-total [] t = omega arith
  tally_entries-total (e ∷ es) t =
      ground (arith, tally_entries-total es (tally_entry maths e t), tally_entry-total e t)

module _ {F : Type 0} ⦃nf : Num F⦄ (maths : Maths F) (round : F → ℕ → F) where
  metrics_of-total :
      (es : List (CalibrationEntry F))
      → (total (metrics_of maths round es).bucket_counts ≡ count is_bucketed es)
        × ((metrics_of maths round es).n_entries ≡ length es)
  unfolding metrics_of
  metrics_of-total [] = (refl, refl)
  metrics_of-total (e ∷ es) = (omega (arith, tally_entries-total maths (e ∷ es) no_sums), refl)

  -- The counts of the buckets add up to the number of entries whose claimed probability lies in
  -- one of them: an entry with a claimed probability below one half is in none of them, although it is
  -- one of the entries.
  pub metrics-total :
      (s : CalibrationStore F)
      → (total (metrics maths round s).bucket_counts ≡ count is_bucketed s.entries)
        × ((metrics maths round s).n_entries ≡ length s.entries)
  unfolding metrics
  metrics-total s = metrics_of-total s.entries
