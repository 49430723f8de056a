-- ===== src/Fundamentals/Calibration/Restart.antt =====
-- CalibrationStore.restore on the rows that fetch_calibration_entries
-- (src/poly_meridian/storage/writers.py) returns, against the window of settled predictions.
-- `run` in src/poly_meridian/main.py looks for the store before it is set, so it never calls restore.
use poly_meridian.Prelude.{
  ℕ, suc, ◌≡◌, refl, sym, ap, ◌∙◌, ◌≤◌, true, some, List, [], ◌∷◌, ◌++◌, map, length, last,
  last-append, last-last, take, take-reverse, map-last, map-reverse, arith, Option-cases, inl, inr,
}
use Prim.Native.Nat.{◌+◌}
use mathlib.Core.List.{reverse, reverse-reverse, append_assoc, append-nil}
use poly_meridian.Prelude.Chain.{◌>>=◌}
use mathlib.Core.Path.{subst}
use poly_meridian.Num.{Num, Convert, to_float, to_decimal}
use poly_meridian.Domain.{Datetime}
use poly_meridian.Fundamentals.Calibration.{
  CalibrationEntry, CalibrationStore, Settlement, Row, new_store, append, entry_of,
  record_settlement, entry_of_row, restore_each, restore,
}
use poly_meridian.Fundamentals.Calibration.Table.{
  StoredEntry, stored_entry, row_of, insert_calibration_entry, fetch_calibration_entries,
  HasIncreasingTimes,
}

module _ {F : Type 0} where
  append-last :
      (n : ℕ) (entries all : List (CalibrationEntry F)) (e : CalibrationEntry F)
      → entries ≡ last n all
      → last n (entries ++ e ∷ []) ≡ last n (all ++ e ∷ [])
  append-last n entries all e at =
      ap (λ (xs : List (CalibrationEntry F)). last n (xs ++ e ∷ [])) at ∙ last-append n all (e ∷ [])

module _ {F : Type 0} where
  -- The window is the end of what was written.
  record HasWindow (n : ℕ) (s : CalibrationStore F) : Type 0 where
    pub capacity : s.max_entries ≡ n
    pub writes : s.has_db_writer ≡ true
    pub window : s.entries ≡ last n s.written

module _ {F D : Type 0} ⦃cv : Convert F D⦄ where
  -- The table after the writer has been called with the entries in turn.
  unfoldable pub insert_all :
      List (CalibrationEntry F) → List (StoredEntry D) → List (StoredEntry D)
  insert_all [] table = table
  insert_all (e ∷ es) table = insert_all es (insert_calibration_entry e table)

  insert_all-stored_entry :
      (es : List (CalibrationEntry F)) (table : List (StoredEntry D))
      → insert_all es table ≡ table ++ map stored_entry es
  unfolding insert_all
  insert_all-stored_entry [] table = sym (append-nil table)
  insert_all-stored_entry (e ∷ es) table =
      insert_all-stored_entry es (table ++ stored_entry e ∷ [])
      ∙ append_assoc table (stored_entry e ∷ []) (map stored_entry es)

  -- The newest `limit` entries, as rows with the newest first, are what the query returns.
  fetch_lem :
      (order_desc : List (StoredEntry D) → List (StoredEntry D)) (limit : ℕ)
      (es : List (CalibrationEntry F))
      → order_desc (map stored_entry es) ≡ reverse (map stored_entry es)
      → fetch_calibration_entries {F = F} order_desc limit (map stored_entry es)
        ≡ reverse (map (row_of {F = F} {D = D}) (map stored_entry (last limit es)))
  unfolding fetch_calibration_entries
  fetch_lem order_desc limit es h =
      ap (λ (t : List (StoredEntry D)). map (row_of {F = F}) (take limit t)) h
      ∙ ap (map (row_of {F = F})) (take-reverse limit (map stored_entry es))
      ∙ map-reverse (row_of {F = F}) (last limit (map stored_entry es))
      ∙ ap (λ (t : List (StoredEntry D)). reverse (map (row_of {F = F}) t))
          (sym (map-last stored_entry limit es))

module _ {F : Type 0} (D : Type 0) ⦃nf : Num F⦄ ⦃cv : Convert F D⦄
    (exact : (x : F) → (let d : D = to_decimal x in to_float d) ≡ x) where
  -- A row is read back as the entry that was written.
  entry_of_row-row_of :
      (now : Datetime) (e : CalibrationEntry F)
      → entry_of_row now (let r : StoredEntry D = stored_entry e in row_of r) ≡ some e
  unfolding entry_of_row ◌>>=◌
  entry_of_row-row_of now e = elim (Option-cases e.base_rate) [
    | inl unknown ↦ ground (
      arith,
      unknown,
      exact e.claimed_p_long,
      exact e.confidence,
      exact e.settle_price,
      exact e.pnl_usd,
    )
    | inr (b, known) ↦ ground (
      arith,
      known,
      exact e.claimed_p_long,
      exact e.confidence,
      exact e.settle_price,
      exact e.pnl_usd,
      exact b,
    )
  ]

  restore_each-rows :
      (now : Datetime) (es all : List (CalibrationEntry F)) (n : ℕ) (s : CalibrationStore F)
      → s.entries ≡ last s.max_entries all
      → let rows : List (Row F) = map row_of (map {B = StoredEntry D} stored_entry es) in
        ((restore_each now rows n s).0 ≡ n + length es)
        × ((restore_each now rows n s).1.entries ≡ last s.max_entries (all ++ es))
  unfolding restore_each
  restore_each-rows now [] all n s at =
      (omega arith, at ∙ ap (last s.max_entries) (sym (append-nil all)))
  restore_each-rows now (e ∷ es) all n s at =
      let (total, there) =
        restore_each-rows now es (all ++ e ∷ []) (suc n) (append e s)
          (append-last s.max_entries s.entries all e at) in
      let read = entry_of_row-row_of now e in
      (
        ground (arith, read, total),
        rw (restore_each, read) (there ∙ ap (last s.max_entries) (append_assoc all (e ∷ []) es)),
      )

module _ {F D : Type 0} ⦃nf : Num F⦄ ⦃nd : Num D⦄ ⦃cv : Convert F D⦄ where
  unfoldable pub record_all : List (Settlement F D) → CalibrationStore F → CalibrationStore F
  record_all [] s = s
  record_all (t ∷ ts) s = record_all ts (record_settlement t s)

  record_settlement-HasWindow :
      (n : ℕ) (t : Settlement F D) (s : CalibrationStore F)
      → HasWindow n s
      → HasWindow n (record_settlement t s)
  unfolding record_settlement
  record_settlement-HasWindow n t s w = elim (Option-cases t.pos.claimed_p_long) [
    | inl unclaimed ↦ rw (record_settlement, unclaimed) w
    | inr (claimed, has_claim) ↦ elim (Option-cases t.pos.claimed_confidence) [
      | inl unsure ↦ rw (record_settlement, has_claim, unsure) w
      | inr (confidence, sure) ↦
          rw (record_settlement, has_claim, sure)
            (record {
              capacity = w.capacity;
              writes = w.writes;
              window =
                  let e = entry_of t claimed confidence in
                  ground
                    (arith, w.capacity, w.writes, append-last n s.entries s.written e w.window);
            })
    ]
  ]

  record_all-HasWindow :
      (n : ℕ) (ts : List (Settlement F D)) (s : CalibrationStore F)
      → HasWindow n s
      → HasWindow n (record_all ts s)
  unfolding record_all
  record_all-HasWindow n [] s w = w
  record_all-HasWindow n (t ∷ ts) s w =
      record_all-HasWindow n ts (record_settlement t s) (record_settlement-HasWindow n t s w)

  -- After any settlements recorded from an empty store, restoring the newest rows of the table, at
  -- least as many as the store holds, into an empty store gives the same entries in the same order,
  -- and every row is counted as restored. This takes the times of what was written to increase, the
  -- database's descending order of rows with increasing times to be their reverse, and a float to
  -- keep its value as a decimal.
  pub restore-record_all :
      (order_desc : List (StoredEntry D) → List (StoredEntry D)) (n limit : ℕ) (now : Datetime)
      (ts : List (Settlement F D))
      → ((rows : List (StoredEntry D)) → HasIncreasingTimes rows → order_desc rows ≡ reverse rows)
      → ((x : F) → (let d : D = to_decimal x in to_float d) ≡ x)
      → n ≤ limit
      → HasIncreasingTimes {D = D} (insert_all (record_all ts (new_store n true)).written [])
      → let s = record_all ts (new_store n true) in
        let rows : List (Row F) =
          fetch_calibration_entries order_desc limit (insert_all {D = D} s.written []) in
        let (count, fresh) = restore now rows (new_store n true) in
        (fresh.entries ≡ s.entries) × (count ≡ length (last limit s.written))
  unfolding restore
  restore-record_all order_desc n limit now ts newest_first exact enough increasing =
      let s = record_all ts (new_store n true) in
      let w =
        record_all-HasWindow n ts (new_store n true)
          (record { capacity = refl; writes = refl; window = refl }) in
      let kept = last limit s.written in
      let table : insert_all {D = D} s.written [] ≡ map stored_entry s.written =
        insert_all-stored_entry s.written [] in
      let ordered =
        newest_first (map stored_entry s.written) (subst HasIncreasingTimes table increasing) in
      let r = restore_each-rows D exact now kept [] 0 (new_store n true) refl in
      rw
        (
          table,
          fetch_lem order_desc limit s.written ordered,
          reverse-reverse (map row_of (map {B = StoredEntry D} stored_entry kept)),
        )
        (r.1 ∙ last-last n limit s.written enough ∙ sym w.window, omega (arith, r.0))
