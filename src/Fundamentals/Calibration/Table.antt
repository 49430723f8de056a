-- ===== src/Fundamentals/Calibration/Table.antt =====
-- src/poly_meridian/storage/writers.py: the table `calibration_entries`, where a settled prediction
-- is written and read back. The order in which the database returns rows is an argument, since it
-- leaves the order of rows with equal times open; its columns hold decimals exactly
-- (src/poly_meridian/storage/schema.py).
use poly_meridian.Prelude.{
  ℕ, Bool, Option, none, some, List, [], ◌∷◌, ◌++◌, map, String, take, All, ◌<◌,
}
use poly_meridian.Num.{Convert, to_float, to_decimal}
use poly_meridian.Domain.{Datetime}
use poly_meridian.Fundamentals.Calibration.{CalibrationEntry, Cell, null, number, Row}

-- A row of the table.
pub record StoredEntry (D : Type 0) : Type 0 where
  pub ts_resolved : Datetime
  pub token_id : String
  pub entry_strategy : Option String
  pub claimed_p_long : D
  pub confidence : D
  pub settle_price : D
  pub won : Bool
  pub pnl_usd : D
  pub base_rate : Option D

module _ {F D : Type 0} ⦃cv : Convert F D⦄ where
  abbrev pub stored_entry : CalibrationEntry F → StoredEntry D
  stored_entry e = record {
    ts_resolved = e.ts_resolved;
    token_id = e.token_id;
    entry_strategy = e.entry_strategy;
    claimed_p_long = to_decimal e.claimed_p_long;
    confidence = to_decimal e.confidence;
    settle_price = to_decimal e.settle_price;
    won = e.won;
    pnl_usd = to_decimal e.pnl_usd;
    base_rate = elim e.base_rate [ none ↦ none | some b ↦ some (to_decimal b) ];
  }

  abbrev pub insert_calibration_entry :
      CalibrationEntry F → List (StoredEntry D) → List (StoredEntry D)
  insert_calibration_entry e table = table ++ stored_entry e ∷ []

  abbrev cell_of : Option D → Cell F
  cell_of none = null
  cell_of (some x) = number (to_float x)

  -- A row as the query returns it, with its columns cast to floats.
  abbrev pub row_of : StoredEntry D → Row F
  row_of e = record {
    ts_resolved = some e.ts_resolved;
    token_id = some e.token_id;
    entry_strategy = e.entry_strategy;
    claimed_p_long = number (to_float e.claimed_p_long);
    confidence = number (to_float e.confidence);
    settle_price = number (to_float e.settle_price);
    won = some e.won;
    pnl_usd = number (to_float e.pnl_usd);
    base_rate = cell_of e.base_rate;
  }

  -- `ORDER BY ts_resolved DESC LIMIT limit`
  unfoldable pub fetch_calibration_entries :
      (List (StoredEntry D) → List (StoredEntry D)) → ℕ → List (StoredEntry D) → List (Row F)
  fetch_calibration_entries order_desc limit table = map row_of (take limit (order_desc table))

module _ {D : Type 0} where
  -- Each row is older than those inserted after it.
  abbrev pub HasIncreasingTimes : List (StoredEntry D) → Type 0
  HasIncreasingTimes [] = Unit
  HasIncreasingTimes (e ∷ es) =
      All (λ (f : StoredEntry D). e.ts_resolved < f.ts_resolved) es × HasIncreasingTimes es
