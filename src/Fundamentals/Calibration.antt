-- ===== src/Fundamentals/Calibration.antt =====
-- src/poly_meridian/fundamentals/calibration.py: the resolved predictions of the language model. The
-- power of floats and their rounding are an interface; a writer of the database lists the entries
-- that it is given.
use poly_meridian.Prelude.{
  ℕ, suc, ◌≡◌, Bool, true, false, not, ◌&&◌, Option, none, some, List, [], ◌∷◌, ◌++◌, map, String,
  if◌then◌else◌, get_or, length, last, ◌==◌, string_eq,
}
use mathlib.Core.List.{reverse}
use poly_meridian.Prelude.Chain.{◌>>=◌}
use poly_meridian.Prelude.Dict.{Dict, get, insert}
use poly_meridian.Num.{Num, Convert, to_float, ◌+◌, ◌-◌, ◌*◌, ◌/◌, ◌<?◌, ◌≤?◌, lit, num_eq}
use poly_meridian.Domain.{Datetime}
use poly_meridian.Portfolio.Ledger.{PositionState}
pub mod Restart
pub mod Table
pub mod Metrics

pub record CalibrationEntry (F : Type 0) : Type 0 where
  pub ts_resolved : Datetime
  pub token_id : String
  pub entry_strategy : Option String
  pub claimed_p_long : F
  pub confidence : F
  pub settle_price : F
  pub won : Bool
  pub pnl_usd : F
  pub base_rate : Option F

pub record CalibrationMetrics (F : Type 0) : Type 0 where
  pub n_entries : ℕ
  pub brier_score : Option F
  pub accuracy : Option F
  pub bucket_accuracy : Dict String (Option F)
  pub bucket_counts : Dict String ℕ
  pub mean_confidence : Option F
  pub mean_p_long : Option F
  pub total_pnl_usd : F

pub record CalibrationStore (F : Type 0) : Type 0 where
  pub max_entries : ℕ
  pub entries : List (CalibrationEntry F)
  pub has_db_writer : Bool
  pub written : List (CalibrationEntry F)

-- What `record` is called with when a position settles.
pub record Settlement (F D : Type 0) : Type 0 where
  pub token_id : String
  pub settle_price : F
  pub pos : PositionState F D
  pub ts : Datetime

-- A number of a row of the database: `float()` raises on what is unreadable.
pub data Cell (F : Type 0) : Type 0 where
  missing null unreadable : Cell F
  number : F → Cell F

pub record Row (F : Type 0) : Type 0 where
  pub ts_resolved : Option Datetime
  pub token_id : Option String
  pub entry_strategy : Option String
  pub claimed_p_long : Cell F
  pub confidence : Cell F
  pub settle_price : Cell F
  pub won : Option Bool
  pub pnl_usd : Cell F
  pub base_rate : Cell F

module _ {F : Type 0} where
  abbrev pub new_store : ℕ → Bool → CalibrationStore F
  new_store max_entries has_db_writer = record {
    max_entries = max_entries;
    entries = [];
    has_db_writer = has_db_writer;
    written = [];
  }

  -- The deque drops the oldest entries over its capacity.
  abbrev pub append : CalibrationEntry F → CalibrationStore F → CalibrationStore F
  append e s = record s { entries = last s.max_entries (s.entries ++ e ∷ []) }

  -- `float(row.get(key, default))`, none where it raises.
  abbrev pub number_or : F → Cell F → Option F
  number_or d missing = some d
  number_or d null = none
  number_or d unreadable = none
  number_or d (number x) = some x

  -- `float(row[key]) if row.get(key) is not None else None`
  abbrev pub optional_number : Cell F → Option (Option F)
  optional_number missing = some none
  optional_number null = some none
  optional_number unreadable = none
  optional_number (number x) = some (some x)

module _ {F D : Type 0} ⦃nf : Num F⦄ ⦃nd : Num D⦄ ⦃cv : Convert F D⦄ where
  abbrev pub pnl_of : PositionState F D → F
  pnl_of p =
      if (lit 0 0 <? p.avg_cost) && not (p.qty == lit 0 0)
      then to_float ((p.last_mark - p.avg_cost) * p.qty - p.fees_paid)
      else lit 0 0

  abbrev pub entry_of : Settlement F D → F → F → CalibrationEntry F
  entry_of t claimed confidence = record {
    ts_resolved = t.ts;
    token_id = t.token_id;
    entry_strategy = t.pos.entry_strategy;
    claimed_p_long = claimed;
    confidence = confidence;
    settle_price = t.settle_price;
    won = lit 999 3 ≤? t.settle_price;
    pnl_usd = pnl_of t.pos;
    base_rate = t.pos.claimed_base_rate;
  }

  -- `CalibrationStore.record`
  unfoldable pub record_settlement : Settlement F D → CalibrationStore F → CalibrationStore F
  record_settlement t s = elim t.pos.claimed_p_long [
    | none ↦ s
    | some claimed ↦ elim t.pos.claimed_confidence [
      | none ↦ s
      | some confidence ↦
          (let e = entry_of t claimed confidence in
            record (append e s) {
              written = if s.has_db_writer then s.written ++ e ∷ [] else s.written;
            })
    ]
  ]

module _ {F : Type 0} ⦃nf : Num F⦄ where
  -- The entry of a row, none where reading it raises.
  unfoldable pub entry_of_row : Datetime → Row F → Option (CalibrationEntry F)
  unfolding ◌>>=◌
  entry_of_row now r = do
    claimed ← number_or (lit 5 1) r.claimed_p_long
    confidence ← number_or (lit 0 0) r.confidence
    settle ← number_or (lit 0 0) r.settle_price
    pnl ← number_or (lit 0 0) r.pnl_usd
    base ← optional_number r.base_rate
    some (record {
      ts_resolved = get_or r.ts_resolved now;
      token_id = get_or r.token_id "";
      entry_strategy = r.entry_strategy;
      claimed_p_long = claimed;
      confidence = confidence;
      settle_price = settle;
      won = get_or r.won false;
      pnl_usd = pnl;
      base_rate = base;
    })

  -- The loop of `restore`, which counts the rows that it reads.
  unfoldable pub restore_each :
      Datetime → List (Row F) → ℕ → CalibrationStore F → ℕ × CalibrationStore F
  unfolding entry_of_row
  restore_each now [] n s = (n, s)
  restore_each now (r ∷ rs) n s = elim (entry_of_row now r) [
    | none ↦ restore_each now rs n s
    | some e ↦ restore_each now rs (suc n) (append e s)
  ]

  unfoldable pub restore : Datetime → List (Row F) → CalibrationStore F → ℕ × CalibrationStore F
  unfolding restore_each
  restore now rows s = restore_each now (reverse rows) 0 s
