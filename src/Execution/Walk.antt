-- ===== src/Execution/Walk.antt =====
-- src/poly_meridian/execution/slippage_model.py: `walk_book_for_fill`, which eats the book from
-- the top, and the slippage of one fill.
pub mod Bounds
use poly_meridian.Prelude.{
  ◌≡◌, refl, Bool, true, false, Option, none, some, List, [], ◌∷◌, if◌then◌else◌,
}
use poly_meridian.Prelude.Dict.{Dict}
use poly_meridian.Num.{Num, Quantize, quantize, ◌+◌, ◌-◌, ◌*◌, ◌/◌, ◌<?◌, ◌≤?◌, lit, abs, min}
use poly_meridian.Domain.{Side, buy, sell}
use poly_meridian.Book.{LocalBook}

module _ {D : Type 0} ⦃nd : Num D⦄ where
  -- `sorted(items, reverse=...)`: the prices of a dict are distinct, so only they are compared.
  abbrev pub comes_before : Side → D → D → Bool
  comes_before buy a b = a ≤? b
  comes_before sell a b = b ≤? a

  unfoldable pub insert_level : Side → D × D → List (D × D) → List (D × D)
  insert_level side l [] = l ∷ []
  insert_level side l (m ∷ ms) =
      let rest = insert_level side l ms in
      if comes_before side l.0 m.0 then l ∷ m ∷ ms else m ∷ rest

  unfoldable pub sort_levels : Side → Dict D D → List (D × D)
  unfolding insert_level
  sort_levels side [] = []
  sort_levels side (l ∷ ls) = insert_level side l (sort_levels side ls)

  -- The levels that an order of a side takes, best price first.
  unfoldable pub levels_for : Side → LocalBook D → List (D × D)
  unfolding sort_levels
  levels_for side b = elim side [ buy ↦ sort_levels buy b.asks | sell ↦ sort_levels sell b.bids ]

-- The variables of the walk.
pub record Walk (D : Type 0) : Type 0 where
  pub remaining : D
  pub cost : D
  pub taken : D

module _ {D : Type 0} ⦃nd : Num D⦄ where
  abbrev pub take_level : D × D → Walk D → Walk D
  take_level (price, size) w =
      let take = min w.remaining size in
      record {
        remaining = w.remaining - take;
        cost = w.cost + take * price;
        taken = w.taken + take;
      }

  unfoldable pub walk : List (D × D) → Walk D → Walk D
  walk [] w = w
  walk (l ∷ ls) w =
      let rest = walk ls (take_level l w) in if w.remaining ≤? lit 0 0 then w else rest

module _ {D : Type 0} ⦃nd : Num D⦄ ⦃qd : Quantize D⦄ where
  abbrev pub fill_of_walk : Walk D → Option D × D
  fill_of_walk w =
      if w.taken ≤? lit 0 0
      then (none, lit 0 0)
      else (some (quantize 4 (w.cost / w.taken)), w.taken)

  unfoldable pub walk_book_for_fill : LocalBook D → Side → D → Option D × D
  unfolding walk levels_for
  walk_book_for_fill b side size =
      fill_of_walk
        (walk (levels_for side b) (record { remaining = size; cost = lit 0 0; taken = lit 0 0 }))

module _ {F : Type 0} ⦃nf : Num F⦄ where
  unfoldable pub slippage_from_fill : F → F → F
  slippage_from_fill expected_price realized_vwap =
      if expected_price ≤? lit 0 0
      then lit 0 0
      else abs (realized_vwap - expected_price) / expected_price * lit 10000 0
