-- ===== src/Execution/Walk/Bounds.antt =====
-- The walk through the book: how much it takes.
use poly_meridian.Prelude.{◌≡◌, ◌∙◌, true, List, [], ◌∷◌, arith, Bool-cases, inl, inr}
use poly_meridian.Num.{Num, Quantize, Exact, ◌+◌, ◌≤?◌, lit, min}
use poly_meridian.Num.Order.{min_le_left, le_refl}
use poly_meridian.Domain.{Side}
use poly_meridian.Book.{LocalBook}
use poly_meridian.Execution.Walk.{Walk, take_level, walk, walk_book_for_fill, levels_for}

module _ {D : Type 0} ⦃nd : Num D⦄ (exact : Exact D) where
  -- What is taken and what remains make up the size asked, and what remains is not negative.
  record Balanced (size : D) (w : Walk D) : Type 0 where
    pub whole : w.taken + w.remaining ≡ size
    pub rest_nonneg : (lit 0 0 ≤? w.remaining) ≡ true

  take_level-Balanced :
      (size : D) (l : D × D) (w : Walk D) → Balanced size w → Balanced size (take_level l w)
  take_level-Balanced size (price, depth) w b = record {
    whole = exact.add_sub w.taken w.remaining (min w.remaining depth) ∙ b.whole;
    rest_nonneg =
        exact.sub_nonneg w.remaining (min w.remaining depth) ∙ min_le_left w.remaining depth;
  }

  walk-Balanced :
      (size : D) (ls : List (D × D)) (w : Walk D) → Balanced size w → Balanced size (walk ls w)
  unfolding walk
  walk-Balanced size [] w b = b
  walk-Balanced size (l ∷ ls) w b = elim (Bool-cases (w.remaining ≤? lit 0 0)) [
    | inl stop ↦ rw stop b
    | inr go ↦ rw go (walk-Balanced size ls (take_level l w) (take_level-Balanced size l w b))
  ]

  -- When sums of decimals are exact, the quantity that a walk fills for an order of a size that
  -- is not negative is between zero and that size, on every book.
  pub walk_book_for_fill_bounds :
      ⦃qd : Quantize D⦄ (b : LocalBook D) (side : Side) (size : D)
      → (lit 0 0 ≤? size) ≡ true
      → ((lit 0 0 ≤? (walk_book_for_fill b side size).1) ≡ true)
        × (((walk_book_for_fill b side size).1 ≤? size) ≡ true)
  unfolding walk_book_for_fill
  walk_book_for_fill_bounds b side size h =
      let start : Walk D = record { remaining = size; cost = lit 0 0; taken = lit 0 0 } in
      let w = walk (levels_for side b) start in
      let whole =
        walk-Balanced size (levels_for side b) start
          (record { whole = exact.add_zero size; rest_nonneg = h }) in
      let below : (w.taken ≤? size) ≡ true =
        rw whole.whole at (exact.le_add w.taken w.remaining ∙ whole.rest_nonneg) in
      ground (
        arith,
        below,
        le_refl {A = D} (lit 0 0),
        nd.le_not_lt (lit 0 0) w.taken,
        nd.le_not_lt w.taken (lit 0 0),
        nd.lt_trans (lit 0 0) w.taken (lit 0 0),
        nd.lt_irrefl (lit 0 0),
      )
