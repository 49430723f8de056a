-- ===== src/Execution/Paper/Standing.antt =====
-- `_post_maker` and `_fill_maker_from_book`: what they leave of an order and its entry.
use poly_meridian.Prelude.{
  ◌≡◌, refl, ◌∙◌, inl, inr, true, some, [], arith, Bool-cases, Option-cases, string_eq,
}
use poly_meridian.Prelude.Dict.{get}
use poly_meridian.Num.{Num, Convert, Quantize, Exact, ◌+◌, ◌-◌, ◌<?◌, ◌≤?◌, lit}
use poly_meridian.Num.Order.{le_of_lt, not_lt_of_le}
use poly_meridian.Domain.{
  Datetime, Clock, OrderType, gtc, gtd, fok, fak, OrderStatus, TradeDecision, is_open,
}
use poly_meridian.Domain
use poly_meridian.Book.{LocalBook}
use poly_meridian.Execution.Walk.{walk_book_for_fill}
use poly_meridian.Execution.Walk.Bounds.{walk_book_for_fill_bounds}
use poly_meridian.Execution.Paper.{
  PaperExecutor, Resting, Filling, apply_fill, fill_order, fill_maker_from_book, post_maker,
}

module _ {D : Type 0} ⦃nd : Num D⦄ where
  -- The filled and the remaining quantity of an order make up its size.
  abbrev pub AddsUp : Domain.Order D → D → Type 0
  AddsUp o remaining = o.filled_size + remaining ≡ o.size

  -- An order that stands on the virtual book: it is open, a positive quantity remains, and with
  -- what is filled that is its size.
  pub record Stands (o : Domain.Order D) (r : Resting D) : Type 0 where
    pub still_open : is_open o.status ≡ true
    pub some_left : (lit 0 0 <? r.remaining) ≡ true
    pub adds_up : AddsUp o r.remaining

module _ {F D : Type 0} ⦃nf : Num F⦄ ⦃nd : Num D⦄ ⦃qd : Quantize D⦄ ⦃cv : Convert F D⦄ where
  -- What a fill from the book leaves: a whole order, or one with the rest still to fill, whose
  -- status is then open if it was.
  pub record Progress (o : Domain.Order D) (f : Filling F D) : Type 0 where
    pub adds_up : AddsUp f.order f.remaining
    pub same_size : f.order.size ≡ o.size
    pub left_nonneg : (lit 0 0 ≤? f.remaining) ≡ true
    pub open_while_left :
        (lit 0 0 <? f.remaining) ≡ true → is_open o.status ≡ true → is_open f.order.status ≡ true
    pub filled_when_done : (f.remaining ≤? lit 0 0) ≡ true → f.order.status ≡ OrderStatus.filled

  fill-Progress :
      (exact : Exact D) (x : PaperExecutor F D) (now : Datetime) (price taken remaining : D)
      (o : Domain.Order D)
      → AddsUp o remaining
      → (taken ≤? remaining) ≡ true
      → Progress o (record {
        order = (apply_fill x now price taken o).0;
        remaining = remaining - taken;
        made = (apply_fill x now price taken o).1;
      })
  unfolding apply_fill fill_order
  fill-Progress exact x now price taken remaining o whole within =
      let sums : (o.filled_size + taken) + (remaining - taken) ≡ o.size =
        exact.add_sub o.filled_size remaining taken ∙ whole in
      let full : (o.size ≤? o.filled_size + taken) ≡ (remaining - taken ≤? lit 0 0) =
        rw sums at (exact.add_le (o.filled_size + taken) (remaining - taken)) in
      record {
        adds_up = sums;
        same_size = refl;
        left_nonneg = exact.sub_nonneg remaining taken ∙ within;
        open_while_left = λ h k. ground (arith, nd.le_not_lt (remaining - taken) (lit 0 0));
        filled_when_done = λ h. ground arith;
      }

  pub fill_maker-Progress :
      (exact : Exact D) (x : PaperExecutor F D) (now : Datetime) (b : LocalBook D) (remaining : D)
      (o : Domain.Order D)
      → AddsUp o remaining
      → (lit 0 0 <? remaining) ≡ true
      → Progress o (fill_maker_from_book x now b remaining o)
  unfolding fill_maker_from_book
  fill_maker-Progress exact x now b remaining o whole left =
      let w = walk_book_for_fill b o.side remaining in
      let within =
        (walk_book_for_fill_bounds exact b o.side remaining
          (le_of_lt {A = D} (lit 0 0) remaining left)).1 in
      let untouched : Progress o (record { order = o; remaining = remaining; made = [] }) = record {
        adds_up = whole;
        same_size = refl;
        left_nonneg = le_of_lt {A = D} (lit 0 0) remaining left;
        open_while_left = λ h k. k;
        filled_when_done = λ h. ground (arith, not_lt_of_le {A = D} remaining (lit 0 0) h);
      } in
      elim (Option-cases w.0) [
        | inl dry ↦ rw (dry, fill_maker_from_book) untouched
        | inr (price, priced) ↦ elim (Bool-cases (w.1 ≤? lit 0 0)) [
          | inl nothing ↦ rw (priced, nothing, fill_maker_from_book) untouched
          | inr something ↦
              rw (priced, something, fill_maker_from_book)
                (fill-Progress exact x now price w.1 remaining o whole within)
        ]
      ]

  -- A maker order of positive size that is left on the virtual book stands there.
  pub post_maker-Stands :
      (exact : Exact D) (x : PaperExecutor F D) (now : Datetime) (o : Domain.Order D)
      (r : Resting D)
      → AddsUp o o.size
      → (lit 0 0 <? o.size) ≡ true
      → is_open o.status ≡ true
      → (post_maker x now o).1 ≡ some r
      → Stands (post_maker x now o).0 r
  unfolding post_maker
  post_maker-Stands exact x now o r whole positive fresh e =
      elim (Option-cases (get o.token_id x.books)) [
        | inl no_book ↦ absurd (ground arith)
        | inr (b, known) ↦
            (let p = fill_maker-Progress exact x now b o.size o whole positive in
              record {
                still_open = ground arith;
                some_left = ground arith;
                adds_up = ground (arith, p.adds_up, p.same_size);
              })
      ]
