-- ===== src/Execution/Paper/Order.antt =====
-- One order of the paper executor: `_fill_taker` and `_fill_maker_from_book`.
use poly_meridian.Prelude.{
  ◌≡◌, refl, ◌⊎◌, inl, inr, true, Option, none, List, [], String, arith, Bool-cases, Option-cases,
  string_eq,
}
use mathlib.Core.List.{append-nil}
use poly_meridian.Prelude.Dict.{get}
use poly_meridian.Num.{Num, Convert, Quantize, Exact, ◌<?◌, ◌≤?◌, lit}
use poly_meridian.Num.Order.{le_of_not_lt, le_antisymm}
use poly_meridian.Domain.{Datetime, Side, OrderType, gtc, gtd, fok, fak, OrderStatus, TradeDecision}
use poly_meridian.Domain
use poly_meridian.Book.{LocalBook}
use poly_meridian.Execution.Walk.{walk_book_for_fill}
use poly_meridian.Execution.Walk.Bounds.{walk_book_for_fill_bounds}
use poly_meridian.Execution.Paper.{
  PaperExecutor, Call, fill_order, apply_fill, fill_maker_from_book, fill_taker, order_of, submit,
}

-- How a fill-or-kill order ends: whole, or without any effect.
abbrev pub FilledWhole : {D : Type 0} → Domain.Order D → Type 0
FilledWhole o = (o.status ≡ OrderStatus.filled) × (o.filled_size ≡ o.size)

module _ {D : Type 0} ⦃nd : Num D⦄ ⦃qd : Quantize D⦄ where
  fill_order_whole :
      (exact : Exact D) (now : Datetime) (price taken : D) (o : Domain.Order D)
      → o.filled_size ≡ lit 0 0
      → taken ≡ o.size
      → FilledWhole (fill_order now price taken o)
  unfolding fill_order
  fill_order_whole exact now price taken o empty whole =
      ground (arith, exact.add_zero taken, nd.le_not_lt o.size o.size, nd.lt_irrefl o.size)

module _ {F D : Type 0} ⦃nf : Num F⦄ ⦃nd : Num D⦄ ⦃qd : Quantize D⦄ ⦃cv : Convert F D⦄ where
  abbrev pub Killed : Domain.Order D → List (Call F D) → Type 0
  Killed o made =
      ((o.status ≡ OrderStatus.cancelled) ⊎ (o.status ≡ OrderStatus.rejected))
      × (o.filled_size ≡ lit 0 0)
      × (o.avg_fill_price ≡ none)
      × (made ≡ [])

  fill_taker_fok :
      (exact : Exact D) (x : PaperExecutor F D) (now : Datetime) (o : Domain.Order D)
      → (lit 0 0 ≤? o.size) ≡ true
      → o.filled_size ≡ lit 0 0
      → o.avg_fill_price ≡ none
      → let r = fill_taker x now true o in FilledWhole r.0 ⊎ Killed r.0 r.1
  unfolding fill_taker apply_fill
  fill_taker_fok exact x now o positive empty fresh = elim (Option-cases (get o.token_id x.books)) [
    | inl no_book ↦ inr (ground arith)
    | inr (b, known) ↦
        (let w = walk_book_for_fill b o.side o.size in
          elim (Option-cases w.0) [
            | inl dry ↦ inr (ground arith)
            | inr (price, priced) ↦ elim (Bool-cases (w.1 ≤? lit 0 0)) [
              | inl nothing ↦ inr (ground arith)
              | inr something ↦ elim (Bool-cases (w.1 <? o.size)) [
                | inl short ↦ inr (ground arith)
                | inr enough ↦
                    (let whole : w.1 ≡ o.size =
                        le_antisymm {A = D} w.1 o.size
                          (walk_book_for_fill_bounds exact b o.side o.size positive).1
                          (le_of_not_lt {A = D} o.size w.1 enough) in
                      let f = fill_order_whole exact now price w.1 o empty whole in
                      inl (ground (arith, f.0, f.1)))
              ]
            ]
          ])
  ]

  -- When sums of decimals are exact, a fill-or-kill order of a size that is not negative is filled in whole, or is cancelled or
  -- rejected with nothing filled and no call made; no order comes to rest in either case.
  pub submit_fok :
      (exact : Exact D) (order_id : String) (now : Datetime) (d : TradeDecision D)
      (x : PaperExecutor F D)
      → d.order_type ≡ fok
      → (lit 0 0 ≤? d.size) ≡ true
      → let (o, y) = submit order_id now d x in
        (FilledWhole o
          ⊎ ((o.status ≡ OrderStatus.cancelled) ⊎ (o.status ≡ OrderStatus.rejected))
            × (o.filled_size ≡ lit 0 0)
            × (y.calls ≡ x.calls))
        × (y.resting ≡ x.resting)
  unfolding submit
  submit_fok exact order_id now d x kind positive =
      let o = order_of order_id d in
      ground (arith, fill_taker_fok exact x now o positive refl refl, append-nil x.calls)

  -- A maker order that is filled from the book fills the same quantity at the same average price
  -- whatever its limit price is.
  pub fill_maker-ignores_limit :
      (x : PaperExecutor F D) (now : Datetime) (b : LocalBook D) (remaining : D)
      (o : Domain.Order D) (limit : Option D)
      → let f = fill_maker_from_book x now b remaining o in
        let g = fill_maker_from_book x now b remaining (record o { price = limit }) in
        (g.order.filled_size ≡ f.order.filled_size)
        × (g.order.avg_fill_price ≡ f.order.avg_fill_price)
        × (g.remaining ≡ f.remaining)
  unfolding fill_maker_from_book apply_fill fill_order
  fill_maker-ignores_limit x now b remaining o limit = ground arith
