-- ===== src/Execution/Router/Paper.antt =====
-- The paper executor behind the router's interface. The ids of new orders and the time are given.
use poly_meridian.Prelude.{◌≡◌, true, false, some, Option-cases, inl, inr, String, arith, string_eq}
use poly_meridian.Num.{Num, Convert, Quantize}
use poly_meridian.Domain.{Datetime, OrderStatus, is_open, is_final}
use poly_meridian.Domain
use poly_meridian.Prelude.Dict.{get, get-insert_self}
use poly_meridian.Execution.Paper.{PaperExecutor, submit, cancel, get_order, with_status}
use poly_meridian.Execution.Router.{Executor, accepted}

module _ {F D : Type 0} ⦃nf : Num F⦄ ⦃nd : Num D⦄ ⦃qd : Quantize D⦄ ⦃cv : Convert F D⦄
    (new_id : PaperExecutor F D → String) (now : Datetime) where
  abbrev pub paper : Executor (PaperExecutor F D) D
  paper = record {
    submit = λ d x. let (o, y) = submit (new_id x) now d x in (accepted o, y);
    cancel = λ id x. (cancel id x).1;
    order_now = get_order;
  }

  -- Cancelling a final order changes nothing.
  pub paper-final_stays :
      (x : PaperExecutor F D) (p : Domain.Order D)
      → paper.order_now p.order_id x ≡ some p
      → is_final p.status ≡ true
      → paper.cancel p.order_id x ≡ x
  unfolding cancel get_order
  paper-final_stays x p known final = ground arith

  -- No order is open once it has been cancelled.
  pub paper-closes :
      (id : String) (x : PaperExecutor F D) (q : Domain.Order D)
      → paper.order_now id (paper.cancel id x) ≡ some q
      → is_open q.status ≡ false
  unfolding cancel get_order
  paper-closes id x q known = elim (Option-cases (get id x.orders)) [
    | inl missing ↦ absurd (ground (arith, missing))
    | inr (o, there) ↦
        ground (arith, there, get-insert_self id (with_status OrderStatus.cancelled o) x.orders)
  ]
