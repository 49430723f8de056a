-- ===== src/Execution/Paper/Custody.antt =====
-- The paper executor under sequences of calls, and its virtual book.
use poly_meridian.Prelude.{◌≡◌, true, none, List, [], ◌∷◌, String, string_eq}
use poly_meridian.Prelude.Dict.{get}
use poly_meridian.Num.{Num, Convert, Quantize, Exact, ◌<?◌, lit}
use poly_meridian.Domain.{Datetime, Clock, TradeDecision}
use poly_meridian.Execution.Paper.{PaperExecutor, submit, cancel, reconcile}
use poly_meridian.Execution.Paper.Entries.{InCustody, submit-InCustody, cancel-InCustody}
use poly_meridian.Execution.Paper.Rounds.{reconcile-InCustody}

-- A call of the executor: an order of positive size under a new id, a cancellation, or a pass
-- over the resting orders.
pub data Request (D : Type 0) : Type 0 where
  submit_order : String → Datetime → TradeDecision D → Request D
  cancel_order : String → Request D
  reconcile_at : Datetime → Request D

module _ {F D : Type 0} ⦃nf : Num F⦄ ⦃nd : Num D⦄ ⦃qd : Quantize D⦄ ⦃cv : Convert F D⦄
    ⦃ck : Clock F⦄ where
  unfoldable pub serve : Request D → PaperExecutor F D → PaperExecutor F D
  serve (submit_order id now d) x = (submit id now d x).1
  serve (cancel_order id) x = (cancel id x).1
  serve (reconcile_at now) x = reconcile now x

  unfoldable pub serve_all : List (Request D) → PaperExecutor F D → PaperExecutor F D
  unfolding serve
  serve_all [] x = x
  serve_all (r ∷ rs) x = serve_all rs (serve r x)

  -- Every submission has a positive size and an id under which nothing rests.
  abbrev pub IsFresh : Request D → PaperExecutor F D → Type 0
  IsFresh (submit_order id now d) x = ((lit 0 0 <? d.size) ≡ true) × (get id x.resting ≡ none)
  IsFresh (cancel_order id) x = Unit
  IsFresh (reconcile_at now) x = Unit

  abbrev pub AllFresh : List (Request D) → PaperExecutor F D → Type 0
  AllFresh [] x = Unit
  AllFresh (r ∷ rs) x = IsFresh r x × AllFresh rs (serve r x)

  serve-InCustody :
      (exact : Exact D) (r : Request D) (x : PaperExecutor F D)
      → IsFresh r x
      → InCustody x
      → InCustody (serve r x)
  unfolding serve
  serve-InCustody exact (submit_order id now d) x (positive, fresh) c =
      submit-InCustody exact id now d x positive fresh c
  serve-InCustody exact (cancel_order id) x h c = cancel-InCustody id x c
  serve-InCustody exact (reconcile_at now) x h c = reconcile-InCustody exact now x c

  -- When sums of decimals are exact, then from an executor whose virtual book is in custody, any sequence of submissions of positive
  -- size under new ids, cancellations and reconciliations leaves it so: every resting entry
  -- belongs to an open order, has a positive quantity left, and with what is filled of the order
  -- that is the order's size.
  pub serve_all-InCustody :
      (exact : Exact D) (rs : List (Request D)) (x : PaperExecutor F D)
      → AllFresh rs x
      → InCustody x
      → InCustody (serve_all rs x)
  unfolding serve_all
  serve_all-InCustody exact [] x h c = c
  serve_all-InCustody exact (r ∷ rs) x (fresh, later) c =
      serve_all-InCustody exact rs (serve r x) later (serve-InCustody exact r x fresh c)
