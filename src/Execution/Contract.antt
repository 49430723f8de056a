-- ===== src/Execution/Contract.antt =====
-- src/poly_meridian/execution/base.py: the contract of `Executor`, and the two executors that
-- keep it.
use mathlib.Core.Path.{subst}
use poly_meridian.Prelude.{
  ◌≡◌, refl, ap, ◌∙◌, ◌⊎◌, inl, inr, Bool, true, false, Option, some, String, arith, string_eq,
  ◌==◌, Option-cases, Bool-cases,
}
use poly_meridian.Prelude.Dict.{get, insert, get-insert, get-insert_self}
use poly_meridian.Num.{Num, Convert, Quantize}
use poly_meridian.Domain.{Datetime, OrderStatus, TradeDecision, is_open, is_final}
use poly_meridian.Domain
use poly_meridian.Execution.Paper.{
  PaperExecutor, fill_order, apply_fill, fill_maker_from_book, fill_taker, post_maker,
}
use poly_meridian.Execution.Paper
use poly_meridian.Execution.Live.{
  LiveExecutor, Posted, post_failed, posted, Cancellation, with_status, cancel_known,
}
use poly_meridian.Execution.Live
use poly_meridian.Execution.Live.Sweep.{cancel-orders, lets_go}
use poly_meridian.Execution.Router.{
  Executor, Outcome, accepted, raised, route, submit_both, partner_of, leg_ok, cancel_leg,
}
use poly_meridian.Execution.Router.Legs.{route_unwinds}
use poly_meridian.Execution.Router.Paper.{paper}

module _ {D : Type 0} where
  -- An order as it was, or the same order cancelled.
  abbrev pub KeptOrCancelled : Option (Domain.Order D) → Option (Domain.Order D) → Type 0
  KeptOrCancelled old new =
      (new ≡ old)
      ⊎ ((o : Domain.Order D) × (old ≡ some o)
          × (is_open o.status ≡ true)
          × (new ≡ some (record o { status = OrderStatus.cancelled })))

  -- The order that a trade decision asks for.
  pub record Asked (d : TradeDecision D) (o : Domain.Order D) : Type 0 where
    pub same_token : o.token_id ≡ d.token_id
    pub same_side : o.side ≡ d.side
    pub same_type : o.order_type ≡ d.order_type
    pub same_price : o.price ≡ d.price
    pub same_size : o.size ≡ d.size
    pub same_strategy : o.strategy ≡ d.strategy

accepted_inj : {D : Type 0} {o p : Domain.Order D} → accepted o ≡ accepted p → o ≡ p
accepted_inj e = cc

-- What every executor promises: an accepted submission returns the order that was asked for and
-- that it can be asked for again, and a cancellation cancels an open order or changes nothing.
pub record IsLawful {E D : Type 0} (ex : Executor E D) : Type 0 where
  pub asked :
      (d : TradeDecision D) (e : E) (o : Domain.Order D)
      → (ex.submit d e).0 ≡ accepted o
      → Asked d o
  pub stored :
      (d : TradeDecision D) (e : E) (o : Domain.Order D)
      → (ex.submit d e).0 ≡ accepted o
      → ex.order_now o.order_id (ex.submit d e).1 ≡ some o
  pub cancels :
      (id j : String) (e : E) → KeptOrCancelled (ex.order_now j e) (ex.order_now j (ex.cancel id e))

module _ {F D : Type 0} (post : TradeDecision D → Posted) (venue : String → Cancellation)
    (new_id : LiveExecutor F D → String) ⦃nd : Num D⦄ where
  -- The live executor behind the router's interface.
  abbrev pub live : Executor (LiveExecutor F D) D
  live = record {
    submit = λ d x. let (o, y) = Live.submit (post d) (new_id x) d x in (accepted o, y);
    cancel = λ id x. (Live.cancel venue id x).1;
    order_now = Live.get_order;
  }

  live-Asked :
      (answer : Posted) (id : String) (d : TradeDecision D) (x : LiveExecutor F D)
      → Asked d (Live.submit answer id d x).0
        × (Live.get_order (Live.submit answer id d x).0.order_id (Live.submit answer id d x).1
            ≡ some (Live.submit answer id d x).0)
  unfolding Live.submit Live.get_order
  live-Asked post_failed id d x =
      let o = Live.order_of id x.mode OrderStatus.rejected d in
      (
        record {
          same_token = refl;
          same_side = refl;
          same_type = refl;
          same_price = refl;
          same_size = refl;
          same_strategy = refl;
        },
        get-insert_self id o (Live.begin_submit id d x).orders,
      )
  live-Asked (posted answer) id d x =
      let o = Live.order_of id x.mode OrderStatus.live d in
      (
        record {
          same_token = refl;
          same_side = refl;
          same_type = refl;
          same_price = refl;
          same_size = refl;
          same_strategy = refl;
        },
        get-insert_self id o (Live.begin_submit id d x).orders,
      )

  live_cancels :
      (id j : String) (x : LiveExecutor F D)
      → KeptOrCancelled (get j x.orders) (get j (Live.cancel venue id x).1.orders)
  live_cancels id j x = elim (Option-cases (get j x.orders)) [
    | inl missing ↦ inl (ground (arith, cancel-orders venue id j x, string_eq.beq_iff id j))
    | inr (o, known) ↦ elim (Bool-cases (is_open o.status)) [
      | inr shut ↦ inl (ground (arith, cancel-orders venue id j x, string_eq.beq_iff id j))
      | inl open_now ↦ elim (Bool-cases (id == j)) [
        | inr other ↦ inl (ground (arith, cancel-orders venue id j x))
        | inl same ↦ elim (Bool-cases (lets_go venue (get id x.venue_id))) [
          | inr held ↦ inl (ground (arith, cancel-orders venue id j x, string_eq.beq_iff id j))
          | inl free ↦ inr (
            o,
            known,
            open_now,
            ground (arith, cancel-orders venue id j x, string_eq.beq_iff id j),
          )
        ]
      ]
    ]
  ]

  -- The live executor keeps the contract, whatever the venue answers.
  pub live-IsLawful : IsLawful live
  unfolding Live.get_order
  live-IsLawful = record {
    asked = λ d x o e. rw (accepted_inj e) at (live-Asked (post d) (new_id x) d x).0;
    stored = λ d x o e.
        let same = accepted_inj e in
        subst
          (λ (p : Domain.Order D).
            Live.get_order p.order_id (Live.submit (post d) (new_id x) d x).1 ≡ some p)
          same (live-Asked (post d) (new_id x) d x).1;
    cancels = live_cancels;
  }

module _ {D : Type 0} where
  -- The same order, whatever has been filled of it.
  record SameOrder (o p : Domain.Order D) : Type 0 where
    pub id : p.order_id ≡ o.order_id
    pub token : p.token_id ≡ o.token_id
    pub side : p.side ≡ o.side
    pub kind : p.order_type ≡ o.order_type
    pub price : p.price ≡ o.price
    pub size : p.size ≡ o.size
    pub strategy : p.strategy ≡ o.strategy

module _ {F D : Type 0} ⦃nf : Num F⦄ ⦃nd : Num D⦄ ⦃qd : Quantize D⦄ ⦃cv : Convert F D⦄ where
  fill_taker-SameOrder :
      (x : PaperExecutor F D) (now : Datetime) (whole : Bool) (o : Domain.Order D)
      → SameOrder o (fill_taker x now whole o).0
  unfolding fill_taker apply_fill fill_order
  fill_taker-SameOrder x now whole o = ground arith

  post_maker-SameOrder :
      (x : PaperExecutor F D) (now : Datetime) (o : Domain.Order D)
      → SameOrder o (post_maker x now o).0
  unfolding post_maker fill_maker_from_book apply_fill fill_order
  post_maker-SameOrder x now o = ground arith

  execute-SameOrder :
      (x : PaperExecutor F D) (now : Datetime) (o : Domain.Order D)
      → SameOrder o (Paper.execute x now o).0
  execute-SameOrder x now o = ground (
    arith,
    fill_taker-SameOrder x now true o,
    fill_taker-SameOrder x now false o,
    post_maker-SameOrder x now o,
  )

  paper-Asked :
      (id : String) (now : Datetime) (d : TradeDecision D) (x : PaperExecutor F D)
      → Asked d (Paper.submit id now d x).0
        × (Paper.get_order (Paper.submit id now d x).0.order_id (Paper.submit id now d x).1
            ≡ some (Paper.submit id now d x).0)
  unfolding Paper.submit Paper.get_order
  paper-Asked id now d x =
      let o = (Paper.execute x now (Paper.order_of id d)).0 in
      let s = execute-SameOrder x now (Paper.order_of id d) in
      (
        record {
          same_token = s.token;
          same_side = s.side;
          same_type = s.kind;
          same_price = s.price;
          same_size = s.size;
          same_strategy = s.strategy;
        },
        ap (λ (j : String). get j (insert id o x.orders)) s.id ∙ get-insert_self id o x.orders,
      )

  paper_cancels :
      (id j : String) (x : PaperExecutor F D)
      → KeptOrCancelled (get j x.orders) (get j (Paper.cancel id x).1.orders)
  unfolding Paper.cancel
  paper_cancels id j x = elim (Option-cases (get id x.orders)) [
    | inl missing ↦ inl (ground arith)
    | inr (o, known) ↦ elim (Bool-cases (is_final o.status)) [
      | inl final ↦ inl (ground arith)
      | inr open_now ↦ elim (Bool-cases (id == j)) [
        | inr other ↦
            inl
              (ground (arith, get-insert id j (Paper.with_status OrderStatus.cancelled o) x.orders))
        | inl same ↦ inr (
          o,
          ground (arith, string_eq.beq_iff id j),
          ground arith,
          ground (arith, get-insert id j (Paper.with_status OrderStatus.cancelled o) x.orders),
        )
      ]
    ]
  ]

module _ {F D : Type 0} ⦃nf : Num F⦄ ⦃nd : Num D⦄ ⦃qd : Quantize D⦄ ⦃cv : Convert F D⦄
    (new_id : PaperExecutor F D → String) (now : Datetime) where
  -- The paper executor keeps the contract.
  pub paper-IsLawful : IsLawful (paper new_id now)
  unfolding Paper.get_order
  paper-IsLawful = record {
    asked = λ d x o e. rw (accepted_inj e) at (paper-Asked (new_id x) now d x).0;
    stored = λ d x o e.
        subst
          (λ (p : Domain.Order D).
            Paper.get_order p.order_id (Paper.submit (new_id x) now d x).1 ≡ some p)
          (accepted_inj e) (paper-Asked (new_id x) now d x).1;
    cancels = paper_cancels;
  }

module _ {E D : Type 0} (ex : Executor E D) (lawful : IsLawful ex) where
  cancel_leg-KeptOrCancelled :
      (a : Outcome D) (e : E) (j : String)
      → KeptOrCancelled (ex.order_now j e) (ex.order_now j (cancel_leg ex a e))
  cancel_leg-KeptOrCancelled (accepted o) e j = lawful.cancels o.order_id j e
  cancel_leg-KeptOrCancelled raised e j = inl refl

  -- On a lawful executor, what the router does after the two submissions of a pair leaves every
  -- order as they left it, or cancels it where it is open; no order is added or removed.
  pub route-KeptOrCancelled :
      (first : Bool) (token : String) (d : TradeDecision D) (e : E) (j : String)
      → d.paired_token ≡ some token
      → KeptOrCancelled
          (ex.order_now j (submit_both ex first d (partner_of token d) e).2)
          (ex.order_now j (route ex first d e).1)
  route-KeptOrCancelled first token d e j paired =
      let (a, b, sent) = submit_both ex first d (partner_of token d) e in
      rw ((route_unwinds ex first token d e paired).0) (elim (Bool-cases (leg_ok a)) [
        | inl ok ↦ elim (Bool-cases (leg_ok b)) [
          | inl both ↦ rw (ok, both) (inl refl)
          | inr alone ↦ rw (ok, alone) (cancel_leg-KeptOrCancelled a sent j)
        ]
        | inr failed ↦ elim (Bool-cases (leg_ok b)) [
          | inl alone ↦ rw (failed, alone) (cancel_leg-KeptOrCancelled b sent j)
          | inr neither ↦ rw (failed, neither) (inl refl)
        ]
      ])
