-- ===== src/Execution/Live/Sweep.antt =====
-- LiveExecutor.cancel and cancel_all_open_orders, against what the venue answers.
use Prim.Native.Nat.{◌+◌}
use poly_meridian.Prelude.{
  ℕ, suc, ◌≡◌, refl, inl, inr, Bool, true, false, not, ◌&&◌, Option, none, some, List, [], ◌∷◌,
  String, if◌then◌else◌, arith, Bool-cases, Option-cases, string_eq, ◌==◌, count,
}
use poly_meridian.Prelude.Dict.{Dict, get, get-insert, HasDistinctKeys}
use poly_meridian.Domain.{OrderStatus, is_open, is_final}
use poly_meridian.Domain
use poly_meridian.Execution.Paper.Entries.{is_in}
use poly_meridian.Execution.Paper.Sweep.{is_open_at}
use poly_meridian.Execution.Live.{
  LiveExecutor, Cancellation, cancel_failed, reply, flag, is_cancelled, with_status, cancel,
  cancel_known, cancel_each, open_ids, cancel_all_open_orders,
}

abbrev pub agrees_to : Cancellation → Bool
agrees_to cancel_failed = false
agrees_to (reply canceled status) = is_cancelled canceled status
agrees_to (flag ok) = ok

-- The venue lets an order go: it does not know the order, or it agrees to cancel it.
abbrev pub lets_go : (String → Cancellation) → Option String → Bool
lets_go venue none = true
lets_go venue (some v) = agrees_to (venue v)

final_or_open : (st : OrderStatus) → is_final st ≡ not (is_open st)
final_or_open st = ground arith

module _ {D : Type 0} where
  -- An open order that the venue lets go is cancelled, any other is as it was.
  abbrev pub closed : Bool → Option (Domain.Order D) → Option (Domain.Order D)
  closed free none = none
  closed free (some o) =
      some (if is_open o.status && free then with_status OrderStatus.cancelled o else o)

  closed_twice :
      (free : Bool) (o : Option (Domain.Order D)) → closed free (closed free o) ≡ closed free o
  closed_twice free o = ground arith

  open_ids-open :
      (j : String) (os : Dict String (Domain.Order D))
      → HasDistinctKeys os
      → is_in j (open_ids os) ≡ is_open_at (get j os)
  open_ids-open j [] h = refl
  open_ids-open j ((i, o) ∷ os) h =
      ground (arith, open_ids-open j os h.1, h.0, string_eq.beq_iff i j)

module _ {D : Type 0} (venue : String → Cancellation) where
  -- An open order that the venue lets go.
  abbrev pub closable : Dict String String → String × Domain.Order D → Bool
  closable ids e = is_open e.1.status && lets_go venue (get e.0 ids)

module _ {F D : Type 0} (venue : String → Cancellation) where
  pub cancel-orders :
      (id j : String) (x : LiveExecutor F D)
      → get j (cancel venue id x).1.orders ≡ (
          if id == j
          then closed (lets_go venue (get id x.venue_id)) (get id x.orders)
          else get j x.orders)
  unfolding cancel cancel_known
  cancel-orders id j x = elim (Option-cases (get id x.orders)) [
    | inl missing ↦ ground (arith, string_eq.beq_iff id j)
    | inr (o, known) ↦ ground (
      arith,
      final_or_open o.status,
      string_eq.beq_iff id j,
      get-insert id j (with_status OrderStatus.cancelled o) x.orders,
    )
  ]

  cancel-ids : (id : String) (x : LiveExecutor F D) → (cancel venue id x).1.venue_id ≡ x.venue_id
  unfolding cancel cancel_known
  cancel-ids id x = ground arith

  cancel-flag :
      (id : String) (x : LiveExecutor F D) (o : Domain.Order D)
      → get id x.orders ≡ some o
      → (cancel venue id x).0 ≡ (is_open o.status && lets_go venue (get id x.venue_id))
  unfolding cancel cancel_known
  cancel-flag id x o known = ground (arith, final_or_open o.status)

  cancel_each-orders :
      (ids : List String) (n : ℕ) (x : LiveExecutor F D) (j : String)
      → get j (cancel_each venue ids n x).1.orders ≡ (
          if is_in j ids
          then closed (lets_go venue (get j x.venue_id)) (get j x.orders)
          else get j x.orders)
  unfolding cancel_each
  cancel_each-orders [] n x j = refl
  cancel_each-orders (id ∷ ids) n x j =
      let y = (cancel venue id x).1 in
      let m = if (cancel venue id x).0 then suc n else n in
      ground (
        arith,
        cancel_each-orders ids m y j,
        cancel-orders id j x,
        cancel-ids id x,
        closed_twice (lets_go venue (get j x.venue_id)) (get j x.orders),
        string_eq.beq_iff id j,
      )

module _ {F D : Type 0} (venue : String → Cancellation) where
  later_orders :
      (i : String) (o : Domain.Order D) (os : Dict String (Domain.Order D)) (x : LiveExecutor F D)
      → HasDistinctKeys ((i, o) ∷ os)
      → ((j : String) (p : Domain.Order D) → get j ((i, o) ∷ os) ≡ some p → get j x.orders ≡ some p)
      → (j : String) (p : Domain.Order D) → get j os ≡ some p
      → get j (cancel venue i x).1.orders ≡ some p
  later_orders i o os x distinct known j p e =
      ground (arith, known j p, distinct.0, string_eq.beq_iff i j, cancel-orders venue i j x)

  cancel_each-count :
      (n : ℕ) (os : Dict String (Domain.Order D)) (x : LiveExecutor F D)
      → HasDistinctKeys os
      → ((j : String) (o : Domain.Order D) → get j os ≡ some o → get j x.orders ≡ some o)
      → (cancel_each venue (open_ids os) n x).0 ≡ n + count (closable venue x.venue_id) os
  unfolding cancel_each
  cancel_each-count n [] x distinct known = ground arith
  cancel_each-count n ((i, o) ∷ os) x distinct known = elim (Bool-cases (is_open o.status)) [
    | inr shut ↦ ground (
      arith,
      cancel_each-count n os x distinct.1
          (λ j p e. ground (arith, known j p, distinct.0, string_eq.beq_iff i j)),
    )
    | inl open_now ↦
        (let y = (cancel venue i x).1 in
          let m = if (cancel venue i x).0 then suc n else n in
          ground (
            arith,
            cancel_each-count m os y distinct.1 (later_orders i o os x distinct known),
            cancel-ids venue i x,
            cancel-flag venue i x o (known i o (ground (arith, string_eq.beq_iff i i))),
          ))
  ]

  -- In an executor whose orders have distinct ids, the sweep cancels every open order that the
  -- venue does not know or agrees to cancel, leaves every other order as it is even where a call
  -- of the venue raises, and returns how many it cancelled.
  pub cancel_all_live :
      (x : LiveExecutor F D) (id : String)
      → HasDistinctKeys x.orders
      → let (n, y) = cancel_all_open_orders venue x in
        (get id y.orders ≡ closed (lets_go venue (get id x.venue_id)) (get id x.orders))
        × (n ≡ count (closable venue x.venue_id) x.orders)
  unfolding cancel_all_open_orders
  cancel_all_live x id distinct = (
    ground (
      arith,
      cancel_each-orders venue (open_ids x.orders) 0 x id,
      open_ids-open id x.orders distinct,
    ),
    ground (arith, cancel_each-count 0 x.orders x distinct (λ j o e. e)),
  )
