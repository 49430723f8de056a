-- ===== src/Execution/Live/Reconcile.antt =====
-- LiveExecutor.reconcile: what the listing of the venue's open orders changes.
use poly_meridian.Prelude.{
  ◌≡◌, refl, inl, inr, Option, none, some, List, [], ◌∷◌, String, if◌then◌else◌, arith,
  Option-cases, string_eq, ◌==◌,
}
use poly_meridian.Prelude.Dict.{Dict, get, get-insert, HasDistinctKeys}
use poly_meridian.Domain.{Datetime, OrderStatus}
use poly_meridian.Domain
use poly_meridian.Execution.Live.{
  LiveExecutor, listed, is_listed, settle_one, settle_each, reconcile,
}

module _ {D : Type 0} where
  abbrev pub taken_as_filled : Datetime → Domain.Order D → Domain.Order D
  taken_as_filled now o = elim o.status [
    | OrderStatus.live ↦ record o { status = OrderStatus.filled; ts_filled = some now }
    | _ ↦ o
  ]

  -- An order after a listing: a live one that the venue knew and no longer lists is taken as
  -- filled.
  abbrev pub settled :
      Datetime
      → List (Option String)
      → Option String
      → Option (Domain.Order D)
      → Option (Domain.Order D)
  settled now opens v none = none
  settled now opens none (some o) = some o
  settled now opens (some v) (some o) =
      some (if is_listed v opens then o else taken_as_filled now o)

module _ {F D : Type 0} where
  settle_one-orders :
      (now : Datetime) (opens : List (Option String)) (our_id v j : String) (x : LiveExecutor F D)
      → get j (settle_one now opens our_id v x).orders
        ≡ (if our_id == j then settled now opens (some v) (get our_id x.orders) else get j x.orders)
  unfolding settle_one
  settle_one-orders now opens our_id v j x = elim (Option-cases (get our_id x.orders)) [
    | inl missing ↦ ground (arith, string_eq.beq_iff our_id j)
    | inr (o, known) ↦ ground (
      arith,
      string_eq.beq_iff our_id j,
      get-insert our_id j (record o { status = OrderStatus.filled; ts_filled = some now }) x.orders,
    )
  ]

  settle_one-rest :
      (now : Datetime) (opens : List (Option String)) (our_id v : String) (x : LiveExecutor F D)
      → ((settle_one now opens our_id v x).reported ≡ x.reported)
        × ((settle_one now opens our_id v x).venue_id ≡ x.venue_id)
  unfolding settle_one
  settle_one-rest now opens our_id v x = ground arith

  settle_each-orders :
      (now : Datetime) (opens : List (Option String)) (vs : Dict String String)
      (x : LiveExecutor F D) (j : String)
      → HasDistinctKeys vs
      → get j (settle_each now opens vs x).orders ≡ settled now opens (get j vs) (get j x.orders)
  unfolding settle_each
  settle_each-orders now opens [] x j h = ground arith
  settle_each-orders now opens ((our_id, v) ∷ vs) x j h = ground (
    arith,
    settle_each-orders now opens vs (settle_one now opens our_id v x) j h.1,
    settle_one-orders now opens our_id v j x,
    h.0,
    string_eq.beq_iff our_id j,
  )

  settle_each-rest :
      (now : Datetime) (opens : List (Option String)) (vs : Dict String String)
      (x : LiveExecutor F D)
      → ((settle_each now opens vs x).reported ≡ x.reported)
        × ((settle_each now opens vs x).venue_id ≡ x.venue_id)
  unfolding settle_each
  settle_each-rest now opens [] x = (refl, refl)
  settle_each-rest now opens ((our_id, v) ∷ vs) x = ground (
    arith,
    settle_each-rest now opens vs (settle_one now opens our_id v x),
    settle_one-rest now opens our_id v x,
  )

  -- In an executor with one venue id per order, a listing turns exactly the live orders that the
  -- venue knew and no longer lists into filled ones, with the quantity that they had, leaves
  -- every other order as it is, and reports no fill.
  pub reconcile_settles :
      (now : Datetime) (opens : List (Option String)) (x : LiveExecutor F D) (id : String)
      → HasDistinctKeys x.venue_id
      → let y = reconcile now (listed opens) x in
        (get id y.orders ≡ settled now opens (get id x.venue_id) (get id x.orders))
        × (y.reported ≡ x.reported)
  unfolding reconcile
  reconcile_settles now opens x id distinct = (
    settle_each-orders now opens x.venue_id x id distinct,
    (settle_each-rest now opens x.venue_id x).0,
  )
