-- ===== src/Execution/Paper/Sweep.antt =====
-- The kill-switch sweep: `cancel_all_open_orders` against the orders that were open.
use poly_meridian.Prelude.{
  ℕ, suc, ◌≡◌, refl, Bool, false, Option, none, some, [], ◌∷◌, String, if◌then◌else◌, arith,
  string_eq, count,
}
use Prim.Native.Nat.{◌+◌}
use poly_meridian.Prelude.Dict.{HasDistinctKeys, Dict, get, insert, remove, get-insert, get-remove}
use poly_meridian.Domain.{OrderStatus, is_open}
use poly_meridian.Domain
use poly_meridian.Execution.Paper.{PaperExecutor, with_status, cancel_open, cancel_all_open_orders}

module _ {D : Type 0} where
  -- The order that a sweep leaves: cancelled if it was open.
  abbrev pub swept : Domain.Order D → Domain.Order D
  swept o = if is_open o.status then record o { status = OrderStatus.cancelled } else o

  abbrev pub swept_at : Option (Domain.Order D) → Option (Domain.Order D) → Option (Domain.Order D)
  swept_at none old = old
  swept_at (some o) old = some (swept o)

  abbrev pub is_open_at : Option (Domain.Order D) → Bool
  is_open_at none = false
  is_open_at (some o) = is_open o.status

  abbrev open_entry : String × Domain.Order D → Bool
  open_entry e = is_open e.1.status

module _ {F D : Type 0} where
  -- The executor after one round.
  abbrev closed : String → Domain.Order D → PaperExecutor F D → PaperExecutor F D
  closed id o x =
      if is_open o.status
      then record x {
        orders = insert id (with_status OrderStatus.cancelled o) x.orders;
        resting = remove id x.resting;
      }
      else x

  later :
      (j : String) (o : Domain.Order D) (os : Dict String (Domain.Order D)) (x : PaperExecutor F D)
      → HasDistinctKeys ((j, o) ∷ os)
      → ((i : String) (p : Domain.Order D) → get i ((j, o) ∷ os) ≡ some p → get i x.orders ≡ some p)
      → (i : String) (p : Domain.Order D) → get i os ≡ some p
      → get i (closed j o x).orders ≡ some p
  later j o os x distinct known i p e = ground (
    arith,
    known i p,
    string_eq.beq_iff j i,
    get-insert j i (with_status OrderStatus.cancelled o) x.orders,
  )

  cancel_open_orders :
      (n : ℕ) (os : Dict String (Domain.Order D)) (x : PaperExecutor F D) (id : String)
      → HasDistinctKeys os
      → ((j : String) (o : Domain.Order D) → get j os ≡ some o → get j x.orders ≡ some o)
      → get id (cancel_open n os x).1.orders ≡ swept_at (get id os) (get id x.orders)
  unfolding cancel_open
  cancel_open_orders n [] x id distinct known = refl
  cancel_open_orders n ((j, o) ∷ os) x id distinct known = ground (
    arith,
    cancel_open_orders (if is_open o.status then suc n else n) os (closed j o x) id distinct.1
        (later j o os x distinct known),
    distinct.0,
    known id o,
    string_eq.beq_iff j id,
    get-insert j id (with_status OrderStatus.cancelled o) x.orders,
  )

  cancel_open_resting :
      (n : ℕ) (os : Dict String (Domain.Order D)) (x : PaperExecutor F D) (id : String)
      → HasDistinctKeys os
      → get id (cancel_open n os x).1.resting
        ≡ (if is_open_at (get id os) then none else get id x.resting)
  unfolding cancel_open
  cancel_open_resting n [] x id distinct = refl
  cancel_open_resting n ((j, o) ∷ os) x id distinct = ground (
    arith,
    cancel_open_resting (if is_open o.status then suc n else n) os (closed j o x) id distinct.1,
    distinct.0,
    string_eq.beq_iff j id,
    get-remove j id x.resting,
  )

  cancel_open-count :
      (n : ℕ) (os : Dict String (Domain.Order D)) (x : PaperExecutor F D)
      → (cancel_open n os x).0 ≡ n + count open_entry os
  unfolding cancel_open
  cancel_open-count n [] x = ground arith
  cancel_open-count n ((j, o) ∷ os) x =
      ground (arith, cancel_open-count (if is_open o.status then suc n else n) os (closed j o x))

  -- In an executor whose orders have distinct ids, the sweep cancels every open order, leaves every other order as it
  -- is, takes the cancelled orders off the virtual book, and returns how many it cancelled.
  pub cancel_all_sweeps :
      (x : PaperExecutor F D) (id : String)
      → HasDistinctKeys x.orders
      → let (n, y) = cancel_all_open_orders x in
        (get id y.orders ≡ swept_at (get id x.orders) none)
        × (get id y.resting ≡ (if is_open_at (get id x.orders) then none else get id x.resting))
        × (n ≡ count open_entry x.orders)
  unfolding cancel_all_open_orders
  cancel_all_sweeps x id distinct = (
    ground (arith, cancel_open_orders 0 x.orders x id distinct (λ j o e. e)),
    cancel_open_resting 0 x.orders x id distinct,
    ground (arith, cancel_open-count 0 x.orders x),
  )
