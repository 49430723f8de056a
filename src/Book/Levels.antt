-- ===== src/Book/Levels.antt =====
-- The levels of a book: the best prices, and the sizes that are kept.
use mathlib.Core.Path.{subst}
use poly_meridian.Prelude.{
  String, ◌≡◌, ◌↔◌, sym, true, false, some, List, [], ◌∷◌, arith, All, Bool-cases, Option-cases,
  inl, inr,
}
use poly_meridian.Prelude.Dict.{Dict, get, get-All, insert, remove, keys}
use poly_meridian.Num.{Num, ◌<?◌, ◌≤?◌, lit, min, max, num_eq}
use poly_meridian.Num.Order.{
  le_refl, le_antisymm, le_trans, le_max_left, le_max_right, min_le_left, min_le_right,
}
use poly_meridian.Book.{
  LocalBook, Level, Change, load_levels, apply_snapshot, apply_change, apply_price_change, max_from,
  min_from, priced, best_bid, best_ask,
}

module _ {D : Type 0} ⦃nd : Num D⦄ where
  -- Every level of a side has a positive size.
  abbrev pub PositiveSide : Dict D D → Type 0
  PositiveSide = All (λ (e : D × D). (lit 0 0 <? e.1) ≡ true)

  abbrev pub IsPositive : LocalBook D → Type 0
  IsPositive b = PositiveSide b.bids × PositiveSide b.asks

  insert-Positive :
      (p s : D) (side : Dict D D)
      → (lit 0 0 <? s) ≡ true
      → PositiveSide side
      → PositiveSide (insert p s side)
  insert-Positive p s [] h k = (h, tt)
  insert-Positive p s (e ∷ side) h k = ground (arith, insert-Positive p s side h k.1)

  remove-Positive : (p : D) (side : Dict D D) → PositiveSide side → PositiveSide (remove p side)
  remove-Positive p [] k = tt
  remove-Positive p (e ∷ side) k = ground (arith, remove-Positive p side k.1)

  load-Positive :
      (ls : List (Level D)) (side : Dict D D)
      → PositiveSide side
      → PositiveSide (load_levels ls side)
  unfolding load_levels
  load-Positive [] side k = k
  load-Positive (l ∷ ls) side k = elim (Bool-cases (lit 0 0 <? l.size)) [
    | inl kept ↦
        rw kept (
          load-Positive ls (insert l.price l.size side)
            (insert-Positive l.price l.size side kept k))
    | inr dropped ↦ rw dropped (load-Positive ls side k)
  ]

  change-Positive :
      (c : Change D) (b : LocalBook D)
      → (lit 0 0 ≤? c.size) ≡ true
      → IsPositive b
      → IsPositive (apply_change c b)
  unfolding apply_change
  change-Positive c b h k = ground (
    arith,
    remove-Positive c.price b.bids k.0,
    remove-Positive c.price b.asks k.1,
    insert-Positive c.price c.size b.bids,
    insert-Positive c.price c.size b.asks,
    nd.le_not_lt (lit 0 0) c.size,
    nd.lt_total c.size (lit 0 0),
    nd.eq_iff c.size (lit 0 0),
  )

  -- After a snapshot of any levels and then any updates whose sizes are not negative, every level
  -- of the book has a positive size.
  pub snapshot_changes-IsPositive :
      (bids asks : List (Level D)) (cs : List (Change D)) (b : LocalBook D)
      → All (λ (c : Change D). (lit 0 0 ≤? c.size) ≡ true) cs
      → IsPositive (apply_price_change cs (apply_snapshot bids asks b))
  unfolding apply_snapshot apply_price_change
  snapshot_changes-IsPositive bids asks cs b h =
      go cs (apply_snapshot bids asks b) h (load-Positive bids [] tt, load-Positive asks [] tt)
    where
      go :
          (ds : List (Change D)) (x : LocalBook D)
          → All (λ (c : Change D). (lit 0 0 ≤? c.size) ≡ true) ds
          → IsPositive x
          → IsPositive (apply_price_change ds x)
      go [] x g k = k
      go (d ∷ ds) x g k = go ds (apply_change d x) g.1 (change-Positive d x g.0 k)

  -- No key of a side is above the maximum, which is a key itself.
  max_from-le :
      (m : D) (side : Dict D D)
      → ((m ≤? max_from m (keys side)) ≡ true)
        × All (λ (e : D × D). (e.0 ≤? max_from m (keys side)) ≡ true) side
  max_from-le m [] = (le_refl {A = D} m, tt)
  max_from-le m ((p, s) ∷ side) =
      let (first, rest) = max_from-le (max m p) side in
      (
        le_trans {A = D} m (max m p) (max_from (max m p) (keys side)) (le_max_left {A = D} m p)
            first,
        (
          le_trans {A = D} p (max m p) (max_from (max m p) (keys side)) (le_max_right {A = D} m p)
              first,
          rest,
        ),
      )

  min_from-le :
      (m : D) (side : Dict D D)
      → ((min_from m (keys side) ≤? m) ≡ true)
        × All (λ (e : D × D). (min_from m (keys side) ≤? e.0) ≡ true) side
  min_from-le m [] = (le_refl {A = D} m, tt)
  min_from-le m ((p, s) ∷ side) =
      let (first, rest) = min_from-le (min m p) side in
      (
        le_trans {A = D} (min_from (min m p) (keys side)) (min m p) m first
            (min_le_left {A = D} m p),
        (
          le_trans {A = D} (min_from (min m p) (keys side)) (min m p) p first
              (min_le_right {A = D} m p),
          rest,
        ),
      )

  priced_lem :
      (m : D) (side : Dict D D) (best : D × D)
      → priced m side ≡ some best
      → (best.0 ≡ m) × (get best.0 side ≡ some best.1)
  priced_lem m side best h = elim (Option-cases (get m side)) [
    | inl missing ↦ absurd (ground arith)
    | inr (size, known) ↦ ground arith
  ]

  best_bid_lem :
      (t : String) (bids asks : Dict D D) (bid : D × D)
      → best_bid (record { token_id = t; bids = bids; asks = asks }) ≡ some bid
      → (get bid.0 bids ≡ some bid.1) × All (λ (e : D × D). (e.0 ≤? bid.0) ≡ true) bids
  unfolding best_bid
  best_bid_lem t [] asks bid h = cc
  best_bid_lem t (e ∷ bids) asks bid h =
      let (at, known) = priced_lem (max_from e.0 (keys bids)) (e ∷ bids) bid h in
      (
        known,
        subst (λ (m : D). All (λ (l : D × D). (l.0 ≤? m) ≡ true) (e ∷ bids)) (sym at)
            (max_from-le e.0 bids),
      )

  best_ask_lem :
      (t : String) (bids asks : Dict D D) (ask : D × D)
      → best_ask (record { token_id = t; bids = bids; asks = asks }) ≡ some ask
      → (get ask.0 asks ≡ some ask.1) × All (λ (e : D × D). (ask.0 ≤? e.0) ≡ true) asks
  unfolding best_ask
  best_ask_lem t bids [] ask h = cc
  best_ask_lem t bids (e ∷ asks) ask h =
      let (at, known) = priced_lem (min_from e.0 (keys asks)) (e ∷ asks) ask h in
      (
        known,
        subst (λ (m : D). All (λ (l : D × D). (m ≤? l.0) ≡ true) (e ∷ asks)) (sym at)
            (min_from-le e.0 asks),
      )

  -- The best bid and the best ask, when the book has both, are levels of the book; no bid is
  -- above the first and no ask below the second.
  pub best_prices :
      (b : LocalBook D) (bid ask : D × D)
      → best_bid b ≡ some bid
      → best_ask b ≡ some ask
      → ((get bid.0 b.bids ≡ some bid.1) × All (λ (e : D × D). (e.0 ≤? bid.0) ≡ true) b.bids)
        × (get ask.0 b.asks ≡ some ask.1)
        × All (λ (e : D × D). (ask.0 ≤? e.0) ≡ true) b.asks
  best_prices b bid ask eb ea =
      let (ask_known, lowest) = best_ask_lem b.token_id b.bids b.asks ask ea in
      (best_bid_lem b.token_id b.bids b.asks bid eb, ask_known, lowest)

  -- A level of the side, with its size, than which no level is lower.
  abbrev pub IsLowest : D × D → Dict D D → Type 0
  IsLowest top side =
      (get top.0 side ≡ some top.1) × All (λ (e : D × D). (top.0 ≤? e.0) ≡ true) side

  min_right : (m p : D) → (p <? m) ≡ true → min m p ≡ p
  min_right m p h = ground arith

  min_left : (m p : D) → (p <? m) ≡ false → min m p ≡ m
  min_left m p h = ground arith

  min-All : (P : D → Type 0) (m p : D) → P m → P p → P (min m p)
  min-All P m p h k = elim (Bool-cases (p <? m)) [
    | inl below ↦ subst P (sym (min_right m p below)) k
    | inr above ↦ subst P (sym (min_left m p above)) h
  ]

  min_from-All :
      (P : D → Type 0) (m : D) (side : Dict D D)
      → P m
      → All (λ (e : D × D). P e.0) side
      → P (min_from m (keys side))
  min_from-All P m [] h hs = h
  min_from-All P m ((p, s) ∷ side) h (first, rest) =
      min_from-All P (min m p) side (min-All P m p h first) rest

  priced_at :
      (m : D) (side : Dict D D) (best : D × D)
      → m ≡ best.0
      → get best.0 side ≡ some best.1
      → priced m side ≡ some best
  priced_at m side best at known =
      subst (λ (p : D). priced p side ≡ some best) (sym at) (ground (arith, known))

  -- The best ask of a book is its lowest level.
  pub best_ask_iff : (b : LocalBook D) (top : D × D) → (best_ask b ≡ some top) ↔ IsLowest top b.asks
  unfolding best_ask
  best_ask_iff b top = (best_ask_lem b.token_id b.bids b.asks top, go b.asks)
    where
      go :
          (asks : Dict D D)
          → IsLowest top asks
          → best_ask (record { token_id = b.token_id; bids = b.bids; asks = asks }) ≡ some top
      go [] low = absurd (ground arith)
      go (e ∷ asks) (known, low) =
          let m = min_from e.0 (keys asks) in
          let at : m ≡ top.0 =
            le_antisymm {A = D} m top.0
              (get-All (λ (l : D × D). (m ≤? l.0) ≡ true) top.0 top.1 (e ∷ asks) known
                (min_from-le e.0 asks))
              (min_from-All (λ (p : D). (top.0 ≤? p) ≡ true) e.0 asks low.0 low.1) in
          priced_at m (e ∷ asks) top at known
