-- ===== src/Portfolio/Ledger/History.antt =====
-- The ledger against its log, over sequences of `apply_fill` and `mark`.
use poly_meridian.Prelude.{
  ◌≡◌, refl, ap, ◌∙◌, Option, none, some, List, [], ◌∷◌, ◌++◌, map, String, if◌then◌else◌, ◌==◌,
  string_eq, arith, Bool-cases, inl, inr, Option-cases,
}
use poly_meridian.Prelude.Dict.{get, get-insert}
use poly_meridian.Num.{Num, Quantize, ◌+◌, lit, num_eq, sum_from, sum}
use poly_meridian.Domain.{Datetime}
use poly_meridian.Portfolio.Ledger.{
  LedgerEntry, PositionState, Ledger, Fill, new_ledger, apply_fill, mark, signed_qty, notional,
  entry_of, filled_position, position_or_new,
}

-- The operations that change a ledger between two restarts.
pub data Op (D : Type 0) : Type 0 where
  fill_of : Fill D → Op D
  mark_of : String → D → Datetime → Op D

module _ {F D : Type 0} ⦃nd : Num D⦄ ⦃qd : Quantize D⦄ where
  unfoldable pub step : Op D → Ledger F D → Ledger F D
  unfolding apply_fill mark
  step (fill_of f) l = (apply_fill f l).1
  step (mark_of token price now) l = mark token price now l

  unfoldable pub run : List (Op D) → Ledger F D → Ledger F D
  unfolding step
  run [] l = l
  run (o ∷ os) l = run os (step o l)

module _ {D : Type 0} ⦃nd : Num D⦄ where
  -- The quantities that the log records for a token, in order.
  abbrev pub traded : String → List (LedgerEntry D) → List D
  traded token [] = []
  traded token (e ∷ es) =
      let rest = traded token es in if e.token_id == token then e.qty ∷ rest else rest
  -- The quantity of a token in the positions; a token without a position has none.

module _ {F D : Type 0} ⦃nd : Num D⦄ where
  abbrev qty_of : Option (PositionState F D) → D
  qty_of none = lit 0 0
  qty_of (some p) = p.qty

  abbrev pub held_qty : String → Ledger F D → D
  held_qty token l = qty_of (get token l.positions_by_token)

  -- What the log says of the cash and of each position.
  pub record Agrees (l : Ledger F D) : Type 0 where
    pub cash_agrees :
        l.cash ≡ sum_from l.starting_cash (map (λ (e : LedgerEntry D). e.notional) l.entries)
    pub qty_agrees : (token : String) → held_qty token l ≡ sum (traded token l.entries)

module _ {D : Type 0} ⦃nd : Num D⦄ where
  sum_from-append : (a : D) (xs : List D) (x : D) → sum_from a (xs ++ x ∷ []) ≡ sum_from a xs + x
  sum_from-append a [] x = refl
  sum_from-append a (y ∷ xs) x = sum_from-append (a + y) xs x

  map-notional :
      (es : List (LedgerEntry D)) (e : LedgerEntry D)
      → map (λ (d : LedgerEntry D). d.notional) (es ++ e ∷ [])
        ≡ map (λ (d : LedgerEntry D). d.notional) es ++ e.notional ∷ []
  map-notional [] e = refl
  map-notional (d ∷ es) e = ap (λ (t : List D). d.notional ∷ t) (map-notional es e)

  traded-append :
      (token : String) (es : List (LedgerEntry D)) (e : LedgerEntry D)
      → traded token (es ++ e ∷ [])
        ≡ (if e.token_id == token then traded token es ++ e.qty ∷ [] else traded token es)
  traded-append token [] e = ground arith
  traded-append token (d ∷ es) e = ground (arith, traded-append token es e)

module _ {F D : Type 0} ⦃nd : Num D⦄ ⦃qd : Quantize D⦄ where
  filled_qty_lem :
      (f : Fill D) (p : PositionState F D) → (filled_position f p).qty ≡ p.qty + signed_qty f
  unfolding filled_position
  filled_qty_lem f p = ground arith

  pub fill-Agrees : (f : Fill D) (l : Ledger F D) → Agrees l → Agrees (step (fill_of f) l)
  unfolding step
  fill-Agrees f l a = record {
    cash_agrees = rw (
      map-notional l.entries (entry_of f),
      sum_from-append l.starting_cash (map (λ (e : LedgerEntry D). e.notional) l.entries)
          (notional f),
      a.cash_agrees,
    );
    qty_agrees = λ token. ground (
      arith,
      get-insert f.order.token_id token
          (filled_position f (position_or_new f.order.token_id f.ts l)) l.positions_by_token,
      filled_qty_lem f (position_or_new f.order.token_id f.ts l),
      traded-append token l.entries (entry_of f),
      sum_from-append (lit 0 0) (traded token l.entries) (signed_qty f),
      a.qty_agrees token,
      string_eq.beq_iff f.order.token_id token,
    );
  }

  -- The positions after a fill and after a mark, with the position's own change left shut.
  pub get-fill :
      (f : Fill D) (token : String) (l : Ledger F D)
      → get token (step (fill_of f) l).positions_by_token ≡ (
          if f.order.token_id == token
          then some (filled_position f (position_or_new f.order.token_id f.ts l))
          else get token l.positions_by_token)
  unfolding step
  get-fill f token l =
      get-insert f.order.token_id token
        (filled_position f (position_or_new f.order.token_id f.ts l)) l.positions_by_token

  -- A marked position has the entry tag, the horizon and the quantity that it had.
  pub get-mark :
      (t : String) (price : D) (now : Datetime) (token : String) (l : Ledger F D)
      {p : PositionState F D}
      → get token (step (mark_of t price now) l).positions_by_token ≡ some p
      → (q : PositionState F D) × (get token l.positions_by_token ≡ some q)
        × (p.entry_strategy ≡ q.entry_strategy)
        × (p.horizon ≡ q.horizon)
        × (p.qty ≡ q.qty)
  unfolding step
  get-mark t price now token l {p} e = elim (Option-cases (get t l.positions_by_token)) [
    | inl none_at ↦ (p, ground arith, refl, refl, refl)
    | inr (q, known) ↦ elim (Bool-cases (q.qty == lit 0 0)) [
      | inl empty ↦ (p, ground arith, refl, refl, refl)
      | inr full ↦ elim (Bool-cases (t == token)) [
        | inl same ↦ (
          q,
          ground (arith, string_eq.beq_iff t token),
          ground (
            arith,
            get-insert t token (record q { last_mark = price; last_updated = now })
                l.positions_by_token,
          ),
          ground (
            arith,
            get-insert t token (record q { last_mark = price; last_updated = now })
                l.positions_by_token,
          ),
          ground (
            arith,
            get-insert t token (record q { last_mark = price; last_updated = now })
                l.positions_by_token,
          ),
        )
        | inr other ↦ (
          p,
          ground (
            arith,
            get-insert t token (record q { last_mark = price; last_updated = now })
                l.positions_by_token,
          ),
          refl,
          refl,
          refl,
        )
      ]
    ]
  ]

  mark-frame :
      (token : String) (price : D) (now : Datetime) (l : Ledger F D)
      → ((mark token price now l).cash ≡ l.cash)
        × ((mark token price now l).starting_cash ≡ l.starting_cash)
        × ((mark token price now l).entries ≡ l.entries)
  unfolding step
  mark-frame token price now l = ground arith

  mark-held_qty :
      (token t : String) (price : D) (now : Datetime) (l : Ledger F D)
      → held_qty t (mark token price now l) ≡ held_qty t l
  unfolding step
  mark-held_qty token t price now l = elim (Option-cases (get token l.positions_by_token)) [
    | inl e ↦ ground arith
    | inr (p, e) ↦ ground (
      arith,
      get-insert token t (record p { last_mark = price; last_updated = now }) l.positions_by_token,
      string_eq.beq_iff token t,
    )
  ]

  pub mark-Agrees :
      (token : String) (price : D) (now : Datetime) (l : Ledger F D)
      → Agrees l
      → Agrees (step (mark_of token price now) l)
  unfolding step
  mark-Agrees token price now l a = record {
    cash_agrees =
        rw
          (
            (mark-frame token price now l).0,
            (mark-frame token price now l).1,
            (mark-frame token price now l).2,
          )
          a.cash_agrees;
    qty_agrees = λ t.
        rw (mark-frame token price now l).2 (mark-held_qty token t price now l ∙ a.qty_agrees t);
  }

  -- After any sequence of fills and marks on a new ledger, the cash is the starting cash with the
  -- notionals of the log added in order, and the quantity held of every token is the sum of the
  -- signed quantities that the log records for it.
  pub run-Agrees : (cash : D) (os : List (Op D)) → Agrees {F = F} (run os (new_ledger cash))
  unfolding run
  run-Agrees cash os =
      go os (new_ledger cash) (record { cash_agrees = refl; qty_agrees = λ token. refl })
    where
      go : (ds : List (Op D)) (l : Ledger F D) → Agrees l → Agrees (run ds l)
      go [] l a = a
      go (fill_of f ∷ ds) l a = go ds (step (fill_of f) l) (fill-Agrees f l a)
      go (mark_of t p n ∷ ds) l a = go ds (step (mark_of t p n) l) (mark-Agrees t p n l a)
