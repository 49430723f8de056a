-- ===== src/Portfolio/Ledger/Tags.antt =====
-- The entry strategy and the horizon that `apply_fill` stamps on a position.
use text.Mathlib.Text.{starts_with}
use poly_meridian.Prelude.{
  ◌≡◌, ◌∙◌, Option, none, some, List, [], ◌∷◌, String, if◌then◌else◌, ◌==◌, string_eq, arith,
  Option-cases, Bool-cases, inl, inr,
}
use poly_meridian.Prelude.Dict.{get, get-insert}
use poly_meridian.Num.{Num, Quantize}
use poly_meridian.Domain.{Datetime}
use poly_meridian.Portfolio.Ledger.{
  PositionState, Horizon, intraday, to_resolution, Ledger, Fill, new_ledger, filled_position,
  position_or_new,
}
use poly_meridian.Portfolio.Ledger.History.{Op, fill_of, mark_of, step, run, get-fill, get-mark}

abbrev pub horizon_of : String → Horizon
horizon_of strategy = if starts_with strategy "fundamentals" then to_resolution else intraday

abbrev pub tag_horizon : Option String → Option Horizon
tag_horizon none = none
tag_horizon (some s) = some (horizon_of s)

module _ {F D : Type 0} where
  -- An untagged position has no horizon; a tagged one has that of its strategy.
  abbrev pub IsTagged : PositionState F D → Type 0
  IsTagged p = p.horizon ≡ tag_horizon p.entry_strategy

  abbrev tag_at : Option (PositionState F D) → Option String
  tag_at none = none
  tag_at (some p) = p.entry_strategy

  -- The entry strategy of a token's position, if it has one.
  abbrev pub entry_tag : String → Ledger F D → Option String
  entry_tag token l = tag_at (get token l.positions_by_token)

  pub record AllTagged (l : Ledger F D) : Type 0 where
    pub at :
        (token : String) (p : PositionState F D)
        → get token l.positions_by_token ≡ some p
        → IsTagged p

module _ {F D : Type 0} ⦃nd : Num D⦄ ⦃qd : Quantize D⦄ where
  fill_keeps :
      (f : Fill D) (p : PositionState F D) (s : String)
      → p.entry_strategy ≡ some s
      → (filled_position f p).entry_strategy ≡ some s
  unfolding filled_position
  fill_keeps f p s h = ground arith

  fill-IsTagged : (f : Fill D) (p : PositionState F D) → IsTagged p → IsTagged (filled_position f p)
  unfolding filled_position
  fill-IsTagged f p h = ground arith

  new-IsTagged :
      (token : String) (f : Fill D) (l : Ledger F D)
      → AllTagged l
      → IsTagged (position_or_new token f.ts l)
  new-IsTagged token f l a = elim (Option-cases (get token l.positions_by_token)) [
    | inl new ↦ ground arith
    | inr (p, e) ↦ ground (arith, a.at token p e)
  ]

  step-AllTagged : (o : Op D) (l : Ledger F D) → AllTagged l → AllTagged (step o l)
  step-AllTagged (fill_of f) l a = record {
    at = λ token p e.
        let q = position_or_new f.order.token_id f.ts l in
        elim (Bool-cases (f.order.token_id == token)) [
          | inl same ↦
              (let is : p ≡ filled_position f q = ground (arith, get-fill f token l) in
                rw is (fill-IsTagged f q (new-IsTagged f.order.token_id f l a)))
          | inr other ↦ a.at token p (ground (arith, get-fill f token l))
        ];
  }
  step-AllTagged (mark_of t price now) l a = record {
    at = λ token p e.
        let (q, known, tag, horizon, qty) = get-mark t price now token l e in
        rw (tag, horizon) (a.at token q known);
  }

  mark-entry_tag :
      (t token : String) (price : D) (now : Datetime) (l : Ledger F D)
      → entry_tag token (step (mark_of t price now) l) ≡ entry_tag token l
  unfolding step
  mark-entry_tag t token price now l = elim (Option-cases (get t l.positions_by_token)) [
    | inl missing ↦ ground arith
    | inr (p, e) ↦ ground (
      arith,
      get-insert t token (record p { last_mark = price; last_updated = now }) l.positions_by_token,
      string_eq.beq_iff t token,
    )
  ]

  step-entry_tag :
      (o : Op D) (l : Ledger F D) (token s : String)
      → entry_tag token l ≡ some s
      → entry_tag token (step o l) ≡ some s
  step-entry_tag (fill_of f) l token s h = elim (Option-cases (get token l.positions_by_token)) [
    | inl missing ↦ absurd (ground arith)
    | inr (p, known) ↦ elim (Bool-cases (f.order.token_id == token)) [
      | inl same ↦
          (let there : get f.order.token_id l.positions_by_token ≡ some p =
              ground (arith, string_eq.beq_iff f.order.token_id token) in
            ground (arith, get-fill f token l, fill_keeps f p s))
      | inr other ↦ ground (arith, get-fill f token l)
    ]
  ]
  step-entry_tag (mark_of t price now) l token s h = mark-entry_tag t token price now l ∙ h

  -- After any sequence of fills and marks on a new ledger every position has the horizon of its
  -- entry strategy, and a further sequence leaves the entry strategy of a tagged position as it is.
  pub run-tags :
      (cash : D) (os more : List (Op D)) (token s : String)
      → entry_tag {F = F} token (run os (new_ledger cash)) ≡ some s
      → let l : Ledger F D = run os (new_ledger cash) in
        AllTagged l × (entry_tag token (run more l) ≡ some s)
  unfolding run
  run-tags cash os more token s h = (
    tagged os (new_ledger cash) (record { at = λ t p e. cc }),
    kept more (run os (new_ledger cash)) h,
  )
    where
      tagged : (ds : List (Op D)) (l : Ledger F D) → AllTagged l → AllTagged (run ds l)
      tagged [] l a = a
      tagged (d ∷ ds) l a = tagged ds (step d l) (step-AllTagged d l a)

      kept :
          (ds : List (Op D)) (l : Ledger F D)
          → entry_tag token l ≡ some s
          → entry_tag token (run ds l) ≡ some s
      kept [] l h = h
      kept (d ∷ ds) l h = kept ds (step d l) (step-entry_tag d l token s h)
