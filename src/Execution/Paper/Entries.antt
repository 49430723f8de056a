-- ===== src/Execution/Paper/Entries.antt =====
-- The entries of the virtual book: which orders they belong to, and what a submission and a
-- cancellation do to them.
use poly_meridian.Prelude.{
  ◌≡◌, refl, inl, inr, Bool, true, false, ◌||◌, Option, none, some, List, [], ◌∷◌, String,
  if◌then◌else◌, arith, Bool-cases, Option-cases, string_eq, ◌==◌,
}
use poly_meridian.Prelude.Dict.{
  Dict, get, insert, remove, get-insert, get-remove, HasDistinctKeys, insert-HasDistinctKeys,
  remove-HasDistinctKeys,
}
use poly_meridian.Num.{Num, Convert, Quantize, Exact, ◌<?◌, lit}
use poly_meridian.Domain.{
  Datetime, Clock, OrderType, gtc, gtd, fok, fak, OrderStatus, TradeDecision, is_open, is_final,
}
use poly_meridian.Domain
use poly_meridian.Execution.Paper.{
  PaperExecutor, Resting, with_status, post_maker, submit, order_of, cancel, remove_all, execute,
  is_maker, store_resting,
}
use poly_meridian.Execution.Paper.Standing.{AddsUp, Stands, post_maker-Stands}

abbrev pub is_in : String → List String → Bool
is_in id [] = false
is_in id (j ∷ js) = j == id || is_in id js

module _ {D : Type 0} where
  pub get-remove_all :
      (ids : List String) (d : Dict String (Resting D)) (id : String)
      → get id (remove_all ids d) ≡ (if is_in id ids then none else get id d)
  get-remove_all [] d id = refl
  get-remove_all (j ∷ js) d id =
      ground (arith, get-remove_all js (remove j d) id, get-remove j id d, string_eq.beq_iff j id)

  pub remove_all-HasDistinctKeys :
      (ids : List String) (d : Dict String (Resting D))
      → HasDistinctKeys d
      → HasDistinctKeys (remove_all ids d)
  remove_all-HasDistinctKeys [] d h = h
  remove_all-HasDistinctKeys (j ∷ js) d h =
      remove_all-HasDistinctKeys js (remove j d) (remove-HasDistinctKeys j d h)

  pub store-HasDistinctKeys :
      (id : String) (rest : Option (Resting D)) (d : Dict String (Resting D))
      → HasDistinctKeys d
      → HasDistinctKeys (store_resting id rest d)
  store-HasDistinctKeys id none d h = h
  store-HasDistinctKeys id (some r) d h = insert-HasDistinctKeys id r d h

module _ {F D : Type 0} ⦃nf : Num F⦄ ⦃nd : Num D⦄ ⦃qd : Quantize D⦄ ⦃cv : Convert F D⦄ where
  -- The order behind an entry of the virtual book.
  abbrev pub OrderStands : PaperExecutor F D → String → Resting D → Type 0
  OrderStands x id r = (o : Domain.Order D) × (get id x.orders ≡ some o) × Stands o r

  pub record InCustody (x : PaperExecutor F D) : Type 0 where
    pub distinct : HasDistinctKeys x.resting
    pub each : (id : String) (r : Resting D) → get id x.resting ≡ some r → OrderStands x id r

  pub execute-Stands :
      (exact : Exact D) (x : PaperExecutor F D) (now : Datetime) (o : Domain.Order D)
      (r : Resting D)
      → AddsUp o o.size
      → (lit 0 0 <? o.size) ≡ true
      → is_open o.status ≡ true
      → (execute x now o).1 ≡ some r
      → Stands (execute x now o).0 r
  execute-Stands exact x now o r whole positive fresh e =
      elim (Bool-cases (is_maker o.order_type)) [
        | inr taker ↦ absurd (ground arith)
        | inl maker ↦
            (let same : execute x now o ≡ post_maker x now o = ground arith in
              rw same (post_maker-Stands exact x now o r whole positive fresh (rw same at e)))
      ]

  -- A new order in the executor, with its entry if it has one.
  pub store-Stands :
      (x : PaperExecutor F D) (id : String) (o : Domain.Order D) (rest : Option (Resting D))
      → get id x.resting ≡ none
      → ((r : Resting D) → rest ≡ some r → Stands o r)
      → InCustody x
      → (j : String) (r : Resting D) → get j (store_resting id rest x.resting) ≡ some r
      → (p : Domain.Order D) × (get j (insert id o x.orders) ≡ some p) × Stands p r
  store-Stands x id o none fresh own c j r e =
      let (p, known, stands) = c.each j r e in
      (p, ground (arith, get-insert id j o x.orders, string_eq.beq_iff id j), stands)
  store-Stands x id o (some q) fresh own c j r e = elim (Bool-cases (id == j)) [
    | inl same ↦
        (let mine : q ≡ r = ground (arith, get-insert id j q x.resting) in
          (o, ground (arith, get-insert id j o x.orders), rw (← mine) (own q refl)))
    | inr other ↦
        (let (p, known, stands) = c.each j r (ground (arith, get-insert id j q x.resting)) in
          (p, ground (arith, get-insert id j o x.orders), stands))
  ]

  pub submit-InCustody :
      (exact : Exact D) (id : String) (now : Datetime) (d : TradeDecision D) (x : PaperExecutor F D)
      → (lit 0 0 <? d.size) ≡ true
      → get id x.resting ≡ none
      → InCustody x
      → InCustody (submit id now d x).1
  unfolding submit
  submit-InCustody exact id now d x positive fresh c =
      let o = order_of id d in
      let (done, rest, made) = execute x now o in
      record {
        distinct = store-HasDistinctKeys id rest x.resting c.distinct;
        each = λ j r e.
            store-Stands x id done rest fresh
              (λ s h. execute-Stands exact x now o s (exact.add_zero d.size) positive refl h) c j r
              e;
      }

  pub cancel-InCustody :
      (id : String) (x : PaperExecutor F D) → InCustody x → InCustody (cancel id x).1
  unfolding cancel
  cancel-InCustody id x c = record {
    distinct = ground (arith, c.distinct, remove-HasDistinctKeys id x.resting);
    each = λ j r e. elim (Option-cases (get id x.orders)) [
      | inl missing ↦
          (let (p, known, stands) = c.each j r (ground arith) in (p, ground arith, stands))
      | inr (o, mine) ↦ elim (Bool-cases (is_final o.status)) [
        | inl final ↦
            (let (p, known, stands) = c.each j r (ground arith) in (p, ground arith, stands))
        | inr live ↦
            (let (p, known, stands) = c.each j r (ground (arith, get-remove id j x.resting)) in
              (
                p,
                ground (
                  arith,
                  get-remove id j x.resting,
                  get-insert id j (with_status OrderStatus.cancelled o) x.orders,
                ),
                stands,
              ))
      ]
    ];
  }
