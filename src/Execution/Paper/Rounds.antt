-- ===== src/Execution/Paper/Rounds.antt =====
-- The entries of the virtual book through the rounds of `reconcile`.
use poly_meridian.Prelude.{
  ◌≡◌, refl, sym, ◌∙◌, inl, inr, Bool, true, false, none, some, List, [], ◌∷◌, String, arith,
  Bool-cases, Option-cases, string_eq, ◌==◌,
}
use poly_meridian.Prelude.Dict.{
  Dict, get, get-insert, get-insert_self, HasDistinctKeys, insert-HasDistinctKeys,
}
use poly_meridian.Num.{Num, Convert, Quantize, Exact, ◌<?◌, lit}
use poly_meridian.Domain.{
  Datetime, Clock, OrderType, gtc, gtd, fok, fak, OrderStatus, TradeDecision, is_open, is_final,
}
use poly_meridian.Domain
use poly_meridian.Execution.Paper.{
  PaperExecutor, Resting, with_status, fill_maker_from_book, reconcile_one, reconcile_from,
  reconcile, mark_stale, can_cross,
}
use poly_meridian.Execution.Paper.Standing.{Stands, fill_maker-Progress}
use poly_meridian.Execution.Paper.Entries.{
  is_in, get-remove_all, remove_all-HasDistinctKeys, OrderStands, InCustody,
}

module _ {F D : Type 0} ⦃nf : Num F⦄ ⦃nd : Num D⦄ ⦃qd : Quantize D⦄ ⦃cv : Convert F D⦄
    ⦃ck : Clock F⦄ where
  -- The entries that `reconcile` has still to visit are current, and every entry that it has not
  -- found stale stands.
  pub record Visiting (rs : Dict String (Resting D)) (stale : List String) (x : PaperExecutor F D)
      : Type 0 where
    pub ahead :
        (id : String) (r : Resting D)
        → get id rs ≡ some r
        → (get id x.resting ≡ some r) × (is_in id stale ≡ false)
    pub kept :
        (id : String) (r : Resting D)
        → get id x.resting ≡ some r
        → is_in id stale ≡ false
        → OrderStands x id r
    pub keys_ahead : HasDistinctKeys rs
    pub keys : HasDistinctKeys x.resting

  -- One round leaves every other order and entry as it was.
  pub reconcile_one_frame :
      (now : Datetime) (id : String) (r : Resting D) (o : Domain.Order D) (x : PaperExecutor F D)
      (j : String)
      → (id == j) ≡ false
      → let y = (reconcile_one now id r o x).1 in
        (get j y.orders ≡ get j x.orders) × (get j y.resting ≡ get j x.resting)
  unfolding reconcile_one
  reconcile_one_frame now id r o x j other = elim (Option-cases (get o.token_id x.books)) [
    | inl no_book ↦ ground arith
    | inr (b, known) ↦
        (let f = fill_maker_from_book x now b r.remaining o in
          ground (
            arith,
            get-insert id j (with_status OrderStatus.cancelled o) x.orders,
            get-insert id j f.order x.orders,
            get-insert id j (record r { remaining = f.remaining }) x.resting,
          ))
  ]

  pub reconcile_one_distinct :
      (now : Datetime) (id : String) (r : Resting D) (o : Domain.Order D) (x : PaperExecutor F D)
      → HasDistinctKeys x.resting
      → HasDistinctKeys (reconcile_one now id r o x).1.resting
  unfolding reconcile_one
  reconcile_one_distinct now id r o x h = elim (Option-cases (get o.token_id x.books)) [
    | inl no_book ↦ ground arith
    | inr (b, known) ↦
        (let f = fill_maker_from_book x now b r.remaining o in
          ground
            (arith, insert-HasDistinctKeys id (record r { remaining = f.remaining }) x.resting h))
  ]

  -- An entry that one round does not find stale stands after it.
  pub reconcile_one-Stands :
      (exact : Exact D) (now : Datetime) (id : String) (r : Resting D) (o : Domain.Order D)
      (x : PaperExecutor F D)
      → get id x.orders ≡ some o
      → get id x.resting ≡ some r
      → Stands o r
      → (reconcile_one now id r o x).0 ≡ false
      → (s : Resting D) → get id (reconcile_one now id r o x).1.resting ≡ some s
      → OrderStands (reconcile_one now id r o x).1 id s
  unfolding reconcile_one
  reconcile_one-Stands exact now id r o x mine resting stands fresh s e =
      elim (Option-cases (get o.token_id x.books)) [
        | inl no_book ↦ (let same : r ≡ s = ground arith in (o, ground arith, rw (← same) stands))
        | inr (b, known) ↦
            elim (Bool-cases (x.maker_timeout_sec <? ck.seconds_between now r.submitted_at)) [
              | inl expired ↦ absurd (ground arith)
              | inr in_time ↦ elim (Bool-cases (can_cross o b)) [
                | inr apart ↦
                    (let same : r ≡ s = ground arith in (o, ground arith, rw (← same) stands))
                | inl crossed ↦
                    (let f = fill_maker_from_book x now b r.remaining o in
                      let p =
                        fill_maker-Progress exact x now b r.remaining o stands.adds_up
                          stands.some_left in
                      let left : (lit 0 0 <? f.remaining) ≡ true =
                        ground (arith, nd.le_not_lt f.remaining (lit 0 0)) in
                      let same : record r { remaining = f.remaining } ≡ s = ground (
                        arith,
                        get-insert_self id (record r { remaining = f.remaining }) x.resting,
                      ) in
                      (
                        f.order,
                        ground (arith, get-insert_self id f.order x.orders),
                        rw (← same) (record {
                          still_open = p.open_while_left left stands.still_open;
                          some_left = left;
                          adds_up = p.adds_up;
                        }),
                      ))
              ]
            ]
      ]

  -- The executor after a round of the loop, whether or not the order of the entry is known.
  abbrev pub round : Datetime → String → Resting D → PaperExecutor F D → Bool × PaperExecutor F D
  round now id r x = elim (get id x.orders) [
    | none ↦ (false, x)
    | some o ↦ reconcile_one now id r o x
  ]

  pub visited :
      (exact : Exact D) (now : Datetime) (id : String) (r : Resting D) (o : Domain.Order D)
      (rs : Dict String (Resting D)) (stale : List String) (x : PaperExecutor F D)
      → Visiting ((id, r) ∷ rs) stale x
      → get id x.orders ≡ some o
      → get id x.resting ≡ some r
      → Stands o r
      → let (old, y) = reconcile_one now id r o x in Visiting rs (mark_stale old id stale) y
  visited exact now id r o rs stale x v mine current stands =
      let y = (reconcile_one now id r o x).1 in
      let old = (reconcile_one now id r o x).0 in
      record {
        ahead = λ j s e.
            let apart : (id == j) ≡ false =
              ground (arith, v.keys_ahead.0, string_eq.beq_iff id j) in
            let (cur, unmarked) = v.ahead j s (ground arith) in
            let frame = reconcile_one_frame now id r o x j apart in (frame.1 ∙ cur, ground arith);
        kept = λ j s e unmarked. elim (Bool-cases (id == j)) [
          | inl same ↦
              (let is : id ≡ j = (string_eq.beq_iff id j).0 same in
                rw (← is) (
                  reconcile_one-Stands exact now id r o x mine current stands (ground arith) s
                    (rw (← is) at e)))
          | inr apart ↦
              (let frame = reconcile_one_frame now id r o x j apart in
                let (p, known, there) = v.kept j s (sym frame.1 ∙ e) (ground arith) in
                (p, frame.0 ∙ known, there))
        ];
        keys_ahead = v.keys_ahead.1;
        keys = reconcile_one_distinct now id r o x v.keys;
      }

  pub round-Visiting :
      (exact : Exact D) (now : Datetime) (id : String) (r : Resting D)
      (rs : Dict String (Resting D)) (stale : List String) (x : PaperExecutor F D)
      → Visiting ((id, r) ∷ rs) stale x
      → Visiting rs (mark_stale (round now id r x).0 id stale) (round now id r x).1
  round-Visiting exact now id r rs stale x v =
      let (current, unmarked) = v.ahead id r (ground (arith, string_eq.beq_iff id id)) in
      let (o, mine, stands) = v.kept id r current unmarked in
      let same : round now id r x ≡ reconcile_one now id r o x = ground arith in
      rw same (visited exact now id r o rs stale x v mine current stands)

  pub reconcile_from-kept :
      (exact : Exact D) (now : Datetime) (rs : Dict String (Resting D)) (stale : List String)
      (x : PaperExecutor F D)
      → Visiting rs stale x
      → let (ids, y) = reconcile_from now rs stale x in
        HasDistinctKeys y.resting
        × ((j : String) (s : Resting D)
            → get j y.resting ≡ some s
            → is_in j ids ≡ false
            → OrderStands y j s)
  unfolding reconcile_from
  reconcile_from-kept exact now [] stale x v = (v.keys, v.kept)
  reconcile_from-kept exact now ((id, r) ∷ rs) stale x v =
      reconcile_from-kept exact now rs (mark_stale (round now id r x).0 id stale)
        (round now id r x).1 (round-Visiting exact now id r rs stale x v)

  pub reconcile-InCustody :
      (exact : Exact D) (now : Datetime) (x : PaperExecutor F D)
      → InCustody x
      → InCustody (reconcile now x)
  unfolding reconcile
  reconcile-InCustody exact now x c =
      let (ids, y) = reconcile_from now x.resting [] x in
      let (keys, kept) = reconcile_from-kept exact now x.resting [] x (record {
        ahead = λ id r e. (e, refl);
        kept = λ id r e _. c.each id r e;
        keys_ahead = c.distinct;
        keys = c.distinct;
      }) in
      record {
        distinct = remove_all-HasDistinctKeys ids y.resting keys;
        each = λ j s e.
            kept j s (ground (arith, get-remove_all ids y.resting j))
              (ground (arith, get-remove_all ids y.resting j));
      }
