-- ===== src/Portfolio/Pnl/Marks.antt =====
-- Marking to market: what `mark_all` does to each position.
use poly_meridian.Prelude.{
  ◌≡◌, refl, inl, inr, Bool, true, false, ◌||◌, Option, none, some, List, [], ◌∷◌, String,
  if◌then◌else◌, arith, All, filter, ◌==◌, string_eq, Option-cases,
}
use poly_meridian.Prelude.Dict.{Dict, get, values, get-insert}
use poly_meridian.Num.{Num, lit, num_eq}
use poly_meridian.Domain.{Datetime}
use poly_meridian.Book.{LocalBook}
use poly_meridian.Portfolio.Ledger.{Ledger, PositionState, positions, mark, is_held}
use poly_meridian.Portfolio.Pnl.{mid_of, mark_each, mark_all}

module _ {F D : Type 0} where
  abbrev pub names : String → List (PositionState F D) → Bool
  names t [] = false
  names t (p ∷ ps) = p.token_id == t || names t ps

  -- Every position is stored under its own token.
  abbrev pub IsKeyed : Dict String (PositionState F D) → Type 0
  IsKeyed = All (λ (e : String × PositionState F D). e.1.token_id ≡ e.0)

module _ {F D : Type 0} ⦃nd : Num D⦄ where
  abbrev pub mark_at : Option D → Datetime → PositionState F D → PositionState F D
  mark_at none ts p = p
  mark_at (some m) ts p =
      if p.qty == lit 0 0 then p else record p { last_mark = m; last_updated = ts }

  -- An open position with the mid of its book as its mark; any other position as it is.
  abbrev pub marked : Option D → Datetime → Option (PositionState F D) → Option (PositionState F D)
  marked m ts none = none
  marked m ts (some p) = some (mark_at m ts p)

  mark_lem :
      (t token : String) (m : D) (ts : Datetime) (l : Ledger F D)
      → get token (mark t m ts l).positions_by_token ≡ (
          if t == token
          then marked (some m) ts (get token l.positions_by_token)
          else get token l.positions_by_token)
  unfolding mark
  mark_lem t token m ts l = elim (Option-cases (get t l.positions_by_token)) [
    | inl missing ↦ ground (arith, string_eq.beq_iff t token)
    | inr (p, known) ↦ ground (
      arith,
      string_eq.beq_iff t token,
      get-insert t token (record p { last_mark = m; last_updated = ts }) l.positions_by_token,
    )
  ]

  marked_twice :
      (m : Option D) (ts : Datetime) (o : Option (PositionState F D))
      → marked m ts (marked m ts o) ≡ marked m ts o
  marked_twice m ts o = ground arith

  mark_each_lem :
      (books : Dict String (LocalBook D)) (ts : Datetime) (ps : List (PositionState F D))
      (l : Ledger F D) (t : String)
      → get t (mark_each books ts ps l).positions_by_token ≡ (
          if names t ps
          then marked (mid_of books t) ts (get t l.positions_by_token)
          else get t l.positions_by_token)
  unfolding mark_each
  mark_each_lem books ts [] l t = refl
  mark_each_lem books ts (p ∷ ps) l t = elim (Option-cases (mid_of books p.token_id)) [
    | inl no_mid ↦ ground (arith, mark_each_lem books ts ps l t, string_eq.beq_iff p.token_id t)
    | inr (m, known) ↦ ground (
      arith,
      mark_each_lem books ts ps (mark p.token_id m ts l) t,
      mark_lem p.token_id t m ts l,
      marked_twice (mid_of books t) ts (get t l.positions_by_token),
      string_eq.beq_iff p.token_id t,
    )
  ]

  held-names :
      (t : String) (d : Dict String (PositionState F D)) (p : PositionState F D)
      → IsKeyed d
      → get t d ≡ some p
      → is_held p ≡ true
      → names t (filter is_held (values d)) ≡ true
  held-names t [] p k e h = cc
  held-names t ((j, q) ∷ d) p k e h =
      ground
        (arith, held-names t d p k.1, k.0, string_eq.beq_iff j t, string_eq.beq_iff q.token_id t)

  -- When every position is stored under its own token, marking sets the mark and the time of
  -- each open position whose token has a book with a mid, and changes no other position.
  pub mark_all_marks :
      (books : Dict String (LocalBook D)) (ts : Datetime) (l : Ledger F D) (t : String)
      → IsKeyed l.positions_by_token
      → get t (mark_all books ts l).positions_by_token
        ≡ marked (mid_of books t) ts (get t l.positions_by_token)
  unfolding mark_all positions
  mark_all_marks books ts l t keyed = elim (Option-cases (get t l.positions_by_token)) [
    | inl missing ↦ ground (arith, mark_each_lem books ts (positions l) l t)
    | inr (p, known) ↦ ground (
      arith,
      mark_each_lem books ts (positions l) l t,
      held-names t l.positions_by_token p keyed known,
    )
  ]
