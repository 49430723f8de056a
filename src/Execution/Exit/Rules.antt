-- ===== src/Execution/Exit/Rules.antt =====
-- ExitMonitor: the triggers of `_decide`, and the cooldown of `scan_once`.
use Prim.Native.Nat.{◌+◌}
use poly_meridian.Prelude.{
  ℕ, suc, ◌<◌, ◌≡◌, refl, ap, ◌⊎◌, Bool, true, false, Option, none, some, String, string_eq, arith,
  Bool-cases, Option-cases, inl, inr,
}
use poly_meridian.Prelude.Dict.{Dict, get, get-insert_self}
use poly_meridian.Num.{Num, Convert, Quantize, to_float, abs, ◌*◌, ◌<?◌, ◌≤?◌, lit, neg}
use poly_meridian.Domain.{Datetime, Clock}
use poly_meridian.Portfolio.Ledger.{PositionState}
use poly_meridian.Execution.Exit.{
  ExitReason, profit_take, stop_loss, time_decay_close, settlement, ExitMonitor, Exit, Scan,
  holds_to_resolution, mtm_pct, hours_left, time_decay, decide, emit_exit, send, cool_down,
  is_cooling, scan_position, cooldown,
}

module _ {F D : Type 0} ⦃nf : Num F⦄ ⦃nd : Num D⦄ ⦃cv : Convert F D⦄ ⦃ck : Clock F⦄ where
  -- What must hold of a position for a reason to close it.
  abbrev pub Justified :
      ExitMonitor F → PositionState F D → Option Datetime → Datetime → ExitReason → Type 0
  Justified m pos end_date now profit_take =
      (holds_to_resolution pos.horizon ≡ false) × ((m.profit_take_pct ≤? mtm_pct pos) ≡ true)
  Justified m pos end_date now stop_loss =
      (holds_to_resolution pos.horizon ≡ false) × ((mtm_pct pos ≤? neg m.stop_loss_pct) ≡ true)
  Justified m pos end_date now time_decay_close =
      (t : Datetime) × (end_date ≡ some t)
      × ((hours_left t now <? m.time_decay_safety_hours) ≡ true)
  Justified m pos end_date now settlement = ⊥

  -- A triggered exit is justified: a profit or a loss beyond its threshold on a position that is
  -- not held to resolution, or a resolution nearer than the safety margin; and the position has a
  -- positive cost.
  pub decide-Justified :
      (m : ExitMonitor F) (pos : PositionState F D) (end_date : Option Datetime) (now : Datetime)
      (reason : ExitReason)
      → (decide m pos end_date now).0 ≡ some reason
      → ((lit 0 0 <? pos.avg_cost) ≡ true) × Justified m pos end_date now reason
  unfolding decide time_decay
  decide-Justified m pos none now profit_take h =
      ground (arith, nd.le_not_lt pos.avg_cost (lit 0 0))
  decide-Justified m pos (some t) now time_decay_close h =
      (ground (arith, nd.le_not_lt pos.avg_cost (lit 0 0)), (t, refl, ground arith))
  decide-Justified m pos _ now _ h = ground (arith, nd.le_not_lt pos.avg_cost (lit 0 0))

module _ {D : Type 0} where
  cool_down-until :
      (token : String) (now : Datetime) (r : Bool × Scan D) (n : ℕ)
      → r.1.n_exits ≡ n
      → (cool_down token now r).n_exits ≡ suc n
      → get token (cool_down token now r).until ≡ some (now + cooldown)
  cool_down-until token now (true, s) n e h = get-insert_self token (now + cooldown) s.until
  cool_down-until token now (false, s) n e h = absurd (omega arith)

  send-n_exits :
      (raises : Exit D → Bool) (e : Option (Exit D)) (s : Scan D)
      → (send raises e s).1.n_exits ≡ s.n_exits
  send-n_exits raises e s = ground arith

module _ {F D : Type 0} ⦃nf : Num F⦄ ⦃nd : Num D⦄ ⦃cv : Convert F D⦄ where
  -- The notional test of the scan.
  abbrev is_dust : ExitMonitor F → PositionState F D → Bool
  is_dust m pos =
      let qty : F = to_float (abs pos.qty) in
      qty * to_float pos.last_mark <? m.min_position_notional_usd

module _ {F D : Type 0} ⦃nf : Num F⦄ ⦃nd : Num D⦄ ⦃qd : Quantize D⦄ ⦃cv : Convert F D⦄
    ⦃ck : Clock F⦄ (raises : Exit D → Bool) where
  sends_or_stays :
      (m : ExitMonitor F) (ends : Dict String Datetime) (settles : Dict String F) (now : Datetime)
      (pos : PositionState F D) (s : Scan D)
      → get pos.token_id settles ≡ none
      → (scan_position raises m ends settles now pos s ≡ s)
        ⊎ ((reason : ExitReason) × (scan_position raises m ends settles now pos s
              ≡ cool_down pos.token_id now (send raises (emit_exit reason pos) s)))
  unfolding scan_position
  sends_or_stays m ends settles now pos s open_market =
      elim (Option-cases (decide m pos (get pos.token_id ends) now).0) [
        | inl quiet ↦ inl (ground arith)
        | inr (reason, triggered) ↦ elim (Bool-cases (is_dust m pos)) [
          | inl dust ↦ inl (ground arith)
          | inr held ↦ elim (Bool-cases (is_cooling (get pos.token_id s.until) now)) [
            | inl cooling ↦ inl (ground arith)
            | inr ready ↦ inr (reason, ground arith)
          ]
        ]
      ]

  while_cooling :
      (m : ExitMonitor F) (ends : Dict String Datetime) (settles : Dict String F) (now : Datetime)
      (pos : PositionState F D) (s : Scan D)
      → get pos.token_id settles ≡ none
      → is_cooling (get pos.token_id s.until) now ≡ true
      → scan_position raises m ends settles now pos s ≡ s
  unfolding scan_position
  while_cooling m ends settles now pos s open_market cool = ground arith

  -- Right after an exit of an open market the position is left alone: until thirty seconds have
  -- passed, a further round over it changes nothing.
  pub scan_position_cools :
      (m : ExitMonitor F) (ends : Dict String Datetime) (settles : Dict String F)
      (now later : Datetime) (pos : PositionState F D) (s : Scan D)
      → get pos.token_id settles ≡ none
      → (scan_position raises m ends settles now pos s).n_exits ≡ suc s.n_exits
      → later < now + cooldown
      → let t = scan_position raises m ends settles now pos s in
        scan_position raises m ends settles later pos t ≡ t
  scan_position_cools m ends settles now later pos s open_market done soon =
      elim (sends_or_stays m ends settles now pos s open_market) [
        | inl same ↦ absurd (omega (arith, ap (λ (t : Scan D). t.n_exits) same))
        | inr (reason, sent) ↦
            (let r = send raises (emit_exit reason pos) s in
              let until =
                cool_down-until pos.token_id now r s.n_exits
                  (send-n_exits raises (emit_exit reason pos) s) (rw sent at done) in
              rw sent (
                while_cooling m ends settles later pos (cool_down pos.token_id now r) open_market
                  (ground (arith, until))))
      ]
