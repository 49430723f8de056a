-- ===== src/Execution/Slippage/Buffer.antt =====
-- SlippageMonitor: what its buffer holds.
use poly_meridian.Prelude.{
  ◌≡◌, ◌≤◌, true, List, [], ◌∷◌, String, length, last-All, length-last, All, All-append, arith,
  Bool-cases, inl, inr, ◌||◌,
}
use poly_meridian.Num.{Num, ◌<?◌, ◌≤?◌, lit}
use poly_meridian.Num.Order.{le_max_left}
use poly_meridian.Domain.{Datetime}
use poly_meridian.Execution.Slippage.{SlippageObservation, SlippageMonitor, record_fill}

-- The arguments of `record_fill`.
pub record Seen (F : Type 0) : Type 0 where
  pub now : Datetime
  pub token : String
  pub size : F
  pub depth : F
  pub expected_price : F
  pub realized_vwap : F

module _ {F : Type 0} ⦃nf : Num F⦄ where
  -- A fill of something at real prices, with a depth that is not negative.
  pub record IsReal (o : SlippageObservation F) : Type 0 where
    pub size : (lit 0 0 <? o.size) ≡ true
    pub expected : (lit 0 0 <? o.expected_price) ≡ true
    pub realized : (lit 0 0 <? o.realized_vwap) ≡ true
    pub depth : (lit 0 0 ≤? o.depth) ≡ true

  -- The buffer is within its size and holds real fills.
  pub record IsSound (m : SlippageMonitor F) : Type 0 where
    pub bounded : length m.obs ≤ m.buffer_size
    pub real : All IsReal m.obs

  unfoldable pub record_fills : List (Seen F) → SlippageMonitor F → SlippageMonitor F
  record_fills [] m = m
  record_fills (s ∷ ss) m =
      record_fills ss (record_fill s.now s.token s.size s.depth s.expected_price s.realized_vwap m)

  record_fill-IsSound :
      (s : Seen F) (m : SlippageMonitor F)
      → IsSound m
      → IsSound (record_fill s.now s.token s.size s.depth s.expected_price s.realized_vwap m)
  unfolding record_fill
  record_fill-IsSound s m h =
      elim (Bool-cases
        (s.size ≤? lit 0 0 || s.expected_price ≤? lit 0 0 || s.realized_vwap ≤? lit 0 0)) [
          | inl bad ↦ rw (record_fill, bad) h
          | inr good ↦
              rw (record_fill, good)
                (record {
                  bounded = length-last m.buffer_size _;
                  real = last-All IsReal m.buffer_size _ (
                      All-append IsReal m.obs _ h.real (
                        record {
                          size = ground (arith, nf.le_not_lt s.size (lit 0 0));
                          expected = ground (arith, nf.le_not_lt s.expected_price (lit 0 0));
                          realized = ground (arith, nf.le_not_lt s.realized_vwap (lit 0 0));
                          depth = le_max_left {A = F} (lit 0 0) s.depth;
                        },
                        tt,
                      ));
                })
        ]

  -- Whatever is recorded, the buffer keeps within its size and holds only fills of a positive size
  -- at positive prices, with a depth that is not negative.
  pub record_fills-IsSound :
      (ss : List (Seen F)) (m : SlippageMonitor F) → IsSound m → IsSound (record_fills ss m)
  unfolding record_fills
  record_fills-IsSound [] m h = h
  record_fills-IsSound (s ∷ ss) m h =
      record_fills-IsSound ss
        (record_fill s.now s.token s.size s.depth s.expected_price s.realized_vwap m)
        (record_fill-IsSound s m h)
