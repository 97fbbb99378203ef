-- ===== src/Trans/Rtt/Bounds.antt =====
-- leotp.cpp, `updateRTT`: the range of the smoothed values and of the timeout.
use leotp.Base.{ℕ, ◌+◌, ◌*◌, ◌/◌, ◌^◌, ◌≤◌, ◌<◌, not, arith, leb, ◌==◌, u32, slt, if_cases}
use leotp.Codec.Bounds.{ibound_bounds}
use leotp.Trans.{TransCb, rto_min, rto_max}
use leotp.Trans.Rtt.{distance, at_least_1, update_rtt}

-- Values at which no `int` expression of `updateRTT` leaves its range.
abbrev pub Smoothed : ℕ → ℕ → Type 0
Smoothed srtt rttvar = (srtt < 2 ^ 28) × (rttvar < 2 ^ 28)

smooth_lt :
    (srtt rttvar rtt : ℕ)
    → rtt < 2 ^ 28
    → Smoothed srtt rttvar
    → Smoothed (at_least_1 ((7 * srtt + rtt) / 8)) ((3 * rttvar + distance rtt srtt) / 4)
smooth_lt srtt rttvar rtt h k = ground arith

module _ {F W : Type 0} where
  abbrev pub RttInRange : TransCb F W → Type 0
  RttInRange cb = Smoothed cb.srtt cb.rttvar × (rto_min ≤ cb.rto) × (cb.rto ≤ rto_max)

  -- From a state with the smoothed time and its variation below 2^28 and the timeout between its
  -- bounds, a positive sample below 2^28 ms leads to such a state again, and to a smoothed time of
  -- at least 1 ms.
  pub update_rtt-RttInRange :
      (rtt xmit : ℕ) (cb : TransCb F W)
      → 0 < rtt
      → rtt < 2 ^ 28
      → RttInRange cb
      → RttInRange (update_rtt rtt xmit cb) × (1 ≤ (update_rtt rtt xmit cb).srtt)
  unfolding update_rtt
  update_rtt-RttInRange rtt xmit cb p h k =
      if_cases done (not (slt 0 rtt)) (λ t. absurd (ground arith))
        λ u.
          if_cases done (cb.srtt == 0)
            (λ t. (
              (
                (h, ground arith),
                (ibound_bounds rto_min (u32 (rtt * 3)) rto_max (omega arith)).0,
                (ibound_bounds rto_min (u32 (rtt * 3)) rto_max (omega arith)).1,
              ),
              p,
            ))
            λ q.
              if_cases done (leb xmit 1)
                (λ t. (
                  (
                    smooth_lt cb.srtt cb.rttvar rtt h k.0,
                    (ibound_bounds rto_min _ rto_max (omega arith)).0,
                    (ibound_bounds rto_min _ rto_max (omega arith)).1,
                  ),
                  ground arith,
                ))
                (λ t. (k, ground arith))
    where
      done : TransCb F W → Type 0
      done c = RttInRange c × (1 ≤ c.srtt)
