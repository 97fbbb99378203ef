-- ===== src/Trans/Rtt.antt =====
-- leotp.cpp, `updateRTT` and `updateHopRTT`: round-trip times and the timeout of an interest.
-- The `int` values of `updateRTT` are natural numbers: for the measurements that it takes into
-- account they stay small enough for the code's arithmetic. Those of `updateHopRTT` are words.
pub mod Bounds
use leotp.Base.{
  ℕ, zero, suc, ◌+◌, ◌-◌, ◌*◌, ◌/◌, ◌%◌, ◌^◌, ◌≤◌, ◌<◌, ◌≡◌, refl, sym, ap, ◌∙◌, ◌≢◌, ◌↔◌, ◌⊎◌, inl,
  inr, Bool, true, false, ◌&&◌, ◌||◌, not, Option, none, some, List, [], ◌∷◌, ◌++◌, map, arith, ltb,
  leb, ◌==◌, if◌then◌else◌, length, length-append, All, All-append, All-mono, u32, add32, sub32,
  slt, Bool-cases, Option-cases, if_cases, sub32_le, ltb→lt, lt→ltb, le→ltb, ltb→le, take, drop,
  take-length-append, drop-length-append, span, span-append, length-span, leb_refl, lt→leb,
}
use leotp.Codec.{ibound, imax}
use leotp.Trans.{TransCb, rto_min, rto_max, update_interval}
use leotp.Trans.Output.{sdiv}

abbrev pub distance : ℕ → ℕ → ℕ
distance a b = if ltb a b then b - a else a - b

abbrev pub at_least_1 : ℕ → ℕ
at_least_1 n = if ltb n 1 then 1 else n

-- `|d|` for an `int` `d`, as a `long`.
abbrev pub magnitude : ℕ → ℕ
magnitude d = if slt d 0 then sub32 0 d else d

-- `(w + d) / k` for an `int` `w` and a `long` `d` that is not negative, as an `int`.
abbrev pub long_sum_div : ℕ → ℕ → ℕ → ℕ
long_sum_div w d k =
    if slt w 0
    then if leb (2 ^ 32 - w) d then (d - (2 ^ 32 - w)) / k else u32 (2 ^ 32 - (2 ^ 32 - w - d) / k)
    else (w + d) / k

module _ {F W : Type 0} where
  -- The block under `if (doUpdate)`.
  unfoldable pub smooth : ℕ → TransCb F W → TransCb F W
  smooth rtt cb =
      let rttvar = (3 * cb.rttvar + distance rtt cb.srtt) / 4 in
      let srtt = at_least_1 ((7 * cb.srtt + rtt) / 8) in
      record cb {
        rttvar = rttvar;
        srtt = srtt;
        rto = ibound rto_min (u32 (srtt + imax update_interval (u32 (4 * rttvar)))) rto_max;
      }

  -- With `RTTscheme` at LEOTP_RTT_SCHM_EXPO.
  unfoldable pub update_rtt : ℕ → ℕ → TransCb F W → TransCb F W
  unfolding smooth
  update_rtt rtt xmit cb =
      if not (slt 0 rtt)
      then cb
      else if cb.srtt == 0
      then record cb { srtt = rtt; rttvar = rtt / 2; rto = ibound rto_min (u32 (rtt * 3)) rto_max }
      else if leb xmit 1
      then smooth rtt cb
      else cb

  -- `hop_rtt` comes from a time stamp of the datagram and may be negative, and so may what is
  -- computed from it: all are words in two's complement. The sum for `hopRttvar` is a `long`.
  unfoldable pub update_hop_rtt : ℕ → TransCb F W → TransCb F W
  update_hop_rtt hop_rtt cb =
      if cb.hop_srtt == 0
      then record cb { hop_srtt = hop_rtt; hop_rttvar = sdiv hop_rtt 2 }
      else (let srtt = sdiv (u32 (7 * cb.hop_srtt + hop_rtt)) 8 in
          record cb {
            hop_rttvar =
                long_sum_div (u32 (3 * cb.hop_rttvar)) (magnitude (sub32 hop_rtt cb.hop_srtt)) 4;
            hop_srtt = if slt srtt 1 then 1 else srtt;
          })
