-- ===== src/Trans/Congestion.antt =====
-- leotp.cpp, `updateCwnd`, with `CCscheme` at LEOTP_CC_SCHM_RTTB.
use leotp.Base.{
  ℕ, ◌*◌, ◌/◌, Bool, true, false, ◌&&◌, ◌||◌, not, [], ◌∷◌, ◌++◌, ltb, if◌then◌else◌, u32, add32,
  sub32,
}
use leotp.Seg.{mss}
use leotp.Trans.{TransCb, CcState, slow_start, cong_avoid, FloatOps}
use leotp.Trans.Output.{mbit_to_bytes, sdiv}
use leotp.Trans.Rate.{
  ssthresh_init, rtt0, queueing_threshold, min_hrtt, forget_old, last_ts, fmin, fmax, cwnd_min,
  allow_cwnd_increase, allow_cwnd_decrease,
}

abbrev pub is_cong_avoid : CcState → Bool
is_cong_avoid cong_avoid = true
is_cong_avoid slow_start = false

module _ (fl : FloatOps) {W : Type 0} where
  open fl use {Float, lit, of_int, of_word, to_int, sub, add, mul, div, pow, lt, eq}

  -- The window of round-trip times.
  unfoldable pub note_hrtt : ℕ → TransCb Float W → TransCb Float W
  unfolding forget_old
  note_hrtt current cb =
      let q = forget_old current cb.hrtt_queue in
      record cb {
        hrtt_queue =
            if ltb (add32 (last_ts q) (cb.hop_srtt / 2)) current
            then q ++ (current, cb.hop_srtt) ∷ []
            else q;
      }

  unfoldable pub cong_signal : TransCb Float W → Bool
  unfolding mbit_to_bytes
  cong_signal cb =
      let queued = u32 (
        mbit_to_bytes fl cb.thrp_last_period
        * sub32 cb.hop_srtt (min_hrtt 99999999 cb.hrtt_queue)) in
      if eq cb.thrp_last_period (sub (of_int 0) (of_int 1))
      then false
      else lt (lit queueing_threshold 1) (of_int (sdiv queued 1000))

  -- The first `if`: slow start.
  unfoldable pub grow_slowly : Bool → TransCb Float W → TransCb Float W
  grow_slowly signal cb = elim cb.cc_state [
    | slow_start ↦
        if signal || not (lt cb.cwnd (of_word ssthresh_init))
        then record cb { cc_data_len = to_int (mul cb.cwnd (of_word mss)); cc_state = cong_avoid }
        else record cb {
          cwnd = mul (of_word (cb.cc_data_len / mss)) (
              sub (pow (lit 2 1) (fmin fl (lit 5 1) (div (of_int cb.hop_srtt) (of_word rtt0))))
                (lit 1 1));
        }
    | cong_avoid ↦ cb
  ]

  -- The second: congestion avoidance.
  unfoldable pub avoid : ℕ → Bool → TransCb Float W → TransCb Float W
  unfolding allow_cwnd_increase mbit_to_bytes
  avoid current signal cb =
      let window = mul cb.cwnd (of_word mss) in
      let new_cwnd =
        mul
          (div
            (mul (div (of_int (mbit_to_bytes fl cb.thrp_last_period)) (of_int 1000))
              (of_int (min_hrtt 99999999 cb.hrtt_queue)))
            (of_word mss))
          (lit 8 10) in
      let inc = allow_cwnd_increase fl cb in
      if signal
      then record cb {
        cwnd = fmax fl new_cwnd (cwnd_min fl);
        last_cwnd_decr_ts = current;
        cc_data_len = 0;
      }
      else if lt (div window (of_int 10)) (of_int cb.cc_data_len) && inc
      then record cb { cwnd = add cb.cwnd (of_int 1); cc_data_len = 0 }
      else if lt (div (mul (mul (of_int 5) cb.cwnd) (of_word mss)) (of_int 10))
            (of_int cb.cc_data_len)
          && not inc
      then record cb { cwnd = fmax fl (cwnd_min fl) (sub cb.cwnd (lit 1 10)); cc_data_len = 0 }
      else cb

  unfoldable pub update_cwnd : ℕ → ℕ → TransCb Float W → TransCb Float W
  update_cwnd current data_len cb =
      let cb1 = note_hrtt current cb in
      let signal = cong_signal cb1 in
      let cb2 = grow_slowly signal (record cb1 { cc_data_len = add32 cb1.cc_data_len data_len }) in
      if is_cong_avoid cb2.cc_state && allow_cwnd_decrease fl current cb2
      then avoid current signal cb2
      else cb2
