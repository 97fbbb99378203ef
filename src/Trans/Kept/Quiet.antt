-- ===== src/Trans/Kept/Quiet.antt =====
-- leotp.cpp, the parts of a control block that call nothing: they leave its role and the object of
-- the callbacks alone.
use leotp.Base.{
  ℕ, zero, suc, ◌/◌, refl, ◌∙◌, Bool, ◌&&◌, List, [], ◌∷◌, ◌++◌, arith, leb, if◌then◌else◌, add32,
  sub32, if_cases,
}
use leotp.Codec.{itimediff}
use leotp.Seg.{LeotpSeg, Bytes, mss}
use leotp.Trans.{TransCb, FloatOps}
use leotp.Trans.Kept.{Same}
use leotp.Trans.Send.{push_seg, send_loop, send_data, seg_size, shift, data_seg}
use leotp.Trans.Holes.{detect_data_hole}
use leotp.Trans.Deliver.{move_to_rcv_queue}
use leotp.Trans.Receive.{store_answer, answer_loop, parse_data, answer, contains, overlaps}
use leotp.Trans.Rtt.{update_rtt, update_hop_rtt}
use leotp.Trans.Congestion.{cong_signal, is_cong_avoid, note_hrtt, grow_slowly, avoid, update_cwnd}
use leotp.Trans.Rate.{allow_cwnd_decrease}
use leotp.Trans.Input.{measure}

module _ {F W : Type 0} where
  send_loop-Same :
      (fuel : ℕ) (buffer : Bytes) (start len : ℕ) (cb : TransCb F W)
      → Same (send_loop fuel buffer start len cb) cb
  unfolding send_loop
  send_loop-Same zero buffer start len cb = (refl, refl)
  send_loop-Same (suc fuel) buffer start len cb = ground (
    arith,
    send_loop-Same fuel (shift (seg_size len) buffer) (add32 start (seg_size len))
        (sub32 len (seg_size len)) (push_seg (data_seg buffer start (seg_size len)) cb),
  )

  pub send_data-Same :
      (buffer : Bytes) (start end : ℕ) (cb : TransCb F W)
      → Same (send_data buffer start end cb).1 cb
  unfolding send_data
  send_data-Same buffer start end cb =
      ground (arith, send_loop-Same (suc (sub32 end start / mss)) buffer start (sub32 end start) cb)

  pub detect_data_hole-Same :
      (now s e : ℕ) (cb : TransCb F W) → Same (detect_data_hole now s e cb).0 cb
  unfolding detect_data_hole
  detect_data_hole-Same now s e cb = ground arith

  pub move_to_rcv_queue-Same : (cb : TransCb F W) → Same (move_to_rcv_queue cb) cb
  unfolding move_to_rcv_queue
  move_to_rcv_queue-Same cb = ground arith

  update_rtt-Same : (rtt xmit : ℕ) (cb : TransCb F W) → Same (update_rtt rtt xmit cb) cb
  unfolding update_rtt
  update_rtt-Same rtt xmit cb = ground arith

  pub update_hop_rtt-Same : (rtt : ℕ) (cb : TransCb F W) → Same (update_hop_rtt rtt cb) cb
  unfolding update_hop_rtt
  update_hop_rtt-Same rtt cb = ground arith

  push_seg-Same : (seg : LeotpSeg) (cb : TransCb F W) → Same (push_seg seg cb) cb
  unfolding push_seg
  push_seg-Same seg cb = (refl, refl)

  store_answer-Same : (seg : LeotpSeg) (cb : TransCb F W) → Same (store_answer seg cb) cb
  unfolding store_answer
  store_answer-Same seg cb = (refl, refl)

  -- What the loop of `parseData` does for one interest.
  abbrev met : ℕ → LeotpSeg → LeotpSeg → TransCb F W → TransCb F W
  met now d i cb =
      let stored = store_answer (answer now d i) cb in
      let timed = if contains d i then update_rtt (itimediff now i.ts) i.xmit stored else stored in
      if overlaps d i then timed else cb

  met-Same : (now : ℕ) (d i : LeotpSeg) (cb : TransCb F W) → Same (met now d i cb) cb
  met-Same now d i cb = ground (
    arith,
    store_answer-Same (answer now d i) cb,
    update_rtt-Same (itimediff now i.ts) i.xmit (store_answer (answer now d i) cb),
  )

  answer_loop-Same :
      (now : ℕ) (d : LeotpSeg) (ints : List LeotpSeg) (cb : TransCb F W)
      → Same (answer_loop now d ints cb).1 cb
  unfolding answer_loop
  answer_loop-Same now d [] cb = (refl, refl)
  answer_loop-Same now d (i ∷ ints) cb =
      let next = answer_loop-Same now d ints (met now d i cb) in
      let here = met-Same now d i cb in
      if_cases (λ (r : List LeotpSeg × TransCb F W). Same r.1 cb) (leb d.range_end i.range_start)
        (λ _. (refl, refl)) (λ _. (next.0 ∙ here.0, next.1 ∙ here.1))

  pub parse_data-Same :
      (now : ℕ) (d : LeotpSeg) (header : Bool) (cb : TransCb F W)
      → Same (parse_data now d header cb) cb
  unfolding parse_data
  parse_data-Same now d header cb = ground (
    arith,
    answer_loop-Same now d cb.int_buf cb,
    move_to_rcv_queue-Same (record (answer_loop now d cb.int_buf cb).1 {
      int_buf = (answer_loop now d cb.int_buf cb).0;
    }),
    move_to_rcv_queue-Same (push_seg d cb),
    move_to_rcv_queue-Same (record (push_seg d cb) { rcv_buf = (push_seg d cb).rcv_buf ++ d ∷ [] }),
    push_seg-Same d cb,
  )

module _ (fl : FloatOps) {W : Type 0} where
  open fl use {Float}

  pub measure-Same :
      (now : ℕ) (seg : LeotpSeg) (cb : TransCb Float W) → Same (measure fl now seg cb) cb
  unfolding measure
  measure-Same now seg cb = ground arith

  note_hrtt-Same : (now : ℕ) (cb : TransCb Float W) → Same (note_hrtt fl now cb) cb
  unfolding note_hrtt
  note_hrtt-Same now cb = (refl, refl)

  grow_slowly-Same : (signal : Bool) (cb : TransCb Float W) → Same (grow_slowly fl signal cb) cb
  unfolding grow_slowly
  grow_slowly-Same signal cb = ground arith

  avoid-Same : (now : ℕ) (signal : Bool) (cb : TransCb Float W) → Same (avoid fl now signal cb) cb
  unfolding avoid
  avoid-Same now signal cb = ground arith

  pub update_cwnd-Same : (now len : ℕ) (cb : TransCb Float W) → Same (update_cwnd fl now len cb) cb
  unfolding update_cwnd
  update_cwnd-Same now len cb =
      let cb1 = note_hrtt fl now cb in
      let signal = cong_signal fl cb1 in
      let cb2 = grow_slowly fl signal (record cb1 { cc_data_len = add32 cb1.cc_data_len len }) in
      let noted = note_hrtt-Same now cb in
      let grown =
        grow_slowly-Same signal (record cb1 { cc_data_len = add32 cb1.cc_data_len len }) in
      let avoided = avoid-Same now signal cb2 in
      if_cases (λ (c : TransCb Float W). Same c cb)
        (is_cong_avoid cb2.cc_state && allow_cwnd_decrease fl now cb2)
        (λ _. (avoided.0 ∙ grown.0 ∙ noted.0, avoided.1 ∙ grown.1 ∙ noted.1))
        (λ _. (grown.0 ∙ noted.0, grown.1 ∙ noted.1))
