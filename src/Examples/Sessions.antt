-- ===== src/Examples/Sessions.antt =====
-- leotp.cpp and generality.h at concrete inputs.
use leotp.Base.{
  ◌⊎◌, none, ◌+◌, if◌then◌else◌, ltb, ℕ, ◌-◌, ◌%◌, ◌≤◌, ◌≡◌, refl, ap, ◌≢◌, inr, true, false, ◌&&◌,
  ◌||◌, not, some, List, [], ◌∷◌, ◌++◌, arith, All,
}
use mathlib.Core.Bool.{false≢true}
use leotp.Seg.{
  LeotpSeg, Role, Bytes, requester, responder, midnode, cmd_int, cmd_push, slice, next_segment,
  segment, judge_seg_dst,
}
use leotp.Seg.Wire.{Fits, header, wire, next_segment-wire, judge_seg_dst-wire}
use leotp.Trans.{FloatOps, Callbacks, TransCb, StatInfo, slow_start}
use leotp.Trans.Interest.{flush_int_queue}
use leotp.Trans.Interest.Flush.{wanted, Flushed, flush_int_queue-Flushed}
use leotp.Trans.Holes.{delete_holes, detect_data_hole}
use leotp.Trans.Holes.Cover.{
  within, missing, HolesBelow, delete_holes-missing, detect_data_hole_lem,
}
use leotp.Trans.IntBuf.{update_int_buf}
use leotp.Trans.IntBuf.Refresh.{awaited, Fresh, update_int_buf_lem}
use leotp.Trans.Rtt.{update_rtt}
use leotp.Trans.Rtt.Bounds.{RttInRange, update_rtt-RttInRange}
use leotp.Trans.Send.{send_data, notify_new_data}
use leotp.Trans.Send.Packed.{Packed, queued, send_data-Packed}
use leotp.Trans.Send.Notify.{waiting, carried, Carries, notify_new_data_lem}
use leotp.Trans.Deliver.{move_to_rcv_queue, recv}
use leotp.Trans.Deliver.InOrder.{
  InOrder, Stopped, Returned, stream, move_to_rcv_queue-InOrder, recv-Returned,
}
use leotp.Trans.Output.{flush_data}
use leotp.Trans.Output.Datagrams.{send_all, IsDatagram, Sequence, concat, flush_data_lem}
use leotp.Trans.Answer.{parse_int, ask_rest}
use leotp.Trans.Answer.Fetched.{parse_int_lem}
use leotp.Trans.Answer.Fetched.Loop.{Fetched}
use leotp.Trans.Retransmit.{flush_data_holes}
use leotp.Trans.Retransmit.Retried.{expired, young, ripe, retry_each, flush_data_holes_lem}
use leotp.Trans.Timer.{check}
use leotp.Trans.Timer.Due.{check_lem}
use leotp.Trans.Receive.{parse_data}
use leotp.Trans.Receive.Answered.{parse_data_lem}

abbrev pub counts : Bytes
counts i = i % 256

abbrev pub seg_of : ℕ → ℕ → LeotpSeg
seg_of start end = record {
  cmd = cmd_push;
  wnd = 0;
  ts = 0;
  len = end - start;
  range_start = start;
  range_end = end;
  xmit = 1;
  payload = counts;
}

abbrev pub no_stat : StatInfo
no_stat = record {
  ssid = 0;
  start_ts = 0;
  xmit = 0;
  last_print_ts = 0;
  recved_udp = 0;
  recved_leotp = 0;
  sent_leotp = 0;
  cnt_timeout = 0;
  cnt_int_hole = 0;
  cnt_data_hole = 0;
}

-- A control block with something in each list.
abbrev pub node_of : {W : Type 0} → Role → W → TransCb Unit W
node_of role user = record {
  state = 0;
  updated = true;
  next_flush_ts = 0;
  last_flush_ts = 0;
  stat = no_stat;
  node_role = role;
  int_queue = record { start_byte = 100; end_byte = 110; ts = 0 } ∷ [];
  int_buf = seg_of 3 20 ∷ [];
  rcv_buf = seg_of 3 5 ∷ [];
  rcv_buf_itrs = [];
  rcv_nxt = 3;
  rcv_queue = seg_of 0 3 ∷ [];
  pending_ints = record { start_byte = 5; end_byte = 12; ts = 7 } ∷ [];
  snd_queue = [];
  srtt = 40;
  rttvar = 10;
  rto = 100;
  conseq_timeout = 0;
  data_holes = record { start_byte = 2; end_byte = 8; ts = 0; count = 0 } ∷ [];
  data_next_range_start = 10;
  rmt_sndq_rest = 0;
  int_output_limit = 0;
  cc_state = slow_start;
  cc_data_len = 0;
  cwnd = tt;
  int_hop_owd = 0;
  hop_srtt = 0;
  hop_rttvar = 0;
  last_send_int_ts = 0;
  overrun = false;
  last_thrp_update_ts = 0;
  recved_bytes_last_hrtt = 0;
  recved_bytes_this_hrtt = 0;
  thrp_last_period = tt;
  has_loss_event = false;
  hrtt_queue = [];
  last_cwnd_decr_ts = 0;
  snd_queue_bytes = 0;
  int_buf_bytes = 17;
  rmt_send_rate = tt;
  data_output_limit = 0;
  user = user;
}

abbrev node : Role → TransCb Unit Unit
node role = node_of role tt

parse_data_lem_example :
    let after = parse_data 50 (seg_of 5 9) false (node requester) in
    (awaited 6 after.int_buf ≡ (awaited 6 (seg_of 3 20 ∷ []) && not (within 5 9 6)))
    × (carried 6 (after.rcv_queue ++ after.rcv_buf) ≡ (
        carried 6 (seg_of 0 3 ∷ seg_of 3 5 ∷ []) || (awaited 6 (seg_of 3 20 ∷ []) && within 5 9 6)))
parse_data_lem_example =
    parse_data_lem 50 (seg_of 5 9) (node requester) refl (omega arith)
      (omega arith, omega arith, omega arith) 6

recv-Returned_example :
    Returned 64 0 (stream (seg_of 0 3 ∷ seg_of 3 5 ∷ [])) (recv 64 (node requester))
recv-Returned_example =
    recv-Returned 64 0 (node requester) refl (λ e. absurd (cons≢nil e)) (omega arith)
      ((refl, refl, refl), (refl, tt))
  where
    cons≢nil : {g : LeotpSeg} {gs : List LeotpSeg} → g ∷ gs ≢ []
    cons≢nil e = false≢true (ap (λ l. elim l [ [] ↦ true | x ∷ xs ↦ false ]) e)

move_to_rcv_queue-InOrder_example :
    let after = move_to_rcv_queue (node requester) in
    InOrder 0 after
    × (after.rcv_queue ++ after.rcv_buf ≡ seg_of 0 3 ∷ seg_of 3 5 ∷ [])
    × Stopped after.rcv_nxt after.rcv_queue after.rcv_buf
move_to_rcv_queue-InOrder_example =
    move_to_rcv_queue-InOrder 0 (node requester) refl ((refl, refl, refl), (refl, tt))

flush_int_queue-Flushed_example :
    Flushed
      (wanted (node requester).int_queue)
      (node requester)
      (flush_int_queue 10 (node requester))
flush_int_queue-Flushed_example =
    flush_int_queue-Flushed 10 (node requester) (omega arith) ((omega arith, omega arith), tt)
      (omega arith)

delete_holes-missing_example :
    missing 5 (delete_holes 4 6 (node requester).data_holes)
    ≡ (missing 5 (node requester).data_holes && not (within 4 6 5))
delete_holes-missing_example =
    delete_holes-missing 4 6 0 10 5 (node requester).data_holes (omega arith)
      (omega arith, omega arith, omega arith)

detect_data_hole_lem_example :
    let r = detect_data_hole 30 15 20 (node midnode) in
    HolesBelow r.0
    × ((p : ℕ)
        → missing p r.0.data_holes ≡ (
            (missing p (node midnode).data_holes && not (within 15 20 p))
            || (r.1 && within 10 15 p)))
detect_data_hole_lem_example =
    detect_data_hole_lem 30 15 20 (node midnode) (omega arith) (omega arith)
      (omega arith, omega arith, omega arith)

update_int_buf_lem_example :
    ((p : ℕ)
      → awaited p (update_int_buf 60 5 9 (node requester)).int_buf ≡ awaited p (seg_of 3 20 ∷ []))
    × All (Fresh 60 5 9) (update_int_buf 60 5 9 (node requester)).int_buf
update_int_buf_lem_example =
    update_int_buf_lem 60 5 9 (node requester) (omega arith) (omega arith, omega arith, omega arith)

update_rtt-RttInRange_example :
    RttInRange (update_rtt 80 1 (node requester)) × (1 ≤ (update_rtt 80 1 (node requester)).srtt)
update_rtt-RttInRange_example =
    update_rtt-RttInRange 80 1 (node requester) (omega arith) (omega arith)
      ((omega arith, omega arith), omega arith, omega arith)

send_data-Packed_example :
    (gs : List LeotpSeg) × Packed counts 10 3000 gs
    × (send_data counts 10 3000 (node responder) ≡ (true, queued gs (node responder)))
send_data-Packed_example =
    send_data-Packed counts 10 3000 (node responder) (omega arith) (omega arith) (omega arith)
      (omega arith)

notify_new_data_lem_example :
    let after = notify_new_data counts 0 9 (node responder) in
    ((p : ℕ)
      → waiting p after.pending_ints
        ≡ (waiting p (node responder).pending_ints && not (within 0 9 p)))
    × (gs : List LeotpSeg) × (after
        ≡ record (queued gs (node responder)) { pending_ints = after.pending_ints })
    × All (Carries counts 0) gs
    × ((p : ℕ) → carried p gs ≡ (waiting p (node responder).pending_ints && within 0 9 p))
notify_new_data_lem_example =
    notify_new_data_lem counts 0 9 (node responder) ((omega arith, omega arith), tt) (omega arith)
      (omega arith) (omega arith)

seg_of-Fits : Fits (seg_of 7 10)
seg_of-Fits = record {
  cmd = omega arith;
  wnd = omega arith;
  ts = omega arith;
  len = omega arith;
  range_start = omega arith;
  range_end = omega arith;
}

next_segment-wire_example :
    next_segment (wire (seg_of 7 10) ++ 1 ∷ [])
    ≡ segment (header (seg_of 7 10)) (slice counts 0 3) (1 ∷ [])
next_segment-wire_example = next_segment-wire (seg_of 7 10) (1 ∷ []) seg_of-Fits (inr refl)

judge_seg_dst-wire_example :
    (cmd_push ≡ cmd_int → judge_seg_dst (wire (seg_of 7 10) ++ []) ≡ some responder)
    × (cmd_push ≡ cmd_push → judge_seg_dst (wire (seg_of 7 10) ++ []) ≡ some requester)
judge_seg_dst-wire_example = judge_seg_dst-wire (seg_of 7 10) [] seg_of-Fits

abbrev pub no_floats : FloatOps
no_floats = record {
  Float = Unit;
  lit = λ a b. tt;
  of_int = λ n. tt;
  of_word = λ n. tt;
  to_int = λ x. 3000;
  to_word = λ x. 3000;
  to_int16 = λ x. 10;
  add = λ x y. tt;
  sub = λ x y. tt;
  mul = λ x y. tt;
  div = λ x y. tt;
  pow = λ x y. tt;
  lt = λ x y. false;
  eq = λ x y. true;
}

abbrev app : Callbacks Unit Unit
app = record {
  output_func = λ b r w. w;
  fetch_data_func = λ s e w. (e - s, (λ i. counts (s + i)), w);
  on_unsat_int = λ s e cb. cb;
}

flush_data_lem_example :
    let cb = record (node responder) { snd_queue = seg_of 0 5 ∷ seg_of 5 9 ∷ [] } in
    let after = flush_data no_floats app 9 cb in
    (sent : List LeotpSeg) × (ds : List (List ℕ)) × (seg_of 0 5 ∷ seg_of 5 9 ∷ []
      ≡ sent ++ after.snd_queue)
    × (after.user ≡ send_all app ds tt)
    × All IsDatagram ds
    × Sequence sent (concat ds)
flush_data_lem_example =
    flush_data_lem no_floats app 9
      (record (node responder) { snd_queue = seg_of 0 5 ∷ seg_of 5 9 ∷ [] })
      (omega arith, (omega arith, tt))

parse_int_lem_example :
    (sent_end : ℕ) × (c : TransCb Unit Unit) × Fetched counts
      (λ _. Unit)
      5000
      10
      3000
      (node responder)
      (sent_end, c)
    × (parse_int no_floats app 9 10 3000 (node responder)
        ≡ (if ltb sent_end 3000 then ask_rest no_floats app 9 sent_end 3000 c else c))
parse_int_lem_example =
    parse_int_lem no_floats counts (λ _. Unit) 5000 app 9 10 3000 (node responder) refl
      (λ s e w g h l. (omega arith, (λ i k. refl), tt)) tt (omega arith) (omega arith) (omega arith)
      (omega arith)

check_lem_example : check 30 (node requester) ≡ 30
check_lem_example = check_lem 30 (node requester) (omega arith) (omega arith)

flush_data_holes_lem_example :
    ((expired 50 (node requester).data_holes ≡ true)
      × (flush_data_holes no_floats app 50 (node requester) ≡ none))
    ⊎ ((expired 50 (node requester).data_holes ≡ false)
        × (flush_data_holes no_floats app 50 (node requester)
            ≡ some
                (record (retry_each no_floats app 50
                  (ripe 50 (node requester).data_holes)
                  (node requester)) { data_holes = young 50 (node requester).data_holes })))
flush_data_holes_lem_example = flush_data_holes_lem no_floats app 50 (node requester)
