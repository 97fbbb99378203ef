-- ===== src/Trans/Input.antt =====
-- leotp.cpp, `input`: a datagram's segments. `none` is a loop that has not ended.
pub mod Ends
use leotp.Base.{
  ℕ, zero, suc, ◌+◌, ◌-◌, ◌*◌, ◌^◌, true, false, ◌&&◌, ◌||◌, not, Option, none, some, List, ltb,
  leb, ◌==◌, if◌then◌else◌, length, u32, add32, sub32, slt,
}
use leotp.Codec.{itimediff}
use leotp.Seg.{
  LeotpSeg, mss, overhead, cmd_int, bytes_of, finished, bad_length, bad_command, segment,
  next_segment,
}
use leotp.Trans.{TransCb, Callbacks, FloatOps}
use leotp.Trans.Rtt.{update_hop_rtt}
use leotp.Trans.Holes.{detect_data_hole}
use leotp.Trans.Receive.{parse_data}
use leotp.Trans.Rate.{bytes_to_mbit}
use leotp.Trans.Answer.{output_int, parse_int}
use leotp.Trans.Congestion.{update_cwnd}

-- What `input` returns: 0, -1, -2 and -3.
pub data InputResult : Type 0 where
  input_done input_short input_bad_length input_bad_command : InputResult

-- An `IINT16` as an `int`.
abbrev pub sext16 : ℕ → ℕ
sext16 w = if leb (2 ^ 15) w then w + (2 ^ 32 - 2 ^ 16) else w

module _ (fl : FloatOps) {W : Type 0} where
  open fl use {Float, lit, of_int, of_word, mul, div, lt}

  -- An interest.
  unfoldable pub input_int : Callbacks Float W → ℕ → LeotpSeg → TransCb Float W → TransCb Float W
  unfolding parse_int
  input_int cbs now seg cb =
      let cb1 = record cb {
        int_hop_owd = sub32 now seg.ts;
        rmt_send_rate = div (of_int (sext16 seg.wnd)) (of_int 100);
      } in
      if seg.range_start == 0 && seg.range_end == 0
      then cb1
      else parse_int fl cbs now seg.range_start seg.range_end cb1

  -- The throughput of the last hop round-trip time.
  unfoldable pub measure : ℕ → LeotpSeg → TransCb Float W → TransCb Float W
  unfolding bytes_to_mbit
  measure now seg cb =
      let last = if cb.last_thrp_update_ts == 0 then now else cb.last_thrp_update_ts in
      let this = add32 cb.recved_bytes_this_hrtt (overhead + seg.len) in
      let counted = record cb {
        recved_bytes_this_hrtt = this;
        stat = record cb.stat { recved_udp = add32 cb.stat.recved_udp seg.len };
        last_thrp_update_ts = last;
      } in
      if cb.hop_srtt == 0
      then cb
      else if slt cb.hop_srtt (itimediff now last)
      then record counted {
        recved_bytes_last_hrtt = this;
        thrp_last_period =
            mul (div (bytes_to_mbit fl this) (of_word (sub32 now last))) (of_int 1000);
        recved_bytes_this_hrtt = 0;
        last_thrp_update_ts = now;
      }
      else counted

  -- Data, up to the search for holes.
  unfoldable pub input_push : Callbacks Float W → ℕ → LeotpSeg → TransCb Float W → TransCb Float W
  unfolding update_hop_rtt measure update_cwnd output_int detect_data_hole
  input_push cbs now seg cb =
      let cb1 =
        if not (seg.len == 0) && not (seg.wnd == 0)
        then record cb { rmt_sndq_rest = u32 (sext16 seg.wnd * mss) }
        else cb in
      let cb2 = if ltb seg.ts now then update_hop_rtt (sub32 now seg.ts) cb1 else cb1 in
      let cb3 = update_cwnd fl now seg.len (measure now seg cb2) in
      let cb4 =
        if lt (mul (of_int cb3.hop_srtt) (lit 9 10)) (of_word (sub32 now cb3.last_send_int_ts))
        then output_int fl cbs now 0 0 cb3
        else cb3 in
      let r = detect_data_hole now seg.range_start seg.range_end cb4 in
      record r.0 { has_loss_event = r.0.has_loss_event || r.1 }

  unfoldable pub input_loop :
      Callbacks Float W → ℕ → ℕ → List ℕ → TransCb Float W → Option (InputResult × TransCb Float W)
  unfolding input_int input_push parse_data next_segment
  input_loop cbs now zero p cb = none
  input_loop cbs now (suc fuel) p cb = elim (next_segment p) [
    | finished ↦ some (input_done, cb)
    | bad_length ↦ some (input_bad_length, cb)
    | bad_command ↦ some (input_bad_command, cb)
    | segment h payload rest ↦
        let seg = record h { payload = bytes_of payload } in
        let pushed = input_push cbs now seg cb in
        let is_header = seg.len == 0 in
        elim (seg.cmd == cmd_int) [
          | true ↦ input_loop cbs now fuel rest (input_int cbs now seg cb)
          | false ↦ elim (not is_header && not (sub32 seg.range_end seg.range_start == seg.len)) [
            | true ↦ some (input_done, pushed)
            | false ↦ input_loop cbs now fuel rest (parse_data now seg is_header pushed)
          ]
        ]
  ]

  unfoldable pub input :
      Callbacks Float W → ℕ → List ℕ → TransCb Float W → Option (InputResult × TransCb Float W)
  unfolding input_loop
  input cbs now p cb =
      if ltb (length p) overhead
      then some (input_short, cb)
      else input_loop cbs now (suc (length p)) p cb
