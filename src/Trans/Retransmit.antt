-- ===== src/Trans/Retransmit.antt =====
-- leotp.cpp, `flushDataHoles` and `flushIntBuf`: interests that are sent, and sent again.
pub mod Retried
pub mod Dead
use leotp.Base.{
  ℕ, ◌+◌, ◌*◌, ◌/◌, ◌^◌, Bool, true, false, ◌&&◌, ◌||◌, not, Option, none, some, List, [], ◌∷◌, ltb,
  leb, ◌==◌, if◌then◌else◌, u32, add32, sub32, slt,
}
use leotp.Seg.{LeotpSeg}
use leotp.Trans.{TransCb, Hole, Callbacks, FloatOps, update_interval, hole_wait, snhole_timeout}
use leotp.Trans.Holes.{is_midnode, delete_data_hole}
use leotp.Trans.IntBuf.{update_int_buf}
use leotp.Trans.Deliver.{is_requester}
use leotp.Trans.Output.{smin, smax, sdiv, mbit_to_bytes}
use leotp.Trans.Rate.{sendrate_min}
use leotp.Trans.Answer.{output_int, parse_int}

abbrev pub deadlink : ℕ
deadlink = 8

-- `_itimediff(now, ts) >= n` for an unsigned `n`.
abbrev pub since : ℕ → ℕ → ℕ → Bool
since now ts n = ltb (sub32 now ts) (2 ^ 31) && leb n (sub32 now ts)

-- How the loop of `flushIntBuf` ends: with the interests that stay, the timeouts, whether the limit
-- was reached and the state; or with `exit` on a dead link.
pub data Sent (F W : Type 0) : Type 0 where
  sent_up_to : List LeotpSeg → ℕ → Bool → TransCb F W → Sent F W
  dead_link : Sent F W

abbrev pub keep_interest : {F W : Type 0} → LeotpSeg → Sent F W → Sent F W
keep_interest seg (sent_up_to l n reached cb) = sent_up_to (seg ∷ l) n reached cb
keep_interest seg dead_link = dead_link

module _ (fl : FloatOps) {W : Type 0} where
  open fl use {Float, lit, of_int, of_word, to_int, to_word, add, sub, mul, div, pow}

  -- The loop of `flushDataHoles`: the holes that stay, and the state. `none`: a hole of
  -- LEOTP_SNHOLE_TIMEOUT is erased, then read and erased again, which has no defined behaviour.
  unfoldable pub retry_holes :
      Callbacks Float W → ℕ → List Hole → TransCb Float W → Option (List Hole × TransCb Float W)
  unfolding parse_int update_int_buf
  retry_holes cbs now [] cb = some ([], cb)
  retry_holes cbs now (h ∷ hs) cb =
      let asked = parse_int fl cbs now h.start_byte h.end_byte cb in
      let refreshed =
        if is_requester cb.node_role
        then update_int_buf now h.start_byte h.end_byte asked
        else asked in
      elim (since now h.ts snhole_timeout) [
        | true ↦ none
        | false ↦ elim (since now h.ts hole_wait) [
          | true ↦ retry_holes cbs now hs refreshed
          | false ↦ elim (retry_holes cbs now hs cb) [ none ↦ none | some r ↦ some (h ∷ r.0, r.1) ]
        ]
      ]

  unfoldable pub flush_data_holes :
      Callbacks Float W → ℕ → TransCb Float W → Option (TransCb Float W)
  unfolding retry_holes
  flush_data_holes cbs now cb = elim (retry_holes cbs now cb.data_holes cb) [
    | none ↦ none
    | some r ↦ some (record r.1 { data_holes = r.0 })
  ]

  -- Whether an interest is due.
  unfoldable pub need_send : ℕ → TransCb Float W → LeotpSeg → Bool
  need_send now cb seg =
      if is_midnode cb.node_role || seg.xmit == 0
      then true
      else since now seg.ts (
          to_word
            (mul (of_int cb.rto) (add (pow (lit 3 2) (of_word (sub32 seg.xmit 1))) (of_int 1))))

  -- Sending one interest, once the limit has let it pass.
  unfoldable pub send_interest :
      Callbacks Float W → ℕ → LeotpSeg → TransCb Float W → TransCb Float W
  unfolding delete_data_hole output_int
  send_interest cbs now seg cb =
      let timed_out = record cb {
        has_loss_event = true;
        stat = record cb.stat { xmit = add32 cb.stat.xmit 1 };
      } in
      let cb1 = if ltb 0 seg.xmit then timed_out else cb in
      let cb2 =
        output_int fl cbs now seg.range_start seg.range_end
          (delete_data_hole seg.range_start seg.range_end cb1) in
      if is_midnode cb.node_role
      then record cb2 {
        int_buf_bytes = sub32 cb2.int_buf_bytes (sub32 seg.range_end seg.range_start);
      }
      else cb2

  unfoldable pub send_interests :
      Callbacks Float W → ℕ → List LeotpSeg → ℕ → TransCb Float W → Sent Float W
  unfolding need_send send_interest
  send_interests cbs now [] cnt_timeout cb = sent_up_to [] cnt_timeout false cb
  send_interests cbs now (seg ∷ segs) cnt_timeout cb =
      let size = sub32 seg.range_end seg.range_start in
      let charged =
        if is_requester cb.node_role
        then record cb { int_output_limit = sub32 cb.int_output_limit size }
        else cb in
      let cnt = if ltb 0 seg.xmit then cnt_timeout + 1 else cnt_timeout in
      elim (need_send now cb seg) [
        | false ↦ keep_interest seg (send_interests cbs now segs cnt_timeout cb)
        | true ↦ elim (is_requester cb.node_role && ltb cb.int_output_limit size) [
          | true ↦ sent_up_to (seg ∷ segs) cnt_timeout true cb
          | false ↦ elim (leb deadlink seg.xmit) [
            | true ↦ dead_link
            | false ↦
                let rest = send_interests cbs now segs cnt (send_interest cbs now seg charged) in
                if is_midnode cb.node_role
                then rest
                else keep_interest (record seg { xmit = add32 seg.xmit 1; ts = now }) rest
          ]
        ]
      ]

  -- `newOutput`.
  unfoldable pub new_int_output : ℕ → TransCb Float W → ℕ
  unfolding mbit_to_bytes
  new_int_output flush_intv cb =
      smax
        (to_int (
          add (div (mul (of_int cb.rmt_sndq_rest) (of_word flush_intv)) (of_int cb.srtt))
            (of_word (u32 (mbit_to_bytes fl cb.thrp_last_period * flush_intv) / 1000))))
        (sdiv (u32 (mbit_to_bytes fl (sendrate_min fl) * flush_intv)) 1000)

  -- What follows on the loop.
  unfoldable pub after_interests : ℕ → Sent Float W → TransCb Float W → Option (TransCb Float W)
  after_interests new_output dead_link cb = none
  after_interests new_output (sent_up_to l cnt_timeout reached c) cb =
      let limited =
        if not (c.srtt == 0) && not reached
        then record c { int_output_limit = smin c.int_output_limit new_output }
        else c in
      let counted = record limited {
        int_buf = l;
        stat = record c.stat { cnt_timeout = add32 c.stat.cnt_timeout cnt_timeout };
        conseq_timeout = if ltb 0 cnt_timeout then add32 c.conseq_timeout 1 else c.conseq_timeout;
      } in
      some (
        if ltb 0 cnt_timeout && slt counted.conseq_timeout 10
        then record counted {
          srtt = to_int (mul (of_int c.srtt) (lit 11 10));
          rto = to_int (mul (of_int c.rto) (lit 11 10));
        }
        else counted)

  -- `none` is `exit`.
  unfoldable pub flush_int_buf : Callbacks Float W → ℕ → TransCb Float W → Option (TransCb Float W)
  unfolding send_interests after_interests new_int_output
  flush_int_buf cbs now cb =
      let flush_intv =
        if cb.last_flush_ts == 0 then update_interval else sub32 now cb.last_flush_ts in
      let new_output = new_int_output flush_intv cb in
      let cb1 =
        if cb.srtt == 0
        then cb
        else record cb { int_output_limit = add32 cb.int_output_limit new_output } in
      if cb.int_buf_bytes == 0
      then some cb
      else after_interests new_output (send_interests cbs now cb1.int_buf 0 cb1) cb1
