-- ===== src/Trans/Answer.antt =====
-- leotp.cpp, `outputInt` and `parseInt`: what a node does with an interest.
pub mod Fetched
use leotp.Base.{
  ℕ, zero, suc, ◌+◌, ◌-◌, ◌*◌, ◌/◌, ◌%◌, ◌^◌, ◌≤◌, ◌<◌, ◌≡◌, refl, sym, ap, ◌∙◌, ◌≢◌, ◌↔◌, ◌⊎◌, inl,
  inr, Bool, true, false, ◌&&◌, ◌||◌, not, Option, none, some, List, [], ◌∷◌, ◌++◌, map, arith, ltb,
  leb, ◌==◌, if◌then◌else◌, length, length-append, All, All-append, All-mono, u32, add32, sub32,
  slt, Bool-cases, Option-cases, if_cases, sub32_le, ltb→lt, lt→ltb, le→ltb, ltb→le, take, drop,
  take-length-append, drop-length-append, span, span-append, length-span, leb_refl, lt→leb,
}
use leotp.Codec.{imin}
use leotp.Seg.{LeotpSeg, Role, Bytes, requester, responder, midnode, cmd_int, mss, encode_seg}
use leotp.Trans.{TransCb, ByteRange, Callbacks, FloatOps}
use leotp.Trans.Deliver.{is_requester}
use leotp.Trans.Interest.{request, accepted, buffer_full, bad_range}
use leotp.Trans.Send.{send_data}
use leotp.Trans.Output.{output}
use leotp.Trans.Rate.{get_data_send_rate}

module _ {F W : Type 0} where
  -- The loop over the parts of at most MSS bytes on fuel: the end of what was sent, and the state.
  -- The fuel is the number of parts and one round to end. Only for a range that ends above
  -- 2^32 - MSS can there be a round beyond it, since `segStart` wraps: it is marked in `overrun`.
  unfoldable pub fetch_loop : Callbacks F W → ℕ → ℕ → ℕ → ℕ → TransCb F W → ℕ × TransCb F W
  unfolding send_data
  fetch_loop cbs zero seg_start range_end sent_end cb =
      (sent_end, record cb { overrun = cb.overrun || ltb seg_start range_end })
  fetch_loop cbs (suc fuel) seg_start range_end sent_end cb =
      let seg_end = imin range_end (add32 seg_start mss) in
      let r = cbs.fetch_data_func seg_start seg_end cb.user in
      let fetched = record cb { user = r.2 } in
      let sent = (send_data r.1 seg_start (add32 seg_start r.0) fetched).1 in
      elim (ltb seg_start range_end) [
        | false ↦ (sent_end, cb)
        | true ↦
            if r.0 == 0
            then (add32 seg_start r.0, fetched)
            else elim (ltb r.0 (sub32 seg_end seg_start)) [
              | true ↦ (add32 seg_start r.0, sent)
              | false ↦
                  fetch_loop cbs fuel (add32 seg_start mss) range_end (add32 seg_start r.0) sent
            ]
      ]

module _ (fl : FloatOps) {W : Type 0} where
  open fl use {Float}

  -- As compiled with HBH_CC.
  unfoldable pub output_int : Callbacks Float W → ℕ → ℕ → ℕ → TransCb Float W → TransCb Float W
  unfolding output get_data_send_rate
  output_int cbs now range_start range_end cb =
      let cb1 = record cb { last_send_int_ts = now } in
      let seg : LeotpSeg = record {
        cmd = cmd_int;
        wnd = get_data_send_rate fl cb1;
        ts = now;
        len = 0;
        range_start = range_start;
        range_end = range_end;
        xmit = 0;
        payload = λ _. 0;
      } in
      output cbs (encode_seg seg) responder cb1

  -- The rest of an interest that no data at hand answers.
  unfoldable pub ask_rest : Callbacks Float W → ℕ → ℕ → ℕ → TransCb Float W → TransCb Float W
  unfolding output_int request
  ask_rest cbs now sent_end range_end cb = elim cb.node_role [
    | responder ↦ cbs.on_unsat_int sent_end range_end (record cb {
      pending_ints =
          cb.pending_ints ++ record { start_byte = sent_end; end_byte = range_end; ts = now } ∷ [];
    })
    | requester ↦ output_int cbs now sent_end range_end cb
    | midnode ↦ elim (request sent_end range_end cb) [
      | accepted c ↦ c
      | buffer_full ↦ cb
      | bad_range ↦ cb
    ]
  ]

  unfoldable pub parse_int : Callbacks Float W → ℕ → ℕ → ℕ → TransCb Float W → TransCb Float W
  parse_int cbs now range_start range_end cb =
      let fuel = suc (sub32 range_end range_start / mss) in
      let r =
        if is_requester cb.node_role
        then (range_start, cb)
        else fetch_loop cbs (suc fuel) range_start range_end range_start cb in
      if leb range_end range_start
      then cb
      else if ltb r.0 range_end
      then ask_rest cbs now r.0 range_end r.1
      else r.1
