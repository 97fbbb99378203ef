-- ===== src/Trans/Output.antt =====
-- leotp.cpp, `output`, `getIntDev`, `mbitToBytes` and `flushData`: the send queue on its way into
-- datagrams. The code's buffer holds three datagrams; here it holds any number of bytes.
pub mod Datagrams
use leotp.Base.{
  ℕ, zero, suc, ◌+◌, ◌-◌, ◌*◌, ◌/◌, ◌%◌, ◌^◌, ◌≤◌, ◌<◌, ◌≡◌, refl, sym, ap, ◌∙◌, ◌≢◌, ◌↔◌, ◌⊎◌, inl,
  inr, Bool, true, false, ◌&&◌, ◌||◌, not, Option, none, some, List, [], ◌∷◌, ◌++◌, map, arith, ltb,
  leb, ◌==◌, if◌then◌else◌, length, length-append, All, All-append, All-mono, u32, add32, sub32,
  slt, Bool-cases, Option-cases, if_cases, sub32_le, ltb→lt, lt→ltb, le→ltb, ltb→le, take, drop,
  take-length-append, drop-length-append, span, span-append, length-span, leb_refl, lt→leb,
}
use leotp.Seg.{LeotpSeg, Role, requester, responder, midnode, overhead, mss, mtu, slice, encode_seg}
use leotp.Trans.{TransCb, StatInfo, Callbacks, FloatOps, sndq_max, update_interval}

abbrev pub is_responder : Role → Bool
is_responder responder = true
is_responder requester = false
is_responder midnode = false

-- `min` on two patterns read as `int`.
abbrev pub smin : ℕ → ℕ → ℕ
smin a b = if slt b a then b else a

-- `max`, and the division of an `int` by a small number, which rounds towards 0.
abbrev pub smax : ℕ → ℕ → ℕ
smax a b = if slt a b then b else a

abbrev pub sdiv : ℕ → ℕ → ℕ
sdiv n d = if slt n 0 then sub32 0 (sub32 0 n / d) else n / d

-- `(IINT16)a - (IINT16)b` in 16 bits.
abbrev pub sub16 : ℕ → ℕ → ℕ
sub16 a b = (a + 2 ^ 16 - b % 2 ^ 16) % 2 ^ 16

module _ (fl : FloatOps) where
  open fl use {Float, of_int, to_int, mul}

  unfoldable pub mbit_to_bytes : Float → ℕ
  mbit_to_bytes mbit = to_int (mul mbit (of_int 125000))

module _ {F W : Type 0} where
  unfoldable pub get_int_dev : TransCb F W → ℕ
  get_int_dev cb = sub16 (sndq_max / mss) (cb.snd_queue_bytes / mss)

  unfoldable pub output : Callbacks F W → List ℕ → Role → TransCb F W → TransCb F W
  output cbs bytes dst_role cb =
      if length bytes == 0 then cb else record cb { user = cbs.output_func bytes dst_role cb.user }

  -- The segment as it is sent: with the time of the hop and, at the responder, the deviation.
  unfoldable pub stamp : ℕ → TransCb F W → LeotpSeg → LeotpSeg
  unfolding get_int_dev
  stamp now cb seg = record seg {
    ts = sub32 now cb.int_hop_owd;
    wnd = if is_responder cb.node_role then get_int_dev cb else seg.wnd;
  }

  -- What is charged for a segment when it passes the limit.
  unfoldable pub charge : LeotpSeg → TransCb F W → TransCb F W
  charge seg cb = record cb {
    data_output_limit = sub32 cb.data_output_limit (overhead + seg.len);
    stat = record cb.stat { sent_leotp = add32 cb.stat.sent_leotp seg.len };
  }

  -- The loop: whether the limit was reached, the bytes not yet sent, and the state.
  unfoldable pub flush_data_loop :
      Callbacks F W → ℕ → List LeotpSeg → List ℕ → TransCb F W → Bool × List ℕ × TransCb F W
  unfolding output stamp charge
  flush_data_loop cbs now [] buf cb = (false, buf, record cb { snd_queue = [] })
  flush_data_loop cbs now (seg ∷ queue) buf cb =
      elim (ltb cb.data_output_limit (seg.len + overhead)) [
        | true ↦ (true, buf, record cb { snd_queue = seg ∷ queue })
        | false ↦
            let charged = charge seg cb in
            let full = ltb mtu (length buf + (overhead + seg.len)) in
            let cb1 = if full then output cbs buf requester charged else charged in
            let kept = if full then [] else buf in
            flush_data_loop cbs now queue
              (kept ++ (encode_seg (stamp now cb1 seg) ++ slice seg.payload 0 seg.len))
              (record cb1 { snd_queue_bytes = sub32 cb1.snd_queue_bytes (seg.len + overhead) })
      ]

module _ (fl : FloatOps) {W : Type 0} where
  open fl use {Float, of_int, of_word, mul, div}

  -- As compiled with HBH_CC.
  unfoldable pub flush_data : Callbacks Float W → ℕ → TransCb Float W → TransCb Float W
  unfolding flush_data_loop output
  flush_data cbs now cb =
      let flush_intv =
        if cb.last_flush_ts == 0 then update_interval else sub32 now cb.last_flush_ts in
      let new_output =
        mbit_to_bytes fl (div (mul cb.rmt_send_rate (of_word flush_intv)) (of_int 1000)) in
      let limit = add32 cb.data_output_limit new_output in
      let r = flush_data_loop cbs now cb.snd_queue [] (record cb { data_output_limit = limit }) in
      let cb1 =
        if r.0
        then r.2
        else record r.2 { data_output_limit = smin r.2.data_output_limit new_output } in
      output cbs r.1 requester cb1
