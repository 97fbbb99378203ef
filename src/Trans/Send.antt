-- ===== src/Trans/Send.antt =====
-- leotp.cpp, `sendData` and `notifyNewData`: data on its way into the send queue, and the interests
-- that wait at the responder for data.
pub mod Packed
pub mod Notify
use leotp.Base.{
  ℕ, zero, suc, ◌+◌, ◌-◌, ◌*◌, ◌/◌, ◌%◌, ◌^◌, ◌≤◌, ◌<◌, ◌≡◌, refl, sym, ap, ◌∙◌, ◌≢◌, ◌↔◌, ◌⊎◌, inl,
  inr, Bool, true, false, ◌&&◌, ◌||◌, not, Option, none, some, List, [], ◌∷◌, ◌++◌, map, arith, ltb,
  leb, ◌==◌, if◌then◌else◌, length, length-append, All, All-append, All-mono, u32, add32, sub32,
  slt, Bool-cases, Option-cases, if_cases, sub32_le, ltb→lt, lt→ltb, le→ltb, ltb→le, take, drop,
  take-length-append, drop-length-append, span, span-append, length-span, leb_refl, lt→leb,
}
use leotp.Codec.{imin, imax, itimediff}
use leotp.Seg.{LeotpSeg, Bytes, cmd_push, mss, overhead}
use leotp.Trans.{ByteRange, TransCb}

-- The pointer `n` bytes further on.
abbrev pub shift : ℕ → Bytes → Bytes
shift n p i = p (n + i)

-- The bytes of the next segment: all of them, at most as a datagram allows.
abbrev pub seg_size : ℕ → ℕ
seg_size len = if slt mss len then mss else len

unfoldable pub data_seg : Bytes → ℕ → ℕ → LeotpSeg
data_seg buffer start size = record {
  cmd = cmd_push;
  wnd = 0;
  ts = 0;
  len = size;
  range_start = start;
  range_end = add32 start size;
  xmit = 0;
  payload = buffer;
}

-- What remains of a pending interest of which [start, end) is sent, in front of the later ones.
unfoldable pub left_over : ByteRange → ℕ → ℕ → List ByteRange → List ByteRange
left_over r start end rest =
    if start == r.start_byte && end == r.end_byte
    then rest
    else if end == r.end_byte
    then record r { end_byte = start } ∷ rest
    else if start == r.start_byte
    then record r { start_byte = end } ∷ rest
    else record r { end_byte = start } ∷ record r { start_byte = end } ∷ rest

module _ {F W : Type 0} where
  unfoldable pub push_seg : LeotpSeg → TransCb F W → TransCb F W
  push_seg seg cb = record cb {
    snd_queue = cb.snd_queue ++ seg ∷ [];
    snd_queue_bytes = add32 cb.snd_queue_bytes (overhead + seg.len);
  }

  -- `while (len > 0)` on fuel.
  unfoldable pub send_loop : ℕ → Bytes → ℕ → ℕ → TransCb F W → TransCb F W
  unfolding push_seg data_seg
  send_loop zero buffer start len cb = cb
  send_loop (suc fuel) buffer start len cb =
      let size = seg_size len in
      elim (slt 0 len) [
        | true ↦
            send_loop fuel (shift size buffer) (add32 start size) (sub32 len size)
              (push_seg (data_seg buffer start size) cb)
        | false ↦ cb
      ]

  -- The flag is false for the result -1. A round takes a whole segment except the last.
  unfoldable pub send_data : Bytes → ℕ → ℕ → TransCb F W → Bool × TransCb F W
  unfolding send_loop
  send_data buffer start end cb =
      let len = sub32 end start in
      if not (slt 0 len)
      then (false, cb)
      else (true, send_loop (suc (len / mss)) buffer start len cb)

  -- The loop of `notifyNewData`: the interests that are left, and the state.
  unfoldable pub notify_loop :
      Bytes → ℕ → ℕ → List ByteRange → TransCb F W → List ByteRange × TransCb F W
  unfolding send_data left_over
  notify_loop buffer data_start data_end [] cb = ([], cb)
  notify_loop buffer data_start data_end (r ∷ rs) cb =
      let meets =
        slt (itimediff r.start_byte data_end) 0 && slt 0 (itimediff r.end_byte data_start) in
      let start = imax r.start_byte data_start in
      let end = imin r.end_byte data_end in
      let cb1 =
        if meets then (send_data (shift (sub32 start data_start) buffer) start end cb).1 else cb in
      let rest = notify_loop buffer data_start data_end rs cb1 in
      (if meets then left_over r start end rest.0 else r ∷ rest.0, rest.1)

  unfoldable pub notify_new_data : Bytes → ℕ → ℕ → TransCb F W → TransCb F W
  unfolding notify_loop
  notify_new_data buffer data_start data_end cb =
      let r = notify_loop buffer data_start data_end cb.pending_ints cb in
      record r.1 { pending_ints = r.0 }
