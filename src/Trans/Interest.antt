-- ===== src/Trans/Interest.antt =====
-- leotp.cpp, `request` and `flushIntQueue`: interests from the application on their way into the
-- buffer of interests that are sent and repeated.
pub mod Flush
use leotp.Base.{
  ℕ, zero, suc, ◌+◌, ◌-◌, ◌*◌, ◌/◌, ◌%◌, ◌^◌, ◌≤◌, ◌<◌, ◌≡◌, refl, sym, ap, ◌∙◌, ◌≢◌, ◌↔◌, ◌⊎◌, inl,
  inr, Bool, true, false, ◌&&◌, ◌||◌, not, Option, none, some, List, [], ◌∷◌, ◌++◌, map, arith, ltb,
  leb, ◌==◌, if◌then◌else◌, length, length-append, All, All-append, All-mono, u32, add32, sub32,
  slt, Bool-cases, Option-cases, if_cases, sub32_le, ltb→lt, lt→ltb, le→ltb, ltb→le, take, drop,
  take-length-append, drop-length-append,
}
use leotp.Seg.{LeotpSeg, cmd_int}
use leotp.Codec.{imin}
use leotp.Trans.{ByteRange, TransCb, intb_max, int_range_limit}

pub data Requested {ℓ} (A : Type ℓ) : Type ℓ where
  accepted : A → Requested A
  buffer_full bad_range : Requested A

module _ {F W : Type 0} where
  unfoldable pub request : ℕ → ℕ → TransCb F W → Requested (TransCb F W)
  request range_start range_end cb =
      if leb range_end range_start
      then bad_range
      else if leb intb_max cb.int_buf_bytes
      then buffer_full
      else accepted (record cb {
        int_queue =
            cb.int_queue ++ record { start_byte = range_start; end_byte = range_end; ts = 0 } ∷ [];
      })

-- The `for` of `flushIntQueue` behind its first round: it extends the segment [start, end) by the
-- interests that follow on it. The result is the end and the queue that is left.
unfoldable pub extend : ℕ → ℕ → List ByteRange → ℕ × List ByteRange
extend start end [] = (end, [])
extend start end (r ∷ q) =
    let end' = imin r.end_byte (add32 start int_range_limit) in
    if r.start_byte == end
    then (elim (leb r.end_byte end') [
      | true ↦ extend start end' q
      | false ↦ (end', record r { start_byte = end' } ∷ q)
    ])
    else (end, r ∷ q)

-- One round of the `while`: a segment from the front of the queue.
unfoldable pub next_interest : ByteRange → List ByteRange → ℕ × List ByteRange
next_interest r q =
    let end = imin r.end_byte (add32 r.start_byte int_range_limit) in
    if leb r.end_byte end
    then extend r.start_byte end q
    else (end, record r { start_byte = end } ∷ q)

-- The new segment; `createSeg` leaves `wnd` and `ts` as they are in the allocation.
unfoldable pub interest : ℕ → ℕ → LeotpSeg
interest start end = record {
  cmd = cmd_int;
  wnd = 0;
  ts = 0;
  len = 0;
  range_start = start;
  range_end = end;
  xmit = 0;
  payload = λ _. 0;
}

module _ {F W : Type 0} where
  -- `while (!intQueue.empty())` on fuel.
  unfoldable pub flush_int_queue_loop : ℕ → List ByteRange → TransCb F W → Option (TransCb F W)
  flush_int_queue_loop fuel [] cb = some (record cb { int_queue = [] })
  flush_int_queue_loop zero (r ∷ q) cb = none
  flush_int_queue_loop (suc fuel) (r ∷ q) cb =
      let next = next_interest r q in
      flush_int_queue_loop fuel next.1 (record cb {
        int_buf = cb.int_buf ++ interest r.start_byte next.0 ∷ [];
        int_buf_bytes = add32 cb.int_buf_bytes (sub32 next.0 r.start_byte);
      })

  unfoldable pub flush_int_queue : ℕ → TransCb F W → Option (TransCb F W)
  flush_int_queue fuel cb = flush_int_queue_loop fuel cb.int_queue cb
