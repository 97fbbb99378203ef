-- ===== src/Trans/Receive.antt =====
-- leotp.cpp, `parseData`: received data against the interests that it answers.
pub mod Answered
use leotp.Base.{
  ℕ, zero, suc, ◌+◌, ◌-◌, ◌*◌, ◌/◌, ◌%◌, ◌^◌, ◌≤◌, ◌<◌, ◌≡◌, refl, sym, ap, ◌∙◌, ◌≢◌, ◌↔◌, ◌⊎◌, inl,
  inr, Bool, true, false, ◌&&◌, ◌||◌, not, Option, none, some, List, [], ◌∷◌, ◌++◌, map, arith, ltb,
  leb, ◌==◌, if◌then◌else◌, length, length-append, All, All-append, All-mono, u32, add32, sub32,
  slt, Bool-cases, Option-cases, if_cases, sub32_le, ltb→lt, lt→ltb, le→ltb, ltb→le, take, drop,
  take-length-append, drop-length-append, span, span-append, length-span, leb_refl, lt→leb,
}
use leotp.Seg.{LeotpSeg, Role, Bytes, cmd_push, overhead}
use leotp.Codec.{imin, imax, itimediff}
use leotp.Trans.{TransCb, RcvBufItr, StatInfo}
use leotp.Trans.Rtt.{update_rtt}
use leotp.Trans.Deliver.{is_requester, move_to_rcv_queue}
use leotp.Trans.Send.{push_seg}

-- `rcvBuf.insert(itr, seg)`, with the iterator given by the start of its segment. If that segment
-- is no longer in `rcvBuf`, since it has been moved to `rcvQueue`, the iterator is dead and the
-- code has no defined behaviour; the model puts the segment at the end then.
unfoldable pub insert_before : ℕ → LeotpSeg → List LeotpSeg → List LeotpSeg
insert_before itr seg [] = seg ∷ []
insert_before itr seg (g ∷ gs) =
    let rest = insert_before itr seg gs in if g.range_start == itr then seg ∷ g ∷ gs else g ∷ rest

unfoldable pub insert_at : Option ℕ → LeotpSeg → List LeotpSeg → List LeotpSeg
unfolding insert_before
insert_at none seg buf = buf ++ seg ∷ []
insert_at (some itr) seg buf = insert_before itr seg buf

-- `isPrevContinuous`, and the list with the end of the previous entry changed.
abbrev pub continues : ℕ → Option RcvBufItr → Bool
continues ns none = false
continues ns (some r) = r.end_byte == ns

abbrev pub keep : Option RcvBufItr → List RcvBufItr → List RcvBufItr
keep none rs = rs
keep (some r) rs = r ∷ rs

abbrev pub lengthen : ℕ → Option RcvBufItr → Option RcvBufItr
lengthen end none = none
lengthen end (some r) = some (record r { end_byte = end })

-- The search for the first entry behind [ns, ne), with the entry before it, and what is done there:
-- the new list of entries, and the iterator to insert at, or `none` for the end.
unfoldable pub insert_itr : ℕ → ℕ → Option RcvBufItr → List RcvBufItr → List RcvBufItr × Option ℕ
insert_itr ns ne prev [] = (
  if continues ns prev
      then keep (lengthen ne prev) []
      else keep prev (record { start_byte = ns; end_byte = ne; itr = ns } ∷ []),
  none,
)
insert_itr ns ne prev (r ∷ rs) =
    let rest = insert_itr ns ne (some r) rs in
    if leb ne r.start_byte
    then (
      if r.start_byte == ne
          then (if continues ns prev
              then keep (lengthen r.end_byte prev) rs
              else keep prev (record r { start_byte = ns } ∷ rs))
          else (if continues ns prev
              then keep (lengthen ne prev) (r ∷ rs)
              else keep prev (record { start_byte = ns; end_byte = ne; itr = ns } ∷ r ∷ rs)),
      some r.itr,
    )
    else (keep prev rest.0, rest.1)

-- Byte `k` of a word in memory.
abbrev pub byte_of : ℕ → ℕ → ℕ
byte_of n k = n / 2 ^ (8 * k) % 256

-- The payload of an answer: the data, with the transmission count and the time written over its
-- bytes 4 to 11.
unfoldable pub answer_payload : ℕ → ℕ → ℕ → Bytes → Bytes
answer_payload now xmit offset payload i =
    if leb 4 i && ltb i 8
    then byte_of xmit (i - 4)
    else if leb 8 i && ltb i 12
    then byte_of now (i - 8)
    else payload (offset + i)

-- The segment for the common range [start, end) of data and interest. The fields that the code does
-- not set are 0.
unfoldable pub answer : ℕ → LeotpSeg → LeotpSeg → LeotpSeg
unfolding answer_payload
answer now data_seg int_seg =
    let start = imax int_seg.range_start data_seg.range_start in
    let end = imin int_seg.range_end data_seg.range_end in
    record {
      cmd = 0;
      wnd = 0;
      ts = 0;
      len = sub32 end start;
      range_start = start;
      range_end = end;
      xmit = 0;
      payload = answer_payload now int_seg.xmit (sub32 start data_seg.range_start) data_seg.payload;
    }

-- What is left of an interest, in front of the later ones.
unfoldable pub unanswered : LeotpSeg → LeotpSeg → List LeotpSeg → List LeotpSeg
unanswered data_seg int_seg rest =
    if leb data_seg.range_start int_seg.range_start
    then (if leb int_seg.range_end data_seg.range_end
        then rest
        else record int_seg { range_start = data_seg.range_end } ∷ rest)
    else if leb int_seg.range_end data_seg.range_end
    then record int_seg { range_end = data_seg.range_start } ∷ rest
    else record int_seg { range_start = data_seg.range_end }
      ∷ record int_seg { range_end = data_seg.range_start }
      ∷ rest

abbrev pub overlaps : LeotpSeg → LeotpSeg → Bool
overlaps data_seg int_seg =
    ltb data_seg.range_start int_seg.range_end && ltb int_seg.range_start data_seg.range_end

abbrev pub contains : LeotpSeg → LeotpSeg → Bool
contains data_seg int_seg =
    leb data_seg.range_start int_seg.range_start && leb int_seg.range_end data_seg.range_end

module _ {F W : Type 0} where
  unfoldable pub store_answer : LeotpSeg → TransCb F W → TransCb F W
  unfolding insert_itr insert_at
  store_answer seg cb =
      let r = insert_itr seg.range_start seg.range_end none cb.rcv_buf_itrs in
      record cb {
        rcv_buf = insert_at r.1 seg cb.rcv_buf;
        rcv_buf_itrs = r.0;
        int_buf_bytes = sub32 cb.int_buf_bytes (sub32 seg.range_end seg.range_start);
        stat = record cb.stat {
          recved_leotp = add32 cb.stat.recved_leotp (sub32 seg.range_end seg.range_start);
        };
        conseq_timeout = 0;
      }

  -- The loop over `intBuf`: the interests left, and the rest of the state.
  unfoldable pub answer_loop :
      ℕ → LeotpSeg → List LeotpSeg → TransCb F W → List LeotpSeg × TransCb F W
  unfolding answer store_answer update_rtt unanswered
  answer_loop now data_seg [] cb = ([], cb)
  answer_loop now data_seg (int_seg ∷ ints) cb =
      let stored = store_answer (answer now data_seg int_seg) cb in
      let timed =
        if contains data_seg int_seg
        then update_rtt (itimediff now int_seg.ts) int_seg.xmit stored
        else stored in
      let cb1 = if overlaps data_seg int_seg then timed else cb in
      let rest = answer_loop now data_seg ints cb1 in
      if leb data_seg.range_end int_seg.range_start then (int_seg ∷ ints, cb) else (
        if overlaps data_seg int_seg then unanswered data_seg int_seg rest.0 else int_seg ∷ rest.0,
        rest.1,
      )

  -- As compiled with USE_CACHE.
  unfoldable pub parse_data : ℕ → LeotpSeg → Bool → TransCb F W → TransCb F W
  unfolding answer_loop push_seg move_to_rcv_queue
  parse_data now data_seg data_header cb =
      if is_requester cb.node_role
      then (if data_header
          then cb
          else (let r = answer_loop now data_seg cb.int_buf cb in
              move_to_rcv_queue (record r.1 { int_buf = r.0 })))
      else (let cb1 = push_seg data_seg cb in
          move_to_rcv_queue
            (if data_header then cb1 else record cb1 { rcv_buf = cb1.rcv_buf ++ data_seg ∷ [] }))
