-- ===== src/Trans/Deliver.antt =====
-- leotp.cpp, `moveToRcvQueue`, `recv`, `peekSize` and `getRwnd`: received data on its way to the
-- application.
pub mod InOrder
use leotp.Base.{
  ℕ, zero, suc, ◌+◌, ◌-◌, ◌*◌, ◌/◌, ◌%◌, ◌^◌, ◌≤◌, ◌<◌, ◌≡◌, refl, sym, ap, ◌∙◌, ◌≢◌, ◌↔◌, ◌⊎◌, inl,
  inr, Bool, true, false, ◌&&◌, ◌||◌, not, Option, none, some, List, [], ◌∷◌, ◌++◌, map, arith, ltb,
  leb, ◌==◌, if◌then◌else◌, length, length-append, All, All-append, All-mono, u32, add32, sub32,
  slt, Bool-cases, Option-cases, if_cases, sub32_le, ltb→lt, lt→ltb, le→ltb, ltb→le, take, drop,
  take-length-append, drop-length-append, span, span-append, length-span, leb_refl, lt→leb,
}
use leotp.Seg.{LeotpSeg, Role, requester, responder, midnode, slice}
use leotp.Trans.{TransCb, RcvBufItr, wnd_rcv}
use leotp.Trans.Holes.{is_midnode}

abbrev pub is_requester : Role → Bool
is_requester requester = true
is_requester responder = false
is_requester midnode = false

-- The loop of a node that is not a midnode: `rcvNxt`, `rcvQueue` and `rcvBuf`.
unfoldable pub deliver : ℕ → List LeotpSeg → List LeotpSeg → ℕ × List LeotpSeg × List LeotpSeg
deliver rcv_nxt queue [] = (rcv_nxt, queue, [])
deliver rcv_nxt queue (seg ∷ buf) =
    if seg.range_start == rcv_nxt && ltb (length queue) wnd_rcv
    then deliver seg.range_end (queue ++ seg ∷ []) buf
    else (rcv_nxt, queue, seg ∷ buf)

-- The end of `moveToRcvQueue`. The code reads the first entry where there is none; here there is
-- then nothing to change.
unfoldable pub trim_itrs : ℕ → List RcvBufItr → List RcvBufItr
trim_itrs rcv_nxt [] = []
trim_itrs rcv_nxt (r ∷ rs) =
    if leb r.end_byte rcv_nxt
    then trim_itrs rcv_nxt rs
    else if ltb r.start_byte rcv_nxt
    then record r { start_byte = rcv_nxt } ∷ rs
    else r ∷ rs

-- What `recv` reports: -1; 0 with bytes and their range; 0 with neither.
pub data Received : Type 0 where
  again : Received
  bytes : ℕ → ℕ → List ℕ → Received
  nothing : Received

-- The copying loop of `recv`, from `start`: the end reached, the bytes, and the queue left.
unfoldable pub copy_out : ℕ → ℕ → ℕ → List LeotpSeg → ℕ × List ℕ × List LeotpSeg
copy_out max_buf_size start end [] = (end, [], [])
copy_out max_buf_size start end (seg ∷ queue) =
    let rest = copy_out max_buf_size start (add32 end seg.len) queue in
    if ltb max_buf_size (sub32 (add32 seg.len end) start)
    then (end, [], seg ∷ queue)
    else if not (end == seg.range_start)
    then (end, [], seg ∷ queue)
    else (rest.0, slice seg.payload 0 seg.len ++ rest.1, rest.2)

-- The midnode's part of `recv`, for the first segment.
unfoldable pub recv_first : ℕ → LeotpSeg → List LeotpSeg → Received × List LeotpSeg
recv_first max_buf_size seg queue =
    if not (sub32 seg.range_end seg.range_start == seg.len)
    then (nothing, queue)
    else if leb seg.len max_buf_size
    then (bytes seg.range_start seg.range_end (slice seg.payload 0 seg.len), queue)
    else (nothing, seg ∷ queue)

module _ {F W : Type 0} where
  unfoldable pub move_to_rcv_queue : TransCb F W → TransCb F W
  unfolding deliver trim_itrs
  move_to_rcv_queue cb =
      if is_midnode cb.node_role
      then (if ltb (length cb.rcv_queue) wnd_rcv
          then record cb { rcv_queue = cb.rcv_queue ++ cb.rcv_buf; rcv_buf = [] }
          else cb)
      else (let r = deliver cb.rcv_nxt cb.rcv_queue cb.rcv_buf in
          record cb {
            rcv_nxt = r.0;
            rcv_queue = r.1;
            rcv_buf = r.2;
            rcv_buf_itrs =
                if is_requester cb.node_role
                then trim_itrs r.0 cb.rcv_buf_itrs
                else cb.rcv_buf_itrs;
          })

  -- `recv` with the queue `seg ∷ queue`.
  unfoldable pub recv_from : ℕ → LeotpSeg → List LeotpSeg → TransCb F W → Received × TransCb F W
  recv_from max_buf_size seg queue cb =
      let out = copy_out max_buf_size seg.range_start seg.range_start (seg ∷ queue) in
      let r =
        if is_midnode cb.node_role
        then recv_first max_buf_size seg queue
        else (bytes seg.range_start out.0 out.1, out.2) in
      (r.0, move_to_rcv_queue (record cb { rcv_queue = r.1 }))

  unfoldable pub recv : ℕ → TransCb F W → Received × TransCb F W
  recv max_buf_size cb = elim cb.rcv_queue [
    | [] ↦ (again, cb)
    | seg ∷ queue ↦ recv_from max_buf_size seg queue cb
  ]

  -- `none` is -1.
  unfoldable pub peek_size : TransCb F W → Option ℕ
  peek_size cb = elim cb.rcv_queue [ [] ↦ none | seg ∷ queue ↦ some seg.len ]

  unfoldable pub get_rwnd : TransCb F W → ℕ
  get_rwnd cb = if ltb (length cb.rcv_queue) wnd_rcv then wnd_rcv - length cb.rcv_queue else 0

  unfoldable pub get_wait_snd : TransCb F W → ℕ
  get_wait_snd cb = length cb.snd_queue
