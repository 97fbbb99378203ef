-- ===== src/App/Relayed/Recv.antt =====
-- leotp.cpp, `recv` at a midnode, as app/appmid.cpp calls it.
use leotp.Base.{
  absent_some, some_same, ℕ, zero, suc, ◌+◌, ◌-◌, ◌^◌, ◌≤◌, ◌<◌, ◌≡◌, refl, sym, ap, ◌∙◌, true, not,
  some, List, [], ◌∷◌, arith, ltb, leb, ◌==◌, length, All, All-append, sub32, if_cases,
}
use mathlib.Core.Bool.{true≢false}
use leotp.Seg.{LeotpSeg, Bytes, bytes_of, slice}
use leotp.Seg.Wire.{length-slice}
use leotp.Trans.{wnd_rcv}
use leotp.Trans.Holes.{is_midnode}
use leotp.Trans.Deliver.{
  Received, again, bytes, nothing, move_to_rcv_queue, recv_first, recv_from, recv,
}
use leotp.Cache.{block_len, memcpy}
use leotp.Cache.Copy.{memcpy-inside}
use leotp.Session.{LeotpSess}
use leotp.App.{RelayBuf, max_buf_size, received_into}

bytes_of-slice : (p : Bytes) (off n i : ℕ) → i < n → bytes_of (slice p off n) i ≡ p (off + i)
bytes_of-slice p off zero i h = absurd (omega arith)
bytes_of-slice p off (suc n) zero h = ap p (omega arith)
bytes_of-slice p off (suc n) (suc i) h =
    bytes_of-slice p (off + 1) n i (omega arith) ∙ ap p (omega arith)

module _ (stream : Bytes) where
  -- A range far enough below 2^32, and a buffer that holds the stream there.
  abbrev pub Holds : Bytes → ℕ → ℕ → Type 0
  Holds buf s e =
      (s ≤ e) × (e + block_len ≤ 2 ^ 32) × ((p : ℕ) → s ≤ p → p < e → buf (p - s) ≡ stream p)

  -- A segment carries the stream, if its length fits its range.
  abbrev pub Carried : LeotpSeg → Type 0
  Carried g = sub32 g.range_end g.range_start ≡ g.len → Holds g.payload g.range_start g.range_end

  abbrev pub RecvOk : RelayBuf → Received → Type 0
  RecvOk r x = (y : RelayBuf) → received_into x r ≡ some y → Holds y.recv_buf y.start y.end

  received-Holds :
      (r : RelayBuf) (g : LeotpSeg)
      → sub32 g.range_end g.range_start ≡ g.len
      → Holds g.payload g.range_start g.range_end
      → RecvOk r (bytes g.range_start g.range_end (slice g.payload 0 g.len))
  unfolding received_into
  received-Holds r g same (h, k, f) y e =
      some_same (λ (z : RelayBuf). Holds z.recv_buf z.start z.end) _ y e (h, k, copied)
    where
      copied :
          (p : ℕ)
          → g.range_start ≤ p
          → p < g.range_end
          → memcpy r.recv_buf 0
              (bytes_of (slice g.payload 0 g.len))
              0
              (length (slice g.payload 0 g.len))
              (p - g.range_start)
            ≡ stream p
      copied p l m =
          memcpy-inside r.recv_buf (bytes_of (slice g.payload 0 g.len)) 0 0
            (length (slice g.payload 0 g.len)) (p - g.range_start) (omega arith)
            (omega (arith, length-slice g.payload 0 g.len))
          ∙ bytes_of-slice g.payload 0 g.len (p - g.range_start - 0 + 0) (omega arith)
          ∙ ap g.payload (omega arith)
          ∙ f p l m

  recv_first-Carried :
      (r : RelayBuf) (max : ℕ) (g : LeotpSeg) (queue : List LeotpSeg)
      → Holds r.recv_buf r.start r.end
      → Carried g
      → All Carried queue
      → let q = recv_first max g queue in RecvOk r q.0 × All Carried q.1
  unfolding recv_first received_into
  recv_first-Carried r max g queue held c all =
      if_cases Fine (not (sub32 g.range_end g.range_start == g.len)) (λ _. (kept, all))
        (λ t.
          if_cases Fine (leb g.len max)
            (λ _. (received-Holds r g (ground arith) (c (ground arith)), all))
            (λ _. (kept, (c, all))))
    where
      Fine : Received × List LeotpSeg → Type 0
      Fine q = RecvOk r q.0 × All Carried q.1

      kept : RecvOk r nothing
      kept y e = some_same (λ (z : RelayBuf). Holds z.recv_buf z.start z.end) r y e held

  -- What the relaying of a midnode's data keeps.
  pub record Relaying {F : Type 0} (r : RelayBuf) (cb : LeotpSess F) : Type 0 where
    pub held : Holds r.recv_buf r.start r.end
    pub role : is_midnode cb.node_role ≡ true
    pub queue : All Carried cb.rcv_queue
    pub buf : All Carried cb.rcv_buf

  move-Relaying :
      {F : Type 0} (r : RelayBuf) (cb : LeotpSess F)
      → Relaying r cb
      → Relaying r (move_to_rcv_queue cb) × ((move_to_rcv_queue cb).user ≡ cb.user)
  unfolding move_to_rcv_queue
  move-Relaying {F = F} r cb g =
      if_cases Fine (is_midnode cb.node_role)
        (λ _.
          if_cases Fine (ltb (length cb.rcv_queue) wnd_rcv)
            (λ _. (
              record {
                held = g.held;
                role = g.role;
                queue = All-append Carried cb.rcv_queue cb.rcv_buf g.queue g.buf;
                buf = tt;
              },
              refl,
            ))
            (λ _. (g, refl)))
        (λ t. absurd (true≢false (sym g.role ∙ t)))
    where
      Fine : LeotpSess F → Type 0
      Fine c = Relaying r c × (c.user ≡ cb.user)

  -- A result of `recv`.
  abbrev Got : {F : Type 0} → RelayBuf → LeotpSess F → Received × LeotpSess F → Type 0
  Got r cb x = RecvOk r x.0 × Relaying r x.1 × (x.1.user ≡ cb.user)

  recv_from-Got :
      {F : Type 0} (r : RelayBuf) (g : LeotpSeg) (queue : List LeotpSeg) (cb : LeotpSess F)
      → Relaying r cb
      → Carried g
      → All Carried queue
      → Got r cb (recv_from max_buf_size g queue cb)
  unfolding recv_from
  recv_from-Got {F = F} r g queue cb good c all =
      if_cases Fine (is_midnode cb.node_role)
        (λ _.
          fine (recv_first max_buf_size g queue)
            (recv_first-Carried r max_buf_size g queue good.held c all))
        (λ t. absurd (true≢false (sym good.role ∙ t)))
    where
      Fine : Received × List LeotpSeg → Type 0
      Fine q = Got r cb (q.0, move_to_rcv_queue (record cb { rcv_queue = q.1 }))

      fine : (q : Received × List LeotpSeg) → RecvOk r q.0 × All Carried q.1 → Fine q
      fine q (ok, rest) =
          let moved =
            move-Relaying r (record cb { rcv_queue = q.1 })
              (record { held = good.held; role = good.role; queue = rest; buf = good.buf }) in
          (ok, moved.0, moved.1)

  pub recv-Got :
      {F : Type 0} (r : RelayBuf) (cb : LeotpSess F)
      → Relaying r cb
      → Got r cb (recv max_buf_size cb)
  unfolding recv received_into
  recv-Got {F = F} r cb g = by_queue cb.rcv_queue g.queue
    where
      by_queue :
          (l : List LeotpSeg)
          → All Carried l
          → Got r cb
              (elim l [ [] ↦ (again, cb) | seg ∷ queue ↦ recv_from max_buf_size seg queue cb ])
      by_queue [] all = ((λ y e. absurd (absent_some y e)), g, refl)
      by_queue (seg ∷ queue) all = recv_from-Got r seg queue cb g all.0 all.1
