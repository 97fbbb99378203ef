-- ===== src/Trans/Deliver/InOrder.antt =====
-- leotp.cpp, `moveToRcvQueue` and `recv` against the stream that was received.
use leotp.Base.{
  ℕ, zero, suc, ◌+◌, ◌-◌, ◌^◌, ◌≤◌, ◌<◌, ◌≡◌, refl, sym, ap, ◌∙◌, ◌≢◌, ◌⊎◌, inl, inr, false, ◌&&◌,
  not, List, [], ◌∷◌, ◌++◌, arith, ltb, ◌==◌, length, length-append, All, add32, sub32, Bool-cases,
  if_cases,
}
use mathlib.Core.List.{append_assoc}
use mathlib.Core.Path.{subst, subst₂}
use leotp.Seg.{LeotpSeg, slice}
use leotp.Trans.{TransCb, wnd_rcv}
use leotp.Trans.Holes.{is_midnode}
use leotp.Trans.Deliver.{deliver, copy_out, move_to_rcv_queue, recv_from, recv, Received, bytes}

-- The segments follow on each other, from `start` to `end`, with as many bytes as their ranges say.
abbrev pub Run : ℕ → ℕ → List LeotpSeg → Type 0
Run start end [] = start ≡ end
Run start end (g ∷ gs) =
    (g.range_start ≡ start) × (g.range_end ≡ start + g.len) × Run g.range_end end gs

abbrev pub Sized : LeotpSeg → Type 0
Sized g = g.range_end ≡ g.range_start + g.len

-- The bytes of a run.
abbrev pub stream : List LeotpSeg → List ℕ
stream [] = []
stream (g ∷ gs) = slice g.payload 0 g.len ++ stream gs

Run-snoc :
    (start end : ℕ) (gs : List LeotpSeg) (g : LeotpSeg)
    → Run start end gs
    → g.range_start ≡ end
    → Sized g
    → Run start g.range_end (gs ++ g ∷ [])
Run-snoc start end [] g r e s = (omega arith, omega arith, refl)
Run-snoc start end (x ∷ gs) g (a, b, r) e s = (a, b, Run-snoc x.range_end end gs g r e s)

-- Where the run stops: at the end of the buffer, at a gap, or at a full queue.
abbrev pub Stopped : ℕ → List LeotpSeg → List LeotpSeg → Type 0
Stopped nxt queue [] = Unit
Stopped nxt queue (g ∷ gs) = (g.range_start ≢ nxt) ⊎ (wnd_rcv ≤ length queue)

stops :
    (nxt : ℕ) (queue : List LeotpSeg) (start : ℕ)
    → (start == nxt && ltb (length queue) wnd_rcv) ≡ false
    → (start ≢ nxt) ⊎ (wnd_rcv ≤ length queue)
stops nxt queue start f = elim (Bool-cases (start == nxt)) [
  | inl e ↦ inr (ground arith)
  | inr e ↦ inl (λ k. absurd (ground arith))
]

deliver_lem :
    (start nxt : ℕ) (queue buf : List LeotpSeg)
    → Run start nxt queue
    → All Sized buf
    → let r = deliver nxt queue buf in
      Run start r.0 r.1 × (r.1 ++ r.2 ≡ queue ++ buf) × Stopped r.0 r.1 r.2
unfolding deliver
deliver_lem start nxt queue [] h s = (h, refl, tt)
deliver_lem start nxt queue (g ∷ buf) h (s, ss) =
    branch (λ e.
      deliver_lem start g.range_end (queue ++ g ∷ []) buf (Run-snoc start nxt queue g h e s) ss)
  where
    done : ℕ × List LeotpSeg × List LeotpSeg → Type 0
    done r = Run start r.0 r.1 × (r.1 ++ r.2 ≡ queue ++ g ∷ buf) × Stopped r.0 r.1 r.2

    branch :
        (g.range_start ≡ nxt
          → let r = deliver g.range_end (queue ++ g ∷ []) buf in
            Run start r.0 r.1 × (r.1 ++ r.2 ≡ (queue ++ g ∷ []) ++ buf) × Stopped r.0 r.1 r.2)
        → done (deliver nxt queue (g ∷ buf))
    branch ih =
        if_cases done (g.range_start == nxt && ltb (length queue) wnd_rcv)
          (λ t. let (r, e, s) = ih (ground arith) in (r, e ∙ append_assoc queue (g ∷ []) buf, s))
          (λ t. (h, refl, stops nxt queue g.range_start t))

slice-length : (p : ℕ → ℕ) (o n : ℕ) → length (slice p o n) ≡ n
slice-length p o zero = refl
slice-length p o (suc n) = omega (arith, slice-length p (o + 1) n)

Run-le : (start end : ℕ) (gs : List LeotpSeg) → Run start end gs → start ≤ end
Run-le start end [] h = omega arith
Run-le start end (g ∷ gs) (a, b, h) = omega (arith, Run-le g.range_end end gs h)

-- The bytes copied are a prefix of the stream that fits, and the queue left is the rest of the run.
abbrev pub Copied : ℕ → ℕ → ℕ → ℕ → List LeotpSeg → ℕ × List ℕ × List LeotpSeg → Type 0
Copied max start end stop queue r =
    Run r.0 stop r.2
    × (end ≤ r.0)
    × (r.0 - start ≤ max)
    × (length r.1 ≡ r.0 - end)
    × (r.1 ++ stream r.2 ≡ stream queue)

copy_out-Copied :
    (max start end stop : ℕ) (queue : List LeotpSeg)
    → Run end stop queue
    → start ≤ end
    → end - start ≤ max
    → stop < 2 ^ 32
    → Copied max start end stop queue (copy_out max start end queue)
unfolding copy_out
copy_out-Copied max start end stop [] h l f w = (h, omega arith, f, omega arith, refl)
copy_out-Copied max start end stop (g ∷ queue) (a, b, h) l f w =
    branch (Run-le g.range_end stop queue h) (λ k.
      copy_out-Copied max start (add32 end g.len) stop queue
        (subst (λ e. Run e stop queue) (omega (arith, Run-le g.range_end stop queue h)) h)
        (omega (arith, Run-le g.range_end stop queue h))
        (omega (arith, Run-le g.range_end stop queue h)) w)
  where
    done : ℕ × List ℕ × List LeotpSeg → Type 0
    done = Copied max start end stop (g ∷ queue)

    rest : ℕ × List ℕ × List LeotpSeg
    rest = copy_out max start (add32 end g.len) queue

    branch :
        g.range_end ≤ stop
        → (end + g.len - start ≤ max → Copied max start (add32 end g.len) stop queue rest)
        → done (copy_out max start end (g ∷ queue))
    branch below ih =
        if_cases done (ltb max (sub32 (add32 g.len end) start))
          (λ t. ((a, b, h), omega arith, f, omega arith, refl))
          λ t.
            if_cases done (not (end == g.range_start))
              (λ u. ((a, b, h), omega arith, f, omega arith, refl))
              (λ u.
                let (r, e, m, n, s) = ih (ground arith) in
                (
                  r,
                  omega arith,
                  m,
                  length-append (slice g.payload 0 g.len) rest.1
                      ∙ omega (arith, slice-length g.payload 0 g.len),
                  append_assoc (slice g.payload 0 g.len) rest.1 (stream rest.2)
                      ∙ ap (λ x. slice g.payload 0 g.len ++ x) s,
                ))

deliver-Sized :
    (nxt : ℕ) (queue buf : List LeotpSeg) → All Sized buf → All Sized (deliver nxt queue buf).2
unfolding deliver
deliver-Sized nxt queue [] s = tt
deliver-Sized nxt queue (g ∷ buf) (s, ss) =
    if_cases (λ (r : ℕ × List LeotpSeg × List LeotpSeg). All Sized r.2)
      (g.range_start == nxt && ltb (length queue) wnd_rcv)
      (λ t. deliver-Sized g.range_end (queue ++ g ∷ []) buf ss) (λ t. (s, ss))

stream-append : (gs hs : List LeotpSeg) → stream (gs ++ hs) ≡ stream gs ++ stream hs
stream-append [] hs = refl
stream-append (g ∷ gs) hs =
    ap (λ x. slice g.payload 0 g.len ++ x) (stream-append gs hs)
    ∙ sym (append_assoc (slice g.payload 0 g.len) (stream gs) (stream hs))

module _ {F W : Type 0} where
  -- The queue is a run that ends at `rcvNxt`, and the buffered segments have their ranges' sizes.
  abbrev pub InOrder : ℕ → TransCb F W → Type 0
  InOrder start cb = Run start cb.rcv_nxt cb.rcv_queue × All Sized cb.rcv_buf

  -- At a node that is not a midnode the queue stays a run that ends at the next expected byte,
  -- moving keeps every segment and their order, and it stops only when the buffer is empty, when
  -- its first segment is not the next one, or when the queue has reached its limit.
  pub move_to_rcv_queue-InOrder :
      (start : ℕ) (cb : TransCb F W)
      → is_midnode cb.node_role ≡ false
      → InOrder start cb
      → let after = move_to_rcv_queue cb in
        InOrder start after
        × (after.rcv_queue ++ after.rcv_buf ≡ cb.rcv_queue ++ cb.rcv_buf)
        × Stopped after.rcv_nxt after.rcv_queue after.rcv_buf
  unfolding move_to_rcv_queue
  move_to_rcv_queue-InOrder start cb m (r, s) =
      if_cases
        (λ c.
          InOrder start c
          × (c.rcv_queue ++ c.rcv_buf ≡ cb.rcv_queue ++ cb.rcv_buf)
          × Stopped c.rcv_nxt c.rcv_queue c.rcv_buf)
        (is_midnode cb.node_role) (λ t. absurd (ground arith))
        (λ t.
          let (run, same, stopped) = deliver_lem start cb.rcv_nxt cb.rcv_queue cb.rcv_buf r s in
          ((run, deliver-Sized cb.rcv_nxt cb.rcv_queue cb.rcv_buf s), same, stopped))

  recv-from :
      (max : ℕ) (cb : TransCb F W) (seg : LeotpSeg) (queue : List LeotpSeg)
      → cb.rcv_queue ≡ seg ∷ queue
      → recv max cb ≡ recv_from max seg queue cb
  unfolding recv
  recv-from max cb seg queue q = rw q refl

  -- What `recv` gives for a stream.
  abbrev pub Returned : ℕ → ℕ → List ℕ → Received × TransCb F W → Type 0
  Returned max start all r =
      (end : ℕ) × (out : List ℕ) × (r.0 ≡ bytes start end out)
      × (length out ≡ end - start)
      × (length out ≤ max)
      × InOrder end r.1
      × (out ++ stream (r.1.rcv_queue ++ r.1.rcv_buf) ≡ all)

  recv_from-Returned :
      (max start : ℕ) (cb : TransCb F W) (seg : LeotpSeg) (queue : List LeotpSeg)
      → is_midnode cb.node_role ≡ false
      → cb.rcv_nxt < 2 ^ 32
      → Run start cb.rcv_nxt (seg ∷ queue)
      → All Sized cb.rcv_buf
      → Returned max start (stream ((seg ∷ queue) ++ cb.rcv_buf)) (recv_from max seg queue cb)
  unfolding recv_from
  recv_from-Returned max start cb seg queue m w (a, b, r) s =
      if_cases
        (λ (x : Received × List LeotpSeg).
          Returned max start (stream ((seg ∷ queue) ++ cb.rcv_buf))
            (x.0, move_to_rcv_queue (record cb { rcv_queue = x.1 })))
        (is_midnode cb.node_role) (λ t. absurd (ground arith))
        (λ t. copied (copy_out max seg.range_start seg.range_start (seg ∷ queue)) (
          copy_out-Copied max seg.range_start seg.range_start cb.rcv_nxt (seg ∷ queue)
            (refl, b ∙ omega arith, r) (omega arith) (omega arith) w))
    where
      copied :
          (c : ℕ × List ℕ × List LeotpSeg)
          → Copied max seg.range_start seg.range_start cb.rcv_nxt (seg ∷ queue) c
          → Returned max start
              (stream ((seg ∷ queue) ++ cb.rcv_buf))
              (bytes seg.range_start c.0 c.1, move_to_rcv_queue (record cb { rcv_queue = c.2 }))
      copied c (run, le, fit, len, same) =
          let (ordered, kept, stopped) =
            move_to_rcv_queue-InOrder c.0 (record cb { rcv_queue = c.2 }) m (run, s) in
          (
            c.0,
            c.1,
            ap (λ x. bytes x c.0 c.1) a,
            omega arith,
            omega arith,
            ordered,
            ap (λ x. c.1 ++ stream x) kept
                ∙ ap (λ x. c.1 ++ x) (stream-append c.2 cb.rcv_buf)
                ∙ sym (append_assoc c.1 (stream c.2) (stream cb.rcv_buf))
                ∙ ap (λ x. x ++ stream cb.rcv_buf) same
                ∙ sym (stream-append (seg ∷ queue) cb.rcv_buf),
          )

  -- At a node that is not a midnode, a call with a queue that is not empty returns the bytes from
  -- the queue's first position on, as many as the range it reports has and at most as many as the
  -- buffer holds; they are a prefix of the received stream, whose rest stays in the queue and the
  -- buffer in order.
  pub recv-Returned :
      (max start : ℕ) (cb : TransCb F W)
      → is_midnode cb.node_role ≡ false
      → cb.rcv_queue ≢ []
      → cb.rcv_nxt < 2 ^ 32
      → InOrder start cb
      → Returned max start (stream (cb.rcv_queue ++ cb.rcv_buf)) (recv max cb)
  recv-Returned max start cb m n w (run, s) = split cb.rcv_queue refl
    where
      split :
          (l : List LeotpSeg)
          → cb.rcv_queue ≡ l
          → Returned max start (stream (cb.rcv_queue ++ cb.rcv_buf)) (recv max cb)
      split [] q = absurd (n q)
      split (seg ∷ queue) q =
          subst₂ (λ l r. Returned max start (stream (l ++ cb.rcv_buf)) r) (sym q)
            (sym (recv-from max cb seg queue q))
            (recv_from-Returned max start cb seg queue m w (subst (Run start cb.rcv_nxt) q run) s)
