-- ===== src/Trans/Answer/Fetched/Loop.antt =====
-- leotp.cpp, the loop of `parseInt` over the data at hand.
use leotp.Base.{
  ℕ, zero, suc, ◌+◌, ◌-◌, ◌*◌, ◌^◌, ◌≤◌, ◌<◌, ◌≡◌, refl, sym, ap, ◌∙◌, Bool, true, false, ◌||◌,
  List, [], ◌++◌, arith, ltb, ◌==◌, if◌then◌else◌, All, All-append, add32, sub32, if_cases, ltb→lt,
  ltb→le,
}
use mathlib.Core.Path.{subst}
use leotp.Codec.{imin}
use leotp.Codec.Bounds.{imin_right}
use leotp.Seg.{LeotpSeg, Bytes, mss}
use leotp.Trans.{TransCb, Callbacks}
use leotp.Trans.Holes.Cover.{within}
use leotp.Trans.Send.{send_data}
use leotp.Trans.Send.Packed.{queued, queued-none, send_data-Packed}
use leotp.Trans.Send.Notify.{
  carried, carried-append, Carries, Packed-Carries, Packed-carried, queued-queued,
}
use leotp.Trans.Answer.{fetch_loop}

at_most : (to s : ℕ) → imin to s ≤ to
unfolding imin
at_most to s = ground arith

seg_end_above : (to s : ℕ) → s < to → to + mss < 2 ^ 32 → s < imin to (add32 s mss)
unfolding imin
seg_end_above to s h w = ground arith

seg_end_bounds :
    (to s : ℕ)
    → s < to
    → to + mss < 2 ^ 32
    → (imin to (add32 s mss) ≤ to) × (imin to (add32 s mss) ≤ s + mss)
unfolding imin
seg_end_bounds to s h w = ground arith

-- No round is left.
as_before : (x : Bool) (s to : ℕ) → to ≤ s → (x || ltb s to) ≡ x
as_before true s to h = refl
as_before false s to h = ground arith

module _ {F W : Type 0} (content : Bytes) (Good : W → Type 0) (limit : ℕ) where
  -- What `parseInt` relies on, of an object that is good, in ranges up to `limit`: a first part of
  -- the range, with the bytes of the stream, and an object that is still good.
  abbrev pub Fetches : Callbacks F W → Type 0
  Fetches cbs =
      (s e : ℕ) (w : W)
      → Good w
      → s < e
      → e ≤ limit
      → let r = cbs.fetch_data_func s e w in
        (r.0 ≤ e - s) × ((i : ℕ) → i < r.0 → r.1 i ≡ content (s + i)) × Good r.2

  -- Segments with the bytes [from, r.0) of the stream have been queued, and nothing else has
  -- changed but what the callback acts on.
  abbrev pub Fetched : ℕ → ℕ → TransCb F W → ℕ × TransCb F W → Type 0
  Fetched from to cb r =
      (gs : List LeotpSeg) × (w : W) × (from ≤ r.0)
      × (r.0 ≤ to)
      × Good w
      × (r.1 ≡ record (queued gs cb) { user = w })
      × All (Carries content 0) gs
      × ((p : ℕ) → carried p gs ≡ within from r.0 p)

  nothing-Fetched :
      (from to pos : ℕ) (w : W) (cb : TransCb F W)
      → from ≡ pos
      → pos ≤ to
      → cb.snd_queue_bytes < 2 ^ 32
      → Good w
      → Fetched from to cb (pos, record cb { user = w })
  nothing-Fetched from to pos w cb e h b good = (
    [],
    w,
    omega arith,
    h,
    good,
    ap (λ (c : TransCb F W). record c { user = w }) (queued-none cb b),
    tt,
    λ p. ground arith,
  )

  -- One part that is there from its start.
  part-Fetched :
      (buffer : Bytes) (s len to : ℕ) (w : W) (cb : TransCb F W)
      → 0 < len
      → len ≤ to - s
      → len ≤ mss
      → to < 2 ^ 32
      → ((i : ℕ) → i < len → buffer i ≡ content (s + i))
      → cb.snd_queue_bytes < 2 ^ 32
      → Good w
      → Fetched s to cb (add32 s len, (send_data buffer s (add32 s len) (record cb { user = w })).1)
  part-Fetched buffer s len to w cb h k m n f b good =
      let (gs, packed, same) =
        send_data-Packed buffer s (add32 s len) (record cb { user = w }) (omega arith) (omega arith)
          (omega arith) b in
      (
        gs,
        w,
        omega arith,
        omega arith,
        good,
        ap (λ (r : Bool × TransCb F W). r.1) same,
        Packed-Carries content 0 buffer s (add32 s len) gs (omega arith)
            (λ i l. f i (omega arith) ∙ ap content (omega arith)) packed,
        λ p. Packed-carried p buffer s (add32 s len) gs packed,
      )

  then-Fetched :
      (from mid to : ℕ) (cb c : TransCb F W) (r : ℕ × TransCb F W)
      → Fetched from mid cb (mid, c)
      → Fetched mid to c r
      → Fetched from to cb r
  then-Fetched from mid to cb c r (gs, w, l, m, good, e, all, covers)
        (gs', w', l', m', good', e', all', covers') =
      (
        gs ++ gs',
        w',
        omega arith,
        m',
        good',
        e'
            ∙ ap (λ (x : TransCb F W). record (queued gs' x) { user = w' }) e
            ∙ ap (λ (x : TransCb F W). record x { user = w' }) (queued-queued gs gs' cb),
        All-append (Carries content 0) gs gs' all all',
        λ p. carried-append p gs gs' ∙ ground (arith, covers p, covers' p),
      )

  pub fetch_loop-Fetched :
      (cbs : Callbacks F W) (fuel seg_start to : ℕ) (cb : TransCb F W)
      → Fetches cbs
      → to ≤ limit
      → to + mss < 2 ^ 32
      → seg_start ≤ to + mss
      → to ≤ seg_start + fuel * mss
      → cb.snd_queue_bytes < 2 ^ 32
      → Good cb.user
      → Fetched (imin to seg_start) to cb (fetch_loop cbs fuel seg_start to (imin to seg_start) cb)
  unfolding fetch_loop
  fetch_loop-Fetched cbs zero s to cb f top w l m b good =
      subst (λ x. Fetched (imin to s) to cb (imin to s, record cb { overrun = x }))
        (sym (as_before cb.overrun s to (omega arith)))
        (nothing-Fetched (imin to s) to (imin to s) cb.user cb refl (at_most to s) b good)
  fetch_loop-Fetched cbs (suc fuel) s to cb f top w l m b good = split (ltb s to) refl (λ c h k g.
      fetch_loop-Fetched cbs fuel (add32 s mss) to c f top w (omega arith) (omega arith) k g)
    where
      seg_end : ℕ
      seg_end = imin to (add32 s mss)

      got : ℕ × Bytes × W
      got = cbs.fetch_data_func s seg_end cb.user

      sent : TransCb F W
      sent = (send_data got.1 s (add32 s got.0) (record cb { user = got.2 })).1

      More : Type 0
      More =
          (c : TransCb F W)
          → s < to
          → c.snd_queue_bytes < 2 ^ 32
          → Good c.user
          → Fetched (imin to (add32 s mss)) to c
              (fetch_loop cbs fuel (add32 s mss) to (imin to (add32 s mss)) c)

      found :
          s < to
          → (got.0 ≤ seg_end - s) × ((i : ℕ) → i < got.0 → got.1 i ≡ content (s + i)) × Good got.2
      found h =
          f s seg_end cb.user good (seg_end_above to s h w) (omega (arith, seg_end_bounds to s h w))

      part : s < to → 0 < got.0 → Fetched s (add32 s got.0) cb (add32 s got.0, sent)
      part h k =
          part-Fetched got.1 s got.0 (add32 s got.0) got.2 cb k
            (omega (arith, (found h).0, seg_end_bounds to s h w))
            (omega (arith, (found h).0, seg_end_bounds to s h w)) (omega arith) (found h).1 b
            (found h).2

      whole : (end n : ℕ) → sub32 end s ≤ n → n ≤ end - s → s < end → end ≤ to → end ≡ add32 s n
      whole end n h k p q = omega arith

      queued_word :
          Fetched s (add32 s got.0) cb (add32 s got.0, sent) → sent.snd_queue_bytes < 2 ^ 32
      queued_word (gs, u, x, y, g, e, all, covers) =
          subst (λ (c : TransCb F W). c.snd_queue_bytes < 2 ^ 32) (sym e) (omega arith)

      still_good : Fetched s (add32 s got.0) cb (add32 s got.0, sent) → Good sent.user
      still_good (gs, u, x, y, g, e, all, covers) =
          subst (λ (c : TransCb F W). Good c.user) (sym e) g

      continue :
          (t : Bool)
          → ltb got.0 (sub32 seg_end s) ≡ t
          → More
          → s < to
          → 0 < got.0
          → Fetched s to cb (elim t [
            | true ↦ (add32 s got.0, sent)
            | false ↦ fetch_loop cbs fuel (add32 s mss) to (add32 s got.0) sent
          ])
      continue true e more h k =
          part-Fetched got.1 s got.0 to got.2 cb k
            (omega (arith, (found h).0, seg_end_bounds to s h w))
            (omega (arith, (found h).0, seg_end_bounds to s h w)) (omega arith) (found h).1 b
            (found h).2
      continue false e more h k =
          then-Fetched s (add32 s got.0) to cb sent
            (fetch_loop cbs fuel (add32 s mss) to (add32 s got.0) sent) (part h k)
            (subst (λ x. Fetched x to sent (fetch_loop cbs fuel (add32 s mss) to x sent))
              (whole seg_end got.0 (ltb→le got.0 (sub32 seg_end s) e) (found h).0
                (seg_end_above to s h w) (seg_end_bounds to s h w).0)
              (more sent h (queued_word (part h k)) (still_good (part h k))))

      round : ℕ × TransCb F W
      round =
          if got.0 == 0
          then (add32 s got.0, record cb { user = got.2 })
          else elim (ltb got.0 (sub32 seg_end s)) [
            | true ↦ (add32 s got.0, sent)
            | false ↦ fetch_loop cbs fuel (add32 s mss) to (add32 s got.0) sent
          ]

      split :
          (t : Bool)
          → ltb s to ≡ t
          → ((c : TransCb F W)
              → s < to
              → c.snd_queue_bytes < 2 ^ 32
              → Good c.user
              → Fetched
                  (imin to (add32 s mss))
                  to
                  c
                  (fetch_loop cbs fuel (add32 s mss) to (imin to (add32 s mss)) c))
          → Fetched (imin to s) to cb (elim t [ false ↦ (imin to s, cb) | true ↦ round ])
      split false t more =
          nothing-Fetched (imin to s) to (imin to s) cb.user cb refl (at_most to s) b good
      split true t more =
          subst (λ x. Fetched x to cb round) (sym (imin_right to s (omega (arith, ltb→lt s to t))))
            (if_cases (Fetched s to cb) (got.0 == 0)
              (λ z.
                nothing-Fetched s to (add32 s got.0) got.2 cb (ground arith) (ground arith) b
                  (found (ltb→lt s to t)).2)
              (λ z.
                continue (ltb got.0 (sub32 seg_end s)) refl more (ltb→lt s to t) (ground arith)))
