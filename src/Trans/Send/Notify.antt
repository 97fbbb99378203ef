-- ===== src/Trans/Send/Notify.antt =====
-- leotp.cpp, `notifyNewData`: pending interests against the data that arrives.
use leotp.Base.{
  ℕ, ◌+◌, ◌-◌, ◌^◌, ◌≤◌, ◌<◌, ◌≡◌, refl, sym, ap, ◌∙◌, Bool, true, false, ◌&&◌, ◌||◌, not, List, [],
  ◌∷◌, ◌++◌, arith, ltb, if◌then◌else◌, All, All-append, sub32, slt,
}
use mathlib.Core.List.{append_assoc}
use mathlib.Core.Path.{ap₂, subst}
use leotp.Seg.{LeotpSeg, Bytes, mss}
use leotp.Codec.{imin, imax, itimediff}
use leotp.Trans.{ByteRange, TransCb}
use leotp.Trans.Send.{shift, send_data, left_over, notify_loop, notify_new_data}
use leotp.Trans.Send.Packed.{Packed, queued, queued-none, send_data-Packed, total_size}
use leotp.Trans.Holes.Cover.{within}

-- Position `p` is in an interest that waits.
abbrev pub waiting : ℕ → List ByteRange → Bool
waiting p [] = false
waiting p (r ∷ rs) = within r.start_byte r.end_byte p || waiting p rs

abbrev pub Proper : ByteRange → Type 0
Proper r = (r.start_byte < r.end_byte) × (r.end_byte < 2 ^ 31)

-- Position `p` is carried by a segment.
abbrev pub carried : ℕ → List LeotpSeg → Bool
carried p [] = false
carried p (g ∷ gs) = within g.range_start g.range_end p || carried p gs

-- The segment's payload is the part of the data, which starts at `ds`, that its range names.
abbrev pub Carries : Bytes → ℕ → LeotpSeg → Type 0
Carries buffer ds g =
    (g.range_end ≡ g.range_start + g.len)
    × (g.len ≤ mss)
    × ((i : ℕ) → i < g.len → g.payload i ≡ buffer (g.range_start - ds + i))

left_over-waiting :
    (r : ByteRange) (ds de p : ℕ) (rest : List ByteRange) (rs : Bool)
    → Proper r
    → ds < de
    → r.start_byte < de
    → ds < r.end_byte
    → waiting p rest ≡ (rs && not (within ds de p))
    → waiting p (left_over r (imax r.start_byte ds) (imin r.end_byte de) rest)
      ≡ ((within r.start_byte r.end_byte p || rs) && not (within ds de p))
unfolding left_over imin imax
left_over-waiting r ds de p rest rs k h l m ih = ground (arith, ih)

Packed-le : (b : Bytes) (s e : ℕ) (gs : List LeotpSeg) → Packed b s e gs → s ≤ e
Packed-le b s e [] k = omega arith
Packed-le b s e (g ∷ gs) (c, rs, re, pos, le, eq, k) =
    omega (arith, Packed-le (shift g.len b) (s + g.len) e gs k)

pub Packed-Carries :
    (buffer : Bytes) (ds : ℕ) (b : Bytes) (s e : ℕ) (gs : List LeotpSeg)
    → ds ≤ s
    → ((i : ℕ) → i < e - s → b i ≡ buffer (s - ds + i))
    → Packed b s e gs
    → All (Carries buffer ds) gs
Packed-Carries buffer ds b s e [] h f k = tt
Packed-Carries buffer ds b s e (g ∷ gs) h f (c, rs, re, pos, le, same, k) =
    let more : s + g.len ≤ e = Packed-le (shift g.len b) (s + g.len) e gs k in
    (
      (omega arith, le, λ i l. same i l ∙ f i (omega arith) ∙ ap buffer (omega arith)),
      Packed-Carries buffer ds (shift g.len b) (s + g.len) e gs (omega arith)
          (λ i l. f (g.len + i) (omega arith) ∙ ap buffer (omega arith)) k,
    )

pub Packed-carried :
    (p : ℕ) (b : Bytes) (s e : ℕ) (gs : List LeotpSeg)
    → Packed b s e gs
    → carried p gs ≡ within s e p
Packed-carried p b s e [] k = ground arith
Packed-carried p b s e (g ∷ gs) (c, rs, re, pos, le, same, k) = ground (
  arith,
  Packed-le (shift g.len b) (s + g.len) e gs k,
  Packed-carried p (shift g.len b) (s + g.len) e gs k,
)

pub carried-append :
    (p : ℕ) (gs hs : List LeotpSeg) → carried p (gs ++ hs) ≡ (carried p gs || carried p hs)
carried-append p [] hs = refl
carried-append p (g ∷ gs) hs = ground (arith, carried-append p gs hs)

total_size-append : (gs hs : List LeotpSeg) → total_size (gs ++ hs) ≡ total_size gs + total_size hs
total_size-append [] hs = omega arith
total_size-append (g ∷ gs) hs = omega (arith, total_size-append gs hs)

-- The code's test for a common byte.
meets_iff :
    (ds de a b : ℕ)
    → ds < 2 ^ 31
    → de < 2 ^ 31
    → a < 2 ^ 31
    → b < 2 ^ 31
    → (slt (itimediff a de) 0 && slt 0 (itimediff b ds)) ≡ (ltb a de && ltb ds b)
meets_iff ds de a b h k l m = ground arith

module _ {F W : Type 0} where
  pub queued-queued :
      (gs hs : List LeotpSeg) (cb : TransCb F W) → queued hs (queued gs cb) ≡ queued (gs ++ hs) cb
  queued-queued gs hs cb =
      ap₂ (λ q n. record cb { snd_queue = q; snd_queue_bytes = n })
        (append_assoc cb.snd_queue gs hs) (omega (arith, total_size-append gs hs))

  -- What one interest makes the call send.
  sent_lem :
      (buffer : Bytes) (ds de : ℕ) (r : ByteRange) (cb : TransCb F W)
      → Proper r
      → ds < de
      → de < 2 ^ 31
      → r.start_byte < de
      → ds < r.end_byte
      → cb.snd_queue_bytes < 2 ^ 32
      → let s = imax r.start_byte ds in
        let e = imin r.end_byte de in
        (gs : List LeotpSeg) × All (Carries buffer ds) gs
        × ((p : ℕ) → carried p gs ≡ (within r.start_byte r.end_byte p && within ds de p))
        × ((send_data (shift (sub32 s ds) buffer) s e cb).1 ≡ queued gs cb)
  unfolding imin imax
  sent_lem buffer ds de r cb k h w l m b =
      let s = imax r.start_byte ds in
      let e = imin r.end_byte de in
      let (gs, packed, same) =
        send_data-Packed (shift (sub32 s ds) buffer) s e cb (ground arith) (ground arith)
          (ground arith) b in
      (
        gs,
        Packed-Carries buffer ds (shift (sub32 s ds) buffer) s e gs (ground arith)
            (λ i l. ap (λ o. buffer (o + i)) (ground arith)) packed,
        (λ p. Packed-carried p (shift (sub32 s ds) buffer) s e gs packed ∙ ground arith),
        ap (λ c. c.1) same,
      )

  -- The interests `left` and the state `cb'` after data [ds, de) has been offered to `rs`.
  abbrev Served :
      Bytes → ℕ → ℕ → List ByteRange → TransCb F W → List ByteRange → TransCb F W → Type 0
  Served buffer ds de rs cb left cb' =
      ((p : ℕ) → waiting p left ≡ (waiting p rs && not (within ds de p)))
      × (gs : List LeotpSeg) × (cb' ≡ queued gs cb)
      × All (Carries buffer ds) gs
      × ((p : ℕ) → carried p gs ≡ (waiting p rs && within ds de p))

  notify_loop_lem :
      (buffer : Bytes) (ds de : ℕ) (rs : List ByteRange) (cb : TransCb F W)
      → All Proper rs
      → ds < de
      → de < 2 ^ 31
      → cb.snd_queue_bytes < 2 ^ 32
      → let r = notify_loop buffer ds de rs cb in Served buffer ds de rs cb r.0 r.1
  unfolding notify_loop
  notify_loop_lem buffer ds de [] cb h k w b = ((λ p. refl), [], queued-none cb b, tt, (λ p. refl))
  notify_loop_lem buffer ds de (r ∷ rs) cb (h, hs) k w b =
      split (slt (itimediff r.start_byte de) 0 && slt 0 (itimediff r.end_byte ds))
        (meets_iff ds de r.start_byte r.end_byte (omega arith) w (omega arith) (omega arith))
        (λ c l. notify_loop_lem buffer ds de rs c hs k w l)
    where
      s : ℕ
      s = imax r.start_byte ds

      e : ℕ
      e = imin r.end_byte de

      chain :
          (gs gs' : List LeotpSeg) (c d : TransCb F W)
          → c ≡ queued gs cb
          → d ≡ queued gs' c
          → d ≡ queued (gs ++ gs') cb
      chain gs gs' c d p q = q ∙ ap (queued gs') p ∙ queued-queued gs gs' cb

      sent : TransCb F W
      sent = (send_data (shift (sub32 s ds) buffer) s e cb).1

      split :
          (t : Bool)
          → t ≡ (ltb r.start_byte de && ltb ds r.end_byte)
          → ((c : TransCb F W)
              → c.snd_queue_bytes < 2 ^ 32
              → let q = notify_loop buffer ds de rs c in Served buffer ds de rs c q.0 q.1)
          → let q = notify_loop buffer ds de rs (if t then sent else cb) in
            Served buffer ds de (r ∷ rs) cb (if t then left_over r s e q.0 else r ∷ q.0) q.1
      split false t ih =
          let (left, gs, same, carry, covers) = ih cb b in
          ((λ p. ground (arith, left p)), gs, same, carry, λ p. ground (arith, covers p))
      split true t ih =
          let (gs, carry, covers, same) =
            sent_lem buffer ds de r cb h k w (ground arith) (ground arith) b in
          let (left, gs', same', carry', covers') =
            ih sent (subst (λ c. c.snd_queue_bytes < 2 ^ 32) (sym same) (omega arith)) in
          (
            (λ p.
                left_over-waiting r ds de p (notify_loop buffer ds de rs sent).0 (waiting p rs) h k
                  (ground arith) (ground arith) (left p)),
            gs ++ gs',
            chain gs gs' sent (notify_loop buffer ds de rs sent).1 same same',
            All-append (Carries buffer ds) gs gs' carry carry',
            λ p. carried-append p gs gs' ∙ ground (arith, covers p, covers' p),
          )

  -- Data for [data_start, data_end), not empty and below 2^31, that arrives at the responder, where
  -- the interests that wait are proper ranges below 2^31, and the count of queued bytes a word: of
  -- the positions that were asked for and wait, those of the data, and no others, cease to wait and
  -- are carried by the segments that are appended to the send queue. Each of these holds the bytes
  -- that its range names, and at most MSS of them. Nothing else of the state changes but the count
  -- of queued bytes.
  pub notify_new_data_lem :
      (buffer : Bytes) (data_start data_end : ℕ) (cb : TransCb F W)
      → All Proper cb.pending_ints
      → data_start < data_end
      → data_end < 2 ^ 31
      → cb.snd_queue_bytes < 2 ^ 32
      → let after = notify_new_data buffer data_start data_end cb in
        ((p : ℕ)
          → waiting p after.pending_ints
            ≡ (waiting p cb.pending_ints && not (within data_start data_end p)))
        × (gs : List LeotpSeg) × (after
            ≡ record (queued gs cb) { pending_ints = after.pending_ints })
        × All (Carries buffer data_start) gs
        × ((p : ℕ) → carried p gs ≡ (waiting p cb.pending_ints && within data_start data_end p))
  unfolding notify_new_data
  notify_new_data_lem buffer ds de cb h k w b =
      let (left, gs, same, carry, covers) =
        notify_loop_lem buffer ds de cb.pending_ints cb h k w b in
      (
        left,
        gs,
        ap {A = TransCb F W} {B = TransCb F W}
            (λ c. record c { pending_ints = (notify_loop buffer ds de cb.pending_ints cb).0 }) same,
        carry,
        covers,
      )
