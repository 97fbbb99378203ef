-- ===== src/Trans/Send/Packed.antt =====
-- leotp.cpp, `sendData`: the segments that carry a range.
use leotp.Base.{
  ℕ, zero, suc, ◌+◌, ◌-◌, ◌*◌, ◌/◌, ◌^◌, ◌≤◌, ◌<◌, ◌≡◌, refl, sym, ap, ◌∙◌, ◌⊎◌, inl, inr, Bool,
  true, false, not, List, [], ◌∷◌, ◌++◌, arith, add32, sub32, slt, if_cases,
}
use mathlib.Core.List.{append_assoc, append-nil}
use mathlib.Core.Path.{ap₂, subst, subst₂}
use leotp.Seg.{LeotpSeg, Bytes, cmd_push, mss, overhead}
use leotp.Trans.{TransCb}
use leotp.Trans.Send.{shift, seg_size, data_seg, push_seg, send_loop, send_data}

-- The segments carry the bytes from `buffer` as [start, end), in order and without a gap, and none
-- is empty or longer than a datagram allows.
abbrev pub Packed : Bytes → ℕ → ℕ → List LeotpSeg → Type 0
Packed buffer start end [] = start ≡ end
Packed buffer start end (g ∷ gs) =
    (g.cmd ≡ cmd_push)
    × (g.range_start ≡ start)
    × (g.range_end ≡ start + g.len)
    × (0 < g.len)
    × (g.len ≤ mss)
    × ((i : ℕ) → i < g.len → g.payload i ≡ buffer i)
    × Packed (shift g.len buffer) (start + g.len) end gs

-- The bytes of the queue, headers included.
abbrev pub total_size : List LeotpSeg → ℕ
total_size [] = 0
total_size (g ∷ gs) = overhead + g.len + total_size gs

seg_size_lem :
    (len : ℕ)
    → len < 2 ^ 31
    → slt 0 len ≡ true
    → (0 < seg_size len)
      × (seg_size len ≤ mss)
      × (seg_size len ≤ len)
      × ((seg_size len ≡ mss) ⊎ (seg_size len ≡ len))
seg_size_lem len h e =
    if_cases (λ s. (0 < s) × (s ≤ mss) × (s ≤ len) × ((s ≡ mss) ⊎ (s ≡ len))) (slt mss len)
      (λ t. (ground arith, ground arith, ground arith, inl refl))
      (λ t. (ground arith, ground arith, ground arith, inr refl))

module _ {F W : Type 0} where
  abbrev pub queued : List LeotpSeg → TransCb F W → TransCb F W
  queued gs cb = record cb {
    snd_queue = cb.snd_queue ++ gs;
    snd_queue_bytes = add32 cb.snd_queue_bytes (total_size gs);
  }

  pub queued-none : (cb : TransCb F W) → cb.snd_queue_bytes < 2 ^ 32 → cb ≡ queued [] cb
  queued-none cb b =
      ap₂ (λ q n. record cb { snd_queue = q; snd_queue_bytes = n }) (sym (append-nil cb.snd_queue))
        (omega arith)

  queued-push :
      (gs : List LeotpSeg) (g : LeotpSeg) (cb : TransCb F W)
      → queued gs (push_seg g cb) ≡ queued (g ∷ gs) cb
  unfolding push_seg
  queued-push gs g cb =
      ap₂ (λ q n. record cb { snd_queue = q; snd_queue_bytes = n })
        (append_assoc cb.snd_queue (g ∷ []) gs) (omega arith)

  send_loop_lem :
      (fuel : ℕ) (buffer : Bytes) (start len : ℕ) (cb : TransCb F W)
      → len < 2 ^ 31
      → start + len < 2 ^ 32
      → len ≤ fuel * mss
      → cb.snd_queue_bytes < 2 ^ 32
      → (gs : List LeotpSeg) × Packed buffer start (start + len) gs
        × (send_loop fuel buffer start len cb ≡ queued gs cb)
  unfolding send_loop push_seg data_seg
  send_loop_lem zero buffer start len cb h k f b = ([], omega arith, queued-none cb b)
  send_loop_lem (suc fuel) buffer start len cb h k f b = split (slt 0 len) refl (λ e.
      let s = seg_size_lem len h e in
      send_loop_lem fuel (shift (seg_size len) buffer) (add32 start (seg_size len))
        (sub32 len (seg_size len)) (push_seg (data_seg buffer start (seg_size len)) cb)
        (omega (arith, s)) (omega (arith, s)) (omega (arith, s)) (bytes_lt (seg_size len)))
    where
      bytes_lt : (size : ℕ) → (push_seg (data_seg buffer start size) cb).snd_queue_bytes < 2 ^ 32
      bytes_lt size = omega arith

      split :
          (t : Bool)
          → slt 0 len ≡ t
          → (slt 0 len ≡ true
              → (gs : List LeotpSeg) × Packed
                  (shift (seg_size len) buffer)
                  (add32 start (seg_size len))
                  (add32 start (seg_size len) + sub32 len (seg_size len))
                  gs
                × (send_loop fuel
                      (shift (seg_size len) buffer)
                      (add32 start (seg_size len))
                      (sub32 len (seg_size len))
                      (push_seg (data_seg buffer start (seg_size len)) cb)
                    ≡ queued gs (push_seg (data_seg buffer start (seg_size len)) cb)))
          → (gs : List LeotpSeg) × Packed buffer start (start + len) gs
            × (elim t [
              | true ↦
                  send_loop fuel
                    (shift (seg_size len) buffer)
                    (add32 start (seg_size len))
                    (sub32 len (seg_size len))
                    (push_seg (data_seg buffer start (seg_size len)) cb)
              | false ↦ cb
            ]
                ≡ queued gs cb)
      split false e ih = ([], ground arith, queued-none cb b)
      split true e ih =
          let (gs, packed, same) = ih e in
          let s = seg_size_lem len h e in
          (
            data_seg buffer start (seg_size len) ∷ gs,
            (
              refl,
              refl,
              omega (arith, s),
              s.0,
              s.1,
              (λ i l. refl),
              subst₂ (λ a z. Packed (shift (seg_size len) buffer) a z gs) (omega (arith, s))
                  (omega (arith, s)) packed,
            ),
            same ∙ queued-push gs (data_seg buffer start (seg_size len)) cb,
          )

  -- A range of less than 2^31 bytes is appended to the send queue as segments that carry its bytes
  -- in order without a gap, each with 1 to MSS of them; the count of queued bytes grows by their
  -- sizes with the headers, and nothing else of the state changes.
  pub send_data-Packed :
      (buffer : Bytes) (start end : ℕ) (cb : TransCb F W)
      → start < end
      → end < 2 ^ 32
      → end - start < 2 ^ 31
      → cb.snd_queue_bytes < 2 ^ 32
      → (gs : List LeotpSeg) × Packed buffer start end gs
        × (send_data buffer start end cb ≡ (true, queued gs cb))
  unfolding send_data
  send_data-Packed buffer start end cb h k w b =
      let (gs, packed, same) =
        send_loop_lem (suc (sub32 end start / mss)) buffer start (sub32 end start) cb (omega arith)
          (omega arith) (omega arith) b in
      (
        gs,
        subst (λ e. Packed buffer start e gs) (omega arith) packed,
        if_cases (λ r. r ≡ (true, queued gs cb)) (not (slt 0 (sub32 end start)))
            (λ t. absurd (ground arith)) (λ t. ap (λ c. (true, c)) same),
      )
