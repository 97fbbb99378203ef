-- ===== src/Trans/Interest/Flush.antt =====
-- leotp.cpp, `flushIntQueue`: the queue of interests against the buffer.
use leotp.Base.{
  ℕ, zero, suc, ◌+◌, ◌-◌, ◌^◌, ◌≤◌, ◌<◌, ◌≡◌, refl, sym, ap, ◌∙◌, inl, inr, true, false, Option,
  some, List, [], ◌∷◌, ◌++◌, arith, leb, ◌==◌, length, length-append, All, u32, add32, sub32,
  Bool-cases, if_cases, sub32_le, span, span-append, length-span, leb_refl, lt→leb,
}
use mathlib.Core.Path.{ap₂}
use mathlib.Core.List.{append_assoc, append-nil}
use leotp.Codec.{imin}
use leotp.Codec.Bounds.{imin_left, imin_right}
use leotp.Seg.{LeotpSeg, cmd_int}
use leotp.Trans.{ByteRange, TransCb, int_range_limit}
use leotp.Trans.Interest.{extend, next_interest, interest, flush_int_queue_loop, flush_int_queue}

-- The byte positions that a queue asks for, in order.
abbrev pub wanted : List ByteRange → List ℕ
wanted [] = []
wanted (r ∷ q) = span r.start_byte (r.end_byte - r.start_byte) ++ wanted q

abbrev pub wanted_by : List LeotpSeg → List ℕ
wanted_by [] = []
wanted_by (s ∷ l) = span s.range_start (s.range_end - s.range_start) ++ wanted_by l

-- A range that `request` accepts, far enough from the end of the sequence numbers.
abbrev pub IsRange : ByteRange → Type 0
IsRange r = (r.start_byte < r.end_byte) × (r.end_byte + int_range_limit < 2 ^ 32)

abbrev pub AreRanges : List ByteRange → Type 0
AreRanges = All IsRange

-- What is left of the queue after a segment [start, end) has been cut off its front.
record Cut (start : ℕ) (want : List ℕ) (r : ℕ × List ByteRange) : Type 0 where
  more : start < r.0
  limited : r.0 ≤ start + int_range_limit
  ranges : AreRanges r.1
  same : want ≡ span start (r.0 - start) ++ wanted r.1

span-split :
    (s m e : ℕ) (rest : List ℕ)
    → s ≤ m
    → m ≤ e
    → span s (m - s) ++ (span m (e - m) ++ rest) ≡ span s (e - s) ++ rest
span-split s m e rest h k =
    let e' : e - s ≡ (m - s) + (e - m) = omega arith in
    rw e' (
      rw (span-append s (m - s) m (e - m) (omega arith))
        (sym (append_assoc (span s (m - s)) (span m (e - m)) rest)))

-- A cut that takes the start of the range [m, e).
cut_inside :
    (s m x e : ℕ) (rest : List ℕ)
    → s ≤ m
    → m ≤ e
    → s ≤ x
    → x ≤ e
    → span s (m - s) ++ (span m (e - m) ++ rest) ≡ span s (x - s) ++ (span x (e - x) ++ rest)
cut_inside s m x e rest h k h' k' = span-split s m e rest h k ∙ sym (span-split s x e rest h' k')

Cut-eq :
    {start : ℕ} {r : ℕ × List ByteRange} (w w' : List ℕ) → w' ≡ w → Cut start w r → Cut start w' r
Cut-eq w w' e c = rw e c

extend-Cut :
    (start end : ℕ) (q : List ByteRange)
    → start < end
    → end ≤ start + int_range_limit
    → start + int_range_limit < 2 ^ 32
    → AreRanges q
    → Cut start (span start (end - start) ++ wanted q) (extend start end q)
unfolding extend
extend-Cut start end [] h k w a = record { more = h; limited = k; ranges = tt; same = refl }
extend-Cut start end (r ∷ q) h k w a =
    if_cases cut (r.start_byte == end)
      (λ follows. follow (ground arith) (extend-Cut start r.end_byte q))
      (λ _. record { more = h; limited = k; ranges = a; same = refl })
  where
    cut : ℕ × List ByteRange → Type 0
    cut = Cut start (span start (end - start) ++ wanted (r ∷ q))

    limit : ℕ
    limit = add32 start int_range_limit

    limit-eq : add32 start int_range_limit ≡ start + int_range_limit
    limit-eq = omega arith

    follow :
        r.start_byte ≡ end
        → (start < r.end_byte
            → r.end_byte ≤ start + int_range_limit
            → start + int_range_limit < 2 ^ 32
            → AreRanges q
            → Cut start (span start (r.end_byte - start) ++ wanted q) (extend start r.end_byte q))
        → cut (elim (leb r.end_byte (imin r.end_byte limit)) [
          | true ↦ extend start (imin r.end_byte limit) q
          | false ↦ (imin r.end_byte limit, record r { start_byte = imin r.end_byte limit } ∷ q)
        ])
    follow e ih = elim (Bool-cases (leb r.end_byte limit)) [
      | inl fits ↦
          let least = imin_left r.end_byte limit (ground arith) in
          rw (least, leb_refl r.end_byte)
            (rw least (
              Cut-eq (span start (r.end_byte - start) ++ wanted q) _
                (rw e (span-split start end r.end_byte (wanted q) (omega arith) (omega arith)))
                (ih (omega arith) (ground (arith, limit-eq)) w a.1)))
      | inr over ↦
          let above : start + int_range_limit < r.end_byte = ground (arith, limit-eq) in
          let least = imin_right r.end_byte limit (ground arith) in
          rw (least, lt→leb r.end_byte limit (ground arith))
            (rw (least, limit-eq)
              (record {
                more = omega arith;
                limited = omega arith;
                ranges = ((above, a.0.1), a.1);
                same = rw e (
                    cut_inside start end (start + int_range_limit) r.end_byte (wanted q)
                      (omega arith) (omega arith) (omega arith) (omega arith));
              }))
    ]

Cut-length :
    (start : ℕ) (want : List ℕ) (r : ℕ × List ByteRange)
    → Cut start want r
    → length want ≡ (r.0 - start) + length (wanted r.1)
Cut-length start want r c =
    ap length c.same
    ∙ length-append (span start (r.0 - start)) (wanted r.1)
    ∙ ap (λ (n : ℕ). n + length (wanted r.1)) (length-span start (r.0 - start))

next_interest-Cut :
    (r : ByteRange) (q : List ByteRange)
    → AreRanges (r ∷ q)
    → Cut r.start_byte (wanted (r ∷ q)) (next_interest r q)
unfolding next_interest
next_interest-Cut r q a = elim (Bool-cases (leb r.end_byte limit)) [
  | inl fits ↦
      let least = imin_left r.end_byte limit (ground arith) in
      rw (least, leb_refl r.end_byte)
        (extend-Cut r.start_byte r.end_byte q a.0.0 (ground (arith, limit-eq)) (omega arith) a.1)
  | inr over ↦
      let above : r.start_byte + int_range_limit < r.end_byte = ground (arith, limit-eq) in
      let least = imin_right r.end_byte limit (ground arith) in
      rw (least, lt→leb r.end_byte limit (ground arith), limit-eq)
        (record {
          more = omega arith;
          limited = omega arith;
          ranges = ((above, a.0.1), a.1);
          same = sym (
              span-split r.start_byte (r.start_byte + int_range_limit) r.end_byte (wanted q)
                (omega arith) (omega arith));
        })
]
  where
    limit : ℕ
    limit = add32 r.start_byte int_range_limit

    limit-eq : add32 r.start_byte int_range_limit ≡ r.start_byte + int_range_limit
    limit-eq = omega arith

round-length :
    (r : ByteRange) (q : List ByteRange) (next : ℕ × List ByteRange)
    → AreRanges (r ∷ q)
    → Cut r.start_byte (wanted (r ∷ q)) next
    → sub32 next.0 r.start_byte + length (wanted next.1) ≡ length (wanted (r ∷ q))
round-length r q next a c =
    rw (sub32_le next.0 r.start_byte (omega (arith, c.more)) (omega (arith, c.limited, a.0)))
      (sym (Cut-length r.start_byte (wanted (r ∷ q)) next c))

-- A segment that `flushIntQueue` makes: a new interest, not empty and within the range limit.
abbrev pub IsInterest : LeotpSeg → Type 0
IsInterest s =
    (s.cmd ≡ cmd_int)
    × (s.len ≡ 0)
    × (s.xmit ≡ 0)
    × (s.range_start < s.range_end)
    × (s.range_end ≤ s.range_start + int_range_limit)

module _ {F W : Type 0} where
  -- The control block after all of the queue has become the segments `segs`.
  abbrev pub moved : List LeotpSeg → ℕ → TransCb F W → TransCb F W
  moved segs n cb = record cb {
    int_queue = [];
    int_buf = cb.int_buf ++ segs;
    int_buf_bytes = u32 (cb.int_buf_bytes + n);
  }

  abbrev pub Flushed : List ℕ → TransCb F W → Option (TransCb F W) → Type 0
  Flushed want cb o =
      (segs : List LeotpSeg) × (o ≡ some (moved segs (length want) cb))
      × All IsInterest segs
      × (wanted_by segs ≡ want)

  moved-more :
      (s : LeotpSeg) (segs : List LeotpSeg) (m n : ℕ) (cb : TransCb F W)
      → moved segs n
          (record cb { int_buf = cb.int_buf ++ s ∷ []; int_buf_bytes = add32 cb.int_buf_bytes m })
        ≡ moved (s ∷ segs) (m + n) cb
  moved-more s segs m n cb =
      ap₂
        (λ (l : List LeotpSeg) (b : ℕ). record cb {
          int_queue = [];
          int_buf = l;
          int_buf_bytes = b;
        })
        (append_assoc cb.int_buf (s ∷ []) segs) (omega arith)

  moved-none :
      (cb : TransCb F W) → cb.int_buf_bytes < 2 ^ 32 → record cb { int_queue = [] } ≡ moved [] 0 cb
  moved-none cb h =
      ap₂
        (λ (l : List LeotpSeg) (b : ℕ). record cb {
          int_queue = [];
          int_buf = l;
          int_buf_bytes = b;
        })
        (sym (append-nil cb.int_buf)) (omega arith)

  -- One round, and what the rounds behind it do.
  flush_round :
      (fuel : ℕ) (r : ByteRange) (q : List ByteRange) (cb : TransCb F W) (next : ℕ × List ByteRange)
      → next_interest r q ≡ next
      → AreRanges (r ∷ q)
      → Cut r.start_byte (wanted (r ∷ q)) next
      → let cb1 : TransCb F W = record cb {
        int_buf = cb.int_buf ++ interest r.start_byte next.0 ∷ [];
        int_buf_bytes = add32 cb.int_buf_bytes (sub32 next.0 r.start_byte);
      } in
        Flushed (wanted next.1) cb1 (flush_int_queue_loop fuel next.1 cb1)
        → Flushed (wanted (r ∷ q)) cb (flush_int_queue_loop (suc fuel) (r ∷ q) cb)
  unfolding flush_int_queue_loop interest
  flush_round fuel r q cb next e a c (segs, ends, are, same) = (
    interest r.start_byte next.0 ∷ segs,
    rw (e, flush_int_queue_loop)
        (ends
          ∙ ap some (
              moved-more (interest r.start_byte next.0) segs (sub32 next.0 r.start_byte)
                (length (wanted next.1)) cb
              ∙ ap (λ n. moved (interest r.start_byte next.0 ∷ segs) n cb)
                  (round-length r q next a c))),
    ((refl, refl, refl, c.more, c.limited), are),
    rw same (sym c.same),
  )

  flush_loop-Flushed :
      (fuel : ℕ) (q : List ByteRange) (cb : TransCb F W)
      → cb.int_buf_bytes < 2 ^ 32
      → AreRanges q
      → length (wanted q) ≤ fuel
      → Flushed (wanted q) cb (flush_int_queue_loop fuel q cb)
  unfolding flush_int_queue_loop
  flush_loop-Flushed zero [] cb b a h = ([], ap some (moved-none cb b), tt, refl)
  flush_loop-Flushed (suc fuel) [] cb b a h = ([], ap some (moved-none cb b), tt, refl)
  flush_loop-Flushed zero (r ∷ q) cb b a h = absurd (
      omega (
        arith,
        a.0.0,
        length-append {0} (span r.start_byte (r.end_byte - r.start_byte)) (wanted q),
        length-span r.start_byte (r.end_byte - r.start_byte),
      ))
  flush_loop-Flushed (suc fuel) (r ∷ q) cb b a h =
      let c = next_interest-Cut r q a in
      let next = next_interest r q in
      flush_round fuel r q cb next refl a c (
        flush_loop-Flushed fuel next.1 _ (omega arith) c.ranges
          (omega (arith, c.more, Cut-length r.start_byte (wanted (r ∷ q)) next c)))

  -- `flushIntQueue` moves all interests of a queue of ranges that end below 2^32 - MSS into the
  -- buffer: with fuel for each byte it ends, the queue is empty, the new segments are interests
  -- within the range limit that ask for the same bytes in the same order, they are counted, and
  -- nothing else changes.
  pub flush_int_queue-Flushed :
      (fuel : ℕ) (cb : TransCb F W)
      → cb.int_buf_bytes < 2 ^ 32
      → AreRanges cb.int_queue
      → length (wanted cb.int_queue) ≤ fuel
      → Flushed (wanted cb.int_queue) cb (flush_int_queue fuel cb)
  unfolding flush_int_queue
  flush_int_queue-Flushed fuel cb b a h = flush_loop-Flushed fuel cb.int_queue cb b a h
