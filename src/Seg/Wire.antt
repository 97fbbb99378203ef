-- ===== src/Seg/Wire.antt =====
-- leotp.cpp, `encodeSeg` against the decoding in `input`.
use leotp.Base.{
  ℕ, zero, suc, ◌+◌, ◌^◌, ◌<◌, ◌≡◌, refl, ap, ◌∙◌, ◌⊎◌, false, ◌&&◌, ◌||◌, not, some, List, ◌++◌,
  arith, ltb, leb, ◌==◌, length, length-append, le→ltb, take-length-append, drop-length-append,
}
use leotp.Codec.{encode16, encode32u, decode8u}
use mathlib.Core.List.{append_assoc}
use leotp.Codec.RoundTrip.{
  length-encode8u, length-encode16, length-encode32u, decode8u-encode8u, decode16-encode16,
  decode32u-encode32u,
}
use leotp.Seg.{
  LeotpSeg, requester, responder, encode_seg, decode_header, check_header, next_segment, segment,
  judge_seg_dst, slice, Bytes, overhead, cmd_int, cmd_push,
}

-- The fields fit their places in the header.
pub record Fits (s : LeotpSeg) : Type 0 where
  pub cmd : s.cmd < 2 ^ 8
  pub wnd : s.wnd < 2 ^ 16
  pub ts : s.ts < 2 ^ 32
  pub len : s.len < 2 ^ 31
  pub range_start : s.range_start < 2 ^ 32
  pub range_end : s.range_end < 2 ^ 32

-- What of a segment travels in the header.
abbrev pub header : LeotpSeg → LeotpSeg
header s = record s { xmit = 0; payload = λ _. 0 }

pub decode_header-encode_seg :
    (s : LeotpSeg) (rest : List ℕ)
    → Fits s
    → decode_header (encode_seg s ++ rest) ≡ some (header s, rest)
unfolding decode_header encode_seg
decode_header-encode_seg s rest f = simp (
  append_assoc, decode8u-encode8u, decode16-encode16, decode32u-encode32u, f.cmd, f.wnd, f.ts,
  len_word, f.range_start, f.range_end,
)
  where
    len_word : s.len < 2 ^ 32
    len_word = omega (arith, f.len)

pub length-encode_seg : (s : LeotpSeg) → length (encode_seg s) ≡ overhead
unfolding encode_seg
length-encode_seg s = simp (length-append, length-encode8u, length-encode16, length-encode32u) refl

pub length-slice : (p : Bytes) (off n : ℕ) → length (slice p off n) ≡ n
length-slice p off zero = refl
length-slice p off (suc n) = ap suc (length-slice p (off + 1) n)

-- A segment as `flushData` writes it: the header and `len` bytes of its data.
abbrev pub wire : LeotpSeg → List ℕ
wire s = encode_seg s ++ slice s.payload 0 s.len

pub length-wire : (s : LeotpSeg) → length (wire s) ≡ overhead + s.len
length-wire s =
    length-append (encode_seg s) (slice s.payload 0 s.len)
    ∙ omega (arith, length-encode_seg s, length-slice s.payload 0 s.len)

check_header_ok :
    (h : LeotpSeg) (xs ys : List ℕ)
    → length xs ≡ h.len
    → h.len < 2 ^ 31
    → (h.cmd ≡ cmd_int) ⊎ (h.cmd ≡ cmd_push)
    → check_header h (xs ++ ys) ≡ segment h xs ys
unfolding check_header
check_header_ok h xs ys e small known =
    rw (good, cmd_good known) (rw (← e, take-length-append xs ys, drop-length-append xs ys) refl)
  where
    good : (ltb (length (xs ++ ys)) h.len || leb (2 ^ 31) h.len) ≡ false
    good = ground (arith, length-append {0} xs ys)

    cmd_good :
        (h.cmd ≡ cmd_int) ⊎ (h.cmd ≡ cmd_push)
        → (not (h.cmd == cmd_push) && not (h.cmd == cmd_int)) ≡ false
    cmd_good k = ground arith

-- A segment of one of the two commands, written in front of anything else, is read back with its
-- fields, its payload and the rest.
pub next_segment-wire :
    (s : LeotpSeg) (rest : List ℕ)
    → Fits s
    → (s.cmd ≡ cmd_int) ⊎ (s.cmd ≡ cmd_push)
    → next_segment (wire s ++ rest) ≡ segment (header s) (slice s.payload 0 s.len) rest
unfolding next_segment
next_segment-wire s rest f known = rw (append_assoc (encode_seg s) (slice s.payload 0 s.len) rest) (
    rw (long, decode_header-encode_seg s (slice s.payload 0 s.len ++ rest) f)
      (check_header_ok (header s) (slice s.payload 0 s.len) rest (length-slice s.payload 0 s.len)
        f.len known))
  where
    long : ltb (length (encode_seg s ++ (slice s.payload 0 s.len ++ rest))) overhead ≡ false
    long = le→ltb _ _ (
        omega (
          arith,
          length-append {0} (encode_seg s) (slice s.payload 0 s.len ++ rest),
          length-encode_seg s,
        ))

-- A datagram that starts with a segment goes to the responder if that is an interest, and to the
-- requester if it is data.
pub judge_seg_dst-wire :
    (s : LeotpSeg) (rest : List ℕ)
    → Fits s
    → ((s.cmd ≡ cmd_int → judge_seg_dst (wire s ++ rest) ≡ some responder)
        × (s.cmd ≡ cmd_push → judge_seg_dst (wire s ++ rest) ≡ some requester))
unfolding judge_seg_dst encode_seg
judge_seg_dst-wire s rest f =
    (λ e. rw (long, first_byte) (rw e refl), λ e. rw (long, first_byte) (rw e refl))
  where
    long : ltb (length (wire s ++ rest)) overhead ≡ false
    long = le→ltb _ _ (omega (arith, length-append {0} (wire s) rest, length-wire s))

    after : List ℕ
    after =
        ((encode16 s.wnd
            ++ (encode32u s.ts
                ++ (encode32u s.len ++ (encode32u s.range_start ++ encode32u s.range_end))))
          ++ slice s.payload 0 s.len)
        ++ rest

    first_byte : decode8u (wire s ++ rest) ≡ some (s.cmd, after)
    first_byte = simp (append_assoc, decode8u-encode8u, f.cmd)
