-- ===== src/Seg.antt =====
-- include/leotp.h, leotp.cpp: segments, the 19-byte header, and the segment that starts a datagram.
pub mod Wire
pub mod Shrinks
use leotp.Base.{
  ℕ, zero, suc, ◌+◌, ◌-◌, ◌*◌, ◌/◌, ◌%◌, ◌^◌, ◌≤◌, ◌<◌, ◌≡◌, refl, sym, ap, ◌∙◌, ◌≢◌, ◌↔◌, ◌⊎◌, inl,
  inr, Bool, true, false, ◌&&◌, ◌||◌, not, Option, none, some, List, [], ◌∷◌, ◌++◌, map, arith, ltb,
  leb, ◌==◌, if◌then◌else◌, length, length-append, All, All-append, All-mono, u32, add32, sub32,
  slt, Bool-cases, Option-cases, if_cases, sub32_le, ltb→lt, lt→ltb, le→ltb, ltb→le, take, drop,
  take-length-append, drop-length-append,
}
use leotp.Codec.{encode8u, encode16, encode32u, decode8u, decode16, decode32u}

abbrev pub overhead : ℕ
overhead = 19

abbrev pub mtu : ℕ
mtu = 1472

abbrev pub mss : ℕ
mss = mtu - overhead

abbrev pub cmd_int : ℕ
cmd_int = 80

abbrev pub cmd_push : ℕ
cmd_push = 81

-- The role of a node in a session.
pub data Role : Type 0 where
  requester responder midnode : Role

abbrev pub Bytes : Type 0
Bytes = ℕ → ℕ

-- `LeotpSeg`. The trailing array is the function from offsets to bytes; `len` of them are sent.
pub record LeotpSeg : Type 0 where
  pub cmd : ℕ
  pub wnd : ℕ
  pub ts : ℕ
  pub len : ℕ
  pub range_start : ℕ
  pub range_end : ℕ
  pub xmit : ℕ
  pub payload : Bytes

-- The bytes [off, off + n) of an array.
abbrev pub slice : Bytes → ℕ → ℕ → List ℕ
slice p off zero = []
slice p off (suc n) = p off ∷ slice p (off + 1) n

-- The array filled from a list; past its end the allocation's bytes are taken to be 0.
abbrev pub bytes_of : List ℕ → Bytes
bytes_of [] i = 0
bytes_of (b ∷ bs) zero = b
bytes_of (b ∷ bs) (suc i) = bytes_of bs i

unfoldable pub encode_seg : LeotpSeg → List ℕ
encode_seg seg =
    encode8u seg.cmd
    ++ (encode16 seg.wnd
        ++ (encode32u seg.ts
            ++ (encode32u seg.len ++ (encode32u seg.range_start ++ encode32u seg.range_end))))

infixl 5 ◌>>=◌
abbrev ◌>>=◌ {ℓ κ} : {A : Type ℓ} {B : Type κ} → Option A → (A → Option B) → Option B
none >>= f = none
some a >>= f = f a

-- The header as `input` reads it: the fields, and the pointer behind them. `xmit` and the data
-- are not on the wire in front of the payload.
unfoldable pub decode_header : List ℕ → Option (LeotpSeg × List ℕ)
decode_header p0 = do
  (cmd, p1) ← decode8u p0
  (wnd, p2) ← decode16 p1
  (ts, p3) ← decode32u p2
  (len, p4) ← decode32u p3
  (range_start, p5) ← decode32u p4
  (range_end, p6) ← decode32u p5
  some (
    record {
      cmd = cmd;
      wnd = wnd;
      ts = ts;
      len = len;
      range_start = range_start;
      range_end = range_end;
      xmit = 0;
      payload = λ _. 0;
    },
    p6,
  )

-- How a round of the loop of `input` starts. `finished` is its `break`, the errors are the returns
-- of -2 and -3, and `segment` is a checked header, its payload and what follows in the datagram.
pub data Next : Type 0 where
  finished bad_length bad_command : Next
  segment : LeotpSeg → List ℕ → List ℕ → Next

unfoldable pub check_header : LeotpSeg → List ℕ → Next
check_header h p =
    if ltb (length p) h.len || leb (2 ^ 31) h.len
    then bad_length
    else if not (h.cmd == cmd_push) && not (h.cmd == cmd_int)
    then bad_command
    else segment h (take h.len p) (drop h.len p)

unfoldable pub next_segment : List ℕ → Next
unfolding check_header
next_segment p =
    if ltb (length p) overhead
    then finished
    else (elim (decode_header p) [ none ↦ finished | some (h, rest) ↦ check_header h rest ])

-- `judgeSegDst`: where a datagram goes, by its first byte. `none` is the return of -1.
unfoldable pub judge_seg_dst : List ℕ → Option Role
judge_seg_dst p = if ltb (length p) overhead then none else (elim (decode8u p) [
  | none ↦ none
  | some (cmd, _) ↦ some (if cmd == cmd_int then responder else requester)
])
