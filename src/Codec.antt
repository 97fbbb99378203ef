-- ===== src/Codec.antt =====
-- include/generality.h: bounded integers, time differences and the little-endian encoders.
-- A `char *` into a datagram is the list of bytes from that point on. Writing returns the bytes
-- before the rest, so `encode32u p l` is the four bytes in front of what follows.
pub mod RoundTrip
pub mod Bounds
use leotp.Base.{
  ℕ, ◌+◌, ◌-◌, ◌*◌, ◌/◌, ◌%◌, ◌^◌, Bool, List, [], ◌∷◌, ◌++◌, Option, none, some, ltb, leb,
  if◌then◌else◌, sub32, u32,
}

unfoldable pub imin : ℕ → ℕ → ℕ
imin a b = if leb a b then a else b

unfoldable pub imax : ℕ → ℕ → ℕ
imax a b = if leb b a then a else b

unfoldable pub ibound : ℕ → ℕ → ℕ → ℕ
unfolding imin imax
ibound lower middle upper = imin (imax lower middle) upper

-- `(IINT32)(later - earlier)`, as the pattern that `slt` reads with its sign.
abbrev pub itimediff : ℕ → ℕ → ℕ
itimediff later earlier = sub32 later earlier

unfoldable pub encode8u : ℕ → List ℕ
encode8u c = (c % 256) ∷ []

-- `encode16` and `encode16u` store the same two bytes.
unfoldable pub encode16 : ℕ → List ℕ
encode16 w = (w % 256) ∷ (w / 2 ^ 8 % 256) ∷ []

unfoldable pub encode32u : ℕ → List ℕ
encode32u l = (l % 256) ∷ (l / 2 ^ 8 % 256) ∷ (l / 2 ^ 16 % 256) ∷ (l / 2 ^ 24 % 256) ∷ []

-- Decoders return the value and the advanced pointer. `none` is a read past the datagram.
unfoldable pub decode8u : List ℕ → Option (ℕ × List ℕ)
decode8u [] = none
decode8u (b ∷ p) = some (b, p)

unfoldable pub decode16 : List ℕ → Option (ℕ × List ℕ)
decode16 (b ∷ c ∷ p) = some (b + c * 2 ^ 8, p)
decode16 _ = none

unfoldable pub decode32u : List ℕ → Option (ℕ × List ℕ)
decode32u (b ∷ c ∷ d ∷ e ∷ p) = some (b + (c + (d + e * 2 ^ 8) * 2 ^ 8) * 2 ^ 8, p)
decode32u _ = none

-- `_getMillisec` and `_getUsec` of a `timeval`: the time kept modulo 2 ^ 32.
unfoldable pub millisec : ℕ → ℕ → ℕ
millisec sec usec = u32 (sec * 1000 + usec / 1000)

unfoldable pub microsec : ℕ → ℕ → ℕ
microsec sec usec = u32 (sec * 1000000 + usec)
