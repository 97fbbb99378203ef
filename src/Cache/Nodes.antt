-- ===== src/Cache/Nodes.antt =====
-- cache.cpp, the list of nodes: removal and membership by key.
use leotp.Base.{
  ◌+◌, ◌≡◌, refl, Bool, true, false, ◌||◌, List, [], ◌∷◌, ◌++◌, arith, if◌then◌else◌, length,
}
use leotp.ByteMap.{ByteArray, eq_bytes}
use leotp.ByteMap.Laws.{eq_bytes_iff}
use leotp.Cache.{unlink}

abbrev pub mem : ByteArray → List ByteArray → Bool
mem k [] = false
mem k (j ∷ l) = eq_bytes j k || mem k l

-- No block has two nodes.
abbrev pub NoTwice : List ByteArray → Type 0
NoTwice [] = Unit
NoTwice (k ∷ l) = (mem k l ≡ false) × NoTwice l

pub mem-snoc :
    (k j : ByteArray) (l : List ByteArray) → mem k (l ++ j ∷ []) ≡ (mem k l || eq_bytes j k)
mem-snoc k j [] = ground arith
mem-snoc k j (i ∷ l) = ground (arith, mem-snoc k j l)

pub NoTwice-snoc :
    (j : ByteArray) (l : List ByteArray) → mem j l ≡ false → NoTwice l → NoTwice (l ++ j ∷ [])
NoTwice-snoc j [] h d = (refl, tt)
NoTwice-snoc j (i ∷ l) h d = (
  ground (arith, mem-snoc i j l, eq_bytes_iff i j, eq_bytes_iff j i),
  NoTwice-snoc j l (ground arith) d.1,
)

pub mem-unlink :
    (k j : ByteArray) (l : List ByteArray)
    → NoTwice l
    → mem k (unlink j l) ≡ (if eq_bytes j k then false else mem k l)
unfolding unlink
mem-unlink k j [] d = ground arith
mem-unlink k j (i ∷ l) d = ground (
  arith,
  d.0,
  eq_bytes_iff i j,
  eq_bytes_iff i k,
  eq_bytes_iff j k,
  eq_bytes_iff j j,
  mem-unlink k j l d.1,
)

pub NoTwice-unlink : (j : ByteArray) (l : List ByteArray) → NoTwice l → NoTwice (unlink j l)
unfolding unlink
NoTwice-unlink j [] d = tt
NoTwice-unlink j (i ∷ l) d = ground (
  arith,
  d.0,
  d.1,
  eq_bytes_iff i j,
  eq_bytes_iff j i,
  mem-unlink i j l d.1,
  NoTwice-unlink j l d.1,
)

pub length-unlink :
    (j : ByteArray) (l : List ByteArray) → mem j l ≡ true → length (unlink j l) + 1 ≡ length l
unfolding unlink
length-unlink j [] h = ground arith
length-unlink j (i ∷ l) h = ground (arith, length-unlink j l)
