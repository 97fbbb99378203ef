-- ===== src/Cache/Copy.antt =====
-- cache.cpp, the copies between a block and a caller's buffer, byte by byte.
use leotp.Base.{ℕ, ◌+◌, ◌-◌, ◌≤◌, ◌<◌, ◌≡◌, refl, ◌⊎◌, true, false, ◌&&◌, arith, ltb, leb}
use leotp.Cache.{Bytes, memcpy}

module _ (dst src : Bytes) (d s n : ℕ) where
  pub memcpy-inside : (i : ℕ) → d ≤ i → i < d + n → memcpy dst d src s n i ≡ src (i - d + s)
  memcpy-inside i h k = rw (hit i h k) refl
    where
      hit : (j : ℕ) → d ≤ j → j < d + n → (leb d j && ltb j (d + n)) ≡ true
      hit j p q = ground arith

  pub memcpy-outside : (i : ℕ) → (i < d) ⊎ (d + n ≤ i) → memcpy dst d src s n i ≡ dst i
  memcpy-outside i h = rw (miss i h) refl
    where
      miss : (j : ℕ) → (j < d) ⊎ (d + n ≤ j) → (leb d j && ltb j (d + n)) ≡ false
      miss j p = ground arith
