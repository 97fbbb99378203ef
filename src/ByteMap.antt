-- ===== src/ByteMap.antt =====
-- include/ByteMap.h: a hash map from byte arrays to values. `std::unordered_map` is its list of
-- entries; an iterator is the key of the entry that it points to.
pub mod Laws
use leotp.Base.{
  ℕ, Bool, true, false, ◌&&◌, List, [], ◌∷◌, Option, none, some, ◌==◌, if◌then◌else◌, length,
}

-- `ByteArray`: a key, `len` bytes copied from the caller's buffer.
abbrev pub ByteArray : Type 0
ByteArray = List ℕ

-- `memcmp(a, b, n) == 0` on two arrays of one length.
unfoldable pub mem_eq : ByteArray → ByteArray → Bool
mem_eq [] bs = true
mem_eq (a ∷ as') [] = true
mem_eq (a ∷ as') (b ∷ bs) = a == b && mem_eq as' bs

unfoldable pub eq_bytes : ByteArray → ByteArray → Bool
unfolding mem_eq
eq_bytes ba1 ba2 = length ba1 == length ba2 && mem_eq ba1 ba2

abbrev pub ByteMap {ℓ} : Type ℓ → Type ℓ
ByteMap T = List (ByteArray × T)

module _ {ℓ} {T : Type ℓ} where
  -- `readValue`: `none` is the return of -1.
  unfoldable pub read_value : ByteArray → ByteMap T → Option T
  read_value key [] = none
  read_value key ((k, v) ∷ m) = if eq_bytes k key then some v else read_value key m

  -- `setValue`: `umap.insert` keeps the old entry of a key that is present.
  unfoldable pub set_value : ByteArray → T → ByteMap T → ByteMap T
  set_value key value m = elim (read_value key m) [ none ↦ (key, value) ∷ m | some _ ↦ m ]

  unfoldable pub erase : ByteArray → ByteMap T → ByteMap T
  erase key [] = []
  erase key ((k, v) ∷ m) = if eq_bytes k key then m else (k, v) ∷ erase key m

  unfoldable pub size : ByteMap T → ℕ
  size m = length m

  -- A write through the `shared_ptr` that the map holds: the entry's value is replaced.
  unfoldable pub store : ByteArray → T → ByteMap T → ByteMap T
  store key value [] = []
  store key value ((k, v) ∷ m) =
      if eq_bytes k key then (k, value) ∷ m else (k, v) ∷ store key value m
