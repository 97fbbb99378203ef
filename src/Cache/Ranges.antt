-- ===== src/Cache/Ranges.antt =====
-- cache.cpp, the table of ranges of a block: the part of `Cache::insert` that merges a new range
-- into it, and the search of `Cache::read`. The slot (0, 0) is empty.
pub mod Covers
pub mod Search
pub mod Room
use leotp.Base.{
  ℕ, zero, suc, ◌+◌, ◌-◌, ◌*◌, ◌/◌, ◌%◌, ◌^◌, ◌≤◌, ◌<◌, ◌≡◌, refl, sym, ap, ◌∙◌, ◌≢◌, ◌↔◌, ◌⊎◌, inl,
  inr, Bool, true, false, ◌&&◌, ◌||◌, not, Option, none, some, List, [], ◌∷◌, ◌++◌, map, arith, ltb,
  leb, ◌==◌, if◌then◌else◌, length, length-append, All, All-append, All-mono, u32, add32, sub32,
  slt, Bool-cases, Option-cases,
}

abbrev pub Range : Type 0
Range = ℕ × ℕ

abbrev pub block_seg_num : ℕ
block_seg_num = 100

abbrev pub replicate : ℕ → Range → List Range
replicate zero r = []
replicate (suc n) r = r ∷ replicate n r

-- The table after `memset(ranges, 0, ...)`.
unfoldable pub no_ranges : List Range
no_ranges = replicate block_seg_num (0, 0)

-- `ranges[0] = ...; ranges[1] = ...`.
unfoldable pub set_first : Range → List Range → List Range
set_first r [] = []
set_first r (_ ∷ rs) = r ∷ rs

-- How one pass of the `for` over the slots ends. `joined` has the grown range and the table with
-- the joined slot emptied.
pub data Scan : Type 0 where
  no_union : Scan
  joined : ℕ → ℕ → List Range → Scan
  is_subset : Scan

-- The slot is put back in front of the rest of the table.
unfoldable pub after_slot : Range → Scan → Scan
after_slot r no_union = no_union
after_slot r (joined s e rs) = joined s e (r ∷ rs)
after_slot r is_subset = is_subset

unfoldable pub scan : ℕ → ℕ → List Range → Scan
unfolding after_slot
scan s e [] = no_union
scan s e ((a, b) ∷ rs) =
    let rest = after_slot (a, b) (scan s e rs) in
    if a == 0 && b == 0
    then rest
    else if (ltb s a && leb a e) || (ltb b e && leb s b)
    then joined (if ltb s a then s else a) (if ltb b e then e else b) ((0, 0) ∷ rs)
    else if leb a s && leb e b
    then is_subset
    else rest

pub record Merged : Type 0 where
  pub start : ℕ
  pub end : ℕ
  pub ranges : List Range
  pub subset : Bool

-- `while (1)` on fuel: a pass for each slot that is joined, and the last one.
unfoldable pub merge : ℕ → ℕ → ℕ → List Range → Option Merged
merge zero s e rs = none
merge (suc fuel) s e rs = elim (scan s e rs) [
  | no_union ↦ some (record { start = s; end = e; ranges = rs; subset = false })
  | is_subset ↦ some (record { start = s; end = e; ranges = rs; subset = true })
  | joined s' e' rs' ↦ merge fuel s' e' rs'
]

-- The first empty slot takes the range; `none` is a full table.
unfoldable pub place : Range → List Range → Option (List Range)
place r [] = none
place r ((a, b) ∷ rs) =
    if a == 0 && b == 0
    then some (r ∷ rs)
    else (elim (place r rs) [ none ↦ none | some rs' ↦ some ((a, b) ∷ rs') ])

unfoldable pub overwrite : ℕ → Range → List Range → List Range
overwrite i r [] = []
overwrite zero r (_ ∷ rs) = r ∷ rs
overwrite (suc i) r (q ∷ rs) = q ∷ overwrite i r rs

pub record Put : Type 0 where
  pub ranges : List Range
  pub last_pos : ℕ
  pub overflow : Bool

unfoldable pub put_merged : ℕ → Merged → Put
unfolding place overwrite
put_merged last_pos m =
    if m.subset
    then (record { ranges = m.ranges; last_pos = last_pos; overflow = false })
    else (elim (place (m.start, m.end) m.ranges) [
      | some rs ↦ record { ranges = rs; last_pos = last_pos; overflow = false }
      | none ↦
          let pos = add32 last_pos 1 % block_seg_num in
          record {
            ranges = overwrite pos (m.start, m.end) m.ranges;
            last_pos = pos;
            overflow = true;
          }
    ])

-- The table and `lastPos` after `insert` of [s, e) into a block that exists.
unfoldable pub put_range : ℕ → ℕ → List Range → ℕ → Option Put
unfolding merge put_merged
put_range s e rs last_pos = elim (merge (suc (length rs)) s e rs) [
  | none ↦ none
  | some m ↦ some (put_merged last_pos m)
]

-- `readEnd`, first -1.
abbrev pub no_end : ℕ
no_end = 2 ^ 32 - 1

unfoldable pub find_end : ℕ → ℕ → List Range → ℕ
find_end read_start data_end [] = no_end
find_end read_start data_end ((a, b) ∷ rs) =
    if a == 0 && b == 0
    then find_end read_start data_end rs
    else if leb a read_start && ltb read_start b
    then (if ltb b data_end then b else data_end)
    else find_end read_start data_end rs
