-- ===== src/Cache/Overflow.antt =====
-- cache.cpp, `Cache::insert` into a block whose range table is full.
use leotp.Base.{
  ℕ, zero, suc, ◌%◌, ◌≤◌, ◌<◌, ◌≡◌, refl, sym, ◌∙◌, true, none, some, List, [], ◌∷◌, arith, length,
  add32, lt→ltb,
}
use leotp.ByteMap.{read_value}
use leotp.Cache.Ranges.{
  Range, scan, no_union, merge, place, overwrite, Put, put_merged, put_range, block_seg_num,
}
use leotp.Cache.Ranges.Covers.{within, covers, filled, filled-le-length}
use leotp.Cache.{
  Cache, Block, Bytes, name_seq_to_key, insert_block, insert_loop, insert, write_block, first_block,
  write_from, write_to,
}

place-full : (r : Range) (rs : List Range) → filled rs ≡ length rs → place r rs ≡ none
unfolding place
place-full r [] h = refl
place-full r ((a, b) ∷ rs) h = ground (arith, filled-le-length rs, place-full r rs)

overwrite-covers :
    (i s e p : ℕ) (rs : List Range)
    → i < length rs
    → within s e p ≡ true
    → covers p (overwrite i (s, e) rs) ≡ true
unfolding overwrite
overwrite-covers i s e p [] h k = absurd (omega arith)
overwrite-covers zero s e p ((a, b) ∷ rs) h k = ground arith
overwrite-covers (suc i) s e p ((a, b) ∷ rs) h k =
    ground (arith, overwrite-covers i s e p rs (omega arith) k)

-- The table after a new range that touches none of the ranges of a full table.
overflowed : ℕ → ℕ → Block → Put
overflowed s e b =
    let pos = add32 b.last_pos 1 % block_seg_num in
    record { ranges = overwrite pos (s, e) b.ranges; last_pos = pos; overflow = true }

put_range-full :
    (s e : ℕ) (b : Block)
    → filled b.ranges ≡ length b.ranges
    → scan s e b.ranges ≡ no_union
    → put_range s e b.ranges b.last_pos ≡ some (overflowed s e b)
unfolding put_range overflowed
put_range-full s e b full apart =
    rw (apart, merge, put_range) (rw (place-full (s, e) b.ranges full, put_merged) refl)

-- A range in one block that touches none of the ranges of the block's full table: `insert` returns
-- as after a success with the range marked as held, but it has copied no byte of it: the block's
-- memory is as before, whatever the caller's buffer holds.
pub insert-full :
    (fresh : Bytes) (name : List ℕ) (data_start data_end fuel : ℕ) (buf : Bytes) (c : Cache)
    (b : Block)
    → data_start < data_end
    → let start = first_block data_start in
      let s = write_from data_start start in
      let e = write_to data_end start in
      read_value (name_seq_to_key c name start) c.data_map ≡ some b
      → length b.ranges ≡ block_seg_num
      → filled b.ranges ≡ block_seg_num
      → scan s e b.ranges ≡ no_union
      → (b' : Block) × (insert fresh name data_start data_end (suc fuel) buf c
          ≡ some (write_block (name_seq_to_key c name start) b' c))
        × (b'.data_ptr ≡ b.data_ptr)
        × ((p : ℕ) → s ≤ p → p < e → covers p b'.ranges ≡ true)
unfolding insert insert_loop insert_block overflowed
insert-full fresh name data_start data_end fuel buf c b h found len full apart =
    let start = first_block data_start in
    let s = write_from data_start start in
    let e = write_to data_end start in
    let q = overflowed s e b in
    let puts = put_range-full s e b (full ∙ sym len) apart in
    (
      record b { ranges = q.ranges; last_pos = q.last_pos },
      rw (lt→ltb start data_end (omega arith), insert_loop)
          (rw (found, insert_block) (rw (puts) refl)),
      refl,
      λ p k l.
          overwrite-covers (add32 b.last_pos 1 % block_seg_num) s e p b.ranges (omega arith)
            (ground arith),
    )
