-- ===== src/Cache/Insert.antt =====
-- cache.cpp, `Cache::insert` against the streams that are cached.
use leotp.Base.{
  ℕ, zero, suc, ◌+◌, ◌-◌, ◌*◌, ◌/◌, ◌^◌, ◌≤◌, ◌<◌, ◌≡◌, refl, ◌∙◌, ◌≢◌, inl, inr, false, some, List,
  arith, ltb, length, add32, Bool-cases, ltb→lt, lt→ltb, le→ltb, ltb→le,
}
use leotp.ByteMap.{ByteArray, read_value}
use leotp.Cache.Ranges.Room.{HasRoom}
use leotp.Cache.{Cache, Block, Bytes, block_len, name_seq_to_key, insert_block, insert_loop, insert}
use leotp.Cache.Keys.{name_seq_to_key-injective}
use leotp.Cache.Faithful.{IsFaithful}
use leotp.Cache.InsertBlock.{insert_block-Inserted, key-key_len}

-- No block of the stream in [start, end) has used up its table of ranges.
abbrev pub Room : List ℕ → ℕ → ℕ → Cache → Type 0
Room name start end c =
    (bs : ℕ) (b : Block)
    → start ≤ bs
    → bs < end
    → read_value (name_seq_to_key c name bs) c.data_map ≡ some b
    → HasRoom b.ranges

module _ (content : List ℕ → ℕ → ℕ) (fresh : Bytes) (name : List ℕ) (data_start data_end : ℕ)
    (buf : Bytes) (ordered : data_start ≤ data_end) (word : data_end + block_len ≤ 2 ^ 32)
    (agree : (p : ℕ) → data_start ≤ p → p < data_end → buf (p - data_start) ≡ content name p) where
  insert_loop-done :
      (fuel bs : ℕ) (c : Cache)
      → data_end ≤ bs
      → insert_loop fresh name data_start data_end (suc fuel) buf bs c ≡ some c
  unfolding insert_loop
  insert_loop-done fuel bs c h = rw (le→ltb bs data_end h, insert_loop)

  insert_loop-next :
      (fuel bs : ℕ) (c c' : Cache)
      → bs < data_end
      → insert_block fresh name data_start data_end buf bs c ≡ some (c', false)
      → insert_loop fresh name data_start data_end (suc fuel) buf bs c
        ≡ insert_loop fresh name data_start data_end fuel buf (bs + block_len) c'
  unfolding insert_loop
  insert_loop-next fuel bs c c' h e =
      let no_wrap : add32 bs block_len ≡ bs + block_len = omega arith in
      rw (lt→ltb bs data_end h, e, no_wrap, insert_loop)

  -- A round leaves the later blocks' tables alone.
  Room-next :
      (bs : ℕ) (c c' : Cache)
      → length name ≡ c.key_len - 4
      → bs < data_end
      → c'.key_len ≡ c.key_len
      → ((k : ByteArray) (b : Block)
          → name_seq_to_key c name bs ≢ k
          → read_value k c'.data_map ≡ some b
          → read_value k c.data_map ≡ some b)
      → Room name bs data_end c
      → Room name (bs + block_len) data_end c'
  Room-next bs c c' n below len old room later b h k found = room later b (omega arith) k (
      old (name_seq_to_key c name later) b
        (λ e.
          le_absurd
            (name_seq_to_key-injective c name name bs later n n (omega arith) (omega arith) e).1 h)
        (rw (key-key_len c c' name later len) at found))
    where
      le_absurd : bs ≡ later → bs + block_len ≤ later → ⊥
      le_absurd e l = omega arith

  insert_loop-IsFaithful :
      (fuel bs : ℕ) (c : Cache)
      → length name ≡ c.key_len - 4
      → data_start < bs + block_len
      → bs < data_end + block_len
      → data_end + block_len ≤ bs + fuel * block_len
      → IsFaithful content c
      → Room name bs data_end c
      → (c' : Cache) × (insert_loop fresh name data_start data_end fuel buf bs c ≡ some c')
        × IsFaithful content c'
        × (c'.key_len ≡ c.key_len)
  insert_loop-IsFaithful zero bs c n r l e f room = absurd (omega arith)
  insert_loop-IsFaithful (suc fuel) bs c n r l e f room = elim (Bool-cases (ltb bs data_end)) [
    | inr done ↦ (c, insert_loop-done fuel bs c (ltb→le bs data_end done), f, refl)
    | inl more ↦
        let below = ltb→lt bs data_end more in
        let (c1, once, f1, len, old) =
          insert_block-Inserted content fresh name data_start data_end buf bs c n (omega arith) r
            ordered below (omega arith) agree f (λ b found. room bs b (omega arith) below found) in
        let (c2, ends, f2, len2) =
          insert_loop-IsFaithful fuel (bs + block_len) c1 (rw len n) (omega arith) (omega arith)
            (omega arith) f1 (Room-next bs c c1 n below len old room) in
        (c2, insert_loop-next fuel bs c c1 below once ∙ ends, f2, len2 ∙ len)
  ]

  -- With the lengths of the keys.
  pub insert_lem :
      (fuel : ℕ) (c : Cache)
      → data_end / block_len + 1 < fuel
      → length name ≡ c.key_len - 4
      → IsFaithful content c
      → Room name 0 data_end c
      → (c' : Cache) × (insert fresh name data_start data_end fuel buf c ≡ some c')
        × IsFaithful content c'
        × (c'.key_len ≡ c.key_len)
  unfolding insert
  insert_lem fuel c enough n f room =
      insert_loop-IsFaithful fuel (data_start / block_len * block_len) c n (omega arith)
        (omega arith) (omega arith) f (λ bs b _. room bs b (omega arith))

  -- An insertion of bytes [data_start, data_end) that are those of the stream, up to the last whole
  -- block below 2^32, in a cache that is faithful to all streams and whose blocks there have room
  -- in their tables, ends within one round for each block and leaves a cache that is faithful to
  -- all streams.
  pub insert-IsFaithful :
      (fuel : ℕ) (c : Cache)
      → data_end / block_len + 1 < fuel
      → length name ≡ c.key_len - 4
      → IsFaithful content c
      → Room name 0 data_end c
      → (c' : Cache) × (insert fresh name data_start data_end fuel buf c ≡ some c')
        × IsFaithful content c'
  insert-IsFaithful fuel c enough n f room =
      let (c', ends, f', _) = insert_lem fuel c enough n f room in (c', ends, f')
