-- ===== src/Cache/RoundTrip/OneBlock.antt =====
-- cache.cpp: one block through insert and read.
use leotp.Base.{
  ℕ, suc, ◌+◌, ◌-◌, ◌^◌, ◌≤◌, ◌<◌, ◌≡◌, refl, ◌∙◌, inl, inr, false, none, some, List, [], ◌∷◌, ◌++◌,
  arith, ltb, ◌==◌, length, length-append, add32, sub32, Option-cases, if_cases, sub32_le, ltb→lt,
  lt→ltb, le→ltb,
}
use leotp.ByteMap.{ByteArray, read_value}
use leotp.ByteMap.Laws.{
  eq_bytes_iff, read_value-set_value, read_value-store, read_value-erase, set_value-Distinct,
  Distinct,
}
use leotp.Cache.Ranges.{Range, replicate, no_ranges, set_first, find_end, no_end}
use leotp.Cache.Ranges.Search.{find_end-put_range}
use leotp.Cache.Ranges.Room.{HasRoom, put_range-room}
use leotp.Cache.{
  Cache, Block, Bytes, update_lru, memcpy, block_len, max_block_num, name_seq_to_key, add_block,
  link_block, drop_oldest, write_block, fill, insert_block, insert_loop, read_loop, ReadState,
  write_from, write_to,
}
use leotp.Cache.Nodes.{mem}
use leotp.Cache.Lru.{Keeps}
use leotp.Cache.Lru.Moves.{holds}
use leotp.Cache.Faithful.{IsFaithful, new_block, add_block-key_len}

-- The eviction of `addBlock` takes an older block.
drop_oldest-newest :
    (l : List ByteArray) (k : ByteArray) (c : Cache)
    → Distinct c.data_map
    → mem k l ≡ false
    → 0 < length l
    → read_value k (drop_oldest (l ++ k ∷ []) c).data_map ≡ read_value k c.data_map
unfolding drop_oldest
drop_oldest-newest [] k c d h pos = absurd (omega arith)
drop_oldest-newest (j ∷ l) k c d h pos = ground (arith, read_value-erase j k c.data_map d)

add_block-newest :
    (fresh : Bytes) (key : ByteArray) (c : Cache)
    → Keeps c
    → read_value key c.data_map ≡ none
    → read_value key (add_block fresh key c).data_map ≡ some (new_block fresh key)
unfolding add_block link_block
add_block-newest fresh key c v free =
    let linked : read_value key (link_block fresh key c).data_map ≡ some (new_block fresh key) =
      ground (
        arith,
        eq_bytes_iff key key,
        read_value-set_value key key (new_block fresh key) c.data_map free,
      ) in
    if_cases (λ (x : Cache). read_value key x.data_map ≡ some (new_block fresh key))
      (ltb max_block_num (length (c.lru_list ++ key ∷ [])))
      (λ over.
        drop_oldest-newest c.lru_list key (link_block fresh key c)
          (set_value-Distinct key (new_block fresh key) c.data_map v.0.distinct)
          (v.0.same_keys key ∙ ground (arith, free))
          (omega (arith, ltb→lt _ _ over, length-append {0} c.lru_list (key ∷ [])))
        ∙ linked)
      (λ _. linked)

-- The block that `insert` leaves at the start of its range has one range that holds all of its
-- part of the data.
abbrev pub Stored : ℕ → ℕ → ByteArray → Cache → Type 0
Stored ws we key c' =
    (b : Block) × (read_value key c'.data_map ≡ some b) × (find_end ws we b.ranges ≡ we)

write_block-Stored :
    (ws we : ℕ) (key : ByteArray) (b old : Block) (c : Cache)
    → read_value key c.data_map ≡ some old
    → find_end ws we b.ranges ≡ we
    → Stored ws we key (write_block key b c)
unfolding write_block
write_block-Stored ws we key b old c found e =
    (b, ground (arith, eq_bytes_iff key key, read_value-store key key b old c.data_map found), e)

find_end-head : (s e : ℕ) (rs : List Range) → s < e → find_end s e ((s, e) ∷ rs) ≡ e
unfolding find_end
find_end-head s e rs h = ground arith

set_first-find_end : (s e : ℕ) → s < e → find_end s e (set_first (s, e) no_ranges) ≡ e
unfolding set_first no_ranges
set_first-find_end s e h = find_end-head s e (replicate 99 (0, 0)) h

module _ (content : List ℕ → ℕ → ℕ) (fresh : Bytes) (name : List ℕ) (data_start data_end : ℕ)
    (buf : Bytes) (c : Cache) (bs : ℕ) (n : length name ≡ c.key_len - 4)
    (word : data_end + block_len ≤ 2 ^ 32) (first : bs ≤ data_start)
    (nonempty : data_start < data_end) (last : data_end ≤ bs + block_len) (f : IsFaithful content c)
    (v : Keeps c)
    (room : (b : Block)
      → read_value (name_seq_to_key c name bs) c.data_map ≡ some b
      → HasRoom b.ranges) where
  from-eq : write_from data_start bs ≡ data_start
  from-eq = ground arith

  to-eq : write_to data_end bs ≡ data_end
  to-eq = let no_wrap : add32 bs block_len ≡ bs + block_len = omega arith in ground (arith, no_wrap)

  abbrev key : ByteArray
  key = name_seq_to_key c name bs

  stored : Block → Cache → Cache
  stored b c1 =
      write_block key (record b { data_ptr = fill b buf data_start bs data_start data_end }) c1

  with_ranges : List Range → ℕ → Block → Block
  with_ranges rs pos b = record b { ranges = rs; last_pos = pos }

  pub insert_block-Stored :
      (c' : Cache) × (insert_block fresh name data_start data_end buf bs c ≡ some (c', false))
      × Stored data_start data_end key c'
      × (c'.key_len ≡ c.key_len)
  unfolding insert_block stored with_ranges
  insert_block-Stored = elim (Option-cases (read_value key c.data_map)) [
    | inl absent ↦
        let b =
          with_ranges (set_first (data_start, data_end) no_ranges) (2 ^ 32 - 1)
            (new_block fresh key) in
        (
          stored b (add_block fresh key c),
          rw (absent, insert_block) (rw (from-eq, to-eq) refl),
          write_block-Stored data_start data_end key
              (record b { data_ptr = fill b buf data_start bs data_start data_end })
              (new_block fresh key) (add_block fresh key c) (add_block-newest fresh key c v absent)
              (set_first-find_end data_start data_end nonempty),
          unfold write_block in add_block-key_len fresh key c,
        )
    | inr (b, found) ↦
        let g = f.blocks name bs b n (omega arith) found in
        let (q, puts, holds) =
          find_end-put_range data_start data_end b.last_pos b.ranges nonempty g.0 in
        let clear = put_range-room data_start data_end b.last_pos b.ranges q puts (room b found) in
        let b' = with_ranges q.ranges q.last_pos b in
        (
          stored b' c,
          rw (found, insert_block) (rw (from-eq, to-eq, puts, clear) (rw (from-eq, to-eq) refl)),
          write_block-Stored data_start data_end key
              (record b' { data_ptr = fill b' buf data_start bs data_start data_end }) b c found
              (holds clear).0,
          unfold write_block in refl,
        )
  ]

  -- Determinism names the cache that `insert` leaves.
  pub insert-one :
      (fuel : ℕ) (c1 : Cache)
      → insert_block fresh name data_start data_end buf bs c ≡ some (c1, false)
      → insert_loop fresh name data_start data_end (suc (suc fuel)) buf bs c ≡ some c1
  unfolding insert_loop
  insert-one fuel c1 h =
      rw (lt→ltb bs data_end (omega arith), h, insert_loop)
        (rw (le→ltb (add32 bs block_len) data_end (omega arith), insert_loop) refl)

  pub read-one :
      (fuel : ℕ) (r : ReadState) (b : Block)
      → read_value (name_seq_to_key r.cache name bs) r.cache.data_map ≡ some b
      → find_end data_start data_end b.ranges ≡ data_end
      → r.readlen ≡ 0
      → (r' : ReadState) × (read_loop name data_start data_end (suc (suc fuel)) bs r ≡ some r')
        × (r'.readlen ≡ data_end - data_start)
  unfolding read_loop
  read-one fuel r b found whole none_yet = (
    record {
      cache = update_lru b r.cache;
      readlen = add32 r.readlen (sub32 data_end data_start);
      buf =
          memcpy r.buf (sub32 data_start data_start) b.data_ptr (sub32 data_start bs)
            (sub32 data_end data_start);
    },
    rw (lt→ltb bs data_end (omega arith), found, read_loop)
        (rw (from-eq, whole, in_range data_end (omega arith), at_end data_end)
          (rw (le→ltb (add32 bs block_len) data_end (omega arith), read_loop) refl)),
    rw (none_yet, sub32_le data_end data_start (omega arith) (omega arith)) (omega arith),
  )
    where
      in_range : (x : ℕ) → x < no_end → (x == no_end) ≡ false
      in_range x h = ground arith

      at_end : (x : ℕ) → ltb x x ≡ false
      at_end x = ground arith
