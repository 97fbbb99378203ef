-- ===== src/Cache/RoundTrip.antt =====
-- cache.cpp: `Cache::read` after `Cache::insert`.
pub mod OneBlock
use mathlib.Core.Option.{some-injective}
use leotp.Base.{
  ℕ, zero, suc, ◌+◌, ◌-◌, ◌/◌, ◌^◌, ◌≤◌, ◌<◌, ◌≡◌, refl, sym, ap, ◌∙◌, inl, inr, false, none, some,
  List, [], ◌∷◌, ◌++◌, arith, ltb, ◌==◌, length, length-append, add32, sub32, Option-cases,
  if_cases, sub32_le, ltb→lt, lt→ltb, le→ltb,
}
use leotp.ByteMap.{ByteArray, read_value}
use leotp.ByteMap.Laws.{
  eq_bytes_iff, read_value-set_value, read_value-store, read_value-erase, set_value-Distinct,
  Distinct,
}
use leotp.Cache.Ranges.{Range, replicate, no_ranges, set_first, find_end, no_end}
use leotp.Cache.Ranges.Search.{find_end-put_range}
use leotp.Cache.Ranges.Room.{HasRoom, put_range-room}
use leotp.Cache.{
  Cache, Block, Bytes, update_lru, memcpy, block_len, max_block_num, name_seq_to_key, add_block,
  link_block, drop_oldest, write_block, fill, insert_block, insert_loop, insert, read_loop, read,
  ReadState, write_from, write_to, first_block,
}
use leotp.Cache.Nodes.{mem}
use leotp.Cache.Lru.{Keeps}
use leotp.Cache.Lru.Moves.{holds}
use leotp.Cache.Faithful.{IsFaithful, new_block, add_block-key_len}
use leotp.Cache.Insert.{Room, insert-IsFaithful}
use leotp.Cache.InsertBlock.{key-key_len}
use leotp.Cache.Read.{ReadUpTo, read-ReadUpTo}
use leotp.Cache.RoundTrip.OneBlock.{Stored, insert_block-Stored, insert-one, read-one}

module _ (content : List ℕ → ℕ → ℕ) (fresh : Bytes) (name : List ℕ) (data_start data_end : ℕ)
    (src dst : Bytes) (c : Cache) where
  abbrev Whole : ℕ → Cache → Type 0
  Whole fuel c' =
      (r : ReadState) × (read name data_start data_end fuel dst c' ≡ some r)
      × (r.readlen ≡ data_end - data_start)
      × ((i : ℕ) → i < data_end - data_start → r.buf i ≡ content name (data_start + i))
      × ((i : ℕ) → data_end - data_start ≤ i → r.buf i ≡ dst i)

  read-Whole :
      (fuel : ℕ) (c' : Cache) (b : Block) (r1 r2 : ReadState) (pos : ℕ)
      → (n : length name ≡ c'.key_len - 4) (f : IsFaithful content c') (h : data_start < data_end)
        (word : data_end + block_len ≤ 2 ^ 32)
      → read name data_start data_end fuel dst c' ≡ some r1
      → r1.readlen ≡ data_end - data_start
      → read name data_start data_end fuel dst c' ≡ some r2
      → ReadUpTo content name data_start data_end c' dst n f h word pos r2
      → Whole fuel c'
  read-Whole fuel c' b r1 r2 pos n f h word e1 len e2 u =
      let same : r1 ≡ r2 = some-injective _ _ (sym e1 ∙ e2) in
      let all : pos - data_start ≡ data_end - data_start =
        sym u.readlen ∙ ap (λ (r : ReadState). r.readlen) (sym same) ∙ len in
      (r2, e2, u.readlen ∙ all, λ i k. u.bytes i (rw all k), λ i k. u.rest i (rw all k))

  module _ (fuel : ℕ) (c' : Cache) (enough : data_end / block_len + 1 < suc (suc fuel))
      (n : length name ≡ c.key_len - 4) (word : data_end + block_len ≤ 2 ^ 32)
      (h : data_start < data_end) (last : data_end ≤ first_block data_start + block_len)
      (agree : (p : ℕ) → data_start ≤ p → p < data_end → src (p - data_start) ≡ content name p)
      (f : IsFaithful content c) (v : Keeps c) (room : Room name 0 data_end c) where
    starts_before : first_block data_start ≤ data_start
    starts_before = omega arith

    table_room :
        (b : Block)
        → read_value (name_seq_to_key c name (first_block data_start)) c.data_map ≡ some b
        → HasRoom b.ranges
    table_room b = room (first_block data_start) b (omega arith) (omega arith)

    insert-Whole :
        insert_block fresh name data_start data_end src (first_block data_start) c
          ≡ some (c', false)
        → Stored data_start data_end (name_seq_to_key c name (first_block data_start)) c'
        → c'.key_len ≡ c.key_len
        → (insert fresh name data_start data_end (suc (suc fuel)) src c ≡ some c')
          × Whole (suc (suc fuel)) c'
    insert-Whole once (b, found, whole) len = (
      inserted,
      reads_back
          (read-one content fresh name data_start data_end src c (first_block data_start) n word
            starts_before h last f v table_room fuel (record { cache = c'; readlen = 0; buf = dst })
            b (rw (key-key_len c c' name (first_block data_start) len) found) whole refl)
          (insert-IsFaithful content fresh name data_start data_end src (omega arith) word agree
            (suc (suc fuel)) c enough n f room),
    )
      where
        inserted : insert fresh name data_start data_end (suc (suc fuel)) src c ≡ some c'
        inserted =
            unfold insert in
            insert-one content fresh name data_start data_end src c (first_block data_start) n word
              starts_before h last f v table_room fuel c' once

        n' : length name ≡ c'.key_len - 4
        n' = rw len n

        reads_back :
            (r : ReadState) × (read_loop name data_start data_end
                  (suc (suc fuel))
                  (first_block data_start)
                  (record { cache = c'; readlen = 0; buf = dst })
                ≡ some r)
              × (r.readlen ≡ data_end - data_start)
            → (c2 : Cache) × (insert fresh name data_start data_end (suc (suc fuel)) src c
                ≡ some c2)
              × IsFaithful content c2
            → Whole (suc (suc fuel)) c'
        reads_back (r1, reads, full) (c2, ends, f2) =
            let f' : IsFaithful content c' = rw (some-injective _ _ (sym ends ∙ inserted)) at f2 in
            ends_up f' (
              read-ReadUpTo content name data_start data_end c' dst n' f' h word (suc (suc fuel))
                enough)
          where
            ends_up :
                (f' : IsFaithful content c')
                → (r : ReadState) × (pos : ℕ) × (read name data_start data_end
                      (suc (suc fuel))
                      dst
                      c'
                    ≡ some r)
                  × ReadUpTo content name data_start data_end c' dst n' f' h word pos r
                → Whole (suc (suc fuel)) c'
            ends_up f' (r2, pos, reads2, u) =
                read-Whole (suc (suc fuel)) c' b r1 r2 pos n' f' h word (unfold read in reads) full
                  reads2 u

    insert-Whole_src :
        Whole (suc (suc fuel)) c'
        → (r : ReadState) × (read name data_start data_end (suc (suc fuel)) dst c' ≡ some r)
          × (r.readlen ≡ data_end - data_start)
          × ((i : ℕ) → i < data_end - data_start → r.buf i ≡ src i)
          × ((i : ℕ) → data_end - data_start ≤ i → r.buf i ≡ dst i)
    insert-Whole_src (r, ok, all, bytes, rest) = (
      r,
      ok,
      all,
      λ i k.
          bytes i k
          ∙ sym (agree (data_start + i) (omega arith) (omega arith))
          ∙ ap src (omega arith),
      rest,
    )

  -- Data of a stream that lies in one block, at least a block below 2^32, is read back whole: after
  -- `insert` of [data_start, data_end) into a faithful cache in step whose tables have room, `read`
  -- of the same range returns its full length and copies exactly the inserted bytes, even if the
  -- insertion evicted.
  pub insert-read :
      (fuel : ℕ)
      → data_end / block_len + 1 < fuel
      → length name ≡ c.key_len - 4
      → data_end + block_len ≤ 2 ^ 32
      → data_start < data_end
      → data_end ≤ first_block data_start + block_len
      → ((p : ℕ) → data_start ≤ p → p < data_end → src (p - data_start) ≡ content name p)
      → IsFaithful content c
      → Keeps c
      → Room name 0 data_end c
      → (c' : Cache) × (r : ReadState) × (insert fresh name data_start data_end fuel src c
          ≡ some c')
        × (read name data_start data_end fuel dst c' ≡ some r)
        × (r.readlen ≡ data_end - data_start)
        × ((i : ℕ) → i < data_end - data_start → r.buf i ≡ src i)
        × ((i : ℕ) → data_end - data_start ≤ i → r.buf i ≡ dst i)
  insert-read zero enough n word h last agree f v room = absurd (omega arith)
  insert-read (suc zero) enough n word h last agree f v room = absurd (omega arith)
  insert-read (suc (suc fuel)) enough n word h last agree f v room = go (
      insert_block-Stored content fresh name data_start data_end src c (first_block data_start) n
        word (omega arith) h last f v
        (λ b. room (first_block data_start) b (omega arith) (omega arith)))
    where
      go :
          (c' : Cache) × (insert_block fresh name data_start data_end src (first_block data_start) c
              ≡ some (c', false))
            × Stored data_start data_end (name_seq_to_key c name (first_block data_start)) c'
            × (c'.key_len ≡ c.key_len)
          → (c' : Cache) × (r : ReadState) × (insert fresh name data_start data_end
                (suc (suc fuel))
                src
                c
              ≡ some c')
            × (read name data_start data_end (suc (suc fuel)) dst c' ≡ some r)
            × (r.readlen ≡ data_end - data_start)
            × ((i : ℕ) → i < data_end - data_start → r.buf i ≡ src i)
            × ((i : ℕ) → data_end - data_start ≤ i → r.buf i ≡ dst i)
      go (c', once, stores, len) =
          let (inserted, reads) =
            insert-Whole fuel c' enough n word h last agree f v room once stores len in
          let (r, ok, all, bytes, rest) =
            insert-Whole_src fuel c' enough n word h last agree f v room reads in
          (c', r, inserted, ok, all, bytes, rest)
