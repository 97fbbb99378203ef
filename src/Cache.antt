-- ===== src/Cache.antt =====
-- cache.cpp and include/cache.h: the data blocks of named streams, with an LRU list.
-- A `char *` into memory is the function from offsets to bytes. `lock` is held for the whole of
-- `insert` and of `read`, so each is one step here; `lruList` is its nodes' keys, oldest first.
pub mod Ranges
pub mod Copy
pub mod Keys
pub mod Faithful
pub mod InsertBlock
pub mod Insert
pub mod Read
pub mod Nodes
pub mod Lru
pub mod Overflow
pub mod RoundTrip
use mathlib.Core.List.{filter}
use leotp.Base.{
  ℕ, zero, suc, ◌+◌, ◌-◌, ◌*◌, ◌/◌, ◌%◌, ◌^◌, ◌≤◌, ◌<◌, ◌≡◌, refl, sym, ap, ◌∙◌, ◌≢◌, ◌↔◌, ◌⊎◌, inl,
  inr, Bool, true, false, ◌&&◌, ◌||◌, not, Option, none, some, List, [], ◌∷◌, ◌++◌, map, arith, ltb,
  leb, ◌==◌, if◌then◌else◌, length, length-append, All, All-append, All-mono, u32, add32, sub32,
  slt, Bool-cases, Option-cases,
}
use leotp.Codec.{encode32u}
use leotp.ByteMap.{ByteArray, ByteMap, eq_bytes, read_value, set_value, erase, store}
use Ranges.{Range, no_ranges, put_range, Put, find_end, no_end}

abbrev pub block_len : ℕ
block_len = 4096

abbrev pub max_block_num : ℕ
max_block_num = 20000

abbrev pub Bytes : Type 0
Bytes = ℕ → ℕ

-- `memcpy(dst + d, src + s, n)`.
abbrev pub memcpy : Bytes → ℕ → Bytes → ℕ → ℕ → Bytes
memcpy dst d src s n i = if leb d i && ltb i (d + n) then src (i - d + s) else dst i

-- `node_iter` is the key of the list node that the block's iterator points to.
pub record Block : Type 0 where
  pub data_ptr : Bytes
  pub ranges : List Range
  pub last_pos : ℕ
  pub node_iter : ByteArray

pub record Cache : Type 0 where
  pub key_len : ℕ
  pub data_map : ByteMap Block
  pub lru_list : List ByteArray

unfoldable pub new_cache : ℕ → Cache
new_cache name_len = record { key_len = name_len + 4; data_map = []; lru_list = [] }

-- `memcpy` of the first `n` bytes of a name.
abbrev pub take_bytes : ℕ → List ℕ → List ℕ
take_bytes zero xs = []
take_bytes (suc n) [] = []
take_bytes (suc n) (x ∷ xs) = x ∷ take_bytes n xs

unfoldable pub name_seq_to_key : Cache → List ℕ → ℕ → ByteArray
name_seq_to_key c name index = take_bytes (c.key_len - 4) name ++ encode32u index

-- `checksum`: the sum of a key's bytes, for the log.
unfoldable pub checksum : ByteArray → ℕ
checksum [] = 0
checksum (b ∷ key) = b + checksum key

-- `list::erase` of one node.
unfoldable pub unlink : ByteArray → List ByteArray → List ByteArray
unlink key [] = []
unlink key (k ∷ l) = if eq_bytes k key then l else k ∷ unlink key l

unfoldable pub drop_block : ByteArray → Cache → Cache
drop_block node c = record c { data_map = erase node c.data_map; lru_list = unlink node c.lru_list }

unfoldable pub drop_oldest : List ByteArray → Cache → Cache
unfolding drop_block
drop_oldest [] c = c
drop_oldest (k ∷ l) c = drop_block k c

-- `addBlock` up to its eviction: the block is put into the map, its node behind the list.
-- `fresh` is the memory that `new Block` returns, which the code leaves as it is.
unfoldable pub link_block : Bytes → ByteArray → Cache → Cache
link_block fresh key c =
    let block : Block = record {
      data_ptr = fresh;
      ranges = no_ranges;
      last_pos = 2 ^ 32 - 1;
      node_iter = key;
    } in
    record c { data_map = set_value key block c.data_map; lru_list = c.lru_list ++ key ∷ [] }

unfoldable pub add_block : Bytes → ByteArray → Cache → Cache
add_block fresh key c =
    let c' = link_block fresh key c in
    if ltb max_block_num (length c'.lru_list) then drop_oldest c'.lru_list c' else c'

-- `updateLRU`: the block's node moves to the end.
unfoldable pub update_lru : Block → Cache → Cache
update_lru b c = record c { lru_list = unlink b.node_iter c.lru_list ++ b.node_iter ∷ [] }

-- A write through a block's pointer.
unfoldable pub write_block : ByteArray → Block → Cache → Cache
write_block key b c = record c { data_map = store key b c.data_map }

-- The `memcpy` of `insert`, for the part [start, end) of the data at `data_start`.
unfoldable pub fill : Block → Bytes → ℕ → ℕ → ℕ → ℕ → Bytes
fill b buf data_start block_start write_start write_end =
    memcpy b.data_ptr (sub32 write_start block_start) buf (sub32 write_start data_start)
      (sub32 write_end write_start)

abbrev pub first_block : ℕ → ℕ
first_block data_start = data_start / block_len * block_len

-- `max(dataStart, blockStart)`.
abbrev pub write_from : ℕ → ℕ → ℕ
write_from data_start block_start = if ltb block_start data_start then data_start else block_start

-- `min(blockStart + BLOCK_LEN, dataEnd)`.
abbrev pub write_to : ℕ → ℕ → ℕ
write_to data_end block_start =
    if ltb (add32 block_start block_len) data_end then add32 block_start block_len else data_end

module _ (fresh : Bytes) (name : List ℕ) (data_start data_end : ℕ) where
  -- The part of `insert` for one block: the new cache, and whether the range table overflowed.
  unfoldable pub insert_block : Bytes → ℕ → Cache → Option (Cache × Bool)
  insert_block buf bs c =
      let key = name_seq_to_key c name bs in
      let ws = write_from data_start bs in
      let we = write_to data_end bs in
      elim (read_value key c.data_map) [
        | none ↦
            let c' = add_block fresh key c in
            let b : Block = record {
              data_ptr = fresh;
              ranges = no_ranges;
              last_pos = 2 ^ 32 - 1;
              node_iter = key;
            } in
            let b' : Block = record b { ranges = Ranges.set_first (ws, we) b.ranges } in
            some
              (write_block key (record b' { data_ptr = fill b' buf data_start bs ws we }) c', false)
        | some b ↦ elim (put_range ws we b.ranges b.last_pos) [
          | none ↦ none
          | some p ↦
              let b' : Block = record b { ranges = p.ranges; last_pos = p.last_pos } in
              let full : Block = record b' { data_ptr = fill b' buf data_start bs ws we } in
              some (
                if p.overflow
                then (write_block key b' c, true)
                else (write_block key full c, false))
        ]
      ]

  -- The loop of `insert` on fuel; `none` is a loop that has not ended.
  unfoldable pub insert_loop : ℕ → Bytes → ℕ → Cache → Option Cache
  insert_loop zero buf bs c = none
  insert_loop (suc fuel) buf bs c = elim (ltb bs data_end) [
    | false ↦ some c
    | true ↦ elim (insert_block buf bs c) [
      | none ↦ none
      | some (c', overflow) ↦ elim overflow [
        | true ↦ some c'
        | false ↦ insert_loop fuel buf (add32 bs block_len) c'
      ]
    ]
  ]

  unfoldable pub insert : ℕ → Bytes → Cache → Option Cache
  insert fuel buf c = insert_loop fuel buf (first_block data_start) c

pub record ReadState : Type 0 where
  pub cache : Cache
  pub readlen : ℕ
  pub buf : Bytes

module _ (name : List ℕ) (data_start data_end : ℕ) where
  -- The loop of `read`. Each `break` returns the state as it is then.
  unfoldable pub read_loop : ℕ → ℕ → ReadState → Option ReadState
  read_loop zero bs r = none
  read_loop (suc fuel) bs r =
      let key = name_seq_to_key r.cache name bs in
      let rs = write_from data_start bs in
      let rest = λ (r' : ReadState). read_loop fuel (add32 bs block_len) r' in
      if ltb bs data_end
      then (elim (read_value key r.cache.data_map) [
        | none ↦ some r
        | some b ↦
            let re = find_end rs data_end b.ranges in
            let r' : ReadState = record {
              cache = update_lru b r.cache;
              readlen = add32 r.readlen (sub32 re rs);
              buf = memcpy r.buf (sub32 rs data_start) b.data_ptr (sub32 rs bs) (sub32 re rs);
            } in
            if re == no_end
            then some r
            else if ltb re data_end && ltb re (add32 bs block_len)
            then some r'
            else rest r'
      ])
      else some r

  unfoldable pub read : ℕ → Bytes → Cache → Option ReadState
  read fuel buf c =
      read_loop fuel (first_block data_start) (record { cache = c; readlen = 0; buf = buf })
