-- ===== src/Examples/Stored.antt =====
-- cache.cpp at concrete inputs: a cache for names of two bytes, with one insertion of ten bytes.
use leotp.Base.{
  ℕ, ◌+◌, ◌-◌, ◌%◌, ◌≤◌, ◌<◌, ◌≡◌, refl, sym, ap, ◌∙◌, ◌≢◌, true, false, ◌||◌, Option, none, some,
  List, [], ◌∷◌, arith,
}
use mathlib.Core.Path.{subst}
use mathlib.Core.Bool.{false≢true}
use leotp.ByteMap.{eq_bytes, mem_eq, read_value}
use leotp.Codec.{encode32u}
use leotp.Cache.Ranges.{Range, put_range, find_end, Put, scan, no_union, replicate}
use leotp.Cache.Ranges.Covers.{within, covers, Ordered, put_range-covers}
use leotp.Cache.Ranges.Search.{Finds, find_end-Finds, find_end-put_range}
use leotp.Cache.Ranges.Room.{put_range-room}
use leotp.Cache.{
  Cache, Block, Bytes, name_seq_to_key, insert, insert_loop, insert_block, add_block, link_block,
  write_block, ReadState, read, first_block, write_from, write_to,
}
use leotp.Cache.Keys.{name_seq_to_key-injective}
use leotp.Cache.Faithful.{IsFaithful}
use leotp.Cache.Insert.{Room, insert-IsFaithful}
use leotp.Cache.Read.{ReadUpTo, read-ReadUpTo}
use leotp.Cache.RoundTrip.{insert-read}
use leotp.Cache.Lru.{Keeps, insert-Keeps, read-Keeps}
use leotp.Cache.Overflow.{insert-full}

abbrev pub content : List ℕ → ℕ → ℕ
content name p = p % 256

abbrev pub zeros : Bytes
zeros i = 0

abbrev pub sent : Bytes
sent i = (10 + i) % 256

abbrev pub peers : List ℕ
peers = 1 ∷ 2 ∷ []

abbrev pub empty : Cache
empty = record { key_len = 6; data_map = []; lru_list = [] }

-- The cache after `insert` of the bytes [10, 20).
abbrev cache_of : Cache → Option Cache → Cache
cache_of c none = c
cache_of c (some c') = c'

abbrev pub one_block : Cache
one_block = cache_of empty (insert zeros peers 10 20 3 sent empty)

pub none≢some : {A : Type 0} {a : A} → none ≢ some a
none≢some e = false≢true (ap (λ o. elim o [ none ↦ false | some x ↦ true ]) e)

abbrev read_state : Option ReadState → ReadState
read_state none = record { cache = empty; readlen = 0; buf = zeros }
read_state (some r) = r

pub empty-IsFaithful : IsFaithful content empty
unfolding read_value
empty-IsFaithful = record { distinct = tt; blocks = λ name start b n w h. absurd (none≢some h) }

pub empty-Room : Room peers 0 20 empty
unfolding read_value
empty-Room bs b l h found = absurd (none≢some found)

empty-Keeps : Keeps empty
unfolding read_value
empty-Keeps = (
  record {
    distinct = tt;
    no_twice = tt;
    same_keys = λ k. refl;
    nodes = λ k b found. absurd (none≢some found);
  },
  omega arith,
)

insert-IsFaithful_example :
    (c' : Cache) × (insert zeros peers 10 20 3 sent empty ≡ some c') × IsFaithful content c'
insert-IsFaithful_example =
    insert-IsFaithful content zeros peers 10 20 sent (omega arith) (omega arith)
      (λ p l h. omega arith) 3 empty (omega arith) refl empty-IsFaithful empty-Room

insert-read_example :
    (c' : Cache) × (r : ReadState) × (insert zeros peers 10 20 3 sent empty ≡ some c')
    × (read peers 10 20 3 zeros c' ≡ some r)
    × (r.readlen ≡ 10)
    × ((i : ℕ) → i < 10 → r.buf i ≡ sent i)
    × ((i : ℕ) → 10 ≤ i → r.buf i ≡ zeros i)
insert-read_example =
    insert-read content zeros peers 10 20 sent zeros empty 3 (omega arith) refl (omega arith)
      (omega arith) (omega arith) (λ p l h. omega arith) empty-IsFaithful empty-Keeps empty-Room

pub one_block-IsFaithful : IsFaithful content one_block
one_block-IsFaithful =
    let (c', e, f) =
      insert-IsFaithful content zeros peers 10 20 sent (omega arith) (omega arith)
        (λ p l h. omega arith) 3 empty (omega arith) refl empty-IsFaithful empty-Room in
    subst (IsFaithful content) (sym (ap (cache_of empty) e)) f

pub one_block-key_len : 2 ≡ one_block.key_len - 4
unfolding insert insert_loop insert_block add_block link_block write_block read_value
one_block-key_len = refl

one_block-returned : insert zeros peers 10 20 3 sent empty ≡ some one_block
one_block-returned =
    let (c', e, f) =
      insert-IsFaithful content zeros peers 10 20 sent (omega arith) (omega arith)
        (λ p l h. omega arith) 3 empty (omega arith) refl empty-IsFaithful empty-Room in
    e ∙ ap some (sym (ap (cache_of empty) e))

one_block-read :
    read peers 5 15 3 zeros one_block ≡ some (read_state (read peers 5 15 3 zeros one_block))
one_block-read =
    let (r, pos, e, u) =
      read-ReadUpTo content peers 5 15 one_block zeros one_block-key_len one_block-IsFaithful
        (omega arith) (omega arith) 3 (omega arith) in
    e ∙ ap some (sym (ap read_state e))

one_block-Keeps : Keeps one_block
one_block-Keeps =
    let (c', e, f) =
      insert-IsFaithful content zeros peers 10 20 sent (omega arith) (omega arith)
        (λ p l h. omega arith) 3 empty (omega arith) refl empty-IsFaithful empty-Room in
    subst Keeps (sym (ap (cache_of empty) e))
      (insert-Keeps zeros peers 10 20 sent 3 empty c' e empty-Keeps)

read-ReadUpTo_example :
    (r : ReadState) × (pos : ℕ) × (read peers 5 15 3 zeros one_block ≡ some r)
    × ReadUpTo content peers 5 15 one_block zeros one_block-key_len one_block-IsFaithful
        (omega arith)
        (omega arith)
        pos
        r
read-ReadUpTo_example =
    read-ReadUpTo content peers 5 15 one_block zeros one_block-key_len one_block-IsFaithful
      (omega arith) (omega arith) 3 (omega arith)

insert-Keeps_example : Keeps one_block
insert-Keeps_example =
    insert-Keeps zeros peers 10 20 sent 3 empty one_block one_block-returned empty-Keeps

read-Keeps_example : Keeps (read_state (read peers 5 15 3 zeros one_block)).cache
read-Keeps_example =
    read-Keeps peers 5 15 3 zeros one_block (read_state (read peers 5 15 3 zeros one_block))
      one_block-read one_block-Keeps

name_seq_to_key-injective_example : (peers ≡ peers) × ◌≡◌ {A = ℕ} 4096 4096
name_seq_to_key-injective_example =
    name_seq_to_key-injective empty peers peers 4096 4096 refl refl (omega arith) (omega arith) refl

abbrev two_ranges : List Range
two_ranges = (10, 20) ∷ (0, 0) ∷ (30, 40) ∷ (0, 0) ∷ []

put_range-covers_example :
    (q : Put) × (put_range 15 30 two_ranges 7 ≡ some q)
    × (q.overflow ≡ false
        → Ordered q.ranges
          × ((p : ℕ) → covers p q.ranges ≡ (within 15 30 p || covers p two_ranges)))
put_range-covers_example = put_range-covers 15 30 7 two_ranges (omega arith) (ground arith)

find_end-put_range_example :
    (q : Put) × (put_range 15 30 two_ranges 7 ≡ some q)
    × (q.overflow ≡ false
        → (find_end 15 30 q.ranges ≡ 30)
          × Ordered q.ranges
          × ((p : ℕ) → covers p q.ranges ≡ (within 15 30 p || covers p two_ranges)))
find_end-put_range_example = find_end-put_range 15 30 7 two_ranges (omega arith) (ground arith)

find_end-Finds_example : Finds 12 35 two_ranges (find_end 12 35 two_ranges)
find_end-Finds_example = find_end-Finds 12 35 two_ranges (omega arith)

abbrev put : Option Put → Put
put none = record { ranges = []; last_pos = 0; overflow = true }
put (some q) = q

two_ranges-put : put_range 15 30 two_ranges 7 ≡ some (put (put_range 15 30 two_ranges 7))
unfolding put_range scan
two_ranges-put = refl

put_range-room_example : (put (put_range 15 30 two_ranges 7)).overflow ≡ false
put_range-room_example =
    put_range-room 15 30 7 two_ranges (put (put_range 15 30 two_ranges 7)) two_ranges-put
      (ground arith)

-- A block whose table is full: 100 ranges of one byte.
abbrev full : List Range
full = replicate 100 (200, 201)

abbrev full_block : Block
full_block = record {
  data_ptr = zeros;
  ranges = full;
  last_pos = 0;
  node_iter = 1 ∷ 2 ∷ 0 ∷ 0 ∷ 0 ∷ 0 ∷ [];
}

abbrev full_cache : Cache
full_cache = record {
  key_len = 6;
  data_map = (1 ∷ 2 ∷ 0 ∷ 0 ∷ 0 ∷ 0 ∷ [], full_block) ∷ [];
  lru_list = (1 ∷ 2 ∷ 0 ∷ 0 ∷ 0 ∷ 0 ∷ []) ∷ [];
}

full_cache-found :
    read_value (name_seq_to_key full_cache peers (first_block 10)) full_cache.data_map
    ≡ some full_block
unfolding read_value name_seq_to_key eq_bytes mem_eq encode32u
full_cache-found = refl

full-apart : scan (write_from 10 (first_block 10)) (write_to 20 (first_block 10)) full ≡ no_union
unfolding scan
full-apart = refl

insert-full_example :
    (b' : Block) × (insert zeros peers 10 20 3 sent full_cache
      ≡ some (write_block (name_seq_to_key full_cache peers 0) b' full_cache))
    × (b'.data_ptr ≡ zeros)
    × ((p : ℕ) → 10 ≤ p → p < 20 → covers p b'.ranges ≡ true)
insert-full_example =
    insert-full zeros peers 10 20 2 sent full_cache full_block (omega arith) full_cache-found refl
      refl full-apart
