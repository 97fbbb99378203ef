-- ===== src/Cache/Faithful.antt =====
-- cache.cpp: a cache is faithful to the streams that it caches.
use leotp.Base.{
  ℕ, ◌+◌, ◌-◌, ◌^◌, ◌≤◌, ◌<◌, ◌≡◌, refl, ◌⊎◌, true, none, some, List, [], ◌∷◌, arith, length,
}
use leotp.ByteMap.{ByteArray, read_value}
use leotp.ByteMap.Laws.{
  eq_bytes_iff, read_value-set_value, Distinct, read_value-erase, set_value-Distinct,
  erase-Distinct,
}
use leotp.Cache.Ranges.{no_ranges}
use leotp.Cache.Ranges.Covers.{covers, Ordered}
use leotp.Cache.{
  Cache, Block, Bytes, block_len, name_seq_to_key, drop_oldest, link_block, add_block,
}

module _ (content : List ℕ → ℕ → ℕ) where
  -- What a block at `start` of the stream `name` holds is the stream's, at its place in the block.
  abbrev pub BlockFaithful : List ℕ → ℕ → Block → Type 0
  BlockFaithful name start b =
      Ordered b.ranges
      × ((p : ℕ)
          → covers p b.ranges ≡ true
          → (start ≤ p) × (p < start + block_len) × (b.data_ptr (p - start) ≡ content name p))

  pub record IsFaithful (c : Cache) : Type 0 where
    pub distinct : Distinct c.data_map
    pub blocks :
        (name : List ℕ) (start : ℕ) (b : Block)
        → length name ≡ c.key_len - 4
        → start < 2 ^ 32
        → read_value (name_seq_to_key c name start) c.data_map ≡ some b
        → BlockFaithful name start b

-- Evictions only remove blocks.
drop_oldest-read :
    (l : List ByteArray) (k : ByteArray) (b : Block) (c : Cache)
    → Distinct c.data_map
    → read_value k (drop_oldest l c).data_map ≡ some b
    → read_value k c.data_map ≡ some b
unfolding drop_oldest
drop_oldest-read [] k b c d h = h
drop_oldest-read (j ∷ l) k b c d h = ground (arith, read_value-erase j k c.data_map d)

drop_oldest-Distinct :
    (l : List ByteArray) (c : Cache) → Distinct c.data_map → Distinct (drop_oldest l c).data_map
unfolding drop_oldest
drop_oldest-Distinct [] c d = d
drop_oldest-Distinct (j ∷ l) c d = erase-Distinct j c.data_map d

drop_oldest-key_len : (l : List ByteArray) (c : Cache) → (drop_oldest l c).key_len ≡ c.key_len
unfolding drop_oldest
drop_oldest-key_len [] c = refl
drop_oldest-key_len (j ∷ l) c = refl

-- The block that `addBlock` makes.
abbrev pub new_block : Bytes → ByteArray → Block
new_block fresh key = record {
  data_ptr = fresh;
  ranges = no_ranges;
  last_pos = 2 ^ 32 - 1;
  node_iter = key;
}

link_block-read :
    (fresh : Bytes) (key k : ByteArray) (b : Block) (c : Cache)
    → read_value key c.data_map ≡ none
    → read_value k (link_block fresh key c).data_map ≡ some b
    → ((key ≡ k) × (b ≡ new_block fresh key)) ⊎ (read_value k c.data_map ≡ some b)
unfolding link_block
link_block-read fresh key k b c free h =
    ground
      (arith, read_value-set_value key k (new_block fresh key) c.data_map free, eq_bytes_iff key k)

link_block-Distinct :
    (fresh : Bytes) (key : ByteArray) (c : Cache)
    → Distinct c.data_map
    → Distinct (link_block fresh key c).data_map
unfolding link_block
link_block-Distinct fresh key c d = set_value-Distinct key (new_block fresh key) c.data_map d

pub add_block-read :
    (fresh : Bytes) (key k : ByteArray) (b : Block) (c : Cache)
    → Distinct c.data_map
    → read_value key c.data_map ≡ none
    → read_value k (add_block fresh key c).data_map ≡ some b
    → ((key ≡ k) × (b ≡ new_block fresh key)) ⊎ (read_value k c.data_map ≡ some b)
unfolding add_block
add_block-read fresh key k b c d free h = link_block-read fresh key k b c free (
    ground (
      arith,
      drop_oldest-read (link_block fresh key c).lru_list k b (link_block fresh key c)
          (link_block-Distinct fresh key c d),
    ))

pub add_block-Distinct :
    (fresh : Bytes) (key : ByteArray) (c : Cache)
    → Distinct c.data_map
    → Distinct (add_block fresh key c).data_map
unfolding add_block
add_block-Distinct fresh key c d = ground (
  arith,
  link_block-Distinct fresh key c d,
  drop_oldest-Distinct (link_block fresh key c).lru_list (link_block fresh key c)
      (link_block-Distinct fresh key c d),
)

pub add_block-key_len :
    (fresh : Bytes) (key : ByteArray) (c : Cache) → (add_block fresh key c).key_len ≡ c.key_len
unfolding add_block link_block
add_block-key_len fresh key c =
    ground (arith, drop_oldest-key_len (link_block fresh key c).lru_list (link_block fresh key c))
