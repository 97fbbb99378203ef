-- ===== src/Cache/Lru.antt =====
-- cache.cpp, the LRU list against the map of the blocks.
pub mod Moves
use leotp.Base.{
  ℕ, zero, suc, ◌+◌, ◌-◌, ◌^◌, ◌≤◌, ◌<◌, ◌≡◌, refl, sym, ap, ◌∙◌, ◌⊎◌, inl, inr, Bool, true, false,
  ◌&&◌, Option, none, some, List, [], ◌∷◌, arith, ltb, ◌==◌, length, length-append, add32,
  Bool-cases, Option-cases, if_cases, ltb→lt, ltb→le,
}
use mathlib.Core.Option.{some-injective}
use leotp.ByteMap.{ByteArray, ByteMap, read_value, store}
use leotp.ByteMap.Laws.{
  eq_bytes_iff, read_value-set_value, Distinct, read_value-erase, set_value-Distinct,
  store-Distinct, erase-Distinct, read_value-store_inv, read_value-store, store_absent,
}
use leotp.Cache.Ranges.{find_end, no_end, put_range, no_ranges, Put}
use leotp.Cache.{
  Cache, Block, Bytes, max_block_num, block_len, add_block, link_block, drop_oldest, update_lru,
  write_block, insert_block, insert_loop, insert, name_seq_to_key, write_from, write_to, ReadState,
  read_loop, read, unlink, first_block, new_cache,
}
use leotp.Cache.Nodes.{
  mem, NoTwice, mem-snoc, NoTwice-snoc, mem-unlink, NoTwice-unlink, length-unlink,
}
use leotp.Cache.Lru.Moves.{
  IsLinked, IsBounded, write_block-IsLinked, update_lru-IsLinked, add_block-IsLinked,
}

abbrev pub Keeps : Cache → Type 0
Keeps c = IsLinked c × IsBounded c

-- A returned cache is the one that was built.
returned : {c d : Cache} → some c ≡ some d → Keeps c → Keeps d
returned h v = rw (some-injective _ _ h) at v

returned_with :
    {c d : Cache} {x y : Bool}
    → ◌≡◌ {A = Option (Cache × Bool)} (some (c, x)) (some (d, y))
    → Keeps c
    → Keeps d
returned_with h v = rw (ap (λ (p : Cache × Bool). p.0) (some-injective _ _ h)) at v

ended : {r s : ReadState} → some r ≡ some s → Keeps r.cache → Keeps s.cache
ended h v = rw (some-injective _ _ h) at v

write_block-Keeps :
    (key : ByteArray) (b : Block) (c : Cache)
    → b.node_iter ≡ key
    → Keeps c
    → Keeps (write_block key b c)
write_block-Keeps key b c e v = (write_block-IsLinked key b c e v.0, unfold write_block in v.1)

module _ (fresh : Bytes) (name : List ℕ) (data_start data_end : ℕ) (buf : Bytes) where
  insert_block-Keeps :
      (bs : ℕ) (c c' : Cache) (overflow : Bool)
      → insert_block fresh name data_start data_end buf bs c ≡ some (c', overflow)
      → Keeps c
      → Keeps c'
  unfolding insert_block
  insert_block-Keeps bs c c' overflow h v =
      elim (Option-cases (read_value (name_seq_to_key c name bs) c.data_map)) [
        | inl absent ↦ returned_with (rw (absent, insert_block) at h) (
            write_block-Keeps (name_seq_to_key c name bs) _
              (add_block fresh (name_seq_to_key c name bs) c) refl
              (add_block-IsLinked fresh (name_seq_to_key c name bs) c absent v.0 v.1))
        | inr (b, found) ↦ present b found (
            Option-cases
              (put_range (write_from data_start bs) (write_to data_end bs) b.ranges b.last_pos))
      ]
    where
      present :
          (b : Block)
          → read_value (name_seq_to_key c name bs) c.data_map ≡ some b
          → (put_range (write_from data_start bs) (write_to data_end bs) b.ranges b.last_pos ≡ none)
            ⊎ ((q : Put) × (put_range
                    (write_from data_start bs)
                    (write_to data_end bs)
                    b.ranges
                    b.last_pos
                  ≡ some q))
          → Keeps c'
      present b found (inl out) = absurd (ground (arith, found, out))
      present b found (inr (q, puts)) = elim (Bool-cases q.overflow) [
        | inl over ↦
            returned_with (rw (found, puts, over, insert_block) at h)
              (write_block-Keeps (name_seq_to_key c name bs) _ c (v.0.nodes _ b found) v)
        | inr fits ↦
            returned_with (rw (found, puts, fits, insert_block) at h)
              (write_block-Keeps (name_seq_to_key c name bs) _ c (v.0.nodes _ b found) v)
      ]

  insert_loop-Keeps :
      (fuel bs : ℕ) (c c' : Cache)
      → insert_loop fresh name data_start data_end fuel buf bs c ≡ some c'
      → Keeps c
      → Keeps c'
  unfolding insert_loop
  insert_loop-Keeps zero bs c c' h v = absurd (ground arith)
  insert_loop-Keeps (suc fuel) bs c c' h v = elim (Bool-cases (ltb bs data_end)) [
    | inr done ↦ returned (rw (done, insert_loop) at h) v
    | inl more ↦
        round more (Option-cases (insert_block fresh name data_start data_end buf bs c))
          (insert_loop-Keeps fuel (add32 bs block_len))
  ]
    where
      round :
          ltb bs data_end ≡ true
          → (insert_block fresh name data_start data_end buf bs c ≡ none)
            ⊎ ((r : Cache × Bool) × (insert_block fresh name data_start data_end buf bs c ≡ some r))
          → ((c1 c2 : Cache)
              → insert_loop fresh name data_start data_end fuel buf (add32 bs block_len) c1
                ≡ some c2
              → Keeps c1
              → Keeps c2)
          → Keeps c'
      round more (inl out) ih = absurd (ground (arith, more, out, h))
      round more (inr ((c1, overflow), e)) ih =
          let v1 = insert_block-Keeps bs c c1 overflow e v in
          elim (Bool-cases overflow) [
            | inl over ↦ returned (rw (more, e, over, insert_loop) at h) v1
            | inr fits ↦ ih c1 c' (rw (more, e, fits, insert_loop) at h) v1
          ]

  -- Every `insert` that returns keeps the list of nodes and the map in step, and the number of
  -- blocks within MAX_BLOCK_NUM, also when it evicts and when a table overflows.
  pub insert-Keeps :
      (fuel : ℕ) (c c' : Cache)
      → insert fresh name data_start data_end fuel buf c ≡ some c'
      → Keeps c
      → Keeps c'
  unfolding insert
  insert-Keeps fuel c c' h v = insert_loop-Keeps fuel (first_block data_start) c c' h v

module _ (name : List ℕ) (data_start data_end : ℕ) where
  read_loop-Keeps :
      (fuel bs : ℕ) (r r' : ReadState)
      → read_loop name data_start data_end fuel bs r ≡ some r'
      → Keeps r.cache
      → Keeps r'.cache
  unfolding read_loop
  read_loop-Keeps zero bs r r' h v = absurd (ground arith)
  read_loop-Keeps (suc fuel) bs r r' h v =
      round (Bool-cases (ltb bs data_end))
        (Option-cases (read_value (name_seq_to_key r.cache name bs) r.cache.data_map))
        (read_loop-Keeps fuel (add32 bs block_len))
    where
      round :
          (ltb bs data_end ≡ true) ⊎ (ltb bs data_end ≡ false)
          → (read_value (name_seq_to_key r.cache name bs) r.cache.data_map ≡ none)
            ⊎ ((b : Block) × (read_value (name_seq_to_key r.cache name bs) r.cache.data_map
                  ≡ some b))
          → ((s s' : ReadState)
              → read_loop name data_start data_end fuel (add32 bs block_len) s ≡ some s'
              → Keeps s.cache
              → Keeps s'.cache)
          → Keeps r'.cache
      round (inr done) k ih = ended (rw (done, read_loop) at h) v
      round (inl more) (inl absent) ih = ended (rw (more, absent, read_loop) at h) v
      round (inl more) (inr (b, found)) ih =
          let moved = update_lru-IsLinked (name_seq_to_key r.cache name bs) b r.cache found v.0 in
          let v1 : Keeps (update_lru b r.cache) = (moved.0, omega (arith, moved.1, v.1)) in
          let re = find_end (write_from data_start bs) data_end b.ranges in
          elim (Bool-cases (re == no_end)) [
            | inl miss ↦ ended (rw (more, found, miss, read_loop) at h) v
            | inr hit ↦ elim (Bool-cases (ltb re data_end && ltb re (add32 bs block_len))) [
              | inl stop ↦ ended (rw (more, found, hit, stop, read_loop) at h) v1
              | inr on ↦ ih _ r' (rw (more, found, hit, on, read_loop) at h) v1
            ]
          ]

  -- Every `read` that returns keeps the list of nodes and the map in step, and the number of blocks
  -- within MAX_BLOCK_NUM.
  pub read-Keeps :
      (fuel : ℕ) (buf : Bytes) (c : Cache) (r : ReadState)
      → read name data_start data_end fuel buf c ≡ some r
      → Keeps c
      → Keeps r.cache
  unfolding read
  read-Keeps fuel buf c r h v = read_loop-Keeps fuel (first_block data_start) _ r h v

-- A new cache is in this state.
pub new_cache-Keeps : (name_len : ℕ) → Keeps (new_cache name_len)
unfolding new_cache read_value
new_cache-Keeps name_len = (
  record {
    distinct = tt;
    no_twice = tt;
    same_keys = λ k. refl;
    nodes = λ k b h. absurd (ground arith);
  },
  omega arith,
)
