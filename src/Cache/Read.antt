-- ===== src/Cache/Read.antt =====
-- cache.cpp, `Cache::read` against the streams that are cached.
use leotp.Base.{
  ℕ, zero, suc, ◌+◌, ◌-◌, ◌*◌, ◌/◌, ◌^◌, ◌≤◌, ◌<◌, ◌≡◌, refl, sym, ap, ◌∙◌, inl, inr, true, false,
  ◌&&◌, Option, none, some, List, arith, ltb, ◌==◌, if◌then◌else◌, length, add32, sub32, Bool-cases,
  Option-cases, if_cases, sub32_le, ltb→lt, lt→ltb, le→ltb, ltb→le,
}
use leotp.ByteMap.{read_value}
use leotp.Cache.Ranges.{find_end, no_end}
use leotp.Cache.Ranges.Covers.{covers}
use leotp.Cache.Ranges.Search.{Finds, find_end-Finds}
use leotp.Cache.{
  Cache, Block, Bytes, block_len, memcpy, name_seq_to_key, update_lru, ReadState, read_loop, read,
  write_from,
}
use leotp.Cache.Copy.{memcpy-inside, memcpy-outside}
use leotp.Cache.Faithful.{IsFaithful, BlockFaithful}

module _ (content : List ℕ → ℕ → ℕ) (name : List ℕ) (data_start data_end : ℕ) (c : Cache)
    (buf : Bytes) (n : length name ≡ c.key_len - 4) (f : IsFaithful content c)
    (ordered : data_start < data_end) (word : data_end + block_len ≤ 2 ^ 32) where
  -- The bytes [data_start, pos) of the stream are in the buffer, the rest of the buffer is as it
  -- was, and no block of the cache has changed.
  pub record ReadUpTo (pos : ℕ) (r : ReadState) : Type 0 where
    pub from : data_start ≤ pos
    pub to : pos ≤ data_end
    pub readlen : r.readlen ≡ pos - data_start
    pub bytes : (i : ℕ) → i < pos - data_start → r.buf i ≡ content name (data_start + i)
    pub rest : (i : ℕ) → pos - data_start ≤ i → r.buf i ≡ buf i
    pub same_map : r.cache.data_map ≡ c.data_map
    pub same_len : r.cache.key_len ≡ c.key_len

  -- The state after one block, which gave the bytes up to `re`.
  abbrev copied : ℕ → ℕ → Block → ReadState → ReadState
  copied bs re b r =
      let rs = write_from data_start bs in
      record {
        cache = update_lru b r.cache;
        readlen = add32 r.readlen (sub32 re rs);
        buf = memcpy r.buf (sub32 rs data_start) b.data_ptr (sub32 rs bs) (sub32 re rs);
      }

  copied_buf :
      (bs rs re : ℕ) (b : Block) (r : ReadState)
      → write_from data_start bs ≡ rs
      → bs ≤ rs
      → data_start ≤ rs
      → rs ≤ re
      → re ≤ data_end
      → (copied bs re b r).buf ≡ memcpy r.buf (rs - data_start) b.data_ptr (rs - bs) (re - rs)
  copied_buf bs rs re b r e h h' k l = rw (
    e,
    sub32_le rs data_start h' (omega arith),
    sub32_le rs bs h (omega arith),
    sub32_le re rs k (omega arith),
  )

  copied-bytes :
      (bs rs re : ℕ) (b : Block) (r : ReadState)
      → bs ≤ rs
      → rs < re
      → BlockFaithful content name bs b
      → ((p : ℕ) → rs ≤ p → p < re → covers p b.ranges ≡ true)
      → ReadUpTo rs r
      → (i : ℕ) → i < re - data_start
      → memcpy r.buf (rs - data_start) b.data_ptr (rs - bs) (re - rs) i
        ≡ content name (data_start + i)
  copied-bytes bs rs re b r h k g held u i below = elim (Bool-cases (ltb i (rs - data_start))) [
    | inl old ↦
        memcpy-outside r.buf b.data_ptr (rs - data_start) (rs - bs) (re - rs) i
          (inl (ltb→lt _ _ old))
        ∙ u.bytes i (ltb→lt _ _ old)
    | inr new ↦
        let above = ltb→le i (rs - data_start) new in
        let p = data_start + i in
        let from = u.from in
        let is = g.1 p (held p (omega arith) (omega arith)) in
        memcpy-inside r.buf b.data_ptr (rs - data_start) (rs - bs) (re - rs) i above (omega arith)
        ∙ ap b.data_ptr (omega arith)
        ∙ is.2
  ]

  copied-ReadUpTo :
      (bs rs re : ℕ) (b : Block) (r : ReadState)
      → write_from data_start bs ≡ rs
      → bs ≤ rs
      → rs < re
      → re ≤ data_end
      → BlockFaithful content name bs b
      → ((p : ℕ) → rs ≤ p → p < re → covers p b.ranges ≡ true)
      → ReadUpTo rs r
      → ReadUpTo re (copied bs re b r)
  unfolding update_lru
  copied-ReadUpTo bs rs re b r e h k l g held u =
      let same = copied_buf bs rs re b r e h u.from (omega arith) l in
      record {
        from = omega arith;
        to = l;
        readlen = rw (e, sub32_le re rs (omega arith) (omega arith)) (omega arith);
        bytes = λ i below.
            ap (λ (x : Bytes). x i) same ∙ copied-bytes bs rs re b r h k g held u i below;
        rest = λ i far.
            ap (λ (x : Bytes). x i) same
            ∙ memcpy-outside r.buf b.data_ptr (rs - data_start) (rs - bs) (re - rs) i
                (inr (omega (arith, u.from)))
            ∙ u.rest i (omega arith);
        same_map = u.same_map;
        same_len = u.same_len;
      }

  read_loop-done :
      (fuel bs : ℕ) (r : ReadState)
      → data_end ≤ bs
      → read_loop name data_start data_end (suc fuel) bs r ≡ some r
  unfolding read_loop
  read_loop-done fuel bs r h = rw (le→ltb bs data_end h, read_loop)

  read_loop-absent :
      (fuel bs : ℕ) (r : ReadState)
      → bs < data_end
      → read_value (name_seq_to_key r.cache name bs) r.cache.data_map ≡ none
      → read_loop name data_start data_end (suc fuel) bs r ≡ some r
  unfolding read_loop
  read_loop-absent fuel bs r h k = rw (lt→ltb bs data_end h, k, read_loop)

  read_loop-present :
      (fuel bs : ℕ) (r : ReadState) (b : Block)
      → bs < data_end
      → read_value (name_seq_to_key r.cache name bs) r.cache.data_map ≡ some b
      → read_loop name data_start data_end (suc fuel) bs r ≡ (
          let re = find_end (write_from data_start bs) data_end b.ranges in
          let r' : ReadState = copied bs re b r in
          let rest = read_loop name data_start data_end fuel (add32 bs block_len) r' in
          if re == no_end
          then some r
          else if ltb re data_end && ltb re (add32 bs block_len)
          then some r'
          else rest)
  unfolding read_loop
  read_loop-present fuel bs r b h k = rw (lt→ltb bs data_end h, k, read_loop)

  -- How a `read` ends: its state, and the position up to which it has read.
  abbrev Ends : Option ReadState → Type 0
  Ends o = (r : ReadState) × (pos : ℕ) × (o ≡ some r) × ReadUpTo pos r

  abbrev Continues : ℕ → ℕ → Type 0
  Continues bs pos = bs < data_end → pos ≡ write_from data_start bs

  block-of :
      (bs : ℕ) (b : Block) (pos : ℕ) (r : ReadState)
      → ReadUpTo pos r
      → bs < data_end
      → read_value (name_seq_to_key r.cache name bs) r.cache.data_map ≡ some b
      → BlockFaithful content name bs b
  unfolding name_seq_to_key
  block-of bs b pos r u below found =
      f.blocks name bs b n (omega arith) (rw (u.same_map, u.same_len) at found)

  -- The round at a block that holds the next byte.
  round-next :
      (fuel bs pos re : ℕ) (b : Block) (r : ReadState)
      → ReadUpTo pos r
      → pos ≡ write_from data_start bs
      → bs < data_end
      → BlockFaithful content name bs b
      → pos < re
      → re ≤ data_end
      → ((p : ℕ) → pos ≤ p → p < re → covers p b.ranges ≡ true)
      → (ReadUpTo re (copied bs re b r)
          → Continues (bs + block_len) re
          → Ends (read_loop name data_start data_end fuel (bs + block_len) (copied bs re b r)))
      → Ends (
          if ltb re data_end && ltb re (add32 bs block_len)
          then some (copied bs re b r)
          else read_loop name data_start data_end fuel (add32 bs block_len) (copied bs re b r))
  round-next fuel bs pos re b r u e below g above le held next =
      let no_wrap : add32 bs block_len ≡ bs + block_len = omega arith in
      let done = copied-ReadUpTo bs pos re b r (sym e) (ground arith) above le g held u in
      let last = g.1 (re - 1) (held (re - 1) (omega arith) (omega arith)) in
      rw no_wrap (
        if_cases Ends (ltb re data_end && ltb re (bs + block_len))
          (λ stop. (copied bs re b r, re, refl, done))
          (λ go_on. next done (λ more. continue last go_on more u.from)))
    where
      continue :
          (bs ≤ re - 1)
            × (re - 1 < bs + block_len)
            × (b.data_ptr (re - 1 - bs) ≡ content name (re - 1))
          → (ltb re data_end && ltb re (bs + block_len)) ≡ false
          → bs + block_len < data_end
          → data_start ≤ pos
          → re ≡ write_from data_start (bs + block_len)
      continue last go_on more from = ground arith

  round-present :
      (fuel bs pos re : ℕ) (b : Block) (r : ReadState)
      → ReadUpTo pos r
      → pos ≡ write_from data_start bs
      → bs < data_end
      → BlockFaithful content name bs b
      → Finds pos data_end b.ranges re
      → (ReadUpTo re (copied bs re b r)
          → Continues (bs + block_len) re
          → Ends (read_loop name data_start data_end fuel (bs + block_len) (copied bs re b r)))
      → Ends (
          if re == no_end
          then some r
          else if ltb re data_end && ltb re (add32 bs block_len)
          then some (copied bs re b r)
          else read_loop name data_start data_end fuel (add32 bs block_len) (copied bs re b r))
  round-present fuel bs pos re b r u e below g (inl (miss, _)) next =
      (r, pos, rw (missed re miss) refl, u)
    where
      missed : (x : ℕ) → x ≡ no_end → (x == no_end) ≡ true
      missed x m = ground arith
  round-present fuel bs pos re b r u e below g (inr (above, le, held)) next =
      rw (hits re (omega arith)) (round-next fuel bs pos re b r u e below g above le held next)
    where
      hits : (x : ℕ) → x < no_end → (x == no_end) ≡ false
      hits x m = ground arith

  read_loop-Ends :
      (fuel bs pos : ℕ) (r : ReadState)
      → ReadUpTo pos r
      → Continues bs pos
      → bs < data_end + block_len
      → data_end + block_len ≤ bs + fuel * block_len
      → Ends (read_loop name data_start data_end fuel bs r)
  read_loop-Ends zero bs pos r u w h e = absurd (omega arith)
  read_loop-Ends (suc fuel) bs pos r u w h e = elim (Bool-cases (ltb bs data_end)) [
    | inr done ↦ (r, pos, read_loop-done fuel bs r (ltb→le bs data_end done), u)
    | inl more ↦
        let below = ltb→lt bs data_end more in
        elim (Option-cases (read_value (name_seq_to_key r.cache name bs) r.cache.data_map)) [
          | inl absent ↦ (r, pos, read_loop-absent fuel bs r below absent, u)
          | inr (b, found) ↦
              let re = find_end (write_from data_start bs) data_end b.ranges in
              rw (read_loop-present fuel bs r b below found) (
                round-present fuel bs pos re b r u (w below) below
                  (block-of bs b pos r u below found)
                  (rw (w below)
                    (find_end-Finds (write_from data_start bs) data_end b.ranges (ground arith)))
                  (λ u' w'.
                    read_loop-Ends fuel (bs + block_len) re (copied bs re b r) u' w' (omega arith)
                      (omega arith)))
        ]
  ]

  -- A `read` of a range [data_start, data_end) that is not empty and ends at least a block below
  -- 2^32, from a faithful cache, ends within one round for each block. It has copied a first part
  -- [data_start, pos) of the stream, has returned its length, has left the rest of the buffer alone
  -- and has changed no block.
  pub read-ReadUpTo :
      (fuel : ℕ)
      → data_end / block_len + 1 < fuel
      → (r : ReadState) × (pos : ℕ) × (read name data_start data_end fuel buf c ≡ some r)
        × ReadUpTo pos r
  unfolding read
  read-ReadUpTo fuel enough =
      read_loop-Ends fuel (data_start / block_len * block_len) data_start
        (record { cache = c; readlen = 0; buf = buf })
        (record {
          from = omega arith;
          to = omega arith;
          readlen = omega arith;
          bytes = λ i h. absurd (omega arith);
          rest = λ i _. refl;
          same_map = refl;
          same_len = refl;
        })
        (λ _. ground arith) (omega arith) (omega arith)
