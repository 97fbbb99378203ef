-- ===== src/Cache/InsertBlock.antt =====
-- cache.cpp, `Cache::insert` on one block against the streams that are cached.
use leotp.Base.{
  ℕ, ◌+◌, ◌-◌, ◌^◌, ◌≤◌, ◌<◌, ◌≡◌, refl, sym, ap, ◌∙◌, ◌≢◌, ◌⊎◌, inl, inr, Bool, true, false, ◌&&◌,
  ◌||◌, none, some, List, arith, ltb, leb, length, sub32, Option-cases, sub32_le,
}
use leotp.ByteMap.{ByteArray, read_value}
use leotp.ByteMap.Laws.{Distinct, store-Distinct, read_value-store_inv}
use leotp.Cache.Ranges.{set_first}
use leotp.Cache.Ranges.Covers.{
  within, covers, Ordered, put_range-covers, set_first-covers, set_first-Ordered, no_ranges-covers,
  no_ranges-Ordered,
}
use leotp.Cache.Ranges.Room.{HasRoom, put_range-room}
use leotp.Cache.{
  Cache, Block, Bytes, block_len, name_seq_to_key, add_block, write_block, fill, write_from,
  write_to, insert_block,
}
use leotp.Cache.Keys.{name_seq_to_key-injective}
use leotp.Cache.Faithful.{
  BlockFaithful, IsFaithful, new_block, add_block-read, add_block-Distinct, add_block-key_len,
}

pub key-key_len :
    (c c' : Cache) (name : List ℕ) (start : ℕ)
    → c'.key_len ≡ c.key_len
    → name_seq_to_key c' name start ≡ name_seq_to_key c name start
unfolding name_seq_to_key
key-key_len c c' name start h = rw h

-- The `memcpy` of `insert`, at a position that it writes and at one that it does not.
fill-inside :
    (start ws we data_start : ℕ) (buf : Bytes) (b : Block) (p : ℕ)
    → start ≤ ws
    → we < 2 ^ 32
    → data_start ≤ ws
    → within ws we p ≡ true
    → fill b buf data_start start ws we (p - start) ≡ buf (p - data_start)
unfolding fill
fill-inside start ws we data_start buf b p h k l hit =
    let e : sub32 ws start ≡ ws - start = sub32_le ws start h (ground arith) in
    let e' : sub32 ws data_start ≡ ws - data_start = sub32_le ws data_start l (ground arith) in
    let e'' : sub32 we ws ≡ we - ws = sub32_le we ws (ground arith) k in
    rw (e, e', e'', copied) (ap buf (ground arith))
  where
    copied : (leb (ws - start) (p - start) && ltb (p - start) (ws - start + (we - ws))) ≡ true
    copied = ground arith

fill-outside :
    (start ws we data_start : ℕ) (buf : Bytes) (b : Block) (p : ℕ)
    → start ≤ ws
    → ws ≤ we
    → we < 2 ^ 32
    → start ≤ p
    → within ws we p ≡ false
    → fill b buf data_start start ws we (p - start) ≡ b.data_ptr (p - start)
unfolding fill
fill-outside start ws we data_start buf b p h i k l miss =
    let e : sub32 ws start ≡ ws - start = sub32_le ws start h (omega arith) in
    let e'' : sub32 we ws ≡ we - ws = sub32_le we ws i k in rw (e, e'', kept) refl
  where
    kept : (leb (ws - start) (p - start) && ltb (p - start) (ws - start + (we - ws))) ≡ false
    kept = ground arith

module _ (content : List ℕ → ℕ → ℕ) where
  -- A faithful block written under its key, among blocks that are faithful elsewhere.
  write_block-IsFaithful :
      (c : Cache) (name : List ℕ) (start : ℕ) (b : Block)
      → length name ≡ c.key_len - 4
      → start < 2 ^ 32
      → Distinct c.data_map
      → ((name' : List ℕ) (start' : ℕ) (b' : Block)
          → length name' ≡ c.key_len - 4
          → start' < 2 ^ 32
          → name_seq_to_key c name start ≢ name_seq_to_key c name' start'
          → read_value (name_seq_to_key c name' start') c.data_map ≡ some b'
          → BlockFaithful content name' start' b')
      → BlockFaithful content name start b
      → IsFaithful content (write_block (name_seq_to_key c name start) b c)
  unfolding write_block
  write_block-IsFaithful c name start b n s d others f = record {
    distinct = store-Distinct (name_seq_to_key c name start) b c.data_map d;
    blocks = λ name' start' b' n' s' h. go name' start' b' n' s' (
        read_value-store_inv (name_seq_to_key c name start) (name_seq_to_key c name' start') b b'
          c.data_map
          (rw (key-key_len c (write_block (name_seq_to_key c name start) b c) name' start' refl) at
            h));
  }
    where
      go :
          (name' : List ℕ) (start' : ℕ) (b' : Block)
          → length name' ≡ c.key_len - 4
          → start' < 2 ^ 32
          → ((name_seq_to_key c name start ≡ name_seq_to_key c name' start') × (b' ≡ b))
            ⊎ ((name_seq_to_key c name start ≢ name_seq_to_key c name' start')
                × (read_value (name_seq_to_key c name' start') c.data_map ≡ some b'))
          → BlockFaithful content name' start' b'
      go name' start' b' n' s' (inl (same, e)) =
          let both = name_seq_to_key-injective c name name' start start' n n' s s' same in
          rw (e, ← both.0, ← both.1) f
      go name' start' b' n' s' (inr (other, found)) = others name' start' b' n' s' other found

  -- The bytes that `insert` copies into a block are the stream's, and it leaves the others.
  fill-BlockFaithful :
      (name : List ℕ) (start ws we data_start : ℕ) (buf : Bytes) (b b' : Block)
      → start ≤ ws
      → ws ≤ we
      → we ≤ start + block_len
      → we < 2 ^ 32
      → data_start ≤ ws
      → ((p : ℕ) → ws ≤ p → p < we → buf (p - data_start) ≡ content name p)
      → BlockFaithful content name start b
      → Ordered b'.ranges
      → ((p : ℕ) → covers p b'.ranges ≡ (within ws we p || covers p b.ranges))
      → BlockFaithful content name start
          (record b' { data_ptr = fill b buf data_start start ws we })
  fill-BlockFaithful name start ws we data_start buf b b' h1 h2 h3 h4 h5 agree f o same =
      (o, λ p h. held p h (within ws we p) refl)
    where
      held :
          (p : ℕ)
          → covers p b'.ranges ≡ true
          → (x : Bool) → within ws we p ≡ x
          → (start ≤ p)
            × (p < start + block_len)
            × (fill b buf data_start start ws we (p - start) ≡ content name p)
      held p h true new = (
        ground arith,
        ground arith,
        fill-inside start ws we data_start buf b p h1 h4 h5 new
            ∙ agree p (ground arith) (ground arith),
      )
      held p h false old =
          let was = f.1 p (ground (arith, same p)) in
          (was.0, was.1, fill-outside start ws we data_start buf b p h1 h2 h4 was.0 old ∙ was.2)

  module _ (fresh : Bytes) (name : List ℕ) (data_start data_end : ℕ) (buf : Bytes) (bs : ℕ)
      (c : Cache) (n : length name ≡ c.key_len - 4) (fits : bs + block_len < 2 ^ 32)
      (reaches : data_start < bs + block_len) (ordered : data_start ≤ data_end)
      (goes_on : bs < data_end) (word : data_end < 2 ^ 32)
      (agree : (p : ℕ) → data_start ≤ p → p < data_end → buf (p - data_start) ≡ content name p)
      (f : IsFaithful content c) where
    ws : ℕ
    ws = write_from data_start bs

    we : ℕ
    we = write_to data_end bs

    key : ByteArray
    key = name_seq_to_key c name bs

    part_bounds :
        (bs ≤ ws)
        × (ws ≤ we)
        × (we ≤ bs + block_len)
        × (we < 2 ^ 32)
        × (data_start ≤ ws)
        × (we ≤ data_end)
    unfolding ws we
    part_bounds = ground arith

    filled_block : Block → Block → Block
    filled_block b b' = record b' { data_ptr = fill b buf data_start bs ws we }

    filled-faithful :
        (b b' : Block)
        → BlockFaithful content name bs b
        → Ordered b'.ranges
        → ((p : ℕ) → covers p b'.ranges ≡ (within ws we p || covers p b.ranges))
        → BlockFaithful content name bs (filled_block b b')
    unfolding filled_block
    filled-faithful b b' g o same =
        let bounds = part_bounds in
        fill-BlockFaithful name bs ws we data_start buf b b' bounds.0 bounds.1 bounds.2 bounds.3
          bounds.4 (λ p h k. agree p (omega arith) (omega arith)) g o same

    -- What one round of the loop of `insert` leaves: a faithful cache, in which no block but its
    -- own is new or changed.
    abbrev Inserted : Cache → Type 0
    Inserted c' =
        IsFaithful content c'
        × (c'.key_len ≡ c.key_len)
        × ((k : ByteArray) (b : Block)
            → key ≢ k
            → read_value k c'.data_map ≡ some b
            → read_value k c.data_map ≡ some b)

    written : Block → Cache → Cache
    written b c1 = write_block key b c1

    written-Inserted :
        (c1 : Cache) (b : Block)
        → c1.key_len ≡ c.key_len
        → Distinct c1.data_map
        → ((k : ByteArray) (b' : Block)
            → key ≢ k
            → read_value k c1.data_map ≡ some b'
            → read_value k c.data_map ≡ some b')
        → BlockFaithful content name bs b
        → Inserted (written b c1)
    unfolding written key write_block
    written-Inserted c1 b len d old g = (
      rw (key-key_len c c1 name bs len) at (
          write_block-IsFaithful c1 name bs b (rw len n) (omega arith) d
            (λ name' start' b' n' s' other found. f.blocks name' start' b' (rw len at n') s' (
              old (name_seq_to_key c name' start') b'
                (λ e.
                  other
                    (key-key_len c c1 name bs len ∙ e ∙ sym (key-key_len c c1 name' start' len)))
                (rw (key-key_len c c1 name' start' len) at found)))
            g),
      len,
      λ k b' other found. elim (read_value-store_inv key k b b' c1.data_map found) [
        | inl (same, _) ↦ absurd (other same)
        | inr (_, kept) ↦ old k b' other kept
      ],
    )

    insert_block-fresh :
        read_value key c.data_map ≡ none
        → (c' : Cache) × (insert_block fresh name data_start data_end buf bs c ≡ some (c', false))
          × Inserted c'
    unfolding insert_block key ws we written filled_block fill
    insert_block-fresh absent =
        let b = new_block fresh key in
        let b' : Block = record b { ranges = set_first (ws, we) b.ranges } in
        let bounds = part_bounds in
        (
          written (filled_block b' b') (add_block fresh key c),
          rw (absent, insert_block),
          written-Inserted (add_block fresh key c) (filled_block b' b')
              (add_block-key_len fresh key c) (add_block-Distinct fresh key c f.distinct)
              (λ k x other found. elim (add_block-read fresh key k x c f.distinct absent found) [
                | inl (same, _) ↦ absurd (other same)
                | inr old ↦ old
              ])
              (filled-faithful b b'
                (no_ranges-Ordered, λ p h. absurd (ground (arith, no_ranges-covers p)))
                (set_first-Ordered ws we bounds.1) (set_first-covers ws we)),
        )

    insert_block-present :
        (b : Block)
        → read_value key c.data_map ≡ some b
        → HasRoom b.ranges
        → (c' : Cache) × (insert_block fresh name data_start data_end buf bs c ≡ some (c', false))
          × Inserted c'
    unfolding insert_block key ws we written filled_block fill
    insert_block-present b found room =
        let bounds = part_bounds in
        let g = f.blocks name bs b n (omega arith) found in
        let (q, puts, holds) = put_range-covers ws we b.last_pos b.ranges bounds.1 g.0 in
        let clear = put_range-room ws we b.last_pos b.ranges q puts room in
        let b' : Block = record b { ranges = q.ranges; last_pos = q.last_pos } in
        (
          written (filled_block b b') c,
          rw (found, puts, clear, insert_block),
          written-Inserted c (filled_block b b') refl f.distinct (λ k x _ old. old)
              (filled-faithful b b' g (holds clear).0 (holds clear).1),
        )

    -- The part of `insert` for one block keeps the cache faithful, unless the table is full.
    pub insert_block-Inserted :
        ((b : Block)
          → read_value (name_seq_to_key c name bs) c.data_map ≡ some b
          → HasRoom b.ranges)
        → (c' : Cache) × (insert_block fresh name data_start data_end buf bs c ≡ some (c', false))
          × IsFaithful content c'
          × (c'.key_len ≡ c.key_len)
          × ((k : ByteArray) (b : Block)
              → name_seq_to_key c name bs ≢ k
              → read_value k c'.data_map ≡ some b
              → read_value k c.data_map ≡ some b)
    unfolding key
    insert_block-Inserted room = elim (Option-cases (read_value key c.data_map)) [
      | inl absent ↦ let r = insert_block-fresh absent in (r.0, r.1, r.2.0, r.2.1, r.2.2)
      | inr (b, found) ↦
          let r = insert_block-present b found (room b found) in (r.0, r.1, r.2.0, r.2.1, r.2.2)
    ]
