-- ===== src/Cache/Lru/Moves.antt =====
-- cache.cpp: the list of nodes and the map through addBlock, dropBlock, updateLRU and the writes.
use leotp.Base.{
  ◌+◌, ◌-◌, ◌^◌, ◌≤◌, ◌<◌, ◌≡◌, refl, sym, ◌∙◌, inl, inr, Bool, true, false, none, some, List, [],
  ◌∷◌, arith, ltb, length, length-append, Option-cases, if_cases, ltb→lt, ltb→le,
}
use leotp.ByteMap.{ByteArray, ByteMap, read_value, store}
use leotp.ByteMap.Laws.{
  eq_bytes_iff, read_value-set_value, Distinct, read_value-erase, set_value-Distinct,
  store-Distinct, erase-Distinct, read_value-store_inv, read_value-store, store_absent,
}
use leotp.Cache.Ranges.{no_ranges}
use leotp.Cache.{
  Cache, Block, Bytes, max_block_num, add_block, link_block, drop_oldest, update_lru, write_block,
  unlink,
}
use leotp.Cache.Nodes.{
  mem, NoTwice, mem-snoc, NoTwice-snoc, mem-unlink, NoTwice-unlink, length-unlink,
}

abbrev pub holds : ByteArray → ByteMap Block → Bool
holds k m = elim (read_value k m) [ none ↦ false | some _ ↦ true ]

-- The list and the map but for the length of the list.
pub record IsLinked (c : Cache) : Type 0 where
  pub distinct : Distinct c.data_map
  pub no_twice : NoTwice c.lru_list
  pub same_keys : (k : ByteArray) → mem k c.lru_list ≡ holds k c.data_map
  pub nodes : (k : ByteArray) (b : Block) → read_value k c.data_map ≡ some b → b.node_iter ≡ k

abbrev pub IsBounded : Cache → Type 0
IsBounded c = length c.lru_list ≤ max_block_num

link_block-IsLinked :
    (fresh : Bytes) (key : ByteArray) (c : Cache)
    → read_value key c.data_map ≡ none
    → IsLinked c
    → IsLinked (link_block fresh key c)
unfolding link_block
link_block-IsLinked fresh key c free v = record {
  distinct = set_value-Distinct key (_) c.data_map v.distinct;
  no_twice = NoTwice-snoc key c.lru_list (ground (arith, v.same_keys key)) v.no_twice;
  same_keys = λ k. ground (
    arith,
    mem-snoc k key c.lru_list,
    v.same_keys k,
    read_value-set_value key k
        (record { data_ptr = fresh; ranges = no_ranges; last_pos = 2 ^ 32 - 1; node_iter = key })
        c.data_map free,
  );
  nodes = λ k b found. ground (
    arith,
    v.nodes k b,
    eq_bytes_iff key k,
    read_value-set_value key k
        (record { data_ptr = fresh; ranges = no_ranges; last_pos = 2 ^ 32 - 1; node_iter = key })
        c.data_map free,
  );
}

length-link :
    (fresh : Bytes) (key : ByteArray) (c : Cache)
    → length (link_block fresh key c).lru_list ≡ length c.lru_list + 1
unfolding link_block
length-link fresh key c = omega (arith, length-append {0} c.lru_list (key ∷ []))

drop_oldest-IsLinked : (l : List ByteArray) (c : Cache) → IsLinked c → IsLinked (drop_oldest l c)
unfolding drop_oldest
drop_oldest-IsLinked [] c v = v
drop_oldest-IsLinked (j ∷ l) c v = record {
  distinct = erase-Distinct j c.data_map v.distinct;
  no_twice = NoTwice-unlink j c.lru_list v.no_twice;
  same_keys = λ k. ground (
    arith,
    v.same_keys k,
    mem-unlink k j c.lru_list v.no_twice,
    read_value-erase j k c.data_map v.distinct,
  );
  nodes = λ k b found. ground (arith, v.nodes k b, read_value-erase j k c.data_map v.distinct);
}

drop_oldest-length :
    (l : List ByteArray) (c : Cache)
    → l ≡ c.lru_list
    → 0 < length l
    → length (drop_oldest l c).lru_list + 1 ≡ length l
unfolding drop_oldest
drop_oldest-length [] c e h = absurd (omega arith)
drop_oldest-length (j ∷ l) c e h =
    rw (← e) (length-unlink j (j ∷ l) (ground (arith, eq_bytes_iff j j)))

holds-store :
    (key k : ByteArray) (b : Block) (m : ByteMap Block) → holds k (store key b m) ≡ holds k m
holds-store key k b m = elim (Option-cases (read_value key m)) [
  | inl absent ↦ rw (store_absent key b m absent)
  | inr (x, found) ↦ ground (arith, eq_bytes_iff key k, read_value-store key k b x m found)
]

pub write_block-IsLinked :
    (key : ByteArray) (b : Block) (c : Cache)
    → b.node_iter ≡ key
    → IsLinked c
    → IsLinked (write_block key b c)
unfolding write_block
write_block-IsLinked key b c e v = record {
  distinct = store-Distinct key b c.data_map v.distinct;
  no_twice = v.no_twice;
  same_keys = λ k. v.same_keys k ∙ sym (holds-store key k b c.data_map);
  nodes = λ k x found. elim (read_value-store_inv key k b x c.data_map found) [
    | inl (same, eq) ↦ cc
    | inr (_, old) ↦ v.nodes k x old
  ];
}

pub update_lru-IsLinked :
    (k : ByteArray) (b : Block) (c : Cache)
    → read_value k c.data_map ≡ some b
    → IsLinked c
    → IsLinked (update_lru b c) × (length (update_lru b c).lru_list ≡ length c.lru_list)
unfolding update_lru
update_lru-IsLinked k b c found v =
    let here : mem b.node_iter c.lru_list ≡ true =
      rw (v.nodes k b found) (ground (arith, v.same_keys k)) in
    (
      record {
        distinct = v.distinct;
        no_twice =
            NoTwice-snoc b.node_iter (unlink b.node_iter c.lru_list)
              (ground (
                arith,
                eq_bytes_iff b.node_iter b.node_iter,
                mem-unlink b.node_iter b.node_iter c.lru_list v.no_twice,
              ))
              (NoTwice-unlink b.node_iter c.lru_list v.no_twice);
        same_keys = λ j. ground (
          arith,
          here,
          eq_bytes_iff b.node_iter j,
          mem-snoc j b.node_iter (unlink b.node_iter c.lru_list),
          mem-unlink j b.node_iter c.lru_list v.no_twice,
          v.same_keys j,
        );
        nodes = v.nodes;
      },
      omega (
        arith,
        length-unlink b.node_iter c.lru_list here,
        length-append {0} (unlink b.node_iter c.lru_list) (b.node_iter ∷ []),
      ),
    )

pub add_block-IsLinked :
    (fresh : Bytes) (key : ByteArray) (c : Cache)
    → read_value key c.data_map ≡ none
    → IsLinked c
    → IsBounded c
    → IsLinked (add_block fresh key c) × IsBounded (add_block fresh key c)
unfolding add_block
add_block-IsLinked fresh key c free v bounded =
    let v' = link_block-IsLinked fresh key c free v in
    let l = (link_block fresh key c).lru_list in
    if_cases (λ (x : Cache). IsLinked x × IsBounded x) (ltb max_block_num (length l))
      (λ over. (
        drop_oldest-IsLinked l (link_block fresh key c) v',
        omega (
          arith,
          drop_oldest-length l (link_block fresh key c) refl
              (omega (arith, ltb→lt max_block_num (length l) over)),
          length-link fresh key c,
        ),
      ))
      (λ fits. (v', ltb→le max_block_num (length l) fits))
