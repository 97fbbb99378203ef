-- ===== src/Session/Fetch.antt =====
-- udp_leotp.cpp, `fetchData`, and an interest that a session answers from its cache.
use leotp.Base.{
  ℕ, ◌+◌, ◌-◌, ◌/◌, ◌^◌, ◌≤◌, ◌<◌, ◌≡◌, sym, ap, ◌∙◌, false, some, List, arith, ltb, if◌then◌else◌,
  length,
}
use mathlib.Core.Path.{subst}
use leotp.Seg.{Bytes}
use leotp.Trans.{FloatOps}
use leotp.Trans.Deliver.{is_requester}
use leotp.Trans.Answer.{parse_int, ask_rest}
use leotp.Trans.Answer.Fetched.{parse_int_lem}
use leotp.Trans.Answer.Fetched.Loop.{Fetches, Fetched}
use leotp.Cache.{Cache, ReadState, read, block_len}
use leotp.Cache.InsertBlock.{key-key_len}
use leotp.Cache.Faithful.{IsFaithful}
use leotp.Cache.Read.{ReadUpTo, read-ReadUpTo}
use leotp.Session.{User, LeotpSess}
use leotp.Session.Callbacks.{after_read, fetch_data, callbacks}

-- A cache with the same blocks is faithful to the same streams.
IsFaithful-same :
    (content : List ℕ → ℕ → ℕ) (c d : Cache)
    → d.data_map ≡ c.data_map
    → d.key_len ≡ c.key_len
    → IsFaithful content c
    → IsFaithful content d
IsFaithful-same content c d m k f = record {
  distinct = rw m f.distinct;
  blocks = λ name start b n w found.
      f.blocks name start b (n ∙ ap (λ x. x - 4) k) w
        (rw (← key-key_len c d name start k, ← m) found);
}

module _ (content : List ℕ → ℕ → ℕ) (name : List ℕ) where
  -- The session reads the stream `name` in a cache that is faithful to all streams.
  pub record Serves (u : User) : Type 0 where
    pub named : u.sess.name_chars ≡ name
    pub sized : length name ≡ u.shared.cache.key_len - 4
    pub faithful : IsFaithful content u.shared.cache

  -- What `fetchData` gives, and the blocks that it leaves alone.
  abbrev Given : ℕ → ℕ → User → ℕ × Bytes × User → Type 0
  Given s e u r =
      (r.0 ≤ e - s)
      × ((i : ℕ) → i < r.0 → r.1 i ≡ content name (s + i))
      × Serves r.2
      × (r.2.shared.cache.data_map ≡ u.shared.cache.data_map)
      × (r.2.shared.cache.key_len ≡ u.shared.cache.key_len)

  fetch_data_lem :
      (scratch : Bytes) (s e : ℕ) (u : User)
      → Serves u
      → s < e
      → e ≤ 2 ^ 32 - block_len
      → Given s e u (fetch_data scratch s e u)
  unfolding fetch_data
  fetch_data_lem scratch s e u g h l =
      let (r, pos, ends, upto) =
        read-ReadUpTo content name s e u.shared.cache scratch g.sized g.faithful h (omega arith)
          (e / block_len + 2) (omega arith) in
      subst (λ o. Given s e u (after_read scratch u o))
        (sym (ap (λ n. read n s e (e / block_len + 2) scratch u.shared.cache) g.named ∙ ends))
        (found r pos upto)
    where
      found :
          (r : ReadState) (pos : ℕ)
          → ReadUpTo content name s e u.shared.cache scratch g.sized g.faithful h
              (omega arith)
              pos
              r
          → Given s e u (after_read scratch u (some r))
      found r pos upto = (
        omega (arith, upto.readlen, upto.to, upto.from),
        (λ i k. upto.bytes i (omega (arith, upto.readlen))),
        record {
          named = g.named;
          sized = g.sized ∙ ap (λ x. x - 4) (sym upto.same_len);
          faithful =
              IsFaithful-same content u.shared.cache r.cache upto.same_map upto.same_len g.faithful;
        },
        upto.same_map,
        upto.same_len,
      )

  -- The source of data of a session, also with a property that depends on the blocks only.
  pub fetch_data-Fetches :
      {F : Type 0} (R : Cache → Type 0) (scratch : Bytes)
      (on_unsat_int : ℕ → ℕ → LeotpSess F → LeotpSess F)
      → ((c d : Cache) → d.data_map ≡ c.data_map → d.key_len ≡ c.key_len → R c → R d)
      → Fetches
          (content name)
          (λ u. Serves u × R u.shared.cache)
          (2 ^ 32 - block_len)
          (callbacks scratch on_unsat_int)
  fetch_data-Fetches R scratch on_unsat_int stable s e u g h l =
      let (len, copied, good, same_map, same_len) = fetch_data_lem scratch s e u g.0 h l in
      (
        len,
        copied,
        (
          good,
          stable u.shared.cache (fetch_data scratch s e u).2.shared.cache same_map same_len g.1,
        ),
      )

module _ (fl : FloatOps) (content : List ℕ → ℕ → ℕ) (name : List ℕ) where
  open fl use {Float}

  -- An interest for [range_start, range_end), which ends at least a block below 2^32, at a session
  -- that is not the requester's and whose cache is faithful to all streams: the bytes of the
  -- session's stream up to some `sent_end` are queued, in segments of at most MSS bytes that carry
  -- exactly these positions, and the rest, if there is any, is asked for. Before it is, nothing
  -- else of the control block has changed, and the cache is still faithful to all streams and has
  -- kept any property of its blocks.
  pub parse_int-cache :
      (R : Cache → Type 0) (scratch : Bytes)
      (on_unsat_int : ℕ → ℕ → LeotpSess Float → LeotpSess Float) (now range_start range_end : ℕ)
      (cb : LeotpSess Float)
      → ((c d : Cache) → d.data_map ≡ c.data_map → d.key_len ≡ c.key_len → R c → R d)
      → is_requester cb.node_role ≡ false
      → Serves content name cb.user
      → R cb.user.shared.cache
      → range_start < range_end
      → range_end + block_len ≤ 2 ^ 32
      → cb.snd_queue_bytes < 2 ^ 32
      → let cbs = callbacks scratch on_unsat_int in
        (sent_end : ℕ) × (c : LeotpSess Float) × Fetched
          (content name)
          (λ u. Serves content name u × R u.shared.cache)
          (2 ^ 32 - block_len)
          range_start
          range_end
          cb
          (sent_end, c)
        × (parse_int fl cbs now range_start range_end cb
            ≡ (if ltb sent_end range_end then ask_rest fl cbs now sent_end range_end c else c))
  parse_int-cache R scratch on_unsat_int now s e cb stable r good extra h w b =
      parse_int_lem fl (content name) (λ u. Serves content name u × R u.shared.cache)
        (2 ^ 32 - block_len) (callbacks scratch on_unsat_int) now s e cb r
        (fetch_data-Fetches content name R scratch on_unsat_int stable) (good, extra) (omega arith)
        h (omega arith) b
