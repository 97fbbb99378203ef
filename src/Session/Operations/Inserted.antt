-- ===== src/Session/Operations/Inserted.antt =====
-- udp_leotp.cpp, `insertData`: data into the cache and to the interests that wait for it.
use leotp.Base.{
  ℕ, ◌+◌, ◌-◌, ◌/◌, ◌^◌, ◌≤◌, ◌<◌, ◌≡◌, sym, ap, ◌∙◌, Bool, true, false, ◌&&◌, not, some, List, [],
  ◌∷◌, arith, All,
}
use mathlib.Core.Path.{subst}
use mathlib.Core.Bool.{true≢false}
use leotp.Seg.{LeotpSeg, Bytes}
use leotp.Trans.Send.{notify_new_data}
use leotp.Trans.Send.Packed.{queued}
use leotp.Trans.Send.Notify.{waiting, carried, Carries, Proper, notify_new_data_lem}
use leotp.Trans.Holes.Cover.{within}
use leotp.Cache.{Cache, insert, block_len}
use leotp.Cache.Faithful.{IsFaithful}
use leotp.Cache.Insert.{Room, insert_lem}
use leotp.Session.{User, LeotpSess}
use leotp.Session.Fetch.{Serves}
use leotp.Session.Operations.{after_insert, insert_data}

-- Segments that carry parts of a buffer carry the stream that the buffer is a part of.
Carries-stream :
    (stream buffer : Bytes) (ds de : ℕ) (gs : List LeotpSeg)
    → ((p : ℕ) → ds ≤ p → p < de → buffer (p - ds) ≡ stream p)
    → ((p : ℕ) → carried p gs ≡ true → within ds de p ≡ true)
    → All (Carries buffer ds) gs
    → All (Carries stream 0) gs
Carries-stream stream buffer ds de [] agree inside all = tt
Carries-stream stream buffer ds de (g ∷ gs) agree inside ((e, m, f), all) = (
  (e, m, λ i k. f i k ∙ same i k),
  Carries-stream stream buffer ds de gs agree (λ p c. inside p (later p c)) all,
)
  where
    later : (p : ℕ) → carried p gs ≡ true → carried p (g ∷ gs) ≡ true
    later p c = ground (arith, c)

    place : (i : ℕ) → i < g.len → (ds ≤ g.range_start + i) × (g.range_start + i < de)
    place i k = inner (inside (g.range_start + i) (ground (arith, e)))
      where
        inner :
            within ds de (g.range_start + i) ≡ true
            → (ds ≤ g.range_start + i) × (g.range_start + i < de)
        inner w = ground arith

    same : (i : ℕ) → i < g.len → buffer (g.range_start - ds + i) ≡ stream (g.range_start - 0 + i)
    same i k =
        ap buffer (omega (arith, place 0 (omega arith)))
        ∙ agree (g.range_start + i) (place i k).0 (place i k).1
        ∙ ap stream (omega arith)

module _ {F : Type 0} (content : List ℕ → ℕ → ℕ) (name : List ℕ) where
  -- The data [start, end) of the stream has been taken: the interests that wait are those that
  -- waited outside of it, and what is new in the send queue carries exactly the positions in it
  -- that were waited for.
  abbrev pub Taken : ℕ → ℕ → LeotpSess F → LeotpSess F → Type 0
  Taken start end cb after =
      Serves content name after.user
      × ((p : ℕ)
          → waiting p after.pending_ints ≡ (waiting p cb.pending_ints && not (within start end p)))
      × (gs : List LeotpSeg) × (after
          ≡ record (queued gs cb) { pending_ints = after.pending_ints; user = after.user })
      × All (Carries (content name) 0) gs
      × ((p : ℕ) → carried p gs ≡ (waiting p cb.pending_ints && within start end p))

  -- `insertData` with bytes of the session's stream, below 2^31, at a session whose cache is
  -- faithful to all streams and has room in its tables, and whose waiting interests are proper: it
  -- ends, the cache is again faithful to all streams, the waiting interests in the data are served,
  -- with the bytes of the stream and nothing else, and the others go on waiting. Nothing else of
  -- the control block changes but the count of queued bytes.
  pub insert_data-Taken :
      (fresh buf : Bytes) (start end : ℕ) (cb : LeotpSess F)
      → Serves content name cb.user
      → Room name 0 end cb.user.shared.cache
      → ((p : ℕ) → start ≤ p → p < end → buf (p - start) ≡ content name p)
      → All Proper cb.pending_ints
      → start < end
      → end < 2 ^ 31
      → cb.snd_queue_bytes < 2 ^ 32
      → (after : LeotpSess F) × (insert_data fresh buf start end cb ≡ some after)
        × Taken start end cb after
  unfolding insert_data
  insert_data-Taken fresh buf start end cb good room agree proper h k b =
      let (c, ends, f, len) =
        insert_lem content fresh name start end buf (omega arith) (omega arith) agree
          (end / block_len + 2) cb.user.shared.cache (omega arith) good.sized good.faithful room in
      (
        noted c,
        ap (after_insert buf start end cb) (
            ap (λ n. insert fresh n start end (end / block_len + 2) buf cb.user.shared.cache)
              good.named
            ∙ ends),
        taken c f len,
      )
    where
      stored : Cache → LeotpSess F
      stored c = record cb {
        user = record cb.user { shared = record cb.user.shared { cache = c } };
      }

      noted : Cache → LeotpSess F
      noted c = notify_new_data buf start end (stored c)

      inside :
          (p : ℕ) (gs : List LeotpSeg) (w : Bool)
          → carried p gs ≡ (w && within start end p)
          → carried p gs ≡ true
          → within start end p ≡ true
      inside p gs true e f = sym e ∙ f
      inside p gs false e f = absurd (true≢false (sym f ∙ e))

      chain :
          (c : Cache) (gs : List LeotpSeg) (after : LeotpSess F)
          → after ≡ record (queued gs (stored c)) { pending_ints = after.pending_ints }
          → after.user ≡ (stored c).user
          → after ≡ record (queued gs cb) { pending_ints = after.pending_ints; user = after.user }
      chain c gs after e u =
          e
          ∙ ap (λ x. record (queued gs cb) { pending_ints = after.pending_ints; user = x }) (sym u)

      served :
          (c : Cache)
          → IsFaithful content c
          → c.key_len ≡ cb.user.shared.cache.key_len
          → (u : User) → u ≡ (stored c).user
          → Serves content name u
      served c f len u e = subst (Serves content name) (sym e) (record {
        named = good.named;
        sized = good.sized ∙ ap (λ x. x - 4) (sym len);
        faithful = f;
      })

      taken :
          (c : Cache)
          → IsFaithful content c
          → c.key_len ≡ cb.user.shared.cache.key_len
          → Taken start end cb (noted c)
      taken c f len =
          let (left, gs, same, carry, covers) =
            notify_new_data_lem buf start end (stored c) proper h k b in
          (
            served c f len (noted c).user (ap (λ (x : LeotpSess F). x.user) same),
            left,
            gs,
            chain c gs (noted c) same (ap (λ (x : LeotpSess F). x.user) same),
            Carries-stream (content name) buf start end gs agree
                (λ p e. inside p gs (waiting p cb.pending_ints) (covers p) e) carry,
            covers,
          )
