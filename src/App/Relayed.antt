-- ===== src/App/Relayed.antt =====
-- app/appmid.cpp, `onNewSess`: a midnode puts the data that passes into its cache.
pub mod Recv
use leotp.Base.{
  absent_some, some_same, ℕ, zero, suc, ◌+◌, ◌-◌, ◌/◌, ◌^◌, ◌≤◌, ◌<◌, ◌≡◌, refl, sym, ap, ◌∙◌, Bool,
  true, false, not, Option, none, some, List, [], ◌∷◌, arith, ltb, leb, ◌==◌, length, All,
  All-append, sub32, if_cases,
}
use mathlib.Core.Path.{subst}
use mathlib.Core.Bool.{true≢false}
use leotp.Seg.{LeotpSeg, Bytes, bytes_of, slice}
use leotp.Seg.Wire.{length-slice}
use leotp.Trans.{wnd_rcv}
use leotp.Trans.Holes.{is_midnode}
use leotp.Trans.Deliver.{
  Received, again, bytes, nothing, move_to_rcv_queue, recv_first, recv_from, recv,
}
use leotp.Cache.{Cache, insert, block_len, memcpy}
use leotp.Cache.Copy.{memcpy-inside}
use leotp.Cache.Insert.{Room, insert_lem}
use leotp.Session.{User, LeotpSess}
use leotp.Session.Fetch.{Serves}
use leotp.Session.Operations.{recv_data}
use leotp.App.{RelayBuf, max_buf_size, with_cache, received_into, relay_insert, relay_round}
use leotp.App.Relayed.Recv.{Holds, RecvOk, Relaying, recv-Got}

module _ {F : Type 0} (content : List ℕ → ℕ → ℕ) (name : List ℕ) where
  -- What an insertion of what was received leaves.
  relay_insert-Serves :
      (fresh : Bytes) (r : RelayBuf) (cb : LeotpSess F)
      → Holds (content name) r.recv_buf r.start r.end
      → Serves content name cb.user
      → Room name 0 (2 ^ 32) cb.user.shared.cache
      → (c : Cache) × (relay_insert fresh r cb ≡ some (with_cache c cb))
        × Serves content name (with_cache c cb).user
  unfolding relay_insert
  relay_insert-Serves fresh r cb (h, w, f) good room =
      if_cases Fine (ltb max_buf_size (sub32 r.end r.start))
        (λ _. (cb.user.shared.cache, refl, good)) (λ _. inserted)
    where
      Fine : Option (LeotpSess F) → Type 0
      Fine o =
          (c : Cache) × (o ≡ some (with_cache c cb)) × Serves content name (with_cache c cb).user

      run : List ℕ → Option Cache
      run n = insert fresh n r.start r.end (r.end / block_len + 2) r.recv_buf cb.user.shared.cache

      after : Option Cache → Option (LeotpSess F)
      after o = elim o [ none ↦ none | some c ↦ some (with_cache c cb) ]

      inserted : Fine (after (run cb.user.sess.name_chars))
      inserted =
          let (c, ends, faithful, len) =
            insert_lem content fresh name r.start r.end r.recv_buf h w f (r.end / block_len + 2)
              cb.user.shared.cache (omega arith) good.sized good.faithful
              (λ bs b l m. room bs b l (omega arith)) in
          (
            c,
            ap after (ap run good.named ∙ ends),
            record {
              named = good.named;
              sized = good.sized ∙ ap (λ x. x - 4) (sym len);
              faithful = faithful;
            },
          )

  -- A round of a midnode's relay, whose session's cache is faithful to all streams and has room in
  -- its tables. Each received segment whose length fits its range, and the range that the relay's
  -- buffer holds, ends at least a block, 4096, below 2^32 and carries the session's stream. Then
  -- the round ends, the cache is again faithful to all streams, and the received segments and the
  -- relay's buffer still are as described. Beyond that bound the insertion may not end.
  pub relay_round-Relaying :
      (fresh : Bytes) (r : RelayBuf) (cb : LeotpSess F)
      → Relaying (content name) r cb
      → Serves content name cb.user
      → Room name 0 (2 ^ 32) cb.user.shared.cache
      → (go : Bool) × (r' : RelayBuf) × (c : LeotpSess F) × (relay_round fresh r cb
          ≡ some (go, r', c))
        × Relaying (content name) r' c
        × Serves content name c.user
  unfolding relay_round recv_data
  relay_round-Relaying fresh r cb g good room =
      let (ok, rel, same) = recv-Got (content name) r cb g in
      by_result (received_into got.0 r) refl ok rel same
    where
      got : Received × LeotpSess F
      got = recv max_buf_size cb

      Fine : Option (Bool × RelayBuf × LeotpSess F) → Type 0
      Fine o =
          (go : Bool) × (r' : RelayBuf) × (c : LeotpSess F) × (o ≡ some (go, r', c))
          × Relaying (content name) r' c
          × Serves content name c.user

      stored :
          (r' : RelayBuf)
          → Holds (content name) r'.recv_buf r'.start r'.end
          → Relaying (content name) r got.1
          → got.1.user ≡ cb.user
          → Fine (elim (relay_insert fresh r' got.1) [ none ↦ none | some c ↦ some (true, r', c) ])
      stored r' held rel same =
          let (c, done, served) =
            relay_insert-Serves fresh r' got.1 held (subst (Serves content name) (sym same) good)
              (subst (λ (u : User). Room name 0 (2 ^ 32) u.shared.cache) (sym same) room) in
          (
            true,
            r',
            with_cache c got.1,
            ap {A = Option (LeotpSess F)} {B = Option (Bool × RelayBuf × LeotpSess F)}
                (λ o. elim o [ none ↦ none | some x ↦ some (true, r', x) ]) done,
            record { held = held; role = rel.role; queue = rel.queue; buf = rel.buf },
            served,
          )

      by_result :
          (o : Option RelayBuf)
          → received_into got.0 r ≡ o
          → RecvOk (content name) r got.0
          → Relaying (content name) r got.1
          → got.1.user ≡ cb.user
          → Fine (elim o [
            | none ↦ some (false, r, got.1)
            | some r' ↦ elim (relay_insert fresh r' got.1) [
              | none ↦ none
              | some c ↦ some (true, r', c)
            ]
          ])
      by_result none e ok rel same =
          (false, r, got.1, refl, rel, subst (Serves content name) (sym same) good)
      by_result (some r') e ok rel same = stored r' (ok r' e) rel same
