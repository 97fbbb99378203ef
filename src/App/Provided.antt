-- ===== src/App/Provided.antt =====
-- app/appserver.cpp, `provideData`, and an interest at its responder from the cache and the
-- program.
use leotp.Base.{
  ℕ, ◌-◌, ◌^◌, ◌≤◌, ◌<◌, ◌≡◌, refl, sym, ap, ◌∙◌, Bool, true, false, ◌&&◌, ◌||◌, Option, none, some,
  List, [], ◌∷◌, ◌++◌, arith, ltb, if◌then◌else◌, All, All-append, sub32, if_cases, ltb→lt, ltb→le,
}
use mathlib.Core.Path.{subst}
use mathlib.Core.Bool.{true≢false}
use mathlib.Core.List.{append_assoc}
use leotp.Seg.{LeotpSeg, Role, Bytes, responder, requester, midnode}
use leotp.Trans.{Callbacks, FloatOps, ByteRange}
use leotp.Trans.Interest.{request, accepted, buffer_full, bad_range}
use leotp.Trans.Deliver.{is_requester}
use leotp.Trans.Holes.{is_midnode}
use leotp.Trans.Send.Packed.{queued}
use leotp.Trans.Send.Notify.{waiting, carried, carried-append, Carries, Proper}
use leotp.Trans.Holes.Cover.{within}
use leotp.Trans.Answer.{output_int, parse_int, ask_rest}
use leotp.Cache.{Cache}
use leotp.Cache.InsertBlock.{key-key_len}
use leotp.Cache.Insert.{Room}
use leotp.Session.{User, LeotpSess}
use leotp.Session.Callbacks.{callbacks}
use leotp.Session.Fetch.{Serves, parse_int-cache}
use leotp.Session.Operations.{insert_data}
use leotp.Session.Operations.Inserted.{Taken, insert_data-Taken}
use leotp.App.{provided, provide_data}

-- Room depends on the blocks only.
Room-stable :
    (name : List ℕ) (end : ℕ) (c d : Cache)
    → d.data_map ≡ c.data_map
    → d.key_len ≡ c.key_len
    → Room name 0 end c
    → Room name 0 end d
Room-stable name end c d m k room bs b from below found =
    room bs b from below (rw (← key-key_len c d name bs k, ← m) found)

module _ (fl : FloatOps) (content : List ℕ → ℕ → ℕ) (name : List ℕ) (fresh scratch : Bytes)
    (clock : ℕ → ℕ) where
  open fl use {Float}

  -- The segments that are new in the send queue carry the stream at exactly the positions of
  -- [start, end).
  abbrev pub Answered : ℕ → ℕ → LeotpSess Float → LeotpSess Float → Type 0
  Answered start end cb after =
      (gs : List LeotpSeg) × (after.snd_queue ≡ cb.snd_queue ++ gs)
      × All (Carries (content name) 0) gs
      × ((p : ℕ) → carried p gs ≡ within start end p)
      × Serves content name after.user
      × (after.overrun ≡ cb.overrun)

  -- The interest, and the state in which it waits.
  abbrev asked : ℕ → ℕ → ℕ → ByteRange
  asked now from end = record { start_byte = from; end_byte = end; ts = now }

  abbrev waits : ℕ → ℕ → ℕ → LeotpSess Float → LeotpSess Float
  waits now from end c = record c { pending_ints = c.pending_ints ++ asked now from end ∷ [] }

  ask_rest-responder :
      (now from end : ℕ) (c : LeotpSess Float)
      → c.node_role ≡ responder
      → ask_rest fl (callbacks scratch (provide_data fresh clock)) now from end c
        ≡ provide_data fresh clock from end (waits now from end c)
  unfolding ask_rest
  ask_rest-responder now from end c role = by_role c.node_role role
    where
      cbs : Callbacks Float User
      cbs = callbacks scratch (provide_data fresh clock)

      by_role :
          (r : Role)
          → r ≡ responder
          → (elim r [
            | responder ↦ cbs.on_unsat_int from end (waits now from end c)
            | requester ↦ output_int fl cbs now from end c
            | midnode ↦ elim (request from end c) [
              | accepted x ↦ x
              | buffer_full ↦ c
              | bad_range ↦ c
            ]
          ])
            ≡ provide_data fresh clock from end (waits now from end c)
      by_role responder e = refl
      by_role requester e = absurd (true≢false (ap is_requester e))
      by_role midnode e = absurd (true≢false (ap is_midnode e))

  provide_data-done :
      (from end : ℕ) (c after : LeotpSess Float)
      → insert_data fresh (provided clock (sub32 end from)) from end c ≡ some after
      → provide_data fresh clock from end c ≡ after
  unfolding provide_data
  provide_data-done from end c after e =
      ap
        (λ (o : Option (LeotpSess Float)). elim o [
          | none ↦ record c { overrun = true }
          | some x ↦ x
        ])
        e

  -- The program's part, [from, end), at a responder.
  rest-Taken :
      (now from end : ℕ) (c : LeotpSess Float)
      → c.node_role ≡ responder
      → Serves content name c.user
      → Room name 0 end c.user.shared.cache
      → ((p : ℕ) → from ≤ p → p < end → provided clock (end - from) (p - from) ≡ content name p)
      → All Proper c.pending_ints
      → from < end
      → end < 2 ^ 31
      → c.snd_queue_bytes < 2 ^ 32
      → Taken content name from end
          (waits now from end c)
          (ask_rest fl (callbacks scratch (provide_data fresh clock)) now from end c)
  rest-Taken now from end c role good room agree proper h k b =
      let (after, done, taken) =
        insert_data-Taken content name fresh (provided clock (sub32 end from)) from end
          (waits now from end c) good room
          (λ p l m. ap (λ n. provided clock n (p - from)) (omega arith) ∙ agree p l m)
          (All-append Proper c.pending_ints (asked now from end ∷ []) proper ((h, k), tt)) h k b in
      subst (Taken content name from end (waits now from end c))
        (sym (
          ask_rest-responder now from end c role
          ∙ provide_data-done from end (waits now from end c) after done))
        taken

  -- The state when the cache has given [start, from), as the segments `gs`.
  abbrev given : List LeotpSeg → User → LeotpSess Float → LeotpSess Float
  given gs u cb = record (queued gs cb) { user = u }

  waiting-last :
      (p from end now : ℕ) (rs : List ByteRange)
      → within from end p ≡ true
      → waiting p (rs ++ asked now from end ∷ []) ≡ true
  waiting-last p from end now [] h = ground (arith, h)
  waiting-last p from end now (r ∷ rs) h = ground (arith, waiting-last p from end now rs h)

  provided-Answered :
      (now start from end : ℕ) (gs : List LeotpSeg) (u : User) (cb : LeotpSess Float)
      → start ≤ from
      → from ≤ end
      → All (Carries (content name) 0) gs
      → ((p : ℕ) → carried p gs ≡ within start from p)
      → Taken content name from end
          (waits now from end (given gs u cb))
          (ask_rest fl (callbacks scratch (provide_data fresh clock)) now from end (given gs u cb))
      → Answered start end cb
          (ask_rest fl (callbacks scratch (provide_data fresh clock)) now from end (given gs u cb))
  provided-Answered now start from end gs u cb h k all covers
        (good, left, gs', same, all', covers') =
      (
        gs ++ gs',
        ap (λ (x : LeotpSess Float). x.snd_queue) same ∙ append_assoc cb.snd_queue gs gs',
        All-append (Carries (content name) 0) gs gs' all all',
        (λ p.
            carried-append p gs gs'
            ∙ covered p (carried p gs) (carried p gs')
                (waiting p (cb.pending_ints ++ asked now from end ∷ [])) (covers p) (covers' p)
                (waiting-last p from end now cb.pending_ints)),
        good,
        ap (λ (x : LeotpSess Float). x.overrun) same,
      )
    where
      covered :
          (p : ℕ) (x y w : Bool)
          → x ≡ within start from p
          → y ≡ (w && within from end p)
          → (within from end p ≡ true → w ≡ true)
          → (x || y) ≡ within start end p
      covered p x y w e f g = ground arith

  -- An interest for [start, end), below 2^31, at a responder that runs `provideData`: it is
  -- answered in full at once. Segments are put behind the send queue that carry exactly the
  -- positions asked for, with the bytes of the session's stream, from its cache or from the
  -- program, and the cache is again faithful to all streams. It was before, and has room in its
  -- tables; the interests that wait are proper, and the program provides the stream. Neither the
  -- loop of `parseInt` nor an insertion is cut off: `overrun` is as before.
  pub parse_int-Answered :
      (now start end : ℕ) (cb : LeotpSess Float)
      → cb.node_role ≡ responder
      → Serves content name cb.user
      → Room name 0 end cb.user.shared.cache
      → ((from p : ℕ)
          → start ≤ from
          → from ≤ p
          → p < end
          → provided clock (end - from) (p - from) ≡ content name p)
      → All Proper cb.pending_ints
      → start < end
      → end < 2 ^ 31
      → cb.snd_queue_bytes < 2 ^ 32
      → Answered start end cb
          (parse_int fl (callbacks scratch (provide_data fresh clock)) now start end cb)
  parse_int-Answered now start end cb role good room agree proper h k b =
      let (sent_end, c, (gs, u, from, to, (still, roomy), same, all, covers), e) =
        parse_int-cache fl content name (Room name 0 end) scratch (provide_data fresh clock) now
          start end cb (Room-stable name end) (not_requester cb.node_role role) good room h
          (omega arith) b in
      subst (λ (x : LeotpSess Float). Answered start end cb x)
        (sym (
          e
          ∙ ap
              (λ (x : LeotpSess Float).
                if ltb sent_end end
                then ask_rest fl (callbacks scratch (provide_data fresh clock)) now sent_end end x
                else x)
              same))
        (if_cases (λ (x : LeotpSess Float). Answered start end cb x) (ltb sent_end end)
          (λ t. provided-Answered now start sent_end end gs u cb from to all covers (
            rest-Taken now sent_end end (given gs u cb) role still roomy
              (λ p l m. agree sent_end p from l m) proper (ltb→lt sent_end end t) k (omega arith)))
          (λ t. (
            gs,
            refl,
            all,
            (λ p. covers p ∙ whole p sent_end (ltb→le sent_end end t) to),
            still,
            refl,
          )))
    where
      not_requester : (r : Role) → r ≡ responder → is_requester r ≡ false
      not_requester r e = ap is_requester e

      whole : (p m : ℕ) → end ≤ m → m ≤ end → within start m p ≡ within start end p
      whole p m l m' = ap (λ n. within start n p) (omega arith)
