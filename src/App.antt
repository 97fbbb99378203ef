-- ===== src/App.antt =====
-- app/appclient.cpp, app/appmid.cpp, app/appserver.cpp and app/config.h: what the three programs do
-- with their sessions. `sleep`, printing and the command line are left out.
pub mod Requests
pub mod Relayed
pub mod Provided
pub mod Harmless
use leotp.Base.{
  ℕ, zero, suc, ◌+◌, ◌-◌, ◌*◌, ◌/◌, ◌%◌, ◌^◌, ◌≤◌, ◌<◌, ◌≡◌, refl, sym, ap, ◌∙◌, ◌≢◌, ◌↔◌, ◌⊎◌, inl,
  inr, Bool, true, false, ◌&&◌, ◌||◌, not, Option, none, some, List, [], ◌∷◌, ◌++◌, map, arith, ltb,
  leb, ◌==◌, if◌then◌else◌, length, length-append, All, All-append, All-mono, u32, add32, sub32,
  slt, Bool-cases, Option-cases, if_cases, sub32_le, ltb→lt, lt→ltb, le→ltb, ltb→le, take, drop,
  take-length-append, drop-length-append, span, span-append, length-span, leb_refl, lt→leb,
}
use leotp.Seg.{Bytes, mss}
use leotp.Trans.{TransCb}
use leotp.Trans.Receive.{byte_of}
use leotp.Trans.Interest.{Requested, accepted, buffer_full, bad_range}
use leotp.Trans.Deliver.{Received, again, bytes, nothing}
use leotp.Cache.{Cache, insert, block_len, memcpy}
use leotp.Seg.{bytes_of}
use leotp.Session.{User, Shared, LeotpSess}
use leotp.Session.Operations.{sess_request, recv_data, insert_data}

abbrev pub req_len : ℕ
req_len = mss * 10

abbrev pub max_buf_size : ℕ
max_buf_size = 3000

-- `_round_up`.
unfoldable pub round_up : ℕ → ℕ → ℕ
round_up x y = u32 (u32 (x + y + 2 ^ 32 - 1) / y * y)

-- The positions of the stamps that `onNewSess` of the client reads in the data [start, end).
unfoldable pub stamps : ℕ → ℕ → ℕ → List ℕ
stamps zero pos end = []
stamps (suc fuel) pos end =
    let rest = stamps fuel (u32 (pos + req_len)) end in if ltb end (pos + 8) then [] else pos ∷ rest

module _ {F : Type 0} where
  -- `request_func`: one round of its loop, with `sendStart`.
  unfoldable pub request_round : ℕ × LeotpSess F → ℕ × LeotpSess F
  request_round (send_start, cb) = elim (sess_request send_start (add32 send_start req_len) cb) [
    | accepted c ↦ (add32 send_start req_len, c)
    | buffer_full ↦ (send_start, cb)
    | bad_range ↦ (add32 send_start req_len, cb)
  ]

  unfoldable pub request_func : ℕ → ℕ × LeotpSess F → ℕ × LeotpSess F
  unfolding request_round
  request_func zero s = s
  request_func (suc rounds) s = request_func rounds (request_round s)

-- `recvBuf`, `start` and `end` of the midnode's `onNewSess`.
pub record RelayBuf : Type 0 where
  pub recv_buf : Bytes
  pub start : ℕ
  pub end : ℕ

-- What `recvData` leaves in them; `none` is the end of the inner loop.
unfoldable pub received_into : Received → RelayBuf → Option RelayBuf
received_into again r = none
received_into nothing r = some r
received_into (bytes s e bs) r =
    some (record { recv_buf = memcpy r.recv_buf 0 (bytes_of bs) 0 (length bs); start = s; end = e })

abbrev pub with_cache : {F : Type 0} → Cache → LeotpSess F → LeotpSess F
with_cache c cb = record cb {
  user = record cb.user { shared = record cb.user.shared { cache = c } };
}

module _ {F : Type 0} where
  -- The body of the inner loop, for data that has been received.
  unfoldable pub relay_insert : Bytes → RelayBuf → LeotpSess F → Option (LeotpSess F)
  relay_insert fresh r cb =
      if ltb max_buf_size (sub32 r.end r.start)
      then some cb
      else (elim (insert fresh cb.user.sess.name_chars r.start r.end (r.end / block_len + 2)
          r.recv_buf cb.user.shared.cache) [ none ↦ none | some c ↦ some (with_cache c cb) ])

  -- One round of it: whether the loop goes on, and the state. `none` is an insertion that has not
  -- ended.
  unfoldable pub relay_round :
      Bytes → RelayBuf → LeotpSess F → Option (Bool × RelayBuf × LeotpSess F)
  unfolding relay_insert received_into
  relay_round fresh r cb =
      let got = recv_data max_buf_size cb in
      elim (received_into got.0 r) [
        | none ↦ some (false, r, got.1)
        | some r' ↦ elim (relay_insert fresh r' got.1) [ none ↦ none | some c ↦ some (true, r', c) ]
      ]

-- `provideData`: the buffer of `len` bytes, with the time, 4 bytes of it, at each multiple of
-- REQ_LEN that has REQ_LEN bytes behind it. `clock` gives the time of each.
unfoldable pub provided : (ℕ → ℕ) → ℕ → Bytes
provided clock len i =
    let n = i / req_len in
    if leb (n * req_len + req_len) len && ltb (i - n * req_len) 4
    then byte_of (clock n) (i - n * req_len)
    else 0

module _ {F : Type 0} where
  -- An insertion that does not end, of data that ends within a block of 2^32, has no state
  -- afterwards: it is marked in `overrun`.
  unfoldable pub provide_data : Bytes → (ℕ → ℕ) → ℕ → ℕ → LeotpSess F → LeotpSess F
  unfolding provided
  provide_data fresh clock start end cb =
      elim (insert_data fresh (provided clock (sub32 end start)) start end cb) [
        | none ↦ record cb { overrun = true }
        | some c ↦ c
      ]
