-- ===== src/Session/Operations.antt =====
-- udp_leotp.cpp, the methods of `LeotpSess` and `TransUpdateLoop`. Each of them but `insertData`
-- holds the session's lock throughout, so each is one step; `insertData` is called from within the
-- control block or by the application.
pub mod Inserted
pub mod Wakes
use leotp.Base.{
  ℕ, zero, suc, ◌+◌, ◌-◌, ◌*◌, ◌/◌, ◌%◌, ◌^◌, ◌≤◌, ◌<◌, ◌≡◌, refl, sym, ap, ◌∙◌, ◌≢◌, ◌↔◌, ◌⊎◌, inl,
  inr, Bool, true, false, ◌&&◌, ◌||◌, not, Option, none, some, List, [], ◌∷◌, ◌++◌, map, arith, ltb,
  leb, ◌==◌, if◌then◌else◌, length, length-append, All, All-append, All-mono, u32, add32, sub32,
  slt, Bool-cases, Option-cases, if_cases, sub32_le, ltb→lt, lt→ltb, le→ltb, ltb→le, take, drop,
  take-length-append, drop-length-append, span, span-append, length-span, leb_refl, lt→leb,
}
use leotp.Seg.{Bytes}
use leotp.Trans.{TransCb, Callbacks, FloatOps}
use leotp.Trans.Interest.{Requested, request}
use leotp.Trans.Send.{notify_new_data}
use leotp.Trans.Deliver.{Received, recv}
use leotp.Trans.Input.{InputResult, input}
use leotp.Trans.Timer.{Outcome, check, update}
use leotp.Cache.{Cache, insert, block_len}
use leotp.Session.{User, LeotpSess}
use leotp.Session.Callbacks.{callbacks}

module _ {F : Type 0} where
  unfoldable pub sess_request : ℕ → ℕ → LeotpSess F → Requested (LeotpSess F)
  sess_request range_start range_end cb = request range_start range_end cb

  unfoldable pub recv_data : ℕ → LeotpSess F → Received × LeotpSess F
  recv_data max_buf_size cb = recv max_buf_size cb

  -- What follows on the insertion into the cache.
  abbrev pub after_insert : Bytes → ℕ → ℕ → LeotpSess F → Option Cache → Option (LeotpSess F)
  after_insert buf start end cb none = none
  after_insert buf start end cb (some c) = some (
      notify_new_data buf start end
        (record cb { user = record cb.user { shared = record cb.user.shared { cache = c } } }))

  -- `fresh` is the memory of new blocks. The fuel is a round for each block.
  unfoldable pub insert_data : Bytes → Bytes → ℕ → ℕ → LeotpSess F → Option (LeotpSess F)
  insert_data fresh buf start end cb = after_insert buf start end cb (
      insert fresh cb.user.sess.name_chars start end (end / block_len + 2) buf cb.user.shared.cache)

  -- What a round of `TransUpdateLoop` does at time `now`, if `check` ran at the same time: how long
  -- to sleep, in milliseconds, or `none` to call `update`.
  unfoldable pub update_wait : ℕ → LeotpSess F → Option ℕ
  update_wait now cb = let t = check now cb in if leb t now then none else some (sub32 t now)

  -- The rounds up to the next call of `update`, on fuel: its time. `cb_at` is the state that the
  -- round at a time finds.
  unfoldable pub next_update : (ℕ → LeotpSess F) → ℕ → ℕ → Option ℕ
  unfolding update_wait
  next_update cb_at zero now = none
  next_update cb_at (suc fuel) now = elim (update_wait now (cb_at now)) [
    | none ↦ some now
    | some ms ↦ next_update cb_at fuel (add32 now ms)
  ]

module _ (fl : FloatOps) where
  open fl use {Float}

  unfoldable pub input_udp :
      Bytes
      → (ℕ → ℕ → LeotpSess Float → LeotpSess Float)
      → ℕ
      → List ℕ
      → LeotpSess Float
      → Option (InputResult × LeotpSess Float)
  input_udp scratch on_unsat_int now p cb = input fl (callbacks scratch on_unsat_int) now p cb

  unfoldable pub sess_update :
      Bytes
      → (ℕ → ℕ → LeotpSess Float → LeotpSess Float)
      → ℕ
      → ℕ
      → LeotpSess Float
      → Outcome (LeotpSess Float)
  sess_update scratch on_unsat_int fuel now cb =
      update fl (callbacks scratch on_unsat_int) fuel now cb
