-- ===== src/Trans/Timer.antt =====
-- leotp.cpp, `check`, `flush` and `update`: the timer.
pub mod Due
use leotp.Base.{
  ℕ, zero, suc, ◌+◌, ◌-◌, ◌*◌, ◌/◌, ◌%◌, ◌^◌, ◌≤◌, ◌<◌, ◌≡◌, refl, sym, ap, ◌∙◌, ◌≢◌, ◌↔◌, ◌⊎◌, inl,
  inr, Bool, true, false, ◌&&◌, ◌||◌, not, Option, none, some, List, [], ◌∷◌, ◌++◌, map, arith, ltb,
  leb, ◌==◌, if◌then◌else◌, length, length-append, All, All-append, All-mono, u32, add32, sub32,
  slt, Bool-cases, Option-cases, if_cases, sub32_le, ltb→lt, lt→ltb, le→ltb, ltb→le, take, drop,
  take-length-append, drop-length-append, span, span-append, length-span, leb_refl, lt→leb,
}
use leotp.Codec.{imin, itimediff}
use leotp.Seg.{Role}
use leotp.Trans.{TransCb, StatInfo, stat_reset, Callbacks, FloatOps, update_interval}
use leotp.Trans.Interest.{flush_int_queue}
use leotp.Trans.Deliver.{is_requester}
use leotp.Trans.Output.{is_responder, flush_data}
use leotp.Trans.Retransmit.{flush_int_buf, flush_data_holes}

-- `slap >= 0 || slap < -10000` for the time since the next flush was due.
abbrev pub is_due : ℕ → Bool
is_due slap = not (slt slap 0) || slt slap (2 ^ 32 - 10000)

-- `slap >= LEOTP_UPDATE_INTERVAL` compares unsigned.
unfoldable pub next_flush : ℕ → ℕ → ℕ → ℕ
next_flush now slap next =
    if leb update_interval slap || slt slap (2 ^ 32 - 10000)
    then add32 now update_interval
    else add32 next update_interval

-- How a run ends: it returns a state; it calls `exit` on a dead link; it takes the step of
-- flushDataHoles that has no defined behaviour; or it has used up the fuel of flushIntQueue.
pub data Outcome (A : Type 0) : Type 0 where
  returned : A → Outcome A
  exits undefined_step not_ended : Outcome A

abbrev pub then_return : {A : Type 0} → (A → A) → Outcome A → Outcome A
then_return f (returned a) = returned (f a)
then_return f exits = exits
then_return f undefined_step = undefined_step
then_return f not_ended = not_ended

module _ {F W : Type 0} where
  unfoldable pub check : ℕ → TransCb F W → ℕ
  unfolding imin
  check now cb =
      if not cb.updated
      then now
      else if is_due (itimediff now cb.next_flush_ts)
      then now
      else imin cb.next_flush_ts (add32 now update_interval)

  -- The first part of `update`: about once in a second the counters start again, and the receive
  -- buffer is emptied.
  unfoldable pub print_stat : ℕ → TransCb F W → TransCb F W
  unfolding stat_reset
  print_stat now cb =
      if ltb 1000 (sub32 now cb.stat.last_print_ts)
      then record cb { rcv_buf = []; rcv_buf_itrs = []; stat = stat_reset now cb.stat }
      else cb

  unfoldable pub start_timer : ℕ → TransCb F W → TransCb F W
  start_timer now cb = if cb.updated then cb else record cb { updated = true; next_flush_ts = now }

module _ (fl : FloatOps) {W : Type 0} where
  open fl use {Float}

  -- The interests and the holes, unless this is the responder.
  unfoldable pub flush_interests :
      Callbacks Float W → ℕ → ℕ → TransCb Float W → Outcome (TransCb Float W)
  unfolding flush_int_queue flush_int_buf flush_data_holes
  flush_interests cbs fuel now cb =
      if is_responder cb.node_role then returned cb else (elim (flush_int_queue fuel cb) [
        | none ↦ not_ended
        | some c ↦ elim (flush_int_buf fl cbs now c) [
          | none ↦ exits
          | some d ↦ elim (flush_data_holes fl cbs now d) [
            | none ↦ undefined_step
            | some e ↦ returned e
          ]
        ]
      ])

  unfoldable pub flush : Callbacks Float W → ℕ → ℕ → TransCb Float W → Outcome (TransCb Float W)
  unfolding flush_interests flush_data
  flush cbs fuel now cb =
      if not cb.updated
      then returned cb
      else then_return
          (λ c. record (if is_requester c.node_role then c else flush_data fl cbs now c) {
            last_flush_ts = now;
          })
          (flush_interests cbs fuel now cb)

  unfoldable pub update : Callbacks Float W → ℕ → ℕ → TransCb Float W → Outcome (TransCb Float W)
  unfolding flush print_stat start_timer next_flush
  update cbs fuel now cb =
      let cb1 = start_timer now (print_stat now cb) in
      let slap = itimediff now cb1.next_flush_ts in
      elim (is_due slap) [
        | false ↦ returned cb1
        | true ↦
            then_return (λ c. record c { next_flush_ts = next_flush now slap c.next_flush_ts })
              (flush cbs fuel now cb1)
      ]
