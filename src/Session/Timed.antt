-- ===== src/Session/Timed.antt =====
-- udp_leotp.cpp, `TransUpdateLoop`: how the timer's call of `update` ends, for any session.
use leotp.Base.{absent_some, length, ◌^◌, ◌≤◌, ◌<◌, ℕ, ◌≡◌, refl, sym, ◌∙◌, true, none, some}
use mathlib.Core.Path.{subst}
use leotp.Seg.{requester, responder, Bytes}
use leotp.Trans.{FloatOps}
use leotp.Trans.Kept.Updated.{started-waiting, EndsWell, update-EndsWell}
use leotp.Trans.Interest.{flush_int_queue}
use leotp.Trans.Interest.Flush.{wanted, AreRanges, flush_int_queue-Flushed}
use leotp.Trans.Retransmit.{flush_int_buf}
use leotp.Trans.Retransmit.Retried.{expired}
use leotp.Trans.Retransmit.Dead.{given_up}
use leotp.Trans.Timer.{
  Outcome, returned, exits, undefined_step, not_ended, print_stat, start_timer, update,
}
use leotp.Session.{Sess, LeotpSess}
use leotp.Session.Callbacks.{callbacks}
use leotp.Session.Operations.{sess_update}
use leotp.Session.Running.{
  Running, Elsewhere, Session, AppKeeps, Running-Safe, elsewhere, end_not_midnode,
}

module _ (fl : FloatOps) (scratch : Bytes)
    (on_unsat_int : ℕ → ℕ → LeotpSess fl.Float → LeotpSess fl.Float) (s : Sess) where
  open fl use {Float}

  -- What holds of a run of the timer's `update`, by how it ends. It returns with the process
  -- running; it calls `exit`, with an interest in the buffer, behind `flushIntQueue`, that was sent
  -- LEOTP_DEADLINK times; or it takes the undefined step, with a hole there, behind `flushIntBuf`,
  -- that has reached LEOTP_SNHOLE_TIMEOUT.
  abbrev pub Updates : ℕ → ℕ → LeotpSess Float → Outcome (LeotpSess Float) → Type 0
  Updates fuel now cb (returned c) = Session Running s c
  Updates fuel now cb exits =
      (c : LeotpSess Float) × (flush_int_queue fuel (start_timer now (print_stat now cb)) ≡ some c)
      × (given_up c.int_buf ≡ true)
  Updates fuel now cb undefined_step =
      (c : LeotpSess Float) × (d : LeotpSess Float) × (flush_int_queue fuel
          (start_timer now (print_stat now cb))
        ≡ some c)
      × (flush_int_buf fl (callbacks scratch on_unsat_int) now c ≡ some d)
      × (expired now d.data_holes ≡ true)
  Updates fuel now cb not_ended = ⊥

  flush_int_queue-some :
      (fuel now : ℕ) (cb : LeotpSess Float)
      → cb.int_buf_bytes < 2 ^ 32
      → AreRanges cb.int_queue
      → length (wanted cb.int_queue) ≤ fuel
      → flush_int_queue fuel (start_timer now (print_stat now cb)) ≡ none
      → ⊥
  flush_int_queue-some fuel now cb b a h e =
      let (queue, bytes) = started-waiting now cb in
      let started = start_timer now (print_stat now cb) in
      let (segs, ends, are, same) =
        flush_int_queue-Flushed fuel started (subst (λ n. n < 2 ^ 32) (sym bytes) b)
          (subst (λ q. AreRanges q) (sym queue) a)
          (subst (λ q. length (wanted q) ≤ fuel) (sym queue) h) in
      absurd (absent_some _ (sym e ∙ ends))

  -- The timer of a session, in any role, if the application's function does not call `abort`, the
  -- interests that wait in `intQueue` are ranges that end below 2^32 - MSS, `intBufBytes` is a word
  -- and there is fuel for each byte of `intQueue`. It ends in one of three ways. It returns: then
  -- `abort` was not called, and the session's fields are as they were. It calls `exit`: then an
  -- interest that waits when `flushIntQueue` is done has been sent LEOTP_DEADLINK times. Or it
  -- takes the step of `flushDataHoles` without defined behaviour: then a hole that is there when
  -- `flushIntBuf` is done has reached LEOTP_SNHOLE_TIMEOUT.
  pub sess_update-Running :
      (fuel now : ℕ) (cb : LeotpSess Float)
      → AppKeeps Running s on_unsat_int
      → Session Running s cb
      → cb.int_buf_bytes < 2 ^ 32
      → AreRanges cb.int_queue
      → length (wanted cb.int_queue) ≤ fuel
      → Updates fuel now cb (sess_update fl scratch on_unsat_int fuel now cb)
  unfolding sess_update
  sess_update-Running fuel now cb app g b a h =
      settle (update fl (callbacks scratch on_unsat_int) fuel now cb) (
        update-EndsWell fl s.node_role (Running s) (Elsewhere s.node_role)
          (callbacks scratch on_unsat_int) (Running-Safe fl scratch on_unsat_int s app)
          (λ h.
            elsewhere fl scratch on_unsat_int s s.node_role responder h
              (end_not_midnode fl scratch on_unsat_int s responder refl))
          (λ h.
            elsewhere fl scratch on_unsat_int s s.node_role requester h
              (end_not_midnode fl scratch on_unsat_int s requester refl))
          now fuel cb g)
    where
      settle :
          (o : Outcome (LeotpSess Float))
          → EndsWell fl s.node_role
              (Running s)
              (Elsewhere s.node_role)
              (callbacks scratch on_unsat_int)
              (Running-Safe fl scratch on_unsat_int s app)
              (λ h.
                elsewhere fl scratch on_unsat_int s s.node_role responder h
                  (end_not_midnode fl scratch on_unsat_int s responder refl))
              (λ h.
                elsewhere fl scratch on_unsat_int s s.node_role requester h
                  (end_not_midnode fl scratch on_unsat_int s requester refl))
              now
              fuel
              (start_timer now (print_stat now cb))
              o
          → Updates fuel now cb o
      settle (returned c) k = k
      settle exits k = k
      settle undefined_step k = k
      settle not_ended k = flush_int_queue-some fuel now cb b a h k
