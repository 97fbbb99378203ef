-- ===== src/Session/Operations/Wakes.antt =====
-- udp_leotp.cpp, the rounds of `TransUpdateLoop` against the time that the next flush is due.
use leotp.Base.{
  ℕ, zero, suc, ◌+◌, ◌%◌, ◌^◌, ◌≤◌, ◌<◌, ◌≡◌, ap, ◌∙◌, Bool, true, false, ◌&&◌, Option, none, some,
  arith, ltb, leb, if◌then◌else◌, add32, sub32,
}
use leotp.Trans.Timer.Due.{check_lem}
use leotp.Session.{LeotpSess}
use leotp.Session.Operations.{update_wait, next_update}

-- What follows on a round.
abbrev resumed : (ℕ → Option ℕ) → ℕ → Option ℕ → Option ℕ
resumed next now none = some now
resumed next now (some ms) = next (add32 now ms)

module _ {F : Type 0} where
  wait_due :
      (now : ℕ) (cb : LeotpSess F)
      → now + 10000 < 2 ^ 32
      → cb.next_flush_ts ≡ now
      → update_wait now cb ≡ none
  unfolding update_wait
  wait_due now cb h e = rw (check_lem now cb h (omega arith)) (go cb.updated cb.next_flush_ts e)
    where
      go :
          (u : Bool) (next : ℕ)
          → next ≡ now
          → (let t = if u && (ltb now next && leb next (now + 10000)) then now + 1 else now in
              if leb t now then none else some (sub32 t now))
            ≡ none
      go true next e = ground arith
      go false next e = ground arith

  wait_early :
      (now : ℕ) (cb : LeotpSess F)
      → now + 10000 < 2 ^ 32
      → cb.next_flush_ts < 2 ^ 32
      → cb.updated ≡ true
      → now < cb.next_flush_ts
      → cb.next_flush_ts ≤ now + 10000
      → update_wait now cb ≡ some 1
  unfolding update_wait
  wait_early now cb h k u l m = rw (check_lem now cb h k, u) (go cb.next_flush_ts l m)
    where
      go :
          (next : ℕ)
          → now < next
          → next ≤ now + 10000
          → (let t = if ltb now next && leb next (now + 10000) then now + 1 else now in
              if leb t now then none else some (sub32 t now))
            ≡ some 1
      go next l m = ground arith

  wakes :
      (cb_at : ℕ → LeotpSess F) (d now due : ℕ)
      → due ≡ now + d
      → d ≤ 10000
      → due + 10000 < 2 ^ 32
      → ((t : ℕ) → (cb_at t).updated ≡ true)
      → ((t : ℕ) → (cb_at t).next_flush_ts ≡ due)
      → next_update cb_at (suc d) now ≡ some due
  unfolding next_update
  wakes cb_at zero now due e l w on at =
      ap (resumed (next_update cb_at zero) now)
        (wait_due now (cb_at now) (omega arith) (at now ∙ omega arith))
      ∙ ap some (omega arith)
  wakes cb_at (suc d) now due e l w on at =
      ap (resumed (next_update cb_at (suc d)) now) (
        wait_early now (cb_at now) (omega arith) (omega (arith, at now)) (on now)
          (omega (arith, at now)) (omega (arith, at now)))
      ∙ wakes cb_at d ((now + 1) % 2 ^ 32) due (omega arith) (omega arith) w on at

  -- The time of the next flush is `due`, at most ten seconds off, the clock has more than ten
  -- seconds left at `due` before it wraps at 2^32, and whatever the other threads do between the
  -- rounds, they leave the timer on and that time alone. Then each round before `due` sleeps for
  -- exactly one millisecond, and the loop calls `update` when its clock is at `due`.
  pub next_update-due :
      (cb_at : ℕ → LeotpSess F) (d now due : ℕ)
      → due ≡ now + d
      → d ≤ 10000
      → due + 10000 < 2 ^ 32
      → ((t : ℕ) → (cb_at t).updated ≡ true)
      → ((t : ℕ) → (cb_at t).next_flush_ts ≡ due)
      → ((t : ℕ) → now ≤ t → t < due → update_wait t (cb_at t) ≡ some 1)
        × (next_update cb_at (suc d) now ≡ some due)
  next_update-due cb_at d now due e l w on at = (
    λ t above below.
        wait_early t (cb_at t) (omega arith) (omega (arith, at t)) (on t) (omega (arith, at t))
          (omega (arith, at t)),
    wakes cb_at d now due e l w on at,
  )
