-- ===== src/Trans/Timer/Due.antt =====
-- leotp.cpp, `check`: when the timer thread calls `update` again.
use leotp.Base.{
  ℕ, ◌+◌, ◌^◌, ◌<◌, ◌≡◌, refl, Bool, true, false, ◌&&◌, not, arith, ltb, leb, if◌then◌else◌, add32,
}
use leotp.Codec.{imin, itimediff}
use leotp.Trans.{TransCb, update_interval}
use leotp.Trans.Timer.{is_due, check}

module _ {F W : Type 0} where
  -- For a clock reading that has more than 10000 ms left before the clock wraps at 2^32, and the
  -- time of the next flush any word, `check` returns the present time for a control block that was
  -- never updated, whose next flush is not ahead, or whose next flush is more than 10000 ms ahead,
  -- and otherwise the present time and one interval.
  pub check_lem :
      (now : ℕ) (cb : TransCb F W)
      → now + 10000 < 2 ^ 32
      → cb.next_flush_ts < 2 ^ 32
      → check now cb ≡ (
          if cb.updated && (ltb now cb.next_flush_ts && leb cb.next_flush_ts (now + 10000))
          then now + update_interval
          else now)
  unfolding check imin
  check_lem now cb h k = go cb.updated cb.next_flush_ts k
    where
      go :
          (u : Bool) (next : ℕ)
          → next < 2 ^ 32
          → (if not u
              then now
              else if is_due (itimediff now next)
              then now
              else imin next (add32 now update_interval))
            ≡ (if u && (ltb now next && leb next (now + 10000)) then now + update_interval else now)
      go false next l = refl
      go true next l = ground arith
