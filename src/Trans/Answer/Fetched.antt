-- ===== src/Trans/Answer/Fetched.antt =====
-- leotp.cpp, `parseInt` at a node that can fetch data.
pub mod Loop
use leotp.Base.{
  ℕ, zero, suc, ◌+◌, ◌-◌, ◌*◌, ◌/◌, ◌^◌, ◌≤◌, ◌<◌, ◌≡◌, refl, sym, ap, ◌∙◌, Bool, true, false, List,
  [], ◌++◌, arith, ltb, leb, ◌==◌, if◌then◌else◌, All, All-append, add32, sub32, if_cases, ltb→lt,
  ltb→le,
}
use mathlib.Core.Path.{subst}
use mathlib.Core.Bool.{true≢false}
use leotp.Codec.{imin}
use leotp.Codec.Bounds.{imin_right}
use leotp.Seg.{LeotpSeg, Bytes, mss}
use leotp.Trans.{TransCb, Callbacks, FloatOps}
use leotp.Trans.Holes.Cover.{within}
use leotp.Trans.Deliver.{is_requester}
use leotp.Trans.Send.{send_data}
use leotp.Trans.Send.Packed.{queued, queued-none, send_data-Packed}
use leotp.Trans.Send.Notify.{
  carried, carried-append, Carries, Packed-Carries, Packed-carried, queued-queued,
}
use leotp.Trans.Answer.{fetch_loop, ask_rest, parse_int}
use leotp.Trans.Answer.Fetched.Loop.{Fetches, Fetched, fetch_loop-Fetched}

module _ (fl : FloatOps) {W : Type 0} (content : Bytes) (Good : W → Type 0) (limit : ℕ) where
  open fl use {Float}

  -- An interest for [range_start, range_end), not empty, at a midnode or a responder, where the
  -- range ends more than MSS below 2^32 and not above `limit`, the count of queued bytes is a word,
  -- and the source of data is good. As long as it is good, and for ranges up to `limit`, the source
  -- gives a first part of what it is asked for, with the stream's bytes, and stays good. Then the
  -- bytes of the
  -- stream up to some `sent_end` are queued, in segments of at most MSS bytes that carry exactly
  -- these positions, and if the range goes on, the rest is asked for. Up to there nothing else
  -- changes but what the callbacks act on, and the loop has ended: `overrun` is as before.
  pub parse_int_lem :
      (cbs : Callbacks Float W) (now range_start range_end : ℕ) (cb : TransCb Float W)
      → is_requester cb.node_role ≡ false
      → Fetches content Good limit cbs
      → Good cb.user
      → range_end ≤ limit
      → range_start < range_end
      → range_end + mss < 2 ^ 32
      → cb.snd_queue_bytes < 2 ^ 32
      → (sent_end : ℕ) × (c : TransCb Float W) × Fetched content Good limit range_start range_end cb
          (sent_end, c)
        × (parse_int fl cbs now range_start range_end cb
            ≡ (if ltb sent_end range_end then ask_rest fl cbs now sent_end range_end c else c))
  unfolding parse_int
  parse_int_lem cbs now s e cb r f good top h w b = (
    fetched.0,
    fetched.1,
    subst (λ x. Fetched content Good limit x e cb (fetch_loop cbs fuel s e x cb))
        (imin_right e s (omega arith))
        (fetch_loop-Fetched content Good limit cbs fuel s e cb f top w (omega arith) (omega arith) b
          good),
    if_cases same (is_requester cb.node_role) (λ t. absurd (true≢false (sym t ∙ r)))
        (λ t.
          if_cases (λ (x : TransCb Float W). x ≡ answered fetched) (leb e s)
            (λ u. absurd (ground arith)) (λ u. refl)),
  )
    where
      fuel : ℕ
      fuel = suc (suc (sub32 e s / mss))

      answered : ℕ × TransCb Float W → TransCb Float W
      answered q = if ltb q.0 e then ask_rest fl cbs now q.0 e q.1 else q.1

      same : ℕ × TransCb Float W → Type 0
      same q = (if leb e s then cb else answered q) ≡ answered (fetch_loop cbs fuel s e s cb)

      fetched : ℕ × TransCb Float W
      fetched = fetch_loop cbs fuel s e s cb
