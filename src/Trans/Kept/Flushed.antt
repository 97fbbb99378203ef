-- ===== src/Trans/Kept/Flushed.antt =====
-- leotp.cpp, `flushIntQueue` and `flushData`: the callbacks that the queues lead to.
use leotp.Base.{
  ℕ, zero, suc, ◌+◌, Bool, true, false, Option, none, some, List, [], ◌∷◌, ◌++◌, ltb, ◌==◌,
  if◌then◌else◌, length, add32, sub32, if_cases,
}
use leotp.Seg.{LeotpSeg, Role, requester, mtu, overhead, encode_seg, slice}
use leotp.Trans.{TransCb, Callbacks, FloatOps, ByteRange, update_interval}
use leotp.Trans.Kept.{Good, Safe}
use leotp.Trans.Kept.Asked.{output-Good}
use leotp.Trans.Interest.{next_interest, flush_int_queue_loop, flush_int_queue}
use leotp.Trans.Output.{output, stamp, charge, flush_data_loop, flush_data, mbit_to_bytes, smin}

module _ {F W : Type 0} (role : Role) (Q : W → Type 0) where
  -- A run that has not ended keeps everything.
  abbrev pub GoodIf : Option (TransCb F W) → Type 0
  GoodIf none = Unit
  GoodIf (some c) = Good role Q c

  flush_int_queue_loop-Good :
      (fuel : ℕ) (q : List ByteRange) (cb : TransCb F W)
      → Good role Q cb
      → GoodIf (flush_int_queue_loop fuel q cb)
  unfolding flush_int_queue_loop
  flush_int_queue_loop-Good fuel [] cb g = record { role_is = g.role_is; kept = g.kept }
  flush_int_queue_loop-Good zero (r ∷ q) cb g = tt
  flush_int_queue_loop-Good (suc fuel) (r ∷ q) cb g =
      flush_int_queue_loop-Good fuel (next_interest r q).1 _
        (record { role_is = g.role_is; kept = g.kept })

  pub flush_int_queue-Good :
      (fuel : ℕ) (cb : TransCb F W) → Good role Q cb → GoodIf (flush_int_queue fuel cb)
  unfolding flush_int_queue
  flush_int_queue-Good fuel cb g = flush_int_queue_loop-Good fuel cb.int_queue cb g

  charge-Good : (seg : LeotpSeg) (cb : TransCb F W) → Good role Q cb → Good role Q (charge seg cb)
  unfolding charge
  charge-Good seg cb g = record { role_is = g.role_is; kept = g.kept }

module _ {F W : Type 0} (role : Role) (Q : W → Type 0) (Sendable : Role → Type 0)
    (cbs : Callbacks F W) (safe : Safe role Q Sendable cbs) (may : Sendable requester) where
  flush_data_loop-Good :
      (now : ℕ) (queue : List LeotpSeg) (buf : List ℕ) (cb : TransCb F W)
      → Good role Q cb
      → Good role Q (flush_data_loop cbs now queue buf cb).2
  unfolding flush_data_loop
  flush_data_loop-Good now [] buf cb g = record { role_is = g.role_is; kept = g.kept }
  flush_data_loop-Good now (seg ∷ queue) buf cb g =
      split (ltb cb.data_output_limit (seg.len + overhead)) (
        flush_data_loop-Good now queue
          (kept ++ (encode_seg (stamp now cb1 seg) ++ slice seg.payload 0 seg.len)) charged2
          (record { role_is = good.role_is; kept = good.kept }))
    where
      full : Bool
      full = ltb mtu (length buf + (overhead + seg.len))

      cb1 : TransCb F W
      cb1 = if full then output cbs buf requester (charge seg cb) else charge seg cb

      kept : List ℕ
      kept = if full then [] else buf

      charged2 : TransCb F W
      charged2 = record cb1 { snd_queue_bytes = sub32 cb1.snd_queue_bytes (seg.len + overhead) }

      charge_good : Good role Q (charge seg cb)
      charge_good = charge-Good role Q seg cb g

      good : Good role Q cb1
      good =
          if_cases (λ (c : TransCb F W). Good role Q c) full
            (λ _.
              output-Good role Q Sendable cbs safe buf requester (charge seg cb) may charge_good)
            (λ _. charge_good)

      Sound : Bool × List ℕ × TransCb F W → Type 0
      Sound r = Good role Q r.2

      split :
          (t : Bool)
          → Sound (
              flush_data_loop cbs now queue
                (kept ++ (encode_seg (stamp now cb1 seg) ++ slice seg.payload 0 seg.len))
                charged2)
          → Sound (elim t [
            | true ↦ (true, buf, record cb { snd_queue = seg ∷ queue })
            | false ↦
                flush_data_loop cbs now queue
                  (kept ++ (encode_seg (stamp now cb1 seg) ++ slice seg.payload 0 seg.len))
                  charged2
          ])
      split true h = record { role_is = g.role_is; kept = g.kept }
      split false h = h

module _ (fl : FloatOps) {W : Type 0} (role : Role) (Q : W → Type 0) (Sendable : Role → Type 0)
    (cbs : Callbacks fl.Float W) (safe : Safe role Q Sendable cbs) where
  open fl use {Float, of_int, of_word, mul, div}

  pub flush_data-Good :
      (now : ℕ) (cb : TransCb Float W)
      → Sendable requester
      → Good role Q cb
      → Good role Q (flush_data fl cbs now cb)
  unfolding flush_data
  flush_data-Good now cb may g =
      output-Good role Q Sendable cbs safe r.1 requester
        (if r.0
          then r.2
          else record r.2 { data_output_limit = smin r.2.data_output_limit new_output })
        may
        (if_cases (λ (c : TransCb Float W). Good role Q c) r.0 (λ _. sent)
          (λ _. record { role_is = sent.role_is; kept = sent.kept }))
    where
      new_output : ℕ
      new_output = mbit_to_bytes fl (
          div
            (mul cb.rmt_send_rate (
              of_word
                (if cb.last_flush_ts == 0 then update_interval else sub32 now cb.last_flush_ts)))
            (of_int 1000))

      limited : TransCb Float W
      limited = record cb { data_output_limit = add32 cb.data_output_limit new_output }

      r : Bool × List ℕ × TransCb Float W
      r = flush_data_loop cbs now cb.snd_queue [] limited

      sent : Good role Q r.2
      sent =
          flush_data_loop-Good role Q Sendable cbs safe may now cb.snd_queue [] limited
            (record { role_is = g.role_is; kept = g.kept })
