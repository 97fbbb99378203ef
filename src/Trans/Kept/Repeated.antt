-- ===== src/Trans/Kept/Repeated.antt =====
-- leotp.cpp, `flushIntBuf` and `flushDataHoles`: the callbacks that interests lead to.
use leotp.Base.{
  ℕ, ◌+◌, Bool, true, false, ◌&&◌, Option, none, some, List, [], ◌∷◌, arith, ltb, leb, ◌==◌,
  if◌then◌else◌, add32, sub32, if_cases,
}
use leotp.Seg.{LeotpSeg, Role, responder}
use leotp.Trans.{TransCb, Callbacks, FloatOps, Hole, update_interval, snhole_timeout, hole_wait}
use leotp.Trans.Kept.{Good, Same-Good, Safe}
use leotp.Trans.Kept.Asked.{output_int-Good, parse_int-Good}
use leotp.Trans.Kept.Flushed.{GoodIf}
use leotp.Trans.Holes.{is_midnode, delete_data_hole}
use leotp.Trans.IntBuf.{update_int_buf}
use leotp.Trans.Deliver.{is_requester}
use leotp.Trans.Answer.{output_int, parse_int}
use leotp.Trans.Retransmit.{
  Sent, sent_up_to, dead_link, keep_interest, since, deadlink, retry_holes, flush_data_holes,
  need_send, send_interest, send_interests, after_interests, new_int_output, flush_int_buf,
}

module _ (fl : FloatOps) {W : Type 0} (role : Role) (Q : W → Type 0) (Sendable : Role → Type 0)
    (cbs : Callbacks fl.Float W) (safe : Safe role Q Sendable cbs) (may : Sendable responder)
    (now : ℕ) where
  open fl use {Float, of_int, mul, lit, to_int}

  send_interest-Good :
      (seg : LeotpSeg) (cb : TransCb Float W)
      → Good role Q cb
      → Good role Q (send_interest fl cbs now seg cb)
  unfolding send_interest delete_data_hole
  send_interest-Good seg cb g =
      if_cases (λ (c : TransCb Float W). Good role Q c) (is_midnode cb.node_role)
        (λ _. record { role_is = sent.role_is; kept = sent.kept }) (λ _. sent)
    where
      cb1 : TransCb Float W
      cb1 =
          if ltb 0 seg.xmit
          then record cb {
            has_loss_event = true;
            stat = record cb.stat { xmit = add32 cb.stat.xmit 1 };
          }
          else cb

      good1 : Good role Q cb1
      good1 =
          if_cases (λ (c : TransCb Float W). Good role Q c) (ltb 0 seg.xmit)
            (λ _. record { role_is = g.role_is; kept = g.kept }) (λ _. g)

      sent : Good role Q (
          output_int fl cbs now seg.range_start seg.range_end
            (delete_data_hole seg.range_start seg.range_end cb1))
      sent =
          output_int-Good fl role Q Sendable cbs safe now seg.range_start seg.range_end
            (delete_data_hole seg.range_start seg.range_end cb1) may
            (record { role_is = good1.role_is; kept = good1.kept })

  abbrev Sound : Sent Float W → Type 0
  Sound (sent_up_to l n reached cb) = Good role Q cb
  Sound dead_link = Unit

  keep_interest-Sound : (seg : LeotpSeg) (s : Sent Float W) → Sound s → Sound (keep_interest seg s)
  keep_interest-Sound seg (sent_up_to l n reached cb) g = g
  keep_interest-Sound seg dead_link g = tt

  send_interests-Sound :
      (segs : List LeotpSeg) (cnt : ℕ) (cb : TransCb Float W)
      → Good role Q cb
      → Sound (send_interests fl cbs now segs cnt cb)
  unfolding send_interests
  send_interests-Sound [] cnt cb g = g
  send_interests-Sound (seg ∷ segs) cnt cb g =
      split (need_send fl now cb seg) (is_requester cb.node_role && ltb cb.int_output_limit size)
        (leb deadlink seg.xmit) (send_interests-Sound segs cnt cb g)
        (send_interests-Sound segs cnt1 (send_interest fl cbs now seg charged)
          (send_interest-Good seg charged charged_good))
    where
      size : ℕ
      size = sub32 seg.range_end seg.range_start

      charged : TransCb Float W
      charged =
          if is_requester cb.node_role
          then record cb { int_output_limit = sub32 cb.int_output_limit size }
          else cb

      charged_good : Good role Q charged
      charged_good =
          if_cases (λ (c : TransCb Float W). Good role Q c) (is_requester cb.node_role)
            (λ _. record { role_is = g.role_is; kept = g.kept }) (λ _. g)

      cnt1 : ℕ
      cnt1 = if ltb 0 seg.xmit then cnt + 1 else cnt

      rest : Sent Float W
      rest = send_interests fl cbs now segs cnt1 (send_interest fl cbs now seg charged)

      split :
          (need limit dead : Bool)
          → Sound (send_interests fl cbs now segs cnt cb)
          → Sound rest
          → Sound (elim need [
            | false ↦ keep_interest seg (send_interests fl cbs now segs cnt cb)
            | true ↦ elim limit [
              | true ↦ sent_up_to (seg ∷ segs) cnt true cb
              | false ↦ elim dead [
                | true ↦ dead_link
                | false ↦
                    if is_midnode cb.node_role
                    then rest
                    else keep_interest (record seg { xmit = add32 seg.xmit 1; ts = now }) rest
              ]
            ]
          ])
      split false limit dead h k = keep_interest-Sound seg _ h
      split true true dead h k = g
      split true false true h k = tt
      split true false false h k =
          if_cases (λ s. Sound s) (is_midnode cb.node_role) (λ _. k)
            (λ _. keep_interest-Sound (record seg { xmit = add32 seg.xmit 1; ts = now }) rest k)

  after_interests-Good :
      (new_output : ℕ) (s : Sent Float W) (cb : TransCb Float W)
      → Sound s
      → GoodIf role Q (after_interests fl new_output s cb)
  unfolding after_interests
  after_interests-Good new_output dead_link cb g = tt
  after_interests-Good new_output (sent_up_to l n reached c) cb g =
      Same-Good role Q _ c (ground arith) g

  pub flush_int_buf-Good :
      (cb : TransCb Float W) → Good role Q cb → GoodIf role Q (flush_int_buf fl cbs now cb)
  unfolding flush_int_buf
  flush_int_buf-Good cb g =
      if_cases (λ (o : Option (TransCb Float W)). GoodIf role Q o) (cb.int_buf_bytes == 0) (λ _. g)
        (λ _.
          after_interests-Good new_output (send_interests fl cbs now cb1.int_buf 0 cb1) cb1
            (send_interests-Sound cb1.int_buf 0 cb1 good1))
    where
      new_output : ℕ
      new_output =
          new_int_output fl
            (if cb.last_flush_ts == 0 then update_interval else sub32 now cb.last_flush_ts) cb

      cb1 : TransCb Float W
      cb1 =
          if cb.srtt == 0
          then cb
          else record cb { int_output_limit = add32 cb.int_output_limit new_output }

      good1 : Good role Q cb1
      good1 =
          if_cases (λ (c : TransCb Float W). Good role Q c) (cb.srtt == 0) (λ _. g)
            (λ _. record { role_is = g.role_is; kept = g.kept })

  abbrev Retried : Option (List Hole × TransCb Float W) → Type 0
  Retried none = Unit
  Retried (some r) = Good role Q r.1

  retry_holes-Retried :
      (hs : List Hole) (cb : TransCb Float W)
      → Good role Q cb
      → Retried (retry_holes fl cbs now hs cb)
  unfolding retry_holes update_int_buf
  retry_holes-Retried [] cb g = g
  retry_holes-Retried (h ∷ hs) cb g =
      split (since now h.ts snhole_timeout) (since now h.ts hole_wait)
        (retry_holes-Retried hs refreshed good2)
        (held (retry_holes fl cbs now hs cb) (retry_holes-Retried hs cb g))
    where
      asked : TransCb Float W
      asked = parse_int fl cbs now h.start_byte h.end_byte cb

      refreshed : TransCb Float W
      refreshed =
          if is_requester cb.node_role
          then update_int_buf now h.start_byte h.end_byte asked
          else asked

      good1 : Good role Q asked
      good1 = parse_int-Good fl role Q Sendable cbs safe now h.start_byte h.end_byte cb (λ _. may) g

      good2 : Good role Q refreshed
      good2 =
          if_cases (λ (c : TransCb Float W). Good role Q c) (is_requester cb.node_role)
            (λ _. record { role_is = good1.role_is; kept = good1.kept }) (λ _. good1)

      held :
          (o : Option (List Hole × TransCb Float W))
          → Retried o
          → Retried (elim o [ none ↦ none | some r ↦ some (h ∷ r.0, r.1) ])
      held none k = tt
      held (some r) k = k

      split :
          (old due : Bool)
          → Retried (retry_holes fl cbs now hs refreshed)
          → Retried
              (elim (retry_holes fl cbs now hs cb) [ none ↦ none | some r ↦ some (h ∷ r.0, r.1) ])
          → Retried (elim old [
            | true ↦ none
            | false ↦ elim due [
              | true ↦ retry_holes fl cbs now hs refreshed
              | false ↦ elim (retry_holes fl cbs now hs cb) [
                | none ↦ none
                | some r ↦ some (h ∷ r.0, r.1)
              ]
            ]
          ])
      split true due k l = tt
      split false true k l = k
      split false false k l = l

  pub flush_data_holes-Good :
      (cb : TransCb Float W) → Good role Q cb → GoodIf role Q (flush_data_holes fl cbs now cb)
  unfolding flush_data_holes
  flush_data_holes-Good cb g =
      kept_by (retry_holes fl cbs now cb.data_holes cb) (retry_holes-Retried cb.data_holes cb g)
    where
      kept_by :
          (o : Option (List Hole × TransCb Float W))
          → Retried o
          → GoodIf role Q (elim o [ none ↦ none | some r ↦ some (record r.1 { data_holes = r.0 }) ])
      kept_by none k = tt
      kept_by (some r) k = record { role_is = k.role_is; kept = k.kept }
