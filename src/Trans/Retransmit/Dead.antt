-- ===== src/Trans/Retransmit/Dead.antt =====
-- leotp.cpp, `flushIntBuf`: the dead link.
use leotp.Base.{
  ℕ, ◌+◌, ◌≡◌, refl, Bool, true, false, ◌&&◌, ◌||◌, Option, none, some, List, [], ◌∷◌, ltb, leb,
  ◌==◌, if◌then◌else◌, add32, sub32, if_cases,
}
use leotp.Seg.{LeotpSeg}
use leotp.Trans.{TransCb, Callbacks, FloatOps, update_interval}
use leotp.Trans.Holes.{is_midnode}
use leotp.Trans.Deliver.{is_requester}
use leotp.Trans.Retransmit.{
  Sent, sent_up_to, dead_link, keep_interest, deadlink, need_send, send_interest, send_interests,
  after_interests, new_int_output, flush_int_buf,
}

-- One of the interests has been sent LEOTP_DEADLINK times.
abbrev pub given_up : List LeotpSeg → Bool
given_up [] = false
given_up (seg ∷ segs) = leb deadlink seg.xmit || given_up segs

-- What holds if a run has no state.
abbrev pub IfNone : {A : Type 0} → Type 0 → Option A → Type 0
IfNone P none = P
IfNone P (some a) = Unit

module _ (fl : FloatOps) {W : Type 0} (cbs : Callbacks fl.Float W) (now : ℕ) where
  open fl use {Float}

  abbrev IfDead : Bool → Sent Float W → Type 0
  IfDead t (sent_up_to l n reached cb) = Unit
  IfDead t dead_link = t ≡ true

  keep_interest-IfDead :
      (dead t : Bool) (seg : LeotpSeg) (s : Sent Float W)
      → IfDead t s
      → IfDead (dead || t) (keep_interest seg s)
  keep_interest-IfDead dead t seg (sent_up_to l n reached cb) h = tt
  keep_interest-IfDead true t seg dead_link h = refl
  keep_interest-IfDead false t seg dead_link h = h

  send_interests-IfDead :
      (segs : List LeotpSeg) (cnt : ℕ) (cb : TransCb Float W)
      → IfDead (given_up segs) (send_interests fl cbs now segs cnt cb)
  unfolding send_interests
  send_interests-IfDead [] cnt cb = tt
  send_interests-IfDead (seg ∷ segs) cnt cb =
      split (need_send fl now cb seg) (is_requester cb.node_role && ltb cb.int_output_limit size)
        (leb deadlink seg.xmit) (send_interests-IfDead segs cnt cb)
        (send_interests-IfDead segs cnt1 (send_interest fl cbs now seg charged))
    where
      size : ℕ
      size = sub32 seg.range_end seg.range_start

      charged : TransCb Float W
      charged =
          if is_requester cb.node_role
          then record cb { int_output_limit = sub32 cb.int_output_limit size }
          else cb

      cnt1 : ℕ
      cnt1 = if ltb 0 seg.xmit then cnt + 1 else cnt

      rest : Sent Float W
      rest = send_interests fl cbs now segs cnt1 (send_interest fl cbs now seg charged)

      split :
          (need limit dead : Bool)
          → IfDead (given_up segs) (send_interests fl cbs now segs cnt cb)
          → IfDead (given_up segs) rest
          → IfDead (dead || given_up segs) (elim need [
            | false ↦ keep_interest seg (send_interests fl cbs now segs cnt cb)
            | true ↦ elim limit [
              | true ↦ sent_up_to (seg ∷ segs) cnt true cb
              | false ↦ elim dead [
                | true ↦ dead_link
                | false ↦
                    if is_midnode cb.node_role
                    then rest
                    else keep_interest (record seg { xmit = add32 seg.xmit 1; ts = now }) rest
              ]
            ]
          ])
      split false limit dead h k =
          keep_interest-IfDead dead (given_up segs) seg (send_interests fl cbs now segs cnt cb) h
      split true true dead h k = tt
      split true false true h k = refl
      split true false false h k =
          if_cases (λ s. IfDead (given_up segs) s) (is_midnode cb.node_role) (λ _. k)
            (λ _.
              keep_interest-IfDead false (given_up segs)
                (record seg { xmit = add32 seg.xmit 1; ts = now }) rest k)

  after_interests-IfNone :
      (new_output : ℕ) (t : Bool) (s : Sent Float W) (cb : TransCb Float W)
      → IfDead t s
      → IfNone (t ≡ true) (after_interests fl new_output s cb)
  unfolding after_interests
  after_interests-IfNone new_output t dead_link cb h = h
  after_interests-IfNone new_output t (sent_up_to l n reached c) cb h = tt

  -- `flushIntBuf` calls `exit` only if an interest in the buffer was sent LEOTP_DEADLINK times.
  pub flush_int_buf-IfNone :
      (cb : TransCb Float W) → IfNone (given_up cb.int_buf ≡ true) (flush_int_buf fl cbs now cb)
  unfolding flush_int_buf
  flush_int_buf-IfNone cb =
      if_cases (λ (o : Option (TransCb Float W)). IfNone (given_up cb.int_buf ≡ true) o)
        (cb.int_buf_bytes == 0) (λ _. tt)
        (λ _.
          after_interests-IfNone new_output (given_up cb.int_buf)
            (send_interests fl cbs now cb1.int_buf 0 cb1) cb1 same)
    where
      new_output : ℕ
      new_output =
          new_int_output fl
            (if cb.last_flush_ts == 0 then update_interval else sub32 now cb.last_flush_ts) cb

      cb1 : TransCb Float W
      cb1 =
          if cb.srtt == 0
          then cb
          else record cb { int_output_limit = add32 cb.int_output_limit new_output }

      same : IfDead (given_up cb.int_buf) (send_interests fl cbs now cb1.int_buf 0 cb1)
      same =
          if_cases
            (λ (c : TransCb Float W).
              IfDead (given_up cb.int_buf) (send_interests fl cbs now c.int_buf 0 c))
            (cb.srtt == 0) (λ _. send_interests-IfDead cb.int_buf 0 cb)
            (λ _.
              send_interests-IfDead cb.int_buf 0
                (record cb { int_output_limit = add32 cb.int_output_limit new_output }))
