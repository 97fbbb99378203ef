-- ===== src/Trans/Kept/Updated.antt =====
-- leotp.cpp, `update`: the callbacks that the timer leads to.
use leotp.Base.{
  ℕ, ◌≡◌, refl, sym, ap, ◌∙◌, ◌≢◌, inl, inr, Bool, true, false, not, Option, none, some, arith,
  if◌then◌else◌, if_cases, absent_some,
}
use mathlib.Core.Path.{subst}
use mathlib.Core.Bool.{true≢false}
use leotp.Codec.{itimediff}
use leotp.Seg.{Role, requester, responder}
use leotp.Trans.{TransCb, Callbacks, FloatOps}
use leotp.Trans.Kept.{Good, Same, Same-Good, Safe}
use leotp.Trans.Kept.Flushed.{GoodIf, flush_int_queue-Good, flush_data-Good}
use leotp.Trans.Kept.Repeated.{flush_int_buf-Good, flush_data_holes-Good}
use leotp.Trans.Interest.{flush_int_queue}
use leotp.Trans.Deliver.{is_requester}
use leotp.Trans.Output.{is_responder, flush_data}
use leotp.Trans.Retransmit.{flush_int_buf, flush_data_holes}
use leotp.Trans.Retransmit.Retried.{expired, flush_data_holes_lem}
use leotp.Trans.Retransmit.Dead.{given_up, IfNone, flush_int_buf-IfNone}
use leotp.Trans.Timer.{
  Outcome, returned, exits, undefined_step, not_ended, then_return, is_due, next_flush, print_stat,
  start_timer, flush_interests, flush, update,
}

module _ {F W : Type 0} where
  started-Same : (now : ℕ) (cb : TransCb F W) → Same (start_timer now (print_stat now cb)) cb
  unfolding start_timer print_stat
  started-Same now cb = ground arith

  -- It leaves the interests that wait alone.
  pub started-waiting :
      (now : ℕ) (cb : TransCb F W)
      → ((start_timer now (print_stat now cb)).int_queue ≡ cb.int_queue)
        × ((start_timer now (print_stat now cb)).int_buf_bytes ≡ cb.int_buf_bytes)
  unfolding start_timer print_stat
  started-waiting now cb = ground arith

not_responder : {role : Role} (r : Role) → r ≡ role → is_responder r ≡ false → role ≢ responder
not_responder r k h e = true≢false (sym (ap is_responder (k ∙ e)) ∙ h)

not_requester : {role : Role} (r : Role) → r ≡ role → is_requester r ≡ false → role ≢ requester
not_requester r k h e = true≢false (sym (ap is_requester (k ∙ e)) ∙ h)

module _ (fl : FloatOps) {W : Type 0} (role : Role) (Q : W → Type 0) (Sendable : Role → Type 0)
    (cbs : Callbacks fl.Float W) (safe : Safe role Q Sendable cbs)
    (to_resp : role ≢ responder → Sendable responder)
    (to_req : role ≢ requester → Sendable requester) (now : ℕ) where
  open fl use {Float}

  -- What holds of a run of the timer on the state `cb`, by how it ends: a state that is returned is
  -- good; `exit` is called only with an interest in the buffer, behind flushIntQueue, that was sent
  -- LEOTP_DEADLINK times; and the undefined step is taken only with a hole that is there behind
  -- flushIntBuf and has reached LEOTP_SNHOLE_TIMEOUT.
  abbrev pub EndsWell : ℕ → TransCb Float W → Outcome (TransCb Float W) → Type 0
  EndsWell fuel cb (returned c) = Good role Q c
  EndsWell fuel cb exits =
      (c : TransCb Float W) × (flush_int_queue fuel cb ≡ some c) × (given_up c.int_buf ≡ true)
  EndsWell fuel cb undefined_step =
      (c : TransCb Float W) × (d : TransCb Float W) × (flush_int_queue fuel cb ≡ some c)
      × (flush_int_buf fl cbs now c ≡ some d)
      × (expired now d.data_holes ≡ true)
  EndsWell fuel cb not_ended = flush_int_queue fuel cb ≡ none

  then_return-EndsWell :
      (fuel : ℕ) (cb : TransCb Float W) (f : TransCb Float W → TransCb Float W)
      → ((c : TransCb Float W) → Good role Q c → Good role Q (f c))
      → (o : Outcome (TransCb Float W)) → EndsWell fuel cb o
      → EndsWell fuel cb (then_return f o)
  then_return-EndsWell fuel cb f k (returned c) g = k c g
  then_return-EndsWell fuel cb f k exits g = g
  then_return-EndsWell fuel cb f k undefined_step g = g
  then_return-EndsWell fuel cb f k not_ended g = g

  flush_data_holes-IfNone :
      (d : TransCb Float W) → flush_data_holes fl cbs now d ≡ none → expired now d.data_holes ≡ true
  flush_data_holes-IfNone d e = elim (flush_data_holes_lem fl cbs now d) [
    | inl (old, _) ↦ old
    | inr (_, done) ↦ absurd (absent_some _ (sym e ∙ done))
  ]

  flush_interests-EndsWell :
      (fuel : ℕ) (cb : TransCb Float W)
      → Good role Q cb
      → EndsWell fuel cb (flush_interests fl cbs fuel now cb)
  unfolding flush_interests
  flush_interests-EndsWell fuel cb g =
      if_cases (λ (o : Outcome (TransCb Float W)). EndsWell fuel cb o) (is_responder cb.node_role)
        (λ _. g)
        (λ t.
          queued (to_resp (not_responder cb.node_role g.role_is t)) (flush_int_queue fuel cb) refl
            (flush_int_queue-Good role Q fuel cb g))
    where
      holes : Option (TransCb Float W) → Outcome (TransCb Float W)
      holes o = elim o [ none ↦ undefined_step | some e ↦ returned e ]

      after_holes :
          (c d : TransCb Float W)
          → flush_int_queue fuel cb ≡ some c
          → flush_int_buf fl cbs now c ≡ some d
          → (o : Option (TransCb Float W)) → flush_data_holes fl cbs now d ≡ o
          → GoodIf role Q o
          → EndsWell fuel cb (holes o)
      after_holes c d e f none h k = (c, d, e, f, flush_data_holes-IfNone d h)
      after_holes c d e f (some x) h k = k

      sent :
          Sendable responder
          → (c : TransCb Float W) → flush_int_queue fuel cb ≡ some c
          → (o : Option (TransCb Float W)) → flush_int_buf fl cbs now c ≡ o
          → GoodIf role Q o
          → IfNone (given_up c.int_buf ≡ true) o
          → EndsWell fuel cb
              (elim o [ none ↦ exits | some d ↦ holes (flush_data_holes fl cbs now d) ])
      sent may c e none f k dead = (c, e, dead)
      sent may c e (some d) f k dead =
          after_holes c d e f (flush_data_holes fl cbs now d) refl
            (flush_data_holes-Good fl role Q Sendable cbs safe may now d k)

      queued :
          Sendable responder
          → (o : Option (TransCb Float W)) → flush_int_queue fuel cb ≡ o
          → GoodIf role Q o
          → EndsWell fuel cb (elim o [
            | none ↦ not_ended
            | some c ↦ elim (flush_int_buf fl cbs now c) [
              | none ↦ exits
              | some d ↦ holes (flush_data_holes fl cbs now d)
            ]
          ])
      queued may none e k = e
      queued may (some c) e k =
          sent may c e (flush_int_buf fl cbs now c) refl
            (flush_int_buf-Good fl role Q Sendable cbs safe may now c k)
            (flush_int_buf-IfNone fl cbs now c)

  flush-EndsWell :
      (fuel : ℕ) (cb : TransCb Float W)
      → Good role Q cb
      → EndsWell fuel cb (flush fl cbs fuel now cb)
  unfolding flush
  flush-EndsWell fuel cb g =
      if_cases (λ (o : Outcome (TransCb Float W)). EndsWell fuel cb o) (not cb.updated) (λ _. g)
        (λ _.
          then_return-EndsWell fuel cb finish finish_good (flush_interests fl cbs fuel now cb)
            (flush_interests-EndsWell fuel cb g))
    where
      sent : TransCb Float W → TransCb Float W
      sent c = if is_requester c.node_role then c else flush_data fl cbs now c

      finish : TransCb Float W → TransCb Float W
      finish c = record (sent c) { last_flush_ts = now }

      sent_good : (c : TransCb Float W) → Good role Q c → Good role Q (sent c)
      sent_good c h =
          if_cases (λ (x : TransCb Float W). Good role Q x) (is_requester c.node_role) (λ _. h)
            (λ t.
              flush_data-Good fl role Q Sendable cbs safe now c
                (to_req (not_requester c.node_role h.role_is t)) h)

      finish_good : (c : TransCb Float W) → Good role Q c → Good role Q (finish c)
      finish_good c h = let k = sent_good c h in record { role_is = k.role_is; kept = k.kept }

  -- The timer, if `outputFunc` keeps what is good for data that is sent towards the requester,
  -- unless this is the requester, and for interests that are sent towards the responder, unless
  -- this is the responder.
  pub update-EndsWell :
      (fuel : ℕ) (cb : TransCb Float W)
      → Good role Q cb
      → EndsWell fuel (start_timer now (print_stat now cb)) (update fl cbs fuel now cb)
  unfolding update
  update-EndsWell fuel cb g = split (is_due slap)
    where
      cb1 : TransCb Float W
      cb1 = start_timer now (print_stat now cb)

      good1 : Good role Q cb1
      good1 = Same-Good role Q cb1 cb (started-Same now cb) g

      slap : ℕ
      slap = itimediff now cb1.next_flush_ts

      next : TransCb Float W → TransCb Float W
      next c = record c { next_flush_ts = next_flush now slap c.next_flush_ts }

      split :
          (due : Bool)
          → EndsWell fuel cb1 (elim due [
            | false ↦ returned cb1
            | true ↦ then_return next (flush fl cbs fuel now cb1)
          ])
      split false = good1
      split true =
          then_return-EndsWell fuel cb1 next (λ c h. record { role_is = h.role_is; kept = h.kept })
            (flush fl cbs fuel now cb1) (flush-EndsWell fuel cb1 good1)

  -- It keeps the role and whatever the callbacks keep.
  pub update-Good :
      (fuel : ℕ) (cb c : TransCb Float W)
      → Good role Q cb
      → update fl cbs fuel now cb ≡ returned c
      → Good role Q c
  update-Good fuel cb c g e =
      subst (λ o. EndsWell fuel (start_timer now (print_stat now cb)) o) e
        (update-EndsWell fuel cb g)
