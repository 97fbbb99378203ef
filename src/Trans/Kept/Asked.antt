-- ===== src/Trans/Kept/Asked.antt =====
-- leotp.cpp, `outputInt` and `parseInt`: the callbacks that an interest leads to.
use leotp.Base.{
  ℕ, zero, suc, ◌/◌, ◌≡◌, refl, sym, ◌∙◌, Bool, true, false, List, [], ◌∷◌, ◌++◌, ltb, leb, ◌==◌,
  if◌then◌else◌, length, add32, sub32, if_cases,
}
use leotp.Codec.{imin}
use leotp.Seg.{Role, Bytes, requester, responder, midnode, mss}
use leotp.Trans.{intb_max, TransCb, Callbacks, FloatOps}
use leotp.Trans.Kept.{Good, Same-Good, Safe}
use leotp.Trans.Kept.Quiet.{send_data-Same}
use leotp.Trans.Deliver.{is_requester}
use leotp.Trans.Interest.{request, Requested, accepted, buffer_full, bad_range}
use leotp.Trans.Send.{send_data}
use leotp.Trans.Output.{output}
use leotp.Trans.Answer.{fetch_loop, output_int, ask_rest, parse_int}

module _ {F W : Type 0} (role : Role) (Q : W → Type 0) (Sendable : Role → Type 0)
    (cbs : Callbacks F W) (safe : Safe role Q Sendable cbs) where
  pub output-Good :
      (bytes : List ℕ) (dst : Role) (cb : TransCb F W)
      → Sendable dst
      → Good role Q cb
      → Good role Q (output cbs bytes dst cb)
  unfolding output
  output-Good bytes dst cb may g =
      if_cases (Good role Q) (length bytes == 0) (λ _. g)
        (λ _. record { role_is = g.role_is; kept = safe.sends bytes dst cb.user may g.kept })

  fetch_loop-Good :
      (fuel s e sent : ℕ) (cb : TransCb F W)
      → Good role Q cb
      → Good role Q (fetch_loop cbs fuel s e sent cb).1
  unfolding fetch_loop
  fetch_loop-Good zero s e sent cb g = record { role_is = g.role_is; kept = g.kept }
  fetch_loop-Good (suc fuel) s e sent cb g =
      split (ltb s e) (got.0 == 0) (ltb got.0 (sub32 (imin e (add32 s mss)) s))
        (fetch_loop-Good fuel (add32 s mss) e (add32 s got.0) queued sent_good)
    where
      got : ℕ × Bytes × W
      got = cbs.fetch_data_func s (imin e (add32 s mss)) cb.user

      fetched : TransCb F W
      fetched = record cb { user = got.2 }

      queued : TransCb F W
      queued = (send_data got.1 s (add32 s got.0) fetched).1

      fetched_good : Good role Q fetched
      fetched_good = record {
        role_is = g.role_is;
        kept = safe.fetches s (imin e (add32 s mss)) cb.user g.kept;
      }

      sent_good : Good role Q queued
      sent_good =
          Same-Good role Q queued fetched (send_data-Same got.1 s (add32 s got.0) fetched)
            fetched_good

      Sound : ℕ × TransCb F W → Type 0
      Sound r = Good role Q r.1

      split :
          (more empty part : Bool)
          → Good role Q (fetch_loop cbs fuel (add32 s mss) e (add32 s got.0) queued).1
          → Sound (elim more [
            | false ↦ (sent, cb)
            | true ↦ if empty then (add32 s got.0, fetched) else elim part [
              | true ↦ (add32 s got.0, queued)
              | false ↦ fetch_loop cbs fuel (add32 s mss) e (add32 s got.0) queued
            ]
          ])
      split false empty part h = g
      split true true part h = fetched_good
      split true false true h = sent_good
      split true false false h = h

  request-Good :
      (s e : ℕ) (cb : TransCb F W)
      → Good role Q cb
      → Good role Q (elim (request s e cb) [ accepted c ↦ c | buffer_full ↦ cb | bad_range ↦ cb ])
  unfolding request
  request-Good s e cb g =
      if_cases Kept (leb e s) (λ _. g)
        (λ _.
          if_cases Kept (leb intb_max cb.int_buf_bytes) (λ _. g)
            (λ _. record { role_is = g.role_is; kept = g.kept }))
    where
      Kept : Requested (TransCb F W) → Type 0
      Kept x = Good role Q (elim x [ accepted c ↦ c | buffer_full ↦ cb | bad_range ↦ cb ])

module _ (fl : FloatOps) {W : Type 0} (role : Role) (Q : W → Type 0) (Sendable : Role → Type 0)
    (cbs : Callbacks fl.Float W) (safe : Safe role Q Sendable cbs) where
  open fl use {Float}

  pub output_int-Good :
      (now s e : ℕ) (cb : TransCb Float W)
      → Sendable responder
      → Good role Q cb
      → Good role Q (output_int fl cbs now s e cb)
  unfolding output_int
  output_int-Good now s e cb may g =
      output-Good role Q Sendable cbs safe _ responder (record cb { last_send_int_ts = now }) may
        (record { role_is = g.role_is; kept = g.kept })

  ask_rest-Good :
      (now s e : ℕ) (cb : TransCb Float W)
      → (role ≡ requester → Sendable responder)
      → Good role Q cb
      → Good role Q (ask_rest fl cbs now s e cb)
  unfolding ask_rest
  ask_rest-Good now s e cb may g = by_role cb.node_role refl
    where
      kept_if : Requested (TransCb Float W) → Type 0
      kept_if x = Good role Q (elim x [ accepted c ↦ c | buffer_full ↦ cb | bad_range ↦ cb ])

      requeued : kept_if (request s e cb)
      requeued = request-Good role Q Sendable cbs safe s e cb g

      pending : TransCb Float W
      pending = record cb {
        pending_ints = cb.pending_ints ++ record { start_byte = s; end_byte = e; ts = now } ∷ [];
      }

      by_role :
          (r : Role)
          → cb.node_role ≡ r
          → Good role Q (elim r [
            | responder ↦ cbs.on_unsat_int s e pending
            | requester ↦ output_int fl cbs now s e cb
            | midnode ↦ elim (request s e cb) [ accepted c ↦ c | buffer_full ↦ cb | bad_range ↦ cb ]
          ])
      by_role responder is =
          safe.unsat s e pending (sym g.role_is ∙ is)
            (record { role_is = g.role_is; kept = g.kept })
      by_role requester is = output_int-Good now s e cb (may (sym g.role_is ∙ is)) g
      by_role midnode is = requeued

  pub parse_int-Good :
      (now s e : ℕ) (cb : TransCb Float W)
      → (role ≡ requester → Sendable responder)
      → Good role Q cb
      → Good role Q (parse_int fl cbs now s e cb)
  unfolding parse_int
  parse_int-Good now s e cb may g =
      if_cases (λ (c : TransCb Float W). Good role Q c) (leb e s) (λ _. g)
        (λ _.
          if_cases (λ (c : TransCb Float W). Good role Q c) (ltb r.0 e)
            (λ _. ask_rest-Good now r.0 e r.1 may after) (λ _. after))
    where
      r : ℕ × TransCb Float W
      r =
          if is_requester cb.node_role
          then (s, cb)
          else fetch_loop cbs (suc (suc (sub32 e s / mss))) s e s cb

      after : Good role Q r.1
      after =
          if_cases (λ (q : ℕ × TransCb Float W). Good role Q q.1) (is_requester cb.node_role)
            (λ _. g)
            (λ _. fetch_loop-Good role Q Sendable cbs safe (suc (suc (sub32 e s / mss))) s e s cb g)
