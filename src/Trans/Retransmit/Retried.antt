-- ===== src/Trans/Retransmit/Retried.antt =====
-- leotp.cpp, `flushDataHoles`: the holes that stay.
use leotp.Base.{
  ℕ, ◌≡◌, refl, ap, ◌⊎◌, inl, inr, Bool, true, false, ◌||◌, Option, none, some, List, [], ◌∷◌,
  if◌then◌else◌,
}
use leotp.Trans.{TransCb, Hole, Callbacks, FloatOps, hole_wait, snhole_timeout}
use leotp.Trans.Answer.{parse_int}
use leotp.Trans.IntBuf.{update_int_buf}
use leotp.Trans.Deliver.{is_requester}
use leotp.Trans.Retransmit.{since, retry_holes, flush_data_holes}

-- A hole has reached LEOTP_SNHOLE_TIMEOUT.
abbrev pub expired : ℕ → List Hole → Bool
expired now [] = false
expired now (h ∷ hs) = since now h.ts snhole_timeout || expired now hs

-- The holes that have not waited for LEOTP_HOLE_WAIT.
abbrev pub young : ℕ → List Hole → List Hole
young now [] = []
young now (h ∷ hs) = if since now h.ts hole_wait then young now hs else h ∷ young now hs

-- The holes that have.
abbrev pub ripe : ℕ → List Hole → List Hole
ripe now [] = []
ripe now (h ∷ hs) = if since now h.ts hole_wait then h ∷ ripe now hs else ripe now hs

module _ (fl : FloatOps) {W : Type 0} (cbs : Callbacks fl.Float W) (now : ℕ) where
  open fl use {Float}

  -- One hole after the other is asked for as if an interest for it had come, and a requester gives
  -- the interests that wait for it the present time.
  abbrev pub retry_each : List Hole → TransCb Float W → TransCb Float W
  retry_each [] cb = cb
  retry_each (h ∷ hs) cb = retry_each hs (
      let asked = parse_int fl cbs now h.start_byte h.end_byte cb in
      if is_requester cb.node_role then update_int_buf now h.start_byte h.end_byte asked else asked)

  abbrev Retried :
      Bool → List Hole → TransCb Float W → Option (List Hole × TransCb Float W) → Type 0
  Retried true left c o = o ≡ none
  Retried false left c o = o ≡ some (left, c)

  retry_holes-Retried :
      (hs : List Hole) (cb : TransCb Float W)
      → Retried
          (expired now hs)
          (young now hs)
          (retry_each (ripe now hs) cb)
          (retry_holes fl cbs now hs cb)
  unfolding retry_holes
  retry_holes-Retried [] cb = refl
  retry_holes-Retried (h ∷ hs) cb =
      first (since now h.ts snhole_timeout) (since now h.ts hole_wait)
        (λ c. retry_holes-Retried hs c)
    where
      asked : TransCb Float W
      asked = parse_int fl cbs now h.start_byte h.end_byte cb

      refreshed : TransCb Float W
      refreshed =
          if is_requester cb.node_role
          then update_int_buf now h.start_byte h.end_byte asked
          else asked

      kept : Option (List Hole × TransCb Float W) → Option (List Hole × TransCb Float W)
      kept o = elim o [ none ↦ none | some r ↦ some (h ∷ r.0, r.1) ]

      More : Type 0
      More =
          (c : TransCb Float W)
          → Retried (expired now hs) (young now hs) (retry_each (ripe now hs) c)
              (retry_holes fl cbs now hs c)

      keep_first :
          (t : Bool) (left : List Hole) (c : TransCb Float W)
          → (o : Option (List Hole × TransCb Float W)) → Retried t left c o
          → Retried t (h ∷ left) c (kept o)
      keep_first true left c o e = ap kept e
      keep_first false left c o e = ap kept e

      first :
          (t w : Bool)
          → More
          → Retried
              (t || expired now hs)
              (if w then young now hs else h ∷ young now hs)
              (retry_each (if w then h ∷ ripe now hs else ripe now hs) cb)
              (elim t [
                | true ↦ none
                | false ↦ elim w [
                  | true ↦ retry_holes fl cbs now hs refreshed
                  | false ↦ kept (retry_holes fl cbs now hs cb)
                ]
              ])
      first true w more = refl
      first false true more = more refreshed
      first false false more =
          keep_first (expired now hs) (young now hs) (retry_each (ripe now hs) cb)
            (retry_holes fl cbs now hs cb) (more cb)

  -- `flushDataHoles` takes the step without defined behaviour, the second erasure of a hole, for
  -- which the model has `none`, if a hole has reached LEOTP_SNHOLE_TIMEOUT. Otherwise it returns
  -- the state in which each hole that has waited for LEOTP_HOLE_WAIT was retried, in their order
  -- and each once: `parseInt` for its range and, at a requester, `updateIntBuf` for it; and these
  -- holes are gone, and exactly the others stay, in their order.
  pub flush_data_holes_lem :
      (cb : TransCb Float W)
      → ((expired now cb.data_holes ≡ true) × (flush_data_holes fl cbs now cb ≡ none))
        ⊎ ((expired now cb.data_holes ≡ false)
            × (flush_data_holes fl cbs now cb
                ≡ some (record (retry_each (ripe now cb.data_holes) cb) {
                  data_holes = young now cb.data_holes;
                })))
  unfolding flush_data_holes
  flush_data_holes_lem cb =
      go (expired now cb.data_holes) (retry_holes fl cbs now cb.data_holes cb)
        (retry_holes-Retried cb.data_holes cb)
    where
      stored : Option (List Hole × TransCb Float W) → Option (TransCb Float W)
      stored o = elim o [ none ↦ none | some r ↦ some (record r.1 { data_holes = r.0 }) ]

      done : TransCb Float W
      done = record (retry_each (ripe now cb.data_holes) cb) {
        data_holes = young now cb.data_holes;
      }

      go :
          (t : Bool) (o : Option (List Hole × TransCb Float W))
          → Retried t (young now cb.data_holes) (retry_each (ripe now cb.data_holes) cb) o
          → ((t ≡ true) × (stored o ≡ none)) ⊎ ((t ≡ false) × (stored o ≡ some done))
      go true o e = inl (refl, ap stored e)
      go false o e = inr (refl, ap stored e)
