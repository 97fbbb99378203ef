-- ===== src/Trans/Input/Ends.antt =====
-- leotp.cpp, `input`: the end of the loop over a datagram.
use leotp.Base.{
  ℕ, zero, suc, ◌≤◌, ◌<◌, ◌≡◌, refl, Bool, true, false, ◌&&◌, not, Option, some, List, [], ◌∷◌,
  arith, ltb, ◌==◌, length, sub32, if_cases,
}
use leotp.Seg.{
  LeotpSeg, Next, finished, bad_length, bad_command, segment, next_segment, overhead, cmd_int,
  bytes_of,
}
use leotp.Seg.Shrinks.{Rest, next_segment-Rest}
use leotp.Trans.{TransCb, Callbacks, FloatOps}
use leotp.Trans.Receive.{parse_data}
use leotp.Trans.Input.{
  InputResult, input_short, input_done, input_bad_length, input_bad_command, input_int, input_push,
  input_loop, input,
}

module _ (fl : FloatOps) {W : Type 0} (cbs : Callbacks fl.Float W) (now : ℕ) where
  abbrev Ends : Option (InputResult × TransCb fl.Float W) → Type 0
  Ends o = (r : InputResult × TransCb fl.Float W) × (o ≡ some r)

  input_loop-Ends :
      (fuel : ℕ) (p : List ℕ) (cb : TransCb fl.Float W)
      → length p < fuel
      → Ends (input_loop fl cbs now fuel p cb)
  unfolding input_loop next_segment
  input_loop-Ends zero p cb h = absurd (omega arith)
  input_loop-Ends (suc fuel) [] cb h = ((input_done, cb), refl)
  input_loop-Ends (suc fuel) (b ∷ p) cb h =
      round (next_segment (b ∷ p)) (next_segment-Rest (length p) (b ∷ p) (omega arith))
        (λ q c k. input_loop-Ends fuel q c (omega arith))
    where
      More : Type 0
      More =
          (q : List ℕ) (c : TransCb fl.Float W)
          → length q ≤ length p
          → Ends (input_loop fl cbs now fuel q c)

      pushed : LeotpSeg → List ℕ → TransCb fl.Float W
      pushed g payload = input_push fl cbs now (record g { payload = bytes_of payload }) cb

      data_round :
          (g : LeotpSeg) (payload rest : List ℕ) (bad : Bool)
          → length rest ≤ length p
          → More
          → Ends (elim bad [
            | true ↦ some (input_done, pushed g payload)
            | false ↦ input_loop fl cbs now fuel rest (
                parse_data now
                  (record g { payload = bytes_of payload })
                  (g.len == 0)
                  (pushed g payload))
          ])
      data_round g payload rest true k more = (_, refl)
      data_round g payload rest false k more = more rest _ k

      segment_round :
          (g : LeotpSeg) (payload rest : List ℕ) (is_int : Bool)
          → length rest ≤ length p
          → More
          → Ends (elim is_int [
            | true ↦
                input_loop fl cbs now fuel rest
                  (input_int fl cbs now (record g { payload = bytes_of payload }) cb)
            | false ↦ elim (not (g.len == 0) && not (sub32 g.range_end g.range_start == g.len)) [
              | true ↦ some (input_done, pushed g payload)
              | false ↦ input_loop fl cbs now fuel rest (
                  parse_data now
                    (record g { payload = bytes_of payload })
                    (g.len == 0)
                    (pushed g payload))
            ]
          ])
      segment_round g payload rest true k more = more rest _ k
      segment_round g payload rest false k more =
          data_round g payload rest
            (not (g.len == 0) && not (sub32 g.range_end g.range_start == g.len)) k more

      round :
          (x : Next)
          → Rest (length p) x
          → More
          → Ends (elim x [
            | finished ↦ some (input_done, cb)
            | bad_length ↦ some (input_bad_length, cb)
            | bad_command ↦ some (input_bad_command, cb)
            | segment g payload rest ↦ elim (g.cmd == cmd_int) [
              | true ↦
                  input_loop fl cbs now fuel rest
                    (input_int fl cbs now (record g { payload = bytes_of payload }) cb)
              | false ↦ elim (not (g.len == 0) && not (sub32 g.range_end g.range_start == g.len)) [
                | true ↦ some (input_done, pushed g payload)
                | false ↦ input_loop fl cbs now fuel rest (
                    parse_data now
                      (record g { payload = bytes_of payload })
                      (g.len == 0)
                      (pushed g payload))
              ]
            ]
          ])
      round finished k more = (_, refl)
      round bad_length k more = (_, refl)
      round bad_command k more = (_, refl)
      round (segment g payload rest) k more = segment_round g payload rest (g.cmd == cmd_int) k more

  -- The loop of `input` over the segments of a datagram, whatever its bytes, ends with one of its
  -- four results: each segment shortens what is left. Whether `parseInt`, which a segment of an
  -- interest leads to, ends is not part of it: see `overrun`.
  pub input-Ends :
      (p : List ℕ) (cb : TransCb fl.Float W)
      → (r : InputResult × TransCb fl.Float W) × (input fl cbs now p cb ≡ some r)
  unfolding input
  input-Ends p cb =
      if_cases Ends (ltb (length p) overhead) (λ t. ((input_short, cb), refl))
        (λ t. input_loop-Ends (suc (length p)) p cb (omega arith))
