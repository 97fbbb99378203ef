-- ===== src/Trans/Kept/Entered.antt =====
-- leotp.cpp, `input`: the callbacks that a datagram leads to.
use leotp.Base.{
  ℕ, zero, suc, ◌*◌, ◌≡◌, Bool, true, false, ◌&&◌, not, Option, none, some, List, ltb, ◌==◌,
  if◌then◌else◌, length, u32, sub32, if_cases,
}
use mathlib.Core.Path.{subst}
use leotp.Seg.{
  LeotpSeg, Role, responder, cmd_int, overhead, bytes_of, Next, finished, bad_length, bad_command,
  segment, next_segment, mss,
}
use leotp.Trans.{TransCb, Callbacks, FloatOps}
use leotp.Trans.Kept.{Good, Same-Good, Safe}
use leotp.Trans.Kept.Quiet.{
  update_hop_rtt-Same, measure-Same, update_cwnd-Same, detect_data_hole-Same, parse_data-Same,
}
use leotp.Trans.Kept.Asked.{output_int-Good, parse_int-Good}
use leotp.Trans.Rtt.{update_hop_rtt}
use leotp.Trans.Congestion.{update_cwnd}
use leotp.Trans.Holes.{detect_data_hole}
use leotp.Trans.Receive.{parse_data}
use leotp.Trans.Answer.{output_int}
use leotp.Trans.Input.{
  InputResult, input_done, input_bad_length, input_bad_command, sext16, input_int, measure,
  input_push, input_loop, input,
}

module _ (fl : FloatOps) {W : Type 0} (role : Role) (Q : W → Type 0) (Sendable : Role → Type 0)
    (cbs : Callbacks fl.Float W) (safe : Safe role Q Sendable cbs) (may : Sendable responder)
    (now : ℕ) where
  open fl use {Float, lit, of_int, of_word, mul, lt}

  abbrev Sound : TransCb Float W → Type 0
  Sound c = Good role Q c

  input_int-Good :
      (seg : LeotpSeg) (cb : TransCb Float W) → Sound cb → Sound (input_int fl cbs now seg cb)
  unfolding input_int
  input_int-Good seg cb g =
      if_cases (λ (c : TransCb Float W). Sound c) (seg.range_start == 0 && seg.range_end == 0)
        (λ _. record { role_is = g.role_is; kept = g.kept })
        (λ _.
          parse_int-Good fl role Q Sendable cbs safe now seg.range_start seg.range_end _ (λ _. may)
            (record { role_is = g.role_is; kept = g.kept }))

  input_push-Good :
      (seg : LeotpSeg) (cb : TransCb Float W) → Sound cb → Sound (input_push fl cbs now seg cb)
  unfolding input_push
  input_push-Good seg cb g = record { role_is = good.role_is; kept = good.kept }
    where
      cb1 : TransCb Float W
      cb1 =
          if not (seg.len == 0) && not (seg.wnd == 0)
          then record cb { rmt_sndq_rest = u32 (sext16 seg.wnd * mss) }
          else cb

      cb2 : TransCb Float W
      cb2 = if ltb seg.ts now then update_hop_rtt (sub32 now seg.ts) cb1 else cb1

      cb3 : TransCb Float W
      cb3 = update_cwnd fl now seg.len (measure fl now seg cb2)

      cb4 : TransCb Float W
      cb4 =
          if lt (mul (of_int cb3.hop_srtt) (lit 9 10)) (of_word (sub32 now cb3.last_send_int_ts))
          then output_int fl cbs now 0 0 cb3
          else cb3

      good1 : Sound cb1
      good1 =
          if_cases (λ (c : TransCb Float W). Sound c) (not (seg.len == 0) && not (seg.wnd == 0))
            (λ _. record { role_is = g.role_is; kept = g.kept }) (λ _. g)

      good2 : Sound cb2
      good2 =
          if_cases (λ (c : TransCb Float W). Sound c) (ltb seg.ts now)
            (λ _.
              Same-Good role Q (update_hop_rtt (sub32 now seg.ts) cb1) cb1
                (update_hop_rtt-Same (sub32 now seg.ts) cb1) good1)
            (λ _. good1)

      good3 : Sound cb3
      good3 =
          Same-Good role Q cb3 (measure fl now seg cb2)
            (update_cwnd-Same fl now seg.len (measure fl now seg cb2))
            (Same-Good role Q (measure fl now seg cb2) cb2 (measure-Same fl now seg cb2) good2)

      good4 : Sound cb4
      good4 =
          if_cases (λ (c : TransCb Float W). Sound c)
            (lt (mul (of_int cb3.hop_srtt) (lit 9 10)) (of_word (sub32 now cb3.last_send_int_ts)))
            (λ _. output_int-Good fl role Q Sendable cbs safe now 0 0 cb3 may good3) (λ _. good3)

      good : Sound (detect_data_hole now seg.range_start seg.range_end cb4).0
      good =
          Same-Good role Q (detect_data_hole now seg.range_start seg.range_end cb4).0 cb4
            (detect_data_hole-Same now seg.range_start seg.range_end cb4) good4

  abbrev Entered : Option (InputResult × TransCb Float W) → Type 0
  Entered none = Unit
  Entered (some r) = Sound r.1

  input_loop-Good :
      (fuel : ℕ) (p : List ℕ) (cb : TransCb Float W)
      → Sound cb
      → Entered (input_loop fl cbs now fuel p cb)
  unfolding input_loop
  input_loop-Good zero p cb g = tt
  input_loop-Good (suc fuel) p cb g = round (next_segment p) (λ q c h. input_loop-Good fuel q c h)
    where
      More : Type 0
      More = (q : List ℕ) (c : TransCb Float W) → Sound c → Entered (input_loop fl cbs now fuel q c)

      pushed : LeotpSeg → List ℕ → TransCb Float W
      pushed h payload = input_push fl cbs now (record h { payload = bytes_of payload }) cb

      pushed_good : (h : LeotpSeg) (payload : List ℕ) → Sound (pushed h payload)
      pushed_good h payload = input_push-Good (record h { payload = bytes_of payload }) cb g

      parsed_good :
          (h : LeotpSeg) (payload : List ℕ)
          → Sound (
              parse_data now
                (record h { payload = bytes_of payload })
                (h.len == 0)
                (pushed h payload))
      parsed_good h payload =
          Same-Good role Q _ (pushed h payload)
            (parse_data-Same now (record h { payload = bytes_of payload }) (h.len == 0)
              (pushed h payload))
            (pushed_good h payload)

      data_round :
          (h : LeotpSeg) (payload rest : List ℕ) (bad : Bool)
          → More
          → Entered (elim bad [
            | true ↦ some (input_done, pushed h payload)
            | false ↦ input_loop fl cbs now fuel rest (
                parse_data now
                  (record h { payload = bytes_of payload })
                  (h.len == 0)
                  (pushed h payload))
          ])
      data_round h payload rest true more = pushed_good h payload
      data_round h payload rest false more = more rest _ (parsed_good h payload)

      segment_round :
          (h : LeotpSeg) (payload rest : List ℕ) (is_int : Bool)
          → More
          → Entered (elim is_int [
            | true ↦
                input_loop fl cbs now fuel rest
                  (input_int fl cbs now (record h { payload = bytes_of payload }) cb)
            | false ↦ elim (not (h.len == 0) && not (sub32 h.range_end h.range_start == h.len)) [
              | true ↦ some (input_done, pushed h payload)
              | false ↦ input_loop fl cbs now fuel rest (
                  parse_data now
                    (record h { payload = bytes_of payload })
                    (h.len == 0)
                    (pushed h payload))
            ]
          ])
      segment_round h payload rest true more =
          more rest _ (input_int-Good (record h { payload = bytes_of payload }) cb g)
      segment_round h payload rest false more =
          data_round h payload rest
            (not (h.len == 0) && not (sub32 h.range_end h.range_start == h.len)) more

      round :
          (x : Next)
          → More
          → Entered (elim x [
            | finished ↦ some (input_done, cb)
            | bad_length ↦ some (input_bad_length, cb)
            | bad_command ↦ some (input_bad_command, cb)
            | segment h payload rest ↦ elim (h.cmd == cmd_int) [
              | true ↦
                  input_loop fl cbs now fuel rest
                    (input_int fl cbs now (record h { payload = bytes_of payload }) cb)
              | false ↦ elim (not (h.len == 0) && not (sub32 h.range_end h.range_start == h.len)) [
                | true ↦ some (input_done, pushed h payload)
                | false ↦ input_loop fl cbs now fuel rest (
                    parse_data now
                      (record h { payload = bytes_of payload })
                      (h.len == 0)
                      (pushed h payload))
              ]
            ]
          ])
      round finished more = g
      round bad_length more = g
      round bad_command more = g
      round (segment h payload rest) more = segment_round h payload rest (h.cmd == cmd_int) more

  input-Entered : (p : List ℕ) (cb : TransCb Float W) → Sound cb → Entered (input fl cbs now p cb)
  unfolding input
  input-Entered p cb g =
      if_cases (λ o. Entered o) (ltb (length p) overhead) (λ _. g)
        (λ _. input_loop-Good (suc (length p)) p cb g)

  -- Whatever a datagram holds, `input` keeps the role and whatever the callbacks keep, if
  -- `outputFunc` keeps it for interests that are sent towards the responder.
  pub input-Good :
      (p : List ℕ) (cb c : TransCb Float W) (r : InputResult)
      → Good role Q cb
      → input fl cbs now p cb ≡ some (r, c)
      → Good role Q c
  input-Good p cb c r g e = subst (λ o. Entered o) e (input-Entered p cb g)
