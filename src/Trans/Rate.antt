-- ===== src/Trans/Rate.antt =====
-- leotp.cpp: the rates in Mbit/s and the congestion window, over the operations of `float`.
use leotp.Base.{
  ℕ, ◌*◌, Bool, true, ◌||◌, not, List, [], ◌∷◌, ltb, ◌==◌, if◌then◌else◌, u32, sub32, slt,
}
use leotp.Seg.{mss}
use leotp.Trans.{TransCb, FloatOps, sndq_max}
use leotp.Trans.Deliver.{is_requester}
use leotp.Trans.Output.{smin}

abbrev pub ssthresh_init : ℕ
ssthresh_init = 100

abbrev pub rtt0 : ℕ
rtt0 = 30

abbrev pub queueing_threshold : ℕ
queueing_threshold = 3000

abbrev pub hrtt_min_wnd : ℕ
hrtt_min_wnd = 10000

abbrev pub min_hrtt : ℕ → List (ℕ × ℕ) → ℕ
min_hrtt m [] = m
min_hrtt m (pr ∷ q) = min_hrtt (smin m pr.1) q

-- `while (!hrttQueue.empty() && current - first > HrttMinWnd) pop_front`.
unfoldable pub forget_old : ℕ → List (ℕ × ℕ) → List (ℕ × ℕ)
forget_old current [] = []
forget_old current (pr ∷ q) =
    if ltb hrtt_min_wnd (sub32 current pr.0) then forget_old current q else pr ∷ q

-- The time of the last entry. The code reads it also when the queue is empty; here it is then 0.
abbrev pub last_ts : List (ℕ × ℕ) → ℕ
last_ts [] = 0
last_ts (pr ∷ []) = pr.0
last_ts (pr ∷ (x ∷ q)) = last_ts (x ∷ q)

module _ (fl : FloatOps) where
  open fl use {Float, lit, of_int, of_word, to_int, to_int16, add, sub, mul, div, pow, lt, eq}

  abbrev pub fmin : Float → Float → Float
  fmin a b = if lt b a then b else a

  abbrev pub fmax : Float → Float → Float
  fmax a b = if lt a b then b else a

  abbrev pub sendrate_min : Float
  sendrate_min = lit 1 10

  abbrev pub sendrate_max : Float
  sendrate_max = lit 300 1

  abbrev pub cwnd_min : Float
  cwnd_min = lit 2 10

  unfoldable pub bytes_to_mbit : ℕ → Float
  bytes_to_mbit bytes = div (of_int bytes) (of_int 125000)

  module _ {W : Type 0} where
    unfoldable pub get_data_send_rate : TransCb Float W → ℕ
    get_data_send_rate cb =
        let m = min_hrtt 999999 cb.hrtt_queue in
        let window =
          mul (div (bytes_to_mbit (to_int (mul cb.cwnd (of_word mss)))) (of_int m)) (of_int 1000) in
        let for_queue =
          add
            (mul
              (div (sub (bytes_to_mbit sndq_max) (bytes_to_mbit cb.snd_queue_bytes))
                (of_int cb.hop_srtt))
              (of_int 1000))
            cb.rmt_send_rate in
        let limited = if is_requester cb.node_role then window else fmin window for_queue in
        let rate = if cb.hop_srtt == 0 then sendrate_min else fmax limited sendrate_min in
        to_int16 (mul (fmin rate sendrate_max) (of_int 100))

    unfoldable pub allow_cwnd_increase : TransCb Float W → Bool
    allow_cwnd_increase cb =
        if eq cb.thrp_last_period (of_int 0) || eq cb.cwnd (of_int 0)
        then true
        else not (
            lt cb.thrp_last_period (
              div
                (mul (div (bytes_to_mbit (to_int (mul cb.cwnd (of_word mss)))) (of_int cb.hop_srtt))
                  (of_int 1000))
                (of_int 2)))

    unfoldable pub allow_cwnd_decrease : ℕ → TransCb Float W → Bool
    allow_cwnd_decrease current cb =
        if cb.last_cwnd_decr_ts == 0 || cb.hop_srtt == 0
        then true
        else not (slt (sub32 current cb.last_cwnd_decr_ts) (u32 (cb.hop_srtt * 2)))
