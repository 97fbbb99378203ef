-- ===== src/Trans.antt =====
-- include/leotp.h: the state of a transport control block, LeotpTransCB, and what it calls.
-- `IUINT32` and `int` fields are 32-bit patterns. `tmpBuffer` is scratch space: a datagram is
-- built as a list. `rttQueue` belongs to the RTT scheme that the constant `RTTscheme` turns off.
pub mod Interest
pub mod Holes
pub mod Send
pub mod Output
pub mod Rate
pub mod Answer
pub mod Congestion
pub mod Retransmit
pub mod Timer
pub mod Input
pub mod Rtt
pub mod IntBuf
pub mod Deliver
pub mod Receive
pub mod Kept
use leotp.Base.{
  ℕ, zero, suc, ◌+◌, ◌-◌, ◌*◌, ◌/◌, ◌%◌, ◌^◌, ◌≤◌, ◌<◌, ◌≡◌, refl, sym, ap, ◌∙◌, ◌≢◌, ◌↔◌, ◌⊎◌, inl,
  inr, Bool, true, false, ◌&&◌, ◌||◌, not, Option, none, some, List, [], ◌∷◌, ◌++◌, map, arith, ltb,
  leb, ◌==◌, if◌then◌else◌, length, length-append, All, All-append, All-mono, u32, add32, sub32,
  slt, Bool-cases, Option-cases, if_cases, sub32_le, ltb→lt, lt→ltb, le→ltb, ltb→le, take, drop,
  take-length-append, drop-length-append,
}
use leotp.Seg.{LeotpSeg, Role, Bytes, mss, overhead}

abbrev pub sndq_max : ℕ
sndq_max = 5 * mss

abbrev pub intb_max : ℕ
intb_max = 20000 * mss

abbrev pub int_range_limit : ℕ
int_range_limit = mss

abbrev pub wnd_rcv : ℕ
wnd_rcv = 128

abbrev pub update_interval : ℕ
update_interval = 1

abbrev pub rto_min : ℕ
rto_min = 20

abbrev pub rto_def : ℕ
rto_def = 10000

abbrev pub rto_max : ℕ
rto_max = 60000

abbrev pub hole_wait : ℕ
hole_wait = 10

abbrev pub snhole_timeout : ℕ
snhole_timeout = 200

-- `ByteRange`, as compiled with HBH_CC.
pub record ByteRange : Type 0 where
  pub start_byte : ℕ
  pub end_byte : ℕ
  pub ts : ℕ

pub record Hole : Type 0 where
  pub start_byte : ℕ
  pub end_byte : ℕ
  pub ts : ℕ
  pub count : ℕ

-- `itr` is the `rangeStart` of the segment of `rcvBuf` that the iterator points to; the segments
-- there are disjoint.
pub record RcvBufItr : Type 0 where
  pub start_byte : ℕ
  pub end_byte : ℕ
  pub itr : ℕ

pub record StatInfo : Type 0 where
  pub ssid : ℕ
  pub start_ts : ℕ
  pub xmit : ℕ
  pub last_print_ts : ℕ
  pub recved_udp : ℕ
  pub recved_leotp : ℕ
  pub sent_leotp : ℕ
  pub cnt_timeout : ℕ
  pub cnt_int_hole : ℕ
  pub cnt_data_hole : ℕ

unfoldable pub stat_reset : ℕ → StatInfo → StatInfo
stat_reset now s = record {
  ssid = s.ssid;
  start_ts = s.start_ts;
  xmit = 0;
  last_print_ts = now;
  recved_udp = 0;
  recved_leotp = 0;
  sent_leotp = 0;
  cnt_timeout = 0;
  cnt_int_hole = 0;
  cnt_data_hole = 0;
}

unfoldable pub stat_init : ℕ → StatInfo → StatInfo
unfolding stat_reset
stat_init now s = stat_reset now (record s { ssid = now % 10000; start_ts = now })

pub data CcState : Type 0 where
  slow_start cong_avoid : CcState

-- `F` is `float`; `W` is the object behind `user` that the callbacks act on.
pub record TransCb (F W : Type 0) : Type 0 where
  pub state : ℕ
  pub updated : Bool
  pub next_flush_ts : ℕ
  pub last_flush_ts : ℕ
  pub stat : StatInfo
  pub node_role : Role
  pub int_queue : List ByteRange
  pub int_buf : List LeotpSeg
  pub rcv_buf : List LeotpSeg
  pub rcv_buf_itrs : List RcvBufItr
  pub rcv_nxt : ℕ
  pub rcv_queue : List LeotpSeg
  pub pending_ints : List ByteRange
  pub snd_queue : List LeotpSeg
  pub srtt : ℕ
  pub rttvar : ℕ
  pub rto : ℕ
  pub conseq_timeout : ℕ
  pub data_holes : List Hole
  pub data_next_range_start : ℕ
  pub rmt_sndq_rest : ℕ
  pub int_output_limit : ℕ
  pub cc_state : CcState
  pub cc_data_len : ℕ
  pub cwnd : F
  pub int_hop_owd : ℕ
  pub hop_srtt : ℕ
  pub hop_rttvar : ℕ
  pub last_send_int_ts : ℕ
  -- No field of the code: the state is that of a run that is not followed to its end. It is set
  -- where the loop of `parseInt` goes on although `segStart` has wrapped around 2^32, and where the
  -- insertion of `provideData` does not end; what the model has from there on is no run of the
  -- code.
  pub overrun : Bool
  pub last_thrp_update_ts : ℕ
  pub recved_bytes_last_hrtt : ℕ
  pub recved_bytes_this_hrtt : ℕ
  pub thrp_last_period : F
  pub has_loss_event : Bool
  pub hrtt_queue : List (ℕ × ℕ)
  pub last_cwnd_decr_ts : ℕ
  pub snd_queue_bytes : ℕ
  pub int_buf_bytes : ℕ
  pub rmt_send_rate : F
  pub data_output_limit : ℕ
  pub user : W

-- The functions that the constructor is given. `fetch_data_func` returns the length and what it
-- has written to the buffer; `on_unsat_int` may call back into the control block.
pub record Callbacks (F W : Type 0) : Type 0 where
  pub output_func : List ℕ → Role → W → W
  pub fetch_data_func : ℕ → ℕ → W → ℕ × Bytes × W
  pub on_unsat_int : ℕ → ℕ → TransCb F W → TransCb F W

-- `float` and `double` as one type, with the operations that the code applies to them. `of_int` and
-- `of_word` convert a pattern read as `int` and as `IUINT32`; `lit a b` is the literal a / b.
pub record FloatOps : Type 1 where
  pub Float : Type 0
  pub lit : ℕ → ℕ → Float
  pub of_int : ℕ → Float
  pub of_word : ℕ → Float
  pub to_int : Float → ℕ
  pub to_word : Float → ℕ
  pub to_int16 : Float → ℕ
  pub add : Float → Float → Float
  pub sub : Float → Float → Float
  pub mul : Float → Float → Float
  pub div : Float → Float → Float
  pub pow : Float → Float → Float
  pub lt : Float → Float → Bool
  pub eq : Float → Float → Bool

-- The constructor, at time `now`.
module _ (fl : FloatOps) {W : Type 0} where
  open fl use {Float, lit}

  unfoldable pub new_trans_cb : ℕ → W → Role → StatInfo → TransCb Float W
  unfolding stat_init
  new_trans_cb now user node_role uninit = record {
    state = 0;
    updated = false;
    next_flush_ts = 0;
    last_flush_ts = 0;
    stat = stat_init now uninit;
    node_role = node_role;
    int_queue = [];
    int_buf = [];
    rcv_buf = [];
    rcv_buf_itrs = [];
    rcv_nxt = 0;
    rcv_queue = [];
    pending_ints = [];
    snd_queue = [];
    srtt = 0;
    rttvar = 0;
    rto = rto_def;
    conseq_timeout = 0;
    data_holes = [];
    data_next_range_start = 0;
    rmt_sndq_rest = sndq_max;
    int_output_limit = sndq_max;
    cc_state = slow_start;
    cc_data_len = 0;
    cwnd = lit 2 10;
    int_hop_owd = 2 ^ 32 - 1;
    hop_srtt = 0;
    hop_rttvar = 0;
    last_send_int_ts = 0;
    overrun = false;
    last_thrp_update_ts = 0;
    recved_bytes_last_hrtt = 0;
    recved_bytes_this_hrtt = 0;
    thrp_last_period = lit 0 1;
    has_loss_event = false;
    hrtt_queue = [];
    last_cwnd_decr_ts = 0;
    snd_queue_bytes = 0;
    int_buf_bytes = 0;
    rmt_send_rate = lit 1 10;
    data_output_limit = mss;
    user = user;
  }
