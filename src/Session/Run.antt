-- ===== src/Session/Run.antt =====
-- udp_leotp.cpp, the threads of a process as steps on its sessions, in any order.
use leotp.Base.{
  absent_some, some_same, ℕ, ◌+◌, ◌/◌, ◌≡◌, refl, sym, ap, ◌∙◌, ◌≢◌, inl, inr, Bool, true, false,
  Option, none, some, Bool-cases,
}
use mathlib.Core.Path.{subst}
use mathlib.Core.Bool.{true≢false, false≢true}
use leotp.Seg.{Role, Bytes, judge_seg_dst}
use leotp.Trans.{FloatOps}
use leotp.Trans.Kept.{Same-Good}
use leotp.Trans.Kept.Served.{notify_new_data-Same, recv-Same, request-Same}
use leotp.Trans.Send.{notify_new_data}
use leotp.Trans.Input.{InputResult}
use leotp.Trans.Interest.{accepted}
use leotp.Trans.Timer.{returned}
use leotp.Cache.{Cache, insert, block_len}
use leotp.ByteMap.{ByteArray, eq_bytes, read_value}
use leotp.ByteMap.Laws.{eq_bytes_iff}
use leotp.Session.{Sess, User, LeotpSess}
use leotp.Session.Create.{Setting}
use leotp.Session.Operations.{after_insert, sess_request, recv_data, insert_data, sess_update}
use leotp.Session.Listen.{
  Node, ListenArgs, Arrival, quad_for, Handled, not_leotp, unknown_packet, ended, handled, dispatch,
  resume, put_back, unsat_of, recv_round,
}
use leotp.Session.Running.{Owned, Session, AppKeeps, sess_update-Owned}
use leotp.Session.Filed.{Filed, AllFiled}
use leotp.Session.Dispatch.{Ignored, Stuck, HandedOn, unsat_of-Keeps, recv_round-Dispatched}
use leotp.Session.Dispatch.Handed.{Leaves, Dispatched, put_back-Dispatched}

module _ (fl : FloatOps) (scratch : Bytes) (args : ListenArgs fl.Float) (listen_fd : ℕ) where
  open fl use {Float}

  -- A step of one of the threads: the listener, with descriptor 0 in use; the timer of a session;
  -- or the application's threads with `request`, `recvData` and `insertData`.
  pub data Step : Node Float → Node Float → Type 0 where
    arrives :
        (set : Setting) (a : Arrival) (r : InputResult) (n m : Node Float)
        → set.fd_to_resp ≢ 0
        → recv_round fl scratch args set listen_fd a n ≡ handled r m
        → Step n m
    ticks :
        (key : ByteArray) (fuel now : ℕ) (cb c : LeotpSess Float) (n : Node Float)
        → read_value key n.sess_map ≡ some cb
        → sess_update fl scratch (unsat_of args cb.node_role) fuel now (resume n.shared cb)
          ≡ returned c
        → Step n (put_back key c n)
    asks :
        (key : ByteArray) (from to : ℕ) (cb c : LeotpSess Float) (n : Node Float)
        → read_value key n.sess_map ≡ some cb
        → sess_request from to (resume n.shared cb) ≡ accepted c
        → Step n (put_back key c n)
    takes :
        (key : ByteArray) (max : ℕ) (cb : LeotpSess Float) (n : Node Float)
        → read_value key n.sess_map ≡ some cb
        → Step n (put_back key (recv_data max (resume n.shared cb)).1 n)
    inserts :
        (key : ByteArray) (fresh buf : Bytes) (from to : ℕ) (cb c : LeotpSess Float)
        (n : Node Float)
        → read_value key n.sess_map ≡ some cb
        → insert_data fresh buf from to (resume n.shared cb) ≡ some c
        → Step n (put_back key c n)

  pub data Run : Node Float → Node Float → Type 0 where
    stop : (n : Node Float) → Run n n
    go : (n m k : Node Float) → Step n m → Run m k → Run n k

abbrev is_handled : {F : Type 0} → Handled F → Bool
is_handled not_leotp = false
is_handled unknown_packet = false
is_handled ended = false
is_handled (handled r n) = true

recv_round-none :
    (fl : FloatOps) (scratch : Bytes) (args : ListenArgs fl.Float) (set : Setting) (listen_fd : ℕ)
    (a : Arrival) (n : Node fl.Float)
    → judge_seg_dst a.bytes ≡ none
    → recv_round fl scratch args set listen_fd a n ≡ not_leotp
unfolding recv_round
recv_round-none fl scratch args set listen_fd a n j =
    ap {A = Option Role} {B = Handled fl.Float}
      (λ o. elim o [ none ↦ not_leotp | some d ↦ dispatch fl scratch args set listen_fd a d n ]) j

-- Every session is filed, and no session of before is missing.
abbrev pub Stays : {F : Type 0} → Node F → Node F → Type 0
Stays {F = F} n m =
    AllFiled m.sess_map
    × ((k : ByteArray) (cb : LeotpSess F)
        → read_value k n.sess_map ≡ some cb
        → (c : LeotpSess F) × (read_value k m.sess_map ≡ some c))

module _ {F : Type 0} where
  Dispatched-Stays : (key : ByteArray) (n m : Node F) → Dispatched key n m → Stays n m
  Dispatched-Stays key n m (all, there, others) = (
    all,
    λ k cb found. elim (Bool-cases (eq_bytes key k)) [
      | inl same ↦
          subst (λ i. (c : LeotpSess F) × (read_value i m.sess_map ≡ some c))
            ((eq_bytes_iff key k).0 same) there
      | inr other ↦
          (cb, others k (λ e. true≢false (sym ((eq_bytes_iff key k).1 e) ∙ other)) ∙ found)
    ],
  )

  -- `insertData` keeps what does not depend on the cache.
  pub insert_data-Session :
      (P : Sess → User → Type 0)
      → ((s : Sess) (u : User) (x : Cache)
          → P s u
          → P s (record u { shared = record u.shared { cache = x } }))
      → (fresh buf : Bytes) (from to : ℕ) (cb c : LeotpSess F) (s : Sess) → Session P s cb
      → insert_data fresh buf from to cb ≡ some c
      → Session P s c
  unfolding insert_data
  insert_data-Session P free fresh buf from to cb c s g =
      stored
        (insert fresh cb.user.sess.name_chars from to (to / block_len + 2) buf cb.user.shared.cache)
    where
      with_blocks : Cache → LeotpSess F
      with_blocks x = record cb {
        user = record cb.user { shared = record cb.user.shared { cache = x } };
      }

      stored : (o : Option Cache) → after_insert buf from to cb o ≡ some c → Session P s c
      stored none e = absurd (absent_some c e)
      stored (some x) e =
          some_same (λ (z : LeotpSess F). Session P s z)
            (notify_new_data buf from to (with_blocks x)) c e
            (Same-Good s.node_role (P s) (notify_new_data buf from to (with_blocks x))
              (with_blocks x) (notify_new_data-Same buf from to (with_blocks x))
              (record { role_is = g.role_is; kept = free s cb.user x g.kept }))

  -- A filed session as its thread finds it.
  resumed :
      (k : ByteArray) (cb : LeotpSess F) (n : Node F)
      → Filed k cb
      → Session Owned cb.user.sess (resume n.shared cb)
  resumed k cb n f = record { role_is = f.role; kept = refl }

module _ (fl : FloatOps) (scratch : Bytes) (args : ListenArgs fl.Float) (listen_fd : ℕ)
    (app : (s : Sess) → AppKeeps Owned s args.on_unsat_int) where
  open fl use {Float}

  Step-Stays :
      {n m : Node Float} → Step fl scratch args listen_fd n m → AllFiled n.sess_map → Stays n m
  unfolding sess_request recv_data
  Step-Stays (arrives set a r n m h e) all = arrived (judge_seg_dst a.bytes) refl
    where
      arrived : (o : Option Role) → judge_seg_dst a.bytes ≡ o → Stays n m
      arrived none j = absurd (
          false≢true
            (ap is_handled (sym (recv_round-none fl scratch args set listen_fd a n j) ∙ e)))
      arrived (some dst) j = Dispatched-Stays (quad_for dst a).chars n m (
          (subst
            (λ (x : Handled Float).
              Leaves (Ignored fl scratch args app a dst n)
                (Stuck fl scratch args app set listen_fd a dst n)
                (HandedOn fl scratch args app set listen_fd a dst n) x)
            e (recv_round-Dispatched fl scratch args app set listen_fd a dst n h all j)).0)
  Step-Stays (ticks key fuel now cb c n found e) all = Dispatched-Stays key n (put_back key c n) (
      put_back-Dispatched key cb c n all found (
        sess_update-Owned fl scratch (unsat_of args cb.node_role) cb.user.sess fuel now
          (resume n.shared cb) c (unsat_of-Keeps fl scratch args app cb.user.sess cb.node_role)
          (resumed key cb n (all key cb found)) e))
  Step-Stays (asks key from to cb c n found e) all = Dispatched-Stays key n (put_back key c n) (
      put_back-Dispatched key cb c n all found (
        Same-Good cb.user.sess.node_role (Owned cb.user.sess) c (resume n.shared cb)
          (request-Same from to (resume n.shared cb) c e) (resumed key cb n (all key cb found))))
  Step-Stays (takes key max cb n found) all =
      Dispatched-Stays key n (put_back key (recv_data max (resume n.shared cb)).1 n) (
        put_back-Dispatched key cb (recv_data max (resume n.shared cb)).1 n all found (
          Same-Good cb.user.sess.node_role (Owned cb.user.sess)
            (recv_data max (resume n.shared cb)).1 (resume n.shared cb)
            (recv-Same max (resume n.shared cb)) (resumed key cb n (all key cb found))))
  Step-Stays (inserts key fresh buf from to cb c n found e) all =
      Dispatched-Stays key n (put_back key c n) (
        put_back-Dispatched key cb c n all found (
          insert_data-Session Owned (λ s u x o. o) fresh buf from to (resume n.shared cb) c
            cb.user.sess (resumed key cb n (all key cb found)) e))

  -- Whatever the threads of a process do, in any order: if every session was filed under the
  -- characters of its own quadruple, with the role of its control block, then it is afterwards, and
  -- each key that had a session has one. Descriptor 0 is in use, and the application's function
  -- leaves its session's fields alone.
  pub Run-Stays :
      {n m : Node Float} → Run fl scratch args listen_fd n m → AllFiled n.sess_map → Stays n m
  Run-Stays (stop n) all = (all, λ k cb found. (cb, found))
  Run-Stays (go n m k step rest) all =
      let (filed, there) = Step-Stays step all in
      let (filed', there') = Run-Stays rest filed in
      (filed', λ i cb found. let (c, found') = there i cb found in there' i c found')
