-- ===== src/Session/Listen.antt =====
-- udp_leotp.cpp, `udpRecvLoop`: a datagram on its way to its session. The sessions of a process and
-- what they share are one state; a session runs on the shared part as it is then.
use leotp.Base.{ℕ, Bool, ◌&&◌, Option, none, some, List, ◌==◌, if◌then◌else◌}
use leotp.Seg.{Role, requester, responder, midnode, judge_seg_dst, Bytes}
use leotp.Trans.{FloatOps}
use leotp.Trans.Input.{InputResult}
use leotp.Trans.Deliver.{is_requester}
use leotp.Trans.Output.{is_responder}
use leotp.ByteMap.{ByteArray, ByteMap, read_value, set_value, store}
use leotp.Session.{Addr, addr_cmp, Quad, quad_of, Shared, LeotpSess, no_fd}
use leotp.Session.Socket.{create_socket}
use leotp.Session.Callbacks.{null_function}
use leotp.Session.Create.{Setting, fd_of, new_responder, new_midnode}
use leotp.Session.Operations.{input_udp}

-- The sessions, `sessMapPtr`, and what they share.
pub record Node (F : Type 0) : Type 0 where
  pub sess_map : ByteMap (LeotpSess F)
  pub shared : Shared

-- `udpRecvLoopArgs`, without what `Node` holds and the thread `onNewSess`.
pub record ListenArgs (F : Type 0) : Type 0 where
  pub on_unsat_int : ℕ → ℕ → LeotpSess F → LeotpSess F
  pub listen_addr : Addr
  pub listen_fd : ℕ

-- The start of the loop: the descriptor to listen on.
unfoldable pub open_listener : {F : Type 0} → (Addr → Bool) → ℕ → ListenArgs F → Option ℕ
open_listener bind fd args =
    if args.listen_fd == no_fd
    then fd_of (create_socket bind fd args.listen_addr.sin_addr args.listen_addr.sin_port)
    else some args.listen_fd

-- What `recvmsg` gives: the sender, the original destination and the bytes.
pub record Arrival : Type 0 where
  pub send_addr : Addr
  pub recv_addr : Addr
  pub bytes : List ℕ

-- The quadruple of a datagram that goes to the given role.
unfoldable pub quad_for : Role → Arrival → Quad
unfolding quad_of
quad_for dst a =
    if is_responder dst then quad_of a.send_addr a.recv_addr else quad_of a.recv_addr a.send_addr

-- What a round does: it ignores the datagram, as no LEOTP datagram or as data for no session here;
-- it hands it to a session; or the process ends.
pub data Handled (F : Type 0) : Type 0 where
  not_leotp unknown_packet ended : Handled F
  handled : InputResult → Node F → Handled F

-- A session as its thread finds it: with the shared part of now.
abbrev pub resume : {F : Type 0} → Shared → LeotpSess F → LeotpSess F
resume shared cb = record cb { user = record cb.user { shared = shared } }

-- The state after a step of a session.
abbrev pub put_back : {F : Type 0} → ByteArray → LeotpSess F → Node F → Node F
put_back key c node = record { sess_map = store key c node.sess_map; shared = c.user.shared }

-- The function that the session was given.
abbrev pub unsat_of : {F : Type 0} → ListenArgs F → Role → ℕ → ℕ → LeotpSess F → LeotpSess F
unsat_of args responder = args.on_unsat_int
unsat_of args requester = null_function
unsat_of args midnode = null_function

module _ (fl : FloatOps) (scratch : Bytes) (args : ListenArgs fl.Float) where
  open fl use {Float}

  abbrev pub after_input :
      ByteArray → Node Float → Option (InputResult × LeotpSess Float) → Handled Float
  after_input key node none = ended
  after_input key node (some r) = handled r.0 (put_back key r.1 node)

  unfoldable pub enter : ℕ → List ℕ → ByteArray → LeotpSess Float → Node Float → Handled Float
  enter now p key cb node =
      after_input key node
        (input_udp fl scratch (unsat_of args cb.node_role) now p (resume node.shared cb))

  -- A session for a quadruple that has none; `listen_fd` is the descriptor that is listened on.
  unfoldable pub new_session : Setting → ℕ → Bool → Quad → Shared → Option (LeotpSess Float)
  new_session set listen_fd is_endp quad shared =
      if is_endp
      then some (new_responder fl set quad listen_fd shared)
      else new_midnode fl set quad shared

  unfoldable pub establish :
      ℕ → List ℕ → Quad → Node Float → Option (LeotpSess Float) → Handled Float
  establish now p quad node none = ended
  establish now p quad node (some cb) =
      enter now p quad.chars cb (record node { sess_map = set_value quad.chars cb node.sess_map })

  unfoldable pub dispatch : Setting → ℕ → Arrival → Role → Node Float → Handled Float
  unfolding quad_for
  dispatch set listen_fd a dst node =
      let quad = quad_for dst a in
      let is_endp = addr_cmp a.recv_addr args.listen_addr in
      elim (read_value quad.chars node.sess_map) [
        | some cb ↦ enter set.now a.bytes quad.chars cb node
        | none ↦
            if is_endp && is_requester dst
            then unknown_packet
            else establish set.now a.bytes quad node
                (new_session set listen_fd is_endp quad node.shared)
      ]

  -- One round of the loop.
  unfoldable pub recv_round : Setting → ℕ → Arrival → Node Float → Handled Float
  recv_round set listen_fd a node = elim (judge_seg_dst a.bytes) [
    | none ↦ not_leotp
    | some dst ↦ dispatch set listen_fd a dst node
  ]
