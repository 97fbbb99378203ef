-- ===== src/Session/Dispatch.antt =====
-- udp_leotp.cpp, a round of `udpRecvLoop` against the map of sessions.
pub mod Handed
use leotp.Base.{
  true, ℕ, ◌≡◌, refl, sym, ◌∙◌, ◌≢◌, ◌⊎◌, inl, inr, Bool, ◌&&◌, Option, none, some, List,
  if◌then◌else◌, if_cases,
}
use mathlib.Core.Path.{subst}
use mathlib.Core.Bool.{true≢false}
use leotp.Seg.{Role, requester, responder, midnode, judge_seg_dst, Bytes}
use leotp.Trans.{FloatOps}
use leotp.Trans.Input.{InputResult}
use leotp.Trans.Deliver.{is_requester}
use leotp.Trans.Output.{is_responder}
use leotp.ByteMap.{ByteArray, eq_bytes, read_value, set_value}
use leotp.ByteMap.Laws.{eq_bytes_iff, read_value-set_value, read_value-store}
use leotp.Session.{addr_cmp, Quad, Sess, Shared, LeotpSess}
use leotp.Session.Create.{Setting}
use leotp.Session.Listen.{
  Node, ListenArgs, Arrival, quad_for, Handled, not_leotp, unknown_packet, ended, handled, resume,
  put_back, unsat_of, after_input, enter, new_session, establish, dispatch, recv_round,
}
use leotp.Session.Operations.{input_udp}
use leotp.Session.Running.{Owned, Session, AppKeeps, input_udp-Owned, input_udp-Ends}
use leotp.Session.Filed.{Filed, AllFiled, put_back-AllFiled, set_value-AllFiled, new_session-Filed}
use leotp.Session.Dispatch.Handed.{
  Leaves, Leaves-mono, Dispatched, read-same, put_back-Dispatched, set_value-Dispatched,
}

module _ (fl : FloatOps) (scratch : Bytes) (args : ListenArgs fl.Float)
    (app : (s : Sess) → AppKeeps Owned s args.on_unsat_int) where
  open fl use {Float}

  pub unsat_of-Keeps : (s : Sess) (r : Role) → AppKeeps Owned s (unsat_of args r)
  unsat_of-Keeps s responder = app s
  unsat_of-Keeps s requester = λ from to cb is g. record { role_is = g.role_is; kept = g.kept }
  unsat_of-Keeps s midnode = λ from to cb is g. record { role_is = g.role_is; kept = g.kept }

  -- The session `cb` takes the datagram `p`, on the shared part `shared`: `inputUDP` runs on it and
  -- gives `r`, and the state that it leaves is what the map then has for `key`, and what is shared.
  abbrev pub Takes :
      ℕ → List ℕ → ByteArray → LeotpSess Float → Shared → InputResult → Node Float → Type 0
  Takes now p key cb shared r after =
      (c : LeotpSess Float) × (input_udp fl scratch (unsat_of args cb.node_role) now p
          (resume shared cb)
        ≡ some (r, c))
      × (read_value key after.sess_map ≡ some c)
      × (after.shared ≡ c.user.shared)

  abbrev Entered :
      ℕ → List ℕ → ByteArray → LeotpSess Float → Node Float → InputResult → Node Float → Type 0
  Entered now p key cb node r after =
      Dispatched key node after × Takes now p key cb node.shared r after

  enter-Entered :
      (now : ℕ) (p : List ℕ) (key : ByteArray) (cb : LeotpSess Float) (node : Node Float)
      → AllFiled node.sess_map
      → read_value key node.sess_map ≡ some cb
      → Leaves ⊥ ⊥ (Entered now p key cb node) (enter fl scratch args now p key cb node)
  unfolding enter
  enter-Entered now p key cb node all found =
      let (r, e) =
        input_udp-Ends fl scratch (unsat_of args cb.node_role) cb.user.sess now p
          (resume node.shared cb) in
      subst (λ o. Leaves ⊥ ⊥ (Entered now p key cb node) (after_input fl scratch args key node o))
        (sym e) (entered r e)
    where
      entered :
          (r : InputResult × LeotpSess Float)
          → input_udp fl scratch (unsat_of args cb.node_role) now p (resume node.shared cb) ≡ some r
          → Entered now p key cb node r.0 (put_back key r.1 node)
      entered (r, c) e = (
        put_back-Dispatched key cb c node all found (
            input_udp-Owned fl scratch (unsat_of args cb.node_role) cb.user.sess now p
              (resume node.shared cb) c r (unsat_of-Keeps cb.user.sess cb.node_role)
              (record { role_is = (all key cb found).role; kept = refl }) e),
        (
          c,
          e,
          read_value-store key key c cb node.sess_map found
              ∙ read-same key c (read_value key node.sess_map),
          refl,
        ),
      )

  -- The same for a session that is made first.
  abbrev Made :
      ℕ
      → List ℕ
      → ByteArray
      → Option (LeotpSess Float)
      → Node Float
      → InputResult
      → Node Float
      → Type 0
  Made now p key o node r after =
      Dispatched key node after
      × (cb : LeotpSess Float) × (o ≡ some cb)
      × Takes now p key cb node.shared r after

  establish-Made :
      (now : ℕ) (p : List ℕ) (quad : Quad) (node : Node Float) (o : Option (LeotpSess Float))
      → AllFiled node.sess_map
      → read_value quad.chars node.sess_map ≡ none
      → ((cb : LeotpSess Float) → o ≡ some cb → Filed quad.chars cb)
      → Leaves ⊥
          (o ≡ none)
          (Made now p quad.chars o node)
          (establish fl scratch args now p quad node o)
  unfolding establish
  establish-Made now p quad node none all absent f = refl
  establish-Made now p quad node (some cb) all absent f =
      Leaves-mono ⊥ ⊥ ⊥ (some cb ≡ none) (Entered now p quad.chars cb made)
        (Made now p quad.chars (some cb) node) (λ e. e) (λ e. absurd e)
        (λ r n d. (set_value-Dispatched quad.chars cb node n absent d.0, cb, refl, d.1))
        (enter fl scratch args now p quad.chars cb made)
        (enter-Entered now p quad.chars cb made
          (set_value-AllFiled quad.chars cb node.sess_map absent all (f cb refl))
          (read_value-set_value quad.chars quad.chars cb node.sess_map absent
            ∙ read-same quad.chars cb (read_value quad.chars node.sess_map)))
    where
      made : Node Float
      made = record node { sess_map = set_value quad.chars cb node.sess_map }

  -- The datagram is data for an endpoint that has no such session.
  abbrev pub Ignored : Arrival → Role → Node Float → Type 0
  Ignored a dst node =
      (read_value (quad_for dst a).chars node.sess_map ≡ none)
      × ((addr_cmp a.recv_addr args.listen_addr && is_requester dst) ≡ true)

  -- What the constructor gives for a datagram without a session.
  abbrev pub made_for : Setting → ℕ → Arrival → Role → Node Float → Option (LeotpSess Float)
  made_for set listen_fd a dst node =
      new_session fl scratch args set listen_fd (addr_cmp a.recv_addr args.listen_addr)
        (quad_for dst a) node.shared

  -- There is no such session, and none can be made.
  abbrev pub Stuck : Setting → ℕ → Arrival → Role → Node Float → Type 0
  Stuck set listen_fd a dst node =
      (read_value (quad_for dst a).chars node.sess_map ≡ none)
      × (made_for set listen_fd a dst node ≡ none)

  -- The session of the datagram, which was there or has been made, takes it, and the map of
  -- sessions is as it should be.
  abbrev pub HandedOn :
      Setting → ℕ → Arrival → Role → Node Float → InputResult → Node Float → Type 0
  HandedOn set listen_fd a dst node r after =
      Dispatched (quad_for dst a).chars node after
      × (cb : LeotpSess Float) × ((read_value (quad_for dst a).chars node.sess_map ≡ some cb)
          ⊎ ((read_value (quad_for dst a).chars node.sess_map ≡ none)
              × (made_for set listen_fd a dst node ≡ some cb)))
      × Takes set.now a.bytes (quad_for dst a).chars cb node.shared r after

  dispatch-Dispatched :
      (set : Setting) (listen_fd : ℕ) (a : Arrival) (dst : Role) (node : Node Float)
      → set.fd_to_resp ≢ 0
      → AllFiled node.sess_map
      → Leaves
          (Ignored a dst node)
          (Stuck set listen_fd a dst node)
          (HandedOn set listen_fd a dst node)
          (dispatch fl scratch args set listen_fd a dst node)
  unfolding dispatch quad_for
  dispatch-Dispatched set listen_fd a dst node h all =
      split (read_value (quad_for dst a).chars node.sess_map) refl
    where
      Done : Handled Float → Type 0
      Done x =
          Leaves (Ignored a dst node) (Stuck set listen_fd a dst node)
            (HandedOn set listen_fd a dst node) x

      is_endp : Bool
      is_endp = addr_cmp a.recv_addr args.listen_addr

      New : Quad → Type 0
      New quad =
          (cb : LeotpSess Float)
          → new_session fl scratch args set listen_fd is_endp quad node.shared ≡ some cb
          → Filed quad.chars cb

      new_filed : New (quad_for dst a)
      new_filed =
          if_cases (λ (q : Quad). New q) (is_responder dst)
            (λ _ cb.
              new_session-Filed fl scratch args set listen_fd is_endp a.send_addr a.recv_addr
                node.shared cb h)
            (λ _ cb.
              new_session-Filed fl scratch args set listen_fd is_endp a.recv_addr a.send_addr
                node.shared cb h)

      made : Option (LeotpSess Float)
      made = made_for set listen_fd a dst node

      split :
          (o : Option (LeotpSess Float))
          → read_value (quad_for dst a).chars node.sess_map ≡ o
          → Done (elim o [
            | some cb ↦ enter fl scratch args set.now a.bytes (quad_for dst a).chars cb node
            | none ↦
                if is_endp && is_requester dst
                then unknown_packet
                else establish fl scratch args set.now a.bytes
                    (quad_for dst a)
                    node
                    (new_session fl scratch args set listen_fd is_endp (quad_for dst a) node.shared)
          ])
      split (some cb) e =
          Leaves-mono ⊥ (Ignored a dst node) ⊥ (Stuck set listen_fd a dst node)
            (Entered set.now a.bytes (quad_for dst a).chars cb node)
            (HandedOn set listen_fd a dst node) (λ x. absurd x) (λ x. absurd x)
            (λ r n d. (d.0, cb, inl e, d.1))
            (enter fl scratch args set.now a.bytes (quad_for dst a).chars cb node)
            (enter-Entered set.now a.bytes (quad_for dst a).chars cb node all e)
      split none e =
          if_cases (λ (x : Handled Float). Done x) (is_endp && is_requester dst) (λ t. (e, t))
            (λ _.
              Leaves-mono ⊥ (Ignored a dst node) (made ≡ none) (Stuck set listen_fd a dst node)
                (Made set.now a.bytes (quad_for dst a).chars made node)
                (HandedOn set listen_fd a dst node) (λ x. absurd x) (λ x. (e, x))
                (λ r n d. (d.0, d.1, inr (e, d.2), d.3))
                (establish fl scratch args set.now a.bytes (quad_for dst a) node made)
                (establish-Made set.now a.bytes (quad_for dst a) node made all e new_filed))

  pub recv_round-Dispatched :
      (set : Setting) (listen_fd : ℕ) (a : Arrival) (dst : Role) (node : Node Float)
      → set.fd_to_resp ≢ 0
      → AllFiled node.sess_map
      → judge_seg_dst a.bytes ≡ some dst
      → Leaves
          (Ignored a dst node)
          (Stuck set listen_fd a dst node)
          (HandedOn set listen_fd a dst node)
          (recv_round fl scratch args set listen_fd a node)
  unfolding recv_round
  recv_round-Dispatched set listen_fd a dst node h all e =
      subst
        (λ o.
          Leaves (Ignored a dst node) (Stuck set listen_fd a dst node)
            (HandedOn set listen_fd a dst node)
            (elim o [
              | none ↦ not_leotp
              | some d ↦ dispatch fl scratch args set listen_fd a d node
            ]))
        (sym e) (dispatch-Dispatched set listen_fd a dst node h all)
