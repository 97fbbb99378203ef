-- ===== src/Session/Filed.antt =====
-- udp_leotp.cpp, the map of sessions: each session is found under the characters of its quadruple.
use leotp.Base.{
  absent_some, some_same, ℕ, ◌+◌, ◌^◌, ◌≡◌, refl, sym, ap, ◌∙◌, ◌≢◌, inl, inr, Bool, true, false,
  ◌||◌, not, Option, none, some, arith, ◌==◌, if◌then◌else◌, slt, if_cases,
}
use mathlib.Core.Path.{subst}
use mathlib.Core.Bool.{false≢true}
use leotp.Seg.{Bytes}
use leotp.Trans.{FloatOps}
use leotp.ByteMap.{ByteArray, ByteMap, eq_bytes, read_value, set_value}
use leotp.ByteMap.Laws.{eq_bytes_iff, read_value-set_value, read_value-store_inv}
use leotp.Session.{
  ntohs, to_addr, Addr, quad_of, get_req_addr, get_resp_addr, Sess, Shared, LeotpSess, no_fd,
}
use leotp.Session.Socket.{reuse_port_range, find_port, Opened, after_search, create_socket}
use leotp.Session.Create.{
  Setting, fd_of, midnode_name, midnode_of, midnode_sockets, new_responder, new_midnode,
}
use leotp.Session.Listen.{Node, ListenArgs, put_back, new_session}
use leotp.Session.Running.{Owned, Session}

-- The session's name and its addresses are those of the key, and its control block has its role.
pub record Filed {F : Type 0} (k : ByteArray) (cb : LeotpSess F) : Type 0 where
  pub named : cb.user.sess.name_chars ≡ k
  pub quad : (quad_of cb.user.sess.requester_addr cb.user.sess.responder_addr).chars ≡ k
  pub role : cb.node_role ≡ cb.user.sess.node_role

abbrev pub AllFiled : {F : Type 0} → ByteMap (LeotpSess F) → Type 0
AllFiled {F = F} m = (k : ByteArray) (cb : LeotpSess F) → read_value k m ≡ some cb → Filed k cb

-- The descriptor of a new socket is that of `socket`, or -1.
fd_of-create_socket :
    (bind : Addr → Bool) (fd ip port x : ℕ)
    → fd ≢ 0
    → fd_of (create_socket bind fd ip port) ≡ some x
    → x ≢ 0
unfolding create_socket
fd_of-create_socket bind fd ip port x h =
    if_cases Nonzero (slt fd 0)
      (λ _ e. some_same (λ y. y ≢ 0) no_fd x e (λ z. false≢true (ap (λ n. n == 0) z)))
      (λ _. searched (
        find_port (λ p. bind (to_addr ip (ntohs p))) (2 ^ 16 + 1) (ntohs port)
          (ntohs port + reuse_port_range)))
  where
    Nonzero : Opened → Type 0
    Nonzero o = fd_of o ≡ some x → x ≢ 0

    searched : (o : Option ℕ) → Nonzero (after_search fd (ntohs port + reuse_port_range) o)
    searched none = λ e. absurd (absent_some x e)
    searched (some p) =
        if_cases Nonzero (p == ntohs port + reuse_port_range) (λ _ e. absurd (absent_some x e))
          (λ _ e. some_same (λ y. y ≢ 0) fd x e h)

module _ {F : Type 0} where
  Filed-Owned :
      (k : ByteArray) (cb c : LeotpSess F) → Filed k cb → Session Owned cb.user.sess c → Filed k c
  Filed-Owned k cb c f g = record {
    named = ap (λ (s : Sess). s.name_chars) g.kept ∙ f.named;
    quad = ap (λ (s : Sess). (quad_of s.requester_addr s.responder_addr).chars) g.kept ∙ f.quad;
    role = g.role_is ∙ ap (λ (s : Sess). s.node_role) (sym g.kept);
  }

  -- A step of a session that is filed, and keeps its fields, leaves all sessions filed.
  pub put_back-AllFiled :
      (k : ByteArray) (cb c : LeotpSess F) (node : Node F)
      → AllFiled node.sess_map
      → Filed k cb
      → Session Owned cb.user.sess c
      → AllFiled (put_back k c node).sess_map
  put_back-AllFiled k cb c node all f g j x found =
      elim (read_value-store_inv k j c x node.sess_map found) [
        | inl (same, new) ↦
            subst (λ i. Filed i x) same (subst (Filed k) (sym new) (Filed-Owned k cb c f g))
        | inr (other, old) ↦ all j x old
      ]

  pub set_value-AllFiled :
      (k : ByteArray) (cb : LeotpSess F) (m : ByteMap (LeotpSess F))
      → read_value k m ≡ none
      → AllFiled m
      → Filed k cb
      → AllFiled (set_value k cb m)
  set_value-AllFiled k cb m absent all f j x found =
      split (eq_bytes k j) refl (sym (read_value-set_value k j cb m absent) ∙ found)
    where
      split :
          (b : Bool)
          → eq_bytes k j ≡ b
          → (if b then some cb else read_value j m) ≡ some x
          → Filed j x
      split true same e =
          subst (λ i. Filed i x) ((eq_bytes_iff k j).0 same) (some_same (Filed k) cb x e f)
      split false other e = all j x e

module _ (fl : FloatOps) (set : Setting) where
  open fl use {Float}

  new_responder-Filed :
      (x y : Addr) (listen_fd : ℕ) (shared : Shared)
      → Filed (quad_of x y).chars (new_responder fl set (quad_of x y) listen_fd shared)
  unfolding new_responder quad_of
  new_responder-Filed x y listen_fd shared = record { named = refl; quad = refl; role = refl }

  midnode_of-Filed :
      (x y : Addr) (shared : Shared) (o : Option (ℕ × ℕ)) (cb : LeotpSess Float)
      → ((a b : ℕ) → o ≡ some (a, b) → b ≢ 0)
      → midnode_of fl set (quad_of x y) shared o ≡ some cb
      → Filed (quad_of x y).chars cb
  unfolding midnode_of quad_of
  midnode_of-Filed x y shared none cb h e = absurd (absent_some cb e)
  midnode_of-Filed x y shared (some (a, b)) cb h e =
      some_same (Filed (quad_of x y).chars) _ cb e
        (record { named = copied (h a b refl); quad = refl; role = refl })
    where
      copied : b ≢ 0 → midnode_name a b (quad_of x y).chars set.uninit_name ≡ (quad_of x y).chars
      copied n =
          if_cases (λ (l : ByteArray). l ≡ (quad_of x y).chars) (a == no_fd || not (b == 0))
            (λ _. refl) (λ t. absurd (n (ground arith)))

  midnode_sockets-nonzero :
      (req resp : Addr)
      → set.fd_to_resp ≢ 0
      → (a b : ℕ) → midnode_sockets fl set req resp ≡ some (a, b)
      → b ≢ 0
  unfolding midnode_sockets
  midnode_sockets-nonzero req resp h a b e =
      first (fd_of (create_socket set.bind set.fd_to_req resp.sin_addr resp.sin_port))
        (fd_of (create_socket set.bind set.fd_to_resp req.sin_addr req.sin_port)) e
        (fd_of-create_socket set.bind set.fd_to_resp req.sin_addr req.sin_port b h)
    where
      first :
          (o q : Option ℕ)
          → ◌≡◌ {A = Option (ℕ × ℕ)}
              (elim o [
                | none ↦ none
                | some to_req ↦ elim q [ none ↦ none | some to_resp ↦ some (to_req, to_resp) ]
              ])
              (some (a, b))
          → (q ≡ some b → b ≢ 0)
          → b ≢ 0
      first none q e k = absurd (absent_some (a, b) e)
      first (some c) none e k = absurd (absent_some (a, b) e)
      first (some c) (some d) e k =
          k (some_same {A = ℕ × ℕ} (λ p. some d ≡ some p.1) (c, d) (a, b) e refl)

module _ (fl : FloatOps) (scratch : Bytes) (args : ListenArgs fl.Float) where
  open fl use {Float}

  pub new_session-Filed :
      (set : Setting) (listen_fd : ℕ) (is_endp : Bool) (x y : Addr) (shared : Shared)
      (cb : LeotpSess Float)
      → set.fd_to_resp ≢ 0
      → new_session fl scratch args set listen_fd is_endp (quad_of x y) shared ≡ some cb
      → Filed (quad_of x y).chars cb
  unfolding new_session new_responder new_midnode
  new_session-Filed set listen_fd is_endp x y shared cb h =
      if_cases Good_if is_endp
        (λ _ e.
          some_same (Filed (quad_of x y).chars)
            (new_responder fl set (quad_of x y) listen_fd shared) cb e
            (new_responder-Filed fl set x y listen_fd shared))
        (λ _.
          midnode_of-Filed fl set x y shared
            (midnode_sockets fl set (get_req_addr (quad_of x y)) (get_resp_addr (quad_of x y))) cb
            (midnode_sockets-nonzero fl set (get_req_addr (quad_of x y))
              (get_resp_addr (quad_of x y)) h))
    where
      Good_if : Option (LeotpSess Float) → Type 0
      Good_if o = o ≡ some cb → Filed (quad_of x y).chars cb
