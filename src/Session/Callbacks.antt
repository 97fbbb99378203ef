-- ===== src/Session/Callbacks.antt =====
-- udp_leotp.cpp, `udpSend`, `fetchData` and `createTransCB`: what a control block calls.
use leotp.Base.{ℕ, ◌+◌, ◌/◌, Bool, true, false, Option, none, some, List, ◌∷◌, ◌==◌, if◌then◌else◌}
use leotp.Seg.{Role, Bytes, requester, responder, midnode}
use leotp.Trans.{Callbacks, FloatOps, StatInfo, new_trans_cb}
use leotp.Cache.{ReadState, read, block_len}
use leotp.Session.{Addr, Sess, Shared, User, LeotpSess, no_fd}

abbrev pub same_role : Role → Role → Bool
same_role requester requester = true
same_role responder responder = true
same_role midnode midnode = true
same_role _ _ = false

abbrev pub call_abort : User → User
call_abort u = record u { shared = record u.shared { aborted = true } }

-- The end of `udpSend`: -1, or a datagram.
unfoldable pub send_to : ℕ → Addr → List ℕ → User → User
send_to fd dst bytes u = if fd == no_fd then u else record u {
  shared = record u.shared { sent = record { fd = fd; dst = dst; bytes = bytes } ∷ u.shared.sent };
}

unfoldable pub udp_send : List ℕ → Role → User → User
unfolding send_to
udp_send bytes dst_role u =
    if same_role u.sess.node_role dst_role then call_abort u else (elim dst_role [
      | responder ↦ send_to u.sess.socket_fd_to_resp u.sess.responder_addr bytes u
      | requester ↦ send_to u.sess.socket_fd_to_req u.sess.requester_addr bytes u
      | midnode ↦ call_abort u
    ])

-- What follows on `read`.
abbrev pub after_read : Bytes → User → Option ReadState → ℕ × Bytes × User
after_read scratch u none = (0, scratch, u)
after_read scratch u (some r) =
    (r.readlen, r.buf, record u { shared = record u.shared { cache = r.cache } })

-- `scratch` is what the buffer holds before. The fuel is a round for each block.
unfoldable pub fetch_data : Bytes → ℕ → ℕ → User → ℕ × Bytes × User
fetch_data scratch start end u =
    after_read scratch u
      (read u.sess.name_chars start end (end / block_len + 2) scratch u.shared.cache)

-- A call through a null pointer ends the process as `abort` does.
abbrev pub null_function : {F : Type 0} → ℕ → ℕ → LeotpSess F → LeotpSess F
null_function start end cb = record cb { user = call_abort cb.user }

-- The functions that `createTransCB` passes.
abbrev pub callbacks : {F : Type 0} → Bytes → (ℕ → ℕ → LeotpSess F → LeotpSess F) → Callbacks F User
callbacks scratch on_unsat_int = record {
  output_func = udp_send;
  fetch_data_func = fetch_data scratch;
  on_unsat_int = on_unsat_int;
}

module _ (fl : FloatOps) where
  open fl use {Float}

  -- `createTransCB`, for a session with the given fields, at time `now`.
  unfoldable pub create_trans_cb : ℕ → StatInfo → Sess → Shared → LeotpSess Float
  unfolding new_trans_cb
  create_trans_cb now uninit sess shared =
      new_trans_cb fl now (record { sess = sess; shared = shared }) sess.node_role uninit
