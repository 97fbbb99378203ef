-- ===== src/Session/Create.antt =====
-- udp_leotp.cpp, the constructors of `LeotpSess`. Their threads are the steps of the other modules.
use leotp.Base.{ℕ, Bool, ◌||◌, not, Option, none, some, ◌==◌, if◌then◌else◌}
use leotp.Seg.{requester, responder, midnode}
use leotp.Trans.{FloatOps, StatInfo}
use leotp.ByteMap.{ByteArray}
use leotp.Session.{
  Addr, to_addr, ntohs, Quad, quad_of, get_req_addr, get_resp_addr, Shared, LeotpSess, no_fd,
}
use leotp.Session.Socket.{Opened, no_socket, bind_failed, never_bound, opened, create_socket}
use leotp.Session.Callbacks.{create_trans_cb}

abbrev pub default_client_port : ℕ
default_client_port = 7000

-- What a constructor finds: the time, what `socket` returns and which addresses can be bound, and
-- the memory of the new object.
pub record Setting : Type 0 where
  pub now : ℕ
  pub fd_to_req : ℕ
  pub fd_to_resp : ℕ
  pub bind : Addr → Bool
  pub uninit_stat : StatInfo
  pub uninit_name : ByteArray

-- `memcpy` under `if (socketFd_toReq == -1 || socketFd_toResp)`.
abbrev pub midnode_name : ℕ → ℕ → ByteArray → ByteArray → ByteArray
midnode_name fd_to_req fd_to_resp chars uninit =
    if fd_to_req == no_fd || not (fd_to_resp == 0) then chars else uninit

-- The descriptor that `createSocket` returns; `none` is a call that does not return.
abbrev pub fd_of : Opened → Option ℕ
fd_of no_socket = some no_fd
fd_of bind_failed = none
fd_of never_bound = none
fd_of (opened fd port) = some fd

module _ (fl : FloatOps) (set : Setting) where
  open fl use {Float}

  unfoldable pub requester_of : ℕ → ℕ → ℕ → Shared → Opened → Option (LeotpSess Float)
  unfolding create_trans_cb quad_of
  requester_of req_ip resp_ip resp_port shared no_socket = none
  requester_of req_ip resp_ip resp_port shared bind_failed = none
  requester_of req_ip resp_ip resp_port shared never_bound = none
  requester_of req_ip resp_ip resp_port shared (opened fd port) =
      let req = to_addr req_ip port in
      let resp = to_addr resp_ip resp_port in
      some (
        create_trans_cb fl set.now set.uninit_stat
          (record {
            socket_fd_to_req = no_fd;
            socket_fd_to_resp = fd;
            requester_addr = req;
            responder_addr = resp;
            name_chars = (quad_of req resp).chars;
            node_role = requester;
          })
          shared)

  -- For the requester, with addresses as `inet_addr` returns them. `none`: `abort`, or a search for
  -- a port that goes on.
  unfoldable pub new_requester : ℕ → ℕ → ℕ → Shared → Option (LeotpSess Float)
  new_requester req_ip resp_ip resp_port shared =
      requester_of req_ip resp_ip resp_port shared
        (create_socket set.bind set.fd_to_resp req_ip (ntohs default_client_port))

  unfoldable pub new_responder : Quad → ℕ → Shared → LeotpSess Float
  unfolding create_trans_cb get_req_addr get_resp_addr
  new_responder quad listen_fd shared =
      create_trans_cb fl set.now set.uninit_stat
        (record {
          socket_fd_to_req = listen_fd;
          socket_fd_to_resp = no_fd;
          requester_addr = get_req_addr quad;
          responder_addr = get_resp_addr quad;
          name_chars = quad.chars;
          node_role = responder;
        })
        shared

  -- The descriptors of a midnode: bound to the address of the responder, for the requester to see,
  -- and to that of the requester.
  unfoldable pub midnode_sockets : Addr → Addr → Option (ℕ × ℕ)
  midnode_sockets req resp =
      elim (fd_of (create_socket set.bind set.fd_to_req resp.sin_addr resp.sin_port)) [
        | none ↦ none
        | some to_req ↦
            elim (fd_of (create_socket set.bind set.fd_to_resp req.sin_addr req.sin_port)) [
              | none ↦ none
              | some to_resp ↦ some (to_req, to_resp)
            ]
      ]

  unfoldable pub midnode_of : Quad → Shared → Option (ℕ × ℕ) → Option (LeotpSess Float)
  unfolding create_trans_cb get_req_addr get_resp_addr
  midnode_of quad shared none = none
  midnode_of quad shared (some (to_req, to_resp)) = some (
      create_trans_cb fl set.now set.uninit_stat
        (record {
          socket_fd_to_req = to_req;
          socket_fd_to_resp = to_resp;
          requester_addr = get_req_addr quad;
          responder_addr = get_resp_addr quad;
          name_chars = midnode_name to_req to_resp quad.chars set.uninit_name;
          node_role = midnode;
        })
        shared)

  -- `none`: `abort`, or a search for a port that goes on.
  unfoldable pub new_midnode : Quad → Shared → Option (LeotpSess Float)
  new_midnode quad shared =
      midnode_of quad shared (midnode_sockets (get_req_addr quad) (get_resp_addr quad))
