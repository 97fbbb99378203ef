-- ===== src/Api.antt =====
-- api.cpp and include/api.h: how a process starts in each role. Addresses are as `inet_addr`
-- returns them, ports in the order of the host.
pub mod Started
use leotp.Base.{ℕ, Bool, Option, none, some, List, [], ◌∷◌, ◌==◌, if◌then◌else◌}
use leotp.Trans.{FloatOps}
use leotp.ByteMap.{set_value}
use leotp.Session.{to_addr, ntohs, quad_of, LeotpSess, no_fd}
use leotp.Session.Callbacks.{null_function}
use leotp.Session.Create.{Setting, new_requester}
use leotp.Session.Listen.{Node, ListenArgs}

-- The characters in front of the last '/', which is 47; `none` if there is none.
unfoldable pub program_dir : List ℕ → Option (List ℕ)
program_dir [] = none
program_dir (x ∷ xs) = elim (program_dir xs) [
  | some dir ↦ some (x ∷ dir)
  | none ↦ if x == 47 then some [] else none
]

-- `chdirProgramDir`: 0, -1, -2, -3. `exe` is what `readlink` gives.
pub data Chdir : Type 0 where
  chdir_done no_exe no_dir chdir_failed : Chdir

unfoldable pub chdir_program_dir : Option (List ℕ) → (List ℕ → Bool) → Chdir
unfolding program_dir
chdir_program_dir none chdir = no_exe
chdir_program_dir (some exe) chdir = elim (program_dir exe) [
  | none ↦ no_dir
  | some dir ↦ if chdir dir then chdir_done else chdir_failed
]

module _ (fl : FloatOps) where
  open fl use {Float}

  abbrev pub requester_args : LeotpSess Float → ListenArgs Float
  requester_args cb = record {
    on_unsat_int = null_function;
    listen_addr = cb.user.sess.requester_addr;
    listen_fd = cb.user.sess.socket_fd_to_resp;
  }

  -- `startRequester`: the session is put into the map by hand. `onUnsatInt` is not set.
  unfoldable pub start_requester :
      Setting → ℕ → ℕ → ℕ → Node Float → Option (ListenArgs Float × Node Float)
  start_requester set req_ip resp_ip resp_port_h node =
      elim (new_requester fl set req_ip resp_ip (ntohs resp_port_h) node.shared) [
        | none ↦ none
        | some cb ↦
            let s = cb.user.sess in
            some (
              requester_args cb,
              record node {
                sess_map =
                    set_value (quad_of s.requester_addr s.responder_addr).chars cb node.sess_map;
              },
            )
      ]

  -- `startResponder`.
  unfoldable pub start_responder :
      (ℕ → ℕ → LeotpSess Float → LeotpSess Float) → ℕ → ℕ → ListenArgs Float
  start_responder on_unsat_int ip resp_port_h = record {
    on_unsat_int = on_unsat_int;
    listen_addr = to_addr ip (ntohs resp_port_h);
    listen_fd = no_fd;
  }

  -- `startMidnode` behind its calls of `system`; INADDR_ANY is 0. `onUnsatInt` is not set.
  unfoldable pub start_midnode : ℕ → ListenArgs Float
  start_midnode listen_port_h = record {
    on_unsat_int = null_function;
    listen_addr = to_addr 0 (ntohs listen_port_h);
    listen_fd = no_fd;
  }
