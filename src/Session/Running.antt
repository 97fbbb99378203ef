-- ===== src/Session/Running.antt =====
-- udp_leotp.cpp, what a session's callbacks leave alone, and `abort`.
use leotp.Base.{
  ℕ, ◌+◌, ◌/◌, ◌≡◌, refl, sym, ap, ◌∙◌, ◌≢◌, true, false, Option, none, some, List, ◌==◌, if_cases,
}
use mathlib.Core.Bool.{true≢false}
use leotp.Seg.{Role, requester, responder, midnode, Bytes}
use leotp.Trans.{FloatOps}
use leotp.Trans.Kept.{Good, Safe}
use leotp.Trans.Input.Ends.{input-Ends}
use leotp.Trans.Kept.Entered.{input-Good}
use leotp.Trans.Kept.Updated.{update-Good}
use leotp.Trans.Timer.{returned}
use leotp.Trans.Input.{InputResult}
use leotp.Cache.{ReadState, read, block_len}
use leotp.Session.{Addr, Sess, User, LeotpSess, no_fd}
use leotp.Session.Callbacks.{same_role, send_to, udp_send, after_read, fetch_data, callbacks}
use leotp.Session.Operations.{input_udp, sess_update}

-- The fields of the session are as they were.
abbrev pub Owned : Sess → User → Type 0
Owned s u = u.sess ≡ s

-- And the process goes on.
abbrev pub Running : Sess → User → Type 0
Running s u = (u.sess ≡ s) × (u.shared.aborted ≡ false)

-- What a control block may send to.
abbrev pub Elsewhere : Role → Role → Type 0
Elsewhere role dst = (same_role role dst ≡ false) × (dst ≢ midnode)

send_to-Running :
    (s : Sess) (fd : ℕ) (dst : Addr) (bytes : List ℕ) (u : User)
    → Running s u
    → Running s (send_to fd dst bytes u)
unfolding send_to
send_to-Running s fd dst bytes u r =
    if_cases (λ (v : User). Running s v) (fd == no_fd) (λ _. r) (λ _. r)

send_to-Owned :
    (s : Sess) (fd : ℕ) (dst : Addr) (bytes : List ℕ) (u : User)
    → Owned s u
    → Owned s (send_to fd dst bytes u)
unfolding send_to
send_to-Owned s fd dst bytes u r =
    if_cases (λ (v : User). Owned s v) (fd == no_fd) (λ _. r) (λ _. r)

udp_send-Owned :
    (s : Sess) (bytes : List ℕ) (dst : Role) (u : User) → Owned s u → Owned s (udp_send bytes dst u)
unfolding udp_send
udp_send-Owned s bytes requester u o =
    if_cases (λ (v : User). Owned s v) (same_role u.sess.node_role requester) (λ _. o)
      (λ _. send_to-Owned s u.sess.socket_fd_to_req u.sess.requester_addr bytes u o)
udp_send-Owned s bytes responder u o =
    if_cases (λ (v : User). Owned s v) (same_role u.sess.node_role responder) (λ _. o)
      (λ _. send_to-Owned s u.sess.socket_fd_to_resp u.sess.responder_addr bytes u o)
udp_send-Owned s bytes midnode u o =
    if_cases (λ (v : User). Owned s v) (same_role u.sess.node_role midnode) (λ _. o) (λ _. o)

away_from :
    (s : Sess) (u : User) (dst : Role)
    → Elsewhere s.node_role dst
    → u.sess ≡ s
    → same_role u.sess.node_role dst ≡ true
    → ⊥
away_from s u dst away o t =
    true≢false (sym t ∙ ap (λ (x : Sess). same_role x.node_role dst) o ∙ away.0)

udp_send-Running :
    (s : Sess) (bytes : List ℕ) (dst : Role) (u : User)
    → Elsewhere s.node_role dst
    → Running s u
    → Running s (udp_send bytes dst u)
unfolding udp_send
udp_send-Running s bytes requester u away r =
    if_cases (λ (v : User). Running s v) (same_role u.sess.node_role requester)
      (λ t. absurd (away_from s u requester away r.0 t))
      (λ _. send_to-Running s u.sess.socket_fd_to_req u.sess.requester_addr bytes u r)
udp_send-Running s bytes responder u away r =
    if_cases (λ (v : User). Running s v) (same_role u.sess.node_role responder)
      (λ t. absurd (away_from s u responder away r.0 t))
      (λ _. send_to-Running s u.sess.socket_fd_to_resp u.sess.responder_addr bytes u r)
udp_send-Running s bytes midnode u away r = absurd (away.1 refl)

after_read-Running :
    (s : Sess) (scratch : Bytes) (u : User) (o : Option ReadState)
    → Running s u
    → Running s (after_read scratch u o).2
after_read-Running s scratch u none r = r
after_read-Running s scratch u (some x) r = r

fetch_data-Running :
    (s : Sess) (scratch : Bytes) (from to : ℕ) (u : User)
    → Running s u
    → Running s (fetch_data scratch from to u).2
unfolding fetch_data
fetch_data-Running s scratch from to u r =
    after_read-Running s scratch u
      (read u.sess.name_chars from to (to / block_len + 2) scratch u.shared.cache) r

after_read-Owned :
    (s : Sess) (scratch : Bytes) (u : User) (o : Option ReadState)
    → Owned s u
    → Owned s (after_read scratch u o).2
after_read-Owned s scratch u none r = r
after_read-Owned s scratch u (some x) r = r

fetch_data-Owned :
    (s : Sess) (scratch : Bytes) (from to : ℕ) (u : User)
    → Owned s u
    → Owned s (fetch_data scratch from to u).2
unfolding fetch_data
fetch_data-Owned s scratch from to u r =
    after_read-Owned s scratch u
      (read u.sess.name_chars from to (to / block_len + 2) scratch u.shared.cache) r

-- A session in which a property of the object of the callbacks holds.
abbrev pub Session : {F : Type 0} → (Sess → User → Type 0) → Sess → LeotpSess F → Type 0
Session P s cb = Good s.node_role (P s) cb

-- The application's function, which only a responder has, keeps it.
abbrev pub AppKeeps :
    {F : Type 0} → (Sess → User → Type 0) → Sess → (ℕ → ℕ → LeotpSess F → LeotpSess F) → Type 0
AppKeeps {F = F} P s on_unsat_int =
    (start end : ℕ) (cb : LeotpSess F)
    → s.node_role ≡ responder
    → Session P s cb
    → Session P s (on_unsat_int start end cb)

module _ (fl : FloatOps) (scratch : Bytes)
    (on_unsat_int : ℕ → ℕ → LeotpSess fl.Float → LeotpSess fl.Float) (s : Sess) where
  open fl use {Float}

  pub Running-Safe :
      AppKeeps Running s on_unsat_int
      → Safe s.node_role (Running s) (Elsewhere s.node_role) (callbacks scratch on_unsat_int)
  Running-Safe app = record {
    sends = λ bytes dst u away r. udp_send-Running s bytes dst u away r;
    fetches = λ from to u r. fetch_data-Running s scratch from to u r;
    unsat = λ from to cb is g. app from to cb is g;
  }

  Owned-Safe :
      AppKeeps Owned s on_unsat_int
      → Safe s.node_role (Owned s) (λ _. Unit) (callbacks scratch on_unsat_int)
  Owned-Safe app = record {
    sends = λ bytes dst u away r. udp_send-Owned s bytes dst u r;
    fetches = λ from to u r. fetch_data-Owned s scratch from to u r;
    unsat = λ from to cb is g. app from to cb is g;
  }

  pub elsewhere : (r dst : Role) → r ≢ dst → dst ≢ midnode → Elsewhere r dst
  elsewhere requester requester h m = absurd (h refl)
  elsewhere responder responder h m = absurd (h refl)
  elsewhere midnode midnode h m = absurd (h refl)
  elsewhere requester responder h m = (refl, m)
  elsewhere requester midnode h m = (refl, m)
  elsewhere responder requester h m = (refl, m)
  elsewhere responder midnode h m = (refl, m)
  elsewhere midnode requester h m = (refl, m)
  elsewhere midnode responder h m = (refl, m)

  pub end_not_midnode : (r : Role) → same_role r midnode ≡ false → r ≢ midnode
  end_not_midnode r h e = true≢false (sym (ap (λ x. same_role x midnode) e) ∙ h)

  -- The loop of `input` ends; what `overrun` marks in the state is no run of the code.
  pub input_udp-Ends :
      (now : ℕ) (p : List ℕ) (cb : LeotpSess Float)
      → (r : InputResult × LeotpSess Float) × (input_udp fl scratch on_unsat_int now p cb ≡ some r)
  unfolding input_udp
  input_udp-Ends now p cb = input-Ends fl (callbacks scratch on_unsat_int) now p cb

  -- A requester or a midnode takes any datagram, whatever it holds: it ends with one of its
  -- results, without a call of `abort`, and the session's fields are as they were. A loop of
  -- `parseInt` that goes on since `segStart` has wrapped is cut off and marked in `overrun`.
  pub input_udp-Running :
      (now : ℕ) (p : List ℕ) (cb : LeotpSess Float)
      → s.node_role ≢ responder
      → Session Running s cb
      → (r : InputResult) × (c : LeotpSess Float) × (input_udp fl scratch on_unsat_int now p cb
          ≡ some (r, c))
        × Session Running s c
  unfolding input_udp
  input_udp-Running now p cb other g =
      let ((r, c), e) = input_udp-Ends now p cb in
      (
        r,
        c,
        e,
        input-Good fl s.node_role (Running s) (Elsewhere s.node_role)
            (callbacks scratch on_unsat_int) (Running-Safe (λ from to x is k. absurd (other is)))
            (elsewhere s.node_role responder other (end_not_midnode responder refl)) now p cb c r g
            e,
      )

  -- A datagram leaves the addresses, the name and the role of its session alone.
  pub input_udp-Owned :
      (now : ℕ) (p : List ℕ) (cb c : LeotpSess Float) (r : InputResult)
      → AppKeeps Owned s on_unsat_int
      → Session Owned s cb
      → input_udp fl scratch on_unsat_int now p cb ≡ some (r, c)
      → Session Owned s c
  unfolding input_udp
  input_udp-Owned now p cb c r app g e =
      input-Good fl s.node_role (Owned s) (λ _. Unit) (callbacks scratch on_unsat_int)
        (Owned-Safe app) tt now p cb c r g e

  -- So does the timer.
  pub sess_update-Owned :
      (fuel now : ℕ) (cb c : LeotpSess Float)
      → AppKeeps Owned s on_unsat_int
      → Session Owned s cb
      → sess_update fl scratch on_unsat_int fuel now cb ≡ returned c
      → Session Owned s c
  unfolding sess_update
  sess_update-Owned fuel now cb c app g e =
      update-Good fl s.node_role (Owned s) (λ _. Unit) (callbacks scratch on_unsat_int)
        (Owned-Safe app) (λ _. tt) (λ _. tt) now fuel cb c g e
