-- ===== src/Api/Started.antt =====
-- api.cpp, `startRequester`: the map of sessions after the call.
use leotp.Base.{
  ℕ, ◌≡◌, refl, sym, ap, inl, inr, Option, none, some, ◌∷◌, Option-cases, absent_some, some_same,
}
use mathlib.Core.Path.{subst}
use leotp.Trans.{FloatOps}
use leotp.ByteMap.{ByteArray, ByteMap, read_value, set_value}
use leotp.Session.{ntohs, quad_of, Shared, LeotpSess}
use leotp.Session.Socket.{Opened, no_socket, bind_failed, never_bound, opened, create_socket}
use leotp.Session.Create.{Setting, default_client_port, requester_of, new_requester}
use leotp.Session.Listen.{Node, ListenArgs}
use leotp.Session.Filed.{Filed, AllFiled, set_value-AllFiled}
use leotp.Api.{requester_args, start_requester}

abbrev key_of : {F : Type 0} → LeotpSess F → ByteArray
key_of cb = (quad_of cb.user.sess.requester_addr cb.user.sess.responder_addr).chars

kept :
    {F : Type 0} (k : ByteArray) (cb c : LeotpSess F) (m : ByteMap (LeotpSess F))
    → read_value k m ≡ some c
    → set_value k cb m ≡ m
unfolding set_value
kept k cb c m there = ap (λ o. elim o [ none ↦ (k, cb) ∷ m | some _ ↦ m ]) there

-- A session that is put into the map, or is not because its key is there.
added :
    {F : Type 0} (k : ByteArray) (cb : LeotpSess F) (m : ByteMap (LeotpSess F))
    → AllFiled m
    → Filed k cb
    → AllFiled (set_value k cb m)
added k cb m all f = elim (Option-cases (read_value k m)) [
  | inl absent ↦ set_value-AllFiled k cb m absent all f
  | inr (c, there) ↦ subst (λ x. AllFiled x) (sym (kept k cb c m there)) all
]

module _ (fl : FloatOps) (set : Setting) where
  open fl use {Float}

  requester_of-Filed :
      (req_ip resp_ip resp_port : ℕ) (shared : Shared) (o : Opened) (cb : LeotpSess Float)
      → requester_of fl set req_ip resp_ip resp_port shared o ≡ some cb
      → Filed (key_of cb) cb
  unfolding requester_of
  requester_of-Filed req_ip resp_ip resp_port shared no_socket cb e = absurd (absent_some cb e)
  requester_of-Filed req_ip resp_ip resp_port shared bind_failed cb e = absurd (absent_some cb e)
  requester_of-Filed req_ip resp_ip resp_port shared never_bound cb e = absurd (absent_some cb e)
  requester_of-Filed req_ip resp_ip resp_port shared (opened fd port) cb e =
      some_same (λ (c : LeotpSess Float). Filed (key_of c) c) _ cb e
        (record { named = refl; quad = refl; role = refl })

  -- A requester starts with every session filed, if those of before were.
  pub start_requester-AllFiled :
      (req_ip resp_ip resp_port_h : ℕ) (node : Node Float) (r : ListenArgs Float × Node Float)
      → AllFiled node.sess_map
      → start_requester fl set req_ip resp_ip resp_port_h node ≡ some r
      → AllFiled r.1.sess_map
  unfolding start_requester new_requester
  start_requester-AllFiled req_ip resp_ip resp_port_h node r all =
      started (new_requester fl set req_ip resp_ip (ntohs resp_port_h) node.shared) (
        requester_of-Filed req_ip resp_ip (ntohs resp_port_h) node.shared
          (create_socket set.bind set.fd_to_resp req_ip (ntohs default_client_port)))
    where
      started :
          (o : Option (LeotpSess Float))
          → ((cb : LeotpSess Float) → o ≡ some cb → Filed (key_of cb) cb)
          → ◌≡◌ {A = Option (ListenArgs Float × Node Float)}
              (elim o [
                | none ↦ none
                | some cb ↦ some (
                  requester_args fl cb,
                  record node { sess_map = set_value (key_of cb) cb node.sess_map },
                )
              ])
              (some r)
          → AllFiled r.1.sess_map
      started none f e = absurd (absent_some r e)
      started (some cb) f e =
          some_same {A = ListenArgs Float × Node Float} (λ x. AllFiled x.1.sess_map) _ r e
            (added (key_of cb) cb node.sess_map all (f cb refl))
