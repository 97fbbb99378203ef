-- ===== src/Examples/Networks.antt =====
-- udp_leotp.cpp at concrete inputs.
use leotp.Base.{
  ◌≤◌, ◌<◌, ℕ, ◌-◌, ◌^◌, ◌≡◌, refl, ap, ◌≢◌, Bool, true, false, ◌&&◌, some, List, [], ◌∷◌, arith,
  ltb, ◌==◌, if◌then◌else◌,
}
use leotp.Seg.{Role, requester, responder, midnode, encode_seg}
use leotp.Trans.Interest.{flush_int_queue_loop, next_interest, extend, interest}
use leotp.Trans.Holes.{delete_holes}
use leotp.Trans.Answer.{parse_int, ask_rest}
use leotp.Trans.Answer.Fetched.Loop.{Fetched}
use leotp.Trans.Input.{InputResult}
use leotp.Trans.Timer.{Outcome, returned, exits, undefined_step, not_ended, update}
use mathlib.Core.Bool.{true≢false}
use leotp.Trans.Deliver.{is_requester}
use leotp.Codec.{encode8u, encode16, encode32u, imin}
use leotp.ByteMap.{ByteArray, eq_bytes, read_value, set_value}
use leotp.Cache.{Cache, block_len}
use leotp.Session.{Addr, to_addr, ntohs, addr_cmp, quad_of, eq_quad, Sess, User, LeotpSess}
use leotp.Session.Quads.{eq_quad-quad_of}
use leotp.Session.Socket.{bind_failed, opened, create_socket}
use leotp.Session.Socket.Search.{FirstFree, create_socket_lem}
use leotp.Session.Callbacks.{null_function, callbacks}
use leotp.Session.Fetch.{Serves, parse_int-cache}
use leotp.Session.Create.{Setting}
use leotp.Session.Timed.{Updates, sess_update-Running}
use leotp.Session.Operations.{
  update_wait, next_update, insert_data, sess_update, input_udp, recv_data,
}
use leotp.Session.Operations.Inserted.{Taken, insert_data-Taken}
use leotp.Session.Operations.Wakes.{next_update-due}
use leotp.Session.Running.{AppKeeps, Owned, Running, Session, input_udp-Running}
use leotp.Session.Listen.{Node, ListenArgs, Arrival, put_back, resume}
use leotp.Session.Filed.{AllFiled, set_value-AllFiled}
use leotp.Session.Run.{takes, stop, go, Stays, Run-Stays}
use leotp.App.{provide_data}
use leotp.App.Harmless.{provide_data-AppKeeps}
use leotp.Examples.Stored.{
  content, zeros, sent, peers, empty, one_block, empty-IsFaithful, empty-Room, one_block-IsFaithful,
  one_block-key_len, none≢some,
}
use leotp.Examples.Sessions.{no_stat, no_floats, node_of}

abbrev client : Addr
client = to_addr 16777226 22555

abbrev server : Addr
server = to_addr 33554442 34835

eq_quad-quad_of_example :
    eq_quad (quad_of client server) (quad_of server client)
    ≡ (addr_cmp client server && addr_cmp server client)
eq_quad-quad_of_example =
    eq_quad-quad_of client server server client (omega arith, omega arith)
      (omega arith, omega arith) (omega arith, omega arith) (omega arith, omega arith)

-- Port 7001 is the only one that can be bound.
abbrev one_port : Addr → Bool
one_port a = ntohs a.sin_port == 7001

create_socket_lem_example :
    (q : ℕ) × FirstFree (λ p. one_port (to_addr 9 (ntohs p))) 7000 8000 q
    × (create_socket one_port 3 9 (ntohs 7000)
        ≡ (if q == 8000 then bind_failed else opened 3 (ntohs q)))
create_socket_lem_example = create_socket_lem one_port 3 9 (ntohs 7000) (omega arith) (omega arith)

abbrev sess_of : Role → List ℕ → Sess
sess_of role name = record {
  socket_fd_to_req = 3;
  socket_fd_to_resp = 4;
  requester_addr = client;
  responder_addr = server;
  name_chars = name;
  node_role = role;
}

abbrev user_of : Role → List ℕ → Cache → User
user_of role name cache = record {
  sess = sess_of role name;
  shared = record { cache = cache; sent = []; aborted = false };
}

abbrev pub session : Role → List ℕ → Cache → LeotpSess Unit
session role name cache = node_of role (user_of role name cache)

parse_int-cache_example :
    let cb = session midnode peers one_block in
    let cbs = callbacks zeros null_function in
    (sent_end : ℕ) × (c : LeotpSess Unit) × Fetched
      (content peers)
      (λ u. Serves content peers u × Unit)
      (2 ^ 32 - block_len)
      10
      25
      cb
      (sent_end, c)
    × (parse_int no_floats cbs 9 10 25 cb
        ≡ (if ltb sent_end 25 then ask_rest no_floats cbs 9 sent_end 25 c else c))
parse_int-cache_example =
    parse_int-cache no_floats content peers (λ _. Unit) zeros null_function 9 10 25
      (session midnode peers one_block) (λ c d m k u. u) refl
      (record { named = refl; sized = one_block-key_len; faithful = one_block-IsFaithful }) tt
      (omega arith) (omega arith) (omega arith)

insert_data-Taken_example :
    let cb = session responder peers empty in
    (after : LeotpSess Unit) × (insert_data zeros sent 10 20 cb ≡ some after)
    × Taken content peers 10 20 cb after
insert_data-Taken_example =
    insert_data-Taken content peers zeros sent 10 20 (session responder peers empty)
      (record { named = refl; sized = refl; faithful = empty-IsFaithful }) empty-Room
      (λ p l h. omega arith) ((omega arith, omega arith), tt) (omega arith) (omega arith)
      (omega arith)

abbrev due_later : ℕ → LeotpSess Unit
due_later t = record (session responder peers empty) { next_flush_ts = 105 }

next_update-due_example :
    ((t : ℕ) → 100 ≤ t → t < 105 → update_wait t (due_later t) ≡ some 1)
    × (next_update due_later 6 100 ≡ some 105)
next_update-due_example =
    next_update-due due_later 5 100 105 refl (omega arith) (omega arith) (λ t. refl) (λ t. refl)

abbrev set : Setting
set = record {
  now = 9;
  fd_to_req = 5;
  fd_to_resp = 6;
  bind = λ a. true;
  uninit_stat = no_stat;
  uninit_name = [];
}

abbrev no_sessions : Node Unit
no_sessions = record {
  sess_map = [];
  shared = record { cache = empty; sent = []; aborted = false };
}

abbrev at_server : ListenArgs Unit
at_server = record {
  on_unsat_int = provide_data zeros (λ n. n);
  listen_addr = server;
  listen_fd = 3;
}

-- An interest for [0, 16).
abbrev interest_arrives : Arrival
interest_arrives = record {
  send_addr = client;
  recv_addr = server;
  bytes = 80 ∷ 0 ∷ 0 ∷ 1 ∷ 0 ∷ 0 ∷ 0 ∷ 0 ∷ 0 ∷ 0 ∷ 0 ∷ 0 ∷ 0 ∷ 0 ∷ 0 ∷ 16 ∷ 0 ∷ 0 ∷ 0 ∷ [];
}

nobody-AllFiled : AllFiled no_sessions.sess_map
unfolding read_value
nobody-AllFiled k cb found = absurd (none≢some found)

-- The server's function leaves the fields of its session alone.
owned : (s : Sess) → AppKeeps Owned s at_server.on_unsat_int
owned s = provide_data-AppKeeps Owned (λ s u x o. o) zeros (λ n. n) s

abbrev key : ByteArray
key = (quad_of client server).chars

abbrev filed : LeotpSess Unit
filed = session requester key empty

abbrev one_session : Node Unit
one_session = record no_sessions { sess_map = set_value key filed [] }

one_session-AllFiled : AllFiled one_session.sess_map
unfolding read_value
one_session-AllFiled =
    set_value-AllFiled key filed [] refl nobody-AllFiled
      (record { named = refl; quad = refl; role = refl })

filed-found : read_value key one_session.sess_map ≡ some filed
unfolding read_value set_value eq_bytes quad_of encode32u encode16
filed-found = refl

Run-Stays_example :
    Stays one_session (put_back key (recv_data 64 (resume one_session.shared filed)).1 one_session)
Run-Stays_example =
    Run-Stays no_floats zeros at_server 3 owned
      (go _ _ _ (takes key 64 filed one_session filed-found) (stop _)) one_session-AllFiled

abbrev has_returned : {A : Type 0} → Outcome A → Bool
has_returned (returned a) = true
has_returned exits = false
has_returned undefined_step = false
has_returned not_ended = false

not_responder : requester ≢ responder
not_responder e = true≢false (ap is_requester e)

sess_update-Running_example :
    Updates no_floats zeros null_function
      (sess_of requester key)
      10
      50
      filed
      (sess_update no_floats zeros null_function 10 50 filed)
sess_update-Running_example =
    sess_update-Running no_floats zeros null_function (sess_of requester key) 10 50 filed
      (λ from to cb is g. absurd (not_responder is))
      (record { role_is = refl; kept = (refl, refl) }) (omega arith)
      ((omega arith, omega arith), tt) (omega arith)

-- The run returns: the interest is not due to be given up, and no hole is too old.
update_run-returned : has_returned (sess_update no_floats zeros null_function 10 50 filed) ≡ true
unfolding sess_update update flush_int_queue_loop next_interest imin extend interest encode_seg
    encode8u encode16 encode32u delete_holes
update_run-returned = refl

-- A datagram of data for [3, 5).
abbrev datagram : List ℕ
datagram = 81 ∷ 0 ∷ 0 ∷ 1 ∷ 0 ∷ 0 ∷ 0 ∷ 2 ∷ 0 ∷ 0 ∷ 0 ∷ 3 ∷ 0 ∷ 0 ∷ 0 ∷ 5 ∷ 0 ∷ 0 ∷ 0 ∷ 7 ∷ 8 ∷ []

input_udp-Running_example :
    (r : InputResult) × (c : LeotpSess Unit) × (input_udp no_floats zeros null_function 50 datagram
        filed
      ≡ some (r, c))
    × Session Running (sess_of requester key) c
input_udp-Running_example =
    input_udp-Running no_floats zeros null_function (sess_of requester key) 50 datagram filed
      not_responder (record { role_is = refl; kept = (refl, refl) })
