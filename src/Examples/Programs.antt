-- ===== src/Examples/Programs.antt =====
-- The programs at concrete inputs.
use leotp.Base.{ℕ, ◌+◌, ◌-◌, ◌*◌, ◌^◌, ◌≤◌, ◌<◌, ◌≡◌, refl, Bool, some, List, [], arith}
use leotp.Seg.{requester, responder, midnode}
use leotp.Trans.Answer.{parse_int}
use leotp.ByteMap.{read_value}
use leotp.Cache.Faithful.{IsFaithful}
use leotp.Cache.Insert.{Room}
use leotp.Session.{LeotpSess}
use leotp.Session.Callbacks.{callbacks}
use leotp.Session.Fetch.{Serves}
use leotp.App.{RelayBuf, req_len, provided, provide_data, request_func, relay_round}
use leotp.App.Provided.{Answered, parse_int-Answered}
use leotp.App.Requests.{AskedUpTo, request_func-AskedUpTo}
use leotp.App.Relayed.{relay_round-Relaying}
use leotp.App.Relayed.Recv.{Relaying}
use leotp.Examples.Stored.{zeros, peers, empty, none≢some}
use leotp.Examples.Sessions.{no_floats, counts}
use leotp.Examples.Networks.{session}

request_func-AskedUpTo_example :
    let cb = session requester peers empty in
    AskedUpTo 0 (0 + 3 * req_len) cb (request_func 3 (0, cb))
request_func-AskedUpTo_example =
    request_func-AskedUpTo 3 0 (session requester peers empty) (omega arith)

-- An empty cache, for any streams.
nothing-IsFaithful : (stream : List ℕ → ℕ → ℕ) → IsFaithful stream empty
unfolding read_value
nothing-IsFaithful stream = record {
  distinct = tt;
  blocks = λ name start b n w h. absurd (none≢some h);
}

nothing-Room : (end : ℕ) → Room peers 0 end empty
unfolding read_value
nothing-Room end bs b l h found = absurd (none≢some found)

none_provided :
    (from p : ℕ) → 10 ≤ from → from ≤ p → p < 25 → provided (λ n. n) (25 - from) (p - from) ≡ 0
unfolding provided
none_provided from p h k l = ground arith

parse_int-Answered_example :
    let cb = session responder peers empty in
    Answered no_floats
      (λ n p. 0)
      peers
      zeros
      zeros
      (λ n. n)
      10
      25
      cb
      (parse_int no_floats (callbacks zeros (provide_data zeros (λ n. n))) 9 10 25 cb)
parse_int-Answered_example =
    parse_int-Answered no_floats (λ n p. 0) peers zeros zeros (λ n. n) 9 10 25
      (session responder peers empty) refl
      (record { named = refl; sized = refl; faithful = nothing-IsFaithful (λ n p. 0) })
      (nothing-Room 25) none_provided ((omega arith, omega arith), tt) (omega arith) (omega arith)
      (omega arith)

abbrev relaying : LeotpSess Unit
relaying = record (session midnode peers empty) { rcv_buf = [] }

abbrev relay_start : RelayBuf
relay_start = record { recv_buf = zeros; start = 0; end = 0 }

relay_round-Relaying_example :
    (go : Bool) × (r : RelayBuf) × (c : LeotpSess Unit) × (relay_round zeros relay_start relaying
      ≡ some (go, r, c))
    × Relaying (counts) r c
    × Serves (λ n. counts) peers c.user
relay_round-Relaying_example =
    relay_round-Relaying (λ n. counts) peers zeros relay_start relaying
      (record {
        held = (omega arith, omega arith, λ p l h. absurd (omega arith));
        role = refl;
        queue = ((λ e. (omega arith, omega arith, λ p l h. omega arith)), tt);
        buf = tt;
      })
      (record { named = refl; sized = refl; faithful = nothing-IsFaithful (λ n. counts) })
      (nothing-Room (2 ^ 32))
