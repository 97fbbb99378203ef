-- ===== src/Session/Socket.antt =====
-- udp_leotp.cpp, `createSocket`. What `socket` and `bind` return is a parameter.
pub mod Search
use leotp.Base.{
  ℕ, zero, suc, ◌+◌, ◌-◌, ◌*◌, ◌/◌, ◌%◌, ◌^◌, ◌≤◌, ◌<◌, ◌≡◌, refl, sym, ap, ◌∙◌, ◌≢◌, ◌↔◌, ◌⊎◌, inl,
  inr, Bool, true, false, ◌&&◌, ◌||◌, not, Option, none, some, List, [], ◌∷◌, ◌++◌, map, arith, ltb,
  leb, ◌==◌, if◌then◌else◌, length, length-append, All, All-append, All-mono, u32, add32, sub32,
  slt, Bool-cases, Option-cases, if_cases, sub32_le, ltb→lt, lt→ltb, le→ltb, ltb→le, take, drop,
  take-length-append, drop-length-append, span, span-append, length-span, leb_refl, lt→leb,
}
use leotp.Session.{Addr, to_addr, ntohs}

abbrev pub reuse_port_range : ℕ
reuse_port_range = 1000

-- The loop over the ports from `port`, on fuel: the `realPortH` that it ends with. A `uint16_t`
-- goes on at 0 behind 65535, where the limit is an `int`.
unfoldable pub find_port : (ℕ → Bool) → ℕ → ℕ → ℕ → Option ℕ
find_port bind zero port limit = none
find_port bind (suc fuel) port limit =
    let next = find_port bind fuel ((port + 1) % 2 ^ 16) limit in
    if not (ltb port limit) then some port else if bind port then some port else next

-- -1; `abort`; a loop over all ports, each tried in vain; a descriptor and its `finalPort`.
pub data Opened : Type 0 where
  no_socket bind_failed never_bound : Opened
  opened : ℕ → ℕ → Opened

-- What follows on the loop.
abbrev pub after_search : ℕ → ℕ → Option ℕ → Opened
after_search fd limit none = never_bound
after_search fd limit (some p) = if p == limit then bind_failed else opened fd (ntohs p)

-- `fd` is what `socket` returns. The fuel is a round for each port.
unfoldable pub create_socket : (Addr → Bool) → ℕ → ℕ → ℕ → Opened
create_socket bind fd ip port =
    let limit = ntohs port + reuse_port_range in
    let search = find_port (λ p. bind (to_addr ip (ntohs p))) (2 ^ 16 + 1) (ntohs port) limit in
    if slt fd 0 then no_socket else after_search fd limit search
