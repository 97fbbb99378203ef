-- ===== src/Session.antt =====
-- udp_leotp.cpp and include/udp_leotp.h: addresses, quadruples and the state of a session.
-- `in_addr_t` and ports are the numbers of their bytes in memory, as the network orders them; the
-- machine is little-endian. `sin_family` is AF_INET throughout.
pub mod Quads
pub mod Socket
pub mod Callbacks
pub mod Fetch
pub mod Operations
pub mod Running
pub mod Timed
pub mod Create
pub mod Listen
pub mod Filed
pub mod Dispatch
pub mod Run
use leotp.Base.{
  ℕ, zero, suc, ◌+◌, ◌-◌, ◌*◌, ◌/◌, ◌%◌, ◌^◌, ◌≤◌, ◌<◌, ◌≡◌, refl, sym, ap, ◌∙◌, ◌≢◌, ◌↔◌, ◌⊎◌, inl,
  inr, Bool, true, false, ◌&&◌, ◌||◌, not, Option, none, some, List, [], ◌∷◌, ◌++◌, map, arith, ltb,
  leb, ◌==◌, if◌then◌else◌, length, length-append, All, All-append, All-mono, u32, add32, sub32,
  slt, Bool-cases, Option-cases, if_cases, sub32_le, ltb→lt, lt→ltb, le→ltb, ltb→le, take, drop,
  take-length-append, drop-length-append, span, span-append, length-span, leb_refl, lt→leb,
}
use leotp.Codec.{encode16, encode32u}
use leotp.ByteMap.{ByteArray, ByteMap, mem_eq}
use leotp.Cache.{Cache}
use leotp.Seg.{Role}
use leotp.Trans.{TransCb}

abbrev pub quad_str_len : ℕ
quad_str_len = 12

pub record Addr : Type 0 where
  pub sin_addr : ℕ
  pub sin_port : ℕ

abbrev pub to_addr : ℕ → ℕ → Addr
to_addr ip port = record { sin_addr = ip; sin_port = port }

unfoldable pub addr_cmp : Addr → Addr → Bool
addr_cmp addr1 addr2 = addr1.sin_addr == addr2.sin_addr && addr1.sin_port == addr2.sin_port

-- `ntohs` and `htons` on a little-endian machine.
abbrev pub ntohs : ℕ → ℕ
ntohs p = p % 256 * 256 + p / 256 % 256

-- `%d` of a number below 1000, as characters.
unfoldable pub decimal : ℕ → List ℕ
decimal n =
    if ltb n 10
    then (48 + n) ∷ []
    else if ltb n 100
    then (48 + n / 10) ∷ (48 + n % 10) ∷ []
    else (48 + n / 100) ∷ (48 + n / 10 % 10) ∷ (48 + n % 10) ∷ []

-- What `snprintf` writes into a buffer of `size` bytes, without the NUL.
abbrev pub snprintf : ℕ → List ℕ → List ℕ
snprintf size s = take (size - 1) s

-- The text of an address; 46 is the dot.
unfoldable pub dotted : ℕ → List ℕ
unfolding decimal
dotted ip =
    decimal (ip % 256)
    ++ (46 ∷ decimal (ip / 2 ^ 8 % 256)
        ++ (46 ∷ decimal (ip / 2 ^ 16 % 256) ++ (46 ∷ decimal (ip / 2 ^ 24 % 256))))

-- `writeIPstr`.
unfoldable pub write_ip_str : ℕ → List ℕ
unfolding dotted
write_ip_str ip = snprintf 16 (dotted ip)

pub record Quad : Type 0 where
  pub req_addr_ip : ℕ
  pub req_addr_port : ℕ
  pub resp_addr_ip : ℕ
  pub resp_addr_port : ℕ
  pub chars : ByteArray

-- `Quad::toChars`.
unfoldable pub to_chars : Quad → Quad
to_chars q = record q {
  chars =
      encode32u q.req_addr_ip
      ++ (encode16 q.req_addr_port ++ (encode32u q.resp_addr_ip ++ encode16 q.resp_addr_port));
}

-- The constructors.
unfoldable pub new_quad : ℕ → ℕ → ℕ → ℕ → Quad
unfolding to_chars
new_quad req_ip req_port resp_ip resp_port = to_chars (record {
  req_addr_ip = req_ip;
  req_addr_port = req_port;
  resp_addr_ip = resp_ip;
  resp_addr_port = resp_port;
  chars = [];
})

unfoldable pub quad_of : Addr → Addr → Quad
unfolding new_quad
quad_of req resp = new_quad req.sin_addr req.sin_port resp.sin_addr resp.sin_port

unfoldable pub reverse : Quad → Quad
unfolding new_quad
reverse q = new_quad q.resp_addr_ip q.resp_addr_port q.req_addr_ip q.req_addr_port

unfoldable pub get_req_addr : Quad → Addr
get_req_addr q = to_addr q.req_addr_ip q.req_addr_port

unfoldable pub get_resp_addr : Quad → Addr
get_resp_addr q = to_addr q.resp_addr_ip q.resp_addr_port

-- `operator ==`: `memcmp` on the characters.
unfoldable pub eq_quad : Quad → Quad → Bool
unfolding mem_eq
eq_quad q r = mem_eq q.chars r.chars

-- The fields of `LeotpSess` but its control block, its cache and its threads. A file descriptor is
-- an `int`.
pub record Sess : Type 0 where
  pub socket_fd_to_req : ℕ
  pub socket_fd_to_resp : ℕ
  pub requester_addr : Addr
  pub responder_addr : Addr
  pub name_chars : ByteArray
  pub node_role : Role

-- A call of `sendto`.
pub record Datagram : Type 0 where
  pub fd : ℕ
  pub dst : Addr
  pub bytes : List ℕ

-- What the sessions of a process share: the cache behind `cachePtr`, the datagrams sent so far, the
-- latest first, and whether `abort` was called.
pub record Shared : Type 0 where
  pub cache : Cache
  pub sent : List Datagram
  pub aborted : Bool

-- The object behind `user`, as a callback sees it.
pub record User : Type 0 where
  pub sess : Sess
  pub shared : Shared

-- A session with its control block.
abbrev pub LeotpSess : Type 0 → Type 0
LeotpSess F = TransCb F User

-- `-1` as a file descriptor.
abbrev pub no_fd : ℕ
no_fd = 2 ^ 32 - 1
