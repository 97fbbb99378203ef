-- ===== src/Session/Socket/Search.antt =====
-- udp_leotp.cpp, the search for a port in `createSocket`.
use leotp.Base.{
  ℕ, zero, suc, ◌+◌, ◌%◌, ◌^◌, ◌≤◌, ◌<◌, ◌≡◌, refl, ap, ◌∙◌, inl, inr, Bool, true, false, not,
  Option, some, arith, ltb, ◌==◌, if◌then◌else◌, slt, Bool-cases, if_cases,
}
use mathlib.Core.Bool.{true≢false}
use leotp.Session.{Addr, to_addr, ntohs}
use leotp.Session.Socket.{
  reuse_port_range, find_port, Opened, bind_failed, opened, create_socket, after_search,
}

-- The first port of [port, limit) that can be bound, or `limit` if there is none.
abbrev pub FirstFree : (ℕ → Bool) → ℕ → ℕ → ℕ → Type 0
FirstFree bind port limit q =
    (port ≤ q)
    × (q ≤ limit)
    × ((p : ℕ) → port ≤ p → p < q → bind p ≡ false)
    × (q < limit → bind q ≡ true)

find_port-FirstFree :
    (bind : ℕ → Bool) (fuel port limit : ℕ)
    → port ≤ limit
    → limit < 2 ^ 16
    → limit < port + fuel
    → (q : ℕ) × (find_port bind fuel port limit ≡ some q) × FirstFree bind port limit q
unfolding find_port
find_port-FirstFree bind zero port limit h k l = absurd (omega arith)
find_port-FirstFree bind (suc fuel) port limit h k l =
    if_cases Found (not (ltb port limit))
      (λ t.
        (port, refl, (omega arith, h, (λ p a b. absurd (omega arith)), λ a. absurd (ground arith))))
      (λ t.
        if_cases Found (bind port)
          (λ u. (port, refl, (omega arith, h, (λ p a b. absurd (omega arith)), λ a. u)))
          (λ u. later u (below t) (
            find_port-FirstFree bind fuel ((port + 1) % 2 ^ 16) limit (omega (arith, below t)) k
              (omega (arith, below t)))))
  where
    Found : Option ℕ → Type 0
    Found o = (q : ℕ) × (o ≡ some q) × FirstFree bind port limit q

    below : not (ltb port limit) ≡ false → port < limit
    below t = ground arith

    busy :
        (q : ℕ)
        → bind port ≡ false
        → port < limit
        → ((p : ℕ) → (port + 1) % 2 ^ 16 ≤ p → p < q → bind p ≡ false)
        → (p : ℕ) → port ≤ p
        → p < q
        → bind p ≡ false
    busy q u m f p a b = elim (Bool-cases (port == p)) [
      | inl e ↦ same p e u
      | inr e ↦ f p (ground arith) b
    ]
      where
        same : (p : ℕ) → (port == p) ≡ true → bind port ≡ false → bind p ≡ false
        same p e u = ap bind (ground arith) ∙ u

    later :
        bind port ≡ false
        → port < limit
        → (q : ℕ) × (find_port bind fuel ((port + 1) % 2 ^ 16) limit ≡ some q)
          × FirstFree bind ((port + 1) % 2 ^ 16) limit q
        → Found (find_port bind fuel ((port + 1) % 2 ^ 16) limit)
    later u m (q, e, (a, b, f, g)) = (q, e, (omega arith, b, busy q u m f, g))

-- A socket for an address whose port is at least 1000 below the greatest: it is bound to the first
-- of the 1000 ports from there on that can be bound, and if none can, the process aborts.
pub create_socket_lem :
    (bind : Addr → Bool) (fd ip port : ℕ)
    → fd < 2 ^ 31
    → ntohs port + reuse_port_range < 2 ^ 16
    → let limit = ntohs port + reuse_port_range in
      let free = λ (p : ℕ). bind (to_addr ip (ntohs p)) in
      (q : ℕ) × FirstFree free (ntohs port) limit q
      × (create_socket bind fd ip port ≡ (if q == limit then bind_failed else opened fd (ntohs q)))
unfolding create_socket
create_socket_lem bind fd ip port h k =
    let (q, e, first) =
      find_port-FirstFree (λ p. bind (to_addr ip (ntohs p))) (2 ^ 16 + 1) (ntohs port)
        (ntohs port + reuse_port_range) (omega arith) k (omega arith) in
    (
      q,
      first,
      passed (slt fd 0) _ _ (ground arith) ∙ ap (after_search fd (ntohs port + reuse_port_range)) e,
    )
  where
    passed : (b : Bool) (x y : Opened) → b ≡ false → (if b then x else y) ≡ y
    passed true x y e = absurd (true≢false e)
    passed false x y e = refl
