-- ===== src/Codec/Bounds.antt =====
-- include/generality.h: what `_imin_`, `_imax_` and `_ibound_` give.
use leotp.Base.{ℕ, ◌≤◌, ◌≡◌, arith}
use leotp.Codec.{imin, imax, ibound}

-- The clamp: within the bounds, and the value itself where it lies between them.
pub ibound_bounds : (lo x hi : ℕ) → lo ≤ hi → (lo ≤ ibound lo x hi) × (ibound lo x hi ≤ hi)
unfolding ibound
ibound_bounds lo x hi h = ground arith

pub imin_left : (a b : ℕ) → a ≤ b → imin a b ≡ a
unfolding imin
imin_left a b h = ground arith

pub imin_right : (a b : ℕ) → b ≤ a → imin a b ≡ b
unfolding imin
imin_right a b h = ground arith

pub imax_left : (a b : ℕ) → b ≤ a → imax a b ≡ a
unfolding imax
imax_left a b h = ground arith

pub imax_right : (a b : ℕ) → a ≤ b → imax a b ≡ b
unfolding imax
imax_right a b h = ground arith
