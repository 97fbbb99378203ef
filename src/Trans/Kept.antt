-- ===== src/Trans/Kept.antt =====
-- leotp.cpp, the callbacks: which of them a control block calls, and what it leaves to them.
pub mod Quiet
pub mod Asked
pub mod Entered
pub mod Flushed
pub mod Repeated
pub mod Updated
pub mod Served
use leotp.Base.{
  ℕ, zero, suc, ◌+◌, ◌-◌, ◌*◌, ◌/◌, ◌%◌, ◌^◌, ◌≤◌, ◌<◌, ◌≡◌, refl, sym, ap, ◌∙◌, ◌≢◌, ◌↔◌, ◌⊎◌, inl,
  inr, Bool, true, false, ◌&&◌, ◌||◌, not, Option, none, some, List, [], ◌∷◌, ◌++◌, map, arith, ltb,
  leb, ◌==◌, if◌then◌else◌, length, length-append, All, All-append, All-mono, u32, add32, sub32,
  slt, Bool-cases, Option-cases, if_cases, sub32_le, ltb→lt, lt→ltb, le→ltb, ltb→le, take, drop,
  take-length-append, drop-length-append, span, span-append, length-span, leb_refl, lt→leb,
}
use mathlib.Core.Path.{subst}
use leotp.Seg.{Role, requester, responder}
use leotp.Trans.{TransCb, Callbacks}

-- One state has the role and the object of the callbacks of another.
abbrev pub Same : {F W : Type 0} → TransCb F W → TransCb F W → Type 0
Same c cb = (c.node_role ≡ cb.node_role) × (c.user ≡ cb.user)

-- The role of the control block, and a property of the object that the callbacks act on.
module _ {F W : Type 0} (role : Role) (Q : W → Type 0) where
  pub record Good (cb : TransCb F W) : Type 0 where
    pub role_is : cb.node_role ≡ role
    pub kept : Q cb.user

  pub Same-Good : (c cb : TransCb F W) → Same c cb → Good cb → Good c
  Same-Good c cb s g = record { role_is = s.0 ∙ g.role_is; kept = subst Q (sym s.1) g.kept }

  -- The callbacks keep the property, where `outputFunc` is called for the destinations `Sendable`.
  pub record Safe (Sendable : Role → Type 0) (cbs : Callbacks F W) : Type 0 where
    pub sends :
        (bytes : List ℕ) (dst : Role) (w : W) → Sendable dst → Q w → Q (cbs.output_func bytes dst w)
    pub fetches : (s e : ℕ) (w : W) → Q w → Q (cbs.fetch_data_func s e w).2
    pub unsat :
        (s e : ℕ) (cb : TransCb F W) → role ≡ responder → Good cb → Good (cbs.on_unsat_int s e cb)
