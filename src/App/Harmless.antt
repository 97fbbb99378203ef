-- ===== src/App/Harmless.antt =====
-- app/appserver.cpp, `provideData` as the function that a session calls.
use leotp.Base.{true, ℕ, ◌≡◌, refl, Option, none, some, sub32}
use leotp.Seg.{Bytes}
use leotp.Cache.{Cache}
use leotp.Session.{Sess, User, LeotpSess}
use leotp.Session.Operations.{insert_data}
use leotp.Session.Running.{Session, AppKeeps}
use leotp.Session.Run.{insert_data-Session}
use leotp.App.{provided, provide_data}

-- It keeps what does not depend on the cache.
pub provide_data-AppKeeps :
    {F : Type 0} (P : Sess → User → Type 0)
    → ((s : Sess) (u : User) (x : Cache)
        → P s u
        → P s (record u { shared = record u.shared { cache = x } }))
    → (fresh : Bytes) (clock : ℕ → ℕ) (s : Sess) → AppKeeps {F = F} P s (provide_data fresh clock)
unfolding provide_data
provide_data-AppKeeps {F = F} P free fresh clock s from to cb is g =
    done (insert_data fresh (provided clock (sub32 to from)) from to cb)
      (λ c e. insert_data-Session P free fresh (provided clock (sub32 to from)) from to cb c s g e)
  where
    done :
        (o : Option (LeotpSess F))
        → ((c : LeotpSess F) → o ≡ some c → Session P s c)
        → Session P s (elim o [ none ↦ record cb { overrun = true } | some c ↦ c ])
    done none k = record { role_is = g.role_is; kept = g.kept }
    done (some c) k = k c refl
