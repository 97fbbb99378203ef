-- ===== src/Session/Dispatch/Handed.antt =====
-- udp_leotp.cpp, `udpRecvLoop`: the map of sessions after a datagram was handed to one of them.
use leotp.Base.{◌≡◌, refl, sym, ◌∙◌, ◌≢◌, Option, none, some, if◌then◌else◌, if_cases}
use mathlib.Core.Bool.{true≢false}
use leotp.Trans.Input.{InputResult}
use leotp.ByteMap.{ByteArray, eq_bytes, read_value, set_value}
use leotp.ByteMap.Laws.{eq_bytes_iff, read_value-set_value, read_value-store}
use leotp.Session.{LeotpSess}
use leotp.Session.Listen.{Node, Handled, not_leotp, unknown_packet, ended, handled, put_back}
use leotp.Session.Running.{Owned, Session}
use leotp.Session.Filed.{AllFiled, put_back-AllFiled}

-- What a round leaves that hands the datagram to a session, what holds if it ignores the datagram
-- as data for no session here, and what if the process ends.
abbrev pub Leaves :
    {F : Type 0} → Type 0 → Type 0 → (InputResult → Node F → Type 0) → Handled F → Type 0
Leaves Unknown Ended P not_leotp = ⊥
Leaves Unknown Ended P unknown_packet = Unknown
Leaves Unknown Ended P ended = Ended
Leaves Unknown Ended P (handled r node) = P r node

pub Leaves-mono :
    {F : Type 0} (U U' E E' : Type 0) (P Q : InputResult → Node F → Type 0)
    → (U → U')
    → (E → E')
    → ((r : InputResult) (n : Node F) → P r n → Q r n)
    → (h : Handled F) → Leaves U E P h
    → Leaves U' E' Q h
Leaves-mono U U' E E' P Q f g k not_leotp l = elim l [ ]
Leaves-mono U U' E E' P Q f g k unknown_packet l = f l
Leaves-mono U U' E E' P Q f g k ended l = g l
Leaves-mono U U' E E' P Q f g k (handled r n) l = k r n l

-- Each session is filed, the session for `key` is there, and the others are as they were.
abbrev pub Dispatched : {F : Type 0} → ByteArray → Node F → Node F → Type 0
Dispatched {F = F} key node after =
    AllFiled after.sess_map
    × ((cb : LeotpSess F) × (read_value key after.sess_map ≡ some cb))
    × ((k : ByteArray) → key ≢ k → read_value k after.sess_map ≡ read_value k node.sess_map)

module _ {F : Type 0} (key : ByteArray) where
  -- A lookup of another key, and of the key itself.
  read-other :
      (v : LeotpSess F) (k : ByteArray) (o : Option (LeotpSess F))
      → key ≢ k
      → (if eq_bytes key k then some v else o) ≡ o
  read-other v k o other =
      if_cases (λ (p : Option (LeotpSess F)). p ≡ o) (eq_bytes key k)
        (λ same. absurd (other ((eq_bytes_iff key k).0 same))) (λ _. refl)

  pub read-same :
      (v : LeotpSess F) (o : Option (LeotpSess F))
      → (if eq_bytes key key then some v else o) ≡ some v
  read-same v o =
      if_cases (λ (p : Option (LeotpSess F)). p ≡ some v) (eq_bytes key key) (λ _. refl)
        (λ t. absurd (true≢false (sym ((eq_bytes_iff key key).1 refl) ∙ t)))

  pub put_back-Dispatched :
      (cb c : LeotpSess F) (node : Node F)
      → AllFiled node.sess_map
      → read_value key node.sess_map ≡ some cb
      → Session Owned cb.user.sess c
      → Dispatched key node (put_back key c node)
  put_back-Dispatched cb c node all found g = (
    put_back-AllFiled key cb c node all (all key cb found) g,
    (
      c,
      read_value-store key key c cb node.sess_map found
          ∙ read-same c (read_value key node.sess_map),
    ),
    λ k other.
        read_value-store key k c cb node.sess_map found
        ∙ read-other c k (read_value k node.sess_map) other,
  )

  pub set_value-Dispatched :
      (cb : LeotpSess F) (node after : Node F)
      → read_value key node.sess_map ≡ none
      → Dispatched key (record node { sess_map = set_value key cb node.sess_map }) after
      → Dispatched key node after
  set_value-Dispatched cb node after absent (all, there, others) = (
    all,
    there,
    λ k other.
        others k other
        ∙ read_value-set_value key k cb node.sess_map absent
        ∙ read-other cb k (read_value k node.sess_map) other,
  )
