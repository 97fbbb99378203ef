-- ===== src/Trans/Holes/Cover.antt =====
-- leotp.cpp, `deleteDataHole` and `detectDataHole` against the set of byte positions that are
-- holes.
use leotp.Base.{
  ℕ, ◌*◌, ◌^◌, ◌≤◌, ◌<◌, ◌≡◌, refl, ap, ◌∙◌, Bool, true, false, ◌&&◌, ◌||◌, not, List, [], ◌∷◌,
  ◌++◌, arith, ltb, leb, ◌==◌, sub32, if_cases,
}
use leotp.Seg.{mss}
use leotp.Trans.{Hole, TransCb}
use leotp.Trans.Holes.{is_midnode, delete_holes, detect_data_hole}

abbrev pub within : ℕ → ℕ → ℕ → Bool
within a b p = leb a p && ltb p b

-- Position `p` is in a hole.
abbrev pub missing : ℕ → List Hole → Bool
missing p [] = false
missing p (h ∷ hs) = within h.start_byte h.end_byte p || missing p hs

-- The holes are not empty, ascending and disjoint, from `lo` up to `hi`.
abbrev pub Ascending : ℕ → ℕ → List Hole → Type 0
Ascending lo hi [] = lo ≤ hi
Ascending lo hi (h ∷ hs) =
    (lo ≤ h.start_byte) × (h.start_byte < h.end_byte) × Ascending h.end_byte hi hs

missing_below : (p lo hi : ℕ) (hs : List Hole) → Ascending lo hi hs → p < lo → missing p hs ≡ false
missing_below p lo hi [] a h = refl
missing_below p lo hi (x ∷ hs) a h = ground (arith, missing_below p x.end_byte hi hs a.2)

Ascending-lower :
    (lo lo' hi : ℕ) (hs : List Hole) → lo' ≤ lo → Ascending lo hi hs → Ascending lo' hi hs
Ascending-lower lo lo' hi [] h a = omega arith
Ascending-lower lo lo' hi (x ∷ hs) h a = (omega arith, a.1, a.2)

-- Deleting a range keeps the order.
delete_holes-Ascending :
    (s e lo hi : ℕ) (hs : List Hole)
    → s < e
    → Ascending lo hi hs
    → Ascending lo hi (delete_holes s e hs)
unfolding delete_holes
delete_holes-Ascending s e lo hi [] h a = a
delete_holes-Ascending s e lo hi (x ∷ hs) h a = ground (
  arith,
  delete_holes-Ascending s e x.end_byte hi hs h a.2,
  Ascending-lower x.end_byte lo hi (delete_holes s e hs),
  Ascending-lower x.end_byte s hi (delete_holes s e hs),
)

-- The branches of `deleteDataHole` at one position, with `rest` for the later holes.
module _ (s e p a b : ℕ) (rest : Bool) (h : s < e) (k : a < b) (later : p < b → rest ≡ false) where
  cut_before : e ≤ a → (within a b p || rest) ≡ ((within a b p || rest) && not (within s e p))
  cut_before l = ground arith

  cut_none :
      b ≤ s
      → (within a b p || (rest && not (within s e p)))
        ≡ ((within a b p || rest) && not (within s e p))
  cut_none l = ground arith

  cut_all :
      b ≤ e → s ≤ a → (rest && not (within s e p)) ≡ ((within a b p || rest) && not (within s e p))
  cut_all l m = ground arith

  cut_end :
      b ≤ e
      → a < s
      → s < b
      → (within a s p || (rest && not (within s e p)))
        ≡ ((within a b p || rest) && not (within s e p))
  cut_end l m n = ground arith

  cut_start :
      e < b
      → s ≤ a
      → a < e
      → (within e b p || (rest && not (within s e p)))
        ≡ ((within a b p || rest) && not (within s e p))
  cut_start l m n = ground arith

  cut_middle :
      e < b
      → a < s
      → (within a s p || (within e b p || (rest && not (within s e p))))
        ≡ ((within a b p || rest) && not (within s e p))
  cut_middle l m = ground arith

-- In an ascending list the positions of a range that is not empty, and no others, cease to be
-- holes.
pub delete_holes-missing :
    (s e lo hi p : ℕ) (hs : List Hole)
    → s < e
    → Ascending lo hi hs
    → missing p (delete_holes s e hs) ≡ (missing p hs && not (within s e p))
unfolding delete_holes
delete_holes-missing s e lo hi p [] h a = refl
delete_holes-missing s e lo hi p (x ∷ hs) h a =
    branch (missing_below p x.end_byte hi hs a.2)
      (delete_holes-missing s e x.end_byte hi p hs h a.2)
  where
    done : List Hole → Type 0
    done l = missing p l ≡ (missing p (x ∷ hs) && not (within s e p))

    branch :
        (p < x.end_byte → missing p hs ≡ false)
        → missing p (delete_holes s e hs) ≡ (missing p hs && not (within s e p))
        → done (delete_holes s e (x ∷ hs))
    branch later ih =
        if_cases done (leb e x.start_byte)
          (λ l. cut_before s e p x.start_byte x.end_byte (missing p hs) h a.1 later (ground arith))
          λ l.
            if_cases done (leb x.end_byte s)
              (λ m.
                ap (λ c. within x.start_byte x.end_byte p || c) ih
                ∙ cut_none s e p x.start_byte x.end_byte (missing p hs) h a.1 later (ground arith))
              λ m.
                if_cases done (leb x.end_byte e)
                  (λ n.
                    if_cases done (leb s x.start_byte)
                      (λ o.
                        ih
                        ∙ cut_all s e p x.start_byte x.end_byte (missing p hs) h a.1 later
                            (ground arith) (ground arith))
                      (λ o.
                        ap (λ c. within x.start_byte s p || c) ih
                        ∙ cut_end s e p x.start_byte x.end_byte (missing p hs) h a.1 later
                            (ground arith) (ground arith) (ground arith)))
                  (λ n.
                    if_cases done (leb s x.start_byte)
                      (λ o.
                        ap (λ c. within e x.end_byte p || c) ih
                        ∙ cut_start s e p x.start_byte x.end_byte (missing p hs) h a.1 later
                            (ground arith) (ground arith) (ground arith))
                      (λ o.
                        ap (λ c. within x.start_byte s p || (within e x.end_byte p || c)) ih
                        ∙ cut_middle s e p x.start_byte x.end_byte (missing p hs) h a.1 later
                            (ground arith) (ground arith)))

Ascending-upper :
    (lo hi hi' : ℕ) (hs : List Hole) → hi ≤ hi' → Ascending lo hi hs → Ascending lo hi' hs
Ascending-upper lo hi hi' [] h a = omega arith
Ascending-upper lo hi hi' (x ∷ hs) h a = (a.0, a.1, Ascending-upper x.end_byte hi hi' hs h a.2)

Ascending-snoc :
    (lo hi : ℕ) (hs : List Hole) (x : Hole)
    → hi ≤ x.start_byte
    → x.start_byte < x.end_byte
    → Ascending lo hi hs
    → Ascending lo x.end_byte (hs ++ x ∷ [])
Ascending-snoc lo hi [] x h k a = (omega arith, k, omega arith)
Ascending-snoc lo hi (y ∷ hs) x h k a = (a.0, a.1, Ascending-snoc y.end_byte hi hs x h k a.2)

missing-snoc :
    (p : ℕ) (hs : List Hole) (x : Hole)
    → missing p (hs ++ x ∷ []) ≡ (missing p hs || within x.start_byte x.end_byte p)
missing-snoc p [] x = ground arith
missing-snoc p (y ∷ hs) x = ground (arith, missing-snoc p hs x)

missing_above : (p lo hi : ℕ) (hs : List Hole) → Ascending lo hi hs → hi ≤ p → missing p hs ≡ false
missing_above p lo hi [] a h = refl
missing_above p lo hi (x ∷ hs) a h =
    ground (arith, Ascending-le x.end_byte hi hs a.2, missing_above p x.end_byte hi hs a.2 h)
  where
    Ascending-le : (lo hi : ℕ) (hs : List Hole) → Ascending lo hi hs → lo ≤ hi
    Ascending-le lo hi [] a = a
    Ascending-le lo hi (y ∷ hs) a = omega (arith, Ascending-le y.end_byte hi hs a.2)

-- A hole at or above which all holes end has no part in a range that starts there.
module _ (s e p next : ℕ) (hs : List Hole) (a : Ascending 0 next hs) (l : next ≤ s) where
  kept : missing p hs ≡ ((missing p hs && not (within s e p)) || false)
  kept = ground (arith, missing_above p 0 next hs a)

  added :
      (now : ℕ)
      → missing p (hs ++ record { start_byte = next; end_byte = s; ts = now; count = 0 } ∷ [])
        ≡ ((missing p hs && not (within s e p)) || within next s p)
  added now =
      missing-snoc p hs (record { start_byte = next; end_byte = s; ts = now; count = 0 })
      ∙ ground (arith, missing_above p 0 next hs a)

module _ {F W : Type 0} where
  -- All holes lie below the next byte that is expected.
  abbrev pub HolesBelow : TransCb F W → Type 0
  HolesBelow cb = Ascending 0 cb.data_next_range_start cb.data_holes

  -- A received range that is not empty leaves ascending holes ascending and below the next expected
  -- byte. Afterwards a position is a hole if it was one and the range does not hold it, or if the
  -- call reports a new hole and it lies between the byte that was expected and the start of the
  -- range.
  pub detect_data_hole_lem :
      (now range_start range_end : ℕ) (cb : TransCb F W)
      → range_start < range_end
      → range_end < 2 ^ 32
      → HolesBelow cb
      → let r = detect_data_hole now range_start range_end cb in
        HolesBelow r.0
        × ((p : ℕ)
            → missing p r.0.data_holes ≡ (
                (missing p cb.data_holes && not (within range_start range_end p))
                || (r.1 && within cb.data_next_range_start range_start p)))
  unfolding detect_data_hole
  detect_data_hole_lem now s e cb h w a =
      if_cases done (s == next)
        (λ t.
          (Ascending-upper 0 next e hs (ground arith) a, λ p. kept s e p next hs a (ground arith)))
        λ f.
          if_cases done (ltb s next)
            (λ t. (
              delete_holes-Ascending s e 0 next hs h a,
              λ p. delete_holes-missing s e 0 next p hs h a ∙ ground arith,
            ))
            λ l.
              if_cases done (next == 0 || ltb (100 * mss) (sub32 s next))
                (λ t. (
                  Ascending-upper 0 next e hs (ground arith) a,
                  λ p. kept s e p next hs a (ground arith),
                ))
                (λ u.
                  if_cases (λ c. done (record c { data_next_range_start = e }, true))
                    (is_midnode cb.node_role) (λ t. opened (ground arith))
                    (λ t. opened (ground arith)))
    where
      next : ℕ
      next = cb.data_next_range_start

      hs : List Hole
      hs = cb.data_holes

      gap : Hole
      gap = record { start_byte = next; end_byte = s; ts = now; count = 0 }

      done : TransCb F W × Bool → Type 0
      done r =
          HolesBelow r.0
          × ((p : ℕ)
              → missing p r.0.data_holes
                ≡ ((missing p hs && not (within s e p)) || (r.1 && within next s p)))

      opened :
          next < s
          → Ascending 0 e (hs ++ gap ∷ [])
            × ((p : ℕ)
                → missing p (hs ++ gap ∷ [])
                  ≡ ((missing p hs && not (within s e p)) || within next s p))
      opened k = (
        Ascending-upper 0 s e (hs ++ gap ∷ []) (omega arith)
            (Ascending-snoc 0 next hs gap (omega arith) k a),
        λ p. added s e p next hs a (omega arith) now,
      )
