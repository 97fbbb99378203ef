-- ===== src/Trans/IntBuf/Refresh.antt =====
-- leotp.cpp, `updateIntBuf`: the positions and the times of the interests.
use leotp.Base.{
  ℕ, ◌≤◌, ◌<◌, ◌≡◌, refl, ap, Bool, false, ◌||◌, List, [], ◌∷◌, arith, leb, All, if_cases,
}
use leotp.Seg.{LeotpSeg}
use leotp.Trans.{TransCb}
use leotp.Trans.IntBuf.{refresh, update_int_buf}
use leotp.Trans.Holes.Cover.{within}

-- Position `p` is in an interest of the buffer.
abbrev pub awaited : ℕ → List LeotpSeg → Bool
awaited p [] = false
awaited p (i ∷ is) = within i.range_start i.range_end p || awaited p is

-- The interests are not empty and in ascending order from `lo`.
abbrev pub Ordered : ℕ → List LeotpSeg → Type 0
Ordered lo [] = lo ≤ lo
Ordered lo (i ∷ is) = (lo ≤ i.range_start) × (i.range_start < i.range_end) × Ordered i.range_end is

-- An interest that has a position in [s, e) counts as sent at `now`.
abbrev pub Fresh : ℕ → ℕ → ℕ → LeotpSeg → Type 0
Fresh now s e i = i.range_start < e → s < i.range_end → i.ts ≡ now

-- The parts in which an interest is left cover its positions.
module _ (s e p a b : ℕ) (x y : Bool) (h : s < e) (ih : x ≡ y) where
  parts_two : (c : ℕ) → a ≤ c → c ≤ b → (within a c p || (within c b p || x)) ≡ (within a b p || y)
  parts_two c l m = ground arith

  parts_three :
      a < s → e < b → (within a s p || (within s e p || (within e b p || x))) ≡ (within a b p || y)
  parts_three l m = ground arith

refresh-awaited :
    (now s e p : ℕ) (is : List LeotpSeg) → s < e → awaited p (refresh now s e is) ≡ awaited p is
unfolding refresh
refresh-awaited now s e p [] h = refl
refresh-awaited now s e p (i ∷ is) h = branch (refresh-awaited now s e p is h)
  where
    done : List LeotpSeg → Type 0
    done l = awaited p l ≡ awaited p (i ∷ is)

    branch : awaited p (refresh now s e is) ≡ awaited p is → done (refresh now s e (i ∷ is))
    branch ih =
        if_cases done (leb e i.range_start) (λ l. refl)
          λ l.
            if_cases done (leb i.range_end s)
              (λ m. ap (λ c. within i.range_start i.range_end p || c) ih)
              λ m.
                if_cases done (leb i.range_end e)
                  (λ n.
                    if_cases done (leb s i.range_start)
                      (λ o. ap (λ c. within i.range_start i.range_end p || c) ih)
                      (λ o.
                        parts_two s e p i.range_start i.range_end _ _ h ih s (ground arith)
                          (ground arith)))
                  (λ n.
                    if_cases done (leb s i.range_start)
                      (λ o.
                        parts_two s e p i.range_start i.range_end _ _ h ih e (ground arith)
                          (ground arith))
                      (λ o.
                        parts_three s e p i.range_start i.range_end _ _ h ih (ground arith)
                          (ground arith)))

behind_Fresh :
    (now s e lo : ℕ) (is : List LeotpSeg) → e ≤ lo → Ordered lo is → All (Fresh now s e) is
behind_Fresh now s e lo [] h o = tt
behind_Fresh now s e lo (i ∷ is) h o =
    (λ l m. absurd (omega arith), behind_Fresh now s e i.range_end is (omega arith) o.2)

refresh-Fresh :
    (now s e lo : ℕ) (is : List LeotpSeg)
    → s < e
    → Ordered lo is
    → All (Fresh now s e) (refresh now s e is)
unfolding refresh
refresh-Fresh now s e lo [] h o = tt
refresh-Fresh now s e lo (i ∷ is) h o = branch (refresh-Fresh now s e i.range_end is h o.2)
  where
    done : List LeotpSeg → Type 0
    done = All (Fresh now s e)

    branch : done (refresh now s e is) → done (refresh now s e (i ∷ is))
    branch ih =
        if_cases done (leb e i.range_start)
          (λ l. (
            (λ m n. absurd (ground arith)),
            behind_Fresh now s e i.range_end is (ground arith) o.2,
          ))
          λ l.
            if_cases done (leb i.range_end s) (λ m. ((λ n q. absurd (ground arith)), ih))
              λ m.
                if_cases done (leb i.range_end e)
                  (λ n.
                    if_cases done (leb s i.range_start) (λ q. ((λ u v. refl), ih))
                      (λ q. ((λ u v. absurd (ground arith)), ((λ u v. refl), ih))))
                  (λ n.
                    if_cases done (leb s i.range_start)
                      (λ q. ((λ u v. refl), ((λ u v. absurd (ground arith)), ih)))
                      (λ q. (
                        (λ u v. absurd (ground arith)),
                        ((λ u v. refl), ((λ u v. absurd (ground arith)), ih)),
                      )))

module _ {F W : Type 0} where
  -- Refreshing a range of an interest buffer in ascending order changes no position that is
  -- awaited, and every interest of the result that has a position in the range counts as sent now.
  pub update_int_buf_lem :
      (now range_start range_end : ℕ) (cb : TransCb F W)
      → range_start < range_end
      → Ordered 0 cb.int_buf
      → ((p : ℕ)
          → awaited p (update_int_buf now range_start range_end cb).int_buf ≡ awaited p cb.int_buf)
        × All
            (Fresh now range_start range_end)
            (update_int_buf now range_start range_end cb).int_buf
  unfolding update_int_buf
  update_int_buf_lem now s e cb h o =
      (λ p. refresh-awaited now s e p cb.int_buf h, refresh-Fresh now s e 0 cb.int_buf h o)
