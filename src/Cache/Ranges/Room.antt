-- ===== src/Cache/Ranges/Room.antt =====
-- cache.cpp, the free slots of the range table of a block.
use leotp.Base.{
  ℕ, zero, suc, ◌≤◌, ◌<◌, ◌≡◌, refl, ◌≢◌, inl, inr, false, ◌&&◌, ◌||◌, none, some, List, [], ◌∷◌,
  arith, ltb, leb, ◌==◌, length, Option-cases, if_cases,
}
use leotp.Cache.Ranges.{
  Range, Scan, no_union, joined, is_subset, after_slot, scan, Merged, merge, place, Put, put_merged,
  put_range,
}
use leotp.Cache.Ranges.Covers.{filled}

abbrev pub HasRoom : List Range → Type 0
HasRoom rs = filled rs < length rs

abbrev KeepsRoom : List Range → Scan → Type 0
KeepsRoom rs no_union = Unit
KeepsRoom rs (joined s' e' rs') = (filled rs' ≤ filled rs) × (length rs' ≡ length rs)
KeepsRoom rs is_subset = Unit

after_slot-KeepsRoom :
    (a b : ℕ) (rs : List Range) (r : Scan)
    → KeepsRoom rs r
    → KeepsRoom ((a, b) ∷ rs) (after_slot (a, b) r)
unfolding after_slot
after_slot-KeepsRoom a b rs no_union h = tt
after_slot-KeepsRoom a b rs (joined s' e' rs') h = omega arith
after_slot-KeepsRoom a b rs is_subset h = tt

scan-KeepsRoom : (s e : ℕ) (rs : List Range) → KeepsRoom rs (scan s e rs)
unfolding scan
scan-KeepsRoom s e [] = tt
scan-KeepsRoom s e ((a, b) ∷ rs) =
    let rest = after_slot-KeepsRoom a b rs (scan s e rs) (scan-KeepsRoom s e rs) in
    let keeps : Scan → Type 0 = KeepsRoom ((a, b) ∷ rs) in
    if_cases keeps (a == 0 && b == 0) (λ _. rest)
      λ used.
        if_cases keeps ((ltb s a && leb a e) || (ltb b e && leb s b)) (λ meets. omega arith)
          λ apart. if_cases keeps (leb a s && leb e b) (λ inside. tt) (λ outside. rest)

merge-room :
    (fuel s e : ℕ) (rs : List Range) (m : Merged)
    → merge fuel s e rs ≡ some m
    → HasRoom rs
    → HasRoom m.ranges
unfolding merge
merge-room zero s e rs m h r = cc
merge-room (suc fuel) s e rs m h r =
    go (scan s e rs) (scan-KeepsRoom s e rs) refl (λ s' e' rs'. merge-room fuel s' e' rs' m)
  where
    go :
        (x : Scan)
        → KeepsRoom rs x
        → scan s e rs ≡ x
        → ((s' e' : ℕ) (rs' : List Range)
            → merge fuel s' e' rs' ≡ some m
            → HasRoom rs'
            → HasRoom m.ranges)
        → HasRoom m.ranges
    go no_union k eq ih = ground (arith, eq, h)
    go (joined s' e' rs') k eq ih = ih s' e' rs' (rw (eq, merge) at h) (omega arith)
    go is_subset k eq ih = ground (arith, eq, h)

place-room : (r : Range) (rs : List Range) → HasRoom rs → place r rs ≢ none
unfolding place
place-room r [] h = absurd (omega arith)
place-room r ((a, b) ∷ rs) h = ground (arith, place-room r rs)

-- A table with a free slot takes any range.
pub put_range-room :
    (s e last_pos : ℕ) (rs : List Range) (q : Put)
    → put_range s e rs last_pos ≡ some q
    → HasRoom rs
    → q.overflow ≡ false
unfolding put_range put_merged
put_range-room s e last_pos rs q h r = elim (Option-cases (merge (suc (length rs)) s e rs)) [
  | inl out ↦ ground (arith, out)
  | inr (m, ends) ↦ ground (
    arith,
    ends,
    place-room (m.start, m.end) m.ranges (merge-room (suc (length rs)) s e rs m ends r),
  )
]
