-- ===== src/Cache/Ranges/Search.antt =====
-- cache.cpp, `Cache::read`'s search of a block's range table, against what `insert` left in it.
use leotp.Base.{
  ℕ, suc, ◌≤◌, ◌<◌, ◌≡◌, refl, ◌⊎◌, inl, inr, true, false, ◌&&◌, ◌||◌, some, List, [], ◌∷◌, arith,
  ltb, leb, ◌==◌, length, Bool-cases, Option-cases, if_cases,
}
use leotp.Cache.Ranges.{
  Range, no_union, is_subset, after_slot, scan, Merged, place, Put, put_merged, put_range, find_end,
  no_end,
}
use leotp.Cache.Ranges.Covers.{
  within, covers, Ordered, MergeKeeps, merge-Keeps, filled, filled-le-length, put_range_eq,
  put_range-covers, same_some,
}

-- What the search for the end of the range that holds `s` gives, bounded by `d`.
abbrev pub Finds : ℕ → ℕ → List Range → ℕ → Type 0
Finds s d rs e =
    ((e ≡ no_end) × (covers s rs ≡ false))
    ⊎ ((s < e) × (e ≤ d) × ((p : ℕ) → s ≤ p → p < e → covers p rs ≡ true))

Finds-skip :
    (s d a b e : ℕ) (rs : List Range)
    → within a b s ≡ false
    → Finds s d rs e
    → Finds s d ((a, b) ∷ rs) e
Finds-skip s d a b e rs h (inl (p, q)) = inl (p, ground arith)
Finds-skip s d a b e rs h (inr (p, q, r)) = inr (p, q, λ x k l. ground (arith, r x k l))

-- The search finds an end exactly where the first position is held, and what lies before that
-- end is held too.
pub find_end-Finds : (s d : ℕ) (rs : List Range) → s < d → Finds s d rs (find_end s d rs)
unfolding find_end
find_end-Finds s d [] h = inl (refl, refl)
find_end-Finds s d ((a, b) ∷ rs) h =
    let finds : ℕ → Type 0 = Finds s d ((a, b) ∷ rs) in
    let skip = λ (out : within a b s ≡ false).
      Finds-skip s d a b (find_end s d rs) rs out (find_end-Finds s d rs h) in
    if_cases finds (a == 0 && b == 0) (λ free. skip (ground arith))
      λ used.
        if_cases finds (leb a s && ltb s b)
          (λ hit. inr (ground arith, ground arith, λ p k l. ground arith)) λ miss. skip miss

find_end-subset :
    (s' e' s e : ℕ) (rs : List Range)
    → s' ≤ s
    → s < e
    → e ≤ e'
    → scan s' e' rs ≡ is_subset
    → find_end s e rs ≡ e
unfolding find_end scan after_slot
find_end-subset s' e' s e [] p q r h = ground arith
find_end-subset s' e' s e ((a, b) ∷ rs) p q r h = ground (arith, find_end-subset s' e' s e rs)

find_end-place :
    (s' e' s e : ℕ) (rs rs' : List Range)
    → s' ≤ s
    → s < e
    → e ≤ e'
    → scan s' e' rs ≡ no_union
    → place (s', e') rs ≡ some rs'
    → find_end s e rs' ≡ e
unfolding find_end scan after_slot place
find_end-place s' e' s e [] rs' p q r h k = ground arith
find_end-place s' e' s e ((a, b) ∷ rs) rs' p q r h k = elim (Option-cases (place (s', e') rs)) [
  | inl full ↦ ground (arith, full)
  | inr (rest, found) ↦ ground (arith, found, find_end-place s' e' s e rs rest)
]

find_end-put_merged :
    (s e last_pos : ℕ) (rs : List Range) (m : Merged)
    → s < e
    → MergeKeeps 0 s e rs m
    → (put_merged last_pos m).overflow ≡ false
    → find_end s e (put_merged last_pos m).ranges ≡ e
unfolding put_merged
find_end-put_merged s e last_pos rs m h k fits = elim (Bool-cases m.subset) [
  | inl old ↦
      rw (old, put_merged)
        (find_end-subset m.start m.end s e m.ranges k.grows.0 h k.grows.1 (rw old at k.last))
  | inr new ↦ elim (Option-cases (place (m.start, m.end) m.ranges)) [
    | inl full ↦ ground (arith, new, full)
    | inr (rest, found) ↦
        rw (new, found, put_merged)
          (find_end-place m.start m.end s e m.ranges rest k.grows.0 h k.grows.1 (rw new at k.last)
            found)
  ]
]

-- Inserting a non-empty range into a block's ordered table ends. Without an overflow one range then
-- holds all of what was inserted, so the search finds the whole of it in one step.
pub find_end-put_range :
    (s e last_pos : ℕ) (rs : List Range)
    → s < e
    → Ordered rs
    → (q : Put) × (put_range s e rs last_pos ≡ some q)
      × (q.overflow ≡ false
          → (find_end s e q.ranges ≡ e)
            × Ordered q.ranges
            × ((p : ℕ) → covers p q.ranges ≡ (within s e p || covers p rs)))
find_end-put_range s e last_pos rs h o =
    let le : s ≤ e = omega arith in
    let enough : filled rs < suc (length rs) = omega (arith, filled-le-length rs) in
    let (m, ends, keeps) = merge-Keeps (suc (length rs)) 0 s e rs le o enough in
    let (q, puts, same) = put_range-covers s e last_pos rs le o in
    let eq : put_merged last_pos m ≡ q = same_some (put_range_eq s e last_pos rs m ends) puts in
    (
      q,
      puts,
      λ fits. (
        rw (← eq) (find_end-put_merged s e last_pos rs m h keeps (rw eq fits)),
        (same fits).0,
        (same fits).1,
      ),
    )
