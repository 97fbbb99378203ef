-- ===== src/Cache/Ranges/Covers.antt =====
-- cache.cpp, the range table of a block: which byte positions it holds after `Cache::insert`.
use leotp.Base.{
  ℕ, zero, suc, ◌+◌, ◌≤◌, ◌<◌, ◌≡◌, refl, sym, ap, ◌∙◌, inl, inr, Bool, true, false, ◌&&◌, ◌||◌,
  Option, some, List, [], ◌∷◌, arith, ltb, leb, ◌==◌, if◌then◌else◌, length, All, Bool-cases,
  Option-cases, if_cases,
}
use leotp.Cache.Ranges.{
  Range, replicate, no_ranges, set_first, Scan, no_union, joined, is_subset, after_slot, scan,
  Merged, merge, place, Put, put_merged, put_range,
}

abbrev pub within : ℕ → ℕ → ℕ → Bool
within a b p = leb a p && ltb p b

-- Position `p` lies in some range of the table.
abbrev pub covers : ℕ → List Range → Bool
covers p [] = false
covers p ((a, b) ∷ rs) = within a b p || covers p rs

-- Every range ends after its start, or where it starts.
abbrev pub Ordered : List Range → Type 0
Ordered = All (λ (r : Range). r.0 ≤ r.1)

-- What one pass of the loop of `insert` leaves: the same positions, in an ordered table.
abbrev ScanKeeps : ℕ → ℕ → ℕ → List Range → Scan → Type 0
ScanKeeps p s e rs no_union = Unit
ScanKeeps p s e rs (joined s' e' rs') =
    ((within s' e' p || covers p rs') ≡ (within s e p || covers p rs))
    × (s' ≤ s)
    × (e ≤ e')
    × Ordered rs'
ScanKeeps p s e rs is_subset = (within s e p || covers p rs) ≡ covers p rs

after_slot-Keeps :
    (p s e a b : ℕ) (rs : List Range) (r : Scan)
    → a ≤ b
    → ScanKeeps p s e rs r
    → ScanKeeps p s e ((a, b) ∷ rs) (after_slot (a, b) r)
unfolding after_slot
after_slot-Keeps p s e a b rs no_union h k = tt
after_slot-Keeps p s e a b rs (joined s' e' rs') h k = (ground arith, k.1, k.2, (h, k.3))
after_slot-Keeps p s e a b rs is_subset h k = ground arith

-- The joined range holds exactly the positions of the two.
union_covers :
    (p s e a b : ℕ) (c : Bool)
    → a ≤ b
    → s ≤ e
    → ((ltb s a && leb a e) || (ltb b e && leb s b)) ≡ true
    → (within (if ltb s a then s else a) (if ltb b e then e else b) p || (within 0 0 p || c))
      ≡ (within s e p || (within a b p || c))
union_covers p s e a b c h k m = ground arith

scan-Keeps : (p s e : ℕ) (rs : List Range) → s ≤ e → Ordered rs → ScanKeeps p s e rs (scan s e rs)
unfolding scan
scan-Keeps p s e [] h o = tt
scan-Keeps p s e ((a, b) ∷ rs) h o =
    let rest = after_slot-Keeps p s e a b rs (scan s e rs) o.0 (scan-Keeps p s e rs h o.1) in
    let keeps : Scan → Type 0 = ScanKeeps p s e ((a, b) ∷ rs) in
    if_cases keeps (a == 0 && b == 0) (λ _. rest)
      λ filled.
        if_cases keeps ((ltb s a && leb a e) || (ltb b e && leb s b))
          (λ meets. (
            union_covers p s e a b (covers p rs) o.0 h meets,
            ground arith,
            ground arith,
            (omega arith, o.1),
          ))
          λ apart. if_cases keeps (leb a s && leb e b) (λ inside. ground arith) (λ outside. rest)

-- The slots in use. A pass that joins a slot frees it, so the passes are bounded.
abbrev pub filled : List Range → ℕ
filled [] = 0
filled ((a, b) ∷ rs) = (if a == 0 && b == 0 then 0 else 1) + filled rs

pub filled-le-length : (rs : List Range) → filled rs ≤ length rs
filled-le-length [] = omega arith
filled-le-length ((a, b) ∷ rs) = ground (arith, filled-le-length rs)

abbrev Frees : List Range → Scan → Type 0
Frees rs no_union = Unit
Frees rs (joined s' e' rs') = filled rs' + 1 ≡ filled rs
Frees rs is_subset = Unit

after_slot-Frees :
    (a b : ℕ) (rs : List Range) (r : Scan) → Frees rs r → Frees ((a, b) ∷ rs) (after_slot (a, b) r)
unfolding after_slot
after_slot-Frees a b rs no_union h = tt
after_slot-Frees a b rs (joined s' e' rs') h = ground arith
after_slot-Frees a b rs is_subset h = tt

scan-Frees : (s e : ℕ) (rs : List Range) → Frees rs (scan s e rs)
unfolding scan
scan-Frees s e [] = tt
scan-Frees s e ((a, b) ∷ rs) =
    let rest = after_slot-Frees a b rs (scan s e rs) (scan-Frees s e rs) in
    let frees : Scan → Type 0 = Frees ((a, b) ∷ rs) in
    if_cases frees (a == 0 && b == 0) (λ _. rest)
      λ used.
        if_cases frees ((ltb s a && leb a e) || (ltb b e && leb s b))
          (λ meets. rw used (omega arith))
          λ apart. if_cases frees (leb a s && leb e b) (λ inside. tt) (λ outside. rest)

-- What `while (1)` ends with.
pub record MergeKeeps (p s e : ℕ) (rs : List Range) (m : Merged) : Type 0 where
  pub same : (within m.start m.end p || covers p m.ranges) ≡ (within s e p || covers p rs)
  pub subset_covers :
      m.subset ≡ true → (within m.start m.end p || covers p m.ranges) ≡ covers p m.ranges
  pub grows : (m.start ≤ s) × (e ≤ m.end)
  pub ordered : Ordered m.ranges
  pub last : scan m.start m.end m.ranges ≡ (if m.subset then is_subset else no_union)

-- With more fuel than slots in use the loop ends, and it loses and invents no position.
pub merge-Keeps :
    (fuel p s e : ℕ) (rs : List Range)
    → s ≤ e
    → Ordered rs
    → filled rs < fuel
    → (m : Merged) × (merge fuel s e rs ≡ some m) × MergeKeeps p s e rs m
unfolding merge
merge-Keeps zero p s e rs h o f = elim f [ ]
merge-Keeps (suc fuel) p s e rs h o f =
    go (scan s e rs) (scan-Keeps p s e rs h o) (scan-Frees s e rs) refl
      (λ s' e' rs' h' o' f'. merge-Keeps fuel p s' e' rs' h' o' f')
  where
    go :
        (r : Scan)
        → ScanKeeps p s e rs r
        → Frees rs r
        → scan s e rs ≡ r
        → ((s' e' : ℕ) (rs' : List Range)
            → s' ≤ e'
            → Ordered rs'
            → filled rs' < fuel
            → (m : Merged) × (merge fuel s' e' rs' ≡ some m) × MergeKeeps p s' e' rs' m)
        → (m : Merged) × (merge (suc fuel) s e rs ≡ some m) × MergeKeeps p s e rs m
    go no_union k g eq ih = (
      record { start = s; end = e; ranges = rs; subset = false },
      rw (eq, merge),
      record {
        same = refl;
        subset_covers = λ x. ground arith;
        grows = omega arith;
        ordered = o;
        last = eq;
      },
    )
    go is_subset k g eq ih = (
      record { start = s; end = e; ranges = rs; subset = true },
      rw (eq, merge),
      record { same = refl; subset_covers = λ _. k; grows = omega arith; ordered = o; last = eq },
    )
    go (joined s' e' rs') k g eq ih =
        let (m, ends, keeps) = ih s' e' rs' (omega arith) k.3 (omega arith) in
        (
          m,
          rw (eq, merge) ends,
          record {
            same = keeps.same ∙ k.0;
            subset_covers = keeps.subset_covers;
            grows = omega arith;
            ordered = keeps.ordered;
            last = keeps.last;
          },
        )

pub same_some {ℓ} : {A : Type ℓ} {x y : A} {o : Option A} → o ≡ some x → o ≡ some y → x ≡ y
same_some h k = cc

place-covers :
    (p : ℕ) (r : Range) (rs rs' : List Range)
    → place r rs ≡ some rs'
    → covers p rs' ≡ (within r.0 r.1 p || covers p rs)
unfolding place
place-covers p r [] rs' h = cc
place-covers p r ((a, b) ∷ rs) rs' h = elim (Option-cases (place r rs)) [
  | inl full ↦ ground (arith, full)
  | inr (rest, found) ↦ ground (arith, found, place-covers p r rs rest found)
]

put_merged-covers :
    (p s e last_pos : ℕ) (rs : List Range) (m : Merged)
    → MergeKeeps p s e rs m
    → (put_merged last_pos m).overflow ≡ false
    → covers p (put_merged last_pos m).ranges ≡ (within s e p || covers p rs)
unfolding put_merged
put_merged-covers p s e last_pos rs m k fits = elim (Bool-cases m.subset) [
  | inl old ↦ rw (old, put_merged) (sym (k.subset_covers old) ∙ k.same)
  | inr new ↦ elim (Option-cases (place (m.start, m.end) m.ranges)) [
    | inl full ↦ ground (arith, new, full)
    | inr (rest, found) ↦
        rw (new, found, put_merged) (place-covers p (m.start, m.end) m.ranges rest found ∙ k.same)
  ]
]

place-Ordered :
    (r : Range) (rs rs' : List Range) → r.0 ≤ r.1 → Ordered rs → place r rs ≡ some rs' → Ordered rs'
unfolding place
place-Ordered r [] rs' h o eq = absurd (cc)
place-Ordered r ((a, b) ∷ rs) rs' h o eq = elim (Option-cases (place r rs)) [
  | inl full ↦ ground (arith, full)
  | inr (rest, found) ↦ ground (arith, found, place-Ordered r rs rest h o.1 found)
]

put_merged-Ordered :
    (p s e last_pos : ℕ) (rs : List Range) (m : Merged)
    → s ≤ e
    → MergeKeeps p s e rs m
    → (put_merged last_pos m).overflow ≡ false
    → Ordered (put_merged last_pos m).ranges
unfolding put_merged
put_merged-Ordered p s e last_pos rs m h k fits = elim (Bool-cases m.subset) [
  | inl old ↦ rw (old, put_merged) k.ordered
  | inr new ↦ elim (Option-cases (place (m.start, m.end) m.ranges)) [
    | inl full ↦ ground (arith, new, full)
    | inr (rest, found) ↦
        rw (new, found, put_merged)
          (place-Ordered (m.start, m.end) m.ranges rest (omega (arith, k.grows)) k.ordered found)
  ]
]

pub put_range_eq :
    (s e last_pos : ℕ) (rs : List Range) (m : Merged)
    → merge (suc (length rs)) s e rs ≡ some m
    → put_range s e rs last_pos ≡ some (put_merged last_pos m)
unfolding put_range
put_range_eq s e last_pos rs m h = rw (h, put_range)

-- Inserting a range into a block's table of ordered pairs always ends. Unless it reports an
-- overflow, the table then holds exactly the positions that it held and those of the range.
pub put_range-covers :
    (s e last_pos : ℕ) (rs : List Range)
    → s ≤ e
    → Ordered rs
    → (q : Put) × (put_range s e rs last_pos ≡ some q)
      × (q.overflow ≡ false
          → Ordered q.ranges × ((p : ℕ) → covers p q.ranges ≡ (within s e p || covers p rs)))
put_range-covers s e last_pos rs h o =
    let enough : filled rs < suc (length rs) = omega (arith, filled-le-length rs) in
    let (m, ends, kept) = merge-Keeps (suc (length rs)) 0 s e rs h o enough in
    (
      put_merged last_pos m,
      put_range_eq s e last_pos rs m ends,
      λ fits. (
        put_merged-Ordered 0 s e last_pos rs m h kept fits,
        λ p.
            let (m', ends', keeps) = merge-Keeps (suc (length rs)) p s e rs h o enough in
            put_merged-covers p s e last_pos rs m (rw (same_some ends' ends) at keeps) fits,
      ),
    )

replicate-covers : (n p : ℕ) → covers p (replicate n (0, 0)) ≡ false
replicate-covers zero p = refl
replicate-covers (suc n) p = ground (arith, replicate-covers n p)

replicate-Ordered : (n : ℕ) → Ordered (replicate n (0, 0))
replicate-Ordered zero = tt
replicate-Ordered (suc n) = (omega arith, replicate-Ordered n)

-- The table of a new block, with its first slot set.
pub set_first-covers :
    (s e p : ℕ) → covers p (set_first (s, e) no_ranges) ≡ (within s e p || covers p no_ranges)
unfolding set_first no_ranges
set_first-covers s e p =
    ap (λ c. within s e p || c) (replicate-covers 99 p ∙ sym (replicate-covers 100 p))

pub set_first-Ordered : (s e : ℕ) → s ≤ e → Ordered (set_first (s, e) no_ranges)
unfolding set_first no_ranges
set_first-Ordered s e h = (h, replicate-Ordered 99)

pub no_ranges-covers : (p : ℕ) → covers p no_ranges ≡ false
unfolding no_ranges
no_ranges-covers p = replicate-covers 100 p

pub no_ranges-Ordered : Ordered no_ranges
unfolding no_ranges
no_ranges-Ordered = replicate-Ordered 100
