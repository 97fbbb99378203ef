-- ===== src/ByteMap/Laws.antt =====
-- Laws of the map of include/ByteMap.h, in the form that reads off any key.
use leotp.Base.{
  ◌≡◌, refl, ◌≢◌, ◌↔◌, ◌⊎◌, inl, inr, true, Option, none, some, [], ◌∷◌, arith, if◌then◌else◌,
  Bool-cases, Option-cases,
}
use leotp.ByteMap.{ByteArray, ByteMap, eq_bytes, read_value, set_value, erase, store}

eq_bytes→eq : (a b : ByteArray) → eq_bytes a b ≡ true → a ≡ b
unfolding eq_bytes
eq_bytes→eq [] [] h = refl
eq_bytes→eq [] (y ∷ b) h = ground arith
eq_bytes→eq (x ∷ a) [] h = ground arith
eq_bytes→eq (x ∷ a) (y ∷ b) h = ground (arith, eq_bytes→eq a b)

eq_bytes_refl : (a : ByteArray) → eq_bytes a a ≡ true
unfolding eq_bytes
eq_bytes_refl [] = refl
eq_bytes_refl (x ∷ a) = ground (arith, eq_bytes_refl a)

-- The comparison of keys decides their equality.
pub eq_bytes_iff : (a b : ByteArray) → (eq_bytes a b ≡ true) ↔ (a ≡ b)
eq_bytes_iff a b = (eq_bytes→eq a b, λ e. rw e (eq_bytes_refl b))

module _ {ℓ} {T : Type ℓ} where
  -- An insertion sets a fresh key only.
  pub read_value-set_value :
      (key k : ByteArray) (v : T) (m : ByteMap T)
      → read_value key m ≡ none
      → read_value k (set_value key v m) ≡ (if eq_bytes key k then some v else read_value k m)
  unfolding set_value read_value
  read_value-set_value key k v m h = ground arith

  pub read_value-store :
      (key k : ByteArray) (v w : T) (m : ByteMap T)
      → read_value key m ≡ some w
      → read_value k (store key v m) ≡ (if eq_bytes key k then some v else read_value k m)
  unfolding store read_value
  read_value-store key k v w [] h = ground arith
  read_value-store key k v w ((j, x) ∷ m) h = ground (
    arith,
    eq_bytes_iff j key,
    eq_bytes_iff key k,
    eq_bytes_iff j k,
    eq_bytes_iff key key,
    read_value-store key k v w m,
  )

  -- Each key is on one entry.
  abbrev pub Distinct : ByteMap T → Type ℓ
  Distinct [] = Unit
  Distinct ((k, v) ∷ m) = (read_value k m ≡ none) × Distinct m

  pub read_value-erase :
      (key k : ByteArray) (m : ByteMap T)
      → Distinct m
      → read_value k (erase key m) ≡ (if eq_bytes key k then none else read_value k m)
  unfolding erase read_value
  read_value-erase key k [] d = ground arith
  read_value-erase key k ((j, x) ∷ m) d = ground (
    arith,
    d.0,
    eq_bytes_iff j key,
    eq_bytes_iff key k,
    eq_bytes_iff j k,
    eq_bytes_iff key key,
    read_value-erase key k m d.1,
  )

  pub set_value-Distinct :
      (key : ByteArray) (v : T) (m : ByteMap T) → Distinct m → Distinct (set_value key v m)
  unfolding set_value
  set_value-Distinct key v m d = ground arith

  pub read_value-store-none :
      (key k : ByteArray) (v : T) (m : ByteMap T)
      → read_value k m ≡ none
      → read_value k (store key v m) ≡ none
  unfolding store read_value
  read_value-store-none key k v [] h = refl
  read_value-store-none key k v ((j, x) ∷ m) h = ground (arith, read_value-store-none key k v m)

  pub store-Distinct :
      (key : ByteArray) (v : T) (m : ByteMap T) → Distinct m → Distinct (store key v m)
  unfolding store read_value
  store-Distinct key v [] d = tt
  store-Distinct key v ((j, x) ∷ m) d =
      ground (arith, d.0, d.1, read_value-store-none key j v m, store-Distinct key v m d.1)

  pub erase-Distinct : (key : ByteArray) (m : ByteMap T) → Distinct m → Distinct (erase key m)
  unfolding erase read_value
  erase-Distinct key [] d = tt
  erase-Distinct key ((j, x) ∷ m) d = ground (
    arith,
    d.1,
    eq_bytes_iff j key,
    eq_bytes_iff key j,
    read_value-erase key j m d.1,
    erase-Distinct key m d.1,
  )

  false_some : {o : Option T} {x : T} → o ≡ none → o ≡ some x → ⊥
  false_some h k = ground arith

  pub store_absent :
      (key : ByteArray) (v : T) (m : ByteMap T) → read_value key m ≡ none → store key v m ≡ m
  unfolding store read_value
  store_absent key v [] h = refl
  store_absent key v ((j, x) ∷ m) h = ground (arith, store_absent key v m)

  -- What a lookup finds after a write through the pointer of `key`.
  pub read_value-store_inv :
      (key k : ByteArray) (v w : T) (m : ByteMap T)
      → read_value k (store key v m) ≡ some w
      → ((key ≡ k) × (w ≡ v)) ⊎ ((key ≢ k) × (read_value k m ≡ some w))
  read_value-store_inv key k v w m h = elim (Option-cases (read_value key m)) [
    | inl absent ↦
        let h' : read_value k m ≡ some w = rw (store_absent key v m absent) at h in
        inr (λ e. false_some (rw e at absent) h', h')
    | inr (x, present) ↦ elim (Bool-cases (eq_bytes key k)) [
      | inl same ↦
          inl ((eq_bytes_iff key k).0 same, ground (arith, read_value-store key k v x m present))
      | inr other ↦ inr (
        λ e. ground (arith, (eq_bytes_iff key k).1 e),
        ground (arith, read_value-store key k v x m present),
      )
    ]
  ]
