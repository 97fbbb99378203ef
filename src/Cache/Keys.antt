-- ===== src/Cache/Keys.antt =====
-- cache.cpp, `nameSeqToKey`: the keys of the blocks.
use leotp.Base.{
  ℕ, zero, suc, ◌-◌, ◌^◌, ◌<◌, ◌≡◌, refl, sym, ap, ◌∙◌, List, [], ◌∷◌, ◌++◌, arith, length,
}
use leotp.Codec.{encode32u}
use leotp.Codec.RoundTrip.{decode32u-encode32u}
use leotp.Cache.{Cache, take_bytes, name_seq_to_key}

pub take_bytes_all : (n : ℕ) (xs : List ℕ) → length xs ≡ n → take_bytes n xs ≡ xs
take_bytes_all zero [] h = refl
take_bytes_all zero (x ∷ xs) h = absurd (omega arith)
take_bytes_all (suc n) [] h = absurd (omega arith)
take_bytes_all (suc n) (x ∷ xs) h = ap (◌∷◌ x) (take_bytes_all n xs (omega arith))

append-injective :
    (xs ys us vs : List ℕ) → length xs ≡ length ys → xs ++ us ≡ ys ++ vs → (xs ≡ ys) × (us ≡ vs)
append-injective [] [] us vs n h = (refl, h)
append-injective [] (y ∷ ys) us vs n h = absurd (omega arith)
append-injective (x ∷ xs) [] us vs n h = absurd (omega arith)
append-injective (x ∷ xs) (y ∷ ys) us vs n h =
    let rest = append-injective xs ys us vs (omega arith) (ground arith) in
    (ground (arith, rest.0), rest.1)

encode32u-injective : (a b : ℕ) → a < 2 ^ 32 → b < 2 ^ 32 → encode32u a ≡ encode32u b → a ≡ b
encode32u-injective a b h k e =
    ground (arith, decode32u-encode32u a [] h, decode32u-encode32u b [] k)

-- Two names of the cache's length with block starts below 2 ^ 32 share a key only if both the names
-- and the starts agree.
pub name_seq_to_key-injective :
    (c : Cache) (name name' : List ℕ) (index index' : ℕ)
    → length name ≡ c.key_len - 4
    → length name' ≡ c.key_len - 4
    → index < 2 ^ 32
    → index' < 2 ^ 32
    → name_seq_to_key c name index ≡ name_seq_to_key c name' index'
    → (name ≡ name') × (index ≡ index')
unfolding name_seq_to_key
name_seq_to_key-injective c name name' index index' n n' h h' e =
    let e' : name ++ encode32u index ≡ name' ++ encode32u index' =
      rw (take_bytes_all (c.key_len - 4) name n, take_bytes_all (c.key_len - 4) name' n') at e in
    let parts = append-injective name name' _ _ (n ∙ sym n') e' in
    (parts.0, encode32u-injective index index' h h' parts.1)
