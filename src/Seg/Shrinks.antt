-- ===== src/Seg/Shrinks.antt =====
-- leotp.cpp, the decoding in `input`: how many bytes a segment leaves.
use leotp.Base.{
  ℕ, zero, suc, ◌^◌, ◌≤◌, ◌&&◌, ◌||◌, not, Option, none, some, List, [], ◌∷◌, arith, ltb, leb, ◌==◌,
  length, if_cases, drop,
}
use leotp.Codec.{decode8u, decode16, decode32u}
use leotp.Seg.{
  LeotpSeg, decode_header, Next, finished, bad_length, bad_command, segment, check_header,
  next_segment, overhead, cmd_int, cmd_push, ◌>>=◌,
}

-- What a reader leaves has at most `n` bytes.
abbrev pub Leaves {ℓ} : {A : Type ℓ} → ℕ → Option (A × List ℕ) → Type 0
Leaves n none = Unit
Leaves n (some r) = length r.1 ≤ n

bind-Leaves {ℓ κ} :
    {A : Type ℓ} {B : Type κ} (n : ℕ) (o : Option (A × List ℕ))
    (f : A × List ℕ → Option (B × List ℕ))
    → Leaves n o
    → ((r : A × List ℕ) → length r.1 ≤ n → Leaves n (f r))
    → Leaves n (o >>= f)
bind-Leaves n none f h k = tt
bind-Leaves n (some r) f h k = k r h

decode8u-Leaves : (n : ℕ) (p : List ℕ) → length p ≤ suc n → Leaves n (decode8u p)
unfolding decode8u
decode8u-Leaves n [] h = tt
decode8u-Leaves n (b ∷ p) h = omega arith

decode16-Leaves : (n : ℕ) (p : List ℕ) → length p ≤ n → Leaves n (decode16 p)
unfolding decode16
decode16-Leaves n [] h = tt
decode16-Leaves n (b ∷ []) h = tt
decode16-Leaves n (b ∷ (c ∷ p)) h = omega arith

decode32u-Leaves : (n : ℕ) (p : List ℕ) → length p ≤ n → Leaves n (decode32u p)
unfolding decode32u
decode32u-Leaves n [] h = tt
decode32u-Leaves n (b ∷ []) h = tt
decode32u-Leaves n (b ∷ (c ∷ [])) h = tt
decode32u-Leaves n (b ∷ (c ∷ (d ∷ []))) h = tt
decode32u-Leaves n (b ∷ (c ∷ (d ∷ (e ∷ p)))) h = omega arith

decode_header-Leaves : (n : ℕ) (p : List ℕ) → length p ≤ suc n → Leaves n (decode_header p)
unfolding decode_header
decode_header-Leaves n p h = bind-Leaves n (decode8u p) _ (decode8u-Leaves n p h) λ r1 h1.
    bind-Leaves n (decode16 r1.1) _ (decode16-Leaves n r1.1 h1) λ r2 h2.
      bind-Leaves n (decode32u r2.1) _ (decode32u-Leaves n r2.1 h2) λ r3 h3.
        bind-Leaves n (decode32u r3.1) _ (decode32u-Leaves n r3.1 h3) λ r4 h4.
          bind-Leaves n (decode32u r4.1) _ (decode32u-Leaves n r4.1 h4)
            λ r5 h5. bind-Leaves n (decode32u r5.1) _ (decode32u-Leaves n r5.1 h5) λ r6 h6. h6

length-drop : (n : ℕ) (p : List ℕ) → length (drop n p) ≤ length p
length-drop zero p = omega arith
length-drop (suc n) [] = omega arith
length-drop (suc n) (b ∷ p) = omega (arith, length-drop n p)

-- The rest behind a segment has at most `n` bytes.
abbrev pub Rest : ℕ → Next → Type 0
Rest n finished = Unit
Rest n bad_length = Unit
Rest n bad_command = Unit
Rest n (segment h payload rest) = length rest ≤ n

check_header-Rest : (n : ℕ) (h : LeotpSeg) (p : List ℕ) → length p ≤ n → Rest n (check_header h p)
unfolding check_header
check_header-Rest n h p l =
    if_cases (Rest n) (ltb (length p) h.len || leb (2 ^ 31) h.len) (λ t. tt)
      λ t.
        if_cases (Rest n) (not (h.cmd == cmd_push) && not (h.cmd == cmd_int)) (λ u. tt)
          (λ u. omega (arith, length-drop h.len p))

pub next_segment-Rest : (n : ℕ) (p : List ℕ) → length p ≤ suc n → Rest n (next_segment p)
unfolding next_segment
next_segment-Rest n p l =
    if_cases (Rest n) (ltb (length p) overhead) (λ t. tt)
      (λ t. headed (decode_header p) (decode_header-Leaves n p l))
  where
    headed :
        (o : Option (LeotpSeg × List ℕ))
        → Leaves n o
        → Rest n (elim o [ none ↦ finished | some (h, rest) ↦ check_header h rest ])
    headed none k = tt
    headed (some r) k = check_header-Rest n r.0 r.1 k
