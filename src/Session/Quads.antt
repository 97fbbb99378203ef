-- ===== src/Session/Quads.antt =====
-- udp_leotp.cpp, `Quad` and `addrCmp`.
use leotp.Base.{
  ℕ, zero, suc, ◌/◌, ◌%◌, ◌^◌, ◌≤◌, ◌<◌, ◌≡◌, refl, ap, ◌∙◌, Bool, true, false, ◌&&◌, List, [], ◌∷◌,
  ◌++◌, arith, ◌==◌, length, length-append, take,
}
use leotp.Codec.{encode16, encode32u}
use leotp.ByteMap.{mem_eq}
use leotp.Session.{Addr, addr_cmp, quad_of, eq_quad, write_ip_str, dotted, decimal, quad_str_len}

-- The bytes fit `in_addr_t` and `uint16_t`.
abbrev pub IsAddr : Addr → Type 0
IsAddr a = (a.sin_addr < 2 ^ 32) × (a.sin_port < 2 ^ 16)

mem_eq-encode32u :
    (a b : ℕ) (xs ys : List ℕ)
    → a < 2 ^ 32
    → b < 2 ^ 32
    → mem_eq (encode32u a ++ xs) (encode32u b ++ ys) ≡ (a == b && mem_eq xs ys)
unfolding mem_eq encode32u
mem_eq-encode32u a b xs ys h k = ground arith

mem_eq-encode16 :
    (a b : ℕ) (xs ys : List ℕ)
    → a < 2 ^ 16
    → b < 2 ^ 16
    → mem_eq (encode16 a ++ xs) (encode16 b ++ ys) ≡ (a == b && mem_eq xs ys)
unfolding mem_eq encode16
mem_eq-encode16 a b xs ys h k = ground arith

mem_eq-encode16_end :
    (a b : ℕ) → a < 2 ^ 16 → b < 2 ^ 16 → mem_eq (encode16 a) (encode16 b) ≡ (a == b)
unfolding mem_eq encode16
mem_eq-encode16_end a b h k = ground arith

-- Two quadruples of proper addresses compare as equal exactly if both of their addresses do.
pub eq_quad-quad_of :
    (a b c d : Addr)
    → IsAddr a
    → IsAddr b
    → IsAddr c
    → IsAddr d
    → eq_quad (quad_of a b) (quad_of c d) ≡ (addr_cmp a c && addr_cmp b d)
unfolding eq_quad quad_of addr_cmp
eq_quad-quad_of a b c d h i j k =
    mem_eq-encode32u a.sin_addr c.sin_addr _ _ h.0 j.0
    ∙ ap (◌&&◌ (a.sin_addr == c.sin_addr)) (
        mem_eq-encode16 a.sin_port c.sin_port _ _ h.1 j.1
        ∙ ap (◌&&◌ (a.sin_port == c.sin_port)) (
            mem_eq-encode32u b.sin_addr d.sin_addr _ _ i.0 k.0
            ∙ ap (◌&&◌ (b.sin_addr == d.sin_addr))
                (mem_eq-encode16_end b.sin_port d.sin_port i.1 k.1)))
    ∙ regroup (a.sin_addr == c.sin_addr) (a.sin_port == c.sin_port)
        (b.sin_addr == d.sin_addr && b.sin_port == d.sin_port)
  where
    regroup : (x y z : Bool) → (x && (y && z)) ≡ ((x && y) && z)
    regroup true y z = refl
    regroup false y z = refl

-- A quadruple has twelve characters.
pub length-chars : (a b : Addr) → length (quad_of a b).chars ≡ quad_str_len
unfolding quad_of encode32u encode16
length-chars a b = refl

length-decimal : (n : ℕ) → n < 256 → length (decimal n) ≤ 3
unfolding decimal
length-decimal n h = ground arith

take_whole : (n : ℕ) (xs : List ℕ) → length xs ≤ n → take n xs ≡ xs
take_whole zero [] h = refl
take_whole zero (x ∷ xs) h = absurd (omega arith)
take_whole (suc n) [] h = refl
take_whole (suc n) (x ∷ xs) h = ap (◌∷◌ x) (take_whole n xs (omega arith))

length-dotted : (ip : ℕ) → length (dotted ip) ≤ 15
unfolding dotted
length-dotted ip = omega (
  arith,
  length-append {0} (decimal (ip % 256)) (
      46 ∷ decimal (ip / 2 ^ 8 % 256)
      ++ (46 ∷ decimal (ip / 2 ^ 16 % 256) ++ (46 ∷ decimal (ip / 2 ^ 24 % 256)))),
  length-append {0} (decimal (ip / 2 ^ 8 % 256))
      (46 ∷ decimal (ip / 2 ^ 16 % 256) ++ (46 ∷ decimal (ip / 2 ^ 24 % 256))),
  length-append {0} (decimal (ip / 2 ^ 16 % 256)) (46 ∷ decimal (ip / 2 ^ 24 % 256)),
  length-decimal (ip % 256) (omega arith),
  length-decimal (ip / 2 ^ 8 % 256) (omega arith),
  length-decimal (ip / 2 ^ 16 % 256) (omega arith),
  length-decimal (ip / 2 ^ 24 % 256) (omega arith),
)

-- The text of an address fits the 16 bytes that `writeIPstr` writes to, with its NUL: none of it is
-- cut off.
pub write_ip_str-whole : (ip : ℕ) → (write_ip_str ip ≡ dotted ip) × (length (write_ip_str ip) < 16)
unfolding write_ip_str
write_ip_str-whole ip =
    let whole = take_whole 15 (dotted ip) (length-dotted ip) in
    (whole, omega (arith, ap length whole, length-dotted ip))
