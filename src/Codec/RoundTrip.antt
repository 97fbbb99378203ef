-- ===== src/Codec/RoundTrip.antt =====
-- include/generality.h: the encoders against the decoders.
use leotp.Base.{length, ℕ, ◌^◌, ◌<◌, ◌≡◌, refl, List, ◌++◌, some, arith}
use leotp.Codec.{encode8u, encode16, encode32u, decode8u, decode16, decode32u}

pub decode8u-encode8u :
    (c : ℕ) (rest : List ℕ) → c < 2 ^ 8 → decode8u (encode8u c ++ rest) ≡ some (c, rest)
unfolding decode8u encode8u
decode8u-encode8u c rest h = ground arith

pub decode16-encode16 :
    (w : ℕ) (rest : List ℕ) → w < 2 ^ 16 → decode16 (encode16 w ++ rest) ≡ some (w, rest)
unfolding decode16 encode16
decode16-encode16 w rest h = ground arith

-- A word that is written is read back, and the reader stands behind it.
pub decode32u-encode32u :
    (l : ℕ) (rest : List ℕ) → l < 2 ^ 32 → decode32u (encode32u l ++ rest) ≡ some (l, rest)
unfolding decode32u encode32u
decode32u-encode32u l rest h = ground arith

pub length-encode8u : (c : ℕ) → length (encode8u c) ≡ 1
unfolding encode8u
length-encode8u c = refl

pub length-encode16 : (w : ℕ) → length (encode16 w) ≡ 2
unfolding encode16
length-encode16 w = refl

pub length-encode32u : (l : ℕ) → length (encode32u l) ≡ 4
unfolding encode32u
length-encode32u l = refl
