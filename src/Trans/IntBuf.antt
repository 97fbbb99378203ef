-- ===== src/Trans/IntBuf.antt =====
-- leotp.cpp, `updateIntBuf`: a range that has just been asked for again counts as sent now.
pub mod Refresh
use leotp.Base.{
  ℕ, zero, suc, ◌+◌, ◌-◌, ◌*◌, ◌/◌, ◌%◌, ◌^◌, ◌≤◌, ◌<◌, ◌≡◌, refl, sym, ap, ◌∙◌, ◌≢◌, ◌↔◌, ◌⊎◌, inl,
  inr, Bool, true, false, ◌&&◌, ◌||◌, not, Option, none, some, List, [], ◌∷◌, ◌++◌, map, arith, ltb,
  leb, ◌==◌, if◌then◌else◌, length, length-append, All, All-append, All-mono, u32, add32, sub32,
  slt, Bool-cases, Option-cases, if_cases, sub32_le, ltb→lt, lt→ltb, le→ltb, ltb→le, take, drop,
  take-length-append, drop-length-append, span, span-append, length-span, leb_refl, lt→leb,
}
use leotp.Seg.{LeotpSeg}
use leotp.Trans.{TransCb}

-- The loop.
unfoldable pub refresh : ℕ → ℕ → ℕ → List LeotpSeg → List LeotpSeg
refresh now range_start range_end [] = []
refresh now range_start range_end (i ∷ is) =
    let rest = refresh now range_start range_end is in
    if leb range_end i.range_start
    then i ∷ is
    else if leb i.range_end range_start
    then i ∷ rest
    else if leb i.range_end range_end
    then (if leb range_start i.range_start
        then record i { ts = now } ∷ rest
        else record i { range_end = range_start }
          ∷ record i { range_start = range_start; ts = now }
          ∷ rest)
    else if leb range_start i.range_start
    then record i { range_end = range_end; ts = now } ∷ record i { range_start = range_end } ∷ rest
    else record i { range_end = range_start }
      ∷ record i { range_start = range_start; range_end = range_end; ts = now }
      ∷ record i { range_start = range_end }
      ∷ rest

module _ {F W : Type 0} where
  unfoldable pub update_int_buf : ℕ → ℕ → ℕ → TransCb F W → TransCb F W
  update_int_buf now range_start range_end cb = record cb {
    int_buf = refresh now range_start range_end cb.int_buf;
  }
