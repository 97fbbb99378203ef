-- ===== src/Trans/Holes.antt =====
-- leotp.cpp, `insertDataHole`, `deleteDataHole` and `detectDataHole`: the ranges of the data stream
-- that have been skipped, kept in ascending order.
pub mod Cover
use leotp.Base.{
  ℕ, zero, suc, ◌+◌, ◌-◌, ◌*◌, ◌/◌, ◌%◌, ◌^◌, ◌≤◌, ◌<◌, ◌≡◌, refl, sym, ap, ◌∙◌, ◌≢◌, ◌↔◌, ◌⊎◌, inl,
  inr, Bool, true, false, ◌&&◌, ◌||◌, not, Option, none, some, List, [], ◌∷◌, ◌++◌, map, arith, ltb,
  leb, ◌==◌, if◌then◌else◌, length, length-append, All, All-append, All-mono, u32, add32, sub32,
  slt, Bool-cases, Option-cases, if_cases, sub32_le, ltb→lt, lt→ltb, le→ltb, ltb→le, take, drop,
  take-length-append, drop-length-append, span, span-append, length-span, leb_refl, lt→leb,
}
use leotp.Seg.{LeotpSeg, Role, requester, responder, midnode, cmd_push, overhead, mss}
use leotp.Trans.{Hole, TransCb}

abbrev pub is_midnode : Role → Bool
is_midnode midnode = true
is_midnode requester = false
is_midnode responder = false

-- The loop of `deleteDataHole`.
unfoldable pub delete_holes : ℕ → ℕ → List Hole → List Hole
delete_holes range_start range_end [] = []
delete_holes range_start range_end (h ∷ hs) =
    let rest = delete_holes range_start range_end hs in
    if leb range_end h.start_byte
    then h ∷ hs
    else if leb h.end_byte range_start
    then h ∷ rest
    else if leb h.end_byte range_end
    then (if leb range_start h.start_byte then rest else record h { end_byte = range_start } ∷ rest)
    else if leb range_start h.start_byte
    then record h { start_byte = range_end } ∷ rest
    else record h { end_byte = range_start } ∷ record h { start_byte = range_end } ∷ rest

module _ {F W : Type 0} where
  unfoldable pub delete_data_hole : ℕ → ℕ → TransCb F W → TransCb F W
  delete_data_hole range_start range_end cb = record cb {
    data_holes = delete_holes range_start range_end cb.data_holes;
  }

  unfoldable pub insert_data_hole : ℕ → ℕ → ℕ → TransCb F W → TransCb F W
  insert_data_hole now range_start range_end cb = record cb {
    data_holes =
        cb.data_holes
        ++ record { start_byte = range_start; end_byte = range_end; ts = now; count = 0 } ∷ [];
  }

  -- A data header: a segment of data with no payload.
  unfoldable pub send_data_header : ℕ → ℕ → TransCb F W → TransCb F W
  send_data_header range_start range_end cb =
      let seg : LeotpSeg = record {
        cmd = cmd_push;
        wnd = 0;
        ts = 0;
        len = 0;
        range_start = range_start;
        range_end = range_end;
        xmit = 0;
        payload = λ _. 0;
      } in
      record cb {
        snd_queue = cb.snd_queue ++ seg ∷ [];
        snd_queue_bytes = add32 cb.snd_queue_bytes overhead;
      }

  -- `detectDataHole`, as compiled with USE_CACHE.
  unfoldable pub detect_data_hole : ℕ → ℕ → ℕ → TransCb F W → TransCb F W × Bool
  unfolding insert_data_hole delete_data_hole send_data_header
  detect_data_hole now range_start range_end cb =
      let next = cb.data_next_range_start in
      if range_start == next
      then (record cb { data_next_range_start = range_end }, false)
      else if ltb range_start next
      then (delete_data_hole range_start range_end cb, false)
      else if next == 0 || ltb (100 * mss) (sub32 range_start next)
      then (record cb { data_next_range_start = range_end }, false)
      else (let cb1 = insert_data_hole now next range_start cb in
          let cb2 =
            if is_midnode cb.node_role then send_data_header next range_start cb1 else cb1 in
          (record cb2 { data_next_range_start = range_end }, true))
