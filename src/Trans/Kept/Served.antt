-- ===== src/Trans/Kept/Served.antt =====
-- leotp.cpp, `request`, `recv` and `notifyNewData`: they call nothing either.
use leotp.Base.{
  ℕ, ◌≡◌, refl, ◌∙◌, Bool, ◌&&◌, List, [], ◌∷◌, leb, if◌then◌else◌, sub32, slt, if_cases,
}
use mathlib.Core.Path.{subst}
use leotp.Codec.{imin, imax, itimediff}
use leotp.Seg.{LeotpSeg, Bytes}
use leotp.Trans.{TransCb, ByteRange, intb_max}
use leotp.Trans.Kept.{Same}
use leotp.Trans.Kept.Quiet.{send_data-Same, move_to_rcv_queue-Same}
use leotp.Trans.Holes.{is_midnode}
use leotp.Trans.Interest.{Requested, request, accepted, buffer_full, bad_range}
use leotp.Trans.Send.{shift, send_data, notify_loop, notify_new_data}
use leotp.Trans.Deliver.{Received, again, recv_first, copy_out, bytes, recv_from, recv}

module _ {F W : Type 0} where
  notify_loop-Same :
      (buffer : Bytes) (ds de : ℕ) (rs : List ByteRange) (cb : TransCb F W)
      → Same (notify_loop buffer ds de rs cb).1 cb
  unfolding notify_loop
  notify_loop-Same buffer ds de [] cb = (refl, refl)
  notify_loop-Same buffer ds de (r ∷ rs) cb =
      let rest = notify_loop-Same buffer ds de rs next in (rest.0 ∙ sent.0, rest.1 ∙ sent.1)
    where
      start : ℕ
      start = imax r.start_byte ds

      meets : Bool
      meets = slt (itimediff r.start_byte de) 0 && slt 0 (itimediff r.end_byte ds)

      next : TransCb F W
      next =
          if meets
          then (send_data (shift (sub32 start ds) buffer) start (imin r.end_byte de) cb).1
          else cb

      sent : Same next cb
      sent =
          if_cases (λ (c : TransCb F W). Same c cb) meets
            (λ _. send_data-Same (shift (sub32 start ds) buffer) start (imin r.end_byte de) cb)
            (λ _. (refl, refl))

  pub notify_new_data-Same :
      (buffer : Bytes) (ds de : ℕ) (cb : TransCb F W) → Same (notify_new_data buffer ds de cb) cb
  unfolding notify_new_data
  notify_new_data-Same buffer ds de cb = notify_loop-Same buffer ds de cb.pending_ints cb

  pub recv-Same : (max : ℕ) (cb : TransCb F W) → Same (recv max cb).1 cb
  unfolding recv recv_from
  recv-Same max cb = by_queue cb.rcv_queue
    where
      Fine : Received × TransCb F W → Type 0
      Fine x = Same x.1 cb

      by_queue :
          (l : List LeotpSeg)
          → Fine (elim l [ [] ↦ (again, cb) | seg ∷ queue ↦ recv_from max seg queue cb ])
      by_queue [] = (refl, refl)
      by_queue (seg ∷ queue) = move_to_rcv_queue-Same (record cb {
        rcv_queue =
            (if is_midnode cb.node_role then recv_first max seg queue else (
              bytes seg.range_start (copy_out max seg.range_start seg.range_start (seg ∷ queue)).0
                  (copy_out max seg.range_start seg.range_start (seg ∷ queue)).1,
              (copy_out max seg.range_start seg.range_start (seg ∷ queue)).2,
            )).1;
      })

  -- An accepted request.
  pub request-Same : (s e : ℕ) (cb c : TransCb F W) → request s e cb ≡ accepted c → Same c cb
  unfolding request
  request-Same s e cb c h = subst (λ (x : Requested (TransCb F W)). Fine x) h fine
    where
      Fine : Requested (TransCb F W) → Type 0
      Fine (accepted x) = Same x cb
      Fine buffer_full = Unit
      Fine bad_range = Unit

      fine : Fine (request s e cb)
      fine =
          if_cases (λ (x : Requested (TransCb F W)). Fine x) (leb e s) (λ _. tt)
            (λ _.
              if_cases (λ (x : Requested (TransCb F W)). Fine x) (leb intb_max cb.int_buf_bytes)
                (λ _. tt) (λ _. (refl, refl)))
