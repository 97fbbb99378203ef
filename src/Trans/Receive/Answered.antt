-- ===== src/Trans/Receive/Answered.antt =====
-- leotp.cpp, `parseData` at the requester: the interests that wait and the data that is held.
use leotp.Base.{
  ℕ, ◌≤◌, ◌<◌, ◌≡◌, refl, sym, ap, ◌∙◌, Bool, true, false, ◌&&◌, ◌||◌, not, Option, none, some,
  List, [], ◌∷◌, ◌++◌, arith, ltb, leb, ◌==◌, if◌then◌else◌, length, slt, if_cases,
}
use mathlib.Core.List.{append_assoc, append-nil}
use mathlib.Core.Bool.{false≢true}
use leotp.Seg.{LeotpSeg, requester}
use leotp.Codec.{imin, imax, itimediff}
use leotp.Trans.{TransCb, wnd_rcv}
use leotp.Trans.Rtt.{update_rtt}
use leotp.Trans.Holes.{is_midnode}
use leotp.Trans.Holes.Cover.{within}
use leotp.Trans.IntBuf.Refresh.{awaited, Ordered}
use leotp.Trans.Send.Notify.{carried, carried-append}
use leotp.Trans.Deliver.{deliver, move_to_rcv_queue, is_requester}
use leotp.Trans.Receive.{
  insert_before, insert_at, insert_itr, answer, unanswered, store_answer, overlaps, contains,
  answer_loop, parse_data,
}

insert_before-carried :
    (p itr : ℕ) (seg : LeotpSeg) (gs : List LeotpSeg)
    → carried p (insert_before itr seg gs)
      ≡ (carried p gs || within seg.range_start seg.range_end p)
unfolding insert_before
insert_before-carried p itr seg [] = ground arith
insert_before-carried p itr seg (g ∷ gs) = ground (arith, insert_before-carried p itr seg gs)

insert_at-carried :
    (p : ℕ) (at : Option ℕ) (seg : LeotpSeg) (gs : List LeotpSeg)
    → carried p (insert_at at seg gs) ≡ (carried p gs || within seg.range_start seg.range_end p)
unfolding insert_at
insert_at-carried p none seg gs = carried-append p gs (seg ∷ []) ∙ ground arith
insert_at-carried p (some itr) seg gs = insert_before-carried p itr seg gs

module _ (s e : ℕ) (h : s < e) where
  -- An interest that has a part in the data, and those behind it.
  unanswered-awaited :
      (p : ℕ) (d i : LeotpSeg) (rest : List LeotpSeg) (later : Bool)
      → d.range_start ≡ s
      → d.range_end ≡ e
      → i.range_start < i.range_end
      → overlaps d i ≡ true
      → awaited p rest ≡ (later && not (within s e p))
      → awaited p (unanswered d i rest)
        ≡ ((within i.range_start i.range_end p || later) && not (within s e p))
  unfolding unanswered
  unanswered-awaited p d i rest later a b k o ih = ground (arith, ih)

  answer-within :
      (p now : ℕ) (d i : LeotpSeg)
      → d.range_start ≡ s
      → d.range_end ≡ e
      → overlaps d i ≡ true
      → let g = answer now d i in
        within g.range_start g.range_end p ≡ (within i.range_start i.range_end p && within s e p)
  unfolding answer imin imax
  answer-within p now d i a b o = ground arith

behind_data :
    (s e p lo : ℕ) (is : List LeotpSeg)
    → e ≤ lo
    → Ordered lo is
    → (awaited p is && within s e p) ≡ false
behind_data s e p lo [] h o = refl
behind_data s e p lo (i ∷ is) h o =
    ground (arith, behind_data s e p i.range_end is (omega arith) o.2)

deliver-append :
    (nxt : ℕ) (queue buf : List LeotpSeg)
    → let r = deliver nxt queue buf in r.1 ++ r.2 ≡ queue ++ buf
unfolding deliver
deliver-append nxt queue [] = refl
deliver-append nxt queue (g ∷ buf) =
    if_cases (λ (r : ℕ × List LeotpSeg × List LeotpSeg). r.1 ++ r.2 ≡ queue ++ g ∷ buf)
      (g.range_start == nxt && ltb (length queue) wnd_rcv)
      (λ t. deliver-append g.range_end (queue ++ g ∷ []) buf ∙ append_assoc queue (g ∷ []) buf)
      (λ t. refl)

module _ {F W : Type 0} where
  move_to_rcv_queue-append :
      (cb : TransCb F W)
      → let after = move_to_rcv_queue cb in
        after.rcv_queue ++ after.rcv_buf ≡ cb.rcv_queue ++ cb.rcv_buf
  unfolding move_to_rcv_queue
  move_to_rcv_queue-append cb =
      if_cases done (is_midnode cb.node_role)
        (λ t.
          if_cases done (ltb (length cb.rcv_queue) wnd_rcv)
            (λ u. append-nil (cb.rcv_queue ++ cb.rcv_buf)) (λ u. refl))
        (λ t. deliver-append cb.rcv_nxt cb.rcv_queue cb.rcv_buf)
    where
      done : TransCb F W → Type 0
      done c = c.rcv_queue ++ c.rcv_buf ≡ cb.rcv_queue ++ cb.rcv_buf

  move_to_rcv_queue-int_buf : (cb : TransCb F W) → (move_to_rcv_queue cb).int_buf ≡ cb.int_buf
  unfolding move_to_rcv_queue
  move_to_rcv_queue-int_buf cb =
      if_cases same (is_midnode cb.node_role)
        (λ t. if_cases same (ltb (length cb.rcv_queue) wnd_rcv) (λ u. refl) (λ u. refl)) (λ t. refl)
    where
      same : TransCb F W → Type 0
      same c = c.int_buf ≡ cb.int_buf

  -- Two states of the same node with the same queue.
  abbrev SameQueue : TransCb F W → TransCb F W → Type 0
  SameQueue c d = (c.rcv_queue ≡ d.rcv_queue) × (c.node_role ≡ d.node_role)

  update_rtt-rcv :
      (rtt xmit : ℕ) (cb : TransCb F W)
      → ((update_rtt rtt xmit cb).rcv_buf ≡ cb.rcv_buf) × SameQueue (update_rtt rtt xmit cb) cb
  unfolding update_rtt
  update_rtt-rcv rtt xmit cb =
      if_cases done (not (slt 0 rtt)) (λ t. (refl, (refl, refl)))
        λ t.
          if_cases done (cb.srtt == 0) (λ u. (refl, (refl, refl)))
            λ u. if_cases done (leb xmit 1) (λ v. (refl, (refl, refl))) (λ v. (refl, (refl, refl)))
    where
      done : TransCb F W → Type 0
      done c = (c.rcv_buf ≡ cb.rcv_buf) × SameQueue c cb

  store_answer-carried :
      (p : ℕ) (seg : LeotpSeg) (cb : TransCb F W)
      → (carried p (store_answer seg cb).rcv_buf
          ≡ (carried p cb.rcv_buf || within seg.range_start seg.range_end p))
        × SameQueue (store_answer seg cb) cb
  unfolding store_answer
  store_answer-carried p seg cb = (
    insert_at-carried p (insert_itr seg.range_start seg.range_end none cb.rcv_buf_itrs).1 seg
        cb.rcv_buf,
    (refl, refl),
  )

  -- What the loop has done with the interests `is` in the state `cb`.
  abbrev Answered : ℕ → ℕ → List LeotpSeg → TransCb F W → List LeotpSeg × TransCb F W → Type 0
  Answered s e is cb r =
      ((p : ℕ) → awaited p r.0 ≡ (awaited p is && not (within s e p)))
      × ((p : ℕ) → carried p r.1.rcv_buf ≡ (carried p cb.rcv_buf || (awaited p is && within s e p)))
      × SameQueue r.1 cb

  answer_loop-Answered :
      (now lo : ℕ) (d : LeotpSeg) (is : List LeotpSeg) (cb : TransCb F W)
      → d.range_start < d.range_end
      → Ordered lo is
      → Answered d.range_start d.range_end is cb (answer_loop now d is cb)
  unfolding answer_loop
  answer_loop-Answered now lo d [] cb h o = ((λ p. refl), (λ p. ground arith), (refl, refl))
  answer_loop-Answered now lo d (i ∷ is) cb h (l, k, o) =
      if_cases done (leb d.range_end i.range_start)
        (λ t. (
          (λ p.
              ground
                (arith, behind_data d.range_start d.range_end p i.range_end is (ground arith) o)),
          (λ p.
              ground
                (arith, behind_data d.range_start d.range_end p i.range_end is (ground arith) o)),
          (refl, refl),
        ))
        (λ t. split (overlaps d i) refl (λ c. answer_loop-Answered now i.range_end d is c h o))
    where
      s : ℕ
      s = d.range_start

      e : ℕ
      e = d.range_end

      done : List LeotpSeg × TransCb F W → Type 0
      done = Answered s e (i ∷ is) cb

      stored : TransCb F W
      stored = store_answer (answer now d i) cb

      timed : TransCb F W
      timed = if contains d i then update_rtt (itimediff now i.ts) i.xmit stored else stored

      timed-rcv : (timed.rcv_buf ≡ stored.rcv_buf) × SameQueue timed stored
      timed-rcv =
          if_cases (λ (c : TransCb F W). (c.rcv_buf ≡ stored.rcv_buf) × SameQueue c stored)
            (contains d i) (λ t. update_rtt-rcv (itimediff now i.ts) i.xmit stored)
            (λ t. (refl, (refl, refl)))

      split :
          (t : Bool)
          → overlaps d i ≡ t
          → ((c : TransCb F W) → Answered s e is c (answer_loop now d is c))
          → let rest = answer_loop now d is (if t then timed else cb) in
            done (if t then unanswered d i rest.0 else i ∷ rest.0, rest.1)
      split false t ih =
          let (left, held, same) = ih cb in
          ((λ p. ground (arith, left p)), (λ p. ground (arith, held p)), same)
      split true t ih =
          let (left, held, same) = ih timed in
          let (buf, same') = timed-rcv in
          (
            (λ p.
                unanswered-awaited s e h p d i (answer_loop now d is timed).0 (awaited p is) refl
                  refl k t (left p)),
            (λ p.
                held p
                ∙ ap (λ b. carried p b || (awaited p is && within s e p)) buf
                ∙ merge p (carried p cb.rcv_buf) (carried p stored.rcv_buf)
                    (store_answer-carried p (answer now d i) cb).0
                    (answer-within s e h p now d i refl refl t)),
            (
              same.0 ∙ same'.0 ∙ (store_answer-carried 0 (answer now d i) cb).1.0,
              same.1 ∙ same'.1 ∙ (store_answer-carried 0 (answer now d i) cb).1.1,
            ),
          )
        where
          merge :
              (p : ℕ) (x y : Bool)
              → y ≡ (x || within (answer now d i).range_start (answer now d i).range_end p)
              → within (answer now d i).range_start (answer now d i).range_end p
                ≡ (within i.range_start i.range_end p && within s e p)
              → (y || (awaited p is && within s e p))
                ≡ (x || ((within i.range_start i.range_end p || awaited p is) && within s e p))
          merge p x y a b = ground (arith, a, b)

  -- At the requester, data of a range that is not empty, with an ordered interest buffer: the
  -- positions of the data, and no others, cease to be awaited, and of the data those that were
  -- awaited, and no others, are held in the receive buffer or queue from then on, beside what was
  -- held before.
  pub parse_data_lem :
      (now : ℕ) (data_seg : LeotpSeg) (cb : TransCb F W)
      → cb.node_role ≡ requester
      → data_seg.range_start < data_seg.range_end
      → Ordered 0 cb.int_buf
      → (p : ℕ)
      → let after = parse_data now data_seg false cb in
        (awaited p after.int_buf
          ≡ (awaited p cb.int_buf && not (within data_seg.range_start data_seg.range_end p)))
        × (carried p (after.rcv_queue ++ after.rcv_buf) ≡ (
            carried p (cb.rcv_queue ++ cb.rcv_buf)
            || (awaited p cb.int_buf && within data_seg.range_start data_seg.range_end p)))
  unfolding parse_data
  parse_data_lem now d cb r h o p =
      if_cases done (is_requester cb.node_role)
        (λ t.
          let (left, held, same) = answer_loop-Answered now 0 d cb.int_buf cb h o in
          (
            ap (awaited p) (move_to_rcv_queue-int_buf moved) ∙ left p,
            ap (carried p) (move_to_rcv_queue-append moved)
                ∙ carried-append p moved.rcv_queue moved.rcv_buf
                ∙ with_queue (carried p moved.rcv_buf) (ap (carried p) same.0) (held p),
          ))
        (λ t. absurd (false≢true (sym t ∙ ap is_requester r)))
    where
      moved : TransCb F W
      moved = record (answer_loop now d cb.int_buf cb).1 {
        int_buf = (answer_loop now d cb.int_buf cb).0;
      }

      done : TransCb F W → Type 0
      done after =
          (awaited p after.int_buf
            ≡ (awaited p cb.int_buf && not (within d.range_start d.range_end p)))
          × (carried p (after.rcv_queue ++ after.rcv_buf) ≡ (
              carried p (cb.rcv_queue ++ cb.rcv_buf)
              || (awaited p cb.int_buf && within d.range_start d.range_end p)))

      with_queue :
          (b : Bool)
          → carried p moved.rcv_queue ≡ carried p cb.rcv_queue
          → b
            ≡ (carried p cb.rcv_buf || (awaited p cb.int_buf && within d.range_start d.range_end p))
          → (carried p moved.rcv_queue || b) ≡ (
              carried p (cb.rcv_queue ++ cb.rcv_buf)
              || (awaited p cb.int_buf && within d.range_start d.range_end p))
      with_queue b q e = ground (arith, q, e, carried-append p cb.rcv_queue cb.rcv_buf)
