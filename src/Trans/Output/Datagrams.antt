-- ===== src/Trans/Output/Datagrams.antt =====
-- leotp.cpp, `flushData`: the datagrams that leave.
use leotp.Base.{
  ℕ, ◌+◌, ◌≤◌, ◌<◌, ◌≡◌, refl, sym, ap, ◌∙◌, Bool, true, false, List, [], ◌∷◌, ◌++◌, arith, ltb,
  ◌==◌, if◌then◌else◌, length, length-append, All, All-append, add32, sub32, if_cases,
}
use mathlib.Core.List.{append_assoc, append-nil}
use mathlib.Core.Path.{subst}
use leotp.Seg.{LeotpSeg, requester, overhead, mss, mtu, slice, encode_seg}
use leotp.Trans.{TransCb, Callbacks, FloatOps, update_interval}
use leotp.Seg.Wire.{wire, length-wire}
use leotp.Trans.Output.{smin, mbit_to_bytes, output, stamp, charge, flush_data_loop, flush_data}

-- A segment on the wire, as it stands in the queue but for the two fields that are stamped.
abbrev pub SentAs : LeotpSeg → List ℕ → Type 0
SentAs seg bytes = (ts : ℕ) × (wnd : ℕ) × (bytes ≡ wire (record seg { ts = ts; wnd = wnd }))

-- The segments one behind the other.
abbrev pub Sequence : List LeotpSeg → List ℕ → Type 0
Sequence [] bytes = bytes ≡ []
Sequence (g ∷ gs) bytes =
    (first : List ℕ) × (rest : List ℕ) × (bytes ≡ first ++ rest) × SentAs g first × Sequence gs rest

abbrev pub concat : List (List ℕ) → List ℕ
concat [] = []
concat (d ∷ ds) = d ++ concat ds

abbrev pub IsDatagram : List ℕ → Type 0
IsDatagram d = (0 < length d) × (length d ≤ mtu)

abbrev pub Fitting : LeotpSeg → Type 0
Fitting g = g.len ≤ mss

concat-append : (ds es : List (List ℕ)) → concat (ds ++ es) ≡ concat ds ++ concat es
concat-append [] es = refl
concat-append (d ∷ ds) es =
    ap (λ b. d ++ b) (concat-append ds es) ∙ sym (append_assoc d (concat ds) (concat es))

module _ {F W : Type 0} where
  -- The datagrams handed to `outputFunc` in turn.
  abbrev pub send_all : Callbacks F W → List (List ℕ) → W → W
  send_all cbs [] w = w
  send_all cbs (d ∷ ds) w = send_all cbs ds (cbs.output_func d requester w)

  -- The loop from a state with the bytes `buf`: the datagrams `ds` have left, and they and the
  -- bytes that remain are `buf` and the segments of the queue's first part, the rest of the queue
  -- stays.
  abbrev pub Left :
      Callbacks F W → List LeotpSeg → List ℕ → TransCb F W → Bool × List ℕ × TransCb F W → Type 0
  Left cbs queue buf cb r =
      (sent : List LeotpSeg) × (ds : List (List ℕ)) × (bytes : List ℕ) × (queue
        ≡ sent ++ r.2.snd_queue)
      × (r.2.user ≡ send_all cbs ds cb.user)
      × All IsDatagram ds
      × (length r.1 ≤ mtu)
      × Sequence sent bytes
      × (concat ds ++ r.1 ≡ buf ++ bytes)

  send_all-append :
      (cbs : Callbacks F W) (ds es : List (List ℕ)) (w : W)
      → send_all cbs (ds ++ es) w ≡ send_all cbs es (send_all cbs ds w)
  send_all-append cbs [] es w = refl
  send_all-append cbs (d ∷ ds) es w = send_all-append cbs ds es (cbs.output_func d requester w)

  -- Handing on a buffer: one datagram, or none if it is empty.
  output-Datagrams :
      (cbs : Callbacks F W) (buf : List ℕ) (cb : TransCb F W)
      → length buf ≤ mtu
      → (ds : List (List ℕ)) × ((output cbs buf requester cb).user ≡ send_all cbs ds cb.user)
        × All IsDatagram ds
        × (concat ds ≡ buf)
  unfolding output
  output-Datagrams cbs [] cb l = ([], refl, tt, refl)
  output-Datagrams cbs (b ∷ buf) cb l = (
    (b ∷ buf) ∷ [],
    if_cases (λ (c : TransCb F W). c.user ≡ cbs.output_func (b ∷ buf) requester cb.user)
        (length (b ∷ buf) == 0) (λ t. absurd (ground arith)) (λ t. refl),
    ((omega arith, l), tt),
    append-nil (b ∷ buf),
  )

  -- What happens to the buffer in front of a segment of `n` bytes with its header.
  make_room :
      (cbs : Callbacks F W) (n : ℕ) (buf : List ℕ) (cb : TransCb F W) (full : Bool)
      → ltb mtu (length buf + n) ≡ full
      → n ≤ mtu
      → length buf ≤ mtu
      → let kept = if full then [] else buf in
        (ds : List (List ℕ)) × ((if full then output cbs buf requester cb else cb).user
          ≡ send_all cbs ds cb.user)
        × All IsDatagram ds
        × (concat ds ++ kept ≡ buf)
        × (length kept + n ≤ mtu)
  make_room cbs n buf cb false e k l = ([], refl, tt, refl, ground arith)
  make_room cbs n buf cb true e k l =
      let (ds, user, all, same) = output-Datagrams cbs buf cb l in
      (ds, user, all, append-nil (concat ds) ∙ same, omega arith)

  flush_data_loop-Left :
      (cbs : Callbacks F W) (now : ℕ) (queue : List LeotpSeg) (buf : List ℕ) (cb : TransCb F W)
      → All Fitting queue
      → length buf ≤ mtu
      → Left cbs queue buf cb (flush_data_loop cbs now queue buf cb)
  unfolding flush_data_loop
  flush_data_loop-Left cbs now [] buf cb f l =
      ([], [], [], refl, refl, tt, l, refl, sym (append-nil buf))
  flush_data_loop-Left cbs now (seg ∷ queue) buf cb (f, fs) l =
      split (ltb cb.data_output_limit (seg.len + overhead))
        (λ b c k. flush_data_loop-Left cbs now queue b c fs k)
    where
      full : Bool
      full = ltb mtu (length buf + (overhead + seg.len))

      cb1 : TransCb F W
      cb1 = if full then output cbs buf requester (charge seg cb) else charge seg cb

      written : List ℕ
      written = encode_seg (stamp now cb1 seg) ++ slice seg.payload 0 seg.len

      next_buf : List ℕ
      next_buf = (if full then [] else buf) ++ written

      next_cb : TransCb F W
      next_cb = record cb1 { snd_queue_bytes = sub32 cb1.snd_queue_bytes (seg.len + overhead) }

      written_len : length written ≡ overhead + seg.len
      written_len = length-wire (stamp now cb1 seg)

      rest : Bool × List ℕ × TransCb F W
      rest = flush_data_loop cbs now queue next_buf next_cb

      split :
          (t : Bool)
          → ((b : List ℕ) (c : TransCb F W)
              → length b ≤ mtu
              → Left cbs queue b c (flush_data_loop cbs now queue b c))
          → Left cbs (seg ∷ queue) buf cb (elim t [
            | true ↦ (true, buf, record cb { snd_queue = seg ∷ queue })
            | false ↦ flush_data_loop cbs now queue next_buf next_cb
          ])
      split true ih = ([], [], [], refl, refl, tt, l, refl, sym (append-nil buf))
      split false ih =
          let (ds, user, all, same, room) =
            make_room cbs (overhead + seg.len) buf (charge seg cb) full refl (omega arith) l in
          let (sent, es, bytes, q, user', all', len', seq, same') =
            ih next_buf next_cb (
              omega (arith, length-append (if full then [] else buf) written, written_len, room)) in
          (
            seg ∷ sent,
            ds ++ es,
            written ++ bytes,
            ap (λ x. seg ∷ x) q,
            user' ∙ ap (send_all cbs es) user ∙ sym (send_all-append cbs ds es cb.user),
            All-append IsDatagram ds es all all',
            len',
            (written, bytes, refl, ((stamp now cb1 seg).ts, (stamp now cb1 seg).wnd, refl), seq),
            ap (λ b. b ++ rest.1) (concat-append ds es)
                ∙ append_assoc (concat ds) (concat es) rest.1
                ∙ ap (λ b. concat ds ++ b) same'
                ∙ ap (λ b. concat ds ++ b) (append_assoc (if full then [] else buf) written bytes)
                ∙ sym (append_assoc (concat ds) (if full then [] else buf) (written ++ bytes))
                ∙ ap (λ b. b ++ (written ++ bytes)) same,
          )

  output-snd_queue :
      (cbs : Callbacks F W) (buf : List ℕ) (cb : TransCb F W)
      → (output cbs buf requester cb).snd_queue ≡ cb.snd_queue
  unfolding output
  output-snd_queue cbs buf cb =
      if_cases (λ (c : TransCb F W). c.snd_queue ≡ cb.snd_queue) (length buf == 0) (λ t. refl)
        (λ t. refl)

  -- The bytes that the loop leaves are handed on too.
  finish :
      (cbs : Callbacks F W) (queue : List LeotpSeg) (cb : TransCb F W)
      (r : Bool × List ℕ × TransCb F W) (cb1 : TransCb F W)
      → Left cbs queue [] cb r
      → cb1.user ≡ r.2.user
      → cb1.snd_queue ≡ r.2.snd_queue
      → let after = output cbs r.1 requester cb1 in
        (sent : List LeotpSeg) × (ds : List (List ℕ)) × (queue ≡ sent ++ after.snd_queue)
        × (after.user ≡ send_all cbs ds cb.user)
        × All IsDatagram ds
        × Sequence sent (concat ds)
  finish cbs queue cb r cb1 (sent, ds, bytes, q, user, all, len, seq, same) u k =
      let (es, user', all', same') = output-Datagrams cbs r.1 cb1 len in
      (
        sent,
        ds ++ es,
        q ∙ ap (λ l. sent ++ l) (sym (output-snd_queue cbs r.1 cb1 ∙ k)),
        user' ∙ ap (send_all cbs es) (u ∙ user) ∙ sym (send_all-append cbs ds es cb.user),
        All-append IsDatagram ds es all all',
        subst (Sequence sent) (sym (concat-append ds es ∙ ap (λ b. concat ds ++ b) same' ∙ same))
            seq,
      )

module _ (fl : FloatOps) {W : Type 0} where
  open fl use {Float, of_int, of_word, mul, div}

  -- `flushData` sends a first part of the queue, each segment's header and payload unchanged but
  -- for the time and window that are stamped, one behind the other in the queue's order, as
  -- datagrams that are not empty and hold at most MTU bytes; the rest of the queue stays. The
  -- queue's segments hold at most MSS bytes each.
  pub flush_data_lem :
      (cbs : Callbacks Float W) (now : ℕ) (cb : TransCb Float W)
      → All Fitting cb.snd_queue
      → let after = flush_data fl cbs now cb in
        (sent : List LeotpSeg) × (ds : List (List ℕ)) × (cb.snd_queue ≡ sent ++ after.snd_queue)
        × (after.user ≡ send_all cbs ds cb.user)
        × All IsDatagram ds
        × Sequence sent (concat ds)
  unfolding flush_data
  flush_data_lem cbs now cb f =
      let r = flush_data_loop cbs now cb.snd_queue [] (limited cb) in
      finish cbs cb.snd_queue (limited cb) r
        (if r.0
          then r.2
          else record r.2 { data_output_limit = smin r.2.data_output_limit new_output })
        (flush_data_loop-Left cbs now cb.snd_queue [] (limited cb) f (omega arith))
        (if_cases (λ (c : TransCb Float W). c.user ≡ r.2.user) r.0 (λ t. refl) (λ t. refl))
        (if_cases (λ (c : TransCb Float W). c.snd_queue ≡ r.2.snd_queue) r.0 (λ t. refl)
          (λ t. refl))
    where
      flush_intv : ℕ
      flush_intv = if cb.last_flush_ts == 0 then update_interval else sub32 now cb.last_flush_ts

      new_output : ℕ
      new_output = mbit_to_bytes fl (div (mul cb.rmt_send_rate (of_word flush_intv)) (of_int 1000))

      limited : TransCb Float W → TransCb Float W
      limited c = record c { data_output_limit = add32 c.data_output_limit new_output }
