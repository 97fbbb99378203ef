-- ===== src/App/Requests.antt =====
-- app/appclient.cpp, `request_func`: the interests of the client.
use leotp.Base.{
  ℕ, zero, suc, ◌+◌, ◌-◌, ◌*◌, ◌^◌, ◌≤◌, ◌<◌, ◌≡◌, refl, sym, ap, ◌∙◌, List, [], ◌∷◌, ◌++◌, arith,
  leb, add32, if_cases, span, span-append,
}
use mathlib.Core.List.{append_assoc, append-nil}
use leotp.Trans.{ByteRange, intb_max}
use leotp.Trans.Interest.{Requested, request, accepted, buffer_full, bad_range}
use leotp.Trans.Interest.Flush.{wanted}
use leotp.Session.{LeotpSess}
use leotp.Session.Operations.{sess_request}
use leotp.App.{req_len, request_round, request_func}

wanted-append : (q r : List ByteRange) → wanted (q ++ r) ≡ wanted q ++ wanted r
wanted-append [] r = refl
wanted-append (x ∷ q) r =
    ap (◌++◌ (span x.start_byte (x.end_byte - x.start_byte))) (wanted-append q r)
    ∙ sym (append_assoc (span x.start_byte (x.end_byte - x.start_byte)) (wanted q) (wanted r))

module _ {F : Type 0} where
  -- The interests up to `r.0` have been asked for, behind those that wait.
  abbrev pub AskedUpTo : ℕ → ℕ → LeotpSess F → ℕ × LeotpSess F → Type 0
  AskedUpTo start limit cb r =
      (start ≤ r.0)
      × (r.0 ≤ limit)
      × (wanted r.1.int_queue ≡ wanted cb.int_queue ++ span start (r.0 - start))

  none_asked :
      (start : ℕ) (cb : LeotpSess F)
      → wanted cb.int_queue ≡ wanted cb.int_queue ++ span start (start - start)
  none_asked start cb =
      let empty : 0 ≡ start - start = omega arith in
      sym (append-nil (wanted cb.int_queue)) ∙ ap (λ n. wanted cb.int_queue ++ span start n) empty

  request_round-AskedUpTo :
      (start : ℕ) (cb : LeotpSess F)
      → start + req_len < 2 ^ 32
      → AskedUpTo start (start + req_len) cb (request_round (start, cb))
  unfolding request_round sess_request request
  request_round-AskedUpTo start cb h =
      if_cases Fine (leb (add32 start req_len) start) (λ t. absurd (ground arith))
        (λ _.
          if_cases Fine (leb intb_max cb.int_buf_bytes) (λ _. (omega arith, omega arith, same))
            (λ _. (omega arith, omega arith, more)))
    where
      Fine : Requested (LeotpSess F) → Type 0
      Fine x = AskedUpTo start (start + req_len) cb (elim x [
        | accepted c ↦ (add32 start req_len, c)
        | buffer_full ↦ (start, cb)
        | bad_range ↦ (add32 start req_len, cb)
      ])

      same : wanted cb.int_queue ≡ wanted cb.int_queue ++ span start (start - start)
      same = none_asked start cb

      more :
          wanted (
            cb.int_queue
            ++ record { start_byte = start; end_byte = add32 start req_len; ts = 0 } ∷ [])
          ≡ wanted cb.int_queue ++ span start (add32 start req_len - start)
      more =
          wanted-append cb.int_queue _
          ∙ ap (◌++◌ (wanted cb.int_queue)) (append-nil (span start (add32 start req_len - start)))

  then-AskedUpTo :
      (start mid limit : ℕ) (cb c : LeotpSess F) (r : ℕ × LeotpSess F)
      → AskedUpTo start mid cb (mid, c)
      → AskedUpTo mid limit c r
      → AskedUpTo start limit cb r
  then-AskedUpTo start mid limit cb c r (h, _, e) (h', k', e') = (omega arith, k', joined)
    where
      joined : wanted r.1.int_queue ≡ wanted cb.int_queue ++ span start (r.0 - start)
      joined =
          e'
          ∙ ap (λ l. l ++ span mid (r.0 - mid)) e
          ∙ append_assoc (wanted cb.int_queue) (span start (mid - start)) (span mid (r.0 - mid))
          ∙ ap (◌++◌ (wanted cb.int_queue)) (
              sym (span-append start (mid - start) mid (r.0 - mid) (omega arith))
              ∙ ap (span start) (omega arith))

  -- Rounds of the client's loop, below 2^32: whatever rounds find the buffer of interests full, the
  -- interests that are put behind those of the queue ask for consecutive bytes from `start` on,
  -- none of them left out and none twice, up to the `sendStart` that is next.
  pub request_func-AskedUpTo :
      (rounds start : ℕ) (cb : LeotpSess F)
      → start + rounds * req_len < 2 ^ 32
      → AskedUpTo start (start + rounds * req_len) cb (request_func rounds (start, cb))
  unfolding request_func
  request_func-AskedUpTo zero start cb h = (omega arith, omega arith, none_asked start cb)
  request_func-AskedUpTo (suc rounds) start cb h =
      let (from, to, first) = request_round-AskedUpTo start cb (omega arith) in
      let s = request_round (start, cb) in
      let (from', to', rest) = request_func-AskedUpTo rounds s.0 s.1 (omega arith) in
      then-AskedUpTo start s.0 (start + suc rounds * req_len) cb s.1 (request_func rounds s)
        (from, omega arith, first) (from', omega arith, rest)
