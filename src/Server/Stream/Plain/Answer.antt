-- ===== src/Server/Stream/Plain/Answer.antt =====
-- The plain stream sends the text up to the first stop string, however the tokens cut it.
use go_ds.Common.{
  ℕ, zero, suc, ◌≤◌, ◌≡◌, refl, ap, ◌∙◌, true, false, some, List, [], ◌∷◌, ◌++◌, Bytes, length,
  take, if◌then◌else◌, arith, Option-cases, inl, inr, length-append, All, All-append, ◌≢◌,
  take-length, length-take, max, min,
}
use go_ds.Server.Stream.Stops.{StopList, stop_list_find_from}
use go_ds.Server.Stream.Stops.Safe.{
  IsValid, NoNul, stop_list_find_from-append, stop_list_find_from-empty,
  stop_list_stream_safe_len_safe,
}
use go_ds.Server.Stream.Plain.{
  PlainStream, stream_start, send_up_to, stream_limit, decode_piece, decode, flush_tail, answer,
}
use go_ds.Server.Stream.Plain.Sent.{
  take-nil, send_up_to-sent, stream_safe_len_le, stream_limit-min, decode_piece-some,
  Running-decode_piece, Running, sent_up_to,
}

flush_tail-Running :
    (stops : StopList) (st : PlainStream) → Running stops st → (flush_tail st).sent ≡ st.text
unfolding flush_tail
flush_tail-Running stops st r =
    let all : max st.plain_stream_pos (length st.text) ≡ length st.text =
      omega (arith, r.held_back, stream_safe_len_le stops (length st.text)) in
    rw (send_up_to-sent (length st.text) st r.clean r.sent_prefix, all)
      (take-length (length st.text) st.text (omega arith))

flush_tail-done : (st : PlainStream) → length st.text ≤ st.plain_stream_pos → flush_tail st ≡ st
unfolding flush_tail send_up_to
flush_tail-done st h = ground arith

take-min : (n m : ℕ) (t : Bytes) → m ≡ min n (length t) → take m t ≡ take n t
take-min zero m t h = let none_left : m ≡ 0 = omega arith in ap (λ x. take x t) none_left
take-min (suc n) m [] h = take-nil m
take-min (suc n) zero (c ∷ t) h = absurd (omega arith)
take-min (suc n) (suc m) (c ∷ t) h = ap (◌∷◌ c) (take-min n m t (omega arith))

-- where a stop string was found, everything in front of it has been sent
decode_piece-sent :
    (stops : StopList) (st : PlainStream) (piece : Bytes) (pos len : ℕ)
    → IsValid stops
    → Running stops st
    → NoNul (st.text ++ piece)
    → stop_list_find_from stops (st.text ++ piece) st.stop_scan_from ≡ some (pos, len)
    → stop_list_find_from stops (st.text ++ piece) 0 ≡ some (pos, len)
    → ((flush_tail (decode_piece stops piece st)).sent ≡ take pos (st.text ++ piece))
      × ((decode_piece stops piece st).stop_decode ≡ true)
decode_piece-sent stops st piece pos len valid r clean found hit =
    let text : Bytes = st.text ++ piece in
    let safe = stop_list_stream_safe_len_safe stops st.text piece pos len valid r.no_stop hit in
    let longer = length-append st.text piece in
    let limit : stream_limit pos (length text) ≡ min pos (length text) =
      stream_limit-min pos (length text) in
    let n : max st.plain_stream_pos (stream_limit pos (length text)) ≡ min pos (length text) =
      omega (arith, r.held_back, stream_safe_len_le stops (length st.text)) in
    let short : length (take pos text) ≡ min pos (length text) = length-take pos text in
    rw
      (
        decode_piece-some stops st piece pos len r clean found,
        n,
        flush_tail-done
            (record (sent_up_to (min pos (length text)) text st.stop_scan_from true) {
              text = take pos text;
            })
            (omega arith),
      )
      (take-min pos (min pos (length text)) text refl, refl)

Running-stream_start : (stops : StopList) → IsValid stops → Running stops stream_start
Running-stream_start stops valid = record {
  sent_prefix = refl;
  held_back = omega arith;
  no_stop = stop_list_find_from-empty stops valid;
  scan_ok = inl refl;
  not_done = refl;
  clean = tt;
}

decode-goes_on :
    (stops : StopList) (piece : Bytes) (more : List Bytes) (st : PlainStream)
    → (decode_piece stops piece st).stop_decode ≡ false
    → decode stops (piece ∷ more) st ≡ decode stops more (decode_piece stops piece st)
unfolding decode
decode-goes_on stops piece more st h =
    let next = decode_piece stops piece st in ap (λ b. if b then next else decode stops more next) h

decode-stops :
    (stops : StopList) (piece : Bytes) (more : List Bytes) (st : PlainStream)
    → (decode_piece stops piece st).stop_decode ≡ true
    → decode stops (piece ∷ more) st ≡ decode_piece stops piece st
unfolding decode
decode-stops stops piece more st h =
    let next = decode_piece stops piece st in ap (λ b. if b then next else decode stops more next) h

decode-answer :
    (stops : StopList) (pieces : List Bytes) (st : PlainStream)
    → IsValid stops
    → Running stops st
    → All NoNul pieces
    → (flush_tail (decode stops pieces st)).sent ≡ answer stops pieces st.text
unfolding decode answer
decode-answer stops [] st valid r all_clean = flush_tail-Running stops st r
decode-answer stops (piece ∷ more) st valid r all_clean =
    let clean : NoNul (st.text ++ piece) =
      All-append (λ c. c ≢ 0) st.text piece r.clean all_clean.0 in
    let scan =
      stop_list_find_from-append stops st.text piece st.stop_scan_from valid clean r.no_stop
        r.scan_ok in
    elim (Option-cases (stop_list_find_from stops (st.text ++ piece) 0)) [
      | inl f ↦
          let next = Running-decode_piece stops st piece r clean (scan ∙ f) f in
          rw (
            decode-goes_on stops piece more st next.0.not_done,
            f,
            answer,
            decode-answer stops more (decode_piece stops piece st) valid next.0 all_clean.1,
            next.1,
          )
      | inr ((pos, len), f) ↦
          let done = decode_piece-sent stops st piece pos len valid r clean (scan ∙ f) f in
          rw (decode-stops stops piece more st done.1, f, answer) done.0
    ]

-- With a valid list of stop strings, pieces without a NUL, streamed from the start and flushed, bring
-- the client the text up to the stop string that a search of the whole text finds after the first
-- piece with which there is one, and the whole text if there is none.
pub decode-sends_answer :
    (stops : StopList) (pieces : List Bytes)
    → IsValid stops
    → All NoNul pieces
    → (flush_tail (decode stops pieces stream_start)).sent ≡ answer stops pieces []
decode-sends_answer stops pieces valid clean =
    decode-answer stops pieces stream_start valid (Running-stream_start stops valid) clean
