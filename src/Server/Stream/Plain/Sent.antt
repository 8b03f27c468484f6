-- ===== src/Server/Stream/Plain/Sent.antt =====
-- A step of the plain stream: what it sends of the text so far.
use go_ds.Common.{
  ℕ, zero, suc, ◌+◌, ◌-◌, ◌≤◌, ◌≡◌, refl, sym, ap, ◌∙◌, Bool, true, false, none, some, [], ◌∷◌,
  ◌++◌, Bytes, length, take, drop, ltb, arith, Bool-cases, inl, inr, length-append, max, min,
}
use go_ds.Server.Stream.Stops.{StopList, c_string, stop_list_find_from, stop_list_stream_safe_len}
use go_ds.Server.Stream.Stops.Safe.{NoNul, NoNul-drop, c_string-NoNul, ScanFrom}
use go_ds.Server.Stream.Utf8Hold.{utf8_stream_safe_len, utf8_stream_safe_len_le}
use go_ds.Server.Stream.Plain.{PlainStream, send_up_to, next_scan_from, stream_limit, decode_piece}

pub take-nil : (k : ℕ) → take {A = ℕ} k [] ≡ []
take-nil zero = refl
take-nil (suc k) = refl

pub take_further : (n k m : ℕ) (t : Bytes) → m ≡ n + k → take n t ++ take k (drop n t) ≡ take m t
take_further zero k m t h = ap (λ x. take x t) (omega arith)
take_further (suc n) k zero t h = absurd (omega arith)
take_further (suc n) k (suc m) [] h = take-nil k
take_further (suc n) k (suc m) (c ∷ t) h = ap (◌∷◌ c) (take_further n k m t (omega arith))

take-append_left : (n : ℕ) (t more : Bytes) → n ≤ length t → take n (t ++ more) ≡ take n t
take-append_left zero t more h = refl
take-append_left (suc n) [] more h = absurd (omega arith)
take-append_left (suc n) (c ∷ t) more h = ap (◌∷◌ c) (take-append_left n t more (omega arith))

NoNul-take : (k : ℕ) (s : Bytes) → NoNul s → NoNul (take k s)
NoNul-take zero s h = tt
NoNul-take (suc k) [] h = tt
NoNul-take (suc k) (c ∷ s) h = (h.0, NoNul-take k s h.1)

-- Sending extends what was sent of the text.
pub send_up_to-sent :
    (n : ℕ) (st : PlainStream)
    → NoNul st.text
    → st.sent ≡ take st.plain_stream_pos st.text
    → send_up_to n st ≡ record st {
      sent = take (max st.plain_stream_pos n) st.text;
      plain_stream_pos = max st.plain_stream_pos n;
    }
unfolding send_up_to
send_up_to-sent n st clean h = elim (Bool-cases (ltb st.plain_stream_pos n)) [
  | inl e ↦
      let m : n ≡ max st.plain_stream_pos n = ground arith in
      let part = take (n - st.plain_stream_pos) (drop st.plain_stream_pos st.text) in
      let whole : c_string part ≡ part = c_string-NoNul part (
        NoNul-take (n - st.plain_stream_pos) (drop st.plain_stream_pos st.text)
          (NoNul-drop st.plain_stream_pos st.text clean)) in
      let longer : st.sent ++ c_string part ≡ take (max st.plain_stream_pos n) st.text =
        rw (h, whole)
          (take_further st.plain_stream_pos (n - st.plain_stream_pos) (max st.plain_stream_pos n)
            st.text (ground arith)) in
      rw e (λ i. record st { sent = longer i; plain_stream_pos = m i })
  | inr e ↦
      let m : st.plain_stream_pos ≡ max st.plain_stream_pos n = ground arith in
      let same : st.sent ≡ take (max st.plain_stream_pos n) st.text =
        h ∙ ap (λ x. take x st.text) m in
      rw e (λ i. record st { sent = same i; plain_stream_pos = m i })
]

pub stream_safe_len_le : (stops : StopList) (n : ℕ) → stop_list_stream_safe_len stops n ≤ n
unfolding stop_list_stream_safe_len
stream_safe_len_le stops n = ground arith

stream_limit_le : (n len : ℕ) → stream_limit n len ≤ n
unfolding stream_limit
stream_limit_le n len = ground arith

pub stream_limit-min : (n len : ℕ) → stream_limit n len ≡ min n len
unfolding stream_limit
stream_limit-min n len = ground arith

utf8_stream_safe_len-final :
    (s : Bytes) (start limit : ℕ) → utf8_stream_safe_len s start limit true ≡ limit
unfolding utf8_stream_safe_len
utf8_stream_safe_len-final s start limit = refl

-- between two tokens of a stream that goes on
pub record Running (stops : StopList) (st : PlainStream) : Type 0 where
  pub sent_prefix : st.sent ≡ take st.plain_stream_pos st.text
  pub held_back : st.plain_stream_pos ≤ stop_list_stream_safe_len stops (length st.text)
  pub no_stop : stop_list_find_from stops st.text 0 ≡ none
  pub scan_ok : ScanFrom stops (length st.text) st.stop_scan_from
  pub not_done : st.stop_decode ≡ false
  pub clean : NoNul st.text

-- The state behind a text of which `n` bytes are sent.
abbrev pub sent_up_to : ℕ → Bytes → ℕ → Bool → PlainStream
sent_up_to n text scan done = record {
  text = text;
  plain_stream_pos = n;
  stop_scan_from = scan;
  sent = take n text;
  stop_decode = done;
}

sent_prefix-append :
    (stops : StopList) (st : PlainStream) (piece : Bytes)
    → Running stops st
    → st.sent ≡ take st.plain_stream_pos (st.text ++ piece)
sent_prefix-append stops st piece r =
    r.sent_prefix
    ∙ sym (
        take-append_left st.plain_stream_pos st.text piece
          (omega (arith, r.held_back, stream_safe_len_le stops (length st.text))))

pub decode_piece-none :
    (stops : StopList) (st : PlainStream) (piece : Bytes)
    → Running stops st
    → NoNul (st.text ++ piece)
    → stop_list_find_from stops (st.text ++ piece) st.stop_scan_from ≡ none
    → (n : ℕ) × (n
        ≤ max st.plain_stream_pos (stop_list_stream_safe_len stops (length (st.text ++ piece))))
      × (decode_piece stops piece st
          ≡ sent_up_to n
              (st.text ++ piece)
              (next_scan_from stops (length (st.text ++ piece)) st.stop_scan_from)
              false)
unfolding decode_piece
decode_piece-none stops st piece r clean absent =
    let text : Bytes = st.text ++ piece in
    let safe = stop_list_stream_safe_len stops (length text) in
    let n = utf8_stream_safe_len text st.plain_stream_pos (stream_limit safe (length text)) false in
    let next : PlainStream = record st {
      text = text;
      stop_scan_from = next_scan_from stops (length text) st.stop_scan_from;
    } in
    let small : stream_limit safe (length text) ≤ safe = stream_limit_le safe (length text) in
    let below : n ≤ stream_limit safe (length text) =
      utf8_stream_safe_len_le text st.plain_stream_pos (stream_limit safe (length text)) false in
    let sends = send_up_to-sent n next clean (sent_prefix-append stops st piece r) in
    (max st.plain_stream_pos n, omega arith, rw (absent, decode_piece, sends, r.not_done))

pub decode_piece-some :
    (stops : StopList) (st : PlainStream) (piece : Bytes) (pos len : ℕ)
    → Running stops st
    → NoNul (st.text ++ piece)
    → stop_list_find_from stops (st.text ++ piece) st.stop_scan_from ≡ some (pos, len)
    → decode_piece stops piece st
      ≡ record (sent_up_to
          (max st.plain_stream_pos (stream_limit pos (length (st.text ++ piece))))
          (st.text ++ piece)
          st.stop_scan_from
          true) { text = take pos (st.text ++ piece) }
unfolding decode_piece
decode_piece-some stops st piece pos len r clean found =
    let text : Bytes = st.text ++ piece in
    let next : PlainStream = record st { text = text } in
    let whole : utf8_stream_safe_len text st.plain_stream_pos (stream_limit pos (length text)) true
        ≡ stream_limit pos (length text) =
      utf8_stream_safe_len-final text st.plain_stream_pos (stream_limit pos (length text)) in
    let sends =
      send_up_to-sent (stream_limit pos (length text)) next clean
        (sent_prefix-append stops st piece r) in
    rw (found, decode_piece, whole, sends)

stream_safe_len_mono :
    (stops : StopList) (m n : ℕ)
    → m ≤ n
    → stop_list_stream_safe_len stops m ≤ stop_list_stream_safe_len stops n
unfolding stop_list_stream_safe_len
stream_safe_len_mono stops m n h = ground arith

next_scan_from-ScanFrom :
    (stops : StopList) (m n old : ℕ)
    → m ≤ n
    → ScanFrom stops m old
    → ScanFrom stops n (next_scan_from stops n old)
unfolding next_scan_from
next_scan_from-ScanFrom stops m n old h ok = ground arith

pub Running-decode_piece :
    (stops : StopList) (st : PlainStream) (piece : Bytes)
    → Running stops st
    → NoNul (st.text ++ piece)
    → stop_list_find_from stops (st.text ++ piece) st.stop_scan_from ≡ none
    → stop_list_find_from stops (st.text ++ piece) 0 ≡ none
    → Running stops (decode_piece stops piece st)
      × ((decode_piece stops piece st).text ≡ st.text ++ piece)
Running-decode_piece stops st piece r clean absent no_hit =
    let step = decode_piece-none stops st piece r clean absent in
    let longer : length st.text ≤ length (st.text ++ piece) =
      omega (arith, length-append st.text piece) in
    let mono = stream_safe_len_mono stops (length st.text) (length (st.text ++ piece)) longer in
    rw step.2 (
      record {
        sent_prefix = refl;
        held_back = omega (arith, r.held_back);
        no_stop = no_hit;
        scan_ok =
            next_scan_from-ScanFrom stops (length st.text) (length (st.text ++ piece))
              st.stop_scan_from longer r.scan_ok;
        not_done = refl;
        clean = clean;
      },
      refl,
    )
