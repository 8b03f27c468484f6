-- ===== src/Server/Stream/Utf8Hold/Held.antt =====
-- What is kept back at the end of a text that ends in a lead byte and its continuation bytes.
use go_ds.Common.{
  ℕ, zero, suc, ◌+◌, ◌-◌, ◌≤◌, ◌<◌, ◌≡◌, refl, ap, ◌∙◌, true, false, Bytes, byte_at, ltb, leb, ◌==◌,
  if◌then◌else◌, arith, Bool-cases, inl, inr, All, length, ◌++◌, [], ◌∷◌, length-append,
}
use go_ds.Server.Stream.Utf8Hold.{
  utf8_expected_len, is_continuation, before_continuations, hold_back, utf8_stream_safe_len,
}

abbrev Continuation : ℕ → Type 0
Continuation c = is_continuation c ≡ true

byte_at-append : (p q : Bytes) (i k : ℕ) → i ≡ length p + k → byte_at (p ++ q) i ≡ byte_at q k
byte_at-append [] q i k h = let e : i ≡ k = omega arith in ap (byte_at q) e
byte_at-append (c ∷ p) q zero k h = absurd (omega arith)
byte_at-append (c ∷ p) q (suc i) k h = byte_at-append p q i k (omega arith)

Continuation-byte_at :
    (conts : Bytes) (k : ℕ)
    → All Continuation conts
    → k < length conts
    → Continuation (byte_at conts k)
Continuation-byte_at [] k a h = absurd (omega arith)
Continuation-byte_at (c ∷ conts) zero a h = a.0
Continuation-byte_at (c ∷ conts) (suc k) a h = Continuation-byte_at conts k a.1 (omega arith)

back_step :
    (n : ℕ) (s : Bytes) (start p q : ℕ)
    → p ≡ q + 1
    → start < p
    → Continuation (byte_at s q)
    → before_continuations (suc n) s start p ≡ before_continuations n s start q
unfolding before_continuations
back_step n s start p q e h c = let before : p - 1 ≡ q = omega arith in rw before (ground arith)

back_stop :
    (n : ℕ) (s : Bytes) (start p q : ℕ)
    → p ≡ q + 1
    → is_continuation (byte_at s q) ≡ false
    → before_continuations (suc n) s start p ≡ p
unfolding before_continuations
back_stop n s start p q e c = let before : p - 1 ≡ q = omega arith in rw before (ground arith)

hold_back_lem :
    (s : Bytes) (start limit m : ℕ)
    → start ≤ m
    → m < limit
    → hold_back s start limit (m + 1)
      ≡ (if ltb (limit - m) (utf8_expected_len (byte_at s m)) then m else limit)
unfolding hold_back
hold_back_lem s start limit m h k =
    let before : m + 1 - 1 ≡ m = omega arith in
    elim (Bool-cases (m + 1 == limit)) [
      | inl e ↦
          let last : limit - 1 ≡ m = ground arith in
          let one : limit - m ≡ 1 = ground arith in rw (e, last, one)
      | inr e ↦ let not_start : (m + 1 == start) ≡ false = ground arith in rw (e, not_start, before)
    ]

module _ (p : Bytes) (lead : ℕ) (conts : Bytes) (start : ℕ) where
  abbrev text : Bytes
  text = p ++ (lead ∷ conts)

  back-conts :
      (n k at : ℕ)
      → All Continuation conts
      → is_continuation lead ≡ false
      → start ≤ length p
      → k < n
      → k ≤ length conts
      → at ≡ length p + (k + 1)
      → before_continuations n text start at ≡ length p + 1
  back-conts zero k at a l h fuel fits e = absurd (omega arith)
  back-conts (suc n) zero at a l h fuel fits e =
      let byte = byte_at-append p (lead ∷ conts) (length p) 0 (omega arith) in
      back_stop n text start at (length p) (omega arith) (rw byte l) ∙ omega arith
  back-conts (suc n) (suc k) at a l h fuel fits e =
      let byte = byte_at-append p (lead ∷ conts) (length p + (k + 1)) (suc k) (omega arith) in
      back_step n text start at (length p + (k + 1)) (omega arith) (omega arith)
        (rw byte (Continuation-byte_at conts k a (omega arith)))
      ∙ back-conts n k (length p + (k + 1)) a l h (omega arith) (omega arith) refl

  -- A lead byte with at most three continuation bytes behind it, at the end of a text, is kept
  -- back if the lead byte asks for more bytes, and let through if it does not.
  pub utf8_stream_safe_len-end :
      All Continuation conts
      → is_continuation lead ≡ false
      → start ≤ length p
      → length conts ≤ 3
      → utf8_stream_safe_len text start (length text) false
        ≡ (if ltb (1 + length conts) (utf8_expected_len lead) then length p else length text)
  unfolding utf8_stream_safe_len
  utf8_stream_safe_len-end a l h few =
      let len = length-append p (lead ∷ conts) in
      let back =
        back-conts 4 (length conts) (length text) a l h (omega arith) (omega arith) (omega arith) in
      let byte = byte_at-append p (lead ∷ conts) (length p) 0 (omega arith) in
      let more : leb (length text) start ≡ false = ground arith in
      let ask : length text - length p ≡ 1 + length conts = omega arith in
      rw (more, back, hold_back_lem text start (length text) (length p) h (omega arith), byte, ask)
