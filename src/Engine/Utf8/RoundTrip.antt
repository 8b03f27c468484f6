-- ===== src/Engine/Utf8/RoundTrip.antt =====
-- Code points through UTF-8, bytes through the GPT-2 alphabet, and both together.
use go_ds.Common.{
  ℕ, zero, suc, ◌^◌, ◌≤◌, ◌<◌, ◌≡◌, refl, Bool, true, false, ◌&&◌, none, some, [], ◌∷◌, ◌++◌, Bytes,
  length, ltb, ◌==◌, arith, All, ◌≢◌, ap, ◌∙◌,
}
use go_ds.Engine.Utf8.{
  utf8_put, utf8_decode_one, gpt2_byte_to_codepoint, gpt2_codepoint_to_byte, byte_encode,
  decode_bytes, byte_to_codepoint_from, codepoint_to_byte_from,
}

-- A code point that was written is read back, whatever follows it.
pub utf8_decode_one-utf8_put :
    (cp : ℕ) (rest : Bytes) → cp < 2 ^ 21 → utf8_decode_one (utf8_put cp ++ rest) ≡ (cp, rest)
unfolding utf8_decode_one utf8_put
utf8_decode_one-utf8_put cp [] h = ground arith
utf8_decode_one-utf8_put cp (a ∷ []) h = ground arith
utf8_decode_one-utf8_put cp (a ∷ b ∷ []) h = ground arith
utf8_decode_one-utf8_put cp (a ∷ b ∷ c ∷ rest) h = ground arith

abbrev byte_ok : ℕ → Bool
byte_ok b =
    ltb (gpt2_byte_to_codepoint b) 0x7ff
    && (elim (gpt2_codepoint_to_byte (gpt2_byte_to_codepoint b)) [ none ↦ false | some c ↦ c == b ])

unfoldable pub all_below : ℕ → (ℕ → Bool) → Bool
all_below zero p = true
all_below (suc n) p = p n && all_below n p

pub all_below_sound : (n : ℕ) (p : ℕ → Bool) (x : ℕ) → all_below n p ≡ true → x < n → p x ≡ true
unfolding all_below
all_below_sound zero p x h lt = elim lt [ ]
all_below_sound (suc n) p x h lt = ground (arith, all_below_sound n p x)

byte_table : all_below 256 byte_ok ≡ true
unfolding all_below gpt2_byte_to_codepoint gpt2_codepoint_to_byte byte_to_codepoint_from
    codepoint_to_byte_from
byte_table = refl

pub codepoint_of_byte :
    (b : ℕ)
    → b < 256
    → (gpt2_byte_to_codepoint b < 0x7ff)
      × (gpt2_codepoint_to_byte (gpt2_byte_to_codepoint b) ≡ some b)
codepoint_of_byte b h = ground (arith, all_below_sound 256 byte_ok b byte_table h)

-- One round of the loop, at a byte that was encoded.
decode_bytes_step :
    (n b : ℕ) (s rest : Bytes)
    → s ≢ []
    → utf8_decode_one s ≡ (gpt2_byte_to_codepoint b, rest)
    → b < 256
    → decode_bytes (suc n) s ≡ b ∷ decode_bytes n rest
unfolding decode_bytes
decode_bytes_step n b [] rest ne e h = absurd (ne refl)
decode_bytes_step n b (c ∷ s) rest ne e h = rw (e, (codepoint_of_byte b h).1)

utf8_put-ne-nil : (cp : ℕ) (rest : Bytes) → utf8_put cp ++ rest ≢ []
unfolding utf8_put
utf8_put-ne-nil cp rest e = ground arith

-- Decoding a byte string that was encoded gives it back.
pub decode_bytes-byte_encode :
    (n : ℕ) (s : Bytes) → All (λ b. b < 256) s → length s ≤ n → decode_bytes n (byte_encode s) ≡ s
unfolding byte_encode decode_bytes
decode_bytes-byte_encode zero [] h l = refl
decode_bytes-byte_encode (suc n) [] h l = refl
decode_bytes-byte_encode zero (b ∷ s) h l = absurd (omega arith)
decode_bytes-byte_encode (suc n) (b ∷ s) h l =
    let low = codepoint_of_byte b h.0 in
    decode_bytes_step n b _ (byte_encode s) (utf8_put-ne-nil _ _)
      (utf8_decode_one-utf8_put (gpt2_byte_to_codepoint b) (byte_encode s) (omega arith)) h.0
    ∙ ap (◌∷◌ b) (decode_bytes-byte_encode n s h.1 (omega arith))
