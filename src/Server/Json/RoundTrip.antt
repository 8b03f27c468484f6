-- ===== src/Server/Json/RoundTrip.antt =====
-- `json_string` reads back what `json_escape` wrote.
use go_ds.Common.{
  ℕ, zero, suc, ◌/◌, ◌%◌, ◌≤◌, ◌<◌, ◌≡◌, ◌≢◌, refl, ap, ◌∙◌, inl, inr, some, [], ◌∷◌, ◌++◌, Bytes,
  All, length, arith, append_assoc, append-nil, ◌==◌, if◌then◌else◌, ◌⊎◌, length-append,
}
use go_ds.Server.Json.Text.{
  ok, hex_digit, json_hex, json_u16, json_unescape, json_chars, json_string, escape_byte,
  json_escape_fragment, json_escape, json_ws,
}

abbrev NonZero : Bytes → Type 0
NonZero = All (λ c. c ≢ 0)

pub json_hex-hex_digit : (d : ℕ) → d < 16 → json_hex (hex_digit d) ≡ some d
unfolding json_hex hex_digit
json_hex-hex_digit d h = ground arith

abbrev control_escape : ℕ → Bytes → Bytes
control_escape c p = b'\\' ∷ b'u' ∷ b'0' ∷ b'0' ∷ hex_digit (c / 16) ∷ hex_digit (c % 16) ∷ p

json_u16_byte : (c : ℕ) (p : Bytes) → c < 32 → json_u16 (control_escape c p) ≡ some (c, p)
unfolding json_u16
json_u16_byte c p h = ground (arith, json_hex-hex_digit (c / 16), json_hex-hex_digit (c % 16))

json_unescape_control :
    (c : ℕ) (p : Bytes) → c < 32 → json_unescape (control_escape c p) ≡ some (c ∷ [], p)
unfolding json_unescape
json_unescape_control c p h = ground (arith, json_u16_byte c p h)

json_chars_plain :
    (n : ℕ) (out p : Bytes) (c : ℕ)
    → c ≢ 0
    → c ≢ b'"'
    → c ≢ b'\\'
    → json_chars (suc n) out (c ∷ p) ≡ json_chars n (out ++ c ∷ []) p
unfolding json_chars
json_chars_plain n out p c h q b = ground arith

json_chars_escaped :
    (n : ℕ) (out p bytes q : Bytes)
    → json_unescape (b'\\' ∷ p) ≡ some (bytes, q)
    → json_chars (suc n) out (b'\\' ∷ p) ≡ json_chars n (out ++ bytes) q
unfolding json_chars
json_chars_escaped n out p bytes q h = ground arith

-- the byte behind the backslash in a short escape
abbrev short_key : ℕ → ℕ
short_key c = if c == 10 then b'n' else if c == 13 then b'r' else if c == 9 then b't' else c

abbrev HasShortEscape : ℕ → Type 0
HasShortEscape c = (c ≡ b'"') ⊎ (c ≡ b'\\') ⊎ (c ≡ 10) ⊎ (c ≡ 13) ⊎ (c ≡ 9)

json_unescape_short :
    (c : ℕ) (p : Bytes)
    → HasShortEscape c
    → json_unescape (b'\\' ∷ short_key c ∷ p) ≡ some (c ∷ [], p)
unfolding json_unescape
json_unescape_short c p h = ground arith

escape_byte_cases :
    (c : ℕ)
    → ((escape_byte c ≡ c ∷ []) × (c ≢ b'"') × (c ≢ b'\\'))
      ⊎ ((escape_byte c ≡ control_escape c []) × (c < 32))
      ⊎ ((escape_byte c ≡ b'\\' ∷ short_key c ∷ []) × HasShortEscape c)
unfolding escape_byte
escape_byte_cases c = ground arith

json_chars-escape_byte :
    (n : ℕ) (out p : Bytes) (c : ℕ)
    → c ≢ 0
    → json_chars (suc n) out (escape_byte c ++ p) ≡ json_chars n (out ++ c ∷ []) p
json_chars-escape_byte n out p c h = elim (escape_byte_cases c) [
  | inl (e, q, b) ↦ rw e (json_chars_plain n out p c h q b)
  | inr (inl (e, low)) ↦ rw e (json_chars_escaped n out _ _ _ (json_unescape_control c p low))
  | inr (inr (e, short)) ↦ rw e (json_chars_escaped n out _ _ _ (json_unescape_short c p short))
]

json_chars-json_escape_fragment :
    (n : ℕ) (s out rest : Bytes)
    → NonZero s
    → length s < n
    → json_chars n out (json_escape_fragment s ++ b'"' ∷ rest) ≡ ok (out ++ s) rest
unfolding json_escape_fragment
json_chars-json_escape_fragment zero s out rest z h = elim h [ ]
json_chars-json_escape_fragment (suc n) [] out rest z h = rw append-nil (unfold json_chars in refl)
json_chars-json_escape_fragment (suc n) (c ∷ s) out rest z h = rw append_assoc (
    json_chars-escape_byte n out _ c z.0
    ∙ json_chars-json_escape_fragment n s (out ++ c ∷ []) rest z.1 (omega arith)
    ∙ ap (λ t. ok t rest) (append_assoc out (c ∷ []) s))

length-escape_byte : (c : ℕ) → 1 ≤ length (escape_byte c)
unfolding escape_byte
length-escape_byte c = ground arith

length-json_escape_fragment : (s : Bytes) → length s ≤ length (json_escape_fragment s)
unfolding json_escape_fragment
length-json_escape_fragment [] = omega arith
length-json_escape_fragment (c ∷ s) = omega (
  arith,
  length-json_escape_fragment s,
  length-escape_byte c,
  length-append (escape_byte c) (json_escape_fragment s),
)

-- A C string written by `json_escape` is read back by `json_string`, whatever follows it.
pub json_string-json_escape :
    (s rest : Bytes) → NonZero s → json_string (json_escape s ++ rest) ≡ ok s rest
unfolding json_string json_escape json_ws
json_string-json_escape s rest z = rw append_assoc (
    json_chars-json_escape_fragment _ s [] rest z (
      omega (
        arith,
        length-append (json_escape_fragment s) (b'"' ∷ rest),
        length-json_escape_fragment s,
      )))
