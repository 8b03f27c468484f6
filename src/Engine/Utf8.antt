-- ===== src/Engine/Utf8.antt =====
-- ds4.c: UTF-8 in the tokenizer, and the GPT-2 alphabet in which it writes bytes. `>> k` is
-- `/ 2 ^ k`, `& (2 ^ k - 1)` is `% 2 ^ k`, and disjoint bits are joined by `+`.
pub mod RoundTrip
use go_ds.Common.{
  ℕ, zero, suc, ◌+◌, ◌*◌, ◌/◌, ◌%◌, ◌^◌, Bool, ◌||◌, Option, none, some, [], ◌∷◌, ◌++◌, Bytes,
  within, ltb, leb, ◌==◌, if◌then◌else◌,
}

-- the bytes that are written, for a code point below 2 ^ 21
unfoldable pub utf8_put : ℕ → Bytes
utf8_put cp =
    if leb cp 0x7f
    then cp ∷ []
    else if leb cp 0x7ff
    then (0xc0 + cp / 2 ^ 6) ∷ (0x80 + cp % 64) ∷ []
    else if leb cp 0xffff
    then (0xe0 + cp / 2 ^ 12) ∷ (0x80 + cp / 2 ^ 6 % 64) ∷ (0x80 + cp % 64) ∷ []
    else (0xf0 + cp / 2 ^ 18)
      ∷ (0x80 + cp / 2 ^ 12 % 64)
      ∷ (0x80 + cp / 2 ^ 6 % 64)
      ∷ (0x80 + cp % 64)
      ∷ []

-- `s` from `*pos` on, not empty; the result is the code point and the new position's rest
unfoldable pub utf8_decode_one : Bytes → ℕ × Bytes
utf8_decode_one [] = (0, [])
utf8_decode_one (c ∷ []) = (c, [])
utf8_decode_one (c ∷ d ∷ []) =
    if ltb c 0x80
    then (c, d ∷ [])
    else if c / 32 == 6
    then (c % 32 * 2 ^ 6 + d % 64, [])
    else (c, d ∷ [])
utf8_decode_one (c ∷ d ∷ e ∷ []) =
    if ltb c 0x80
    then (c, d ∷ e ∷ [])
    else if c / 32 == 6
    then (c % 32 * 2 ^ 6 + d % 64, e ∷ [])
    else if c / 16 == 14
    then (c % 16 * 2 ^ 12 + d % 64 * 2 ^ 6 + e % 64, [])
    else (c, d ∷ e ∷ [])
utf8_decode_one (c ∷ d ∷ e ∷ f ∷ s) =
    if ltb c 0x80
    then (c, d ∷ e ∷ f ∷ s)
    else if c / 32 == 6
    then (c % 32 * 2 ^ 6 + d % 64, e ∷ f ∷ s)
    else if c / 16 == 14
    then (c % 16 * 2 ^ 12 + d % 64 * 2 ^ 6 + e % 64, f ∷ s)
    else if c / 8 == 30
    then (c % 8 * 2 ^ 18 + d % 64 * 2 ^ 12 + e % 64 * 2 ^ 6 + f % 64, s)
    else (c, d ∷ e ∷ f ∷ s)

unfoldable pub utf8_len_from_first_byte : ℕ → ℕ
utf8_len_from_first_byte c =
    if ltb c 0x80
    then 1
    else if c / 32 == 6
    then 2
    else if c / 16 == 14
    then 3
    else if c / 8 == 30
    then 4
    else 1

-- the bytes that stand for themselves, `b` a byte
abbrev pub is_printable : ℕ → Bool
is_printable b = within 33 126 b || within 161 172 b || leb 174 b

-- the loop of `gpt2_byte_to_codepoint` from `x` on, with `k` rounds left
unfoldable pub byte_to_codepoint_from : ℕ → ℕ → ℕ → ℕ → ℕ
byte_to_codepoint_from zero x n b = b
byte_to_codepoint_from (suc k) x n b =
    let skip = byte_to_codepoint_from k (x + 1) n b in
    let next = byte_to_codepoint_from k (x + 1) (n + 1) b in
    if is_printable x then skip else if x == b then 256 + n else next

unfoldable pub gpt2_byte_to_codepoint : ℕ → ℕ
gpt2_byte_to_codepoint b = if is_printable b then b else byte_to_codepoint_from 256 0 0 b

-- the loop of `gpt2_codepoint_to_byte` from `b` on, with `k` rounds left; `none` is -1
unfoldable pub codepoint_to_byte_from : ℕ → ℕ → ℕ → ℕ → Option ℕ
codepoint_to_byte_from zero b n cp = none
codepoint_to_byte_from (suc k) b n cp =
    let skip = codepoint_to_byte_from k (b + 1) n cp in
    let next = codepoint_to_byte_from k (b + 1) (n + 1) cp in
    if is_printable b then skip else if cp == 256 + n then some b else next

unfoldable pub gpt2_codepoint_to_byte : ℕ → Option ℕ
gpt2_codepoint_to_byte cp =
    if within 33 126 cp || within 161 172 cp || within 174 255 cp
    then some cp
    else codepoint_to_byte_from 256 0 0 cp

unfoldable pub byte_encode : Bytes → Bytes
byte_encode [] = []
byte_encode (b ∷ s) = utf8_put (gpt2_byte_to_codepoint b) ++ byte_encode s

-- `if (b >= 0) out[n++] = (char)b`, before what the loop puts next
abbrev pub push_byte : Option ℕ → Bytes → Bytes
push_byte none more = more
push_byte (some b) more = b ∷ more

-- the loop of `ds4_token_text`: a round reads at least one byte
unfoldable pub decode_bytes : ℕ → Bytes → Bytes
decode_bytes zero s = []
decode_bytes (suc n) [] = []
decode_bytes (suc n) (c ∷ s) =
    let read = utf8_decode_one (c ∷ s) in
    push_byte (gpt2_codepoint_to_byte read.0) (decode_bytes n read.1)
