-- ===== src/Server/Json/Text.antt =====
-- ds4_server.c: `json_ws`, `json_lit`, `json_hex`, `utf8_put`, `json_u16` and `json_string`, and
-- the writer `json_escape`. Disjoint bits are joined by `+`, `>> k` is `/ 2 ^ k` and
-- `& (2 ^ k - 1)` is `% 2 ^ k`.
use go_ds.Common.{
  ℕ, zero, suc, ◌+◌, ◌-◌, ◌*◌, ◌/◌, ◌%◌, ◌^◌, Bool, ◌&&◌, ◌||◌, Option, none, some, [], ◌∷◌, ◌++◌,
  Bytes, length, peek, advance, skip_while, is_space, within, ltb, leb, ◌==◌, if◌then◌else◌,
}

-- What a reader does: `fail` is its result `false`, and `starved` is a loop that had no fuel left.
pub data Parse {ℓ} (A : Type ℓ) : Type ℓ where
  ok : A → Bytes → Parse A
  fail starved : Parse A

infixl 5 ◌>>=◌
abbrev pub ◌>>=◌ {ℓ κ} : {A : Type ℓ} {B : Type κ} → Parse A → (A → Bytes → Parse B) → Parse B
ok a p >>= f = f a p
fail >>= f = fail
starved >>= f = starved

unfoldable pub json_ws : Bytes → Bytes
unfolding skip_while
json_ws = skip_while is_space

-- `none` is the result -1
unfoldable pub json_hex : ℕ → Option ℕ
json_hex c =
    if within b'0' b'9' c
    then some (c - b'0')
    else if within b'a' b'f' c
    then some (10 + c - b'a')
    else if within b'A' b'F' c
    then some (10 + c - b'A')
    else none

-- the bytes that are put, for a code point below 2 ^ 21
unfoldable pub utf8_put : ℕ → Bytes
utf8_put cp =
    if leb cp 0x7f
    then cp ∷ []
    else if leb cp 0x7ff
    then (0xc0 + cp / 2 ^ 6) ∷ (0x80 + cp % 64) ∷ []
    else if leb cp 0xffff
    then (0xe0 + cp / 2 ^ 12) ∷ (0x80 + cp / 2 ^ 6 % 64) ∷ (0x80 + cp % 64) ∷ []
    else (0xf0 + cp / 2 ^ 18)
      ∷ (0x80 + cp / 2 ^ 12 % 64)
      ∷ (0x80 + cp / 2 ^ 6 % 64)
      ∷ (0x80 + cp % 64)
      ∷ []

-- the loop of `json_u16`, with `n` digits left
unfoldable pub hex_digits : ℕ → ℕ → Bytes → Option (ℕ × Bytes)
unfolding json_hex
hex_digits zero cp p = some (cp, p)
hex_digits (suc n) cp p = elim (json_hex (peek p)) [
  | none ↦ none
  | some h ↦ hex_digits n (cp * 2 ^ 4 + h) (advance p)
]

unfoldable pub json_u16 : Bytes → Option (ℕ × Bytes)
unfolding hex_digits
json_u16 (b ∷ u ∷ p) = if b == b'\\' && u == b'u' then hex_digits 4 0 p else none
json_u16 _ = none

abbrev pub is_high_surrogate : ℕ → Bool
is_high_surrogate = within 0xd800 0xdbff

abbrev pub is_low_surrogate : ℕ → Bool
is_low_surrogate = within 0xdc00 0xdfff

-- after the first escape has given `cp`: the pair, or `cp` itself
unfoldable pub surrogate_pair : ℕ → Bytes → ℕ × Bytes
unfolding json_u16
surrogate_pair cp p =
    if is_high_surrogate cp
    then elim (json_u16 p) [
      | none ↦ (cp, p)
      | some (lo, q) ↦
          if is_low_surrogate lo
          then (0x10000 + (cp - 0xd800) * 2 ^ 10 + (lo - 0xdc00), q)
          else (cp, q)
    ]
    else (cp, p)

-- the switch on the byte behind a backslash; `p` starts at the backslash
unfoldable pub json_unescape : Bytes → Option (Bytes × Bytes)
unfolding surrogate_pair utf8_put
json_unescape p =
    let c = peek (advance p) in
    let after = advance (advance p) in
    if c == b'"'
    then some (b'"' ∷ [], after)
    else if c == b'\\'
    then some (b'\\' ∷ [], after)
    else if c == b'/'
    then some (b'/' ∷ [], after)
    else if c == b'b'
    then some (8 ∷ [], after)
    else if c == b'f'
    then some (12 ∷ [], after)
    else if c == b'n'
    then some (10 ∷ [], after)
    else if c == b'r'
    then some (13 ∷ [], after)
    else if c == b't'
    then some (9 ∷ [], after)
    else if c == b'u'
    then elim (json_u16 p) [
      | none ↦ none
      | some (cp, q) ↦ let (cp', q') = surrogate_pair cp q in some (utf8_put cp', q')
    ]
    else none

-- the loop of `json_string` and what stands behind it
unfoldable pub json_chars : ℕ → Bytes → Bytes → Parse Bytes
json_chars zero out p = starved
json_chars (suc n) out p =
    let c = peek p in
    let plain = json_chars n (out ++ c ∷ []) (advance p) in
    let escaped : Parse Bytes = elim (json_unescape p) [
      | none ↦ fail
      | some (bytes, q) ↦ json_chars n (out ++ bytes) q
    ] in
    if c == 0
    then fail
    else if c == b'"'
    then ok out (advance p)
    else if c == b'\\'
    then escaped
    else plain

-- each round but the last reads a byte, so one round more than there are bytes is enough
unfoldable pub json_string : Bytes → Parse Bytes
json_string p =
    let q = json_ws p in if peek q == b'"' then json_chars (suc (length q)) [] (advance q) else fail

-- a digit as `%x` prints it
unfoldable pub hex_digit : ℕ → ℕ
hex_digit d = if ltb d 10 then b'0' + d else b'a' + (d - 10)

-- one round of `json_escape`; `%04x` of a byte below 32
unfoldable pub escape_byte : ℕ → Bytes
escape_byte c =
    if c == b'"' || c == b'\\'
    then b'\\' ∷ c ∷ []
    else if c == 10
    then b'\\' ∷ b'n' ∷ []
    else if c == 13
    then b'\\' ∷ b'r' ∷ []
    else if c == 9
    then b'\\' ∷ b't' ∷ []
    else if ltb c 0x20
    then b'\\' ∷ b'u' ∷ b'0' ∷ b'0' ∷ hex_digit (c / 16) ∷ hex_digit (c % 16) ∷ []
    else c ∷ []

-- `json_escape_fragment_n` over its `n` bytes
unfoldable pub json_escape_fragment : Bytes → Bytes
unfolding escape_byte
json_escape_fragment [] = []
json_escape_fragment (c ∷ s) = escape_byte c ++ json_escape_fragment s

-- `json_escape` of a C string, whose bytes are not 0
unfoldable pub json_escape : Bytes → Bytes
unfolding json_escape_fragment
json_escape s = b'"' ∷ (json_escape_fragment s ++ b'"' ∷ [])
