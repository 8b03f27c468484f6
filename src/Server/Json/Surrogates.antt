-- ===== src/Server/Json/Surrogates.antt =====
-- `\u` escapes: each code point as JSON writes it, in one escape or in a surrogate pair.
use go_ds.Common.{
  ℕ, ◌+◌, ◌-◌, ◌*◌, ◌/◌, ◌%◌, ◌^◌, ◌<◌, ◌≡◌, ◌∙◌, inl, inr, true, false, some, ◌∷◌, Bytes, arith,
  ltb, leb, if◌then◌else◌, refl, ◌≤◌, ◌⊎◌, [], false, Bool-cases, ltb→lt, ltb→ge,
}
use go_ds.Server.Json.Text.{
  hex_digit, hex_digits, json_u16, surrogate_pair, json_unescape, utf8_put, is_high_surrogate,
  is_low_surrogate,
}
use go_ds.Server.Json.RoundTrip.{json_hex-hex_digit}

-- a 16-bit unit as four digits
abbrev pub u16_escape : ℕ → Bytes → Bytes
u16_escape cp p =
    b'\\'
    ∷ b'u'
    ∷ hex_digit (cp / 2 ^ 12)
    ∷ hex_digit (cp / 2 ^ 8 % 16)
    ∷ hex_digit (cp / 2 ^ 4 % 16)
    ∷ hex_digit (cp % 16)
    ∷ p

json_u16-u16_escape : (cp : ℕ) (p : Bytes) → cp < 2 ^ 16 → json_u16 (u16_escape cp p) ≡ some (cp, p)
unfolding json_u16 hex_digits
json_u16-u16_escape cp p h = ground (
  arith,
  json_hex-hex_digit (cp / 2 ^ 12),
  json_hex-hex_digit (cp / 2 ^ 8 % 16),
  json_hex-hex_digit (cp / 2 ^ 4 % 16),
  json_hex-hex_digit (cp % 16),
)

json_unescape-u16_escape :
    (cp : ℕ) (p : Bytes)
    → cp < 2 ^ 16
    → json_unescape (u16_escape cp p)
      ≡ some (utf8_put (surrogate_pair cp p).0, (surrogate_pair cp p).1)
unfolding json_unescape
json_unescape-u16_escape cp p h = rw (json_u16-u16_escape cp p h)

surrogate_pair_low :
    (hi lo : ℕ) (p : Bytes)
    → is_high_surrogate hi ≡ true
    → is_low_surrogate lo ≡ true
    → surrogate_pair hi (u16_escape lo p) ≡ (0x10000 + (hi - 0xd800) * 2 ^ 10 + (lo - 0xdc00), p)
unfolding surrogate_pair
surrogate_pair_low hi lo p h l = ground (arith, json_u16-u16_escape lo p)

surrogate_pair_other :
    (hi lo : ℕ) (p : Bytes)
    → is_high_surrogate hi ≡ true
    → is_low_surrogate lo ≡ false
    → lo < 2 ^ 16
    → surrogate_pair hi (u16_escape lo p) ≡ (hi, p)
unfolding surrogate_pair
surrogate_pair_other hi lo p h l b = ground (arith, json_u16-u16_escape lo p)

surrogate_pair_plain :
    (cp : ℕ) (p : Bytes) → is_high_surrogate cp ≡ false → surrogate_pair cp p ≡ (cp, p)
unfolding surrogate_pair
surrogate_pair_plain cp p h = ground arith

pair_value :
    (n : ℕ)
    → n < 2 ^ 20
    → (is_high_surrogate (0xd800 + n / 2 ^ 10) ≡ true)
      × (is_low_surrogate (0xdc00 + n % 2 ^ 10) ≡ true)
      × (0x10000 + (0xd800 + n / 2 ^ 10 - 0xd800) * 2 ^ 10 + (0xdc00 + n % 2 ^ 10 - 0xdc00)
          ≡ 0x10000 + n)
pair_value n h = (ground arith, ground arith, omega arith)

-- the escapes that JSON prescribes for a code point: one, or a pair
abbrev pub code_point_escape : ℕ → Bytes → Bytes
code_point_escape cp p =
    if ltb cp 0x10000
    then u16_escape cp p
    else u16_escape (0xd800 + (cp - 0x10000) / 2 ^ 10)
        (u16_escape (0xdc00 + (cp - 0x10000) % 2 ^ 10) p)

-- a continuation byte, and the six bits in it
abbrev Continues : ℕ → Type 0
Continues b = (0x80 ≤ b) × (b < 0xc0)

-- The bytes are the UTF-8 of the code point, as the standard defines it: the shortest sequence whose
-- lead byte tells its length and has the bits in front of those of the bytes behind it.
abbrev pub IsUtf8 : ℕ → Bytes → Type 0
IsUtf8 cp [] = ⊥
IsUtf8 cp (a ∷ []) = (a ≡ cp) × (cp < 0x80)
IsUtf8 cp (a ∷ b ∷ []) =
    (0xc0 ≤ a) × (a < 0xe0) × Continues b × ((a - 0xc0) * 64 + (b - 0x80) ≡ cp) × (0x80 ≤ cp)
IsUtf8 cp (a ∷ b ∷ c ∷ []) =
    (0xe0 ≤ a)
    × (a < 0xf0)
    × Continues b
    × Continues c
    × (((a - 0xe0) * 64 + (b - 0x80)) * 64 + (c - 0x80) ≡ cp)
    × (0x800 ≤ cp)
IsUtf8 cp (a ∷ b ∷ c ∷ d ∷ []) =
    (0xf0 ≤ a)
    × (a < 0xf8)
    × Continues b
    × Continues c
    × Continues d
    × ((((a - 0xf0) * 64 + (b - 0x80)) * 64 + (c - 0x80)) * 64 + (d - 0x80) ≡ cp)
    × (0x10000 ≤ cp)
IsUtf8 cp (a ∷ b ∷ c ∷ d ∷ e ∷ u) = ⊥

-- a code point that is no surrogate
abbrev pub IsScalar : ℕ → Type 0
IsScalar cp = (cp < 0xd800) ⊎ ((0xe000 ≤ cp) × (cp < 0x110000))

utf8_put-IsUtf8 : (cp : ℕ) → cp < 0x110000 → IsUtf8 cp (utf8_put cp)
unfolding utf8_put
utf8_put-IsUtf8 cp h = elim (Bool-cases (leb cp 0x7f)) [
  | inl one ↦ rw (one, utf8_put) (refl, ground arith)
  | inr more ↦ elim (Bool-cases (leb cp 0x7ff)) [
    | inl two ↦
        rw (more, two, utf8_put)
          (ground arith, ground arith, (ground arith, ground arith), omega arith, ground arith)
    | inr still ↦ elim (Bool-cases (leb cp 0xffff)) [
      | inl three ↦
          rw (more, still, three, utf8_put)
            (
              ground arith,
              ground arith,
              (omega arith, omega arith),
              (omega arith, omega arith),
              omega arith,
              ground arith,
            )
      | inr four ↦
          rw (more, still, four, utf8_put)
            (
              omega arith,
              omega arith,
              (omega arith, omega arith),
              (omega arith, omega arith),
              (omega arith, omega arith),
              omega arith,
              ground arith,
            )
    ]
  ]
]

json_unescape-put :
    (cp : ℕ) (p : Bytes)
    → cp < 0x110000
    → is_high_surrogate cp ≡ false
    → json_unescape (code_point_escape cp p) ≡ some (utf8_put cp, p)
json_unescape-put cp p h s = elim (Bool-cases (ltb cp 0x10000)) [
  | inl e ↦
      rw e (json_unescape-u16_escape cp p (ltb→lt cp 0x10000 e) ∙ rw (surrogate_pair_plain cp p s))
  | inr e ↦
      let n = cp - 0x10000 in
      let hi = 0xd800 + n / 2 ^ 10 in
      let lo = 0xdc00 + n % 2 ^ 10 in
      let (is_hi, is_lo, value) = pair_value n (omega arith) in
      let same : 0x10000 + n ≡ cp = omega (arith, ltb→ge cp 0x10000 e) in
      rw e (
        json_unescape-u16_escape hi (u16_escape lo p) (omega arith)
        ∙ rw (surrogate_pair_low hi lo p is_hi is_lo, value, same))
]

-- A code point that is no surrogate, written as the one or two escapes that JSON prescribes, is read
-- as its UTF-8, whatever follows.
pub json_unescape-code_point_escape :
    (cp : ℕ) (p : Bytes)
    → IsScalar cp
    → (u : Bytes) × IsUtf8 cp u × (json_unescape (code_point_escape cp p) ≡ some (u, p))
json_unescape-code_point_escape cp p scalar =
    let below : cp < 0x110000 = ground arith in
    (utf8_put cp, utf8_put-IsUtf8 cp below, json_unescape-put cp p below (ground arith))

-- A high surrogate that the escape of another unit follows: that second escape is dropped, and
-- the half is written as if it were a code point.
pub json_unescape_drops_escape :
    (hi lo : ℕ) (p : Bytes)
    → is_high_surrogate hi ≡ true
    → lo < 2 ^ 16
    → is_low_surrogate lo ≡ false
    → json_unescape (u16_escape hi (u16_escape lo p)) ≡ some (utf8_put hi, p)
json_unescape_drops_escape hi lo p h b l =
    json_unescape-u16_escape hi (u16_escape lo p) (ground arith)
    ∙ rw (surrogate_pair_other hi lo p h l b)
