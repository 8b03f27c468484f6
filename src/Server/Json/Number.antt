-- ===== src/Server/Json/Number.antt =====
-- Where `strtod` stops: `json_number` of ds4_server.c moves its pointer by it. It is modelled as
-- the C standard has it in its default locale, so it takes `nan`, `inf` and hexadecimal numbers too.
use go_ds.Common.{
  ℕ, ◌+◌, ◌≤◌, ◌<◌, ◌≡◌, ◌≢◌, refl, Bool, true, false, ◌&&◌, ◌||◌, Option, none, some, [], ◌∷◌,
  arith, Bytes, length, peek, advance, skip_while, is_space, within, ◌==◌, if◌then◌else◌,
  length-skip_while, length-skip_while_lt, length-advance, length-advance_suc, Option-cases, inl,
  inr,
}

abbrev pub is_digit : ℕ → Bool
is_digit = within b'0' b'9'

abbrev pub is_xdigit : ℕ → Bool
is_xdigit c = is_digit c || within b'a' b'f' c || within b'A' b'F' c

-- `tolower` in the C locale
abbrev pub to_lower : ℕ → ℕ
to_lower c = if within b'A' b'Z' c then c + 32 else c

-- digits, of which one at least, around one optional point
unfoldable pub mantissa : (ℕ → Bool) → Bytes → Option Bytes
mantissa digit p =
    let q = skip_while digit p in
    if peek q == b'.'
    then if digit (peek p) || digit (peek (advance q))
      then some (skip_while digit (advance q))
      else none
    else if digit (peek p)
    then some q
    else none

abbrev pub skip_sign : Bytes → Bytes
skip_sign p = if peek p == b'+' || peek p == b'-' then advance p else p

-- an exponent, if a digit is in it
unfoldable pub exponent : ℕ → Bytes → Bytes
exponent mark p =
    let q = skip_sign (advance p) in
    if to_lower (peek p) == mark && is_digit (peek q) then skip_while is_digit q else p

-- `strncasecmp(p, word, strlen(word)) == 0`, for a word in lower case, with what follows
unfoldable pub strip_word : Bytes → Bytes → Option Bytes
strip_word [] p = some p
strip_word (l ∷ word) [] = none
strip_word (l ∷ word) (c ∷ p) = elim (l == to_lower c) [ true ↦ strip_word word p | false ↦ none ]

abbrev pub is_nan_byte : ℕ → Bool
is_nan_byte c = is_digit c || within b'a' b'z' (to_lower c) || c == b'_'

-- `nan(...)`: the bracket is read only as a whole
unfoldable pub nan_tail : Bytes → Bytes
nan_tail p =
    let q = skip_while is_nan_byte (advance p) in
    if peek p == b'(' && peek q == b')' then advance q else p

unfoldable pub decimal : Bytes → Option Bytes
decimal p = elim (mantissa is_digit p) [ none ↦ none | some q ↦ some (exponent b'e' q) ]

-- without a hexadecimal digit, the 0 before the x is the number
unfoldable pub hexadecimal : Bytes → Option Bytes
hexadecimal p = elim (mantissa is_xdigit (advance (advance p))) [
  | none ↦ some (advance p)
  | some q ↦ some (exponent b'p' q)
]

unfoldable pub infinity : Bytes → Option Bytes
infinity p = elim (strip_word (b'i' ∷ b'n' ∷ b'f' ∷ []) p) [
  | none ↦ none
  | some q ↦ elim (strip_word (b'i' ∷ b'n' ∷ b'i' ∷ b't' ∷ b'y' ∷ []) q) [
    | none ↦ some q
    | some r ↦ some r
  ]
]

unfoldable pub not_a_number : Bytes → Option Bytes
not_a_number p = elim (strip_word (b'n' ∷ b'a' ∷ b'n' ∷ []) p) [
  | none ↦ none
  | some q ↦ some (nan_tail q)
]

-- where `strtod` stops; `none` if nothing was converted
unfoldable pub strtod_end : Bytes → Option Bytes
strtod_end text =
    let p = skip_sign (skip_while is_space text) in
    if peek p == b'0' && to_lower (peek (advance p)) == b'x'
    then hexadecimal p
    else if to_lower (peek p) == b'i'
    then infinity p
    else if to_lower (peek p) == b'n'
    then not_a_number p
    else decimal p

mantissa-lt :
    (digit : ℕ → Bool) (p q : Bytes)
    → digit 0 ≡ false
    → digit b'.' ≡ false
    → mantissa digit p ≡ some q
    → length q < length p
unfolding mantissa
mantissa-lt digit p q z d h = ground (
  arith,
  length-skip_while digit p,
  length-skip_while_lt digit p z,
  length-skip_while digit (advance (skip_while digit p)),
  length-advance_suc (skip_while digit p),
  length-advance (skip_while digit p),
)

exponent-le : (mark : ℕ) (p : Bytes) → length (exponent mark p) ≤ length p
unfolding exponent
exponent-le mark p = ground (
  arith,
  length-advance p,
  length-advance (advance p),
  length-skip_while is_digit (skip_sign (advance p)),
)

length-strip_word :
    (word p q : Bytes) → strip_word word p ≡ some q → length p ≡ length word + length q
unfolding strip_word
length-strip_word [] p q h = ground arith
length-strip_word (l ∷ word) [] q h = cc
length-strip_word (l ∷ word) (c ∷ p) q h = ground (arith, length-strip_word word p q)

nan_tail-le : (p : Bytes) → length (nan_tail p) ≤ length p
unfolding nan_tail
nan_tail-le p = ground (
  arith,
  length-advance p,
  length-advance (skip_while is_nan_byte (advance p)),
  length-skip_while is_nan_byte (advance p),
)

decimal-lt : (p q : Bytes) → decimal p ≡ some q → length q < length p
unfolding decimal
decimal-lt p q h = elim (Option-cases (mantissa is_digit p)) [
  | inl e ↦ cc (e, h)
  | inr (r, e) ↦ ground (arith, mantissa-lt is_digit p r refl refl e, exponent-le b'e' r)
]

hexadecimal-lt : (p q : Bytes) → peek p ≢ 0 → hexadecimal p ≡ some q → length q < length p
unfolding hexadecimal
hexadecimal-lt p q z h = elim (Option-cases (mantissa is_xdigit (advance (advance p)))) [
  | inl e ↦ ground (arith, length-advance_suc p z)
  | inr (r, e) ↦ ground (
    arith,
    mantissa-lt is_xdigit (advance (advance p)) r refl refl e,
    exponent-le b'p' r,
    length-advance p,
    length-advance (advance p),
  )
]

length-skip_sign : (p : Bytes) → length (skip_sign p) ≤ length p
length-skip_sign p = ground (arith, length-advance p)

infinity-lt : (p q : Bytes) → infinity p ≡ some q → length q < length p
unfolding infinity
infinity-lt p q h = elim (Option-cases (strip_word (b'i' ∷ b'n' ∷ b'f' ∷ []) p)) [
  | inl e ↦ cc (e, h)
  | inr (r, e) ↦ ground (
    arith,
    length-strip_word _ p r e,
    length-strip_word (b'i' ∷ b'n' ∷ b'i' ∷ b't' ∷ b'y' ∷ []) r q,
  )
]

not_a_number-lt : (p q : Bytes) → not_a_number p ≡ some q → length q < length p
unfolding not_a_number
not_a_number-lt p q h = elim (Option-cases (strip_word (b'n' ∷ b'a' ∷ b'n' ∷ []) p)) [
  | inl e ↦ cc (e, h)
  | inr (r, e) ↦ ground (arith, length-strip_word _ p r e, nan_tail-le r)
]

-- A conversion reads at least one byte.
pub strtod_end-lt : (text q : Bytes) → strtod_end text ≡ some q → length q < length text
unfolding strtod_end
strtod_end-lt text q h =
    let r = skip_while is_space text in
    let p = skip_sign r in
    ground (
      arith,
      length-skip_while is_space text,
      length-skip_sign r,
      hexadecimal-lt p q,
      infinity-lt p q,
      not_a_number-lt p q,
      decimal-lt p q,
    )
