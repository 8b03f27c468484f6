-- ===== src/Server/Stream/Utf8Hold.antt =====
-- ds4_server.c: `utf8_expected_len` and `utf8_stream_safe_len`, which keeps a character back that
-- is not yet complete. Positions count from the start of `s`; `(c & 0xc0) == 0x80` is
-- `c / 64 == 2` on a byte.
pub mod Held
use go_ds.Common.{
  ℕ, zero, suc, ◌-◌, ◌/◌, ◌≤◌, Bool, true, false, ◌&&◌, ◌||◌, Bytes, byte_at, ltb, leb, ◌==◌,
  within, if◌then◌else◌, arith, Bool-cases, inl, inr,
}

unfoldable pub utf8_expected_len : ℕ → ℕ
utf8_expected_len c =
    if ltb c 128
    then 1
    else if within 194 223 c
    then 2
    else if within 224 239 c
    then 3
    else if within 240 244 c
    then 4
    else 1

abbrev pub is_continuation : ℕ → Bool
is_continuation c = c / 64 == 2

-- the loop, with the rounds that `cont < 4` leaves; the position where it stops
unfoldable pub before_continuations : ℕ → Bytes → ℕ → ℕ → ℕ
before_continuations zero s start p = p
before_continuations (suc n) s start p =
    let rest = before_continuations n s start (p - 1) in
    if ltb start p && is_continuation (byte_at s (p - 1)) then rest else p

-- the part behind the loop
unfoldable pub hold_back : Bytes → (start limit p : ℕ) → ℕ
hold_back s start limit p =
    if p == limit
    then if ltb 1 (utf8_expected_len (byte_at s (limit - 1))) then limit - 1 else limit
    else if p == start && is_continuation (byte_at s p)
    then start
    else if ltb (limit - (p - 1)) (utf8_expected_len (byte_at s (p - 1)))
    then p - 1
    else limit

unfoldable pub utf8_stream_safe_len : Bytes → (start limit : ℕ) → (final : Bool) → ℕ
utf8_stream_safe_len s start limit final =
    if final || leb limit start
    then limit
    else hold_back s start limit (before_continuations 4 s start limit)

before_continuations_le : (n : ℕ) (s : Bytes) (start p : ℕ) → before_continuations n s start p ≤ p
unfolding before_continuations
before_continuations_le zero s start p = omega arith
before_continuations_le (suc n) s start p =
    ground (arith, before_continuations_le n s start (p - 1))

hold_back_le :
    (s : Bytes) (start limit p : ℕ) → start ≤ limit → p ≤ limit → hold_back s start limit p ≤ limit
unfolding hold_back
hold_back_le s start limit p h k = ground arith

pub utf8_stream_safe_len_le :
    (s : Bytes) (start limit : ℕ) (final : Bool) → utf8_stream_safe_len s start limit final ≤ limit
unfolding utf8_stream_safe_len
utf8_stream_safe_len_le s start limit true = ground arith
utf8_stream_safe_len_le s start limit false = elim (Bool-cases (leb limit start)) [
  | inl e ↦ ground arith
  | inr e ↦ ground (
    arith,
    hold_back_le s start limit (before_continuations 4 s start limit) (ground arith)
        (before_continuations_le 4 s start limit),
  )
]
