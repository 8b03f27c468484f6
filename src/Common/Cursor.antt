-- ===== src/Common/Cursor.antt =====
-- C strings read through a pointer. The rest of the string stands for the pointer; at its end
-- `*p` is the terminator, 0.
use Prim.Native.Char.{code}
use Prim.Native.String.{String}
use Prim.Native.Nat.{ℕ, ◌+◌, ◌≤◌, ◌<◌}
use mathlib.Core.Logic.{◌≢◌}
use mathlib.Core.Path.{◌≡◌, refl}
use mathlib.Core.Bool.{Bool, true, false, ◌||◌}
use mathlib.Core.List.{[], ◌∷◌, ◌++◌}
use mathlib.Core.Option.{Option, none, some}
use native.Mathlib.Omega.{arith}
use go_ds.Common.Tests.{◌==◌, within}
use go_ds.Common.Lists.{Bytes, length, drop}

-- the bytes of an ASCII literal
abbrev pub codes : String → Bytes
codes String.[] = []
codes (String.◌∷◌ c s) = code c ∷ codes s

-- `**p`
abbrev pub peek : Bytes → ℕ
peek [] = 0
peek (c ∷ _) = c

-- `(*p)++`
abbrev pub advance : Bytes → Bytes
advance [] = []
advance (_ ∷ cs) = cs

-- `p[i]`, 0 behind the end
abbrev pub byte_at : Bytes → ℕ → ℕ
byte_at p i = peek (drop i p)

-- `isspace` in the C locale: the blank and the bytes 9 to 13
abbrev pub is_space : ℕ → Bool
is_space c = c == 32 || within 9 13 c

-- `while (test(**p)) (*p)++`, for a test that the terminator does not pass
unfoldable pub skip_while : (ℕ → Bool) → Bytes → Bytes
skip_while test [] = []
skip_while test (c ∷ p) = elim (test c) [ true ↦ skip_while test p | false ↦ c ∷ p ]

pub length-skip_while : (test : ℕ → Bool) (p : Bytes) → length (skip_while test p) ≤ length p
unfolding skip_while
length-skip_while test [] = omega arith
length-skip_while test (c ∷ p) = ground (arith, length-skip_while test p)

pub length-skip_while_lt :
    (test : ℕ → Bool) (p : Bytes)
    → test 0 ≡ false
    → test (peek p) ≡ true
    → length (skip_while test p) < length p
unfolding skip_while
length-skip_while_lt test [] z h = cc
length-skip_while_lt test (c ∷ p) z h = ground (arith, length-skip_while test p)

pub length-advance : (p : Bytes) → length (advance p) ≤ length p
length-advance [] = omega arith
length-advance (c ∷ p) = omega arith

pub length-advance_suc : (p : Bytes) → peek p ≢ 0 → length p ≡ length (advance p) + 1
length-advance_suc [] h = absurd (h refl)
length-advance_suc (c ∷ p) h = omega arith

-- `strncmp(p, lit, strlen(lit)) == 0`, with what follows
unfoldable pub strip_prefix : Bytes → Bytes → Option Bytes
strip_prefix [] p = some p
strip_prefix (l ∷ lit) [] = none
strip_prefix (l ∷ lit) (c ∷ p) = elim (l == c) [ true ↦ strip_prefix lit p | false ↦ none ]

pub strip_prefix-append : (lit p : Bytes) → strip_prefix lit (lit ++ p) ≡ some p
unfolding strip_prefix
strip_prefix-append [] p = refl
strip_prefix-append (l ∷ lit) p = ground (arith, strip_prefix-append lit p)

pub strip_prefix-eq-some : (lit p rest : Bytes) → strip_prefix lit p ≡ some rest → p ≡ lit ++ rest
unfolding strip_prefix
strip_prefix-eq-some [] p rest h = ground arith
strip_prefix-eq-some (l ∷ lit) [] rest h = cc
strip_prefix-eq-some (l ∷ lit) (c ∷ p) rest h = ground (arith, strip_prefix-eq-some lit p rest)

pub length-strip_prefix :
    (lit p rest : Bytes) → strip_prefix lit p ≡ some rest → length p ≡ length lit + length rest
unfolding strip_prefix
length-strip_prefix [] p rest h = ground arith
length-strip_prefix (l ∷ lit) [] rest h = cc
length-strip_prefix (l ∷ lit) (c ∷ p) rest h = ground (arith, length-strip_prefix lit p rest)
