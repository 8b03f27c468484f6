-- ===== src/Server/Kv/Sha1/Word.antt =====
-- ds4_server.c: `rol32` and `sha1_transform`. Sums are taken modulo 2^32.
use Prim.Native.Nat.{ℕ, zero, suc, ◌+◌, ◌-◌, ◌*◌, ◌/◌, ◌%◌, ◌^◌}
use go_ds.Common.Bits.{bitwise, differ}
use go_ds.Common.{
  ◌&&◌, ◌||◌, none, some, List, [], ◌∷◌, ◌++◌, Bytes, byte_at, get_elem?, drop, ltb, if◌then◌else◌,
}

abbrev and32 : ℕ → ℕ → ℕ
and32 a b = bitwise ◌&&◌ 32 a b

abbrev or32 : ℕ → ℕ → ℕ
or32 a b = bitwise ◌||◌ 32 a b

abbrev xor32 : ℕ → ℕ → ℕ
xor32 a b = bitwise differ 32 a b

abbrev not32 : ℕ → ℕ
not32 a = 2 ^ 32 - 1 - a

abbrev add32 : ℕ → ℕ → ℕ
add32 a b = (a + b) % 2 ^ 32

unfoldable pub rol32 : ℕ → ℕ → ℕ
rol32 v n = or32 (v * 2 ^ n % 2 ^ 32) (v / 2 ^ (32 - n))

-- `w[i]`
abbrev word : List ℕ → ℕ → ℕ
word w i = elim (get_elem? w i) [ none ↦ 0 | some x ↦ x ]

-- the first `n` words of the block
unfoldable pub block_words : ℕ → Bytes → List ℕ
block_words zero block = []
block_words (suc n) block =
    (byte_at block 0 * 2 ^ 24
      + byte_at block 1 * 2 ^ 16
      + byte_at block 2 * 2 ^ 8
      + byte_at block 3)
    ∷ block_words n (drop 4 block)

-- `n` further words, from the index `i` on
unfoldable pub schedule : ℕ → ℕ → List ℕ → List ℕ
unfolding rol32 bitwise
schedule zero i w = w
schedule (suc n) i w = schedule n (suc i) (
    w
    ++ (rol32
          (xor32 (xor32 (xor32 (word w (i - 3)) (word w (i - 8))) (word w (i - 14)))
            (word w (i - 16)))
          1
        ∷ []))

pub record Rounds : Type 0 where
  pub a : ℕ
  pub b : ℕ
  pub cc : ℕ
  pub d : ℕ
  pub e : ℕ

abbrev choose : ℕ → Rounds → ℕ
choose i r =
    if ltb i 20
    then or32 (and32 r.b r.cc) (and32 (not32 r.b) r.d)
    else if ltb i 40
    then xor32 (xor32 r.b r.cc) r.d
    else if ltb i 60
    then or32 (or32 (and32 r.b r.cc) (and32 r.b r.d)) (and32 r.cc r.d)
    else xor32 (xor32 r.b r.cc) r.d

abbrev constant : ℕ → ℕ
constant i =
    if ltb i 20
    then 1518500249
    else if ltb i 40
    then 1859775393
    else if ltb i 60
    then 2400959708
    else 3395469782

unfoldable pub round_step : ℕ → ℕ → Rounds → Rounds
unfolding rol32 bitwise
round_step i w r = record {
  a = add32 (add32 (add32 (add32 (rol32 r.a 5) (choose i r)) r.e) (constant i)) w;
  b = r.a;
  cc = rol32 r.b 30;
  d = r.cc;
  e = r.d;
}

unfoldable pub rounds : ℕ → List ℕ → Rounds → Rounds
unfolding round_step
rounds i [] r = r
rounds i (w ∷ ws) r = rounds (suc i) ws (round_step i w r)

unfoldable pub sha1_transform : List ℕ → Bytes → List ℕ
unfolding block_words schedule rounds
sha1_transform h block =
    let w = schedule 64 16 (block_words 16 block) in
    let r =
      rounds 0 w
        (record { a = word h 0; b = word h 1; cc = word h 2; d = word h 3; e = word h 4 }) in
    add32 (word h 0) r.a
    ∷ add32 (word h 1) r.b
    ∷ add32 (word h 2) r.cc
    ∷ add32 (word h 3) r.d
    ∷ add32 (word h 4) r.e
    ∷ []
