-- ===== src/Server/Kv/Sha1.antt =====
-- ds4_server.c: SHA-1 over the tokens of a prefix, `rol32` to `sha1_tokens_hex`. Words of 32 bits
-- are numbers below 2^32; the part of `block` that is filled is the list `block`, whose length is
-- `used`. A token's id is not negative.
pub mod Word
pub mod Padding
use go_ds.Common.{
  ℕ, zero, suc, ◌+◌, ◌-◌, ◌*◌, ◌/◌, ◌%◌, ◌^◌, min, List, [], ◌∷◌, ◌++◌, Bytes, length, take, drop,
  ltb, ◌==◌, if◌then◌else◌,
}
use go_ds.Server.Kv.Header.{le_put32}
use go_ds.Server.Kv.Sha1.Word.{sha1_transform}

-- the words of the state and the filled part of the block
abbrev pub Sha1Core : Type 0
Sha1Core = List ℕ × Bytes

pub record Sha1Ctx : Type 0 where
  pub core : Sha1Core
  pub bytes : ℕ

abbrev pub sha1_init_words : List ℕ
sha1_init_words = 1732584193 ∷ 4023233417 ∷ 2562383102 ∷ 271733878 ∷ 3285377520 ∷ []

abbrev pub sha1_init : Sha1Ctx
sha1_init = record { core = (sha1_init_words, []); bytes = 0 }

-- a full block is hashed and the next one begun
unfoldable pub close_block : Sha1Core → Sha1Core
close_block (h, block) = if length block == 64 then (sha1_transform h block, []) else (h, block)

-- the loop of `sha1_update`: in each round as many bytes as still fit
unfoldable pub update_loop : ℕ → Sha1Core → Bytes → Sha1Core
update_loop zero c p = c
update_loop (suc rounds) c [] = c
update_loop (suc rounds) (h, block) (b ∷ p) =
    let n = min (64 - length block) (length (b ∷ p)) in
    update_loop rounds (close_block (h, block ++ take n (b ∷ p))) (drop n (b ∷ p))

-- Each round reads a byte at least.
unfoldable pub sha1_update : Sha1Ctx → Bytes → Sha1Ctx
sha1_update c p = record {
  core = update_loop (length p) c.core p;
  bytes = (c.bytes + length p) % 2 ^ 64;
}

-- `while (c->used != 56) sha1_update(c, &zero, 1)`; 64 rounds are enough from any `used`.
unfoldable pub pad_loop : ℕ → Sha1Ctx → Sha1Ctx
pad_loop zero c = c
pad_loop (suc rounds) c =
    let rest = pad_loop rounds (sha1_update c (0 ∷ [])) in if length c.core.1 == 56 then c else rest

-- `bits` in eight bytes, the highest first
unfoldable pub bits_be64 : ℕ → Bytes
bits_be64 bits =
    bits / 2 ^ 56 % 256
    ∷ bits / 2 ^ 48 % 256
    ∷ bits / 2 ^ 40 % 256
    ∷ bits / 2 ^ 32 % 256
    ∷ bits / 2 ^ 24 % 256
    ∷ bits / 2 ^ 16 % 256
    ∷ bits / 2 ^ 8 % 256
    ∷ bits % 256
    ∷ []

unfoldable pub words_bytes : List ℕ → Bytes
words_bytes [] = []
words_bytes (w ∷ ws) =
    w / 2 ^ 24 % 256 ∷ w / 2 ^ 16 % 256 ∷ w / 2 ^ 8 % 256 ∷ w % 256 ∷ words_bytes ws

unfoldable pub sha1_final : Sha1Ctx → Bytes
sha1_final c =
    let bits = c.bytes * 8 % 2 ^ 64 in
    let padded = pad_loop 64 (sha1_update c (128 ∷ [])) in
    words_bytes (sha1_update padded (bits_be64 bits)).core.0

-- `hex[n]`
unfoldable pub hex_digit : ℕ → ℕ
hex_digit n = if ltb n 10 then 48 + n else 87 + n

unfoldable pub hex20 : Bytes → Bytes
hex20 [] = []
hex20 (b ∷ digest) = hex_digit (b / 16) ∷ hex_digit (b % 16) ∷ hex20 digest

-- the loop over the first `n` tokens
unfoldable pub update_tokens : List ℕ → Sha1Ctx → Sha1Ctx
update_tokens [] c = c
update_tokens (t ∷ tokens) c = update_tokens tokens (sha1_update c (le_put32 t))

unfoldable pub sha1_tokens_hex : List ℕ → ℕ → Bytes
sha1_tokens_hex tokens n = hex20 (sha1_final (update_tokens (take n tokens) sha1_init))
