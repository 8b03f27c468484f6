-- ===== src/Server/Kv/Sha1/Padding.antt =====
-- The chunked SHA-1 of the server against the standard's: the message, padded to whole blocks of
-- 64 bytes, and the blocks hashed in order.
use go_ds.Common.{
  ℕ, zero, suc, ◌+◌, ◌-◌, ◌*◌, ◌/◌, ◌%◌, ◌^◌, ◌≤◌, ◌<◌, ◌≡◌, refl, sym, ap, ◌∙◌, min, true, false,
  List, [], ◌∷◌, ◌++◌, Bytes, length, take, drop, ◌==◌, arith, Bool-cases, inl, inr, append_assoc,
  append-nil, take-append-drop, length-append, length-take, length-drop,
}
use go_ds.Server.Kv.Header.{le_put32}
use go_ds.Server.Kv.Sha1.{
  Sha1Core, Sha1Ctx, sha1_init, sha1_init_words, close_block, update_loop, sha1_update, pad_loop,
  bits_be64, words_bytes, sha1_final, hex20, update_tokens, sha1_tokens_hex,
}
use go_ds.Server.Kv.Sha1.Word.{sha1_transform}

-- Byte by byte: a byte is put into the block, which is hashed when it is full.
unfoldable pub absorb : Sha1Core → Bytes → Sha1Core
absorb c [] = c
absorb (h, block) (b ∷ p) = absorb (close_block (h, block ++ (b ∷ []))) p

absorb-append : (c : Sha1Core) (p q : Bytes) → absorb c (p ++ q) ≡ absorb (absorb c p) q
unfolding absorb
absorb-append c [] q = refl
absorb-append (h, block) (b ∷ p) q = absorb-append (close_block (h, block ++ (b ∷ []))) p q

close_block-open :
    (h : List ℕ) (block : Bytes) → length block < 64 → close_block (h, block) ≡ (h, block)
unfolding close_block
close_block-open h block o = let e : (length block == 64) ≡ false = ground arith in rw e

close_block-full :
    (h : List ℕ) (block : Bytes)
    → length block ≡ 64
    → close_block (h, block) ≡ (sha1_transform h block, [])
unfolding close_block
close_block-full h block o = let e : (length block == 64) ≡ true = ground arith in rw e

-- As many bytes as fit, put in one by one or at once.
absorb-fill :
    (h : List ℕ) (block p : Bytes)
    → length block < 64
    → length block + length p ≤ 64
    → absorb (h, block) p ≡ close_block (h, block ++ p)
unfolding absorb
absorb-fill h block [] o fits = rw append-nil (sym (close_block-open h block o))
absorb-fill h block (b ∷ []) o fits = refl
absorb-fill h block (b ∷ c ∷ p) o fits =
    let len = length-append block (b ∷ []) in
    rw (close_block-open h (block ++ (b ∷ [])) (omega arith)) (
      absorb-fill h (block ++ (b ∷ [])) (c ∷ p) (omega arith) (omega arith)
      ∙ ap (λ x. close_block (h, x)) (append_assoc block (b ∷ []) (c ∷ p)))

close_block-length :
    (h : List ℕ) (block : Bytes)
    → length block ≤ 64
    → length (close_block (h, block)).1 ≡ length block % 64
close_block-length h block fits = elim (Bool-cases (length block == 64)) [
  | inl e ↦ rw (close_block-full h block (ground arith)) (ground arith)
  | inr e ↦ rw (close_block-open h block (ground arith)) (ground arith)
]

length-absorb :
    (c : Sha1Core) (p : Bytes)
    → length c.1 < 64
    → length (absorb c p).1 ≡ (length c.1 + length p) % 64
unfolding absorb
length-absorb (h, block) [] o = omega arith
length-absorb (h, block) (b ∷ p) o =
    let len = length-append block (b ∷ []) in
    let next = close_block-length h (block ++ (b ∷ [])) (omega arith) in
    let rest = length-absorb (close_block (h, block ++ (b ∷ []))) p (omega arith) in omega arith

-- The loop over chunks, with a round for each byte at hand, is the loop over bytes.
update_loop-absorb :
    (rounds : ℕ) (c : Sha1Core) (p : Bytes)
    → length c.1 < 64
    → length p ≤ rounds
    → update_loop rounds c p ≡ absorb c p
unfolding update_loop absorb
update_loop-absorb zero c [] o fuel = refl
update_loop-absorb zero c (b ∷ p) o fuel = absurd (omega arith)
update_loop-absorb (suc rounds) c [] o fuel = refl
update_loop-absorb (suc rounds) (h, block) (b ∷ p) o fuel =
    let n = min (64 - length block) (length (b ∷ p)) in
    let chunk = take n (b ∷ p) in
    let chunk_len = length-take n (b ∷ p) in
    let rest_len = length-drop n (b ∷ p) in
    let total = length-append block chunk in
    let shut = close_block-length h (block ++ chunk) (omega arith) in
    let loop =
      update_loop-absorb rounds (close_block (h, block ++ chunk)) (drop n (b ∷ p)) (omega arith)
        (omega arith) in
    let filled = absorb-fill h block chunk o (omega arith) in
    loop
    ∙ ap (λ x. absorb x (drop n (b ∷ p))) (sym filled)
    ∙ sym (absorb-append (h, block) chunk (drop n (b ∷ p)))
    ∙ ap (absorb (h, block)) (take-append-drop n (b ∷ p))

sha1_update-absorb :
    (c : Sha1Ctx) (p : Bytes) → length c.core.1 < 64 → (sha1_update c p).core ≡ absorb c.core p
unfolding sha1_update
sha1_update-absorb c p o = update_loop-absorb (length p) c.core p o (omega arith)

unfoldable pub zeros : ℕ → Bytes
zeros zero = []
zeros (suc n) = 0 ∷ zeros n

-- the zeros that are missing to 56 bytes of a block
abbrev missing : ℕ → ℕ
missing used = (120 - used) % 64

pad_loop-done : (rounds : ℕ) (c : Sha1Ctx) → length c.core.1 ≡ 56 → pad_loop rounds c ≡ c
unfolding pad_loop
pad_loop-done zero c e = refl
pad_loop-done (suc rounds) c e = let full : (length c.core.1 == 56) ≡ true = ground arith in rw full

pad_loop-more :
    (rounds : ℕ) (c : Sha1Ctx)
    → (length c.core.1 == 56) ≡ false
    → pad_loop (suc rounds) c ≡ pad_loop rounds (sha1_update c (0 ∷ []))
unfolding pad_loop
pad_loop-more rounds c e = rw e

pad_loop-absorb :
    (rounds z : ℕ) (c : Sha1Ctx)
    → length c.core.1 < 64
    → z ≡ missing (length c.core.1)
    → z ≤ rounds
    → (pad_loop rounds c).core ≡ absorb c.core (zeros z)
unfolding zeros absorb
pad_loop-absorb rounds zero c o e fuel = ap (λ x. x.core) (pad_loop-done rounds c (omega arith))
pad_loop-absorb zero (suc z) c o e fuel = absurd (omega arith)
pad_loop-absorb (suc rounds) (suc z) c o e fuel =
    let one = sha1_update-absorb c (0 ∷ []) o in
    let len = length-absorb c.core (0 ∷ []) o in
    let same = ap (λ x. length x.1) one in
    let open_block : (length c.core.1 == 56) ≡ false = ground arith in
    let rest =
      pad_loop-absorb rounds z (sha1_update c (0 ∷ [])) (omega arith) (omega arith) (omega arith) in
    ap (λ x. x.core) (pad_loop-more rounds c open_block) ∙ rest ∙ ap (λ x. absorb x (zeros z)) one

-- the message with the 1 bit, the zeros and the length in bits: whole blocks
unfoldable pub padded : Bytes → Bytes
padded m = m ++ (128 ∷ (zeros ((119 - length m % 64) % 64) ++ bits_be64 (length m * 8)))

-- `n` blocks, hashed in order
unfoldable pub hash_blocks : ℕ → List ℕ → Bytes → List ℕ
hash_blocks zero h p = h
hash_blocks (suc n) h p = hash_blocks n (sha1_transform h (take 64 p)) (drop 64 p)

-- SHA-1 as the standard has it
unfoldable pub sha1 : Bytes → Bytes
sha1 m = words_bytes (hash_blocks (length (padded m) / 64) sha1_init_words (padded m))

absorb-hash_blocks :
    (n : ℕ) (h : List ℕ) (p : Bytes) → length p ≡ n * 64 → (absorb (h, []) p).0 ≡ hash_blocks n h p
unfolding hash_blocks absorb
absorb-hash_blocks zero h [] e = refl
absorb-hash_blocks zero h (b ∷ p) e = absurd (omega arith)
absorb-hash_blocks (suc n) h p e =
    let block_len = length-take 64 p in
    let rest_len = length-drop 64 p in
    let first : absorb (h, []) (take 64 p) ≡ (sha1_transform h (take 64 p), []) =
      absorb-fill h [] (take 64 p) (omega arith) (omega arith)
      ∙ close_block-full h (take 64 p) (omega arith) in
    ap (λ x. (absorb (h, []) x).0) (sym (take-append-drop 64 p))
    ∙ ap (λ x. x.0) (absorb-append (h, []) (take 64 p) (drop 64 p))
    ∙ ap (λ x. (absorb x (drop 64 p)).0) first
    ∙ absorb-hash_blocks n (sha1_transform h (take 64 p)) (drop 64 p) (omega arith)

length-zeros : (n : ℕ) → length (zeros n) ≡ n
unfolding zeros
length-zeros zero = refl
length-zeros (suc n) = omega (arith, length-zeros n)

length-bits_be64 : (bits : ℕ) → length (bits_be64 bits) ≡ 8
unfolding bits_be64
length-bits_be64 bits = refl

length-padded : (m : Bytes) → length (padded m) ≡ length (padded m) / 64 * 64
unfolding padded
length-padded m =
    let z = (119 - length m % 64) % 64 in
    let tail = zeros z ++ bits_be64 (length m * 8) in
    let l1 = length-append m (128 ∷ tail) in
    let l2 = length-append (zeros z) (bits_be64 (length m * 8)) in
    let l3 = length-zeros z in let l4 = length-bits_be64 (length m * 8) in omega arith

-- the padding, put in part by part
absorb-padded :
    (c : Sha1Core) (m : Bytes)
    → absorb c (padded m)
      ≡ absorb
          (absorb (absorb (absorb c m) (128 ∷ [])) (zeros ((119 - length m % 64) % 64)))
          (bits_be64 (length m * 8))
unfolding padded
absorb-padded c m =
    let z = zeros ((119 - length m % 64) % 64) in
    let bits = bits_be64 (length m * 8) in
    absorb-append c m (128 ∷ (z ++ bits))
    ∙ absorb-append (absorb c m) (128 ∷ []) (z ++ bits)
    ∙ absorb-append (absorb (absorb c m) (128 ∷ [])) z bits

-- `sha1_final` behind the bytes of a message
sha1_final-sha1 :
    (c : Sha1Ctx) (m : Bytes)
    → c.core ≡ absorb (sha1_init_words, []) m
    → c.bytes % 2 ^ 64 ≡ length m % 2 ^ 64
    → length m * 8 < 2 ^ 64
    → sha1_final c ≡ sha1 m
unfolding sha1_final sha1
sha1_final-sha1 c m core bytes short =
    let bits : c.bytes * 8 % 2 ^ 64 ≡ length m * 8 = omega arith in
    let z = (119 - length m % 64) % 64 in
    let used0 = length-absorb (sha1_init_words, []) m (omega arith) in
    let used0_same = ap (λ x. length x.1) core in
    let one = sha1_update-absorb c (128 ∷ []) (omega arith) in
    let used1 = length-absorb c.core (128 ∷ []) (omega arith) in
    let used1_same = ap (λ x. length x.1) one in
    let c1 = sha1_update c (128 ∷ []) in
    let pad = pad_loop-absorb 64 z c1 (omega arith) (omega arith) (omega arith) in
    let used2 = length-absorb c1.core (zeros z) (omega arith) in
    let used2_same = ap (λ x. length x.1) pad in
    let last = sha1_update-absorb (pad_loop 64 c1) (bits_be64 (length m * 8)) (omega arith) in
    let whole =
      last
      ∙ ap (λ x. absorb x (bits_be64 (length m * 8)))
          (pad ∙ ap (λ x. absorb x (zeros z)) (one ∙ ap (λ x. absorb x (128 ∷ [])) core))
      ∙ sym (absorb-padded (sha1_init_words, []) m) in
    rw bits (
      ap words_bytes (
        ap (λ x. x.0) whole
        ∙ absorb-hash_blocks (length (padded m) / 64) sha1_init_words (padded m) (length-padded m)))

-- the bytes of the tokens of a prefix
unfoldable pub token_bytes : List ℕ → Bytes
token_bytes [] = []
token_bytes (t ∷ tokens) = le_put32 t ++ token_bytes tokens

sha1_update-bytes :
    (c : Sha1Ctx) (p : Bytes) → (sha1_update c p).bytes ≡ (c.bytes + length p) % 2 ^ 64
unfolding sha1_update
sha1_update-bytes c p = refl

length-token_bytes : (tokens : List ℕ) → length (token_bytes tokens) ≡ length tokens * 4
unfolding token_bytes le_put32
length-token_bytes [] = refl
length-token_bytes (t ∷ tokens) = omega (arith, length-token_bytes tokens)

update_tokens-absorb :
    (tokens : List ℕ) (c : Sha1Ctx)
    → length c.core.1 < 64
    → ((update_tokens tokens c).core ≡ absorb c.core (token_bytes tokens))
      × ((update_tokens tokens c).bytes % 2 ^ 64 ≡ (c.bytes + length (token_bytes tokens)) % 2 ^ 64)
unfolding update_tokens token_bytes absorb
update_tokens-absorb [] c o = (refl, omega arith)
update_tokens-absorb (t ∷ tokens) c o =
    let one = sha1_update-absorb c (le_put32 t) o in
    let used = length-absorb c.core (le_put32 t) o in
    let used_same = ap (λ x. length x.1) one in
    let rest = update_tokens-absorb tokens (sha1_update c (le_put32 t)) (omega arith) in
    let count = sha1_update-bytes c (le_put32 t) in
    let len = length-append (le_put32 t) (token_bytes tokens) in
    (
      rest.0
          ∙ ap (λ x. absorb x (token_bytes tokens)) one
          ∙ sym (absorb-append c.core (le_put32 t) (token_bytes tokens)),
      omega (arith, rest.1),
    )

-- For fewer than 2^32 tokens, the digest of the first `n` is the SHA-1 of their little-endian words,
-- padded and hashed in blocks of 64 bytes, in hexadecimal.
pub sha1_tokens_hex-sha1 :
    (tokens : List ℕ) (n : ℕ)
    → length tokens < 2 ^ 32
    → sha1_tokens_hex tokens n ≡ hex20 (sha1 (token_bytes (take n tokens)))
unfolding sha1_tokens_hex
sha1_tokens_hex-sha1 tokens n few =
    let all = update_tokens-absorb (take n tokens) sha1_init (omega arith) in
    let few_bytes = length-token_bytes (take n tokens) in
    let fewer = length-take n tokens in
    ap hex20 (
      sha1_final-sha1 (update_tokens (take n tokens) sha1_init) (token_bytes (take n tokens)) all.0
        (omega (arith, all.1)) (omega arith))
