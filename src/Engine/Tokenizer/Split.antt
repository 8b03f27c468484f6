-- ===== src/Engine/Tokenizer/Split.antt =====
-- ds4.c: the pre-tokenizer, `bpe_tokenize_text`. A position in the text is the rest of the text
-- from there; each function gives the number of bytes by which it moves the position.
pub mod Partition
use go_ds.Common.{
  ℕ, zero, suc, ◌+◌, ◌-◌, ◌*◌, ◌%◌, ◌^◌, Bool, true, false, not, ◌&&◌, ◌||◌, List, [], ◌∷◌, Bytes,
  length, take, drop, within, ltb, ◌==◌, if◌then◌else◌, peek,
}
use go_ds.Engine.Utf8.{utf8_len_from_first_byte}

-- `next_utf8_char`, as a distance
unfoldable pub next_utf8_char : Bytes → ℕ
next_utf8_char p = let n = utf8_len_from_first_byte (peek p) in if ltb (length p) n then 1 else n

abbrev pub ascii_alpha : ℕ → Bool
ascii_alpha c = within b'A' b'Z' c || within b'a' b'z' c

abbrev pub ascii_digit : ℕ → Bool
ascii_digit = within b'0' b'9'

-- the blank, and tab, line feed, vertical tab, form feed and carriage return
abbrev pub ascii_space : ℕ → Bool
ascii_space c = c == b' ' || within 9 13 c

abbrev pub ascii_newline : ℕ → Bool
ascii_newline c = c == 10 || c == 13

abbrev pub joyai_ascii_punct_symbol : ℕ → Bool
joyai_ascii_punct_symbol c =
    within b'!' b'/' c || within b':' b'@' c || within b'[' 96 c || within b'{' b'~' c

abbrev pub utf8_is_cjk_hira_kata : ℕ → Bool
utf8_is_cjk_hira_kata cp =
    within 0x4e00 0x9fa5 cp || within 0x3040 0x309f cp || within 0x30a0 0x30ff cp

-- the byte at an offset, 0 where there is none (and the source reads none)
abbrev byte_at : Bytes → ℕ → ℕ
byte_at p i = peek (drop i p)

-- the code point that `utf8_peek_one` returns
unfoldable pub utf8_peek_one : Bytes → ℕ
utf8_peek_one p =
    let c0 = peek p in
    let n = next_utf8_char p in
    if n == 1
    then c0
    else if n == 2
    then c0 % 32 * 2 ^ 6 + byte_at p 1 % 64
    else if n == 3
    then c0 % 16 * 2 ^ 12 + byte_at p 1 % 64 * 2 ^ 6 + byte_at p 2 % 64
    else c0 % 8 * 2 ^ 18 + byte_at p 1 % 64 * 2 ^ 12 + byte_at p 2 % 64 * 2 ^ 6 + byte_at p 3 % 64

-- `joyai_letter_like_at`, on the byte at the position
abbrev pub joyai_letter_like : ℕ → Bool
joyai_letter_like c = if ltb c 128 then ascii_alpha c else true

unfoldable pub joyai_cjk_at : Bytes → Bool
joyai_cjk_at p = if ltb (peek p) 128 then false else utf8_is_cjk_hira_kata (utf8_peek_one p)

-- `while (pos < len && test(text[pos])) pos++`
unfoldable pub count_while : (ℕ → Bool) → Bytes → ℕ
count_while test [] = 0
count_while test (c ∷ p) = elim (test c) [ true ↦ suc (count_while test p) | false ↦ 0 ]

-- the same with `ndigits < n`
unfoldable pub count_digits : ℕ → Bytes → ℕ
count_digits zero p = 0
count_digits (suc n) [] = 0
count_digits (suc n) (c ∷ p) = elim (ascii_digit c) [ true ↦ suc (count_digits n p) | false ↦ 0 ]

-- `while (pos < len && test(pos)) pos = next_utf8_char(pos)`, with fuel
unfoldable pub count_chars : (Bytes → Bool) → ℕ → Bytes → ℕ
count_chars test zero p = 0
count_chars test (suc n) [] = 0
count_chars test (suc n) (c ∷ p) =
    let step = next_utf8_char (c ∷ p) in
    elim (test (c ∷ p)) [ true ↦ step + count_chars test n (drop step (c ∷ p)) | false ↦ 0 ]

-- a round moves by a byte at least
unfoldable pub joyai_consume_letters : Bytes → ℕ
joyai_consume_letters p = count_chars (λ q. joyai_letter_like (peek q)) (length p) p

-- the run of white space: its length, and the end of its last newline (0 if there is none)
unfoldable pub space_run : ℕ → ℕ → Bytes → ℕ × ℕ
space_run p last_newline_end [] = (p, last_newline_end)
space_run p last_newline_end (c ∷ rest) = elim (ascii_space c) [
  | true ↦ space_run (p + 1) (if ascii_newline c then p + 1 else last_newline_end) rest
  | false ↦ (p, last_newline_end)
]

-- the branch at white space
unfoldable pub space_len : Bytes → ℕ
space_len text =
    let (p, last_newline_end) = space_run 0 0 text in
    let next = byte_at text p in
    if not (last_newline_end == 0)
    then last_newline_end
    else if ltb p (length text)
        && ltb 1 p
        && (joyai_letter_like next || joyai_ascii_punct_symbol next)
    then p - 1
    else p

-- punctuation, then newlines
unfoldable pub punct_len : Bytes → ℕ
punct_len p =
    let n = count_while joyai_ascii_punct_symbol p in n + count_while ascii_newline (drop n p)

-- one round of `bpe_tokenize_text`, up to its last test
unfoldable pub branch_len : Bytes → ℕ
branch_len p =
    let c = peek p in
    let d = byte_at p 1 in
    let more = ltb 1 (length p) in
    if ascii_digit c
    then count_digits 3 p
    else if joyai_cjk_at p
    then count_chars joyai_cjk_at (length p) p
    else if joyai_ascii_punct_symbol c && more && ascii_alpha d
    then 1 + count_while ascii_alpha (drop 1 p)
    else if joyai_letter_like c
    then joyai_consume_letters p
    else if not (ascii_newline c) && not (joyai_ascii_punct_symbol c) && more && joyai_letter_like d
    then 1 + joyai_consume_letters (drop 1 p)
    else if c == b' ' && more && joyai_ascii_punct_symbol d
    then 1 + punct_len (drop 1 p)
    else if joyai_ascii_punct_symbol c
    then punct_len p
    else if ascii_space c
    then space_len p
    else next_utf8_char p

-- `if (pos == start) pos = next_utf8_char(text, len, pos)`
unfoldable pub piece_len : Bytes → ℕ
piece_len p = let n = branch_len p in if n == 0 then next_utf8_char p else n

-- the pieces that `bpe_tokenize_text` hands to `bpe_emit_piece`, with fuel
unfoldable pub pieces_from : ℕ → Bytes → List Bytes
pieces_from zero p = []
pieces_from (suc n) [] = []
pieces_from (suc n) (c ∷ p) =
    let k = piece_len (c ∷ p) in take k (c ∷ p) ∷ pieces_from n (drop k (c ∷ p))

unfoldable pub pieces : Bytes → List Bytes
pieces text = pieces_from (length text) text
