-- ===== src/Engine/Tokenizer/Split/Partition.antt =====
-- The pieces are a partition of the text.
use go_ds.Common.{
  ℕ, zero, suc, ◌+◌, ◌≤◌, ◌<◌, ◌≡◌, refl, ap, ◌∙◌, Bool, List, [], ◌∷◌, ◌++◌, Bytes, length, take,
  drop, if◌then◌else◌, peek, arith, length-drop, take-append-drop,
}
use go_ds.Engine.Tokenizer.Split.{
  next_utf8_char, count_while, count_digits, count_chars, space_run, space_len, punct_len,
  branch_len, piece_len, pieces_from, pieces, joyai_consume_letters, joyai_cjk_at, ascii_newline,
  joyai_ascii_punct_symbol, ascii_alpha, joyai_letter_like,
}
use go_ds.Engine.Utf8.{utf8_len_from_first_byte}

next_utf8_char_bounds :
    (c : ℕ) (p : Bytes) → (0 < next_utf8_char (c ∷ p)) × (next_utf8_char (c ∷ p) ≤ length (c ∷ p))
unfolding next_utf8_char utf8_len_from_first_byte
next_utf8_char_bounds c p = ground arith

count_while-le : (test : ℕ → Bool) (p : Bytes) → count_while test p ≤ length p
unfolding count_while
count_while-le test [] = omega arith
count_while-le test (c ∷ p) = ground (arith, count_while-le test p)

count_digits-le : (n : ℕ) (p : Bytes) → count_digits n p ≤ length p
unfolding count_digits
count_digits-le zero p = omega arith
count_digits-le (suc n) [] = omega arith
count_digits-le (suc n) (c ∷ p) = ground (arith, count_digits-le n p)

count_chars-le : (test : Bytes → Bool) (n : ℕ) (p : Bytes) → count_chars test n p ≤ length p
unfolding count_chars
count_chars-le test zero p = omega arith
count_chars-le test (suc n) [] = omega arith
count_chars-le test (suc n) (c ∷ p) =
    let k = next_utf8_char (c ∷ p) in
    ground (
      arith,
      next_utf8_char_bounds c p,
      count_chars-le test n (drop k (c ∷ p)),
      length-drop k (c ∷ p),
    )

space_run-le :
    (k e : ℕ) (p : Bytes)
    → e ≤ k
    → ((space_run k e p).0 ≤ k + length p) × ((space_run k e p).1 ≤ (space_run k e p).0)
unfolding space_run
space_run-le k e [] h = (omega arith, h)
space_run-le k e (c ∷ p) h =
    ground (arith, space_run-le (k + 1) (if ascii_newline c then k + 1 else e) p)

space_len-le : (p : Bytes) → space_len p ≤ length p
unfolding space_len
space_len-le p = ground (arith, space_run-le 0 0 p (omega arith))

punct_len-le : (p : Bytes) → punct_len p ≤ length p
unfolding punct_len
punct_len-le p =
    let n = count_while joyai_ascii_punct_symbol p in
    omega (
      arith,
      count_while-le joyai_ascii_punct_symbol p,
      count_while-le ascii_newline (drop n p),
      length-drop n p,
    )

joyai_consume_letters-le : (p : Bytes) → joyai_consume_letters p ≤ length p
unfolding joyai_consume_letters
joyai_consume_letters-le p = count_chars-le (λ q. joyai_letter_like (peek q)) (length p) p

branch_len-le : (c : ℕ) (p : Bytes) → branch_len (c ∷ p) ≤ length (c ∷ p)
unfolding branch_len
branch_len-le c p = ground (
  arith,
  count_digits-le 3 (c ∷ p),
  count_chars-le joyai_cjk_at (length (c ∷ p)) (c ∷ p),
  count_while-le ascii_alpha p,
  joyai_consume_letters-le (c ∷ p),
  joyai_consume_letters-le p,
  punct_len-le p,
  punct_len-le (c ∷ p),
  space_len-le (c ∷ p),
  next_utf8_char_bounds c p,
)

-- Every round of the splitter moves forward, and not past the end.
pub piece_len_bounds :
    (c : ℕ) (p : Bytes) → (0 < piece_len (c ∷ p)) × (piece_len (c ∷ p) ≤ length (c ∷ p))
unfolding piece_len
piece_len_bounds c p = ground (arith, branch_len-le c p, next_utf8_char_bounds c p)

-- The pieces in order, joined.
abbrev pub join : List Bytes → Bytes
join [] = []
join (x ∷ xs) = x ++ join xs

join-pieces_from : (n : ℕ) (p : Bytes) → length p ≤ n → join (pieces_from n p) ≡ p
unfolding pieces_from
join-pieces_from zero [] h = refl
join-pieces_from zero (c ∷ p) h = elim h [ ]
join-pieces_from (suc n) [] h = refl
join-pieces_from (suc n) (c ∷ p) h =
    let k = piece_len (c ∷ p) in
    let b = piece_len_bounds c p in
    ap (◌++◌ (take k (c ∷ p)))
      (join-pieces_from n (drop k (c ∷ p)) (omega (arith, length-drop k (c ∷ p))))
    ∙ take-append-drop k (c ∷ p)

-- The pieces of a text are a partition of it: nothing is lost, doubled or moved.
pub join-pieces : (text : Bytes) → join (pieces text) ≡ text
unfolding pieces
join-pieces text = join-pieces_from (length text) text (omega arith)
