-- ===== src/Engine/Tokenizer/Tests.antt =====
-- The tokenizer on a small vocabulary: the 256 bytes, and "th" as the one merge.
use go_ds.Common.{
  ℕ, zero, suc, ◌+◌, ◌≡◌, refl, ap, Bool, true, false, Option, none, some, List, [], ◌∷◌, ◌++◌, inl,
  inr, Bytes, codes, get_elem?, arith, strip_prefix, if◌then◌else◌, same_bytes, same_bytes_sound,
  Option-cases, Bool-cases,
}
use go_ds.Engine.Utf8.{
  decode_bytes, utf8_decode_one, gpt2_codepoint_to_byte, codepoint_to_byte_from, byte_encode,
  utf8_put, gpt2_byte_to_codepoint, byte_to_codepoint_from, utf8_len_from_first_byte,
}
use go_ds.Engine.Utf8.RoundTrip.{all_below, all_below_sound}
use go_ds.Engine.Tokenizer.Split.{
  pieces, pieces_from, piece_len, branch_len, next_utf8_char, joyai_cjk_at, joyai_consume_letters,
  count_chars, count_while, count_digits, punct_len, space_len, space_run, utf8_peek_one,
}
use go_ds.Engine.Tokenizer.Split.Partition.{join, join-pieces}
use go_ds.Engine.Tokenizer.Bpe.{
  Vocab, bpe_rank, bpe_tokenize_text, render_tokens_text, merge_all, find_best, best_pair,
  int32_max, ds4_token_text, is_literal_special,
}
use go_ds.Engine.Tokenizer.Bpe.Merge.{NoMerge, merge_all-NoMerge, IsBest, find_best-IsBest}
use go_ds.Engine.Tokenizer.Chat.{
  think_high, bos_text, eos_text, user_text, assistant_text, think_start_text, think_end_text,
  dsml_text, specials, tokenize_rendered_chat, encode_chat_prompt, is_max,
}
use go_ds.Engine.Tokenizer.Chat.Rendered.{Marked, render_tokens_text-tokenize_rendered_chat}
use go_ds.Engine.Tokenizer.Chat.Prompt.{
  IsPlain, prompt_text, tokenize_rendered_chat-encode_chat_prompt,
}
use go_ds.Engine.Tokenizer.Bpe.RoundTrip.{IsByteLevel, render_tokens_text-bpe_tokenize_text}

index_of : ℕ → Bytes → List Bytes → Option ℕ
index_of i s [] = none
index_of i s (x ∷ xs) = elim (same_bytes x s) [ true ↦ some i | false ↦ index_of (i + 1) s xs ]

byte_tokens : ℕ → ℕ → List Bytes
byte_tokens zero b = codes "th" ∷ []
byte_tokens (suc n) b = byte_encode (b ∷ []) ∷ byte_tokens n (b + 1)

small : Vocab
unfolding index_of byte_tokens
small = record {
  token = byte_tokens 256 0;
  bos_id = 0;
  eos_id = 1;
  user_id = 2;
  assistant_id = 3;
  think_start_id = 4;
  think_end_id = 5;
  dsml_id = 6;
  token_to_id = λ s. index_of 0 s (byte_tokens 256 0);
  merge_rank = λ s. if same_bytes s (codes "t h") then some 0 else none;
}

split_run :
    pieces (codes "int  x1234 = foo;\n\n")
    ≡ codes "int"
      ∷ codes " "
      ∷ codes " x"
      ∷ codes "123"
      ∷ codes "4"
      ∷ codes " ="
      ∷ codes " foo"
      ∷ codes ";\n\n"
      ∷ []
unfolding pieces pieces_from piece_len branch_len next_utf8_char joyai_cjk_at joyai_consume_letters
    count_chars count_while count_digits punct_len space_len space_run utf8_peek_one
    utf8_len_from_first_byte
split_run = refl

index_of_indexed :
    (i : ℕ) (s : Bytes) (xs : List Bytes) (t : ℕ)
    → index_of i s xs ≡ some t
    → (j : ℕ) × (t ≡ i + j) × (get_elem? xs j ≡ some s)
unfolding index_of
index_of_indexed i s [] t h = cc
index_of_indexed i s (x ∷ xs) t h = elim (Bool-cases (same_bytes x s)) [
  | inl e ↦ (0, ground arith, ap some (same_bytes_sound x s e))
  | inr e ↦
      let (j, at, found) = index_of_indexed (i + 1) s xs t (ground arith) in
      (suc j, omega arith, found)
]

small_indexed :
    (s : Bytes) (t : ℕ) → small.token_to_id s ≡ some t → get_elem? small.token t ≡ some s
unfolding small
small_indexed s t h =
    let (j, at, found) = index_of_indexed 0 s (byte_tokens 256 0) t h in
    let same : t ≡ j = omega arith in rw same found

has_token : Bytes → Bool
has_token s = elim (small.token_to_id s) [ none ↦ false | some t ↦ true ]

has_token_sound : (s : Bytes) → has_token s ≡ true → (t : ℕ) × (small.token_to_id s ≡ some t)
unfolding has_token
has_token_sound s h = elim (Option-cases (small.token_to_id s)) [
  | inl e ↦ absurd (ground arith)
  | inr found ↦ found
]

bytes_table : all_below 256 (λ b. has_token (byte_encode (b ∷ []))) ≡ true
unfolding all_below has_token small byte_encode utf8_put gpt2_byte_to_codepoint
    byte_to_codepoint_from same_bytes
bytes_table = refl

-- a blank and an `h` behind it split "t h" in one way
split_th : (a b : Bytes) → a ++ b' ' ∷ b ≡ codes "t h" → a ++ b ≡ codes "th"
split_th [] b e = ground arith
split_th (x ∷ []) b e = ground arith
split_th (x ∷ y ∷ []) b e = ground arith
split_th (x ∷ y ∷ z ∷ []) b e = ground arith
split_th (x ∷ y ∷ z ∷ w ∷ a) b e = ground arith

th_found : index_of 0 (codes "th") (byte_tokens 256 0) ≡ some 256
unfolding index_of byte_tokens byte_encode utf8_put gpt2_byte_to_codepoint byte_to_codepoint_from
    same_bytes
th_found = refl

small_merges :
    (a b : Bytes) (r : ℕ)
    → bpe_rank small a b ≡ some r
    → (t : ℕ) × (small.token_to_id (a ++ b) ≡ some t)
unfolding bpe_rank small
small_merges a b r h = elim (Bool-cases (same_bytes (a ++ b' ' ∷ b) (codes "t h"))) [
  | inl e ↦ rw (split_th a b (same_bytes_sound _ _ e)) (256, th_found)
  | inr e ↦ absurd (ground arith)
]

small-IsByteLevel : IsByteLevel small
small-IsByteLevel = record {
  indexed = small_indexed;
  bytes = λ b h. has_token_sound _ (all_below_sound 256 _ b bytes_table h);
  merges = small_merges;
}

join-pieces_example : join (pieces (codes "a  b\n")) ≡ codes "a  b\n"
join-pieces_example = join-pieces (codes "a  b\n")

find_best-IsBest_example :
    (r : ℕ) × IsBest small int32_max (codes "t" ∷ codes "h" ∷ codes "e" ∷ []) 0 r
unfolding small find_best best_pair bpe_rank same_bytes
find_best-IsBest_example = find_best-IsBest small (codes "t" ∷ codes "h" ∷ codes "e" ∷ []) 0 refl

merge_all-NoMerge_example :
    NoMerge small (merge_all small 3 (codes "t" ∷ codes "h" ∷ codes "e" ∷ []))
merge_all-NoMerge_example =
    merge_all-NoMerge small 3 (codes "t" ∷ codes "h" ∷ codes "e" ∷ []) (omega arith)

render_tokens_text-bpe_tokenize_text_example :
    render_tokens_text small (bpe_tokenize_text small (codes "the 12\n")) ≡ codes "the 12\n"
render_tokens_text-bpe_tokenize_text_example =
    render_tokens_text-bpe_tokenize_text small (codes "the 12\n") small-IsByteLevel (omega arith)

abbrev markers : List Bytes
markers =
    bos_text ∷ eos_text ∷ user_text ∷ assistant_text ∷ think_start_text ∷ think_end_text ∷ dsml_text
    ∷ []

-- the same vocabulary with the tokens of the markers
chatty : Vocab
unfolding byte_tokens small
chatty = record {
  token = byte_tokens 256 0 ++ markers;
  bos_id = 257;
  eos_id = 258;
  user_id = 259;
  assistant_id = 260;
  think_start_id = 261;
  think_end_id = 262;
  dsml_id = 263;
  token_to_id = small.token_to_id;
  merge_rank = small.merge_rank;
}

get_elem?-append :
    (xs ys : List Bytes) (i : ℕ) (s : Bytes)
    → get_elem? xs i ≡ some s
    → get_elem? (xs ++ ys) i ≡ some s
get_elem?-append [] ys i s h = cc
get_elem?-append (x ∷ xs) ys zero s h = h
get_elem?-append (x ∷ xs) ys (suc i) s h = get_elem?-append xs ys i s h

chatty-IsByteLevel : IsByteLevel chatty
unfolding chatty small bpe_rank
chatty-IsByteLevel = record {
  indexed = λ s t h. get_elem?-append (byte_tokens 256 0) markers t s (small_indexed s t h);
  bytes = small-IsByteLevel.bytes;
  merges = small_merges;
}

chatty-Marked : Marked chatty
unfolding specials chatty byte_tokens ds4_token_text is_literal_special strip_prefix decode_bytes
    byte_encode utf8_put utf8_decode_one utf8_len_from_first_byte gpt2_codepoint_to_byte
    gpt2_byte_to_codepoint byte_to_codepoint_from codepoint_to_byte_from
chatty-Marked = (refl, (refl, (refl, (refl, (refl, (refl, (refl, tt)))))))

render_tokens_text-tokenize_rendered_chat_example :
    render_tokens_text chatty
      (tokenize_rendered_chat chatty (user_text ++ codes "the" ++ think_end_text))
    ≡ user_text ++ codes "the" ++ think_end_text
render_tokens_text-tokenize_rendered_chat_example =
    render_tokens_text-tokenize_rendered_chat chatty (user_text ++ codes "the" ++ think_end_text)
      chatty-IsByteLevel chatty-Marked (omega arith)

nice-IsPlain : IsPlain (codes "be nice")
nice-IsPlain = ground arith

hi-IsPlain : IsPlain (codes "hi")
hi-IsPlain = ground arith

high_is_not_max : is_max think_high ≡ false
unfolding is_max
high_is_not_max = refl

tokenize_rendered_chat-encode_chat_prompt_example :
    tokenize_rendered_chat chatty (prompt_text (codes "be nice") (codes "hi") think_high)
    ≡ encode_chat_prompt (codes "try hard") chatty (codes "be nice") (codes "hi") think_high
tokenize_rendered_chat-encode_chat_prompt_example =
    tokenize_rendered_chat-encode_chat_prompt (codes "try hard") chatty (codes "be nice")
      (codes "hi") think_high nice-IsPlain hi-IsPlain high_is_not_max
