-- ===== src/Engine/Tokenizer/Bpe.antt =====
-- ds4.c: byte-level BPE over one piece (`bpe_rank`, `bpe_emit_piece`), `bpe_tokenize_text`, and
-- `ds4_token_text`, which turns a token back into bytes.
pub mod Merge
pub mod RoundTrip
use go_ds.Common.{
  ℕ, zero, suc, ◌+◌, ◌-◌, ◌^◌, Bool, true, false, Option, none, some, List, [], ◌∷◌, ◌++◌, Bytes,
  length, take, drop, ltb, if◌then◌else◌, get_elem?, strip_prefix,
}
use go_ds.Engine.Utf8.{utf8_len_from_first_byte, byte_encode, decode_bytes}
use go_ds.Engine.Tokenizer.Split.{pieces}

-- The two tables of a vocabulary are what `table_get` finds in them.
pub record Vocab : Type 0 where
  pub token : List Bytes
  pub bos_id : ℕ
  pub eos_id : ℕ
  pub user_id : ℕ
  pub assistant_id : ℕ
  pub think_start_id : ℕ
  pub think_end_id : ℕ
  pub dsml_id : ℕ
  pub token_to_id : Bytes → Option ℕ
  pub merge_rank : Bytes → Option ℕ

-- the two symbols with a blank between them are looked up
unfoldable pub bpe_rank : Vocab → Bytes → Bytes → Option ℕ
bpe_rank v a b = v.merge_rank (a ++ b' ' ∷ b)

-- the first loop of `bpe_emit_piece`: one symbol for each character; the fuel is the length
unfoldable pub split_symbols : ℕ → Bytes → List Bytes
split_symbols zero s = []
split_symbols (suc n) [] = []
split_symbols (suc n) (c ∷ s) =
    let w = utf8_len_from_first_byte c in
    let k = if ltb (length (c ∷ s)) w then 1 else w in
    take k (c ∷ s) ∷ split_symbols n (drop k (c ∷ s))

-- `rank >= 0 && rank < best_rank`
abbrev pub better : Option ℕ → ℕ → Bool
better none best_rank = false
better (some rank) best_rank = ltb rank best_rank

abbrev pub rank_or : Option ℕ → ℕ → ℕ
rank_or none r = r
rank_or (some r) _ = r

-- the search for the best pair, at the pair with index `i`; `none` is the index -1
unfoldable pub best_pair : Vocab → ℕ → Option ℕ → ℕ → List Bytes → Option ℕ
best_pair v i best_i best_rank [] = best_i
best_pair v i best_i best_rank (a ∷ []) = best_i
best_pair v i best_i best_rank (a ∷ b ∷ sym) =
    let rank = bpe_rank v a b in
    let found = better rank best_rank in
    best_pair v (i + 1) (if found then some i else best_i)
      (if found then rank_or rank best_rank else best_rank) (b ∷ sym)

abbrev pub int32_max : ℕ
int32_max = 2 ^ 31 - 1

unfoldable pub find_best : Vocab → List Bytes → Option ℕ
find_best v sym = best_pair v 0 none int32_max sym

-- the symbols `i` and `i + 1` become one
unfoldable pub merge_at : ℕ → List Bytes → List Bytes
merge_at i [] = []
merge_at i (a ∷ []) = a ∷ []
merge_at zero (a ∷ b ∷ sym) = (a ++ b) ∷ sym
merge_at (suc i) (a ∷ b ∷ sym) = a ∷ merge_at i (b ∷ sym)

-- the merge loop; a round makes one symbol less, and the fuel is the number of symbols
unfoldable pub merge_all : Vocab → ℕ → List Bytes → List Bytes
merge_all v zero sym = sym
merge_all v (suc n) sym = elim (find_best v sym) [
  | none ↦ sym
  | some i ↦ merge_all v n (merge_at i sym)
]

-- a symbol that is no token falls apart into bytes, and such a byte may be no token either
unfoldable pub emit_bytes : Vocab → Bytes → List ℕ
emit_bytes v [] = []
emit_bytes v (c ∷ s) = elim (v.token_to_id (c ∷ [])) [
  | none ↦ emit_bytes v s
  | some t ↦ t ∷ emit_bytes v s
]

unfoldable pub emit_symbol : Vocab → Bytes → List ℕ
emit_symbol v s = elim (v.token_to_id s) [ none ↦ emit_bytes v s | some t ↦ t ∷ [] ]

unfoldable pub emit_symbols : Vocab → List Bytes → List ℕ
emit_symbols v [] = []
emit_symbols v (s ∷ sym) = emit_symbol v s ++ emit_symbols v sym

unfoldable pub bpe_emit_piece : Vocab → Bytes → List ℕ
bpe_emit_piece v raw_piece =
    let encoded = byte_encode raw_piece in
    let sym = split_symbols (length encoded) encoded in
    emit_symbols v (merge_all v (length sym) sym)

abbrev emit_pieces : Vocab → List Bytes → List ℕ
emit_pieces v [] = []
emit_pieces v (p ∷ ps) = bpe_emit_piece v p ++ emit_pieces v ps

-- the tokens that are pushed
unfoldable pub bpe_tokenize_text : Vocab → Bytes → List ℕ
bpe_tokenize_text v text = emit_pieces v (pieces text)

-- `vocab_token_is_literal_special`: the bytes of U+FF5C somewhere in the token
unfoldable pub is_literal_special : Bytes → Bool
is_literal_special [] = false
is_literal_special (c ∷ s) = elim (strip_prefix (0xef ∷ 0xbd ∷ 0x9c ∷ []) (c ∷ s)) [
  | some rest ↦ true
  | none ↦ is_literal_special s
]

-- `ds4_token_text` of a token that is not negative
unfoldable pub ds4_token_text : Vocab → ℕ → Bytes
ds4_token_text v token = elim (get_elem? v.token token) [
  | none ↦ []
  | some s ↦ if is_literal_special s then s else decode_bytes (length s) s
]

-- `render_tokens_text` of ds4_server.c
unfoldable pub render_tokens_text : Vocab → List ℕ → Bytes
render_tokens_text v [] = []
render_tokens_text v (t ∷ ts) = ds4_token_text v t ++ render_tokens_text v ts
