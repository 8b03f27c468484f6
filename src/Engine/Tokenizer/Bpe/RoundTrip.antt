-- ===== src/Engine/Tokenizer/Bpe/RoundTrip.antt =====
-- Text through the tokenizer and back.
use go_ds.Common.{
  ℕ, zero, suc, ◌≤◌, ◌<◌, ◌≡◌, ◌≢◌, refl, ap, ◌∙◌, sym as flip, inl, inr, false, some, List, [],
  ◌∷◌, ◌++◌, Bytes, length, leb, arith, All, All-append, All-append_left, All-append_right,
  Option-cases, Bool-cases, get_elem?, length-append, append_assoc, strip_prefix, append-nil,
}
use go_ds.Engine.Utf8.{utf8_put, byte_encode, utf8_len_from_first_byte, gpt2_byte_to_codepoint}
use go_ds.Engine.Utf8.RoundTrip.{codepoint_of_byte, decode_bytes-byte_encode}
use go_ds.Engine.Tokenizer.Split.{pieces}
use go_ds.Engine.Tokenizer.Split.Partition.{join, join-pieces}
use go_ds.Engine.Tokenizer.Bpe.{
  Vocab, bpe_rank, split_symbols, find_best, merge_at, merge_all, emit_symbol, emit_symbols,
  bpe_emit_piece, emit_pieces, bpe_tokenize_text, is_literal_special, ds4_token_text,
  render_tokens_text,
}
use go_ds.Engine.Tokenizer.Bpe.Merge.{pair_rank, find_best-IsBest}

abbrev pub IsByte : ℕ → Type 0
IsByte b = b < 256

-- What the tokenizer relies on in a vocabulary: a token that is found stands at its index, each
-- byte has a token, and so has every merge.
pub record IsByteLevel (v : Vocab) : Type 0 where
  pub indexed : (s : Bytes) (t : ℕ) → v.token_to_id s ≡ some t → get_elem? v.token t ≡ some s
  pub bytes : (b : ℕ) → b < 256 → (t : ℕ) × (v.token_to_id (byte_encode (b ∷ [])) ≡ some t)
  pub merges :
      (a b : Bytes) (r : ℕ) → bpe_rank v a b ≡ some r → (t : ℕ) × (v.token_to_id (a ++ b) ≡ some t)

-- a run of bytes whose encoding is a token
abbrev IsChunk : Vocab → Bytes → Type 0
IsChunk v s = All IsByte s × ((t : ℕ) × (v.token_to_id (byte_encode s) ≡ some t))

abbrev encode_all : List Bytes → List Bytes
encode_all [] = []
encode_all (s ∷ ss) = byte_encode s ∷ encode_all ss

byte_encode-append : (a b : Bytes) → byte_encode (a ++ b) ≡ byte_encode a ++ byte_encode b
unfolding byte_encode
byte_encode-append [] b = refl
byte_encode-append (c ∷ a) b =
    ap (◌++◌ (utf8_put (gpt2_byte_to_codepoint c))) (byte_encode-append a b)
    ∙ flip (append_assoc (utf8_put (gpt2_byte_to_codepoint c)) (byte_encode a) (byte_encode b))

split_symbols_step :
    (n cp : ℕ) (rest : Bytes)
    → cp < 0x7ff
    → split_symbols (suc n) (utf8_put cp ++ rest) ≡ utf8_put cp ∷ split_symbols n rest
unfolding split_symbols utf8_put utf8_len_from_first_byte
split_symbols_step n cp rest h = elim (Bool-cases (leb cp 0x7f)) [
  | inl e ↦ ground arith
  | inr e ↦ ground arith
]

singles : Bytes → List Bytes
singles [] = []
singles (b ∷ s) = (b ∷ []) ∷ singles s

length-utf8_put : (cp : ℕ) → 0 < length (utf8_put cp)
unfolding utf8_put
length-utf8_put cp = ground arith

split_symbols-byte_encode :
    (n : ℕ) (s : Bytes)
    → All IsByte s
    → length (byte_encode s) ≤ n
    → split_symbols n (byte_encode s) ≡ encode_all (singles s)
unfolding byte_encode singles
split_symbols-byte_encode zero [] h l = unfold split_symbols in refl
split_symbols-byte_encode (suc n) [] h l = unfold split_symbols in refl
split_symbols-byte_encode zero (b ∷ s) h l = absurd (
    omega (
      arith,
      length-utf8_put (gpt2_byte_to_codepoint b),
      length-append (utf8_put (gpt2_byte_to_codepoint b)) (byte_encode s),
    ))
split_symbols-byte_encode (suc n) (b ∷ s) h l =
    let cp = gpt2_byte_to_codepoint b in
    rw append-nil (
      split_symbols_step n cp (byte_encode s) (codepoint_of_byte b h.0).0
      ∙ ap (◌∷◌ (utf8_put cp)) (
          split_symbols-byte_encode n s h.1
            (omega (arith, length-utf8_put cp, length-append (utf8_put cp) (byte_encode s)))))

join-singles : (s : Bytes) → join (singles s) ≡ s
unfolding singles
join-singles [] = refl
join-singles (b ∷ s) = ap (◌∷◌ b) (join-singles s)

singles-IsChunk :
    (v : Vocab) (s : Bytes) → IsByteLevel v → All IsByte s → All (IsChunk v) (singles s)
unfolding singles
singles-IsChunk v [] y h = tt
singles-IsChunk v (b ∷ s) y h = (((h.0, tt), y.bytes b h.0), singles-IsChunk v s y h.1)

-- Merging encoded chunks is merging the chunks.
merge_at-encode_all :
    (i : ℕ) (ss : List Bytes) → merge_at i (encode_all ss) ≡ encode_all (merge_at i ss)
unfolding merge_at
merge_at-encode_all i [] = refl
merge_at-encode_all i (a ∷ []) = refl
merge_at-encode_all zero (a ∷ b ∷ ss) = ap (λ t. t ∷ encode_all ss) (flip (byte_encode-append a b))
merge_at-encode_all (suc i) (a ∷ b ∷ ss) = ap (◌∷◌ (byte_encode a)) (merge_at-encode_all i (b ∷ ss))

join-merge_at : (i : ℕ) (ss : List Bytes) → join (merge_at i ss) ≡ join ss
unfolding merge_at
join-merge_at i [] = refl
join-merge_at i (a ∷ []) = refl
join-merge_at zero (a ∷ b ∷ ss) = append_assoc a b (join ss)
join-merge_at (suc i) (a ∷ b ∷ ss) = ap (◌++◌ a) (join-merge_at i (b ∷ ss))

merge_at-IsChunk :
    (v : Vocab) (i r : ℕ) (ss : List Bytes)
    → IsByteLevel v
    → pair_rank v (encode_all ss) i ≡ some r
    → All (IsChunk v) ss
    → All (IsChunk v) (merge_at i ss)
unfolding merge_at
merge_at-IsChunk v i r [] y e h = tt
merge_at-IsChunk v i r (a ∷ []) y e h = h
merge_at-IsChunk v zero r (a ∷ b ∷ ss) y e h =
    let (t, found) = y.merges (byte_encode a) (byte_encode b) r e in
    ((All-append IsByte a b h.0.0 h.1.0.0, (t, rw byte_encode-append found)), h.1.1)
merge_at-IsChunk v (suc i) r (a ∷ b ∷ ss) y e h = (h.0, merge_at-IsChunk v i r (b ∷ ss) y e h.1)

-- What the merge loop makes of encoded chunks: encoded chunks of the same bytes.
record Merged (v : Vocab) (raw : Bytes) (sym : List Bytes) : Type 0 where
  chunks : List Bytes
  encodes : sym ≡ encode_all chunks
  same : join chunks ≡ raw
  tokens : All (IsChunk v) chunks

merge_all-Merged :
    (v : Vocab) (n : ℕ) (raw : Bytes) (sym : List Bytes)
    → IsByteLevel v
    → Merged v raw sym
    → Merged v raw (merge_all v n sym)
unfolding merge_all
merge_all-Merged v zero raw sym y m = m
merge_all-Merged v (suc n) raw sym y m = elim (Option-cases (find_best v sym)) [
  | inl e ↦ rw (e, merge_all) m
  | inr (i, e) ↦
      let (r, best) = find_best-IsBest v sym i e in
      rw (e, merge_all)
        (merge_all-Merged v n raw (merge_at i sym) y (record {
          chunks = merge_at i m.chunks;
          encodes = ap (merge_at i) m.encodes ∙ merge_at-encode_all i m.chunks;
          same = join-merge_at i m.chunks ∙ m.same;
          tokens = merge_at-IsChunk v i r m.chunks y (rw m.encodes at best.at) m.tokens;
        }))
]

-- An encoded byte string holds no byte 0xef, so a token of that kind is no literal special.
utf8_put-IsPlain : (cp : ℕ) → cp < 0x7ff → All (λ c. c ≢ 0xef) (utf8_put cp)
unfolding utf8_put
utf8_put-IsPlain cp h = ground arith

byte_encode-IsPlain : (s : Bytes) → All IsByte s → All (λ c. c ≢ 0xef) (byte_encode s)
unfolding byte_encode
byte_encode-IsPlain [] h = tt
byte_encode-IsPlain (b ∷ s) h =
    All-append (λ c. c ≢ 0xef) (utf8_put (gpt2_byte_to_codepoint b)) (byte_encode s)
      (utf8_put-IsPlain _ (codepoint_of_byte b h.0).0) (byte_encode-IsPlain s h.1)

is_literal_special_plain : (s : Bytes) → All (λ c. c ≢ 0xef) s → is_literal_special s ≡ false
unfolding is_literal_special strip_prefix
is_literal_special_plain [] h = refl
is_literal_special_plain (c ∷ s) h = ground (arith, is_literal_special_plain s h.1)

length-byte_encode : (s : Bytes) → length s ≤ length (byte_encode s)
unfolding byte_encode
length-byte_encode [] = omega arith
length-byte_encode (b ∷ s) =
    let cp = gpt2_byte_to_codepoint b in
    omega
      (arith, length-byte_encode s, length-utf8_put cp, length-append (utf8_put cp) (byte_encode s))

ds4_token_text_chunk :
    (v : Vocab) (s : Bytes) (t : ℕ)
    → All IsByte s
    → get_elem? v.token t ≡ some (byte_encode s)
    → ds4_token_text v t ≡ s
unfolding ds4_token_text
ds4_token_text_chunk v s t h e =
    rw (e, ds4_token_text)
      (rw (is_literal_special_plain (byte_encode s) (byte_encode-IsPlain s h))
        (decode_bytes-byte_encode (length (byte_encode s)) s h (length-byte_encode s)))

emit_symbol_token :
    (v : Vocab) (s : Bytes) (t : ℕ) → v.token_to_id s ≡ some t → emit_symbol v s ≡ t ∷ []
unfolding emit_symbol
emit_symbol_token v s t e = rw (e, emit_symbol)

render-emit_symbols :
    (v : Vocab) (ss : List Bytes) (more : List ℕ)
    → IsByteLevel v
    → All (IsChunk v) ss
    → render_tokens_text v (emit_symbols v (encode_all ss) ++ more)
      ≡ join ss ++ render_tokens_text v more
unfolding render_tokens_text emit_symbols
render-emit_symbols v [] more y h = refl
render-emit_symbols v (s ∷ ss) more y h =
    let (t, e) = h.0.1 in
    rw
      (
        emit_symbol_token v (byte_encode s) t e,
        ds4_token_text_chunk v s t h.0.0 (y.indexed _ t e),
        render-emit_symbols v ss more y h.1,
      )
      (flip (append_assoc s (join ss) (render_tokens_text v more)))

render-bpe_emit_piece :
    (v : Vocab) (raw : Bytes) (more : List ℕ)
    → IsByteLevel v
    → All IsByte raw
    → render_tokens_text v (bpe_emit_piece v raw ++ more) ≡ raw ++ render_tokens_text v more
unfolding bpe_emit_piece
render-bpe_emit_piece v raw more y h =
    let encoded = byte_encode raw in
    let sym = split_symbols (length encoded) encoded in
    let start : Merged v raw sym = record {
      chunks = singles raw;
      encodes = split_symbols-byte_encode (length encoded) raw h (omega arith);
      same = join-singles raw;
      tokens = singles-IsChunk v raw y h;
    } in
    let m = merge_all-Merged v (length sym) raw sym y start in
    rw m.encodes (
      render-emit_symbols v m.chunks more y m.tokens
      ∙ ap (λ t. t ++ render_tokens_text v more) m.same)

All-join : (ps : List Bytes) → All IsByte (join ps) → All (All IsByte) ps
All-join [] h = tt
All-join (p ∷ ps) h =
    (All-append_left IsByte p (join ps) h, All-join ps (All-append_right IsByte p (join ps) h))

render-emit_pieces :
    (v : Vocab) (ps : List Bytes)
    → IsByteLevel v
    → All (All IsByte) ps
    → render_tokens_text v (emit_pieces v ps) ≡ join ps
render-emit_pieces v [] y h = unfold render_tokens_text in refl
render-emit_pieces v (p ∷ ps) y h =
    render-bpe_emit_piece v p (emit_pieces v ps) y h.0 ∙ ap (◌++◌ p) (render-emit_pieces v ps y h.1)

-- Over a byte-level vocabulary, the text of the tokens of a text is the text itself, byte for
-- byte: whatever the splitting and the merges do, nothing is lost.
pub render_tokens_text-bpe_tokenize_text :
    (v : Vocab) (text : Bytes)
    → IsByteLevel v
    → All (λ b. b < 256) text
    → render_tokens_text v (bpe_tokenize_text v text) ≡ text
unfolding bpe_tokenize_text
render_tokens_text-bpe_tokenize_text v text y h =
    render-emit_pieces v (pieces text) y (All-join (pieces text) (rw join-pieces h))
    ∙ join-pieces text
