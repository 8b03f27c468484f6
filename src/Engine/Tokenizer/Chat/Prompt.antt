-- ===== src/Engine/Tokenizer/Chat/Prompt.antt =====
-- `encode_chat_prompt` against `tokenize_rendered_chat_vocab`: a prompt put together out of tokens
-- is the prompt's text put together and tokenized.
use go_ds.Common.{
  ℕ, zero, suc, ◌≡◌, ◌≤◌, refl, ap, sym, ◌∙◌, false, none, some, List, [], ◌∷◌, ◌++◌, Bytes, length,
  All, append_assoc, append-nil, arith, ◌==◌, strip_prefix, Option-cases, inl, inr,
}
use go_ds.Engine.Tokenizer.Split.{pieces, pieces_from}
use go_ds.Engine.Tokenizer.Bpe.{Vocab, bpe_tokenize_text}
use go_ds.Engine.Tokenizer.Chat.{
  ThinkMode, think_none, think_high, think_max, ds4_think_mode_enabled, bos_text, user_text,
  assistant_text, think_start_text, think_end_text, specials, special_in, special_token_at,
  tokenize_span, rendered_from, tokenize_rendered_chat, think_token, is_max, encode_chat_prompt,
}
use go_ds.Engine.Tokenizer.Chat.Rendered.{special_token_at-shorter}

-- no byte of a text starts a marker
abbrev pub IsPlain : Bytes → Type 0
IsPlain s = All (λ c. ((c == b'<') ≡ false) × ((c == 0xef) ≡ false)) s

strip_prefix-other :
    (l c : ℕ) (lit p : Bytes) → (l == c) ≡ false → strip_prefix (l ∷ lit) (c ∷ p) ≡ none
unfolding strip_prefix
strip_prefix-other l c lit p h = rw (h, strip_prefix)

special_in-none :
    (ss : List (Bytes × ℕ)) (p : Bytes)
    → All (λ s. strip_prefix s.0 p ≡ none) ss
    → special_in ss p ≡ none
unfolding special_in
special_in-none [] p h = refl
special_in-none (s ∷ ss) p h = rw (h.0, special_in) (special_in-none ss p h.1)

plain_byte :
    (v : Vocab) (c : ℕ) (p : Bytes)
    → (c == b'<') ≡ false
    → (c == 0xef) ≡ false
    → special_token_at v (c ∷ p) ≡ none
unfolding special_token_at specials
plain_byte v c p h k =
    let angle : (b'<' == c) ≡ false = ground arith in
    let mark : (0xef == c) ≡ false = ground arith in
    special_in-none (specials v) (c ∷ p) (
      strip_prefix-other b'<' c _ p angle,
      (
        strip_prefix-other b'<' c _ p angle,
        (
          strip_prefix-other b'<' c _ p angle,
          (
            strip_prefix-other b'<' c _ p angle,
            (
              strip_prefix-other b'<' c _ p angle,
              (strip_prefix-other b'<' c _ p angle, (strip_prefix-other 0xef c _ p mark, tt)),
            ),
          ),
        ),
      ),
    )

abbrev scan : Vocab → Bytes → Bytes → List ℕ
scan v span p = rendered_from v (length p) span p

-- enough fuel is enough
rendered_from-enough :
    (v : Vocab) (n m : ℕ) (span p : Bytes)
    → length p ≤ n
    → length p ≤ m
    → rendered_from v n span p ≡ rendered_from v m span p
unfolding rendered_from
rendered_from-enough v zero zero span [] f g = refl
rendered_from-enough v zero (suc m) span [] f g = refl
rendered_from-enough v (suc n) zero span [] f g = refl
rendered_from-enough v (suc n) (suc m) span [] f g = refl
rendered_from-enough v zero m span (c ∷ p) f g = absurd (omega arith)
rendered_from-enough v (suc n) zero span (c ∷ p) f g = absurd (omega arith)
rendered_from-enough v (suc n) (suc m) span (c ∷ p) f g =
    elim (Option-cases (special_token_at v (c ∷ p))) [
      | inl plain ↦
          rw (plain, rendered_from)
            (rendered_from-enough v n m (span ++ c ∷ []) p (omega arith) (omega arith))
      | inr ((token, rest), marker) ↦
          let shorter = special_token_at-shorter v (c ∷ p) token rest marker in
          rw (marker, rendered_from)
            (ap (λ r. tokenize_span v span ++ token ∷ r)
              (rendered_from-enough v n m [] rest (omega arith) (omega arith)))
    ]

scan-marker :
    (v : Vocab) (span p : Bytes) (token : ℕ) (rest : Bytes)
    → special_token_at v p ≡ some (token, rest)
    → scan v span p ≡ tokenize_span v span ++ token ∷ scan v [] rest
unfolding rendered_from
scan-marker v span [] token rest marker =
    let shorter = special_token_at-shorter v [] token rest marker in absurd (omega arith)
scan-marker v span (c ∷ p) token rest marker =
    let shorter = special_token_at-shorter v (c ∷ p) token rest marker in
    rw (marker, rendered_from)
      (ap (λ r. tokenize_span v span ++ token ∷ r)
        (rendered_from-enough v (length p) (length rest) [] rest (omega arith) (omega arith)))

scan-plain :
    (v : Vocab) (span s p : Bytes) → IsPlain s → scan v span (s ++ p) ≡ scan v (span ++ s) p
unfolding rendered_from
scan-plain v span [] p h = ap (λ x. scan v x p) (sym (append-nil span))
scan-plain v span (c ∷ s) p h =
    rw (plain_byte v c (s ++ p) h.0.0 h.0.1, rendered_from)
      (scan-plain v (span ++ c ∷ []) s p h.1 ∙ ap (λ x. scan v x p) (append_assoc span (c ∷ []) s))

-- a plain text between two markers
scan-span :
    (v : Vocab) (s p : Bytes) (token : ℕ) (rest : Bytes)
    → IsPlain s
    → special_token_at v p ≡ some (token, rest)
    → scan v [] (s ++ p) ≡ tokenize_span v s ++ token ∷ scan v [] rest
scan-span v s p token rest h marker = scan-plain v [] s p h ∙ scan-marker v s p token rest marker

tokenize_span-bpe : (v : Vocab) (s : Bytes) → tokenize_span v s ≡ bpe_tokenize_text v s
unfolding tokenize_span bpe_tokenize_text pieces pieces_from
tokenize_span-bpe v [] = refl
tokenize_span-bpe v (c ∷ s) = refl

empty_span : (v : Vocab) → tokenize_span v [] ≡ []
unfolding tokenize_span
empty_span v = refl

-- nothing is left
scan_end : (v : Vocab) → scan v [] [] ≡ []
unfolding rendered_from tokenize_span
scan_end v = refl

module _ (v : Vocab) (p : Bytes) where
  at_bos : special_token_at v (bos_text ++ p) ≡ some (v.bos_id, p)
  unfolding special_token_at special_in specials strip_prefix
  at_bos = refl

  at_user : special_token_at v (user_text ++ p) ≡ some (v.user_id, p)
  unfolding special_token_at special_in specials strip_prefix
  at_user = refl

  at_assistant : special_token_at v (assistant_text ++ p) ≡ some (v.assistant_id, p)
  unfolding special_token_at special_in specials strip_prefix
  at_assistant = refl

-- the text of the marker that `encode_chat_prompt` ends with
abbrev pub think_text : ThinkMode → Bytes
think_text think_none = think_end_text
think_text think_high = think_start_text
think_text think_max = think_start_text

at_think :
    (v : Vocab) (mode : ThinkMode)
    → special_token_at v (think_text mode) ≡ some (think_token v mode, [])
unfolding special_token_at special_in specials strip_prefix think_token ds4_think_mode_enabled
at_think v think_none = refl
at_think v think_high = refl
at_think v think_max = refl

abbrev pub prompt_text : Bytes → Bytes → ThinkMode → Bytes
prompt_text system prompt mode =
    bos_text ++ (system ++ (user_text ++ (prompt ++ (assistant_text ++ think_text mode))))

-- For a system text and a prompt without the bytes that markers start with, and without the prefix
-- for the greatest effort: the tokens of the prompt are those of its text with the markers in it.
pub tokenize_rendered_chat-encode_chat_prompt :
    (max_prefix : Bytes) (v : Vocab) (system prompt : Bytes) (mode : ThinkMode)
    → IsPlain system
    → IsPlain prompt
    → is_max mode ≡ false
    → tokenize_rendered_chat v (prompt_text system prompt mode)
      ≡ encode_chat_prompt max_prefix v system prompt mode
unfolding tokenize_rendered_chat encode_chat_prompt
tokenize_rendered_chat-encode_chat_prompt max_prefix v system prompt mode hs hp m =
    let ending : scan v [] (think_text mode) ≡ think_token v mode ∷ [] =
      scan-marker v [] (think_text mode) (think_token v mode) [] (at_think v mode)
      ∙ (rw (empty_span v))
      ∙ ap (λ r. think_token v mode ∷ r) (scan_end v) in
    let answer =
      scan-span v prompt (assistant_text ++ think_text mode) v.assistant_id (think_text mode) hp
        (at_assistant v (think_text mode)) in
    let user =
      scan-span v system (user_text ++ (prompt ++ (assistant_text ++ think_text mode))) v.user_id
        (prompt ++ (assistant_text ++ think_text mode)) hs
        (at_user v (prompt ++ (assistant_text ++ think_text mode))) in
    scan-marker v [] (prompt_text system prompt mode) v.bos_id
      (system ++ (user_text ++ (prompt ++ (assistant_text ++ think_text mode))))
      (at_bos v (system ++ (user_text ++ (prompt ++ (assistant_text ++ think_text mode)))))
    ∙ (rw (m, user, answer, ending, tokenize_span-bpe v prompt, empty_span v))
