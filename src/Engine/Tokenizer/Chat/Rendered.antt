-- ===== src/Engine/Tokenizer/Chat/Rendered.antt =====
-- `tokenize_rendered_chat_vocab`: nothing of a text with markers is lost.
use go_ds.Common.{
  ℕ, zero, suc, ◌≡◌, ◌≤◌, ◌<◌, refl, ap, sym, ◌∙◌, some, List, [], ◌∷◌, ◌++◌, Bytes, length, All,
  All-append, All-append_right, append_assoc, append-nil, arith, strip_prefix, strip_prefix-eq-some,
  length-strip_prefix, Option-cases, inl, inr,
}
use go_ds.Engine.Tokenizer.Bpe.{Vocab, ds4_token_text, render_tokens_text}
use go_ds.Engine.Tokenizer.Bpe.RoundTrip.{IsByte, IsByteLevel, render_tokens_text-bpe_tokenize_text}
use go_ds.Engine.Tokenizer.Chat.{
  specials, special_in, special_token_at, tokenize_span, rendered_from, tokenize_rendered_chat,
}

-- The tokens of the markers are read back as the markers: what `vocab_load` looks up.
abbrev pub Marked : Vocab → Type 0
Marked v = All (λ s. ds4_token_text v s.1 ≡ s.0) (specials v)

pub render-append :
    (v : Vocab) (xs ys : List ℕ)
    → render_tokens_text v (xs ++ ys) ≡ render_tokens_text v xs ++ render_tokens_text v ys
unfolding render_tokens_text
render-append v [] ys = refl
render-append v (x ∷ xs) ys =
    ap (λ r. ds4_token_text v x ++ r) (render-append v xs ys)
    ∙ sym (append_assoc (ds4_token_text v x) (render_tokens_text v xs) (render_tokens_text v ys))

special_in-text :
    (v : Vocab) (ss : List (Bytes × ℕ)) (p : Bytes) (token : ℕ) (rest : Bytes)
    → All (λ s. ds4_token_text v s.1 ≡ s.0) ss
    → special_in ss p ≡ some (token, rest)
    → p ≡ ds4_token_text v token ++ rest
unfolding special_in
special_in-text v [] p token rest m h = cc
special_in-text v ((text, t) ∷ ss) p token rest m h = elim (Option-cases (strip_prefix text p)) [
  | inl other ↦
      let h' : special_in ss p ≡ some (token, rest) = (rw (other, special_in) at h) in
      special_in-text v ss p token rest m.1 h'
  | inr (behind, found) ↦
      let h' : some (t, behind) ≡ some (token, rest) = (rw (found, special_in) at h) in
      let here = strip_prefix-eq-some text p behind found in let reads = m.0 in ground arith
]

special_in-shorter :
    (ss : List (Bytes × ℕ)) (p : Bytes) (token : ℕ) (rest : Bytes)
    → All (λ s. 0 < length s.0) ss
    → special_in ss p ≡ some (token, rest)
    → length rest < length p
unfolding special_in
special_in-shorter [] p token rest m h = cc
special_in-shorter ((text, t) ∷ ss) p token rest m h = elim (Option-cases (strip_prefix text p)) [
  | inl other ↦
      let h' : special_in ss p ≡ some (token, rest) = (rw (other, special_in) at h) in
      special_in-shorter ss p token rest m.1 h'
  | inr (behind, found) ↦
      let h' : some (t, behind) ≡ some (token, rest) = (rw (found, special_in) at h) in
      let same : behind ≡ rest = ground arith in
      let lengths = length-strip_prefix text p behind found in
      let some_text : 0 < length text = m.0 in ground arith
]

specials_full : (v : Vocab) → All (λ s. 0 < length s.0) (specials v)
unfolding specials
specials_full v = omega arith

pub special_token_at-shorter :
    (v : Vocab) (p : Bytes) (token : ℕ) (rest : Bytes)
    → special_token_at v p ≡ some (token, rest)
    → length rest < length p
unfolding special_token_at
special_token_at-shorter v p token rest h =
    special_in-shorter (specials v) p token rest (specials_full v) h

pub special_token_at-text :
    (v : Vocab) (p : Bytes) (token : ℕ) (rest : Bytes)
    → Marked v
    → special_token_at v p ≡ some (token, rest)
    → (p ≡ ds4_token_text v token ++ rest) × (length rest < length p)
unfolding special_token_at
special_token_at-text v p token rest m h =
    (special_in-text v (specials v) p token rest m h, special_token_at-shorter v p token rest h)

pub render-tokenize_span :
    (v : Vocab) (s : Bytes)
    → IsByteLevel v
    → All IsByte s
    → render_tokens_text v (tokenize_span v s) ≡ s
unfolding tokenize_span render_tokens_text
render-tokenize_span v [] y h = refl
render-tokenize_span v (c ∷ s) y h = render_tokens_text-bpe_tokenize_text v (c ∷ s) y h

rendered_from-text :
    (v : Vocab) (n : ℕ) (span p : Bytes)
    → IsByteLevel v
    → Marked v
    → length p ≤ n
    → All IsByte span
    → All IsByte p
    → render_tokens_text v (rendered_from v n span p) ≡ span ++ p
unfolding rendered_from render_tokens_text
rendered_from-text v zero span [] y m f hs hp =
    render-tokenize_span v span y hs ∙ sym (append-nil span)
rendered_from-text v zero span (c ∷ p) y m f hs hp = absurd (omega arith)
rendered_from-text v (suc n) span [] y m f hs hp =
    render-tokenize_span v span y hs ∙ sym (append-nil span)
rendered_from-text v (suc n) span (c ∷ p) y m f hs hp =
    elim (Option-cases (special_token_at v (c ∷ p))) [
      | inl plain ↦
          rw (plain, rendered_from)
            (rendered_from-text v n (span ++ c ∷ []) p y m (omega arith)
                (All-append IsByte span (c ∷ []) hs (hp.0, tt)) hp.1
              ∙ append_assoc span (c ∷ []) p)
      | inr ((token, rest), marker) ↦
          let (split, shorter) = special_token_at-text v (c ∷ p) token rest m marker in
          let bytes = All-append_right IsByte (ds4_token_text v token) rest (rw (← split) hp) in
          let behind = rendered_from-text v n [] rest y m (omega arith) tt bytes in
          rw (marker, rendered_from)
            (render-append v (tokenize_span v span) (token ∷ rendered_from v n [] rest)
              ∙ (rw (render-tokenize_span v span y hs, render_tokens_text, behind, ← split)))
    ]

-- Over a byte-level vocabulary whose marker tokens are read back as the markers, the text of the
-- tokens of a chat is the chat's text, with its markers.
pub render_tokens_text-tokenize_rendered_chat :
    (v : Vocab) (text : Bytes)
    → IsByteLevel v
    → Marked v
    → All (λ b. b < 256) text
    → render_tokens_text v (tokenize_rendered_chat v text) ≡ text
unfolding tokenize_rendered_chat
render_tokens_text-tokenize_rendered_chat v text y m h =
    rendered_from-text v (length text) [] text y m (omega arith) tt h
