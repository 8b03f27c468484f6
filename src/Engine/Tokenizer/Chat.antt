-- ===== src/Engine/Tokenizer/Chat.antt =====
-- ds4.c: text that holds the markers of a chat (`special_token_at`, `tokenize_rendered_chat_vocab`)
-- and the functions that put a chat together out of tokens (`encode_chat_prompt` and
-- `ds4_chat_*`). A null role is given as `user` and a null text as the empty one.
pub mod Rendered
pub mod Prompt
use go_ds.Common.{
  ℕ, zero, suc, Bool, true, false, ◌||◌, Option, none, some, List, [], ◌∷◌, ◌++◌, Bytes, length,
  codes, if◌then◌else◌, same_bytes, strip_prefix,
}
use go_ds.Engine.Tokenizer.Bpe.{Vocab, bpe_tokenize_text}

pub data ThinkMode : Type 0 where
  think_none : ThinkMode
  think_high : ThinkMode
  think_max : ThinkMode

unfoldable pub ds4_think_mode_enabled : ThinkMode → Bool
ds4_think_mode_enabled think_none = false
ds4_think_mode_enabled think_high = true
ds4_think_mode_enabled think_max = true

-- U+FF5C and U+2581 in UTF-8
abbrev pub bar : Bytes
bar = 0xef ∷ 0xbd ∷ 0x9c ∷ []

abbrev pub low : Bytes
low = 0xe2 ∷ 0x96 ∷ 0x81 ∷ []

abbrev pub bos_text : Bytes
bos_text =
    codes "<"
    ++ bar
    ++ codes "begin"
    ++ low
    ++ codes "of"
    ++ low
    ++ codes "sentence"
    ++ bar
    ++ codes ">"

abbrev pub eos_text : Bytes
eos_text =
    codes "<"
    ++ bar
    ++ codes "end"
    ++ low
    ++ codes "of"
    ++ low
    ++ codes "sentence"
    ++ bar
    ++ codes ">"

abbrev pub user_text : Bytes
user_text = codes "<" ++ bar ++ codes "User" ++ bar ++ codes ">"

abbrev pub assistant_text : Bytes
assistant_text = codes "<" ++ bar ++ codes "Assistant" ++ bar ++ codes ">"

abbrev pub think_start_text : Bytes
think_start_text = codes "<think>"

abbrev pub think_end_text : Bytes
think_end_text = codes "</think>"

abbrev pub dsml_text : Bytes
dsml_text = bar ++ codes "DSML" ++ bar

-- the table of `special_token_at`
unfoldable pub specials : Vocab → List (Bytes × ℕ)
specials v =
    (bos_text, v.bos_id)
    ∷ (eos_text, v.eos_id)
    ∷ (user_text, v.user_id)
    ∷ (assistant_text, v.assistant_id)
    ∷ (think_start_text, v.think_start_id)
    ∷ (think_end_text, v.think_end_id)
    ∷ (dsml_text, v.dsml_id)
    ∷ []

-- the token and what is behind its text
unfoldable pub special_in : List (Bytes × ℕ) → Bytes → Option (ℕ × Bytes)
special_in [] p = none
special_in ((text, token) ∷ rest) p = elim (strip_prefix text p) [
  | some behind ↦ some (token, behind)
  | none ↦ special_in rest p
]

unfoldable pub special_token_at : Vocab → Bytes → Option (ℕ × Bytes)
special_token_at v p = special_in (specials v) p

unfoldable pub tokenize_span : Vocab → Bytes → List ℕ
tokenize_span v [] = []
tokenize_span v (c ∷ s) = bpe_tokenize_text v (c ∷ s)

-- `span` is what has been passed since the last marker; the fuel is the length of the text
unfoldable pub rendered_from : Vocab → ℕ → Bytes → Bytes → List ℕ
rendered_from v zero span p = tokenize_span v span
rendered_from v (suc n) span [] = tokenize_span v span
rendered_from v (suc n) span (c ∷ p) = elim (special_token_at v (c ∷ p)) [
  | some (token, rest) ↦ tokenize_span v span ++ token ∷ rendered_from v n [] rest
  | none ↦ rendered_from v n (span ++ c ∷ []) p
]

unfoldable pub tokenize_rendered_chat : Vocab → Bytes → List ℕ
tokenize_rendered_chat v text = rendered_from v (length text) [] text

unfoldable pub think_token : Vocab → ThinkMode → ℕ
think_token v mode = if ds4_think_mode_enabled mode then v.think_start_id else v.think_end_id

unfoldable pub is_max : ThinkMode → Bool
is_max think_none = false
is_max think_high = false
is_max think_max = true

module _ (max_prefix : Bytes) where
  -- `max_prefix` is DS4_REASONING_EFFORT_MAX_PREFIX
  unfoldable pub encode_chat_prompt : Vocab → Bytes → Bytes → ThinkMode → List ℕ
  encode_chat_prompt v system prompt mode =
      v.bos_id ∷ (if is_max mode then bpe_tokenize_text v max_prefix else [])
      ++ (tokenize_span v system
          ++ v.user_id ∷ (bpe_tokenize_text v prompt ++ v.assistant_id ∷ think_token v mode ∷ []))

unfoldable pub ds4_chat_begin : Vocab → List ℕ → List ℕ
ds4_chat_begin v tokens = tokens ++ (v.bos_id ∷ [])

-- the answer brings its own marker
unfoldable pub has_think_marker : Bytes → Bool
has_think_marker content = elim (strip_prefix think_start_text content) [
  | some rest ↦ true
  | none ↦ elim (strip_prefix think_end_text content) [ some rest ↦ true | none ↦ false ]
]

unfoldable pub ds4_chat_append_message : Vocab → List ℕ → Bytes → Bytes → List ℕ
ds4_chat_append_message v tokens role content =
    if same_bytes role (codes "system") || same_bytes role (codes "developer")
    then tokens ++ bpe_tokenize_text v content
    else if same_bytes role (codes "assistant")
    then tokens
      ++ v.assistant_id ∷ (if has_think_marker content then [] else v.think_end_id ∷ [])
      ++ bpe_tokenize_text v content
    else tokens
      ++ v.user_id
        ∷ (if same_bytes role (codes "tool") || same_bytes role (codes "function")
            then bpe_tokenize_text v (codes "Tool: ")
            else [])
      ++ bpe_tokenize_text v content

unfoldable pub ds4_chat_append_assistant_prefix : Vocab → List ℕ → ThinkMode → List ℕ
ds4_chat_append_assistant_prefix v tokens mode = tokens ++ v.assistant_id ∷ think_token v mode ∷ []
