-- ===== src/Server/Stream/Thinking.antt =====
-- ds4_server.c: `thinking_state`, which follows the markers `<think>` and `</think>` in the prompt
-- and the generated text, with the last eight bytes at hand.
pub mod History
pub mod Occurs
pub mod Markers
use go_ds.Common.{
  ℕ, ◌-◌, Bool, true, false, ◌&&◌, Option, none, some, [], ◌∷◌, ◌++◌, Bytes, length, drop, leb,
  ◌==◌, if◌then◌else◌, same_bytes,
}

pub record ThinkingState : Type 0 where
  pub inside : Bool
  pub tail : Bytes

abbrev pub think_start : Bytes
think_start = b'<' ∷ b't' ∷ b'h' ∷ b'i' ∷ b'n' ∷ b'k' ∷ b'>' ∷ []

abbrev pub think_end : Bytes
think_end = b'<' ∷ b'/' ∷ b't' ∷ b'h' ∷ b'i' ∷ b'n' ∷ b'k' ∷ b'>' ∷ []

-- `thinking_tail_ends_with`, on any bytes
unfoldable pub ends_with : Bytes → Bytes → Bool
ends_with text s = leb (length s) (length text) && same_bytes (drop (length text - length s) text) s

-- `memmove` of a full tail, and the byte behind it
unfoldable pub push_tail : Bytes → ℕ → Bytes
push_tail tail c = (if length tail == 8 then drop 1 tail else tail) ++ (c ∷ [])

-- the state that the markers at the end of `seen` leave
unfoldable pub marked : Bool → Bytes → Bool
marked inside seen =
    if ends_with seen think_start then true else if ends_with seen think_end then false else inside

unfoldable pub feed_byte : ThinkingState → ℕ → ThinkingState
feed_byte st c =
    let tail = push_tail st.tail c in record { inside = marked st.inside tail; tail = tail }

unfoldable pub thinking_state_feed : ThinkingState → Bytes → ThinkingState
thinking_state_feed st [] = st
thinking_state_feed st (c ∷ p) = thinking_state_feed (feed_byte st c) p

-- The prompt's text if there is one; otherwise the mode of the request.
unfoldable pub thinking_state_from_prompt :
    (prompt_text : Option Bytes) → (think_enabled : Bool) → ThinkingState
thinking_state_from_prompt (some p) enabled =
    thinking_state_feed (record { inside = false; tail = [] }) p
thinking_state_from_prompt none enabled = record { inside = enabled; tail = [] }
