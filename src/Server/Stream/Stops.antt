-- ===== src/Server/Stream/Stops.antt =====
-- ds4_server.c: the list of stop strings, `stop_list_push`, `stop_list_find_from` and
-- `stop_list_stream_safe_len`. A string is the list of its bytes.
pub mod Search
pub mod Safe
use go_ds.Common.{
  ℕ, suc, ◌+◌, ◌-◌, Bool, true, false, ◌||◌, Option, none, some, List, [], ◌∷◌, ◌++◌, Bytes, length,
  drop, strip_prefix, ltb, leb, ◌==◌, if◌then◌else◌,
}

pub record StopList : Type 0 where
  pub v : List Bytes
  pub max_len : ℕ

-- `stop_list_clear`
abbrev pub stop_list_clear : StopList
stop_list_clear = record { v = []; max_len = 0 }

unfoldable pub stop_list_push : StopList → Bytes → StopList
stop_list_push stops s = if length s == 0 then stops else record {
  v = stops.v ++ (s ∷ []);
  max_len = if ltb stops.max_len (length s) then length s else stops.max_len;
}

-- whether `lit` stands at the start of the text
unfoldable pub starts_with : Bytes → Bytes → Bool
starts_with lit p = elim (strip_prefix lit p) [ none ↦ false | some _ ↦ true ]

-- `strstr`: the first offset of `lit`, in the bytes of a C string
unfoldable pub strstr : Bytes → Bytes → Option ℕ
strstr lit [] = if starts_with lit [] then some 0 else none
strstr lit (c ∷ p) =
    let rest = strstr lit p in
    if starts_with lit (c ∷ p) then some 0 else elim rest [ none ↦ none | some i ↦ some (suc i) ]

-- `!found || ppos < best_pos`
abbrev earlier : ℕ → Option (ℕ × ℕ) → Bool
earlier pos none = true
earlier pos (some (best_pos, _)) = ltb pos best_pos

-- the loop over the stop strings, in `text + from`
unfoldable pub find_stop : List Bytes → Bytes → Option (ℕ × ℕ) → Option (ℕ × ℕ)
find_stop [] text best = best
find_stop (s ∷ stops) text best = elim (strstr s text) [
  | none ↦ find_stop stops text best
  | some pos ↦ find_stop stops text (if earlier pos best then some (pos, length s) else best)
]

-- the C string at the start of a buffer: the bytes in front of the first NUL
unfoldable pub c_string : Bytes → Bytes
c_string [] = []
c_string (c ∷ p) = let rest = c_string p in if c == 0 then [] else c ∷ rest

-- The position and the length of the stop string that comes first; `strstr` reads the C string at
-- `text + from`, and nothing behind a NUL.
unfoldable pub stop_list_find_from : StopList → Bytes → ℕ → Option (ℕ × ℕ)
stop_list_find_from stops text from = elim (find_stop stops.v (c_string (drop from text)) none) [
  | none ↦ none
  | some (pos, len) ↦ some (from + pos, len)
]

-- `!stops->len || stops->max_len <= 1`
abbrev pub nothing_to_hold : StopList → Bool
nothing_to_hold stops = length stops.v == 0 || leb stops.max_len 1

unfoldable pub stop_list_stream_safe_len : StopList → ℕ → ℕ
stop_list_stream_safe_len stops text_len =
    if nothing_to_hold stops
    then text_len
    else if ltb (stops.max_len - 1) text_len
    then text_len - (stops.max_len - 1)
    else 0
