-- ===== src/Engine/Gguf.antt =====
-- ds4.c, the model file: the cursor over the mapped bytes, the skipping of metadata values, the
-- size of a tensor and the alignment. The size of the file and the positions in it are below 2^64;
-- words in the file are little-endian.
pub mod Bounds
pub mod Sizes
mod Tests
use go_ds.Common.{
  ℕ, zero, suc, ◌+◌, ◌-◌, ◌*◌, ◌/◌, ◌%◌, ◌^◌, Bool, ◌||◌, Option, none, some, List, [], ◌∷◌, Bytes,
  length, take, drop, get_elem?, ltb, ◌==◌, if◌then◌else◌,
}

pub data CursorError : Type 0 where
  truncated : CursorError
  nesting_too_deep : CursorError
  array_too_large : CursorError
  unknown_type : CursorError

-- A failure with the position that its message tells, or a value and the new position.
pub data Outcome {ℓ} (A : Type ℓ) : Type ℓ where
  failed : CursorError → ℕ → Outcome A
  read : A → ℕ → Outcome A

unfoldable pub and_then {ℓ} : {A B : Type ℓ} → Outcome A → (A → ℕ → Outcome B) → Outcome B
and_then (failed e pos) f = failed e pos
and_then (read a pos) f = f a pos

-- `n > c->size || c->pos > c->size - n`
abbrev pub runs_out : Bytes → (pos n : ℕ) → Bool
runs_out base pos n = ltb (length base) n || ltb (length base - n) pos

unfoldable pub cursor_read : Bytes → (n pos : ℕ) → Outcome Bytes
cursor_read base n pos =
    if runs_out base pos n then failed truncated pos else read (take n (drop pos base)) (pos + n)

unfoldable pub cursor_skip : Bytes → (n pos : ℕ) → Outcome (Unit {0})
cursor_skip base n pos = if runs_out base pos n then failed truncated pos else read tt (pos + n)

-- the number in little-endian bytes
unfoldable pub le_number : Bytes → ℕ
le_number [] = 0
le_number (b ∷ p) = b + 256 * le_number p

unfoldable pub cursor_u32 : Bytes → ℕ → Outcome ℕ
cursor_u32 base pos = and_then (cursor_read base 4 pos) (λ p next. read (le_number p) next)

unfoldable pub cursor_u64 : Bytes → ℕ → Outcome ℕ
cursor_u64 base pos = and_then (cursor_read base 8 pos) (λ p next. read (le_number p) next)

unfoldable pub cursor_string : Bytes → ℕ → Outcome Bytes
cursor_string base pos = and_then (cursor_u64 base pos) (λ len next. cursor_read base len next)

-- 0 for the types of strings and arrays and for unknown ones
unfoldable pub scalar_value_size : ℕ → ℕ
scalar_value_size type =
    if type == 0 || type == 1 || type == 7
    then 1
    else if type == 2 || type == 3
    then 2
    else if type == 4 || type == 5 || type == 6
    then 4
    else if type == 10 || type == 11 || type == 12
    then 8
    else 0

abbrev pub gguf_value_string : ℕ
gguf_value_string = 8

abbrev pub gguf_value_array : ℕ
gguf_value_array = 9

-- the loop over the items of an array, with the function that skips one
unfoldable pub skip_items : (ℕ → Outcome (Unit {0})) → (len pos : ℕ) → Outcome (Unit {0})
skip_items skip zero pos = read tt pos
skip_items skip (suc len) pos = and_then (skip pos) (λ _ next. skip_items skip len next)

-- The items of an array behind its type and its length: at once if their size is known.
unfoldable pub skip_array :
    Bytes → (ℕ → ℕ → Outcome (Unit {0})) → (item_type len pos : ℕ) → Outcome (Unit {0})
skip_array base skip item_type len pos =
    let item_size = scalar_value_size item_type in
    if item_size == 0
    then skip_items (skip item_type) len pos
    else if ltb ((2 ^ 64 - 1) / item_size) len
    then failed array_too_large pos
    else cursor_skip base (len * item_size) pos

-- `levels` is what `depth` leaves of the nine that are allowed.
unfoldable pub skip_value : Bytes → (levels type pos : ℕ) → Outcome (Unit {0})
skip_value base zero type pos = failed nesting_too_deep pos
skip_value base (suc levels) type pos =
    let skip = skip_value base levels in
    let size = scalar_value_size type in
    if size == 0
    then if type == gguf_value_string
      then and_then (cursor_string base pos) (λ _ next. read tt next)
      else if type == gguf_value_array
      then and_then (cursor_u32 base pos) (λ item_type next.
        and_then (cursor_u64 base next) (λ len behind. skip_array base skip item_type len behind))
      else failed unknown_type pos
    else cursor_skip base size pos

-- `skip_value` from depth 0
abbrev pub max_levels : ℕ
max_levels = 9

unfoldable pub align_up : (value alignment : ℕ) → ℕ
align_up value alignment =
    let rem = value % alignment in if rem == 0 then value else (value + alignment - rem) % 2 ^ 64

-- the elements and the bytes of a block
abbrev pub TypeInfo : Type 0
TypeInfo = ℕ × ℕ

-- the table `gguf_types`; 0 and 0 where it has no entry
abbrev pub gguf_types : List TypeInfo
gguf_types =
    (1, 4)
    ∷ (1, 2)
    ∷ (32, 18)
    ∷ (32, 20)
    ∷ (0, 0)
    ∷ (0, 0)
    ∷ (32, 22)
    ∷ (32, 24)
    ∷ (32, 34)
    ∷ (32, 40)
    ∷ (256, 84)
    ∷ (256, 110)
    ∷ (256, 144)
    ∷ (256, 176)
    ∷ (256, 210)
    ∷ (256, 292)
    ∷ (256, 66)
    ∷ (256, 74)
    ∷ (256, 98)
    ∷ (256, 110)
    ∷ (256, 50)
    ∷ (256, 110)
    ∷ (256, 82)
    ∷ (256, 136)
    ∷ (1, 1)
    ∷ (1, 2)
    ∷ (1, 4)
    ∷ (1, 8)
    ∷ (1, 8)
    ∷ (256, 56)
    ∷ (1, 2)
    ∷ []

unfoldable pub tensor_type : ℕ → Option TypeInfo
tensor_type type = elim (get_elem? gguf_types type) [
  | none ↦ none
  | some (elems, bytes) ↦ if bytes == 0 then none else some (elems, bytes)
]

-- the blocks that hold the elements, each of `block_bytes`
unfoldable pub block_size : (block_elems block_bytes elements : ℕ) → Option ℕ
block_size block_elems block_bytes elements =
    let blocks = (elements + block_elems - 1) % 2 ^ 64 / block_elems in
    if ltb ((2 ^ 64 - 1) / block_bytes) blocks then none else some (blocks * block_bytes)

unfoldable pub tensor_nbytes : (type elements : ℕ) → Option ℕ
tensor_nbytes type elements = elim (tensor_type type) [
  | none ↦ none
  | some (elems, bytes) ↦ if elems == 0 then none else block_size elems bytes elements
]
