-- ===== src/Engine/Gguf/Tests.antt =====
-- Tests and examples of the model file's readers.
use go_ds.Common.{ℕ, ◌∷◌, [], ◌≡◌, refl, Bytes, some, arith}
use go_ds.Engine.Gguf.{
  read, and_then, cursor_read, cursor_skip, le_number, cursor_u32, cursor_u64, cursor_string,
  scalar_value_size, skip_items, skip_array, skip_value, max_levels, gguf_value_array, tensor_type,
  block_size, tensor_nbytes,
}
use go_ds.Engine.Gguf.Bounds.{Inside, skip_value-Inside}
use go_ds.Engine.Gguf.Sizes.{IsBlocks, tensor_nbytes-IsBlocks}

-- an array of two 16-bit numbers
abbrev two_words : Bytes
two_words = 2 ∷ 0 ∷ 0 ∷ 0 ∷ 2 ∷ 0 ∷ 0 ∷ 0 ∷ 0 ∷ 0 ∷ 0 ∷ 0 ∷ 7 ∷ 0 ∷ 8 ∷ 0 ∷ 99 ∷ []

skip_test : skip_value two_words max_levels gguf_value_array 0 ≡ read tt 16
unfolding skip_value skip_array skip_items and_then cursor_read cursor_skip le_number cursor_u32
    cursor_u64 cursor_string scalar_value_size
skip_test = refl

skip_value-Inside_example : Inside two_words 0 (skip_value two_words max_levels gguf_value_array 0)
skip_value-Inside_example = skip_value-Inside two_words max_levels gguf_value_array 0 (omega arith)

tensor_nbytes-IsBlocks_example :
    (elems : ℕ) × (bytes : ℕ) × (tensor_type 8 ≡ some (elems, bytes)) × IsBlocks elems bytes 33 68
unfolding tensor_nbytes tensor_type block_size
tensor_nbytes-IsBlocks_example = tensor_nbytes-IsBlocks 8 33 68 (omega arith) refl
