-- ===== src/Engine/Payload/Tensors.antt =====
-- ds4.c: the part of a snapshot that holds the tensors of the layers. The raw cache is a ring, whose
-- live rows are written in the order of their positions; the compressed caches are written from
-- their start.
use go_ds.Common.{
  ℕ, zero, suc, ◌+◌, ◌*◌, ◌%◌, Option, none, some, List, [], ◌∷◌, ◌++◌, Bytes, ◌==◌, if◌then◌else◌,
  min,
}
use go_ds.Engine.Payload.{
  Shape, layer_compress_ratio, float_size, Read, ◌>>=◌, give, Tensor, payload_write_tensor_span,
  payload_read_tensor_span,
}

pub record Layer : Type 0 where
  pub raw_cache : Tensor
  pub attn_comp_cache : Tensor
  pub attn_state_kv : Tensor
  pub attn_state_score : Tensor
  pub index_comp_cache : Tensor
  pub index_state_kv : Tensor
  pub index_state_score : Tensor
  pub n_comp : ℕ
  pub n_index_comp : ℕ

pub record MetalGraph : Type 0 where
  pub raw_cap : ℕ
  pub raw_window : ℕ
  pub comp_cap : ℕ
  pub mtp_n_raw : ℕ
  pub layers : List Layer

unfoldable pub state_bytes : (dim ratio : ℕ) → ℕ
state_bytes dim ratio =
    let coff = if ratio == 4 then 2 else 1 in coff * dim * coff * ratio * float_size

unfoldable pub session_raw_live_rows : Shape → MetalGraph → ℕ → ℕ
session_raw_live_rows shape g checkpoint_len =
    let window = if g.raw_window == 0 then shape.swa else g.raw_window in
    min (min window g.raw_cap) checkpoint_len

-- what two steps write, if both succeed
infixr 4 ◌then_write◌
abbrev pub ◌then_write◌ : Option Bytes → Option Bytes → Option Bytes
none then_write q = none
some p then_write none = none
some p then_write some q = some (p ++ q)

-- the row of position `pos` in the ring, in bytes
abbrev pub row_offset : (raw_cap row_bytes pos : ℕ) → ℕ
row_offset raw_cap row_bytes pos = pos % raw_cap * row_bytes

unfoldable pub write_rows : Tensor → (raw_cap row_bytes pos rows : ℕ) → Option Bytes
write_rows t raw_cap row_bytes pos zero = some []
write_rows t raw_cap row_bytes pos (suc rows) =
    payload_write_tensor_span t (row_offset raw_cap row_bytes pos) row_bytes
    then_write write_rows t raw_cap row_bytes (pos + 1) rows

unfoldable pub read_rows : Tensor → (raw_cap row_bytes pos rows : ℕ) → Read Tensor
read_rows t raw_cap row_bytes pos zero = give t
read_rows t raw_cap row_bytes pos (suc rows) = do
  t' ← payload_read_tensor_span t (row_offset raw_cap row_bytes pos) row_bytes
  read_rows t' raw_cap row_bytes (pos + 1) rows

module _ (shape : Shape) where
  abbrev pub row_bytes : ℕ
  row_bytes = shape.head_dim * float_size

  abbrev pub index_row_bytes : ℕ
  index_row_bytes = shape.indexer_head_dim * float_size

  unfoldable pub write_index : Layer → ℕ → Option Bytes
  write_index l ratio =
      payload_write_tensor_span l.index_comp_cache 0 (l.n_index_comp * index_row_bytes)
      then_write payload_write_tensor_span l.index_state_kv 0
          (state_bytes shape.indexer_head_dim ratio)
      then_write payload_write_tensor_span l.index_state_score 0
          (state_bytes shape.indexer_head_dim ratio)

  unfoldable pub write_compressed : Layer → ℕ → Option Bytes
  write_compressed l ratio =
      payload_write_tensor_span l.attn_comp_cache 0 (l.n_comp * row_bytes)
      then_write payload_write_tensor_span l.attn_state_kv 0 (state_bytes shape.head_dim ratio)
      then_write payload_write_tensor_span l.attn_state_score 0 (state_bytes shape.head_dim ratio)
      then_write (if ratio == 4 then write_index l ratio else some [])

  unfoldable pub write_layer : (raw_cap raw_first raw_live il : ℕ) → Layer → Option Bytes
  write_layer raw_cap raw_first raw_live il l =
      let ratio = layer_compress_ratio il in
      write_rows l.raw_cache raw_cap row_bytes raw_first raw_live
      then_write (if ratio == 0 then some [] else write_compressed l ratio)

  unfoldable pub write_layers : (raw_cap raw_first raw_live il : ℕ) → List Layer → Option Bytes
  write_layers raw_cap raw_first raw_live il [] = some []
  write_layers raw_cap raw_first raw_live il (l ∷ ls) =
      write_layer raw_cap raw_first raw_live il l
      then_write write_layers raw_cap raw_first raw_live (il + 1) ls

  unfoldable pub read_index : Layer → ℕ → Read Layer
  read_index l ratio = do
    rows ← payload_read_tensor_span l.index_comp_cache 0 (l.n_index_comp * index_row_bytes)
    kv ← payload_read_tensor_span l.index_state_kv 0 (state_bytes shape.indexer_head_dim ratio)
    score ←
        payload_read_tensor_span l.index_state_score 0 (state_bytes shape.indexer_head_dim ratio)
    give (record l { index_comp_cache = rows; index_state_kv = kv; index_state_score = score })

  unfoldable pub read_compressed : Layer → ℕ → Read Layer
  read_compressed l ratio = do
    rows ← payload_read_tensor_span l.attn_comp_cache 0 (l.n_comp * row_bytes)
    kv ← payload_read_tensor_span l.attn_state_kv 0 (state_bytes shape.head_dim ratio)
    score ← payload_read_tensor_span l.attn_state_score 0 (state_bytes shape.head_dim ratio)
    let l' : Layer = (record l {
      attn_comp_cache = rows;
      attn_state_kv = kv;
      attn_state_score = score;
    })
    (if ratio == 4 then read_index l' ratio else give l')

  -- `l` has the row counts of the file already
  unfoldable pub read_layer : (raw_cap raw_first raw_live il : ℕ) → Layer → Read Layer
  read_layer raw_cap raw_first raw_live il l = do
    raw ← read_rows l.raw_cache raw_cap row_bytes raw_first raw_live
    let l' : Layer = (record l { raw_cache = raw })
    (if layer_compress_ratio il == 0 then give l' else read_compressed l' (layer_compress_ratio il))

  unfoldable pub read_layers : (raw_cap raw_first raw_live il : ℕ) → List Layer → Read (List Layer)
  read_layers raw_cap raw_first raw_live il [] = give []
  read_layers raw_cap raw_first raw_live il (l ∷ ls) = do
    l' ← read_layer raw_cap raw_first raw_live il l
    ls' ← read_layers raw_cap raw_first raw_live (il + 1) ls
    give (l' ∷ ls')
