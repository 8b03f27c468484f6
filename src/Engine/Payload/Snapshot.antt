-- ===== src/Engine/Payload/Snapshot.antt =====
-- ds4.c: `ds4_session_save_payload`, `ds4_session_load_payload`, `ds4_session_payload_bytes`.
use go_ds.Common.{
  ℕ, zero, suc, ◌+◌, ◌-◌, ◌*◌, Bool, true, false, not, ◌&&◌, ◌||◌, Option, none, some, List, [],
  ◌∷◌, ◌++◌, Bytes, length, ltb, leb, ◌==◌, if◌then◌else◌,
}
use go_ds.Engine.Payload.{
  Shape, layer_compress_ratio, payload_magic, payload_version, float_size, payload_put_u32, Read,
  ◌>>=◌, give, require, payload_read_bytes, payload_read_u32,
}
use go_ds.Engine.Payload.Tensors.{
  Layer, MetalGraph, state_bytes, session_raw_live_rows, ◌then_write◌, write_layers, read_layers,
  row_bytes, index_row_bytes,
}

pub record Snapped : Type 0 where
  pub checkpoint : List ℕ
  pub checkpoint_valid : Bool
  pub mtp_draft_valid : Bool
  pub ctx_size : ℕ
  pub prefill_cap : ℕ
  pub logits : Bytes
  pub graph : MetalGraph

unfoldable pub put_all : List ℕ → Bytes
put_all [] = []
put_all (v ∷ vs) = payload_put_u32 v ++ put_all vs

unfoldable pub read_all : ℕ → Read (List ℕ)
read_all zero = give []
read_all (suc n) = do v ← payload_read_u32; vs ← read_all n; give (v ∷ vs)

-- the loop that reads row counts and refuses those that are too large
unfoldable pub read_counts : (saved_comp_cap comp_cap : ℕ) → ℕ → Read (List ℕ)
read_counts saved_comp_cap comp_cap zero = give []
read_counts saved_comp_cap comp_cap (suc n) = do
  v ← payload_read_u32
  _ ← require (not (ltb saved_comp_cap v || ltb comp_cap v))
  vs ← read_counts saved_comp_cap comp_cap n
  give (v ∷ vs)

unfoldable pub comp_counts : List Layer → List ℕ
comp_counts [] = []
comp_counts (l ∷ ls) = l.n_comp ∷ comp_counts ls

unfoldable pub index_counts : List Layer → List ℕ
index_counts [] = []
index_counts (l ∷ ls) = l.n_index_comp ∷ index_counts ls

-- the counts of the file for the layers
unfoldable pub set_counts : List Layer → List ℕ → List ℕ → List Layer
set_counts (l ∷ ls) (n ∷ ns) (k ∷ ks) =
    (record l { n_comp = n; n_index_comp = k }) ∷ set_counts ls ns ks
set_counts ls _ _ = ls

module _ (shape : Shape) where
  abbrev pub header : Snapped → List ℕ
  header s =
      payload_magic
      ∷ payload_version
      ∷ s.ctx_size
      ∷ s.prefill_cap
      ∷ s.graph.raw_cap
      ∷ s.graph.raw_window
      ∷ s.graph.comp_cap
      ∷ length s.checkpoint
      ∷ shape.n_layer
      ∷ shape.head_dim
      ∷ shape.indexer_head_dim
      ∷ shape.vocab
      ∷ session_raw_live_rows shape s.graph (length s.checkpoint)
      ∷ []

  unfoldable pub ds4_session_save_payload : Snapped → Option Bytes
  ds4_session_save_payload s =
      let tokens = length s.checkpoint in
      let raw_live = session_raw_live_rows shape s.graph tokens in
      if not s.checkpoint_valid
      then none
      else some (
          put_all (header s)
          ++ (put_all s.checkpoint
              ++ (s.logits
                  ++ (put_all (comp_counts s.graph.layers)
                      ++ put_all (index_counts s.graph.layers)))))
        then_write write_layers shape s.graph.raw_cap (tokens - raw_live) raw_live 0 s.graph.layers

  -- the tests of the header's fields, numbered as the source numbers them
  unfoldable pub header_fits : Snapped → (h2 h3 h4 h5 h6 h7 h8 h9 h10 h11 h12 : ℕ) → Bool
  header_fits s h2 h3 h4 h5 h6 h7 h8 h9 h10 h11 h12 =
      let expected_raw_live = if ltb h7 h5 then h7 else h5 in
      not (ltb s.ctx_size h2 || leb s.ctx_size h7)
      && (h8 == shape.n_layer
          && h9 == shape.head_dim
          && h10 == shape.indexer_head_dim
          && h11 == shape.vocab)
      && (h3 == s.prefill_cap && h5 == s.graph.raw_window)
      && not (h4 == 0 || not (h12 == expected_raw_live) || ltb h4 h12 || ltb s.graph.raw_cap h12)
      && not (ltb s.graph.comp_cap h6)

  -- behind the header
  unfoldable pub load_body : Snapped → (saved_comp_cap saved_tokens raw_live : ℕ) → Read Snapped
  load_body s saved_comp_cap saved_tokens raw_live = do
    new_checkpoint ← read_all saved_tokens
    logits ← payload_read_bytes (shape.vocab * float_size)
    n_comp ← read_counts saved_comp_cap s.graph.comp_cap shape.n_layer
    n_index_comp ← read_counts saved_comp_cap s.graph.comp_cap shape.n_layer
    layers ←
        read_layers shape s.graph.raw_cap (saved_tokens - raw_live) raw_live 0
          (set_counts s.graph.layers n_comp n_index_comp)
    give (record s {
      checkpoint = new_checkpoint;
      checkpoint_valid = true;
      mtp_draft_valid = false;
      logits = logits;
      graph = (record s.graph { layers = layers; mtp_n_raw = 0 });
    })

  unfoldable pub check_header : Snapped → List ℕ → Read Snapped
  check_header s (h0 ∷ h1 ∷ h2 ∷ h3 ∷ h4 ∷ h5 ∷ h6 ∷ h7 ∷ h8 ∷ h9 ∷ h10 ∷ h11 ∷ h12 ∷ []) = do
    _ ← require (h0 == payload_magic && h1 == payload_version)
    _ ← require (header_fits s h2 h3 h4 h5 h6 h7 h8 h9 h10 h11 h12)
    load_body s h6 h7 h12
  check_header s _ = λ src. none

  -- all of the payload is read
  unfoldable pub ds4_session_load_payload :
      Snapped → (file : Bytes) → (payload_bytes : ℕ) → Option Snapped
  ds4_session_load_payload s file payload_bytes =
      elim ((read_all 13 >>= check_header s) (record { file = file; remaining = payload_bytes })) [
        | none ↦ none
        | some (s', src) ↦ if src.remaining == 0 then some s' else none
      ]

  unfoldable pub live_tensor_bytes : (raw_live il : ℕ) → List Layer → ℕ
  live_tensor_bytes raw_live il [] = 0
  live_tensor_bytes raw_live il (l ∷ ls) =
      let ratio = layer_compress_ratio il in
      raw_live * row_bytes shape
      + (if ratio == 0
          then 0
          else l.n_comp * row_bytes shape
            + state_bytes shape.head_dim ratio
            + state_bytes shape.head_dim ratio
            + (if ratio == 4
                then l.n_index_comp * index_row_bytes shape
                  + state_bytes shape.indexer_head_dim ratio
                  + state_bytes shape.indexer_head_dim ratio
                else 0))
      + live_tensor_bytes raw_live (il + 1) ls

  unfoldable pub ds4_session_payload_bytes : Snapped → ℕ
  ds4_session_payload_bytes s =
      if not s.checkpoint_valid
      then 0
      else 13 * 4
        + length s.checkpoint * 4
        + shape.vocab * float_size
        + shape.n_layer * 4
        + shape.n_layer * 4
        + live_tensor_bytes (session_raw_live_rows shape s.graph (length s.checkpoint)) 0
            s.graph.layers
