-- ===== src/Engine/Payload/Tests.antt =====
-- A snapshot of a small model: three layers, the last of them with compressed rows and an indexer.
use go_ds.Common.{
  ℕ, ◌+◌, ◌%◌, ◌≡◌, refl, true, false, Option, none, some, [], ◌∷◌, ◌++◌, Bytes, length, arith,
}
use go_ds.Engine.Payload.{
  Shape, layer_compress_ratio, Tensor, tensor_read, outside, write_chunks,
  payload_write_tensor_span, payload_put_u32,
}
use go_ds.Engine.Payload.Tensors.{
  Layer, state_bytes, session_raw_live_rows, write_rows, write_index, write_compressed, write_layer,
  write_layers,
}
use go_ds.Engine.Payload.Snapshot.{
  Snapped, put_all, comp_counts, index_counts, ds4_session_save_payload, ds4_session_load_payload,
  ds4_session_payload_bytes,
}
use go_ds.Engine.Payload.Restore.{Compatible, Restored, load_payload-save_payload}
use go_ds.Engine.Payload.Size.{length-save_payload}

abbrev shape : Shape
shape = record { n_layer = 3; head_dim = 1; indexer_head_dim = 1; vocab = 1; swa = 2 }

abbrev tensor : ℕ → Tensor
tensor k = record { size = 100; byte = λ i. (i + k) % 256 }

abbrev layer : ℕ → Layer
layer k = record {
  raw_cache = tensor k;
  attn_comp_cache = tensor (k + 1);
  attn_state_kv = tensor (k + 2);
  attn_state_score = tensor (k + 3);
  index_comp_cache = tensor (k + 4);
  index_state_kv = tensor (k + 5);
  index_state_score = tensor (k + 6);
  n_comp = 1;
  n_index_comp = 2;
}

-- a ring of three rows, two of them live behind four tokens
abbrev saved : Snapped
saved = record {
  checkpoint = 7 ∷ 8 ∷ 9 ∷ 10 ∷ [];
  checkpoint_valid = true;
  mtp_draft_valid = true;
  ctx_size = 50;
  prefill_cap = 8;
  logits = 1 ∷ 2 ∷ 3 ∷ 4 ∷ [];
  graph = record {
    raw_cap = 3;
    raw_window = 2;
    comp_cap = 5;
    mtp_n_raw = 1;
    layers = layer 10 ∷ layer 20 ∷ layer 30 ∷ [];
  };
}

-- another session, with a ring of four rows
abbrev other : Snapped
other = record {
  checkpoint = 1 ∷ [];
  checkpoint_valid = false;
  mtp_draft_valid = true;
  ctx_size = 60;
  prefill_cap = 8;
  logits = 0 ∷ 0 ∷ 0 ∷ 0 ∷ [];
  graph = record {
    raw_cap = 4;
    raw_window = 2;
    comp_cap = 6;
    mtp_n_raw = 1;
    layers = layer 40 ∷ layer 50 ∷ layer 60 ∷ [];
  };
}

abbrev or_nothing : Option Bytes → Bytes
or_nothing none = []
or_nothing (some p) = p

abbrev file : Bytes
file = or_nothing (ds4_session_save_payload shape saved)

saved_file : ds4_session_save_payload shape saved ≡ some file
unfolding ds4_session_save_payload write_layers write_layer write_rows write_compressed write_index
    payload_write_tensor_span write_chunks outside session_raw_live_rows layer_compress_ratio
    state_bytes put_all payload_put_u32 comp_counts index_counts tensor_read
saved_file = refl

compatible : Compatible shape saved other
unfolding outside session_raw_live_rows layer_compress_ratio state_bytes comp_counts index_counts
compatible = record {
  valid = refl;
  header_words = omega arith;
  token_words = omega arith;
  logits_len = refl;
  comp_len = refl;
  index_len = refl;
  comp_allowed = omega arith;
  index_allowed = omega arith;
  window_some = omega arith;
  window_held = omega arith;
  window_fits = omega arith;
  window_same = refl;
  prefill_same = refl;
  comp_fits = omega arith;
  ctx_fits = omega arith;
  tokens_fit = omega arith;
  tensors_fit = (
    (omega arith, λ some_rows. absurd (ground arith)),
    (
      (omega arith, λ some_rows. absurd (ground arith)),
      ((omega arith, λ some_rows. (refl, refl, refl, λ four. (refl, refl, refl))), tt),
    ),
  );
}

load_payload-save_payload_example :
    (s' : Snapped) × (ds4_session_load_payload shape other (file ++ (1 ∷ [])) (length file)
      ≡ some s')
    × Restored shape saved other s'
load_payload-save_payload_example =
    load_payload-save_payload shape saved other file (1 ∷ []) compatible saved_file

length-save_payload_example : length file ≡ ds4_session_payload_bytes shape saved
unfolding comp_counts index_counts
length-save_payload_example = length-save_payload shape saved file refl refl refl saved_file
