-- ===== src/Engine/Payload/Size.antt =====
-- `ds4_session_payload_bytes` against what `ds4_session_save_payload` writes.
use go_ds.Common.{
  ℕ, zero, suc, ◌+◌, ◌-◌, ◌*◌, ◌≡◌, refl, ap, ◌∙◌, Bool, true, false, Option, none, some, List, [],
  ◌∷◌, ◌++◌, Bytes, length, ◌==◌, if◌then◌else◌, arith, length-append, Bool-cases, inl, inr,
}
use go_ds.Engine.Payload.{
  Shape, layer_compress_ratio, float_size, payload_put_u32, Tensor, tensor_read, outside,
  payload_write_tensor_span,
}
use go_ds.Engine.Payload.Span.{length-tensor_read, write_span-tensor_read}
use go_ds.Engine.Payload.Tensors.{
  Layer, state_bytes, session_raw_live_rows, ◌then_write◌, row_bytes, index_row_bytes, write_rows,
  write_index, write_compressed, write_layer, write_layers,
}
use go_ds.Engine.Payload.Snapshot.{
  Snapped, put_all, comp_counts, index_counts, header, ds4_session_save_payload, live_tensor_bytes,
  ds4_session_payload_bytes,
}

-- What a writer writes has `n` bytes.
record Writes (w : Option Bytes) (n : ℕ) : Type 0 where
  pub size : (p : Bytes) → w ≡ some p → length p ≡ n

Writes-then :
    (a b : Option Bytes) (n m : ℕ) → Writes a n → Writes b m → Writes (a then_write b) (n + m)
Writes-then none b n m h k = record { size = λ p e. absurd (ground arith) }
Writes-then (some p1) none n m h k = record { size = λ p e. absurd (ground arith) }
Writes-then (some p1) (some p2) n m h k = record {
  size = λ p e.
      let joined : p ≡ p1 ++ p2 = ground arith in
      let first = h.size p1 refl in
      let second = k.size p2 refl in ap length joined ∙ length-append p1 p2 ∙ (omega arith);
}

Writes-some : (s : Bytes) (n : ℕ) → length s ≡ n → Writes (some s) n
Writes-some s n h = record { size = λ p e. let same : p ≡ s = ground arith in ap length same ∙ h }

Writes-if :
    (b : Bool) (w w' : Option Bytes) (n n' : ℕ)
    → Writes w n
    → Writes w' n'
    → Writes (if b then w else w') (if b then n else n')
Writes-if true w w' n n' h k = h
Writes-if false w w' n n' h k = k

Writes-span : (t : Tensor) (o n : ℕ) → Writes (payload_write_tensor_span t o n) n
unfolding payload_write_tensor_span
Writes-span t o n = elim (Bool-cases (outside t o n)) [
  | inl far ↦ rw far (record { size = λ p e. absurd (ground arith) })
  | inr near ↦ record {
    size = λ p e.
        let w = write_span-tensor_read t o n near in
        let same : p ≡ tensor_read t o n = ground arith in
        ap length same ∙ length-tensor_read t o n;
  }
]

Writes-rows : (t : Tensor) (raw_cap rb pos n : ℕ) → Writes (write_rows t raw_cap rb pos n) (n * rb)
unfolding write_rows
Writes-rows t raw_cap rb pos zero = Writes-some [] (0 * rb) (omega arith)
Writes-rows t raw_cap rb pos (suc n) =
    let next : suc n * rb ≡ rb + n * rb = omega arith in
    rw next (Writes-then _ _ _ _ (Writes-span t _ rb) (Writes-rows t raw_cap rb (pos + 1) n))

length-put_all : (vs : List ℕ) → length (put_all vs) ≡ length vs * 4
unfolding put_all payload_put_u32
length-put_all [] = refl
length-put_all (v ∷ vs) = omega (arith, length-put_all vs)

module _ (shape : Shape) where
  Writes-index :
      (l : Layer) (ratio : ℕ)
      → Writes (write_index shape l ratio) (
          l.n_index_comp * index_row_bytes shape
          + (state_bytes shape.indexer_head_dim ratio + state_bytes shape.indexer_head_dim ratio))
  unfolding write_index
  Writes-index l ratio =
      Writes-then _ _ _ _ (Writes-span l.index_comp_cache 0 _) (
        Writes-then _ _ _ _ (Writes-span l.index_state_kv 0 _)
          (Writes-span l.index_state_score 0 _))

  abbrev index_bytes : Layer → ℕ → ℕ
  index_bytes l ratio =
      if ratio == 4
      then l.n_index_comp * index_row_bytes shape
        + (state_bytes shape.indexer_head_dim ratio + state_bytes shape.indexer_head_dim ratio)
      else 0

  Writes-compressed :
      (l : Layer) (ratio : ℕ)
      → Writes (write_compressed shape l ratio) (
          l.n_comp * row_bytes shape
          + (state_bytes shape.head_dim ratio
              + (state_bytes shape.head_dim ratio + index_bytes l ratio)))
  unfolding write_compressed
  Writes-compressed l ratio = Writes-then _ _ _ _ (Writes-span l.attn_comp_cache 0 _) (
      Writes-then _ _ _ _ (Writes-span l.attn_state_kv 0 _) (
        Writes-then _ _ _ _ (Writes-span l.attn_state_score 0 _)
          (Writes-if (ratio == 4) _ _ _ _ (Writes-index l ratio) (Writes-some [] 0 refl))))

  Writes-layers :
      (raw_cap raw_first raw_live il : ℕ) (ls : List Layer)
      → Writes
          (write_layers shape raw_cap raw_first raw_live il ls)
          (live_tensor_bytes shape raw_live il ls)
  unfolding write_layers write_layer live_tensor_bytes
  Writes-layers raw_cap raw_first raw_live il [] = Writes-some [] 0 refl
  Writes-layers raw_cap raw_first raw_live il (l ∷ ls) =
      let ratio = layer_compress_ratio il in
      let here =
        Writes-then _ _ _ _ (Writes-rows l.raw_cache raw_cap (row_bytes shape) raw_first raw_live)
          (Writes-if (ratio == 0) _ _ _ _ (Writes-some [] 0 refl) (Writes-compressed l ratio)) in
      let all = Writes-then _ _ _ _ here (Writes-layers raw_cap raw_first raw_live (il + 1) ls) in
      record { size = λ p e. all.size p e ∙ (ground arith) }

  head_size :
      (s : Snapped)
      → length s.logits ≡ shape.vocab * float_size
      → length (comp_counts s.graph.layers) ≡ shape.n_layer
      → length (index_counts s.graph.layers) ≡ shape.n_layer
      → length (
          put_all (header shape s)
          ++ (put_all s.checkpoint
              ++ (s.logits
                  ++ (put_all (comp_counts s.graph.layers)
                      ++ put_all (index_counts s.graph.layers)))))
        ≡ 13 * 4
          + (length s.checkpoint * 4
              + (shape.vocab * float_size + (shape.n_layer * 4 + shape.n_layer * 4)))
  head_size s logits comp index = rw (
    length-append (put_all (header shape s)),
    length-append (put_all s.checkpoint),
    length-append s.logits,
    length-append (put_all (comp_counts s.graph.layers)),
    length-put_all (header shape s),
    length-put_all s.checkpoint,
    length-put_all (comp_counts s.graph.layers),
    length-put_all (index_counts s.graph.layers),
    logits,
    comp,
    index,
  )

  -- For a session whose logits and counts are as many as the model has: where saving succeeds, the
  -- number of bytes written is the one that `ds4_session_payload_bytes` gives.
  pub length-save_payload :
      (s : Snapped) (p : Bytes)
      → length s.logits ≡ shape.vocab * float_size
      → length (comp_counts s.graph.layers) ≡ shape.n_layer
      → length (index_counts s.graph.layers) ≡ shape.n_layer
      → ds4_session_save_payload shape s ≡ some p
      → length p ≡ ds4_session_payload_bytes shape s
  unfolding ds4_session_save_payload ds4_session_payload_bytes
  length-save_payload s p logits comp index e = elim (Bool-cases s.checkpoint_valid) [
    | inr dead ↦ absurd (ground arith)
    | inl valid ↦
        let live = session_raw_live_rows shape s.graph (length s.checkpoint) in
        let head =
          put_all (header shape s)
          ++ (put_all s.checkpoint
              ++ (s.logits
                  ++ (put_all (comp_counts s.graph.layers)
                      ++ put_all (index_counts s.graph.layers)))) in
        let sizes : length head
            ≡ 13 * 4
              + (length s.checkpoint * 4
                  + (shape.vocab * float_size + (shape.n_layer * 4 + shape.n_layer * 4))) =
          head_size s logits comp index in
        let all =
          Writes-then (some head) _ _ _ (Writes-some head _ sizes)
            (Writes-layers s.graph.raw_cap (length s.checkpoint - live) live 0 s.graph.layers) in
        let e' : (some head
              then_write write_layers shape s.graph.raw_cap (length s.checkpoint - live) live 0
                  s.graph.layers)
            ≡ some p =
          ground arith in
        all.size p e' ∙ (ground arith)
  ]
