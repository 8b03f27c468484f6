-- ===== src/Engine/Payload/RoundTrip.antt =====
-- The tensors of the layers behind saving and loading a snapshot.
use go_ds.Common.{
  ℕ, ◌+◌, ◌*◌, ◌≡◌, ◌≤◌, ◌<◌, refl, ap, sym, ◌∙◌, true, false, some, [], ◌++◌, length, ◌==◌, arith,
}
use go_ds.Engine.Payload.{
  Shape, layer_compress_ratio, give, Tensor, outside, payload_write_tensor_span,
  payload_read_tensor_span,
}
use go_ds.Engine.Payload.Tensors.{
  Layer, state_bytes, row_bytes, index_row_bytes, write_index, write_compressed, write_layer,
  read_index, read_compressed, read_layer,
}
use go_ds.Engine.Payload.Replay.{
  Replays, replays-give, replays-then, replays-map, replays-span, replays-if, weaken, Copied,
}
use go_ds.Engine.Payload.Rows.{RowsCopied, replays-rows}

-- `l` is a layer that has been saved, `l2` one that is loaded into, `l'` the layer behind the load.
module _ (shape : Shape) where
  abbrev pub index_state : ℕ → ℕ
  index_state ratio = state_bytes shape.indexer_head_dim ratio

  abbrev pub attn_state : ℕ → ℕ
  attn_state ratio = state_bytes shape.head_dim ratio

  -- the tensors are as large as what is loaded into them
  abbrev pub IndexFits : Layer → ℕ → Type 0
  IndexFits l2 ratio =
      (outside l2.index_comp_cache 0 (l2.n_index_comp * index_row_bytes shape) ≡ false)
      × (outside l2.index_state_kv 0 (index_state ratio) ≡ false)
      × (outside l2.index_state_score 0 (index_state ratio) ≡ false)

  abbrev pub CompressedFits : Layer → ℕ → Type 0
  CompressedFits l2 ratio =
      (outside l2.attn_comp_cache 0 (l2.n_comp * row_bytes shape) ≡ false)
      × (outside l2.attn_state_kv 0 (attn_state ratio) ≡ false)
      × (outside l2.attn_state_score 0 (attn_state ratio) ≡ false)
      × ((ratio == 4) ≡ true → IndexFits l2 ratio)

  abbrev pub LayerFits : (raw_cap il : ℕ) → Layer → Type 0
  LayerFits raw_cap il l2 =
      (raw_cap * row_bytes shape ≤ l2.raw_cache.size)
      × ((layer_compress_ratio il == 0) ≡ false → CompressedFits l2 (layer_compress_ratio il))

  abbrev pub IndexCopied : Layer → Layer → ℕ → Type 0
  IndexCopied l l' ratio =
      Copied l.index_comp_cache 0 l'.index_comp_cache 0 (l.n_index_comp * index_row_bytes shape)
      × Copied l.index_state_kv 0 l'.index_state_kv 0 (index_state ratio)
      × Copied l.index_state_score 0 l'.index_state_score 0 (index_state ratio)

  abbrev pub CompressedCopied : Layer → Layer → ℕ → Type 0
  CompressedCopied l l' ratio =
      Copied l.attn_comp_cache 0 l'.attn_comp_cache 0 (l.n_comp * row_bytes shape)
      × Copied l.attn_state_kv 0 l'.attn_state_kv 0 (attn_state ratio)
      × Copied l.attn_state_score 0 l'.attn_state_score 0 (attn_state ratio)
      × ((ratio == 4) ≡ true → IndexCopied l l' ratio)

  -- every byte that the next token may depend on
  abbrev pub LayerCopied : (raw_cap raw_cap2 raw_first raw_live il : ℕ) → Layer → Layer → Type 0
  LayerCopied raw_cap raw_cap2 raw_first raw_live il l l' =
      RowsCopied l.raw_cache raw_cap l'.raw_cache raw_cap2 (row_bytes shape) raw_first raw_live
      × (l'.n_comp ≡ l.n_comp)
      × (l'.n_index_comp ≡ l.n_index_comp)
      × ((layer_compress_ratio il == 0) ≡ false → CompressedCopied l l' (layer_compress_ratio il))

  -- what the load of the indexer's tensors leaves alone
  abbrev SameAttn : Layer → Layer → Type 0
  SameAttn l2 l' =
      (l'.raw_cache ≡ l2.raw_cache)
      × (l'.attn_comp_cache ≡ l2.attn_comp_cache)
      × (l'.attn_state_kv ≡ l2.attn_state_kv)
      × (l'.attn_state_score ≡ l2.attn_state_score)
      × (l'.n_comp ≡ l2.n_comp)
      × (l'.n_index_comp ≡ l2.n_index_comp)

  -- a span whose length is a count of rows of the file
  replays-counted :
      (t t2 : Tensor) (n n2 size : ℕ)
      → n2 ≡ n
      → outside t2 0 (n2 * size) ≡ false
      → Replays
          (payload_write_tensor_span t 0 (n * size))
          (payload_read_tensor_span t2 0 (n2 * size))
          (λ t'. Copied t 0 t' 0 (n * size))
  replays-counted t t2 n n2 size same fits = record {
    run = λ p rest r e.
        let k : n2 * size ≡ n * size = ap (λ x. x * size) same in
        let (t', read, (_, copy)) =
          (replays-span t t2 0 0 (n * size) (ap (outside t2 0) (sym k) ∙ fits)).run p rest r e in
        (
          t',
          ap
                (λ x.
                  payload_read_tensor_span t2 0 x
                    (record { file = p ++ rest; remaining = length p + r }))
                k
              ∙ read,
          copy,
        );
  }

  replays-index :
      (l l2 : Layer) (ratio : ℕ)
      → l2.n_index_comp ≡ l.n_index_comp
      → IndexFits l2 ratio
      → Replays
          (write_index shape l ratio)
          (read_index shape l2 ratio)
          (λ l'. SameAttn l2 l' × IndexCopied l l' ratio)
  unfolding write_index read_index
  replays-index l l2 ratio same fits =
      replays-then _ _ _ _ _ _
        (replays-counted l.index_comp_cache l2.index_comp_cache l.n_index_comp l2.n_index_comp
          (index_row_bytes shape) same fits.0)
        (λ rows h.
          replays-then _ _ _ _ _ _
            (replays-span l.index_state_kv l2.index_state_kv 0 0 (index_state ratio) fits.1)
            (λ kv h2.
              replays-map _ _ _ _ _
                (replays-span l.index_state_score l2.index_state_score 0 0 (index_state ratio)
                  fits.2)
                (λ score h3. ((refl, refl, refl, refl, refl, refl), (h, h2.1, h3.1)))))

  -- what the load of the compressed tensors leaves alone
  abbrev SameRaw : Layer → Layer → Type 0
  SameRaw l2 l' =
      (l'.raw_cache ≡ l2.raw_cache) × (l'.n_comp ≡ l2.n_comp) × (l'.n_index_comp ≡ l2.n_index_comp)

  -- copies at tensors that are the same
  moved : (t : Tensor) (n : ℕ) (t1 t2 : Tensor) → t2 ≡ t1 → Copied t 0 t1 0 n → Copied t 0 t2 0 n
  moved t n t1 t2 e h = rw e h

  replays-compressed :
      (l l2 : Layer) (ratio : ℕ)
      → l2.n_comp ≡ l.n_comp
      → l2.n_index_comp ≡ l.n_index_comp
      → CompressedFits l2 ratio
      → Replays
          (write_compressed shape l ratio)
          (read_compressed shape l2 ratio)
          (λ l'. SameRaw l2 l' × CompressedCopied l l' ratio)
  unfolding write_compressed read_compressed
  replays-compressed l l2 ratio same same_index fits =
      replays-then _ _ _ _ _ _
        (replays-counted l.attn_comp_cache l2.attn_comp_cache l.n_comp l2.n_comp (row_bytes shape)
          same fits.0)
        (λ rows h.
          replays-then _ _ _ _ _ _
            (replays-span l.attn_state_kv l2.attn_state_kv 0 0 (attn_state ratio) fits.1)
            (λ kv h2.
              replays-then _ _ _ _ _ _
                (replays-span l.attn_state_score l2.attn_state_score 0 0 (attn_state ratio) fits.2)
                (λ score h3.
                  let l3 : Layer = (record l2 {
                    attn_comp_cache = rows;
                    attn_state_kv = kv;
                    attn_state_score = score;
                  }) in
                  replays-if (ratio == 4) (write_index shape l ratio) (some [])
                    (read_index shape l3 ratio) (give l3) _
                    (λ four.
                      weaken (replays-index l l3 ratio same_index (fits.3 four))
                        (λ l' (kept, copied). (
                          (kept.0, kept.4, kept.5),
                          (
                            moved l.attn_comp_cache (l.n_comp * row_bytes shape) rows
                                l'.attn_comp_cache kept.1 h,
                            moved l.attn_state_kv (attn_state ratio) kv l'.attn_state_kv kept.2
                                h2.1,
                            moved l.attn_state_score (attn_state ratio) score l'.attn_state_score
                                kept.3 h3.1,
                            λ again. copied,
                          ),
                        )))
                    (λ other.
                      replays-give _ l3
                        ((refl, refl, refl), (h, h2.1, h3.1, λ four. absurd (ground arith)))))))

  pub replays-layer :
      (raw_cap raw_cap2 raw_first raw_live il : ℕ) (l l2 : Layer)
      → 0 < raw_cap2
      → raw_live ≤ raw_cap2
      → l2.n_comp ≡ l.n_comp
      → l2.n_index_comp ≡ l.n_index_comp
      → LayerFits raw_cap2 il l2
      → Replays
          (write_layer shape raw_cap raw_first raw_live il l)
          (read_layer shape raw_cap2 raw_first raw_live il l2)
          (LayerCopied raw_cap raw_cap2 raw_first raw_live il l)
  unfolding write_layer read_layer
  replays-layer raw_cap raw_cap2 raw_first raw_live il l l2 some_rows enough same same_index fits =
      replays-then _ _ _ _ _ _
        (replays-rows l.raw_cache raw_cap raw_cap2 (row_bytes shape) raw_live raw_first l2.raw_cache
          some_rows enough fits.0)
        (λ raw (size, copied, kept).
          let l3 : Layer = (record l2 { raw_cache = raw }) in
          let ratio = layer_compress_ratio il in
          replays-if (ratio == 0) (some []) (write_compressed shape l ratio) (give l3)
            (read_compressed shape l3 ratio) _
            (λ none_here.
              replays-give _ l3 (copied, same, same_index, λ some_here. absurd (ground arith)))
            (λ some_here.
              weaken (replays-compressed l l3 ratio same same_index (fits.1 some_here))
                (λ l' (kept, copies).
                  (rw kept.0 copied, kept.1 ∙ same, kept.2 ∙ same_index, λ again. copies))))
