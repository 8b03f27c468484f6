-- ===== src/Engine/Payload/Restore.antt =====
-- A snapshot is loaded as the session that it was saved from.
use go_ds.Common.{
  ℕ, ◌+◌, ◌-◌, ◌*◌, ◌≡◌, ◌≤◌, ◌<◌, ◌^◌, refl, ap, sym, subst, ◌∙◌, true, not, ◌&&◌, ◌||◌, Option,
  none, some, List, [], ◌∷◌, ◌++◌, Bytes, length, All, ltb, ◌==◌, arith, append_assoc,
}
use go_ds.Engine.Payload.{Shape, ◌>>=◌, payload_magic, payload_version, float_size, payload_put_u32}
use go_ds.Engine.Payload.Tensors.{
  Layer, session_raw_live_rows, ◌then_write◌, write_layers, read_layers,
}
use go_ds.Engine.Payload.Snapshot.{
  Snapped, put_all, read_all, read_counts, comp_counts, index_counts, set_counts, header,
  ds4_session_save_payload, header_fits, load_body, check_header, ds4_session_load_payload,
}
use go_ds.Engine.Payload.Replay.{
  Replays, replays-give, replays-then, replays-map, replays-require, replays-bytes, replays-u32,
}
use go_ds.Engine.Payload.RoundTrip.{LayerFits, LayerCopied, replays-layer}

abbrev pub IsWord : ℕ → Type 0
IsWord v = v < 2 ^ 32

replays-put_all :
    (vs : List ℕ) → All IsWord vs → Replays (some (put_all vs)) (read_all (length vs)) (λ x. x ≡ vs)
unfolding put_all read_all
replays-put_all [] h = replays-give _ [] refl
replays-put_all (v ∷ vs) h =
    replays-then (some (payload_put_u32 v)) (some (put_all vs)) _ _ _ _ (replays-u32 v h.0)
      (λ a e. replays-map _ _ _ _ _ (replays-put_all vs h.1) (λ more es. rw (e, es)))

-- counts that the two caps allow
abbrev Allowed : ℕ → ℕ → ℕ → Type 0
Allowed saved_comp_cap comp_cap v = (v ≤ saved_comp_cap) × (v ≤ comp_cap) × IsWord v

replays-counts :
    (saved_comp_cap comp_cap : ℕ) (vs : List ℕ)
    → All (Allowed saved_comp_cap comp_cap) vs
    → Replays (some (put_all vs)) (read_counts saved_comp_cap comp_cap (length vs)) (λ x. x ≡ vs)
unfolding put_all read_counts
replays-counts saved_comp_cap comp_cap [] h = replays-give _ [] refl
replays-counts saved_comp_cap comp_cap (v ∷ vs) h =
    replays-then (some (payload_put_u32 v)) (some (put_all vs)) _ _ _ _ (replays-u32 v h.0.2)
      (λ a e.
        let allowed = h.0 in
        replays-require (not (ltb saved_comp_cap a || ltb comp_cap a)) _ _ _ (ground arith) (
          replays-map _ _ _ _ _ (replays-counts saved_comp_cap comp_cap vs h.1)
            (λ more es. rw (e, es))))

module _ (shape : Shape) where
  -- `ls` are saved and `ls2` are loaded into
  abbrev pub AllFit : (raw_cap2 il : ℕ) → List Layer → List Layer → Type 0
  AllFit raw_cap2 il [] [] = Unit {0}
  AllFit raw_cap2 il (l ∷ ls) (l2 ∷ ls2) =
      LayerFits shape raw_cap2 il (record l2 { n_comp = l.n_comp; n_index_comp = l.n_index_comp })
      × AllFit raw_cap2 (il + 1) ls ls2
  AllFit raw_cap2 il _ _ = ⊥

  abbrev pub AllCopied :
      (raw_cap raw_cap2 raw_first raw_live il : ℕ) → List Layer → List Layer → Type 0
  AllCopied raw_cap raw_cap2 raw_first raw_live il [] [] = Unit {0}
  AllCopied raw_cap raw_cap2 raw_first raw_live il (l ∷ ls) (l' ∷ ls') =
      LayerCopied shape raw_cap raw_cap2 raw_first raw_live il l l'
      × AllCopied raw_cap raw_cap2 raw_first raw_live (il + 1) ls ls'
  AllCopied raw_cap raw_cap2 raw_first raw_live il _ _ = ⊥

  replays-layers :
      (raw_cap raw_cap2 raw_first raw_live il : ℕ) (ls ls2 : List Layer)
      → 0 < raw_cap2
      → raw_live ≤ raw_cap2
      → AllFit raw_cap2 il ls ls2
      → Replays
          (write_layers shape raw_cap raw_first raw_live il ls)
          (read_layers shape raw_cap2 raw_first raw_live il
            (set_counts ls2 (comp_counts ls) (index_counts ls)))
          (AllCopied raw_cap raw_cap2 raw_first raw_live il ls)
  unfolding write_layers read_layers set_counts comp_counts index_counts
  replays-layers raw_cap raw_cap2 raw_first raw_live il [] [] some_rows enough fits =
      replays-give _ [] tt
  replays-layers raw_cap raw_cap2 raw_first raw_live il (l ∷ ls) (l2 ∷ ls2) some_rows enough fits =
      replays-then _ _ _ _ _ _
        (replays-layer shape raw_cap raw_cap2 raw_first raw_live il l
          (record l2 { n_comp = l.n_comp; n_index_comp = l.n_index_comp }) some_rows enough refl
          refl fits.0)
        (λ l' copied.
          replays-map _ _ _ _ _
            (replays-layers raw_cap raw_cap2 raw_first raw_live (il + 1) ls ls2 some_rows enough
              fits.1)
            (λ ls' more. (copied, more)))
  replays-layers raw_cap raw_cap2 raw_first raw_live il [] (l2 ∷ ls2) some_rows enough fits =
      absurd fits
  replays-layers raw_cap raw_cap2 raw_first raw_live il (l ∷ ls) [] some_rows enough fits =
      absurd fits

  abbrev live : Snapped → ℕ
  live s = session_raw_live_rows shape s.graph (length s.checkpoint)

  -- What holds of the session that is saved and of the one that it is loaded into: the sizes that
  -- the loader asks for, and words where the file has words.
  pub record Compatible (s s2 : Snapped) : Type 0 where
    pub valid : s.checkpoint_valid ≡ true
    pub header_words : All IsWord (header shape s)
    pub token_words : All IsWord s.checkpoint
    pub logits_len : length s.logits ≡ shape.vocab * float_size
    pub comp_len : length (comp_counts s.graph.layers) ≡ shape.n_layer
    pub index_len : length (index_counts s.graph.layers) ≡ shape.n_layer
    pub comp_allowed : All (λ v. v ≤ s.graph.comp_cap) (comp_counts s.graph.layers)
    pub index_allowed : All (λ v. v ≤ s.graph.comp_cap) (index_counts s.graph.layers)
    pub window_some : 0 < s.graph.raw_window
    pub window_held : s.graph.raw_window ≤ s.graph.raw_cap
    pub window_fits : s.graph.raw_window ≤ s2.graph.raw_cap
    pub window_same : s.graph.raw_window ≡ s2.graph.raw_window
    pub prefill_same : s.prefill_cap ≡ s2.prefill_cap
    pub comp_fits : s.graph.comp_cap ≤ s2.graph.comp_cap
    pub ctx_fits : s.ctx_size ≤ s2.ctx_size
    pub tokens_fit : length s.checkpoint < s2.ctx_size
    pub tensors_fit : AllFit s2.graph.raw_cap 0 s.graph.layers s2.graph.layers

  -- the session behind the load
  pub record Restored (s s2 s' : Snapped) : Type 0 where
    pub checkpoint : s'.checkpoint ≡ s.checkpoint
    pub checkpoint_valid : s'.checkpoint_valid ≡ true
    pub logits : s'.logits ≡ s.logits
    pub layers :
        AllCopied s.graph.raw_cap s2.graph.raw_cap
          (length s.checkpoint - live s)
          (live s)
          0
          s.graph.layers
          s'.graph.layers

  allowed :
      (c c2 : ℕ) (vs : List ℕ) → IsWord c → c ≤ c2 → All (λ v. v ≤ c) vs → All (Allowed c c2) vs
  allowed c c2 [] w le h = tt
  allowed c c2 (v ∷ vs) w le h =
      let below = h.0 in ((h.0, omega arith, omega arith), allowed c c2 vs w le h.1)

  join_write :
      (a b : Bytes) (w : Option Bytes)
      → (some (a ++ b) then_write w) ≡ (some a then_write (some b then_write w))
  join_write a b none = refl
  join_write a b (some c) = ap some (append_assoc a b c)

  rows_there : (s s2 : Snapped) → Compatible s s2 → 0 < s2.graph.raw_cap
  rows_there s s2 c = let a = c.window_some in let b = c.window_fits in omega arith

  enough_rows : (s s2 : Snapped) → Compatible s s2 → live s ≤ s2.graph.raw_cap
  unfolding session_raw_live_rows
  enough_rows s s2 c = let a = c.window_some in let b = c.window_fits in ground arith

  -- the source reads as many counts as there are layers
  counted :
      {w : Option Bytes} {vs : List ℕ} {n : ℕ} (k k2 : ℕ)
      → length vs ≡ n
      → Replays w (read_counts k k2 (length vs)) (λ x. x ≡ vs)
      → Replays w (read_counts k k2 n) (λ x. x ≡ vs)
  counted {w} {vs} k k2 e h = subst (λ m. Replays w (read_counts k k2 m) (λ x. x ≡ vs)) e h

  body-replays :
      (s s2 : Snapped)
      → Compatible s s2
      → Replays
          (some (put_all s.checkpoint)
            then_write some s.logits
            then_write some (put_all (comp_counts s.graph.layers))
            then_write some (put_all (index_counts s.graph.layers))
            then_write write_layers shape s.graph.raw_cap
                (length s.checkpoint - live s)
                (live s)
                0
                s.graph.layers)
          (load_body shape s2 s.graph.comp_cap (length s.checkpoint) (live s))
          (Restored s s2)
  unfolding load_body
  body-replays s s2 c =
      let word : IsWord s.graph.comp_cap = c.header_words.1.1.1.1.1.1.0 in
      let comp =
        allowed s.graph.comp_cap s2.graph.comp_cap (comp_counts s.graph.layers) word c.comp_fits
          c.comp_allowed in
      let index =
        allowed s.graph.comp_cap s2.graph.comp_cap (index_counts s.graph.layers) word c.comp_fits
          c.index_allowed in
      let few : live s ≤ s2.graph.raw_cap = enough_rows s s2 c in
      replays-then _ _ _ _ _ _ (replays-put_all s.checkpoint c.token_words) (λ tokens tokens_same.
        replays-then _ _ _ _ _ _ (replays-bytes s.logits (shape.vocab * float_size) c.logits_len)
          (λ logits logits_same.
            replays-then _ _ _ _ _ _
              (counted s.graph.comp_cap s2.graph.comp_cap c.comp_len (
                replays-counts s.graph.comp_cap s2.graph.comp_cap (comp_counts s.graph.layers)
                  comp))
              (λ n_comp n_same.
                replays-then _ _ _ _ _ _
                  (counted s.graph.comp_cap s2.graph.comp_cap c.index_len (
                    replays-counts s.graph.comp_cap s2.graph.comp_cap (index_counts s.graph.layers)
                      index))
                  (λ n_index k_same.
                    rw (n_same, k_same)
                      (replays-map _ _ _ _ _
                        (replays-layers s.graph.raw_cap s2.graph.raw_cap
                          (length s.checkpoint - live s) (live s) 0 s.graph.layers s2.graph.layers
                          (rows_there s s2 c) few c.tensors_fit)
                        (λ layers copied. record {
                          checkpoint = tokens_same;
                          checkpoint_valid = refl;
                          logits = logits_same;
                          layers = copied;
                        }))))))

  -- the header passes the tests of the loader
  header-passes :
      (s s2 : Snapped)
      → Compatible s s2
      → header_fits shape s2 s.ctx_size s.prefill_cap s.graph.raw_cap s.graph.raw_window
          s.graph.comp_cap
          (length s.checkpoint)
          shape.n_layer
          shape.head_dim
          shape.indexer_head_dim
          shape.vocab
          (live s)
        ≡ true
  unfolding header_fits session_raw_live_rows
  header-passes s s2 c =
      let a = c.window_some in
      let b = c.window_held in
      let d = c.window_fits in
      let e = c.window_same in
      let f = c.prefill_same in
      let g = c.comp_fits in let h = c.ctx_fits in let k = c.tokens_fit in ground arith

  -- what is written, part by part
  abbrev saved_parts : Snapped → Option Bytes
  saved_parts s =
      some (put_all (header shape s))
      then_write some (put_all s.checkpoint)
      then_write some s.logits
      then_write some (put_all (comp_counts s.graph.layers))
      then_write some (put_all (index_counts s.graph.layers))
      then_write write_layers shape s.graph.raw_cap (length s.checkpoint - live s) (live s) 0
          s.graph.layers

  save-parts :
      (s : Snapped) → s.checkpoint_valid ≡ true → ds4_session_save_payload shape s ≡ saved_parts s
  unfolding ds4_session_save_payload
  save-parts s valid = rw (
    valid,
    join_write (put_all (header shape s)),
    join_write (put_all s.checkpoint),
    join_write s.logits,
    join_write (put_all (comp_counts s.graph.layers)),
  )

  check-header :
      (s s2 : Snapped)
      → Compatible s s2
      → Replays
          (some (put_all s.checkpoint)
            then_write some s.logits
            then_write some (put_all (comp_counts s.graph.layers))
            then_write some (put_all (index_counts s.graph.layers))
            then_write write_layers shape s.graph.raw_cap
                (length s.checkpoint - live s)
                (live s)
                0
                s.graph.layers)
          (check_header shape s2 (header shape s))
          (Restored s s2)
  unfolding check_header
  check-header s s2 c =
      replays-require (payload_magic == payload_magic && payload_version == payload_version) _ _ _
        (ground arith) (replays-require _ _ _ _ (header-passes s s2 c) (body-replays s s2 c))

  payload-replays :
      (s s2 : Snapped)
      → Compatible s s2
      → Replays (saved_parts s) (read_all 13 >>= check_header shape s2) (Restored s s2)
  payload-replays s s2 c =
      replays-then _ _ _ _ _ _ (replays-put_all (header shape s) c.header_words)
        (λ h same. rw same (check-header s s2 c))

  -- A session is saved, and another one, of a compatible size, loads what was written, with the tool
  -- map behind it in the file: the load succeeds, and the session behind it has the tokens, the
  -- logits, every live row of the ring, the compressed rows, their counts and the states of the
  -- session that was saved.
  pub load_payload-save_payload :
      (s s2 : Snapped) (p rest : Bytes)
      → Compatible s s2
      → ds4_session_save_payload shape s ≡ some p
      → (s' : Snapped) × (ds4_session_load_payload shape s2 (p ++ rest) (length p) ≡ some s')
        × Restored s s2 s'
  unfolding ds4_session_load_payload
  load_payload-save_payload s s2 p rest c e =
      let parts = sym (save-parts s c.valid) ∙ e in
      let (s', read, restored) = (payload-replays s s2 c).run p rest 0 parts in
      let whole : length p + 0 ≡ length p = omega arith in
      let read' : (read_all 13 >>= check_header shape s2)
            (record { file = p ++ rest; remaining = length p })
          ≡ some (s', record { file = rest; remaining = 0 }) =
        ap
          (λ n.
            (read_all 13 >>= check_header shape s2) (record { file = p ++ rest; remaining = n }))
          (sym whole)
        ∙ read in
      (s', rw (ds4_session_load_payload, read'), restored)
