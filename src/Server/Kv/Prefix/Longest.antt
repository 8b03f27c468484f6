-- ===== src/Server/Kv/Prefix/Longest.antt =====
-- The entry that is loaded for a prompt.
use go_ds.Common.{
  ℕ, zero, suc, ◌-◌, ◌≤◌, ◌%◌, ◌≡◌, ap, ◌∙◌, ◌⊎◌, inl, inr, Bool, true, false, ◌&&◌, Option, none,
  some, List, [], ◌∷◌, length, ltb, same_bytes, same_bytes_sound, same_bytes_refl, arith,
  Bool-cases, get_elem?,
}
use go_ds.Server.Kv.Header.{KvEntry}
use go_ds.Server.Kv.Sha1.{sha1_tokens_hex}
use go_ds.Server.Kv.Prefix.{
  KvDiskCache, usable, longer_than, keep_longer, find_loop, kv_cache_find_prefix,
}

-- what makes an entry usable for a prompt
pub record Usable (kc : KvDiskCache) (prompt : List ℕ) (quant_bits ctx_size : ℕ) (e : KvEntry)
    : Type 0 where
  prefix_len : e.tokens ≤ length prompt
  long_enough : kc.opt.min_tokens ≤ e.tokens
  context_fits : e.ctx_size ≤ ctx_size
  quant_fits : (kc.reject_different_quant ≡ false) ⊎ (e.quant_bits ≡ quant_bits % 256)
  same_prefix : e.sha ≡ sha1_tokens_hex prompt e.tokens

usable_sound :
    (kc : KvDiskCache) (prompt : List ℕ) (q x : ℕ) (e : KvEntry)
    → usable kc prompt q x e ≡ true
    → Usable kc prompt q x e
unfolding usable
usable_sound kc prompt q x e h = record {
  prefix_len = ground arith;
  long_enough = ground arith;
  context_fits = ground arith;
  quant_fits = ground arith;
  same_prefix = ground (arith, same_bytes_sound (sha1_tokens_hex prompt e.tokens) e.sha);
}

usable_complete :
    (kc : KvDiskCache) (prompt : List ℕ) (q x : ℕ) (e : KvEntry)
    → Usable kc prompt q x e
    → usable kc prompt q x e ≡ true
unfolding usable
usable_complete kc prompt q x e u =
    let hash : same_bytes (sha1_tokens_hex prompt e.tokens) e.sha ≡ true =
      ap (λ sha. same_bytes (sha1_tokens_hex prompt e.tokens) sha) u.same_prefix
      ∙ same_bytes_refl (sha1_tokens_hex prompt e.tokens) in
    ground (arith, hash, u.prefix_len, u.long_enough, u.context_fits, u.quant_fits)

module _ (ok : KvEntry → Bool) where
  -- an entry is covered by a result at least as long
  abbrev Covered : Option (ℕ × KvEntry) → KvEntry → Type 0
  Covered none e = ⊥
  Covered (some (_, best)) e = e.tokens ≤ best.tokens

  keep_longer-covers :
      (i : ℕ) (e' : KvEntry) (best : Option (ℕ × KvEntry)) (e : KvEntry)
      → Covered best e
      → Covered (keep_longer ok i e' best) e
  unfolding keep_longer
  keep_longer-covers i e' none e h = absurd h
  keep_longer-covers i e' (some (j, b)) e h = elim (Bool-cases (ok e' && ltb b.tokens e'.tokens)) [
    | inl y ↦ rw y (ground arith)
    | inr n ↦ rw n h
  ]

  keep_longer-covers_new :
      (i : ℕ) (e : KvEntry) (best : Option (ℕ × KvEntry))
      → ok e ≡ true
      → Covered (keep_longer ok i e best) e
  unfolding keep_longer
  keep_longer-covers_new i e none y = rw y (omega arith)
  keep_longer-covers_new i e (some (j, b)) y = elim (Bool-cases (ltb b.tokens e.tokens)) [
    | inl l ↦ rw (y, l) (omega arith)
    | inr g ↦ rw (y, g) (ground arith)
  ]

  find_loop-covers_best :
      (i : ℕ) (es : List KvEntry) (best : Option (ℕ × KvEntry)) (e : KvEntry)
      → Covered best e
      → Covered (find_loop ok i es best) e
  unfolding find_loop
  find_loop-covers_best i [] best e h = h
  find_loop-covers_best i (e' ∷ es) best e h =
      find_loop-covers_best (suc i) es (keep_longer ok i e' best) e
        (keep_longer-covers i e' best e h)

  find_loop-covers :
      (i : ℕ) (es : List KvEntry) (best : Option (ℕ × KvEntry)) (k : ℕ) (e : KvEntry)
      → get_elem? es k ≡ some e
      → ok e ≡ true
      → Covered (find_loop ok i es best) e
  unfolding find_loop
  find_loop-covers i [] best k e at y = cc
  find_loop-covers i (e' ∷ es) best zero e at y =
      let same : e' ≡ e = ground arith in
      rw same (
        find_loop-covers_best (suc i) es (keep_longer ok i e best) e
          (keep_longer-covers_new i e best y))
  find_loop-covers i (e' ∷ es) best (suc k) e at y =
      find_loop-covers (suc i) es (keep_longer ok i e' best) k e at y

  -- an entry of the list with a number counted from `i`
  record Found (i : ℕ) (es : List KvEntry) (j : ℕ) (b : KvEntry) : Type 0 where
    usable_entry : ok b ≡ true
    number_from : i ≤ j
    at_number : get_elem? es (j - i) ≡ some b

  keep_longer-eq-some :
      (i : ℕ) (e : KvEntry) (best : Option (ℕ × KvEntry)) (j : ℕ) (b : KvEntry)
      → keep_longer ok i e best ≡ some (j, b)
      → (best ≡ some (j, b)) ⊎ ((ok e ≡ true) × (i ≡ j) × (e ≡ b))
  unfolding keep_longer
  keep_longer-eq-some i e best j b h = elim (Bool-cases (ok e && longer_than best e)) [
    | inl y ↦ inr (ground arith, ground arith, ground arith)
    | inr n ↦ inl (ground arith)
  ]

  find_loop-Found :
      (i : ℕ) (es : List KvEntry) (best : Option (ℕ × KvEntry)) (j : ℕ) (b : KvEntry)
      → find_loop ok i es best ≡ some (j, b)
      → (best ≡ some (j, b)) ⊎ Found i es j b
  unfolding find_loop
  find_loop-Found i [] best j b h = inl h
  find_loop-Found i (e ∷ es) best j b h =
      elim (find_loop-Found (suc i) es (keep_longer ok i e best) j b h) [
        | inl now ↦ elim (keep_longer-eq-some i e best j b now) [
          | inl old ↦ inl old
          | inr (y, n, same) ↦
              let first : j - i ≡ 0 = omega arith in
              inr (record {
                usable_entry = rw (← same) y;
                number_from = omega arith;
                at_number = rw (first, same);
              })
        ]
        | inr f ↦
            let from = f.number_from in
            let next : j - i ≡ suc (j - suc i) = omega arith in
            inr (record {
              usable_entry = f.usable_entry;
              number_from = omega arith;
              at_number = rw next f.at_number;
            })
      ]

-- an entry of the list that is usable, where no usable entry has more tokens
pub record IsLongest (kc : KvDiskCache) (prompt : List ℕ) (quant_bits ctx_size i : ℕ) (b : KvEntry)
    : Type 0 where
  listed : get_elem? kc.entry i ≡ some b
  fits : Usable kc prompt quant_bits ctx_size b
  longest :
      (k : ℕ) (e : KvEntry)
      → get_elem? kc.entry k ≡ some e
      → Usable kc prompt quant_bits ctx_size e
      → e.tokens ≤ b.tokens

-- The entry found is that of the list with its number, it is usable for the prompt, and no
-- usable entry has more tokens.
pub kv_cache_find_prefix-IsLongest :
    (kc : KvDiskCache) (prompt : List ℕ) (quant_bits ctx_size i : ℕ) (b : KvEntry)
    → kv_cache_find_prefix kc prompt quant_bits ctx_size ≡ some (i, b)
    → IsLongest kc prompt quant_bits ctx_size i b
unfolding kv_cache_find_prefix
kv_cache_find_prefix-IsLongest kc prompt q x i b h =
    elim (find_loop-Found (usable kc prompt q x) 0 kc.entry none i b h) [
      | inl e ↦ absurd (ground arith)
      | inr f ↦
          let number : i - 0 ≡ i = omega arith in
          record {
            listed = let at = f.at_number in rw number at at;
            fits = usable_sound kc prompt q x b f.usable_entry;
            longest = λ k e at u.
                let covered =
                  find_loop-covers (usable kc prompt q x) 0 kc.entry none k e at
                    (usable_complete kc prompt q x e u) in
                rw h at covered;
          }
    ]

-- Where no entry is found, no entry of the list is usable.
pub kv_cache_find_prefix-none :
    (kc : KvDiskCache) (prompt : List ℕ) (quant_bits ctx_size k : ℕ) (e : KvEntry)
    → kv_cache_find_prefix kc prompt quant_bits ctx_size ≡ none
    → get_elem? kc.entry k ≡ some e
    → ¬ Usable kc prompt quant_bits ctx_size e
unfolding kv_cache_find_prefix
kv_cache_find_prefix-none kc prompt q x k e h at u =
    let covered =
      find_loop-covers (usable kc prompt q x) 0 kc.entry none k e at
        (usable_complete kc prompt q x e u) in
    rw h at covered
