-- ===== src/Server/Kv/Evict/Budget.antt =====
-- The disk cache is brought below its budget.
use go_ds.Common.{
  ℕ, zero, suc, ◌+◌, ◌-◌, ◌≤◌, ◌≡◌, ◌⊎◌, inl, inr, refl, ◌∙◌, ap, Bool, true, false, Option, some,
  List, [], ◌∷◌, length, get_elem?, ltb, ◌==◌, Bytes, arith, Bool-cases,
}
use go_ds.Server.Kv.Header.{KvEntry}
use go_ds.Server.Kv.Evict.{
  Doubles, remove_at, total_size, worse, keep_worse, victim_loop, EvictState, evict_one, evict_loop,
  kv_cache_evict,
}

total_size-remove_at :
    (n : ℕ) (es : List KvEntry) (e : KvEntry)
    → get_elem? es n ≡ some e
    → total_size es ≡ e.file_size + total_size (remove_at n es)
unfolding total_size remove_at
total_size-remove_at n [] e h = cc
total_size-remove_at zero (x ∷ es) e h = ground arith
total_size-remove_at (suc n) (x ∷ es) e h = omega (arith, total_size-remove_at n es e h)

length-remove_at :
    (n : ℕ) (es : List KvEntry) (e : KvEntry)
    → get_elem? es n ≡ some e
    → length es ≡ suc (length (remove_at n es))
unfolding remove_at
length-remove_at n [] e h = cc
length-remove_at zero (x ∷ es) e h = omega arith
length-remove_at (suc n) (x ∷ es) e h = omega (arith, length-remove_at n es e h)

module _ {ℓ} {D : Type ℓ} (dbl : Doubles D) where
  keep_worse-cases :
      (live : Option (List ℕ)) (i : ℕ) (e : KvEntry) (best r : ℕ × KvEntry)
      → keep_worse dbl live i e best ≡ r
      → (best ≡ r) ⊎ ((i, e) ≡ r)
  unfolding keep_worse
  keep_worse-cases live i e best r h = elim (Bool-cases (worse dbl live e best.1)) [
    | inl w ↦ inr (let g = h in rw w at g)
    | inr n ↦ inl (let g = h in rw n at g)
  ]

  -- The victim's number is that of the victim.
  victim_loop-numbered :
      (live : Option (List ℕ)) (i : ℕ) (es : List KvEntry) (best r : ℕ × KvEntry)
      → victim_loop dbl live i es best ≡ r
      → (best ≡ r) ⊎ ((i ≤ r.0) × (get_elem? es (r.0 - i) ≡ some r.1))
  unfolding victim_loop
  victim_loop-numbered live i [] best r h = inl h
  victim_loop-numbered live i (e ∷ es) best r h =
      elim (victim_loop-numbered live (suc i) es (keep_worse dbl live i e best) r h) [
        | inl now ↦ elim (keep_worse-cases live i e best r now) [
          | inl old ↦ inl old
          | inr here ↦
              let number : i ≡ r.0 = ap (λ x. x.0) here in
              let entry : e ≡ r.1 = ap (λ x. x.1) here in
              let first : r.0 - i ≡ 0 = omega arith in inr (omega arith, rw (first, entry))
        ]
        | inr (from, at) ↦
            let next : r.0 - i ≡ suc (r.0 - suc i) = omega arith in inr (omega arith, rw next at)
      ]

  pub victim-get_elem? :
      (live : Option (List ℕ)) (e : KvEntry) (es : List KvEntry)
      → get_elem? (e ∷ es) (victim_loop dbl live 1 es (0, e)).0
        ≡ some (victim_loop dbl live 1 es (0, e)).1
  victim-get_elem? live e es =
      let r = victim_loop dbl live 1 es (0, e) in
      elim (victim_loop-numbered live 1 es (0, e) r refl) [
        | inl first ↦ rw (← first)
        | inr (from, at) ↦
            let next : r.0 ≡ suc (r.0 - 1) = omega arith in ap (get_elem? (e ∷ es)) next ∙ at
      ]

  module _ (unlink : Bytes → Bool) (budget : ℕ) where
    -- the total is that of the entries, or a file could not be removed
    abbrev Counted : EvictState → Type 0
    Counted st =
        (st.total ≡ total_size st.entry) ⊎ ((p : Bytes) × (unlink p ≡ false) × (st.total ≡ 0))

    evict_one-Counted :
        (live : Option (List ℕ)) (e : KvEntry) (es : List KvEntry) (st : EvictState)
        → st.total ≡ total_size (e ∷ es)
        → Counted (evict_one dbl unlink budget live e es st)
    unfolding evict_one
    evict_one-Counted live e es st h =
        let v = victim_loop dbl live 1 es (0, e) in
        elim (Bool-cases (unlink v.1.path)) [
          | inl y ↦
              let sizes = total_size-remove_at v.0 (e ∷ es) v.1 (victim-get_elem? live e es) in
              inl (rw y (omega arith))
          | inr n ↦ inr (v.1.path, n, rw n)
        ]

    abbrev state : List KvEntry → ℕ → List Bytes → EvictState
    state es total gone = record { entry = es; total = total; unlinked = gone }

    length-evict_one :
        (live : Option (List ℕ)) (e : KvEntry) (es : List KvEntry) (st : EvictState)
        → length (evict_one dbl unlink budget live e es st).entry ≡ length es
    unfolding evict_one
    length-evict_one live e es st =
        let v = victim_loop dbl live 1 es (0, e) in
        omega (arith, length-remove_at v.0 (e ∷ es) v.1 (victim-get_elem? live e es))

    -- behind the loop
    abbrev Brought : EvictState → Type 0
    Brought st = Counted st × (st.total ≤ budget)

    evict_loop-Brought :
        (rounds : ℕ) (live : Option (List ℕ)) (es : List KvEntry) (total : ℕ) (gone : List Bytes)
        → Counted (state es total gone)
        → length es ≤ rounds
        → Brought (evict_loop dbl unlink budget rounds live (state es total gone))
    unfolding evict_loop total_size
    evict_loop-Brought zero live [] total gone (inl c) fuel = (inl c, omega arith)
    evict_loop-Brought zero live [] total gone (inr c) fuel = (inr c, omega (arith, c.2))
    evict_loop-Brought zero live (e ∷ es) total gone c fuel = absurd (omega arith)
    evict_loop-Brought (suc rounds) live [] total gone (inl c) fuel = (inl c, omega arith)
    evict_loop-Brought (suc rounds) live [] total gone (inr c) fuel = (inr c, omega (arith, c.2))
    evict_loop-Brought (suc rounds) live (e ∷ es) total gone c fuel =
        elim (Bool-cases (ltb budget total)) [
          | inr n ↦ rw n (c, ground arith)
          | inl y ↦ elim c [
            | inr (p, f, z) ↦ absurd (ground arith)
            | inl all ↦
                let next = evict_one dbl unlink budget live e es (state (e ∷ es) total gone) in
                let shorter = length-evict_one live e es (state (e ∷ es) total gone) in
                rw y (
                  evict_loop-Brought rounds live next.entry next.total next.unlinked
                    (evict_one-Counted live e es (state (e ∷ es) total gone) all) (omega arith))
          ]
        ]

    -- Where every file can be removed, what stays in an enabled cache with a budget is within it.
    pub kv_cache_evict-within_budget :
        (live : Option (List ℕ)) (entries : List KvEntry)
        → 1 ≤ budget
        → ((p : Bytes) → unlink p ≡ true)
        → total_size (kv_cache_evict dbl unlink budget true live entries).entry ≤ budget
    unfolding kv_cache_evict
    kv_cache_evict-within_budget live entries some_budget all_go =
        let set : (budget == 0) ≡ false = ground arith in
        let done =
          evict_loop-Brought (length entries) live entries (total_size entries) [] (inl refl)
            (omega arith) in
        rw set (elim done.0 [
          | inl c ↦ omega (arith, c, done.1)
          | inr (p, f, z) ↦ absurd (ground (arith, f, all_go p))
        ])
