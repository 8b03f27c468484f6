-- ===== src/Server/Kv/Evict/Victim.antt =====
-- Which entry is evicted next.
use go_ds.Common.{
  ℕ, zero, suc, ◌≡◌, inl, inr, true, false, ◌&&◌, Option, some, List, [], ◌∷◌, get_elem?, ltb,
  arith, Bool-cases,
}
use go_ds.Server.Kv.Header.{KvEntry}
use go_ds.Server.Kv.Evict.{Doubles, kv_entry_eviction_score, worse, keep_worse, victim_loop}

-- what the comparisons of doubles satisfy where no operand is a NaN
pub record Ordered {ℓ} {D : Type ℓ} (dbl : Doubles D) : Type ℓ where
  pub less_irrefl : (a : D) → dbl.less a a ≡ false
  pub less_below : (a b c : D) → dbl.less b a ≡ true → dbl.less c a ≡ false → dbl.less c b ≡ false
  pub equal_below : (a b c : D) → dbl.equal b a ≡ true → dbl.less c a ≡ false → dbl.less c b ≡ false

module _ {ℓ} {D : Type ℓ} (dbl : Doubles D) (order : Ordered dbl) (live : Option (List ℕ)) where
  -- the score of `e` is not below that of `v`
  abbrev pub NotBelow : KvEntry → KvEntry → Type 0
  NotBelow e v =
      dbl.less (kv_entry_eviction_score dbl e live) (kv_entry_eviction_score dbl v live) ≡ false

  keep_worse-NotBelow :
      (i : ℕ) (e x : KvEntry) (best : ℕ × KvEntry)
      → NotBelow x best.1
      → NotBelow x (keep_worse dbl live i e best).1
  unfolding keep_worse worse
  keep_worse-NotBelow i e x best h =
      let s = kv_entry_eviction_score dbl e live in
      let b = kv_entry_eviction_score dbl best.1 live in
      let c = kv_entry_eviction_score dbl x live in
      elim (Bool-cases (dbl.less s b)) [
        | inl l ↦ rw l (order.less_below b s c l h)
        | inr m ↦ elim (Bool-cases (dbl.equal s b && ltb e.last_used best.1.last_used)) [
          | inl q ↦ rw (m, q) (order.equal_below b s c (ground arith) h)
          | inr k ↦ rw (m, k) h
        ]
      ]

  keep_worse-NotBelow_new :
      (i : ℕ) (e : KvEntry) (best : ℕ × KvEntry) → NotBelow e (keep_worse dbl live i e best).1
  unfolding keep_worse worse
  keep_worse-NotBelow_new i e best =
      let s = kv_entry_eviction_score dbl e live in
      let b = kv_entry_eviction_score dbl best.1 live in
      elim (Bool-cases (dbl.less s b)) [
        | inl l ↦ rw l (order.less_irrefl s)
        | inr m ↦ elim (Bool-cases (dbl.equal s b && ltb e.last_used best.1.last_used)) [
          | inl q ↦ rw (m, q) (order.less_irrefl s)
          | inr k ↦ rw (m, k) m
        ]
      ]

  victim_loop-NotBelow_best :
      (i : ℕ) (es : List KvEntry) (best : ℕ × KvEntry) (x : KvEntry)
      → NotBelow x best.1
      → NotBelow x (victim_loop dbl live i es best).1
  unfolding victim_loop
  victim_loop-NotBelow_best i [] best x h = h
  victim_loop-NotBelow_best i (e ∷ es) best x h =
      victim_loop-NotBelow_best (suc i) es (keep_worse dbl live i e best) x
        (keep_worse-NotBelow i e x best h)

  victim_loop-NotBelow :
      (i : ℕ) (es : List KvEntry) (best : ℕ × KvEntry) (k : ℕ) (x : KvEntry)
      → get_elem? es k ≡ some x
      → NotBelow x (victim_loop dbl live i es best).1
  unfolding victim_loop
  victim_loop-NotBelow i [] best k x at = cc
  victim_loop-NotBelow i (e ∷ es) best zero x at =
      let same : e ≡ x = ground arith in
      rw same (
        victim_loop-NotBelow_best (suc i) es (keep_worse dbl live i x best) x
          (keep_worse-NotBelow_new i x best))
  victim_loop-NotBelow i (e ∷ es) best (suc k) x at =
      victim_loop-NotBelow (suc i) es (keep_worse dbl live i e best) k x at

  -- No entry of the cache has a score below the victim's.
  pub victim-NotBelow :
      (e : KvEntry) (es : List KvEntry) (k : ℕ) (x : KvEntry)
      → get_elem? (e ∷ es) k ≡ some x
      → NotBelow x (victim_loop dbl live 1 es (0, e)).1
  victim-NotBelow e es zero x at =
      let same : e ≡ x = ground arith in
      rw same (
        victim_loop-NotBelow_best 1 es (0, x) x
          (order.less_irrefl (kv_entry_eviction_score dbl x live)))
  victim-NotBelow e es (suc k) x at = victim_loop-NotBelow 1 es (0, e) k x at
