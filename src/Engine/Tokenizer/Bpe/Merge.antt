-- ===== src/Engine/Tokenizer/Bpe/Merge.antt =====
-- The merge loop: it keeps the bytes, and stops only where no pair can be merged.
use go_ds.Common.{
  ℕ, zero, suc, ◌+◌, ◌≤◌, ◌<◌, ◌≡◌, ◌≢◌, refl, inl, inr, ◌⊎◌, true, false, Option, none, some, List,
  [], ◌∷◌, Bytes, length, ltb, arith, Option-cases, Bool-cases, ltb→lt,
}
use go_ds.Engine.Tokenizer.Bpe.{
  Vocab, bpe_rank, better, rank_or, best_pair, find_best, merge_at, merge_all, int32_max,
}

-- an index that the search finds is that of a pair
best_pair-lt :
    (v : Vocab) (i : ℕ) (best_i : Option ℕ) (best_rank : ℕ) (sym : List Bytes) (k : ℕ)
    → best_pair v i best_i best_rank sym ≡ some k
    → (best_i ≡ some k) ⊎ (k + 1 < i + length sym)
unfolding best_pair
best_pair-lt v i best_i best_rank [] k h = inl h
best_pair-lt v i best_i best_rank (a ∷ []) k h = inl h
best_pair-lt v i best_i best_rank (a ∷ b ∷ sym) k h =
    ground (arith, best_pair-lt v (i + 1) _ _ (b ∷ sym) k h)

pub find_best-lt :
    (v : Vocab) (sym : List Bytes) (k : ℕ) → find_best v sym ≡ some k → k + 1 < length sym
unfolding find_best
find_best-lt v sym k h = ground (arith, best_pair-lt v 0 none int32_max sym k h)

pub length-merge_at :
    (i : ℕ) (sym : List Bytes) → i + 1 < length sym → length (merge_at i sym) + 1 ≡ length sym
unfolding merge_at
length-merge_at i [] h = absurd (omega arith)
length-merge_at i (a ∷ []) h = absurd (omega arith)
length-merge_at zero (a ∷ b ∷ sym) h = omega arith
length-merge_at (suc i) (a ∷ b ∷ sym) h = omega (arith, length-merge_at i (b ∷ sym))

-- No adjacent pair has a rank below `INT32_MAX`.
abbrev pub NoMerge : Vocab → List Bytes → Type 0
NoMerge v [] = Unit
NoMerge v (a ∷ []) = Unit
NoMerge v (a ∷ b ∷ sym) = (better (bpe_rank v a b) int32_max ≡ false) × NoMerge v (b ∷ sym)

best_pair-ne-none :
    (v : Vocab) (i j best_rank : ℕ) (sym : List Bytes) → best_pair v i (some j) best_rank sym ≢ none
unfolding best_pair
best_pair-ne-none v i j r [] h = cc
best_pair-ne-none v i j r (a ∷ []) h = cc
best_pair-ne-none v i j r (a ∷ b ∷ sym) h = elim (Bool-cases (better (bpe_rank v a b) r)) [
  | inl e ↦ best_pair-ne-none v (i + 1) i (rank_or (bpe_rank v a b) r) (b ∷ sym) (rw e at h)
  | inr e ↦ best_pair-ne-none v (i + 1) j r (b ∷ sym) (rw e at h)
]

best_pair-none :
    (v : Vocab) (i : ℕ) (best_i : Option ℕ) (sym : List Bytes)
    → best_pair v i best_i int32_max sym ≡ none
    → NoMerge v sym
unfolding best_pair
best_pair-none v i best_i [] h = tt
best_pair-none v i best_i (a ∷ []) h = tt
best_pair-none v i best_i (a ∷ b ∷ sym) h = elim (Bool-cases (better (bpe_rank v a b) int32_max)) [
  | inl e ↦
      absurd
        (best_pair-ne-none v (i + 1) i (rank_or (bpe_rank v a b) int32_max) (b ∷ sym) (rw e at h))
  | inr e ↦ (e, best_pair-none v (i + 1) best_i (b ∷ sym) (rw e at h))
]

-- With a round for each symbol the merge loop ends by its test: no pair is left to merge.
pub merge_all-NoMerge :
    (v : Vocab) (n : ℕ) (sym : List Bytes) → length sym ≤ n → NoMerge v (merge_all v n sym)
unfolding merge_all
merge_all-NoMerge v zero [] h = tt
merge_all-NoMerge v zero (a ∷ sym) h = elim h [ ]
merge_all-NoMerge v (suc n) sym h = elim (Option-cases (find_best v sym)) [
  | inl e ↦ rw (e, merge_all) (best_pair-none v 0 none sym (unfold find_best in e))
  | inr (i, e) ↦
      rw (e, merge_all)
        (merge_all-NoMerge v n (merge_at i sym)
          (omega (arith, length-merge_at i sym (find_best-lt v sym i e))))
]

-- the rank of the pair with index `i`
abbrev pub pair_rank : Vocab → List Bytes → ℕ → Option ℕ
pair_rank v [] i = none
pair_rank v (a ∷ []) i = none
pair_rank v (a ∷ b ∷ sym) zero = bpe_rank v a b
pair_rank v (a ∷ b ∷ sym) (suc i) = pair_rank v (b ∷ sym) i

-- Pair `m` has rank `r`, below `bound`; no pair has a smaller one, and none before it the same.
pub record IsBest (v : Vocab) (bound : ℕ) (sym : List Bytes) (m r : ℕ) : Type 0 where
  pub at : pair_rank v sym m ≡ some r
  pub below : r < bound
  pub least : (j s : ℕ) → pair_rank v sym j ≡ some s → r ≤ s
  pub first : (j s : ℕ) → j < m → pair_rank v sym j ≡ some s → r < s

abbrev Chosen : Vocab → ℕ → Option ℕ → ℕ → List Bytes → ℕ → Type 0
Chosen v i best_i best_rank sym k =
    ((best_i ≡ some k) × ((j s : ℕ) → pair_rank v sym j ≡ some s → best_rank ≤ s))
    ⊎ ((m : ℕ) × (r : ℕ) × (k ≡ i + m) × IsBest v best_rank sym m r)

module _ (v : Vocab) (a b : Bytes) (sym : List Bytes) where
  IsBest-here :
      (best_rank r : ℕ)
      → bpe_rank v a b ≡ some r
      → r < best_rank
      → ((j s : ℕ) → pair_rank v (b ∷ sym) j ≡ some s → r ≤ s)
      → IsBest v best_rank (a ∷ b ∷ sym) 0 r
  IsBest-here best_rank r e l h = record {
    at = e;
    below = l;
    least = elim [ zero ↦ λ s x. ground arith | suc j ↦ h j ];
    first = λ j s lt. elim lt [ ];
  }

  IsBest-later :
      (best_rank bound m r : ℕ)
      → ((s : ℕ) → bpe_rank v a b ≡ some s → r < s)
      → bound ≤ best_rank
      → IsBest v bound (b ∷ sym) m r
      → IsBest v best_rank (a ∷ b ∷ sym) (suc m) r
  IsBest-later best_rank bound m r more le h = record {
    at = h.at;
    below = omega (arith, h.below);
    least = elim [ zero ↦ λ s x. omega (arith, more s x) | suc j ↦ h.least j ];
    first = elim [ zero ↦ λ s lt x. more s x | suc j ↦ λ s lt x. h.first j s (omega arith) x ];
  }

better_cases :
    (o : Option ℕ) (bound : ℕ)
    → ((r : ℕ) × (o ≡ some r) × (r < bound) × (better o bound ≡ true) × (rank_or o bound ≡ r))
      ⊎ ((better o bound ≡ false) × ((s : ℕ) → o ≡ some s → bound ≤ s))
better_cases none bound = inr (refl, λ s x. cc)
better_cases (some r) bound = elim (Bool-cases (ltb r bound)) [
  | inl e ↦ inl (r, refl, ltb→lt r bound e, e, refl)
  | inr e ↦ inr (e, λ s x. ground arith)
]

best_pair-Chosen :
    (v : Vocab) (i : ℕ) (best_i : Option ℕ) (best_rank : ℕ) (sym : List Bytes) (k : ℕ)
    → best_pair v i best_i best_rank sym ≡ some k
    → Chosen v i best_i best_rank sym k
unfolding best_pair
best_pair-Chosen v i best_i R [] k h = inl (h, λ j s x. cc)
best_pair-Chosen v i best_i R (a ∷ []) k h = inl (h, λ j s x. cc)
best_pair-Chosen v i best_i R (a ∷ b ∷ sym) k h = elim (better_cases (bpe_rank v a b) R) [
  | inl (r, e, l, found, same) ↦
      elim (best_pair-Chosen v (i + 1) (some i) r (b ∷ sym) k (rw (found, same) at h)) [
        | inl (p, ge) ↦ inr (0, r, ground arith, IsBest-here v a b sym R r e l ge)
        | inr (m, r', q, best) ↦ inr (
          suc m,
          r',
          omega arith,
          IsBest-later v a b sym R r m r' (λ s x. ground (arith, best.below)) (omega arith) best,
        )
      ]
  | inr (not_found, ge) ↦
      elim (best_pair-Chosen v (i + 1) best_i R (b ∷ sym) k (rw not_found at h)) [
        | inl (p, ge') ↦ inl (p, elim [ zero ↦ ge | suc j ↦ ge' j ])
        | inr (m, r', q, best) ↦ inr (
          suc m,
          r',
          omega arith,
          IsBest-later v a b sym R R m r' (λ s x. omega (arith, ge s x, best.below)) (omega arith)
              best,
        )
      ]
]

-- The pair that is merged next has the least rank of all pairs, and is the leftmost of those.
pub find_best-IsBest :
    (v : Vocab) (sym : List Bytes) (k : ℕ)
    → find_best v sym ≡ some k
    → (r : ℕ) × IsBest v int32_max sym k r
unfolding find_best
find_best-IsBest v sym k h = elim (best_pair-Chosen v 0 none int32_max sym k h) [
  | inl (p, ge) ↦ cc p
  | inr (m, r, e, best) ↦ let same : m ≡ k = omega arith in (r, rw (← same) best)
]
