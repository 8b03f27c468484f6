-- ===== src/Server/Kv/Prefix/StoreLen.antt =====
-- The boundary at which a cold prompt is stored.
use native.Mathlib.Nat.{div-add-mod', mul-mod_left, mod-lt}
use go_ds.Common.{
  ℕ, ◌+◌, ◌-◌, ◌*◌, ◌/◌, ◌%◌, ◌≤◌, ◌<◌, ◌≡◌, ◌⊎◌, inl, inr, ◌∙◌, ap, ltb, leb, arith, Bool-cases,
  refl, max,
}
use go_ds.Server.Kv.Prefix.{KvCacheOptions, stable_len, kv_cache_store_len}

-- A boundary to store at: it leaves the trimmed tokens off, is aligned, and is the last of those.
pub record IsBoundary (opt : KvCacheOptions) (tokens stored : ℕ) : Type 0 where
  trimmed : stored + opt.boundary_trim_tokens ≤ tokens
  aligned : 1 ≤ opt.boundary_align_tokens → stored % opt.boundary_align_tokens ≡ 0
  last_one : tokens < stored + opt.boundary_trim_tokens + max 1 opt.boundary_align_tokens
  long_enough : opt.min_tokens ≤ stored

cut_mod : (n m : ℕ) → (n - n % m) % m ≡ 0
cut_mod n m =
    let parts = div-add-mod' n m in
    let whole : n - n % m ≡ n / m * m = omega arith in
    ap (λ x. x % m) whole ∙ mul-mod_left (n / m) m

stable_len-IsBoundary :
    (opt : KvCacheOptions) (tokens : ℕ)
    → opt.boundary_trim_tokens ≤ tokens
    → opt.min_tokens ≤ stable_len opt tokens
    → IsBoundary opt tokens (stable_len opt tokens)
unfolding stable_len
stable_len-IsBoundary opt tokens long enough = elim (Bool-cases (ltb 0 opt.boundary_align_tokens)) [
  | inl y ↦
      let stable = tokens - opt.boundary_trim_tokens in
      let left : stable % opt.boundary_align_tokens < opt.boundary_align_tokens =
        mod-lt stable (ground arith) in
      let parts = div-add-mod' stable opt.boundary_align_tokens in
      let cut = enough in
      let cut_enough : opt.min_tokens ≤ stable - stable % opt.boundary_align_tokens = rw y at cut in
      rw y (record {
        trimmed = omega arith;
        aligned = λ _. cut_mod stable opt.boundary_align_tokens;
        last_one = omega arith;
        long_enough = cut_enough;
      })
  | inr n ↦
      let all = enough in
      let all_enough : opt.min_tokens ≤ tokens - opt.boundary_trim_tokens = rw n at all in
      rw n (record {
        trimmed = omega arith;
        aligned = λ some_align. absurd (ground arith);
        last_one = omega arith;
        long_enough = all_enough;
      })
]

-- A prompt that has no more tokens than the minimum and the trim together, or whose aligned boundary
-- has fewer tokens than the minimum, is stored whole; any other prompt is stored up to the last
-- aligned boundary that leaves the trimmed tokens off, and that has at least the minimum.
pub kv_cache_store_len-IsBoundary :
    (opt : KvCacheOptions) (tokens : ℕ)
    → (((tokens ≤ opt.min_tokens + opt.boundary_trim_tokens)
          ⊎ (stable_len opt tokens < opt.min_tokens))
        × (kv_cache_store_len opt tokens ≡ tokens))
      ⊎ ((opt.min_tokens + opt.boundary_trim_tokens < tokens)
          × IsBoundary opt tokens (kv_cache_store_len opt tokens))
unfolding kv_cache_store_len
kv_cache_store_len-IsBoundary opt tokens =
    elim (Bool-cases (ltb (opt.min_tokens + opt.boundary_trim_tokens) tokens)) [
      | inl y ↦ elim (Bool-cases (leb opt.min_tokens (stable_len opt tokens))) [
        | inl e ↦
            rw (y, e)
              (inr (ground arith, stable_len-IsBoundary opt tokens (ground arith) (ground arith)))
        | inr n ↦ rw (y, n) (inl (inr (ground arith), refl))
      ]
      | inr n ↦ rw n (inl (inl (ground arith), refl))
    ]
