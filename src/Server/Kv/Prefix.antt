-- ===== src/Server/Kv/Prefix.antt =====
-- ds4_server.c: the options of the disk cache, `kv_cache_store_len`, `kv_cache_find_prefix` behind
-- the reading of the directory, `kv_cache_note_store` and `kv_cache_maybe_store_continued`.
-- The options are not negative; a token count of a file that an int
-- does not hold is above the length of any prompt.
pub mod Longest
pub mod StoreLen
use go_ds.Common.{
  ℕ, suc, ◌+◌, ◌-◌, ◌%◌, Bool, true, not, ◌&&◌, ◌||◌, Option, none, some, List, [], ◌∷◌, length,
  ltb, leb, ◌==◌, if◌then◌else◌, same_bytes,
}
use go_ds.Server.Kv.Header.{KvEntry}
use go_ds.Server.Kv.Sha1.{sha1_tokens_hex}

pub record KvCacheOptions : Type 0 where
  pub min_tokens : ℕ
  pub cold_max_tokens : ℕ
  pub continued_interval_tokens : ℕ
  pub boundary_trim_tokens : ℕ
  pub boundary_align_tokens : ℕ

pub record KvDiskCache : Type 0 where
  pub enabled : Bool
  pub entry : List KvEntry
  pub budget_bytes : ℕ
  pub reject_different_quant : Bool
  pub opt : KvCacheOptions
  pub continued_last_store_tokens : ℕ

-- `tokens - trim`, cut to a multiple of `align` if that is not 0
unfoldable pub stable_len : KvCacheOptions → ℕ → ℕ
stable_len opt tokens =
    let stable = tokens - opt.boundary_trim_tokens in
    if ltb 0 opt.boundary_align_tokens then stable - stable % opt.boundary_align_tokens else stable

unfoldable pub kv_cache_store_len : KvCacheOptions → ℕ → ℕ
kv_cache_store_len opt tokens =
    if ltb (opt.min_tokens + opt.boundary_trim_tokens) tokens
      && leb opt.min_tokens (stable_len opt tokens)
    then stable_len opt tokens
    else tokens

-- the tests of the loop but the one against the best entry so far
unfoldable pub usable : KvDiskCache → List ℕ → (quant_bits ctx_size : ℕ) → KvEntry → Bool
usable kc prompt quant_bits ctx_size e =
    leb e.tokens (length prompt)
    && leb kc.opt.min_tokens e.tokens
    && leb e.ctx_size ctx_size
    && (not kc.reject_different_quant || e.quant_bits == quant_bits % 256)
    && same_bytes (sha1_tokens_hex prompt e.tokens) e.sha

abbrev longer_than : Option (ℕ × KvEntry) → KvEntry → Bool
longer_than none e = true
longer_than (some (_, best)) e = ltb best.tokens e.tokens

-- one round: the entry with the number `i` becomes the best or not
unfoldable pub keep_longer :
    (KvEntry → Bool) → ℕ → KvEntry → Option (ℕ × KvEntry) → Option (ℕ × KvEntry)
keep_longer ok i e best = if ok e && longer_than best e then some (i, e) else best

-- the loop from the entry with the number `i` on
unfoldable pub find_loop :
    (KvEntry → Bool) → ℕ → List KvEntry → Option (ℕ × KvEntry) → Option (ℕ × KvEntry)
find_loop ok i [] best = best
find_loop ok i (e ∷ es) best = find_loop ok (suc i) es (keep_longer ok i e best)

-- The number of the entry and the entry; `none` for -1.
unfoldable pub kv_cache_find_prefix :
    KvDiskCache → List ℕ → (quant_bits ctx_size : ℕ) → Option (ℕ × KvEntry)
kv_cache_find_prefix kc prompt quant_bits ctx_size =
    find_loop (usable kc prompt quant_bits ctx_size) 0 kc.entry none

unfoldable pub kv_cache_note_store : KvDiskCache → ℕ → KvDiskCache
kv_cache_note_store kc tokens =
    if ltb kc.continued_last_store_tokens tokens
    then record kc { continued_last_store_tokens = tokens }
    else kc

-- whether a continued checkpoint of `tokens` tokens is due
unfoldable pub continued_due : KvDiskCache → ℕ → Bool
continued_due kc tokens =
    kc.enabled
    && ltb 0 kc.opt.continued_interval_tokens
    && leb kc.opt.min_tokens tokens
    && leb (kc.continued_last_store_tokens + kc.opt.continued_interval_tokens) tokens

-- `stored` is what `kv_cache_store_live_prefix` returns.
unfoldable pub kv_cache_maybe_store_continued : KvDiskCache → ℕ → (stored : Bool) → KvDiskCache
kv_cache_maybe_store_continued kc tokens stored =
    if continued_due kc tokens && stored then kv_cache_note_store kc tokens else kc
