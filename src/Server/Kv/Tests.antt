-- ===== src/Server/Kv/Tests.antt =====
-- Tests and examples of the disk cache.
use go_ds.Common.{
  ℕ, ◌∷◌, [], ◌++◌, ◌≡◌, ◌≤◌, ◌<◌, ◌*◌, ◌/◌, ◌+◌, refl, Bytes, List, take, Bool, true, none, some,
  ltb, ◌==◌, arith, ◌⊎◌, All,
}
use go_ds.Server.Kv.Header.{KvEntry, zero_entry, le_put32, kv_read_header, kv_cache_touch_file}
use go_ds.Server.Kv.EntryFile.{kv_reason_code, hex_lower, hex_name}
use go_ds.Server.Kv.Header.RoundTrip.{
  InRange, header, written, kv_read_header-kv_fill_header, kv_read_header-kv_cache_touch_file,
}
use go_ds.Server.Kv.ToolMap.{ToolEntry, kv_tool_map_write, kv_tool_map_load}
use go_ds.Server.Kv.ToolMap.RoundTrip.{Loadable, filter_entries, kv_tool_map_load-kv_tool_map_write}
use go_ds.Server.Kv.Sha1.{
  sha1_tokens_hex, sha1_final, sha1_update, update_tokens, update_loop, close_block, pad_loop,
  bits_be64, words_bytes, hex20, hex_digit,
}
use go_ds.Server.Kv.Sha1.Word.{sha1_transform}
use go_ds.Server.Kv.Sha1.Padding.{sha1, token_bytes, sha1_tokens_hex-sha1}
use go_ds.Server.Kv.Prefix.{
  KvCacheOptions, KvDiskCache, kv_cache_find_prefix, kv_cache_store_len, stable_len, find_loop,
  keep_longer, usable,
}
use go_ds.Server.Kv.Prefix.Longest.{IsLongest, kv_cache_find_prefix-IsLongest}
use go_ds.Server.Kv.Prefix.StoreLen.{IsBoundary, kv_cache_store_len-IsBoundary}
use go_ds.Server.Kv.Evict.{Doubles, total_size, kv_cache_evict, victim_loop}
use go_ds.Server.Kv.Evict.Victim.{Ordered, NotBelow, victim-NotBelow}
use go_ds.Server.Kv.Evict.Budget.{kv_cache_evict-within_budget}
use go_ds.Common.Lists.{same_bytes}

abbrev three_tokens : List ℕ
three_tokens = 1 ∷ 70000 ∷ 5 ∷ []

-- the digest that other implementations give
digest_test :
    sha1_tokens_hex three_tokens 3
    ≡ b'7' ∷ b'e' ∷ b'c' ∷ b'2' ∷ b'0' ∷ b'8' ∷ b'4' ∷ b'f' ∷ b'a' ∷ b'2' ∷ b'f' ∷ b'5' ∷ b'7'
      ∷ b'8' ∷ b'e' ∷ b'e' ∷ b'b' ∷ b'7' ∷ b'2' ∷ b'c' ∷ b'3' ∷ b'f' ∷ b'8' ∷ b'c' ∷ b'9' ∷ b'c'
      ∷ b'4' ∷ b'd' ∷ b'3' ∷ b'5' ∷ b'a' ∷ b'3' ∷ b'b' ∷ b'a' ∷ b'3' ∷ b'4' ∷ b'b' ∷ b'5' ∷ b'5'
      ∷ b'9' ∷ []
unfolding sha1_tokens_hex sha1_final sha1_update update_tokens update_loop close_block pad_loop
    bits_be64 words_bytes hex20 hex_digit sha1_transform le_put32
digest_test = refl

sha1_tokens_hex-sha1_example :
    sha1_tokens_hex three_tokens 2 ≡ hex20 (sha1 (token_bytes (take 2 three_tokens)))
sha1_tokens_hex-sha1_example = sha1_tokens_hex-sha1 three_tokens 2 (omega arith)

in_range : InRange 2 1 1 512 3 32768 1700000000 1700000100 4096
in_range = record {
  reason_known = omega arith;
  tokens_u32 = omega arith;
  hits_u32 = omega arith;
  ctx_size_u32 = omega arith;
  created_at_u64 = omega arith;
  last_used_u64 = omega arith;
  payload_u64 = omega arith;
}

kv_read_header-kv_fill_header_example :
    kv_read_header
      (header 2 1 1 512 3 32768 1700000000 1700000100 4096 ++ (le_put32 10 ++ (7 ∷ [])))
    ≡ some (written 2 1 1 512 3 32768 1700000000 1700000100 4096 10, 7 ∷ [])
kv_read_header-kv_fill_header_example =
    kv_read_header-kv_fill_header 2 1 1 512 3 32768 1700000000 1700000100 4096 10 (7 ∷ []) in_range
      (omega arith) refl

kv_read_header-kv_cache_touch_file_example :
    kv_read_header (
      kv_cache_touch_file
        (header 2 1 1 512 3 32768 1700000000 1700000100 4096 ++ (le_put32 10 ++ (7 ∷ [])))
        4
        1700000200)
    ≡ some (written 2 1 1 512 4 32768 1700000000 1700000200 4096 10, 7 ∷ [])
kv_read_header-kv_cache_touch_file_example =
    kv_read_header-kv_cache_touch_file 2 1 1 512 3 32768 1700000000 1700000100 4096 10 4 1700000200
      (7 ∷ []) in_range (omega arith) (omega arith) (omega arith) refl

abbrev two_entries : List ToolEntry
two_entries =
    record { id = b'c' ∷ b'1' ∷ []; dsml = b'<' ∷ b'x' ∷ b'>' ∷ [] }
    ∷ record { id = b'c' ∷ b'2' ∷ []; dsml = b'<' ∷ b'y' ∷ b'>' ∷ [] }
    ∷ []

abbrev asked_for : ToolEntry → Bool
asked_for e = same_bytes e.id (b'c' ∷ b'2' ∷ [])

two_entries-Loadable : All Loadable two_entries
two_entries-Loadable = (
  record {
    id_nonempty = omega arith;
    id_short = omega arith;
    dsml_nonempty = omega arith;
    dsml_short = omega arith;
  },
  (
    record {
      id_nonempty = omega arith;
      id_short = omega arith;
      dsml_nonempty = omega arith;
      dsml_short = omega arith;
    },
    tt,
  ),
)

kv_tool_map_load-kv_tool_map_write_example :
    kv_tool_map_load asked_for 100 (kv_tool_map_write two_entries ++ [])
    ≡ filter_entries asked_for two_entries
kv_tool_map_load-kv_tool_map_write_example =
    kv_tool_map_load-kv_tool_map_write asked_for 100 two_entries [] two_entries-Loadable
      (omega arith) (omega arith) (omega arith)

abbrev options : KvCacheOptions
options = record {
  min_tokens = 2;
  cold_max_tokens = 100;
  continued_interval_tokens = 10;
  boundary_trim_tokens = 3;
  boundary_align_tokens = 4;
}

kv_cache_store_len-IsBoundary_example :
    (((17 ≤ 2 + 3) ⊎ (stable_len options 17 < 2)) × (kv_cache_store_len options 17 ≡ 17))
    ⊎ ((2 + 3 < 17) × IsBoundary options 17 (kv_cache_store_len options 17))
kv_cache_store_len-IsBoundary_example = kv_cache_store_len-IsBoundary options 17

store_len_test : kv_cache_store_len options 17 ≡ 12
unfolding kv_cache_store_len stable_len
store_len_test = refl

abbrev stored_entry : ℕ → Bytes → KvEntry
stored_entry n path = record zero_entry {
  sha = sha1_tokens_hex three_tokens n;
  path = path;
  quant_bits = 2;
  tokens = n;
  ctx_size = 100;
  file_size = 1000;
}

abbrev cache : KvDiskCache
cache = record {
  enabled = true;
  entry = stored_entry 2 (1 ∷ []) ∷ stored_entry 3 (2 ∷ []) ∷ [];
  budget_bytes = 1500;
  reject_different_quant = true;
  opt = options;
  continued_last_store_tokens = 0;
}

kv_cache_find_prefix-IsLongest_example :
    IsLongest cache three_tokens 2 200 1 (stored_entry 3 (2 ∷ []))
unfolding kv_cache_find_prefix find_loop keep_longer usable same_bytes sha1_tokens_hex sha1_final
    sha1_update update_tokens update_loop close_block pad_loop bits_be64 words_bytes hex20 hex_digit
    sha1_transform le_put32
kv_cache_find_prefix-IsLongest_example =
    kv_cache_find_prefix-IsLongest cache three_tokens 2 200 1 (stored_entry 3 (2 ∷ [])) refl

-- doubles in hundredths
abbrev hundredths : Doubles ℕ
hundredths = record {
  literal = λ a b. a * 100 / b;
  of_nat = λ n. n * 100;
  add = ◌+◌;
  mul = λ a b. a * b / 100;
  div = λ a b. a * 100 / b;
  less = ltb;
  equal = ◌==◌;
}

hundredths_ordered : Ordered hundredths
hundredths_ordered = record {
  less_irrefl = λ a. ground arith;
  less_below = λ a b c h k. ground arith;
  equal_below = λ a b c h k. ground arith;
}

victim-NotBelow_example :
    NotBelow hundredths hundredths_ordered none
      (stored_entry 3 (2 ∷ []))
      (victim_loop hundredths none 1 (stored_entry 3 (2 ∷ []) ∷ []) (0, stored_entry 2 (1 ∷ []))).1
victim-NotBelow_example =
    victim-NotBelow hundredths hundredths_ordered none (stored_entry 2 (1 ∷ []))
      (stored_entry 3 (2 ∷ []) ∷ []) 1 (stored_entry 3 (2 ∷ [])) refl

kv_cache_evict-within_budget_example :
    total_size
      (kv_cache_evict hundredths
        (λ _. true)
        1500
        true
        none
        (stored_entry 2 (1 ∷ []) ∷ stored_entry 3 (2 ∷ []) ∷ [])).entry
    ≤ 1500
kv_cache_evict-within_budget_example =
    kv_cache_evict-within_budget hundredths (λ _. true) 1500 none
      (stored_entry 2 (1 ∷ []) ∷ stored_entry 3 (2 ∷ []) ∷ []) (omega arith) (λ _. refl)

reason_code_test : kv_reason_code (b'e' ∷ b'v' ∷ b'i' ∷ b'c' ∷ b't' ∷ []) ≡ 3
unfolding kv_reason_code same_bytes
reason_code_test = refl

hex_name_test : hex_name (b'A' ∷ b'0' ∷ b'f' ∷ []) ≡ some (b'a' ∷ b'0' ∷ b'f' ∷ [])
unfolding hex_name hex_lower
hex_name_test = refl
