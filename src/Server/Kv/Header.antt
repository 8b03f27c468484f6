-- ===== src/Server/Kv/Header.antt =====
-- ds4_server.c: little-endian words, the 48-byte header of a cache file, and `kv_cache_touch_file`.
-- A file is the list of its bytes; `>> k` is `/ 2 ^ k`, a cast to a byte is `% 256`, and disjoint
-- bits are joined by `+`. Fields of the source's unsigned types are numbers; that they are in
-- range is a hypothesis where it matters.
pub mod RoundTrip
use go_ds.Common.{
  ℕ, zero, suc, ◌+◌, ◌*◌, ◌/◌, ◌%◌, ◌^◌, Bool, not, ◌&&◌, ◌||◌, Option, none, some, [], ◌∷◌, ◌++◌,
  Bytes, length, take, drop, byte_at, ltb, leb, ◌==◌, if◌then◌else◌,
}

unfoldable pub le_put32 : ℕ → Bytes
le_put32 v = v % 256 ∷ v / 2 ^ 8 % 256 ∷ v / 2 ^ 16 % 256 ∷ v / 2 ^ 24 % 256 ∷ []

unfoldable pub le_put64 : ℕ → Bytes
le_put64 v =
    v % 256
    ∷ v / 2 ^ 8 % 256
    ∷ v / 2 ^ 16 % 256
    ∷ v / 2 ^ 24 % 256
    ∷ v / 2 ^ 32 % 256
    ∷ v / 2 ^ 40 % 256
    ∷ v / 2 ^ 48 % 256
    ∷ v / 2 ^ 56 % 256
    ∷ []

unfoldable pub le_get32 : Bytes → ℕ
le_get32 p = byte_at p 0 + byte_at p 1 * 2 ^ 8 + byte_at p 2 * 2 ^ 16 + byte_at p 3 * 2 ^ 24

-- the loop of `le_get64`, which reads the last byte first
unfoldable pub le_get_bytes : ℕ → Bytes → ℕ
le_get_bytes zero p = 0
le_get_bytes (suc n) p = le_get_bytes n (drop 1 p) * 2 ^ 8 + byte_at p 0

unfoldable pub le_get64 : Bytes → ℕ
unfolding le_get_bytes
le_get64 p = le_get_bytes 8 p

-- `fread` of `n` bytes that must all be there
unfoldable pub fread : ℕ → Bytes → Option (Bytes × Bytes)
fread n p = if ltb (length p) n then none else some (take n p, drop n p)

pub record KvEntry : Type 0 where
  pub sha : Bytes
  pub path : Bytes
  pub quant_bits : ℕ
  pub reason : ℕ
  pub tokens : ℕ
  pub hits : ℕ
  pub ctx_size : ℕ
  pub ext_flags : ℕ
  pub created_at : ℕ
  pub last_used : ℕ
  pub payload_bytes : ℕ
  pub text_bytes : ℕ
  pub file_size : ℕ

-- `kv_entry e = {0}`
abbrev pub zero_entry : KvEntry
zero_entry = record {
  sha = [];
  path = [];
  quant_bits = 0;
  reason = 0;
  tokens = 0;
  hits = 0;
  ctx_size = 0;
  ext_flags = 0;
  created_at = 0;
  last_used = 0;
  payload_bytes = 0;
  text_bytes = 0;
  file_size = 0;
}

abbrev pub kv_reason_shutdown : ℕ
kv_reason_shutdown = 4

abbrev pub kv_cache_fixed_header : ℕ
kv_cache_fixed_header = 48

-- The bytes 7 and 20 to 23 are left as `memset` has them.
unfoldable pub kv_fill_header :
    (quant_bits reason ext_flags tokens hits ctx_size created_at last_used payload_bytes : ℕ)
    → Bytes
kv_fill_header quant_bits reason ext_flags tokens hits ctx_size created_at last_used payload =
    b'K'
    ∷ b'V'
    ∷ b'C'
    ∷ 1
    ∷ quant_bits
    ∷ reason
    ∷ ext_flags
    ∷ 0
    ∷ (le_put32 tokens
        ++ (le_put32 hits
            ++ (le_put32 ctx_size
                ++ (0
                    ∷ 0
                    ∷ 0
                    ∷ 0
                    ∷ (le_put64 created_at ++ (le_put64 last_used ++ le_put64 payload))))))

-- the entry that 48 bytes and the text length describe
unfoldable pub header_entry : Bytes → ℕ → KvEntry
header_entry h text_bytes = record zero_entry {
  quant_bits = byte_at h 4;
  reason = if leb (byte_at h 5) kv_reason_shutdown then byte_at h 5 else 0;
  ext_flags = byte_at h 6;
  tokens = le_get32 (drop 8 h);
  hits = le_get32 (drop 12 h);
  ctx_size = le_get32 (drop 16 h);
  created_at = le_get64 (drop 24 h);
  last_used = le_get64 (drop 32 h);
  payload_bytes = le_get64 (drop 40 h);
  text_bytes = text_bytes;
}

abbrev pub magic_ok : Bytes → Bool
magic_ok h = byte_at h 0 == b'K' && byte_at h 1 == b'V' && byte_at h 2 == b'C' && byte_at h 3 == 1

abbrev pub entry_ok : KvEntry → Bool
entry_ok e = not (e.tokens == 0) && (e.quant_bits == 2 || e.quant_bits == 4)

-- The entry, and the file behind the header and the text length.
unfoldable pub kv_read_header : Bytes → Option (KvEntry × Bytes)
kv_read_header file = elim (fread kv_cache_fixed_header file) [
  | none ↦ none
  | some (h, p) ↦
      if magic_ok h
      then elim (fread 4 p) [
        | none ↦ none
        | some (tb, q) ↦
            let e = header_entry h (le_get32 tb) in if entry_ok e then some (e, q) else none
      ]
      else none
]

-- a write of `bytes` at the start of a file
unfoldable pub overwrite : Bytes → Bytes → Bytes
overwrite bytes file = bytes ++ drop (length bytes) file

-- What `kv_cache_touch_file` leaves in a file that it can open and write, at time `now`.
unfoldable pub kv_cache_touch_file : Bytes → (hits now : ℕ) → Bytes
unfolding overwrite
kv_cache_touch_file file hits now = elim (kv_read_header file) [
  | none ↦ file
  | some (e, _) ↦
      overwrite
        (kv_fill_header e.quant_bits e.reason e.ext_flags e.tokens hits e.ctx_size e.created_at now
          e.payload_bytes)
        file
]
