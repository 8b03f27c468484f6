-- ===== src/Server/Kv/EntryFile.antt =====
-- ds4_server.c: the files of the cache as entries: `kv_reason_code`, `sha_hex_name`,
-- `kv_read_entry_file` and `kv_cache_existing_compatible` behind the access to the file.
use go_ds.Common.{
  ℕ, ◌+◌, ◌-◌, ◌%◌, ◌^◌, ◌≤◌, ◌<◌, ◌≡◌, refl, Bool, true, false, not, ◌&&◌, ◌||◌, Option, none,
  some, [], ◌∷◌, ◌++◌, Bytes, length, take, drop, ltb, leb, ◌==◌, within, if◌then◌else◌, same_bytes,
  arith, length-append,
}
use go_ds.Server.Kv.Header.{KvEntry, kv_cache_fixed_header, le_put32, kv_read_header, entry_ok}
use go_ds.Server.Kv.Header.RoundTrip.{
  InRange, header, written, kv_read_header-kv_fill_header, length-kv_fill_header,
}

unfoldable pub kv_reason_code : Bytes → ℕ
kv_reason_code reason =
    if same_bytes reason (b'c' ∷ b'o' ∷ b'l' ∷ b'd' ∷ [])
    then 1
    else if same_bytes reason (b'c' ∷ b'o' ∷ b'n' ∷ b't' ∷ b'i' ∷ b'n' ∷ b'u' ∷ b'e' ∷ b'd' ∷ [])
    then 2
    else if same_bytes reason (b'e' ∷ b'v' ∷ b'i' ∷ b'c' ∷ b't' ∷ [])
    then 3
    else if same_bytes reason (b's' ∷ b'h' ∷ b'u' ∷ b't' ∷ b'd' ∷ b'o' ∷ b'w' ∷ b'n' ∷ [])
    then 4
    else 0

-- `tolower` of an `isxdigit` byte; none for another byte
unfoldable pub hex_lower : ℕ → Option ℕ
hex_lower c =
    if within b'0' b'9' c || within b'a' b'f' c
    then some c
    else if within b'A' b'F' c
    then some (c + 32)
    else none

unfoldable pub hex_name : Bytes → Option Bytes
hex_name [] = some []
hex_name (c ∷ name) = elim (hex_lower c) [
  | none ↦ none
  | some d ↦ elim (hex_name name) [ none ↦ none | some rest ↦ some (d ∷ rest) ]
]

-- The digest that a file name has.
unfoldable pub sha_hex_name : Bytes → Option Bytes
sha_hex_name name =
    if length name == 43 && same_bytes (drop 40 name) (b'.' ∷ b'k' ∷ b'v' ∷ [])
    then hex_name (take 40 name)
    else none

abbrev pub uint64_max : ℕ
uint64_max = 2 ^ 64 - 1

-- the header and the text length
abbrev pub fixed_bytes : ℕ
fixed_bytes = kv_cache_fixed_header + 4

-- whether the file's parts fit in 64 bits and in the file
unfoldable pub parts_fit : KvEntry → (file_size : ℕ) → Bool
parts_fit e file_size =
    not (ltb (uint64_max - fixed_bytes) e.text_bytes)
    && not (ltb (uint64_max - fixed_bytes - e.text_bytes) e.payload_bytes)
    && not (ltb file_size (fixed_bytes + e.text_bytes + e.payload_bytes))

unfoldable pub kv_read_entry_file : (path sha file : Bytes) → Option KvEntry
kv_read_entry_file path sha file =
    if ltb (length file) fixed_bytes then none else elim (kv_read_header file) [
      | none ↦ none
      | some (e, _) ↦
          if parts_fit e (length file)
          then some (record e { sha = sha; path = path; file_size = length file })
          else none
    ]

-- `none` for a file that does not exist; the second component tells that it is unlinked.
unfoldable pub kv_cache_existing_compatible :
    (reject_different_quant : Bool)
    → (path : Bytes) → Option Bytes
    → (quant_bits ctx_size : ℕ) → Bool × Bool
kv_cache_existing_compatible reject path none quant_bits ctx_size = (false, false)
kv_cache_existing_compatible reject path (some file) quant_bits ctx_size =
    elim (kv_read_entry_file path [] file) [
      | none ↦ (false, false)
      | some e ↦
          if (not reject || e.quant_bits == quant_bits % 256) && leb e.ctx_size ctx_size
          then (true, false)
          else (false, true)
    ]

length-le_put32 : (v : ℕ) → length (le_put32 v) ≡ 4
unfolding le_put32
length-le_put32 v = refl

parts_fit-true :
    (e : KvEntry) (n : ℕ)
    → e.text_bytes + e.payload_bytes ≤ n
    → n < 2 ^ 63
    → parts_fit e (fixed_bytes + n) ≡ true
unfolding parts_fit
parts_fit-true e n h k = ground arith

-- A file with a header whose fields are in range, the text length, and at least as many bytes behind
-- them as the text and the payload have, is listed as an entry with these fields and its size.
pub kv_read_entry_file-kv_fill_header :
    (quant_bits reason ext_flags tokens hits ctx_size created_at last_used payload text_bytes : ℕ)
    (path sha rest : Bytes)
    → InRange quant_bits reason ext_flags tokens hits ctx_size created_at last_used payload
    → text_bytes < 2 ^ 32
    → entry_ok (
        written quant_bits reason ext_flags tokens hits ctx_size created_at last_used payload
          text_bytes)
      ≡ true
    → text_bytes + payload ≤ length rest
    → length rest < 2 ^ 63
    → kv_read_entry_file path sha (
        header quant_bits reason ext_flags tokens hits ctx_size created_at last_used payload
        ++ (le_put32 text_bytes ++ rest))
      ≡ some
          (record (written quant_bits reason ext_flags tokens hits ctx_size created_at last_used
            payload text_bytes) { sha = sha; path = path; file_size = fixed_bytes + length rest })
unfolding kv_read_entry_file
kv_read_entry_file-kv_fill_header q rs x t h c cr lu pl tb path sha rest r tb_ok ok there small =
    let top = header q rs x t h c cr lu pl in
    let reads = kv_read_header-kv_fill_header q rs x t h c cr lu pl tb rest r tb_ok ok in
    let len1 = length-append top (le_put32 tb ++ rest) in
    let len2 = length-append (le_put32 tb) rest in
    let len3 = length-kv_fill_header q rs x t h c cr lu pl in
    let len4 : length (le_put32 tb) ≡ 4 = length-le_put32 tb in
    let size : length (top ++ (le_put32 tb ++ rest)) ≡ fixed_bytes + length rest = omega arith in
    let long : ltb (fixed_bytes + length rest) fixed_bytes ≡ false = ground arith in
    let fit : parts_fit (written q rs x t h c cr lu pl tb) (fixed_bytes + length rest) ≡ true =
      parts_fit-true (written q rs x t h c cr lu pl tb) (length rest) there small in
    rw (size, kv_read_entry_file, long, reads, size, fit)
