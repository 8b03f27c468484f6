-- ===== src/Server/Kv/ToolMap.antt =====
-- ds4_server.c, the tool map at the end of a cache file: `kv_tool_map_write` behind the choice of
-- the entries, and `kv_tool_map_load_from_pos`. A loaded entry is handed to the tool memory; here
-- it goes to a list. An id or a block longer than a 32-bit length tells is not written. The exact replay
-- of tool calls is on: where it is switched off, the source neither writes nor loads a tool map.
pub mod RoundTrip
use go_ds.Common.{
  ℕ, zero, suc, ◌+◌, ◌*◌, ◌^◌, Bool, ◌&&◌, Option, none, some, List, [], ◌∷◌, ◌++◌, Bytes, length,
  drop, byte_at, ltb, leb, ◌==◌, if◌then◌else◌,
}
use go_ds.Server.Kv.Header.{le_put32, le_get32, fread}

pub record ToolEntry : Type 0 where
  pub id : Bytes
  pub dsml : Bytes

-- `DS4_TOOL_MEMORY_MAX_BYTES`, and the bound of the loader on an id
abbrev pub tool_memory_max_bytes : ℕ
tool_memory_max_bytes = 512 * 1024 * 1024

abbrev pub max_id_len : ℕ
max_id_len = 256

abbrev pub fits_u32 : ToolEntry → Bool
fits_u32 e = ltb (length e.id) (2 ^ 32) && ltb (length e.dsml) (2 ^ 32)

unfoldable pub count_entries : List ToolEntry → ℕ
count_entries [] = 0
count_entries (e ∷ es) = if fits_u32 e then 1 + count_entries es else count_entries es

unfoldable pub write_entries : List ToolEntry → Bytes
write_entries [] = []
write_entries (e ∷ es) =
    if fits_u32 e
    then le_put32 (length e.id)
      ++ (le_put32 (length e.dsml) ++ (e.id ++ (e.dsml ++ write_entries es)))
    else write_entries es

-- The bytes that are appended: none when no entry can be written.
unfoldable pub kv_tool_map_write : List ToolEntry → Bytes
kv_tool_map_write es =
    if count_entries es == 0
    then []
    else b'K' ∷ b'T' ∷ b'M' ∷ 1 ∷ (le_put32 (count_entries es) ++ write_entries es)

-- the test on the lengths of an entry
abbrev pub lengths_ok : ℕ → ℕ → Bool
lengths_ok id_len dsml_len =
    leb 1 id_len && leb id_len max_id_len && leb 1 dsml_len && leb dsml_len tool_memory_max_bytes

-- one entry and what follows it; `none` where the loop returns
unfoldable pub read_entry : Bytes → Option (ToolEntry × Bytes)
read_entry p = elim (fread 4 p) [
  | none ↦ none
  | some (id_word, p1) ↦ elim (fread 4 p1) [
    | none ↦ none
    | some (dsml_word, p2) ↦
        if lengths_ok (le_get32 id_word) (le_get32 dsml_word)
        then elim (fread (le_get32 id_word) p2) [
          | none ↦ none
          | some (id, p3) ↦ elim (fread (le_get32 dsml_word) p3) [
            | none ↦ none
            | some (dsml, p4) ↦ some (record { id = id; dsml = dsml }, p4)
          ]
        ]
        else none
  ]
]

-- The loop: the wanted entries, in order, up to the first that cannot be read.
unfoldable pub load_entries : (ToolEntry → Bool) → ℕ → Bytes → List ToolEntry
load_entries wanted zero p = []
load_entries wanted (suc count) p = elim (read_entry p) [
  | none ↦ []
  | some (e, q) ↦ let rest = load_entries wanted count q in if wanted e then e ∷ rest else rest
]

-- `max_entries` is what the tool memory may hold.
unfoldable pub kv_tool_map_load : (ToolEntry → Bool) → (max_entries : ℕ) → Bytes → List ToolEntry
kv_tool_map_load wanted max_entries file = elim (fread 8 file) [
  | none ↦ []
  | some (h, p) ↦
      if byte_at h 0 == b'K' && byte_at h 1 == b'T' && byte_at h 2 == b'M' && byte_at h 3 == 1
      then if leb (le_get32 (drop 4 h)) (max_entries * 4)
        then load_entries wanted (le_get32 (drop 4 h)) p
        else []
      else []
]
