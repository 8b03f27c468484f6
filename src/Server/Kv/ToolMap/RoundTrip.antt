-- ===== src/Server/Kv/ToolMap/RoundTrip.antt =====
-- The tool map of a cache file is loaded as it was written.
use go_ds.Common.{
  ℕ, ◌*◌, ◌^◌, ◌≤◌, ◌<◌, ◌≡◌, refl, Bool, true, false, some, List, [], ◌∷◌, ◌++◌, Bytes, length,
  All, leb, ◌==◌, if◌then◌else◌, arith, append_assoc, ◌/◌, ◌%◌,
}
use go_ds.Server.Kv.Header.{le_put32, fread}
use go_ds.Server.Kv.Header.RoundTrip.{le_get32-le_put32_word, fread-le_put32, fread-append}
use go_ds.Server.Kv.ToolMap.{
  ToolEntry, tool_memory_max_bytes, max_id_len, fits_u32, count_entries, write_entries,
  kv_tool_map_write, lengths_ok, read_entry, load_entries, kv_tool_map_load,
}

-- an entry that the loader accepts
pub record Loadable (e : ToolEntry) : Type 0 where
  pub id_nonempty : 1 ≤ length e.id
  pub id_short : length e.id ≤ max_id_len
  pub dsml_nonempty : 1 ≤ length e.dsml
  pub dsml_short : length e.dsml ≤ tool_memory_max_bytes

-- the entries of a list that are asked for
unfoldable pub filter_entries : (ToolEntry → Bool) → List ToolEntry → List ToolEntry
filter_entries wanted [] = []
filter_entries wanted (e ∷ es) =
    if wanted e then e ∷ filter_entries wanted es else filter_entries wanted es

Loadable-fits_u32 : (e : ToolEntry) → Loadable e → fits_u32 e ≡ true
Loadable-fits_u32 e l = ground (arith, l.id_short, l.dsml_short)

Loadable-lengths_ok : (e : ToolEntry) → Loadable e → lengths_ok (length e.id) (length e.dsml) ≡ true
Loadable-lengths_ok e l = ground (arith, l.id_short, l.dsml_short, l.id_nonempty, l.dsml_nonempty)

read_entry-write :
    (e : ToolEntry) (p : Bytes)
    → Loadable e
    → read_entry (le_put32 (length e.id) ++ (le_put32 (length e.dsml) ++ (e.id ++ (e.dsml ++ p))))
      ≡ some (e, p)
unfolding read_entry
read_entry-write e p l = rw (
  fread-le_put32 (length e.id) (le_put32 (length e.dsml) ++ (e.id ++ (e.dsml ++ p))),
  read_entry,
  fread-le_put32 (length e.dsml) (e.id ++ (e.dsml ++ p)),
  le_get32-le_put32_word (length e.id) (omega (arith, l.id_short)),
  le_get32-le_put32_word (length e.dsml) (omega (arith, l.dsml_short)),
  Loadable-lengths_ok e l,
  fread-append e.id (e.dsml ++ p),
  le_get32-le_put32_word (length e.dsml) (omega (arith, l.dsml_short)),
  fread-append e.dsml p,
)

count_entries-length : (es : List ToolEntry) → All Loadable es → count_entries es ≡ length es
unfolding count_entries
count_entries-length [] l = refl
count_entries-length (e ∷ es) l =
    ground (arith, Loadable-fits_u32 e l.0, count_entries-length es l.1)

-- five strings, joined from the right
append_assoc4 :
    (a b c d w p : Bytes) → (a ++ (b ++ (c ++ (d ++ w)))) ++ p ≡ a ++ (b ++ (c ++ (d ++ (w ++ p))))
append_assoc4 a b c d w p = simp append_assoc

load_entries-write_entries :
    (wanted : ToolEntry → Bool) (es : List ToolEntry) (p : Bytes)
    → All Loadable es
    → load_entries wanted (length es) (write_entries es ++ p) ≡ filter_entries wanted es
unfolding load_entries write_entries filter_entries
load_entries-write_entries wanted [] p l = refl
load_entries-write_entries wanted (e ∷ es) p l = rw (
  Loadable-fits_u32 e l.0,
  append_assoc4 (le_put32 (length e.id)) (le_put32 (length e.dsml)) e.id e.dsml (write_entries es)
      p,
  load_entries,
  read_entry-write e (write_entries es ++ p) l.0,
  load_entries-write_entries wanted es p l.1,
)

-- the eight bytes before the entries
fread-head :
    (v : ℕ) (q : Bytes)
    → fread 8 (75 ∷ 84 ∷ 77 ∷ 1 ∷ (le_put32 v ++ q)) ≡ some (75 ∷ 84 ∷ 77 ∷ 1 ∷ le_put32 v, q)
unfolding le_put32
fread-head v q =
    fread-append
      (75 ∷ 84 ∷ 77 ∷ 1 ∷ v % 256 ∷ v / 2 ^ 8 % 256 ∷ v / 2 ^ 16 % 256 ∷ v / 2 ^ 24 % 256 ∷ []) q

-- Entries that the loader accepts, at least one and at most four times as many as the memory
-- may hold, are loaded as they were written, whatever follows: those that are asked for, in
-- order.
pub kv_tool_map_load-kv_tool_map_write :
    (wanted : ToolEntry → Bool) (max_entries : ℕ) (es : List ToolEntry) (p : Bytes)
    → All Loadable es
    → 1 ≤ length es
    → length es ≤ max_entries * 4
    → length es < 2 ^ 32
    → kv_tool_map_load wanted max_entries (kv_tool_map_write es ++ p) ≡ filter_entries wanted es
unfolding kv_tool_map_load kv_tool_map_write
kv_tool_map_load-kv_tool_map_write wanted max_entries es p l some_entry few u32 =
    let count : count_entries es ≡ length es = count_entries-length es l in
    let one : (length es == 0) ≡ false = ground arith in
    let small : leb (length es) (max_entries * 4) ≡ true = ground arith in
    rw (
      count,
      kv_tool_map_write,
      one,
      append_assoc (le_put32 (length es)) (write_entries es) p,
      fread-head (length es) (write_entries es ++ p),
      kv_tool_map_load,
      le_get32-le_put32_word (length es) u32,
      small,
      load_entries-write_entries wanted es p l,
    )
