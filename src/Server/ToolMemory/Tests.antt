-- ===== src/Server/ToolMemory/Tests.antt =====
-- Tests and examples of the memory of tool-call text, with an association list for a radix tree.
use go_ds.Common.{
  ℕ, ◌≡◌, ◌↔◌, refl, false, Option, none, some, List, [], ◌∷◌, map, All, if◌then◌else◌, same_bytes,
  same_bytes_sound, Bytes, arith, Bool-cases, inl, inr,
}
use go_ds.Server.ToolMemory.Store.{sum}
use go_ds.Server.ToolMemory.Keyed.{holder}
use go_ds.Server.ToolMemory.{
  RadixTree, ToolMemory, tool_memory_ram, over_limits, tool_memory_max_entries,
  tool_memory_max_bytes,
}
use go_ds.Server.ToolMemory.Put.{tool_memory_put}
use go_ds.Server.ToolMemory.Attach.{ToolCall, call_id, attach_calls}
use go_ds.Server.ToolMemory.Recall.{recalled}
use go_ds.Server.ToolMemory.Invariant.{Inv}
use go_ds.Server.ToolMemory.Kept.{tool_memory_put-Inv}
use go_ds.Server.ToolMemory.Exact.{attach_calls-raw_dsml}

abbrev Table : Type 0
Table = List (Bytes × ℕ)

unfoldable table_find : Table → Bytes → Option ℕ
table_find [] q = none
table_find ((k, v) ∷ t) q = if same_bytes k q then some v else table_find t q

unfoldable table_remove : Table → Bytes → Table
table_remove [] k = []
table_remove ((j, v) ∷ t) k =
    let rest = table_remove t k in if same_bytes k j then rest else (j, v) ∷ rest

table_find_remove :
    (t : Table) (k q : Bytes)
    → table_find (table_remove t k) q ≡ (if same_bytes k q then none else table_find t q)
unfolding table_find table_remove
table_find_remove [] k q = ground arith
table_find_remove ((j, v) ∷ t) k q =
    let rest = table_find_remove t k q in
    let same = same_bytes_sound k j in
    let equal = same_bytes_sound j q in
    elim (Bool-cases (same_bytes k j)) [
      | inl s ↦
          rw (s, rest, same s) (elim (Bool-cases (same_bytes j q)) [ inl e ↦ rw e | inr e ↦ rw e ])
      | inr s ↦ rw s (elim (Bool-cases (same_bytes j q)) [
        | inl e ↦ rw (e, ← equal e, s)
        | inr e ↦ rw (e, rest)
      ])
    ]

find_empty : (k : Bytes) → table_find [] k ≡ none
unfolding table_find
find_empty k = refl

find_cons :
    (t : Table) (k : Bytes) (v : ℕ) (q : Bytes)
    → table_find ((k, v) ∷ t) q ≡ (if same_bytes k q then some v else table_find t q)
unfolding table_find
find_cons t k v q = refl

abbrev table : RadixTree Table
table = record {
  new = [];
  find = table_find;
  insert = λ t k v. (k, v) ∷ t;
  remove = table_remove;
  find_new = λ k. find_empty k;
  find_insert = λ t k v q. find_cons t k v q;
  find_remove = table_find_remove;
}

-- at most two ids
abbrev nothing_yet : ToolMemory Table
nothing_yet = record {
  by_id = [];
  by_block = [];
  lru = [];
  blocks = [];
  count = 0;
  max_entries = 2;
  bytes = 0;
  max_bytes = 0;
  clock = 0;
  next_addr = 1;
}

nothing_yet-Inv : Inv table nothing_yet
unfolding table_find holder sum
nothing_yet-Inv = record {
  counted = refl;
  accounted = refl;
  ids_found = λ k. refl;
  texts_found = λ k. refl;
  ids_distinct = tt;
  texts_distinct = tt;
  refs_counted = λ a. refl;
  referenced = tt;
  measured = tt;
  entries_old = tt;
  blocks_old = tt;
}

abbrev with_one : ToolMemory Table
with_one =
    tool_memory_put table 64 48 nothing_yet (b'i' ∷ b'1' ∷ []) (b'<' ∷ b'x' ∷ b'>' ∷ [])
      tool_memory_ram

nothing_yet-below : over_limits nothing_yet ≡ false
unfolding tool_memory_max_entries tool_memory_max_bytes
nothing_yet-below = refl

tool_memory_put-Inv_example : Inv table with_one × (over_limits with_one ≡ false)
tool_memory_put-Inv_example =
    tool_memory_put-Inv table 64 48 nothing_yet (b'i' ∷ b'1' ∷ []) (b'<' ∷ b'x' ∷ b'>' ∷ [])
      tool_memory_ram nothing_yet-Inv nothing_yet-below

with_one-Inv : Inv table with_one
with_one-Inv =
    (tool_memory_put-Inv table 64 48 nothing_yet (b'i' ∷ b'1' ∷ []) (b'<' ∷ b'x' ∷ b'>' ∷ [])
      tool_memory_ram nothing_yet-Inv nothing_yet-below).0

abbrev one_call : ToolCall
one_call = record { id = b'i' ∷ b'1' ∷ []; name = b'f' ∷ []; arguments = b'{' ∷ b'}' ∷ [] }

attach_calls-raw_dsml_example :
    ((attach_calls table with_one (record { v = one_call ∷ []; raw_dsml = none })).raw_dsml
      ≡ some (b'<' ∷ b'x' ∷ b'>' ∷ []))
    ↔ All
        (λ id. recalled table with_one id ≡ some (b'<' ∷ b'x' ∷ b'>' ∷ []))
        (map call_id (one_call ∷ []))
attach_calls-raw_dsml_example =
    attach_calls-raw_dsml table with_one one_call [] (b'<' ∷ b'x' ∷ b'>' ∷ []) with_one-Inv
