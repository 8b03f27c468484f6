-- ===== src/Server/ToolMemory/Put.antt =====
-- ds4_server.c: `tool_memory_put_locked`, `tool_memory_lookup_locked` and what the server calls.
use go_ds.Common.{
  ℕ, zero, suc, ◌+◌, Bool, true, false, ◌&&◌, ◌||◌, Option, none, some, List, [], ◌∷◌, length, ◌==◌,
  if◌then◌else◌, same_bytes, Bytes,
}
use go_ds.Server.ToolMemory.Store.{deref, modify}
use go_ds.Server.ToolMemory.{
  RadixTree, ToolMemorySource, tool_memory_ram, ToolMemoryEntry, ToolMemoryBlock, ToolMemory,
  addr_of, block_at, is_empty, last_entry, tick, set_source, block_add_entry, tool_memory_touch,
  tool_memory_find_block, tool_memory_remove_entry, tool_memory_prune, tool_memory_find_entry,
}

-- what `tool_memory_lookup_locked` gives back
pub record Lookup (R : Type 0) : Type 0 where
  pub memory : ToolMemory R
  pub dsml : Bytes
  pub source : ToolMemorySource
  pub block : ℕ

-- the server's fields that these functions use
pub record ToolServer (R : Type 0) : Type 0 where
  pub tool_mem : ToolMemory R
  pub disable_exact_dsml_tool_replay : Bool

-- the old entry's text is the new one
unfoldable pub same_text : {R : Type 0} → ToolMemory R → ToolMemoryEntry → Bytes → Bool
same_text m old dsml = elim (deref block_at old.block m.blocks) [
  | none ↦ false
  | some b ↦ b.len == length dsml && same_bytes b.dsml dsml
]

-- the id has the same text already
unfoldable pub put_again :
    {R : Type 0} → ToolMemory R → ToolMemoryEntry → ToolMemorySource → ToolMemory R
put_again m old source =
    tool_memory_touch (record m { lru = modify addr_of old.entry_addr (set_source source) m.lru })
      (set_source source old)

module _ {R : Type 0} (rax : RadixTree R) where
  -- The entry's block is read by its address, and an entry without a block has no text.
  unfoldable pub tool_memory_lookup : ToolMemory R → Bytes → Option (Lookup R)
  tool_memory_lookup m id = elim (tool_memory_find_entry rax m id) [
    | none ↦ none
    | some e ↦ elim (deref block_at e.block m.blocks) [
      | none ↦ none
      | some b ↦ some (record {
        memory = tool_memory_touch m e;
        dsml = b.dsml;
        source = e.source;
        block = e.block;
      })
    ]
  ]

  unfoldable pub tool_memory_has_id : ToolServer R → Bytes → Bool
  tool_memory_has_id s id =
      if s.disable_exact_dsml_tool_replay || is_empty id
      then false
      else elim (tool_memory_find_entry rax s.tool_mem id) [ none ↦ false | some e ↦ true ]

  unfoldable pub free_rounds : ℕ → ToolMemory R → ToolMemory R
  free_rounds zero m = m
  free_rounds (suc rounds) m = elim (last_entry m.lru) [
    | none ↦ m
    | some e ↦ free_rounds rounds (tool_memory_remove_entry rax m e)
  ]

  -- what the trees are freed at: every entry has been removed, and the struct is zeroed behind it
  unfoldable pub tool_memory_free_entries : ToolMemory R → ToolMemory R
  tool_memory_free_entries m = free_rounds (length m.lru) m

  module _ (entry_struct block_struct : ℕ) where
    -- a new block for the text, with no entry yet
    unfoldable pub add_block : ToolMemory R → Bytes → ToolMemory R
    add_block m dsml =
        let b : ToolMemoryBlock = record {
          block_addr = m.next_addr;
          dsml = dsml;
          len = length dsml;
          block_size = length dsml + 1 + block_struct;
          refs = 0;
          entries = [];
        } in
        (record m {
          by_block = rax.insert m.by_block dsml m.next_addr;
          bytes = m.bytes + (length dsml + 1 + block_struct);
          blocks = b ∷ m.blocks;
          next_addr = m.next_addr + 1;
        })

    unfoldable pub tool_memory_get_block : ToolMemory R → Bytes → ToolMemory R × ℕ
    tool_memory_get_block m dsml = elim (tool_memory_find_block rax m dsml) [
      | some b ↦ (m, b)
      | none ↦ (add_block m dsml, m.next_addr)
    ]

    -- a new entry for the id at the head, in the block `b`
    unfoldable pub add_entry : ToolMemory R → ℕ → Bytes → ToolMemorySource → ToolMemory R
    add_entry m b id source =
        let e : ToolMemoryEntry = record {
          entry_addr = m.next_addr;
          id = id;
          block = b;
          entry_size = length id + 1 + entry_struct;
          stamp = tick m.clock;
          source = source;
        } in
        (record m {
          by_id = rax.insert m.by_id id m.next_addr;
          lru = e ∷ m.lru;
          blocks = modify block_at b (block_add_entry m.next_addr) m.blocks;
          count = m.count + 1;
          bytes = m.bytes + (length id + 1 + entry_struct);
          clock = tick m.clock;
          next_addr = m.next_addr + 1;
        })

    unfoldable pub put_new : ToolMemory R → Bytes → Bytes → ToolMemorySource → ToolMemory R
    put_new m id dsml source =
        let got = tool_memory_get_block m dsml in add_entry got.0 got.1 id source

    unfoldable pub tool_memory_put : ToolMemory R → Bytes → Bytes → ToolMemorySource → ToolMemory R
    tool_memory_put m id dsml source =
        if is_empty id || is_empty dsml then m else elim (tool_memory_find_entry rax m id) [
          | none ↦ tool_memory_prune rax (put_new m id dsml source)
          | some old ↦
              if same_text m old dsml
              then tool_memory_prune rax (put_again m old source)
              else tool_memory_prune rax
                  (put_new (tool_memory_remove_entry rax m old) id dsml source)
        ]

    unfoldable pub tool_memory_put_source :
        ToolServer R → Bytes → Bytes → ToolMemorySource → ToolServer R
    tool_memory_put_source s id dsml source =
        if s.disable_exact_dsml_tool_replay || is_empty id || is_empty dsml
        then s
        else (record s { tool_mem = tool_memory_put s.tool_mem id dsml source })

    unfoldable pub remember_ids : ToolMemory R → List Bytes → Bytes → ToolMemory R
    remember_ids m [] raw_dsml = m
    remember_ids m (id ∷ ids) raw_dsml =
        remember_ids (tool_memory_put m id raw_dsml tool_memory_ram) ids raw_dsml

    -- `ids` are the ids of the calls
    unfoldable pub tool_memory_remember : ToolServer R → List Bytes → Bytes → ToolServer R
    tool_memory_remember s ids raw_dsml =
        if s.disable_exact_dsml_tool_replay || is_empty raw_dsml
        then s
        else (record s { tool_mem = remember_ids s.tool_mem ids raw_dsml })
