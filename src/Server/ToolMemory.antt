-- ===== src/Server/ToolMemory.antt =====
-- ds4_server.c: the memory of tool-call text (`tool_memory`), a list of ids in the order of their
-- last use over blocks of text that several ids share. A pointer is the address of a struct on the
-- heap; `lru` is the doubly linked list from head to tail. The radix trees are parameters, with the
-- laws of a finite map, and so are the sizes of the structs. A null string and the empty one are the
-- empty list of bytes, and a tree that is not made yet is the empty tree: the code treats them alike.
-- The fields `seen` and `scan_clock`, which only the scan for the tool map of a cache file reads and
-- writes, are left out.
pub mod Store
pub mod Keyed
pub mod Put
pub mod Invariant
pub mod Prune
pub mod Insert
pub mod Touch
pub mod Kept
pub mod Attach
pub mod Recall
pub mod Exact
pub mod Tests
use go_ds.Common.{
  ℕ, zero, suc, ◌+◌, ◌-◌, ◌^◌, ◌%◌, ◌≡◌, Bool, true, false, ◌||◌, Option, none, some, List, [], ◌∷◌,
  length, ltb, leb, ◌==◌, if◌then◌else◌, same_bytes, Bytes,
}
use go_ds.Server.ToolMemory.Store.{deref, unlink, modify}

-- The calls of the radix tree library, on trees `R` whose values are addresses.
pub record RadixTree (R : Type 0) : Type 0 where
  pub new : R
  pub find : R → Bytes → Option ℕ
  pub insert : R → Bytes → ℕ → R
  pub remove : R → Bytes → R
  pub find_new : (k : Bytes) → find new k ≡ none
  pub find_insert :
      (t : R) (k : Bytes) (v : ℕ) (q : Bytes)
      → find (insert t k v) q ≡ (if same_bytes k q then some v else find t q)
  pub find_remove :
      (t : R) (k q : Bytes) → find (remove t k) q ≡ (if same_bytes k q then none else find t q)

pub data ToolMemorySource : Type 0 where
  tool_memory_ram : ToolMemorySource
  tool_memory_disk : ToolMemorySource

pub record ToolMemoryEntry : Type 0 where
  pub entry_addr : ℕ
  pub id : Bytes
  pub block : ℕ
  pub entry_size : ℕ
  pub stamp : ℕ
  pub source : ToolMemorySource

-- `entries` is the list that starts at the field of that name and goes on by `block_next`.
pub record ToolMemoryBlock : Type 0 where
  pub block_addr : ℕ
  pub dsml : Bytes
  pub len : ℕ
  pub block_size : ℕ
  pub refs : ℕ
  pub entries : List ℕ

-- `next_addr` is what the heap gives out next.
pub record ToolMemory (R : Type 0) : Type 0 where
  pub by_id : R
  pub by_block : R
  pub lru : List ToolMemoryEntry
  pub blocks : List ToolMemoryBlock
  pub count : ℕ
  pub max_entries : ℕ
  pub bytes : ℕ
  pub max_bytes : ℕ
  pub clock : ℕ
  pub next_addr : ℕ

abbrev pub default_max_ids : ℕ
default_max_ids = 100000

abbrev pub default_max_bytes : ℕ
default_max_bytes = 536870912

abbrev pub addr_of : ToolMemoryEntry → ℕ
addr_of e = e.entry_addr

abbrev pub id_of : ToolMemoryEntry → Bytes
id_of e = e.id

abbrev pub block_at : ToolMemoryBlock → ℕ
block_at b = b.block_addr

abbrev pub text_of : ToolMemoryBlock → Bytes
text_of b = b.dsml

unfoldable pub is_empty : Bytes → Bool
is_empty [] = true
is_empty (c ∷ s) = false

unfoldable pub last_entry : List ToolMemoryEntry → Option ToolMemoryEntry
last_entry [] = none
last_entry (e ∷ []) = some e
last_entry (e ∷ f ∷ es) = last_entry (f ∷ es)

unfoldable pub unlink_address : ℕ → List ℕ → List ℕ
unlink_address a [] = []
unlink_address a (x ∷ xs) = if x == a then xs else x ∷ unlink_address a xs

-- `++m->clock`
abbrev pub tick : ℕ → ℕ
tick c = (c + 1) % 2 ^ 64

unfoldable pub set_source : ToolMemorySource → ToolMemoryEntry → ToolMemoryEntry
set_source tool_memory_ram e = (record e { source = tool_memory_ram })
set_source tool_memory_disk e = e

abbrev pub block_drop_entry : ℕ → ToolMemoryBlock → ToolMemoryBlock
block_drop_entry a b = (record b { entries = unlink_address a b.entries })

abbrev pub block_set_refs : ℕ → ToolMemoryBlock → ToolMemoryBlock
block_set_refs n b = (record b { refs = n })

abbrev pub block_add_entry : ℕ → ToolMemoryBlock → ToolMemoryBlock
block_add_entry a b = (record b { entries = a ∷ b.entries; refs = b.refs + 1 })

abbrev pub is_head : ToolMemoryEntry → List ToolMemoryEntry → Bool
is_head e [] = false
is_head e (x ∷ xs) = x.entry_addr == e.entry_addr

abbrev pub stamp_with : ℕ → ToolMemoryEntry → ToolMemoryEntry
stamp_with c e = (record e { stamp = c })

module _ {R : Type 0} where
  unfoldable pub tool_memory_max_entries : ToolMemory R → ℕ
  tool_memory_max_entries m = if ltb 0 m.max_entries then m.max_entries else default_max_ids

  unfoldable pub tool_memory_max_bytes : ToolMemory R → ℕ
  tool_memory_max_bytes m = if ltb 0 m.max_bytes then m.max_bytes else default_max_bytes

  abbrev pub over_limits : ToolMemory R → Bool
  over_limits m = ltb (tool_memory_max_entries m) m.count || ltb (tool_memory_max_bytes m) m.bytes

  -- the entry is stamped; unless it is the head, it is unlinked and linked at the head
  unfoldable pub tool_memory_touch : ToolMemory R → ToolMemoryEntry → ToolMemory R
  tool_memory_touch m e = (record m {
    clock = tick m.clock;
    lru =
        if is_head e m.lru
        then modify addr_of e.entry_addr (stamp_with (tick m.clock)) m.lru
        else stamp_with (tick m.clock) e ∷ unlink addr_of e.entry_addr m.lru;
  })

module _ {R : Type 0} (rax : RadixTree R) where
  unfoldable pub tool_memory_find_block : ToolMemory R → Bytes → Option ℕ
  tool_memory_find_block m dsml = if is_empty dsml then none else rax.find m.by_block dsml

  -- the block has other references
  unfoldable pub keep_block : ToolMemory R → ℕ → ToolMemoryBlock → ToolMemory R
  keep_block m a b = (record m {
    blocks = modify block_at a (block_set_refs (b.refs - 1)) m.blocks;
  })

  -- the last reference goes
  unfoldable pub drop_block : ToolMemory R → ℕ → ToolMemoryBlock → ToolMemory R
  drop_block m a b = (record m {
    by_block = rax.remove m.by_block b.dsml;
    bytes = if leb b.block_size m.bytes then m.bytes - b.block_size else 0;
    blocks = unlink block_at a m.blocks;
  })

  unfoldable pub tool_memory_release_block : ToolMemory R → ℕ → ToolMemory R
  tool_memory_release_block m a = elim (deref block_at a m.blocks) [
    | none ↦ m
    | some b ↦ if ltb 0 (b.refs - 1) then keep_block m a b else drop_block m a b
  ]

  -- behind the release: the entry is in no index, list or block any more
  unfoldable pub forget_entry : ToolMemory R → ToolMemoryEntry → ToolMemory R
  forget_entry m e = (record m {
    by_id = rax.remove m.by_id e.id;
    lru = unlink addr_of e.entry_addr m.lru;
    blocks = modify block_at e.block (block_drop_entry e.entry_addr) m.blocks;
    bytes = if leb e.entry_size m.bytes then m.bytes - e.entry_size else 0;
    count = if ltb 0 m.count then m.count - 1 else m.count;
  })

  unfoldable pub tool_memory_remove_entry : ToolMemory R → ToolMemoryEntry → ToolMemory R
  tool_memory_remove_entry m e = tool_memory_release_block (forget_entry m e) e.block

  -- a round of the loop takes an entry away, so that as many rounds as entries are enough
  unfoldable pub prune_rounds : ℕ → ToolMemory R → ToolMemory R
  prune_rounds zero m = m
  prune_rounds (suc rounds) m = elim (last_entry m.lru) [
    | none ↦ m
    | some e ↦
        let rest = prune_rounds rounds (tool_memory_remove_entry m e) in
        if over_limits m then rest else m
  ]

  unfoldable pub tool_memory_prune : ToolMemory R → ToolMemory R
  tool_memory_prune m = prune_rounds (length m.lru) m

  unfoldable pub tool_memory_find_entry : ToolMemory R → Bytes → Option ToolMemoryEntry
  tool_memory_find_entry m id =
      if is_empty id
      then none
      else elim (rax.find m.by_id id) [ none ↦ none | some a ↦ deref addr_of a m.lru ]
