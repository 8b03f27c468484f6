-- ===== src/Server/ToolMemory/Invariant.antt =====
-- What holds of the memory between two calls, and the steps that keep it.
use go_ds.Common.{
  ℕ, ◌+◌, ◌-◌, ◌≡◌, ◌<◌, refl, ap, sym, ◌∙◌, true, false, Option, none, some, List, [], ◌∷◌, length,
  All, ltb, ◌==◌, if◌then◌else◌, Bytes, arith, Bool-cases, inl, inr,
}
use go_ds.Server.ToolMemory.Store.{
  deref, sum, deref-addr, length-unlink, All-unlink, All-modify, All-deref, sum-unlink, sum-modify,
  sum-modify_same,
}
use go_ds.Server.ToolMemory.Keyed.{
  holder, Distinct, unlink-Distinct, holder-unlink, holder-modify, modify-Distinct,
}
use go_ds.Server.ToolMemory.{
  RadixTree, ToolMemoryEntry, ToolMemoryBlock, ToolMemory, addr_of, id_of, block_at, text_of,
  block_drop_entry, block_set_refs, keep_block, drop_block, tool_memory_release_block, forget_entry,
  tool_memory_remove_entry,
}

-- the number of references that the block at `a` counts
abbrev pub refs_at : ℕ → ToolMemoryBlock → ℕ
refs_at a b = if b.block_addr == a then b.refs else 0

-- 1 for an entry of the block at `a`
abbrev pub points_at : ℕ → ToolMemoryEntry → ℕ
points_at a e = if e.block == a then 1 else 0

abbrev pub size_of_entry : ToolMemoryEntry → ℕ
size_of_entry e = e.entry_size

abbrev pub size_of_block : ToolMemoryBlock → ℕ
size_of_block b = b.block_size

abbrev pub Referenced : ToolMemoryBlock → Type 0
Referenced b = 0 < b.refs

abbrev pub Measured : ToolMemoryBlock → Type 0
Measured b = b.len ≡ length b.dsml

module _ {R : Type 0} (rax : RadixTree R) where
  pub record Inv (m : ToolMemory R) : Type 0 where
    pub counted : m.count ≡ length m.lru
    pub accounted : m.bytes ≡ sum size_of_entry m.lru + sum size_of_block m.blocks
    pub ids_found : (k : Bytes) → rax.find m.by_id k ≡ holder addr_of id_of k m.lru
    pub texts_found : (k : Bytes) → rax.find m.by_block k ≡ holder block_at text_of k m.blocks
    pub ids_distinct : Distinct addr_of id_of m.lru
    pub texts_distinct : Distinct block_at text_of m.blocks
    pub refs_counted : (a : ℕ) → sum (refs_at a) m.blocks ≡ sum (points_at a) m.lru
    pub referenced : All Referenced m.blocks
    pub measured : All Measured m.blocks
    pub entries_old : All (λ e. e.entry_addr < m.next_addr) m.lru
    pub blocks_old : All (λ b. b.block_addr < m.next_addr) m.blocks

  -- Behind an entry's removal from the list, its block counts one reference too many.
  pub record Owing (a : ℕ) (m : ToolMemory R) : Type 0 where
    pub counted : m.count ≡ length m.lru
    pub accounted : m.bytes ≡ sum size_of_entry m.lru + sum size_of_block m.blocks
    pub ids_found : (k : Bytes) → rax.find m.by_id k ≡ holder addr_of id_of k m.lru
    pub texts_found : (k : Bytes) → rax.find m.by_block k ≡ holder block_at text_of k m.blocks
    pub ids_distinct : Distinct addr_of id_of m.lru
    pub texts_distinct : Distinct block_at text_of m.blocks
    pub refs_owing :
        (c : ℕ) → sum (refs_at c) m.blocks ≡ sum (points_at c) m.lru + (if a == c then 1 else 0)
    pub referenced : All Referenced m.blocks
    pub measured : All Measured m.blocks
    pub entries_old : All (λ e. e.entry_addr < m.next_addr) m.lru
    pub blocks_old : All (λ b. b.block_addr < m.next_addr) m.blocks

  pub forget_entry-Owing :
      (m : ToolMemory R) (e : ToolMemoryEntry)
      → Inv m
      → deref addr_of e.entry_addr m.lru ≡ some e
      → Owing e.block (forget_entry rax m e)
  unfolding forget_entry
  forget_entry-Owing m e i h =
      let f = block_drop_entry e.entry_addr in
      let lengths = length-unlink addr_of e.entry_addr m.lru e h in
      let sizes = sum-unlink addr_of size_of_entry e.entry_addr m.lru e h in
      let blocks_size = sum-modify_same block_at size_of_block e.block f m.blocks (λ x. refl) in
      record {
        counted = ground (arith, i.counted);
        accounted = ground (arith, i.accounted);
        ids_found = λ k.
            rax.find_remove m.by_id e.id k
            ∙ (rw (i.ids_found k)
                (sym (holder-unlink addr_of id_of e.entry_addr k m.lru e i.ids_distinct h)));
        texts_found = λ k.
            i.texts_found k
            ∙ sym (holder-modify block_at text_of f (λ x. refl) (λ x. refl) e.block k m.blocks);
        ids_distinct = unlink-Distinct addr_of id_of e.entry_addr m.lru i.ids_distinct;
        texts_distinct =
            modify-Distinct block_at text_of f (λ x. refl) (λ x. refl) e.block m.blocks
              i.texts_distinct;
        refs_owing = λ c.
            let refs = sum-modify_same block_at (refs_at c) e.block f m.blocks (λ x. refl) in
            let points = sum-unlink addr_of (points_at c) e.entry_addr m.lru e h in
            let before = i.refs_counted c in omega arith;
        referenced = All-modify block_at Referenced e.block f m.blocks (λ x p. p) i.referenced;
        measured = All-modify block_at Measured e.block f m.blocks (λ x p. p) i.measured;
        entries_old =
            All-unlink addr_of (λ x. x.entry_addr < m.next_addr) e.entry_addr m.lru i.entries_old;
        blocks_old =
            All-modify block_at (λ x. x.block_addr < m.next_addr) e.block f m.blocks (λ x p. p)
              i.blocks_old;
      }

  refs_none :
      (a : ℕ) (bs : List ToolMemoryBlock) → deref block_at a bs ≡ none → sum (refs_at a) bs ≡ 0
  unfolding deref sum
  refs_none a [] h = refl
  refs_none a (b ∷ bs) h = ground (arith, refs_none a bs)

  -- the last reference goes: the block goes too
  drop_block-Inv :
      (a : ℕ) (m : ToolMemory R) (b : ToolMemoryBlock)
      → Owing a m
      → deref block_at a m.blocks ≡ some b
      → ltb 0 (b.refs - 1) ≡ false
      → Inv (drop_block rax m a b)
  unfolding drop_block
  drop_block-Inv a m b o h last =
      let at = deref-addr block_at a m.blocks b h in
      let positive : 0 < b.refs = All-deref block_at Referenced a m.blocks b o.referenced h in
      let sizes = sum-unlink block_at size_of_block a m.blocks b h in
      record {
        counted = o.counted;
        accounted = let before = o.accounted in ground arith;
        ids_found = o.ids_found;
        texts_found = λ k.
            rax.find_remove m.by_block b.dsml k
            ∙ (rw (o.texts_found k)
                (sym (holder-unlink block_at text_of a k m.blocks b o.texts_distinct h)));
        ids_distinct = o.ids_distinct;
        texts_distinct = unlink-Distinct block_at text_of a m.blocks o.texts_distinct;
        refs_counted = λ c.
            let refs = sum-unlink block_at (refs_at c) a m.blocks b h in
            let owing = o.refs_owing c in ground arith;
        referenced = All-unlink block_at Referenced a m.blocks o.referenced;
        measured = All-unlink block_at Measured a m.blocks o.measured;
        entries_old = o.entries_old;
        blocks_old = All-unlink block_at (λ x. x.block_addr < m.next_addr) a m.blocks o.blocks_old;
      }

  keep_block-Inv :
      (a : ℕ) (m : ToolMemory R) (b : ToolMemoryBlock)
      → Owing a m
      → deref block_at a m.blocks ≡ some b
      → ltb 0 (b.refs - 1) ≡ true
      → Inv (keep_block rax m a b)
  unfolding keep_block
  keep_block-Inv a m b o h more =
      let f = block_set_refs (b.refs - 1) in
      let at = deref-addr block_at a m.blocks b h in
      record {
        counted = o.counted;
        accounted =
            o.accounted
            ∙ ap (λ x. sum size_of_entry m.lru + x)
                (sym (sum-modify_same block_at size_of_block a f m.blocks (λ x. refl)));
        ids_found = o.ids_found;
        texts_found = λ k.
            o.texts_found k
            ∙ sym (holder-modify block_at text_of f (λ x. refl) (λ x. refl) a k m.blocks);
        ids_distinct = o.ids_distinct;
        texts_distinct =
            modify-Distinct block_at text_of f (λ x. refl) (λ x. refl) a m.blocks o.texts_distinct;
        refs_counted = λ c.
            let refs = sum-modify block_at (refs_at c) a f m.blocks b h in
            let owing = o.refs_owing c in ground arith;
        referenced = All-modify block_at Referenced a f m.blocks (λ x p. ground arith) o.referenced;
        measured = All-modify block_at Measured a f m.blocks (λ x p. p) o.measured;
        entries_old = o.entries_old;
        blocks_old =
            All-modify block_at (λ x. x.block_addr < m.next_addr) a f m.blocks (λ x p. p)
              o.blocks_old;
      }

  release-Inv :
      (a : ℕ) (m : ToolMemory R) (d : Option ToolMemoryBlock)
      → Owing a m
      → deref block_at a m.blocks ≡ d
      → Inv (tool_memory_release_block rax m a)
  unfolding tool_memory_release_block
  release-Inv a m none o h =
      let zero_refs = refs_none a m.blocks h in let owing = o.refs_owing a in absurd (ground arith)
  release-Inv a m (some b) o h = elim (Bool-cases (ltb 0 (b.refs - 1))) [
    | inl more ↦ rw (h, tool_memory_release_block, more) (keep_block-Inv a m b o h more)
    | inr last ↦ rw (h, tool_memory_release_block, last) (drop_block-Inv a m b o h last)
  ]

  -- An entry of the list is removed: the invariant is kept.
  pub remove_entry-Inv :
      (m : ToolMemory R) (e : ToolMemoryEntry)
      → Inv m
      → deref addr_of e.entry_addr m.lru ≡ some e
      → Inv (tool_memory_remove_entry rax m e)
  unfolding tool_memory_remove_entry
  remove_entry-Inv m e i h =
      release-Inv e.block (forget_entry rax m e) _ (forget_entry-Owing m e i h) refl
