-- ===== src/Server/ToolMemory/Insert.antt =====
-- `tool_memory_put_locked`: an id's entry goes in at the head.
use go_ds.Common.{
  ℕ, ◌+◌, ◌≡◌, ◌<◌, refl, ap, sym, ◌∙◌, true, false, none, some, List, [], ◌∷◌, length, All,
  All-imp, ◌==◌, Bytes, arith, Option-cases, inl, inr,
}
use go_ds.Server.ToolMemory.Store.{
  deref, modify, sum, deref-addr, All-modify, sum-modify, sum-modify_same,
}
use go_ds.Server.ToolMemory.Keyed.{
  holder, Distinct, holder-modify, modify-Distinct, deref-holder, fresh-Apart,
}
use go_ds.Server.ToolMemory.{
  RadixTree, ToolMemorySource, ToolMemoryEntry, ToolMemoryBlock, ToolMemory, addr_of, id_of,
  block_at, text_of, is_empty, block_add_entry, tool_memory_find_block, tick,
}
use go_ds.Server.ToolMemory.Put.{add_block, tool_memory_get_block, add_entry, put_new}
use go_ds.Server.ToolMemory.Invariant.{
  Inv, Referenced, Measured, refs_at, points_at, size_of_entry, size_of_block,
}

module _ {R : Type 0} (rax : RadixTree R) where
  -- The block `b` is there for an entry that comes.
  pub record Waiting (b : ℕ) (m : ToolMemory R) : Type 0 where
    pub counted : m.count ≡ length m.lru
    pub accounted : m.bytes ≡ sum size_of_entry m.lru + sum size_of_block m.blocks
    pub ids_found : (k : Bytes) → rax.find m.by_id k ≡ holder addr_of id_of k m.lru
    pub texts_found : (k : Bytes) → rax.find m.by_block k ≡ holder block_at text_of k m.blocks
    pub ids_distinct : Distinct addr_of id_of m.lru
    pub texts_distinct : Distinct block_at text_of m.blocks
    pub refs_counted : (a : ℕ) → sum (refs_at a) m.blocks ≡ sum (points_at a) m.lru
    pub referenced : All Referenced (modify block_at b (block_add_entry m.next_addr) m.blocks)
    pub measured : All Measured m.blocks
    pub entries_old : All (λ e. e.entry_addr < m.next_addr) m.lru
    pub blocks_old : All (λ x. x.block_addr < m.next_addr) m.blocks
    pub there : (x : ToolMemoryBlock) × (deref block_at b m.blocks ≡ some x)

  pub add_entry-Inv :
      (es bs : ℕ) (m : ToolMemory R) (b : ℕ) (id : Bytes) (source : ToolMemorySource)
      → Waiting b m
      → holder addr_of id_of id m.lru ≡ none
      → Inv rax (add_entry rax es bs m b id source)
  unfolding add_entry sum holder
  add_entry-Inv es bs m b id source w h =
      let f = block_add_entry m.next_addr in
      let (x, at) = w.there in
      let x_addr = deref-addr block_at b m.blocks x at in
      let e : ToolMemoryEntry = record {
        entry_addr = m.next_addr;
        id = id;
        block = b;
        entry_size = length id + 1 + es;
        stamp = tick m.clock;
        source = source;
      } in
      record {
        counted = let before = w.counted in omega arith;
        accounted =
            let sizes = sum-modify_same block_at size_of_block b f m.blocks (λ y. refl) in
            let before = w.accounted in ground arith;
        ids_found = λ k. rax.find_insert m.by_id id m.next_addr k ∙ (rw (w.ids_found k));
        texts_found = λ k.
            w.texts_found k
            ∙ sym (holder-modify block_at text_of f (λ y. refl) (λ y. refl) b k m.blocks);
        ids_distinct = (fresh-Apart addr_of id_of e m.lru h w.entries_old, w.ids_distinct);
        texts_distinct =
            modify-Distinct block_at text_of f (λ y. refl) (λ y. refl) b m.blocks w.texts_distinct;
        refs_counted = λ c.
            let refs = sum-modify block_at (refs_at c) b f m.blocks x at in
            let before = w.refs_counted c in ground arith;
        referenced = w.referenced;
        measured = All-modify block_at Measured b f m.blocks (λ y p. p) w.measured;
        entries_old = (
          omega arith,
          All-imp (λ y. y.entry_addr < m.next_addr) (λ y. y.entry_addr < m.next_addr + 1) m.lru
              (λ y p. omega arith) w.entries_old,
        );
        blocks_old =
            All-modify block_at (λ y. y.block_addr < m.next_addr + 1) b f m.blocks (λ y p. p)
              (All-imp (λ y. y.block_addr < m.next_addr) (λ y. y.block_addr < m.next_addr + 1)
                m.blocks (λ y p. omega arith) w.blocks_old);
      }

  found-Waiting :
      (m : ToolMemory R) (k : Bytes) (b : ℕ)
      → Inv rax m
      → rax.find m.by_block k ≡ some b
      → Waiting b m
  found-Waiting m k b i h =
      let held : holder block_at text_of k m.blocks ≡ some b = sym (i.texts_found k) ∙ h in
      let (x, at, same) = deref-holder block_at text_of b k m.blocks i.texts_distinct held in
      record {
        counted = i.counted;
        accounted = i.accounted;
        ids_found = i.ids_found;
        texts_found = i.texts_found;
        ids_distinct = i.ids_distinct;
        texts_distinct = i.texts_distinct;
        refs_counted = i.refs_counted;
        referenced =
            All-modify block_at Referenced b (block_add_entry m.next_addr) m.blocks
              (λ y p. omega arith) i.referenced;
        measured = i.measured;
        entries_old = i.entries_old;
        blocks_old = i.blocks_old;
        there = (x, at);
      }

  later :
      (m : ToolMemory R)
      → Inv rax m
      → All (λ y. y.entry_addr < m.next_addr + 1) m.lru
        × All (λ y. y.block_addr < m.next_addr + 1) m.blocks
  later m i = (
    All-imp (λ y. y.entry_addr < m.next_addr) (λ y. y.entry_addr < m.next_addr + 1) m.lru
        (λ y p. omega arith) i.entries_old,
    All-imp (λ y. y.block_addr < m.next_addr) (λ y. y.block_addr < m.next_addr + 1) m.blocks
        (λ y p. omega arith) i.blocks_old,
  )

  points_none :
      (a : ℕ) (bs : List ToolMemoryBlock) → All (λ y. y.block_addr < a) bs → sum (refs_at a) bs ≡ 0
  unfolding sum
  points_none a [] h = refl
  points_none a (y ∷ bs) h = let below = h.0 in let rest = points_none a bs h.1 in ground arith

  add_block-Waiting :
      (es bs : ℕ) (m : ToolMemory R) (k : Bytes)
      → Inv rax m
      → rax.find m.by_block k ≡ none
      → Waiting m.next_addr (add_block rax es bs m k)
  unfolding add_block sum holder modify deref
  add_block-Waiting es bs m k i h =
      let b : ToolMemoryBlock = record {
        block_addr = m.next_addr;
        dsml = k;
        len = length k;
        block_size = length k + 1 + bs;
        refs = 0;
        entries = [];
      } in
      let new_key : holder block_at text_of k m.blocks ≡ none = sym (i.texts_found k) ∙ h in
      let head : (m.next_addr == m.next_addr) ≡ true = ground arith in
      record {
        counted = i.counted;
        accounted = let before = i.accounted in omega arith;
        ids_found = i.ids_found;
        texts_found = λ q. rax.find_insert m.by_block k m.next_addr q ∙ (rw (i.texts_found q));
        ids_distinct = i.ids_distinct;
        texts_distinct =
            (fresh-Apart block_at text_of b m.blocks new_key i.blocks_old, i.texts_distinct);
        refs_counted = λ c. let before = i.refs_counted c in ground arith;
        referenced = rw head (omega arith, i.referenced);
        measured = (refl, i.measured);
        entries_old = (later m i).0;
        blocks_old = (omega arith, (later m i).1);
        there = (b, rw head);
      }

  -- behind `tool_memory_get_block_locked`, the block is there and no entry has changed
  get_block-Waiting :
      (es bs : ℕ) (m : ToolMemory R) (dsml : Bytes)
      → is_empty dsml ≡ false
      → Inv rax m
      → Waiting
          (tool_memory_get_block rax es bs m dsml).1
          (tool_memory_get_block rax es bs m dsml).0
        × ((tool_memory_get_block rax es bs m dsml).0.lru ≡ m.lru)
  unfolding tool_memory_get_block tool_memory_find_block add_block
  get_block-Waiting es bs m dsml some_text i = elim (Option-cases (rax.find m.by_block dsml)) [
    | inl new ↦
        rw (some_text, tool_memory_get_block, tool_memory_find_block, new)
          (add_block-Waiting es bs m dsml i new, refl)
    | inr (b, old) ↦
        rw (some_text, tool_memory_get_block, tool_memory_find_block, old)
          (found-Waiting m dsml b i old, refl)
  ]

  pub put_new-Inv :
      (es bs : ℕ) (m : ToolMemory R) (id dsml : Bytes) (source : ToolMemorySource)
      → is_empty dsml ≡ false
      → Inv rax m
      → holder addr_of id_of id m.lru ≡ none
      → Inv rax (put_new rax es bs m id dsml source)
  unfolding put_new
  put_new-Inv es bs m id dsml source some_text i h =
      let got = tool_memory_get_block rax es bs m dsml in
      let (waits, same) = get_block-Waiting es bs m dsml some_text i in
      add_entry-Inv es bs got.0 got.1 id source waits (ap (holder addr_of id_of id) same ∙ h)
