-- ===== src/Server/ToolMemory/Touch.antt =====
-- `tool_memory_touch`: an entry that is used moves to the head.
use go_ds.Common.{
  ℕ, ◌≡◌, ◌<◌, refl, ap, sym, ◌∙◌, some, List, ◌∷◌, length, All, ◌==◌, if◌then◌else◌, Bytes, arith,
  Bool-cases, inl, inr,
}
use go_ds.Server.ToolMemory.Store.{
  deref, unlink, modify, sum, length-unlink, All-unlink, All-modify, All-deref, sum-unlink,
  sum-modify_same, length-modify, deref-modify,
}
use go_ds.Server.ToolMemory.Keyed.{
  holder, Distinct, unlink-Distinct, holder-modify, modify-Distinct, unlink-Apart, Apart-changed,
  holder-to_front,
}
use go_ds.Server.ToolMemory.{
  RadixTree, ToolMemorySource, tool_memory_ram, tool_memory_disk, ToolMemoryEntry, ToolMemory,
  addr_of, id_of, is_head, stamp_with, tick, set_source, tool_memory_touch,
}
use go_ds.Server.ToolMemory.Put.{put_again}
use go_ds.Server.ToolMemory.Invariant.{Inv, points_at, size_of_entry}

module _ {R : Type 0} (rax : RadixTree R) where
  -- The list of entries is another one that looks the same to the indexes and the counts.
  record Alike (m : ToolMemory R) (es : List ToolMemoryEntry) : Type 0 where
    pub lengths : length es ≡ length m.lru
    pub sizes : sum size_of_entry es ≡ sum size_of_entry m.lru
    pub held : (k : Bytes) → holder addr_of id_of k es ≡ holder addr_of id_of k m.lru
    pub apart : Distinct addr_of id_of es
    pub points : (a : ℕ) → sum (points_at a) es ≡ sum (points_at a) m.lru
    pub old : All (λ e. e.entry_addr < m.next_addr) es

  Alike-Inv :
      (m : ToolMemory R) (es : List ToolMemoryEntry) (c : ℕ)
      → Inv rax m
      → Alike m es
      → Inv rax (record m { clock = c; lru = es })
  Alike-Inv m es c i a = record {
    counted = i.counted ∙ sym a.lengths;
    accounted = let before = i.accounted in let sizes = a.sizes in omega arith;
    ids_found = λ k. i.ids_found k ∙ sym (a.held k);
    texts_found = i.texts_found;
    ids_distinct = a.apart;
    texts_distinct = i.texts_distinct;
    refs_counted = λ b. i.refs_counted b ∙ sym (a.points b);
    referenced = i.referenced;
    measured = i.measured;
    entries_old = a.old;
    blocks_old = i.blocks_old;
  }

  -- in place
  modified-Alike :
      (m : ToolMemory R) (a : ℕ) (f : ToolMemoryEntry → ToolMemoryEntry)
      → ((x : ToolMemoryEntry) → (f x).entry_addr ≡ x.entry_addr)
      → ((x : ToolMemoryEntry) → (f x).id ≡ x.id)
      → ((x : ToolMemoryEntry) → (f x).entry_size ≡ x.entry_size)
      → ((x : ToolMemoryEntry) → (f x).block ≡ x.block)
      → Inv rax m
      → Alike m (modify addr_of a f m.lru)
  modified-Alike m a f addrs ids sizes blocks i = record {
    lengths = length-modify addr_of a f m.lru;
    sizes = sum-modify_same addr_of size_of_entry a f m.lru sizes;
    held = λ k. holder-modify addr_of id_of f addrs ids a k m.lru;
    apart = modify-Distinct addr_of id_of f addrs ids a m.lru i.ids_distinct;
    points = λ b.
        sum-modify_same addr_of (points_at b) a f m.lru
          (λ x. ap (λ c. if c == b then 1 else 0) (blocks x));
    old =
        All-modify addr_of (λ e. e.entry_addr < m.next_addr) a f m.lru (λ x p. rw (addrs x) p)
          i.entries_old;
  }

  -- to the head
  moved-Alike :
      (m : ToolMemory R) (e : ToolMemoryEntry) (c : ℕ)
      → Inv rax m
      → deref addr_of e.entry_addr m.lru ≡ some e
      → Alike m (stamp_with c e ∷ unlink addr_of e.entry_addr m.lru)
  unfolding sum
  moved-Alike m e c i h =
      let rest = unlink addr_of e.entry_addr m.lru in
      record {
        lengths = sym (length-unlink addr_of e.entry_addr m.lru e h);
        sizes = sym (sum-unlink addr_of size_of_entry e.entry_addr m.lru e h);
        held = λ k.
            holder-to_front addr_of id_of e.entry_addr k m.lru e (stamp_with c e) i.ids_distinct h
              refl refl;
        apart = (
          Apart-changed addr_of id_of e (stamp_with c e) rest refl refl
              (unlink-Apart addr_of id_of e.entry_addr m.lru e i.ids_distinct h),
          unlink-Distinct addr_of id_of e.entry_addr m.lru i.ids_distinct,
        );
        points = λ b. sym (sum-unlink addr_of (points_at b) e.entry_addr m.lru e h);
        old = (
          All-deref addr_of (λ x. x.entry_addr < m.next_addr) e.entry_addr m.lru e i.entries_old h,
          All-unlink addr_of (λ x. x.entry_addr < m.next_addr) e.entry_addr m.lru i.entries_old,
        );
      }

  pub touch-Inv :
      (m : ToolMemory R) (e : ToolMemoryEntry)
      → Inv rax m
      → deref addr_of e.entry_addr m.lru ≡ some e
      → Inv rax (tool_memory_touch m e)
  unfolding tool_memory_touch
  touch-Inv m e i h = elim (Bool-cases (is_head e m.lru)) [
    | inl at_head ↦ rw at_head (
        Alike-Inv m (modify addr_of e.entry_addr (stamp_with (tick m.clock)) m.lru) (tick m.clock) i
          (modified-Alike m e.entry_addr (stamp_with (tick m.clock)) (λ x. refl) (λ x. refl)
            (λ x. refl) (λ x. refl) i))
    | inr behind ↦ rw behind (
        Alike-Inv m (stamp_with (tick m.clock) e ∷ unlink addr_of e.entry_addr m.lru) (tick m.clock)
          i (moved-Alike m e (tick m.clock) i h))
  ]

  set_source_same :
      (s : ToolMemorySource) (x : ToolMemoryEntry)
      → ((set_source s x).entry_addr ≡ x.entry_addr)
        × ((set_source s x).id ≡ x.id)
        × ((set_source s x).entry_size ≡ x.entry_size)
        × ((set_source s x).block ≡ x.block)
  unfolding set_source
  set_source_same tool_memory_ram x = (refl, refl, refl, refl)
  set_source_same tool_memory_disk x = (refl, refl, refl, refl)

  pub put_again-Inv :
      (m : ToolMemory R) (e : ToolMemoryEntry) (s : ToolMemorySource)
      → Inv rax m
      → deref addr_of e.entry_addr m.lru ≡ some e
      → Inv rax (put_again m e s)
  unfolding put_again
  put_again-Inv m e s i h =
      let same_addr = (set_source_same s e).0 in
      let sourced : Inv rax (record m { lru = modify addr_of e.entry_addr (set_source s) m.lru }) =
        Alike-Inv m (modify addr_of e.entry_addr (set_source s) m.lru) m.clock i (
          modified-Alike m e.entry_addr (set_source s) (λ x. (set_source_same s x).0)
            (λ x. (set_source_same s x).1) (λ x. (set_source_same s x).2)
            (λ x. (set_source_same s x).3) i) in
      touch-Inv (record m { lru = modify addr_of e.entry_addr (set_source s) m.lru })
        (set_source s e) sourced
        (ap (λ c. deref addr_of c (modify addr_of e.entry_addr (set_source s) m.lru)) same_addr
          ∙ deref-modify addr_of e.entry_addr (set_source s) m.lru e same_addr h)
