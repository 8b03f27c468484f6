-- ===== src/Server/ToolMemory/Prune.antt =====
-- `tool_memory_prune_locked`: the loop keeps the invariant and ends below both limits.
use go_ds.Common.{
  ℕ, zero, suc, ◌≡◌, ◌≤◌, refl, ap, ◌∙◌, false, none, some, List, [], ◌∷◌, length, All, ◌==◌, arith,
  Bool-cases, Option-cases, inl, inr,
}
use go_ds.Server.ToolMemory.Store.{deref, unlink, sum, length-unlink}
use go_ds.Server.ToolMemory.Keyed.{Apart, Distinct}
use go_ds.Server.ToolMemory.{
  RadixTree, ToolMemoryEntry, ToolMemoryBlock, ToolMemory, addr_of, id_of, last_entry, over_limits,
  tool_memory_max_entries, tool_memory_max_bytes, keep_block, drop_block, tool_memory_release_block,
  forget_entry, tool_memory_remove_entry, prune_rounds, tool_memory_prune,
}
use go_ds.Server.ToolMemory.Invariant.{Inv, Referenced, refs_at, points_at, remove_entry-Inv}

differs :
    (x : ToolMemoryEntry) (es : List ToolMemoryEntry) (e : ToolMemoryEntry)
    → All (Apart addr_of id_of x) es
    → deref addr_of e.entry_addr es ≡ some e
    → (x.entry_addr == e.entry_addr) ≡ false
unfolding deref
differs x [] e d h = cc
differs x (z ∷ es) e d h = elim (Bool-cases (z.entry_addr == e.entry_addr)) [
  | inl same ↦ let apart = d.0.0 in ground arith
  | inr other ↦
      let h' : deref addr_of e.entry_addr es ≡ some e = (rw other at h) in differs x es e d.1 h'
]

-- The tail is an entry of the list.
pub last-deref :
    (es : List ToolMemoryEntry) (e : ToolMemoryEntry)
    → Distinct addr_of id_of es
    → last_entry es ≡ some e
    → deref addr_of e.entry_addr es ≡ some e
unfolding last_entry deref
last-deref [] e d h = cc
last-deref (x ∷ []) e d h = ground arith
last-deref (x ∷ y ∷ es) e d h =
    let below = last-deref (y ∷ es) e d.1 h in
    let apart = differs x (y ∷ es) e d.0 below in ground arith

last_none : (es : List ToolMemoryEntry) → last_entry es ≡ none → es ≡ []
unfolding last_entry
last_none [] h = refl
last_none (x ∷ []) h = cc
last_none (x ∷ y ∷ es) h = let r = last_none (y ∷ es) h in absurd (ground arith)

length_zero : (es : List ToolMemoryEntry) → length es ≡ 0 → es ≡ []
length_zero [] h = refl
length_zero (x ∷ es) h = absurd (omega arith)

no_blocks :
    (bs : List ToolMemoryBlock) → All Referenced bs → ((a : ℕ) → sum (refs_at a) bs ≡ 0) → bs ≡ []
unfolding sum
no_blocks [] r h = refl
no_blocks (b ∷ bs) r h = let zero_refs = h b.block_addr in absurd (ground arith)

module _ {R : Type 0} (rax : RadixTree R) where
  release_block-lru : (m : ToolMemory R) (a : ℕ) → (tool_memory_release_block rax m a).lru ≡ m.lru
  unfolding tool_memory_release_block keep_block drop_block
  release_block-lru m a = ground arith

  pub remove_entry-lru :
      (m : ToolMemory R) (e : ToolMemoryEntry)
      → (tool_memory_remove_entry rax m e).lru ≡ unlink addr_of e.entry_addr m.lru
  unfolding tool_memory_remove_entry forget_entry
  remove_entry-lru m e = release_block-lru (forget_entry rax m e) e.block

  empty_below_limits : (m : ToolMemory R) → Inv rax m → m.lru ≡ [] → over_limits m ≡ false
  unfolding sum tool_memory_max_entries tool_memory_max_bytes
  empty_below_limits m i h =
      let zero_refs : (a : ℕ) → sum (refs_at a) m.blocks ≡ 0 =
        (λ a. i.refs_counted a ∙ ap (sum (points_at a)) h) in
      let none_left = no_blocks m.blocks i.referenced zero_refs in
      let counted = i.counted in let accounted = i.accounted in ground arith

  pub prune_rounds-Inv :
      (rounds : ℕ) (m : ToolMemory R) → Inv rax m → Inv rax (prune_rounds rax rounds m)
  unfolding prune_rounds
  prune_rounds-Inv zero m i = i
  prune_rounds-Inv (suc rounds) m i = elim (Option-cases (last_entry m.lru)) [
    | inl no_tail ↦ rw (no_tail, prune_rounds) i
    | inr (e, tail) ↦
        let at = last-deref m.lru e i.ids_distinct tail in
        let rest =
          prune_rounds-Inv rounds (tool_memory_remove_entry rax m e)
            (remove_entry-Inv rax m e i at) in
        elim (Bool-cases (over_limits m)) [
          | inl over ↦ rw (tail, prune_rounds, over) rest
          | inr below ↦ rw (tail, prune_rounds, below) i
        ]
  ]

  prune_rounds-below :
      (rounds : ℕ) (m : ToolMemory R)
      → Inv rax m
      → length m.lru ≤ rounds
      → over_limits (prune_rounds rax rounds m) ≡ false
  unfolding prune_rounds
  prune_rounds-below zero m i f = empty_below_limits m i (length_zero m.lru (omega arith))
  prune_rounds-below (suc rounds) m i f = elim (Option-cases (last_entry m.lru)) [
    | inl no_tail ↦ rw (no_tail, prune_rounds) (empty_below_limits m i (last_none m.lru no_tail))
    | inr (e, tail) ↦
        let at = last-deref m.lru e i.ids_distinct tail in
        let shorter = length-unlink addr_of e.entry_addr m.lru e at in
        let fewer : length (tool_memory_remove_entry rax m e).lru ≤ rounds =
          (rw (remove_entry-lru m e) (omega arith)) in
        let rest =
          prune_rounds-below rounds (tool_memory_remove_entry rax m e)
            (remove_entry-Inv rax m e i at) fewer in
        elim (Bool-cases (over_limits m)) [
          | inl over ↦ rw (tail, prune_rounds, over) rest
          | inr below ↦ rw (tail, prune_rounds, below) below
        ]
  ]

  pub prune-Inv : (m : ToolMemory R) → Inv rax m → Inv rax (tool_memory_prune rax m)
  unfolding tool_memory_prune
  prune-Inv m i = prune_rounds-Inv (length m.lru) m i

  pub prune-below : (m : ToolMemory R) → Inv rax m → over_limits (tool_memory_prune rax m) ≡ false
  unfolding tool_memory_prune
  prune-below m i = prune_rounds-below (length m.lru) m i (omega arith)
