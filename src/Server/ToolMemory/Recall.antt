-- ===== src/Server/ToolMemory/Recall.antt =====
-- `tool_memory_lookup_locked`: a lookup moves the entry it finds, and changes no other's block.
use go_ds.Common.{
  ℕ, ◌≡◌, refl, ap, sym, subst, ◌∙◌, true, false, Option, none, some, List, ◌==◌, Bytes, arith,
  Bool-cases, Option-cases, inl, inr,
}
use go_ds.Server.ToolMemory.Store.{deref, deref-modify, deref-modify_other, deref-unlink_other}
use go_ds.Server.ToolMemory.Keyed.{holder, Distinct, holder-deref}
use go_ds.Server.ToolMemory.{
  RadixTree, ToolMemoryEntry, ToolMemoryBlock, ToolMemory, addr_of, block_at, text_of, is_empty,
  is_head, stamp_with, tick, tool_memory_find_entry, tool_memory_touch,
}
use go_ds.Server.ToolMemory.Put.{Lookup, tool_memory_lookup}
use go_ds.Server.ToolMemory.Invariant.{Inv}
use go_ds.Server.ToolMemory.Touch.{touch-Inv}
use go_ds.Server.ToolMemory.Kept.{find_entry-deref}

unfoldable pub block_of : Option ToolMemoryEntry → Option ℕ
block_of none = none
block_of (some e) = some e.block

unfoldable pub text_at : List ToolMemoryBlock → Option ℕ → Option Bytes
text_at bs none = none
text_at bs (some a) = elim (deref block_at a bs) [ none ↦ none | some b ↦ some b.dsml ]

-- the block at an address is the one of its text
block-holder :
    (bs : List ToolMemoryBlock) (a : ℕ) (d : Bytes)
    → Distinct block_at text_of bs
    → text_at bs (some a) ≡ some d
    → holder block_at text_of d bs ≡ some a
unfolding text_at
block-holder bs a d apart h = elim (Option-cases (deref block_at a bs)) [
  | inl gone ↦ let h' : none ≡ some d = (rw (gone, text_at) at h) in absurd (ground arith)
  | inr (b, there) ↦
      let h' : some b.dsml ≡ some d = (rw (there, text_at) at h) in
      let q : b.dsml ≡ d = ground arith in
      ap (λ x. holder block_at text_of x bs) (sym q)
      ∙ holder-deref block_at text_of a bs b apart there
]

module _ {R : Type 0} (rax : RadixTree R) where
  -- the block of an id, and its text, read without moving the entry
  abbrev pub block_for : ToolMemory R → Bytes → Option ℕ
  block_for m id = block_of (tool_memory_find_entry rax m id)

  abbrev pub recalled : ToolMemory R → Bytes → Option Bytes
  recalled m id = text_at m.blocks (block_for m id)

  touch-by_id : (m : ToolMemory R) (e : ToolMemoryEntry) → (tool_memory_touch m e).by_id ≡ m.by_id
  unfolding tool_memory_touch
  touch-by_id m e = refl

  touch-blocks :
      (m : ToolMemory R) (e : ToolMemoryEntry) → (tool_memory_touch m e).blocks ≡ m.blocks
  unfolding tool_memory_touch
  touch-blocks m e = refl

  touch-block :
      (m : ToolMemory R) (e : ToolMemoryEntry) (a : ℕ)
      → deref addr_of e.entry_addr m.lru ≡ some e
      → block_of (deref addr_of a (tool_memory_touch m e).lru) ≡ block_of (deref addr_of a m.lru)
  unfolding tool_memory_touch block_of deref
  touch-block m e a h =
      let f = stamp_with (tick m.clock) in
      let k = e.entry_addr in
      elim (Bool-cases (is_head e m.lru)) [
        | inl head ↦ elim (Bool-cases (a == k)) [
          | inl here ↦
              let q : a ≡ k = ground arith in
              rw (head, q, deref-modify addr_of k f m.lru e refl h, h)
          | inr other ↦ rw (head, deref-modify_other addr_of k a f m.lru (λ x. refl) other)
        ]
        | inr behind ↦ elim (Bool-cases (a == k)) [
          | inl here ↦
              let q : a ≡ k = ground arith in
              let self : (k == k) ≡ true = ground arith in rw (behind, q, self, h)
          | inr other ↦
              let turned : (k == a) ≡ false = ground arith in
              rw (behind, turned, deref-unlink_other addr_of k a m.lru other)
        ]
      ]

  pub touch-block_for :
      (m : ToolMemory R) (e : ToolMemoryEntry) (id : Bytes)
      → deref addr_of e.entry_addr m.lru ≡ some e
      → block_for (tool_memory_touch m e) id ≡ block_for m id
  unfolding tool_memory_find_entry block_of
  touch-block_for m e id h = elim (Bool-cases (is_empty id)) [
    | inl blank ↦ rw blank
    | inr full ↦ elim (Option-cases (rax.find m.by_id id)) [
      | inl missing ↦ rw (full, touch-by_id m e, missing)
      | inr (a, found) ↦ rw (full, touch-by_id m e, found) (touch-block m e a h)
    ]
  ]

  -- the memory behind a lookup answers like the one before
  pub record Unmoved (m m' : ToolMemory R) : Type 0 where
    pub consistent : Inv rax m'
    pub same_blocks : m'.blocks ≡ m.blocks
    pub same_answers : (id : Bytes) → block_for m' id ≡ block_for m id

  pub lookup-Unmoved :
      (m : ToolMemory R) (id : Bytes) (l : Lookup R)
      → Inv rax m
      → tool_memory_lookup rax m id ≡ some l
      → Unmoved m l.memory × (block_for m id ≡ some l.block) × (recalled m id ≡ some l.dsml)
  unfolding tool_memory_lookup block_of text_at
  lookup-Unmoved m id l i h = elim (Option-cases (tool_memory_find_entry rax m id)) [
    | inl missing ↦
        let h' : none ≡ some l = (rw (missing, tool_memory_lookup) at h) in absurd (ground arith)
    | inr (e, found) ↦ elim (Option-cases (deref block_at e.block m.blocks)) [
      | inl gone ↦
          let h' : none ≡ some l = (rw (found, tool_memory_lookup, gone) at h) in
          absurd (ground arith)
      | inr (b, there) ↦
          let (at, _, _) = find_entry-deref rax m id e i found in
          let r : Lookup R = record {
            memory = tool_memory_touch m e;
            dsml = b.dsml;
            source = e.source;
            block = e.block;
          } in
          let h' : some r ≡ some l = (rw (found, tool_memory_lookup, there) at h) in
          let q : r ≡ l = ground arith in
          let moved : Unmoved m r.memory = record {
            consistent = touch-Inv rax m e i at;
            same_blocks = touch-blocks m e;
            same_answers = λ k. touch-block_for m e k at;
          } in
          (
            subst (λ x. Unmoved m x.memory) q moved,
            rw found (ap (λ x. some x.block) q),
            rw (found, block_of, text_at, there) (ap (λ x. some x.dsml) q),
          )
    ]
  ]

  -- no entry, or one without a block
  pub lookup-none :
      (m : ToolMemory R) (id : Bytes) → tool_memory_lookup rax m id ≡ none → recalled m id ≡ none
  unfolding tool_memory_lookup block_of text_at
  lookup-none m id h = elim (Option-cases (tool_memory_find_entry rax m id)) [
    | inl missing ↦ rw missing
    | inr (e, found) ↦ elim (Option-cases (deref block_at e.block m.blocks)) [
      | inl gone ↦ rw (found, block_of, text_at, gone)
      | inr (b, there) ↦
          let h' : some _ ≡ none = (rw (found, tool_memory_lookup, there) at h) in
          absurd (ground arith)
    ]
  ]

  -- one text is one block
  pub same_text-block :
      (m : ToolMemory R) (a b : ℕ) (d : Bytes)
      → Inv rax m
      → text_at m.blocks (some a) ≡ some d
      → text_at m.blocks (some b) ≡ some d
      → a ≡ b
  same_text-block m a b d i h k =
      let at = block-holder m.blocks a d i.texts_distinct h in
      let there = block-holder m.blocks b d i.texts_distinct k in ground arith
