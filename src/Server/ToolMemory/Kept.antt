-- ===== src/Server/ToolMemory/Kept.antt =====
-- `tool_memory_put_locked` keeps the memory consistent and below its limits.
use go_ds.Common.{
  ℕ, ◌≡◌, ap, sym, ◌∙◌, false, none, some, same_bytes_refl, Bytes, arith, Bool-cases, Option-cases,
  inl, inr,
}
use go_ds.Server.ToolMemory.Store.{deref, deref-addr}
use go_ds.Server.ToolMemory.Keyed.{holder, deref-holder, holder-unlink}
use go_ds.Server.ToolMemory.{
  RadixTree, ToolMemorySource, ToolMemoryEntry, ToolMemory, addr_of, id_of, is_empty, over_limits,
  tool_memory_find_entry, tool_memory_remove_entry,
}
use go_ds.Server.ToolMemory.Put.{same_text, put_new, put_again, tool_memory_put}
use go_ds.Server.ToolMemory.Invariant.{Inv, remove_entry-Inv}
use go_ds.Server.ToolMemory.Prune.{prune-Inv, prune-below, remove_entry-lru}
use go_ds.Server.ToolMemory.Insert.{put_new-Inv}
use go_ds.Server.ToolMemory.Touch.{put_again-Inv}

module _ {R : Type 0} (rax : RadixTree R) where
  -- What the index gives for an id is the entry of the list with that id.
  pub find_entry-deref :
      (m : ToolMemory R) (id : Bytes) (e : ToolMemoryEntry)
      → Inv rax m
      → tool_memory_find_entry rax m id ≡ some e
      → (deref addr_of e.entry_addr m.lru ≡ some e) × (e.id ≡ id) × (is_empty id ≡ false)
  unfolding tool_memory_find_entry
  find_entry-deref m id e i h = elim (Bool-cases (is_empty id)) [
    | inl blank ↦ let h' = h in let h'' = (rw blank at h') in absurd (ground arith)
    | inr full ↦ elim (Option-cases (rax.find m.by_id id)) [
      | inl missing ↦
          let h' : none ≡ some e = (rw (full, tool_memory_find_entry, missing) at h) in
          absurd (ground arith)
      | inr (a, found) ↦
          let h' : deref addr_of a m.lru ≡ some e =
            (rw (full, tool_memory_find_entry, found) at h) in
          let (x, at, same) =
            deref-holder addr_of id_of a id m.lru i.ids_distinct (sym (i.ids_found id) ∙ found) in
          let q : x ≡ e = ground arith in
          let there = deref-addr addr_of a m.lru e h' in
          (ap (λ c. deref addr_of c m.lru) there ∙ h', ap (λ y. y.id) (sym q) ∙ same, full)
    ]
  ]

  find_entry-holder-none :
      (m : ToolMemory R) (id : Bytes)
      → is_empty id ≡ false
      → Inv rax m
      → tool_memory_find_entry rax m id ≡ none
      → holder addr_of id_of id m.lru ≡ none
  unfolding tool_memory_find_entry
  find_entry-holder-none m id full i h = elim (Option-cases (rax.find m.by_id id)) [
    | inl missing ↦ sym (i.ids_found id) ∙ missing
    | inr (a, found) ↦
        let h' : deref addr_of a m.lru ≡ none = (rw (full, tool_memory_find_entry, found) at h) in
        let (x, at, same) =
          deref-holder addr_of id_of a id m.lru i.ids_distinct (sym (i.ids_found id) ∙ found) in
        absurd (ground arith)
  ]

  -- The memory is consistent and below its limits, and so it is with one more text.
  pub tool_memory_put-Inv :
      (es bs : ℕ) (m : ToolMemory R) (id dsml : Bytes) (source : ToolMemorySource)
      → Inv rax m
      → over_limits m ≡ false
      → Inv rax (tool_memory_put rax es bs m id dsml source)
        × (over_limits (tool_memory_put rax es bs m id dsml source) ≡ false)
  unfolding tool_memory_put
  tool_memory_put-Inv es bs m id dsml source i below = elim (Bool-cases (is_empty id)) [
    | inl blank ↦ rw blank (i, below)
    | inr full ↦ elim (Bool-cases (is_empty dsml)) [
      | inl no_text ↦ rw (full, no_text) (i, below)
      | inr text ↦ elim (Option-cases (tool_memory_find_entry rax m id)) [
        | inl new ↦
            let put =
              put_new-Inv rax es bs m id dsml source text i
                (find_entry-holder-none m id full i new) in
            rw (full, text, new, tool_memory_put)
              (
                prune-Inv rax (put_new rax es bs m id dsml source) put,
                prune-below rax (put_new rax es bs m id dsml source) put,
              )
        | inr (e, old) ↦
            let (at, same, _) = find_entry-deref m id e i old in
            elim (Bool-cases (same_text m e dsml)) [
              | inl again ↦
                  let put = put_again-Inv rax m e source i at in
                  rw (full, text, old, tool_memory_put, again)
                    (
                      prune-Inv rax (put_again m e source) put,
                      prune-below rax (put_again m e source) put,
                    )
              | inr other ↦
                  let m' = tool_memory_remove_entry rax m e in
                  let removed = remove_entry-Inv rax m e i at in
                  let absent : holder addr_of id_of id m'.lru ≡ none =
                    ap (holder addr_of id_of id) (remove_entry-lru rax m e)
                    ∙ (holder-unlink addr_of id_of e.entry_addr id m.lru e i.ids_distinct at
                        ∙ (rw (same, same_bytes_refl id))) in
                  let put = put_new-Inv rax es bs m' id dsml source text removed absent in
                  rw (full, text, old, tool_memory_put, other)
                    (
                      prune-Inv rax (put_new rax es bs m' id dsml source) put,
                      prune-below rax (put_new rax es bs m' id dsml source) put,
                    )
            ]
      ]
    ]
  ]
