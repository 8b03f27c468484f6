-- ===== src/Server/ToolMemory/Exact.antt =====
-- `tool_memory_attach_to_messages`: when a message gets the text that the model sampled.
use go_ds.Common.{
  ℕ, ◌≡◌, ◌↔◌, refl, ap, sym, ◌∙◌, true, false, Option, none, some, List, [], ◌∷◌, map, All, ◌==◌,
  if◌then◌else◌, Bytes, arith, Option-cases, ◌⊎◌, inl, inr,
}
use go_ds.Server.ToolMemory.{RadixTree, ToolMemory, tool_memory_disk}
use go_ds.Server.ToolMemory.Put.{Lookup, tool_memory_lookup}
use go_ds.Server.ToolMemory.Attach.{
  ToolCall, call_id, Match, match_block, matched_text, match_call, match_calls, match_message,
  needs_text, attach_calls,
}
use go_ds.Server.ToolMemory.Invariant.{Inv}
use go_ds.Server.ToolMemory.Recall.{
  text_at, block_for, recalled, Unmoved, lookup-Unmoved, lookup-none, same_text-block,
}

module _ {R : Type 0} (rax : RadixTree R) where
  Unmoved-trans : (m n o : ToolMemory R) → Unmoved rax m n → Unmoved rax n o → Unmoved rax m o
  Unmoved-trans m n o u v = record {
    consistent = v.consistent;
    same_blocks = v.same_blocks ∙ u.same_blocks;
    same_answers = λ k. v.same_answers k ∙ u.same_answers k;
  }

  recalled-Unmoved :
      (m n : ToolMemory R) (id : Bytes) → Unmoved rax m n → recalled rax n id ≡ recalled rax m id
  recalled-Unmoved m n id u =
      ap (λ b. text_at b (block_for rax n id)) u.same_blocks
      ∙ ap (text_at m.blocks) (u.same_answers id)

  -- what a lookup says of the memory that the loop began with
  looked_up :
      (m n : ToolMemory R) (id : Bytes) (l : Lookup R)
      → Unmoved rax m n
      → tool_memory_lookup rax n id ≡ some l
      → Unmoved rax m l.memory × (recalled rax m id ≡ text_at m.blocks (some l.block))
  looked_up m n id l u h =
      let (v, block, _) = lookup-Unmoved rax n id l u.consistent h in
      (Unmoved-trans m n l.memory u v, ap (text_at m.blocks) (sym (u.same_answers id) ∙ block))

  abbrev Matches : ToolMemory R → Bytes → Option ℕ → Type 0
  Matches m d o = (o ≡ none) ⊎ (text_at m.blocks o ≡ some d)

  match_call-memory :
      (m : ToolMemory R) (st : Match R) (id : Bytes)
      → Unmoved rax m st.memory
      → Unmoved rax m (match_call rax st id).memory
  unfolding match_call match_block
  match_call-memory m st id u = elim (Option-cases (tool_memory_lookup rax st.memory id)) [
    | inl missing ↦ rw (missing, match_call) u
    | inr (l, found) ↦
        let v = (looked_up m st.memory id l u found).0 in
        elim (Option-cases st.matched) [
          | inl first ↦ rw (found, match_call, match_block, first) v
          | inr (b, old) ↦ rw (found, match_call, match_block, old) v
        ]
  ]

  -- a call that keeps the match exact
  match_call-exact :
      (m : ToolMemory R) (st : Match R) (id d : Bytes)
      → Unmoved rax m st.memory
      → (match_call rax st id).exact ≡ true
      → Matches m d (match_call rax st id).matched
      → (st.exact ≡ true) × Matches m d st.matched × (recalled rax m id ≡ some d)
  unfolding match_call match_block
  match_call-exact m st id d u exact matches =
      elim (Option-cases (tool_memory_lookup rax st.memory id)) [
        | inl missing ↦
            let e : false ≡ true = (rw (missing, match_call) at exact) in absurd (ground arith)
        | inr (l, found) ↦
            let r = (looked_up m st.memory id l u found).1 in
            elim (Option-cases st.matched) [
              | inl first ↦
                  let e : st.exact ≡ true = (rw (found, match_call, match_block, first) at exact) in
                  let k : Matches m d (some l.block) =
                    (rw (found, match_call, match_block, first) at matches) in
                  (e, inl first, ground arith)
              | inr (b, old) ↦
                  let e : (if b == l.block then st.exact else false) ≡ true =
                    (rw (found, match_call, match_block, old) at exact) in
                  let k : Matches m d (some b) =
                    (rw (found, match_call, match_block, old) at matches) in
                  let same : b ≡ l.block = ground arith in
                  let here = ap (λ x. text_at m.blocks (some x)) same in
                  (ground arith, ground arith, ground arith)
            ]
      ]

  -- a call whose text is `d`
  match_call-same :
      (m : ToolMemory R) (st : Match R) (id d : Bytes)
      → Inv rax m
      → Unmoved rax m st.memory
      → recalled rax m id ≡ some d
      → Matches m d st.matched
      → ((match_call rax st id).exact ≡ st.exact)
        × (text_at m.blocks (match_call rax st id).matched ≡ some d)
  unfolding match_call match_block
  match_call-same m st id d i u same matches =
      elim (Option-cases (tool_memory_lookup rax st.memory id)) [
        | inl missing ↦
            let lost = lookup-none rax st.memory id missing in
            let r = recalled-Unmoved m st.memory id u in absurd (ground arith)
        | inr (l, found) ↦
            let r = sym (looked_up m st.memory id l u found).1 ∙ same in
            elim (Option-cases st.matched) [
              | inl first ↦ rw (found, match_call, match_block, first) (refl, r)
              | inr (b, old) ↦
                  let k : Matches m d (some b) = (rw old at matches) in
                  let k' : text_at m.blocks (some b) ≡ some d = ground arith in
                  let one : b ≡ l.block = same_text-block rax m b l.block d i k' r in
                  let test : (b == l.block) ≡ true = ground arith in
                  rw (found, match_call, match_block, old, test) (refl, k')
            ]
      ]

  abbrev Recalls : ToolMemory R → Bytes → Bytes → Type 0
  Recalls m d id = recalled rax m id ≡ some d

  matched_text-some :
      (m : ToolMemory R) (st : Match R) (d : Bytes)
      → Unmoved rax m st.memory
      → matched_text st ≡ some d
      → (st.exact ≡ true) × (text_at m.blocks st.matched ≡ some d)
  unfolding matched_text text_at
  matched_text-some m st d u h = let same = u.same_blocks in ground arith

  some-matched_text :
      (m : ToolMemory R) (st : Match R) (d : Bytes)
      → Unmoved rax m st.memory
      → st.exact ≡ true
      → text_at m.blocks st.matched ≡ some d
      → matched_text st ≡ some d
  unfolding matched_text text_at
  some-matched_text m st d u e h = let same = u.same_blocks in ground arith

  match_calls-exact :
      (m : ToolMemory R) (st : Match R) (ids : List Bytes) (d : Bytes)
      → Unmoved rax m st.memory
      → matched_text (match_calls rax st ids) ≡ some d
      → (st.exact ≡ true) × Matches m d st.matched × All (Recalls m d) ids
  unfolding match_calls
  match_calls-exact m st [] d u h = let (e, t) = matched_text-some m st d u h in (e, inr t, tt)
  match_calls-exact m st (id ∷ ids) d u h =
      let st' = match_call rax st id in
      let (e, t, rest) = match_calls-exact m st' ids d (match_call-memory m st id u) h in
      let (e', t', here) = match_call-exact m st id d u e t in (e', t', (here, rest))

  match_calls-same :
      (m : ToolMemory R) (st : Match R) (ids : List Bytes) (d : Bytes)
      → Inv rax m
      → Unmoved rax m st.memory
      → st.exact ≡ true
      → text_at m.blocks st.matched ≡ some d
      → All (Recalls m d) ids
      → matched_text (match_calls rax st ids) ≡ some d
  unfolding match_calls
  match_calls-same m st [] d i u e t h = some-matched_text m st d u e t
  match_calls-same m st (id ∷ ids) d i u e t h =
      let (e', t') = match_call-same m st id d i u h.0 (inr t) in
      match_calls-same m (match_call rax st id) ids d i (match_call-memory m st id u) (e' ∙ e) t'
        h.1

  untouched : (m : ToolMemory R) → Inv rax m → Unmoved rax m m
  untouched m i = record { consistent = i; same_blocks = refl; same_answers = λ k. refl }

  -- For a consistent memory and a message with calls and no text yet: the message gets the text `d`
  -- exactly when the memory has the text `d` for the id of each of its calls.
  pub attach_calls-raw_dsml :
      (m : ToolMemory R) (c : ToolCall) (cs : List ToolCall) (d : Bytes)
      → Inv rax m
      → ((attach_calls rax m (record { v = c ∷ cs; raw_dsml = none })).raw_dsml ≡ some d)
        ↔ All (Recalls m d) (map call_id (c ∷ cs))
  unfolding attach_calls needs_text match_message match_calls
  attach_calls-raw_dsml m c cs d i =
      let st : Match R = record {
        memory = m;
        matched = none;
        matched_source = tool_memory_disk;
        exact = true;
        missing = 0;
      } in
      let u = untouched m i in
      let ids = map call_id cs in
      (
        λ h. (match_calls-exact m st (c.id ∷ ids) d u h).2,
        λ h.
            let (e, t) = match_call-same m st c.id d i u h.0 (inl refl) in
            match_calls-same m (match_call rax st c.id) ids d i (match_call-memory m st c.id u) e t
              h.1,
      )
