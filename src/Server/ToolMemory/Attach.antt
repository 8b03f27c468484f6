-- ===== src/Server/ToolMemory/Attach.antt =====
-- ds4_server.c: `tool_memory_attach_to_messages`, `tool_calls_contains_id`, `assign_tool_call_ids`
-- and the list of the ids that a conversation names. The caller's `stats` are always given.
use go_ds.Common.{
  ℕ, zero, suc, ◌+◌, ◌==◌, Bool, true, false, not, ◌&&◌, ◌||◌, Option, none, some, List, [], ◌∷◌,
  ◌++◌, length, map, if◌then◌else◌, same_bytes, Bytes,
}
use go_ds.Server.ToolMemory.Store.{deref}
use go_ds.Server.ToolMemory.{
  RadixTree, ToolMemorySource, tool_memory_ram, tool_memory_disk, ToolMemory, block_at, is_empty,
}
use go_ds.Server.ToolMemory.Put.{ToolServer, Lookup, tool_memory_lookup, tool_memory_has_id}

pub record ToolCall : Type 0 where
  pub id : Bytes
  pub name : Bytes
  pub arguments : Bytes

pub record ToolCalls : Type 0 where
  pub v : List ToolCall
  pub raw_dsml : Option Bytes

pub record ChatMsg : Type 0 where
  pub role : Bytes
  pub content : Bytes
  pub reasoning : Bytes
  pub tool_call_id : Bytes
  pub calls : ToolCalls

pub record ToolReplayStats : Type 0 where
  pub mem : ℕ
  pub disk : ℕ
  pub canonical : ℕ
  pub missing_ids : ℕ

abbrev pub call_id : ToolCall → Bytes
call_id c = c.id

-- the variables of the loop over the calls of a message
pub record Match (R : Type 0) : Type 0 where
  pub memory : ToolMemory R
  pub matched : Option ℕ
  pub matched_source : ToolMemorySource
  pub exact : Bool
  pub missing : ℕ

unfoldable pub ram_wins : ToolMemorySource → ToolMemorySource → ToolMemorySource
ram_wins tool_memory_ram s = tool_memory_ram
ram_wins tool_memory_disk s = s

unfoldable pub is_ram : ToolMemorySource → Bool
is_ram tool_memory_ram = true
is_ram tool_memory_disk = false

module _ {R : Type 0} where
  unfoldable pub match_block : Match R → Lookup R → Match R
  match_block st l = elim st.matched [
    | none ↦ record {
      memory = l.memory;
      matched = some l.block;
      matched_source = ram_wins l.source l.source;
      exact = st.exact;
      missing = st.missing;
    }
    | some b ↦ record {
      memory = l.memory;
      matched = some b;
      matched_source = ram_wins l.source st.matched_source;
      exact = if b == l.block then st.exact else false;
      missing = st.missing;
    }
  ]

  -- the text of the block that matched
  unfoldable pub matched_text : Match R → Option Bytes
  matched_text st =
      if st.exact
      then elim st.matched [
        | none ↦ none
        | some b ↦ elim (deref block_at b st.memory.blocks) [ none ↦ none | some x ↦ some x.dsml ]
      ]
      else none

module _ {R : Type 0} (rax : RadixTree R) where
  unfoldable pub match_call : Match R → Bytes → Match R
  match_call st id = elim (tool_memory_lookup rax st.memory id) [
    | none ↦ (record st { exact = false; missing = st.missing + 1 })
    | some l ↦ match_block st l
  ]

  unfoldable pub match_calls : Match R → List Bytes → Match R
  match_calls st [] = st
  match_calls st (id ∷ ids) = match_calls (match_call st id) ids

  unfoldable pub match_message : ToolMemory R → ToolCalls → Match R
  match_message m calls =
      match_calls
        (record {
          memory = m;
          matched = none;
          matched_source = tool_memory_disk;
          exact = true;
          missing = 0;
        })
        (map call_id calls.v)

  -- there is nothing to attach to a message without calls, or with its text
  unfoldable pub needs_text : ToolCalls → Bool
  needs_text calls = elim calls.v [
    | [] ↦ false
    | c ∷ cs ↦ elim calls.raw_dsml [ none ↦ true | some text ↦ false ]
  ]

  unfoldable pub count_replay : Match R → ToolReplayStats → ToolReplayStats
  count_replay st stats = elim (matched_text st) [
    | none ↦ (record stats {
      canonical = stats.canonical + 1;
      missing_ids = stats.missing_ids + st.missing;
    })
    | some text ↦
        if is_ram st.matched_source
        then (record stats { mem = stats.mem + 1 })
        else (record stats { disk = stats.disk + 1 })
  ]

  unfoldable pub attach_calls : ToolMemory R → ToolCalls → ToolCalls
  attach_calls m calls =
      if needs_text calls
      then (record calls { raw_dsml = matched_text (match_message m calls) })
      else calls

  unfoldable pub attach_messages :
      ToolMemory R → List ChatMsg → ToolReplayStats → ToolMemory R × List ChatMsg × ToolReplayStats
  attach_messages m [] stats = (m, [], stats)
  attach_messages m (msg ∷ msgs) stats =
      let here = match_message m msg.calls in
      let m' = if needs_text msg.calls then here.memory else m in
      let rest =
        attach_messages m' msgs (if needs_text msg.calls then count_replay here stats else stats) in
      (rest.0, (record msg { calls = attach_calls m msg.calls }) ∷ rest.1, rest.2)

  -- without the exact replay, each message with calls counts as written anew
  unfoldable pub count_canonical : List ChatMsg → ToolReplayStats → ToolReplayStats
  count_canonical [] stats = stats
  count_canonical (msg ∷ msgs) stats = count_canonical msgs (
      if needs_text msg.calls
      then (record stats {
        canonical = stats.canonical + 1;
        missing_ids = stats.missing_ids + length msg.calls.v;
      })
      else stats)

  unfoldable pub tool_memory_attach_to_messages :
      ToolServer R → List ChatMsg → ToolReplayStats → ToolServer R × List ChatMsg × ToolReplayStats
  tool_memory_attach_to_messages s msgs stats =
      if s.disable_exact_dsml_tool_replay
      then (s, msgs, count_canonical msgs stats)
      else let r = attach_messages s.tool_mem msgs stats in
        ((record s { tool_mem = r.0 }), r.1, r.2)

-- among the first `upto` calls
unfoldable pub tool_calls_contains_id : List ToolCall → Bytes → ℕ → Bool
tool_calls_contains_id [] id upto = false
tool_calls_contains_id (c ∷ cs) id zero = false
tool_calls_contains_id (c ∷ cs) id (suc upto) =
    (not (is_empty id) && same_bytes c.id id) || tool_calls_contains_id cs id upto

unfoldable pub id_list_contains : List Bytes → Bytes → Bool
id_list_contains [] id = false
id_list_contains (x ∷ ids) id = (not (is_empty id) && same_bytes x id) || id_list_contains ids id

unfoldable pub id_list_push_unique : List Bytes → Bytes → List Bytes
id_list_push_unique ids id =
    if is_empty id || id_list_contains ids id then ids else ids ++ (id ∷ [])

unfoldable pub collect_ids : List ToolCall → List Bytes → List Bytes
collect_ids [] ids = ids
collect_ids (c ∷ cs) ids = collect_ids cs (id_list_push_unique ids c.id)

unfoldable pub collect_tool_call_ids : List ChatMsg → List Bytes → List Bytes
collect_tool_call_ids [] ids = ids
collect_tool_call_ids (msg ∷ msgs) ids = collect_tool_call_ids msgs (collect_ids msg.calls.v ids)

-- `random_tool_id` is read off the list `random`, an id for each turn of the loop; none where it
-- ends before an id is new.
module _ {R : Type 0} (rax : RadixTree R) where
  unfoldable pub new_tool_id :
      ToolServer R → List ToolCall → List Bytes → Option (Bytes × List Bytes)
  new_tool_id s done [] = none
  new_tool_id s done (id ∷ random) =
      let again = new_tool_id s done random in
      if not (tool_calls_contains_id done id (length done)) && not (tool_memory_has_id rax s id)
      then some (id, random)
      else again

  -- `done` are the calls before, with their ids
  unfoldable pub assign_tool_call_ids :
      ToolServer R → List ToolCall → List ToolCall → List Bytes → Option (List ToolCall)
  assign_tool_call_ids s done [] random = some done
  assign_tool_call_ids s done (c ∷ cs) random =
      if is_empty c.id
      then elim (new_tool_id s done random) [
        | none ↦ none
        | some (id, rest) ↦ assign_tool_call_ids s (done ++ ((record c { id = id }) ∷ [])) cs rest
      ]
      else assign_tool_call_ids s (done ++ (c ∷ [])) cs random
