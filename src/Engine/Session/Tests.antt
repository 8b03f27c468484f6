-- ===== src/Engine/Session/Tests.antt =====
-- Tests and examples of sessions, over a graph that is the list of its tokens and that fails at
-- the token 9.
use go_ds.Common.{ℕ, ◌≡◌, refl, ap, true, false, not, none, some, List, [], ◌∷◌, ◌++◌, length, ◌==◌}
use go_ds.Engine.Session.{
  Graph, Session, ds4_session_sync, ds4_session_eval, extend_checkpoint, rebuild_checkpoint,
  eval_tokens, ds4_tokens_starts_with, same_tokens, decode_failed, give_up,
}
use go_ds.Engine.Session.Sync.{
  Rows, IsCurrent, At, created, synced, evaluated, ds4_session_sync-At, Reach-IsCurrent,
}

abbrev tokens_graph : Graph (List ℕ)
tokens_graph = record {
  eval_token = λ g t pos. (g ++ (t ∷ []), not (t == 9));
  prefill_chunked_range =
      λ g prompt start count. record { graph = prompt; ok = true; reports = length prompt ∷ [] };
  prefill_chunked = λ g prompt. record { graph = prompt; ok = true; reports = length prompt ∷ [] };
  prefill_raw = λ g prompt. record { graph = prompt; ok = true; reports = [] };
  forget_draft = λ g. g;
}

abbrev Holds : List ℕ → List ℕ → Type 0
Holds g ts = g ≡ ts

tokens_rows : Rows tokens_graph Holds
tokens_rows = record {
  eval_rows = λ gr ts t h ok. ap (λ g. g ++ (t ∷ [])) h;
  range_rows = λ gr prompt start count h e ok. refl;
  chunked_rows = λ gr prompt ok. refl;
  raw_rows = λ gr prompt ok. refl;
  draft_rows = λ gr ts h. h;
}

abbrev session : Session (List ℕ)
session = record {
  graph = 1 ∷ 2 ∷ [];
  checkpoint = 1 ∷ 2 ∷ [];
  checkpoint_valid = true;
  mtp_draft_valid = true;
  ctx_size = 100;
  prefill_cap = 4;
  progress = true;
}

abbrev unused : Session (List ℕ)
unused = (record session { graph = []; checkpoint = []; checkpoint_valid = false })

session-IsCurrent : IsCurrent tokens_graph Holds tokens_rows session
session-IsCurrent = λ valid. refl

short_suffix : ds4_session_sync tokens_graph 32 session (1 ∷ 2 ∷ 3 ∷ []) ≡ (
  (record session { graph = 1 ∷ 2 ∷ 3 ∷ []; checkpoint = 1 ∷ 2 ∷ 3 ∷ []; mtp_draft_valid = false }),
  none,
)
unfolding ds4_session_sync extend_checkpoint eval_tokens ds4_tokens_starts_with same_tokens
short_suffix = refl

-- the failing token ends the checkpoint
failing_suffix : (ds4_session_sync tokens_graph 32 session (1 ∷ 2 ∷ 9 ∷ [])).1 ≡ some decode_failed
unfolding ds4_session_sync extend_checkpoint eval_tokens ds4_tokens_starts_with same_tokens give_up
failing_suffix = refl

ds4_session_sync-At_example :
    At tokens_graph Holds tokens_rows
      (ds4_session_sync tokens_graph 32 session (1 ∷ 2 ∷ 3 ∷ [])).0
      (1 ∷ 2 ∷ 3 ∷ [])
ds4_session_sync-At_example =
    ds4_session_sync-At tokens_graph Holds tokens_rows 32 session (1 ∷ 2 ∷ 3 ∷ []) session-IsCurrent
      (ap (λ o. o.1) short_suffix)

-- a new session, synced to two tokens, and a third one evaluated
abbrev used : Session (List ℕ)
used = (ds4_session_eval tokens_graph (ds4_session_sync tokens_graph 32 unused (1 ∷ 2 ∷ [])).0 7).0

used_valid : used.checkpoint_valid ≡ true
unfolding ds4_session_eval ds4_session_sync rebuild_checkpoint
used_valid = refl

Reach-IsCurrent_example : Holds used.graph used.checkpoint
Reach-IsCurrent_example =
    Reach-IsCurrent tokens_graph Holds tokens_rows used
      (evaluated (ds4_session_sync tokens_graph 32 unused (1 ∷ 2 ∷ [])).0 7
        (synced 32 unused (1 ∷ 2 ∷ []) (created unused refl)))
      used_valid
