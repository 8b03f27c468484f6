-- ===== src/Engine/Session.antt =====
-- ds4.c: a session (`ds4_session_*`), the tokens that the graph has been brought to. The evaluation
-- of tokens on the graph is an interface with the program's tensor code behind it: each call gives
-- the graph behind it, whether it went well, and the token counts that it reports on the way.
pub mod Sync
pub mod Prefix
mod Tests
use go_ds.Common.{
  ℕ, suc, ◌-◌, Bool, true, false, not, ◌&&◌, ◌||◌, Option, none, some, List, [], ◌∷◌, ◌++◌, length,
  take, drop, ltb, leb, ◌==◌, if◌then◌else◌,
}

pub record Prefill (G : Type 0) : Type 0 where
  pub graph : G
  pub ok : Bool
  pub reports : List ℕ

-- The calls of the graph.
pub record Graph (G : Type 0) : Type 0 where
  pub eval_token : G → (token pos : ℕ) → G × Bool
  pub prefill_chunked_range : G → List ℕ → (start count : ℕ) → Prefill G
  pub prefill_chunked : G → List ℕ → Prefill G
  pub prefill_raw : G → List ℕ → Prefill G
  -- `mtp_n_raw = 0`
  pub forget_draft : G → G

pub record Session (G : Type 0) : Type 0 where
  pub graph : G
  pub checkpoint : List ℕ
  pub checkpoint_valid : Bool
  pub mtp_draft_valid : Bool
  pub ctx_size : ℕ
  pub prefill_cap : ℕ
  -- whether a callback for the progress is set
  pub progress : Bool

pub data SyncError : Type 0 where
  prompt_exceeds_context : SyncError
  resumed_prefill_failed : SyncError
  decode_failed : SyncError
  prefill_failed : SyncError

-- the session behind a call and the error, if there is one
abbrev pub Outcome : Type 0 → Type 0
Outcome G = Session G × Option SyncError

-- `ds4_tokens_starts_with`, whose loop reads both lists at one index
unfoldable pub same_tokens : List ℕ → List ℕ → Bool
same_tokens (t ∷ tokens) (p ∷ prefix) = if t == p then same_tokens tokens prefix else false
same_tokens _ [] = true
same_tokens [] (p ∷ prefix) = false

unfoldable pub ds4_tokens_starts_with : List ℕ → List ℕ → Bool
ds4_tokens_starts_with tokens prefix =
    if ltb (length tokens) (length prefix) then false else same_tokens tokens prefix

-- the loop of `ds4_session_common_prefix`
unfoldable pub common_len : List ℕ → List ℕ → ℕ
common_len (t ∷ a) (p ∷ b) = let more = common_len a b in if t == p then suc more else 0
common_len _ _ = 0

module _ {G : Type 0} where
  -- a report of `ds4_session_note_prefill_progress` about a chunk
  unfoldable pub note_progress : List ℕ → Session G → ℕ → Session G
  note_progress prompt s current =
      if ltb 0 current && leb current (length prompt)
      then (record s {
        checkpoint = take current prompt;
        checkpoint_valid = true;
        mtp_draft_valid = false;
      })
      else s

  unfoldable pub note_reports : List ℕ → Session G → List ℕ → Session G
  note_reports prompt s [] = s
  note_reports prompt s (current ∷ reports) =
      note_reports prompt (note_progress prompt s current) reports

  -- the session behind a call of the graph, with the reports if there is a callback
  unfoldable pub prefilled : List ℕ → Session G → Prefill G → Session G
  prefilled prompt s p =
      let noted = if s.progress then note_reports prompt s p.reports else s in
      (record noted { graph = p.graph })

  unfoldable pub give_up : Session G → SyncError → Outcome G
  give_up s error = ((record s { checkpoint_valid = false }), some error)

  unfoldable pub ds4_session_invalidate : Session G → Session G
  ds4_session_invalidate s = (record s {
    checkpoint_valid = false;
    checkpoint = [];
    mtp_draft_valid = false;
  })

  -- for a position that is not negative
  unfoldable pub ds4_session_rewind : Session G → ℕ → Session G
  ds4_session_rewind s pos =
      let n = if ltb (length s.checkpoint) pos then length s.checkpoint else pos in
      (record s { checkpoint = take n s.checkpoint; mtp_draft_valid = false })

  unfoldable pub ds4_session_common_prefix : Session G → List ℕ → ℕ
  ds4_session_common_prefix s prompt =
      if s.checkpoint_valid then common_len s.checkpoint prompt else 0

module _ {G : Type 0} (g : Graph G) where
  -- the loop over the tokens of a short suffix
  unfoldable pub eval_tokens : Session G → List ℕ → Outcome G
  eval_tokens s [] = (s, none)
  eval_tokens s (t ∷ ts) =
      let r = g.eval_token s.graph t (length s.checkpoint) in
      let s' : Session G = (record s { graph = r.0; checkpoint = s.checkpoint ++ (t ∷ []) }) in
      if r.1 then eval_tokens s' ts else give_up (record s { graph = r.0 }) decode_failed

  -- the checkpoint is a prefix of the prompt; `resume_min` is what the environment sets
  unfoldable pub extend_checkpoint : (resume_min : ℕ) → Session G → List ℕ → Outcome G
  extend_checkpoint resume_min s prompt =
      let start = length s.checkpoint in
      let suffix = length prompt - start in
      let s' : Session G = (record s { mtp_draft_valid = false }) in
      let p = g.prefill_chunked_range s.graph prompt start suffix in
      if ltb 0 suffix && leb resume_min suffix
      then (if p.ok
          then (
            (record (prefilled prompt s' p) { checkpoint = prompt; checkpoint_valid = true }),
            none,
          )
          else give_up (prefilled prompt s' p) resumed_prefill_failed)
      else eval_tokens s' (drop start prompt)

  -- from the first token
  unfoldable pub rebuild_checkpoint : Session G → List ℕ → Outcome G
  rebuild_checkpoint s prompt =
      let chunked = ltb s.prefill_cap (length prompt) in
      let p = if chunked then g.prefill_chunked s.graph prompt else g.prefill_raw s.graph prompt in
      let s' = if chunked then prefilled prompt s p else (record s { graph = p.graph }) in
      if p.ok
      then (
        (record s' {
          checkpoint = prompt;
          checkpoint_valid = true;
          mtp_draft_valid = false;
          graph = g.forget_draft s'.graph;
        }),
        none,
      )
      else give_up s' prefill_failed

  unfoldable pub ds4_session_sync : (resume_min : ℕ) → Session G → List ℕ → Outcome G
  ds4_session_sync resume_min s prompt =
      if (length prompt == 0) || leb s.ctx_size (length prompt)
      then (s, some prompt_exceeds_context)
      else if s.checkpoint_valid
          && leb (length s.checkpoint) (length prompt)
          && ds4_tokens_starts_with prompt s.checkpoint
      then extend_checkpoint resume_min s prompt
      else rebuild_checkpoint s prompt

  -- `ds4_session_eval` for an engine without a draft model
  unfoldable pub ds4_session_eval : Session G → ℕ → Outcome G
  ds4_session_eval s token =
      let r = g.eval_token s.graph token (length s.checkpoint) in
      let s' : Session G = (record s { graph = r.0; mtp_draft_valid = false }) in
      if r.1
      then ((record s' { checkpoint = s.checkpoint ++ (token ∷ []) }), none)
      else give_up s' decode_failed

pub data RewriteResult : Type 0 where
  rewrite_ok : RewriteResult
  rewrite_rebuild_needed : RewriteResult
  rewrite_error : RewriteResult

-- for numbers that are not negative
unfoldable pub ds4_session_rewrite_requires_rebuild : (live_len canonical_len common : ℕ) → Bool
ds4_session_rewrite_requires_rebuild live_len canonical_len common =
    if ltb live_len common || ltb canonical_len common then true else ltb common live_len

unfoldable pub sync_result : {G : Type 0} → Outcome G → Session G × RewriteResult
sync_result (s, none) = (s, rewrite_ok)
sync_result (s, some error) = (s, rewrite_error)

module _ {G : Type 0} (g : Graph G) where
  unfoldable pub ds4_session_rewrite_from_common :
      (resume_min : ℕ) → Session G → List ℕ → ℕ → Session G × RewriteResult
  ds4_session_rewrite_from_common resume_min s prompt common =
      if (length prompt == 0) || leb s.ctx_size (length prompt)
      then (s, rewrite_error)
      else if not s.checkpoint_valid
      then (s, rewrite_error)
      else if ltb (length s.checkpoint) common || ltb (length prompt) common
      then (s, rewrite_error)
      else if not (ds4_tokens_starts_with prompt (take common s.checkpoint))
      then (s, rewrite_error)
      else if common == length s.checkpoint
      then sync_result (ds4_session_sync g resume_min s prompt)
      else if ds4_session_rewrite_requires_rebuild (length s.checkpoint) (length prompt) common
      then (s, rewrite_rebuild_needed)
      else (s, rewrite_error)
