-- ===== src/Engine/Session/Sync.antt =====
-- `ds4_session_sync`: behind it the session stands for the prompt, or for nothing.
use go_ds.Common.{
  ℕ, ◌+◌, ◌-◌, ◌≡◌, ◌≤◌, refl, ap, sym, subst, true, false, ◌&&◌, ◌||◌, none, some, List, [], ◌∷◌,
  ◌++◌, length, take, drop, ltb, leb, ◌==◌, arith, append_assoc, append-nil, Bool-cases, ◌⊎◌, inl,
  inr,
}
use go_ds.Engine.Session.{
  Graph, Session, Outcome, prompt_exceeds_context, same_tokens, ds4_tokens_starts_with, prefilled,
  give_up, ds4_session_invalidate, eval_tokens, extend_checkpoint, rebuild_checkpoint,
  ds4_session_sync, ds4_session_eval, ds4_session_rewrite_from_common, sync_result,
}

-- What is relied on: `H g ts` says that the graph `g` holds the rows of the tokens `ts`. A call that
-- goes well brings the graph there.
pub record Rows {G : Type 0} (g : Graph G) (H : G → List ℕ → Type 0) : Type 0 where
  pub eval_rows :
      (gr : G) (ts : List ℕ) (t : ℕ)
      → H gr ts
      → (g.eval_token gr t (length ts)).1 ≡ true
      → H (g.eval_token gr t (length ts)).0 (ts ++ (t ∷ []))
  pub range_rows :
      (gr : G) (prompt : List ℕ) (start count : ℕ)
      → H gr (take start prompt)
      → start + count ≡ length prompt
      → (g.prefill_chunked_range gr prompt start count).ok ≡ true
      → H (g.prefill_chunked_range gr prompt start count).graph prompt
  pub chunked_rows :
      (gr : G) (prompt : List ℕ)
      → (g.prefill_chunked gr prompt).ok ≡ true
      → H (g.prefill_chunked gr prompt).graph prompt
  pub raw_rows :
      (gr : G) (prompt : List ℕ)
      → (g.prefill_raw gr prompt).ok ≡ true
      → H (g.prefill_raw gr prompt).graph prompt
  pub draft_rows : (gr : G) (ts : List ℕ) → H gr ts → H (g.forget_draft gr) ts

pub starts_with-append :
    (tokens prefix : List ℕ)
    → ds4_tokens_starts_with tokens prefix ≡ true
    → tokens ≡ prefix ++ drop (length prefix) tokens
unfolding ds4_tokens_starts_with same_tokens
starts_with-append tokens [] h = refl
starts_with-append [] (p ∷ prefix) h = absurd (ground arith)
starts_with-append (t ∷ tokens) (p ∷ prefix) h =
    let ih = starts_with-append tokens prefix in ground arith

-- the checkpoint's length is how much of the prompt it is
starts_with-take :
    (tokens prefix : List ℕ)
    → ds4_tokens_starts_with tokens prefix ≡ true
    → take (length prefix) tokens ≡ prefix
unfolding ds4_tokens_starts_with same_tokens
starts_with-take tokens [] h = refl
starts_with-take [] (p ∷ prefix) h = absurd (ground arith)
starts_with-take (t ∷ tokens) (p ∷ prefix) h =
    let ih = starts_with-take tokens prefix in ground arith

module _ {G : Type 0} (g : Graph G) (H : G → List ℕ → Type 0) (rows : Rows g H) where
  -- A checkpoint that is valid is what the graph holds.
  abbrev pub IsCurrent : Session G → Type 0
  IsCurrent s = s.checkpoint_valid ≡ true → H s.graph s.checkpoint

  -- a session at the prompt
  abbrev pub At : Session G → List ℕ → Type 0
  At s prompt = (s.checkpoint ≡ prompt) × (s.checkpoint_valid ≡ true) × H s.graph prompt

  -- the outcome of a call: the session is at the prompt, or the checkpoint is given up
  abbrev Settled : Outcome G → List ℕ → Type 0
  Settled (s, none) prompt = At s prompt
  Settled (s, some error) prompt = s.checkpoint_valid ≡ false

  eval_tokens-Settled :
      (s : Session G) (ts : List ℕ)
      → s.checkpoint_valid ≡ true
      → H s.graph s.checkpoint
      → Settled (eval_tokens g s ts) (s.checkpoint ++ ts)
  unfolding eval_tokens give_up
  eval_tokens-Settled s [] valid h =
      (sym (append-nil s.checkpoint), valid, rw (append-nil s.checkpoint) h)
  eval_tokens-Settled s (t ∷ ts) valid h =
      let r = g.eval_token s.graph t (length s.checkpoint) in
      elim (Bool-cases r.1) [
        | inl ok ↦
            let s' : Session G = (record s {
              graph = r.0;
              checkpoint = s.checkpoint ++ (t ∷ []);
            }) in
            let rest =
              eval_tokens-Settled s' ts valid (rows.eval_rows s.graph s.checkpoint t h ok) in
            rw ok
              (subst (Settled (eval_tokens g s' ts)) (append_assoc s.checkpoint (t ∷ []) ts) rest)
        | inr bad ↦ rw bad refl
      ]

  extend-Settled :
      (resume_min : ℕ) (s : Session G) (prompt : List ℕ)
      → s.checkpoint_valid ≡ true
      → H s.graph s.checkpoint
      → length s.checkpoint ≤ length prompt
      → ds4_tokens_starts_with prompt s.checkpoint ≡ true
      → Settled (extend_checkpoint g resume_min s prompt) prompt
  unfolding extend_checkpoint give_up prefilled
  extend-Settled resume_min s prompt valid h fits starts =
      let start = length s.checkpoint in
      let suffix = length prompt - start in
      let p = g.prefill_chunked_range s.graph prompt start suffix in
      elim (Bool-cases (ltb 0 suffix && leb resume_min suffix)) [
        | inl long ↦ elim (Bool-cases p.ok) [
          | inl ok ↦
              let held =
                rows.range_rows s.graph prompt start suffix
                  (rw (starts_with-take prompt s.checkpoint starts) h) (omega arith) ok in
              rw (long, ok) (refl, refl, held)
          | inr bad ↦ rw (long, bad) refl
        ]
        | inr short ↦
            let s' : Session G = (record s { mtp_draft_valid = false }) in
            let rest = eval_tokens-Settled s' (drop start prompt) valid h in
            rw short (
              subst (Settled (eval_tokens g s' (drop start prompt)))
                (sym (starts_with-append prompt s.checkpoint starts)) rest)
      ]

  rebuild-Settled :
      (s : Session G) (prompt : List ℕ) → Settled (rebuild_checkpoint g s prompt) prompt
  unfolding rebuild_checkpoint give_up prefilled
  rebuild-Settled s prompt = elim (Bool-cases (ltb s.prefill_cap (length prompt))) [
    | inl chunked ↦ elim (Bool-cases (g.prefill_chunked s.graph prompt).ok) [
      | inl ok ↦
          rw (chunked, ok)
            (refl, refl, rows.draft_rows _ prompt (rows.chunked_rows s.graph prompt ok))
      | inr bad ↦ rw (chunked, bad) refl
    ]
    | inr raw ↦ elim (Bool-cases (g.prefill_raw s.graph prompt).ok) [
      | inl ok ↦
          rw (raw, ok) (refl, refl, rows.draft_rows _ prompt (rows.raw_rows s.graph prompt ok))
      | inr bad ↦ rw (raw, bad) refl
    ]
  ]

  -- a prompt that does not fit leaves the session alone
  sync-cases :
      (resume_min : ℕ) (s : Session G) (prompt : List ℕ)
      → IsCurrent s
      → (ds4_session_sync g resume_min s prompt ≡ (s, some prompt_exceeds_context))
        ⊎ Settled (ds4_session_sync g resume_min s prompt) prompt
  unfolding ds4_session_sync
  sync-cases resume_min s prompt i =
      elim (Bool-cases ((length prompt == 0) || leb s.ctx_size (length prompt))) [
        | inl far ↦ inl (rw far)
        | inr near ↦
            elim (Bool-cases (
              s.checkpoint_valid
              && leb (length s.checkpoint) (length prompt)
              && ds4_tokens_starts_with prompt s.checkpoint)) [
                | inl live ↦
                    let valid : s.checkpoint_valid ≡ true = ground arith in
                    let fits : leb (length s.checkpoint) (length prompt) ≡ true = ground arith in
                    let starts : ds4_tokens_starts_with prompt s.checkpoint ≡ true = ground arith in
                    inr (
                      rw (near, live)
                        (extend-Settled resume_min s prompt valid (i valid) (ground arith) starts))
                | inr dead ↦ inr (rw (near, dead) (rebuild-Settled s prompt))
              ]
      ]

  Settled-At : (o : Outcome G) (prompt : List ℕ) → Settled o prompt → o.1 ≡ none → At o.0 prompt
  Settled-At (s, none) prompt h e = h
  Settled-At (s, some error) prompt h e = absurd (ground arith)

  Settled-IsCurrent : (o : Outcome G) (prompt : List ℕ) → Settled o prompt → IsCurrent o.0
  Settled-IsCurrent (s, none) prompt h v = rw h.0 h.2
  Settled-IsCurrent (s, some error) prompt h v = absurd (ground arith)

  -- For a session whose valid checkpoint is what the graph holds: where `ds4_session_sync` gives no
  -- error, the checkpoint is the prompt, it is valid, and the graph holds the prompt's rows.
  pub ds4_session_sync-At :
      (resume_min : ℕ) (s : Session G) (prompt : List ℕ)
      → IsCurrent s
      → (ds4_session_sync g resume_min s prompt).1 ≡ none
      → At (ds4_session_sync g resume_min s prompt).0 prompt
  ds4_session_sync-At resume_min s prompt i fine = elim (sync-cases resume_min s prompt i) [
    | inl far ↦ let e = ap (λ o. o.1) far in absurd (ground arith)
    | inr settled ↦ Settled-At (ds4_session_sync g resume_min s prompt) prompt settled fine
  ]

  sync-IsCurrent :
      (resume_min : ℕ) (s : Session G) (prompt : List ℕ)
      → IsCurrent s
      → IsCurrent (ds4_session_sync g resume_min s prompt).0
  sync-IsCurrent resume_min s prompt i = elim (sync-cases resume_min s prompt i) [
    | inl far ↦ subst (λ o. IsCurrent o.0) (sym far) i
    | inr settled ↦ Settled-IsCurrent (ds4_session_sync g resume_min s prompt) prompt settled
  ]

  eval-IsCurrent :
      (s : Session G) (token : ℕ) → IsCurrent s → IsCurrent (ds4_session_eval g s token).0
  unfolding ds4_session_eval give_up
  eval-IsCurrent s token i =
      let r = g.eval_token s.graph token (length s.checkpoint) in
      elim (Bool-cases r.1) [
        | inl ok ↦ rw ok (λ valid. rows.eval_rows s.graph s.checkpoint token (i valid) ok)
        | inr bad ↦ rw bad (λ valid. absurd (ground arith))
      ]

  result-IsCurrent : (o : Outcome G) → IsCurrent o.0 → IsCurrent (sync_result o).0
  unfolding sync_result
  result-IsCurrent (s, none) i = i
  result-IsCurrent (s, some error) i = i

  rewrite-cases :
      (resume_min : ℕ) (s : Session G) (prompt : List ℕ) (common : ℕ)
      → ((ds4_session_rewrite_from_common g resume_min s prompt common).0 ≡ s)
        ⊎ (ds4_session_rewrite_from_common g resume_min s prompt common
            ≡ sync_result (ds4_session_sync g resume_min s prompt))
  unfolding ds4_session_rewrite_from_common
  rewrite-cases resume_min s prompt common = ground arith

  rewrite-IsCurrent :
      (resume_min : ℕ) (s : Session G) (prompt : List ℕ) (common : ℕ)
      → IsCurrent s
      → IsCurrent (ds4_session_rewrite_from_common g resume_min s prompt common).0
  rewrite-IsCurrent resume_min s prompt common i = elim (rewrite-cases resume_min s prompt common) [
    | inl kept ↦ subst IsCurrent (sym kept) i
    | inr synced ↦
        subst (λ r. IsCurrent r.0) (sym synced)
          (result-IsCurrent (ds4_session_sync g resume_min s prompt)
            (sync-IsCurrent resume_min s prompt i))
  ]

  -- The sessions that the calls of the server lead to, from one that has no checkpoint yet.
  pub data Reach : Session G → Type 0 where
    created : (s : Session G) → s.checkpoint_valid ≡ false → Reach s
    synced :
        (resume_min : ℕ) (s : Session G) (prompt : List ℕ)
        → Reach s
        → Reach (ds4_session_sync g resume_min s prompt).0
    evaluated : (s : Session G) (token : ℕ) → Reach s → Reach (ds4_session_eval g s token).0
    rewritten :
        (resume_min : ℕ) (s : Session G) (prompt : List ℕ) (common : ℕ)
        → Reach s
        → Reach (ds4_session_rewrite_from_common g resume_min s prompt common).0
    invalidated : (s : Session G) → Reach s → Reach (ds4_session_invalidate s)

  -- In every session that is reached by creating it and by any sequence of syncs, evaluations,
  -- rewrites and invalidations, a valid checkpoint is what the graph holds.
  pub Reach-IsCurrent : (s : Session G) → Reach s → IsCurrent s
  unfolding ds4_session_invalidate
  Reach-IsCurrent _ (created s dead) = λ valid. absurd (ground arith)
  Reach-IsCurrent _ (synced resume_min s prompt r) =
      sync-IsCurrent resume_min s prompt (Reach-IsCurrent s r)
  Reach-IsCurrent _ (evaluated s token r) = eval-IsCurrent s token (Reach-IsCurrent s r)
  Reach-IsCurrent _ (rewritten resume_min s prompt common r) =
      rewrite-IsCurrent resume_min s prompt common (Reach-IsCurrent s r)
  Reach-IsCurrent _ (invalidated s r) = λ valid. absurd (ground arith)
