-- ===== src/Server/Kv/Evict.antt =====
-- ds4_server.c: `kv_entry_is_live_continued_prefix`, `kv_entry_eviction_score` and
-- `kv_cache_evict` behind the reading of the directory. The machine's doubles are a parameter, an
-- interface of the operations that the score uses; so is `unlink`, which tells whether a file went.
pub mod Victim
pub mod Budget
use go_ds.Common.{
  ℕ, zero, suc, ◌+◌, ◌-◌, Bool, false, not, ◌&&◌, ◌||◌, Option, none, some, List, [], ◌∷◌, ◌++◌,
  length, ltb, ◌==◌, if◌then◌else◌, same_bytes, Bytes,
}
use go_ds.Server.Kv.Header.{KvEntry}
use go_ds.Server.Kv.Sha1.{sha1_tokens_hex}

pub record Doubles {ℓ} (D : Type ℓ) : Type ℓ where
  -- the double next to `a / b`, for a literal
  pub literal : ℕ → ℕ → D
  -- `(double)n`
  pub of_nat : ℕ → D
  pub add : D → D → D
  pub mul : D → D → D
  pub div : D → D → D
  pub less : D → D → Bool
  pub equal : D → D → Bool

abbrev pub kv_reason_continued : ℕ
kv_reason_continued = 2

-- `live` is none for a null pointer.
unfoldable pub kv_entry_is_live_continued_prefix : KvEntry → Option (List ℕ) → Bool
kv_entry_is_live_continued_prefix e none = false
kv_entry_is_live_continued_prefix e (some live) =
    e.reason == kv_reason_continued
    && ltb e.tokens (length live)
    && same_bytes (sha1_tokens_hex live e.tokens) e.sha

abbrev live_len : Option (List ℕ) → ℕ
live_len none = 0
live_len (some live) = length live

unfoldable pub remove_at {ℓ} : {A : Type ℓ} → ℕ → List A → List A
remove_at n [] = []
remove_at zero (x ∷ xs) = xs
remove_at (suc n) (x ∷ xs) = x ∷ remove_at n xs

unfoldable pub total_size : List KvEntry → ℕ
total_size [] = 0
total_size (e ∷ es) = e.file_size + total_size es

pub record EvictState : Type 0 where
  pub entry : List KvEntry
  pub total : ℕ
  pub unlinked : List Bytes

module _ {ℓ} {D : Type ℓ} (dbl : Doubles D) where
  unfoldable pub kv_entry_eviction_score : KvEntry → Option (List ℕ) → D
  kv_entry_eviction_score e live =
      if e.file_size == 0
      then dbl.literal 0 1
      else let score =
          dbl.div (dbl.mul (dbl.add (dbl.of_nat e.hits) (dbl.literal 1 1)) (dbl.of_nat e.tokens))
            (dbl.of_nat e.file_size) in
        let depth = dbl.div (dbl.of_nat e.tokens) (dbl.of_nat (live_len live)) in
        if kv_entry_is_live_continued_prefix e live
        then dbl.mul (dbl.mul score (if e.hits == 0 then dbl.literal 2 100 else dbl.literal 25 100))
            depth
        else score

  -- the test that makes the entry `e` the victim in place of `best`
  unfoldable pub worse : Option (List ℕ) → KvEntry → KvEntry → Bool
  worse live e best =
      let s = kv_entry_eviction_score e live in
      let victim_score = kv_entry_eviction_score best live in
      dbl.less s victim_score || (dbl.equal s victim_score && ltb e.last_used best.last_used)

  -- one round of the search: the number and the entry that is the victim behind it
  unfoldable pub keep_worse : Option (List ℕ) → ℕ → KvEntry → ℕ × KvEntry → ℕ × KvEntry
  keep_worse live i e best = if worse live e best.1 then (i, e) else best

  unfoldable pub victim_loop : Option (List ℕ) → ℕ → List KvEntry → ℕ × KvEntry → ℕ × KvEntry
  victim_loop live i [] best = best
  victim_loop live i (e ∷ es) best = victim_loop live (suc i) es (keep_worse live i e best)

  module _ (unlink : Bytes → Bool) (budget : ℕ) where
    -- the victim's file is removed, and the entry in any case
    unfoldable pub evict_one : Option (List ℕ) → KvEntry → List KvEntry → EvictState → EvictState
    evict_one live e es st =
        let victim = victim_loop live 1 es (0, e) in
        record {
          entry = remove_at victim.0 (e ∷ es);
          total = if unlink victim.1.path then st.total - victim.1.file_size else 0;
          unlinked =
              if unlink victim.1.path then st.unlinked ++ (victim.1.path ∷ []) else st.unlinked;
        }

    -- The loop; a round takes an entry off, so that a round for each entry is enough.
    unfoldable pub evict_loop : ℕ → Option (List ℕ) → EvictState → EvictState
    evict_loop zero live st = st
    evict_loop (suc rounds) live st = elim st.entry [
      | [] ↦ st
      | e ∷ es ↦
          let rest = evict_loop rounds live (evict_one live e es st) in
          if ltb budget st.total then rest else st
    ]

    -- `entries` is what the directory lists; a budget of 0 is none.
    unfoldable pub kv_cache_evict : (enabled : Bool) → Option (List ℕ) → List KvEntry → EvictState
    kv_cache_evict enabled live entries =
        let start : EvictState = record {
          entry = entries;
          total = total_size entries;
          unlinked = [];
        } in
        if enabled && not (budget == 0) then evict_loop (length entries) live start else start
