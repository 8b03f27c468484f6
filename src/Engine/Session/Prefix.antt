-- ===== src/Engine/Session/Prefix.antt =====
-- `ds4_session_common_prefix`: the longest prefix that the checkpoint and the prompt share.
use go_ds.Common.{ℕ, zero, suc, ◌≡◌, ◌≤◌, refl, true, List, [], ◌∷◌, length, take, arith}
use go_ds.Engine.Session.{Session, common_len, ds4_session_common_prefix}

common_len-take : (a b : List ℕ) → take (common_len a b) a ≡ take (common_len a b) b
unfolding common_len
common_len-take (t ∷ a) (p ∷ b) = ground (arith, common_len-take a b)
common_len-take [] b = refl
common_len-take (t ∷ a) [] = refl

-- no longer prefix is shared
common_len-longest :
    (a b : List ℕ) (n : ℕ) → n ≤ length a → n ≤ length b → take n a ≡ take n b → n ≤ common_len a b
unfolding common_len
common_len-longest a b zero f g h = omega arith
common_len-longest (t ∷ a) (p ∷ b) (suc n) f g h = let ih = common_len-longest a b n in ground arith
common_len-longest [] b (suc n) f g h = absurd (omega arith)
common_len-longest (t ∷ a) [] (suc n) f g h = absurd (omega arith)

common_len-le : (a b : List ℕ) → (common_len a b ≤ length a) × (common_len a b ≤ length b)
unfolding common_len
common_len-le (t ∷ a) (p ∷ b) = ground (arith, common_len-le a b)
common_len-le [] b = ground arith
common_len-le (t ∷ a) [] = ground arith

abbrev pub IsShared : ℕ → List ℕ → List ℕ → Type 0
IsShared n a b = (n ≤ length a) × (n ≤ length b) × (take n a ≡ take n b)

-- For a session with a valid checkpoint: the number is the length of a prefix that the checkpoint
-- and the prompt share, and no longer prefix is shared.
pub common_prefix-IsShared :
    {G : Type 0} (s : Session G) (prompt : List ℕ)
    → s.checkpoint_valid ≡ true
    → IsShared (ds4_session_common_prefix s prompt) s.checkpoint prompt
      × ((n : ℕ) → IsShared n s.checkpoint prompt → n ≤ ds4_session_common_prefix s prompt)
unfolding ds4_session_common_prefix
common_prefix-IsShared s prompt valid = rw valid (
  (
    (common_len-le s.checkpoint prompt).0,
    (common_len-le s.checkpoint prompt).1,
    common_len-take s.checkpoint prompt,
  ),
  λ n h. common_len-longest s.checkpoint prompt n h.0 h.1 h.2,
)
