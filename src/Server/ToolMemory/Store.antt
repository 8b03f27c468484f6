-- ===== src/Server/ToolMemory/Store.antt =====
-- Structs of one type on the heap, named by their addresses and found by their keys: what
-- ds4_server.c does with `tool_memory_entry` and `tool_memory_block` pointers.
use go_ds.Common.{
  ℕ, suc, ◌+◌, ◌≡◌, refl, false, Option, none, some, List, [], ◌∷◌, length, All, ◌==◌,
  if◌then◌else◌, arith, Bool-cases, inl, inr,
}

-- A quantity added up over the structs.
unfoldable pub sum : {A : Type 0} → (A → ℕ) → List A → ℕ
sum w [] = 0
sum w (x ∷ xs) = w x + sum w xs

module _ {A : Type 0} (addr : A → ℕ) where
  -- the struct that a pointer points to
  unfoldable pub deref : ℕ → List A → Option A
  deref a [] = none
  deref a (x ∷ xs) = if addr x == a then some x else deref a xs

  unfoldable pub unlink : ℕ → List A → List A
  unlink a [] = []
  unlink a (x ∷ xs) = if addr x == a then xs else x ∷ unlink a xs

  -- assignments to fields of the struct at `a`
  unfoldable pub modify : ℕ → (A → A) → List A → List A
  modify a f [] = []
  modify a f (x ∷ xs) = if addr x == a then f x ∷ xs else x ∷ modify a f xs

  pub deref-addr : (a : ℕ) (xs : List A) (x : A) → deref a xs ≡ some x → addr x ≡ a
  unfolding deref
  deref-addr a [] x h = cc
  deref-addr a (y ∷ xs) x h = ground (arith, deref-addr a xs x)

  pub length-unlink :
      (a : ℕ) (xs : List A) (x : A) → deref a xs ≡ some x → length xs ≡ suc (length (unlink a xs))
  unfolding deref unlink
  length-unlink a [] x h = cc
  length-unlink a (y ∷ xs) x h = ground (arith, length-unlink a xs x)

  pub All-unlink {κ} : (P : A → Type κ) (a : ℕ) (xs : List A) → All P xs → All P (unlink a xs)
  unfolding unlink
  All-unlink P a [] h = tt
  All-unlink P a (x ∷ xs) h = elim (Bool-cases (addr x == a)) [
    | inl e ↦ rw e h.1
    | inr e ↦ rw e (h.0, All-unlink P a xs h.1)
  ]

  pub All-modify {κ} :
      (P : A → Type κ) (a : ℕ) (f : A → A) (xs : List A)
      → ((x : A) → P x → P (f x))
      → All P xs
      → All P (modify a f xs)
  unfolding modify
  All-modify P a f [] k h = tt
  All-modify P a f (x ∷ xs) k h = elim (Bool-cases (addr x == a)) [
    | inl e ↦ rw e (k x h.0, h.1)
    | inr e ↦ rw e (h.0, All-modify P a f xs k h.1)
  ]

  pub All-deref {κ} :
      (P : A → Type κ) (a : ℕ) (xs : List A) (x : A) → All P xs → deref a xs ≡ some x → P x
  unfolding deref
  All-deref P a [] x h e = cc
  All-deref P a (y ∷ xs) x h e = elim (Bool-cases (addr y == a)) [
    | inl t ↦ let e' : some y ≡ some x = (rw t at e) in ground arith
    | inr t ↦ let e' : deref a xs ≡ some x = (rw t at e) in All-deref P a xs x h.1 e'
  ]

  pub sum-unlink :
      (w : A → ℕ) (a : ℕ) (xs : List A) (x : A)
      → deref a xs ≡ some x
      → sum w xs ≡ w x + sum w (unlink a xs)
  unfolding deref unlink sum
  sum-unlink w a [] x h = cc
  sum-unlink w a (y ∷ xs) x h = ground (arith, sum-unlink w a xs x)

  pub sum-modify :
      (w : A → ℕ) (a : ℕ) (f : A → A) (xs : List A) (x : A)
      → deref a xs ≡ some x
      → sum w (modify a f xs) + w x ≡ sum w xs + w (f x)
  unfolding deref modify sum
  sum-modify w a f [] x h = cc
  sum-modify w a f (y ∷ xs) x h = ground (arith, sum-modify w a f xs x)

  -- assignments that leave the quantity
  pub sum-modify_same :
      (w : A → ℕ) (a : ℕ) (f : A → A) (xs : List A)
      → ((x : A) → w (f x) ≡ w x)
      → sum w (modify a f xs) ≡ sum w xs
  unfolding modify sum
  sum-modify_same w a f [] h = refl
  sum-modify_same w a f (x ∷ xs) h = ground (arith, h x, sum-modify_same w a f xs h)

  pub length-modify : (a : ℕ) (f : A → A) (xs : List A) → length (modify a f xs) ≡ length xs
  unfolding modify
  length-modify a f [] = refl
  length-modify a f (x ∷ xs) = ground (arith, length-modify a f xs)

  pub deref-modify :
      (a : ℕ) (f : A → A) (xs : List A) (x : A)
      → addr (f x) ≡ addr x
      → deref a xs ≡ some x
      → deref a (modify a f xs) ≡ some (f x)
  unfolding deref modify
  deref-modify a f [] x s h = cc
  deref-modify a f (y ∷ xs) x s h = ground (arith, deref-modify a f xs x s)

  -- another struct is not affected by an assignment or by leaving the list
  pub deref-modify_other :
      (a b : ℕ) (f : A → A) (xs : List A)
      → ((x : A) → addr (f x) ≡ addr x)
      → (b == a) ≡ false
      → deref b (modify a f xs) ≡ deref b xs
  unfolding deref modify
  deref-modify_other a b f [] s h = refl
  deref-modify_other a b f (y ∷ xs) s h = ground (arith, s y, deref-modify_other a b f xs s h)

  pub deref-unlink_other :
      (a b : ℕ) (xs : List A) → (b == a) ≡ false → deref b (unlink a xs) ≡ deref b xs
  unfolding deref unlink
  deref-unlink_other a b [] h = refl
  deref-unlink_other a b (y ∷ xs) h = ground (arith, deref-unlink_other a b xs h)
