-- ===== src/Server/ToolMemory/Keyed.antt =====
-- Structs found by their keys, when no two of them share an address or a key.
use go_ds.Common.{
  ℕ, ◌≡◌, ◌<◌, refl, true, false, Option, none, some, List, [], ◌∷◌, All, All-imp, ◌==◌,
  if◌then◌else◌, same_bytes, same_bytes_sound, same_bytes_refl, same_bytes-differ_sym, Bytes, arith,
  Bool-cases, inl, inr, sym,
}
use go_ds.Server.ToolMemory.Store.{
  deref, unlink, modify, deref-addr, All-unlink, All-modify, All-deref,
}

module _ {A : Type 0} (addr : A → ℕ) (key : A → Bytes) where
  -- the address of the struct with a key
  unfoldable pub holder : Bytes → List A → Option ℕ
  holder k [] = none
  holder k (x ∷ xs) = if same_bytes (key x) k then some (addr x) else holder k xs

  abbrev pub Apart : A → A → Type 0
  Apart x y = ((addr y == addr x) ≡ false) × (same_bytes (key y) (key x) ≡ false)

  abbrev pub Distinct : List A → Type 0
  Distinct [] = Unit {0}
  Distinct (x ∷ xs) = All (Apart x) xs × Distinct xs

  pub unlink-Distinct : (a : ℕ) (xs : List A) → Distinct xs → Distinct (unlink addr a xs)
  unfolding unlink
  unlink-Distinct a [] d = tt
  unlink-Distinct a (x ∷ xs) d = elim (Bool-cases (addr x == a)) [
    | inl e ↦ rw e d.1
    | inr e ↦ rw e (All-unlink addr (Apart x) a xs d.0, unlink-Distinct a xs d.1)
  ]

  -- no struct has a key: all differ
  holder-none :
      (k : Bytes) (xs : List A) → All (λ y. same_bytes (key y) k ≡ false) xs → holder k xs ≡ none
  unfolding holder
  holder-none k [] h = refl
  holder-none k (x ∷ xs) h = rw h.0 (holder-none k xs h.1)

  Apart-keys :
      (x : A) (k : Bytes) (xs : List A)
      → same_bytes (key x) k ≡ true
      → All (Apart x) xs
      → All (λ y. same_bytes (key y) k ≡ false) xs
  Apart-keys x k [] e h = tt
  Apart-keys x k (y ∷ xs) e h =
      let same = same_bytes_sound (key x) k e in (rw (← same) h.0.1, Apart-keys x k xs e h.1)

  deref-key-Apart :
      (a : ℕ) (y : A) (k : Bytes) (xs : List A) (x : A)
      → same_bytes (key y) k ≡ true
      → All (Apart y) xs
      → deref addr a xs ≡ some x
      → same_bytes (key x) k ≡ false
  unfolding deref
  deref-key-Apart a y k [] x s d h = cc
  deref-key-Apart a y k (z ∷ xs) x s d h = elim (Bool-cases (addr z == a)) [
    | inl e ↦
        let h' : some z ≡ some x = (rw e at h) in
        let q : z ≡ x = ground arith in rw (← q) (rw (← same_bytes_sound (key y) k s) d.0.1)
    | inr e ↦ let h' : deref addr a xs ≡ some x = (rw e at h) in deref-key-Apart a y k xs x s d.1 h'
  ]

  pub holder-unlink :
      (a : ℕ) (k : Bytes) (xs : List A) (x : A)
      → Distinct xs
      → deref addr a xs ≡ some x
      → holder k (unlink addr a xs) ≡ (if same_bytes (key x) k then none else holder k xs)
  unfolding holder unlink deref
  holder-unlink a k [] x d h = cc
  holder-unlink a k (y ∷ xs) x d h = elim (Bool-cases (addr y == a)) [
    | inl e ↦
        let e' : some y ≡ some x = (rw e at h) in
        let q : y ≡ x = ground arith in
        rw (e, ← q)
          (elim (Bool-cases (same_bytes (key y) k)) [
            | inl s ↦ rw s (holder-none k xs (Apart-keys y k xs s d.0))
            | inr s ↦ rw s
          ])
    | inr e ↦
        let h' : deref addr a xs ≡ some x = (rw e at h) in
        rw e (elim (Bool-cases (same_bytes (key y) k)) [
          | inl s ↦ rw (s, deref-key-Apart a y k xs x s d.0 h')
          | inr s ↦ rw s (holder-unlink a k xs x d.1 h')
        ])
  ]

  -- assignments to a struct leave its address and its key
  module _ (f : A → A) (same_addr : (x : A) → addr (f x) ≡ addr x)
      (same_key : (x : A) → key (f x) ≡ key x) where
    pub holder-modify :
        (a : ℕ) (k : Bytes) (xs : List A) → holder k (modify addr a f xs) ≡ holder k xs
    unfolding holder modify
    holder-modify a k [] = refl
    holder-modify a k (x ∷ xs) = elim (Bool-cases (addr x == a)) [
      | inl e ↦ rw (e, same_addr x, same_key x)
      | inr e ↦ rw (e, holder-modify a k xs)
    ]

    Apart-modify :
        (a : ℕ) (x : A) (xs : List A) → All (Apart x) xs → All (Apart x) (modify addr a f xs)
    Apart-modify a x xs h =
        All-modify addr (Apart x) a f xs (λ y p. (rw (same_addr y) p.0, rw (same_key y) p.1)) h

    Apart-self : (x : A) (xs : List A) → All (Apart x) xs → All (Apart (f x)) xs
    Apart-self x [] h = tt
    Apart-self x (y ∷ xs) h = ((rw (same_addr x) h.0.0, rw (same_key x) h.0.1), Apart-self x xs h.1)

    pub modify-Distinct : (a : ℕ) (xs : List A) → Distinct xs → Distinct (modify addr a f xs)
    unfolding modify
    modify-Distinct a [] d = tt
    modify-Distinct a (x ∷ xs) d = elim (Bool-cases (addr x == a)) [
      | inl e ↦ rw e (Apart-self x xs d.0, d.1)
      | inr e ↦ rw e (Apart-modify a x xs d.0, modify-Distinct a xs d.1)
    ]

  deref-Apart :
      (a : ℕ) (y : A) (xs : List A) (x : A)
      → All (Apart y) xs
      → deref addr a xs ≡ some x
      → (addr y == a) ≡ false
  unfolding deref
  deref-Apart a y [] x d h = cc
  deref-Apart a y (z ∷ xs) x d h = elim (Bool-cases (addr z == a)) [
    | inl e ↦ let apart : (addr z == addr y) ≡ false = d.0.0 in ground arith
    | inr e ↦ let h' : deref addr a xs ≡ some x = (rw e at h) in deref-Apart a y xs x d.1 h'
  ]

  pub deref-holder :
      (a : ℕ) (k : Bytes) (xs : List A)
      → Distinct xs
      → holder k xs ≡ some a
      → (x : A) × (deref addr a xs ≡ some x) × (key x ≡ k)
  unfolding holder deref
  deref-holder a k [] d h = cc
  deref-holder a k (x ∷ xs) d h = elim (Bool-cases (same_bytes (key x) k)) [
    | inl s ↦
        let h' : some (addr x) ≡ some a = (rw s at h) in
        let q : addr x ≡ a = ground arith in
        let e : (addr x == a) ≡ true = ground arith in (x, rw e, same_bytes_sound (key x) k s)
    | inr s ↦
        let h' : holder k xs ≡ some a = (rw s at h) in
        let (y, at, same) = deref-holder a k xs d.1 h' in
        (y, rw (deref-Apart a x xs y d.0 at) at, same)
  ]

  -- a struct with a new address and a new key
  pub fresh-Apart :
      (x : A) (xs : List A)
      → holder (key x) xs ≡ none
      → All (λ y. addr y < addr x) xs
      → All (Apart x) xs
  unfolding holder
  fresh-Apart x [] h o = tt
  fresh-Apart x (y ∷ xs) h o = elim (Bool-cases (same_bytes (key y) (key x))) [
    | inl s ↦ absurd (ground arith)
    | inr s ↦
        let h' : holder (key x) xs ≡ none = (rw s at h) in
        let below = o.0 in ((ground arith, s), fresh-Apart x xs h' o.1)
  ]

  deref-All-Apart :
      (y : A) (a : ℕ) (xs : List A) (x : A)
      → All (Apart y) xs
      → deref addr a xs ≡ some x
      → Apart y x
  deref-All-Apart y a xs x h e = All-deref addr (Apart y) a xs x h e

  -- a struct that leaves its place differs from those that stay
  pub unlink-Apart :
      (a : ℕ) (xs : List A) (x : A)
      → Distinct xs
      → deref addr a xs ≡ some x
      → All (Apart x) (unlink addr a xs)
  unfolding deref unlink
  unlink-Apart a [] x d h = cc
  unlink-Apart a (y ∷ xs) x d h = elim (Bool-cases (addr y == a)) [
    | inl e ↦
        let h' : some y ≡ some x = (rw e at h) in let q : y ≡ x = ground arith in rw (e, ← q) d.0
    | inr e ↦
        let h' : deref addr a xs ≡ some x = (rw e at h) in
        let (addrs, keys) = deref-All-Apart y a xs x d.0 h' in
        let turned : (addr y == addr x) ≡ false = ground arith in
        rw e ((turned, same_bytes-differ_sym (key x) (key y) keys), unlink-Apart a xs x d.1 h')
  ]

  pub holder-deref :
      (a : ℕ) (xs : List A) (x : A)
      → Distinct xs
      → deref addr a xs ≡ some x
      → holder (key x) xs ≡ some a
  unfolding deref holder
  holder-deref a [] x d h = cc
  holder-deref a (y ∷ xs) x d h = elim (Bool-cases (addr y == a)) [
    | inl e ↦
        let h' : some y ≡ some x = (rw e at h) in
        let q : y ≡ x = ground arith in
        let at : addr y ≡ a = ground arith in rw (← q, same_bytes_refl (key y), at)
    | inr e ↦
        let h' : deref addr a xs ≡ some x = (rw e at h) in
        let (addrs, keys) = deref-All-Apart y a xs x d.0 h' in
        rw (same_bytes-differ_sym (key x) (key y) keys) (holder-deref a xs x d.1 h')
  ]

  -- the struct at the head, moved there and changed, is found like before
  pub holder-to_front :
      (a : ℕ) (k : Bytes) (xs : List A) (x y : A)
      → Distinct xs
      → deref addr a xs ≡ some x
      → addr y ≡ addr x
      → key y ≡ key x
      → holder k (y ∷ unlink addr a xs) ≡ holder k xs
  unfolding holder
  holder-to_front a k xs x y d h same_addr same_key = elim (Bool-cases (same_bytes (key x) k)) [
    | inl s ↦
        rw (same_key, s, same_addr, deref-addr addr a xs x h, ← same_bytes_sound (key x) k s)
          (sym (holder-deref a xs x d h))
    | inr s ↦ rw (same_key, s, holder-unlink a k xs x d h, s)
  ]

  -- what holds of the structs that stay holds when the one in front is changed
  pub Apart-changed :
      (x y : A) (xs : List A)
      → addr y ≡ addr x
      → key y ≡ key x
      → All (Apart x) xs
      → All (Apart y) xs
  Apart-changed x y xs same_addr same_key h =
      All-imp (Apart x) (Apart y) xs (λ z p. (rw same_addr p.0, rw same_key p.1)) h
