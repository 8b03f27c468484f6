-- ===== src/Server/Stream/Thinking/Occurs.antt =====
-- Where a marker stands in a text that gets longer.
use go_ds.Common.{
  ℕ, ◌-◌, ◌≡◌, refl, ap, sym, ◌∙◌, All, ◌≢◌, true, false, [], ◌∷◌, ◌++◌, Bytes, length, take, drop,
  leb, arith, inl, inr, ◌⊎◌, length-append, append_assoc, append-nil, take-append-drop, drop-append,
  same_bytes, same_bytes_sound, same_bytes_refl,
}
use go_ds.Server.Stream.Thinking.{ends_with}

-- The marker stands in the text.
abbrev pub Occurs : Bytes → Bytes → Type 0
Occurs m text = (x y : Bytes) × (text ≡ x ++ (m ++ y))

ends_with-append : (x s : Bytes) → ends_with (x ++ s) s ≡ true
unfolding ends_with
ends_with-append x s =
    let len = length-append x s in
    let fits : leb (length s) (length (x ++ s)) ≡ true = ground arith in
    let front : length (x ++ s) - length s ≡ length x = omega arith in
    rw (fits, front, drop-append x s) (same_bytes_refl s)

pub ends_with-split : (text s : Bytes) → ends_with text s ≡ true → (x : Bytes) × (text ≡ x ++ s)
unfolding ends_with
ends_with-split text s h =
    let n = length text - length s in
    let same : same_bytes (drop n text) s ≡ true = ground arith in
    (
      take n text,
      sym (take-append-drop n text)
          ∙ ap (λ y. take n text ++ y) (same_bytes_sound (drop n text) s same),
    )

-- the last byte of a list
snoc-cases : (y : Bytes) → (y ≡ []) ⊎ ((y' : Bytes) × (d : ℕ) × (y ≡ y' ++ (d ∷ [])))
snoc-cases [] = inl refl
snoc-cases (c ∷ y) = elim (snoc-cases y) [
  | inl e ↦ inr ([], c, ap (◌∷◌ c) e)
  | inr (y', d, e) ↦ inr (c ∷ y', d, ap (◌∷◌ c) e)
]

snoc-inj : (x y : Bytes) (c d : ℕ) → x ++ (c ∷ []) ≡ y ++ (d ∷ []) → x ≡ y
snoc-inj [] [] c d e = refl
snoc-inj [] (b ∷ []) c d e = absurd (ground arith)
snoc-inj [] (b ∷ b' ∷ y) c d e = absurd (ground arith)
snoc-inj (a ∷ []) [] c d e = absurd (ground arith)
snoc-inj (a ∷ a' ∷ x) [] c d e = absurd (ground arith)
snoc-inj (a ∷ x) (b ∷ y) c d e =
    let rest : x ++ (c ∷ []) ≡ y ++ (d ∷ []) = ground arith in
    let ih = snoc-inj x y c d rest in ground arith

-- A marker that one more byte brings is at the end.
Occurs-snoc :
    (m b : Bytes) (c : ℕ)
    → Occurs m (b ++ (c ∷ []))
    → ((x : Bytes) × (b ++ (c ∷ []) ≡ x ++ m)) ⊎ Occurs m b
Occurs-snoc m b c (x, y, e) = elim (snoc-cases y) [
  | inl last ↦ inl (x, e ∙ (ap (λ z. x ++ (m ++ z)) last ∙ ap (λ z. x ++ z) (append-nil m)))
  | inr (y', d, ends) ↦
      let all : b ++ (c ∷ []) ≡ (x ++ (m ++ y')) ++ (d ∷ []) =
        e
        ∙ (ap (λ z. x ++ (m ++ z)) ends
            ∙ (ap (λ z. x ++ z) (sym (append_assoc m y' (d ∷ [])))
                ∙ sym (append_assoc x (m ++ y') (d ∷ [])))) in
      inr (x, y', snoc-inj b (x ++ (m ++ y')) c d all)
]

-- A marker is not empty.
pub Occurs-nil : (c : ℕ) (m : Bytes) → ¬ Occurs (c ∷ m) []
Occurs-nil c m ([], y, e) = absurd (ground arith)
Occurs-nil c m (d ∷ x, y, e) = absurd (ground arith)

-- No marker appears with a byte behind which it does not stand.
pub Occurs-further :
    (m front b text : Bytes) (c : ℕ)
    → text ≡ front ++ (b ++ (c ∷ []))
    → ends_with text m ≡ false
    → ¬ Occurs m b
    → ¬ Occurs m (b ++ (c ∷ []))
Occurs-further m front b text c whole apart absent o = elim (Occurs-snoc m b c o) [
  | inr before ↦ absent before
  | inl (x, e) ↦
      let all : text ≡ (front ++ x) ++ m =
        whole ∙ (ap (λ z. front ++ z) e ∙ sym (append_assoc front x m)) in
      let there = ap (λ z. ends_with z m) all ∙ ends_with-append (front ++ x) m in
      absurd (ground arith)
]

-- A marker stands behind bytes that it cannot begin in.
pub Occurs-behind :
    (m front x b d : Bytes)
    → All (λ t. t ≢ b'<') front
    → x ++ ((b'<' ∷ m) ++ d) ≡ front ++ b
    → Occurs (b'<' ∷ m) b
Occurs-behind m [] x b d a e = (x, d, sym e)
Occurs-behind m (t ∷ front) [] b d a e = let same : t ≡ b'<' = ground arith in absurd (a.0 same)
Occurs-behind m (t ∷ front) (c ∷ x) b d a e =
    let rest : x ++ ((b'<' ∷ m) ++ d) ≡ front ++ b = ground arith in
    Occurs-behind m front x b d a.1 rest
