-- ===== src/Server/Dsml/Closing.antt =====
-- An argument cannot close its own tag.
use go_ds.Common.{
  ℕ, suc, ◌≡◌, ◌≢◌, refl, true, false, some, [], ◌∷◌, ◌++◌, Bytes, length, strip_prefix, ◌==◌, All,
  arith, Bool-cases, inl, inr, ◌⊎◌, append_assoc, strip_prefix-append, sym, length-append, ◌+◌, ◌∙◌,
}
use go_ds.Server.Stream.Stops.{starts_with, strstr}
use go_ds.Server.Stream.Stops.Search.{strstr-here}
use go_ds.Server.Dsml.{
  lt, parameter_end_tail, parameter_end, at_end_tag, guard_end_tag, append_dsml_parameter_text,
  append_dsml_json_literal,
}

-- a byte that neither opens a tag nor starts the escape
abbrev Inner : ℕ → ℕ → Type 0
Inner mark t = (t ≢ b'<') × (t ≢ mark)

starts_with-cons :
    (t c : ℕ) (ts p : Bytes)
    → starts_with (t ∷ ts) (c ∷ p) ≡ true
    → (t ≡ c) × (starts_with ts p ≡ true)
unfolding starts_with strip_prefix
starts_with-cons t c ts p h = elim (Bool-cases (t == c)) [
  | inl e ↦ (ground arith, let g = h in rw (e, starts_with) at g)
  | inr n ↦ absurd (ground arith)
]

starts_with_cons :
    (t : ℕ) (ts p : Bytes) → starts_with ts p ≡ true → starts_with (t ∷ ts) (t ∷ p) ≡ true
unfolding starts_with strip_prefix
starts_with_cons t ts p h = let e : (t == t) ≡ true = ground arith in rw (e, starts_with) h

starts_with-empty : (s : Bytes) → starts_with [] s ≡ true
unfolding starts_with strip_prefix
starts_with-empty s = refl

guard_end_tag-nil : (escape : Bytes) → guard_end_tag escape [] ≡ []
unfolding guard_end_tag
guard_end_tag-nil escape = refl

guard_end_tag-escapes :
    (escape : Bytes) (c : ℕ) (s : Bytes)
    → at_end_tag (c ∷ s) ≡ true
    → guard_end_tag escape (c ∷ s) ≡ escape ++ guard_end_tag escape s
unfolding guard_end_tag
guard_end_tag-escapes escape c s h = rw h

guard_end_tag-keeps :
    (escape : Bytes) (c : ℕ) (s : Bytes)
    → at_end_tag (c ∷ s) ≡ false
    → guard_end_tag escape (c ∷ s) ≡ c ∷ guard_end_tag escape s
unfolding guard_end_tag
guard_end_tag-keeps escape c s h = rw h

pub at_end_tag-starts_with : (s : Bytes) → at_end_tag s ≡ starts_with parameter_end s
unfolding at_end_tag starts_with
at_end_tag-starts_with s = refl

strstr-skip :
    (lit p : Bytes) (c i : ℕ)
    → starts_with lit (c ∷ p) ≡ false
    → strstr lit p ≡ some i
    → strstr lit (c ∷ p) ≡ some (suc i)
unfolding strstr
strstr-skip lit p c i h k = rw (h, k)

-- no closing tag begins in bytes that are no `<`
strstr-jump :
    (front p : Bytes) (i : ℕ)
    → All (λ c. c ≢ b'<') front
    → strstr parameter_end p ≡ some i
    → strstr parameter_end (front ++ p) ≡ some (length front + i)
strstr-jump [] p i a h = rw h (ground arith)
strstr-jump (c ∷ front) p i a h =
    let other : starts_with parameter_end (c ∷ (front ++ p)) ≡ false =
      elim (Bool-cases (starts_with parameter_end (c ∷ (front ++ p)))) [
        | inl y ↦ absurd (a.0 (sym (starts_with-cons b'<' c parameter_end_tail (front ++ p) y).0))
        | inr n ↦ n
      ] in
    strstr-skip parameter_end (front ++ p) c (length front + i) other (strstr-jump front p i a.1 h)
    ∙ ground arith

starts_with_append : (lit p : Bytes) → starts_with lit (lit ++ p) ≡ true
unfolding starts_with
starts_with_append lit p = rw (strip_prefix-append lit p, starts_with)

module _ (mark : ℕ) (more : Bytes) where
  -- Where the guarded text goes on with inner bytes, so did the text.
  guard_end_tag-starts_with :
      (ts s x : Bytes)
      → All (Inner mark) ts
      → starts_with ts (guard_end_tag (mark ∷ more) s ++ (b'<' ∷ x)) ≡ true
      → starts_with ts s ≡ true
  guard_end_tag-starts_with [] s x inner h = starts_with-empty s
  guard_end_tag-starts_with (t ∷ ts) [] x inner h = absurd (
      inner.0.0
        (starts_with-cons t b'<' ts x (let g = h in rw (guard_end_tag-nil (mark ∷ more)) at g)).0)
  guard_end_tag-starts_with (t ∷ ts) (c ∷ s) x inner h = elim (Bool-cases (at_end_tag (c ∷ s))) [
    | inl e ↦ absurd (
        inner.0.1
          (starts_with-cons t mark ts (more ++ (guard_end_tag (mark ∷ more) s ++ (b'<' ∷ x))) (
            let g = h in
            rw
              (
                guard_end_tag-escapes (mark ∷ more) c s e,
                append_assoc more (guard_end_tag (mark ∷ more) s) (b'<' ∷ x),
              )
              at g)).0)
    | inr n ↦
        let split =
          starts_with-cons t c ts (guard_end_tag (mark ∷ more) s ++ (b'<' ∷ x))
            (let g = h in rw (guard_end_tag-keeps (mark ∷ more) c s n) at g) in
        rw (← split.0) (starts_with_cons t ts s (guard_end_tag-starts_with ts s x inner.1 split.1))
  ]

  guard_end_tag-strstr :
      (s rest : Bytes)
      → All (Inner mark) parameter_end_tail
      → All (λ c. c ≢ b'<') (mark ∷ more)
      → strstr parameter_end (guard_end_tag (mark ∷ more) s ++ (parameter_end ++ rest))
        ≡ some (length (guard_end_tag (mark ∷ more) s))
  guard_end_tag-strstr [] rest inner a =
      rw (guard_end_tag-nil (mark ∷ more))
        (strstr-here parameter_end (parameter_end ++ rest) (starts_with_append parameter_end rest))
  guard_end_tag-strstr (c ∷ s) rest inner a =
      let guarded = guard_end_tag (mark ∷ more) s in
      let later = guard_end_tag-strstr s rest inner a in
      elim (Bool-cases (at_end_tag (c ∷ s))) [
        | inl e ↦
            rw
              (
                guard_end_tag-escapes (mark ∷ more) c s e,
                append_assoc (mark ∷ more) guarded (parameter_end ++ rest),
                length-append (mark ∷ more) guarded,
              )
              (strstr-jump (mark ∷ more) (guarded ++ (parameter_end ++ rest)) (length guarded) a
                later)
        | inr n ↦
            let other : starts_with parameter_end (c ∷ (guarded ++ (parameter_end ++ rest)))
                ≡ false =
              elim (Bool-cases
                (starts_with parameter_end (c ∷ (guarded ++ (parameter_end ++ rest))))) [
                  | inr differs ↦ differs
                  | inl y ↦
                      let split =
                        starts_with-cons b'<' c parameter_end_tail
                          (guarded ++ (parameter_end ++ rest)) y in
                      let tail =
                        guard_end_tag-starts_with parameter_end_tail s (parameter_end_tail ++ rest)
                          inner split.1 in
                      let whole : starts_with parameter_end (c ∷ s) ≡ true =
                        rw (← split.0) (starts_with_cons b'<' parameter_end_tail s tail) in
                      absurd (ground (arith, n, at_end_tag-starts_with (c ∷ s), whole))
                ] in
            rw (guard_end_tag-keeps (mark ∷ more) c s n) (
              strstr-skip parameter_end (guarded ++ (parameter_end ++ rest)) c (length guarded)
                other later)
      ]

parameter_end_tail-Inner :
    (mark : ℕ) → (mark ≡ b'&') ⊎ (mark ≡ b'\\') → All (Inner mark) parameter_end_tail
parameter_end_tail-Inner mark m = ground arith

-- In a rendered string argument the first closing tag of a parameter is the one that the renderer
-- puts behind the value, whatever the value and what follows.
pub append_dsml_parameter_text-strstr :
    (s rest : Bytes)
    → strstr parameter_end (append_dsml_parameter_text s ++ (parameter_end ++ rest))
      ≡ some (length (append_dsml_parameter_text s))
unfolding append_dsml_parameter_text
append_dsml_parameter_text-strstr s rest =
    guard_end_tag-strstr b'&' lt s rest (parameter_end_tail-Inner b'&' (inl refl)) (ground arith)

-- In a rendered argument of another type the first closing tag of a parameter is the one that the
-- renderer puts behind the value, whatever the value and what follows.
pub append_dsml_json_literal-strstr :
    (s rest : Bytes)
    → strstr parameter_end (append_dsml_json_literal s ++ (parameter_end ++ rest))
      ≡ some (length (append_dsml_json_literal s))
unfolding append_dsml_json_literal
append_dsml_json_literal-strstr s rest =
    guard_end_tag-strstr b'\\' (b'u' ∷ b'0' ∷ b'0' ∷ b'3' ∷ b'c' ∷ []) s rest
      (parameter_end_tail-Inner b'\\' (inr refl)) (ground arith)
