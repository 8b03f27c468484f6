-- ===== src/Server/Dsml/Argument.antt =====
-- String arguments: read back where they have no ampersand, and what becomes of an entity in one.
use go_ds.Common.{
  ℕ, zero, suc, ◌≤◌, ◌≡◌, ◌≢◌, refl, ap, ◌∙◌, true, false, [], ◌∷◌, ◌++◌, Bytes, length,
  strip_prefix, ◌==◌, All, arith, Bool-cases, Option-cases, inl, inr, length-append,
  length-strip_prefix, sym, append_assoc, ◌+◌, false,
}
use go_ds.Server.Dsml.{
  amp, lt, gt, quot, apos, entity, unescape_one, unescape_loop, dsml_unescape_text,
  append_dsml_parameter_text, guard_end_tag, at_end_tag, lt_entity, parameter_end,
}
use go_ds.Server.Stream.Stops.{starts_with}
use go_ds.Server.Dsml.Closing.{at_end_tag-starts_with}
use go_ds.Server.Dsml.Escapes.{
  Escaped, unescape_loop-Escaped, unescape_loop-nil, unescape_one-lt, unescape_one-other,
  unescape_one-amp,
}

length-entity : (p : Bytes) → length (entity p).1 ≤ length p
unfolding entity
length-entity p = elim (Option-cases (strip_prefix amp p)) [
  | inr (q, e) ↦ ground (arith, length-strip_prefix amp p q e)
  | inl n1 ↦ elim (Option-cases (strip_prefix lt p)) [
    | inr (q, e) ↦ ground (arith, length-strip_prefix lt p q e)
    | inl n2 ↦ elim (Option-cases (strip_prefix gt p)) [
      | inr (q, e) ↦ ground (arith, length-strip_prefix gt p q e)
      | inl n3 ↦ elim (Option-cases (strip_prefix quot p)) [
        | inr (q, e) ↦ ground (arith, length-strip_prefix quot p q e)
        | inl n4 ↦ elim (Option-cases (strip_prefix apos p)) [
          | inr (q, e) ↦ ground (arith, length-strip_prefix apos p q e)
          | inl n5 ↦ ground arith
        ]
      ]
    ]
  ]
]

length-unescape_one : (c : ℕ) (p : Bytes) → length (unescape_one c p).1 ≤ length p
unfolding unescape_one
length-unescape_one c p = elim (Bool-cases (c == b'&')) [
  | inl e ↦ rw e (length-entity p)
  | inr n ↦ rw n (omega arith)
]

-- More rounds than bytes change nothing.
unescape_loop-fuel :
    (m n : ℕ) (s : Bytes) → length s ≤ m → length s ≤ n → unescape_loop m s ≡ unescape_loop n s
unfolding unescape_loop
unescape_loop-fuel m n [] h k = unescape_loop-nil m ∙ sym (unescape_loop-nil n)
unescape_loop-fuel zero n (c ∷ s) h k = absurd (omega arith)
unescape_loop-fuel (suc m) zero (c ∷ s) h k = absurd (omega arith)
unescape_loop-fuel (suc m) (suc n) (c ∷ s) h k =
    let one = unescape_one c s in
    let shorter = length-unescape_one c s in
    ap (◌∷◌ one.0) (unescape_loop-fuel m n one.1 (omega arith) (omega arith))

lt_entity-Escaped : Escaped lt_entity b'<'
lt_entity-Escaped = record { first = b'&'; others = lt; cut = refl; reads = unescape_one-lt }

plain-Escaped : (c : ℕ) → c ≢ b'&' → Escaped (c ∷ []) c
plain-Escaped c h =
    let n : (c == b'&') ≡ false = ground arith in
    record { first = c; others = []; cut = refl; reads = λ p. unescape_one-other c p n }

at_end_tag-lt : (c : ℕ) (s : Bytes) → at_end_tag (c ∷ s) ≡ true → b'<' ≡ c
unfolding at_end_tag strip_prefix
at_end_tag-lt c s h = elim (Bool-cases (b'<' == c)) [
  | inl e ↦ ground arith
  | inr n ↦ absurd (ground arith)
]

unescape_loop-guard_end_tag :
    (rounds : ℕ) (s : Bytes)
    → All (λ c. c ≢ b'&') s
    → length s ≤ rounds
    → unescape_loop rounds (guard_end_tag lt_entity s) ≡ s
unfolding guard_end_tag
unescape_loop-guard_end_tag rounds [] a h = unescape_loop-nil rounds
unescape_loop-guard_end_tag zero (c ∷ s) a h = absurd (omega arith)
unescape_loop-guard_end_tag (suc rounds) (c ∷ s) a h =
    let guarded = guard_end_tag lt_entity s in
    let rest = unescape_loop-guard_end_tag rounds s a.1 (omega arith) in
    elim (Bool-cases (at_end_tag (c ∷ s))) [
      | inl e ↦
          let same = at_end_tag-lt c s e in
          rw e (
            unescape_loop-Escaped rounds b'<' lt_entity guarded lt_entity-Escaped
            ∙ ap (◌∷◌ b'<') rest
            ∙ ap (λ x. x ∷ s) same)
      | inr n ↦
          rw n (
            unescape_loop-Escaped rounds c (c ∷ []) guarded (plain-Escaped c a.0) ∙ ap (◌∷◌ c) rest)
    ]

length-guard_end_tag : (s : Bytes) → length s ≤ length (guard_end_tag lt_entity s)
unfolding guard_end_tag
length-guard_end_tag [] = omega arith
length-guard_end_tag (c ∷ s) = ground (arith, length-guard_end_tag s)

-- A string argument without an ampersand is read back as it was, closing tags in it included.
pub dsml_unescape_text-append_dsml_parameter_text :
    (s : Bytes) → All (λ c. c ≢ b'&') s → dsml_unescape_text (append_dsml_parameter_text s) ≡ s
unfolding dsml_unescape_text append_dsml_parameter_text
dsml_unescape_text-append_dsml_parameter_text s a =
    unescape_loop-guard_end_tag (length (guard_end_tag lt_entity s)) s a (length-guard_end_tag s)

-- What stands behind an ampersand does not matter for a string without one.
starts_with-amp :
    (lit s x : Bytes)
    → All (λ t. t ≢ b'&') lit
    → starts_with lit (s ++ (b'&' ∷ x)) ≡ starts_with lit s
unfolding starts_with strip_prefix
starts_with-amp [] s x a = refl
starts_with-amp (t ∷ lit) [] x a = ground arith
starts_with-amp (t ∷ lit) (c ∷ s) x a = ground (arith, starts_with-amp lit s x a.1)

at_end_tag-amp : (s x : Bytes) → at_end_tag (s ++ (b'&' ∷ x)) ≡ at_end_tag s
at_end_tag-amp s x =
    at_end_tag-starts_with (s ++ (b'&' ∷ x))
    ∙ (starts_with-amp parameter_end s x (ground arith) ∙ sym (at_end_tag-starts_with s))

guard_end_tag-amp :
    (pre x : Bytes)
    → guard_end_tag lt_entity (pre ++ (b'&' ∷ x))
      ≡ guard_end_tag lt_entity pre ++ guard_end_tag lt_entity (b'&' ∷ x)
unfolding guard_end_tag
guard_end_tag-amp [] x = refl
guard_end_tag-amp (c ∷ pre) x =
    let same = at_end_tag-amp (c ∷ pre) x in
    let rest = guard_end_tag-amp pre x in
    elim (Bool-cases (at_end_tag (c ∷ pre))) [
      | inl e ↦
          let e' : at_end_tag (c ∷ (pre ++ (b'&' ∷ x))) ≡ true = same ∙ e in
          rw (e, e', append_assoc lt_entity) (ap (◌++◌ lt_entity) rest)
      | inr n ↦
          let n' : at_end_tag (c ∷ (pre ++ (b'&' ∷ x))) ≡ false = same ∙ n in
          rw (n, n') (ap (◌∷◌ c) rest)
    ]

-- the entity is written as it is
append_dsml_parameter_text-amp :
    (pre s : Bytes)
    → append_dsml_parameter_text (pre ++ (b'&' ∷ (amp ++ s)))
      ≡ append_dsml_parameter_text pre ++ (b'&' ∷ (amp ++ append_dsml_parameter_text s))
unfolding append_dsml_parameter_text guard_end_tag at_end_tag strip_prefix
append_dsml_parameter_text-amp pre s = guard_end_tag-amp pre (amp ++ s)

-- the bytes in front of an entity are read back, and the reading goes on behind it
unescape_loop-amp :
    (rounds : ℕ) (pre t : Bytes)
    → All (λ c. c ≢ b'&') pre
    → length pre + (1 + length t) ≤ rounds
    → unescape_loop rounds (guard_end_tag lt_entity pre ++ (b'&' ∷ (amp ++ t)))
      ≡ pre ++ (b'&' ∷ dsml_unescape_text t)
unfolding guard_end_tag dsml_unescape_text
unescape_loop-amp zero pre t a h = absurd (omega arith)
unescape_loop-amp (suc rounds) [] t a h =
    unescape_loop-Escaped rounds b'&' (b'&' ∷ amp) t
      (record { first = b'&'; others = amp; cut = refl; reads = unescape_one-amp })
    ∙ ap (◌∷◌ b'&') (unescape_loop-fuel rounds (length t) t (omega arith) (omega arith))
unescape_loop-amp (suc rounds) (c ∷ pre) t a h =
    let guarded = guard_end_tag lt_entity pre in
    let rest = unescape_loop-amp rounds pre t a.1 (omega arith) in
    let tail : Bytes = b'&' ∷ (amp ++ t) in
    elim (Bool-cases (at_end_tag (c ∷ pre))) [
      | inl e ↦
          let same = at_end_tag-lt c pre e in
          rw (e, append_assoc lt_entity)
            (unescape_loop-Escaped rounds b'<' lt_entity (guarded ++ tail) lt_entity-Escaped
              ∙ ap (◌∷◌ b'<') rest
              ∙ ap (λ x. x ∷ (pre ++ (b'&' ∷ dsml_unescape_text t))) same)
      | inr n ↦ rw n (
          unescape_loop-Escaped rounds c (c ∷ []) (guarded ++ tail) (plain-Escaped c a.0)
          ∙ ap (◌∷◌ c) rest)
    ]

-- A string argument whose first ampersand begins the entity `&amp;`: the entity is written as it is,
-- and read back as an ampersand alone, between the bytes in front of it as they were and what is
-- read back of the bytes behind it.
pub dsml_unescape_text-loses_entity :
    (pre s : Bytes)
    → All (λ c. c ≢ b'&') pre
    → (append_dsml_parameter_text (pre ++ (b'&' ∷ (amp ++ s)))
        ≡ append_dsml_parameter_text pre ++ (b'&' ∷ (amp ++ append_dsml_parameter_text s)))
      × (dsml_unescape_text (append_dsml_parameter_text (pre ++ (b'&' ∷ (amp ++ s))))
          ≡ pre ++ (b'&' ∷ dsml_unescape_text (append_dsml_parameter_text s)))
unfolding append_dsml_parameter_text dsml_unescape_text unescape_loop
dsml_unescape_text-loses_entity pre s a =
    let t = append_dsml_parameter_text s in
    let written = append_dsml_parameter_text-amp pre s in
    let guarded = guard_end_tag lt_entity pre in
    let tail : Bytes = b'&' ∷ (amp ++ t) in
    let len : length (guarded ++ tail) ≡ length guarded + (5 + length t) =
      length-append guarded tail ∙ omega arith in
    let longer = length-guard_end_tag pre in
    (
      written,
      ap dsml_unescape_text written
          ∙ unescape_loop-amp (length (guarded ++ tail)) pre t a (omega arith),
    )
