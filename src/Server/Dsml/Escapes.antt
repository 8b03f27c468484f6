-- ===== src/Server/Dsml/Escapes.antt =====
-- Escaped text is read back by `dsml_unescape_text`; a string argument with entities is not.
use go_ds.Common.{
  ℕ, zero, suc, ◌≤◌, ◌≡◌, refl, ap, ◌∙◌, false, [], ◌∷◌, ◌++◌, Bytes, length, strip_prefix, ◌==◌,
  arith, Bool-cases, inl, inr, length-append,
}
use go_ds.Server.Dsml.{
  amp, lt, gt, quot, escape_text_byte, escape_attr_byte, append_dsml_attr_escaped,
  append_dsml_text_escaped, entity, unescape_one, unescape_loop, dsml_unescape_text,
}

-- what a byte is escaped to: read back as the byte
pub record Escaped (out : Bytes) (c : ℕ) : Type 0 where
  pub first : ℕ
  pub others : Bytes
  pub cut : out ≡ first ∷ others
  pub reads : (p : Bytes) → unescape_one first (others ++ p) ≡ (c, p)

pub unescape_one-amp : (p : Bytes) → unescape_one b'&' (amp ++ p) ≡ (b'&', p)
unfolding unescape_one entity strip_prefix
unescape_one-amp p = refl

pub unescape_one-lt : (p : Bytes) → unescape_one b'&' (lt ++ p) ≡ (b'<', p)
unfolding unescape_one entity strip_prefix
unescape_one-lt p = refl

pub unescape_one-gt : (p : Bytes) → unescape_one b'&' (gt ++ p) ≡ (b'>', p)
unfolding unescape_one entity strip_prefix
unescape_one-gt p = refl

pub unescape_one-quot : (p : Bytes) → unescape_one b'&' (quot ++ p) ≡ (b'"', p)
unfolding unescape_one entity strip_prefix
unescape_one-quot p = refl

pub unescape_one-other : (c : ℕ) (p : Bytes) → (c == b'&') ≡ false → unescape_one c p ≡ (c, p)
unfolding unescape_one
unescape_one-other c p e = rw e

escape_text_byte-Escaped : (c : ℕ) → Escaped (escape_text_byte c) c
unfolding escape_text_byte
escape_text_byte-Escaped c = elim (Bool-cases (c == b'&')) [
  | inl e ↦
      let same : b'&' ≡ c = ground arith in
      rw (e, ← same) (record { first = b'&'; others = amp; cut = refl; reads = unescape_one-amp })
  | inr plain ↦ elim (Bool-cases (c == b'<')) [
    | inl e ↦
        let same : b'<' ≡ c = ground arith in
        rw (plain, e, ← same)
          (record { first = b'&'; others = lt; cut = refl; reads = unescape_one-lt })
    | inr n ↦ elim (Bool-cases (c == b'>')) [
      | inl e ↦
          let same : b'>' ≡ c = ground arith in
          rw (plain, n, e, ← same)
            (record { first = b'&'; others = gt; cut = refl; reads = unescape_one-gt })
      | inr m ↦
          rw (plain, n, m)
            (record {
              first = c;
              others = [];
              cut = refl;
              reads = λ p. unescape_one-other c p plain;
            })
    ]
  ]
]

escape_attr_byte-Escaped : (c : ℕ) → Escaped (escape_attr_byte c) c
unfolding escape_attr_byte
escape_attr_byte-Escaped c = elim (Bool-cases (c == b'"')) [
  | inl e ↦
      let same : b'"' ≡ c = ground arith in
      rw (e, ← same) (record { first = b'&'; others = quot; cut = refl; reads = unescape_one-quot })
  | inr n ↦ rw n (escape_text_byte-Escaped c)
]

pub unescape_loop-nil : (rounds : ℕ) → unescape_loop rounds [] ≡ []
unfolding unescape_loop
unescape_loop-nil zero = refl
unescape_loop-nil (suc rounds) = refl

-- a string of such bytes
pub unescape_loop-Escaped :
    (rounds c : ℕ) (out rest : Bytes)
    → Escaped out c
    → unescape_loop (suc rounds) (out ++ rest) ≡ c ∷ unescape_loop rounds rest
unfolding unescape_loop
unescape_loop-Escaped rounds c out rest e =
    ap (λ x. unescape_loop (suc rounds) (x ++ rest)) e.cut
    ∙ ap (λ one. one.0 ∷ unescape_loop rounds one.1) (e.reads rest)

unescape_loop-attr :
    (rounds : ℕ) (s : Bytes)
    → length s ≤ rounds
    → unescape_loop rounds (append_dsml_attr_escaped s) ≡ s
unfolding append_dsml_attr_escaped
unescape_loop-attr zero [] h = unescape_loop-nil zero
unescape_loop-attr (suc rounds) [] h = unescape_loop-nil (suc rounds)
unescape_loop-attr zero (c ∷ s) h = absurd (omega arith)
unescape_loop-attr (suc rounds) (c ∷ s) h =
    unescape_loop-Escaped rounds c (escape_attr_byte c) (append_dsml_attr_escaped s)
      (escape_attr_byte-Escaped c)
    ∙ ap (◌∷◌ c) (unescape_loop-attr rounds s (omega arith))

unescape_loop-text :
    (rounds : ℕ) (s : Bytes)
    → length s ≤ rounds
    → unescape_loop rounds (append_dsml_text_escaped s) ≡ s
unfolding append_dsml_text_escaped
unescape_loop-text zero [] h = unescape_loop-nil zero
unescape_loop-text (suc rounds) [] h = unescape_loop-nil (suc rounds)
unescape_loop-text zero (c ∷ s) h = absurd (omega arith)
unescape_loop-text (suc rounds) (c ∷ s) h =
    unescape_loop-Escaped rounds c (escape_text_byte c) (append_dsml_text_escaped s)
      (escape_text_byte-Escaped c)
    ∙ ap (◌∷◌ c) (unescape_loop-text rounds s (omega arith))

length-attr : (s : Bytes) → length s ≤ length (append_dsml_attr_escaped s)
unfolding append_dsml_attr_escaped
length-attr [] = omega arith
length-attr (c ∷ s) =
    let cut = ap length (escape_attr_byte-Escaped c).cut in
    omega (arith, length-attr s, length-append (escape_attr_byte c) (append_dsml_attr_escaped s))

length-text : (s : Bytes) → length s ≤ length (append_dsml_text_escaped s)
unfolding append_dsml_text_escaped
length-text [] = omega arith
length-text (c ∷ s) =
    let cut = ap length (escape_text_byte-Escaped c).cut in
    omega (arith, length-text s, length-append (escape_text_byte c) (append_dsml_text_escaped s))

-- An attribute is read back as it was before it was escaped, whatever bytes it has; so is a text.
pub dsml_unescape_text-escaped :
    (s : Bytes)
    → (dsml_unescape_text (append_dsml_attr_escaped s) ≡ s)
      × (dsml_unescape_text (append_dsml_text_escaped s) ≡ s)
unfolding dsml_unescape_text
dsml_unescape_text-escaped s = (
  unescape_loop-attr (length (append_dsml_attr_escaped s)) s (length-attr s),
  unescape_loop-text (length (append_dsml_text_escaped s)) s (length-text s),
)
