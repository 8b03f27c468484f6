-- ===== src/Server/Json/Bounds.antt =====
-- The readers of JSON text end, and read at least one byte where they succeed.
use go_ds.Common.{
  ℕ, zero, suc, ◌+◌, ◌*◌, ◌^◌, ◌≤◌, ◌<◌, ◌≡◌, ◌≢◌, refl, inl, inr, ◌⊎◌, some, [], ◌∷◌, ◌++◌, Bytes,
  length, peek, advance, arith, Bool-cases, is_space, length-skip_while, length-advance,
  length-advance_suc, Option-cases, ◌==◌,
}
use go_ds.Server.Json.Text.{
  Parse, ok, fail, starved, ◌>>=◌, json_hex, hex_digits, json_u16, surrogate_pair, json_unescape,
  json_chars, json_string, json_ws,
}

-- The reader has ended, and after a success less is left than `p`.
abbrev pub Consumes {ℓ} : {A : Type ℓ} → Bytes → Parse A → Type 0
Consumes p (ok a q) = length q < length p
Consumes p fail = Unit
Consumes p starved = ⊥

-- A reader that has ended failed or succeeded.
pub Parse-cases :
    (p : Bytes) (r : Parse (Unit {0})) → Consumes p r → (r ≡ fail) ⊎ ((q : Bytes) × (r ≡ ok tt q))
Parse-cases p (ok a q) c = inr (q, refl)
Parse-cases p fail c = inl refl
Parse-cases p starved c = absurd c

pub length-json_ws : (p : Bytes) → length (json_ws p) ≤ length p
unfolding json_ws
length-json_ws p = length-skip_while is_space p

length-hex_digits :
    (n cp : ℕ) (p : Bytes) (v : ℕ) (q : Bytes)
    → hex_digits n cp p ≡ some (v, q)
    → length q ≤ length p
unfolding hex_digits
length-hex_digits zero cp p v q h = ground arith
length-hex_digits (suc n) cp p v q h = elim (Option-cases (json_hex (peek p))) [
  | inl e ↦ cc (e, h)
  | inr (d, e) ↦
      ground (arith, length-hex_digits n (cp * 2 ^ 4 + d) (advance p) v q, length-advance p)
]

length-json_u16 :
    (p : Bytes) (v : ℕ) (q : Bytes) → json_u16 p ≡ some (v, q) → length q + 2 ≤ length p
unfolding json_u16
length-json_u16 [] v q h = cc
length-json_u16 (b ∷ []) v q h = cc
length-json_u16 (b ∷ u ∷ p) v q h = ground (arith, length-hex_digits 4 0 p v q)

length-surrogate_pair : (cp : ℕ) (p : Bytes) → length (surrogate_pair cp p).1 ≤ length p
unfolding surrogate_pair
length-surrogate_pair cp p = elim (Option-cases (json_u16 p)) [
  | inl e ↦ ground arith
  | inr ((lo, q), e) ↦ ground (arith, length-json_u16 p lo q e)
]

length-json_unescape :
    (p bytes q : Bytes) → peek p ≢ 0 → json_unescape p ≡ some (bytes, q) → length q < length p
unfolding json_unescape
length-json_unescape p bytes q z h = elim (Option-cases (json_u16 p)) [
  | inl e ↦ ground (arith, length-advance_suc p, length-advance (advance p))
  | inr ((cp, r), e) ↦ ground (
    arith,
    length-json_u16 p cp r e,
    length-advance_suc p,
    length-advance (advance p),
    length-surrogate_pair cp r,
  )
]

pub Consumes-mono {ℓ} :
    {A : Type ℓ} (p q : Bytes) (r : Parse A) → length q ≤ length p → Consumes q r → Consumes p r
Consumes-mono p q (ok a s) h c = omega arith
Consumes-mono p q fail h c = tt
Consumes-mono p q starved h c = c

pub Consumes-bind {ℓ κ} :
    {A : Type ℓ} {B : Type κ} (p : Bytes) (r : Parse A) (f : A → Bytes → Parse B)
    → Consumes p r
    → ((a : A) (q : Bytes) → length q < length p → Consumes p (f a q))
    → Consumes p (r >>= f)
Consumes-bind p (ok a q) f c k = k a q c
Consumes-bind p fail f c k = tt
Consumes-bind p starved f c k = c

-- Each round reads a byte, so the loop ends within its fuel.
json_chars-Consumes : (n : ℕ) (out p : Bytes) → length p < n → Consumes p (json_chars n out p)
unfolding json_chars
json_chars-Consumes zero out p h = elim h [ ]
json_chars-Consumes (suc n) out [] h = tt
json_chars-Consumes (suc n) out (c ∷ p) h =
    let plain =
      Consumes-mono (c ∷ p) p _ (omega arith)
        (json_chars-Consumes n (out ++ c ∷ []) p (omega arith)) in
    elim (Bool-cases (c == 0)) [
      | inl z ↦ ground arith
      | inr nz ↦ elim (Option-cases (json_unescape (c ∷ p))) [
        | inl e ↦ rw (e, json_chars) (ground (arith, plain))
        | inr ((bytes, q), e) ↦
            let less : length q < length (c ∷ p) =
              length-json_unescape (c ∷ p) bytes q (ground arith) e in
            let escaped =
              Consumes-mono (c ∷ p) q _ (omega arith)
                (json_chars-Consumes n (out ++ bytes) q (omega arith)) in
            rw (e, json_chars) (ground (arith, plain, escaped))
      ]
    ]

pub json_string-Consumes : (p : Bytes) → Consumes p (json_string p)
unfolding json_string
json_string-Consumes p =
    let q = json_ws p in
    let less = Consumes-mono p q _ (length-json_ws p) (
      Consumes-mono q (advance q) _ (length-advance q)
        (json_chars-Consumes (suc (length q)) [] (advance q) (omega (arith, length-advance q)))) in
    ground (arith, less)
