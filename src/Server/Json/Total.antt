-- ===== src/Server/Json/Total.antt =====
-- Skipping a value ends, for every text, and reads at least a byte where it succeeds; what is
-- copied out of the text is then all of it up to the rest.
use go_ds.Common.{
  ℕ, zero, suc, ◌+◌, ◌*◌, ◌≤◌, ◌<◌, ◌≢◌, inl, inr, none, some, [], ◌∷◌, Bytes, length, peek,
  advance, arith, length-advance, length-advance_suc, Option-cases, ◌==◌, length-strip_prefix,
  strip_prefix, if◌then◌else◌,
}
use go_ds.Server.Json.Text.{Parse, ok, ◌>>=◌, json_string, json_ws}
use go_ds.Server.Json.Bounds.{
  Consumes, Consumes-mono, Consumes-bind, json_string-Consumes, length-json_ws,
}
use go_ds.Server.Json.Skip.{
  json_number, skip_scalar, expect, skip_value, skip_array, skip_items, skip_object, skip_fields,
  json_skip_value,
}
use go_ds.Server.Json.Number.{strtod_end, strtod_end-lt}

json_number-Consumes : (p : Bytes) → Consumes p (json_number p)
unfolding json_number
json_number-Consumes p = elim (Option-cases (strtod_end (json_ws p))) [
  | inl e ↦ rw (e, json_number) tt
  | inr (q, e) ↦
      rw (e, json_number) (omega (arith, strtod_end-lt (json_ws p) q e, length-json_ws p))
]

literal-Consumes :
    (lit p : Bytes) (other : Parse (Unit {0}))
    → 0 < length lit
    → Consumes p other
    → Consumes p (elim (strip_prefix lit p) [ some q ↦ ok tt q | none ↦ other ])
literal-Consumes lit p other z h = elim (Option-cases (strip_prefix lit p)) [
  | inl e ↦ ground (arith, h)
  | inr (q, e) ↦ rw e (omega (arith, length-strip_prefix lit p q e))
]

skip_scalar-Consumes : (p : Bytes) → Consumes p (skip_scalar p)
unfolding skip_scalar
skip_scalar-Consumes p = literal-Consumes _ p _ (omega arith) (
    literal-Consumes _ p _ (omega arith)
      (literal-Consumes _ p _ (omega arith) (json_number-Consumes p)))

expect-Consumes : (c : ℕ) (p : Bytes) → c ≢ 0 → Consumes p (expect c p)
expect-Consumes c p z = ground (arith, length-advance_suc p)

-- What is left after white space and one expected byte.
then_expect :
    (p : Bytes) (c : ℕ) (f : Bytes → Parse (Unit {0}))
    → c ≢ 0
    → ((q : Bytes) → length q < length p → Consumes p (f q))
    → Consumes p (expect c (json_ws p) >>= λ _ q. f q)
then_expect p c f z k =
    Consumes-bind p (expect c (json_ws p)) (λ _ q. f q)
      (Consumes-mono p (json_ws p) _ (length-json_ws p) (expect-Consumes c (json_ws p) z))
      (λ _ q. k q)

-- The end of a bracket, or what follows.
close_or :
    (p q : Bytes) (c : ℕ) (other : Parse (Unit {0}))
    → c ≢ 0
    → length q < length p
    → Consumes p other
    → Consumes p (if peek (json_ws q) == c then ok tt (advance (json_ws q)) else other)
close_or p q c other z h o = ground (arith, o, length-json_ws q, length-advance (json_ws q))

weaker : (p q : Bytes) (r : Parse (Unit {0})) → length q < length p → Consumes q r → Consumes p r
weaker p q r h = Consumes-mono p q r (omega arith)

-- the four ways on from the first byte of a value
dispatch :
    (q : Bytes) (string object array other : Parse (Unit {0}))
    → Consumes q string
    → (0 < length q → Consumes q object)
    → (0 < length q → Consumes q array)
    → Consumes q other
    → Consumes q (
        if peek q == b'"'
        then string
        else if peek q == b'{'
        then object
        else if peek q == b'['
        then array
        else other)
dispatch [] string object array other s o a r = r
dispatch (c ∷ q) string object array other s o a r =
    ground (arith, s, o (omega arith), a (omega arith), r)

mutual
  unfolding skip_value skip_array skip_items skip_object skip_fields

  skip_value-Consumes : (n : ℕ) (p : Bytes) → 3 * length p < n → Consumes p (skip_value n p)
  skip_value-Consumes zero p h = elim h [ ]
  skip_value-Consumes (suc n) p h =
      let q = json_ws p in
      let shorter = length-json_ws p in
      Consumes-mono p q _ shorter (
        dispatch q _ _ _ _
          (Consumes-bind q (json_string q) (λ _ r. ok tt r) (json_string-Consumes q) (λ _ r l. l))
          (skip_object-Consumes n q (omega arith)) (skip_array-Consumes n q (omega arith))
          (skip_scalar-Consumes q))

  skip_array-Consumes :
      (n : ℕ) (p : Bytes) → 3 * length p ≤ n → 0 < length p → Consumes p (skip_array n p)
  skip_array-Consumes zero p h z = absurd (omega arith)
  skip_array-Consumes (suc n) p h z = then_expect p b'[' _ (omega arith) λ q l.
      let ws = length-json_ws q in
      close_or p q b']' _ (omega arith) l (
        Consumes-mono p (json_ws q) _ (omega arith)
          (skip_items-Consumes n (json_ws q) (omega arith)))

  skip_items-Consumes : (n : ℕ) (p : Bytes) → 3 * length p + 1 < n → Consumes p (skip_items n p)
  skip_items-Consumes zero p h = elim h [ ]
  skip_items-Consumes (suc n) p h =
      Consumes-bind p (skip_value n p) _ (skip_value-Consumes n p (omega arith)) λ _ q l.
        close_or p q b']' _ (omega arith) l (
          weaker p q _ l (
            then_expect q b',' (skip_items n) (omega arith)
              λ r m. weaker q r _ m (skip_items-Consumes n r (omega arith))))

  skip_object-Consumes :
      (n : ℕ) (p : Bytes) → 3 * length p ≤ n → 0 < length p → Consumes p (skip_object n p)
  skip_object-Consumes zero p h z = absurd (omega arith)
  skip_object-Consumes (suc n) p h z = then_expect p b'{' _ (omega arith) λ q l.
      let ws = length-json_ws q in
      close_or p q b'}' _ (omega arith) l (
        Consumes-mono p (json_ws q) _ (omega arith)
          (skip_fields-Consumes n (json_ws q) (omega arith)))

  skip_fields-Consumes : (n : ℕ) (p : Bytes) → 3 * length p + 1 < n → Consumes p (skip_fields n p)
  skip_fields-Consumes zero p h = elim h [ ]
  skip_fields-Consumes (suc n) p h =
      Consumes-bind p (json_string p) _ (json_string-Consumes p) λ _ q l. weaker p q _ l (
        then_expect q b':' _ (omega arith) λ r m. weaker q r _ m (
          Consumes-bind r (skip_value n r) _ (skip_value-Consumes n r (omega arith)) λ _ s k.
            close_or r s b'}' _ (omega arith) k (
              weaker r s _ k (
                then_expect s b',' (skip_fields n) (omega arith)
                  λ t j. weaker s t _ j (skip_fields-Consumes n t (omega arith))))))

-- For every text the skipper ends, and where it succeeds it has read at least one byte.
pub json_skip_value-Consumes : (p : Bytes) → Consumes p (json_skip_value p)
unfolding json_skip_value
json_skip_value-Consumes p = skip_value-Consumes (suc (3 * length p)) p (omega arith)
