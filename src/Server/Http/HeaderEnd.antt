-- ===== src/Server/Http/HeaderEnd.antt =====
-- Where `header_end` finds the end, in a buffer that grows.
use go_ds.Common.{
  ℕ, ◌+◌, ◌≤◌, ◌≡◌, refl, sym, ap, true, none, some, [], ◌∷◌, ◌++◌, Bytes, length, length-append,
  strip_prefix, arith, Bool-cases, Option-cases, inl, inr,
}
use go_ds.Server.Stream.Stops.{starts_with, strstr}
use go_ds.Server.Stream.Stops.Search.{starts_with-append, strstr-here}
use go_ds.Server.Http.{crlf_crlf, lf_lf, header_end}

-- The head ends at its first empty line, and no other line of it is empty.
pub record IsHead (h : Bytes) : Type 0 where
  pub start : ℕ
  pub found : strstr crlf_crlf h ≡ some start
  pub ends : length h ≡ start + 4
  pub no_lf_lf : strstr lf_lf h ≡ none

starts_with-length : (lit p : Bytes) → starts_with lit p ≡ true → length lit ≤ length p
unfolding starts_with strip_prefix
starts_with-length [] p h = omega arith
starts_with-length (l ∷ lit) [] h = absurd (ground arith)
starts_with-length (l ∷ lit) (c ∷ p) h = ground (arith, starts_with-length lit p)

strstr-length : (lit p : Bytes) (i : ℕ) → strstr lit p ≡ some i → i + length lit ≤ length p
unfolding strstr
strstr-length lit [] i h = ground (arith, starts_with-length lit [])
strstr-length lit (c ∷ p) i h = elim (Bool-cases (starts_with lit (c ∷ p))) [
  | inl y ↦ ground (arith, starts_with-length lit (c ∷ p) y)
  | inr n ↦ elim (Option-cases (strstr lit p)) [
    | inl f ↦ absurd (ground arith)
    | inr (j, f) ↦ ground (arith, strstr-length lit p j f)
  ]
]

starts_with-more : (lit p x : Bytes) → starts_with lit p ≡ true → starts_with lit (p ++ x) ≡ true
unfolding starts_with strip_prefix
starts_with-more [] p x h = refl
starts_with-more (l ∷ lit) [] x h = absurd (ground arith)
starts_with-more (l ∷ lit) (c ∷ p) x h = ground (arith, starts_with-more lit p x)

-- A place that is found stays the first one.
pub strstr-more : (lit p x : Bytes) (i : ℕ) → strstr lit p ≡ some i → strstr lit (p ++ x) ≡ some i
unfolding strstr
strstr-more lit [] x i h = elim (Bool-cases (starts_with lit [])) [
  | inl y ↦ let e = strstr-here lit x (starts_with-more lit [] x y) in ground arith
  | inr n ↦ absurd (ground arith)
]
strstr-more lit (c ∷ p) x i h = elim (Bool-cases (starts_with lit (c ∷ p))) [
  | inl y ↦ let y' = starts_with-more lit (c ∷ p) x y in ground arith
  | inr n ↦ elim (Option-cases (strstr lit p)) [
    | inl f ↦ absurd (ground arith)
    | inr (j, f) ↦
        let fits = strstr-length lit p j f in
        let later = strstr-more lit p x j f in
        elim (Bool-cases (starts_with lit (c ∷ (p ++ x)))) [
          | inl y ↦ let short = starts_with-append lit (c ∷ p) x n y in absurd (omega arith)
          | inr m ↦ ground arith
        ]
  ]
]

pub header_end-IsHead : (h x : Bytes) → IsHead h → header_end (h ++ x) ≡ some (length h)
unfolding header_end
header_end-IsHead h x head =
    let e = strstr-more crlf_crlf h x head.start head.found in
    rw (e, header_end) (ap some (sym head.ends))

pub header_end-part : (b y : Bytes) → IsHead (b ++ y) → 1 ≤ length y → header_end b ≡ none
unfolding header_end
header_end-part b y head more = elim (Option-cases (strstr crlf_crlf b)) [
  | inr (i, f) ↦
      let e = strstr-more crlf_crlf b y i f in
      let fits = strstr-length crlf_crlf b i f in
      let first = head.found in
      let ends = head.ends in
      let sum = length-append b y in
      let same : i ≡ head.start = ground arith in absurd (omega arith)
  | inl f ↦ elim (Option-cases (strstr lf_lf b)) [
    | inr (i, g) ↦
        let e = strstr-more lf_lf b y i g in let no = head.no_lf_lf in absurd (ground arith)
    | inl g ↦ rw (f, g, header_end)
  ]
]
