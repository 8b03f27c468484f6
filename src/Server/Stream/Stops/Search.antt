-- ===== src/Server/Stream/Stops/Search.antt =====
-- The search for stop strings, in a text that gets longer and from a place in it.
use go_ds.Common.{
  ℕ, zero, suc, ◌+◌, ◌≤◌, ◌<◌, ◌≡◌, ◌≢◌, refl, ap, ◌∙◌, inl, inr, true, false, Option, none, some,
  List, [], ◌∷◌, ◌++◌, Bytes, length, drop, strip_prefix, arith, All, Bool-cases, Option-cases,
}
use go_ds.Server.Stream.Stops.{starts_with, strstr, earlier, find_stop}

pub starts_with-append :
    (lit p more : Bytes)
    → starts_with lit p ≡ false
    → starts_with lit (p ++ more) ≡ true
    → length p < length lit
unfolding starts_with strip_prefix
starts_with-append [] p more h k = cc
starts_with-append (l ∷ lit) [] more h k = omega arith
starts_with-append (l ∷ lit) (c ∷ p) more h k = ground (arith, starts_with-append lit p more)

pub strstr-here : (lit p : Bytes) → starts_with lit p ≡ true → strstr lit p ≡ some 0
unfolding strstr
strstr-here lit [] h = rw h
strstr-here lit (c ∷ p) h = rw h

pub strstr-append :
    (lit text more : Bytes) (i : ℕ)
    → 1 ≤ length lit
    → strstr lit text ≡ none
    → strstr lit (text ++ more) ≡ some i
    → length text < i + length lit
unfolding strstr
strstr-append lit [] more i pos h k = omega arith
strstr-append lit (c ∷ p) more i pos h k = elim (Bool-cases (starts_with lit (c ∷ p))) [
  | inl y ↦ ground arith
  | inr n ↦ elim (Option-cases (strstr lit p)) [
    | inr (j, f) ↦ ground arith
    | inl f ↦ elim (Bool-cases (starts_with lit (c ∷ (p ++ more)))) [
      | inl y ↦ ground (arith, starts_with-append lit (c ∷ p) more n y)
      | inr m ↦ elim (Option-cases (strstr lit (p ++ more))) [
        | inl g ↦ ground arith
        | inr (j, g) ↦ ground (arith, strstr-append lit p more j pos f g)
      ]
    ]
  ]
]

-- an offset, moved by the bytes in front
abbrev pub shift : ℕ → Option ℕ → Option ℕ
shift k none = none
shift k (some i) = some (k + i)

-- The search may start behind every place where the string would have been found already.
pub strstr-drop :
    (lit text more : Bytes) (k : ℕ)
    → 1 ≤ length lit
    → strstr lit text ≡ none
    → k + length lit ≤ length text + 1
    → strstr lit (text ++ more) ≡ shift k (strstr lit (drop k (text ++ more)))
unfolding strstr
strstr-drop lit text more zero pos h fits = elim (Option-cases (strstr lit (text ++ more))) [
  | inl f ↦ rw (f, shift)
  | inr (i, f) ↦ ground arith
]
strstr-drop lit [] more (suc k) pos h fits = absurd (omega arith)
strstr-drop lit (c ∷ p) more (suc k) pos h fits = elim (Bool-cases (starts_with lit (c ∷ p))) [
  | inl y ↦ ground arith
  | inr n ↦ elim (Option-cases (strstr lit p)) [
    | inr (j, f) ↦ ground arith
    | inl f ↦ elim (Bool-cases (starts_with lit (c ∷ (p ++ more)))) [
      | inl y ↦ absurd (ground (arith, starts_with-append lit (c ∷ p) more n y))
      | inr m ↦ elim (Option-cases (strstr lit (drop k (p ++ more)))) [
        | inl g ↦ ground (arith, strstr-drop lit p more k pos f)
        | inr (j, g) ↦ ground (arith, strstr-drop lit p more k pos f)
      ]
    ]
  ]
]

-- a stop string that the list may hold
abbrev pub StopOk : ℕ → Bytes → Type 0
StopOk max_len s = (1 ≤ length s) × (length s ≤ max_len)

-- a position and a length, moved by the bytes in front
abbrev pub shift_hit : ℕ → Option (ℕ × ℕ) → Option (ℕ × ℕ)
shift_hit k none = none
shift_hit k (some (pos, len)) = some (k + pos, len)

find_stop-some : (v : List Bytes) (text : Bytes) (b : ℕ × ℕ) → find_stop v text (some b) ≢ none
unfolding find_stop
find_stop-some [] text b h = cc
find_stop-some (s ∷ v) text b h = elim (Option-cases (strstr s text)) [
  | inl f ↦ ground (arith, find_stop-some v text b)
  | inr (pos, f) ↦ elim (Bool-cases (earlier pos (some b))) [
    | inl e ↦ ground (arith, find_stop-some v text (pos, length s))
    | inr e ↦ ground (arith, find_stop-some v text b)
  ]
]

-- Where no string is found, each is absent.
find_stop-none_head :
    (s : Bytes) (v : List Bytes) (text : Bytes)
    → find_stop (s ∷ v) text none ≡ none
    → strstr s text ≡ none
unfolding find_stop
find_stop-none_head s v text h = elim (Option-cases (strstr s text)) [
  | inl f ↦ f
  | inr (pos, f) ↦ absurd (ground (arith, find_stop-some v text (pos, length s)))
]

find_stop-none_tail :
    (s : Bytes) (v : List Bytes) (text : Bytes)
    → find_stop (s ∷ v) text none ≡ none
    → find_stop v text none ≡ none
unfolding find_stop
find_stop-none_tail s v text h = ground (arith, find_stop-none_head s v text h)

earlier-shift_hit :
    (k pos : ℕ) (best : Option (ℕ × ℕ)) → earlier (k + pos) (shift_hit k best) ≡ earlier pos best
earlier-shift_hit k pos none = refl
earlier-shift_hit k pos (some (b, _)) = ground arith

pub find_stop-drop :
    (v : List Bytes) (text more : Bytes) (k max_len : ℕ) (best : Option (ℕ × ℕ))
    → All (StopOk max_len) v
    → find_stop v text none ≡ none
    → k + max_len ≤ length text + 1
    → find_stop v (text ++ more) (shift_hit k best)
      ≡ shift_hit k (find_stop v (drop k (text ++ more)) best)
unfolding find_stop
find_stop-drop [] text more k m best ok none_yet fits = refl
find_stop-drop (s ∷ v) text more k m best ok none_yet fits =
    let absent = find_stop-none_head s v text none_yet in
    let moved = strstr-drop s text more k ok.0.0 absent (omega (arith, ok.0.1)) in
    let later = find_stop-none_tail s v text none_yet in
    elim (Option-cases (strstr s (drop k (text ++ more)))) [
      | inl f ↦ ground (arith, moved, find_stop-drop v text more k m best ok.1 later fits)
      | inr (pos, f) ↦
          let here : strstr s (text ++ more) ≡ some (k + pos) = moved ∙ ap (shift k) f in
          elim (Bool-cases (earlier pos best)) [
            | inl e ↦ ground (
              arith,
              here,
              earlier-shift_hit k pos best,
              find_stop-drop v text more k m (some (pos, length s)) ok.1 later fits,
            )
            | inr e ↦ ground (
              arith,
              here,
              earlier-shift_hit k pos best,
              find_stop-drop v text more k m best ok.1 later fits,
            )
          ]
    ]

-- A hit that more text brings ends in that text.
pub find_stop-append :
    (v : List Bytes) (text more : Bytes) (max_len pos len : ℕ) (best : Option (ℕ × ℕ))
    → All (StopOk max_len) v
    → find_stop v text none ≡ none
    → ((b : ℕ × ℕ) → best ≡ some b → length text < b.0 + max_len)
    → find_stop v (text ++ more) best ≡ some (pos, len)
    → length text < pos + max_len
unfolding find_stop
find_stop-append [] text more m pos len best ok none_yet late found = late (pos, len) found
find_stop-append (s ∷ v) text more m pos len best ok none_yet late found =
    let absent = find_stop-none_head s v text none_yet in
    let later = find_stop-none_tail s v text none_yet in
    elim (Option-cases (strstr s (text ++ more))) [
      | inl f ↦ find_stop-append v text more m pos len best ok.1 later late (ground arith)
      | inr (i, f) ↦
          let at_end = strstr-append s text more i ok.0.0 absent f in
          elim (Bool-cases (earlier i best)) [
            | inl e ↦
                find_stop-append v text more m pos len (some (i, length s)) ok.1 later
                  (λ b eq. ground (arith, at_end, ok.0.1)) (ground arith)
            | inr e ↦ find_stop-append v text more m pos len best ok.1 later late (ground arith)
          ]
    ]

pub find_stop-length :
    (v : List Bytes) (text : Bytes) (b : ℕ × ℕ) → find_stop v text none ≡ some b → 1 ≤ length v
unfolding find_stop
find_stop-length [] text b h = cc
find_stop-length (s ∷ v) text b h = omega arith

pub find_stop-empty : (m : ℕ) (v : List Bytes) → All (StopOk m) v → find_stop v [] none ≡ none
unfolding find_stop strstr starts_with strip_prefix
find_stop-empty m [] ok = refl
find_stop-empty m ([] ∷ v) ok = absurd (omega (arith, ok.0.0))
find_stop-empty m ((c ∷ s) ∷ v) ok = find_stop-empty m v ok.1

pub find_from-shift_hit :
    (k : ℕ) (best : Option (ℕ × ℕ))
    → (elim best [ none ↦ none | some (pos, len) ↦ some (k + pos, len) ]) ≡ shift_hit k best
find_from-shift_hit k none = refl
find_from-shift_hit k (some (pos, len)) = refl

pub shift_hit_zero : (best : Option (ℕ × ℕ)) → shift_hit 0 best ≡ best
shift_hit_zero none = refl
shift_hit_zero (some (pos, len)) = ground arith
