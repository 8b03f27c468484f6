-- ===== src/Server/Stream/Stops/Safe.antt =====
-- Stop strings that are completed only by later text.
use go_ds.Common.{
  ℕ, zero, suc, ◌+◌, ◌≤◌, ◌<◌, ◌≡◌, ◌≢◌, refl, ap, ◌∙◌, inl, inr, ◌⊎◌, false, none, some, List, [],
  ◌∷◌, ◌++◌, Bytes, length, drop, ltb, leb, ◌==◌, arith, All, All-append, All-append_left,
  Bool-cases, sym,
}
use go_ds.Server.Stream.Stops.{
  StopList, stop_list_push, find_stop, stop_list_find_from, c_string, stop_list_stream_safe_len,
}
use go_ds.Server.Stream.Stops.Search.{
  StopOk, shift_hit, find_stop-drop, find_stop-append, find_stop-length, find_stop-empty,
  find_from-shift_hit, shift_hit_zero,
}

-- Every string of the list is not empty, and no longer than `max_len` tells.
unfoldable pub IsValid : StopList → Type 0
IsValid stops = All (StopOk stops.max_len) stops.v

StopOk-weaken : (m n : ℕ) (v : List Bytes) → m ≤ n → All (StopOk m) v → All (StopOk n) v
StopOk-weaken m n [] h a = tt
StopOk-weaken m n (s ∷ v) h a = ((a.0.0, omega (arith, a.0.1)), StopOk-weaken m n v h a.1)

-- Pushing a string keeps the list valid; an empty one is dropped.
pub stop_list_push-IsValid :
    (stops : StopList) (s : Bytes) → IsValid stops → IsValid (stop_list_push stops s)
unfolding stop_list_push IsValid
stop_list_push-IsValid stops s v = elim (Bool-cases (length s == 0)) [
  | inl e ↦ rw e v
  | inr n ↦ elim (Bool-cases (ltb stops.max_len (length s))) [
    | inl l ↦
        rw (n, l)
          (All-append (StopOk (length s)) stops.v (s ∷ [])
            (StopOk-weaken stops.max_len (length s) stops.v (ground arith) v)
            ((ground arith, omega arith), tt))
    | inr g ↦
        rw (n, g)
          (All-append (StopOk stops.max_len) stops.v (s ∷ []) v ((ground arith, ground arith), tt))
  ]
]

stream_safe_len_bound :
    (stops : StopList) (n pos : ℕ)
    → 1 ≤ length stops.v
    → n < pos + stops.max_len
    → stop_list_stream_safe_len stops n ≤ pos
unfolding stop_list_stream_safe_len
stream_safe_len_bound stops n pos some_stop late = elim (Bool-cases (leb stops.max_len 1)) [
  | inl e ↦ ground arith
  | inr e ↦ ground arith
]

-- a text in which no byte is NUL
abbrev pub NoNul : Bytes → Type 0
NoNul s = All (λ c. c ≢ 0) s

pub c_string-NoNul : (s : Bytes) → NoNul s → c_string s ≡ s
unfolding c_string
c_string-NoNul [] h = refl
c_string-NoNul (c ∷ s) h =
    let n : (c == 0) ≡ false = ground (arith, h.0) in rw n (ap (◌∷◌ c) (c_string-NoNul s h.1))

-- A buffer that gets longer: its C string ends where it did, or goes on.
c_string-append :
    (s more : Bytes)
    → (c_string (s ++ more) ≡ c_string s)
      ⊎ ((c_string s ≡ s) × (c_string (s ++ more) ≡ s ++ c_string more))
unfolding c_string
c_string-append [] more = inr (refl, refl)
c_string-append (c ∷ s) more = elim (Bool-cases (c == 0)) [
  | inl e ↦ inl (rw e)
  | inr n ↦ elim (c_string-append s more) [
    | inl same ↦ inl (rw (n, same))
    | inr (whole, longer) ↦ inr (rw (n, whole), rw (n, longer))
  ]
]

-- For a valid list and a text without a stop string: where more text brings one, it begins behind
-- the bytes of the text that may have been sent.
pub stop_list_stream_safe_len_safe :
    (stops : StopList) (text more : Bytes) (pos len : ℕ)
    → IsValid stops
    → stop_list_find_from stops text 0 ≡ none
    → stop_list_find_from stops (text ++ more) 0 ≡ some (pos, len)
    → stop_list_stream_safe_len stops (length text) ≤ pos
unfolding stop_list_find_from IsValid
stop_list_stream_safe_len_safe stops text more pos len valid none_yet found =
    let absent : find_stop stops.v (c_string text) none ≡ none = ground arith in
    let hit : find_stop stops.v (c_string (text ++ more)) none ≡ some (pos, len) = ground arith in
    elim (c_string-append text more) [
      | inl same ↦ let again = ap (λ s. find_stop stops.v s none) same in absurd (ground arith)
      | inr (whole, longer) ↦
          let absent' : find_stop stops.v text none ≡ none =
            ap (λ s. find_stop stops.v s none) (sym whole) ∙ absent in
          let hit' : find_stop stops.v (text ++ c_string more) none ≡ some (pos, len) =
            ap (λ s. find_stop stops.v s none) (sym longer) ∙ hit in
          let late =
            find_stop-append stops.v text (c_string more) stops.max_len pos len none valid absent'
              (λ b eq. absurd (ground arith)) hit' in
          stream_safe_len_bound stops (length text) pos
            (find_stop-length stops.v (text ++ c_string more) (pos, len) hit') late
    ]

-- A start from which a search that comes after `text` misses nothing: 0, or one that leaves
-- `max_len - 1` bytes of `text` to be read again.
abbrev pub ScanFrom : StopList → ℕ → ℕ → Type 0
ScanFrom stops text_len k = (k ≡ 0) ⊎ (k + stops.max_len ≤ text_len + 1)

pub NoNul-drop : (k : ℕ) (s : Bytes) → NoNul s → NoNul (drop k s)
NoNul-drop zero s h = h
NoNul-drop (suc k) [] h = h
NoNul-drop (suc k) (c ∷ s) h = NoNul-drop k s h.1

-- In a text without NUL the search is that of the list of its bytes.
find_from-NoNul :
    (stops : StopList) (text : Bytes) (k : ℕ)
    → NoNul text
    → stop_list_find_from stops text k ≡ shift_hit k (find_stop stops.v (drop k text) none)
unfolding stop_list_find_from
find_from-NoNul stops text k clean =
    let whole = c_string-NoNul (drop k text) (NoNul-drop k text clean) in
    find_from-shift_hit k (find_stop stops.v (c_string (drop k text)) none)
    ∙ ap (λ s. shift_hit k (find_stop stops.v s none)) whole

-- Where a text holds no stop string, the search behind the text and more, begun at such a
-- place, finds what a search of the whole finds. Neither has a NUL.
pub stop_list_find_from-append :
    (stops : StopList) (text more : Bytes) (k : ℕ)
    → IsValid stops
    → NoNul (text ++ more)
    → stop_list_find_from stops text 0 ≡ none
    → ScanFrom stops (length text) k
    → stop_list_find_from stops (text ++ more) k ≡ stop_list_find_from stops (text ++ more) 0
unfolding IsValid
stop_list_find_from-append stops text more k valid clean none_yet (inl z) = rw z
stop_list_find_from-append stops text more k valid clean none_yet (inr fits) =
    let whole = find_from-NoNul stops text 0 (All-append_left (λ c. c ≢ 0) text more clean) in
    let absent : find_stop stops.v text none ≡ none = ground arith in
    let moved = find_stop-drop stops.v text more k stops.max_len none valid absent fits in
    let here = find_from-NoNul stops (text ++ more) k clean in
    let start = find_from-NoNul stops (text ++ more) 0 clean in
    here ∙ (sym moved ∙ sym (start ∙ shift_hit_zero (find_stop stops.v (text ++ more) none)))

pub stop_list_find_from-empty :
    (stops : StopList) → IsValid stops → stop_list_find_from stops [] 0 ≡ none
unfolding stop_list_find_from IsValid c_string
stop_list_find_from-empty stops valid = ground (arith, find_stop-empty stops.max_len stops.v valid)
