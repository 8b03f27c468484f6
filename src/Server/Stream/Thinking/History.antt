-- ===== src/Server/Stream/Thinking/History.antt =====
-- Eight bytes are enough: the state is that of the whole text.
use go_ds.Common.{
  ℕ, zero, suc, ◌+◌, ◌-◌, ◌≤◌, ◌<◌, ◌≡◌, refl, ap, sym, ◌∙◌, Bool, true, false, some, [], ◌∷◌, ◌++◌,
  Bytes, length, drop, leb, ◌==◌, arith, Bool-cases, inl, inr, length-append, length-drop,
  append_assoc, append-nil,
}
use go_ds.Server.Stream.Thinking.{
  ThinkingState, think_start, think_end, ends_with, push_tail, marked, feed_byte,
  thinking_state_feed, thinking_state_from_prompt,
}

-- the state by the whole of the text so far, in place of its last eight bytes
unfoldable pub inside_from : Bool → (seen rest : Bytes) → Bool
inside_from inside seen [] = inside
inside_from inside seen (c ∷ rest) =
    inside_from (marked inside (seen ++ (c ∷ []))) (seen ++ (c ∷ [])) rest

-- the last bytes, eight at most
abbrev last_eight : Bytes → Bytes
last_eight text = drop (length text - 8) text

drop-nil : (n : ℕ) → drop {A = ℕ} n [] ≡ []
drop-nil zero = refl
drop-nil (suc n) = refl

drop-drop : (m n k : ℕ) (xs : Bytes) → k ≡ n + m → drop m (drop n xs) ≡ drop k xs
drop-drop m zero k xs e = let same : m ≡ k = omega arith in ap (λ x. drop x xs) same
drop-drop m (suc n) k [] e = drop-nil m ∙ sym (drop-nil k)
drop-drop m (suc n) zero (x ∷ xs) e = absurd (omega arith)
drop-drop m (suc n) (suc k) (x ∷ xs) e = drop-drop m n k xs (omega arith)

drop-append_left : (n : ℕ) (xs ys : Bytes) → n ≤ length xs → drop n (xs ++ ys) ≡ drop n xs ++ ys
drop-append_left zero xs ys h = refl
drop-append_left (suc n) [] ys h = absurd (omega arith)
drop-append_left (suc n) (x ∷ xs) ys h = drop-append_left n xs ys (omega arith)

ends_with-last_eight :
    (text s : Bytes) → length s ≤ 8 → ends_with (last_eight text) s ≡ ends_with text s
unfolding ends_with
ends_with-last_eight text s h =
    let len = length-drop (length text - 8) text in
    let fits : leb (length s) (length (last_eight text)) ≡ leb (length s) (length text) =
      ground arith in
    elim (Bool-cases (leb (length s) (length text))) [
      | inr n ↦ rw (fits, n)
      | inl y ↦
          let fits_text : length s ≤ length text = ground arith in
          let same =
            drop-drop (length (last_eight text) - length s) (length text - 8)
              (length text - length s) text (omega arith) in
          rw (fits, y, same)
    ]

push_tail-last_eight :
    (text : Bytes) (c : ℕ) → push_tail (last_eight text) c ≡ last_eight (text ++ (c ∷ []))
unfolding push_tail
push_tail-last_eight text c =
    let len = length-drop (length text - 8) text in
    let longer = length-append text (c ∷ []) in
    elim (Bool-cases (leb 8 (length text))) [
      | inl y ↦
          let many : 8 ≤ length text = ground arith in
          let full : (length (last_eight text) == 8) ≡ true = ground arith in
          let more : length (text ++ (c ∷ [])) - 8 ≡ length text - 8 + 1 = omega arith in
          rw (full, drop-drop 1 (length text - 8) (length text - 8 + 1) text refl, more)
            (sym (drop-append_left (length text - 8 + 1) text (c ∷ []) (omega arith)))
      | inr n ↦
          let few : length text < 8 = ground arith in
          let room : (length (last_eight text) == 8) ≡ false = ground arith in
          let none_off : length text - 8 ≡ 0 = omega arith in
          let none_off_later : length (text ++ (c ∷ [])) - 8 ≡ 0 = omega arith in
          rw (room, none_off, none_off_later)
    ]

abbrev the_state : Bool → Bytes → ThinkingState
the_state inside tail = record { inside = inside; tail = tail }

inside_from-append :
    (inside : Bool) (seen p q : Bytes)
    → inside_from (inside_from inside seen p) (seen ++ p) q ≡ inside_from inside seen (p ++ q)
unfolding inside_from
inside_from-append inside seen [] q = rw append-nil
inside_from-append inside seen (c ∷ p) q =
    ap (λ x. inside_from (inside_from (marked inside (seen ++ (c ∷ []))) (seen ++ (c ∷ [])) p) x q)
      (sym (append_assoc seen (c ∷ []) p))
    ∙ inside_from-append (marked inside (seen ++ (c ∷ []))) (seen ++ (c ∷ [])) p q

marked-last_eight :
    (inside : Bool) (text : Bytes) → marked inside (last_eight text) ≡ marked inside text
unfolding marked
marked-last_eight inside text = rw (
  ends_with-last_eight text think_start (omega arith),
  ends_with-last_eight text think_end (omega arith),
)

thinking_state_feed-inside_from :
    (inside : Bool) (seen p : Bytes)
    → thinking_state_feed (record { inside = inside; tail = last_eight seen }) p
      ≡ record { inside = inside_from inside seen p; tail = last_eight (seen ++ p) }
unfolding thinking_state_feed feed_byte inside_from
thinking_state_feed-inside_from inside seen [] = rw append-nil
thinking_state_feed-inside_from inside seen (c ∷ p) =
    rw (push_tail-last_eight seen c, marked-last_eight inside (seen ++ (c ∷ [])))
      (thinking_state_feed-inside_from (marked inside (seen ++ (c ∷ []))) (seen ++ (c ∷ [])) p
        ∙ ap
            (λ x.
              the_state (inside_from (marked inside (seen ++ (c ∷ []))) (seen ++ (c ∷ [])) p)
                (last_eight x))
            (append_assoc seen (c ∷ []) p))

pub thinking_state_feed-whole :
    (prompt_text generated : Bytes) (enabled : Bool)
    → (thinking_state_feed (thinking_state_from_prompt (some prompt_text) enabled) generated).inside
      ≡ inside_from false [] (prompt_text ++ generated)
unfolding thinking_state_from_prompt
thinking_state_feed-whole prompt_text generated enabled =
    rw
      (
        thinking_state_feed-inside_from false [] prompt_text,
        thinking_state_feed-inside_from (inside_from false [] prompt_text) prompt_text generated,
      )
      (inside_from-append false [] prompt_text generated)
