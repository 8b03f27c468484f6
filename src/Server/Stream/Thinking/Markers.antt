-- ===== src/Server/Stream/Thinking/Markers.antt =====
-- The state by the markers that stand in the text.
use go_ds.Common.{
  ℕ, ◌≡◌, refl, ap, sym, ◌∙◌, Bool, not, true, false, some, [], ◌∷◌, ◌++◌, Bytes, drop, arith,
  Bool-cases, inl, inr, ◌⊎◌, append_assoc, append-nil, subst,
}
use go_ds.Server.Stream.Thinking.{
  think_start, think_end, ends_with, marked, thinking_state_feed, thinking_state_from_prompt,
}
use go_ds.Server.Stream.Thinking.History.{inside_from, thinking_state_feed-whole}
use go_ds.Server.Stream.Thinking.Occurs.{
  Occurs, ends_with-split, Occurs-nil, Occurs-further, Occurs-behind,
}

-- `<think>` stands in the text, and no `</think>` behind it.
pub record Opened (text : Bytes) : Type 0 where
  pub before : Bytes
  pub behind : Bytes
  pub split : text ≡ before ++ (think_start ++ behind)
  pub not_closed : ¬ Occurs think_end behind

-- No `<think>` stands in the text, or none behind some `</think>`.
pub record Closed (text : Bytes) : Type 0 where
  pub before : Bytes
  pub behind : Bytes
  pub split : (text ≡ behind) ⊎ (text ≡ before ++ (think_end ++ behind))
  pub not_opened : ¬ Occurs think_start behind

-- what it means for a text that the generation is inside of a thinking block, or is not
abbrev pub Says : Bool → Bytes → Type 0
Says true text = Opened text
Says false text = Closed text

Opened-further :
    (seen : Bytes) (c : ℕ)
    → ends_with (seen ++ (c ∷ [])) think_end ≡ false
    → Opened seen
    → Opened (seen ++ (c ∷ []))
Opened-further seen c apart o =
    let whole : seen ++ (c ∷ []) ≡ o.before ++ (think_start ++ (o.behind ++ (c ∷ []))) =
      ap (λ z. z ++ (c ∷ [])) o.split ∙ append_assoc o.before (think_start ++ o.behind) (c ∷ []) in
    record {
      before = o.before;
      behind = o.behind ++ (c ∷ []);
      split = whole;
      not_closed =
          Occurs-further think_end (o.before ++ think_start) o.behind (seen ++ (c ∷ [])) c
            (whole ∙ sym (append_assoc o.before think_start (o.behind ++ (c ∷ [])))) apart
            o.not_closed;
    }

Closed-further :
    (seen : Bytes) (c : ℕ)
    → ends_with (seen ++ (c ∷ [])) think_start ≡ false
    → Closed seen
    → Closed (seen ++ (c ∷ []))
Closed-further seen c apart o = elim o.split [
  | inl e ↦
      let whole : seen ++ (c ∷ []) ≡ o.behind ++ (c ∷ []) = ap (λ z. z ++ (c ∷ [])) e in
      record {
        before = o.before;
        behind = o.behind ++ (c ∷ []);
        split = inl whole;
        not_opened =
            Occurs-further think_start [] o.behind (seen ++ (c ∷ [])) c whole apart o.not_opened;
      }
  | inr e ↦
      let whole : seen ++ (c ∷ []) ≡ o.before ++ (think_end ++ (o.behind ++ (c ∷ []))) =
        ap (λ z. z ++ (c ∷ [])) e ∙ append_assoc o.before (think_end ++ o.behind) (c ∷ []) in
      record {
        before = o.before;
        behind = o.behind ++ (c ∷ []);
        split = inr whole;
        not_opened =
            Occurs-further think_start (o.before ++ think_end) o.behind (seen ++ (c ∷ [])) c
              (whole ∙ sym (append_assoc o.before think_end (o.behind ++ (c ∷ [])))) apart
              o.not_opened;
      }
]

Says-further :
    (inside : Bool) (seen : Bytes) (c : ℕ)
    → ends_with (seen ++ (c ∷ [])) think_start ≡ false
    → ends_with (seen ++ (c ∷ [])) think_end ≡ false
    → Says inside seen
    → Says inside (seen ++ (c ∷ []))
Says-further true seen c no_start no_end h = Opened-further seen c no_end h
Says-further false seen c no_start no_end h = Closed-further seen c no_start h

Says-marked :
    (inside : Bool) (seen : Bytes) (c : ℕ)
    → Says inside seen
    → Says (marked inside (seen ++ (c ∷ []))) (seen ++ (c ∷ []))
unfolding marked
Says-marked inside seen c h =
    let text : Bytes = seen ++ (c ∷ []) in
    elim (Bool-cases (ends_with text think_start)) [
      | inl s ↦
          let (x, e) = ends_with-split text think_start s in
          let opened : Opened text = record {
            before = x;
            behind = [];
            split = e;
            not_closed = Occurs-nil b'<' (drop 1 think_end);
          } in
          rw (s, marked) opened
      | inr n ↦ elim (Bool-cases (ends_with text think_end)) [
        | inl s ↦
            let (x, e) = ends_with-split text think_end s in
            let closed : Closed text = record {
              before = x;
              behind = [];
              split = inr e;
              not_opened = Occurs-nil b'<' (drop 1 think_start);
            } in
            rw (n, s, marked) closed
        | inr m ↦ rw (n, m, marked) (Says-further inside seen c n m h)
      ]
    ]

Says-inside_from :
    (inside : Bool) (seen rest : Bytes)
    → Says inside seen
    → Says (inside_from inside seen rest) (seen ++ rest)
unfolding inside_from
Says-inside_from inside seen [] h = subst (Says inside) (sym (append-nil seen)) h
Says-inside_from inside seen (c ∷ rest) h =
    let text : Bytes = seen ++ (c ∷ []) in
    subst (Says (inside_from (marked inside text) text rest)) (append_assoc seen (c ∷ []) rest)
      (Says-inside_from (marked inside text) text rest (Says-marked inside seen c h))

-- Of two markers in a text, one stands behind the other.
markers-apart :
    (a b x d : Bytes)
    → a ++ (think_start ++ b) ≡ x ++ (think_end ++ d)
    → Occurs think_end b ⊎ Occurs think_start d
markers-apart [] b [] d e = absurd (ground arith)
markers-apart [] b (c ∷ x) d e =
    let rest : x ++ (think_end ++ d) ≡ drop 1 think_start ++ b = ground arith in
    inl (Occurs-behind (drop 1 think_end) (drop 1 think_start) x b d (ground arith) rest)
markers-apart (c ∷ a) b [] d e =
    let rest : a ++ (think_start ++ b) ≡ drop 1 think_end ++ d = ground arith in
    inr (Occurs-behind (drop 1 think_start) (drop 1 think_end) a d b (ground arith) rest)
markers-apart (c ∷ a) b (c' ∷ x) d e =
    let rest : a ++ (think_start ++ b) ≡ x ++ (think_end ++ d) = ground arith in
    markers-apart a b x d rest

not-Opened-Closed : (text : Bytes) → Opened text → Closed text → ⊥
not-Opened-Closed text o c = elim c.split [
  | inl e ↦ c.not_opened (o.before, o.behind, sym e ∙ o.split)
  | inr e ↦ elim (markers-apart o.before o.behind c.before c.behind (sym o.split ∙ e)) [
    | inl end ↦ o.not_closed end
    | inr start ↦ c.not_opened start
  ]
]

Says-unique : (inside : Bool) (text : Bytes) → Says inside text → ¬ Says (not inside) text
Says-unique true text h c = not-Opened-Closed text h c
Says-unique false text h o = not-Opened-Closed text o h

-- what the text says, and that it does not say the opposite
abbrev pub Decides : Bool → Bytes → Type 0
Decides inside text = Says inside text × (¬ Says (not inside) text)

-- After any prompt and any generated text, the generation is inside of a thinking block exactly where
-- `<think>` stands in the prompt and the generated text together with no `</think>` behind it, and
-- outside exactly where there is no `<think>`, or none behind some `</think>`. A marker that begins
-- in the prompt and ends in the generated text counts.
pub thinking_state_feed-history :
    (prompt_text generated : Bytes) (enabled : Bool)
    → Decides
        (thinking_state_feed
          (thinking_state_from_prompt (some prompt_text) enabled)
          generated).inside
        (prompt_text ++ generated)
thinking_state_feed-history prompt_text generated enabled =
    let closed : Closed [] = record {
      before = [];
      behind = [];
      split = inl refl;
      not_opened = Occurs-nil b'<' (drop 1 think_start);
    } in
    let says =
      subst (λ b. Says b (prompt_text ++ generated))
        (sym (thinking_state_feed-whole prompt_text generated enabled))
        (Says-inside_from false [] (prompt_text ++ generated) closed) in
    (says, Says-unique _ (prompt_text ++ generated) says)
