-- ===== src/Server/Http/HeadReceived.antt =====
-- The head of a request that comes in pieces, split anywhere.
use go_ds.Common.{
  ℕ, ◌+◌, ◌≤◌, ◌≡◌, refl, sym, ap, subst, ◌∙◌, true, none, some, List, [], ◌∷◌, ◌++◌, Bytes, length,
  length-append, append_assoc, ltb, arith, inl, inr, ◌⊎◌,
}
use go_ds.Server.Http.{header_end, max_header, Recv, interrupted, ended, got, receive_head}
use go_ds.Server.Http.HeaderEnd.{IsHead, header_end-IsHead, header_end-part}

-- what comes in until the stream ends
abbrev pub bytes_of : List Recv → Bytes
bytes_of [] = []
bytes_of (interrupted ∷ es) = bytes_of es
bytes_of (ended ∷ es) = []
bytes_of (got c cs ∷ es) = (c ∷ cs) ++ bytes_of es

-- Two ways to split the same bytes: one cut is the first.
pub record Inside (a c y r : Bytes) : Type 0 where
  pub left : Bytes
  pub some_left : 1 ≤ length left
  pub whole : y ≡ a ++ left
  pub after : c ≡ left ++ r

pub record Beyond (a c y r : Bytes) : Type 0 where
  pub over : Bytes
  pub whole : a ≡ y ++ over
  pub after : r ≡ over ++ c

pub cuts : (a c y r : Bytes) → a ++ c ≡ y ++ r → Inside a c y r ⊎ Beyond a c y r
cuts a c [] r e = inr (record { over = a; whole = refl; after = sym e })
cuts [] c (b ∷ y) r e =
    inl (record { left = b ∷ y; some_left = omega arith; whole = refl; after = e })
cuts (d ∷ a) c (b ∷ y) r e =
    let first : d ≡ b = ground arith in
    let rest : a ++ c ≡ y ++ r = ground arith in
    elim (cuts a c y r rest) [
      | inl i ↦
          let w = i.whole in
          inl (record {
            left = i.left;
            some_left = i.some_left;
            whole = ground arith;
            after = i.after;
          })
      | inr o ↦
          let w = o.whole in inr (record { over = o.over; whole = ground arith; after = o.after })
    ]

pub record HeadRead (h rest : Bytes) (es : List Recv) (b : Bytes) : Type 0 where
  pub buffer : Bytes
  pub more : List Recv
  pub over : Bytes
  pub runs : receive_head es b ≡ some (buffer, length h, more)
  pub whole : buffer ≡ h ++ over
  pub after : rest ≡ over ++ bytes_of more

has_room :
    (h b y : Bytes)
    → h ≡ b ++ y
    → 1 ≤ length y
    → length h ≤ max_header
    → ltb (length b) max_header ≡ true
has_room h b y whole some_left fits =
    let sum : length h ≡ length b + length y = ap (λ x. length x) whole ∙ length-append b y in
    ground arith

head_done :
    (h rest : Bytes) (c : ℕ) (cs : Bytes) (es : List Recv) (b y : Bytes)
    → IsHead h
    → ltb (length b) max_header ≡ true
    → h ≡ b ++ y
    → Beyond (c ∷ cs) (bytes_of es) y rest
    → HeadRead h rest (got c cs ∷ es) b
unfolding receive_head
head_done h rest c cs es b y head room whole o =
    let all : b ++ (c ∷ cs) ≡ h ++ o.over =
      ap (λ x. b ++ x) o.whole
      ∙ (sym (append_assoc b y o.over) ∙ ap (λ x. x ++ o.over) (sym whole)) in
    let found : header_end (b ++ (c ∷ cs)) ≡ some (length h) =
      ap header_end all ∙ header_end-IsHead h o.over head in
    record {
      buffer = b ++ (c ∷ cs);
      more = es;
      over = o.over;
      runs = rw (room, found, receive_head);
      whole = all;
      after = o.after;
    }

pub receive_head_all :
    (h rest : Bytes) (es : List Recv) (b y : Bytes)
    → IsHead h
    → length h ≤ max_header
    → h ≡ b ++ y
    → 1 ≤ length y
    → bytes_of es ≡ y ++ rest
    → HeadRead h rest es b
unfolding receive_head
receive_head_all h rest [] b [] head fits whole some_left e = absurd (omega arith)
receive_head_all h rest [] b (d ∷ y) head fits whole some_left e = absurd (ground arith)
receive_head_all h rest (ended ∷ es) b [] head fits whole some_left e = absurd (omega arith)
receive_head_all h rest (ended ∷ es) b (d ∷ y) head fits whole some_left e = absurd (ground arith)
receive_head_all h rest (interrupted ∷ es) b y head fits whole some_left e =
    let r = receive_head_all h rest es b y head fits whole some_left e in
    record {
      buffer = r.buffer;
      more = r.more;
      over = r.over;
      runs = rw (has_room h b y whole some_left fits, receive_head) r.runs;
      whole = r.whole;
      after = r.after;
    }
receive_head_all h rest (got c cs ∷ es) b y head fits whole some_left e =
    let room = has_room h b y whole some_left fits in
    elim (cuts (c ∷ cs) (bytes_of es) y rest e) [
      | inr o ↦ head_done h rest c cs es b y head room whole o
      | inl i ↦
          let all : h ≡ (b ++ (c ∷ cs)) ++ i.left =
            whole ∙ (ap (λ x. b ++ x) i.whole ∙ sym (append_assoc b (c ∷ cs) i.left)) in
          let not_yet : header_end (b ++ (c ∷ cs)) ≡ none =
            header_end-part (b ++ (c ∷ cs)) i.left (subst IsHead all head) i.some_left in
          let r =
            receive_head_all h rest es (b ++ (c ∷ cs)) i.left head fits all i.some_left i.after in
          record {
            buffer = r.buffer;
            more = r.more;
            over = r.over;
            runs = rw (room, not_yet, receive_head) r.runs;
            whole = r.whole;
            after = r.after;
          }
    ]
