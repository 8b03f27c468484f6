-- ===== src/Engine/Payload/Span.antt =====
-- Spans of tensors: chunks make a whole, and what is written is read.
use mathlib.Core.Path.{fun_ext}
use go_ds.Common.{
  ℕ, zero, suc, ◌+◌, ◌-◌, ◌≡◌, ◌≤◌, ◌<◌, refl, ap, sym, ◌∙◌, true, false, ◌||◌, some, [], ◌∷◌, ◌++◌,
  Bytes, length, take, drop, ltb, ◌==◌, min, arith, length-append, length-take, length-drop,
  take-append-drop, append_assoc, take-append, drop-append, Bool-cases, ◌⊎◌, inl, inr,
}
use go_ds.Engine.Payload.{
  Source, Read, give, payload_read_bytes, Tensor, tensor_read, over, tensor_write, outside,
  io_chunk, write_chunks, payload_write_tensor_span, read_chunks, payload_read_tensor_span, ◌>>=◌,
}

pub length-tensor_read : (t : Tensor) (o n : ℕ) → length (tensor_read t o n) ≡ n
unfolding tensor_read
length-tensor_read t o zero = refl
length-tensor_read t o (suc n) = ap suc (length-tensor_read t (o + 1) n)

tensor_read-append :
    (t : Tensor) (o a b : ℕ)
    → tensor_read t o (a + b) ≡ tensor_read t o a ++ tensor_read t (o + a) b
unfolding tensor_read
tensor_read-append t o zero b =
    let e : o + 0 ≡ o = omega arith in let f : 0 + b ≡ b = omega arith in rw (e, f)
tensor_read-append t o (suc a) b =
    let e : o + suc a ≡ o + 1 + a = omega arith in
    let f : suc a + b ≡ suc (a + b) = omega arith in
    rw (f, e) (ap (λ s. t.byte o ∷ s) (tensor_read-append t (o + 1) a b))

write_chunks-tensor_read :
    (rounds : ℕ) (t : Tensor) (o bytes done : ℕ)
    → bytes - done ≤ rounds
    → write_chunks rounds t o bytes done ≡ tensor_read t (o + done) (bytes - done)
unfolding write_chunks tensor_read
write_chunks-tensor_read zero t o bytes done f = let e : bytes - done ≡ 0 = omega arith in rw e
write_chunks-tensor_read (suc rounds) t o bytes done f = elim (Bool-cases (ltb done bytes)) [
  | inl more ↦
      let n = min io_chunk (bytes - done) in
      let rest = write_chunks-tensor_read rounds t o bytes (done + n) (ground arith) in
      let from : o + (done + n) ≡ o + done + n = omega arith in
      let all : n + (bytes - (done + n)) ≡ bytes - done = ground arith in
      rw (more, rest, from, ← tensor_read-append t (o + done) n (bytes - (done + n)), all)
  | inr over_all ↦ let e : bytes - done ≡ 0 = ground arith in rw (over_all, e)
]

pub write_span-tensor_read :
    (t : Tensor) (o bytes : ℕ)
    → outside t o bytes ≡ false
    → payload_write_tensor_span t o bytes ≡ some (tensor_read t o bytes)
unfolding payload_write_tensor_span
write_span-tensor_read t o bytes inside =
    let from : o + 0 ≡ o = omega arith in
    let all : bytes - 0 ≡ bytes = omega arith in
    rw (inside, write_chunks-tensor_read bytes t o bytes 0 (omega arith), from, all)

over_below : (x i o : ℕ) (s : Bytes) → i < o → over x i o s ≡ x
unfolding over
over_below x i o [] h = refl
over_below x i o (c ∷ s) h = ground (arith, over_below x i (o + 1) s)

over_from_start : (x i o : ℕ) (b : Bytes) → over (over x i o []) i (o + 0) b ≡ over x i o b
unfolding over
over_from_start x i o b = let e : o + 0 ≡ o = omega arith in rw e

over_here : (x i o c : ℕ) (s : Bytes) → (i == o) ≡ true → over x i o (c ∷ s) ≡ c
unfolding over
over_here x i o c s h = rw (h, over)

over_next : (x i o c : ℕ) (s : Bytes) → (i == o) ≡ false → over x i o (c ∷ s) ≡ over x i (o + 1) s
unfolding over
over_next x i o c s h = rw (h, over)

over-append :
    (x i o : ℕ) (a b : Bytes) → over (over x i o a) i (o + length a) b ≡ over x i o (a ++ b)
over-append x i o [] b = over_from_start x i o b
over-append x i o (c ∷ a) b =
    let e : o + suc (length a) ≡ o + 1 + length a = omega arith in
    elim (Bool-cases (i == o)) [
      | inl here ↦
          rw (e, over_here x i o c a here, over_here x i o c (a ++ b) here)
            (over_below c i (o + 1 + length a) b (ground arith))
      | inr there ↦
          rw (e, over_next x i o c a there, over_next x i o c (a ++ b) there)
            (over-append x i (o + 1) a b)
    ]

tensor_write-append :
    (t : Tensor) (o : ℕ) (a b : Bytes)
    → tensor_write (tensor_write t o a) (o + length a) b ≡ tensor_write t o (a ++ b)
unfolding tensor_write
tensor_write-append t o a b =
    let bytes = fun_ext (λ i. over-append (t.byte i) i o a b) in
    λ j. record { size = t.size; byte = bytes j }

-- the first bytes of a file that are counted in
pub read_bytes-append :
    (s rest : Bytes) (r : ℕ)
    → payload_read_bytes (length s) (record { file = s ++ rest; remaining = length s + r })
      ≡ some (s, record { file = rest; remaining = r })
unfolding payload_read_bytes
read_bytes-append s rest r =
    let lengths = length-append s rest in
    let left : length s + r - length s ≡ r = omega arith in
    let enough : (ltb (length s + r) (length s) || ltb (length (s ++ rest)) (length s)) ≡ false =
      ground arith in
    rw (enough, take-append s rest, drop-append s rest, left)

tensor_write_nothing : (t : Tensor) (o : ℕ) → tensor_write t o [] ≡ t
unfolding tensor_write over
tensor_write_nothing t o = refl

-- a read that succeeds goes on
pub bind-some :
    {A B : Type 0} (m : Read A) (f : A → Read B) (src : Source) (a : A) (src' : Source)
    → m src ≡ some (a, src')
    → (m >>= f) src ≡ f a src'
unfolding ◌>>=◌
bind-some m f src a src' h = rw (h, ◌>>=◌)

nothing_left :
    (t : Tensor) (o : ℕ) (s rest : Bytes) (r : ℕ)
    → length s ≡ 0
    → give t (record { file = s ++ rest; remaining = length s + r })
      ≡ some (tensor_write t o s, record { file = rest; remaining = r })
nothing_left t o [] rest r e =
    let none_left : 0 + r ≡ r = omega arith in rw (tensor_write_nothing t o, none_left)
nothing_left t o (c ∷ s) rest r e = absurd (omega arith)

read_chunks-append :
    (rounds : ℕ) (t : Tensor) (o bytes done : ℕ) (s rest : Bytes) (r : ℕ)
    → bytes - done ≤ rounds
    → length s ≡ bytes - done
    → read_chunks rounds t o bytes done (record { file = s ++ rest; remaining = length s + r })
      ≡ some (tensor_write t (o + done) s, record { file = rest; remaining = r })
unfolding read_chunks
read_chunks-append zero t o bytes done [] rest r f e = nothing_left t (o + done) [] rest r refl
read_chunks-append zero t o bytes done (c ∷ s) rest r f e = absurd (omega arith)
read_chunks-append (suc rounds) t o bytes done s rest r f e = elim (Bool-cases (ltb done bytes)) [
  | inl more ↦
      let n = min io_chunk (bytes - done) in
      let a = take n s in
      let b = drop n s in
      let split : a ++ b ≡ s = take-append-drop n s in
      let len_a : length a ≡ n = length-take n s ∙ (ground arith) in
      let len_b : length b ≡ bytes - (done + n) = length-drop n s ∙ (ground arith) in
      let total : length s + r ≡ length a + (length b + r) = ground arith in
      let file : s ++ rest ≡ a ++ (b ++ rest) =
        ap (λ x. x ++ rest) (sym split) ∙ append_assoc a b rest in
      let first = read_bytes-append a (b ++ rest) (length b + r) in
      let further =
        read_chunks-append rounds (tensor_write t (o + done) a) o bytes (done + n) b rest r
          (ground arith) len_b in
      let place : o + (done + n) ≡ o + done + length a = omega arith in
      let here : payload_read_bytes n
            (record { file = a ++ (b ++ rest); remaining = length a + (length b + r) })
          ≡ some (a, record { file = b ++ rest; remaining = length b + r }) =
        ap
          (λ k.
            payload_read_bytes k
              (record { file = a ++ (b ++ rest); remaining = length a + (length b + r) }))
          (sym len_a)
        ∙ first in
      rw (more, file, total)
        (bind-some (payload_read_bytes n)
            (λ x. read_chunks rounds (tensor_write t (o + done) x) o bytes (done + n)) _ a _ here
          ∙ further
          ∙ (rw (place, tensor_write-append t (o + done) a b, split)))
  | inr finished ↦ rw finished (nothing_left t (o + done) s rest r (ground arith))
]

-- a span that is written is read into another tensor
pub read_span-append :
    (t : Tensor) (o bytes : ℕ) (s rest : Bytes) (r : ℕ)
    → outside t o bytes ≡ false
    → length s ≡ bytes
    → payload_read_tensor_span t o bytes (record { file = s ++ rest; remaining = length s + r })
      ≡ some (tensor_write t o s, record { file = rest; remaining = r })
unfolding payload_read_tensor_span
read_span-append t o bytes s rest r inside e =
    let from : o + 0 ≡ o = omega arith in
    rw inside
      (read_chunks-append bytes t o bytes 0 s rest r (omega arith) (omega arith) ∙ (rw from))

over_above : (x i o : ℕ) (s : Bytes) → o + length s ≤ i → over x i o s ≡ x
unfolding over
over_above x i o [] h = refl
over_above x i o (c ∷ s) h = ground (arith, over_above x i (o + 1) s)

over_at_start : (x o c : ℕ) (s : Bytes) → over x o o (c ∷ s) ≡ c
over_at_start x o c s = over_here x o o c s (ground arith)

-- what is written behind the first byte
read_write_behind :
    (t : Tensor) (o c k : ℕ) (s : Bytes) (n : ℕ)
    → o < k
    → tensor_read (tensor_write t o (c ∷ s)) k n ≡ tensor_read (tensor_write t (o + 1) s) k n
unfolding tensor_read tensor_write
read_write_behind t o c k s zero h = refl
read_write_behind t o c k s (suc n) h =
    let apart : (k == o) ≡ false = ground arith in
    rw (over_next (t.byte k) k o c s apart, read_write_behind t o c (k + 1) s n (omega arith))

pub tensor_read-tensor_write :
    (t : Tensor) (o : ℕ) (s : Bytes) → tensor_read (tensor_write t o s) o (length s) ≡ s
unfolding tensor_read tensor_write
tensor_read-tensor_write t o [] = refl
tensor_read-tensor_write t o (c ∷ s) = rw (
  over_at_start (t.byte o) o c s,
  read_write_behind t o c (o + 1) s (length s) (omega arith),
  tensor_read-tensor_write t (o + 1) s,
)

-- a span that is not written keeps its bytes
pub tensor_read-apart :
    (t : Tensor) (o k n : ℕ) (s : Bytes)
    → (k + n ≤ o) ⊎ (o + length s ≤ k)
    → tensor_read (tensor_write t o s) k n ≡ tensor_read t k n
unfolding tensor_read tensor_write
tensor_read-apart t o k zero s h = refl
tensor_read-apart t o k (suc n) s (inl before) = rw (
  over_below (t.byte k) k o s (omega arith),
  tensor_read-apart t o (k + 1) n s (inl (omega arith)),
)
tensor_read-apart t o k (suc n) s (inr behind) =
    rw (over_above (t.byte k) k o s behind, tensor_read-apart t o (k + 1) n s (inr (omega arith)))
