-- ===== src/Engine/Payload/Replay.antt =====
-- A reader that takes back what a writer wrote, step by step.
use go_ds.Common.{
  ℕ, ◌+◌, ◌≡◌, ◌<◌, ◌^◌, refl, ap, sym, ◌∙◌, Bool, true, false, Option, none, some, [], ◌++◌, Bytes,
  length, if◌then◌else◌, arith, length-append, append_assoc, Bool-cases, inl, inr,
}
use go_ds.Engine.Payload.{
  Source, Read, give, require, ◌>>=◌, payload_put_u32, payload_get_u32, payload_read_bytes,
  payload_read_u32, Tensor, tensor_read, tensor_write, outside, payload_write_tensor_span,
  payload_read_tensor_span,
}
use go_ds.Engine.Payload.Span.{
  length-tensor_read, write_span-tensor_read, read_bytes-append, bind-some, read_span-append,
  tensor_read-tensor_write,
}
use go_ds.Engine.Payload.Tensors.{◌then_write◌}

-- What `w` writes, `m` reads, to the last byte and the last count, and the result has `P`.
pub record Replays {A : Type 0} (w : Option Bytes) (m : Read A) (P : A → Type 0) : Type 0 where
  pub run :
      (p rest : Bytes) (r : ℕ)
      → w ≡ some p
      → (a : A) × (m (record { file = p ++ rest; remaining = length p + r })
          ≡ some (a, record { file = rest; remaining = r }))
        × P a

pub replays-give : {A : Type 0} (P : A → Type 0) (a : A) → P a → Replays (some []) (give a) P
replays-give P a h = record {
  run = λ p rest r e.
      let empty : p ≡ [] = ground arith in
      let zero_left : 0 + r ≡ r = omega arith in (a, rw (empty, zero_left), h);
}

-- another thing that holds of the result
pub weaken :
    {A : Type 0} {w : Option Bytes} {m : Read A} {P Q : A → Type 0}
    → Replays w m P
    → ((a : A) → P a → Q a)
    → Replays w m Q
weaken h k = record {
  run = λ p rest r e. let (a, read, pa) = h.run p rest r e in (a, read, k a pa);
}

-- two branches, on one test
pub replays-if :
    {A : Type 0} (b : Bool) (w w' : Option Bytes) (m m' : Read A) (P : A → Type 0)
    → (b ≡ true → Replays w m P)
    → (b ≡ false → Replays w' m' P)
    → Replays (if b then w else w') (if b then m else m') P
replays-if true w w' m m' P h k = h refl
replays-if false w w' m m' P h k = k refl

module _ {A B : Type 0} where
  pub replays-then :
      (w w' : Option Bytes) (m : Read A) (f : A → Read B) (P : A → Type 0) (Q : B → Type 0)
      → Replays w m P
      → ((a : A) → P a → Replays w' (f a) Q)
      → Replays (w then_write w') (m >>= f) Q
  replays-then none w' m f P Q h k = record { run = λ p rest r e. absurd (ground arith) }
  replays-then (some p1) none m f P Q h k = record { run = λ p rest r e. absurd (ground arith) }
  replays-then (some p1) (some p2) m f P Q h k = record {
    run = λ p rest r e.
        let joined : p ≡ p1 ++ p2 = ground arith in
        let (a, first, pa) = h.run p1 (p2 ++ rest) (length p2 + r) refl in
        let (b, second, qb) = (k a pa).run p2 rest r refl in
        let count : length (p1 ++ p2) + r ≡ length p1 + (length p2 + r) =
          let l = length-append p1 p2 in omega arith in
        (b, rw (joined, append_assoc p1 p2 rest, count) (bind-some m f _ a _ first ∙ second), qb);
  }

  -- a step that reads nothing
  pub replays-map :
      (w : Option Bytes) (m : Read A) (f : A → B) (P : A → Type 0) (Q : B → Type 0)
      → Replays w m P
      → ((a : A) → P a → Q (f a))
      → Replays w (m >>= (λ a. give (f a))) Q
  replays-map w m f P Q h k = record {
    run = λ p rest r e.
        let (a, first, pa) = h.run p rest r e in
        (f a, bind-some m (λ x. give (f x)) _ a _ first, k a pa);
  }

required :
    {B : Type 0} (b : Bool) (f : Unit {0} → Read B) (src : Source) (o : Option (B × Source))
    → b ≡ true
    → f tt src ≡ o
    → (require b >>= f) src ≡ o
unfolding ◌>>=◌
required b f src o pass h = rw pass h

-- a test that the writer's data pass
pub replays-require :
    {B : Type 0} (b : Bool) (w : Option Bytes) (f : Unit {0} → Read B) (Q : B → Type 0)
    → b ≡ true
    → Replays w (f tt) Q
    → Replays w (require b >>= f) Q
replays-require b w f Q pass h = record {
  run = λ p rest r e. let (a, first, qa) = h.run p rest r e in (a, required b f _ _ pass first, qa);
}

pub replays-bytes :
    (s : Bytes) (n : ℕ) → length s ≡ n → Replays (some s) (payload_read_bytes n) (λ x. x ≡ s)
replays-bytes s n e = record {
  run = λ p rest r h.
      let same : p ≡ s = ground arith in (s, rw (← e, same) (read_bytes-append s rest r), refl);
}

get_u32-put_u32 : (v : ℕ) → v < 2 ^ 32 → payload_get_u32 (payload_put_u32 v) ≡ v
unfolding payload_get_u32 payload_put_u32
get_u32-put_u32 v h = omega arith

length-put_u32 : (v : ℕ) → length (payload_put_u32 v) ≡ 4
unfolding payload_put_u32
length-put_u32 v = refl

pub replays-u32 :
    (v : ℕ) → v < 2 ^ 32 → Replays (some (payload_put_u32 v)) payload_read_u32 (λ x. x ≡ v)
unfolding payload_read_u32
replays-u32 v h = record {
  run = λ p rest r e.
      let (b, read, same) =
        (replays-bytes (payload_put_u32 v) 4 (length-put_u32 v)).run p rest r e in
      (
        payload_get_u32 b,
        rw (read, payload_read_u32),
        ap payload_get_u32 same ∙ get_u32-put_u32 v h,
      );
}

-- the same bytes at two places
abbrev pub Copied : (t : Tensor) (o : ℕ) (t' : Tensor) (o' n : ℕ) → Type 0
Copied t o t' o' n = tensor_read t' o' n ≡ tensor_read t o n

written :
    (t : Tensor) (o n : ℕ) (p : Bytes)
    → payload_write_tensor_span t o n ≡ some p
    → p ≡ tensor_read t o n
unfolding payload_write_tensor_span
written t o n p e = elim (Bool-cases (outside t o n)) [
  | inl far ↦
      let e' : none ≡ some p = (rw (far, payload_write_tensor_span) at e) in absurd (ground arith)
  | inr near ↦ let w = write_span-tensor_read t o n near in ground arith
]

copied :
    (t t2 : Tensor) (o o2 n : ℕ) (p : Bytes)
    → p ≡ tensor_read t o n
    → Copied t o (tensor_write t2 o2 p) o2 n
copied t t2 o o2 n p bytes =
    let len : n ≡ length p = sym (ap length bytes ∙ length-tensor_read t o n) in
    ap (tensor_read (tensor_write t2 o2 p) o2) len ∙ tensor_read-tensor_write t2 o2 p ∙ bytes

pub replays-span :
    (t t2 : Tensor) (o o2 n : ℕ)
    → outside t2 o2 n ≡ false
    → Replays
        (payload_write_tensor_span t o n)
        (payload_read_tensor_span t2 o2 n)
        (λ t'. (t' ≡ tensor_write t2 o2 (tensor_read t o n)) × Copied t o t' o2 n)
replays-span t t2 o o2 n fits = record {
  run = λ p rest r e.
      let bytes : p ≡ tensor_read t o n = written t o n p e in
      let len : length p ≡ n = ap length bytes ∙ length-tensor_read t o n in
      (
        tensor_write t2 o2 p,
        read_span-append t2 o2 n p rest r fits len,
        (ap (tensor_write t2 o2) bytes, copied t t2 o o2 n p bytes),
      );
}
