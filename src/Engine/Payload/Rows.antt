-- ===== src/Engine/Payload/Rows.antt =====
-- The ring of raw rows: rows that are written at their positions in one ring are read into another
-- ring that holds as many, and no two of them meet.
use native.Mathlib.Nat.{mod-lt, div-add-mod', mul-le-mul_right}
use go_ds.Common.{
  ℕ, zero, suc, ◌+◌, ◌*◌, ◌/◌, ◌%◌, ◌≡◌, ◌≤◌, ◌<◌, refl, ap, sym, ◌∙◌, false, Bytes, length, leb,
  ◌==◌, arith, Bool-cases, leb→le, leb→gt, ◌⊎◌, inl, inr,
}
use go_ds.Engine.Payload.{Tensor, tensor_read, tensor_write, outside}
use go_ds.Engine.Payload.Span.{length-tensor_read, tensor_read-apart}
use go_ds.Engine.Payload.Tensors.{row_offset, write_rows, read_rows}
use go_ds.Engine.Payload.Replay.{Replays, replays-give, replays-then, replays-span, weaken, Copied}

suc_times : (q c : ℕ) → suc q * c ≡ q * c + c
suc_times q c = omega arith

-- positions less than a turn apart have different places in the ring
mod-apart : (c p d : ℕ) → 0 < d → d < c → (p % c == (p + d) % c) ≡ false
mod-apart c p d pos lt = elim (Bool-cases (p % c == (p + d) % c)) [
  | inr apart ↦ apart
  | inl meet ↦
      let a = div-add-mod' p c in
      let b = div-add-mod' (p + d) c in
      let same : p % c ≡ (p + d) % c = ground arith in
      absurd (elim (Bool-cases (leb ((p + d) / c) (p / c))) [
        | inl no_more ↦ let le = mul-le-mul_right c (leb→le _ _ no_more) in omega arith
        | inr more ↦
            let le : suc (p / c) * c ≤ (p + d) / c * c = mul-le-mul_right c (leb→gt _ _ more) in
            let e = suc_times (p / c) c in omega arith
      ])
]

-- rows with different numbers do not meet
rows_apart : (q k rb : ℕ) → (q == k) ≡ false → (k * rb + rb ≤ q * rb) ⊎ (q * rb + rb ≤ k * rb)
rows_apart q k rb h = elim (Bool-cases (leb q k)) [
  | inl le ↦
      let lt : suc q ≤ k = ground (arith, leb→le q k) in
      let m : suc q * rb ≤ k * rb = mul-le-mul_right rb lt in
      let e = suc_times q rb in inr (omega arith)
  | inr gt ↦
      let m : suc k * rb ≤ q * rb = mul-le-mul_right rb (leb→gt q k gt) in
      let e = suc_times k rb in inl (omega arith)
]

row_inside :
    (t : Tensor) (cap1 rb q : ℕ) → cap1 * rb ≤ t.size → q < cap1 → outside t (q * rb) rb ≡ false
unfolding outside
row_inside t cap1 rb q fits lt =
    let m : suc q * rb ≤ cap1 * rb = mul-le-mul_right rb lt in
    let e = suc_times q rb in ground arith

abbrev pub RowsCopied : (t : Tensor) (cap1 : ℕ) (t' : Tensor) (cap1' rb pos n : ℕ) → Type 0
RowsCopied t cap1 t' cap1' rb pos n =
    (k : ℕ) → k < n → Copied t (row_offset cap1 rb (pos + k)) t' (row_offset cap1' rb (pos + k)) rb

-- the rows with other numbers stay
abbrev Kept : (t t' : Tensor) (cap1 rb pos n : ℕ) → Type 0
Kept t t' cap1 rb pos n =
    (q : ℕ)
    → ((k : ℕ) → k < n → (q == (pos + k) % cap1) ≡ false)
    → tensor_read t' (q * rb) rb ≡ tensor_read t (q * rb) rb

write-size : (t : Tensor) (o : ℕ) (s : Bytes) → (tensor_write t o s).size ≡ t.size
unfolding tensor_write
write-size t o s = refl

-- the first row, which the later ones do not touch, and the later ones
RowsCopied-suc :
    (t : Tensor) (cap1 cap2 rb n pos : ℕ) (t3 t' : Tensor)
    → suc n ≤ cap2
    → Copied t (pos % cap1 * rb) t3 (pos % cap2 * rb) rb
    → RowsCopied t cap1 t' cap2 rb (pos + 1) n
    → Kept t3 t' cap2 rb (pos + 1) n
    → RowsCopied t cap1 t' cap2 rb pos (suc n)
RowsCopied-suc t cap1 cap2 rb n pos t3 t' enough here copied kept zero lt =
    let same : pos + 0 ≡ pos = omega arith in
    rw same (
      kept (pos % cap2) (λ k less.
        let turn : pos + 1 + k ≡ pos + (1 + k) = omega arith in
        rw turn (mod-apart cap2 pos (1 + k) (omega arith) (omega arith)))
      ∙ here)
RowsCopied-suc t cap1 cap2 rb n pos t3 t' enough here copied kept (suc k) lt =
    let next : pos + suc k ≡ pos + 1 + k = omega arith in rw next (copied k (omega arith))

Kept-suc :
    (cap2 rb n pos : ℕ) (t2 t3 t' : Tensor) (s : Bytes)
    → length s ≡ rb
    → t3 ≡ tensor_write t2 (pos % cap2 * rb) s
    → Kept t3 t' cap2 rb (pos + 1) n
    → Kept t2 t' cap2 rb pos (suc n)
Kept-suc cap2 rb n pos t2 t3 t' s len at kept q away =
    let same : pos + 0 ≡ pos = omega arith in
    let first : (q == pos % cap2) ≡ false =
      ap (λ x. q == x % cap2) (sym same) ∙ away 0 (omega arith) in
    let apart = rows_apart q (pos % cap2) rb first in
    kept q (λ k less.
      let next : pos + 1 + k ≡ pos + suc k = omega arith in rw next (away (suc k) (omega arith)))
    ∙ (ap (λ x. tensor_read x (q * rb) rb) at
        ∙ tensor_read-apart t2 (pos % cap2 * rb) (q * rb) rb s
            (elim apart [ inl above ↦ inr (omega arith) | inr below ↦ inl (omega arith) ]))

pub replays-rows :
    (t : Tensor) (cap1 cap2 rb : ℕ) (n pos : ℕ) (t2 : Tensor)
    → 0 < cap2
    → n ≤ cap2
    → cap2 * rb ≤ t2.size
    → Replays
        (write_rows t cap1 rb pos n)
        (read_rows t2 cap2 rb pos n)
        (λ t'. (t'.size ≡ t2.size) × RowsCopied t cap1 t' cap2 rb pos n × Kept t2 t' cap2 rb pos n)
unfolding write_rows read_rows
replays-rows t cap1 cap2 rb zero pos t2 some_rows enough fits =
    replays-give _ t2 (refl, (λ k lt. absurd (omega arith)), λ q away. refl)
replays-rows t cap1 cap2 rb (suc n) pos t2 some_rows enough fits =
    let q0 = pos % cap2 in
    let inside = row_inside t2 cap2 rb q0 fits (mod-lt pos some_rows) in
    replays-then _ _ _ _ _ _ (replays-span t t2 (pos % cap1 * rb) (q0 * rb) rb inside)
      (λ t3 (at, here).
        let s = tensor_read t (pos % cap1 * rb) rb in
        let len = length-tensor_read t (pos % cap1 * rb) rb in
        let size3 : t3.size ≡ t2.size = ap (λ x. x.size) at ∙ write-size t2 (q0 * rb) s in
        let later =
          replays-rows t cap1 cap2 rb n (pos + 1) t3 some_rows (omega arith) (omega arith) in
        weaken later (λ t' (size, copied, kept). (
          size ∙ size3,
          λ k lt. RowsCopied-suc t cap1 cap2 rb n pos t3 t' enough here copied kept k lt,
          λ q away. Kept-suc cap2 rb n pos t2 t3 t' s len at kept q away,
        )))
