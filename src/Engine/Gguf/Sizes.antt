-- ===== src/Engine/Gguf/Sizes.antt =====
-- Alignment and the size of a tensor.
use native.Mathlib.Nat.{
  mod-lt, div-add-mod', mul-mod_left, mul-le-mul_right, div-mul-le_self, add-mod_right,
  mod-eq_of_lt,
}
use go_ds.Common.{
  ℕ, zero, suc, ◌+◌, ◌-◌, ◌*◌, ◌/◌, ◌%◌, ◌^◌, ◌≤◌, ◌<◌, ◌≡◌, refl, ap, sym, ◌∙◌, inl, inr, Bool,
  true, false, Option, none, some, ltb, leb, List, [], ◌∷◌, get_elem?, ◌&&◌, ◌||◌, ◌==◌, arith,
  Bool-cases, Option-cases,
}
use go_ds.Engine.Gguf.{TypeInfo, gguf_types, align_up, block_size, tensor_type, tensor_nbytes}

-- the least multiple of the alignment that is not below the value
pub record IsAligned (value alignment r : ℕ) : Type 0 where
  multiple : r % alignment ≡ 0
  above : value ≤ r
  least : r < value + alignment

align_up-multiple : (v a : ℕ) → v % a < a → (v + a - v % a) % a ≡ 0
align_up-multiple v a small =
    let parts = div-add-mod' v a in
    let whole : v + a - v % a ≡ v / a * a + a = omega arith in
    ap (λ x. x % a) whole ∙ add-mod_right (v / a * a) a ∙ mul-mod_left (v / a) a

-- For an alignment that is not 0, and where the sum of the two fits in 64 bits, the aligned value
-- is the least multiple that is not below the value.
pub align_up-IsAligned :
    (value alignment : ℕ)
    → 1 ≤ alignment
    → value + alignment < 2 ^ 64
    → IsAligned value alignment (align_up value alignment)
unfolding align_up
align_up-IsAligned value alignment pos fits =
    let small : value % alignment < alignment = mod-lt value pos in
    elim (Bool-cases (value % alignment == 0)) [
      | inl e ↦ rw e (record { multiple = ground arith; above = omega arith; least = omega arith })
      | inr n ↦
          let same : (value + alignment - value % alignment) % 2 ^ 64
              ≡ value + alignment - value % alignment =
            mod-eq_of_lt (omega arith) in
          let rest : 1 ≤ value % alignment = ground arith in
          rw (n, same)
            (record {
              multiple = align_up-multiple value alignment small;
              above = omega arith;
              least = omega arith;
            })
    ]

-- the bytes of so many whole blocks that the elements just fit
pub record IsBlocks (elems bytes elements size : ℕ) : Type 0 where
  blocks : ℕ
  size_of_blocks : size ≡ blocks * bytes
  enough : elements ≤ blocks * elems
  no_more : blocks * elems < elements + elems
  fits : size < 2 ^ 64

some-eq : (a b : ℕ) → some a ≡ some b → a ≡ b
some-eq a b e = cc

block_size-big :
    (elems bytes elements : ℕ)
    → ltb ((2 ^ 64 - 1) / bytes) ((elements + elems - 1) % 2 ^ 64 / elems) ≡ true
    → block_size elems bytes elements ≡ none
unfolding block_size
block_size-big elems bytes elements y = rw y

block_size-fits :
    (elems bytes elements n : ℕ)
    → (elements + elems - 1) % 2 ^ 64 / elems ≡ n
    → ltb ((2 ^ 64 - 1) / bytes) n ≡ false
    → block_size elems bytes elements ≡ some (n * bytes)
unfolding block_size
block_size-fits elems bytes elements n e m = rw (e, m)

block_size-IsBlocks :
    (elems bytes elements size : ℕ)
    → 1 ≤ elems
    → 1 ≤ bytes
    → elements + elems ≤ 2 ^ 64
    → block_size elems bytes elements ≡ some size
    → IsBlocks elems bytes elements size
block_size-IsBlocks elems bytes elements size pos bpos small h =
    let top : (elements + elems - 1) % 2 ^ 64 ≡ elements + elems - 1 = mod-eq_of_lt (omega arith) in
    let n = (elements + elems - 1) / elems in
    let parts = div-add-mod' (elements + elems - 1) elems in
    let rem : (elements + elems - 1) % elems < elems = mod-lt (elements + elems - 1) pos in
    let max_blocks = (2 ^ 64 - 1) / bytes in
    let within : max_blocks * bytes ≤ 2 ^ 64 - 1 = div-mul-le_self (2 ^ 64 - 1) bytes in
    elim (Bool-cases (ltb max_blocks n)) [
      | inl y ↦ absurd (let g = h in cc (block_size-big elems bytes elements (rw top y), g))
      | inr m ↦
          let few : n ≤ max_blocks = ground arith in
          let grows : n * bytes ≤ max_blocks * bytes = mul-le-mul_right bytes few in
          let is_size : n * bytes ≡ size =
            some-eq (n * bytes) size
              (sym (block_size-fits elems bytes elements n (ap (λ x. x / elems) top) m) ∙ h) in
          record {
            blocks = n;
            size_of_blocks = sym is_size;
            enough = omega arith;
            no_more = omega arith;
            fits = omega arith;
          }
    ]

abbrev elem_count : Option TypeInfo → ℕ
elem_count none = 0
elem_count (some (elems, _)) = elems

abbrev byte_count : Option TypeInfo → ℕ
byte_count none = 0
byte_count (some (_, bytes)) = bytes

tensor_type-none : (type : ℕ) → get_elem? gguf_types type ≡ none → tensor_type type ≡ none
unfolding tensor_type
tensor_type-none type n = rw (n, tensor_type)

tensor_type-unnamed :
    (type e b : ℕ)
    → get_elem? gguf_types type ≡ some (e, b)
    → (b == 0) ≡ true
    → tensor_type type ≡ none
unfolding tensor_type
tensor_type-unnamed type e b at z = rw (at, tensor_type, z)

tensor_type-named :
    (type e b : ℕ)
    → get_elem? gguf_types type ≡ some (e, b)
    → (b == 0) ≡ false
    → tensor_type type ≡ some (e, b)
unfolding tensor_type
tensor_type-named type e b at z = rw (at, tensor_type, z)

tensor_nbytes-none :
    (type elements : ℕ) → tensor_type type ≡ none → tensor_nbytes type elements ≡ none
unfolding tensor_nbytes
tensor_nbytes-none type elements n = rw (n, tensor_nbytes)

tensor_nbytes-known :
    (type elements elems bytes : ℕ)
    → tensor_type type ≡ some (elems, bytes)
    → (elems == 0) ≡ false
    → tensor_nbytes type elements ≡ block_size elems bytes elements
unfolding tensor_nbytes
tensor_nbytes-known type elements elems bytes e z = rw (e, tensor_nbytes, z)

-- an entry of the table, if it is one
abbrev info_ok : TypeInfo → Bool
info_ok (elems, bytes) = bytes == 0 || (leb 1 elems && leb elems 256)

unfoldable all_ok : List TypeInfo → Bool
all_ok [] = true
all_ok (x ∷ xs) = info_ok x && all_ok xs

get_elem?-info_ok :
    (xs : List TypeInfo) (i : ℕ) (x : TypeInfo)
    → all_ok xs ≡ true
    → get_elem? xs i ≡ some x
    → info_ok x ≡ true
unfolding all_ok
get_elem?-info_ok [] i x a h = absurd (ground arith)
get_elem?-info_ok (y ∷ xs) zero x a h = let same : y ≡ x = cc h in rw (← same) (ground arith)
get_elem?-info_ok (y ∷ xs) (suc i) x a h = get_elem?-info_ok xs i x (ground arith) h

gguf_types-info_ok : all_ok gguf_types ≡ true
unfolding all_ok
gguf_types-info_ok = refl

-- A type that the table has: its blocks are not empty and hold no more than 256 elements.
tensor_type-some :
    (type elems bytes : ℕ)
    → tensor_type type ≡ some (elems, bytes)
    → (1 ≤ elems) × (elems ≤ 256) × (1 ≤ bytes)
tensor_type-some type elems bytes h = elim (Option-cases (get_elem? gguf_types type)) [
  | inl n ↦ absurd (cc (tensor_type-none type n, h))
  | inr ((e, b), at) ↦
      let ok = get_elem?-info_ok gguf_types type (e, b) gguf_types-info_ok at in
      elim (Bool-cases (b == 0)) [
        | inl z ↦ absurd (cc (tensor_type-unnamed type e b at z, h))
        | inr nz ↦
            let same = sym (tensor_type-named type e b at nz) ∙ h in
            let e_same : e ≡ elems = ap (λ x. elem_count x) same in
            let b_same : b ≡ bytes = ap (λ x. byte_count x) same in
            (ground arith, ground arith, ground arith)
      ]
]

-- For fewer than 2^64 - 255 elements, the size of a tensor of a known type is that of the blocks
-- that its elements need, and fits in 64 bits.
pub tensor_nbytes-IsBlocks :
    (type elements size : ℕ)
    → elements + 256 ≤ 2 ^ 64
    → tensor_nbytes type elements ≡ some size
    → (elems : ℕ) × (bytes : ℕ) × (tensor_type type ≡ some (elems, bytes))
      × IsBlocks elems bytes elements size
tensor_nbytes-IsBlocks type elements size small h = elim (Option-cases (tensor_type type)) [
  | inl n ↦ absurd (cc (tensor_nbytes-none type elements n, h))
  | inr ((elems, bytes), e) ↦
      let info = tensor_type-some type elems bytes e in
      let some_elems : (elems == 0) ≡ false = ground (arith, info.0) in
      (
        elems,
        bytes,
        e,
        block_size-IsBlocks elems bytes elements size info.0 info.2 (omega (arith, info.1))
            (sym (tensor_nbytes-known type elements elems bytes e some_elems) ∙ h),
      )
]
