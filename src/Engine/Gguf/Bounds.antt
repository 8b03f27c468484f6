-- ===== src/Engine/Gguf/Bounds.antt =====
-- The cursor never leaves the file.
use go_ds.Common.{
  ℕ, zero, suc, ◌-◌, ◌*◌, ◌/◌, ◌^◌, ◌≤◌, inl, inr, Bytes, length, ltb, ◌==◌, arith, Bool-cases,
}
use go_ds.Engine.Gguf.{
  CursorError, Outcome, failed, read, array_too_large, nesting_too_deep, unknown_type, and_then,
  runs_out, cursor_read, cursor_skip, le_number, cursor_u32, cursor_u64, cursor_string,
  scalar_value_size, gguf_value_string, gguf_value_array, skip_items, skip_array, skip_value,
}

-- Where the outcome is a value, the position has not gone back and is inside the file.
unfoldable pub Inside {ℓ} : {A : Type ℓ} → Bytes → ℕ → Outcome A → Type 0
Inside base pos (failed _ _) = Unit
Inside base pos (read _ next) = (pos ≤ next) × (next ≤ length base)

Inside-weaken {ℓ} :
    {A : Type ℓ} (base : Bytes) (pos next : ℕ) (o : Outcome A)
    → pos ≤ next
    → Inside base next o
    → Inside base pos o
unfolding Inside
Inside-weaken base pos next (failed e at) h k = tt
Inside-weaken base pos next (read a behind) h k = (omega (arith, k.0), k.1)

Inside-and_then {ℓ} :
    {A B : Type ℓ} (base : Bytes) (pos : ℕ) (o : Outcome A) (f : A → ℕ → Outcome B)
    → Inside base pos o
    → ((a : A) (next : ℕ) → next ≤ length base → Inside base next (f a next))
    → Inside base pos (and_then o f)
unfolding Inside and_then
Inside-and_then base pos (failed e at) f h k = tt
Inside-and_then base pos (read a next) f h k =
    Inside-weaken base pos next (f a next) h.0 (k a next h.1)

cursor_read-Inside : (base : Bytes) (n pos : ℕ) → Inside base pos (cursor_read base n pos)
unfolding Inside cursor_read
cursor_read-Inside base n pos = elim (Bool-cases (runs_out base pos n)) [
  | inl y ↦ rw y tt
  | inr m ↦ rw m (omega arith, ground arith)
]

cursor_skip-Inside : (base : Bytes) (n pos : ℕ) → Inside base pos (cursor_skip base n pos)
unfolding Inside cursor_skip
cursor_skip-Inside base n pos = elim (Bool-cases (runs_out base pos n)) [
  | inl y ↦ rw y tt
  | inr m ↦ rw m (omega arith, ground arith)
]

Inside-read {ℓ} :
    {A : Type ℓ} (base : Bytes) (pos : ℕ) (a : A) → pos ≤ length base → Inside base pos (read a pos)
unfolding Inside
Inside-read base pos a h = (omega arith, h)

Inside-failed :
    (base : Bytes) (pos at : ℕ) (e : CursorError) → Inside {A = Unit {0}} base pos (failed e at)
unfolding Inside
Inside-failed base pos at e = tt

cursor_u32-Inside : (base : Bytes) (pos : ℕ) → Inside base pos (cursor_u32 base pos)
unfolding cursor_u32
cursor_u32-Inside base pos =
    Inside-and_then base pos (cursor_read base 4 pos) (λ p next. read (le_number p) next)
      (cursor_read-Inside base 4 pos) (λ p next h. Inside-read base next (le_number p) h)

cursor_u64-Inside : (base : Bytes) (pos : ℕ) → Inside base pos (cursor_u64 base pos)
unfolding cursor_u64
cursor_u64-Inside base pos =
    Inside-and_then base pos (cursor_read base 8 pos) (λ p next. read (le_number p) next)
      (cursor_read-Inside base 8 pos) (λ p next h. Inside-read base next (le_number p) h)

cursor_string-Inside : (base : Bytes) (pos : ℕ) → Inside base pos (cursor_string base pos)
unfolding cursor_string
cursor_string-Inside base pos =
    Inside-and_then base pos (cursor_u64 base pos) (λ len next. cursor_read base len next)
      (cursor_u64-Inside base pos) (λ len next h. cursor_read-Inside base len next)

-- a function that skips a value and stays inside
abbrev Stays : Bytes → (ℕ → Outcome (Unit {0})) → Type 0
Stays base skip = (pos : ℕ) → pos ≤ length base → Inside base pos (skip pos)

skip_items-Inside :
    (base : Bytes) (skip : ℕ → Outcome (Unit {0})) (len pos : ℕ)
    → Stays base skip
    → pos ≤ length base
    → Inside base pos (skip_items skip len pos)
unfolding skip_items
skip_items-Inside base skip zero pos stays h = Inside-read base pos tt h
skip_items-Inside base skip (suc len) pos stays h =
    Inside-and_then base pos (skip pos) (λ _ next. skip_items skip len next) (stays pos h)
      (λ _ next k. skip_items-Inside base skip len next stays k)

skip_array-Inside :
    (base : Bytes) (skip : ℕ → ℕ → Outcome (Unit {0})) (item_type len pos : ℕ)
    → ((type : ℕ) → Stays base (skip type))
    → pos ≤ length base
    → Inside base pos (skip_array base skip item_type len pos)
unfolding skip_array
skip_array-Inside base skip item_type len pos stays h =
    elim (Bool-cases (scalar_value_size item_type == 0)) [
      | inl e ↦ rw e (skip_items-Inside base (skip item_type) len pos (stays item_type) h)
      | inr n ↦ elim (Bool-cases (ltb ((2 ^ 64 - 1) / scalar_value_size item_type) len)) [
        | inl y ↦ rw (n, y) (Inside-failed base pos pos array_too_large)
        | inr m ↦ rw (n, m) (cursor_skip-Inside base (len * scalar_value_size item_type) pos)
      ]
    ]

-- From a position inside the file, a metadata value of any type, nested arrays included, is
-- refused or skipped to a position that is not in front of it and inside the file.
pub skip_value-Inside :
    (base : Bytes) (levels type pos : ℕ)
    → pos ≤ length base
    → Inside base pos (skip_value base levels type pos)
unfolding skip_value
skip_value-Inside base zero type pos h = Inside-failed base pos pos nesting_too_deep
skip_value-Inside base (suc levels) type pos h = elim (Bool-cases (scalar_value_size type == 0)) [
  | inr n ↦ rw n (cursor_skip-Inside base (scalar_value_size type) pos)
  | inl e ↦ elim (Bool-cases (type == gguf_value_string)) [
    | inl y ↦
        rw (e, y)
          (Inside-and_then base pos (cursor_string base pos) (λ _ next. read tt next)
            (cursor_string-Inside base pos) (λ _ next k. Inside-read base next tt k))
    | inr n ↦ elim (Bool-cases (type == gguf_value_array)) [
      | inr m ↦ rw (e, n, m) (Inside-failed base pos pos unknown_type)
      | inl y ↦
          rw (e, n, y)
            (Inside-and_then base pos (cursor_u32 base pos)
              (λ item_type next.
                and_then (cursor_u64 base next)
                  (λ len behind. skip_array base (skip_value base levels) item_type len behind))
              (cursor_u32-Inside base pos)
              (λ item_type next k.
                Inside-and_then base next (cursor_u64 base next)
                  (λ len behind. skip_array base (skip_value base levels) item_type len behind)
                  (cursor_u64-Inside base next)
                  (λ len behind b.
                    skip_array-Inside base (skip_value base levels) item_type len behind
                      (λ t p i. skip_value-Inside base levels t p i) b)))
    ]
  ]
]
