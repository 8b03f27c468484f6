-- ===== src/Engine/Table/Room.antt =====
-- A free slot ends every search.
use native.Mathlib.Nat.{mod-lt, mod-add-mod, add-mod-mod, add-mod_right, mod-eq_of_lt}
use go_ds.Common.{
  ℕ, zero, suc, ◌+◌, ◌-◌, ◌%◌, ◌<◌, ◌≡◌, ◌≢◌, ap, sym, ◌∙◌, inl, inr, none, List, Bytes, length,
  arith,
}
use go_ds.Engine.Table.{hash_bytes, Slot, slot, found, empty, full, probe, probe_key}
use go_ds.Engine.Table.Lookup.{
  probe-empty, probe-found, probe-next, probe-full, slot-cases, empty-index, found-index,
}

-- a slot that is not used
abbrev pub Room : List Slot → Type 0
Room es = (j : ℕ) × (j < length es) × (slot es j ≡ none)

probe-reaches :
    (d n : ℕ) (es : List Slot) (key : Bytes) (i : ℕ)
    → i < length es
    → slot es ((i + d) % length es) ≡ none
    → d < n
    → probe n es key i ≢ full
probe-reaches d zero es key i small free fuel h = omega arith
probe-reaches zero (suc n) es key i small free fuel h =
    let here : (i + 0) % length es ≡ i = mod-eq_of_lt (omega arith) ∙ omega arith in
    cc (probe-empty n es key i (sym (ap (slot es) here) ∙ free), h)
probe-reaches (suc d) (suc n) es key i small free fuel h = elim (slot-cases es key i) [
  | inl e ↦ cc (probe-empty n es key i e, h)
  | inr (k, w, s, inl y) ↦ cc (probe-found n es key k i w s y, h)
  | inr (k, w, s, inr y) ↦
      let next : (i + 1) % length es < length es = mod-lt (i + 1) (omega arith) in
      let there : ((i + 1) % length es + d) % length es ≡ (i + suc d) % length es =
        mod-add-mod (i + 1) (length es) d
        ∙ ap (λ x. x % length es) (let sum : i + 1 + d ≡ i + suc d = omega arith in sum) in
      probe-reaches d n es key ((i + 1) % length es) next (ap (slot es) there ∙ free) (omega arith)
        (sym (probe-next n es key k i w s y) ∙ h)
]

pub probe_key-ne-full : (es : List Slot) (key : Bytes) → Room es → probe_key es key ≢ full
unfolding probe_key
probe_key-ne-full es key (j, small, free) =
    let size = length es in
    let start = hash_bytes key % size in
    let d = (j + size - start) % size in
    let start_small : start < size = mod-lt (hash_bytes key) (omega arith) in
    let d_small : d < size = mod-lt (j + size - start) (omega arith) in
    let there : (start + d) % size ≡ j =
      add-mod-mod start (j + size - start) size
      ∙ ap (λ x. x % size) (let sum : start + (j + size - start) ≡ j + size = omega arith in sum)
      ∙ add-mod_right j size
      ∙ mod-eq_of_lt small in
    probe-reaches d size es key start start_small (ap (slot es) there ∙ free) d_small

pub probe-index :
    (n : ℕ) (es : List Slot) (key : Bytes) (i j : ℕ)
    → i < length es
    → probe n es key i ≡ empty j
    → j < length es
probe-index zero es key i j small h = absurd (cc (probe-full es key i, h))
probe-index (suc n) es key i j small h = elim (slot-cases es key i) [
  | inl e ↦ let same : i ≡ j = empty-index (sym (probe-empty n es key i e) ∙ h) in omega arith
  | inr (k, w, s, inl y) ↦ absurd (cc (probe-found n es key k i w s y, h))
  | inr (k, w, s, inr y) ↦
      probe-index n es key ((i + 1) % length es) j (mod-lt (i + 1) (omega arith))
        (sym (probe-next n es key k i w s y) ∙ h)
]

pub probe-found_index :
    (n : ℕ) (es : List Slot) (key : Bytes) (i j v : ℕ)
    → i < length es
    → probe n es key i ≡ found j v
    → j < length es
probe-found_index zero es key i j v small h = absurd (cc (probe-full es key i, h))
probe-found_index (suc n) es key i j v small h = elim (slot-cases es key i) [
  | inl e ↦ absurd (cc (probe-empty n es key i e, h))
  | inr (k, w, s, inl y) ↦
      let same : i ≡ j = found-index (sym (probe-found n es key k i w s y) ∙ h) in omega arith
  | inr (k, w, s, inr y) ↦
      probe-found_index n es key ((i + 1) % length es) j v (mod-lt (i + 1) (omega arith))
        (sym (probe-next n es key k i w s y) ∙ h)
]
