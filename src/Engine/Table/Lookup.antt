-- ===== src/Engine/Table/Lookup.antt =====
-- Where the probing loop of the hash table stops, before and after a slot is set.
use go_ds.Common.{
  ℕ, zero, suc, ◌+◌, ◌%◌, ◌<◌, ◌≡◌, ◌≢◌, refl, ap, sym, ◌∙◌, ◌⊎◌, inl, inr, true, false, none, some,
  List, [], ◌∷◌, Bytes, length, ◌==◌, same_bytes, same_bytes_sound, same_bytes_refl, same_bytes-ne,
  arith, Bool-cases, Option-cases,
}
use go_ds.Engine.Table.{Slot, slot, set_slot, found, empty, full, probe}

pub slot-set_slot_same :
    (es : List Slot) (i : ℕ) (s : Slot) → i < length es → slot (set_slot es i s) i ≡ s
unfolding set_slot slot
slot-set_slot_same [] i s h = absurd (omega arith)
slot-set_slot_same (x ∷ es) zero s h = refl
slot-set_slot_same (x ∷ es) (suc i) s h = slot-set_slot_same es i s (omega arith)

pub slot-set_slot_other :
    (es : List Slot) (i j : ℕ) (s : Slot) → j ≢ i → slot (set_slot es i s) j ≡ slot es j
unfolding set_slot slot
slot-set_slot_other [] i j s h = refl
slot-set_slot_other (x ∷ es) zero zero s h = absurd (h refl)
slot-set_slot_other (x ∷ es) zero (suc j) s h = refl
slot-set_slot_other (x ∷ es) (suc i) zero s h = refl
slot-set_slot_other (x ∷ es) (suc i) (suc j) s h = slot-set_slot_other es i j s (λ e. h (ap suc e))

pub length-set_slot : (es : List Slot) (i : ℕ) (s : Slot) → length (set_slot es i s) ≡ length es
unfolding set_slot
length-set_slot [] i s = refl
length-set_slot (x ∷ es) zero s = refl
length-set_slot (x ∷ es) (suc i) s = omega (arith, length-set_slot es i s)

pub found-index : {i v j w : ℕ} → found i v ≡ found j w → i ≡ j
found-index e = cc

found-value : {i v j w : ℕ} → found i v ≡ found j w → v ≡ w
found-value e = cc

pub empty-index : {i j : ℕ} → empty i ≡ empty j → i ≡ j
empty-index e = cc

pub probe-full : (es : List Slot) (key : Bytes) (i : ℕ) → probe zero es key i ≡ full
unfolding probe
probe-full es key i = refl

-- One step of the probing loop.
pub probe-empty :
    (n : ℕ) (es : List Slot) (key : Bytes) (i : ℕ)
    → slot es i ≡ none
    → probe (suc n) es key i ≡ empty i
unfolding probe
probe-empty n es key i h = rw (h, probe)

pub probe-found :
    (n : ℕ) (es : List Slot) (key k : Bytes) (i v : ℕ)
    → slot es i ≡ some (k, v)
    → same_bytes k key ≡ true
    → probe (suc n) es key i ≡ found i v
unfolding probe
probe-found n es key k i v h e = rw (h, probe, e)

pub probe-next :
    (n : ℕ) (es : List Slot) (key k : Bytes) (i v : ℕ)
    → slot es i ≡ some (k, v)
    → same_bytes k key ≡ false
    → probe (suc n) es key i ≡ probe n es key ((i + 1) % length es)
unfolding probe
probe-next n es key k i v h e = rw (h, probe, e)

-- The cases of a slot against a key.
abbrev pub SlotCases : List Slot → Bytes → ℕ → Type 0
SlotCases es key i =
    (slot es i ≡ none)
    ⊎ ((k : Bytes) × (v : ℕ) × (slot es i ≡ some (k, v))
        × ((same_bytes k key ≡ true) ⊎ (same_bytes k key ≡ false)))

pub slot-cases : (es : List Slot) (key : Bytes) (i : ℕ) → SlotCases es key i
slot-cases es key i = elim (Option-cases (slot es i)) [
  | inl n ↦ inl n
  | inr ((k, v), s) ↦ inr (k, v, s, Bool-cases (same_bytes k key))
]

-- the key stands in no slot
abbrev pub Absent : List Slot → Bytes → Type 0
Absent es key = (i v : ℕ) (k : Bytes) → slot es i ≡ some (k, v) → same_bytes k key ≡ false

-- Where the search stops, the slot is as it says.
pub probe-eq-found :
    (n : ℕ) (es : List Slot) (key : Bytes) (i j v : ℕ)
    → probe n es key i ≡ found j v
    → (k : Bytes) × (slot es j ≡ some (k, v)) × (same_bytes k key ≡ true)
probe-eq-found zero es key i j v h = absurd (cc (probe-full es key i, h))
probe-eq-found (suc n) es key i j v h = elim (slot-cases es key i) [
  | inl e ↦ absurd (cc (probe-empty n es key i e, h))
  | inr (k, w, s, inl y) ↦
      let hit = sym (probe-found n es key k i w s y) ∙ h in
      let same_i : i ≡ j = found-index hit in
      let same_v : w ≡ v = found-value hit in (k, rw (← same_i, ← same_v) s, y)
  | inr (k, w, s, inr y) ↦
      probe-eq-found n es key ((i + 1) % length es) j v (sym (probe-next n es key k i w s y) ∙ h)
]

pub probe-eq-empty :
    (n : ℕ) (es : List Slot) (key : Bytes) (i j : ℕ) → probe n es key i ≡ empty j → slot es j ≡ none
probe-eq-empty zero es key i j h = absurd (cc (probe-full es key i, h))
probe-eq-empty (suc n) es key i j h = elim (slot-cases es key i) [
  | inl e ↦
      let stop = sym (probe-empty n es key i e) ∙ h in
      let same : i ≡ j = empty-index stop in rw (← same) e
  | inr (k, w, s, inl y) ↦ absurd (cc (probe-found n es key k i w s y, h))
  | inr (k, w, s, inr y) ↦
      probe-eq-empty n es key ((i + 1) % length es) j (sym (probe-next n es key k i w s y) ∙ h)
]

-- A key that stands nowhere is not found.
pub probe-Absent :
    (n : ℕ) (es : List Slot) (key : Bytes) (i j v : ℕ)
    → Absent es key
    → probe n es key i ≢ found j v
probe-Absent n es key i j v a h =
    let hit = probe-eq-found n es key i j v h in cc (hit.2, a j v hit.0 hit.1)

-- The slot at `i` is free for the key: it is not used, or has the key.
abbrev pub FreeFor : List Slot → Bytes → ℕ → Type 0
FreeFor es key i =
    (slot es i ≡ none)
    ⊎ ((k : Bytes) × (v : ℕ) × (slot es i ≡ some (k, v)) × (same_bytes k key ≡ true))

-- The search ends at the slot `j`.
abbrev pub EndsAt : ℕ → List Slot → Bytes → ℕ → ℕ → Type 0
EndsAt n es key i j = (probe n es key i ≡ empty j) ⊎ ((v : ℕ) × (probe n es key i ≡ found j v))

pub EndsAt-FreeFor :
    (n : ℕ) (es : List Slot) (key : Bytes) (i j : ℕ) → EndsAt n es key i j → FreeFor es key j
EndsAt-FreeFor n es key i j (inl stop) = inl (probe-eq-empty n es key i j stop)
EndsAt-FreeFor n es key i j (inr (v, stop)) =
    let hit = probe-eq-found n es key i j v stop in inr (hit.0, v, hit.1, hit.2)

pub slot-key :
    (s s' : Slot) (k k' : Bytes) (w v : ℕ) → s ≡ some (k, w) → s' ≡ some (k', v) → s ≡ s' → k ≡ k'
slot-key s s' k k' w v e e' same = cc

FreeFor-ne :
    (es : List Slot) (key k : Bytes) (i j w : ℕ)
    → FreeFor es key j
    → slot es i ≡ some (k, w)
    → same_bytes k key ≡ false
    → i ≢ j
FreeFor-ne es key k i j w (inl e) s n same = cc (ap (slot es) same, e, s)
FreeFor-ne es key k i j w (inr (k', v, s', y)) s n same =
    let keys : k ≡ k' = slot-key (slot es i) (slot es j) k k' w v s s' (ap (slot es) same) in
    cc (ap (λ x. same_bytes x key) keys, n, y)

EndsAt-next :
    (n : ℕ) (es : List Slot) (key k : Bytes) (i j w : ℕ)
    → slot es i ≡ some (k, w)
    → same_bytes k key ≡ false
    → EndsAt (suc n) es key i j
    → EndsAt n es key ((i + 1) % length es) j
EndsAt-next n es key k i j w s y (inl stop) = inl (sym (probe-next n es key k i w s y) ∙ stop)
EndsAt-next n es key k i j w s y (inr (v, stop)) =
    inr (v, sym (probe-next n es key k i w s y) ∙ stop)

-- The search for a key ends at the slot that was set for it.
pub probe-set_slot_same :
    (n : ℕ) (es : List Slot) (key : Bytes) (i j value : ℕ)
    → j < length es
    → EndsAt n es key i j
    → probe n (set_slot es j (some (key, value))) key i ≡ found j value
probe-set_slot_same zero es key i j value small (inl h) = absurd (cc (probe-full es key i, h))
probe-set_slot_same zero es key i j value small (inr (v, h)) = absurd (cc (probe-full es key i, h))
probe-set_slot_same (suc n) es key i j value small h =
    let next = set_slot es j (some (key, value)) in
    let here : slot next j ≡ some (key, value) =
      slot-set_slot_same es j (some (key, value)) small in
    let hit = probe-found n next key key j value here (same_bytes_refl key) in
    elim (slot-cases es key i) [
      | inl e ↦ elim h [
        | inl stop ↦
            let same : i ≡ j = empty-index (sym (probe-empty n es key i e) ∙ stop) in rw same hit
        | inr (v, stop) ↦ absurd (cc (probe-empty n es key i e, stop))
      ]
      | inr (k, w, s, inl y) ↦ elim h [
        | inl stop ↦ absurd (cc (probe-found n es key k i w s y, stop))
        | inr (v, stop) ↦
            let same : i ≡ j = found-index (sym (probe-found n es key k i w s y) ∙ stop) in
            rw same hit
      ]
      | inr (k, w, s, inr y) ↦
          let apart = FreeFor-ne es key k i j w (EndsAt-FreeFor (suc n) es key i j h) s y in
          let kept : slot next i ≡ some (k, w) =
            slot-set_slot_other es j i (some (key, value)) apart ∙ s in
          let len = length-set_slot es j (some (key, value)) in
          probe-next n next key k i w kept y
          ∙ ap (λ x. probe n next key ((i + 1) % x)) len
          ∙ probe-set_slot_same n es key ((i + 1) % length es) j value small
              (EndsAt-next n es key k i j w s y h)
    ]

differs_sym :
    (k key other : Bytes) → k ≡ key → same_bytes other key ≡ false → same_bytes k other ≡ false
differs_sym k key other same differs = elim (Bool-cases (same_bytes k other)) [
  | inr n ↦ n
  | inl y ↦ absurd (same_bytes-ne other key differs (sym (same_bytes_sound k other y) ∙ same))
]

-- A key that is found is found at the same place after another key was put.
pub probe-set_slot_other :
    (n : ℕ) (es : List Slot) (key other : Bytes) (i j q v value : ℕ)
    → j < length es
    → FreeFor es other j
    → same_bytes other key ≡ false
    → probe n es key i ≡ found q v
    → probe n (set_slot es j (some (other, value))) key i ≡ found q v
probe-set_slot_other zero es key other i j q v value small free differs h =
    absurd (cc (probe-full es key i, h))
probe-set_slot_other (suc n) es key other i j q v value small free differs h =
    let next = set_slot es j (some (other, value)) in
    let len = length-set_slot es j (some (other, value)) in
    let here : slot next j ≡ some (other, value) =
      slot-set_slot_same es j (some (other, value)) small in
    elim (slot-cases es key i) [
      | inl e ↦ absurd (cc (probe-empty n es key i e, h))
      | inr (k, w, s, inl y) ↦
          let same_key : k ≡ key = same_bytes_sound k key y in
          let apart =
            FreeFor-ne es other k i j w free s (differs_sym k key other same_key differs) in
          let kept : slot next i ≡ some (k, w) =
            slot-set_slot_other es j i (some (other, value)) apart ∙ s in
          probe-found n next key k i w kept y ∙ sym (probe-found n es key k i w s y) ∙ h
      | inr (k, w, s, inr y) ↦
          let rest = sym (probe-next n es key k i w s y) ∙ h in
          let later =
            ap (λ x. probe n next key ((i + 1) % x)) len
            ∙ probe-set_slot_other n es key other ((i + 1) % length es) j q v value small free
                differs rest in
          elim (Bool-cases (i == j)) [
            | inl e ↦
                let same : i ≡ j = ground arith in
                probe-next n next key other i value (rw same here) differs ∙ later
            | inr apart ↦
                let ne : i ≢ j = ground arith in
                probe-next n next key k i w
                  (slot-set_slot_other es j i (some (other, value)) ne ∙ s) y
                ∙ later
          ]
    ]
