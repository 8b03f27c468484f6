-- ===== src/Engine/Table.antt =====
-- ds4.c: the hash table from strings to numbers behind the vocabulary, `table_init`, `table_put`
-- and `table_get`. The capacity is a power of two, so that `x & mask` is `x % cap`. The probing
-- loops have as many rounds as there are slots.
pub mod Lookup
pub mod Room
pub mod FiniteMap
mod Tests
use go_ds.Common.{
  ℕ, zero, suc, ◌+◌, ◌*◌, ◌%◌, ◌^◌, Option, none, some, List, [], ◌∷◌, Bytes, length, get_elem?,
  ltb, if◌then◌else◌, same_bytes,
}
use go_ds.Common.Bits.{bitwise, differ}

-- `hash_bytes` from the value `h` on
unfoldable pub hash_from : ℕ → Bytes → ℕ
hash_from h [] = h
hash_from h (b ∷ p) = hash_from (bitwise differ 64 h b * 1099511628211 % 2 ^ 64) p

unfoldable pub hash_bytes : Bytes → ℕ
hash_bytes p = hash_from 1469598103934665603 p

-- A slot that is used has a key and a value.
abbrev pub Slot : Type 0
Slot = Option (Bytes × ℕ)

pub record StrI32Table : Type 0 where
  pub entry : List Slot
  pub used : ℕ

unfoldable pub slot : List Slot → ℕ → Slot
slot es i = elim (get_elem? es i) [ none ↦ none | some s ↦ s ]

unfoldable pub next_pow2_from : ℕ → ℕ → ℕ → ℕ
next_pow2_from zero p n = p
next_pow2_from (suc rounds) p n =
    let rest = next_pow2_from rounds (p * 2) n in if ltb p n then rest else p

-- The power doubles in each round; `n` rounds are enough.
unfoldable pub next_pow2 : ℕ → ℕ
next_pow2 n = next_pow2_from n 1 n

unfoldable pub empty_slots : ℕ → List Slot
empty_slots zero = []
empty_slots (suc n) = none ∷ empty_slots n

unfoldable pub table_init : ℕ → StrI32Table
table_init expected = record { entry = empty_slots (next_pow2 (expected * 2 + 16)); used = 0 }

unfoldable pub set_slot : List Slot → ℕ → Slot → List Slot
set_slot [] i s = []
set_slot (x ∷ es) zero s = s ∷ es
set_slot (x ∷ es) (suc i) s = x ∷ set_slot es i s

-- where the probing loop stops
pub data Probe : Type 0 where
  found : ℕ → ℕ → Probe
  empty : ℕ → Probe
  full : Probe

unfoldable pub probe : ℕ → List Slot → Bytes → ℕ → Probe
probe zero es key i = full
probe (suc rounds) es key i =
    let rest = probe rounds es key ((i + 1) % length es) in
    elim (slot es i) [ none ↦ empty i | some (k, v) ↦ if same_bytes k key then found i v else rest ]

-- from the slot of the key's hash
unfoldable pub probe_key : List Slot → Bytes → Probe
probe_key es key = probe (length es) es key (hash_bytes key % length es)

unfoldable pub table_put : StrI32Table → Bytes → ℕ → StrI32Table
table_put t key value = elim (probe_key t.entry key) [
  | found i _ ↦ record t { entry = set_slot t.entry i (some (key, value)) }
  | empty i ↦ record { entry = set_slot t.entry i (some (key, value)); used = t.used + 1 }
  | full ↦ t
]

unfoldable pub table_get : StrI32Table → Bytes → Option ℕ
table_get t key = elim (probe_key t.entry key) [ found _ v ↦ some v | empty _ ↦ none | full ↦ none ]
