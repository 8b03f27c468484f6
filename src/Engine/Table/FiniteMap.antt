-- ===== src/Engine/Table/FiniteMap.antt =====
-- The hash table is a finite map.
use go_ds.Common.{
  ℕ, zero, suc, ◌+◌, ◌*◌, ◌%◌, ◌==◌, ◌≤◌, ◌<◌, ◌≡◌, ◌≢◌, refl, ap, sym, ◌∙◌, inl, inr, ◌⊎◌, false,
  none, some, List, Bytes, length, same_bytes, same_bytes_sound, if◌then◌else◌, Bool-cases, arith,
}
use native.Mathlib.Nat.{mod-lt}
use go_ds.Engine.Table.{
  hash_bytes, Slot, StrI32Table, slot, set_slot, Probe, found, empty, full, probe, probe_key,
  table_put, table_get, table_init, empty_slots, next_pow2, next_pow2_from,
}
use go_ds.Engine.Table.Lookup.{
  Absent, EndsAt, EndsAt-FreeFor, slot-set_slot_same, slot-set_slot_other, length-set_slot,
  probe-Absent, probe-set_slot_same, probe-set_slot_other, slot-key,
}
use go_ds.Engine.Table.Room.{Room, probe_key-ne-full, probe-index, probe-found_index}

-- Every key that stands in a slot is found from the slot of its hash.
pub record IsValid (t : StrI32Table) : Type 0 where
  pub reachable :
      (key : Bytes) → ((j v : ℕ) → probe_key t.entry key ≢ found j v) → Absent t.entry key

Probe-cases :
    (p : Probe) → ((j : ℕ) × (v : ℕ) × (p ≡ found j v)) ⊎ (((j : ℕ) × (p ≡ empty j)) ⊎ (p ≡ full))
Probe-cases (found j v) = inl (j, v, refl)
Probe-cases (empty j) = inr (inl (j, refl))
Probe-cases full = inr (inr refl)

-- where a key is put, and what the table is then
record PutAt (t : StrI32Table) (key : Bytes) (value j : ℕ) : Type 0 where
  ends : EndsAt (length t.entry) t.entry key (hash_bytes key % length t.entry) j
  small : j < length t.entry
  becomes : (table_put t key value).entry ≡ set_slot t.entry j (some (key, value))

table_put-PutAt :
    (t : StrI32Table) (key : Bytes) (value : ℕ) → Room t.entry → (j : ℕ) × PutAt t key value j
unfolding table_put probe_key
table_put-PutAt t key value room =
    let start : hash_bytes key % length t.entry < length t.entry =
      mod-lt (hash_bytes key) (omega (arith, room.1)) in
    elim (Probe-cases (probe (length t.entry) t.entry key (hash_bytes key % length t.entry))) [
      | inl (j, v, e) ↦ (
        j,
        record {
          ends = inr (v, e);
          small =
              probe-found_index (length t.entry) t.entry key (hash_bytes key % length t.entry) j v
                start e;
          becomes = rw (e, table_put);
        },
      )
      | inr (inl (j, e)) ↦ (
        j,
        record {
          ends = inl e;
          small =
              probe-index (length t.entry) t.entry key (hash_bytes key % length t.entry) j start e;
          becomes = rw (e, table_put);
        },
      )
      | inr (inr e) ↦ absurd (probe_key-ne-full t.entry key room e)
    ]

table_get-found :
    (t : StrI32Table) (key : Bytes) (j v : ℕ)
    → probe_key t.entry key ≡ found j v
    → table_get t key ≡ some v
unfolding table_get
table_get-found t key j v e = rw (e, table_get)

table_get-not_found :
    (t : StrI32Table) (key : Bytes)
    → ((j v : ℕ) → probe_key t.entry key ≢ found j v)
    → table_get t key ≡ none
unfolding table_get
table_get-not_found t key n = elim (Probe-cases (probe_key t.entry key)) [
  | inl (j, v, e) ↦ absurd (n j v e)
  | inr (inl (j, e)) ↦ rw (e, table_get)
  | inr (inr e) ↦ rw (e, table_get)
]

-- the search in the table with one slot set
probe_key-set_slot :
    (es : List Slot) (key : Bytes) (j : ℕ) (s : Slot)
    → probe_key (set_slot es j s) key
      ≡ probe (length es) (set_slot es j s) key (hash_bytes key % length es)
unfolding probe_key
probe_key-set_slot es key j s =
    ap (λ n. probe n (set_slot es j s) key (hash_bytes key % n)) (length-set_slot es j s)

probe_key-table_put_same :
    (t : StrI32Table) (key : Bytes) (value j : ℕ)
    → PutAt t key value j
    → probe_key (table_put t key value).entry key ≡ found j value
probe_key-table_put_same t key value j at =
    ap (λ es. probe_key es key) at.becomes
    ∙ probe_key-set_slot t.entry key j (some (key, value))
    ∙ probe-set_slot_same (length t.entry) t.entry key (hash_bytes key % length t.entry) j value
        at.small at.ends

table_get-table_put_same :
    (t : StrI32Table) (key : Bytes) (value : ℕ)
    → Room t.entry
    → table_get (table_put t key value) key ≡ some value
table_get-table_put_same t key value room =
    let (j, at) = table_put-PutAt t key value room in
    table_get-found (table_put t key value) key j value (probe_key-table_put_same t key value j at)

not_both : (p : Probe) (j v : ℕ) → ((i : ℕ) × (p ≡ empty i)) ⊎ (p ≡ full) → p ≢ found j v
not_both p j v (inl (i, e)) h = cc
not_both p j v (inr e) h = cc

Absent-set_slot :
    (es : List Slot) (key other : Bytes) (j value : ℕ)
    → j < length es
    → same_bytes other key ≡ false
    → Absent es key
    → Absent (set_slot es j (some (other, value))) key
Absent-set_slot es key other j value small differs a i v k s = elim (Bool-cases (i == j)) [
  | inl e ↦
      let same : i ≡ j = ground arith in
      let here = slot-set_slot_same es j (some (other, value)) small in
      let keys : other ≡ k =
        slot-key (slot (set_slot es j (some (other, value))) j)
          (slot (set_slot es j (some (other, value))) i) other k value v here s
          (ap (slot (set_slot es j (some (other, value)))) (sym same)) in
      ap (λ x. same_bytes x key) (sym keys) ∙ differs
  | inr n ↦
      let ne : i ≢ j = ground arith in
      a i v k (sym (slot-set_slot_other es j i (some (other, value)) ne) ∙ s)
]

-- the search for a key behind the put of another
probe_key-table_put_other :
    (t : StrI32Table) (key other : Bytes) (value q v : ℕ)
    → Room t.entry
    → same_bytes other key ≡ false
    → probe_key t.entry key ≡ found q v
    → probe_key (table_put t other value).entry key ≡ found q v
unfolding probe_key
probe_key-table_put_other t key other value q v room differs e =
    let (j, at) = table_put-PutAt t other value room in
    ap (λ es. probe_key es key) at.becomes
    ∙ probe_key-set_slot t.entry key j (some (other, value))
    ∙ probe-set_slot_other (length t.entry) t.entry key other (hash_bytes key % length t.entry) j q
        v value at.small
        (EndsAt-FreeFor (length t.entry) t.entry other (hash_bytes other % length t.entry) j
          at.ends)
        differs e

Absent-table_put :
    (t : StrI32Table) (key other : Bytes) (value : ℕ)
    → Room t.entry
    → same_bytes other key ≡ false
    → Absent t.entry key
    → Absent (table_put t other value).entry key
Absent-table_put t key other value room differs a =
    let (j, at) = table_put-PutAt t other value room in
    rw at.becomes (Absent-set_slot t.entry key other j value at.small differs a)

Absent-probe_key :
    (es : List Slot) (key : Bytes) (j v : ℕ) → Absent es key → probe_key es key ≢ found j v
unfolding probe_key
Absent-probe_key es key j v a = probe-Absent (length es) es key (hash_bytes key % length es) j v a

-- In a valid table with a free slot, a put changes what is got for its key and for no other.
pub table_get-table_put :
    (t : StrI32Table) (key other : Bytes) (value : ℕ)
    → IsValid t
    → Room t.entry
    → table_get (table_put t other value) key
      ≡ (if same_bytes other key then some value else table_get t key)
table_get-table_put t key other value valid room = elim (Bool-cases (same_bytes other key)) [
  | inl y ↦
      let same : other ≡ key = same_bytes_sound other key y in
      rw (y, ← same) (table_get-table_put_same t other value room)
  | inr n ↦ elim (Probe-cases (probe_key t.entry key)) [
    | inl (q, v, e) ↦ rw n (
        table_get-found (table_put t other value) key q v
          (probe_key-table_put_other t key other value q v room n e)
        ∙ sym (table_get-found t key q v e))
    | inr stop ↦
        let missing : (j v : ℕ) → probe_key t.entry key ≢ found j v =
          λ j v e. not_both (probe_key t.entry key) j v stop e in
        let absent = Absent-table_put t key other value room n (valid.reachable key missing) in
        rw n (
          table_get-not_found (table_put t other value) key
            (λ j v. Absent-probe_key (table_put t other value).entry key j v absent)
          ∙ sym (table_get-not_found t key missing))
  ]
]

-- A put keeps a table with a free slot valid.
pub table_put-IsValid :
    (t : StrI32Table) (other : Bytes) (value : ℕ)
    → IsValid t
    → Room t.entry
    → IsValid (table_put t other value)
table_put-IsValid t other value valid room = record {
  reachable = λ key missing. elim (Bool-cases (same_bytes other key)) [
    | inl y ↦
        let same : other ≡ key = same_bytes_sound other key y in
        let (j, at) = table_put-PutAt t other value room in
        absurd (missing j value (rw (← same) (probe_key-table_put_same t other value j at)))
    | inr n ↦ elim (Probe-cases (probe_key t.entry key)) [
      | inl (q, v, e) ↦
          absurd (missing q v (probe_key-table_put_other t key other value q v room n e))
      | inr stop ↦
          Absent-table_put t key other value room n
            (valid.reachable key (λ j v e. not_both (probe_key t.entry key) j v stop e))
    ]
  ];
}

slot-empty_slots : (n i : ℕ) → slot (empty_slots n) i ≡ none
unfolding slot empty_slots
slot-empty_slots zero i = refl
slot-empty_slots (suc n) zero = refl
slot-empty_slots (suc n) (suc i) = slot-empty_slots n i

length-empty_slots : (n : ℕ) → length (empty_slots n) ≡ n
unfolding empty_slots
length-empty_slots zero = refl
length-empty_slots (suc n) = omega (arith, length-empty_slots n)

next_pow2_from_ge : (rounds p n : ℕ) → p ≤ next_pow2_from rounds p n
unfolding next_pow2_from
next_pow2_from_ge zero p n = omega arith
next_pow2_from_ge (suc rounds) p n = ground (arith, next_pow2_from_ge rounds (p * 2) n)

-- A new table is valid, has a free slot, and has no value for any key.
pub table_init-IsValid :
    (expected : ℕ)
    → IsValid (table_init expected)
      × Room (table_init expected).entry
      × ((key : Bytes) → table_get (table_init expected) key ≡ none)
unfolding table_init next_pow2
table_init-IsValid expected =
    let cap = next_pow2 (expected * 2 + 16) in
    let absent : (key : Bytes) → Absent (empty_slots cap) key =
      λ key i v k s. absurd (cc (slot-empty_slots cap i, s)) in
    let positive : 1 ≤ cap = next_pow2_from_ge (expected * 2 + 16) 1 (expected * 2 + 16) in
    (
      record { reachable = λ key missing. absent key },
      (0, omega (arith, length-empty_slots cap), slot-empty_slots cap 0),
      λ key.
          table_get-not_found (table_init expected) key
            (λ j v. Absent-probe_key (empty_slots cap) key j v (absent key)),
    )
