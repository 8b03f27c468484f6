-- ===== src/Engine/Table/Tests.antt =====
-- Tests and examples of the hash table.
use go_ds.Common.{◌∷◌, [], ◌≡◌, refl, some, same_bytes, if◌then◌else◌}
use go_ds.Engine.Table.{
  StrI32Table, hash_bytes, hash_from, table_init, table_put, table_get, probe_key, probe, slot,
  set_slot, empty_slots, next_pow2, next_pow2_from,
}
use go_ds.Engine.Table.Room.{Room}
use go_ds.Engine.Table.FiniteMap.{
  IsValid, table_get-table_put, table_put-IsValid, table_init-IsValid,
}
use go_ds.Common.Bits.{bitwise}

abbrev fresh : StrI32Table
fresh = table_init 3

fresh-IsValid : IsValid fresh
fresh-IsValid = (table_init-IsValid 3).0

fresh-Room : Room fresh.entry
fresh-Room = (table_init-IsValid 3).1

table_get-table_put_example :
    table_get (table_put fresh (b'h' ∷ b'i' ∷ []) 7) (b'h' ∷ b'o' ∷ []) ≡ (
      if same_bytes (b'h' ∷ b'i' ∷ []) (b'h' ∷ b'o' ∷ [])
      then some 7
      else table_get fresh (b'h' ∷ b'o' ∷ []))
table_get-table_put_example =
    table_get-table_put fresh (b'h' ∷ b'o' ∷ []) (b'h' ∷ b'i' ∷ []) 7 fresh-IsValid fresh-Room

table_put-IsValid_example : IsValid (table_put fresh (b'h' ∷ b'i' ∷ []) 7)
table_put-IsValid_example = table_put-IsValid fresh (b'h' ∷ b'i' ∷ []) 7 fresh-IsValid fresh-Room

-- the value of the hash function at the letter `a`
hash_test : hash_bytes (b'a' ∷ []) ≡ 4953267810257967366
unfolding hash_bytes hash_from bitwise
hash_test = refl

get_test :
    table_get
      (table_put (table_put fresh (b'h' ∷ b'i' ∷ []) 7) (b'h' ∷ b'o' ∷ []) 8)
      (b'h' ∷ b'i' ∷ [])
    ≡ some 7
unfolding hash_bytes hash_from bitwise table_init table_put table_get probe_key probe slot set_slot
    empty_slots next_pow2 next_pow2_from same_bytes
get_test = refl
