-- ===== src/Server/Json/Skip.antt =====
-- ds4_server.c: `json_skip_array`, `json_skip_object`, `json_skip_value`, `json_raw_value` and
-- `json_minify_raw_value`, with the part of `strtod` that `json_number` needs to move its pointer.
use go_ds.Common.{
  ℕ, zero, suc, ◌-◌, ◌*◌, Bool, true, false, not, ◌&&◌, ◌||◌, none, some, [], ◌∷◌, Bytes, length,
  take, peek, advance, strip_prefix, is_space, ◌==◌, if◌then◌else◌,
}
use go_ds.Server.Json.Number.{strtod_end}
use go_ds.Server.Json.Text.{Parse, ok, fail, starved, ◌>>=◌, json_ws, json_string}

-- `json_number`, whose value is not used here
unfoldable pub json_number : Bytes → Parse (Unit {0})
json_number p = elim (strtod_end (json_ws p)) [ none ↦ fail | some q ↦ ok tt q ]

-- the end of `json_skip_value`: the three literals, or a number
unfoldable pub skip_scalar : Bytes → Parse (Unit {0})
skip_scalar p = elim (strip_prefix (b't' ∷ b'r' ∷ b'u' ∷ b'e' ∷ []) p) [
  | some q ↦ ok tt q
  | none ↦ elim (strip_prefix (b'f' ∷ b'a' ∷ b'l' ∷ b's' ∷ b'e' ∷ []) p) [
    | some q ↦ ok tt q
    | none ↦ elim (strip_prefix (b'n' ∷ b'u' ∷ b'l' ∷ b'l' ∷ []) p) [
      | some q ↦ ok tt q
      | none ↦ json_number p
    ]
  ]
]

-- `if (**p != c) return false; (*p)++`
abbrev pub expect : ℕ → Bytes → Parse (Unit {0})
expect c p = if peek p == c then ok tt (advance p) else fail

-- The three functions call one another; each call takes one unit of fuel, each round of a loop too.
unfoldable mutual
  pub skip_value : ℕ → Bytes → Parse (Unit {0})
  skip_value zero p = starved
  skip_value (suc n) p =
      let q = json_ws p in
      let string = json_string q >>= λ _ r. ok tt r in
      let object = skip_object n q in
      let array = skip_array n q in
      if peek q == b'"'
      then string
      else if peek q == b'{'
      then object
      else if peek q == b'['
      then array
      else skip_scalar q

  pub skip_array : ℕ → Bytes → Parse (Unit {0})
  skip_array zero p = starved
  skip_array (suc n) p = expect b'[' (json_ws p) >>= λ _ q.
      let items = skip_items n (json_ws q) in
      if peek (json_ws q) == b']' then ok tt (advance (json_ws q)) else items

  pub skip_items : ℕ → Bytes → Parse (Unit {0})
  skip_items zero p = starved
  skip_items (suc n) p = skip_value n p >>= λ _ q.
      let more = expect b',' (json_ws q) >>= λ _ r. skip_items n r in
      if peek (json_ws q) == b']' then ok tt (advance (json_ws q)) else more

  pub skip_object : ℕ → Bytes → Parse (Unit {0})
  skip_object zero p = starved
  skip_object (suc n) p = expect b'{' (json_ws p) >>= λ _ q.
      let fields = skip_fields n (json_ws q) in
      if peek (json_ws q) == b'}' then ok tt (advance (json_ws q)) else fields

  pub skip_fields : ℕ → Bytes → Parse (Unit {0})
  skip_fields zero p = starved
  skip_fields (suc n) p = json_string p >>= λ _ q. expect b':' (json_ws q) >>= λ _ r.
      skip_value n r >>= λ _ s.
      let more = expect b',' (json_ws s) >>= λ _ t. skip_fields n t in
      if peek (json_ws s) == b'}' then ok tt (advance (json_ws s)) else more

-- Three calls are made for each byte at most.
unfoldable pub json_skip_value : Bytes → Parse (Unit {0})
json_skip_value p = skip_value (suc (3 * length p)) p

-- the text between two positions of one string
abbrev pub between : Bytes → Bytes → Bytes
between start end = take (length start - length end) start

unfoldable pub json_raw_value : Bytes → Parse Bytes
json_raw_value p =
    let start = json_ws p in json_skip_value start >>= λ _ end. ok (between start end) end

-- the loop of `json_minify_raw_value`
unfoldable pub compact : Bool → Bool → Bytes → Bytes
compact in_string escape [] = []
compact true escape (c ∷ s) = c ∷ compact (escape || not (c == b'"')) (not escape && c == b'\\') s
compact false escape (c ∷ s) =
    let rest = compact (c == b'"') escape s in
    if c == b'"' || not (is_space c) then c ∷ rest else rest

unfoldable pub json_minify_raw_value : Bytes → Bytes
json_minify_raw_value json =
    let start = json_ws json in
    elim (json_skip_value start) [
      | ok _ end ↦ compact false false (between start end)
      | fail ↦ json
      | starved ↦ json
    ]
