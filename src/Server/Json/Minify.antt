-- ===== src/Server/Json/Minify.antt =====
-- `json_minify_raw_value`: what its loop keeps.
use go_ds.Common.{
  ℕ, ◌≡◌, refl, ap, sym, ◌⊎◌, ◌∙◌, inl, inr, Bool, true, false, [], ◌∷◌, ◌++◌, Bytes, ◌==◌, arith,
  append_assoc, is_space, ◌≢◌, Bool-cases,
}
use go_ds.Server.Json.Text.{
  json_escape, json_escape_fragment, escape_byte, hex_digit, json_ws, fail, ok,
}
use go_ds.Server.Json.Total.{json_skip_value-Consumes}
use go_ds.Server.Json.Bounds.{Parse-cases}
use go_ds.Server.Json.Skip.{compact, json_skip_value, json_minify_raw_value, between}

-- `t` is `s` without the white space that stands outside of strings, by the grammar of JSON's strings:
-- between its quotes a string has bytes and escapes, and an escape is a backslash with the byte
-- behind it. `in_string` tells whether `s` begins inside of a string.
pub data Minified : (in_string : Bool) → Bytes → Bytes → Type 0 where
  done : Minified false [] []
  blank : (c : ℕ) (s t : Bytes) → is_space c ≡ true → Minified false s t → Minified false (c ∷ s) t
  token :
      (c : ℕ) (s t : Bytes)
      → is_space c ≡ false
      → c ≢ b'"'
      → Minified false s t
      → Minified false (c ∷ s) (c ∷ t)
  opens : (c : ℕ) (s t : Bytes) → c ≡ b'"' → Minified true s t → Minified false (c ∷ s) (c ∷ t)
  inner :
      (c : ℕ) (s t : Bytes)
      → c ≢ b'"'
      → c ≢ b'\\'
      → Minified true s t
      → Minified true (c ∷ s) (c ∷ t)
  escaped :
      (c e : ℕ) (s t : Bytes)
      → c ≡ b'\\'
      → Minified true s t
      → Minified true (c ∷ e ∷ s) (c ∷ e ∷ t)
  closes : (c : ℕ) (s t : Bytes) → c ≡ b'"' → Minified false s t → Minified true (c ∷ s) (c ∷ t)
  -- a text that ends inside of a string, or of an escape
  unclosed : Minified true [] []
  half : (c : ℕ) → c ≡ b'\\' → Minified true (c ∷ []) (c ∷ [])

compact-Minified : (in_string : Bool) (s : Bytes) → Minified in_string s (compact in_string false s)
unfolding compact
compact-Minified false [] = done
compact-Minified true [] = unclosed
compact-Minified false (c ∷ s) = elim (Bool-cases (c == b'"')) [
  | inl q ↦
      rw (q, compact) (opens c s (compact true false s) (ground arith) (compact-Minified true s))
  | inr n ↦ elim (Bool-cases (is_space c)) [
    | inl w ↦ rw (n, w, compact) (blank c s (compact false false s) w (compact-Minified false s))
    | inr t ↦
        rw (n, t, compact)
          (token c s (compact false false s) t (ground arith) (compact-Minified false s))
  ]
]
compact-Minified true (c ∷ []) = elim (Bool-cases (c == b'"')) [
  | inl q ↦ closes c [] [] (ground arith) done
  | inr n ↦ elim (Bool-cases (c == b'\\')) [
    | inl b ↦ half c (ground arith)
    | inr m ↦ inner c [] [] (ground arith) (ground arith) unclosed
  ]
]
compact-Minified true (c ∷ d ∷ s) = elim (Bool-cases (c == b'"')) [
  | inl q ↦
      let no : (c == b'\\') ≡ false = ground arith in
      rw (q, no)
        (closes c (d ∷ s) (compact false false (d ∷ s)) (ground arith)
          (compact-Minified false (d ∷ s)))
  | inr n ↦ elim (Bool-cases (c == b'\\')) [
    | inl b ↦
        rw (n, b) (escaped c d s (compact true false s) (ground arith) (compact-Minified true s))
    | inr m ↦
        rw (n, m)
          (inner c (d ∷ s) (compact true false (d ∷ s)) (ground arith) (ground arith)
            (compact-Minified true (d ∷ s)))
  ]
]

compact-escape_byte :
    (c : ℕ) (p : Bytes)
    → compact true false (escape_byte c ++ p) ≡ escape_byte c ++ compact true false p
unfolding compact escape_byte hex_digit
compact-escape_byte c p = ground arith

compact-json_escape_fragment :
    (s p : Bytes)
    → compact true false (json_escape_fragment s ++ p)
      ≡ json_escape_fragment s ++ compact true false p
unfolding json_escape_fragment
compact-json_escape_fragment [] p = refl
compact-json_escape_fragment (c ∷ s) p =
    rw (append_assoc, append_assoc)
      (compact-escape_byte c _ ∙ ap (◌++◌ (escape_byte c)) (compact-json_escape_fragment s p))

-- A string that `json_escape` wrote is kept byte for byte, blanks and quotes inside it included,
-- and the loop is outside a string again behind it.
pub compact-json_escape :
    (s rest : Bytes)
    → compact false false (json_escape s ++ rest) ≡ json_escape s ++ compact false false rest
unfolding json_escape compact
compact-json_escape s rest = ap (◌∷◌ b'"') (
    ap (compact true false) (append_assoc (json_escape_fragment s) (b'"' ∷ []) rest)
    ∙ compact-json_escape_fragment s (b'"' ∷ rest)
    ∙ sym (append_assoc (json_escape_fragment s) (b'"' ∷ []) (compact false false rest)))

-- Minifying a text that starts with no value gives the text itself. For any other text the result
-- is the text up to where the reader of the value ends, without the white space outside of strings
-- and with all else.
pub json_minify_raw_value-Minified :
    (json : Bytes)
    → ((json_skip_value (json_ws json) ≡ fail) × (json_minify_raw_value json ≡ json))
      ⊎ ((end : Bytes) × (json_skip_value (json_ws json) ≡ ok tt end)
          × Minified false (between (json_ws json) end) (json_minify_raw_value json))
unfolding json_minify_raw_value
json_minify_raw_value-Minified json =
    elim (Parse-cases (json_ws json) (json_skip_value (json_ws json))
      (json_skip_value-Consumes (json_ws json))) [
        | inl e ↦ inl (e, rw (e, json_minify_raw_value))
        | inr (end, e) ↦ inr (
          end,
          e,
          rw (e, json_minify_raw_value) (compact-Minified false (between (json_ws json) end)),
        )
      ]
