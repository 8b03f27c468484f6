-- ===== src/Server/Dsml.antt =====
-- ds4_server.c, the tool-call markup: how attributes, texts and arguments are escaped when a
-- prompt is rendered (`append_dsml_attr_escaped`, `append_dsml_text_escaped`,
-- `append_dsml_parameter_text`, `append_dsml_json_literal`), and `dsml_unescape_text`, which reads
-- them back from a generated text. A string is the list of its bytes.
pub mod Escapes
pub mod Closing
pub mod Argument
mod Tests
use go_ds.Common.{
  ℕ, zero, suc, Bool, true, false, none, some, [], ◌∷◌, ◌++◌, Bytes, length, strip_prefix, ◌==◌,
  if◌then◌else◌,
}

abbrev pub amp : Bytes
amp = b'a' ∷ b'm' ∷ b'p' ∷ b';' ∷ []

abbrev pub lt : Bytes
lt = b'l' ∷ b't' ∷ b';' ∷ []

abbrev pub gt : Bytes
gt = b'g' ∷ b't' ∷ b';' ∷ []

abbrev pub quot : Bytes
quot = b'q' ∷ b'u' ∷ b'o' ∷ b't' ∷ b';' ∷ []

abbrev pub apos : Bytes
apos = b'a' ∷ b'p' ∷ b'o' ∷ b's' ∷ b';' ∷ []

unfoldable pub escape_text_byte : ℕ → Bytes
escape_text_byte c =
    if c == b'&'
    then b'&' ∷ amp
    else if c == b'<'
    then b'&' ∷ lt
    else if c == b'>'
    then b'&' ∷ gt
    else c ∷ []

unfoldable pub escape_attr_byte : ℕ → Bytes
escape_attr_byte c = if c == b'"' then b'&' ∷ quot else escape_text_byte c

unfoldable pub append_dsml_attr_escaped : Bytes → Bytes
append_dsml_attr_escaped [] = []
append_dsml_attr_escaped (c ∷ s) = escape_attr_byte c ++ append_dsml_attr_escaped s

unfoldable pub append_dsml_text_escaped : Bytes → Bytes
append_dsml_text_escaped [] = []
append_dsml_text_escaped (c ∷ s) = escape_text_byte c ++ append_dsml_text_escaped s

-- `</｜DSML｜parameter>` behind its first byte; the bar is three bytes
abbrev pub parameter_end_tail : Bytes
parameter_end_tail =
    b'/' ∷ 239 ∷ 189 ∷ 156 ∷ b'D' ∷ b'S' ∷ b'M' ∷ b'L' ∷ 239 ∷ 189 ∷ 156 ∷ b'p' ∷ b'a' ∷ b'r' ∷ b'a'
    ∷ b'm' ∷ b'e' ∷ b't' ∷ b'e' ∷ b'r' ∷ b'>' ∷ []

abbrev pub parameter_end : Bytes
parameter_end = b'<' ∷ parameter_end_tail

-- Whether the string has the closing tag at its start.
unfoldable pub at_end_tag : Bytes → Bool
at_end_tag s = elim (strip_prefix parameter_end s) [ none ↦ false | some _ ↦ true ]

-- The loop of both functions below: `escape` is written for the first byte of a closing tag.
unfoldable pub guard_end_tag : Bytes → Bytes → Bytes
guard_end_tag escape [] = []
guard_end_tag escape (c ∷ s) =
    let rest = guard_end_tag escape s in if at_end_tag (c ∷ s) then escape ++ rest else c ∷ rest

abbrev pub lt_entity : Bytes
lt_entity = b'&' ∷ lt

abbrev pub lt_json : Bytes
lt_json = b'\\' ∷ b'u' ∷ b'0' ∷ b'0' ∷ b'3' ∷ b'c' ∷ []

unfoldable pub append_dsml_parameter_text : Bytes → Bytes
append_dsml_parameter_text s = guard_end_tag lt_entity s

unfoldable pub append_dsml_json_literal : Bytes → Bytes
append_dsml_json_literal s = guard_end_tag lt_json s

-- what stands behind an ampersand: the byte it stands for, and the rest
unfoldable pub entity : Bytes → ℕ × Bytes
entity p = elim (strip_prefix amp p) [
  | some q ↦ (b'&', q)
  | none ↦ elim (strip_prefix lt p) [
    | some q ↦ (b'<', q)
    | none ↦ elim (strip_prefix gt p) [
      | some q ↦ (b'>', q)
      | none ↦ elim (strip_prefix quot p) [
        | some q ↦ (b'"', q)
        | none ↦ elim (strip_prefix apos p) [ some q ↦ (39, q) | none ↦ (b'&', p) ]
      ]
    ]
  ]
]

unfoldable pub unescape_one : ℕ → Bytes → ℕ × Bytes
unescape_one c p = if c == b'&' then entity p else (c, p)

-- the loop; a round reads a byte at least
unfoldable pub unescape_loop : ℕ → Bytes → Bytes
unescape_loop zero s = []
unescape_loop (suc rounds) [] = []
unescape_loop (suc rounds) (c ∷ s) =
    let one = unescape_one c s in one.0 ∷ unescape_loop rounds one.1

unfoldable pub dsml_unescape_text : Bytes → Bytes
dsml_unescape_text s = unescape_loop (length s) s
