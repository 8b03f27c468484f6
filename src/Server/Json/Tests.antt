-- ===== src/Server/Json/Tests.antt =====
-- The JSON reader on concrete texts, and the properties at inputs that meet their hypotheses.
use Prim.Native.Char.{code}
use Prim.Native.String.{String}
use go_ds.Common.{
  ◌≡◌, ◌++◌, refl, ◌∷◌, [], Bytes, arith, skip_while, strip_prefix, ◌⊎◌, inr, false, some,
}
use go_ds.Server.Json.Text.{
  ok, fail, json_string, json_escape, json_chars, json_unescape, json_u16, utf8_put, json_ws,
}
use go_ds.Server.Json.Skip.{
  json_skip_value, skip_value, skip_scalar, json_number, json_minify_raw_value, compact, between,
}
use go_ds.Server.Json.Number.{
  strtod_end, nan_tail, mantissa, exponent, decimal, hexadecimal, infinity, not_a_number,
  strip_word,
}
use go_ds.Server.Json.RoundTrip.{json_string-json_escape}
use go_ds.Server.Json.Surrogates.{
  u16_escape, code_point_escape, IsUtf8, json_unescape-code_point_escape,
  json_unescape_drops_escape,
}
use go_ds.Server.Json.Minify.{Minified, json_minify_raw_value-Minified}
use go_ds.Server.Json.Total.{json_skip_value-Consumes}
use go_ds.Server.Json.Bounds.{Consumes}

abbrev codes : String → Bytes
codes String.[] = []
codes (String.◌∷◌ c s) = code c ∷ codes s

json_string_run :
    json_string (codes " \"a\\n\\u00e9\\ud83d\\ude00\", 1")
    ≡ ok (97 ∷ 10 ∷ 0xc3 ∷ 0xa9 ∷ 0xf0 ∷ 0x9f ∷ 0x98 ∷ 0x80 ∷ []) (codes ", 1")
unfolding json_string json_ws json_chars json_unescape json_u16
json_string_run = refl

json_skip_value_run :
    json_skip_value (codes " {\"k\": [1, -2.5e3, true, {}], \"m\": nan} rest")
    ≡ ok tt (codes " rest")
unfolding json_skip_value skip_value skip_scalar json_number json_string json_ws json_chars
    json_unescape json_u16 strtod_end mantissa exponent decimal not_a_number strip_prefix strip_word
    skip_while hexadecimal infinity nan_tail
json_skip_value_run = refl

minify_run : json_minify_raw_value (codes " [ 1,\n \"a b\" ] x") ≡ codes "[1,\"a b\"]"
unfolding json_minify_raw_value compact json_skip_value skip_value skip_scalar json_number
    json_string json_ws json_chars json_unescape json_u16 strtod_end mantissa exponent decimal
    not_a_number strip_prefix strip_word skip_while hexadecimal infinity nan_tail
minify_run = refl

abbrev sample : Bytes
sample = b'a' ∷ b'"' ∷ 10 ∷ 1 ∷ 0xc3 ∷ 0xa9 ∷ []

json_string-json_escape_example :
    json_string (json_escape sample ++ b',' ∷ []) ≡ ok sample (b',' ∷ [])
json_string-json_escape_example = json_string-json_escape sample (b',' ∷ []) (omega arith)

json_skip_value-Consumes_example : Consumes (codes "[1,{}]") (json_skip_value (codes "[1,{}]"))
json_skip_value-Consumes_example = json_skip_value-Consumes (codes "[1,{}]")

json_minify_raw_value-Minified_example :
    ((json_skip_value (json_ws (codes " [ \"a b\" ] ")) ≡ fail)
      × (json_minify_raw_value (codes " [ \"a b\" ] ") ≡ codes " [ \"a b\" ] "))
    ⊎ ((end : Bytes) × (json_skip_value (json_ws (codes " [ \"a b\" ] ")) ≡ ok tt end)
        × Minified false
            (between (json_ws (codes " [ \"a b\" ] ")) end)
            (json_minify_raw_value (codes " [ \"a b\" ] ")))
json_minify_raw_value-Minified_example = json_minify_raw_value-Minified (codes " [ \"a b\" ] ")

json_unescape-code_point_escape_example :
    (u : Bytes) × IsUtf8 0x1f600 u
    × (json_unescape (code_point_escape 0x1f600 (codes "!")) ≡ some (u, codes "!"))
json_unescape-code_point_escape_example =
    json_unescape-code_point_escape 0x1f600 (codes "!") (inr (omega arith, omega arith))

json_unescape_drops_escape_example :
    json_unescape (u16_escape 0xd83d (u16_escape b'A' (codes "!")))
    ≡ some (utf8_put 0xd83d, codes "!")
json_unescape_drops_escape_example =
    json_unescape_drops_escape 0xd83d b'A' (codes "!") refl (omega arith) refl
