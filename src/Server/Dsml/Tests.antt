-- ===== src/Server/Dsml/Tests.antt =====
-- Tests and examples of the tool-call markup.
use go_ds.Common.{◌∷◌, [], ◌++◌, ◌≡◌, refl, Bytes, length, some, arith, drop, strip_prefix}
use go_ds.Server.Stream.Stops.{strstr}
use go_ds.Server.Dsml.{
  amp, lt_entity, parameter_end, at_end_tag, guard_end_tag, append_dsml_parameter_text,
  append_dsml_attr_escaped, append_dsml_text_escaped, dsml_unescape_text,
}
use go_ds.Server.Dsml.Closing.{append_dsml_parameter_text-strstr}
use go_ds.Server.Dsml.Escapes.{dsml_unescape_text-escaped}
use go_ds.Server.Dsml.Argument.{
  dsml_unescape_text-append_dsml_parameter_text, dsml_unescape_text-loses_entity,
}

-- an argument that tries to close its tag
abbrev closing : Bytes
closing = b'x' ∷ (parameter_end ++ (b'y' ∷ []))

closing_test :
    append_dsml_parameter_text closing ≡ b'x' ∷ (lt_entity ++ (drop 1 parameter_end ++ (b'y' ∷ [])))
unfolding append_dsml_parameter_text guard_end_tag at_end_tag strip_prefix
closing_test = refl

append_dsml_parameter_text-strstr_example :
    strstr parameter_end (append_dsml_parameter_text closing ++ (parameter_end ++ (b'z' ∷ [])))
    ≡ some (length (append_dsml_parameter_text closing))
append_dsml_parameter_text-strstr_example = append_dsml_parameter_text-strstr closing (b'z' ∷ [])

abbrev shell : Bytes
shell = b'a' ∷ b'&' ∷ b'"' ∷ b'<' ∷ b'>' ∷ []

dsml_unescape_text-escaped_example :
    (dsml_unescape_text (append_dsml_attr_escaped shell) ≡ shell)
    × (dsml_unescape_text (append_dsml_text_escaped shell) ≡ shell)
dsml_unescape_text-escaped_example = dsml_unescape_text-escaped shell

dsml_unescape_text-append_dsml_parameter_text_example :
    dsml_unescape_text (append_dsml_parameter_text (b'a' ∷ b'<' ∷ b'b' ∷ []))
    ≡ b'a' ∷ b'<' ∷ b'b' ∷ []
dsml_unescape_text-append_dsml_parameter_text_example =
    dsml_unescape_text-append_dsml_parameter_text (b'a' ∷ b'<' ∷ b'b' ∷ []) (ground arith)

dsml_unescape_text-loses_entity_example :
    (append_dsml_parameter_text ((b'x' ∷ []) ++ (b'&' ∷ (amp ++ (b'y' ∷ []))))
      ≡ append_dsml_parameter_text (b'x' ∷ [])
        ++ (b'&' ∷ (amp ++ append_dsml_parameter_text (b'y' ∷ []))))
    × (dsml_unescape_text
          (append_dsml_parameter_text ((b'x' ∷ []) ++ (b'&' ∷ (amp ++ (b'y' ∷ [])))))
        ≡ (b'x' ∷ []) ++ (b'&' ∷ dsml_unescape_text (append_dsml_parameter_text (b'y' ∷ []))))
dsml_unescape_text-loses_entity_example =
    dsml_unescape_text-loses_entity (b'x' ∷ []) (b'y' ∷ []) (ground arith)
