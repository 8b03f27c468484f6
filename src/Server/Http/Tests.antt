-- ===== src/Server/Http/Tests.antt =====
-- Tests and examples of the HTTP reader: a request of two bytes that comes in four pieces.
use go_ds.Common.{◌≡◌, refl, some, List, [], ◌∷◌, ◌++◌, Bytes, drop, codes, skip_while}
use go_ds.Server.Http.{
  content_length, content_length_from, strip_cr, starts_with_nocase, take_while, strtol,
  digits_value, RequestHead, Recv, interrupted, got,
}

abbrev crlf : Bytes
crlf = 13 ∷ 10 ∷ []

abbrev first_lines : Bytes
first_lines = codes "POST /v1?k HTTP/1.1" ++ (crlf ++ (codes "content-length: 2" ++ crlf))

abbrev request_head : Bytes
request_head = first_lines ++ crlf

abbrev parsed_head : RequestHead
parsed_head = record { method = codes "POST"; path = codes "/v1"; body_len = 2 }

abbrev pieces : List Recv
pieces =
    got b'P' (drop 1 first_lines)
    ∷ interrupted
    ∷ got 13 []
    ∷ got 10 (b'{' ∷ [])
    ∷ got b'}' (b'!' ∷ [])
    ∷ []

-- an empty value is read on into the body
content_length_test :
    content_length (codes "Content-Length:" ++ (crlf ++ (crlf ++ codes "9"))) 19 ≡ some 9
unfolding content_length content_length_from strip_cr starts_with_nocase take_while strtol
    digits_value skip_while
content_length_test = refl
