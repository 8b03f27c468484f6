-- ===== src/Server/Http.antt =====
-- ds4_server.c: the reader of an HTTP request (`header_end`, `content_length`,
-- `read_http_request`). What `recv` answers is a list of events. A buffer is the list of its bytes.
pub mod HeaderEnd
pub mod HeadReceived
pub mod Received
mod Tests
use go_ds.Common.{
  ℕ, zero, suc, ◌+◌, ◌-◌, ◌*◌, ◌^◌, min, Bool, true, false, not, ◌&&◌, Option, none, some, List, [],
  ◌∷◌, ◌++◌, Bytes, length, take, drop, codes, peek, advance, is_space, skip_while, ltb, leb,
  within, ◌==◌, if◌then◌else◌,
}
use go_ds.Server.Stream.Stops.{strstr}

abbrev pub crlf_crlf : Bytes
crlf_crlf = 13 ∷ 10 ∷ 13 ∷ 10 ∷ []

abbrev pub lf_lf : Bytes
lf_lf = 10 ∷ 10 ∷ []

-- `none` for -1
unfoldable pub header_end : Bytes → Option ℕ
header_end p = elim (strstr crlf_crlf p) [
  | some i ↦ some (i + 4)
  | none ↦ elim (strstr lf_lf p) [ some i ↦ some (i + 2) | none ↦ none ]
]

-- `tolower` in the C locale
abbrev pub to_lower : ℕ → ℕ
to_lower c = if within 65 90 c then c + 32 else c

-- whether `strncasecmp` finds the name at the start of the line
unfoldable pub starts_with_nocase : Bytes → Bytes → Bool
starts_with_nocase [] p = true
starts_with_nocase (l ∷ lit) [] = false
starts_with_nocase (l ∷ lit) (c ∷ p) = to_lower l == to_lower c && starts_with_nocase lit p

unfoldable pub take_while : (ℕ → Bool) → Bytes → Bytes
take_while test [] = []
take_while test (c ∷ p) = let rest = take_while test p in if test c then c ∷ rest else []

-- the digits that `strtol` reads, behind the number so far
unfoldable pub digits_value : Bytes → ℕ → ℕ
digits_value [] n = n
digits_value (c ∷ p) n = elim (within 48 57 c) [
  | true ↦ digits_value p (n * 10 + (c - 48))
  | false ↦ n
]

-- `strtol` for a number that is not negative; `none` for a negative one
unfoldable pub strtol : Bytes → Option ℕ
strtol p =
    let v = skip_while is_space p in
    if peek v == b'-'
    then (if digits_value (advance v) 0 == 0 then some 0 else none)
    else some (min (digits_value (if peek v == b'+' then advance v else v) 0) (2 ^ 63 - 1))

abbrev pub content_length_name : Bytes
content_length_name = codes "Content-Length:"

abbrev pub is_not_newline : ℕ → Bool
is_not_newline c = not (c == 10)

-- a line without the carriage return at its end
unfoldable pub strip_cr : Bytes → Bytes
strip_cr [] = []
strip_cr (c ∷ []) = if c == 13 then [] else c ∷ []
strip_cr (c ∷ d ∷ p) = c ∷ strip_cr (d ∷ p)

-- The loop over the lines, on as many rounds as there are bytes. `p` is the buffer from the line on,
-- of which `n` bytes belong to the head; `strtol` reads on behind them.
unfoldable pub content_length_from : ℕ → Bytes → ℕ → Option ℕ
content_length_from zero p n = some 0
content_length_from (suc fuel) p n =
    let whole = take_while is_not_newline (take n p) in
    let line = strip_cr whole in
    let rest = content_length_from fuel (drop (suc (length whole)) p) (n - suc (length whole)) in
    if n == 0
    then some 0
    else if starts_with_nocase content_length_name line
    then (let value = drop 15 line in
        strtol (drop (15 + (length value - length (skip_while is_space value))) p))
    else rest

unfoldable pub content_length : Bytes → ℕ → Option ℕ
content_length h n = content_length_from n h n

-- `%7s` and `%255s` of `sscanf`: the word and what follows it
unfoldable pub scan_word : ℕ → Bytes → Option (Bytes × Bytes)
scan_word width p =
    let v = skip_while is_space p in
    let word = take width (take_while (λ c. not (is_space c)) v) in
    if length word == 0 then none else some (word, drop (length word) v)

infixl 5 ◌>>=◌
abbrev pub ◌>>=◌ {ℓ κ} : {A : Type ℓ} {B : Type κ} → Option A → (A → Option B) → Option B
none >>= f = none
some a >>= f = f a

-- the characters of the C string `line`
unfoldable pub request_line : Bytes → Bytes
request_line b = take_while (λ c. not (c == 0)) (take 511 (take_while is_not_newline b))

pub record RequestHead : Type 0 where
  pub method : Bytes
  pub path : Bytes
  pub body_len : ℕ

abbrev pub max_header : ℕ
max_header = 65536

abbrev pub max_body : ℕ
max_body = 67108864

-- from the request line to the tests of the length
unfoldable pub parse_head : Bytes → ℕ → Option RequestHead
parse_head b hend = do
  (word, p) ← scan_word 7 (request_line b)
  (target, _) ← scan_word 255 p
  clen ← content_length b hend
  if ltb max_body clen
      then none
      else some (record {
        method = word;
        path = take_while (λ c. not (c == b'?')) target;
        body_len = clen;
      })

pub data Recv : Type 0 where
  -- EINTR
  interrupted : Recv
  -- another error, or the end of the stream
  ended : Recv
  got : ℕ → Bytes → Recv

-- the first loop, while no end of the head is found
unfoldable pub receive_head : List Recv → Bytes → Option (Bytes × ℕ × List Recv)
receive_head [] b = none
receive_head (e ∷ es) b = elim (ltb (length b) max_header) [
  | false ↦ none
  | true ↦ elim e [
    | interrupted ↦ receive_head es b
    | ended ↦ none
    | got c cs ↦ elim (header_end (b ++ (c ∷ cs))) [
      | some hend ↦ some (b ++ (c ∷ cs), hend, es)
      | none ↦ receive_head es (b ++ (c ∷ cs))
    ]
  ]
]

-- the second loop, up to `want` bytes
unfoldable pub receive_body : ℕ → List Recv → Bytes → Option Bytes
receive_body want [] b = if leb want (length b) then some b else none
receive_body want (e ∷ es) b = elim (leb want (length b)) [
  | true ↦ some b
  | false ↦ elim e [
    | interrupted ↦ receive_body want es b
    | ended ↦ none
    | got c cs ↦ receive_body want es (b ++ (c ∷ cs))
  ]
]

-- the head and the body
unfoldable pub read_http_request : List Recv → Option (RequestHead × Bytes)
read_http_request es = do
  (b, hend, more) ← receive_head es []
  head ← parse_head b hend
  b' ← receive_body (hend + head.body_len) more b
  some (head, take head.body_len (drop hend b'))
