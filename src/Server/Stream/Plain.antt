-- ===== src/Server/Stream/Plain.antt =====
-- ds4_server.c, `generate_job`: the part of the decode loop that scans for stop strings and sends
-- a text without structure (`!structured_stream`, no tools), with the flush behind the loop. A
-- step gets the text of one token. The writes to the socket succeed; what they send is one list.
pub mod Sent
pub mod Answer
use go_ds.Common.{
  ℕ, ◌-◌, Bool, true, false, none, some, List, [], ◌∷◌, ◌++◌, Bytes, length, take, drop, ltb,
  if◌then◌else◌,
}
use go_ds.Server.Stream.Stops.{StopList, c_string, stop_list_find_from, stop_list_stream_safe_len}
use go_ds.Server.Stream.Utf8Hold.{utf8_stream_safe_len}

pub record PlainStream : Type 0 where
  pub text : Bytes
  pub plain_stream_pos : ℕ
  pub stop_scan_from : ℕ
  pub sent : Bytes
  pub stop_decode : Bool

abbrev pub stream_start : PlainStream
stream_start = record {
  text = [];
  plain_stream_pos = 0;
  stop_scan_from = 0;
  sent = [];
  stop_decode = false;
}

-- `xstrndup(text.ptr + pos, stream_len - pos)` is sent if there is something to send; what is sent is
-- a C string.
unfoldable pub send_up_to : ℕ → PlainStream → PlainStream
send_up_to stream_len st =
    if ltb st.plain_stream_pos stream_len
    then record st {
      sent =
          st.sent
          ++ c_string (take (stream_len - st.plain_stream_pos) (drop st.plain_stream_pos st.text));
      plain_stream_pos = stream_len;
    }
    else st

-- `stop_scan_from` behind a text in which no stop was found
unfoldable pub next_scan_from : StopList → ℕ → ℕ → ℕ
next_scan_from stops text_len old =
    if ltb 1 stops.max_len
    then if ltb (stops.max_len - 1) text_len then text_len - (stops.max_len - 1) else 0
    else old

-- `stream_len`, cut at the length of the text
unfoldable pub stream_limit : ℕ → ℕ → ℕ
stream_limit n text_len = if ltb text_len n then text_len else n

unfoldable pub decode_piece : StopList → Bytes → PlainStream → PlainStream
decode_piece stops piece st =
    let text = st.text ++ piece in
    elim (stop_list_find_from stops text st.stop_scan_from) [
      | some (stop_pos, _) ↦
          let limit = stream_limit stop_pos (length text) in
          let sent =
            send_up_to (utf8_stream_safe_len text st.plain_stream_pos limit true)
              (record st { text = text }) in
          record sent { text = take stop_pos text; stop_decode = true }
      | none ↦
          let limit = stream_limit (stop_list_stream_safe_len stops (length text)) (length text) in
          send_up_to (utf8_stream_safe_len text st.plain_stream_pos limit false) (record st {
            text = text;
            stop_scan_from = next_scan_from stops (length text) st.stop_scan_from;
          })
    ]

-- the loop over the tokens' texts
unfoldable pub decode : StopList → List Bytes → PlainStream → PlainStream
decode stops [] st = st
decode stops (piece ∷ more) st =
    let next = decode_piece stops piece st in
    let rest = decode stops more next in if next.stop_decode then next else rest

-- the flush of the tail
unfoldable pub flush_tail : PlainStream → PlainStream
flush_tail st = send_up_to (length st.text) st

-- What the client may read: the text, up to the first stop string in it.
unfoldable pub answer : StopList → List Bytes → Bytes → Bytes
answer stops [] text = text
answer stops (piece ∷ more) text =
    let rest = answer stops more (text ++ piece) in
    elim (stop_list_find_from stops (text ++ piece) 0) [
      | none ↦ rest
      | some (stop_pos, _) ↦ take stop_pos (text ++ piece)
    ]
