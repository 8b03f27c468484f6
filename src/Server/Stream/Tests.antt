-- ===== src/Server/Stream/Tests.antt =====
-- Tests and examples of the streaming of a text.
use go_ds.Common.{
  take, drop, some, ℕ, ◌∷◌, [], ◌++◌, ◌≡◌, ◌≤◌, refl, Bytes, List, length, false, arith,
  strip_prefix,
}
use go_ds.Server.Stream.Stops.{
  StopList, starts_with, strstr, find_stop, c_string, stop_list_find_from,
  stop_list_stream_safe_len,
}
use go_ds.Server.Stream.Stops.Safe.{IsValid, stop_list_stream_safe_len_safe}
use go_ds.Server.Stream.Plain.{
  stream_start, decode, decode_piece, send_up_to, stream_limit, next_scan_from, flush_tail, answer,
}
use go_ds.Server.Stream.Utf8Hold.{
  utf8_stream_safe_len, hold_back, before_continuations, utf8_expected_len,
}
use go_ds.Server.Stream.Plain.Answer.{decode-sends_answer}
use go_ds.Server.Stream.Thinking.{think_start, thinking_state_feed, thinking_state_from_prompt}
use go_ds.Server.Stream.Thinking.Markers.{Decides, thinking_state_feed-history}

abbrev stops : StopList
stops = record { v = (b'E' ∷ b'N' ∷ b'D' ∷ []) ∷ (b'S' ∷ []) ∷ []; max_len = 3 }

stops-IsValid : IsValid stops
unfolding IsValid
stops-IsValid = ((omega arith, omega arith), ((omega arith, omega arith), tt))

stop_list_stream_safe_len_safe_example :
    stop_list_stream_safe_len stops (length {A = ℕ} (b'a' ∷ b'b' ∷ b'E' ∷ [])) ≤ 2
unfolding stop_list_find_from c_string find_stop strstr starts_with strip_prefix
stop_list_stream_safe_len_safe_example =
    stop_list_stream_safe_len_safe stops (b'a' ∷ b'b' ∷ b'E' ∷ []) (b'N' ∷ b'D' ∷ []) 2 3
      stops-IsValid refl refl

abbrev three_pieces : List Bytes
three_pieces = (b'a' ∷ b'b' ∷ b'E' ∷ []) ∷ (b'N' ∷ b'D' ∷ b'!' ∷ []) ∷ (b'x' ∷ []) ∷ []

decode-sends_answer_example :
    (flush_tail (decode stops three_pieces stream_start)).sent ≡ answer stops three_pieces []
decode-sends_answer_example = decode-sends_answer stops three_pieces stops-IsValid (ground arith)

answer_test : answer stops three_pieces [] ≡ b'a' ∷ b'b' ∷ []
unfolding answer stop_list_find_from c_string find_stop strstr starts_with strip_prefix
answer_test = refl

-- what stands behind a NUL is neither searched nor sent
nul_test : (flush_tail (decode stops ((b'a' ∷ 0 ∷ b'S' ∷ []) ∷ []) stream_start)).sent ≡ b'a' ∷ []
unfolding flush_tail decode decode_piece send_up_to c_string stop_list_find_from find_stop strstr
    starts_with strip_prefix stream_limit next_scan_from stop_list_stream_safe_len
    utf8_stream_safe_len hold_back before_continuations utf8_expected_len
nul_test = refl

thinking_state_feed-history_example :
    Decides
      (thinking_state_feed
        (thinking_state_from_prompt (some (take 3 think_start)) false)
        (drop 3 think_start ++ (b'x' ∷ []))).inside
      (take 3 think_start ++ (drop 3 think_start ++ (b'x' ∷ [])))
thinking_state_feed-history_example =
    thinking_state_feed-history (take 3 think_start) (drop 3 think_start ++ (b'x' ∷ [])) false
