-- ===== src/Server/Http/Received.antt =====
-- A request that comes in pieces, split anywhere.
use go_ds.Common.{ℕ, ◌≤◌, ◌≡◌, some, List, ◌++◌, Bytes, length}
use go_ds.Server.Http.{Recv, receive_body}
use go_ds.Server.Http.HeadReceived.{bytes_of}

-- The buffer of the second loop begins with what the stream brings.
record BodyRead (want : ℕ) (es : List Recv) (b : Bytes) : Type 0 where
  pub buffer : Bytes
  pub unread : Bytes
  pub runs : receive_body want es b ≡ some buffer
  pub whole : b ++ bytes_of es ≡ buffer ++ unread
  pub enough : want ≤ length buffer
