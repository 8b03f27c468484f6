-- ===== src/Engine/Payload.antt =====
-- ds4.c: the snapshot of a session, `ds4_session_save_payload` and `ds4_session_load_payload`. A file
-- is the list of its bytes. A tensor is its size and its bytes by their offsets; reading and writing
-- within its size succeed. The fixed sizes of the model are a parameter, with the compression ratio
-- of each layer. A load that fails gives none: its session is one that the caller invalidates.
pub mod Span
pub mod Tensors
pub mod Snapshot
pub mod Replay
pub mod Rows
pub mod RoundTrip
pub mod Restore
pub mod Size
mod Tests
use go_ds.Common.{
  ℕ, zero, suc, ◌+◌, ◌-◌, ◌*◌, ◌/◌, ◌%◌, ◌^◌, Bool, true, false, ◌||◌, Option, none, some, [], ◌∷◌,
  ◌++◌, Bytes, length, take, drop, byte_at, ltb, ◌==◌, if◌then◌else◌, min,
}

-- the constants DS4_N_LAYER, DS4_N_HEAD_DIM, DS4_N_INDEXER_HEAD_DIM, DS4_N_VOCAB and DS4_N_SWA
pub record Shape : Type 0 where
  pub n_layer : ℕ
  pub head_dim : ℕ
  pub indexer_head_dim : ℕ
  pub vocab : ℕ
  pub swa : ℕ

unfoldable pub layer_compress_ratio : ℕ → ℕ
layer_compress_ratio il = if ltb il 2 then 0 else if il % 2 == 0 then 4 else 128

abbrev pub payload_magic : ℕ
payload_magic = 0x34565344

abbrev pub payload_version : ℕ
payload_version = 1

abbrev pub io_chunk : ℕ
io_chunk = 8388608

-- the bytes of a `float`
abbrev pub float_size : ℕ
float_size = 4

unfoldable pub payload_put_u32 : ℕ → Bytes
payload_put_u32 v = v % 256 ∷ v / 2 ^ 8 % 256 ∷ v / 2 ^ 16 % 256 ∷ v / 2 ^ 24 % 256 ∷ []

unfoldable pub payload_get_u32 : Bytes → ℕ
payload_get_u32 p = byte_at p 0 + byte_at p 1 * 2 ^ 8 + byte_at p 2 * 2 ^ 16 + byte_at p 3 * 2 ^ 24

-- a file with the count of the bytes that a payload may still take of it
pub record Source : Type 0 where
  pub file : Bytes
  pub remaining : ℕ

abbrev pub Read {ℓ} : Type ℓ → Type ℓ
Read A = Source → Option (A × Source)

infixl 5 ◌>>=◌
unfoldable pub ◌>>=◌ : {A B : Type 0} → Read A → (A → Read B) → Read B
(m >>= f) src = elim (m src) [ none ↦ none | some (a, src') ↦ f a src' ]

abbrev pub give : {A : Type 0} → A → Read A
give a src = some (a, src)

abbrev pub require : Bool → Read (Unit {0})
require true src = some (tt, src)
require false src = none

unfoldable pub payload_read_bytes : ℕ → Read Bytes
payload_read_bytes n src =
    if ltb src.remaining n || ltb (length src.file) n
    then none
    else some (take n src.file, record { file = drop n src.file; remaining = src.remaining - n })

unfoldable pub payload_read_u32 : Read ℕ
payload_read_u32 src = elim (payload_read_bytes 4 src) [
  | none ↦ none
  | some (b, src') ↦ some (payload_get_u32 b, src')
]

pub record Tensor : Type 0 where
  pub size : ℕ
  pub byte : ℕ → ℕ

unfoldable pub tensor_read : Tensor → (offset n : ℕ) → Bytes
tensor_read t offset zero = []
tensor_read t offset (suc n) = t.byte offset ∷ tensor_read t (offset + 1) n

-- the byte at `i`, where it was `x` before the bytes `s` went to `offset`
unfoldable pub over : (x i offset : ℕ) → Bytes → ℕ
over x i offset [] = x
over x i offset (c ∷ s) = if i == offset then c else over x i (offset + 1) s

unfoldable pub tensor_write : Tensor → (offset : ℕ) → Bytes → Tensor
tensor_write t offset s = record { size = t.size; byte = λ i. over (t.byte i) i offset s }

unfoldable pub outside : Tensor → (offset bytes : ℕ) → Bool
outside t offset bytes = ltb t.size offset || ltb (t.size - offset) bytes

-- the loop over chunks; a chunk is a byte at least, so that a round for each byte is enough
unfoldable pub write_chunks : (rounds : ℕ) → Tensor → (offset bytes done : ℕ) → Bytes
write_chunks zero t offset bytes done = []
write_chunks (suc rounds) t offset bytes done =
    let n = min io_chunk (bytes - done) in
    let rest = write_chunks rounds t offset bytes (done + n) in
    if ltb done bytes then tensor_read t (offset + done) n ++ rest else []

unfoldable pub payload_write_tensor_span : Tensor → (offset bytes : ℕ) → Option Bytes
payload_write_tensor_span t offset bytes =
    if outside t offset bytes then none else some (write_chunks bytes t offset bytes 0)

unfoldable pub read_chunks : (rounds : ℕ) → Tensor → (offset bytes done : ℕ) → Read Tensor
read_chunks zero t offset bytes done = give t
read_chunks (suc rounds) t offset bytes done =
    if ltb done bytes
    then (do
      s ← payload_read_bytes (min io_chunk (bytes - done))
      read_chunks rounds (tensor_write t (offset + done) s) offset bytes
          (done + min io_chunk (bytes - done)))
    else give t

unfoldable pub payload_read_tensor_span : Tensor → (offset bytes : ℕ) → Read Tensor
payload_read_tensor_span t offset bytes =
    if outside t offset bytes then (λ src. none) else read_chunks bytes t offset bytes 0
