-- ===== src/Server/Kv/Header/RoundTrip.antt =====
-- What was written into a header is what is read.
use go_ds.Common.{
  take-append, drop-append, ℕ, ◌/◌, ◌%◌, ◌^◌, ◌≤◌, ◌<◌, ◌≡◌, refl, ◌∙◌, true, false, some, [], ◌∷◌,
  ◌++◌, List, Bytes, length, ltb, leb, if◌then◌else◌, arith, length-append, sym,
}
use go_ds.Server.Kv.Header.{
  le_put32, le_put64, le_get32, le_get64, fread, KvEntry, zero_entry, kv_fill_header, header_entry,
  entry_ok, kv_read_header, kv_cache_touch_file, overwrite, kv_cache_fixed_header,
  kv_reason_shutdown, magic_ok,
}

pub le_get32-le_put32 : (v : ℕ) (p : Bytes) → v < 2 ^ 32 → le_get32 (le_put32 v ++ p) ≡ v
unfolding le_get32 le_put32
le_get32-le_put32 v p h = omega arith

pub le_get32-le_put32_word : (v : ℕ) → v < 2 ^ 32 → le_get32 (le_put32 v) ≡ v
unfolding le_get32 le_put32
le_get32-le_put32_word v h = omega arith

pub le_get64-le_put64 : (v : ℕ) (p : Bytes) → v < 2 ^ 64 → le_get64 (le_put64 v ++ p) ≡ v
unfolding le_get64 le_put64
le_get64-le_put64 v p h = omega arith

pub fread-append : (xs ys : Bytes) → fread (length xs) (xs ++ ys) ≡ some (xs, ys)
unfolding fread
fread-append xs ys =
    let fits : ltb (length (xs ++ ys)) (length xs) ≡ false = ground (arith, length-append xs ys) in
    rw (fits, take-append xs ys, drop-append xs ys)

pub fread-le_put32 : (v : ℕ) (q : Bytes) → fread 4 (le_put32 v ++ q) ≡ some (le_put32 v, q)
unfolding le_put32
fread-le_put32 v q =
    fread-append (v % 256 ∷ v / 2 ^ 8 % 256 ∷ v / 2 ^ 16 % 256 ∷ v / 2 ^ 24 % 256 ∷ []) q

module _ (quant_bits reason ext_flags tokens hits ctx_size created_at last_used payload : ℕ) where
  abbrev pub header : Bytes
  header =
      kv_fill_header quant_bits reason ext_flags tokens hits ctx_size created_at last_used payload

  pub length-kv_fill_header : length header ≡ kv_cache_fixed_header
  unfolding kv_fill_header le_put32 le_put64
  length-kv_fill_header = refl

  pub record InRange : Type 0 where
    pub reason_known : reason ≤ kv_reason_shutdown
    pub tokens_u32 : tokens < 2 ^ 32
    pub hits_u32 : hits < 2 ^ 32
    pub ctx_size_u32 : ctx_size < 2 ^ 32
    pub created_at_u64 : created_at < 2 ^ 64
    pub last_used_u64 : last_used < 2 ^ 64
    pub payload_u64 : payload < 2 ^ 64

  abbrev pub written : ℕ → KvEntry
  written text_bytes = record zero_entry {
    quant_bits = quant_bits;
    reason = reason;
    ext_flags = ext_flags;
    tokens = tokens;
    hits = hits;
    ctx_size = ctx_size;
    created_at = created_at;
    last_used = last_used;
    payload_bytes = payload;
    text_bytes = text_bytes;
  }

  header_entry-kv_fill_header :
      (text_bytes : ℕ) → InRange → header_entry header text_bytes ≡ written text_bytes
  unfolding header_entry kv_fill_header le_put32 le_put64
  header_entry-kv_fill_header text_bytes r =
      let c : List ℕ =
        0 ∷ 0 ∷ 0 ∷ 0 ∷ (le_put64 created_at ++ (le_put64 last_used ++ le_put64 payload)) in
      let e1 = le_get32-le_put32 tokens (le_put32 hits ++ (le_put32 ctx_size ++ c)) r.tokens_u32 in
      let e2 = le_get32-le_put32 hits (le_put32 ctx_size ++ c) r.hits_u32 in
      let e3 = le_get32-le_put32 ctx_size c r.ctx_size_u32 in
      let e4 =
        le_get64-le_put64 created_at (le_put64 last_used ++ le_put64 payload) r.created_at_u64 in
      let e5 = le_get64-le_put64 last_used (le_put64 payload) r.last_used_u64 in
      let e6 = le_get64-le_put64 payload [] r.payload_u64 in
      let known : (if leb reason 4 then reason else 0) ≡ reason = ground (arith, r.reason_known) in
      λ i. record zero_entry {
        quant_bits = quant_bits;
        reason = known i;
        ext_flags = ext_flags;
        tokens = e1 i;
        hits = e2 i;
        ctx_size = e3 i;
        created_at = e4 i;
        last_used = e5 i;
        payload_bytes = e6 i;
        text_bytes = text_bytes;
      }

  fread-kv_fill_header : (q : Bytes) → fread kv_cache_fixed_header (header ++ q) ≡ some (header, q)
  fread-kv_fill_header q = let h = fread-append header q in rw length-kv_fill_header at h

  magic_ok-kv_fill_header : magic_ok header ≡ true
  unfolding kv_fill_header
  magic_ok-kv_fill_header = refl

  -- A header whose fields are in range, followed by the text length, is read as the entry that
  -- it was filled from, if that entry has tokens and 2 or 4 bits; what follows is left to read.
  pub kv_read_header-kv_fill_header :
      (text_bytes : ℕ) (rest : Bytes)
      → InRange
      → text_bytes < 2 ^ 32
      → entry_ok (written text_bytes) ≡ true
      → kv_read_header (header ++ (le_put32 text_bytes ++ rest)) ≡ some (written text_bytes, rest)
  unfolding kv_read_header
  kv_read_header-kv_fill_header text_bytes rest r small ok = rw (
    fread-kv_fill_header (le_put32 text_bytes ++ rest),
    kv_read_header,
    magic_ok-kv_fill_header,
    fread-le_put32 text_bytes rest,
    le_get32-le_put32_word text_bytes small,
    header_entry-kv_fill_header text_bytes r,
    ok,
  )

overwrite-append :
    (new old p : Bytes) → length new ≡ length old → overwrite new (old ++ p) ≡ new ++ p
unfolding overwrite
overwrite-append new old p e = rw (e, drop-append old p)

-- A file that the server wrote, touched: it is read as the same entry with the new count and the
-- new time, and what stands behind the header is as before.
pub kv_read_header-kv_cache_touch_file :
    (quant_bits reason ext_flags tokens hits ctx_size created_at last_used payload text_bytes
      new_hits now : ℕ)
    (rest : Bytes)
    → InRange quant_bits reason ext_flags tokens hits ctx_size created_at last_used payload
    → new_hits < 2 ^ 32
    → now < 2 ^ 64
    → text_bytes < 2 ^ 32
    → entry_ok (
        written quant_bits reason ext_flags tokens hits ctx_size created_at last_used payload
          text_bytes)
      ≡ true
    → kv_read_header (
        kv_cache_touch_file
          (header quant_bits reason ext_flags tokens hits ctx_size created_at last_used payload
            ++ (le_put32 text_bytes ++ rest))
          new_hits
          now)
      ≡ some (
        written quant_bits reason ext_flags tokens new_hits ctx_size created_at now payload
            text_bytes,
        rest,
      )
unfolding kv_cache_touch_file
kv_read_header-kv_cache_touch_file q rs x t h c cr lu pl tb nh now rest r nh_ok now_ok tb_ok ok =
    let before = kv_read_header-kv_fill_header q rs x t h c cr lu pl tb rest r tb_ok ok in
    let same_length : length (header q rs x t nh c cr now pl)
        ≡ length (header q rs x t h c cr lu pl) =
      length-kv_fill_header q rs x t nh c cr now pl
      ∙ sym (length-kv_fill_header q rs x t h c cr lu pl) in
    rw
      (
        before,
        kv_cache_touch_file,
        overwrite-append (header q rs x t nh c cr now pl) (header q rs x t h c cr lu pl)
            (le_put32 tb ++ rest) same_length,
      )
      (kv_read_header-kv_fill_header q rs x t nh c cr now pl tb rest
        (record {
          hits_u32 = nh_ok;
          last_used_u64 = now_ok;
          reason_known = r.reason_known;
          tokens_u32 = r.tokens_u32;
          ctx_size_u32 = r.ctx_size_u32;
          created_at_u64 = r.created_at_u64;
          payload_u64 = r.payload_u64;
        })
        tb_ok ok)
