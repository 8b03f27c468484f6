-- ===== src/Lib.antt =====
-- A verification library for ds4, a program that runs one large language model: `ds4.c` is the
-- engine (tokenizer, model file, sessions, kernels), `ds4_server.c` an HTTP server on top of it
-- that speaks the OpenAI and Anthropic protocols, keeps checkpoints of the model's state on disk,
-- and streams generated text. A request's JSON is read, a prompt is rendered and tokenized, the
-- longest stored prefix is loaded from disk, the model evaluates the rest, and the text of the
-- generated tokens is scanned for stop strings and tool calls and sent.
--
-- Common: what the parts share. Common/Tests: Boolean tests on numbers. Common/Lists: lists
--   measured by native numbers; a C string or buffer is the list of its bytes. Common/Cursor: a
--   pointer that a reader moves is the rest of the string, and the terminator is 0.
--   Common/Bits: bitwise operations.
-- Engine/Utf8: `utf8_put`, `utf8_decode_one` and the GPT-2 byte alphabet of ds4.c.
-- Engine/Table: `hash_bytes`, `table_init`, `table_put`, `table_get` of ds4.c, the hash table
--   behind the vocabulary. Room and Lookup: where a probing loop stops. FiniteMap: the map.
-- Engine/Gguf: the cursor over the mapped model file, `skip_value`, `align_up`, `tensor_nbytes` of
--   ds4.c.
-- Engine/Tokenizer/Split: the pre-tokenizer, `bpe_tokenize_text` of ds4.c: the length of the piece
--   at each position, and the pieces. Engine/Tokenizer/Bpe: `bpe_emit_piece`, one merge per round,
--   `ds4_token_text`, and `render_tokens_text` of ds4_server.c. A vocabulary is a pair of
--   functions, the lookups of its two hash tables, and the list of token strings.
-- Engine/Tokenizer/Chat: `special_token_at`, `tokenize_rendered_chat_vocab`, `encode_chat_prompt`
--   and `ds4_chat_*` of ds4.c, a chat with its markers.
-- Engine/Session: `ds4_session_sync`, `ds4_session_eval`, `ds4_session_rewrite_from_common` and the
--   smaller calls of a session of ds4.c. Sync: what a session stands for behind each call. Prefix:
--   `ds4_session_common_prefix`.
-- Engine/Payload: `ds4_session_save_payload` and `ds4_session_load_payload` of ds4.c. Tensors: the
--   layers. Snapshot: the whole payload and its size. Span, Replay, Rows, RoundTrip, Restore, Size:
--   chunks, readers that follow writers, the ring of rows, and the payload as a whole.
-- Server/Json: the JSON reader of ds4_server.c. Text: `json_string`, `json_escape`. Number: where
--   `strtod` ends. Skip: `json_skip_value` and its array and object loops. Minify:
--   `json_raw_value`, `json_minify_raw_value`.
-- Server/Kv: the disk cache of ds4_server.c. Header: `kv_fill_header`, `kv_read_header`,
--   `kv_cache_touch_file`. ToolMap: `kv_tool_map_write`, `kv_tool_map_load_from_pos`. Sha1:
--   `sha1_transform` to `sha1_tokens_hex`, against the standard's padding. Prefix:
--   `kv_cache_store_len`, `kv_cache_find_prefix`, `kv_cache_note_store`,
--   `kv_cache_maybe_store_continued`. Evict: `kv_cache_evict` with its scores.
--   EntryFile: `sha_hex_name`, `kv_read_entry_file`, `kv_cache_existing_compatible`. A file is the list
--   of its bytes; a directory is the list of the entries that were read from it.
-- Server/Stream: which bytes of a generated text are sent. Stops: the stop strings. Search, Safe: the
--   search in a text that gets longer. Utf8Hold: `utf8_stream_safe_len`. Plain: the loop over the
--   texts of the tokens in `generate_job`, for a text without structure; a search reads a C string and
--   a delta is sent as one (`c_string`), so that what stands behind a NUL is not seen. Sent, Answer: a
--   step, and the stream as a whole. Thinking: `thinking_state_feed`. History: the state by the whole
--   text. Occurs, Markers: the state by the markers in it.
-- Server/ToolMemory: the memory of tool-call text of ds4_server.c, ids in the order of their use
--   over shared blocks. Put: `tool_memory_put_locked` and the lookups. Attach: the texts given to
--   messages, and the ids given to calls. Store and Keyed: structs found by address and by key.
--   Invariant, Prune, Insert, Touch, Kept: what each step keeps. Recall, Exact: which text an id has.
-- Server/Queue: `enqueue`, `dequeue` and the loop of `worker_main` of ds4_server.c, the queue of jobs
--   between the client threads and the worker. Linked: the list behind it. Worker: the threads' steps
--   in any order. Served: what they keep.
-- Server/Http: `header_end`, `content_length` and `read_http_request` of ds4_server.c over what `recv`
--   answers. HeaderEnd: a buffer that grows. HeadReceived, Received: the head, and the request as a
--   whole.
-- Server/Dsml: the markup of tool calls: the escaping of the renderer and `dsml_unescape_text`.
--
-- State is passed explicitly: a function that writes through a pointer returns what it wrote, and
-- a failure is `none` or a constructor of the result. Unsigned words are numbers, with the
-- modulus written where the source relies on it; where a field has to be in range, that is a
-- hypothesis.
--
-- Loops. A loop over a string recurs on the string. The skipper of JSON values, the string reader,
-- the pre-tokenizer, the reader of entities and the chunked update of SHA-1 recur on as many rounds
-- as there are bytes, since each round reads one at least; the merge loop on as many rounds as there
-- are symbols, since a merge removes one; the probing loops on as many as there are slots; the
-- padding loop of SHA-1 on 64, the length of a block; the eviction on one per entry, and so does
-- the pruning of the tool memory; the scan of a rendered chat on one per byte, and the copying
-- of a tensor in chunks on one per byte. The lines of a head take one round per byte, and the loops
-- around `recv` one per answer. The skipping of nested arrays recurs on the nine levels that the
-- source allows. The theorems about these functions are about the results with these rounds and not
-- about shorter runs.
--
-- Parameters. The machine's doubles are an interface of operations (Server/Kv/Evict); so is what
-- `unlink` answers. The radix trees of rax.c are an interface with the laws of a finite map
-- (Server/ToolMemory). The evaluation of tokens on the graph is an interface (Engine/Session), and
-- Sync states what is relied on: a call that goes well leaves the rows of its tokens. The random ids
-- of tool calls are read off a list, and so is what `recv` answers; the end of that list stands for
-- the end of the stream. A call that holds a mutex is one step (Server/Queue), and `generate_job`
-- returns. Allocation succeeds, and the writes to a socket succeed.
--
-- Not modelled: the kernels of the model (ds4.c's floating-point code, ds4_metal.m and metal/),
-- whose meaning is numerical; rax.c and linenoise.c, copies of other projects; ds4_cli.c and the
-- sockets of the server, which are input and output; the port in pkg/ and cmd/, which is another
-- program; and for now the tables of the model file, the request parsers and the structured
-- streams.
pub mod Common
pub mod Engine
pub mod Server
