-- ===== src/Lib.antt =====
-- Cachebox: a model of the cache, of its native protocol, of its configuration and of its clients.
--
-- The program. The process (src/main.rs) reads its arguments into a ServerConfig (src/config.rs),
-- prepares the path of its Unix socket and serves. A client (clients/rust/cachebox-client) sends
-- frames over a socket. The codec (crates/cachebox-protocol/src/lib.rs) turns bytes into request
-- frames and answers into bytes. An engine (src/engine.rs) keeps entries under a namespace and a
-- key, with a fresh window, a stale window, tags, a cost and a size; it answers reads, writes,
-- deletes, invalidations by tag and leases, and it evicts and expires entries to stay within its
-- limits. A sharded engine (ShardedEngine of the same file) keeps engines side by side, sends each
-- key to one of them by its hash, and keeps a directory of the shards in which a tag may occur. The
-- server (src/server.rs) cuts the bytes of a connection into frames, decodes each, calls the
-- sharded engine, and encodes the answer.
--
-- Which file models which part.
-- - Prelude: shared names, tests on numbers, words with their saturation, lists, association lists
--   (for HashMap) and lists without order (for HashSet).
-- - Bytes: bytes, texts as their UTF-8 bytes, and Ttl, which the parts share.
-- - Wire/Types, Wire/Utf8: frames, payloads and errors, and the validators. Wire/Cursor: Cursor as
--   a reader that returns a result and the moved cursor. Wire/Encode, Wire/Decode, Wire/Borrowed:
--   encode_* and decode_*. Wire/Agreement: the borrowed decoder beside the owning one. Wire/Format:
--   the words of the wire, written down independently of the code. Wire/Appends: the encoder and the
--   words. Wire/Words: the decoder and the words. Wire/RoundTrip: frames.
-- - Engine/Types, Engine/Entry: the structs and enums of src/engine.rs, the size of an entry and
--   its state at a time.
-- - Engine/Expiry, Engine/Tags: the BTreeSet expiry_index as a list in the order of ExpiryKey, and
--   the index of tags.
-- - Engine/Hashing: what the standard hash tables leave open, as a parameter: the order in which a
--   table iterates, and the hash.
-- - Engine/Store: remove_entry, remove_expired, evict_until_fits, put. Engine/Read: get, get_ref,
--   delete, batch_get, invalidate_tag. Engine/Lease: start_lease, complete_lease and what they
--   call.
-- - Engine/Invariant and the files below it: the invariant IsValid and that each step keeps it.
--   Engine/Reachable: the public operations as a step relation on engines, and what is reachable
--   from a new engine. Engine/Costs and the files below it: what the cost counter, which saturates,
--   says of the entries. Engine/View: what a client reads under a key, the abstract view.
--   Engine/Writes, Windows, Reads, Leases, Completions, Expiration: the theorems about the operations.
-- - Sharded/Directory: update_tag_routes. Sharded/Store: ShardedEngine and its operations, one
--   client at a time; none stands for a panic on an index out of range. Sharded/Sound: the
--   invariant IsSound and its preservation. Sharded/Start, Invalidation, Budget: the start,
--   invalidation over all shards, the budget of a cleanup.
-- - Server/Frames: find_complete_native_frames and drain_frame_ranges. Server/Batches:
--   coalesce_native_responses. Server/Answers: the counters and the answers. Server/Dispatch:
--   execute_native_frame_bytes_into and what it calls. Server/Views: the way that borrows and the
--   way that owns agree.
-- - Server/Reads: read_native_frame_ranges and the loop of handle_native_connection. Server/Chunks,
--   Cuts, Stream, Rounds: what the loop takes from a stream that comes in pieces. Server/Pipeline:
--   the tasks of a pipelined connection, its permits, its channel and the writer task, as a step
--   relation. Server/Delivery, Liveness: the theorems about its runs. Server/InTurn: the
--   rounds before the connection is pipelined. Server/Metrics: the snapshot
--   of the shards of the metrics. Server/Admin: handle_request and metrics_response.
-- - Config/Numbers: the parsers of numbers. Config/Options: ServerConfig, the table of options,
--   from_args and validate. Config/Laws: the rules a returned configuration obeys, and a prefix
--   of the arguments. Config/Arguments, Config/RoundTrip: the arguments that ask for a given
--   configuration.
-- - Process/Texts: the help text and the words of the command line. Process/Main: main and the
--   report at the start. Process/Socket: bind_native_unix_listener, on what stands at the path.
-- - Client/Types, Client/Stream, Client/Requests: the client of
--   clients/rust/cachebox-client/src/lib.rs, its reads and writes on a stream of bytes, and one
--   function per request. Client/Matcher: ResponseMatcher, which assigns the answers of a pipeline
--   to its requests. Client/Kinds, Slots, AnyOrder, Filled, Settled, InOrder, Queue, Reading,
--   Pipelined: the proof that a
--   pipeline returns its answers in the order of its requests. Client/Loopback: the client against
--   the server of Server/Dispatch.
-- - Ai/Json: serde_json::Value and canonical_json of clients/rust/cachebox-client/src/ai.rs.
--   Ai/Keys: the inputs of the keys of that file, normalize_prompt_input,
--   normalize_embedding_input, the digest and the keys. Ai/Words, Steps, Parts, Cancel,
--   Normal: a normal form determines what it writes down. Ai/Digest: the keys in terms of the digest. Ai/Order: the order
--   of fields. Ai/Capture: StreamCapture.
--
-- How the model stands to the code. An operation takes the state and returns the new state beside
-- its result. A reading of the clock is an argument: clock i is the reading at the call site i of
-- the operation, in the order of the text. A text is the list of its bytes. A usize is taken to
-- have 64 bits. saturating_add and wrapping additions are written out; a cast `as u16` or `as u32`
-- keeps the low bits. Sums of lengths of values that are in memory are not wrapped, since they
-- count bytes that exist. GetOutcomeRef, which borrows, and GetOutcome are one type. The parser of
-- socket addresses, the printer of numbers and strings of serde_json, the result of server::run,
-- and what the system answers to a call on the path of the Unix socket are parameters.
--
-- Bounds and fuel. evict_until_fits loops on fuel of one more than the number of entries: each
-- round removes an entry or ends the loop, and put_outcome shows that the loop reaches its goal.
-- decimal prints with 20 digits, which hold every u64. find_frames has one round more than the
-- buffer has bytes, and every round but the last moves on by a header of 24 bytes; native_rounds has
-- one round more than the stream has bytes, and native_rounds_complete shows that it is enough.
-- coalesce counts the frames that still fit a batch. The invariant asks that max_memory_bytes is below 2 ^ 64 - 1,
-- so that a saturated sum is over the limit. The ids of a pipeline do not pass 2 ^ 64, where the
-- client starts again at 1. Lengths that a key carries in 8 bytes are below 2 ^ 64.
--
-- Not modelled: the accept loops and shutdown of server::run, the choice of the metrics shard of a
-- request, and the benchmark, which are input and output or glue. A write of the server is taken to
-- succeed. The interleaving of clients between the lock of a shard and the lock of the directory is
-- not modelled: a step of another connection changes the server as a whole. Poisoned mutexes and
-- allocation failures do not occur in the model.
pub mod Prelude
pub mod Bytes
pub mod Wire
pub mod Engine
pub mod Sharded
pub mod Server
pub mod Config
pub mod Process
pub mod Client
pub mod Ai
