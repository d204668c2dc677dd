-- ===== src/Lib.antt =====
-- Echo AI is one C program: an agent loop (src/agent) that talks to a language model (src/llm), calls
-- tools (src/tools) under a safety policy (src/safety), keeps encrypted sessions (src/session), and is
-- used through an HTTP and WebSocket server (src/server) or a terminal interface (src/tui). The agent
-- cuts its conversation to the context window before each request, the server hands WebSocket
-- messages to the routes, the tools record file changes for undo, and the providers guard their
-- requests with a circuit breaker.
--
-- Files and what they model:
--   Base (and Base/...): Boolean tests, lists measured by native numbers, byte strings.
--   CircuitBreaker: src/utils/circuit_breaker.c. Breaker is CircuitBreaker; the clock is an argument.
--     Trip: when it opens, what a probe does.
--   ChangeTracker: src/change_tracker/change_tracker.c. Tracker holds the undo and redo stacks; the
--     file system is a function from paths, and every outcome of the C library is a field of Outcome.
--     Bounds: the stacks' size. History: what undo and redo leave in the files.
--   Context: src/agent/context.c. smart_select is smart_select_alloc, trim_messages is
--     trim_messages_by_tokens_new. qsort and the allocations are parameters.
--     Trim, Pairs, Window: the budget, the tool pairs, the whole of apply_context_window.
--   Config: src/config/config.c. conf_load reads the bytes of the file; strtol is a parameter.
--     Lines: the loop over lines. Render: a file that is written out. Tokens: the providers' tokens.
--   Html: src/utils/html_entities.c and has_neg_pattern of src/utils/html_tags.c; the tags, the output
--     buffer and the writer are not part. Numeric, Decode: entities; Written: how digits are written.
--     Patterns: the scan of names.
--   Messages: src/agent/message.c and session_deserialize_messages of src/session/session.c. cJSON is the
--     interface Json, Lawful what it documents. Reload: what is loaded of stored messages. Settle: that
--     a second reload changes nothing.
--   Branches: src/session/session_branch.c; Info is src/session/session_branch_info.c. Records holds
--     the data and the helpers; Store is the interface of the encrypted rows, Env the clock, the random
--     ids and the allocations that fail. Chains: the chains of a session. Clock: when a new chain is
--     born. Switch, Keep, Fork: what the operations do to them. Return, Done, Failure: the calls on the database. Count: the
--     chains of a group.
--   WebSocket: src/server/websocket.c. Client is WSClient; what libuv and the callbacks are given is
--     a list of events. Frame: headers. Codec: what ws_send writes. Receive, Close: ws_read_cb.
--   Middleware: src/server/middleware.c. The gate of the routes; ServerContext and HttpRequest hold the
--     fields that it reads. Lines: header lookup. Gate: who passes.
--   HttpParse: src/server/http_parse.c. Connection holds the fields of Client that the parser uses.
--     Split: requests that arrive in parts. Grow: the buffer. Bounds: the content length.
--   Utf8: src/utils/html_unicode.c, without the transcoding of Windows-1252 texts.
--     Encode: the validator against the encoder. Cut: the cut boundary.
--   OauthCodec: src/llm/oauth_codec.c, without the functions that draw random bytes.
--     Url, Base64: the two codings.
--   StringUtils: src/utils/string_utils.c. A C string is its bytes before the NUL.
--     Split, Trim, Copy, Truncate: what the operations keep of a text.
--   Safety: src/safety/safety.c. The policy; SafetyConfig holds the settings.
--     Load: the settings. Command, Refusal: the check of commands. Address, Address/Groups:
--     socket addresses.
--     Url (and Url/Host): URLs. Resolve: paths in the workspace. Approval: the list of tools.
--   RateLimiter: src/utils/rate_limiter.c. RateStore is the interface of its SQLite tables, Works what
--     their statements do. Window: the requests that pass.
--   Edit: src/tools/edit.c, without the line diff of the answer, of which only the search for a
--     line is modelled (Lines). Edit.Execute is edit_execute: the file system is a function from
--     paths, the outcomes of the C library are fields of EditEnv and Memory.
--     Matching, Sorting, Woven, Execute/Content: what an edit makes of the text. Endings: line
--     endings. Execute/Effects: what a run leaves in the files.
--   TuiInput: src/tui/tui_input.c. Editor is TuiInput; HistoryRing in TuiInput/History is its circular
--     history. Slots, Refine: the ring as a bounded list. Inv, Keeps, Calls: bounds. Edit: insertion
--     and backspace. Fault: a failed copy.
--   TuiEvents: src/tui/tui_events.c. One step is what a thread does under the lock, up to the wait on a
--     condition, where it falls asleep, or to its end; a signal wakes the sleeper. Ring: the contents in
--     their order. Link: the two threads at the ends of the ring, their steps and what they deliver.
-- Each Tests file holds runs and the theorems at concrete inputs.
--
-- Bounds and fuel: numbers are natural numbers. size_t arithmetic that can wrap is written out
-- with its test (Context, OauthCodec, HttpParse); the byte counts that undo and
-- redo return are converted to int as there; counters that only count events do not wrap. The
-- fuel of the frame loop, of the validator and of the loops over lines is the length of the input
-- or one more, enough because each round takes at least one byte; the doubling of the editor's
-- buffer has as many rounds as bytes are needed, enough because the capacity doubles in each, and
-- that of the HTTP buffer has 64, enough because it stops at the limit of what a connection may
-- send. The fuel of the loop over the configuration file is its length, enough because each line
-- has a byte. The wait for a later time of a new chain has the 16 rounds of the code. The fuel of
-- the count of occurrences is the length of the text and one more, enough because each round takes
-- the needle; the 20 rounds of the decimal print are enough for 64 bits.
--
-- Not modelled: what only calls libuv, libcurl, SQLite, OpenSSL, libsodium, cJSON or ncurses, the
-- routes, the providers, the encryption and the rows of the session store, the other tools, and
-- the frontend; NULL arguments of the operations, which every one of them refuses at once; and the
-- release of memory.
pub mod Base
pub mod Config
pub mod Html
pub mod Messages
pub mod Branches
pub mod CircuitBreaker
pub mod ChangeTracker
pub mod Context
pub mod WebSocket
pub mod Middleware
pub mod HttpParse
pub mod Utf8
pub mod OauthCodec
pub mod StringUtils
pub mod RateLimiter
pub mod Safety
pub mod Edit
pub mod TuiEvents
pub mod TuiInput
