-- ===== src/Lib.antt =====
-- Verification of DenIM, a messenger on top of the Signal protocol whose deniable traffic rides in the
-- spare room of regular messages (common/, client/ and server/ of this repository).
--
-- How the program works. A sender serializes a deniable payload and cuts it into chunks that fill, with
-- dummies, the room that the size of a regular message times q gives. The server buffers the chunks of
-- each sender, puts them together again when the final one has arrived, forwards the payload to the
-- outgoing buffer of the receiver's devices, and cuts it there again into the messages that it delivers.
-- Regular messages are checked against the devices of the destination and stored for each of them.
--
-- The files, and the code that they are about:
-- - Prelude and its children: Boolean tests, lists, integers, a hash map (Dict), what a Rust function
--   ends in (Errors: a value, an error, a panic), and calls that change a state (Effects).
-- - Text: `str` as bytes, with the functions of Rust's library that the parsers call.
-- - Chunk: common/src/deniable/chunk.rs, constants.rs and mod.rs. Types: the kinds of chunk and the
--   `Chunker`; Sort: `impl Ord for DenimChunk` of common/src/web_api/mod.rs; Ordered:
--   `create_ordered_chunks`; Buffer: `create_chunks` over the trait `DeniableSendingBuffer`.
-- - WebApi: the messages of common/src/web_api/mod.rs, and the envelope of common/proto.
-- - DenimManager: server/src/managers/denim. Payloads: `create_deniable_payloads`; Buffers: enqueueing and
--   flushing chunks; Outgoing: `dequeue_payload_data` and `create_denim_message`.
-- - Server: server/src/server/server.rs. Messages: `handle_put_messages`; Chunks:
--   `handle_receiving_chunks`; Envelopes: server/src/envelope.rs; Devices: removing accounts and devices,
--   and the keepalive; LinkCode and Linking: linking a device; Registration: registering an account.
-- - Account: server/src/account.rs; Validators: server/src/validators.
-- - Contacts: client/src/contact_manager.rs.
-- - Address: common/src/protocol_address.rs and common/src/web_api/authorization.rs.
-- - NetHelper: common/src/websocket/net_helper.rs.
-- - Redis: server/src/storage/redis.rs. Redis: the exchanges of a client with the server; Documented: the
--   replies that the documentation of Redis promises, as far as the program reads them, with scores that are
--   doubles; Entries: what an entry of a queue holds; Operations: the functions of the file over the keys of
--   a queue; Queue: the queue that those keys stand for.
-- - Caches: the three caches over Redis. Chunks: server/src/managers/denim/chunk_cache.rs; Payloads:
--   payload_cache.rs beside it; Messages: server/src/managers/message/message_cache.rs.
-- - Messages: server/src/managers/message/messages_manager.rs; Persister: message_persister.rs beside it,
--   which moves the messages of a queue from the cache to the database.
-- - KeyManagers: Server: server/src/managers/key_manager.rs; Client: client/src/key_manager.rs.
-- - Sockets: client/src/socket_manager.rs and common/src/websocket/connection_state.rs.
-- - Websocket: server/src/managers/websocket/connection.rs, over interfaces of the managers that it
--   calls; Manager: websocket_manager.rs beside it.
-- - Storage: client/src/storage/device.rs, over the tables of client/client_db/migrations. Device: the
--   identities; its children Keys, Profile and Deniable: the other functions of the file; Chunks, KeyIds,
--   History, Reliable and Sound: what they keep, and when they end.
-- - Client: client/src/client.rs over its database. Incoming: `handle_incoming_chunks`, and what becomes of
--   chunks that arrive with several messages (Arrival); Contacts: adding, updating and removing contacts, in
--   the contact manager and the database (Agreement, Keeps, Calls and Loads); Sending: messages and deniable
--   messages, with `encrypt` of client/src/encryption.rs and the sending buffer of
--   client/src/storage/database.rs, and the texts that wait for keys (Queued); Envelopes:
--   `Envelope::decrypt` of common/src/envelope.rs, and the bundles of a response of keys; Receiving:
--   `receive_message`.
-- - Postgres: server/src/storage/postgres.rs, over the tables of server/database/init.sql. Accounts, Inbox,
--   PreKeys and OneTime: the functions of the file; Reading, Reliable, Added and Unserved: what they keep.
-- - Padding: `pad_message` and `unpad_message` of client/src/encryption.rs.
-- - Tests: the properties at concrete inputs, with instances of the interfaces.
--
-- Conventions. Bytes and unsigned integers are natural numbers, `i32` is an integer; an operation that
-- leaves the range of its type panics, as in a build with overflow checks. `f32` is a type of its own, of
-- which only the product that is rounded up to a `usize` is used. Hash maps forget their order, and the
-- order in which one is traversed is a parameter. Code of libraries (base64, bincode, serde, libsignal,
-- the clock) is a parameter, with what is relied on as a field that states it.
--
-- Redis. An operation is an exchange: it ends, or sends a command and goes on with the reply. It runs
-- against any server of commands; the theorems take one that replies as documented for the keys of one
-- queue, and hold for an exchange that nothing comes between.
--
-- Databases. A statement is what its SQL says of the tables, and each call of the library (to prepare, to
-- execute, to begin and to commit) may fail: a statement that fails changes nothing, and a transaction that
-- is not committed is undone. The order of the rows of a query and the numbers of new rows are parameters.
--
-- Loops. The loops over the free room run on fuel: each round takes at least the twelve bytes of an empty
-- chunk, so that one more round than the room has bytes is enough fuel. The loop that persists a queue runs
-- on fuel as well: each of its rounds takes at least one message off the queue, so that one round more than
-- the queue has messages is enough. So does the loop that waits for an answer: a round for each message in
-- front of the answer and one more is enough. All other loops are structural.
--
-- Not modelled: SQLite and PostgreSQL themselves, and how the program connects to them; the layers that pass
-- their calls on to a database (client/src/storage/database.rs, generic.rs and in_memory.rs); the
-- listeners that the caches notify, the passing of the 31 days after which Redis drops the keys of a queue,
-- the presence of clients, what other tasks do between the steps of a websocket's task, how the client
-- connects, HTTP routing, the authenticator, how the client registers and logs in and its requests over HTTP
-- (client/src/server.rs), and libsignal's encryption, generation of keys and key stores. The managers of the
-- server take their database as an interface, whose laws say what it keeps.
pub mod Prelude
pub mod Padding
pub mod Postgres
pub mod Account
pub mod Validators
pub mod Text
pub mod Address
pub mod Chunk
pub mod WebApi
pub mod DenimManager
pub mod Contacts
pub mod Server
pub mod Sockets
pub mod Storage
pub mod Client
pub mod Websocket
pub mod Tests
pub mod NetHelper
pub mod Redis
pub mod Caches
pub mod Messages
pub mod KeyManagers
