-- ===== src/Lib.antt =====
-- gpustat4cluster: servers that collect the state of a node's GPUs, and clients that ask for it.
--
-- A server (crates/server) keeps the last snapshot of its node in a cache and answers frames, over
-- TCP or as UDP datagrams. A client (crates/client-backend) asks for the metadata of a node once and
-- for its runtime part on every query, and rebuilds the snapshot. Both share the formats of
-- crates/common. What is modelled:
--   ErrorCode         crates/common/src/error.rs, the numbers of the errors
--   Protocol          crates/common/src/protocol.rs: FrameType, Header and Frame are the binary
--                     frames, Version the versions and messages, Payload the payloads,
--                     Discovery the messages of discovery
--   Snapshot          crates/common/src/protocol.rs, `HostMetadata` and `RuntimeSnapshot` of a
--                     `ServerGresSnapshot`, and `omit_process_commands` of crates/server/src/cache.rs
--   Udp               crates/common/src/udp.rs: Chunk is the header of a datagram, Split
--                     `encode_udp_chunks`, Single the frame in one datagram, Reassembler
--                     `UdpFrameReassembler` and `ChunkGroup`, Capacity the payload limit
--   Server.Summary    crates/server/src/model.rs
--   Server.Cache      crates/server/src/cache.rs: Metrics are `CacheMetrics`; System runs several
--                     threads
--   Server.Transport  crates/server/src/transport.rs, `TransportContext`
--   Server.UdpTransport  crates/server/src/udp_transport.rs, the round of `server_loop` for one
--                     datagram; FastPath compares its fast answers with its general path
--   Server.TcpStream, Server.Ports  crates/server/src/main.rs: `read_tcp_frame` and
--                     `handle_query_stream`, and the choice of ports
--   Client.Transport  crates/client-backend/src/transport.rs
--   Client.UdpClient  crates/client-backend/src/udp_client.rs: Query is `query_connected`, EndToEnd a
--                     query with the server's answer, Disconnect is `disconnect`
--   Config            crates/common/src/config.rs
--   Server.Startup    crates/server/src/main.rs: `validate_config` and `parse_log_size_bytes`
--   Server.Announce   crates/server/src/main.rs: `announce_startup_once`, and the answer of
--                     `discovery_query_loop`; Found has the client that reads them
--   Server.Collector  crates/server/src/collector.rs: the contract of a snapshot and both its forms;
--                     Nvml is the collector on NVML, Fixture the debug collector, Mapped the file
--                     that it reads
--   Client.TcpClient  crates/client-backend/src/tcp_client.rs; EndToEnd as for UDP
--   Client.Cache      crates/client-backend/src/cache.rs, the entries by address
--   Client.Filter     crates/client-backend/src/filter.rs, the patterns that select nodes
--   Client.Discovery  crates/client-backend/src/discovery.rs: static nodes, announcements, the merge
--   Client.Adapter    crates/client-backend/src/adapter.rs, the answer to a local query; Legacy reads
--                     the older forms of a payload, Base64 is `decode_base64`
--   Client.LocalApi   crates/client-backend/src/local_api.rs, the pool of connections and the cache;
--                     Stale refreshes it, Commands are `handle_command` and `handle_client`; a
--                     query may replace the metadata that a connection's hostname is read from
--   Cli               crates/client-cli: Args the arguments, Render what a table shows
--   Base              shared names and lemmas on lists, bytes and results
--   Tests             the theorems at concrete inputs
-- The definitions have the names of the functions they model. A frame's payload travels
-- `encode_rkyv_payload`, `encode_frame`, `encode_udp_chunks`, and back through `insert`,
-- `decode_frame`, `decode_rkyv_payload`, `to_snapshot`.
--
-- Numbers are natural numbers; what the code casts or wraps is written `% 2 ^ w`. Bytes are lists of
-- numbers, and theorems on input from outside suppose that each is below 256. Errors are values of
-- `Result`. A map is an association list, and a clock is an argument.
-- `get_or_refresh` is a machine of atomic steps, one for each stretch of the code between two
-- accesses to shared state: `resume` makes a caller's next step, `advance` one of many callers', in
-- any order, with any time and any answer of the collector (`Env`). Runs of a single caller (`run`)
-- take one `Env` for each step; five are enough for a call. A client's receiving loop is structural
-- recursion on its rounds, each with the instant of its tests and what the socket gives.
-- `handle_query_stream` has a bound on its rounds; each takes a header of 18 bytes at least, so that
-- the length of the stream is enough. `chunks` has the length of the list as fuel: each piece takes
-- one element at least.
--
-- A query of the command line goes through the local API, which refreshes the stale entries of the
-- cache over the connections, to the adapter, which selects entries by the filter and builds the
-- answer. A text is the list of its bytes in UTF-8; the functions of `str` that are used stand in
-- Base.Scan and are written for ASCII where the code's input is.
--
-- Parameters: rkyv (`Archive`, which reads back what it has written), serde_json (`Json`,
-- `ClientJson`, `JsonValue`, `StateJson`), crc32fast (`Crc`), the parsers and printers of addresses
-- (`Net`, `Resolver`), NVML (`NvmlLib`), the files of /proc (`ProcFiles`), what sends of announcements
-- do (`Announcer`), and what a local command meets (`World`).
-- Not modelled: sockets, threads and the loops that run in them, logging, poisoned locks, the drawing
-- of tables, and the texts of errors.
pub mod Base
pub mod ErrorCode
pub mod Config
pub mod Protocol
pub mod Snapshot
pub mod Udp
pub mod Server
pub mod Client
pub mod Cli
pub mod Tests
