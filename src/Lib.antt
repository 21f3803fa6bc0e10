-- ===== src/Lib.antt =====
-- vcl-rs: an asynchronous Rust wrapper of libvppcom, the client library of VPP's session layer.
--
-- A function of the crate is a computation `M A` (Machine.antt) over a state: the world, the
-- reactor's map of waiters, the flags of src/app.rs, and a trace of the foreign calls made. The
-- functions of libvppcom, the clock, `rand` and what the crate uses of tokio are the fields of one
-- interface `Vcl` (Ffi.antt) over an unknown world, so that a theorem holds whatever they do unless
-- it names a hypothesis. A `Result` is a value, `?` is the bind, and the drop of a value is written
-- out where it goes out of scope (`finally`, `on_err`). `Machine.Ledger` reads off the trace which
-- sessions and epoll sets are open.
--
-- The files, and the code that each is about:
--   Base: shared names, tests on numbers, lists and integers
--   Net: the addresses of `std::net` that the crate uses
--   Error, Error/Classes: src/error.rs
--   Ffi: src/ffi.rs; Machine: the state, its calls and the judgements on computations
--   Endpoint, Endpoint/RoundTrip: `endpoint_into_buf` and `addr_from_endpoint` of src/session.rs
--   Session: `SessionHandle` of src/session.rs
--   App: `VclApp` and `register_worker_thread` of src/app.rs; App/Prewarm: `prewarm`, whose tasks
--     share a pool of threads and a barrier, and whose handles are awaited in their order, as a step
--     relation; App/Race: `init` and the drop of `VclApp` on several threads at once, also as a step
--     relation
--   Reactor, Reactor/Waiters: src/reactor.rs, with the map of waiters as an association list;
--     Reactor/Future: a wait as a future that is polled, with a `notified()` of its own at each of its
--     two suspension points; Reactor/Permits: what is assumed of `Notify`, of which `notify_one` wakes
--     one wait, so that it is assumed of a single wait only;
--     Reactor/Backlog, Reactor/Dispatch: the queue of events, and who is told of them; Reactor/Ticked:
--     what a wait comes to while nothing but the periodic task runs
--   Ephemeral: the loop over eight random ports, which stands in four functions of src/dgram.rs
--   Udp: `query_udp_sync`, `probe_local_source`, `VclUdpSyncSocket` of src/dgram.rs; Udp/Protocol: the
--     order of the calls of one query, as a specification that does not mention the code
--   Framing: `frame_tcp_dns_query`, `decode_tcp_dns_len` of src/dgram.rs
--   Verify: `verify_bind_or_err` of src/dgram.rs; Dgram: `VclDgramSocket` of src/dgram.rs;
--     Dgram/Random: its binds to a random port, with the text that they parse
--   Tcp: `query_tcp_dns_sync` of src/dgram.rs; TcpAsync: `query_tcp_dns_async`
--   Fuzz: fuzz/fuzz_targets/tcp_dns_response.rs
--   Stream: `VclStream` of src/stream.rs; Poll: its `AsyncRead` and `AsyncWrite`
--   Echo: `main` of examples/udp_echo.rs
--   Listener: `VclListener` of src/listener.rs
--   Tests: a small world, and each theorem applied in it
--
-- The datagram sockets, streams and listeners each hold a session handle and share the reactor,
-- whose waiters are a part of the state; the synchronous clients use sessions alone.
--
-- Loops that wait take fuel, one unit a round, and a computation without fuel is `running`. For the
-- poll of `query_udp_sync` one round for each 5 ms of the limit and one more are enough, for the
-- loops of `query_tcp_dns_sync` one for each nanosecond of the limit and 65538 more, for the loop of
-- `verify_bind_or_err` one for each nanosecond of its 200 ms and one more, for a drain of the
-- reactor one for each 64 events that wait and one more, and for the periodic task one for each
-- tick before the reactor is dropped, one for each event that the queue can hold and one more. The
-- other loops have no such bound in the code. Times are in nanoseconds, bytes are numbers, and a
-- conversion to `u32` or a port is written out as a remainder.
--
-- Not modelled: tokio's scheduler, of which a wait may change the world and the waiters in any way
-- (in Reactor/Future, a function that runs between two polls); the mutexes, since a run is one
-- sequence of calls but in App/Prewarm and App/Race; logging. The texts of an ephemeral address and
-- of the example's argument are parsed by a parameter or before the model starts. Two panics are left
-- out: that of `Instant + Duration` on an overflow, for a limit near `Duration::MAX`, and that of
-- `&buf[..n]` in `VclUdpSyncSocket::query`, if libvppcom reports more than the 4096 bytes that the
-- buffer has.
pub mod Base
pub mod Error
pub mod Net
pub mod Ffi
pub mod Machine
pub mod Endpoint
pub mod Session
pub mod App
pub mod Reactor
pub mod Ephemeral
pub mod Udp
pub mod Framing
pub mod Verify
pub mod Dgram
pub mod Tcp
pub mod Stream
pub mod Listener
pub mod TcpAsync
pub mod Poll
pub mod Fuzz
pub mod Echo
mod Tests
