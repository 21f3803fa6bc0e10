-- ===== src/Tests/Streams.antt =====
-- Streams and exchanges over TCP, in the world of `Toy`.
use vcl_rs.Base.{false, ◌≡◌, ◌<◌, ℕ, Option, refl, none, some, [], ◌∷◌, pos, negsuc, arith}
use vcl_rs.Error.{api, mq_epoll_fd_negative}
use vcl_rs.Ffi.{secs}
use vcl_rs.Machine.{State, returned, ok, err, ◌>>=◌, attempt, session_create}
use vcl_rs.Machine.Ledger.{ledger}
use vcl_rs.Machine.Balance.{Leaves}
use vcl_rs.Framing.{frame_tcp_dns_query, decode_tcp_dns_len}
use vcl_rs.Framing.Laws.{decode_tcp_dns_len-frame_tcp_dns_query}
use vcl_rs.Reactor.{new}
use vcl_rs.Reactor.Faults.{new-leaks}
use vcl_rs.Reactor.Waiters.{find}
use vcl_rs.Tcp.{exchange, query_tcp_dns_sync}
use vcl_rs.Tcp.Exchange.{exchange-framed, Exchanged}
use vcl_rs.Tcp.Ownership.{query_tcp_dns_sync-closes}
use vcl_rs.TcpAsync.{query_tcp_dns_async}
use vcl_rs.TcpAsync.Ownership.{query_tcp_dns_async-closes}
use vcl_rs.Stream.{VclStream, connect_async, connect_rest, from_accepted, read, drop_stream}
use vcl_rs.Stream.Ownership.{connect_rest-leaks}
use vcl_rs.Udp.{sync_bind}
use vcl_rs.Dgram
use vcl_rs.Listener
use vcl_rs.Net.{SocketAddr, socket_addr}
use vcl_rs.Listener.Ownership.{binds-own, streams-own}
use vcl_rs.Tests.Toy.{
  toy, no_eventfd, unopened, start, server, toy-Answers, toy_pipe, toy-Connection,
}

-- The client's state after the creation of session 1.
abbrev opened : State
opened = record start { trace = record { call = session_create 0 1; rc = pos 1 } ∷ [] }

abbrev stream : VclStream
stream = record { handle = 4; reactor = record { vep = 0 } }

decode_tcp_dns_len-frame_tcp_dns_query_example :
    (hi : ℕ) × (lo : ℕ) × (frame_tcp_dns_query (7 ∷ 8 ∷ []) ≡ ok (hi ∷ lo ∷ 7 ∷ 8 ∷ []))
    × (hi < 256)
    × (lo < 256)
    × (decode_tcp_dns_len hi lo ≡ ok 2)
decode_tcp_dns_len-frame_tcp_dns_query_example =
    decode_tcp_dns_len-frame_tcp_dns_query (7 ∷ 8 ∷ []) (omega arith) (omega arith)

-- The two bytes of a prefix.
exchange-framed_example :
    Exchanged toy_pipe []
      (0 ∷ 2 ∷ 8 ∷ 9 ∷ 7 ∷ [])
      (5 ∷ [])
      (8 ∷ 9 ∷ [])
      (exchange 9 1 2 server (5 ∷ []) (secs 1) start).1.world
unfolding exchange ◌>>=◌ vcl_rs.Tcp.start_connect attempt vcl_rs.Session.connect
    vcl_rs.Session.check frame_tcp_dns_query vcl_rs.Tcp.write_loop vcl_rs.Session.write
    vcl_rs.Tcp.fill_loop vcl_rs.Udp.buffer vcl_rs.Session.read decode_tcp_dns_len
exchange-framed_example =
    exchange-framed toy_pipe (toy-Connection 1) 9 2 (secs 1) server (5 ∷ []) start (8 ∷ 9 ∷ [])
      (exchange 9 1 2 server (5 ∷ []) (secs 1) start).1 refl

query_tcp_dns_sync-closes_example :
    ledger (query_tcp_dns_sync 9 server none (5 ∷ []) (secs 1) start).1.trace ≡ some []
unfolding query_tcp_dns_sync ◌>>=◌ vcl_rs.App.register_worker_thread vcl_rs.Session.create_tcp
    vcl_rs.Session.check vcl_rs.Machine.finally vcl_rs.Tcp.query_tcp_on vcl_rs.Tcp.source_bind
    vcl_rs.Tcp.query_in vcl_rs.Tcp.query_watched exchange vcl_rs.Tcp.start_connect attempt
    vcl_rs.Session.connect frame_tcp_dns_query vcl_rs.Tcp.write_loop vcl_rs.Session.write
    vcl_rs.Tcp.fill_loop vcl_rs.Udp.buffer vcl_rs.Session.read decode_tcp_dns_len
query_tcp_dns_sync-closes_example =
    query_tcp_dns_sync-closes 9 server none (5 ∷ []) (secs 1) [] start refl refl

query_tcp_dns_async-closes_example :
    ledger (query_tcp_dns_async 9 server none (5 ∷ []) (record { vep = 0 }) (secs 1) start).1.trace
    ≡ some []
unfolding query_tcp_dns_async ◌>>=◌ vcl_rs.TcpAsync.open_stream connect_async
    vcl_rs.App.register_worker_thread vcl_rs.Session.create_tcp vcl_rs.Session.check
    vcl_rs.Machine.on_err vcl_rs.Stream.ignore attempt vcl_rs.Session.set_nodelay
    vcl_rs.Stream.bind_source vcl_rs.Reactor.register vcl_rs.Tcp.start_connect
    vcl_rs.Session.connect vcl_rs.Reactor.wait_writable vcl_rs.Reactor.wait_event find
    vcl_rs.Machine.finally vcl_rs.TcpAsync.converse frame_tcp_dns_query vcl_rs.Stream.write_all
    vcl_rs.Stream.write_from vcl_rs.Session.write vcl_rs.Stream.read_exact vcl_rs.Stream.read_from
    read vcl_rs.Session.read vcl_rs.Udp.buffer decode_tcp_dns_len vcl_rs.Reactor.waiter
    vcl_rs.Reactor.wait_loop
query_tcp_dns_async-closes_example =
    query_tcp_dns_async-closes 9 server none (5 ∷ []) (record { vep = 0 }) (secs 1) [] start refl
      refl

connect_rest-leaks_example :
    let run = connect_rest 1 server none (record { vep = 0 }) opened in
    Leaves (λ st. st.handle ∷ 1 ∷ []) [] (some []) run.0 run.1
connect_rest-leaks_example = connect_rest-leaks 1 server none (record { vep = 0 }) [] opened refl

-- The server's address, with each port.
abbrev any_port : ℕ → Option SocketAddr
any_port port = some (socket_addr server.ip port)

binds-own_example :
    let listening = Listener.bind 9 server stream.reactor start in
    let fixed = Dgram.bind 9 server stream.reactor start in
    let drawn = Dgram.bind_random 9 8 any_port stream.reactor none start in
    Leaves (λ l. l.handle ∷ []) [] (some []) listening.0 listening.1
    × Leaves (λ sock. sock.handle ∷ []) [] (some []) fixed.0 fixed.1
    × Leaves (λ sock. sock.handle ∷ []) [] (some []) drawn.0 drawn.1
    × Leaves
        (λ h. h ∷ [])
        []
        (some [])
        (sync_bind none false start).0
        (sync_bind none false start).1
binds-own_example =
    binds-own toy-Answers 9 server (stream.reactor) 8 any_port none none false [] start refl

streams-own_example :
    let joined = connect_async 9 server none stream.reactor (secs 1) start in
    let taken = Listener.accept 9 (record { handle = 4; reactor = stream.reactor }) start in
    Leaves (λ st. st.handle ∷ []) [] (some []) joined.0 joined.1
    × Leaves (λ c. c.0.handle ∷ []) [] (some []) taken.0 taken.1
streams-own_example =
    streams-own 9 server none stream.reactor (secs 1)
      (record { handle = 4; reactor = stream.reactor }) [] start refl

-- No connection can be made.
abbrev exhausted : State
exhausted = record start { world = record start.world { next = 0 } }

-- The set is created, and then there is no eventfd.
new-leaks_example :
    ((new ⦃V = no_eventfd⦄ unopened).0 ≡ returned (err (api mq_epoll_fd_negative (negsuc 0))))
    × (ledger (new ⦃V = no_eventfd⦄ unopened).1.trace ≡ some (1 ∷ []))
new-leaks_example = new-leaks ⦃V = no_eventfd⦄ 1 0 [] unopened refl refl refl
