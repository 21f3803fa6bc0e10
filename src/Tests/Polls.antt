-- ===== src/Tests/Polls.antt =====
-- The poll traits and the reactor's task, in the world of `Toy`.
use vcl_rs.Base.{◌+◌, pos, negsuc, ◌≡◌, refl, true, false, none, some, [], ◌∷◌, arith}
use vcl_rs.Machine.{◌>>=◌}
use vcl_rs.Machine.Hoare.{After}
use vcl_rs.Reactor.{VclReactor, TickTimes}
use vcl_rs.Reactor.Future.{selecting}
use vcl_rs.Poll.{PollStream, ReadBuf, poll_read, poll_write}
use vcl_rs.Poll.Contract.{ReadContract, WriteContract, polls-contract}
use vcl_rs.Framing.{frame_tcp_dns_query, decode_tcp_dns_len}
use vcl_rs.Tcp.Exchange.{Exchanged}
use vcl_rs.Tcp.Clock.{TcpClock}
use vcl_rs.Tcp.Returns.{query_tcp_dns_sync-returns}
use vcl_rs.Tcp.{query_tcp_dns_sync}
use vcl_rs.Machine.{State, ok, returned}
use vcl_rs.Machine.Ends.{has_returned}
use vcl_rs.Ffi.{Vcl, millis}
use vcl_rs.Stream.{VclStream}
use vcl_rs.Stream.Quiet.{Quiet}
use vcl_rs.TcpAsync.{converse}
use vcl_rs.TcpAsync.Exchange.{converse-framed}
use vcl_rs.Verify.Returns.{DrainClock}
use vcl_rs.Dgram
use vcl_rs.Listener
use vcl_rs.Listener.Returns.{binds-return}
use vcl_rs.Tests.Toy.{toy, start, server, toy_pipe, toy-Connection}

abbrev reactor : VclReactor
reactor = record { vep = 0 }

-- A stream that is in the middle of a wait.
abbrev stream : PollStream
stream = record {
  stream = record { handle = 4; reactor = reactor };
  pending_readable = some (selecting 40 40 9);
  pending_writable = none;
}

abbrev buf : ReadBuf
buf = record { filled = 5 ∷ []; room = 3 }

abbrev times : TickTimes
times = record { prev_tick = 0; last_alive = 0 }

polls-contract_example :
    After
      (λ r t. ReadContract stream buf r.poll r.after r.buf)
      (λ e t. false ≡ true)
      (Unit {0})
      (poll_read 3 stream buf start).0
      (poll_read 3 stream buf start).1
    × After
        (λ r t. WriteContract stream r.poll r.after)
        (λ e t. false ≡ true)
        (Unit {0})
        (poll_write 3 stream (1 ∷ []) start).0
        (poll_write 3 stream (1 ∷ []) start).1
polls-contract_example = polls-contract 3 stream buf (1 ∷ []) start

abbrev tcp_stream : VclStream
tcp_stream = record { handle = 4; reactor = reactor }

toy-Quiet : Quiet toy_pipe
toy-Quiet = record {
  notify_still = λ n w. (refl, refl);
  epoll_still = λ vep n ms w. (refl, refl);
  clear_still = λ w. (refl, refl);
  now_still = λ w. (refl, refl);
  new_notify_still = λ w. (refl, refl);
  select_still = λ n deadline w ws. (refl, refl);
  poll_still = λ n w ws. (refl, refl);
}

converse-framed_example :
    Exchanged toy_pipe []
      (0 ∷ 2 ∷ 8 ∷ 9 ∷ 7 ∷ [])
      (5 ∷ [])
      (8 ∷ 9 ∷ [])
      (converse 9 tcp_stream (5 ∷ []) start).1.world
unfolding converse ◌>>=◌ frame_tcp_dns_query vcl_rs.Stream.write_all vcl_rs.Stream.write_from
    vcl_rs.Machine.attempt vcl_rs.Session.write vcl_rs.Session.check vcl_rs.Stream.read_exact
    vcl_rs.Stream.read_from vcl_rs.Udp.buffer vcl_rs.Stream.read vcl_rs.Session.read
    decode_tcp_dns_len
converse-framed_example =
    converse-framed toy_pipe tcp_stream (toy-Connection 4) toy-Quiet 9 (5 ∷ []) start (8 ∷ 9 ∷ [])
      (converse 9 tcp_stream (5 ∷ []) start).1 refl

-- A server that never answers, and a call of `epoll_wait` that takes a nanosecond more.
abbrev silent : Vcl
silent = record toy {
  session_read = λ h size w. (negsuc 10, [], w);
  epoll_wait = λ vep n ms w. (pos 0, [], record w { clock = w.clock + millis ms + 1 });
}

abbrev unasked : State ⦃V = silent⦄
unasked = record {
  world = start.world;
  waiters = [];
  registered = false;
  initialized = false;
  trace = [];
}

silent_clock : TcpClock ⦃V = silent⦄
silent_clock = record {
  clock = λ w. w.clock;
  now_reads = λ w. (omega arith, omega arith);
  epoll_passes = λ vep n ms w. omega arith;
  read_forward = λ h size w. omega arith;
  write_forward = λ h buf w. omega arith;
  reads_bytes = λ h size w. tt;
  writes_some = λ h n buf w e some_bytes. ground arith;
}

query_tcp_dns_sync-returns_example :
    has_returned (query_tcp_dns_sync ⦃V = silent⦄ 65600 server none (5 ∷ []) 9 unasked).0 ≡ true
query_tcp_dns_sync-returns_example =
    query_tcp_dns_sync-returns ⦃V = silent⦄ 65600 server none (5 ∷ []) 9 unasked silent_clock
      (omega arith)

silent_drain : DrainClock ⦃V = silent⦄
silent_drain = record {
  clock = λ w. w.clock;
  now_reads = λ w. (omega arith, omega arith);
  epoll_passes = λ vep n ms w. omega arith;
}

binds-return_example :
    (has_returned (Listener.bind ⦃V = silent⦄ 200000001 server reactor unasked).0 ≡ true)
    × (has_returned (Dgram.bind ⦃V = silent⦄ 200000001 server reactor unasked).0 ≡ true)
    × (has_returned
          (Dgram.bind_random ⦃V = silent⦄ 200000001 8 (λ port. some server) reactor none unasked).0
        ≡ true)
binds-return_example =
    binds-return ⦃V = silent⦄ 200000001 server reactor 8 (λ port. some server) none unasked
      silent_drain (omega arith)
