-- ===== src/Tests/Toy.antt =====
-- A world in which the foreign calls succeed: handles are counted, a datagram waits in a queue, and
-- a stream has one list of bytes in each direction.
use vcl_rs.Base.{
  zero, ℕ, suc, ◌+◌, ◌≤◌, refl, sym, true, false, none, some, List, [], ◌∷◌, ◌++◌, length, take,
  drop, pos, negsuc, ap, ℤ, arith, take_all, length-take, take-append-drop,
}
use vcl_rs.Net.{SocketAddr, v4, socket_addr}
use vcl_rs.Ffi.{Vcl, Endpoint, notified, millis}
use vcl_rs.Machine.{State}
use vcl_rs.Verify.Ownership.{Answers}
use vcl_rs.Udp.Deadline.{Clock}
use vcl_rs.Tcp.Connection.{Pipe, Connection}

pub record World : Type 0 where
  pub clock : ℕ
  pub next : ℕ
  pub datagrams : List (List ℕ × Endpoint)
  pub sent : List ℕ
  pub incoming : List ℕ

abbrev fresh : World → ℤ × World
fresh w = (pos w.next, record w { next = suc w.next })

abbrev fine : World → ℤ × World
fine w = (pos 0, w)

abbrev nobody : Endpoint
nobody = record { is_ip4 = 1; ip = []; port = 0 }

-- A datagram without bytes stands for a reset.
abbrev receive : List (List ℕ × Endpoint) → World → ℤ × (List ℕ × Endpoint) × World
receive [] w = (negsuc 10, ([], nobody), w)
receive (([], from) ∷ rest) w = (negsuc 103, ([], nobody), record w { datagrams = rest })
receive (d ∷ rest) w = (pos (length d.0), d, record w { datagrams = rest })

-- Without handles there is no connection.
abbrev welcome : ℕ → World → ℤ × Endpoint × World
welcome zero w = (negsuc 103, nobody, w)
welcome (suc n) w = (pos (suc n), nobody, record w { next = suc (suc n) })

instance abbrev pub toy : Vcl
toy = record {
  World = World;
  app_create = λ name w. fine w;
  app_destroy = λ w. w;
  session_create = λ proto flag w. fresh w;
  session_close = λ h w. fine w;
  session_shutdown = λ h how w. fine w;
  session_bind = λ h ep w. fine w;
  session_listen = λ h n w. fine w;
  session_accept = λ h f w. welcome w.next w;
  session_connect = λ h ep w. fine w;
  session_read = λ h size w. (
    pos (length (take size w.incoming)),
    take size w.incoming,
    record w { incoming = drop size w.incoming },
  );
  session_write = λ h buf w. (pos (length buf), record w { sent = w.sent ++ buf });
  session_sendto = λ h buf f ep w. (pos (length buf), w);
  session_recvfrom = λ h n f w. receive w.datagrams w;
  session_attr = λ h op attr w. (pos 0, attr, w);
  epoll_create = fresh;
  epoll_ctl = λ vep op h ev w. fine w;
  epoll_wait = λ vep n ms w. (pos 0, [], record w { clock = w.clock + millis ms });
  mq_epoll_fd = λ w. (pos 7, w);
  worker_register = fine;
  worker_unregister = λ w. w;
  worker_index = fine;
  retval_str = λ rc. none;
  now = λ w. (w.clock, w);
  sleep = λ n w. record w { clock = w.clock + n };
  gen_range = λ low high w. (low, w);
  Notify = ℕ;
  async_fd = λ fd w. (true, w);
  new_notify = λ w. (w.next, record w { next = suc w.next });
  notify_one = λ n w. w;
  clear_ready = λ w. w;
  select = λ n deadline w ws. (notified, w, ws);
  poll_notified = λ n w ws. (true, w, ws);
  Notified = ℕ;
  new_notified = λ n w. (n, w);
  poll_select = λ n deadline w. (some notified, w);
  poll_check = λ n w. (some true, w);
  interval_tick = λ w ws. (w, ws);
  upgrade = λ w. (false, w);
  pool_thread = λ w. (some false, w);
}

-- A server's address, and as libvppcom writes it.
abbrev pub server : SocketAddr
server = socket_addr (v4 (192 ∷ 0 ∷ 2 ∷ 1 ∷ [])) 53

abbrev pub server_endpoint : Endpoint
server_endpoint = record { is_ip4 = 1; ip = 192 ∷ 0 ∷ 2 ∷ 1 ∷ []; port = 0x3500 }

abbrev pub stranger_endpoint : Endpoint
stranger_endpoint = record { is_ip4 = 1; ip = 203 ∷ 0 ∷ 113 ∷ 9 ∷ []; port = 0x3500 }

-- Two datagrams wait, the first not from the server; on a stream waits a framed answer of two bytes
-- and one byte behind it.
abbrev pub start : State
start = record {
  world = record {
    clock = 0;
    next = 1;
    datagrams = (1 ∷ 2 ∷ [], stranger_endpoint) ∷ (3 ∷ 4 ∷ 5 ∷ [], server_endpoint) ∷ [];
    sent = [];
    incoming = 0 ∷ 2 ∷ 8 ∷ 9 ∷ 7 ∷ [];
  };
  waiters = (4, 40) ∷ (5, 50) ∷ [];
  registered = false;
  initialized = false;
  trace = [];
}

-- The same world where `vppcom_mq_epoll_fd` fails.
abbrev pub no_eventfd : Vcl
no_eventfd = record toy { mq_epoll_fd = λ w. (negsuc 0, w) }

abbrev pub unopened : State ⦃V = no_eventfd⦄
unopened = record {
  world = start.world;
  waiters = [];
  registered = false;
  initialized = false;
  trace = [];
}

pub toy-Answers : (h : ℕ) → Answers h
toy-Answers h a w = (0, refl)

abbrev pub toy_clock : Clock
toy_clock = record {
  clock = λ w. w.clock;
  now_reads = λ w. (omega arith, omega arith);
  sleep_passes = λ n w. omega arith;
  recvfrom_forward = λ h n f w. receive_forward w.datagrams w;
}
  where
    receive_forward : (ds : List (List ℕ × Endpoint)) (w : World) → w.clock ≤ (receive ds w).2.clock
    receive_forward [] w = omega arith
    receive_forward (([], from) ∷ rest) w = omega arith
    receive_forward ((b ∷ bytes, from) ∷ rest) w = omega arith

abbrev pub toy_pipe : Pipe
toy_pipe = record { sent = λ w. w.sent; incoming = λ w. w.incoming }

pub toy-Connection : (h : ℕ) → Connection h toy_pipe
toy-Connection h = record {
  write_appends = λ buf w.
      (omega arith, ap (λ xs. w.sent ++ xs) (sym (take_all (length buf) buf (omega arith))), refl);
  read_takes = λ size w. (
    omega (arith, length-take size w.incoming),
    refl,
    sym (take-append-drop size w.incoming),
    refl,
  );
  connect_still = λ ep w. (refl, refl);
  epoll_wait_still = λ vep n ms w. (refl, refl);
  now_still = λ w. (refl, refl);
}
