-- ===== src/Ffi.antt =====
-- src/ffi.rs: the constants, the endpoint and event structures, and the foreign functions. The
-- functions are those of libvppcom, so they are the fields of an interface over an unknown world,
-- together with what the crate uses of the host: the clock, `sleep`, `rand`, tokio's `Notify`,
-- `select!` and `spawn_blocking`. Time is counted in nanoseconds.
use vcl_rs.Base.{ℕ, ◌*◌, ◌^◌, String, Bool, Option, List, ℤ}

abbrev pub proto_tcp : ℕ
proto_tcp = 0

abbrev pub proto_udp : ℕ
proto_udp = 1

-- `vppcom_endpt_t`: the buffer behind `ip` is a part of the value, and `port` is as it lies in
-- memory, in network byte order.
pub record Endpoint : Type 0 where
  pub is_ip4 : ℕ
  pub ip : List ℕ
  pub port : ℕ

-- What a call of `vppcom_session_attr` passes through its buffer.
pub data Attr : Type 0 where
  word : ℕ → Attr
  endpoint : Endpoint → Attr

abbrev pub attr_set_flags : ℕ
attr_set_flags = 3

abbrev pub attr_get_lcl_addr : ℕ
attr_get_lcl_addr = 4

abbrev pub attr_get_peer_addr : ℕ
attr_get_peer_addr = 6

abbrev pub attr_set_tcp_nodelay : ℕ
attr_set_tcp_nodelay = 27

abbrev pub epoll_ctl_add : ℕ
epoll_ctl_add = 1

abbrev pub epoll_ctl_del : ℕ
epoll_ctl_del = 2

abbrev pub epoll_in : ℕ
epoll_in = 0x001

abbrev pub epoll_out : ℕ
epoll_out = 0x004

abbrev pub epoll_hup : ℕ
epoll_hup = 0x010

abbrev pub epoll_rdhup : ℕ
epoll_rdhup = 0x2000

abbrev pub epoll_et : ℕ
epoll_et = 2 ^ 31

pub record EpollEvent : Type 0 where
  pub events : ℕ
  pub user : ℕ

-- How the three branches of the reactor's `select!` end.
pub data Wake : Type 0 where
  mq_ready : Wake
  mq_failed : Wake
  notified : Wake
  expired : Wake

abbrev pub millis : ℕ → ℕ
millis n = n * 1_000_000

abbrev pub secs : ℕ → ℕ
secs n = n * 1_000_000_000

pub record Vcl : Type 1 where
  pub World : Type 0
  -- `extern "C"`: a return code, what the call writes through its pointers, and the world after it.
  pub app_create : List ℕ → World → ℤ × World
  pub app_destroy : World → World
  pub session_create : ℕ → ℕ → World → ℤ × World
  pub session_close : ℕ → World → ℤ × World
  pub session_shutdown : ℕ → ℕ → World → ℤ × World
  pub session_bind : ℕ → Endpoint → World → ℤ × World
  pub session_listen : ℕ → ℕ → World → ℤ × World
  pub session_accept : ℕ → ℕ → World → ℤ × Endpoint × World
  pub session_connect : ℕ → Endpoint → World → ℤ × World
  pub session_read : ℕ → ℕ → World → ℤ × List ℕ × World
  pub session_write : ℕ → List ℕ → World → ℤ × World
  pub session_sendto : ℕ → List ℕ → ℕ → Endpoint → World → ℤ × World
  pub session_recvfrom : ℕ → ℕ → ℕ → World → ℤ × (List ℕ × Endpoint) × World
  pub session_attr : ℕ → ℕ → Attr → World → ℤ × Attr × World
  pub epoll_create : World → ℤ × World
  pub epoll_ctl : ℕ → ℕ → ℕ → Option EpollEvent → World → ℤ × World
  pub epoll_wait : ℕ → ℕ → ℕ → World → ℤ × List EpollEvent × World
  pub mq_epoll_fd : World → ℤ × World
  pub worker_register : World → ℤ × World
  pub worker_unregister : World → World
  pub worker_index : World → ℤ × World
  pub retval_str : ℤ → Option String
  -- The host.
  pub now : World → ℕ × World
  pub sleep : ℕ → World → World
  pub gen_range : ℕ → ℕ → World → ℕ × World
  -- tokio: whether an `AsyncFd` can be made, a new `Notify`, `notify_one`, `clear_ready`; a wait
  -- lets other tasks run, which share the world and the reactor's map of waiters.
  pub Notify : Type 0
  pub async_fd : ℤ → World → Bool × World
  pub new_notify : World → Notify × World
  pub notify_one : Notify → World → World
  pub clear_ready : World → World
  pub select : Notify → ℕ → World → List (ℕ × Notify) → Wake × World × List (ℕ × Notify)
  pub poll_notified : Notify → World → List (ℕ × Notify) → Bool × World × List (ℕ × Notify)
  -- The future of one `notified()`: two that wait on the same `Notify` are two values. And one poll of
  -- the two futures above around it, between which no other task runs: none if it is pending. When
  -- one of them is ready, the `notified()` in it is dropped.
  pub Notified : Type 0
  pub new_notified : Notify → World → Notified × World
  pub poll_select : Notified → ℕ → World → Option Wake × World
  pub poll_check : Notified → World → Option Bool × World
  -- The next tick of the periodic task's `interval`, until which other tasks run; and whether the
  -- task's weak references to the reactor can still be upgraded.
  pub interval_tick : World → List (ℕ × Notify) → World × List (ℕ × Notify)
  pub upgrade : World → Bool × World
  -- The thread that `spawn_blocking` takes: whether it is registered, or none if the join fails.
  pub pool_thread : World → Option Bool × World
