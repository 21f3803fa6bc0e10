-- ===== src/Tests/Echoes.antt =====
-- The echo server, in a world that counts the datagrams of one client and keeps what is sent.
use vcl_rs.Base.{
  ℕ, zero, suc, ◌≤◌, length-replicate, ◌≡◌, refl, true, false, none, some, List, [], ◌∷◌, ◌++◌,
  length, take, replicate, length-take, ℤ, pos, negsuc, arith,
}
use vcl_rs.Error.{VclError, closed, from_rc}
use vcl_rs.Ffi.{Vcl, Endpoint, notified}
use vcl_rs.Endpoint.{addr_from_endpoint}
use vcl_rs.Endpoint.RoundTrip.{IsEndpoint}
use vcl_rs.Machine.{State, Result, err, returned}
use vcl_rs.Reactor.Apart.{Apart}
use vcl_rs.Reactor.{VclReactor}
use vcl_rs.Machine.Ledger.{ledger}
use vcl_rs.Net.{SocketAddr, socket_addr}
use vcl_rs.Echo.{echo, serve}
use vcl_rs.Echo.Ownership.{serve-closes}
use vcl_rs.Tests.Toy.{toy, server, server_endpoint, start, toy-Answers}
use vcl_rs.Echo.Replies.{Datagram, Mailbox, Unmoved, Replied, echo-replies}

pub record Post : Type 0 where
  pub to_come : ℕ
  pub received : List Datagram
  pub sent : List Datagram

abbrev client : Endpoint
client = record { is_ip4 = 1; ip = replicate 16 9; port = 0x3500 }

abbrev hello : List ℕ
hello = 7 ∷ 8 ∷ 9 ∷ []

abbrev fine : Post → ℤ × Post
fine w = (pos 0, w)

-- A reset when no datagram is to come any more.
abbrev deliver : ℕ → ℕ → Post → ℤ × (List ℕ × Endpoint) × Post
deliver zero size w = (negsuc 103, ([], client), w)
deliver (suc n) size w =
    let bytes = take size hello in
    (
      pos (length bytes),
      (bytes, client),
      record w { to_come = n; received = w.received ++ (bytes, addr_from_endpoint client) ∷ [] },
    )

abbrev post : Vcl
post = record {
  World = Post;
  app_create = λ name w. fine w;
  app_destroy = λ w. w;
  session_create = λ proto flag w. fine w;
  session_close = λ h w. fine w;
  session_shutdown = λ h how w. fine w;
  session_bind = λ h ep w. fine w;
  session_listen = λ h n w. fine w;
  session_accept = λ h f w. (pos 0, client, w);
  session_connect = λ h ep w. fine w;
  session_read = λ h size w. (pos 0, [], w);
  session_write = λ h buf w. fine w;
  session_sendto = λ h buf f ep w.
      (pos (length buf), record w { sent = w.sent ++ (buf, addr_from_endpoint ep) ∷ [] });
  session_recvfrom = λ h n f w. deliver w.to_come n w;
  session_attr = λ h op attr w. (pos 0, attr, w);
  epoll_create = fine;
  epoll_ctl = λ vep op h ev w. fine w;
  epoll_wait = λ vep n ms w. (pos 0, [], w);
  mq_epoll_fd = λ w. (pos 7, w);
  worker_register = fine;
  worker_unregister = λ w. w;
  worker_index = fine;
  retval_str = λ rc. none;
  now = λ w. (0, w);
  sleep = λ n w. w;
  gen_range = λ low high w. (low, w);
  Notify = ℕ;
  async_fd = λ fd w. (true, w);
  new_notify = λ w. (0, w);
  notify_one = λ n w. w;
  clear_ready = λ w. w;
  select = λ n deadline w ws. (notified, w, ws);
  poll_notified = λ n w ws. (true, w, ws);
  Notified = ℕ;
  new_notified = λ n w. (n, w);
  poll_select = λ n deadline w. (some notified, w);
  poll_check = λ n w. (some true, w);
  interval_tick = λ w ws. (w, ws);
  upgrade = λ w. (false, w);
  pool_thread = λ w. (some false, w);
}

client-IsEndpoint : IsEndpoint client
client-IsEndpoint = record { ip_full = refl; ip_bytes = omega arith; port_short = omega arith }

deliver_takes :
    (n size c : ℕ) (w : Post)
    → let (rc, out, v) = deliver n size w in
      rc ≡ pos c
      → (c ≤ size)
        × (length out.0 ≡ c)
        × IsEndpoint out.1
        × (v.received ≡ w.received ++ (out.0, addr_from_endpoint out.1) ∷ [])
        × (v.sent ≡ w.sent)
deliver_takes zero size c w e = absurd (ground arith)
deliver_takes (suc n) size c w e =
    (ground (arith, length-take size hello), ground arith, client-IsEndpoint, refl, refl)

deliver_keeps :
    (n size m : ℕ) (w : Post)
    → let (rc, out, v) = deliver n size w in
      rc ≡ negsuc m → (v.received ≡ w.received) × (v.sent ≡ w.sent)
deliver_keeps zero size m w e = (refl, refl)
deliver_keeps (suc n) size m w e = absurd (ground arith)

client-Mailbox : Mailbox ⦃V = post⦄ 4
client-Mailbox = record {
  received = λ w. w.received;
  sent = λ w. w.sent;
  arrives = λ size c w. deliver_takes w.to_come size c w;
  stays = λ size n w. deliver_keeps w.to_come size n w;
  leaves = λ buf ep c w e. (refl, refl);
  refused = λ buf ep n w e. absurd (ground arith);
}

client-Apart : Apart ⦃V = post⦄ (Unmoved ⦃V = post⦄ 4 client-Mailbox)
unfolding client-Mailbox
client-Apart = record {
  notify_still = λ n w. (refl, refl);
  epoll_still = λ vep n ms w. (refl, refl);
  clear_still = λ w. (refl, refl);
  now_still = λ w. (refl, refl);
  new_notify_still = λ w. (refl, refl);
  select_still = λ n deadline w ws. (refl, refl);
  poll_still = λ n w ws. (refl, refl);
}

-- Two datagrams, and then a reset.
abbrev two_to_come : State ⦃V = post⦄
two_to_come = record {
  world = record { to_come = 2; received = []; sent = [] };
  waiters = [];
  registered = true;
  initialized = true;
  trace = [];
}

abbrev reactor : VclReactor
reactor = record { vep = 0 }

-- The loop does not look behind the first three bytes of its buffer.
abbrev echoed : State ⦃V = post⦄
echoed =
    (echo ⦃V = post⦄ 9 (record { handle = 4; reactor = reactor }) (0 ∷ 0 ∷ 0 ∷ []) two_to_come).1

abbrev reset : Result (Unit {0})
reset = err closed

echo_run :
    (rest : List ℕ)
    → echo ⦃V = post⦄ 9 (record { handle = 4; reactor = reactor }) (0 ∷ 0 ∷ 0 ∷ rest) two_to_come
      ≡ (returned reset, echoed)
unfolding echo vcl_rs.Machine.◌>>=◌ vcl_rs.Dgram.recv_from vcl_rs.Machine.attempt
    vcl_rs.Session.recvfrom vcl_rs.Session.check vcl_rs.Dgram.send_to vcl_rs.Session.sendto from_rc
    addr_from_endpoint vcl_rs.Endpoint.endpoint_into_buf vcl_rs.Endpoint.swap_bytes
echo_run rest = refl

echo-replies_example :
    ((e : VclError) × (reset ≡ err e)) × Replied ⦃V = post⦄ 4 client-Mailbox echoed
unfolding client-Mailbox
echo-replies_example =
    echo-replies ⦃V = post⦄ 9 4 reactor client-Mailbox (0 ∷ 0 ∷ 0 ∷ replicate 65532 0) two_to_come
      echoed reset client-Apart (omega (arith, length-replicate {A = ℕ} 65532 0)) refl
      (echo_run (replicate 65532 0))

-- In the world of `Toy` a reset is all that comes.
abbrev only_reset : State
only_reset = record start {
  world = record start.world { datagrams = ([], server_endpoint) ∷ [] };
  registered = true;
}

abbrev any_port : SocketAddr
any_port = socket_addr server.ip 0

serve-closes_example : ledger (serve 9 any_port reactor only_reset).1.trace ≡ some []
unfolding serve vcl_rs.Machine.◌>>=◌ vcl_rs.Dgram.bind vcl_rs.App.register_worker_thread
    vcl_rs.Session.create_udp vcl_rs.Session.check vcl_rs.Machine.on_err vcl_rs.Session.bind
    vcl_rs.Session.listen vcl_rs.Verify.verify_bind_or_err vcl_rs.Machine.attempt
    vcl_rs.Session.local_addr addr_from_endpoint vcl_rs.Endpoint.swap_bytes vcl_rs.Reactor.register
    vcl_rs.Machine.finally vcl_rs.Dgram.recv_from vcl_rs.Session.recvfrom from_rc
serve-closes_example = serve-closes toy-Answers 9 any_port reactor [] only_reset refl refl
