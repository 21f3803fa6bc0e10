-- ===== src/Tests/Unanswered.antt =====
-- A peer that does not answer, in a variant of the world of `Toy`.
use vcl_rs.Base.{
  ℕ, ◌≡◌, ◌≢◌, ◌∙◌, ap, refl, sym, subst, Bool, true, false, Option, none, some, List, [], ◌∷◌, pos,
  negsuc, arith,
}
use vcl_rs.Ffi.{Vcl, Wake, mq_ready, mq_failed, notified, expired}
use vcl_rs.Machine.{State, Exit, returned, running, ok, epoll_wait}
use vcl_rs.Reactor.{VclReactor, TickTimes, notify_all, tick}
use vcl_rs.Reactor.Keeps.{Waiters}
use vcl_rs.Reactor.Backlog.{Backlog}
use vcl_rs.Reactor.Permits.{Permits}
use vcl_rs.Reactor.Future.Executor.{Awaited, ready, later, Executor}
use vcl_rs.Reactor.Ticked.{Ticker, meanwhile, Unanswered}
use vcl_rs.Stream.{VclStream, connect_async}
use vcl_rs.Stream.Early.{InProgress, connect_async-early}
use vcl_rs.TcpAsync.{query_tcp_dns_async}
use vcl_rs.TcpAsync.Starves.{query_tcp_dns_async-starves}
use vcl_rs.Tests.Toy.{server, toy, World, start}

abbrev reactor : VclReactor
reactor = record { vep = 0 }

-- A notified `Notify` is one byte in `sent`, which nothing takes out.
abbrev has_byte : List ℕ → Bool
has_byte [] = false
has_byte (b ∷ bytes) = true

abbrev ends : List ℕ → Option Wake
ends [] = none
ends (b ∷ bytes) = some notified

abbrev mark : World → World
mark w = record w { sent = 1 ∷ [] }

abbrev waited : List ℕ → World → World
waited [] w = mark w
waited (b ∷ bytes) w = w

abbrev deaf : Vcl
deaf = record toy {
  session_connect = λ h ep w. (negsuc 114, w);
  session_write = λ h buf w. (negsuc 106, w);
  epoll_wait = λ vep n ms w. (pos 0, [], w);
  notify_one = λ n w. mark w;
  poll_select = λ n deadline w. (ends w.sent, w);
  select = λ n deadline w ws. (notified, waited w.sent w, ws);
}

abbrev marker : Ticker ⦃V = deaf⦄
marker = record {
  rounds = 1;
  reactor = reactor;
  times = record { prev_tick = 0; last_alive = 0 };
  others = λ w ws. (mark w, ws);
}

abbrev marked : World → Waiters ⦃V = deaf⦄ → State ⦃V = deaf⦄
marked w ws = record {
  world = mark w;
  waiters = ws;
  registered = true;
  initialized = true;
  trace = record { call = epoll_wait 0 64 0; rc = pos 0 } ∷ [];
}

notify_all-marked :
    (s : State ⦃V = deaf⦄) (ws : Waiters ⦃V = deaf⦄)
    → mark s.world ≡ s.world
    → notify_all ⦃V = deaf⦄ ws s ≡ (returned (ok tt), s)
unfolding notify_all vcl_rs.Machine.◌>>=◌
notify_all-marked s [] e = refl
notify_all-marked s (x ∷ ws) e =
    ap (λ z. notify_all ⦃V = deaf⦄ ws (record s { world = z })) e ∙ notify_all-marked s ws e

meanwhile-marked :
    (w : World) (ws : Waiters ⦃V = deaf⦄) → meanwhile ⦃V = deaf⦄ marker w ws ≡ (mark w, ws)
unfolding tick vcl_rs.Machine.◌>>=◌ vcl_rs.Reactor.drain_events vcl_rs.Reactor.drained
meanwhile-marked w ws = rw (notify_all-marked (marked w ws) ws refl)

deaf-Permits : Permits ⦃V = deaf⦄
deaf-Permits = record {
  is_free = λ n w. true;
  has_permit = λ n w. has_byte w.sent;
  is_told = λ f w. has_byte w.sent;
  is_only = λ n f w. true;
  completes = λ n f w o. refl;
  stores = λ n w o. refl;
  takes = λ n w p. p;
  select_wakes = λ f deadline w p. wakes w.sent p;
  select_frees = λ n f deadline w o e. refl;
  select_returns = λ n f deadline w o p e. p;
  check_wakes = λ f w p. refl;
  free_notify = λ n m w o. refl;
  free_epoll = λ n vep size ms w o. refl;
  permit_notify = λ n m w p. refl;
  permit_epoll = λ n vep size ms w p. p;
  permit_clear = λ n w p. p;
  told_notify = λ f m w p. refl;
  told_now = λ f w p. p;
  only_notify = λ n f m w o. refl;
  only_epoll = λ n f vep size ms w o. refl;
  only_now = λ n f w o. refl;
}
  where
    wakes : (bytes : List ℕ) → has_byte bytes ≡ true → ends bytes ≢ none
    wakes [] p = ground arith
    wakes (b ∷ bytes) p = ground arith

deaf_backlog : Backlog ⦃V = deaf⦄ 0
deaf_backlog = record {
  capacity = 0;
  left = λ w. 0;
  bounded = λ w. omega arith;
  takes = λ n w e. ground arith;
  notify_adds_none = λ n w. omega arith;
}

deaf-Unanswered : Unanswered ⦃V = deaf⦄ marker 1
unfolding deaf_backlog deaf-Permits
deaf-Unanswered = record {
  permits = deaf-Permits;
  alone = λ n w. refl;
  stays_alone = λ n f deadline w ws o. refl;
  backlog = deaf_backlog;
  enough = omega arith;
  others_keep = λ h n w ws e. e;
  clock = λ w. w.clock;
  now_reads = λ w. omega arith;
  made_now = λ n w. omega arith;
  expires = λ n deadline w e. absurd (never w.sent e);
  ticks_soon = λ n deadline w ws. rw (meanwhile-marked w ws) (omega arith);
  no_event = λ n deadline w. silent w.sent;
  no_failure = λ n deadline w. sound w.sent;
}
  where
    never : (bytes : List ℕ) → ends bytes ≢ some expired
    never [] = ground arith
    never (b ∷ bytes) = ground arith

    silent : (bytes : List ℕ) → ends bytes ≢ some mq_ready
    silent [] = ground arith
    silent (b ∷ bytes) = ground arith

    sound : (bytes : List ℕ) → ends bytes ≢ some mq_failed
    sound [] = ground arith
    sound (b ∷ bytes) = ground arith

deaf_select :
    (bytes : List ℕ) (w : World) (ws : Waiters ⦃V = deaf⦄)
    → Awaited ⦃V = deaf⦄
        (meanwhile ⦃V = deaf⦄ marker)
        (λ v. (ends v.sent, v))
        (record w { sent = bytes })
        ws
        notified
        (waited bytes (record w { sent = bytes }))
        ws
deaf_select [] w ws = later refl (
    subst
      (λ p.
        Awaited ⦃V = deaf⦄ (meanwhile ⦃V = deaf⦄ marker) (λ v. (ends v.sent, v)) p.0 p.1 notified
          (mark w) ws)
      (sym (meanwhile-marked (record w { sent = [] }) ws)) (ready refl))
deaf_select (b ∷ bytes) w ws = ready refl

deaf_executor : Executor ⦃V = deaf⦄ (meanwhile ⦃V = deaf⦄ marker)
deaf_executor = record {
  selects = λ n deadline w ws. deaf_select w.sent w ws;
  checks = λ n w ws. ready refl;
}

deaf-InProgress : InProgress ⦃V = deaf⦄
deaf-InProgress = record {
  creates = λ p f w. (w.next, refl);
  binds = λ h ep w. (0, refl);
  adds = λ vep op h ev w. (0, refl);
  in_progress = λ h ep w. refl;
}

abbrev idle : State ⦃V = deaf⦄
idle = record {
  world = start.world;
  waiters = [];
  registered = true;
  initialized = true;
  trace = [];
}

connect_async-early_example :
    (st : VclStream) × ((connect_async ⦃V = deaf⦄ 1 server none reactor 9 idle).0
      ≡ returned (ok st))
connect_async-early_example =
    connect_async-early ⦃V = deaf⦄ 1 server none reactor 9 idle deaf-InProgress marker 1
      deaf-Unanswered deaf_executor (omega arith) (omega arith)

query_tcp_dns_async-starves_example :
    (query_tcp_dns_async ⦃V = deaf⦄ 9 server none (5 ∷ []) reactor 9 idle).0 ≡ running
query_tcp_dns_async-starves_example =
    query_tcp_dns_async-starves ⦃V = deaf⦄ 9 server (5 ∷ []) reactor 9 idle (omega arith)
      deaf-InProgress (λ h buf w. refl) marker 1 deaf-Unanswered deaf_executor (omega arith)
      (omega arith)
