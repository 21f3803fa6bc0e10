-- ===== src/Reactor.antt =====
-- src/reactor.rs: the epoll set, the map from sessions to their `Notify`, and the waits. The loops
-- take fuel: a round of the wait loop ends in a wake-up, and a round of the drain in an
-- `epoll_wait`.
pub mod Balance
pub mod Ends
pub mod Dispatch
pub mod Faults
pub mod Future
pub mod Backlog
pub mod Apart
pub mod Keeps
pub mod Liveness
pub mod Ticked
pub mod Wakes
pub mod Periodic
pub mod Permits
pub mod Queue
pub mod Waiters
use vcl_rs.Base.{
  ℕ, zero, suc, ◌+◌, ◌-◌, ◌%◌, ◌^◌, Bool, true, false, Option, none, some, List, [], ◌∷◌, ℤ, pos,
  negsuc, leb, ltb, length, take, if◌then◌else◌,
}
use vcl_rs.Error.{api, io, timeout, mq_epoll_fd_negative, from_rc}
use vcl_rs.Ffi.{
  Vcl, EpollEvent, Wake, mq_ready, mq_failed, notified, expired, epoll_ctl_add, epoll_ctl_del,
  epoll_in, epoll_out, epoll_et, millis, secs,
}
use vcl_rs.Machine.{
  M, pure, fail, out_of_fuel, ◌>>=◌, ◌>>◌, when◌then◌else◌, call, call_out, host, advance, gets,
  set_waiters, await, epoll_create, epoll_ctl, epoll_wait, mq_epoll_fd,
}
use vcl_rs.Session.{check}
use Waiters.{find, insert_new, remove}

-- `VclReactor`: what its clones share and never changes. The waiters are a part of the state.
pub record VclReactor : Type 0 where
  pub vep : ℕ

pub record TickTimes : Type 0 where
  pub prev_tick : ℕ
  pub last_alive : ℕ

pub record TickLog : Type 0 where
  pub stalled : Bool
  pub alive : Bool
  pub waiters_n : ℕ

module _ ⦃V : Vcl⦄ where
  -- The test of the eventfd, and its registration with tokio.
  unfoldable pub wrap_mq_fd : ℕ → ℤ → M VclReactor
  wrap_mq_fd vep (negsuc n) = fail (api mq_epoll_fd_negative (negsuc n))
  wrap_mq_fd vep (pos fd) = do
    done ← host (V.async_fd (pos fd))
    when done then pure (record { vep = vep }) else fail io

  -- `VclReactor::new`, but for the spawn of `spawned` below. The map of
  -- waiters is empty before the first reactor of a thread is made.
  unfoldable pub new : M VclReactor
  unfolding wrap_mq_fd
  new = do
    rc ← call epoll_create V.epoll_create
    vep ← check rc
    mq_raw ← call mq_epoll_fd V.mq_epoll_fd
    wrap_mq_fd vep mq_raw

  abbrev pub interest : ℕ → EpollEvent
  interest h = record { events = epoll_in + epoll_out + epoll_et; user = h }

  unfoldable pub register : VclReactor → ℕ → M (Unit {0})
  register r h = do
    let ev = some (interest h)
    rc ← call (epoll_ctl r.vep epoll_ctl_add h ev) (V.epoll_ctl r.vep epoll_ctl_add h ev)
    _ ← check rc
    pure tt

  unfoldable pub deregister : VclReactor → ℕ → M (Unit {0})
  deregister r h = do
    ws ← gets (λ s. s.waiters)
    set_waiters (remove h ws)
    _ ← call (epoll_ctl r.vep epoll_ctl_del h none) (V.epoll_ctl r.vep epoll_ctl_del h none)
    pure tt

  abbrev pub wake : Option V.Notify → M (Unit {0})
  wake none = pure tt
  wake (some n) = advance (V.notify_one n)

  -- `for i in 0..n` over the events of one `epoll_wait`.
  unfoldable pub wake_each : List EpollEvent → M (Unit {0})
  wake_each [] = pure tt
  wake_each (e ∷ es) = do ws ← gets (λ s. s.waiters); wake (find (e.user % 2 ^ 32) ws); wake_each es

  -- What a round of the drain does with the code and the events of its `epoll_wait`;
  -- `events.len()` is 64.
  unfoldable pub drained : M (Unit {0}) → List EpollEvent → ℤ → M (Unit {0})
  unfolding wake_each
  drained again events (negsuc n) = pure tt
  drained again events (pos zero) = pure tt
  drained again events (pos (suc m)) = do
    wake_each (take (suc m) events)
    when ltb (suc m) 64 then pure tt else again

  -- `drain_events_with_inner`
  unfoldable pub drain_events : ℕ → VclReactor → M (Unit {0})
  unfolding drained
  drain_events zero r = out_of_fuel
  drain_events (suc k) r = do
    (rc, events) ← call_out (epoll_wait r.vep 64 0) (V.epoll_wait r.vep 64 0)
    drained (drain_events k r) events rc

  -- `waiters.entry(h).or_insert_with(..).clone()`
  abbrev pub entry : ℕ → List (ℕ × V.Notify) → Option V.Notify → M V.Notify
  entry h ws (some n) = pure n
  entry h ws none = do n ← host V.new_notify; set_waiters (insert_new h n ws); pure n

  unfoldable pub waiter : ℕ → M V.Notify
  waiter h = do ws ← gets (λ s. s.waiters); entry h ws (find h ws)

  unfoldable pub wait_loop : ℕ → VclReactor → V.Notify → ℕ → M (Unit {0})
  wait_loop zero r n deadline = out_of_fuel
  wait_loop (suc k) r n deadline = do
    woken ← await (V.select n deadline)
    elim woken [
      | mq_failed ↦ fail io
      | notified ↦ pure tt
      | expired ↦ fail timeout
      | mq_ready ↦ (do
        drain_events k r
        advance V.clear_ready
        progress ← await (V.poll_notified n)
        when progress then pure tt else wait_loop k r n deadline)
    ]

  -- The event mask is not used by the source either.
  unfoldable pub wait_event : ℕ → VclReactor → ℕ → ℕ → M (Unit {0})
  unfolding waiter wait_loop
  wait_event k r h limit = do n ← waiter h; start ← host V.now; wait_loop k r n (start + limit)

  unfoldable pub wait_readable : ℕ → VclReactor → ℕ → ℕ → M (Unit {0})
  wait_readable k r h limit = wait_event k r h limit

  unfoldable pub wait_writable : ℕ → VclReactor → ℕ → ℕ → M (Unit {0})
  wait_writable k r h limit = wait_event k r h limit

  -- `for notify in inner.waiters.values()`
  unfoldable pub notify_all : List (ℕ × V.Notify) → M (Unit {0})
  notify_all [] = pure tt
  notify_all ((h, n) ∷ ws) = do advance (V.notify_one n); notify_all ws

  abbrev pub has_stalled : TickTimes → ℕ → Bool
  has_stalled times now = leb (millis 500) (now - times.prev_tick)

  -- A round of the periodic task from its look at the clock on, when both of its weak references are
  -- still good: what it logs, and the times that the next round compares with. `duration_since` stops
  -- at 0.
  unfoldable pub forced : ℕ → VclReactor → TickTimes → ℕ → M (TickTimes × TickLog)
  unfolding notify_all
  forced k r times now = do
    drain_events k r
    ws ← gets (λ s. s.waiters)
    notify_all ws
    later ← host V.now
    let alive = leb (secs 60) (later - times.last_alive)
    pure (
      record { prev_tick = now; last_alive = if alive then later else times.last_alive },
      record { stalled = has_stalled times now; alive = alive; waiters_n = length ws },
    )

  -- Such a round.
  unfoldable pub tick : ℕ → VclReactor → TickTimes → M (TickTimes × TickLog)
  unfolding forced
  tick k r times = do now ← host V.now; forced k r times now

  -- The rounds of the task, with their logs, to the first that finds the reactor gone.
  unfoldable pub periodic : ℕ → VclReactor → TickTimes → M (List TickLog)
  unfolding forced
  periodic zero r times = out_of_fuel
  periodic (suc k) r times = do
    await (λ w ws. let (v, vs) = V.interval_tick w ws in (tt, v, vs))
    now ← host V.now
    upgraded ← host V.upgrade
    when upgraded
        then (do (next, log) ← forced k r times now; logs ← periodic k r next; pure (log ∷ logs))
        else pure (record { stalled = has_stalled times now; alive = false; waiters_n = 0 } ∷ [])

  -- What `VclReactor::new` spawns.
  unfoldable pub spawned : ℕ → VclReactor → M (List TickLog)
  unfolding periodic
  spawned k r = do
    start ← host V.now
    periodic k r (record { prev_tick = start; last_alive = start })
