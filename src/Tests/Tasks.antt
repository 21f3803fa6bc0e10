-- ===== src/Tests/Tasks.antt =====
-- The periodic task of a reactor that is dropped, in a variant of the world of `Toy`.
use vcl_rs.Base.{ℕ, zero, suc, ◌-◌, ◌≤◌, ◌≡◌, refl, Bool, true, false, List, [], pos, length, arith}
use vcl_rs.Ffi.{Vcl}
use vcl_rs.Machine.{State, ok, returned}
use vcl_rs.Reactor.{TickLog, spawned}
use vcl_rs.Reactor.Backlog.{Backlog}
use vcl_rs.Reactor.Periodic.{Lifetime, OnlyPolls, spawned-stops}
use vcl_rs.Tests.Toy.{toy, start}

-- A reactor that is dropped after three ticks, counted by the clock.
abbrev left_of : ℕ → Bool
left_of zero = false
left_of (suc n) = true

abbrev dropped_later : Vcl
dropped_later = record toy {
  interval_tick = λ w ws. (record w { clock = w.clock - 1 }, ws);
  upgrade = λ w. (left_of w.clock, w);
  epoll_wait = λ vep n ms w. (pos 0, [], w);
}

abbrev three_left : State ⦃V = dropped_later⦄
three_left = record {
  world = record start.world { clock = 3 };
  waiters = [];
  registered = true;
  initialized = true;
  trace = [];
}

three_ticks : Lifetime ⦃V = dropped_later⦄
three_ticks = record {
  left = λ w. w.clock;
  passes = λ w ws. omega arith;
  gone = λ w e. rw e refl;
  upgrade_keeps = λ w. omega arith;
  now_keeps = λ w. omega arith;
  notify_keeps = λ n w. omega arith;
  epoll_keeps = λ vep n ms w. omega arith;
}

no_backlog : Backlog ⦃V = dropped_later⦄ 0
no_backlog = record {
  capacity = 0;
  left = λ w. 0;
  bounded = λ w. omega arith;
  takes = λ n w e. ground arith;
  notify_adds_none = λ n w. omega arith;
}

spawned-stops_example :
    let run = spawned ⦃V = dropped_later⦄ 4 (record { vep = 0 }) three_left in
    (logs : List TickLog) × (run.0 ≡ returned (ok logs))
    × (length logs ≤ 4)
    × OnlyPolls ⦃V = dropped_later⦄ (record { vep = 0 }) [] run.1.trace
unfolding three_ticks no_backlog
spawned-stops_example =
    spawned-stops ⦃V = dropped_later⦄ 4 (record { vep = 0 }) no_backlog three_ticks three_left
      (omega arith)
