-- ===== src/Reactor/Periodic.antt =====
-- The task that `VclReactor::new` of src/reactor.rs spawns.
use vcl_rs.Base.{
  Option, none, some, ℕ, zero, suc, ◌+◌, ◌-◌, ◌≤◌, ◌<◌, ◌≡◌, refl, true, false, List, [], ◌∷◌, ◌++◌,
  ℤ, pos, negsuc, length, All, ap, arith,
}
use vcl_rs.Error.{VclError}
use vcl_rs.Ffi.{Vcl, EpollEvent}
use vcl_rs.Machine.{Event, epoll_wait, State, M, Exit, returned, running, ok, err, await, gets}
use vcl_rs.Machine.Hoare.{
  After, Hoare, Hoare-bind, Hoare-pure, Hoare-out_of_fuel, Hoare-when, Hoare-host, Hoare-advance,
  Hoare-call_out, Hoare-weaken, Hoare-fact,
}
use vcl_rs.Reactor.{
  VclReactor, TickTimes, TickLog, wake, wake_each, drained, drain_events, notify_all, forced,
  periodic, spawned,
}
use vcl_rs.Reactor.Backlog.{Backlog, drain_events-ends}
use vcl_rs.Reactor.Keeps.{Waiters, Within, DrainKeeps}

module _ ⦃V : Vcl⦄ where
  -- After so many ticks of the interval the last reference to the reactor is dropped.
  pub record Lifetime : Type 0 where
    pub left : V.World → ℕ
    pub passes : (w : V.World) (ws : Waiters) → left (V.interval_tick w ws).0 ≤ left w - 1
    pub gone : (w : V.World) → left w ≡ 0 → (V.upgrade w).0 ≡ false
    pub upgrade_keeps : (w : V.World) → left (V.upgrade w).1 ≤ left w
    pub now_keeps : (w : V.World) → left (V.now w).1 ≤ left w
    pub notify_keeps : (n : V.Notify) (w : V.World) → left (V.notify_one n w) ≤ left w
    pub epoll_keeps : (vep n ms : ℕ) (w : V.World) → left (V.epoll_wait vep n ms w).2 ≤ left w

  abbrev Never : VclError → State → Type 0
  Never e s = false ≡ true

  module _ (r : VclReactor) (B : Backlog r.vep) (L : Lifetime) where
    abbrev Left : ℕ → V.World → Waiters → Type 0
    Left c w ws = L.left w ≤ c

    Left-DrainKeeps : (c : ℕ) → DrainKeeps (Left c)
    Left-DrainKeeps c = record {
      notify = λ n w ws p. omega (arith, L.notify_keeps n w);
      epoll = λ vep n ms w ws p. omega (arith, L.epoll_keeps vep n ms w);
    }

    notify_all-Left :
        (c : ℕ) (ws : Waiters)
        → Hoare (Within (Left c)) (notify_all ws) (λ _. Within (Left c)) Never (false ≡ true)
    unfolding notify_all
    notify_all-Left c [] = Hoare-pure _ (λ s p. p)
    notify_all-Left c ((j, m) ∷ ws) =
        Hoare-bind _ _ (λ _. Within (Left c)) _
          (Hoare-advance _ (λ s p. omega (arith, L.notify_keeps m s.world)))
          (λ _. notify_all-Left c ws)

    forced-Left :
        (c k : ℕ) (times : TickTimes) (now : ℕ)
        → B.capacity < k
        → Hoare (Within (Left c)) (forced k r times now) (λ _. Within (Left c)) Never (false ≡ true)
    unfolding forced gets
    forced-Left c k times now lt =
        Hoare-bind _ _ _ _ (drain_events-ends _ r B (Left c) (Left-DrainKeeps c) k lt) λ _.
          Hoare-bind _ _ (λ ws. Within (Left c)) _ (record { at = λ s p. p })
            λ ws. Hoare-bind _ _ _ _ (notify_all-Left c ws) λ _.
              Hoare-bind _ _ (λ _. Within (Left c)) _
                (Hoare-host _ (λ s p. omega (arith, L.now_keeps s.world)))
                λ later. Hoare-pure _ (λ s p. p)

    abbrev Short : ℕ → List TickLog → State → Type 0
    Short b logs s = length logs ≤ b + 1

    upgraded-Left :
        (b : ℕ) (s : State)
        → Within (Left b) s
        → ((V.upgrade s.world).0 ≡ true → 0 < b) × (L.left (V.upgrade s.world).1 ≤ b)
    upgraded-Left zero s p =
        let e = L.gone s.world (omega (arith, p)) in
        (λ t. ground arith, omega (arith, L.upgrade_keeps s.world, p))
    upgraded-Left (suc b) s p = (λ t. omega arith, omega (arith, L.upgrade_keeps s.world, p))

    periodic-Short :
        (k b : ℕ) (times : TickTimes)
        → b + B.capacity < k
        → Hoare (Within (Left b)) (periodic k r times) (Short b) Never (false ≡ true)
    unfolding periodic await
    periodic-Short zero b times lt = ground arith
    periodic-Short (suc k) b times lt =
        Hoare-bind _ _ (λ _. Within (Left (b - 1))) _
          (record { at = λ s p. omega (arith, L.passes s.world s.waiters) })
          λ _.
            Hoare-bind _ _ (λ _. Within (Left (b - 1))) _
              (Hoare-host _ (λ s p. omega (arith, L.now_keeps s.world)))
              λ now.
                Hoare-bind _ _ (λ up s. (up ≡ true → 0 < b - 1) × (L.left s.world ≤ b - 1)) _
                  (Hoare-host _ (λ s p. upgraded-Left (b - 1) s p))
                  λ up.
                    Hoare-when up
                      (λ there.
                        Hoare-weaken (λ s. (0 < b - 1) × Within (Left (b - 1)) s)
                          (λ s (more, p). (more there, p))
                          (Hoare-fact (λ more.
                            Hoare-bind _ _ (λ _. Within (Left (b - 1))) _
                              (forced-Left (b - 1) k times now (omega arith))
                              λ (next, log).
                                Hoare-bind _ _ (Short (b - 1)) _
                                  (periodic-Short k (b - 1) next (omega arith))
                                  λ logs. Hoare-pure _ (λ s p. omega arith))))
                      (λ gone. Hoare-pure _ (λ s p. omega arith))

  -- What looks at the events of the reactor's set without waiting for one.
  abbrev pub IsPoll : VclReactor → Event → Type 0
  IsPoll r e = e.call ≡ epoll_wait r.vep 64 0

  -- Since `base`, no call but such.
  abbrev pub OnlyPolls : VclReactor → List Event → List Event → Type 0
  OnlyPolls r base trace = (polls : List Event) × (trace ≡ polls ++ base) × All (IsPoll r) polls

  module _ (r : VclReactor) (base : List Event) where
    abbrev Polling : State → Type 0
    Polling s = OnlyPolls r base s.trace

    abbrev Errors : VclError → State → Type 0
    Errors e s = Unit {0}

    polled :
        (trace : List Event) (rc : ℤ)
        → OnlyPolls r base trace
        → OnlyPolls r base (record { call = epoll_wait r.vep 64 0; rc = rc } ∷ trace)
    polled trace rc (polls, e, all) =
        let e' : Event = record { call = epoll_wait r.vep 64 0; rc = rc } in
        (e' ∷ polls, ap (λ es. e' ∷ es) e, (refl, all))

    wake-Polling : (o : Option V.Notify) → Hoare Polling (wake o) (λ _. Polling) Errors (Unit {0})
    wake-Polling none = Hoare-pure _ (λ s p. p)
    wake-Polling (some n) = Hoare-advance _ (λ s p. p)

    wake_each-Polling :
        (es : List EpollEvent) → Hoare Polling (wake_each es) (λ _. Polling) Errors (Unit {0})
    unfolding wake_each gets
    wake_each-Polling [] = Hoare-pure _ (λ s p. p)
    wake_each-Polling (e ∷ es) =
        Hoare-bind _ _ (λ ws. Polling) _ (record { at = λ s p. p })
          λ ws. Hoare-bind _ _ _ _ (wake-Polling _) λ _. wake_each-Polling es

    drained-Polling :
        (again : M (Unit {0})) (es : List EpollEvent) (rc : ℤ)
        → Hoare Polling again (λ _. Polling) Errors (Unit {0})
        → Hoare Polling (drained again es rc) (λ _. Polling) Errors (Unit {0})
    unfolding drained
    drained-Polling again es (negsuc n) k = Hoare-pure _ (λ s p. p)
    drained-Polling again es (pos zero) k = Hoare-pure _ (λ s p. p)
    drained-Polling again es (pos (suc m)) k =
        Hoare-bind _ _ _ _ (wake_each-Polling _)
          λ _. Hoare-when _ (λ few. Hoare-pure _ (λ s p. p)) (λ full. k)

    drain_events-Polling :
        (k : ℕ) → Hoare Polling (drain_events k r) (λ _. Polling) Errors (Unit {0})
    unfolding drain_events
    drain_events-Polling zero = Hoare-out_of_fuel (λ s p. tt)
    drain_events-Polling (suc k) =
        Hoare-bind _ _ (λ _. Polling) _ (Hoare-call_out _ _ (λ s p. polled s.trace _ p))
          λ (rc, es). drained-Polling _ es rc (drain_events-Polling k)

    notify_all-Polling :
        (ws : Waiters) → Hoare Polling (notify_all ws) (λ _. Polling) Errors (Unit {0})
    unfolding notify_all
    notify_all-Polling [] = Hoare-pure _ (λ s p. p)
    notify_all-Polling ((j, m) ∷ ws) =
        Hoare-bind _ _ (λ _. Polling) _ (Hoare-advance _ (λ s p. p)) (λ _. notify_all-Polling ws)

    forced-Polling :
        (k : ℕ) (times : TickTimes) (now : ℕ)
        → Hoare Polling (forced k r times now) (λ _. Polling) Errors (Unit {0})
    unfolding forced gets
    forced-Polling k times now = Hoare-bind _ _ _ _ (drain_events-Polling k) λ _.
        Hoare-bind _ _ (λ ws. Polling) _ (record { at = λ s p. p })
          λ ws. Hoare-bind _ _ _ _ (notify_all-Polling ws) λ _.
            Hoare-bind _ _ (λ _. Polling) _ (Hoare-host _ (λ s p. p))
              λ later. Hoare-pure _ (λ s p. p)

    periodic-Polling :
        (k : ℕ) (times : TickTimes)
        → Hoare Polling (periodic k r times) (λ _. Polling) Errors (Unit {0})
    unfolding periodic await
    periodic-Polling zero times = Hoare-out_of_fuel (λ s p. tt)
    periodic-Polling (suc k) times =
        Hoare-bind _ _ (λ _. Polling) _ (record { at = λ s p. p })
          λ _.
            Hoare-bind _ _ (λ _. Polling) _ (Hoare-host _ (λ s p. p))
              λ now.
                Hoare-bind _ _ (λ _. Polling) _ (Hoare-host _ (λ s p. p))
                  λ up.
                    Hoare-when up
                      (λ there. Hoare-bind _ _ _ _ (forced-Polling k times now) λ (next, log).
                        Hoare-bind _ _ (λ _. Polling) _ (periodic-Polling k next)
                          λ logs. Hoare-pure _ (λ s p. p))
                      (λ gone. Hoare-pure _ (λ s p. p))

  both :
      {A : Type 0} (P Q : A → State → Type 0) (x : Exit A) (t : State)
      → After P Never (false ≡ true) x t
      → After Q (λ e s. Unit {0}) (Unit {0}) x t
      → (a : A) × (x ≡ returned (ok a)) × P a t × Q a t
  both P Q (returned (ok a)) t p q = (a, refl, p, q)
  both P Q (returned (err e)) t p q = ground arith
  both P Q running t p q = ground arith

  -- The periodic task ends by itself: if the last reference to the reactor is dropped after some
  -- number of ticks, the task returns after at most one more round, given a round for each of those
  -- ticks, one for each event of the queue's capacity and one more. All that it has called is
  -- `epoll_wait` on the reactor's set with a time-out of 0 ms, so that it never blocks its thread.
  pub spawned-stops :
      (k : ℕ) (r : VclReactor) (B : Backlog r.vep) (L : Lifetime) (s : State)
      → L.left s.world + B.capacity < k
      → let run = spawned k r s in
        (logs : List TickLog) × (run.0 ≡ returned (ok logs))
        × (length logs ≤ L.left s.world + 1)
        × OnlyPolls r s.trace run.1.trace
  unfolding spawned
  spawned-stops k r B L s lt =
      let b = L.left s.world in
      let run = spawned k r s in
      both (Short r B L b) (λ _ t. OnlyPolls r s.trace t.trace) run.0 run.1
        ((Hoare-bind _ _ {P = Within (Left r B L b)} (λ _. Within (Left r B L b)) _
            (Hoare-host _ (λ s p. omega (arith, L.now_keeps s.world)))
            (λ start. periodic-Short r B L k b _ lt)).at
          s (omega arith))
        ((Hoare-bind _ _ {P = λ t. OnlyPolls r s.trace t.trace} (λ _ t. OnlyPolls r s.trace t.trace)
            _ (Hoare-host _ (λ t p. p)) (λ start. periodic-Polling r s.trace k _)).at
          s ([], refl, tt))
