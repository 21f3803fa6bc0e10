-- ===== src/Reactor/Ticked.antt =====
-- The waits of src/reactor.rs on a session of which libvppcom reports nothing, while the periodic
-- task ticks.
use vcl_rs.Base.{
  ℕ, zero, suc, ◌+◌, ◌≤◌, ◌<◌, ◌≡◌, ◌≢◌, refl, ap, subst, true, Option, none, some, [], ==_refl,
  arith,
}
use vcl_rs.Error.{VclError}
use vcl_rs.Ffi.{Vcl, Wake, mq_ready, mq_failed, notified, expired}
use vcl_rs.Machine.{State, gets, set_waiters, await}
use vcl_rs.Machine.Hoare.{Hoare, Hoare-bind, Hoare-pure, Hoare-out_of_fuel, Hoare-host, Always}
use vcl_rs.Reactor.{VclReactor, TickTimes, tick, entry, waiter, wait_loop, wait_event}
use vcl_rs.Reactor.Waiters.{find}
use vcl_rs.Reactor.Waiters.Laws.{find-insert_new}
use vcl_rs.Reactor.Backlog.{Backlog}
use vcl_rs.Reactor.Keeps.{Waiters}
use vcl_rs.Reactor.Permits.{Permits}
use vcl_rs.Reactor.Liveness.{tick-tells}
use vcl_rs.Reactor.Future.Executor.{Awaited, ready, later, Executor}

module _ ⦃V : Vcl⦄ where
  -- What a tick does to the world and the waiters.
  abbrev pub ticked : ℕ → VclReactor → TickTimes → V.World → Waiters → V.World × Waiters
  ticked k r times w ws =
      let t =
        (tick k r times (record {
          world = w;
          waiters = ws;
          registered = true;
          initialized = true;
          trace = [];
        })).1 in
      (t.world, t.waiters)

  -- What runs while a wait is pending: some other tasks, and then a tick.
  pub record Ticker : Type 0 where
    pub rounds : ℕ
    pub reactor : VclReactor
    pub times : TickTimes
    pub others : V.World → Waiters → V.World × Waiters

  abbrev pub meanwhile : Ticker → V.World → Waiters → V.World × Waiters
  meanwhile T w ws = let (v, vs) = T.others w ws in ticked T.rounds T.reactor T.times v vs

  -- `Notify` keeps its permits, and no two waits are on the same one; the other tasks take no entry
  -- out of the map; a tick comes less than `soon` after a poll; no event arrives; and a deadline does
  -- not pass before its time.
  pub record Unanswered (T : Ticker) (soon : ℕ) : Type 0 where
    pub permits : Permits
    pub alone :
        (n : V.Notify) (w : V.World)
        → permits.is_only n (V.new_notified n w).0 (V.new_notified n w).1 ≡ true
    pub stays_alone :
        (n : V.Notify) (f : V.Notified) (deadline : ℕ) (w : V.World) (ws : Waiters)
        → permits.is_only n f w ≡ true
        → permits.is_only n f (T.others (V.poll_select f deadline w).1 ws).0 ≡ true
    pub backlog : Backlog T.reactor.vep
    pub enough : backlog.capacity < T.rounds
    pub others_keep :
        (h : ℕ) (n : V.Notify) (w : V.World) (ws : Waiters)
        → find h ws ≡ some n
        → find h (T.others w ws).1 ≡ some n
    pub clock : V.World → ℕ
    pub now_reads : (w : V.World) → clock (V.now w).1 ≤ (V.now w).0
    pub made_now : (n : V.Notify) (w : V.World) → clock (V.new_notified n w).1 ≤ clock w
    pub expires :
        (f : V.Notified) (deadline : ℕ) (w : V.World)
        → (V.poll_select f deadline w).0 ≡ some expired
        → deadline ≤ clock w
    pub ticks_soon :
        (f : V.Notified) (deadline : ℕ) (w : V.World) (ws : Waiters)
        → clock (meanwhile T (V.poll_select f deadline w).1 ws).0 < clock w + soon
    pub no_event :
        (f : V.Notified) (deadline : ℕ) (w : V.World)
        → (V.poll_select f deadline w).0 ≢ some mq_ready
    pub no_failure :
        (f : V.Notified) (deadline : ℕ) (w : V.World)
        → (V.poll_select f deadline w).0 ≢ some mq_failed

  abbrev HasEntry : ℕ → V.Notify → State → Type 0
  HasEntry h n s = find h s.waiters ≡ some n

  module _ (T : Ticker) (soon : ℕ) (U : Unanswered T soon) where
    only_notified :
        (f : V.Notified) (deadline : ℕ) (w : V.World) (x : Wake)
        → (V.poll_select f deadline w).0 ≡ some x
        → U.clock w < deadline
        → x ≡ notified
    only_notified f deadline w mq_ready e lt = absurd (U.no_event f deadline w e)
    only_notified f deadline w mq_failed e lt = absurd (U.no_failure f deadline w e)
    only_notified f deadline w notified e lt = refl
    only_notified f deadline w expired e lt = absurd (omega (arith, U.expires f deadline w e))

    Told-notified :
        (f : V.Notified) (deadline : ℕ) {w v : V.World} {ws vs : Waiters} {x : Wake}
        → Awaited (meanwhile T) (V.poll_select f deadline) w ws x v vs
        → U.permits.is_told f w ≡ true
        → U.clock w < deadline
        → x ≡ notified
    Told-notified f deadline (ready e) p lt = only_notified f deadline _ _ (ap (λ o. o.0) e) lt
    Told-notified f deadline (later e rest) p lt =
        absurd (U.permits.select_wakes f deadline _ p (ap (λ o. o.0) e))

    meanwhile-tells :
        (n : V.Notify) (f : V.Notified) (h deadline : ℕ) (w : V.World) (ws : Waiters)
        → find h ws ≡ some n
        → U.permits.is_only n f w ≡ true
        → U.permits.is_told f (meanwhile T (V.poll_select f deadline w).1 ws).0 ≡ true
    meanwhile-tells n f h deadline w ws e only =
        tick-tells U.permits n f T.rounds h T.reactor U.backlog T.times _ U.enough
          (U.others_keep h n (V.poll_select f deadline w).1 ws e)
          (U.stays_alone n f deadline w ws only)

    Awaited-notified :
        (n : V.Notify) (f : V.Notified) (h deadline : ℕ) {w v : V.World} {ws vs : Waiters}
        {x : Wake}
        → Awaited (meanwhile T) (V.poll_select f deadline) w ws x v vs
        → find h ws ≡ some n
        → U.permits.is_only n f w ≡ true
        → U.clock w < deadline
        → U.clock w + soon ≤ deadline
        → x ≡ notified
    Awaited-notified n f h deadline (ready e) p only lt le =
        only_notified f deadline _ _ (ap (λ o. o.0) e) lt
    Awaited-notified n f h deadline {w} {ws} (later e rest) p only lt le =
        Told-notified f deadline rest
          (subst (λ o. U.permits.is_told f (meanwhile T o.1 ws).0 ≡ true) e
            (meanwhile-tells n f h deadline w ws p only))
          (subst (λ o. U.clock (meanwhile T o.1 ws).0 < deadline) e
            (omega (arith, le, U.ticks_soon f deadline w ws)))

    abbrev Waiting : ℕ → V.Notify → ℕ → State → Type 0
    Waiting h n deadline s =
        (find h s.waiters ≡ some n)
        × (U.clock s.world < deadline)
        × (U.clock s.world + soon ≤ deadline)

    module _ (X : Executor (meanwhile T)) (E : VclError → State → Type 0) (R : Type 0) where
      wait_loop-notified :
          (k : ℕ) (r : VclReactor) (h : ℕ) (n : V.Notify) (deadline : ℕ)
          → (k ≡ 0 → R)
          → Hoare (Waiting h n deadline) (wait_loop k r n deadline) (λ _. Always) E R
      unfolding wait_loop await
      wait_loop-notified zero r h n deadline out = Hoare-out_of_fuel (λ s p. out refl)
      wait_loop-notified (suc k) r h n deadline out =
          Hoare-bind _ _ (λ x s. x ≡ notified) _
            (record {
              at = λ s (p, lt, le).
                  Awaited-notified n (V.new_notified n s.world).0 h deadline
                    (X.selects n deadline s.world s.waiters) p (U.alone n s.world)
                    (omega (arith, lt, U.made_now n s.world))
                    (omega (arith, le, U.made_now n s.world));
            })
            (elim [
              | mq_failed ↦ record { at = λ s e. ground arith }
              | notified ↦ Hoare-pure _ (λ s e. tt)
              | expired ↦ record { at = λ s e. ground arith }
              | mq_ready ↦ record { at = λ s e. ground arith }
            ])

      entry-HasEntry :
          (h : ℕ) (ws : Waiters) (o : Option V.Notify)
          → find h ws ≡ o
          → Hoare (λ s. s.waiters ≡ ws) (entry h ws o) (HasEntry h) E R
      unfolding set_waiters
      entry-HasEntry h ws (some n) e = Hoare-pure _ (λ s same. rw (same, e))
      entry-HasEntry h ws none e =
          Hoare-bind _ _ (λ n. Always) _ (Hoare-host _ (λ s p. tt))
            λ n.
              Hoare-bind _ _ (λ _. HasEntry h n) _
                (record { at = λ s p. rw (find-insert_new h h n ws, ==_refl h) })
                (λ _. Hoare-pure _ (λ s p. p))

      waiter-HasEntry : (h : ℕ) → Hoare Always (waiter h) (HasEntry h) E R
      unfolding waiter gets
      waiter-HasEntry h =
          Hoare-bind _ _ (λ ws s. s.waiters ≡ ws) _ (record { at = λ s p. refl })
            (λ ws. entry-HasEntry h ws (find h ws) refl)

      -- A wait whose limit is longer than the time between two ticks returns `Ok`, although nothing has
      -- happened to its session.
      pub wait_event-notified :
          (k : ℕ) (r : VclReactor) (h limit : ℕ)
          → (k ≡ 0 → R)
          → soon < limit
          → Hoare Always (wait_event k r h limit) (λ _. Always) E R
      unfolding wait_event
      wait_event-notified k r h limit out lt = Hoare-bind _ _ _ _ (waiter-HasEntry h) λ n.
          Hoare-bind _ _ (λ now. Waiting h n (now + limit)) _
            (Hoare-host _
              (λ s p. (p, omega (arith, U.now_reads s.world), omega (arith, U.now_reads s.world))))
            λ now. wait_loop-notified k r h n (now + limit) out
