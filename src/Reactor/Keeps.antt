-- ===== src/Reactor/Keeps.antt =====
-- Statements about the world and the waiters that the drain and the waits of the reactor keep.
use vcl_rs.Base.{
  ℕ, zero, suc, ◌≡◌, ◌⊎◌, inl, inr, refl, subst, Option, none, some, List, [], ◌∷◌, ℤ, pos, negsuc,
}
use vcl_rs.Error.{VclError, io, timeout}
use vcl_rs.Ffi.{Vcl, EpollEvent, mq_ready, mq_failed, notified, expired}
use vcl_rs.Machine.{State, M, await, gets, set_waiters}
use vcl_rs.Machine.Hoare.{
  Hoare, Hoare-bind, Hoare-pure, Hoare-fail, Hoare-out_of_fuel, Hoare-when, Hoare-call_out,
  Hoare-host, Hoare-advance, Hoare-mono, Anything, Always,
}
use vcl_rs.Reactor.{
  VclReactor, wake, wake_each, drained, drain_events, entry, waiter, wait_loop, wait_event,
  wait_readable, wait_writable,
}
use vcl_rs.Reactor.Waiters.{insert_new}

module _ ⦃V : Vcl⦄ where
  abbrev pub Waiters : Type 0
  Waiters = List (ℕ × V.Notify)

  -- A statement about the world and the waiters, of a state.
  abbrev pub Within : (V.World → Waiters → Type 0) → State → Type 0
  Within P s = P s.world s.waiters

  -- What `P` must bear for the drain to keep it.
  pub record DrainKeeps (P : V.World → Waiters → Type 0) : Type 0 where
    pub notify : (n : V.Notify) (w : V.World) (ws : Waiters) → P w ws → P (V.notify_one n w) ws
    pub epoll :
        (vep n ms : ℕ) (w : V.World) (ws : Waiters) → P w ws → P (V.epoll_wait vep n ms w).2 ws

  -- And for a wait, in which other tasks run.
  pub record WaitKeeps (P : V.World → Waiters → Type 0) : Type 0 where
    pub drain : DrainKeeps P
    pub clear : (w : V.World) (ws : Waiters) → P w ws → P (V.clear_ready w) ws
    pub now : (w : V.World) (ws : Waiters) → P w ws → P (V.now w).1 ws
    pub new_notify : (w : V.World) (ws : Waiters) → P w ws → P (V.new_notify w).1 ws
    pub insert :
        (h : ℕ) (n : V.Notify) (w : V.World) (ws : Waiters) → P w ws → P w (insert_new h n ws)
    pub select :
        (n : V.Notify) (deadline : ℕ) (w : V.World) (ws : Waiters)
        → P w ws
        → P (V.select n deadline w ws).1 (V.select n deadline w ws).2
    pub notified_poll :
        (n : V.Notify) (w : V.World) (ws : Waiters)
        → P w ws
        → P (V.poll_notified n w ws).1 (V.poll_notified n w ws).2

  module _ (P : V.World → Waiters → Type 0) (E : VclError → State → Type 0) where
    pub gets-Within :
        {A : Type 0} (R : Type 0) (f : State → A) → Hoare (Within P) (gets f) (λ _. Within P) E R
    unfolding gets
    gets-Within R f = record { at = λ s p. p }

    module _
        (notify : (n : V.Notify) (w : V.World) (ws : Waiters)
          → P w ws
          → P (V.notify_one n w) ws) where
      wake-Within :
          (R : Type 0) (o : Option V.Notify) → Hoare (Within P) (wake o) (λ _. Within P) E R
      wake-Within R none = Hoare-pure _ (λ s p. p)
      wake-Within R (some n) = Hoare-advance _ (λ s p. notify n s.world s.waiters p)

      pub wake_each-Within :
          (R : Type 0) (es : List EpollEvent) → Hoare (Within P) (wake_each es) (λ _. Within P) E R
      unfolding wake_each
      wake_each-Within R [] = Hoare-pure _ (λ s p. p)
      wake_each-Within R (e ∷ es) =
          Hoare-bind _ _ _ _ (gets-Within R _)
            λ ws. Hoare-bind _ _ _ _ (wake-Within R _) λ _. wake_each-Within R es

    module _ (K : DrainKeeps P) where
      drained-Within :
          (again : M (Unit {0})) (es : List EpollEvent) (rc : ℤ)
          → Hoare (Within P) again (λ _. Within P) E (Unit {0})
          → Hoare (Within P) (drained again es rc) (λ _. Within P) E (Unit {0})
      unfolding drained
      drained-Within again es (negsuc n) k = Hoare-pure _ (λ s p. p)
      drained-Within again es (pos zero) k = Hoare-pure _ (λ s p. p)
      drained-Within again es (pos (suc m)) k =
          Hoare-bind _ _ _ _ (wake_each-Within K.notify _ _)
            λ _. Hoare-when _ (λ few. Hoare-pure _ (λ s p. p)) (λ full. k)

      pub drain_events-Within :
          (k : ℕ) (r : VclReactor)
          → Hoare (Within P) (drain_events k r) (λ _. Within P) E (Unit {0})
      unfolding drain_events
      drain_events-Within zero r = Hoare-out_of_fuel (λ s p. tt)
      drain_events-Within (suc k) r =
          Hoare-bind _ _ (λ _. Within P) _
            (Hoare-call_out _ _ (λ s p. K.epoll r.vep 64 0 s.world s.waiters p))
            λ (rc, es). drained-Within _ es rc (drain_events-Within k r)

  module _ (P : V.World → Waiters → Type 0) (K : WaitKeeps P) where
    entry-Within :
        (E : VclError → State → Type 0) (h : ℕ) (ws : Waiters) (o : Option V.Notify)
        → Hoare (λ s. Within P s × (s.waiters ≡ ws)) (entry h ws o) (λ _. Within P) E (Unit {0})
    unfolding set_waiters
    entry-Within E h ws (some n) = Hoare-pure _ (λ s (p, e). p)
    entry-Within E h ws none =
        Hoare-bind _ _ (λ n s. Within P s × (s.waiters ≡ ws)) _
          (Hoare-host _ (λ s (p, e). (K.new_notify s.world s.waiters p, e)))
          λ n.
            Hoare-bind _ _ (λ _. Within P) _
              (record {
                at = λ s (p, e).
                    subst (λ x. P s.world (insert_new h n x)) e (K.insert h n s.world s.waiters p);
              })
              (λ _. Hoare-pure _ (λ s p. p))

    waiter-Within :
        (E : VclError → State → Type 0) (h : ℕ)
        → Hoare (Within P) (waiter h) (λ _. Within P) E (Unit {0})
    unfolding waiter gets
    waiter-Within E h =
        Hoare-bind _ _ (λ ws s. Within P s × (s.waiters ≡ ws)) _ (record { at = λ s p. (p, refl) })
          (λ ws. entry-Within E h ws _)

    await-Within :
        {B : Type 0} (E : VclError → State → Type 0) (f : V.World → Waiters → B × V.World × Waiters)
        → ((w : V.World) (ws : Waiters) → P w ws → P (f w ws).1 (f w ws).2)
        → Hoare (Within P) (await f) (λ _. Within P) E (Unit {0})
    unfolding await
    await-Within E f h = record { at = λ s p. h s.world s.waiters p }

    -- A wait fails in two ways, and keeps `P` in these too.
    abbrev pub FailsWithin : VclError → State → Type 0
    FailsWithin e s = ((e ≡ io) ⊎ (e ≡ timeout)) × Within P s

    pub wait_loop-Within :
        (k : ℕ) (r : VclReactor) (n : V.Notify) (deadline : ℕ)
        → Hoare (Within P) (wait_loop k r n deadline) (λ _. Within P) FailsWithin (Unit {0})
    unfolding wait_loop
    wait_loop-Within zero r n deadline = Hoare-out_of_fuel (λ s p. tt)
    wait_loop-Within (suc k) r n deadline =
        Hoare-bind _ _ _ _ (await-Within _ (V.select n deadline) (K.select n deadline)) (elim [
          | mq_failed ↦ Hoare-fail _ (λ s p. (inl refl, p))
          | notified ↦ Hoare-pure _ (λ s p. p)
          | expired ↦ Hoare-fail _ (λ s p. (inr refl, p))
          | mq_ready ↦ Hoare-bind _ _ _ _ (drain_events-Within P _ K.drain k r) (λ _.
              Hoare-bind _ _ (λ _. Within P) _
                (Hoare-advance _ (λ s p. K.clear s.world s.waiters p))
                (λ _.
                  Hoare-bind _ _ _ _ (await-Within _ (V.poll_notified n) (K.notified_poll n))
                    (λ progress.
                      Hoare-when _ (λ t. Hoare-pure _ (λ s p. p))
                        (λ f. wait_loop-Within k r n deadline))))
        ])

    wait_event-Within :
        (k : ℕ) (r : VclReactor) (h limit : ℕ)
        → Hoare (Within P) (wait_event k r h limit) (λ _. Within P) FailsWithin (Unit {0})
    unfolding wait_event
    wait_event-Within k r h limit = Hoare-bind _ _ _ _ (waiter-Within _ h) λ n.
        Hoare-bind _ _ (λ _. Within P) _ (Hoare-host _ (λ s p. K.now s.world s.waiters p))
          λ start. wait_loop-Within k r n _

    pub wait_readable-Within :
        (k : ℕ) (r : VclReactor) (h limit : ℕ)
        → Hoare (Within P) (wait_readable k r h limit) (λ _. Within P) FailsWithin (Unit {0})
    unfolding wait_readable
    wait_readable-Within k r h limit = wait_event-Within k r h limit

    pub wait_writable-Within :
        (k : ℕ) (r : VclReactor) (h limit : ℕ)
        → Hoare (Within P) (wait_writable k r h limit) (λ _. Within P) FailsWithin (Unit {0})
    unfolding wait_writable
    wait_writable-Within k r h limit = wait_event-Within k r h limit

  abbrev Any : V.World → Waiters → Type 0
  Any w ws = Unit {0}

  Any-DrainKeeps : DrainKeeps Any
  Any-DrainKeeps = record { notify = λ n w ws p. tt; epoll = λ vep n ms w ws p. tt }

  Any-WaitKeeps : WaitKeeps Any
  Any-WaitKeeps = record {
    drain = Any-DrainKeeps;
    clear = λ w ws p. tt;
    now = λ w ws p. tt;
    new_notify = λ w ws p. tt;
    insert = λ h n w ws p. tt;
    select = λ n deadline w ws p. tt;
    notified_poll = λ n w ws p. tt;
  }

  -- The two ways in which a wait fails.
  abbrev pub WaitFails : VclError → State → Type 0
  WaitFails e s = (e ≡ io) ⊎ (e ≡ timeout)

  pub wait_readable-WaitFails :
      (k : ℕ) (r : VclReactor) (h limit : ℕ)
      → Hoare Always (wait_readable k r h limit) Anything WaitFails (Unit {0})
  wait_readable-WaitFails k r h limit =
      Hoare-mono _ _ (λ a t q. tt) (λ e t q. q.0)
        (wait_readable-Within Any Any-WaitKeeps k r h limit)

  pub waiter-Any :
      (E : VclError → State → Type 0) (h : ℕ) → Hoare Always (waiter h) Anything E (Unit {0})
  waiter-Any E h = waiter-Within Any Any-WaitKeeps E h

  pub drain_events-Any :
      (E : VclError → State → Type 0) (k : ℕ) (r : VclReactor)
      → Hoare Always (drain_events k r) Anything E (Unit {0})
  drain_events-Any E k r = drain_events-Within Any E Any-DrainKeeps k r
