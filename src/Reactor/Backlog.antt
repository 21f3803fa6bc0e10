-- ===== src/Reactor/Backlog.antt =====
-- src/reactor.rs, the end of the loop of `drain_events_with_inner`.
use vcl_rs.Base.{ℕ, zero, suc, ◌+◌, ◌≤◌, ◌<◌, ◌≡◌, refl, true, false, List, ℤ, pos, negsuc, arith}
use vcl_rs.Error.{VclError}
use vcl_rs.Ffi.{Vcl, EpollEvent}
use vcl_rs.Machine.{State, M}
use vcl_rs.Machine.Hoare.{Hoare, Hoare-bind, Hoare-pure, Hoare-when, Hoare-call_out, Hoare-weaken}
use vcl_rs.Reactor.{VclReactor, drained, drain_events}
use vcl_rs.Reactor.Keeps.{Waiters, Within, DrainKeeps, wake_each-Within}

module _ ⦃V : Vcl⦄ where
  -- The queue of events behind an epoll set has a capacity; `epoll_wait` takes the events that it
  -- reports out of it. No other event is put in during one drain.
  pub record Backlog (vep : ℕ) : Type 0 where
    pub capacity : ℕ
    pub left : V.World → ℕ
    pub bounded : (w : V.World) → left w ≤ capacity
    pub takes :
        (n : ℕ) (w : V.World)
        → (V.epoll_wait vep 64 0 w).0 ≡ pos n
        → left (V.epoll_wait vep 64 0 w).2 + n ≤ left w
    pub notify_adds_none : (n : V.Notify) (w : V.World) → left (V.notify_one n w) ≤ left w

  module _ (E : VclError → State → Type 0) (r : VclReactor) (B : Backlog r.vep)
      (P : V.World → Waiters → Type 0) (K : DrainKeeps P) where
    abbrev AtMost : ℕ → V.World → Waiters → Type 0
    AtMost b w ws = P w ws × (B.left w ≤ b)

    -- After an `epoll_wait`, with its code.
    abbrev Taken : ℕ → ℤ → State → Type 0
    Taken b rc s = Within P s × ((n : ℕ) → rc ≡ pos n → B.left s.world + n ≤ b)

    AtMost-again :
        (b m : ℕ) (again : M (Unit {0}))
        → ((c : ℕ) → c < b → Hoare (Within (AtMost c)) again (λ _. Within P) E (false ≡ true))
        → Hoare
            (Within (λ w ws. P w ws × (B.left w + suc m ≤ b)))
            again
            (λ _. Within P)
            E
            (false ≡ true)
    AtMost-again zero m again more = record { at = λ s (p, le). absurd (omega (arith, le)) }
    AtMost-again (suc c) m again more =
        Hoare-weaken (Within (AtMost c)) (λ s (p, le). (p, omega (arith, le)))
          (more c (omega arith))

    AtMost-drained :
        (b : ℕ) (again : M (Unit {0})) (es : List EpollEvent) (rc : ℤ)
        → ((c : ℕ) → c < b → Hoare (Within (AtMost c)) again (λ _. Within P) E (false ≡ true))
        → Hoare (Taken b rc) (drained again es rc) (λ _. Within P) E (false ≡ true)
    unfolding drained
    AtMost-drained b again es (negsuc n) more = Hoare-pure _ (λ s p. p.0)
    AtMost-drained b again es (pos zero) more = Hoare-pure _ (λ s p. p.0)
    AtMost-drained b again es (pos (suc m)) more =
        Hoare-bind _ _ (λ _. Within (λ w ws. P w ws × (B.left w + suc m ≤ b))) _
          (Hoare-weaken _ (λ s (p, t). (p, t (suc m) refl))
            (wake_each-Within _ E
              (λ n w ws (p, le). (K.notify n w ws p, omega (arith, le, B.notify_adds_none n w))) _
              _))
          λ _. Hoare-when _ (λ few. Hoare-pure _ (λ s p. p.0)) (λ full. AtMost-again b m again more)

    -- Each round takes at least one event out, so that one round more than there are events will do.
    drain_events-AtMost :
        (k b : ℕ)
        → b < k
        → Hoare (Within (AtMost b)) (drain_events k r) (λ _. Within P) E (false ≡ true)
    unfolding drain_events
    drain_events-AtMost zero b lt = ground arith
    drain_events-AtMost (suc k) b lt =
        Hoare-bind _ _ (λ (rc, es). Taken b rc) _
          (Hoare-call_out _ _ (λ s (p, le). (
            K.epoll r.vep 64 0 s.world s.waiters p,
            λ n e. omega (arith, le, B.takes n s.world e),
          )))
          λ (rc, es). AtMost-drained b _ es rc (λ c less. drain_events-AtMost k c (omega arith))

    -- The drain returns if it is given one round for each event of the capacity and one more.
    pub drain_events-ends :
        (k : ℕ)
        → B.capacity < k
        → Hoare (Within P) (drain_events k r) (λ _. Within P) E (false ≡ true)
    drain_events-ends k lt =
        Hoare-weaken (Within (AtMost B.capacity)) (λ s p. (p, B.bounded s.world))
          (drain_events-AtMost k B.capacity lt)
