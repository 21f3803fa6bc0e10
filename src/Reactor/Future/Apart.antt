-- ===== src/Reactor/Future/Apart.antt =====
-- What the polls of a wait of src/reactor.rs leave alone.
use vcl_rs.Base.{ℕ, zero, suc, true, false, Option, none, some}
use vcl_rs.Error.{VclError}
use vcl_rs.Ffi.{Vcl, mq_ready, mq_failed, notified, expired}
use vcl_rs.Machine.{State, M, host, ◌>>=◌, gets, set_waiters}
use vcl_rs.Machine.Hoare.{
  Hoare, Hoare-bind, Hoare-pure, Hoare-out_of_fuel, Hoare-host, Hoare-advance,
}
use vcl_rs.Reactor.{VclReactor, entry, waiter}
use vcl_rs.Reactor.Waiters.{find}
use vcl_rs.Reactor.Keeps.{Waiters, DrainKeeps, drain_events-Within}
use vcl_rs.Reactor.Future.{Wait, start, selecting, checking, poll_wait}

module _ ⦃V : Vcl⦄ where
  -- The calls of a poll lead to a world that `Still` relates to the one before.
  pub record PollApart (Still : V.World → V.World → Type 0) : Type 0 where
    pub notify_still : (n : V.Notify) (w : V.World) → Still w (V.notify_one n w)
    pub epoll_still : (vep n ms : ℕ) (w : V.World) → Still w (V.epoll_wait vep n ms w).2
    pub clear_still : (w : V.World) → Still w (V.clear_ready w)
    pub now_still : (w : V.World) → Still w (V.now w).1
    pub new_notify_still : (w : V.World) → Still w (V.new_notify w).1
    pub new_notified_still : (n : V.Notify) (w : V.World) → Still w (V.new_notified n w).1
    pub select_still :
        (n : V.Notified) (deadline : ℕ) (w : V.World) → Still w (V.poll_select n deadline w).1
    pub check_still : (n : V.Notified) (w : V.World) → Still w (V.poll_check n w).1

  module _ (Still : V.World → V.World → Type 0) (A : PollApart Still) (P : V.World → Type 0)
      (keeps : (w v : V.World) → P w → Still w v → P v) (E : VclError → State → Type 0) where
    abbrev OfWorld : State → Type 0
    OfWorld s = P s.world

    OfWorld-DrainKeeps : DrainKeeps (λ w ws. P w)
    OfWorld-DrainKeeps = record {
      notify = λ n w ws p. keeps w _ p (A.notify_still n w);
      epoll = λ vep n ms w ws p. keeps w _ p (A.epoll_still vep n ms w);
    }

    entry-OfWorld :
        (h : ℕ) (ws : Waiters) (o : Option V.Notify)
        → Hoare OfWorld (entry h ws o) (λ _. OfWorld) E (Unit {0})
    unfolding set_waiters
    entry-OfWorld h ws (some n) = Hoare-pure _ (λ s p. p)
    entry-OfWorld h ws none =
        Hoare-bind _ _ (λ _. OfWorld) _
          (Hoare-host _ (λ s p. keeps s.world _ p (A.new_notify_still s.world)))
          λ n.
            Hoare-bind _ _ (λ _. OfWorld) _ (record { at = λ s p. p })
              (λ _. Hoare-pure _ (λ s p. p))

    waiter-OfWorld : (h : ℕ) → Hoare OfWorld (waiter h) (λ _. OfWorld) E (Unit {0})
    unfolding waiter gets
    waiter-OfWorld h =
        Hoare-bind _ _ (λ _. OfWorld) _ (record { at = λ s p. p })
          (λ ws. entry-OfWorld h ws (find h ws))

    notified-keeps :
        {B : Type 0} {m : V.Notified → M B} (n : V.Notify)
        → ((f : V.Notified) → Hoare OfWorld (m f) (λ _. OfWorld) E (Unit {0}))
        → Hoare OfWorld (host (V.new_notified n) >>= m) (λ _. OfWorld) E (Unit {0})
    notified-keeps n rest =
        Hoare-bind _ _ (λ _. OfWorld) _
          (Hoare-host _ (λ s p. keeps s.world _ p (A.new_notified_still n s.world))) rest

    pub poll_wait-keeps :
        (k : ℕ) (r : VclReactor) (w : Wait)
        → Hoare OfWorld (poll_wait k r w) (λ _. OfWorld) E (Unit {0})
    unfolding poll_wait
    poll_wait-keeps zero r w = Hoare-out_of_fuel (λ s p. tt)
    poll_wait-keeps (suc k) r (start h limit) = Hoare-bind _ _ _ _ (waiter-OfWorld h) λ n.
        Hoare-bind _ _ (λ _. OfWorld) _
          (Hoare-host _ (λ s p. keeps s.world _ p (A.now_still s.world)))
          λ now. notified-keeps n (λ f. poll_wait-keeps k r _)
    poll_wait-keeps (suc k) r (selecting n f deadline) =
        Hoare-bind _ _ (λ _. OfWorld) _
          (Hoare-host _ (λ s p. keeps s.world _ p (A.select_still f deadline s.world)))
          (elim [
            | none ↦ Hoare-pure _ (λ s p. p)
            | some mq_failed ↦ Hoare-pure _ (λ s p. p)
            | some notified ↦ Hoare-pure _ (λ s p. p)
            | some expired ↦ Hoare-pure _ (λ s p. p)
            | some mq_ready ↦
                Hoare-bind _ _ _ _ (drain_events-Within (λ w ws. P w) E OfWorld-DrainKeeps k r) λ _.
                  Hoare-bind _ _ (λ _. OfWorld) _
                    (Hoare-advance _ (λ s p. keeps s.world _ p (A.clear_still s.world)))
                    λ _. notified-keeps n (λ g. poll_wait-keeps k r _)
          ])
    poll_wait-keeps (suc k) r (checking n f deadline) =
        Hoare-bind _ _ (λ _. OfWorld) _
          (Hoare-host _ (λ s p. keeps s.world _ p (A.check_still f s.world)))
          (elim [
            | none ↦ Hoare-pure _ (λ s p. p)
            | some true ↦ Hoare-pure _ (λ s p. p)
            | some false ↦ notified-keeps n (λ g. poll_wait-keeps k r _)
          ])
