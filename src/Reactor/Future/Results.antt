-- ===== src/Reactor/Future/Results.antt =====
-- What a poll of a wait can give.
use vcl_rs.Base.{ℕ, zero, suc, ◌≡◌, ◌⊎◌, inl, inr, refl, Bool, true, false, none, some}
use vcl_rs.Error.{VclError, io, timeout}
use vcl_rs.Ffi.{Vcl, mq_ready, mq_failed, notified, expired}
use vcl_rs.Machine.{State, ok, err}
use vcl_rs.Machine.Hoare.{
  Hoare, Hoare-bind, Hoare-pure, Hoare-out_of_fuel, Hoare-host, Hoare-advance, Anything, Always,
}
use vcl_rs.Reactor.{VclReactor}
use vcl_rs.Reactor.Keeps.{waiter-Any, drain_events-Any}
use vcl_rs.Reactor.Future.{Wait, start, selecting, checking, Progress, parked, done, poll_wait}

module _ ⦃V : Vcl⦄ where
  -- A wait that has been polled, so that its `Notify` and the timer know the task.
  abbrev pub has_polled : Wait → Bool
  has_polled (start h limit) = false
  has_polled (selecting n f deadline) = true
  has_polled (checking n f deadline) = true

  -- A poll parks a wait that has been polled, or ends it with success or one of two errors.
  abbrev pub Polled : Progress → State → Type 0
  Polled (parked w) s = has_polled w ≡ true
  Polled (done (ok _)) s = Unit {0}
  Polled (done (err e)) s = (e ≡ io) ⊎ (e ≡ timeout)

  pub poll_wait-Polled :
      (E : VclError → State → Type 0) (k : ℕ) (r : VclReactor) (w : Wait)
      → Hoare Always (poll_wait k r w) Polled E (Unit {0})
  unfolding poll_wait
  poll_wait-Polled E zero r w = Hoare-out_of_fuel (λ s p. tt)
  poll_wait-Polled E (suc k) r (start h limit) = Hoare-bind _ _ Anything _ (waiter-Any E h) λ n.
      Hoare-bind _ _ Anything _ (Hoare-host _ (λ s p. tt))
        λ now. Hoare-bind _ _ Anything _ (Hoare-host _ (λ s p. tt)) λ f. poll_wait-Polled E k r _
  poll_wait-Polled E (suc k) r (selecting n f deadline) =
      Hoare-bind _ _ Anything _ (Hoare-host _ (λ s p. tt)) (elim [
        | none ↦ Hoare-pure _ (λ s p. refl)
        | some mq_failed ↦ Hoare-pure _ (λ s p. inl refl)
        | some notified ↦ Hoare-pure _ (λ s p. tt)
        | some expired ↦ Hoare-pure _ (λ s p. inr refl)
        | some mq_ready ↦ Hoare-bind _ _ Anything _ (drain_events-Any E k r) (λ _.
            Hoare-bind _ _ (λ _. Always) _ (Hoare-advance _ (λ s p. tt))
              (λ _.
                Hoare-bind _ _ Anything _ (Hoare-host _ (λ s p. tt))
                  (λ f. poll_wait-Polled E k r _)))
      ])
  poll_wait-Polled E (suc k) r (checking n f deadline) =
      Hoare-bind _ _ Anything _ (Hoare-host _ (λ s p. tt)) (elim [
        | none ↦ Hoare-pure _ (λ s p. refl)
        | some true ↦ Hoare-pure _ (λ s p. tt)
        | some false ↦
            Hoare-bind _ _ Anything _ (Hoare-host _ (λ s p. tt)) (λ f. poll_wait-Polled E k r _)
      ])
