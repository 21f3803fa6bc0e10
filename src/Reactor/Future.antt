-- ===== src/Reactor/Future.antt =====
-- src/reactor.rs, the future of `wait_event` between two polls. `tokio::select!` and the time-out of
-- 0 ms are its two suspension points, each of which has a `notified()` of its own. The poll takes fuel,
-- one unit a state that it enters.
pub mod Results
pub mod Apart
pub mod Executor
use vcl_rs.Base.{ℕ, zero, suc, ◌+◌, true, false, Option, none, some}
use vcl_rs.Error.{io, timeout}
use vcl_rs.Ffi.{Vcl, mq_ready, mq_failed, notified, expired}
use vcl_rs.Machine.{M, Result, ok, err, pure, out_of_fuel, ◌>>=◌, ◌>>◌, host, advance}
use vcl_rs.Reactor.{VclReactor, drain_events, waiter}

module _ ⦃V : Vcl⦄ where
  pub data Wait : Type 0 where
    start : ℕ → ℕ → Wait
    selecting : V.Notify → V.Notified → ℕ → Wait
    checking : V.Notify → V.Notified → ℕ → Wait

  pub data Progress : Type 0 where
    parked : Wait → Progress
    done : Result (Unit {0}) → Progress

  unfoldable pub poll_wait : ℕ → VclReactor → Wait → M Progress
  poll_wait zero r w = out_of_fuel
  poll_wait (suc k) r (start h limit) = do
    n ← waiter h
    now ← host V.now
    f ← host (V.new_notified n)
    poll_wait k r (selecting n f (now + limit))
  poll_wait (suc k) r (selecting n f deadline) = do
    woken ← host (V.poll_select f deadline)
    elim woken [
      | none ↦ pure (parked (selecting n f deadline))
      | some mq_failed ↦ pure (done (err io))
      | some notified ↦ pure (done (ok tt))
      | some expired ↦ pure (done (err timeout))
      | some mq_ready ↦ (do
        drain_events k r
        advance V.clear_ready
        check ← host (V.new_notified n)
        poll_wait k r (checking n check deadline))
    ]
  poll_wait (suc k) r (checking n f deadline) = do
    progress ← host (V.poll_check f)
    elim progress [
      | none ↦ pure (parked (checking n f deadline))
      | some true ↦ pure (done (ok tt))
      | some false ↦ (do
        again ← host (V.new_notified n)
        poll_wait k r (selecting n again deadline))
    ]
