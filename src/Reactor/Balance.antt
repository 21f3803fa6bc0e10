-- ===== src/Reactor/Balance.antt =====
-- The reactor opens one epoll set, and else changes no handle.
use vcl_rs.Base.{ℕ, zero, suc, Option, none, some, List, [], ◌∷◌, ℤ, pos, negsuc}
use vcl_rs.Ffi.{Vcl, EpollEvent, mq_ready, mq_failed, notified, expired}
use vcl_rs.Machine.{M}
use vcl_rs.Machine.Balance.{Balanced, Balanced-bind, balanced_rules}
use vcl_rs.Machine.Steady.{Steady, steady_rules}
use vcl_rs.Session.Balance.{Balanced-check, session_rules}
use vcl_rs.Reactor.{
  VclReactor, register, deregister, wake, wake_each, drained, drain_events, entry, waiter,
  wait_loop, wait_event, wait_readable, wait_writable,
}
use vcl_rs.Reactor.Waiters.{find}

module _ ⦃V : Vcl⦄ where
  pub register-Balanced : (r : VclReactor) (h : ℕ) → Balanced (register r h)
  unfolding register
  register-Balanced r h = search (balanced_rules, Balanced-check)

  pub deregister-Balanced : (r : VclReactor) (h : ℕ) → Balanced (deregister r h)
  unfolding deregister
  deregister-Balanced r h = search balanced_rules

  pub deregister-Steady : (r : VclReactor) (h : ℕ) → Steady (deregister r h)
  unfolding deregister
  deregister-Steady r h = search steady_rules

  wake-Balanced : (o : Option V.Notify) → Balanced (wake o)
  wake-Balanced none = search balanced_rules
  wake-Balanced (some n) = search balanced_rules

  wake_each-Balanced : (es : List EpollEvent) → Balanced (wake_each es)
  unfolding wake_each
  wake_each-Balanced [] = search balanced_rules
  wake_each-Balanced (e ∷ es) =
      let rest = wake_each-Balanced es in
      Balanced-bind _ _ (search balanced_rules)
        λ ws. Balanced-bind _ _ (wake-Balanced (find _ ws)) λ _. rest

  drained-Balanced :
      (again : M (Unit {0})) (events : List EpollEvent) (rc : ℤ)
      → Balanced again
      → Balanced (drained again events rc)
  unfolding drained
  drained-Balanced again events (negsuc n) b = search balanced_rules
  drained-Balanced again events (pos zero) b = search balanced_rules
  drained-Balanced again events (pos (suc m)) b = search (balanced_rules, wake_each-Balanced)

  pub drain_events-Balanced : (k : ℕ) (r : VclReactor) → Balanced (drain_events k r)
  unfolding drain_events
  drain_events-Balanced zero r = search balanced_rules
  drain_events-Balanced (suc k) r =
      let again = drain_events-Balanced k r in search (balanced_rules, drained-Balanced)

  entry-Balanced :
      (h : ℕ) (ws : List (ℕ × V.Notify)) (o : Option V.Notify) → Balanced (entry h ws o)
  entry-Balanced h ws none = search balanced_rules
  entry-Balanced h ws (some n) = search balanced_rules

  waiter-Balanced : (h : ℕ) → Balanced (waiter h)
  unfolding waiter
  waiter-Balanced h =
      Balanced-bind _ _ (search balanced_rules) λ ws. entry-Balanced h ws (find h ws)

  wait_loop-Balanced :
      (k : ℕ) (r : VclReactor) (n : V.Notify) (deadline : ℕ) → Balanced (wait_loop k r n deadline)
  unfolding wait_loop
  wait_loop-Balanced zero r n deadline = search balanced_rules
  wait_loop-Balanced (suc k) r n deadline =
      let again = wait_loop-Balanced k r n deadline in
      Balanced-bind _ _ (search balanced_rules) (elim [
        | mq_ready ↦ search (balanced_rules, drain_events-Balanced) depth 7
        | mq_failed ↦ search balanced_rules
        | notified ↦ search balanced_rules
        | expired ↦ search balanced_rules
      ])

  pub wait_event-Balanced :
      (k : ℕ) (r : VclReactor) (h limit : ℕ) → Balanced (wait_event k r h limit)
  unfolding wait_event
  wait_event-Balanced k r h limit = search (balanced_rules, waiter-Balanced, wait_loop-Balanced)

  pub wait_readable-Balanced :
      (k : ℕ) (r : VclReactor) (h limit : ℕ) → Balanced (wait_readable k r h limit)
  unfolding wait_readable
  wait_readable-Balanced k r h limit = wait_event-Balanced k r h limit

  pub wait_writable-Balanced :
      (k : ℕ) (r : VclReactor) (h limit : ℕ) → Balanced (wait_writable k r h limit)
  unfolding wait_writable
  wait_writable-Balanced k r h limit = wait_event-Balanced k r h limit

pub ruleset reactor_rules = (
  session_rules, register-Balanced, deregister-Balanced, wait_readable-Balanced,
  wait_writable-Balanced,
)
