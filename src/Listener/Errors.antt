-- ===== src/Listener/Errors.antt =====
-- The errors of `accept`.
use vcl_rs.Base.{ℕ, zero, suc, ◌≡◌, ◌≢◌, subst, arith}
use vcl_rs.Net.{SocketAddr}
use vcl_rs.Error.{VclError, would_block, timeout}
use vcl_rs.Ffi.{Vcl}
use vcl_rs.Machine.{State, M, Exit, returned, running, ok, err, on_err, after_err}
use vcl_rs.Machine.Hoare.{
  After, Hoare, Hoare-bind, Hoare-call, Hoare-cases, Hoare-weaken, Hoare-pure, Hoare-fail,
  Hoare-out_of_fuel, Hoare-Anything, Anything, Always,
}
use vcl_rs.Session.Errors.{NoTimeout, check-NoTimeout, accept-NoTimeout, set_nonblocking-NoTimeout}
use vcl_rs.Reactor.{VclReactor, register}
use vcl_rs.Reactor.Keeps.{WaitFails, wait_readable-WaitFails}
use vcl_rs.Stream.{ignore, accepted_setup, from_accepted}
use vcl_rs.Listener.{VclListener, admit, accept}

module _ ⦃V : Vcl⦄ where
  After-after_err :
      {A : Type 0} (d : M (Unit {0})) (r : Exit A) (t : State)
      → After Anything NoTimeout (Unit {0}) r t
      → After Anything NoTimeout (Unit {0}) (after_err d r t).0 (after_err d r t).1
  After-after_err d (returned (ok a)) t h = tt
  After-after_err d (returned (err e)) t h = h
  After-after_err d running t h = tt

  on_err-NoTimeout :
      {A : Type 0} (m : M A) (d : M (Unit {0}))
      → Hoare Always m Anything NoTimeout (Unit {0})
      → Hoare Always (on_err m d) Anything NoTimeout (Unit {0})
  unfolding on_err
  on_err-NoTimeout m d km = record { at = λ s p. After-after_err d (m s).0 (m s).1 (km.at s p) }

  register-NoTimeout :
      (r : VclReactor) (h : ℕ) → Hoare Always (register r h) Anything NoTimeout (Unit {0})
  unfolding register
  register-NoTimeout r h =
      Hoare-bind _ _ Anything _ (Hoare-call _ _ (λ s p. tt))
        λ rc. Hoare-bind _ _ Anything _ (check-NoTimeout rc) λ n. Hoare-pure _ (λ s p. tt)

  ignore-NoTimeout : {A : Type 0} (m : M A) → Hoare Always (ignore m) Anything NoTimeout (Unit {0})
  unfolding ignore
  ignore-NoTimeout m =
      Hoare-cases _ Anything Anything (Hoare-Anything m) λ r. Hoare-pure _ (λ s p. tt)

  from_accepted-NoTimeout :
      (h : ℕ) (r : VclReactor) → Hoare Always (from_accepted h r) Anything NoTimeout (Unit {0})
  unfolding from_accepted accepted_setup
  from_accepted-NoTimeout h r =
      Hoare-bind _ _ Anything _
        (on_err-NoTimeout _ _
          (Hoare-bind _ _ Anything _ (set_nonblocking-NoTimeout h) λ _. ignore-NoTimeout _))
        (λ _. Hoare-pure _ (λ s p. tt))

  admit-NoTimeout :
      (r : VclReactor) (client : ℕ × SocketAddr)
      → Hoare Always (admit r client) Anything NoTimeout (Unit {0})
  unfolding admit
  admit-NoTimeout r (h, peer) =
      Hoare-bind _ _ Anything _ (on_err-NoTimeout _ _ (register-NoTimeout r h))
        λ _. Hoare-bind _ _ Anything _ (from_accepted-NoTimeout h r) λ st. Hoare-pure _ (λ s p. tt)

  accept-Hoare : (k : ℕ) (l : VclListener) → Hoare Always (accept k l) Anything NoTimeout (Unit {0})
  unfolding accept
  accept-Hoare zero l = Hoare-out_of_fuel (λ s p. tt)
  accept-Hoare (suc k) l =
      let again = accept-Hoare k l in
      Hoare-cases _ _ _ (accept-NoTimeout l.handle) (elim [
        | ok client ↦ admit-NoTimeout l.reactor client
        | err would_block ↦
            Hoare-cases _ Anything WaitFails
              (Hoare-weaken Always (λ s p. tt) (wait_readable-WaitFails k l.reactor l.handle _))
              (elim [
                | ok _ ↦ again
                | err timeout ↦ Hoare-weaken Always (λ s p. tt) again
                | err e ↦ Hoare-fail _ (λ s p. ground arith)
              ])
        | err e ↦ Hoare-fail _ (λ s p. p)
      ])

  -- `accept` does not fail with a time-out, however long no connection arrives: it waits again.
  pub accept-waits :
      (k : ℕ) (l : VclListener) (e : VclError) (s t : State)
      → accept k l s ≡ (returned (err e), t)
      → e ≢ timeout
  accept-waits k l e s t is_err =
      subst (λ r. After Anything NoTimeout (Unit {0}) r.0 r.1) is_err ((accept-Hoare k l).at s tt)
