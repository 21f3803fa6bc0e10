-- ===== src/Dgram/Errors.antt =====
-- The errors of `recv_from`.
use vcl_rs.Base.{ℕ, zero, suc, ◌≡◌, ◌≢◌, subst, arith}
use vcl_rs.Error.{VclError, would_block, timeout}
use vcl_rs.Ffi.{Vcl}
use vcl_rs.Machine.{State, returned, ok, err}
use vcl_rs.Machine.Hoare.{
  After, Hoare, Hoare-cases, Hoare-weaken, Hoare-pure, Hoare-fail, Hoare-out_of_fuel, Anything,
  Always,
}
use vcl_rs.Session.Errors.{recvfrom-NoTimeout}
use vcl_rs.Reactor.Keeps.{WaitFails, wait_readable-WaitFails}
use vcl_rs.Dgram.{VclDgramSocket, recv_from}

module _ ⦃V : Vcl⦄ where
  abbrev Final : VclError → State → Type 0
  Final e s = (e ≢ timeout) × (e ≢ would_block)

  recv_from-Final :
      (k : ℕ) (sock : VclDgramSocket) (size : ℕ)
      → Hoare Always (recv_from k sock size) Anything Final (Unit {0})
  unfolding recv_from
  recv_from-Final zero sock size = Hoare-out_of_fuel (λ s p. tt)
  recv_from-Final (suc k) sock size =
      let again = recv_from-Final k sock size in
      Hoare-cases _ _ _ (recvfrom-NoTimeout sock.handle size) (elim [
        | ok got ↦ Hoare-pure _ (λ s p. tt)
        | err would_block ↦
            Hoare-cases _ Anything WaitFails
              (Hoare-weaken Always (λ s p. tt)
                (wait_readable-WaitFails k sock.reactor sock.handle _))
              (elim [
                | ok _ ↦ again
                | err timeout ↦ Hoare-weaken Always (λ s p. tt) again
                | err e ↦ Hoare-fail _ (λ s p. ground arith)
              ])
        | err e ↦ Hoare-fail _ (λ s p. (p, ground arith))
      ])

  -- `recv_from` fails neither with a time-out nor with "would block", however long nothing arrives:
  -- it waits again.
  pub recv_from-waits :
      (k : ℕ) (sock : VclDgramSocket) (size : ℕ) (e : VclError) (s t : State)
      → recv_from k sock size s ≡ (returned (err e), t)
      → (e ≢ timeout) × (e ≢ would_block)
  recv_from-waits k sock size e s t is_err =
      subst (λ r. After Anything Final (Unit {0}) r.0 r.1) is_err
        ((recv_from-Final k sock size).at s tt)
