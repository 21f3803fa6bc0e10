-- ===== src/Dgram/Returns.antt =====
-- The binds of `VclDgramSocket` return.
use vcl_rs.Base.{ℕ, zero, suc, ◌<◌, Option, none, some}
use vcl_rs.Net.{SocketAddr}
use vcl_rs.Error.{VclError}
use vcl_rs.Ffi.{Vcl, millis}
use vcl_rs.Machine.{M, ok, err}
use vcl_rs.Machine.Ends.{Ends, Ends-bind, Ends-attempt, ends_rules}
use vcl_rs.Session.Ends.{create_udp-Ends, bind-Ends, listen-Ends}
use vcl_rs.Reactor.{VclReactor}
use vcl_rs.Reactor.Ends.{register-Ends}
use vcl_rs.Udp.Ends.{register_worker_thread-Ends}
use vcl_rs.Verify.{verify_bind_or_err}
use vcl_rs.Verify.Returns.{DrainClock, verify_bind_or_err-Ends}
use vcl_rs.Dgram.{VclDgramSocket, bind_setup, bind, try_address, bind_random}

module _ ⦃V : Vcl⦄ (C : DrainClock) (k : ℕ) (enough : millis 200 < k) where
  bind_setup-Ends : (h : ℕ) (addr : SocketAddr) (r : VclReactor) → Ends (bind_setup k h addr r)
  unfolding bind_setup
  bind_setup-Ends h addr r =
      let verified : Ends (verify_bind_or_err k h addr) =
        verify_bind_or_err-Ends C k enough h addr in
      search (ends_rules, bind-Ends, listen-Ends, register-Ends)

  pub dgram_bind-Ends : (addr : SocketAddr) (r : VclReactor) → Ends (bind k addr r)
  unfolding bind
  dgram_bind-Ends addr r =
      search (ends_rules, register_worker_thread-Ends, create_udp-Ends, bind_setup-Ends) depth 7

  try_address-Ends :
      (again : Option VclError → M VclDgramSocket) (r : VclReactor) (o : Option SocketAddr)
      → ((last : Option VclError) → Ends (again last))
      → Ends (try_address again k r o)
  unfolding try_address
  try_address-Ends again r none more = search ends_rules
  try_address-Ends again r (some addr) more =
      Ends-bind _ _ (Ends-attempt _ (dgram_bind-Ends addr r))
        (elim [ ok sock ↦ search ends_rules | err e ↦ more (some e) ])

  pub bind_random-Ends :
      (rounds : ℕ) (address : ℕ → Option SocketAddr) (r : VclReactor) (last : Option VclError)
      → Ends (bind_random k rounds address r last)
  unfolding bind_random
  bind_random-Ends zero address r last = search ends_rules
  bind_random-Ends (suc rounds) address r last =
      Ends-bind _ _ (search ends_rules)
        (λ port. try_address-Ends _ r (address port) (λ e. bind_random-Ends rounds address r e))
