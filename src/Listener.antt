-- ===== src/Listener.antt =====
-- src/listener.rs.
pub mod Errors
pub mod Ownership
pub mod Returns
use vcl_rs.Base.{ℕ, zero, suc, true, Option}
use vcl_rs.Net.{SocketAddr}
use vcl_rs.Error.{VclError, would_block, timeout}
use vcl_rs.Ffi.{Vcl, secs}
use vcl_rs.Machine.{M, Result, ok, err, pure, fail, out_of_fuel, ◌>>=◌, ◌>>◌, attempt, on_err}
use vcl_rs.Session.{SessionHandle, create_tcp, drop_handle, listen, local_addr}
use vcl_rs.Session
use vcl_rs.App.{register_worker_thread}
use vcl_rs.Reactor.{VclReactor, register, deregister, wait_readable}
use vcl_rs.Verify.{verify_bind_or_err}
use vcl_rs.Dgram.{to_option}
use vcl_rs.Stream.{VclStream, from_accepted}

pub record VclListener : Type 0 where
  pub handle : SessionHandle
  pub reactor : VclReactor

module _ ⦃V : Vcl⦄ where
  unfoldable pub bind_setup : ℕ → SessionHandle → SocketAddr → VclReactor → M (Unit {0})
  bind_setup k h addr r = do
    Session.bind h addr
    listen h 128
    verify_bind_or_err k h addr
    register r h

  unfoldable pub bind : ℕ → SocketAddr → VclReactor → M VclListener
  unfolding bind_setup
  bind k addr r = do
    register_worker_thread
    h ← create_tcp true
    on_err (bind_setup k h addr r) (drop_handle h)
    pure (record { handle = h; reactor = r })

  -- The body of the first arm of `accept`: the registration owns the handle until `from_accepted`
  -- takes it.
  unfoldable pub admit : VclReactor → SessionHandle × SocketAddr → M (VclStream × SocketAddr)
  admit r (client, peer_addr) = do
    on_err (register r client) (drop_handle client)
    stream ← from_accepted client r
    pure (stream, peer_addr)

  unfoldable pub accept : ℕ → VclListener → M (VclStream × SocketAddr)
  unfolding admit
  accept zero l = out_of_fuel
  accept (suc k) l = do
    res ← attempt (Session.accept l.handle)
    elim res [
      | ok client ↦ admit l.reactor client
      | err would_block ↦ (do
        woken ← attempt (wait_readable k l.reactor l.handle (secs 300))
        elim woken [ ok _ ↦ accept k l | err timeout ↦ accept k l | err e ↦ fail e ])
      | err e ↦ fail e
    ]

  unfoldable pub drop_listener : VclListener → M (Unit {0})
  drop_listener l = do deregister l.reactor l.handle; drop_handle l.handle

  unfoldable pub listener_local_addr : VclListener → M (Option SocketAddr)
  listener_local_addr l = do res ← attempt (local_addr l.handle); pure (to_option res)
