-- ===== src/Dgram.antt =====
-- src/dgram.rs, `VclDgramSocket`. The waits take fuel, one unit a round.
pub mod Errors
pub mod Ownership
pub mod Random
pub mod Rejected
pub mod Returns
use vcl_rs.Base.{ℕ, zero, suc, true, List, Option, none, some, negsuc}
use vcl_rs.Net.{SocketAddr}
use vcl_rs.Error.{VclError, api, would_block, timeout, addr_parse, bind_retries_exhausted}
use vcl_rs.Ffi.{Vcl, secs}
use vcl_rs.Machine.{M, Result, ok, err, pure, fail, out_of_fuel, ◌>>=◌, ◌>>◌, attempt, on_err, host}
use vcl_rs.Session.{SessionHandle, create_udp, drop_handle, listen, recvfrom, sendto, local_addr}
use vcl_rs.Session
use vcl_rs.App.{register_worker_thread}
use vcl_rs.Reactor.{VclReactor, register, deregister}
use vcl_rs.Reactor
use vcl_rs.Verify.{verify_bind_or_err}
use vcl_rs.Ephemeral.{low, high}

pub record VclDgramSocket : Type 0 where
  pub handle : SessionHandle
  pub reactor : VclReactor

module _ ⦃V : Vcl⦄ where
  -- What `bind` does while it owns the session and may still fail.
  unfoldable pub bind_setup : ℕ → SessionHandle → SocketAddr → VclReactor → M (Unit {0})
  bind_setup k h addr r = do
    Session.bind h addr
    listen h 0
    verify_bind_or_err k h addr
    register r h

  unfoldable pub bind : ℕ → SocketAddr → VclReactor → M VclDgramSocket
  unfolding bind_setup
  bind k addr r = do
    register_worker_thread
    h ← create_udp true
    on_err (bind_setup k h addr r) (drop_handle h)
    pure (record { handle = h; reactor = r })

  abbrev pub last_or : Option VclError → VclError
  last_or (some e) = e
  last_or none = api bind_retries_exhausted (negsuc 0)

  -- A round of `bind_random_ephemeral` from the result of `parse` on; `again` is the next round.
  unfoldable pub try_address :
      (Option VclError → M VclDgramSocket) → ℕ → VclReactor → Option SocketAddr → M VclDgramSocket
  try_address again k r none = fail (api addr_parse (negsuc 0))
  try_address again k r (some addr) = do
    res ← attempt (bind k addr r)
    elim res [ ok sock ↦ pure sock | err e ↦ again (some e) ]

  -- `bind_random_ephemeral`, by the rounds left. `address` is `format!("{ip_str}:{port}").parse()`
  -- at a port.
  unfoldable pub bind_random :
      ℕ → ℕ → (ℕ → Option SocketAddr) → VclReactor → Option VclError → M VclDgramSocket
  unfolding try_address
  bind_random k zero address r last = fail (last_or last)
  bind_random k (suc rounds) address r last = do
    port ← host (V.gen_range low high)
    try_address (λ e. bind_random k rounds address r e) k r (address port)

  unfoldable pub recv_from : ℕ → VclDgramSocket → ℕ → M (ℕ × List ℕ × SocketAddr)
  recv_from zero sock size = out_of_fuel
  recv_from (suc k) sock size = do
    res ← attempt (recvfrom sock.handle size)
    elim res [
      | ok got ↦ pure got
      | err would_block ↦ (do
        woken ← attempt (Reactor.wait_readable k sock.reactor sock.handle (secs 300))
        elim woken [
          | ok _ ↦ recv_from k sock size
          | err timeout ↦ recv_from k sock size
          | err e ↦ fail e
        ])
      | err e ↦ fail e
    ]

  unfoldable pub try_recv_from : VclDgramSocket → ℕ → M (Option (ℕ × List ℕ × SocketAddr))
  try_recv_from sock size = do
    res ← attempt (recvfrom sock.handle size)
    elim res [ ok got ↦ pure (some got) | err would_block ↦ pure none | err e ↦ fail e ]

  -- The body of the loop returns in every case.
  unfoldable pub wait_readable : ℕ → VclDgramSocket → M (Unit {0})
  wait_readable k sock = do
    woken ← attempt (Reactor.wait_readable k sock.reactor sock.handle (secs 300))
    elim woken [ ok _ ↦ pure tt | err timeout ↦ pure tt | err e ↦ fail e ]

  unfoldable pub send_to : ℕ → VclDgramSocket → List ℕ → SocketAddr → M ℕ
  send_to zero sock buf dst = out_of_fuel
  send_to (suc k) sock buf dst = do
    res ← attempt (sendto sock.handle buf dst)
    elim res [
      | ok n ↦ pure n
      | err would_block ↦ (do
        Reactor.wait_writable k sock.reactor sock.handle (secs 30)
        send_to k sock buf dst)
      | err e ↦ fail e
    ]

  -- `Drop for VclDgramSocket`, and then that of its handle.
  unfoldable pub drop_socket : VclDgramSocket → M (Unit {0})
  drop_socket sock = do deregister sock.reactor sock.handle; drop_handle sock.handle

  -- `.ok()`
  abbrev pub to_option : {A : Type 0} → Result A → Option A
  to_option (ok a) = some a
  to_option (err e) = none

  unfoldable pub socket_local_addr : VclDgramSocket → M (Option SocketAddr)
  socket_local_addr sock = do res ← attempt (local_addr sock.handle); pure (to_option res)
