-- ===== src/Listener/Returns.antt =====
-- The three binds of the crate that verify return.
use vcl_rs.Base.{ℕ, ◌<◌, ◌≡◌, true, Option}
use vcl_rs.Net.{SocketAddr}
use vcl_rs.Error.{VclError}
use vcl_rs.Ffi.{Vcl, millis}
use vcl_rs.Machine.{State}
use vcl_rs.Machine.Ends.{Ends, has_returned, ends_rules}
use vcl_rs.Session.Ends.{create_tcp-Ends, bind-Ends, listen-Ends}
use vcl_rs.Reactor.{VclReactor}
use vcl_rs.Reactor.Ends.{register-Ends}
use vcl_rs.Udp.Ends.{register_worker_thread-Ends}
use vcl_rs.Verify.{verify_bind_or_err}
use vcl_rs.Verify.Returns.{DrainClock, verify_bind_or_err-Ends}
use vcl_rs.Dgram
use vcl_rs.Dgram.Returns.{dgram_bind-Ends, bind_random-Ends}
use vcl_rs.Listener.{bind_setup, bind}

module _ ⦃V : Vcl⦄ where
  module _ (C : DrainClock) (k : ℕ) (enough : millis 200 < k) where
    bind_setup-Ends : (h : ℕ) (addr : SocketAddr) (r : VclReactor) → Ends (bind_setup k h addr r)
    unfolding bind_setup
    bind_setup-Ends h addr r =
        let verified : Ends (verify_bind_or_err k h addr) =
          verify_bind_or_err-Ends C k enough h addr in
        search (ends_rules, bind-Ends, listen-Ends, register-Ends)

    listener_bind-Ends : (addr : SocketAddr) (r : VclReactor) → Ends (bind k addr r)
    unfolding bind
    listener_bind-Ends addr r =
        search (ends_rules, register_worker_thread-Ends, create_tcp-Ends, bind_setup-Ends) depth 7

  -- `VclListener::bind`, `VclDgramSocket::bind` and the binding to a random port return, with a
  -- result or an error, given one round for each nanosecond of the 200 ms that a bind is watched and
  -- one more, whatever the sessions do and however many attempts there are: if the clock does not go
  -- back, and a call of `epoll_wait` takes a nanosecond or more.
  pub binds-return :
      (k : ℕ) (addr : SocketAddr) (r : VclReactor) (rounds : ℕ) (address : ℕ → Option SocketAddr)
      (last : Option VclError) (s : State)
      → DrainClock
      → millis 200 < k
      → (has_returned (bind k addr r s).0 ≡ true)
        × (has_returned (Dgram.bind k addr r s).0 ≡ true)
        × (has_returned (Dgram.bind_random k rounds address r last s).0 ≡ true)
  binds-return k addr r rounds address last s C enough = (
    (listener_bind-Ends C k enough addr r).comes s,
    (dgram_bind-Ends C k enough addr r).comes s,
    (bind_random-Ends C k enough rounds address r last).comes s,
  )
