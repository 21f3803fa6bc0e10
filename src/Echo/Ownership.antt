-- ===== src/Echo/Ownership.antt =====
-- What examples/udp_echo.rs closes.
use vcl_rs.Base.{ℕ, zero, suc, ◌≡◌, true, some, List, take, overlay}
use vcl_rs.Net.{SocketAddr}
use vcl_rs.Ffi.{Vcl}
use vcl_rs.Machine.{State}
use vcl_rs.Machine.Ledger.{ledger}
use vcl_rs.Machine.Balance.{Balanced, Triple-bind, Balanced-bind, balanced_rules}
use vcl_rs.Machine.Scopes.{Triple-finally, Balanced-of_Triple}
use vcl_rs.Machine.Ends.{has_returned}
use vcl_rs.Machine.Held.{closes_all}
use vcl_rs.Reactor.{VclReactor}
use vcl_rs.Verify.Ownership.{Answers}
use vcl_rs.Dgram.{VclDgramSocket}
use vcl_rs.Dgram.Ownership.{bind-Triple, recv_from-Balanced, send_to-Balanced, drop_socket-Drops}
use vcl_rs.Echo.{buf_len, echo, serve}

module _ ⦃V : Vcl⦄ where
  echo-Balanced : (k : ℕ) (sock : VclDgramSocket) (buf : List ℕ) → Balanced (echo k sock buf)
  unfolding echo
  echo-Balanced zero sock buf = search balanced_rules
  echo-Balanced (suc k) sock buf =
      Balanced-bind _ _ (recv_from-Balanced k sock buf_len) λ (n, bytes, peer).
        Balanced-bind _ _ (send_to-Balanced k sock (take n (overlay buf bytes)) peer)
          λ _. echo-Balanced k sock (overlay buf bytes)

  serve-Balanced :
      ((h : ℕ) → Answers h)
      → (k : ℕ) (addr : SocketAddr) (r : VclReactor) → Balanced (serve k addr r)
  unfolding serve
  serve-Balanced answers k addr r = Balanced-of_Triple λ pre.
      Triple-bind (bind-Triple answers pre k addr r)
        λ sock. Triple-finally sock.handle _ (drop_socket-Drops sock) pre (echo-Balanced k sock _)

  -- Where libvppcom can tell local addresses, the echo server, when it has returned, has closed the
  -- session that it bound, once, and nothing else: of what was open before, the reactor's epoll set
  -- included, it leaves all open.
  pub serve-closes :
      ((h : ℕ) → Answers h)
      → (k : ℕ) (addr : SocketAddr) (r : VclReactor) (held : List ℕ) (s : State)
      → ledger s.trace ≡ some held
      → has_returned (serve k addr r s).0 ≡ true
      → ledger (serve k addr r s).1.trace ≡ some held
  serve-closes answers k addr r held s = closes_all _ held s (serve-Balanced answers k addr r)
