-- ===== src/Echo.antt =====
-- examples/udp_echo.rs. The loop takes fuel, one unit a round.
pub mod Ownership
pub mod Replies
use vcl_rs.Base.{ℕ, zero, suc, List, [], ◌∷◌, take, overlay, replicate}
use vcl_rs.Net.{SocketAddr}
use vcl_rs.Ffi.{Vcl}
use vcl_rs.Machine.{M, out_of_fuel, ◌>>=◌, ◌>>◌, finally}
use vcl_rs.App.{init, drop_app}
use vcl_rs.Reactor.{VclReactor}
use vcl_rs.Reactor
use vcl_rs.Dgram.{VclDgramSocket, bind, recv_from, send_to, drop_socket}

-- "vcl-rs-udp-echo"
abbrev pub app_name : List ℕ
app_name =
    b'v' ∷ b'c' ∷ b'l' ∷ b'-' ∷ b'r' ∷ b's' ∷ b'-' ∷ b'u' ∷ b'd' ∷ b'p' ∷ b'-' ∷ b'e' ∷ b'c' ∷ b'h'
    ∷ b'o' ∷ []

abbrev pub buf_len : ℕ
buf_len = 65535

module _ ⦃V : Vcl⦄ where
  -- The buffer keeps what a datagram has left in it. A count past its end would panic at `buf[..n]`.
  unfoldable pub echo : ℕ → VclDgramSocket → List ℕ → M (Unit {0})
  echo zero sock buf = out_of_fuel
  echo (suc k) sock buf = do
    (n, bytes, peer) ← recv_from k sock buf_len
    let buf' = overlay buf bytes
    _ ← send_to k sock (take n buf') peer
    echo k sock buf'

  -- From the bind on. The reactor has no destructor of its own.
  unfoldable pub serve : ℕ → SocketAddr → VclReactor → M (Unit {0})
  unfolding echo
  serve k bind_addr reactor = do
    sock ← bind k bind_addr reactor
    finally (echo k sock (replicate buf_len 0)) (drop_socket sock)

  -- `main`, at an address whose text has been parsed.
  unfoldable pub main : ℕ → SocketAddr → M (Unit {0})
  unfolding serve
  main k bind_addr = do
    init app_name
    finally (do reactor ← Reactor.new; serve k bind_addr reactor) drop_app
