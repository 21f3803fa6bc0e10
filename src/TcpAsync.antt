-- ===== src/TcpAsync.antt =====
-- src/dgram.rs, `query_tcp_dns_async`.
pub mod Exchange
pub mod Ownership
pub mod Starves
use vcl_rs.Base.{ℕ, zero, suc, ◌-◌, Option, none, some, List, [], ◌∷◌, negsuc, ◌==◌}
use vcl_rs.Net.{IpAddr, SocketAddr, socket_addr, is_ipv4}
use vcl_rs.Error.{VclError, api, timeout, family_mismatch, connect_retries_exhausted}
use vcl_rs.Ffi.{Vcl}
use vcl_rs.Machine.{
  M, Result, ok, err, pure, fail, of_result, ◌>>=◌, ◌>>◌, when◌then◌else◌, attempt, finally, host,
}
use vcl_rs.Reactor.{VclReactor}
use vcl_rs.Stream.{VclStream, connect_async, read_exact, write_all, drop_stream}
use vcl_rs.Ephemeral.{low, high}
use vcl_rs.Udp.{differs, buffer}
use vcl_rs.Framing.{frame_tcp_dns_query}
use vcl_rs.Tcp.{decode_prefix}

module _ ⦃V : Vcl⦄ where
  -- `std::array::from_fn(|_| rng.gen_range(LOW..=HIGH))`
  unfoldable pub gen_ports : ℕ → M (List ℕ)
  gen_ports zero = pure []
  gen_ports (suc n) = do
    port ← host (V.gen_range low high)
    ports ← gen_ports n
    pure (port ∷ ports)

  abbrev pub retries_last : Option VclError → VclError
  retries_last (some e) = e
  retries_last none = api connect_retries_exhausted (negsuc 0)

  -- `for port in ports`; `started.elapsed()` is the time since `started`.
  unfoldable pub try_ports :
      ℕ → List ℕ → SocketAddr → IpAddr → VclReactor → ℕ → ℕ → Option VclError → M VclStream
  try_ports k [] peer ip r started limit last = fail (retries_last last)
  try_ports k (port ∷ ports) peer ip r started limit last = do
    now ← host V.now
    let remaining = limit - (now - started)
    when remaining == 0 then fail timeout else (do
      res ← attempt (connect_async k peer (some (socket_addr ip port)) r remaining)
      elim res [ ok s ↦ pure s | err e ↦ try_ports k ports peer ip r started limit (some e) ])

  unfoldable pub open_stream : ℕ → SocketAddr → Option IpAddr → VclReactor → ℕ → ℕ → M VclStream
  open_stream k peer none r started limit = connect_async k peer none r limit
  open_stream k peer (some ip) r started limit =
      when differs (is_ipv4 ip) (is_ipv4 peer.ip)
      then fail (api (family_mismatch ip peer) (negsuc 0))
      else (do ports ← gen_ports 8; try_ports k ports peer ip r started limit none)

  -- What is done with the stream.
  unfoldable pub converse : ℕ → VclStream → List ℕ → M (List ℕ)
  converse k st query = do
    framed ← of_result (frame_tcp_dns_query query)
    write_all k st framed
    prefix ← read_exact k st (buffer 2)
    len ← of_result (decode_prefix prefix)
    read_exact k st (buffer len)

  unfoldable pub query_tcp_dns_async :
      ℕ → SocketAddr → Option IpAddr → List ℕ → VclReactor → ℕ → M (List ℕ)
  query_tcp_dns_async k peer source query r limit = do
    started ← host V.now
    st ← open_stream k peer source r started limit
    finally (converse k st query) (drop_stream st)
