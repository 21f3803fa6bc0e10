-- ===== src/TcpAsync/Ownership.antt =====
-- `query_tcp_dns_async` closes the connection that it opens.
use vcl_rs.Base.{ℕ, zero, suc, Option, none, some, List, [], ◌∷◌}
use vcl_rs.Net.{IpAddr, SocketAddr}
use vcl_rs.Error.{VclError}
use vcl_rs.Ffi.{Vcl}
use vcl_rs.Machine.Balance.{
  Balanced, Triple, Triple-bind, Balanced-bind, Balanced-host, balanced_rules,
}
use vcl_rs.Machine.Scopes.{
  Triple-match, Triple-when, Triple-finally, Triple-pure, Triple-fail, Balanced-of_Triple,
}
use vcl_rs.Reactor.{VclReactor}
use vcl_rs.Stream.{VclStream}
use vcl_rs.Stream.Ownership.{
  connect_async-Triple, read_exact-Balanced, write_all-Balanced, drop_stream-Drops,
}
use vcl_rs.TcpAsync.{gen_ports, try_ports, open_stream, converse, query_tcp_dns_async}
use vcl_rs.Base.{◌≡◌, [], ◌∷◌, true, some}
use vcl_rs.Machine.{State}
use vcl_rs.Machine.Ledger.{ledger}
use vcl_rs.Machine.Ends.{has_returned}
use vcl_rs.Machine.Held.{closes_all}

module _ ⦃V : Vcl⦄ where
  gen_ports-Balanced : (n : ℕ) → Balanced (gen_ports n)
  unfolding gen_ports
  gen_ports-Balanced zero = search balanced_rules
  gen_ports-Balanced (suc n) = let rest = gen_ports-Balanced n in search balanced_rules

  module _ (pre : List ℕ) (k : ℕ) (peer : SocketAddr) (r : VclReactor) where
    abbrev holding : VclStream → List ℕ
    holding st = st.handle ∷ pre

    try_ports-Triple :
        (ports : List ℕ) (ip : IpAddr) (started limit : ℕ) (last : Option VclError)
        → Triple pre (try_ports k ports peer ip r started limit last) holding pre
    unfolding try_ports
    try_ports-Triple [] ip started limit last = Triple-fail _ holding pre
    try_ports-Triple (port ∷ ports) ip started limit last =
        Triple-bind ((Balanced-host _).keeps pre) λ now. Triple-when _ (Triple-fail _ holding pre) (
          Triple-match _ _ holding pre holding pre (connect_async-Triple pre k peer _ r _)
            (λ st. Triple-pure st holding pre)
            (λ e. try_ports-Triple ports ip started limit (some e)))

    open_stream-Triple :
        (source : Option IpAddr) (started limit : ℕ)
        → Triple pre (open_stream k peer source r started limit) holding pre
    unfolding open_stream
    open_stream-Triple none started limit = connect_async-Triple pre k peer none r limit
    open_stream-Triple (some ip) started limit = Triple-when _ (Triple-fail _ holding pre) (
        Triple-bind ((gen_ports-Balanced 8).keeps pre)
          λ ports. try_ports-Triple ports ip started limit none)

  converse-Balanced : (k : ℕ) (st : VclStream) (query : List ℕ) → Balanced (converse k st query)
  unfolding converse
  converse-Balanced k st query =
      search (balanced_rules, read_exact-Balanced, write_all-Balanced) depth 9

  -- Whatever it returns, `query_tcp_dns_async` has closed every session that it created, those of
  -- failed attempts included.
  pub query_tcp_dns_async-Balanced :
      (k : ℕ) (peer : SocketAddr) (source : Option IpAddr) (query : List ℕ) (r : VclReactor)
      (limit : ℕ)
      → Balanced (query_tcp_dns_async k peer source query r limit)
  unfolding query_tcp_dns_async
  query_tcp_dns_async-Balanced k peer source query r limit =
      Balanced-bind _ _ (Balanced-host _) λ started. Balanced-of_Triple λ pre.
        Triple-bind (open_stream-Triple pre k peer r source started limit)
          λ st. Triple-finally st.handle _ (drop_stream-Drops st) pre (converse-Balanced k st query)

  -- When `query_tcp_dns_async` has returned, with an answer or an error, every session that one of
  -- its attempts to connect created is closed, once, and no other.
  pub query_tcp_dns_async-closes :
      (k : ℕ) (peer : SocketAddr) (source : Option IpAddr) (query : List ℕ) (r : VclReactor)
      (limit : ℕ) (held : List ℕ) (s : State)
      → ledger s.trace ≡ some held
      → has_returned (query_tcp_dns_async k peer source query r limit s).0 ≡ true
      → ledger (query_tcp_dns_async k peer source query r limit s).1.trace ≡ some held
  query_tcp_dns_async-closes k peer source query r limit held s =
      closes_all _ held s (query_tcp_dns_async-Balanced k peer source query r limit)
