-- ===== src/Tcp/Ownership.antt =====
-- `query_tcp_dns_sync` closes its session and its epoll set on every way out.
use vcl_rs.Base.{ℕ, zero, suc, Option, none, some, List, ◌∷◌, ℤ, pos, negsuc, true, ◌+◌, refl}
use vcl_rs.Net.{IpAddr, SocketAddr}
use vcl_rs.Error.{would_block}
use vcl_rs.Ffi.{Vcl}
use vcl_rs.Machine.{State, ok, err}
use vcl_rs.Machine.Ledger.{ledger}
use vcl_rs.Machine.Balance.{
  Balanced, Triple, Triple-bind, Balanced-bind, Balanced-when, balanced_rules,
}
use vcl_rs.Machine.Steady.{Steady-call}
use vcl_rs.Machine.Scopes.{
  Triple-close, Triple-epoll_create, Triple-finally, Triple-fail, Balanced-of_Triple,
}
use vcl_rs.Session.Balance.{session_rules, create_tcp-Triple, drop_handle-Drops}
use vcl_rs.App.Balance.{register_worker_thread-Balanced}
use vcl_rs.Udp.Ownership.{bind_ephemeral-Balanced}
use vcl_rs.Tcp.{
  source_bind, drain_mq, start_connect, write_loop, fill_loop, exchange, query_watched, query_in,
  query_tcp_on, query_tcp_dns_sync, write_at,
}
use vcl_rs.Base.{◌≡◌, ◌∷◌, true, some}
use vcl_rs.Machine.{State}
use vcl_rs.Machine.Ledger.{ledger}
use vcl_rs.Machine.Ends.{has_returned}
use vcl_rs.Machine.Held.{closes_all}

module _ ⦃V : Vcl⦄ where
  source_bind-Balanced :
      (h : ℕ) (peer : SocketAddr) (source : Option IpAddr) → Balanced (source_bind h peer source)
  unfolding source_bind
  source_bind-Balanced h peer none = search balanced_rules
  source_bind-Balanced h peer (some ip) = search (balanced_rules, bind_ephemeral-Balanced)

  drain_mq-Balanced : (vep : ℕ) → Balanced (drain_mq vep)
  unfolding drain_mq
  drain_mq-Balanced vep = search balanced_rules

  pub start_connect-Balanced : (h : ℕ) (peer : SocketAddr) → Balanced (start_connect h peer)
  unfolding start_connect
  start_connect-Balanced h peer = Balanced-bind _ _ (search session_rules) (elim [
    | ok _ ↦ search balanced_rules
    | err would_block ↦ search balanced_rules
    | err e ↦ search balanced_rules
  ])

  write_loop-Balanced :
      (k h vep deadline sent : ℕ) (framed : List ℕ)
      → Balanced (write_loop k h vep deadline sent framed)
  unfolding write_loop
  write_loop-Balanced zero h vep deadline sent framed = search balanced_rules
  write_loop-Balanced (suc k) h vep deadline sent framed =
      let again = λ (at : ℕ). write_loop-Balanced k h vep deadline at framed in
      Balanced-when _ _ _
        (Balanced-bind _ _ (search session_rules) (elim [
          | ok n ↦ again (sent + n)
          | err e ↦ let here = again sent in search (balanced_rules, drain_mq-Balanced) depth 7
        ]))
        (search balanced_rules)

  fill_loop-Balanced :
      (k h vep deadline got : ℕ) (buf : List ℕ) → Balanced (fill_loop k h vep deadline got buf)
  unfolding fill_loop
  fill_loop-Balanced zero h vep deadline got buf = search balanced_rules
  fill_loop-Balanced (suc k) h vep deadline got buf =
      let here = fill_loop-Balanced k h vep deadline got buf in
      Balanced-when _ _ _
        (Balanced-bind _ _ (search balanced_rules) λ now.
          Balanced-when _ _ _ (search balanced_rules) (
            Balanced-bind _ _ (search session_rules) (elim [
              | ok (zero, bytes) ↦ search balanced_rules
              | ok (suc n, bytes) ↦
                  fill_loop-Balanced k h vep deadline (got + suc n) (write_at got buf bytes)
              | err e ↦ search (balanced_rules, drain_mq-Balanced) depth 7
            ])))
        (search balanced_rules)

  exchange-Balanced :
      (k h vep : ℕ) (peer : SocketAddr) (query : List ℕ) (limit : ℕ)
      → Balanced (exchange k h vep peer query limit)
  unfolding exchange
  exchange-Balanced k h vep peer query limit =
      search (session_rules, start_connect-Balanced, write_loop-Balanced, fill_loop-Balanced) depth
        9

  query_watched-Triple :
      (pre : List ℕ) (k h vep : ℕ) (peer : SocketAddr) (query : List ℕ) (limit : ℕ) (rv : ℤ)
      → Triple (vep ∷ pre) (query_watched k h vep peer query limit rv) (λ _. pre) pre
  unfolding query_watched
  query_watched-Triple pre k h vep peer query limit (negsuc n) =
      Triple-bind (Triple-close vep pre pre) λ _. Triple-fail _ (λ _. pre) pre
  query_watched-Triple pre k h vep peer query limit (pos n) =
      Triple-finally vep _ (drop_handle-Drops vep) pre (exchange-Balanced k h vep peer query limit)

  query_tcp_on-Balanced :
      (k h : ℕ) (peer : SocketAddr) (source : Option IpAddr) (query : List ℕ) (limit : ℕ)
      → Balanced (query_tcp_on k h peer source query limit)
  unfolding query_tcp_on query_in
  query_tcp_on-Balanced k h peer source query limit =
      Balanced-bind _ _ (source_bind-Balanced h peer source) λ _. Balanced-of_Triple λ pre.
        Triple-epoll_create (query_in k h peer query limit) pre (λ _. pre) pre
          (λ n. Triple-fail _ (λ _. pre) pre)
          λ vep.
            Triple-bind ((Steady-call _ _ refl).stays (vep ∷ pre) pre)
              λ rv. query_watched-Triple pre k h vep peer query limit rv

  -- Whatever it returns, `query_tcp_dns_sync` has closed the session and the epoll set that it
  -- created.
  pub query_tcp_dns_sync-Balanced :
      (k : ℕ) (peer : SocketAddr) (source : Option IpAddr) (query : List ℕ) (limit : ℕ)
      → Balanced (query_tcp_dns_sync k peer source query limit)
  unfolding query_tcp_dns_sync
  query_tcp_dns_sync-Balanced k peer source query limit =
      Balanced-bind _ _ register_worker_thread-Balanced λ _. Balanced-of_Triple λ pre.
        Triple-bind (create_tcp-Triple pre true) λ h.
          Triple-finally h _ (drop_handle-Drops h) pre
            (query_tcp_on-Balanced k h peer source query limit)

  -- When `query_tcp_dns_sync` has returned, with an answer or an error, the session and the epoll
  -- set that it created are closed, once each, and no other handle is.
  pub query_tcp_dns_sync-closes :
      (k : ℕ) (peer : SocketAddr) (source : Option IpAddr) (query : List ℕ) (limit : ℕ)
      (held : List ℕ) (s : State)
      → ledger s.trace ≡ some held
      → has_returned (query_tcp_dns_sync k peer source query limit s).0 ≡ true
      → ledger (query_tcp_dns_sync k peer source query limit s).1.trace ≡ some held
  query_tcp_dns_sync-closes k peer source query limit held s =
      closes_all _ held s (query_tcp_dns_sync-Balanced k peer source query limit)
