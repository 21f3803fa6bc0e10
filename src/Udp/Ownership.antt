-- ===== src/Udp/Ownership.antt =====
-- The synchronous UDP clients close the session that they open.
use vcl_rs.Base.{ℕ, zero, suc, Bool, true, false, Option, none, some, List, ◌∷◌}
use vcl_rs.Net.{IpAddr, v4, v6, SocketAddr}
use vcl_rs.Error.{would_block}
use vcl_rs.Ffi.{Vcl}
use vcl_rs.Machine.{ok, err}
use vcl_rs.Machine.Balance.{Balanced, Triple, Triple-bind, Balanced-bind, balanced_rules}
use vcl_rs.Machine.Scopes.{Triple-finally, Triple-on_err, Triple-pure, Balanced-of_Triple}
use vcl_rs.Session.Balance.{session_rules, create_udp-Triple, drop_handle-Drops}
use vcl_rs.App.Balance.{register_worker_thread-Balanced}
use vcl_rs.Ephemeral.{bind_ephemeral}
use vcl_rs.Udp.{
  choose_bind_ip, poll_response, query_udp_on, query_udp_sync, probe_on, probe_local_source,
  socket_bind_ip, sync_setup, sync_bind, poll_peer, sync_query,
}
use vcl_rs.Base.{◌≡◌, [], ◌∷◌, true, some}
use vcl_rs.Machine.{State}
use vcl_rs.Machine.Ledger.{ledger}
use vcl_rs.Machine.Ends.{has_returned}
use vcl_rs.Machine.Held.{closes_all}
use vcl_rs.Machine.Balance.{Leaves}
use vcl_rs.Udp.Ends.{probe_local_source-Ends, sync_bind-Ends}

module _ ⦃V : Vcl⦄ where
  pub bind_ephemeral-Balanced : (n h : ℕ) (ip : IpAddr) → Balanced (bind_ephemeral n h ip)
  unfolding bind_ephemeral
  bind_ephemeral-Balanced zero h ip = search balanced_rules
  bind_ephemeral-Balanced (suc n) h ip = Balanced-bind _ _ (search balanced_rules) λ port.
      Balanced-bind _ _ (search session_rules)
        (elim [ ok _ ↦ search balanced_rules | err e ↦ bind_ephemeral-Balanced n h ip ])

  choose_bind_ip-Balanced :
      (peer : SocketAddr) (source : Option IpAddr) → Balanced (choose_bind_ip peer source)
  unfolding choose_bind_ip
  choose_bind_ip-Balanced peer none = search balanced_rules
  choose_bind_ip-Balanced peer (some ip) = search balanced_rules

  poll_response-Balanced : (k h deadline : ℕ) → Balanced (poll_response k h deadline)
  unfolding poll_response
  poll_response-Balanced zero h deadline = search balanced_rules
  poll_response-Balanced (suc k) h deadline =
      let again = poll_response-Balanced k h deadline in
      Balanced-bind _ _ (search session_rules) (elim [
        | ok (n, bytes, from) ↦ search balanced_rules
        | err would_block ↦ search balanced_rules
        | err e ↦ search balanced_rules
      ])

  query_udp_on-Balanced :
      (k h : ℕ) (peer : SocketAddr) (source : Option IpAddr) (query : List ℕ) (limit : ℕ)
      → Balanced (query_udp_on k h peer source query limit)
  unfolding query_udp_on
  query_udp_on-Balanced k h peer source query limit =
      search
        (session_rules, choose_bind_ip-Balanced, bind_ephemeral-Balanced, poll_response-Balanced)
        depth 9

  -- Whatever it returns, `query_udp_sync` has closed the session that it created.
  pub query_udp_sync-Balanced :
      (k : ℕ) (peer : SocketAddr) (source : Option IpAddr) (query : List ℕ) (limit : ℕ)
      → Balanced (query_udp_sync k peer source query limit)
  unfolding query_udp_sync
  query_udp_sync-Balanced k peer source query limit =
      Balanced-bind _ _ register_worker_thread-Balanced λ _. Balanced-of_Triple λ pre.
        Triple-bind (create_udp-Triple pre true) λ h.
          Triple-finally h _ (drop_handle-Drops h) pre
            (query_udp_on-Balanced k h peer source query limit)

  probe_on-Balanced : (h : ℕ) (peer : SocketAddr) → Balanced (probe_on h peer)
  unfolding probe_on
  probe_on-Balanced h peer = search (session_rules, bind_ephemeral-Balanced)

  -- So has `probe_local_source`.
  pub probe_local_source-Balanced : (peer : SocketAddr) → Balanced (probe_local_source peer)
  unfolding probe_local_source
  probe_local_source-Balanced peer = Balanced-bind _ _ register_worker_thread-Balanced λ _.
      Balanced-of_Triple λ pre.
        Triple-bind (create_udp-Triple pre false)
          λ h. Triple-finally h _ (drop_handle-Drops h) pre (probe_on-Balanced h peer)

  socket_bind_ip-Balanced :
      (source : Option IpAddr) (is_v6 : Bool) → Balanced (socket_bind_ip source is_v6)
  unfolding socket_bind_ip
  socket_bind_ip-Balanced none is_v6 = search balanced_rules
  socket_bind_ip-Balanced (some (v4 o)) true = search balanced_rules
  socket_bind_ip-Balanced (some (v4 o)) false = search balanced_rules
  socket_bind_ip-Balanced (some (v6 o)) true = search balanced_rules
  socket_bind_ip-Balanced (some (v6 o)) false = search balanced_rules

  sync_setup-Balanced :
      (h : ℕ) (source : Option IpAddr) (is_v6 : Bool) → Balanced (sync_setup h source is_v6)
  unfolding sync_setup
  sync_setup-Balanced h source is_v6 =
      search (session_rules, socket_bind_ip-Balanced, bind_ephemeral-Balanced)

  -- `VclUdpSyncSocket::bind` hands over the session that it created, or closes it and fails.
  pub sync_bind-Triple :
      (pre : List ℕ) (source : Option IpAddr) (is_v6 : Bool)
      → Triple pre (sync_bind source is_v6) (λ h. h ∷ pre) pre
  unfolding sync_bind
  sync_bind-Triple pre source is_v6 = Triple-bind (register_worker_thread-Balanced.keeps pre) λ _.
      Triple-bind (create_udp-Triple pre true) λ h.
        Triple-bind
          (Triple-on_err h _ (drop_handle-Drops h) pre (sync_setup-Balanced h source is_v6))
          λ _. Triple-pure h (λ h. h ∷ pre) pre

  poll_peer-Balanced :
      (k h : ℕ) (peer : SocketAddr) (deadline : ℕ) → Balanced (poll_peer k h peer deadline)
  unfolding poll_peer
  poll_peer-Balanced zero h peer deadline = search balanced_rules
  poll_peer-Balanced (suc k) h peer deadline =
      let again = poll_peer-Balanced k h peer deadline in
      Balanced-bind _ _ (search session_rules) (elim [
        | ok (n, bytes, from) ↦ search balanced_rules
        | err would_block ↦ search balanced_rules
        | err e ↦ search balanced_rules
      ])

  pub sync_query-Balanced :
      (k h : ℕ) (peer : SocketAddr) (query : List ℕ) (limit : ℕ)
      → Balanced (sync_query k h peer query limit)
  unfolding sync_query
  sync_query-Balanced k h peer query limit = search (session_rules, poll_peer-Balanced)

  -- When `query_udp_sync` has returned, with an answer or an error, the ledger is as it was before:
  -- the session that it created is closed, once, and no other.
  pub query_udp_sync-closes :
      (k : ℕ) (peer : SocketAddr) (source : Option IpAddr) (query : List ℕ) (limit : ℕ)
      (held : List ℕ) (s : State)
      → ledger s.trace ≡ some held
      → has_returned (query_udp_sync k peer source query limit s).0 ≡ true
      → ledger (query_udp_sync k peer source query limit s).1.trace ≡ some held
  query_udp_sync-closes k peer source query limit held s =
      closes_all _ held s (query_udp_sync-Balanced k peer source query limit)

  -- `probe_local_source` returns, and then the session that it created is closed, once, and no other.
  pub probe_local_source-closes :
      (peer : SocketAddr) (held : List ℕ) (s : State)
      → ledger s.trace ≡ some held
      → (has_returned (probe_local_source peer s).0 ≡ true)
        × (ledger (probe_local_source peer s).1.trace ≡ some held)
  probe_local_source-closes peer held s e =
      let done = (probe_local_source-Ends peer).comes s in
      (done, closes_all _ held s (probe_local_source-Balanced peer) e done)

  -- `VclUdpSyncSocket::bind` returns, and leaves one more open session, the socket's, if it returns
  -- a socket, and none if it returns an error.
  pub sync_bind-owns :
      (source : Option IpAddr) (is_v6 : Bool) (held : List ℕ) (s : State)
      → ledger s.trace ≡ some held
      → (has_returned (sync_bind source is_v6 s).0 ≡ true)
        × Leaves
            (λ h. h ∷ [])
            []
            (some held)
            (sync_bind source is_v6 s).0
            (sync_bind source is_v6 s).1
  sync_bind-owns source is_v6 held s e =
      ((sync_bind-Ends source is_v6).comes s, (sync_bind-Triple [] source is_v6).at (some held) s e)
