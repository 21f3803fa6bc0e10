-- ===== src/Udp.antt =====
-- src/dgram.rs, the synchronous UDP clients: `query_udp_sync`, `probe_local_source` and
-- `VclUdpSyncSocket`. The polling loops take fuel, one unit a round.
pub mod Ends
pub mod Ownership
pub mod Answer
pub mod Deadline
pub mod Protocol
pub mod Starves
use vcl_rs.Base.{
  ℕ, zero, suc, ◌+◌, ◌^◌, Bool, true, false, not, Option, none, some, List, [], ◌∷◌, take, overlay,
  replicate, negsuc, leb,
}
use vcl_rs.Net.{IpAddr, v4, v6, SocketAddr, is_ipv4, ip_eq, unspecified}
use vcl_rs.Error.{
  VclError, api, would_block, timeout, family_mismatch, family_flag_mismatch, bind_exhausted,
  probe_bind_exhausted,
}
use vcl_rs.Ffi.{Vcl, millis}
use vcl_rs.Machine.{
  M, Result, ok, err, pure, fail, out_of_fuel, ◌>>=◌, ◌>>◌, when◌then◌else◌, attempt, finally,
  on_err, host, advance,
}
use vcl_rs.Session.{
  SessionHandle, create_udp, drop_handle, listen, connect, recvfrom, sendto, local_addr,
}
use vcl_rs.App.{register_worker_thread}
use vcl_rs.Ephemeral.{bind_ephemeral}

-- `!=` on two booleans
abbrev pub differs : Bool → Bool → Bool
differs true b = not b
differs false b = b

-- `vec![0u8; n]`
unfoldable pub buffer : ℕ → List ℕ
buffer n = replicate n 0

-- The first `n` bytes of a buffer of 4096 bytes that the call filled. With a count above 4096,
-- `truncate` in `query_udp_sync` keeps all 4096, and `&buf[..n]` in `VclUdpSyncSocket::query` panics,
-- which is not modelled.
unfoldable pub datagram : ℕ → List ℕ → List ℕ
unfolding buffer
datagram n bytes = take n (overlay (buffer 4096) bytes)

module _ ⦃V : Vcl⦄ where
  unfoldable pub choose_bind_ip : SocketAddr → Option IpAddr → M IpAddr
  choose_bind_ip peer none = pure (unspecified (is_ipv4 peer.ip))
  choose_bind_ip peer (some ip) =
      when differs (is_ipv4 ip) (is_ipv4 peer.ip)
      then fail (api (family_mismatch ip peer) (negsuc 0))
      else pure ip

  -- The busy poll of `query_udp_sync`.
  unfoldable pub poll_response : ℕ → SessionHandle → ℕ → M (List ℕ × SocketAddr)
  poll_response zero h deadline = out_of_fuel
  poll_response (suc k) h deadline = do
    res ← attempt (recvfrom h 4096)
    elim res [
      | ok (n, bytes, from) ↦ pure (datagram n bytes, from)
      | err would_block ↦ (do
        now ← host V.now
        when leb deadline now
            then fail timeout
            else (do advance (V.sleep (millis 5)); poll_response k h deadline))
      | err e ↦ fail e
    ]

  -- `query_udp_sync` from the choice of the source address on.
  unfoldable pub query_udp_on :
      ℕ → SessionHandle → SocketAddr → Option IpAddr → List ℕ → ℕ → M (List ℕ × SocketAddr)
  query_udp_on k h peer source query limit = do
    bind_ip ← choose_bind_ip peer source
    bound ← bind_ephemeral 8 h bind_ip
    when bound
        then (do
          listen h 0
          _ ← sendto h query peer
          start ← host V.now
          poll_response k h (start + limit))
        else fail (api bind_exhausted (negsuc 0))

  unfoldable pub query_udp_sync :
      ℕ → SocketAddr → Option IpAddr → List ℕ → ℕ → M (List ℕ × SocketAddr)
  query_udp_sync k peer source query limit = do
    register_worker_thread
    h ← create_udp true
    finally (query_udp_on k h peer source query limit) (drop_handle h)

  unfoldable pub probe_on : SessionHandle → SocketAddr → M SocketAddr
  probe_on h peer = do
    bound ← bind_ephemeral 8 h (unspecified (is_ipv4 peer.ip))
    when bound
        then (do connect h peer; local_addr h)
        else fail (api probe_bind_exhausted (negsuc 0))

  unfoldable pub probe_local_source : SocketAddr → M SocketAddr
  probe_local_source peer = do
    register_worker_thread
    h ← create_udp false
    finally (probe_on h peer) (drop_handle h)

  -- The match on `(source, is_v6)`.
  unfoldable pub socket_bind_ip : Option IpAddr → Bool → M IpAddr
  socket_bind_ip (some (v4 o)) false = pure (v4 o)
  socket_bind_ip (some (v6 o)) true = pure (v6 o)
  socket_bind_ip (some (v4 o)) true = fail (api (family_flag_mismatch (v4 o) true) (negsuc 0))
  socket_bind_ip (some (v6 o)) false = fail (api (family_flag_mismatch (v6 o) false) (negsuc 0))
  socket_bind_ip none is_v6 = pure (unspecified (not is_v6))

  unfoldable pub sync_setup : SessionHandle → Option IpAddr → Bool → M (Unit {0})
  sync_setup h source is_v6 = do
    bind_ip ← socket_bind_ip source is_v6
    bound ← bind_ephemeral 8 h bind_ip
    when bound then listen h 0 else fail (api bind_exhausted (negsuc 0))

  -- `VclUdpSyncSocket::bind`. The socket is its session handle.
  unfoldable pub sync_bind : Option IpAddr → Bool → M SessionHandle
  sync_bind source is_v6 = do
    register_worker_thread
    h ← create_udp true
    on_err (sync_setup h source is_v6) (drop_handle h)
    pure h

  unfoldable pub sync_local_addr : SessionHandle → M SocketAddr
  sync_local_addr h = local_addr h

  -- The loop of `VclUdpSyncSocket::query`.
  unfoldable pub poll_peer : ℕ → SessionHandle → SocketAddr → ℕ → M (List ℕ × SocketAddr)
  poll_peer zero h peer deadline = out_of_fuel
  poll_peer (suc k) h peer deadline = do
    res ← attempt (recvfrom h 4096)
    elim res [
      | ok (n, bytes, from) ↦
          (let again = poll_peer k h peer deadline in
            when not (ip_eq from.ip peer.ip) then again else pure (datagram n bytes, from))
      | err would_block ↦ (do
        now ← host V.now
        when leb deadline now
            then fail timeout
            else (do advance (V.sleep (millis 5)); poll_peer k h peer deadline))
      | err e ↦ fail e
    ]

  unfoldable pub sync_query : ℕ → SessionHandle → SocketAddr → List ℕ → ℕ → M (List ℕ × SocketAddr)
  sync_query k h peer query limit = do
    _ ← sendto h query peer
    start ← host V.now
    poll_peer k h peer (start + limit)
