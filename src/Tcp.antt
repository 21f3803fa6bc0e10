-- ===== src/Tcp.antt =====
-- src/dgram.rs, `query_tcp_dns_sync`. The loops take fuel, one unit a round.
pub mod Ownership
pub mod Clock
pub mod Connection
pub mod Deadline
pub mod Moves
pub mod Sending
pub mod Receiving
pub mod Exchange
pub mod Returns
use vcl_rs.Base.{
  ℕ, zero, suc, Bool, true, false, ◌+◌, ◌-◌, Option, none, some, List, [], ◌∷◌, ◌++◌, ℤ, pos,
  negsuc, length, take, drop, overlay, leb, ltb,
}
use vcl_rs.Net.{IpAddr, SocketAddr, is_ipv4}
use vcl_rs.Error.{
  VclError, api, closed, not_connected, would_block, timeout, family_mismatch,
  source_bind_exhausted, epoll_create_failed, epoll_ctl_add_failed,
}
use vcl_rs.Ffi.{Vcl, EpollEvent, epoll_ctl_add, epoll_in, epoll_out, epoll_et}
use vcl_rs.Machine.{
  M, Result, ok, err, pure, fail, out_of_fuel, of_result, ◌>>=◌, ◌>>◌, when◌then◌else◌, attempt,
  finally, call, call_out, host, epoll_create, epoll_ctl, epoll_wait, session_close,
}
use vcl_rs.Session.{SessionHandle, create_tcp, drop_handle, connect, read, write}
use vcl_rs.App.{register_worker_thread}
use vcl_rs.Ephemeral.{bind_ephemeral}
use vcl_rs.Udp.{differs, buffer}
use vcl_rs.Framing.{frame_tcp_dns_query, decode_tcp_dns_len}

-- `&mut buf[at..]` after a call that has copied `bytes` into it.
abbrev pub write_at : ℕ → List ℕ → List ℕ → List ℕ
write_at at buf bytes = take at buf ++ overlay (drop at buf) bytes

module _ ⦃V : Vcl⦄ where
  unfoldable pub source_bind : SessionHandle → SocketAddr → Option IpAddr → M (Unit {0})
  source_bind h peer none = pure tt
  source_bind h peer (some ip) =
      when differs (is_ipv4 ip) (is_ipv4 peer.ip)
      then fail (api (family_mismatch ip peer) (negsuc 0))
      else (do
        bound ← bind_ephemeral 8 h ip
        when bound then pure tt else fail (api source_bind_exhausted (negsuc 0)))

  -- The closure of that name, at its one argument of 5 ms.
  unfoldable pub drain_mq : ℕ → M (Unit {0})
  drain_mq vep = do _ ← call_out (epoll_wait vep 4 5) (V.epoll_wait vep 4 5); pure tt

  -- Only errors that mean "not yet" are polled again.
  abbrev pub is_transient : VclError → Bool
  is_transient would_block = true
  is_transient not_connected = true
  is_transient _ = false

  unfoldable pub start_connect : SessionHandle → SocketAddr → M (Unit {0})
  start_connect h peer = do
    res ← attempt (connect h peer)
    elim res [ ok _ ↦ pure tt | err would_block ↦ pure tt | err e ↦ fail e ]

  -- `while sent < framed.len()`
  unfoldable pub write_loop : ℕ → SessionHandle → ℕ → ℕ → ℕ → List ℕ → M (Unit {0})
  write_loop zero h vep deadline sent framed = out_of_fuel
  write_loop (suc k) h vep deadline sent framed =
      when ltb sent (length framed)
      then (do
        res ← attempt (write h (drop sent framed))
        elim res [
          | ok n ↦ write_loop k h vep deadline (sent + n) framed
          | err e ↦
              when is_transient e
              then (do
                now ← host V.now
                when leb deadline now
                    then fail timeout
                    else (do drain_mq vep; write_loop k h vep deadline sent framed))
              else fail e
        ])
      else pure tt

  -- `while got < buf.len()`, which stands twice: for the prefix and for the body.
  unfoldable pub fill_loop : ℕ → SessionHandle → ℕ → ℕ → ℕ → List ℕ → M (List ℕ)
  fill_loop zero h vep deadline got buf = out_of_fuel
  fill_loop (suc k) h vep deadline got buf =
      when ltb got (length buf)
      then (do
        now ← host V.now
        when leb deadline now then fail timeout else (do
          res ← attempt (read h (length buf - got))
          elim res [
            | ok (zero, bytes) ↦ fail closed
            | ok (suc n, bytes) ↦ fill_loop k h vep deadline (got + suc n) (write_at got buf bytes)
            | err e ↦
                when is_transient e
                then (do drain_mq vep; fill_loop k h vep deadline got buf)
                else fail e
          ]))
      else pure buf

  abbrev pub decode_prefix : List ℕ → Result ℕ
  decode_prefix (hi ∷ lo ∷ []) = decode_tcp_dns_len hi lo
  decode_prefix _ = decode_tcp_dns_len 0 0

  -- From the call of `connect` to the result, under the guard of the epoll set.
  unfoldable pub exchange : ℕ → SessionHandle → ℕ → SocketAddr → List ℕ → ℕ → M (List ℕ)
  exchange k h vep peer query limit = do
    start_connect h peer
    start ← host V.now
    framed ← of_result (frame_tcp_dns_query query)
    write_loop k h vep (start + limit) 0 framed
    prefix ← fill_loop k h vep (start + limit) 0 (buffer 2)
    len ← of_result (decode_prefix prefix)
    fill_loop k h vep (start + limit) 0 (buffer len)

  abbrev pub both_ways : SessionHandle → EpollEvent
  both_ways h = record { events = epoll_in + epoll_out + epoll_et; user = h }

  unfoldable pub query_watched : ℕ → SessionHandle → ℕ → SocketAddr → List ℕ → ℕ → ℤ → M (List ℕ)
  query_watched k h vep peer query limit (negsuc n) = do
    _ ← call (session_close vep) (V.session_close vep)
    fail (api (epoll_ctl_add_failed (negsuc n)) (negsuc n))
  query_watched k h vep peer query limit (pos n) =
      finally (exchange k h vep peer query limit) (drop_handle vep)

  unfoldable pub query_in : ℕ → SessionHandle → SocketAddr → List ℕ → ℕ → ℤ → M (List ℕ)
  query_in k h peer query limit (negsuc n) = fail (api (epoll_create_failed (negsuc n)) (negsuc n))
  query_in k h peer query limit (pos vep) = do
    let ev = some (both_ways h)
    rv ← call (epoll_ctl vep epoll_ctl_add h ev) (V.epoll_ctl vep epoll_ctl_add h ev)
    query_watched k h vep peer query limit rv

  unfoldable pub query_tcp_on :
      ℕ → SessionHandle → SocketAddr → Option IpAddr → List ℕ → ℕ → M (List ℕ)
  query_tcp_on k h peer source query limit = do
    source_bind h peer source
    vep ← call epoll_create V.epoll_create
    query_in k h peer query limit vep

  unfoldable pub query_tcp_dns_sync : ℕ → SocketAddr → Option IpAddr → List ℕ → ℕ → M (List ℕ)
  query_tcp_dns_sync k peer source query limit = do
    register_worker_thread
    h ← create_tcp true
    finally (query_tcp_on k h peer source query limit) (drop_handle h)
