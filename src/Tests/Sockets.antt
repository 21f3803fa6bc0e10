-- ===== src/Tests/Sockets.antt =====
-- Addresses, datagrams and the app, in the world of `Toy`.
use vcl_rs.Base.{
  false, ◌≡◌, ◌≤◌, ◌↔◌, ◌⊎◌, ◌≢◌, refl, true, false, none, some, [], ◌∷◌, neg, arith, ℕ, length,
}
use vcl_rs.Net.{ip_eq}
use vcl_rs.Error.{
  api, io, closed, not_connected, would_block, timeout, from_rc, vcl_retval_str, e_would_block,
  e_again, e_in_progress, e_not_conn, e_conn_reset, e_pipe,
}
use vcl_rs.Error.Classes.{from_rc_classes}
use vcl_rs.Endpoint.{addr_from_endpoint, endpoint_into_buf, zeroed}
use vcl_rs.Endpoint.RoundTrip.{addr_from_endpoint-endpoint_into_buf}
use vcl_rs.Ffi.{millis}
use vcl_rs.Machine.{State, returned, ok, err, on_err, ◌>>=◌}
use vcl_rs.Machine.Ledger.{ledger}
use vcl_rs.Machine.Ends.{has_returned}
use vcl_rs.Session.{recvfrom, sendto, check}
use vcl_rs.Udp.{query_udp_sync, probe_local_source, sync_bind, sync_query}
use vcl_rs.Udp.Deadline.{query_udp_sync-returns}
use vcl_rs.Udp.Answer.{sync_query-from_peer}
use vcl_rs.Udp.Ownership.{query_udp_sync-closes}
use vcl_rs.Dgram.{recv_from}
use vcl_rs.Ephemeral.{bind_ephemeral}
use vcl_rs.Ephemeral.Bounds.{Tried, bind_ephemeral-in_range}
use vcl_rs.Machine.Hoare.{After}
use vcl_rs.Dgram.Errors.{recv_from-waits}
use vcl_rs.Tests.Toy.{toy, start, server, server_endpoint, toy_clock}

from_rc_classes_example :
    ((from_rc (λ rc. none) (neg 11) ≡ would_block)
      ↔ ((neg 11 ≡ neg e_would_block) ⊎ (neg 11 ≡ neg e_again) ⊎ (neg 11 ≡ neg e_in_progress)))
    × ((from_rc (λ rc. none) (neg 11) ≡ not_connected) ↔ (neg 11 ≡ neg e_not_conn))
    × ((from_rc (λ rc. none) (neg 11) ≡ closed)
        ↔ ((neg 11 ≡ neg e_conn_reset) ⊎ (neg 11 ≡ neg e_pipe)))
    × ((from_rc (λ rc. none) (neg 11) ≡ api (vcl_retval_str (λ rc. none) (neg 11)) (neg 11))
        ⊎ (from_rc (λ rc. none) (neg 11) ≡ would_block)
        ⊎ (from_rc (λ rc. none) (neg 11) ≡ not_connected)
        ⊎ (from_rc (λ rc. none) (neg 11) ≡ closed))
    × (from_rc (λ rc. none) (neg 11) ≢ timeout)
    × (from_rc (λ rc. none) (neg 11) ≢ io)
from_rc_classes_example = from_rc_classes (λ rc. none) (neg 11)

addr_from_endpoint-endpoint_into_buf_example :
    addr_from_endpoint (endpoint_into_buf server zeroed) ≡ server
addr_from_endpoint-endpoint_into_buf_example = addr_from_endpoint-endpoint_into_buf server (record {
  ip_ok = (refl, (omega arith, (omega arith, (omega arith, (omega arith, tt)))));
  port_ok = omega arith;
})

query_udp_sync-returns_example :
    has_returned (query_udp_sync 3 server none (1 ∷ []) (millis 8) start).0 ≡ true
query_udp_sync-returns_example =
    query_udp_sync-returns toy_clock 2 server none (1 ∷ []) (millis 8) (omega arith) start

-- The datagram of the stranger is passed over.
sync_query-from_peer_example :
    (ip_eq server.ip server.ip ≡ true) × (length {A = ℕ} (3 ∷ 4 ∷ 5 ∷ []) ≤ 4096)
unfolding sync_query ◌>>=◌ sendto check vcl_rs.Udp.poll_peer vcl_rs.Machine.attempt recvfrom
    addr_from_endpoint vcl_rs.Udp.datagram vcl_rs.Endpoint.swap_bytes
sync_query-from_peer_example =
    sync_query-from_peer 3 1 server (1 ∷ []) (millis 8) start (3 ∷ 4 ∷ 5 ∷ []) server
      (sync_query 3 1 server (1 ∷ []) (millis 8) start).1 refl

query_udp_sync-closes_example :
    ledger (query_udp_sync 3 server none (1 ∷ []) (millis 8) start).1.trace ≡ some []
query_udp_sync-closes_example =
    query_udp_sync-closes 3 server none (1 ∷ []) (millis 8) [] start refl
      (query_udp_sync-returns toy_clock 2 server none (1 ∷ []) (millis 8) (omega arith) start)

-- A reset is waiting.
abbrev reset : State
reset = record start { world = record start.world { datagrams = ([], server_endpoint) ∷ [] } }

recv_from-waits_example : (closed ≢ timeout) × (closed ≢ would_block)
unfolding recv_from recvfrom check ◌>>=◌ from_rc vcl_rs.Machine.attempt
recv_from-waits_example =
    recv_from-waits 2 (record { handle = 1; reactor = record { vep = 0 } }) 512 closed reset
      (recv_from 2 (record { handle = 1; reactor = record { vep = 0 } }) 512 reset).1 refl

bind_ephemeral-in_range_example :
    let run = bind_ephemeral 8 1 server.ip start in
    After (λ _. Tried 1 server.ip [] 8) (λ _. Tried 1 server.ip [] 8) (false ≡ true) run.0 run.1
bind_ephemeral-in_range_example =
    bind_ephemeral-in_range (λ a b w le. (omega arith, le)) 1 server.ip [] 8 start refl
