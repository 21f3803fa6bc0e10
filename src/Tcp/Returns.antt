-- ===== src/Tcp/Returns.antt =====
-- `query_tcp_dns_sync` of src/dgram.rs returns.
use vcl_rs.Base.{
  ℕ, ◌+◌, ◌≤◌, ◌<◌, ◌≡◌, inl, inr, true, Bool-cases, Option, none, some, List, [], ◌∷◌, All,
  All-replicate, length, ℤ, pos, negsuc, leb, leb→le, arith,
}
use vcl_rs.Net.{IpAddr, SocketAddr}
use vcl_rs.Error.{would_block}
use vcl_rs.Ffi.{Vcl}
use vcl_rs.Machine.{State, ok, err}
use vcl_rs.Machine.Hoare.{Hoare-bind, Hoare-host, Hoare-mono, Hoare-result, Hoare-fact, Anything}
use vcl_rs.Machine.Ends.{Ends, Ends-bind, has_returned, ends_rules, Ends-of_Hoare, Hoare-of_Ends}
use vcl_rs.Session.Ends.{connect-Ends, create_tcp-Ends}
use vcl_rs.Framing.{frame_tcp_dns_query, decode_tcp_dns_len}
use vcl_rs.Framing.Laws.{decode_tcp_dns_len_total}
use vcl_rs.Udp.{buffer}
use vcl_rs.Udp.Ends.{bind_ephemeral-Ends, register_worker_thread-Ends}
use vcl_rs.Tcp.{
  source_bind, start_connect, decode_prefix, exchange, query_watched, query_in, query_tcp_on,
  query_tcp_dns_sync,
}
use vcl_rs.Tcp.Clock.{TcpClock}
use vcl_rs.Tcp.Deadline.{Left, IsByte, write_loop-Left, fill_loop-Left}
use vcl_rs.Tcp.Exchange.{length-buffer}

-- The bytes that an exchange moves in one go, at most.
abbrev pub frame_max : ℕ
frame_max = 65537

frame_tcp_dns_query-bound :
    (query framed : List ℕ) → frame_tcp_dns_query query ≡ ok framed → length framed ≤ frame_max
unfolding frame_tcp_dns_query
frame_tcp_dns_query-bound query framed e = elim (Bool-cases (leb (length query) 65535)) [
  | inl fits ↦ (let le = leb→le _ _ fits in ground arith)
  | inr long ↦ ground arith
]

decoded-bound :
    (hi lo len : ℕ) → hi < 256 → lo < 256 → decode_tcp_dns_len hi lo ≡ ok len → len < frame_max
decoded-bound hi lo len h l e = elim (decode_tcp_dns_len_total hi lo h l) [
  | inl (n, e', _, le) ↦ ground arith
  | inr (e', _, _) ↦ ground arith
]

module _ ⦃V : Vcl⦄ where
  decode_prefix-bound :
      (prefix : List ℕ) (len : ℕ)
      → All (λ b. b < 256) prefix
      → decode_prefix prefix ≡ ok len
      → len < frame_max
  decode_prefix-bound [] len all e = decoded-bound 0 0 len (omega arith) (omega arith) e
  decode_prefix-bound (x ∷ []) len all e = decoded-bound 0 0 len (omega arith) (omega arith) e
  decode_prefix-bound (x ∷ y ∷ []) len all e = decoded-bound x y len all.0 all.1.0 e
  decode_prefix-bound (x ∷ y ∷ z ∷ zs) len all e =
      decoded-bound 0 0 len (omega arith) (omega arith) e

  source_bind-Ends :
      (h : ℕ) (peer : SocketAddr) (source : Option IpAddr) → Ends (source_bind h peer source)
  unfolding source_bind
  source_bind-Ends h peer none = search ends_rules
  source_bind-Ends h peer (some ip) = search (ends_rules, bind_ephemeral-Ends)

  start_connect-Ends : (h : ℕ) (peer : SocketAddr) → Ends (start_connect h peer)
  unfolding start_connect
  start_connect-Ends h peer = Ends-bind _ _ (search (ends_rules, connect-Ends)) (elim [
    | ok _ ↦ search ends_rules
    | err would_block ↦ search ends_rules
    | err e ↦ search ends_rules
  ])

  module _ (C : TcpClock) (k limit : ℕ) (enough : frame_max + limit < k) where
    buffer-IsByte : (n : ℕ) → All (IsByte C) (buffer n)
    unfolding buffer
    buffer-IsByte n = All-replicate (IsByte C) n 0 (omega arith)

    exchange-Ends :
        (h vep : ℕ) (peer : SocketAddr) (query : List ℕ) → Ends (exchange k h vep peer query limit)
    unfolding exchange
    exchange-Ends h vep peer query = Ends-of_Hoare _ (
        Hoare-bind _ _ Anything _ (Hoare-of_Ends _ (start_connect-Ends h peer)) λ _.
          Hoare-bind _ _ (λ start. Left C (start + limit) limit) _
            (Hoare-host _ (λ s p. let (below, above) = C.now_reads s.world in omega (arith, above)))
            λ start.
              Hoare-result _ _
                (λ framed is_framed.
                  Hoare-bind _ _ (λ _. Left C (start + limit) limit) _
                    (write_loop-Left C _ k h vep limit 0 framed
                      (omega (arith, enough, frame_tcp_dns_query-bound query framed is_framed)))
                    λ _.
                      Hoare-bind _ _ _ _
                        (fill_loop-Left C _ k h vep limit 0 2 (buffer 2) (length-buffer 2)
                          (buffer-IsByte 2) (omega (arith, enough)))
                        λ prefix. Hoare-fact (λ (size, all).
                          Hoare-result _ _
                            (λ len is_len.
                              Hoare-mono _ Anything (λ _ t q. tt) (λ e t q. tt)
                                (fill_loop-Left C _ k h vep limit 0 len (buffer len)
                                  (length-buffer len) (buffer-IsByte len)
                                  (omega
                                    (arith, enough, decode_prefix-bound prefix len all is_len))))
                            (λ e s bad q. tt)))
                (λ e s bad q. tt))

    query_watched-Ends :
        (h vep : ℕ) (peer : SocketAddr) (query : List ℕ) (rv : ℤ)
        → Ends (query_watched k h vep peer query limit rv)
    unfolding query_watched
    query_watched-Ends h vep peer query (negsuc n) = search ends_rules
    query_watched-Ends h vep peer query (pos n) = search (ends_rules, exchange-Ends)

    query_in-Ends :
        (h : ℕ) (peer : SocketAddr) (query : List ℕ) (rc : ℤ)
        → Ends (query_in k h peer query limit rc)
    unfolding query_in
    query_in-Ends h peer query (negsuc n) = search ends_rules
    query_in-Ends h peer query (pos vep) = search (ends_rules, query_watched-Ends)

    query_tcp_on-Ends :
        (h : ℕ) (peer : SocketAddr) (source : Option IpAddr) (query : List ℕ)
        → Ends (query_tcp_on k h peer source query limit)
    unfolding query_tcp_on
    query_tcp_on-Ends h peer source query = search (ends_rules, source_bind-Ends, query_in-Ends)

    query_tcp_dns_sync-Ends :
        (peer : SocketAddr) (source : Option IpAddr) (query : List ℕ)
        → Ends (query_tcp_dns_sync k peer source query limit)
    unfolding query_tcp_dns_sync
    query_tcp_dns_sync-Ends peer source query =
        search (ends_rules, register_worker_thread-Ends, create_tcp-Ends, query_tcp_on-Ends) depth 7

  -- `query_tcp_dns_sync` returns, with an answer or an error, given one round for each nanosecond of
  -- its time limit and 65538 more, whatever the peer does: if the clock does not go back, a call of
  -- `epoll_wait` takes a nanosecond or more, a write that succeeds takes some byte, and what is read
  -- are bytes.
  pub query_tcp_dns_sync-returns :
      (k : ℕ) (peer : SocketAddr) (source : Option IpAddr) (query : List ℕ) (limit : ℕ) (s : State)
      → TcpClock
      → frame_max + limit < k
      → has_returned (query_tcp_dns_sync k peer source query limit s).0 ≡ true
  query_tcp_dns_sync-returns k peer source query limit s C enough =
      (query_tcp_dns_sync-Ends C k limit enough peer source query).comes s
