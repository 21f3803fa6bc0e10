-- ===== src/TcpAsync/Starves.antt =====
-- `query_tcp_dns_async` of src/dgram.rs to a peer that does not answer.
use vcl_rs.Base.{ℕ, zero, suc, ◌≤◌, ◌<◌, ◌≡◌, refl, true, false, none, List, length, neg, arith}
use vcl_rs.Net.{SocketAddr}
use vcl_rs.Error.{VclError, not_connected, from_rc, e_not_conn}
use vcl_rs.Ffi.{Vcl, secs}
use vcl_rs.Machine.{State, Exit, returned, running, ok, err}
use vcl_rs.Machine.Hoare.{
  After, Hoare, Hoare-bind, Hoare-cases, Hoare-out_of_fuel, Hoare-when, Hoare-call, Hoare-weaken,
  Hoare-host, Hoare-result, Always,
}
use vcl_rs.Machine.Runs.{Hoare-finally}
use vcl_rs.Session
use vcl_rs.Session.Check.{check-fails}
use vcl_rs.Reactor.{wait_writable, VclReactor}
use vcl_rs.Reactor.Future.Executor.{Executor}
use vcl_rs.Reactor.Ticked.{Ticker, meanwhile, Unanswered, wait_event-notified}
use vcl_rs.Stream.{VclStream, write_from, write_all, drop_stream}
use vcl_rs.Stream.Early.{InProgress, Never, connect_async-passes}
use vcl_rs.Framing.{frame_tcp_dns_query, u16_max}
use vcl_rs.TcpAsync.{open_stream, converse, query_tcp_dns_async}

module _ ⦃V : Vcl⦄ where
  -- A write on a session whose handshake is not complete.
  abbrev pub NotConnected : Type 0
  NotConnected = (h : ℕ) (buf : List ℕ) (w : V.World) → (V.session_write h buf w).0 ≡ neg e_not_conn

  abbrev Nothing : {A : Type 0} → A → State → Type 0
  Nothing a s = false ≡ true

  framed_left : (query framed : List ℕ) → frame_tcp_dns_query query ≡ ok framed → 0 < length framed
  unfolding frame_tcp_dns_query
  framed_left query framed e = ground arith

  not_refused :
      (query : List ℕ) (e : VclError)
      → length query ≤ u16_max
      → frame_tcp_dns_query query ≡ err e
      → false ≡ true
  unfolding frame_tcp_dns_query
  not_refused query e le refused = ground arith

  module _ (N : NotConnected) (T : Ticker) (soon : ℕ) (U : Unanswered T soon)
      (X : Executor (meanwhile T)) (lt : soon < secs 300) where
    write-not_connected :
        (h : ℕ) (buf : List ℕ)
        → Hoare Always (Session.write h buf) Nothing (λ e s. e ≡ not_connected) (Unit {0})
    unfolding Session.write from_rc
    write-not_connected h buf =
        Hoare-bind _ _ (λ rc s. rc ≡ neg e_not_conn) _ (Hoare-call _ _ (λ s p. N h buf s.world))
          λ rc. check-fails Nothing (Unit {0}) 106 not_connected rc refl

    -- The error of the write is transient, and the wait ends at once.
    write_from-starves :
        (k : ℕ) (st : VclStream) (at : ℕ) (buf : List ℕ)
        → at < length buf
        → Hoare Always (write_from k st at buf) Nothing Never (Unit {0})
    unfolding write_from wait_writable
    write_from-starves zero st at buf left = Hoare-out_of_fuel (λ s p. tt)
    write_from-starves (suc k) st at buf left =
        let again = write_from-starves k st at buf left in
        Hoare-when _
          (λ _.
            Hoare-cases _ Nothing (λ e s. e ≡ not_connected) (write-not_connected st.handle _)
              (elim [
                | ok n ↦ record { at = λ s p. absurd (ground arith) }
                | err e ↦
                    Hoare-when _
                      (λ _.
                        Hoare-bind _ _ (λ _. Always) _
                          (Hoare-weaken Always (λ s p. tt)
                            (wait_event-notified T soon U X Never (Unit {0}) k st.reactor st.handle
                              _ (λ z. tt) lt))
                          (λ _. again))
                      (λ final. record { at = λ s p. ground arith })
              ]))
          (λ e. absurd (ground arith))

    converse-starves :
        (k : ℕ) (st : VclStream) (query : List ℕ)
        → length query ≤ u16_max
        → Hoare Always (converse k st query) Nothing Never (Unit {0})
    unfolding converse write_all
    converse-starves k st query le =
        Hoare-result _ (frame_tcp_dns_query query)
          (λ framed e.
            Hoare-bind _ _ Nothing _ (write_from-starves k st 0 framed (framed_left query framed e))
              (λ _. record { at = λ s p. absurd (ground arith) }))
          (λ e s refused p. not_refused query e le refused)

    query_tcp_dns_async-Nothing :
        (k : ℕ) (peer : SocketAddr) (query : List ℕ) (r : VclReactor) (limit : ℕ)
        → InProgress
        → length query ≤ u16_max
        → soon < limit
        → Hoare Always (query_tcp_dns_async k peer none query r limit) Nothing Never (Unit {0})
    unfolding query_tcp_dns_async open_stream
    query_tcp_dns_async-Nothing k peer query r limit C le in_time =
        Hoare-bind _ _ (λ _. Always) _ (Hoare-host _ (λ s p. tt))
          λ started.
            Hoare-bind _ _ (λ _. Always) _
              (connect_async-passes Never (Unit {0}) C T soon U X k peer none r limit (λ z. tt)
                in_time)
              λ st.
                Hoare-finally (drop_stream st) Nothing Never (converse-starves k st query le)
                  (λ a t q. q) (λ e t q. q)

  After-running :
      {A : Type 0} (x : Exit A) (t : State) → After Nothing Never (Unit {0}) x t → x ≡ running
  After-running (returned (ok a)) t h = ground arith
  After-running (returned (err e)) t h = ground arith
  After-running running t h = refl

  -- While the handshake with the peer is not complete, `query_tcp_dns_async` of a query of at most
  -- 65535 bytes, without a source address, does not return, whatever its time limit is: with any
  -- number of rounds it is still running. The set-up of its session is accepted, each write is refused
  -- as not connected, no event arrives, `Notify` keeps its permits, no two waits are on the same one,
  -- and the ticks of the periodic task come in less time than the limit and 300 s.
  pub query_tcp_dns_async-starves :
      (k : ℕ) (peer : SocketAddr) (query : List ℕ) (r : VclReactor) (limit : ℕ) (s : State)
      → length query ≤ u16_max
      → InProgress
      → NotConnected
      → (T : Ticker) (soon : ℕ) → Unanswered T soon
      → Executor (meanwhile T)
      → soon < secs 300
      → soon < limit
      → (query_tcp_dns_async k peer none query r limit s).0 ≡ running
  query_tcp_dns_async-starves k peer query r limit s le C N T soon U X lt in_time =
      let run = query_tcp_dns_async k peer none query r limit s in
      After-running run.0 run.1
        ((query_tcp_dns_async-Nothing N T soon U X lt k peer query r limit C le in_time).at s tt)
