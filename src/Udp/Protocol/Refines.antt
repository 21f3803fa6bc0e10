-- ===== src/Udp/Protocol/Refines.antt =====
-- `query_udp_sync` of src/dgram.rs keeps to the protocol.
use vcl_rs.Base.{
  ℕ, zero, suc, ◌+◌, ◌≡◌, sym, subst, true, false, Option, none, some, List, ℤ, pos, negsuc,
}
use vcl_rs.Net.{IpAddr, SocketAddr}
use vcl_rs.Error.{VclError, would_block}
use vcl_rs.Ffi.{Vcl, Endpoint}
use vcl_rs.Endpoint.{endpoint_into_buf, zeroed}
use vcl_rs.Machine.{
  Event, State, M, ok, err, call_void, set_registered, gets, when◌then◌else◌, fail, ◌>>=◌,
  worker_register, worker_index, worker_unregister,
}
use vcl_rs.Machine.Hoare.{
  After, Hoare, Hoare-bind, Hoare-cases, Hoare-pure, Hoare-fail, Hoare-when, Hoare-out_of_fuel,
  Hoare-call, Hoare-host, Hoare-advance, Hoare-mono,
}
use vcl_rs.Machine.Runs.{Hoare-finally}
use vcl_rs.Session.{drop_handle}
use vcl_rs.App.{register_worker_thread, registered_as}
use vcl_rs.Udp.{choose_bind_ip, poll_response, query_udp_on, query_udp_sync}
use vcl_rs.Udp.Protocol.{
  Stage, made, bound, listening, asked, answered, Phase, outside, live, gone, Conforms, begins,
  sets_up, closes,
}
use vcl_rs.Udp.Protocol.Rules.{
  At, create_udp-At, bind_ephemeral-At, listen-At, recvfrom-At, datagram_of, sendto-At,
}

module _ ⦃V : Vcl⦄ (peer : Endpoint) (dgram : List ℕ) (base : List Event) where
  abbrev Here : Phase → State → Type 0
  Here p s = At peer dgram base p s

  registered_as-At :
      (idx : ℤ)
      → Hoare (Here outside) (registered_as idx) (λ _. Here outside) (λ _. Here outside) (Unit {0})
  unfolding registered_as call_void set_registered
  registered_as-At (pos n) = record { at = λ s p. p }
  registered_as-At (negsuc n) = record { at = λ s p. sets_up worker_unregister (pos 0) tt p }

  register_worker_thread-At :
      Hoare (Here outside) register_worker_thread (λ _. Here outside) (λ _. Here outside) (Unit {0})
  unfolding register_worker_thread gets
  register_worker_thread-At =
      Hoare-bind _ _ (λ _. Here outside) _ (record { at = λ s p. p })
        λ known.
          Hoare-when known (λ e. Hoare-pure _ (λ s p. p))
            λ e.
              Hoare-bind _ _ (λ _. Here outside) _
                (Hoare-call _ _ (λ s p. sets_up worker_register _ tt p))
                λ _.
                  Hoare-bind _ _ (λ _. Here outside) _
                    (Hoare-call _ _ (λ s p. sets_up worker_index _ tt p))
                    λ idx. registered_as-At idx

  module _ (h : ℕ) where
    choose_bind_ip-At :
        (to : SocketAddr) (source : Option IpAddr)
        → Hoare
            (Here (live h made))
            (choose_bind_ip to source)
            (λ _. Here (live h made))
            (λ _. Here (live h made))
            (Unit {0})
    unfolding choose_bind_ip
    choose_bind_ip-At to none = Hoare-pure _ (λ s p. p)
    choose_bind_ip-At to (some ip) =
        Hoare-when _ (λ e. Hoare-fail _ (λ s p. p)) (λ e. Hoare-pure _ (λ s p. p))

    poll_response-At :
        (k deadline : ℕ)
        → Hoare
            (Here (live h asked))
            (poll_response k h deadline)
            (λ _. Here (live h answered))
            (λ _. Here (live h asked))
            (Unit {0})
    unfolding poll_response
    poll_response-At zero deadline = Hoare-out_of_fuel (λ s p. tt)
    poll_response-At (suc k) deadline = Hoare-cases _ _ _ (recvfrom-At peer dgram base _ h) (elim [
      | ok (n, bytes, from) ↦ Hoare-pure _ (λ s p. p)
      | err would_block ↦
          Hoare-bind _ _ (λ now. Here (live h asked)) _ (Hoare-host _ (λ s p. p))
            (λ now.
              Hoare-when _ (λ e. Hoare-fail _ (λ s p. p))
                (λ e.
                  Hoare-bind _ _ (λ _. Here (live h asked)) _ (Hoare-advance _ (λ s p. p))
                    (λ _. poll_response-At k deadline)))
      | err e ↦ Hoare-fail _ (λ s p. p)
    ])

  drop_handle-At :
      (h : ℕ) (stage : Stage) (s : State)
      → Here (live h stage) s
      → Here (gone h stage) (drop_handle h s).1
  unfolding drop_handle ◌>>=◌
  drop_handle-At h stage s p = closes _ p

module _ ⦃V : Vcl⦄ (peer : SocketAddr) (query : List ℕ) (base : List Event) where
  abbrev pub AtPeer : Phase → State → Type 0
  AtPeer p s = At (endpoint_into_buf peer zeroed) (datagram_of query) base p s

  -- With a session at some stage, or without one.
  abbrev Open : ℕ → VclError → State → Type 0
  Open h e s = (stage : Stage) × AtPeer (live h stage) s

  abbrev pub Over : Phase → Type 0
  Over outside = Unit {0}
  Over (live h stage) = false ≡ true
  Over (gone h stage) = Unit {0}

  to_open :
      {A : Type 0} {P : State → Type 0} {m : M A} {Q : A → State → Type 0} (h : ℕ) (stage : Stage)
      → Hoare P m Q (λ _. AtPeer (live h stage)) (Unit {0})
      → Hoare P m Q (Open h) (Unit {0})
  to_open h stage km = Hoare-mono _ _ (λ a t q. q) (λ e t q. (stage, q)) km

  query_udp_on-At :
      (k h : ℕ) (source : Option IpAddr) (limit : ℕ)
      → Hoare
          (AtPeer (live h made))
          (query_udp_on k h peer source query limit)
          (λ _. AtPeer (live h answered))
          (Open h)
          (Unit {0})
  unfolding query_udp_on when◌then◌else◌ fail
  query_udp_on-At k h source limit =
      let to = endpoint_into_buf peer zeroed in
      let dg = datagram_of query in
      Hoare-bind _ _ _ _ (to_open h made (choose_bind_ip-At to dg base h peer source)) λ ip.
        Hoare-bind _ _ _ _ (to_open h made (bind_ephemeral-At to dg base _ h 8 ip)) (elim [
          | true ↦ Hoare-bind _ _ _ _ (to_open h bound (listen-At to dg base _ h)) λ _.
              Hoare-bind _ _ _ _ (to_open h listening (sendto-At peer query base _ h)) λ _.
                Hoare-bind _ _ (λ _. AtPeer (live h asked)) _ (Hoare-host _ (λ s p. p))
                  λ start. to_open h asked (poll_response-At to dg base h k (start + limit))
          | false ↦ Hoare-fail _ (λ s p. (made, p))
        ])

  -- Every run of `query_udp_sync` that returns is a run of the protocol, in its calls and their
  -- order. With an answer, the session has been created, bound, listening, asked by the query to the
  -- peer (as many of its bytes as its length counts in a `u32`), answered, and closed as the last
  -- call. With an error, it is closed at the stage that it had reached, or was never there.
  pub query_udp_sync-refines :
      (k : ℕ) (source : Option IpAddr) (limit : ℕ) (s : State)
      → s.trace ≡ base
      → let run = query_udp_sync k peer source query limit s in
        After
          (λ _ t. (h : ℕ) × AtPeer (gone h answered) t)
          (λ _ t. (p : Phase) × Over p × AtPeer p t)
          (Unit {0})
          run.0
          run.1
  unfolding query_udp_sync
  query_udp_sync-refines k source limit s e =
      let to = endpoint_into_buf peer zeroed in
      let dg = datagram_of query in
      let nowhere : (err : VclError) (t : State)
          → AtPeer outside t
          → (p : Phase) × Over p × AtPeer p t =
        λ err t q. (outside, tt, q) in
      (Hoare-bind _ _ (λ _. AtPeer outside) _
          (Hoare-mono _ _ (λ a t q. q) nowhere (register_worker_thread-At to dg base))
          λ _.
            Hoare-bind _ _ (λ h. AtPeer (live h made)) _
              (Hoare-mono _ _ (λ a t q. q) nowhere (create_udp-At to dg base _ true))
              λ h.
                Hoare-finally _ (λ _. AtPeer (live h answered)) (Open h)
                  (query_udp_on-At k h source limit)
                  (λ a t q. (h, drop_handle-At to dg base h answered t q))
                  (λ x t (stage, q). (gone h stage, tt, drop_handle-At to dg base h stage t q))).at
        s (subst (λ tr. Conforms to dg base outside tr) (sym e) begins)
