-- ===== src/Udp/Protocol/Rules.antt =====
-- The operations of a session as steps of the protocol.
use vcl_rs.Base.{ℕ, zero, suc, ◌%◌, ◌^◌, Bool, true, false, List, ◌∷◌, length, take, ℤ, pos, negsuc}
use vcl_rs.Net.{IpAddr, SocketAddr}
use vcl_rs.Ffi.{Vcl, Endpoint, proto_udp}
use vcl_rs.Endpoint.{endpoint_into_buf, zeroed}
use vcl_rs.Machine.{
  Event, State, ok, err, session_create, session_bind, session_listen, session_recvfrom,
  session_sendto,
}
use vcl_rs.Machine.Hoare.{
  Hoare, Hoare-bind, Hoare-cases, Hoare-pure, Hoare-fail, Hoare-call, Hoare-call_out, Hoare-host,
}
use vcl_rs.Session.{check, create, create_udp, bind, listen, recvfrom, sendto}
use vcl_rs.Ephemeral.{bind_ephemeral}
use vcl_rs.Udp.Protocol.{
  made, bound, listening, asked, answered, Phase, outside, live, Conforms, is_refused, creates,
  cannot_bind, binds, cannot_listen, listens, cannot_send, sends, polls, receives,
}

module _ ⦃V : Vcl⦄ (peer : Endpoint) (datagram : List ℕ) (base : List Event) where
  -- A state whose trace conforms.
  abbrev pub At : Phase → State → Type 0
  At p s = Conforms peer datagram base p s.trace

  -- After a call with this code, which moves to `good` unless it is an error.
  abbrev Moved : (ℕ → Phase) → Phase → ℤ → List Event → Type 0
  Moved good bad (pos n) tr = Conforms peer datagram base (good n) tr
  Moved good bad (negsuc n) tr = Conforms peer datagram base bad tr

  -- What the search for a port has come to.
  abbrev pub Searched : ℕ → Bool → State → Type 0
  Searched h true = At (live h bound)
  Searched h false = At (live h made)

  module _ (R : Type 0) where
    check-At :
        (good : ℕ → Phase) (bad : Phase) (rc : ℤ)
        → Hoare (λ s. Moved good bad rc s.trace) (check rc) (λ n. At (good n)) (λ _. At bad) R
    unfolding check
    check-At good bad (pos n) = Hoare-pure _ (λ s p. p)
    check-At good bad (negsuc n) = Hoare-fail _ (λ s p. p)

    created :
        (flag : ℕ) (rc : ℤ) (tr : List Event)
        → Conforms peer datagram base outside tr
        → Moved
            (λ h. live h made)
            outside
            rc
            (record { call = session_create proto_udp flag; rc = rc } ∷ tr)
    created flag (pos h) tr c = creates flag h c
    created flag (negsuc n) tr c = is_refused flag n c

    pub create_udp-At :
        (nonblocking : Bool)
        → Hoare (At outside) (create_udp nonblocking) (λ h. At (live h made)) (λ _. At outside) R
    unfolding create_udp create
    create_udp-At nonblocking =
        Hoare-bind _ _ (λ rc s. Moved (λ h. live h made) outside rc s.trace) _
          (Hoare-call _ _ (λ s p. created _ _ s.trace p))
          (λ rc. check-At (λ h. live h made) outside rc)

    module _ (h : ℕ) where
      bind_moved :
          (ep : Endpoint) (rc : ℤ) (tr : List Event)
          → Conforms peer datagram base (live h made) tr
          → Moved
              (λ _. live h bound)
              (live h made)
              rc
              (record { call = session_bind h ep; rc = rc } ∷ tr)
      bind_moved ep (pos n) tr c = binds ep n c
      bind_moved ep (negsuc n) tr c = cannot_bind ep n c

      bind-At :
          (addr : SocketAddr)
          → Hoare
              (At (live h made))
              (bind h addr)
              (λ _. At (live h bound))
              (λ _. At (live h made))
              R
      unfolding bind
      bind-At addr =
          Hoare-bind _ _ (λ rc s. Moved (λ _. live h bound) (live h made) rc s.trace) _
            (Hoare-call _ _ (λ s p. bind_moved _ _ s.trace p))
            (λ rc.
              Hoare-bind _ _ _ _ (check-At (λ _. live h bound) (live h made) rc)
                (λ n. Hoare-pure _ (λ s p. p)))

      pub bind_ephemeral-At :
          (rounds : ℕ) (ip : IpAddr)
          → Hoare
              (At (live h made))
              (bind_ephemeral rounds h ip)
              (Searched h)
              (λ _. At (live h made))
              R
      unfolding bind_ephemeral
      bind_ephemeral-At zero ip = Hoare-pure _ (λ s p. p)
      bind_ephemeral-At (suc rounds) ip =
          Hoare-bind _ _ (λ port. At (live h made)) _ (Hoare-host _ (λ s p. p))
            (λ port.
              Hoare-cases _ _ _ (bind-At _)
                (elim [ ok _ ↦ Hoare-pure _ (λ s p. p) | err e ↦ bind_ephemeral-At rounds ip ]))

      listen_moved :
          (rc : ℤ) (tr : List Event)
          → Conforms peer datagram base (live h bound) tr
          → Moved
              (λ _. live h listening)
              (live h bound)
              rc
              (record { call = session_listen h 0; rc = rc } ∷ tr)
      listen_moved (pos n) tr c = listens n c
      listen_moved (negsuc n) tr c = cannot_listen n c

      pub listen-At :
          Hoare
            (At (live h bound))
            (listen h 0)
            (λ _. At (live h listening))
            (λ _. At (live h bound))
            R
      unfolding listen
      listen-At =
          Hoare-bind _ _ (λ rc s. Moved (λ _. live h listening) (live h bound) rc s.trace) _
            (Hoare-call _ _ (λ s p. listen_moved _ s.trace p))
            (λ rc.
              Hoare-bind _ _ _ _ (check-At (λ _. live h listening) (live h bound) rc)
                (λ n. Hoare-pure _ (λ s p. p)))

      send_moved :
          (rc : ℤ) (tr : List Event)
          → Conforms peer datagram base (live h listening) tr
          → Moved
              (λ _. live h asked)
              (live h listening)
              rc
              (record { call = session_sendto h datagram 0 peer; rc = rc } ∷ tr)
      send_moved (pos n) tr c = sends n c
      send_moved (negsuc n) tr c = cannot_send n c

      receive_moved :
          (rc : ℤ) (tr : List Event)
          → Conforms peer datagram base (live h asked) tr
          → Moved
              (λ _. live h answered)
              (live h asked)
              rc
              (record { call = session_recvfrom h 4096 0; rc = rc } ∷ tr)
      receive_moved (pos n) tr c = receives n c
      receive_moved (negsuc n) tr c = polls n c

      pub recvfrom-At :
          Hoare
            (At (live h asked))
            (recvfrom h 4096)
            (λ _. At (live h answered))
            (λ _. At (live h asked))
            R
      unfolding recvfrom
      recvfrom-At =
          Hoare-bind _ _ (λ (rc, out) s. Moved (λ _. live h answered) (live h asked) rc s.trace) _
            (Hoare-call_out _ _ (λ s p. receive_moved _ s.trace p))
            (λ (rc, out).
              Hoare-bind _ _ _ _ (check-At (λ _. live h answered) (live h asked) rc)
                (λ n. Hoare-pure _ (λ s p. p)))

-- The bytes that `sendto` passes on: the length is converted to `u32`.
abbrev pub datagram_of : List ℕ → List ℕ
datagram_of query = take (length query % 2 ^ 32) query

module _ ⦃V : Vcl⦄ (dst : SocketAddr) (query : List ℕ) (base : List Event) (R : Type 0)
    (h : ℕ) where
  pub sendto-At :
      let to = endpoint_into_buf dst zeroed in
      Hoare
        (At to (datagram_of query) base (live h listening))
        (sendto h query dst)
        (λ _. At to (datagram_of query) base (live h asked))
        (λ _. At to (datagram_of query) base (live h listening))
        R
  unfolding sendto
  sendto-At =
      let to = endpoint_into_buf dst zeroed in
      Hoare-bind _ _
        (λ rc s.
          Moved to (datagram_of query) base (λ _. live h asked) (live h listening) rc s.trace)
        _ (Hoare-call _ _ (λ s p. send_moved to (datagram_of query) base R h _ s.trace p))
        (λ rc. check-At to (datagram_of query) base R (λ _. live h asked) (live h listening) rc)
