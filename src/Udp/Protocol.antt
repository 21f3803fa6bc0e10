-- ===== src/Udp/Protocol.antt =====
-- What src/dgram.rs promises libvppcom of one query over UDP: the order of the calls on its session,
-- as a step relation that does not know the code.
pub mod Rules
pub mod Refines
use vcl_rs.Base.{ℕ, ◌≡◌, true, false, List, ◌∷◌, ℤ, pos, negsuc}
use vcl_rs.Ffi.{Endpoint, proto_udp}
use vcl_rs.Machine.{
  Call, Event, session_create, session_close, session_bind, session_listen, session_recvfrom,
  session_sendto, worker_register, worker_unregister, worker_index,
}

-- How far a session has come.
pub data Stage : Type 0 where
  made : Stage
  bound : Stage
  listening : Stage
  asked : Stage
  answered : Stage

-- Before there is a session, while it is open, and once it is closed.
pub data Phase : Type 0 where
  outside : Phase
  live : ℕ → Stage → Phase
  gone : ℕ → Stage → Phase

abbrev pub IsWorker : Call → Type 0
IsWorker worker_register = Unit {0}
IsWorker worker_unregister = Unit {0}
IsWorker worker_index = Unit {0}
IsWorker c = false ≡ true

-- On top of the trace `base`, the calls of one query of `datagram` to `peer`, the latest first.
pub data Conforms (peer : Endpoint) (datagram : List ℕ) (base : List Event)
    : Phase → List Event → Type 0 where
  begins : Conforms peer datagram base outside base
  sets_up :
      {tr : List Event} (c : Call) (rc : ℤ)
      → IsWorker c
      → Conforms peer datagram base outside tr
      → Conforms peer datagram base outside (record { call = c; rc = rc } ∷ tr)
  is_refused :
      {tr : List Event} (flag n : ℕ)
      → Conforms peer datagram base outside tr
      → Conforms peer datagram base outside
          (record { call = session_create proto_udp flag; rc = negsuc n } ∷ tr)
  creates :
      {tr : List Event} (flag h : ℕ)
      → Conforms peer datagram base outside tr
      → Conforms peer datagram base
          (live h made)
          (record { call = session_create proto_udp flag; rc = pos h } ∷ tr)
  cannot_bind :
      {tr : List Event} {h : ℕ} (ep : Endpoint) (n : ℕ)
      → Conforms peer datagram base (live h made) tr
      → Conforms peer datagram base
          (live h made)
          (record { call = session_bind h ep; rc = negsuc n } ∷ tr)
  binds :
      {tr : List Event} {h : ℕ} (ep : Endpoint) (n : ℕ)
      → Conforms peer datagram base (live h made) tr
      → Conforms peer datagram base
          (live h bound)
          (record { call = session_bind h ep; rc = pos n } ∷ tr)
  cannot_listen :
      {tr : List Event} {h : ℕ} (n : ℕ)
      → Conforms peer datagram base (live h bound) tr
      → Conforms peer datagram base
          (live h bound)
          (record { call = session_listen h 0; rc = negsuc n } ∷ tr)
  listens :
      {tr : List Event} {h : ℕ} (n : ℕ)
      → Conforms peer datagram base (live h bound) tr
      → Conforms peer datagram base
          (live h listening)
          (record { call = session_listen h 0; rc = pos n } ∷ tr)
  cannot_send :
      {tr : List Event} {h : ℕ} (n : ℕ)
      → Conforms peer datagram base (live h listening) tr
      → Conforms peer datagram base
          (live h listening)
          (record { call = session_sendto h datagram 0 peer; rc = negsuc n } ∷ tr)
  sends :
      {tr : List Event} {h : ℕ} (n : ℕ)
      → Conforms peer datagram base (live h listening) tr
      → Conforms peer datagram base
          (live h asked)
          (record { call = session_sendto h datagram 0 peer; rc = pos n } ∷ tr)
  polls :
      {tr : List Event} {h : ℕ} (n : ℕ)
      → Conforms peer datagram base (live h asked) tr
      → Conforms peer datagram base
          (live h asked)
          (record { call = session_recvfrom h 4096 0; rc = negsuc n } ∷ tr)
  receives :
      {tr : List Event} {h : ℕ} (n : ℕ)
      → Conforms peer datagram base (live h asked) tr
      → Conforms peer datagram base
          (live h answered)
          (record { call = session_recvfrom h 4096 0; rc = pos n } ∷ tr)
  closes :
      {tr : List Event} {h : ℕ} {stage : Stage} (rc : ℤ)
      → Conforms peer datagram base (live h stage) tr
      → Conforms peer datagram base (gone h stage) (record { call = session_close h; rc = rc } ∷ tr)
