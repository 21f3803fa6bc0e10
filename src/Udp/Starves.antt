-- ===== src/Udp/Starves.antt =====
-- The loop of `VclUdpSyncSocket::query` of src/dgram.rs while datagrams of strangers arrive.
use vcl_rs.Base.{ℕ, ◌≡◌, false, pos}
use vcl_rs.Net.{SocketAddr, ip_eq}
use vcl_rs.Endpoint.{addr_from_endpoint}
use vcl_rs.Ffi.{Vcl}

module _ ⦃V : Vcl⦄ where
  -- Each call on `h` gives a datagram, and none has the address of the peer.
  abbrev pub OnlyStrangers : ℕ → SocketAddr → Type 0
  OnlyStrangers h peer =
      (w : V.World)
      → (n : ℕ) × ((V.session_recvfrom h 4096 0 w).0 ≡ pos n)
        × (ip_eq (addr_from_endpoint (V.session_recvfrom h 4096 0 w).1.1).ip peer.ip ≡ false)
