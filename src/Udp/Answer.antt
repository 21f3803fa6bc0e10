-- ===== src/Udp/Answer.antt =====
-- What the synchronous UDP clients return.
use vcl_rs.Base.{
  ℕ, zero, suc, ◌+◌, subst, ◌≤◌, ◌≡◌, ◌≢◌, refl, Bool, true, false, not, List, length, length-take,
  length-overlay, length-replicate, arith, overlay,
}
use vcl_rs.Net.{SocketAddr, ip_eq}
use vcl_rs.Error.{would_block}
use vcl_rs.Ffi.{Vcl}
use vcl_rs.Machine.{State, returned, ok}
use vcl_rs.Machine.Hoare.{
  After, Hoare, Hoare-bind, Hoare-match, Hoare-pure, Hoare-fail, Hoare-out_of_fuel, Hoare-when,
  Hoare-Anything, Hoare-mono, Hoare-host, Hoare-advance, Anything, Always,
}
use vcl_rs.Udp.{buffer, datagram, poll_peer, sync_query}

length-buffer : (n : ℕ) → length (buffer n) ≡ n
unfolding buffer
length-buffer n = length-replicate n 0

pub length-datagram : (n : ℕ) (bytes : List ℕ) → length (datagram n bytes) ≤ 4096
unfolding datagram
length-datagram n bytes = omega (
  arith,
  length-take n (overlay (buffer 4096) bytes),
  length-overlay (buffer 4096) bytes,
  length-buffer 4096,
)

not-false : (b : Bool) → not b ≡ false → b ≡ true
not-false true h = refl
not-false false h = ground arith

module _ ⦃V : Vcl⦄ where
  -- An answer of the peer that fits the buffer.
  abbrev FromPeer : SocketAddr → List ℕ × SocketAddr → State → Type 0
  FromPeer peer r s = (ip_eq r.1.ip peer.ip ≡ true) × (length r.0 ≤ 4096)

  poll_peer-FromPeer :
      (k h : ℕ) (peer : SocketAddr) (deadline : ℕ)
      → Hoare Always
          (poll_peer k h peer deadline)
          (FromPeer peer)
          (λ e s. e ≢ would_block)
          (Unit {0})
  unfolding poll_peer
  poll_peer-FromPeer zero h peer deadline = Hoare-out_of_fuel (λ s p. tt)
  poll_peer-FromPeer (suc k) h peer deadline =
      let again = poll_peer-FromPeer k h peer deadline in
      Hoare-match _ _ _ Anything Anything _ (Hoare-Anything _)
        (λ (n, bytes, from).
          Hoare-when _ (λ e. again)
            (λ e. Hoare-pure _ (λ s p. (not-false _ e, length-datagram n bytes))))
        (elim [
          | would_block ↦ Hoare-bind _ _ Anything _ (Hoare-host _ (λ s p. tt)) (λ now.
              Hoare-when _ (λ e. Hoare-fail _ (λ s p. ground arith))
                (λ e. Hoare-bind _ _ (λ _. Always) _ (Hoare-advance _ (λ s p. tt)) (λ u. again)))
          | e ↦ Hoare-fail _ (λ s p. ground arith)
        ])

  sync_query-FromPeer :
      (k h : ℕ) (peer : SocketAddr) (query : List ℕ) (limit : ℕ)
      → Hoare Always (sync_query k h peer query limit) (FromPeer peer) Anything (Unit {0})
  unfolding sync_query
  sync_query-FromPeer k h peer query limit = Hoare-bind _ _ Anything _ (Hoare-Anything _) λ n.
      Hoare-bind _ _ Anything _ (Hoare-Anything _) λ start.
        Hoare-mono _ _ (λ r t q. q) (λ e t q. tt) (poll_peer-FromPeer k h peer (start + limit))

  -- A datagram that `VclUdpSyncSocket::query` returns has the address of the peer, whatever else
  -- arrived before it, and is no longer than the buffer of 4096 bytes.
  pub sync_query-from_peer :
      (k h : ℕ) (peer : SocketAddr) (query : List ℕ) (limit : ℕ) (s : State) (bytes : List ℕ)
      (from : SocketAddr) (t : State)
      → sync_query k h peer query limit s ≡ (returned (ok (bytes, from)), t)
      → (ip_eq from.ip peer.ip ≡ true) × (length bytes ≤ 4096)
  sync_query-from_peer k h peer query limit s bytes from t e =
      subst (λ r. After (FromPeer peer) Anything (Unit {0}) r.0 r.1) e
        ((sync_query-FromPeer k h peer query limit).at s tt)
