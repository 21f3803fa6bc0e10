-- ===== src/Listener/Ownership.antt =====
-- What `VclListener` holds, and what `accept` hands over.
use vcl_rs.Base.{ℕ, Bool, zero, suc, true, List, [], ◌∷◌, Option, some, ◌≡◌}
use vcl_rs.Net.{SocketAddr, IpAddr}
use vcl_rs.Error.{VclError, would_block, timeout}
use vcl_rs.Ffi.{Vcl}
use vcl_rs.Machine.Balance.{Triple, Triple-bind, Balanced-then}
use vcl_rs.Machine.Scopes.{
  Triple-match, Triple-on_err, Triple-pure, Triple-fail, Triple-out_of_fuel,
}
use vcl_rs.Session.Balance.{
  accept-Triple, bind-Balanced, listen-Balanced, create_tcp-Triple, drop_handle-Drops,
}
use vcl_rs.App.Balance.{register_worker_thread-Balanced}
use vcl_rs.Reactor.{VclReactor}
use vcl_rs.Reactor.Balance.{register-Balanced, wait_readable-Balanced}
use vcl_rs.Verify.Ownership.{Answers, verify_bind_or_err-Balanced}
use vcl_rs.Stream.{VclStream, connect_async}
use vcl_rs.Stream.Ownership.{from_accepted-Triple, connect_async-owns}
use vcl_rs.Udp.{sync_bind}
use vcl_rs.Udp.Ownership.{sync_bind-owns}
use vcl_rs.Dgram
use vcl_rs.Dgram.Ownership.{dgram_bind-owns, bind_random-owns}
use vcl_rs.Listener.{VclListener, bind, admit, accept}
use vcl_rs.Machine.{State}
use vcl_rs.Machine.Ledger.{ledger}
use vcl_rs.Machine.Balance.{Leaves}

module _ ⦃V : Vcl⦄ where
  -- Where libvppcom can tell local addresses, `bind` hands over a listener that holds the one handle
  -- that is new, or holds nothing new and fails.
  pub listener_bind-Triple :
      ((h : ℕ) → Answers h)
      → (pre : List ℕ) (k : ℕ) (addr : SocketAddr) (r : VclReactor)
      → Triple pre (bind k addr r) (λ l. l.handle ∷ pre) pre
  unfolding bind
  listener_bind-Triple answers pre k addr r =
      Triple-bind (register_worker_thread-Balanced.keeps pre) λ _.
        Triple-bind (create_tcp-Triple pre true) λ h.
          Triple-bind
            (Triple-on_err h _ (drop_handle-Drops h) pre (
              Balanced-then _ _ (bind-Balanced h addr) (
                Balanced-then _ _ (listen-Balanced h 128) (
                  Balanced-then _ _ (verify_bind_or_err-Balanced h (answers h) k addr)
                    (register-Balanced r h)))))
            λ _. Triple-pure _ (λ (l : VclListener). l.handle ∷ pre) pre

  module _ (pre : List ℕ) where
    abbrev accepted : VclStream × SocketAddr → List ℕ
    accepted (st, peer) = st.handle ∷ pre

    admit-Triple :
        (r : VclReactor) (h : ℕ) (peer : SocketAddr)
        → Triple (h ∷ pre) (admit r (h, peer)) accepted pre
    unfolding admit
    admit-Triple r h peer =
        Triple-bind (Triple-on_err h _ (drop_handle-Drops h) pre (register-Balanced r h))
          λ _. Triple-bind (from_accepted-Triple pre h r) λ st. Triple-pure (st, peer) accepted pre

    -- `accept` hands over a stream that holds the one handle that is new, the connection's, or
    -- holds nothing new and fails: a connection whose set-up fails is closed.
    pub listener_accept-Triple : (k : ℕ) (l : VclListener) → Triple pre (accept k l) accepted pre
    unfolding accept
    listener_accept-Triple zero l = Triple-out_of_fuel pre accepted pre
    listener_accept-Triple (suc k) l =
        Triple-match _ _ _ _ accepted pre (accept-Triple pre l.handle)
          (λ client. admit-Triple l.reactor client.0 client.1)
          (elim [
            | would_block ↦
                Triple-match _ _ (λ _. pre) pre accepted pre
                  ((wait_readable-Balanced k l.reactor l.handle _).keeps pre)
                  (λ _. listener_accept-Triple k l)
                  (elim [ timeout ↦ listener_accept-Triple k l | e ↦ Triple-fail e accepted pre ])
            | e ↦ Triple-fail e accepted pre
          ])

  -- Where libvppcom can tell local addresses, `VclListener::bind` leaves one more open session, the
  -- listener's, if it returns a listener, and neither a session nor an epoll set if it returns an
  -- error.
  pub listener_bind-owns :
      ((h : ℕ) → Answers h)
      → (k : ℕ) (addr : SocketAddr) (r : VclReactor) (held : List ℕ) (s : State)
      → ledger s.trace ≡ some held
      → Leaves (λ l. l.handle ∷ []) [] (some held) (bind k addr r s).0 (bind k addr r s).1
  listener_bind-owns answers k addr r held s e =
      (listener_bind-Triple answers [] k addr r).at (some held) s e

  -- Where libvppcom can tell local addresses, each way of binding leaves one more open session, that
  -- of the listener or socket which it returns, if it returns one, and neither a session nor an epoll
  -- set if it returns an error: `VclListener::bind`, `VclDgramSocket::bind`, the binding to a random
  -- port, whose failed attempts leave nothing open either, whatever the text of their addresses
  -- parses to and however many there are, and `VclUdpSyncSocket::bind`.
  pub binds-own :
      ((h : ℕ) → Answers h)
      → (k : ℕ) (addr : SocketAddr) (r : VclReactor) (rounds : ℕ) (address : ℕ → Option SocketAddr)
        (last : Option VclError) (source : Option IpAddr) (is_v6 : Bool) (held : List ℕ) (s : State)
      → ledger s.trace ≡ some held
      → Leaves (λ l. l.handle ∷ []) [] (some held) (bind k addr r s).0 (bind k addr r s).1
        × Leaves
            (λ sock. sock.handle ∷ [])
            []
            (some held)
            (Dgram.bind k addr r s).0
            (Dgram.bind k addr r s).1
        × Leaves
            (λ sock. sock.handle ∷ [])
            []
            (some held)
            (Dgram.bind_random k rounds address r last s).0
            (Dgram.bind_random k rounds address r last s).1
        × Leaves
            (λ h. h ∷ [])
            []
            (some held)
            (sync_bind source is_v6 s).0
            (sync_bind source is_v6 s).1
  binds-own answers k addr r rounds address last source is_v6 held s e = (
    listener_bind-owns answers k addr r held s e,
    dgram_bind-owns answers k addr r held s e,
    bind_random-owns answers k rounds address r last held s e,
    (sync_bind-owns source is_v6 held s e).1,
  )

  -- `VclListener::accept` leaves one more open session, that of the stream which it returns, if it
  -- returns one, and none if it returns an error, however often it had to wait.
  pub listener_accept-owns :
      (k : ℕ) (l : VclListener) (held : List ℕ) (s : State)
      → ledger s.trace ≡ some held
      → Leaves (λ c. c.0.handle ∷ []) [] (some held) (accept k l s).0 (accept k l s).1
  listener_accept-owns k l held s e = (listener_accept-Triple [] k l).at (some held) s e

  -- `connect_async` and `VclListener::accept` each leave one more open session, that of the stream
  -- which they return, if they return one, and none if they return an error, however often they had
  -- to wait.
  pub streams-own :
      (k : ℕ) (addr : SocketAddr) (source : Option SocketAddr) (r : VclReactor) (limit : ℕ)
      (l : VclListener) (held : List ℕ) (s : State)
      → ledger s.trace ≡ some held
      → Leaves
          (λ st. st.handle ∷ [])
          []
          (some held)
          (connect_async k addr source r limit s).0
          (connect_async k addr source r limit s).1
        × Leaves (λ c. c.0.handle ∷ []) [] (some held) (accept k l s).0 (accept k l s).1
  streams-own k addr source r limit l held s e =
      (connect_async-owns k addr source r limit held s e, listener_accept-owns k l held s e)
