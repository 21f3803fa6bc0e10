-- ===== src/Dgram/Ownership.antt =====
-- What `VclDgramSocket` holds: its session, from `bind` to its drop.
use vcl_rs.Base.{refl, ℕ, zero, suc, ◌≡◌, true, Option, none, some, List, [], ◌∷◌}
use vcl_rs.Net.{SocketAddr}
use vcl_rs.Error.{VclError, would_block, timeout}
use vcl_rs.Ffi.{Vcl}
use vcl_rs.Machine.{M, ok, err, ◌>>=◌}
use vcl_rs.Machine.Balance.{
  Balanced, Triple, Triple-bind, Balanced-bind, Balanced-then, Balanced-host, balanced_rules,
}
use vcl_rs.Machine.Scopes.{Drops, Triple-match, Triple-on_err, Triple-pure, Triple-fail}
use vcl_rs.Session.Balance.{
  session_rules, bind-Balanced, listen-Balanced, create_udp-Triple, drop_handle-Drops,
}
use vcl_rs.Session.{drop_handle}
use vcl_rs.App.Balance.{register_worker_thread-Balanced}
use vcl_rs.Reactor.{VclReactor, deregister}
use vcl_rs.Reactor.Balance.{register-Balanced, deregister-Steady, reactor_rules}
use vcl_rs.Verify.Ownership.{Answers, verify_bind_or_err-Balanced}
use vcl_rs.Dgram.{
  VclDgramSocket, bind_setup, bind, try_address, bind_random, recv_from, send_to, drop_socket,
}
use vcl_rs.Base.{◌≡◌, [], ◌∷◌, true, some}
use vcl_rs.Machine.{State}
use vcl_rs.Machine.Ledger.{ledger}
use vcl_rs.Machine.Balance.{Leaves}

module _ ⦃V : Vcl⦄ where
  module _ (answers : (h : ℕ) → Answers h) where
    bind_setup-Balanced :
        (k h : ℕ) (addr : SocketAddr) (r : VclReactor) → Balanced (bind_setup k h addr r)
    unfolding bind_setup
    bind_setup-Balanced k h addr r = Balanced-then _ _ (bind-Balanced h addr) (
        Balanced-then _ _ (listen-Balanced h 0) (
          Balanced-then _ _ (verify_bind_or_err-Balanced h (answers h) k addr)
            (register-Balanced r h)))

    -- Where libvppcom can tell local addresses, `bind` hands over a socket that holds the one handle
    -- that is new, or holds nothing new and fails.
    pub bind-Triple :
        (pre : List ℕ) (k : ℕ) (addr : SocketAddr) (r : VclReactor)
        → Triple pre (bind k addr r) (λ sock. sock.handle ∷ pre) pre
    unfolding bind
    bind-Triple pre k addr r = Triple-bind (register_worker_thread-Balanced.keeps pre) λ _.
        Triple-bind (create_udp-Triple pre true) λ h.
          Triple-bind (Triple-on_err h _ (drop_handle-Drops h) pre (bind_setup-Balanced k h addr r))
            λ _. Triple-pure _ (λ (sock : VclDgramSocket). sock.handle ∷ pre) pre

    module _ (pre : List ℕ) where
      abbrev holding : VclDgramSocket → List ℕ
      holding sock = sock.handle ∷ pre

      try_address-Triple :
          (again : Option VclError → M VclDgramSocket) (k : ℕ) (r : VclReactor)
          (o : Option SocketAddr)
          → ((last : Option VclError) → Triple pre (again last) holding pre)
          → Triple pre (try_address again k r o) holding pre
      unfolding try_address
      try_address-Triple again k r none more = Triple-fail _ holding pre
      try_address-Triple again k r (some addr) more =
          Triple-match _ _ holding pre holding pre (bind-Triple pre k addr r)
            (λ sock. Triple-pure sock holding pre) (λ e. more (some e))

      -- The same of the binding to a random port, whatever the text of the address parses to.
      pub bind_random-Triple :
          (k rounds : ℕ) (address : ℕ → Option SocketAddr) (r : VclReactor) (last : Option VclError)
          → Triple pre (bind_random k rounds address r last) holding pre
      unfolding bind_random
      bind_random-Triple k zero address r last = Triple-fail _ holding pre
      bind_random-Triple k (suc rounds) address r last =
          Triple-bind ((Balanced-host _).keeps pre)
            λ port. try_address-Triple _ k r (address port) (bind_random-Triple k rounds address r)

  pub recv_from-Balanced :
      (k : ℕ) (sock : VclDgramSocket) (size : ℕ) → Balanced (recv_from k sock size)
  unfolding recv_from
  recv_from-Balanced zero sock size = search balanced_rules
  recv_from-Balanced (suc k) sock size =
      let again = recv_from-Balanced k sock size in
      Balanced-bind _ _ (search session_rules) (elim [
        | ok got ↦ search balanced_rules
        | err would_block ↦
            Balanced-bind _ _ (search reactor_rules)
              (elim [ ok _ ↦ again | err timeout ↦ again | err e ↦ search balanced_rules ])
        | err e ↦ search balanced_rules
      ])

  pub send_to-Balanced :
      (k : ℕ) (sock : VclDgramSocket) (buf : List ℕ) (dst : SocketAddr)
      → Balanced (send_to k sock buf dst)
  unfolding send_to
  send_to-Balanced zero sock buf dst = search balanced_rules
  send_to-Balanced (suc k) sock buf dst =
      let again = send_to-Balanced k sock buf dst in
      Balanced-bind _ _ (search session_rules) (elim [
        | ok n ↦ search balanced_rules
        | err would_block ↦ search reactor_rules
        | err e ↦ search balanced_rules
      ])

  pub drop_socket-Drops : (sock : VclDgramSocket) → Drops sock.handle (drop_socket sock)
  unfolding drop_socket deregister drop_handle ◌>>=◌
  drop_socket-Drops sock = record {
    closes = λ pre bad.
        Triple-bind ((deregister-Steady sock.reactor sock.handle).stays (sock.handle ∷ pre) bad)
          λ _. (drop_handle-Drops sock.handle).closes pre bad;
    returns = λ s. refl;
  }

  -- The drop of a socket gives up its handle, and nothing else.
  pub drop_socket-Triple :
      (pre : List ℕ) (sock : VclDgramSocket)
      → Triple (sock.handle ∷ pre) (drop_socket sock) (λ _. pre) pre
  drop_socket-Triple pre sock = (drop_socket-Drops sock).closes pre pre

  -- Where libvppcom can tell local addresses, `VclDgramSocket::bind` leaves one more open session,
  -- the socket's, if it returns a socket, and neither a session nor an epoll set if it returns an
  -- error.
  pub dgram_bind-owns :
      ((h : ℕ) → Answers h)
      → (k : ℕ) (addr : SocketAddr) (r : VclReactor) (held : List ℕ) (s : State)
      → ledger s.trace ≡ some held
      → Leaves (λ sock. sock.handle ∷ []) [] (some held) (bind k addr r s).0 (bind k addr r s).1
  dgram_bind-owns answers k addr r held s e = (bind-Triple answers [] k addr r).at (some held) s e

  -- The same of the binding to a random port: a failed attempt leaves nothing open, whatever the
  -- text of its address parses to and however many attempts there are.
  pub bind_random-owns :
      ((h : ℕ) → Answers h)
      → (k rounds : ℕ) (address : ℕ → Option SocketAddr) (r : VclReactor) (last : Option VclError)
        (held : List ℕ) (s : State)
      → ledger s.trace ≡ some held
      → Leaves
          (λ sock. sock.handle ∷ [])
          []
          (some held)
          (bind_random k rounds address r last s).0
          (bind_random k rounds address r last s).1
  bind_random-owns answers k rounds address r last held s e =
      (bind_random-Triple answers [] k rounds address r last).at (some held) s e
