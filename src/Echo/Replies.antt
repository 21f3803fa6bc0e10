-- ===== src/Echo/Replies.antt =====
-- What examples/udp_echo.rs sends back.
use vcl_rs.Base.{
  ℕ, zero, suc, ◌≤◌, ◌≡◌, refl, sym, ◌∙◌, ap, subst, true, false, List, [], ◌∷◌, ◌++◌, ℤ, pos,
  negsuc, length, overlay, take_all, take-overlay, length-overlay, append_nil, arith,
}
use vcl_rs.Net.{SocketAddr}
use vcl_rs.Error.{VclError, would_block, timeout}
use vcl_rs.Ffi.{Vcl, Endpoint}
use vcl_rs.Endpoint.{endpoint_into_buf, addr_from_endpoint, zeroed}
use vcl_rs.Endpoint.RoundTrip.{IsEndpoint, returned_address}
use vcl_rs.Machine.{State, Result, returned, ok, err, pure, ◌>>=◌}
use vcl_rs.Machine.Hoare.{
  After, Hoare, Hoare-bind, Hoare-cases, Hoare-pure, Hoare-fail, Hoare-out_of_fuel, Hoare-call,
  Hoare-call_out, Hoare-mono,
}
use vcl_rs.Session.{check, recvfrom, sendto}
use vcl_rs.Reactor.{VclReactor}
use vcl_rs.Reactor.Keeps.{wait_readable-Within, wait_writable-Within}
use vcl_rs.Reactor.Apart.{Apart, Apart-WaitKeeps}
use vcl_rs.Dgram.{VclDgramSocket, recv_from, send_to}
use vcl_rs.Echo.{buf_len, echo}

-- A datagram, with its peer.
abbrev pub Datagram : Type 0
Datagram = List ℕ × SocketAddr

module _ ⦃V : Vcl⦄ where
  -- The datagrams that have been taken from session `h`, and those that it has accepted, the latest
  -- last. A count is that of the bytes written, and what fails moves no datagram.
  pub record Mailbox (h : ℕ) : Type 0 where
    pub received : V.World → List Datagram
    pub sent : V.World → List Datagram
    pub arrives :
        (size c : ℕ) (w : V.World)
        → let (rc, out, v) = V.session_recvfrom h size 0 w in
          rc ≡ pos c
          → (c ≤ size)
            × (length out.0 ≡ c)
            × IsEndpoint out.1
            × (received v ≡ received w ++ (out.0, addr_from_endpoint out.1) ∷ [])
            × (sent v ≡ sent w)
    pub stays :
        (size n : ℕ) (w : V.World)
        → let (rc, out, v) = V.session_recvfrom h size 0 w in
          rc ≡ negsuc n → (received v ≡ received w) × (sent v ≡ sent w)
    pub leaves :
        (buf : List ℕ) (ep : Endpoint) (c : ℕ) (w : V.World)
        → let (rc, v) = V.session_sendto h buf 0 ep w in
          rc ≡ pos c
          → (received v ≡ received w) × (sent v ≡ sent w ++ (buf, addr_from_endpoint ep) ∷ [])
    pub refused :
        (buf : List ℕ) (ep : Endpoint) (n : ℕ) (w : V.World)
        → let (rc, v) = V.session_sendto h buf 0 ep w in
          rc ≡ negsuc n → (received v ≡ received w) × (sent v ≡ sent w)

  module _ (h : ℕ) (B : Mailbox h) where
    -- No datagram moves.
    abbrev pub Unmoved : V.World → V.World → Type 0
    Unmoved w v = (B.received v ≡ B.received w) × (B.sent v ≡ B.sent w)

    -- Every datagram has been sent back; every one but the last, which is `d`.
    abbrev pub Even : V.World → Type 0
    Even w = B.sent w ≡ B.received w

    abbrev pub Owing : Datagram → V.World → Type 0
    Owing d w = B.received w ≡ B.sent w ++ d ∷ []

    Even-Unmoved : (w v : V.World) → Even w → Unmoved w v → Even v
    Even-Unmoved w v e u = u.1 ∙ e ∙ sym u.0

    Owing-Unmoved : (d : Datagram) (w v : V.World) → Owing d w → Unmoved w v → Owing d v
    Owing-Unmoved d w v e u = u.0 ∙ e ∙ ap (λ xs. xs ++ d ∷ []) (sym u.1)

    -- A datagram as `recv_from` returns it, which is owed an answer.
    abbrev Got : ℕ × List ℕ × SocketAddr → State → Type 0
    Got (n, bytes, peer) s =
        (n ≤ buf_len)
        × (length bytes ≡ n)
        × (addr_from_endpoint (endpoint_into_buf peer zeroed) ≡ peer)
        × Owing (bytes, peer) s.world

    abbrev Owed : Datagram → State → Type 0
    Owed d s = Owing d s.world

    abbrev Settled : State → Type 0
    Settled s = Even s.world

    -- What a call of `session_recvfrom` has done, by its code.
    abbrev Outcome : ℤ → List ℕ × Endpoint → State → Type 0
    Outcome (pos n) out s = Got (n, out.0, addr_from_endpoint out.1) s
    Outcome (negsuc n) out s = Settled s

    received-Outcome :
        (s t : State) (rc : ℤ)
        → (V.session_recvfrom h buf_len 0 s.world).0 ≡ rc
        → t.world ≡ (V.session_recvfrom h buf_len 0 s.world).2
        → Settled s
        → Outcome rc (V.session_recvfrom h buf_len 0 s.world).1 t
    received-Outcome s t (pos c) e at p =
        let (le, len, ok_ep, taken, still) = B.arrives buf_len c s.world e in
        let out = (V.session_recvfrom h buf_len 0 s.world).1 in
        (
          le,
          len,
          returned_address _ ok_ep,
          rw at (taken ∙ ap (λ xs. xs ++ (out.0, addr_from_endpoint out.1) ∷ []) (sym (still ∙ p))),
        )
    received-Outcome s t (negsuc n) e at p =
        rw at (Even-Unmoved s.world _ p (B.stays buf_len n s.world e))

    checked :
        (rc : ℤ) (out : List ℕ × Endpoint)
        → Hoare
            (Outcome rc out)
            (check rc >>= λ count. pure (count, out.0, addr_from_endpoint out.1))
            Got
            (λ e. Settled)
            (Unit {0})
    unfolding check
    checked (pos n) out =
        Hoare-bind _ _ (λ a. Outcome (pos a) out) _ (Hoare-pure _ (λ s p. p))
          (λ a. Hoare-pure _ (λ s p. p))
    checked (negsuc n) out =
        Hoare-bind _ _ (λ a. Outcome (pos a) out) _ (Hoare-fail _ (λ s p. p))
          (λ a. Hoare-pure _ (λ s p. p))

    recvfrom-Got : Hoare Settled (recvfrom h buf_len) Got (λ e. Settled) (Unit {0})
    unfolding recvfrom
    recvfrom-Got =
        Hoare-bind _ _ (λ (rc, out). Outcome rc out) _
          (Hoare-call_out _ _ (λ s p. received-Outcome s _ _ refl refl p))
          (λ (rc, out). checked rc out)

    -- All but at most the last datagram have been sent back, in order.
    abbrev pub Replied : State → Type 0
    Replied s =
        (last : List Datagram) × (length last ≤ 1) × (B.received s.world ≡ B.sent s.world ++ last)

    Replied-Settled : (s : State) → Settled s → Replied s
    Replied-Settled s p = ([], omega arith, sym p ∙ sym (append_nil (B.sent s.world)))

    Replied-Owed : (d : Datagram) (s : State) → Owed d s → Replied s
    Replied-Owed d s p = (d ∷ [], omega arith, p)

    module _ (Q : Apart Unmoved) (r : VclReactor) where
      abbrev sock : VclDgramSocket
      sock = record { handle = h; reactor = r }

      recv_from-Got :
          (k : ℕ) → Hoare Settled (recv_from k sock buf_len) Got (λ e. Settled) (Unit {0})
      unfolding recv_from
      recv_from-Got zero = Hoare-out_of_fuel (λ s p. tt)
      recv_from-Got (suc k) =
          let again = recv_from-Got k in
          let K = Apart-WaitKeeps Unmoved Q Even Even-Unmoved in
          Hoare-cases _ Got (λ e. Settled) recvfrom-Got
            (elim [
              | ok got ↦ Hoare-pure _ (λ s p. p)
              | err would_block ↦
                  Hoare-cases _ (λ _. Settled) (λ e. Settled)
                    (Hoare-mono _ _ (λ a t q. q) (λ e t q. q.1)
                      (wait_readable-Within (λ w ws. Even w) K k r h _))
                    (elim [ ok _ ↦ again | err timeout ↦ again | err e ↦ Hoare-fail _ (λ s p. p) ])
              | err e ↦ Hoare-fail _ (λ s p. p)
            ])

      -- What a call of `session_sendto` has done.
      abbrev Answered : Datagram → ℤ → State → Type 0
      Answered d (pos n) s = Settled s
      Answered d (negsuc n) s = Owed d s

      sent-Answered :
          (msg bytes : List ℕ) (peer : SocketAddr) (s t : State) (rc : ℤ)
          → let ep = endpoint_into_buf peer zeroed in
            (V.session_sendto h msg 0 ep s.world).0 ≡ rc
            → t.world ≡ (V.session_sendto h msg 0 ep s.world).1
            → msg ≡ bytes
            → addr_from_endpoint ep ≡ peer
            → Owed (bytes, peer) s
            → Answered (bytes, peer) rc t
      sent-Answered msg bytes peer s t (pos c) e at whole same p =
          let (still, put) = B.leaves msg _ c s.world e in
          let reply : Path Datagram (msg, addr_from_endpoint (endpoint_into_buf peer zeroed))
              (bytes, peer) =
            λ i. (whole i, same i) in
          rw at (put ∙ ap (λ d. B.sent s.world ++ d ∷ []) reply ∙ sym p ∙ sym still)
      sent-Answered msg bytes peer s t (negsuc n) e at whole same p =
          rw at (Owing-Unmoved (bytes, peer) s.world _ p (B.refused msg _ n s.world e))

      check-Answered :
          (d : Datagram) (rc : ℤ)
          → Hoare (Answered d rc) (check rc) (λ _. Settled) (λ e. Owed d) (Unit {0})
      unfolding check
      check-Answered d (pos n) = Hoare-pure _ (λ s p. p)
      check-Answered d (negsuc n) = Hoare-fail _ (λ s p. p)

      module _ (bytes : List ℕ) (peer : SocketAddr) (fits : length bytes ≤ buf_len)
          (same : addr_from_endpoint (endpoint_into_buf peer zeroed) ≡ peer) where
        sendto-Settled :
            Hoare
              (Owed (bytes, peer))
              (sendto h bytes peer)
              (λ _. Settled)
              (λ e. Owed (bytes, peer))
              (Unit {0})
        unfolding sendto
        sendto-Settled =
            Hoare-bind _ _ (λ rc. Answered (bytes, peer) rc) _
              (Hoare-call _ _ (λ s p.
                sent-Answered _ bytes peer s _ _ refl refl (take_all _ bytes (omega arith)) same p))
              (check-Answered (bytes, peer))

        send_to-Settled :
            (k : ℕ)
            → Hoare
                (Owed (bytes, peer))
                (send_to k sock bytes peer)
                (λ _. Settled)
                (λ e. Owed (bytes, peer))
                (Unit {0})
        unfolding send_to
        send_to-Settled zero = Hoare-out_of_fuel (λ s p. tt)
        send_to-Settled (suc k) =
            let d : Datagram = (bytes, peer) in
            let K = Apart-WaitKeeps Unmoved Q (Owing d) (Owing-Unmoved d) in
            let again = send_to-Settled k in
            Hoare-cases _ (λ _. Settled) (λ e. Owed d) sendto-Settled
              (elim [
                | ok n ↦ Hoare-pure _ (λ s p. p)
                | err would_block ↦
                    Hoare-bind _ _ (λ _. Owed d) _
                      (Hoare-mono _ _ (λ a t q. q) (λ e t q. q.1)
                        (wait_writable-Within (λ w ws. Owing d w) K k r h _))
                      (λ _. again)
                | err e ↦ Hoare-fail _ (λ s p. p)
              ])

      echo-Replied :
          (k : ℕ) (buf : List ℕ)
          → length buf ≡ buf_len
          → Hoare Settled (echo k sock buf) (λ a s. false ≡ true) (λ e. Replied) (Unit {0})
      unfolding echo
      echo-Replied zero buf full = Hoare-out_of_fuel (λ s p. tt)
      echo-Replied (suc k) buf full =
          Hoare-bind _ _ Got _
            (Hoare-mono _ _ (λ a t q. q) (λ e. Replied-Settled) (recv_from-Got k))
            λ (n, bytes, peer). record {
              at = λ s (le, len, same, owing).
                  (Hoare-bind _ _ (λ _. Settled) _
                      (subst
                        (λ m.
                          Hoare (Owed (bytes, peer)) (send_to k sock m peer) (λ _. Settled)
                            (λ e. Replied) (Unit {0}))
                        (sym (rw⁻¹ len (take-overlay buf bytes (omega arith))))
                        (Hoare-mono _ _ (λ a t q. q) (λ e. Replied-Owed (bytes, peer))
                          (send_to-Settled bytes peer (omega arith) same k)))
                      (λ _.
                        echo-Replied k (overlay buf bytes) (length-overlay buf bytes ∙ full))).at
                    s owing;
            }

  After-Replied :
      (h : ℕ) (B : Mailbox h) (res : Result (Unit {0})) (t : State)
      → After (λ a s. false ≡ true) (λ e. Replied h B) (Unit {0}) (returned res) t
      → ((e : VclError) × (res ≡ err e)) × Replied h B t
  After-Replied h B (ok a) t p = absurd (ground arith)
  After-Replied h B (err e) t p = ((e, refl), p)

  -- The loop of the echo server returns only with an error. Then it has sent back every datagram that
  -- it has received, whole and to its sender, in the order of their arrival, all but at most the last
  -- one. The buffer has 65535 bytes, nothing is owed at the start, a call that fails moves no
  -- datagram, and no other task uses the session.
  pub echo-replies :
      (k h : ℕ) (r : VclReactor) (B : Mailbox h) (buf : List ℕ) (s t : State)
      (res : Result (Unit {0}))
      → Apart (Unmoved h B)
      → length buf ≡ buf_len
      → Even h B s.world
      → echo k (record { handle = h; reactor = r }) buf s ≡ (returned res, t)
      → ((e : VclError) × (res ≡ err e)) × Replied h B t
  echo-replies k h r B buf s t res Q full even e = After-Replied h B res t (
      subst (λ x. After (λ a s. false ≡ true) (λ e. Replied h B) (Unit {0}) x.0 x.1) e
        ((echo-Replied h B Q r k buf full).at s even))
