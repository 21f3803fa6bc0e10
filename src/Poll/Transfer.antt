-- ===== src/Poll/Transfer.antt =====
-- `poll_read` and `poll_write` of src/stream.rs move bytes in order.
use vcl_rs.Base.{
  ℕ, zero, suc, ◌+◌, ◌≤◌, ◌≡◌, ◌≢◌, refl, sym, ap, subst, ◌∙◌, true, false, Option, none, some,
  List, [], ◌++◌, append_nil, if◌then◌else◌, length, take, overlay, leb, le→leb, length-replicate,
  length-overlay, arith,
}
use vcl_rs.Error.{VclError, closed, would_block, not_connected}
use vcl_rs.Ffi.{Vcl}
use vcl_rs.Machine.{State, M, Exit, returned, pure, Result, ok, err}
use vcl_rs.Machine.Hoare.{
  After, Hoare, Hoare-bind, Hoare-cases, Hoare-pure, Hoare-out_of_fuel, Hoare-weaken, Hoare-mono,
  Either,
}
use vcl_rs.Session.{read, write}
use vcl_rs.Reactor.{VclReactor}
use vcl_rs.Reactor.Future.{Wait, Progress, parked, done}
use vcl_rs.Reactor.Future.Apart.{PollApart, poll_wait-keeps}
use vcl_rs.Tcp.Connection.{Pipe, Still, Connection}
use vcl_rs.Tcp.Moves.{On, Holds, Holds-of_Still}
use vcl_rs.Tcp.Sending.{Partly, write-Partly}
use vcl_rs.Tcp.Receiving.{Filled, read-Filled}
use vcl_rs.Udp.{buffer}
use vcl_rs.Poll.{
  Poll, pending, ready_ok, ready_err, panicked, ReadBuf, advanced, PollStream, ReadPoll, WritePoll,
  set_readable, set_writable, poll_pending, read_arm, read_round, poll_read, write_arm, write_round,
  poll_write,
}

module _ ⦃V : Vcl⦄ where
  abbrev Never : VclError → State → Type 0
  Never e s = false ≡ true

  -- What one call has taken off the incoming bytes stands behind the buffer's, and nothing else has
  -- moved.
  abbrev pub Taken : Pipe → ReadBuf → List ℕ → List ℕ → ReadPoll → V.World → Type 0
  Taken p buf out inc r w =
      (bytes : List ℕ) × (r.buf.filled ≡ buf.filled ++ bytes)
      × (bytes ++ p.incoming w ≡ inc)
      × (p.sent w ≡ out)
      × (r.poll ≢ panicked)

  -- A finished write has sent the bytes that it counts, from the buffer's start, and any other result
  -- none; nothing else has moved.
  abbrev pub Put : Pipe → List ℕ → List ℕ → List ℕ → Poll ℕ → V.World → Type 0
  Put p buf out inc (ready_ok n) w =
      (n ≤ length buf) × ((p.sent w ≡ out ++ take n buf) × (p.incoming w ≡ inc))
  Put p buf out inc pending w = (p.sent w ≡ out) × (p.incoming w ≡ inc)
  Put p buf out inc (ready_err e) w = (p.sent w ≡ out) × (p.incoming w ≡ inc)
  Put p buf out inc panicked w = false ≡ true

  module _ (p : Pipe) (h : ℕ) (C : Connection h p) (A : PollApart (Still p)) where
    abbrev AtRest : List ℕ → List ℕ → State → Type 0
    AtRest out inc = On (Holds p out inc)

    poll_pending-AtRest :
        (k : ℕ) (r : VclReactor) (w : Option Wait) (out inc : List ℕ)
        → Hoare (AtRest out inc) (poll_pending k r w) (λ _. AtRest out inc) Never (Unit {0})
    unfolding poll_pending
    poll_pending-AtRest k r none out inc = Hoare-pure _ (λ s q. q)
    poll_pending-AtRest k r (some w) out inc =
        poll_wait-keeps (Still p) A (Holds p out inc) (Holds-of_Still p out inc) Never k r w

    -- What a read of the whole room gives.
    abbrev Came : ReadBuf → List ℕ → List ℕ → ℕ × List ℕ → State → Type 0
    Came buf out inc (n, bytes) s =
        (n ≤ buf.room)
        × (take n (overlay (buffer buf.room) bytes) ++ p.incoming s.world ≡ inc)
        × (p.sent s.world ≡ out)

    read-Came :
        (buf : ReadBuf) (out inc : List ℕ)
        → Hoare
            (AtRest out inc)
            (read h buf.room)
            (Came buf out inc)
            (λ e. AtRest out inc)
            (Unit {0})
    unfolding buffer
    read-Came buf out inc =
        subst
          (λ size.
            Hoare (AtRest out inc) (read h size) (Came buf out inc) (λ e. AtRest out inc)
              (Unit {0}))
          (omega (arith, length-replicate {0} {A = ℕ} buf.room 0))
          (Hoare-weaken (On (Filled p out inc 0 (buffer buf.room)))
            (λ s (o, i). (omega arith, o, i))
            (Hoare-mono _ _
              (λ (n, bytes) s (le, o, i). (
                omega (
                  arith,
                  le,
                  length-overlay (buffer buf.room) bytes,
                  length-replicate {0} {A = ℕ} buf.room 0,
                ),
                ap (λ m. take m (overlay (buffer buf.room) bytes) ++ p.incoming s.world)
                      (let sum : n ≡ 0 + n = omega arith in sum)
                    ∙ i,
                o,
              ))
              (λ e s (le, o, i). (o, i)) (read-Filled p C out inc (buffer buf.room) 0)))

    write-AtRest :
        (buf out inc : List ℕ)
        → Hoare
            (AtRest out inc)
            (write h buf)
            (λ n s. (n ≤ length buf) × AtRest (out ++ take n buf) inc s)
            (λ e. AtRest out inc)
            (Unit {0})
    write-AtRest buf out inc =
        Hoare-weaken (On (Partly p out inc buf 0))
          (λ s (o, i). (omega arith, (o ∙ sym (append_nil out), i)))
          (Hoare-mono _ _
            (λ n s (le, (o, i)). (
              omega (arith, le),
              (o ∙ ap (λ m. out ++ take m buf) (let sum : 0 + n ≡ n = omega arith in sum), i),
            ))
            (λ e s (le, (o, i)). (o ∙ append_nil out, i)) (write-Partly p C out inc buf 0))

    abbrev ReadRest : ReadBuf → List ℕ → List ℕ → M ReadPoll → Type 0
    ReadRest buf out inc m =
        Hoare (AtRest out inc) m (λ r s. Taken p buf out inc r s.world) Never (Unit {0})

    abbrev WriteRest : List ℕ → List ℕ → List ℕ → M WritePoll → Type 0
    WriteRest buf out inc m =
        Hoare (AtRest out inc) m (λ r s. Put p buf out inc r.poll s.world) Never (Unit {0})

    module _ (st : PollStream) (mine : st.stream.handle ≡ h) where
      unmoved :
          (buf : ReadBuf) (out inc : List ℕ) (r : ReadPoll)
          → r.buf ≡ buf
          → r.poll ≢ panicked
          → ReadRest buf out inc (pure r)
      unmoved buf out inc r same fine =
          Hoare-pure _
            (λ s (o, i). ([], ap (λ b. b.filled) same ∙ sym (append_nil buf.filled), i, o, fine))

      counted :
          (buf : ReadBuf) (out inc : List ℕ) (n : ℕ) (bytes : List ℕ) (s : State)
          (after : PollStream)
          → Came buf out inc (n, bytes) s
          → Taken p buf out inc
              (if leb n buf.room
                then record { poll = ready_ok tt; after = after; buf = advanced buf n bytes }
                else record { poll = panicked; after = after; buf = buf })
              s.world
      counted buf out inc n bytes s after (le, i, o) =
          rw (le→leb n buf.room le)
            (take n (overlay (buffer buf.room) bytes), refl, i, o, ground arith)

      read_arm-Taken :
          (again : PollStream → M ReadPoll) (st' : PollStream) (buf : ReadBuf) (out inc : List ℕ)
          (res : Result (ℕ × List ℕ))
          → ((w : Option Wait) → ReadRest buf out inc (again (set_readable st' w)))
          → Hoare
              (Either (λ got. Came buf out inc got) (λ e. AtRest out inc) res)
              (read_arm again st' buf res)
              (λ r s. Taken p buf out inc r s.world)
              Never
              (Unit {0})
      unfolding read_arm
      read_arm-Taken again st' buf out inc (ok (zero, bytes)) more =
          Hoare-weaken (AtRest out inc) (λ s (le, i, o). (o, i))
            (unmoved buf out inc _ refl (ground arith))
      read_arm-Taken again st' buf out inc (ok (suc n, bytes)) more =
          Hoare-pure _ (λ s q. counted buf out inc (suc n) bytes s st' q)
      read_arm-Taken again st' buf out inc (err would_block) more = more _
      read_arm-Taken again st' buf out inc (err not_connected) more = more _
      read_arm-Taken again st' buf out inc (err closed) more =
          unmoved buf out inc _ refl (ground arith)
      read_arm-Taken again st' buf out inc (err e) more = unmoved buf out inc _ refl (ground arith)

      read_round-Taken :
          (again : PollStream → M ReadPoll) (buf : ReadBuf) (out inc : List ℕ) (q : Progress)
          → ((w : Option Wait) → ReadRest buf out inc (again (set_readable st w)))
          → ReadRest buf out inc (read_round again st buf q)
      unfolding read_round
      read_round-Taken again buf out inc (parked w) more = unmoved buf out inc _ refl (ground arith)
      read_round-Taken again buf out inc (done (err e)) more =
          unmoved buf out inc _ refl (ground arith)
      read_round-Taken again buf out inc (done (ok _)) more =
          Hoare-cases _ (Came buf out inc) (λ e. AtRest out inc)
            (subst
              (λ x.
                Hoare (AtRest out inc) (read x buf.room) (Came buf out inc) (λ e. AtRest out inc)
                  (Unit {0}))
              (sym mine) (read-Came buf out inc))
            (λ res. read_arm-Taken again _ buf out inc res more)

      write_arm-Put :
          (again : PollStream → M WritePoll) (st' : PollStream) (buf out inc : List ℕ)
          (res : Result ℕ)
          → ((w : Option Wait) → WriteRest buf out inc (again (set_writable st' w)))
          → Hoare
              (Either
                (λ n s. (n ≤ length buf) × AtRest (out ++ take n buf) inc s)
                (λ e. AtRest out inc)
                res)
              (write_arm again st' res)
              (λ r s. Put p buf out inc r.poll s.world)
              Never
              (Unit {0})
      unfolding write_arm
      write_arm-Put again st' buf out inc (ok n) more = Hoare-pure _ (λ s q. q)
      write_arm-Put again st' buf out inc (err would_block) more = more _
      write_arm-Put again st' buf out inc (err not_connected) more = more _
      write_arm-Put again st' buf out inc (err e) more = Hoare-pure _ (λ s q. q)

      write_round-Put :
          (again : PollStream → M WritePoll) (buf out inc : List ℕ) (q : Progress)
          → ((w : Option Wait) → WriteRest buf out inc (again (set_writable st w)))
          → WriteRest buf out inc (write_round again st buf q)
      unfolding write_round
      write_round-Put again buf out inc (parked w) more = Hoare-pure _ (λ s q. q)
      write_round-Put again buf out inc (done (err e)) more = Hoare-pure _ (λ s q. q)
      write_round-Put again buf out inc (done (ok _)) more =
          Hoare-cases _ (λ n s. (n ≤ length buf) × AtRest (out ++ take n buf) inc s)
            (λ e. AtRest out inc)
            (subst
              (λ x.
                Hoare (AtRest out inc) (write x buf)
                  (λ n s. (n ≤ length buf) × AtRest (out ++ take n buf) inc s) (λ e. AtRest out inc)
                  (Unit {0}))
              (sym mine) (write-AtRest buf out inc))
            (λ res. write_arm-Put again _ buf out inc res more)

    poll_read-Taken :
        (k : ℕ) (st : PollStream) (buf : ReadBuf) (out inc : List ℕ)
        → st.stream.handle ≡ h
        → ReadRest buf out inc (poll_read k st buf)
    unfolding poll_read
    poll_read-Taken zero st buf out inc mine = Hoare-out_of_fuel (λ s q. tt)
    poll_read-Taken (suc k) st buf out inc mine =
        Hoare-bind _ _ _ _ (poll_pending-AtRest k _ st.pending_readable out inc) (λ q.
          read_round-Taken st mine (λ x. poll_read k x buf) buf out inc q
            (λ w. poll_read-Taken k (set_readable st w) buf out inc mine))

    poll_write-Put :
        (k : ℕ) (st : PollStream) (buf out inc : List ℕ)
        → st.stream.handle ≡ h
        → WriteRest buf out inc (poll_write k st buf)
    unfolding poll_write
    poll_write-Put zero st buf out inc mine = Hoare-out_of_fuel (λ s q. tt)
    poll_write-Put (suc k) st buf out inc mine =
        Hoare-bind _ _ _ _ (poll_pending-AtRest k _ st.pending_writable out inc) (λ q.
          write_round-Put st mine (λ x. poll_write k x buf) buf out inc q
            (λ w. poll_write-Put k (set_writable st w) buf out inc mine))

  After-eq :
      {A : Type 0} (Q : A → State → Type 0) (x y : Exit A × State)
      → x ≡ y
      → After Q Never (Unit {0}) x.0 x.1
      → After Q Never (Unit {0}) y.0 y.1
  After-eq Q x y e h = subst (λ z. After Q Never (Unit {0}) z.0 z.1) e h

  -- If `poll_read` returns, then the bytes that it has put behind those of the buffer are exactly those
  -- that it has taken off the incoming ones, in order, also if it is pending or has failed: none is
  -- lost, repeated or sent. It does not panic. The session is assumed to keep order, and to move no
  -- byte but by its own reads and writes.
  pub poll_read-takes :
      (p : Pipe) (k : ℕ) (st : PollStream) (buf : ReadBuf) (s t : State) (r : ReadPoll)
      → Connection st.stream.handle p
      → PollApart (Still p)
      → poll_read k st buf s ≡ (returned (ok r), t)
      → Taken p buf (p.sent s.world) (p.incoming s.world) r t.world
  poll_read-takes p k st buf s t r C A e = After-eq _ _ _ e (
      (poll_read-Taken p st.stream.handle C A k st buf (p.sent s.world) (p.incoming s.world)
          refl).at
        s (refl, refl))

  -- If `poll_write` returns, then it has sent exactly the bytes from the start of the buffer that it
  -- counts, and none if it is pending or has failed; it has taken none. The session is assumed to keep
  -- order, and to move no byte but by its own reads and writes.
  pub poll_write-puts :
      (p : Pipe) (k : ℕ) (st : PollStream) (buf : List ℕ) (s t : State) (r : WritePoll)
      → Connection st.stream.handle p
      → PollApart (Still p)
      → poll_write k st buf s ≡ (returned (ok r), t)
      → Put p buf (p.sent s.world) (p.incoming s.world) r.poll t.world
  poll_write-puts p k st buf s t r C A e = After-eq _ _ _ e (
      (poll_write-Put p st.stream.handle C A k st buf (p.sent s.world) (p.incoming s.world) refl).at
        s (refl, refl))
