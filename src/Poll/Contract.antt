-- ===== src/Poll/Contract.antt =====
-- What tokio expects of `poll_read` and `poll_write`.
use vcl_rs.Base.{
  ℕ, zero, suc, ◌+◌, ◌≤◌, ◌≡◌, ◌≢◌, ◌⊎◌, inl, inr, refl, Bool, true, false, Option, none, some,
  List, [], ◌++◌, sym, append_nil, if◌then◌else◌, length, take, overlay, leb, leb→le, length-take,
  length-overlay, length-replicate, arith,
}
use vcl_rs.Error.{VclError, io, timeout, closed, would_block, not_connected}
use vcl_rs.Ffi.{Vcl}
use vcl_rs.Machine.{State, M, Result, ok, err}
use vcl_rs.Machine.Hoare.{
  After, Hoare, Hoare-bind, Hoare-cases, Hoare-pure, Hoare-out_of_fuel, Hoare-Anything,
  Hoare-weaken, Anything, Always,
}
use vcl_rs.Reactor.Future.{Wait, Progress, parked, done}
use vcl_rs.Reactor.Future.Results.{has_polled, Polled, poll_wait-Polled}
use vcl_rs.Udp.{buffer}
use vcl_rs.Poll.{
  unexpected_eof, blocked, vcl_to_io, Poll, pending, ready_ok, ready_err, panicked, ReadBuf,
  advanced, PollStream, ReadPoll, WritePoll, set_readable, set_writable, poll_pending, read_arm,
  read_round, poll_read, write_arm, write_round, poll_write,
}

module _ ⦃V : Vcl⦄ where
  abbrev Never : VclError → State → Type 0
  Never e s = false ≡ true

  poll_pending-Polled :
      (k : ℕ) (st : PollStream) (w : Option Wait)
      → Hoare Always (poll_pending k st.stream.reactor w) Polled Never (Unit {0})
  unfolding poll_pending
  poll_pending-Polled k st none = Hoare-pure _ (λ s p. tt)
  poll_pending-Polled k st (some w) = poll_wait-Polled Never k _ w

  -- A pending poll leaves a wait behind that has been polled, and the buffer as it was. A finished
  -- one leaves no wait. Bytes are added behind those of the buffer, and use up its room. An error
  -- is never "would block", which would break the contract of the trait, nor the end of the stream.
  abbrev pub ReadContract : PollStream → ReadBuf → Poll (Unit {0}) → PollStream → ReadBuf → Type 0
  ReadContract st buf pending after buf' =
      (w : Wait) × (has_polled w ≡ true) × (after ≡ set_readable st (some w)) × (buf' ≡ buf)
  ReadContract st buf (ready_ok _) after buf' =
      (bytes : List ℕ) × (after ≡ set_readable st none)
      × (buf'.filled ≡ buf.filled ++ bytes)
      × (length bytes + buf'.room ≡ buf.room)
  ReadContract st buf (ready_err e) after buf' =
      (after ≡ set_readable st none) × (buf' ≡ buf) × (e ≢ blocked) × (e ≢ unexpected_eof)
  ReadContract st buf panicked after buf' = (after ≡ set_readable st none) × (buf' ≡ buf)

  abbrev Reads : PollStream → ReadBuf → ReadPoll → State → Type 0
  Reads st buf r s = ReadContract st buf r.poll r.after r.buf

  abbrev ReadRest : PollStream → ReadBuf → M ReadPoll → Type 0
  ReadRest st buf m = Hoare Always m (Reads st buf) Never (Unit {0})

  advanced_lem :
      (st : PollStream) (buf : ReadBuf) (n : ℕ) (bytes : List ℕ)
      → n ≤ buf.room
      → ReadContract st buf (ready_ok tt) (set_readable st none) (advanced buf n bytes)
  unfolding buffer
  advanced_lem st buf n bytes fits = (
    take n (overlay (buffer buf.room) bytes),
    refl,
    refl,
    omega (
      arith,
      fits,
      length-take n (overlay (buffer buf.room) bytes),
      length-overlay (buffer buf.room) bytes,
      length-replicate {0} {A = ℕ} buf.room 0,
    ),
  )

  -- The answer of a read that counted bytes.
  counted :
      (st : PollStream) (buf : ReadBuf) (n : ℕ) (bytes : List ℕ) (b : Bool)
      → leb n buf.room ≡ b
      → let r : ReadPoll =
          if b
          then record {
            poll = ready_ok tt;
            after = set_readable st none;
            buf = advanced buf n bytes;
          }
          else record { poll = panicked; after = set_readable st none; buf = buf } in
        ReadContract st buf r.poll r.after r.buf
  counted st buf n bytes true e = advanced_lem st buf n bytes (leb→le n buf.room e)
  counted st buf n bytes false e = (refl, refl)

  read_arm-Reads :
      (again : PollStream → M ReadPoll) (st : PollStream) (buf : ReadBuf)
      (res : Result (ℕ × List ℕ))
      → ((w : Option Wait) → ReadRest st buf (again (set_readable st w)))
      → ReadRest st buf (read_arm again (set_readable st none) buf res)
  unfolding read_arm vcl_to_io
  read_arm-Reads again st buf (ok (zero, bytes)) more =
      Hoare-pure _ (λ s p. ([], refl, sym (append_nil buf.filled), omega arith))
  read_arm-Reads again st buf (ok (suc n, bytes)) more =
      Hoare-pure _ (λ s p. counted st buf (suc n) bytes _ refl)
  read_arm-Reads again st buf (err would_block) more = more _
  read_arm-Reads again st buf (err not_connected) more = more _
  read_arm-Reads again st buf (err closed) more =
      Hoare-pure _ (λ s p. ([], refl, sym (append_nil buf.filled), omega arith))
  read_arm-Reads again st buf (err e) more =
      Hoare-pure _ (λ s p. (refl, refl, ground arith, ground arith))

  wait_failed :
      (e : VclError)
      → (e ≡ io) ⊎ (e ≡ timeout)
      → (vcl_to_io e ≢ blocked) × (vcl_to_io e ≢ unexpected_eof)
  unfolding vcl_to_io
  wait_failed e (inl p) = rw p (ground arith, ground arith)
  wait_failed e (inr p) = rw p (ground arith, ground arith)

  read_round-Reads :
      (again : PollStream → M ReadPoll) (st : PollStream) (buf : ReadBuf) (p : Progress)
      → ((w : Option Wait) → ReadRest st buf (again (set_readable st w)))
      → Hoare (Polled p) (read_round again st buf p) (Reads st buf) Never (Unit {0})
  unfolding read_round vcl_to_io
  read_round-Reads again st buf (parked w) more = Hoare-pure _ (λ s q. (w, q, refl, refl))
  read_round-Reads again st buf (done (err e)) more =
      Hoare-pure _
        (λ s q. let (not_blocked, not_eof) = wait_failed e q in (refl, refl, not_blocked, not_eof))
  read_round-Reads again st buf (done (ok _)) more =
      Hoare-cases _ Anything Anything (Hoare-Anything _)
        (λ res. Hoare-weaken Always (λ s q. tt) (read_arm-Reads again st buf res more))

  poll_read-Reads : (k : ℕ) (st : PollStream) (buf : ReadBuf) → ReadRest st buf (poll_read k st buf)
  unfolding poll_read
  poll_read-Reads zero st buf = Hoare-out_of_fuel (λ s p. tt)
  poll_read-Reads (suc k) st buf =
      Hoare-bind _ _ _ _ (poll_pending-Polled k st st.pending_readable) (λ p.
        read_round-Reads (λ x. poll_read k x buf) st buf p
          (λ w. poll_read-Reads k (set_readable st w) buf))

  -- If `poll_read` returns, it keeps the contract of `AsyncRead` on every path: it is pending only with a parked
  -- wait behind it that has been polled, and finished only without one; what it adds to the buffer
  -- is as long as the room that it uses up; and it never reports "would block".
  pub poll_read-contract :
      (k : ℕ) (st : PollStream) (buf : ReadBuf) (s : State)
      → After
          (λ r t. ReadContract st buf r.poll r.after r.buf)
          (λ e t. false ≡ true)
          (Unit {0})
          (poll_read k st buf s).0
          (poll_read k st buf s).1
  poll_read-contract k st buf s = (poll_read-Reads k st buf).at s tt

  -- The same of a write, which takes no buffer and may report the end of the stream.
  abbrev pub WriteContract : PollStream → Poll ℕ → PollStream → Type 0
  WriteContract st pending after =
      (w : Wait) × (has_polled w ≡ true) × (after ≡ set_writable st (some w))
  WriteContract st (ready_ok n) after = after ≡ set_writable st none
  WriteContract st (ready_err e) after = (after ≡ set_writable st none) × (e ≢ blocked)
  WriteContract st panicked after = false ≡ true

  abbrev WriteRest : PollStream → M WritePoll → Type 0
  WriteRest st m = Hoare Always m (λ r s. WriteContract st r.poll r.after) Never (Unit {0})

  write_arm-WriteRest :
      (again : PollStream → M WritePoll) (st : PollStream) (res : Result ℕ)
      → ((w : Option Wait) → WriteRest st (again (set_writable st w)))
      → WriteRest st (write_arm again (set_writable st none) res)
  unfolding write_arm vcl_to_io
  write_arm-WriteRest again st (ok n) more = Hoare-pure _ (λ s p. refl)
  write_arm-WriteRest again st (err would_block) more = more _
  write_arm-WriteRest again st (err not_connected) more = more _
  write_arm-WriteRest again st (err e) more = Hoare-pure _ (λ s p. (refl, ground arith))

  write_round-WriteRest :
      (again : PollStream → M WritePoll) (st : PollStream) (buf : List ℕ) (p : Progress)
      → ((w : Option Wait) → WriteRest st (again (set_writable st w)))
      → Hoare
          (Polled p)
          (write_round again st buf p)
          (λ r s. WriteContract st r.poll r.after)
          Never
          (Unit {0})
  unfolding write_round
  write_round-WriteRest again st buf (parked w) more = Hoare-pure _ (λ s q. (w, q, refl))
  write_round-WriteRest again st buf (done (err e)) more =
      Hoare-pure _ (λ s q. (refl, (wait_failed e q).0))
  write_round-WriteRest again st buf (done (ok _)) more =
      Hoare-cases _ Anything Anything (Hoare-Anything _)
        (λ res. Hoare-weaken Always (λ s q. tt) (write_arm-WriteRest again st res more))

  poll_write-WriteRest :
      (k : ℕ) (st : PollStream) (buf : List ℕ) → WriteRest st (poll_write k st buf)
  unfolding poll_write
  poll_write-WriteRest zero st buf = Hoare-out_of_fuel (λ s p. tt)
  poll_write-WriteRest (suc k) st buf =
      Hoare-bind _ _ _ _ (poll_pending-Polled k st st.pending_writable) (λ p.
        write_round-WriteRest (λ x. poll_write k x buf) st buf p
          (λ w. poll_write-WriteRest k (set_writable st w) buf))

  -- If `poll_write` returns, it keeps the contract of `AsyncWrite` on every path: it is pending only with a parked
  -- wait behind it that has been polled, finished only without one, and never reports "would block".
  pub poll_write-contract :
      (k : ℕ) (st : PollStream) (buf : List ℕ) (s : State)
      → After
          (λ r t. WriteContract st r.poll r.after)
          (λ e t. false ≡ true)
          (Unit {0})
          (poll_write k st buf s).0
          (poll_write k st buf s).1
  poll_write-contract k st buf s = (poll_write-WriteRest k st buf).at s tt

  -- If they return, `poll_read` and `poll_write` keep the contracts of `AsyncRead` and `AsyncWrite` on
  -- every path: each is pending only with a parked wait behind it that has been polled, finished only
  -- without one, and never reports "would block"; what `poll_read` adds to the buffer is as long as
  -- the room that it uses up.
  pub polls-contract :
      (k : ℕ) (st : PollStream) (buf : ReadBuf) (bytes : List ℕ) (s : State)
      → After
          (λ r t. ReadContract st buf r.poll r.after r.buf)
          (λ e t. false ≡ true)
          (Unit {0})
          (poll_read k st buf s).0
          (poll_read k st buf s).1
        × After
            (λ r t. WriteContract st r.poll r.after)
            (λ e t. false ≡ true)
            (Unit {0})
            (poll_write k st bytes s).0
            (poll_write k st bytes s).1
  polls-contract k st buf bytes s =
      (poll_read-contract k st buf s, poll_write-contract k st bytes s)
