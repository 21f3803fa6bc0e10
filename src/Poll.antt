-- ===== src/Poll.antt =====
-- src/stream.rs, the traits `AsyncRead` and `AsyncWrite` of `VclStream`. The loops take fuel, one
-- unit a round.
pub mod Contract
pub mod Transfer
use vcl_rs.Base.{
  ℕ, zero, suc, Option, none, some, List, ◌++◌, ◌-◌, leb, if◌then◌else◌, take, overlay, pos, negsuc,
  ℤ,
}
use vcl_rs.Error.{VclError, closed, would_block, not_connected, from_rc}
use vcl_rs.Ffi.{Vcl, secs}
use vcl_rs.Machine.{M, Result, ok, err, pure, out_of_fuel, ◌>>=◌, attempt, call, session_shutdown}
use vcl_rs.Session.{read, write}
use vcl_rs.Reactor.Future.{Wait, start, Progress, parked, done, poll_wait}
use vcl_rs.Reactor.{VclReactor}
use vcl_rs.Stream.{VclStream}
use vcl_rs.Udp.{buffer}

-- `io::Error`: its kind, and the error whose text it shows.
pub data IoError : Type 0 where
  unexpected_eof : IoError
  blocked : IoError
  other : VclError → IoError

unfoldable pub vcl_to_io : VclError → IoError
vcl_to_io closed = unexpected_eof
vcl_to_io would_block = blocked
vcl_to_io e = other e

-- `Poll<io::Result<A>>`, or a panic of the assertion in `ReadBuf::advance`.
pub data Poll (A : Type 0) : Type 0 where
  pending : Poll A
  ready_ok : A → Poll A
  ready_err : IoError → Poll A
  panicked : Poll A

-- `ReadBuf`: what is filled, and the length of the rest.
pub record ReadBuf : Type 0 where
  pub filled : List ℕ
  pub room : ℕ

-- `buf.advance(n)` after a call that put `bytes` at the start of the zeroed rest.
abbrev pub advanced : ReadBuf → ℕ → List ℕ → ReadBuf
advanced buf n bytes = record {
  filled = buf.filled ++ take n (overlay (buffer buf.room) bytes);
  room = buf.room - n;
}

module _ ⦃V : Vcl⦄ where
  -- The whole of `VclStream`.
  pub record PollStream : Type 0 where
    pub stream : VclStream
    pub pending_readable : Option Wait
    pub pending_writable : Option Wait

  -- What a call of `poll_read` gives, and the stream and the buffer behind its references.
  pub record ReadPoll : Type 0 where
    pub poll : Poll (Unit {0})
    pub after : PollStream
    pub buf : ReadBuf

  pub record WritePoll : Type 0 where
    pub poll : Poll ℕ
    pub after : PollStream

  abbrev pub set_readable : PollStream → Option Wait → PollStream
  set_readable st w = record st { pending_readable = w }

  abbrev pub set_writable : PollStream → Option Wait → PollStream
  set_writable st w = record st { pending_writable = w }

  -- `if let Some(fut) = .. { fut.as_mut().poll(cx) }`, where no future counts as a finished one.
  unfoldable pub poll_pending : ℕ → VclReactor → Option Wait → M Progress
  poll_pending k r none = pure (done (ok tt))
  poll_pending k r (some w) = poll_wait k r w

  -- `reactor.wait_readable(handle_id, ..)`, not polled yet; that of `wait_writable` is the same.
  abbrev pub fresh_wait : PollStream → Wait
  fresh_wait st = start st.stream.handle (secs 300)

  -- The arms of the `match` on the read, of a stream that has no pending future.
  unfoldable pub read_arm :
      (PollStream → M ReadPoll) → PollStream → ReadBuf → Result (ℕ × List ℕ) → M ReadPoll
  read_arm again st buf (ok (zero, bytes)) =
      pure (record { poll = ready_ok tt; after = st; buf = buf })
  read_arm again st buf (ok (suc n, bytes)) = pure (
      if leb (suc n) buf.room
      then record { poll = ready_ok tt; after = st; buf = advanced buf (suc n) bytes }
      else record { poll = panicked; after = st; buf = buf })
  read_arm again st buf (err would_block) = again (set_readable st (some (fresh_wait st)))
  read_arm again st buf (err not_connected) = again (set_readable st (some (fresh_wait st)))
  read_arm again st buf (err closed) = pure (record { poll = ready_ok tt; after = st; buf = buf })
  read_arm again st buf (err e) =
      pure (record { poll = ready_err (vcl_to_io e); after = st; buf = buf })

  -- The rest of a round, after the poll of the pending future.
  unfoldable pub read_round :
      (PollStream → M ReadPoll) → PollStream → ReadBuf → Progress → M ReadPoll
  unfolding read_arm
  read_round again st buf (parked w) =
      pure (record { poll = pending; after = set_readable st (some w); buf = buf })
  read_round again st buf (done (err e)) =
      pure (record { poll = ready_err (vcl_to_io e); after = set_readable st none; buf = buf })
  read_round again st buf (done (ok _)) = do
    res ← attempt (read st.stream.handle buf.room)
    read_arm again (set_readable st none) buf res

  unfoldable pub poll_read : ℕ → PollStream → ReadBuf → M ReadPoll
  unfolding read_round poll_pending
  poll_read zero st buf = out_of_fuel
  poll_read (suc k) st buf = do
    progress ← poll_pending k st.stream.reactor st.pending_readable
    read_round (λ st. poll_read k st buf) st buf progress

  unfoldable pub write_arm : (PollStream → M WritePoll) → PollStream → Result ℕ → M WritePoll
  write_arm again st (ok n) = pure (record { poll = ready_ok n; after = st })
  write_arm again st (err would_block) = again (set_writable st (some (fresh_wait st)))
  write_arm again st (err not_connected) = again (set_writable st (some (fresh_wait st)))
  write_arm again st (err e) = pure (record { poll = ready_err (vcl_to_io e); after = st })

  unfoldable pub write_round :
      (PollStream → M WritePoll) → PollStream → List ℕ → Progress → M WritePoll
  unfolding write_arm
  write_round again st buf (parked w) =
      pure (record { poll = pending; after = set_writable st (some w) })
  write_round again st buf (done (err e)) =
      pure (record { poll = ready_err (vcl_to_io e); after = set_writable st none })
  write_round again st buf (done (ok _)) = do
    res ← attempt (write st.stream.handle buf)
    write_arm again (set_writable st none) res

  unfoldable pub poll_write : ℕ → PollStream → List ℕ → M WritePoll
  unfolding write_round poll_pending
  poll_write zero st buf = out_of_fuel
  poll_write (suc k) st buf = do
    progress ← poll_pending k st.stream.reactor st.pending_writable
    write_round (λ st. poll_write k st buf) st buf progress

  unfoldable pub poll_flush : PollStream → M (Poll (Unit {0}))
  poll_flush st = pure (ready_ok tt)

  abbrev pub shut_wr : ℕ
  shut_wr = 1

  abbrev pub shut_down : ℤ → Poll (Unit {0})
  shut_down (pos n) = ready_ok tt
  shut_down (negsuc n) = ready_err (vcl_to_io (from_rc V.retval_str (negsuc n)))

  unfoldable pub poll_shutdown : PollStream → M (Poll (Unit {0}))
  poll_shutdown st = do
    let h = st.stream.handle
    rc ← call (session_shutdown h shut_wr) (V.session_shutdown h shut_wr)
    pure (shut_down rc)
