-- ===== src/Tests/Transfers.antt =====
-- Polls that move bytes, in the world of `Toy`.
use vcl_rs.Base.{refl, none, some, [], ◌∷◌}
use vcl_rs.Reactor.{VclReactor}
use vcl_rs.Reactor.Future.{selecting}
use vcl_rs.Reactor.Future.Apart.{PollApart}
use vcl_rs.Tcp.Connection.{Still}
use vcl_rs.Poll.{PollStream, ReadBuf, poll_read, poll_write, ready_ok}
use vcl_rs.Poll.Transfer.{Taken, Put, poll_read-takes, poll_write-puts}
use vcl_rs.Tests.Toy.{toy, start, toy_pipe, toy-Connection}

abbrev reactor : VclReactor
reactor = record { vep = 0 }

-- A stream in the middle of a wait to read and of one to write.
abbrev stream : PollStream
stream = record {
  stream = record { handle = 4; reactor = reactor };
  pending_readable = some (selecting 40 40 9);
  pending_writable = some (selecting 41 41 9);
}

-- Room for three bytes behind one that is there.
abbrev buf : ReadBuf
buf = record { filled = 5 ∷ []; room = 3 }

toy-PollApart : PollApart (Still toy_pipe)
toy-PollApart = record {
  notify_still = λ n w. (refl, refl);
  epoll_still = λ vep n ms w. (refl, refl);
  clear_still = λ w. (refl, refl);
  now_still = λ w. (refl, refl);
  new_notify_still = λ w. (refl, refl);
  new_notified_still = λ n w. (refl, refl);
  select_still = λ n deadline w. (refl, refl);
  check_still = λ n w. (refl, refl);
}

poll_read-takes_example :
    Taken toy_pipe buf []
      (0 ∷ 2 ∷ 8 ∷ 9 ∷ 7 ∷ [])
      (record {
        poll = ready_ok tt;
        after = record stream { pending_readable = none };
        buf = record { filled = 5 ∷ 0 ∷ 2 ∷ 8 ∷ []; room = 0 };
      })
      (poll_read 3 stream buf start).1.world
unfolding poll_read vcl_rs.Machine.◌>>=◌ vcl_rs.Reactor.Future.poll_wait vcl_rs.Machine.attempt
    vcl_rs.Session.read vcl_rs.Session.check vcl_rs.Udp.buffer
poll_read-takes_example =
    poll_read-takes toy_pipe 3 stream buf start (poll_read 3 stream buf start).1 _
      (toy-Connection 4) toy-PollApart refl

poll_write-puts_example :
    Put toy_pipe
      (1 ∷ 6 ∷ [])
      []
      (0 ∷ 2 ∷ 8 ∷ 9 ∷ 7 ∷ [])
      (ready_ok 2)
      (poll_write 3 stream (1 ∷ 6 ∷ []) start).1.world
unfolding poll_write vcl_rs.Machine.◌>>=◌ vcl_rs.Reactor.Future.poll_wait vcl_rs.Machine.attempt
    vcl_rs.Session.write vcl_rs.Session.check
poll_write-puts_example =
    poll_write-puts toy_pipe 3 stream (1 ∷ 6 ∷ []) start (poll_write 3 stream (1 ∷ 6 ∷ []) start).1
      (record { poll = ready_ok 2; after = record stream { pending_writable = none } })
      (toy-Connection 4) toy-PollApart refl
