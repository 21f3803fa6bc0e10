-- ===== src/Tests/Rejections.antt =====
-- A bind that VPP rejects, in a variant of the world of `Toy`.
use vcl_rs.Base.{◌+◌, ◌≡◌, refl, true, none, [], pos, negsuc, arith}
use vcl_rs.Error.{VclError}
use vcl_rs.Ffi.{Vcl, millis}
use vcl_rs.Machine.{State, returned, err}
use vcl_rs.Machine.Ledger.{ledger}
use vcl_rs.Reactor.{VclReactor}
use vcl_rs.Verify.Returns.{DrainClock}
use vcl_rs.Dgram.{bind}
use vcl_rs.Dgram.Rejected.{RejectsLater, bind-closes_twice}
use vcl_rs.Tests.Toy.{toy, start, server}

abbrev refusing : Vcl
refusing = record toy {
  session_attr = λ h op attr w. (negsuc 8, attr, w);
  epoll_wait = λ vep n ms w. (pos 0, [], record w { clock = w.clock + millis ms + 1 });
}

abbrev unbound : State ⦃V = refusing⦄
unbound = record {
  world = start.world;
  waiters = [];
  registered = true;
  initialized = true;
  trace = [];
}

refusing_clock : DrainClock ⦃V = refusing⦄
refusing_clock = record {
  clock = λ w. w.clock;
  now_reads = λ w. (omega arith, omega arith);
  epoll_passes = λ vep n ms w. omega arith;
}

refusing-RejectsLater : RejectsLater ⦃V = refusing⦄ []
refusing-RejectsLater = record {
  creates = λ p f w. (w.next, refl);
  new_number = λ p f h w e. refl;
  binds = λ h ep w. (0, refl);
  listens = λ h q w. (0, refl);
  makes_set = λ w. (w.next, refl);
  adds = λ vep op h ev w. (0, refl);
  rejects = λ h a w. (8, refl);
}

abbrev reactor : VclReactor
reactor = record { vep = 0 }

bind-closes_twice_example :
    ((e : VclError) × ((bind ⦃V = refusing⦄ 200000001 server reactor unbound).0 ≡ returned (err e)))
    × (ledger (bind ⦃V = refusing⦄ 200000001 server reactor unbound).1.trace ≡ none)
bind-closes_twice_example =
    bind-closes_twice ⦃V = refusing⦄ 200000001 server reactor [] unbound refusing_clock
      (omega arith) refusing-RejectsLater refl
