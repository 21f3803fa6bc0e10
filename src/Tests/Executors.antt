-- ===== src/Tests/Executors.antt =====
-- A wait that fails, in a variant of the world of `Toy`.
use vcl_rs.Base.{ℕ, none, [], refl, true}
use vcl_rs.Ffi.{Vcl, expired}
use vcl_rs.Machine.{State, ok, returned}
use vcl_rs.Reactor.{VclReactor, wait_event}
use vcl_rs.Stream.{connect_async}
use vcl_rs.Stream.Faults.{KeepsEntry, Left, connect_async-leaves_entry}
use vcl_rs.Tests.Toy.{server, toy, start}

abbrev reactor : VclReactor
reactor = record { vep = 0 }

-- A server that does not accept before the time is up.
abbrev unreachable : Vcl
unreachable = record toy { select = λ n deadline w ws. (expired, w, ws) }

abbrev alone : State ⦃V = unreachable⦄
alone = record {
  world = start.world;
  waiters = [];
  registered = true;
  initialized = true;
  trace = [];
}

others_keep : (h : ℕ) → KeepsEntry ⦃V = unreachable⦄ h
others_keep h = record { select = λ n deadline w ws p. p; notified_poll = λ n w ws p. p }

connect_async-leaves_entry_example :
    Left ⦃V = unreachable⦄ (connect_async ⦃V = unreachable⦄ 5 server none reactor 9 alone).1
unfolding connect_async vcl_rs.Machine.◌>>=◌ vcl_rs.App.register_worker_thread
    vcl_rs.Session.create_tcp vcl_rs.Session.check vcl_rs.Machine.on_err vcl_rs.Stream.ignore
    vcl_rs.Machine.attempt vcl_rs.Session.set_nodelay vcl_rs.Stream.bind_source
    vcl_rs.Reactor.register vcl_rs.Tcp.start_connect vcl_rs.Session.connect
    vcl_rs.Reactor.wait_writable wait_event vcl_rs.Reactor.Waiters.find
connect_async-leaves_entry_example =
    connect_async-leaves_entry ⦃V = unreachable⦄ 5 server none reactor 9 alone
      (connect_async ⦃V = unreachable⦄ 5 server none reactor 9 alone).1 others_keep refl
