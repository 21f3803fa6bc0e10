-- ===== src/Stream/Quiet.antt =====
-- What a wait of the reactor leaves alone: the bytes of a session that the waiting task owns.
use vcl_rs.Ffi.{Vcl}
use vcl_rs.Tcp.Connection.{Pipe, Still}
use vcl_rs.Reactor.Keeps.{WaitKeeps}
use vcl_rs.Reactor.Apart.{Apart, Apart-WaitKeeps}

module _ ⦃V : Vcl⦄ where
  -- The other tasks that run during a wait have no reference to the session, since its stream is
  -- borrowed as mutable; the reactor's calls are about its own epoll set.
  abbrev pub Quiet : Pipe → Type 0
  Quiet p = Apart (Still p)

  pub Quiet-WaitKeeps :
      (p : Pipe) (Q : Quiet p) (P : V.World → Type 0)
      → ((w v : V.World) → P w → Still p w v → P v)
      → WaitKeeps (λ w ws. P w)
  Quiet-WaitKeeps p Q P keeps = Apart-WaitKeeps (Still p) Q P keeps
