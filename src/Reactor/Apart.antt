-- ===== src/Reactor/Apart.antt =====
-- What a wait of the reactor leaves alone.
use vcl_rs.Base.{ℕ}
use vcl_rs.Ffi.{Vcl}
use vcl_rs.Reactor.Keeps.{Waiters, WaitKeeps}

module _ ⦃V : Vcl⦄ where
  -- The calls of a wait, and the other tasks that run during it, lead to a world that `Still` relates
  -- to the one before.
  pub record Apart (Still : V.World → V.World → Type 0) : Type 0 where
    pub notify_still : (n : V.Notify) (w : V.World) → Still w (V.notify_one n w)
    pub epoll_still : (vep n ms : ℕ) (w : V.World) → Still w (V.epoll_wait vep n ms w).2
    pub clear_still : (w : V.World) → Still w (V.clear_ready w)
    pub now_still : (w : V.World) → Still w (V.now w).1
    pub new_notify_still : (w : V.World) → Still w (V.new_notify w).1
    pub select_still :
        (n : V.Notify) (deadline : ℕ) (w : V.World) (ws : Waiters)
        → Still w (V.select n deadline w ws).1
    pub poll_still :
        (n : V.Notify) (w : V.World) (ws : Waiters) → Still w (V.poll_notified n w ws).1

  pub Apart-WaitKeeps :
      (Still : V.World → V.World → Type 0) (Q : Apart Still) (P : V.World → Type 0)
      → ((w v : V.World) → P w → Still w v → P v)
      → WaitKeeps (λ w ws. P w)
  Apart-WaitKeeps Still Q P keeps = record {
    drain = record {
      notify = λ n w ws q. keeps w _ q (Q.notify_still n w);
      epoll = λ vep n ms w ws q. keeps w _ q (Q.epoll_still vep n ms w);
    };
    clear = λ w ws q. keeps w _ q (Q.clear_still w);
    now = λ w ws q. keeps w _ q (Q.now_still w);
    new_notify = λ w ws q. keeps w _ q (Q.new_notify_still w);
    insert = λ h n w ws q. q;
    select = λ n deadline w ws q. keeps w _ q (Q.select_still n deadline w ws);
    notified_poll = λ n w ws q. keeps w _ q (Q.poll_still n w ws);
  }
