-- ===== src/Reactor/Future/Executor.antt =====
-- How an executor runs what a wait of src/reactor.rs awaits: it polls the future, runs other tasks
-- while the future is pending, and polls it again.
use vcl_rs.Base.{ℕ, ◌≡◌, Option, none, some}
use vcl_rs.Ffi.{Vcl}
use vcl_rs.Reactor.Keeps.{Waiters}

-- `others` is what the other tasks do between two polls.
module _ ⦃V : Vcl⦄ (others : V.World → Waiters → V.World × Waiters) where
  -- A future that is awaited by polls gives `b`, in the world and the waiters behind it.
  pub data Awaited {B : Type 0} (poll : V.World → Option B × V.World)
      : V.World → Waiters → B → V.World → Waiters → Type 0 where
    ready : {w v : V.World} {ws : Waiters} {b : B} → poll w ≡ (some b, v) → Awaited poll w ws b v ws
    later :
        {w u v : V.World} {ws vs : Waiters} {b : B}
        → poll w ≡ (none, u)
        → Awaited poll (others u ws).0 (others u ws).1 b v vs
        → Awaited poll w ws b v vs

  -- The two futures that a wait awaits, each as one action, are awaited by polls, each around a
  -- `notified()` of its own.
  pub record Executor : Type 0 where
    pub selects :
        (n : V.Notify) (deadline : ℕ) (w : V.World) (ws : Waiters)
        → let (x, v, vs) = V.select n deadline w ws in
          let (f, u) = V.new_notified n w in Awaited (V.poll_select f deadline) u ws x v vs
    pub checks :
        (n : V.Notify) (w : V.World) (ws : Waiters)
        → let (b, v, vs) = V.poll_notified n w ws in
          let (f, u) = V.new_notified n w in Awaited (V.poll_check f) u ws b v vs
