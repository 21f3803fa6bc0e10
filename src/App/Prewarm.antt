-- ===== src/App/Prewarm.antt =====
-- src/app.rs, `prewarm`: its tasks on tokio's blocking pool, as a step relation. A thread that waits
-- at the barrier takes no other task; the pool makes a thread for a task that finds none idle, up to
-- its limit. The call awaits the handles of the tasks in the order in which it has spawned them. The
-- order of the steps is the scheduler's.
pub mod Counts
pub mod Handles
pub mod Laws
pub mod Progress
pub mod Hangs
use vcl_rs.Base.{
  ℕ, zero, suc, ◌<◌, ◌≡◌, Bool, false, Option, none, some, List, [], ◌∷◌, ◌++◌, length, negsuc,
}
use vcl_rs.Error.{api, prewarm_join}
use vcl_rs.Ffi.{Vcl}
use vcl_rs.Machine.{State, Result, ok, err}
use vcl_rs.App.{register_worker_thread}

-- A thread of the pool, with its `REGISTERED`.
pub data Thread : Type 0 where
  idle : Bool → Thread
  at_barrier : Bool → Thread

-- What the threads at the barrier do when the last one has come.
abbrev pub let_go : Thread → Thread
let_go (idle b) = idle b
let_go (at_barrier b) = idle b

-- What a `JoinHandle` waits for.
pub data Handle : Type 0 where
  spawned : Handle
  started : Handle
  completed : Handle
  cancelled : Handle

unfoldable pub spawn_all : ℕ → List Handle
spawn_all zero = []
spawn_all (suc n) = spawned ∷ spawn_all n

-- A task ends when the barrier has let it go.
abbrev pub end_task : Handle → Handle
end_task started = completed
end_task h = h

unfoldable pub end_all : List Handle → List Handle
end_all [] = []
end_all (h ∷ hs) = end_task h ∷ end_all hs

unfoldable pub release : List Thread → List Thread
release [] = []
release (t ∷ ts) = let_go t ∷ release ts

module _ ⦃V : Vcl⦄ where
  -- A call of `prewarm`: the crate's state, the threads of the pool, the handles that are still to be
  -- awaited, the count of the barrier, and what the call has returned.
  pub record Prewarm : Type 0 where
    pub state : State
    pub threads : List Thread
    pub handles : List Handle
    pub arrived : ℕ
    pub outcome : Option (Result (Unit {0}))

  -- After the loop that spawns the tasks, or after the early return.
  unfoldable pub begin : ℕ → State → List Thread → Prewarm
  unfolding spawn_all
  begin zero s ts = record {
    state = s;
    threads = ts;
    handles = [];
    arrived = 0;
    outcome = some (ok tt);
  }
  begin (suc n) s ts = record {
    state = s;
    threads = ts;
    handles = spawn_all (suc n);
    arrived = 0;
    outcome = none;
  }

  -- `register_worker_thread` on a thread of the pool.
  abbrev pub registered_on : Bool → State → State
  registered_on b s = (register_worker_thread (record s { registered = b })).1

  abbrev pub with_flag : Bool → State → State
  with_flag b s = record s { registered = b }

  -- A task up to its `b.wait()`, on the thread between `before` and `behind`.
  abbrev pub run_task :
      Prewarm → List Thread → Bool → List Thread → List Handle → List Handle → Prewarm
  run_task p before b behind earlier later =
      let after = registered_on b p.state in
      record {
        state = with_flag p.state.registered after;
        threads = before ++ (at_barrier after.registered ∷ behind);
        handles = earlier ++ (started ∷ later);
        arrived = suc p.arrived;
        outcome = none;
      }

  abbrev pub released : Prewarm → Prewarm
  released p = record {
    state = p.state;
    threads = release p.threads;
    handles = end_all p.handles;
    arrived = 0;
    outcome = none;
  }

  -- One step of `prewarm(n)` on a pool of at most `limit` threads.
  pub data Step (n limit : ℕ) : Prewarm → Prewarm → Type 0 where
    make_thread :
        (p : Prewarm)
        → p.outcome ≡ none
        → length p.threads < limit
        → Step n limit p (record p { threads = idle false ∷ p.threads })
    take_task :
        (p : Prewarm) (before behind : List Thread) (b : Bool) (earlier later : List Handle)
        → p.outcome ≡ none
        → p.threads ≡ before ++ (idle b ∷ behind)
        → p.handles ≡ earlier ++ (spawned ∷ later)
        → Step n limit p (run_task p before b behind earlier later)
    leave_barrier : (p : Prewarm) → p.outcome ≡ none → p.arrived ≡ n → Step n limit p (released p)
    -- The runtime shuts down, and a task is cancelled before it has started.
    cancel :
        (p : Prewarm) (earlier later : List Handle)
        → p.outcome ≡ none
        → p.handles ≡ earlier ++ (spawned ∷ later)
        → Step n limit p (record p { handles = earlier ++ (cancelled ∷ later) })
    -- `h.await` on the next handle, and the return behind the last one.
    joins :
        (p : Prewarm) (rest : List Handle)
        → p.outcome ≡ none
        → p.handles ≡ completed ∷ rest
        → Step n limit p (record p { handles = rest })
    join_fails :
        (p : Prewarm) (rest : List Handle)
        → p.outcome ≡ none
        → p.handles ≡ cancelled ∷ rest
        → Step n limit p (record p { outcome = some (err (api prewarm_join (negsuc 0))) })
    returns :
        (p : Prewarm)
        → p.outcome ≡ none
        → p.handles ≡ []
        → Step n limit p (record p { outcome = some (ok tt) })

  pub data Reach (n limit : ℕ) (p : Prewarm) : Prewarm → Type 0 where
    here : Reach n limit p p
    next : {q r : Prewarm} → Reach n limit p q → Step n limit q r → Reach n limit p r
