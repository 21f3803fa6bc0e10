-- ===== src/Tests/Events.antt =====
-- Events that are handed out, in a world like that of `Toy` in which `incoming` is the sessions
-- that have an event and `sent` the `Notify`s that have been told.
use vcl_rs.Base.{
  Bool, Bool-cases, inl, inr, none, Option, ◌||◌, ◌==◌, ◌≢◌, ℤ, if◌then◌else◌, true, false, some,
  zero, suc, ◌≡◌, refl, ℕ, List, [], ◌∷◌, ◌++◌, map, length, take, drop, pos, arith,
}
use vcl_rs.Ffi.{Vcl, EpollEvent, Wake, mq_ready, notified}
use vcl_rs.Machine.Hoare.{After}
use vcl_rs.Reactor.Future.{selecting, parked, poll_wait}
use vcl_rs.Reactor.Liveness.{IsDone, tick-wakes}
use vcl_rs.Reactor.Permits.{Permits}
use vcl_rs.Reactor.Backlog.{Backlog}
use vcl_rs.Reactor.Wakes.{poll_wait-wakes}
use vcl_rs.Machine.{State, returned, ok, ◌>>=◌}
use vcl_rs.Reactor.{VclReactor, TickTimes, tick, drain_events}
use vcl_rs.Reactor.Dispatch.{drain_events-dispatches}
use vcl_rs.Reactor.Queue.{Queue, targets}
use vcl_rs.Tests.Toy.{World, toy, start}

abbrev event : ℕ → EpollEvent
event h = record { events = 1; user = h }

-- A `notified()` is its `Notify`, and ready once that has been told; the queue of messages is ready
-- while some session has an event.
abbrev has : ℕ → List ℕ → Bool
has f [] = false
has f (n ∷ ns) = (n == f) || has f ns

abbrev look : List ℕ → ℕ → List ℕ → Option Wake
look [] f told = if has f told then some notified else none
look (h ∷ hs) f told = some mq_ready

abbrev telling : (ℕ → ℕ → ℕ → World → ℤ × List EpollEvent × World) → Vcl
telling reports = record toy {
  epoll_wait = reports;
  notify_one = λ n w. record w { sent = w.sent ++ (n ∷ []) };
  poll_select = λ f deadline w. (look w.incoming f w.sent, w);
  poll_check = λ f w. (some (has f w.sent), w);
}

abbrev batch : ℕ → ℕ → ℕ → World → ℤ × List EpollEvent × World
batch vep n ms w = (
  pos (length (take 64 (map event w.incoming))),
  take 64 (map event w.incoming),
  record w { incoming = drop 64 w.incoming },
)

-- Nothing is reported.
abbrev silence : ℕ → ℕ → ℕ → World → ℤ × List EpollEvent × World
silence vep n ms w = (pos 0, [], w)

abbrev ringing : Vcl
ringing = telling batch

abbrev mute : Vcl
mute = telling silence

has-last : (f : ℕ) (ns : List ℕ) → has f (ns ++ (f ∷ [])) ≡ true
has-last f [] = ground arith
has-last f (n ∷ ns) = rw (has-last f ns) (either (n == f))
  where
    either : (b : Bool) → (b || true) ≡ true
    either b = ground arith

has-more : (f m : ℕ) (ns : List ℕ) → has f ns ≡ true → has f (ns ++ (m ∷ [])) ≡ true
has-more f m [] e = ground arith
has-more f m (n ∷ ns) e = elim (Bool-cases (n == f)) [
  | inl t ↦ rw t refl
  | inr u ↦ rw u (has-more f m ns (ground (arith, e, u)))
]

look-told : (hs : List ℕ) (f : ℕ) (told : List ℕ) → has f told ≡ true → look hs f told ≢ none
look-told [] f told e = rw e (ground arith)
look-told (h ∷ hs) f told e = ground arith

module _ (reports : ℕ → ℕ → ℕ → World → ℤ × List EpollEvent × World)
    (tells_none : (vep n ms : ℕ) (w : World) → (reports vep n ms w).2.sent ≡ w.sent) where
  same_told :
      (f vep size ms : ℕ) (w : World)
      → has f w.sent ≡ true
      → has f (reports vep size ms w).2.sent ≡ true
  same_told f vep size ms w p = rw (tells_none vep size ms w) p

  telling-Permits : Permits ⦃V = telling reports⦄
  telling-Permits = record {
    is_free = λ n w. true;
    has_permit = λ n w. has n w.sent;
    is_told = λ f w. has f w.sent;
    is_only = λ n f w. n == f;
    completes = λ n f w o. rw (==→≡ n f o) (has-last f w.sent);
    stores = λ n w o. has-last n w.sent;
    takes = λ n w p. p;
    select_wakes = λ f deadline w p. look-told w.incoming f w.sent p;
    select_frees = λ n f deadline w o e. refl;
    select_returns = λ n f deadline w o p e. rw (==→≡ n f o) p;
    check_wakes = λ f w p. rw p refl;
    free_notify = λ n m w o. refl;
    free_epoll = λ n vep size ms w o. refl;
    permit_notify = λ n m w p. has-more n m w.sent p;
    permit_epoll = λ n vep size ms w p. same_told n vep size ms w p;
    permit_clear = λ n w p. p;
    told_notify = λ f m w p. has-more f m w.sent p;
    told_now = λ f w p. p;
    only_notify = λ n f m w o. o;
    only_epoll = λ n f vep size ms w o. o;
    only_now = λ n f w o. o;
  }
    where
      ==→≡ : (a b : ℕ) → (a == b) ≡ true → a ≡ b
      ==→≡ a b e = ground arith

map-drop : (n : ℕ) (hs : List ℕ) → map event (drop n hs) ≡ drop n (map event hs)
map-drop zero hs = refl
map-drop (suc n) [] = refl
map-drop (suc n) (h ∷ hs) = map-drop n hs

events : Queue ⦃V = ringing⦄ 0
events = record {
  pending = λ w. map event w.incoming;
  woken = λ w. w.sent;
  counts = λ w. refl;
  reports = λ w. refl;
  takes = λ w. map-drop 64 w.incoming;
  wakes_none = λ w. refl;
  tells = λ n w. refl;
  keeps = λ n w. refl;
}

-- Sessions 0, 2, 8, 9 and 7 have an event, and somebody waits for 7, 5 and 8.
abbrev waited_for : State ⦃V = ringing⦄
waited_for = record {
  world = start.world;
  waiters = (7, 40) ∷ (5, 41) ∷ (8, 42) ∷ [];
  registered = true;
  initialized = true;
  trace = [];
}

drain_events-dispatches_example :
    let run = drain_events ⦃V = ringing⦄ 1 (record { vep = 0 }) waited_for in
    (run.0 ≡ returned (ok tt))
    × (map event run.1.world.incoming ≡ [])
    × (run.1.world.sent ≡ 42 ∷ 40 ∷ [])
    × (run.1.waiters ≡ (7, 40) ∷ (5, 41) ∷ (8, 42) ∷ [])
unfolding events targets vcl_rs.Reactor.Waiters.find
drain_events-dispatches_example =
    drain_events-dispatches ⦃V = ringing⦄ 1 (record { vep = 0 }) events waited_for (omega arith)

poll_wait-wakes_example :
    let run = poll_wait ⦃V = ringing⦄ 2 (record { vep = 0 }) (selecting 42 42 9) waited_for in
    After ⦃V = ringing⦄
      (λ p t. IsDone ⦃V = ringing⦄ p)
      (λ e t. false ≡ true)
      (false ≡ true)
      run.0
      run.1
unfolding events telling-Permits vcl_rs.Reactor.Waiters.find
poll_wait-wakes_example =
    poll_wait-wakes ⦃V = ringing⦄ 1 9 (record { vep = 0 }) 42 42 (event 0 ∷ event 2 ∷ [])
      (event 9 ∷ event 7 ∷ []) (event 8) waited_for (telling-Permits batch (λ vep n ms w. refl))
      events refl refl refl refl (omega arith)

no_events : Backlog ⦃V = mute⦄ 0
no_events = record {
  capacity = 0;
  left = λ w. 0;
  bounded = λ w. omega arith;
  takes = λ n w e. ground arith;
  notify_adds_none = λ n w. omega arith;
}

-- Somebody waits for session 7, of which nothing is reported.
abbrev unreported : State ⦃V = mute⦄
unreported = record {
  world = record start.world { incoming = [] };
  waiters = (7, 40) ∷ [];
  registered = true;
  initialized = true;
  trace = [];
}

abbrev times : TickTimes
times = record { prev_tick = 0; last_alive = 0 }

tick-wakes_example :
    let run =
      ◌>>=◌ ⦃V = mute⦄
        (tick ⦃V = mute⦄ 2 (record { vep = 0 }) times)
        (λ _. poll_wait ⦃V = mute⦄ 2 (record { vep = 0 }) (selecting 40 40 9))
        unreported in
    After ⦃V = mute⦄ (λ p t. IsDone ⦃V = mute⦄ p) (λ e t. false ≡ true) (false ≡ true) run.0 run.1
unfolding no_events telling-Permits vcl_rs.Reactor.Waiters.find
tick-wakes_example =
    tick-wakes ⦃V = mute⦄ 2 7 (record { vep = 0 }) times 40 40 (selecting 40 40 9) unreported
      (telling-Permits silence (λ vep n ms w. refl)) no_events (omega arith) refl refl (refl, refl)

-- Before the tick the wait parks.
unreported-parks :
    (poll_wait ⦃V = mute⦄ 2 (record { vep = 0 }) (selecting 40 40 9) unreported).0
    ≡ returned (ok (parked (selecting 40 40 9)))
unfolding poll_wait vcl_rs.Machine.◌>>=◌
unreported-parks = refl
