-- ===== src/App/Prewarm/Laws.antt =====
-- What holds in every interleaving of `prewarm`, src/app.rs.
use vcl_rs.Base.{
  ℕ, zero, suc, ◌+◌, ◌<◌, ◌≤◌, ◌≡◌, ◌⊎◌, inl, inr, refl, sym, subst, ap, ◌∙◌, [], Bool, true, false,
  Bool-cases, Option, none, some, List, ◌∷◌, ◌++◌, pos, length, arith,
}
use vcl_rs.Ffi.{Vcl}
use vcl_rs.Machine.{State, Result, ok, err, ◌>>=◌}
use vcl_rs.App.{register_worker_thread}
use vcl_rs.App.Laws.{register_worker_thread-cases}
use vcl_rs.App.Prewarm.{
  Thread, idle, at_barrier, Handle, spawned, started, completed, cancelled, Prewarm, begin,
  registered_on, run_task, released, Step, make_thread, take_task, leave_barrier, cancel, joins,
  join_fails, returns, Reach, here, next,
}
use vcl_rs.App.Prewarm.Handles.{
  spawned_n, started_n, cancelled_n, completed_n, open_n, total, total-split, total-spawn_all,
  spawned_n-spawn_all, open_n-end_all,
}
use vcl_rs.App.Prewarm.Counts.{
  waiting, marked, AllSound, cons, waiting-replace, waiting-AllSound, length-replace,
  length-release, AllSound-replace, marked-release, marked-length,
}

module _ ⦃V : Vcl⦄ where
  -- libvppcom has an index for every worker.
  abbrev pub EveryIndex : Type 0
  EveryIndex = (w : V.World) → (i : ℕ) × ((V.worker_index w).0 ≡ pos i)

  register_worker_thread-registered :
      EveryIndex → (s : State) → (register_worker_thread s).1.registered ≡ true
  unfolding register_worker_thread ◌>>=◌
  register_worker_thread-registered ix s = elim (Bool-cases s.registered) [
    | inl t ↦ rw t refl
    | inr f ↦ elim (register_worker_thread-cases s f) [
      | inl (i, _, e) ↦ e
      | inr (i, _, e, _, _) ↦ (let (j, e') = ix (V.worker_register s.world).1 in ground arith)
    ]
  ]

  -- Before the barrier opens: its count is that of the tasks which have started.
  pub record Gathering (n limit : ℕ) (p : Prewarm) : Type 0 where
    pub some_task : 0 < n
    pub all_tasks :
        total spawned_n p.handles + total started_n p.handles + total cancelled_n p.handles ≡ n
    pub none_done : total completed_n p.handles ≡ 0
    pub counted : total started_n p.handles ≡ p.arrived
    pub at_it : waiting p.threads ≡ p.arrived
    pub sound : AllSound p.threads
    pub room : length p.threads ≤ limit

  -- And behind it.
  pub record Gathered (n limit : ℕ) (p : Prewarm) : Type 0 where
    pub some_task : 0 < n
    pub all_done : total open_n p.handles ≡ 0
    pub nobody_left : p.arrived ≡ 0
    pub enough : n ≤ marked p.threads
    pub room : length p.threads ≤ limit

  -- The state of a call that has not returned, or returned well.
  abbrev pub Fits : ℕ → ℕ → Prewarm → Option (Result (Unit {0})) → Type 0
  Fits n limit p none = Gathering n limit p ⊎ Gathered n limit p
  Fits n limit p (some (ok _)) = (n ≤ marked p.threads) × (length p.threads ≤ limit)
  Fits n limit p (some (err e)) = Unit {0}

  abbrev pub Inv : ℕ → ℕ → Prewarm → Type 0
  Inv n limit p = Fits n limit p p.outcome

  begin-Inv :
      (n limit : ℕ) (s : State) (ts : List Thread)
      → waiting ts ≡ 0
      → length ts ≤ limit
      → Inv n limit (begin n s ts)
  unfolding begin
  begin-Inv zero limit s ts e le = (omega arith, le)
  begin-Inv (suc n) limit s ts e le = inl (record {
    some_task = omega arith;
    all_tasks = omega (
      arith,
      spawned_n-spawn_all (suc n),
      total-spawn_all started_n refl (suc n),
      total-spawn_all cancelled_n refl (suc n),
    );
    none_done = total-spawn_all completed_n refl (suc n);
    counted = total-spawn_all started_n refl (suc n);
    at_it = e;
    sound = waiting-AllSound ts e;
    room = le;
  })

  unfinished : (n limit : ℕ) (p : Prewarm) → p.outcome ≡ none → Inv n limit p → Fits n limit p none
  unfinished n limit p e h = subst (Fits n limit p) e h

  -- What one handle comes to in the totals.
  pub total-at :
      (g : Handle → ℕ) (p : Prewarm) (earlier later : List Handle) (h : Handle)
      → p.handles ≡ earlier ++ (h ∷ later)
      → total g p.handles ≡ g h + total g (earlier ++ later)
  total-at g p earlier later h q = ap (total g) q ∙ total-split g earlier later h

  take_task-Gathering :
      (n limit : ℕ) (p : Prewarm) (before behind : List Thread) (b : Bool)
      (earlier later : List Handle)
      → EveryIndex
      → p.threads ≡ before ++ (idle b ∷ behind)
      → p.handles ≡ earlier ++ (spawned ∷ later)
      → Gathering n limit p
      → Gathering n limit (run_task p before b behind earlier later)
  take_task-Gathering n limit p before behind b earlier later ix split q g =
      let was = λ (f : Handle → ℕ). total-at f p earlier later spawned q in
      let now = λ (f : Handle → ℕ). total-split f earlier later started in
      record {
        some_task = g.some_task;
        all_tasks = omega (
          arith,
          g.all_tasks,
          was spawned_n,
          was started_n,
          was cancelled_n,
          now spawned_n,
          now started_n,
          now cancelled_n,
        );
        none_done = omega (arith, g.none_done, was completed_n, now completed_n);
        counted = omega (arith, g.counted, was started_n, now started_n);
        at_it = omega (
          arith,
          g.at_it,
          waiting-replace before behind b (registered_on b p.state).registered,
          ap waiting split,
        );
        sound =
            AllSound-replace before behind (idle b) _ (register_worker_thread-registered ix _)
              (subst AllSound split g.sound);
        room = omega (
          arith,
          g.room,
          ap length split,
          length-replace before behind (idle b) (at_barrier (registered_on b p.state).registered),
        );
      }

  cancel-Gathering :
      (n limit : ℕ) (p : Prewarm) (earlier later : List Handle)
      → p.handles ≡ earlier ++ (spawned ∷ later)
      → Gathering n limit p
      → Gathering n limit (record p { handles = earlier ++ (cancelled ∷ later) })
  cancel-Gathering n limit p earlier later q g =
      let was = λ (f : Handle → ℕ). total-at f p earlier later spawned q in
      let now = λ (f : Handle → ℕ). total-split f earlier later cancelled in
      record {
        some_task = g.some_task;
        all_tasks = omega (
          arith,
          g.all_tasks,
          was spawned_n,
          was started_n,
          was cancelled_n,
          now spawned_n,
          now started_n,
          now cancelled_n,
        );
        none_done = omega (arith, g.none_done, was completed_n, now completed_n);
        counted = omega (arith, g.counted, was started_n, now started_n);
        at_it = g.at_it;
        sound = g.sound;
        room = g.room;
      }

  -- Behind the barrier no handle is open.
  none_open :
      (n limit : ℕ) (p : Prewarm) (earlier later : List Handle)
      → p.handles ≡ earlier ++ (spawned ∷ later)
      → ¬ Gathered n limit p
  none_open n limit p earlier later q g =
      omega (arith, g.all_done, total-at open_n p earlier later spawned q)

  released-Gathered :
      (n limit : ℕ) (p : Prewarm)
      → p.arrived ≡ n
      → Gathering n limit p
      → Gathered n limit (released p)
  released-Gathered n limit p full g = record {
    some_task = g.some_task;
    all_done = omega (arith, full, g.all_tasks, g.counted, open_n-end_all p.handles);
    nobody_left = refl;
    enough = omega (arith, full, g.at_it, marked-release p.threads g.sound);
    room = omega (arith, g.room, length-release p.threads);
  }

  make_thread-Fits :
      (n limit : ℕ) (p : Prewarm)
      → length p.threads < limit
      → Fits n limit p none
      → Fits n limit (record p { threads = idle false ∷ p.threads }) none
  unfolding waiting marked
  make_thread-Fits n limit p lt (inl g) = inl (record {
    some_task = g.some_task;
    all_tasks = g.all_tasks;
    none_done = g.none_done;
    counted = g.counted;
    at_it = omega (arith, g.at_it);
    sound = cons _ _ tt g.sound;
    room = omega (arith, lt);
  })
  make_thread-Fits n limit p lt (inr g) = inr (record {
    some_task = g.some_task;
    all_done = g.all_done;
    nobody_left = g.nobody_left;
    enough = omega (arith, g.enough);
    room = omega (arith, lt);
  })

  joins-Fits :
      (n limit : ℕ) (p : Prewarm) (rest : List Handle)
      → p.handles ≡ completed ∷ rest
      → Fits n limit p none
      → Fits n limit (record p { handles = rest }) none
  joins-Fits n limit p rest q (inl g) =
      absurd (omega (arith, g.none_done, total-at completed_n p [] rest completed q))
  joins-Fits n limit p rest q (inr g) = inr (record {
    some_task = g.some_task;
    all_done = omega (arith, g.all_done, total-at open_n p [] rest completed q);
    nobody_left = g.nobody_left;
    enough = g.enough;
    room = g.room;
  })

  returns-Fits :
      (n limit : ℕ) (p : Prewarm)
      → p.handles ≡ []
      → Fits n limit p none
      → (n ≤ marked p.threads) × (length p.threads ≤ limit)
  unfolding total
  returns-Fits n limit p q (inl g) = absurd (
      omega (
        arith,
        g.some_task,
        g.all_tasks,
        ap (total spawned_n) q,
        ap (total started_n) q,
        ap (total cancelled_n) q,
      ))
  returns-Fits n limit p q (inr g) = (g.enough, g.room)

  Step-Inv :
      {n limit : ℕ} {p q : Prewarm} → EveryIndex → Step n limit p q → Inv n limit p → Inv n limit q
  Step-Inv {n} {limit} ix (make_thread p e lt) h =
      subst (Fits n limit (record p { threads = idle false ∷ p.threads })) (sym e)
        (make_thread-Fits n limit p lt (unfinished n limit p e h))
  Step-Inv {n} {limit} ix (take_task p before behind b earlier later e split q) h =
      elim (unfinished n limit p e h) [
        | inl g ↦ inl (take_task-Gathering n limit p before behind b earlier later ix split q g)
        | inr g ↦ absurd (none_open n limit p earlier later q g)
      ]
  Step-Inv {n} {limit} ix (leave_barrier p e full) h = elim (unfinished n limit p e h) [
    | inl g ↦ inr (released-Gathered n limit p full g)
    | inr g ↦ absurd (omega (arith, full, g.nobody_left, g.some_task))
  ]
  Step-Inv {n} {limit} ix (cancel p earlier later e q) h =
      subst (Fits n limit (record p { handles = earlier ++ (cancelled ∷ later) })) (sym e)
        (elim (unfinished n limit p e h) [
          | inl g ↦ inl (cancel-Gathering n limit p earlier later q g)
          | inr g ↦ absurd (none_open n limit p earlier later q g)
        ])
  Step-Inv {n} {limit} ix (joins p rest e q) h =
      subst (Fits n limit (record p { handles = rest })) (sym e)
        (joins-Fits n limit p rest q (unfinished n limit p e h))
  Step-Inv ix (join_fails p rest e q) h = tt
  Step-Inv {n} {limit} ix (returns p e q) h = returns-Fits n limit p q (unfinished n limit p e h)

  pub Reach-Inv :
      {n limit : ℕ} {p q : Prewarm} → EveryIndex → Reach n limit p q → Inv n limit p → Inv n limit q
  Reach-Inv ix here h = h
  Reach-Inv ix (next r st) h = Step-Inv ix st (Reach-Inv ix r h)

  pub Reach-Fits :
      (n limit : ℕ) (s : State) (ts : List Thread) (p : Prewarm)
      → EveryIndex
      → waiting ts ≡ 0
      → length ts ≤ limit
      → Reach n limit (begin n s ts) p
      → (o : Option (Result (Unit {0}))) → p.outcome ≡ o
      → Fits n limit p o
  Reach-Fits n limit s ts p ix e le r o same =
      subst (Fits n limit p) same (Reach-Inv ix r (begin-Inv n limit s ts e le))

  -- Whatever the order of its steps, when `prewarm(n)` has returned `Ok`, at least `n` threads of
  -- the pool are registered, each its own; so it never returns `Ok` on a pool whose limit is below
  -- `n`. The threads of the pool are idle at first, and libvppcom has an index for every worker.
  pub prewarm-registers :
      (n limit : ℕ) (s : State) (ts : List Thread) (p : Prewarm)
      → EveryIndex
      → waiting ts ≡ 0
      → length ts ≤ limit
      → Reach n limit (begin n s ts) p
      → p.outcome ≡ some (ok tt)
      → (n ≤ marked p.threads) × (n ≤ limit)
  prewarm-registers n limit s ts p ix e le r done =
      let (enough, fits) = Reach-Fits n limit s ts p ix e le r (some (ok tt)) done in
      (enough, omega (arith, enough, fits, marked-length p.threads))
