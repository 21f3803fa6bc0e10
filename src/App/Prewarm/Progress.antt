-- ===== src/App/Prewarm/Progress.antt =====
-- `prewarm` of src/app.rs comes to its end if no task of it is cancelled.
use vcl_rs.Base.{
  ℕ, ◌+◌, ◌-◌, ◌<◌, ◌≤◌, ◌≡◌, inl, inr, refl, ap, false, Option, none, some, List, [], ◌∷◌, length,
  arith,
}
use vcl_rs.Ffi.{Vcl}
use vcl_rs.Machine.{State, Result}
use vcl_rs.App.Prewarm.{
  Thread, idle, at_barrier, Handle, spawned, started, completed, cancelled, Prewarm, begin,
  registered_on, run_task, released, Step, make_thread, take_task, leave_barrier, cancel, joins,
  join_fails, returns, Reach,
}
use vcl_rs.App.Prewarm.Handles.{
  spawned_n, cancelled_n, open_n, weight, total, total-split, weight-end_all, cancelled_n-end_all,
  Queued-or_none,
}
use vcl_rs.App.Prewarm.Counts.{waiting, length-replace, length-release, free_or_full}
use vcl_rs.App.Prewarm.Laws.{EveryIndex, Gathering, Fits, Reach-Fits, total-at}

module _ ⦃V : Vcl⦄ where
  -- What a call still has to do, at most: threads to make, handles to see through, and the return.
  abbrev to_leave : Option (Result (Unit {0})) → ℕ
  to_leave none = 1
  to_leave (some r) = 0

  abbrev pub work : ℕ → Prewarm → ℕ
  work limit p = (limit - length p.threads) + total weight p.handles + to_leave p.outcome

  released-work :
      (n limit : ℕ) (p : Prewarm)
      → p.outcome ≡ none
      → p.arrived ≡ n
      → Fits n limit p none
      → work limit (released p) < work limit p
  released-work n limit p e full (inl g) = rw e (
      omega
        (arith, full, g.counted, g.some_task, weight-end_all p.handles, length-release p.threads))
  released-work n limit p e full (inr g) = absurd (omega (arith, full, g.nobody_left, g.some_task))

  Step-work :
      {n limit : ℕ} {p q : Prewarm}
      → Step n limit p q
      → Fits n limit p none
      → work limit q < work limit p
  Step-work (make_thread p e lt) fits = omega (arith, lt)
  Step-work {limit} (take_task p before behind b earlier later e split q) fits = rw e (
      omega (
        arith,
        total-at weight p earlier later spawned q,
        total-split weight earlier later started,
        ap length split,
        length-replace before behind (idle b) (at_barrier (registered_on b p.state).registered),
      ))
  Step-work {n} {limit} (leave_barrier p e full) fits = released-work n limit p e full fits
  Step-work (cancel p earlier later e q) fits =
      omega (
        arith,
        total-at weight p earlier later spawned q,
        total-split weight earlier later cancelled,
      )
  Step-work (joins p rest e q) fits = omega (arith, total-at weight p [] rest completed q)
  Step-work (join_fails p rest e q) fits = rw e (omega arith)
  Step-work (returns p e q) fits = rw e (omega arith)

  -- A step that cancels nothing.
  abbrev pub SoundStep : ℕ → ℕ → Prewarm → Type 0
  SoundStep n limit p = (q : Prewarm) × Step n limit p q × (total cancelled_n q.handles ≡ 0)

  gather_step :
      (n limit : ℕ) (p : Prewarm)
      → n ≤ limit
      → p.outcome ≡ none
      → total cancelled_n p.handles ≡ 0
      → Gathering n limit p
      → SoundStep n limit p
  gather_step n limit p le e none_cancelled g = elim (Queued-or_none p.handles) [
    | inl q ↦ elim (free_or_full p.threads) [
      | inl i ↦ (
        run_task p i.before i.flag i.behind q.earlier q.later,
        take_task p i.before i.behind i.flag q.earlier q.later e i.split q.split,
        omega (
          arith,
          none_cancelled,
          total-at cancelled_n p q.earlier q.later spawned q.split,
          total-split cancelled_n q.earlier q.later started,
        ),
      )
      | inr full ↦ (
        record p { threads = idle false ∷ p.threads },
        make_thread p e (
            omega (
              arith,
              le,
              full,
              g.at_it,
              g.counted,
              g.all_tasks,
              total-at spawned_n p q.earlier q.later spawned q.split,
            )),
        none_cancelled,
      )
    ]
    | inr all_taken ↦ (
      released p,
      leave_barrier p e (omega (arith, all_taken, none_cancelled, g.counted, g.all_tasks)),
      omega (arith, none_cancelled, cancelled_n-end_all p.handles),
    )
  ]

  await_step :
      (n limit : ℕ) (p : Prewarm) (hs : List Handle)
      → p.outcome ≡ none
      → p.handles ≡ hs
      → total open_n p.handles ≡ 0
      → total cancelled_n p.handles ≡ 0
      → SoundStep n limit p
  await_step n limit p [] e q closed none_cancelled =
      (record p { outcome = _ }, returns p e q, none_cancelled)
  await_step n limit p (completed ∷ rest) e q closed none_cancelled = (
    record p { handles = rest },
    joins p rest e q,
    omega (arith, none_cancelled, total-at cancelled_n p [] rest completed q),
  )
  await_step n limit p (h ∷ rest) e q closed none_cancelled =
      absurd (ground (arith, closed, total-at open_n p [] rest h q))

  -- On a pool whose limit is `n` or more, `prewarm(n)` is never stuck while no task of it has been
  -- cancelled: until it returns, some step is possible that cancels none. And every step takes from
  -- the work that is left. The threads of the pool are idle at first, and libvppcom has an index for
  -- every worker.
  pub prewarm-progresses :
      (n limit : ℕ) (s : State) (ts : List Thread) (p : Prewarm)
      → EveryIndex
      → waiting ts ≡ 0
      → length ts ≤ limit
      → n ≤ limit
      → Reach n limit (begin n s ts) p
      → p.outcome ≡ none
      → total cancelled_n p.handles ≡ 0
      → SoundStep n limit p × ((q : Prewarm) → Step n limit p q → work limit q < work limit p)
  prewarm-progresses n limit s ts p ix e fits le r unfinished none_cancelled =
      let h = Reach-Fits n limit s ts p ix e fits r none unfinished in
      (
        elim h [
          | inl g ↦ gather_step n limit p le unfinished none_cancelled g
          | inr g ↦ await_step n limit p p.handles unfinished refl g.all_done none_cancelled
        ],
        λ q st. Step-work st h,
      )
