-- ===== src/App/Prewarm/Hangs.antt =====
-- `prewarm` of src/app.rs, when a task is cancelled while the call awaits one that is at the barrier.
use vcl_rs.Base.{
  ℕ, ◌<◌, ◌≤◌, ◌≡◌, inl, inr, refl, sym, subst, ap, ◌∙◌, none, List, [], ◌∷◌, ◌++◌, length, arith,
}
use vcl_rs.Ffi.{Vcl}
use vcl_rs.Machine.{State}
use vcl_rs.App.Prewarm.{
  Thread, Handle, spawned, started, completed, cancelled, Prewarm, begin, Step, make_thread,
  take_task, leave_barrier, cancel, joins, join_fails, returns, Reach, here, next,
}
use vcl_rs.App.Prewarm.Handles.{cancelled_n, started_n, open_n, total, total-split}
use vcl_rs.App.Prewarm.Counts.{waiting}
use vcl_rs.App.Prewarm.Laws.{EveryIndex, Gathering, Fits, Inv, Reach-Inv, Reach-Fits, total-at}

-- 1 if the next handle to be awaited is that of a task which is at the barrier.
abbrev first_n : List Handle → ℕ
first_n [] = 0
first_n (h ∷ hs) = started_n h

first_n-kept :
    (earlier later : List Handle) (h : Handle)
    → first_n (earlier ++ (spawned ∷ later)) ≡ 1
    → first_n (earlier ++ (h ∷ later)) ≡ 1
first_n-kept [] later h e = absurd (omega (arith, e))
first_n-kept (x ∷ earlier) later h e = e

first_n-open : (hs : List Handle) → first_n hs ≡ 1 → 0 < total open_n hs
unfolding total
first_n-open [] e = absurd (omega (arith, e))
first_n-open (started ∷ hs) e = omega arith
first_n-open (spawned ∷ hs) e = omega arith
first_n-open (cancelled ∷ hs) e = omega arith
first_n-open (completed ∷ hs) e = absurd (omega (arith, e))

first_n-started : (hs : List Handle) → first_n hs ≡ 1 → 0 < total started_n hs
unfolding total
first_n-started [] e = absurd (omega (arith, e))
first_n-started (h ∷ hs) e = omega (arith, e)

module _ ⦃V : Vcl⦄ where
  record Stuck (p : Prewarm) : Type 0 where
    pub unfinished : p.outcome ≡ none
    pub first : first_n p.handles ≡ 1
    pub lost : 0 < total cancelled_n p.handles

  -- The barrier has not opened.
  Stuck-Gathering : (n limit : ℕ) (p : Prewarm) → Stuck p → Inv n limit p → Gathering n limit p
  Stuck-Gathering n limit p k h = elim (subst (Fits n limit p) k.unfinished h) [
    | inl g ↦ g
    | inr g ↦ absurd (omega (arith, g.all_done, first_n-open p.handles k.first))
  ]

  Step-Stuck : {n limit : ℕ} {p q : Prewarm} → Step n limit p q → Inv n limit p → Stuck p → Stuck q
  Step-Stuck (make_thread p e lt) h k = record {
    unfinished = k.unfinished;
    first = k.first;
    lost = k.lost;
  }
  Step-Stuck (take_task p before behind b earlier later e split q) h k = record {
    unfinished = refl;
    first = first_n-kept earlier later started (ap first_n (sym q) ∙ k.first);
    lost = omega (
      arith,
      k.lost,
      total-at cancelled_n p earlier later spawned q,
      total-split cancelled_n earlier later started,
    );
  }
  Step-Stuck {n} {limit} (leave_barrier p e full) h k =
      let g = Stuck-Gathering n limit p k h in
      absurd (omega (arith, full, g.all_tasks, g.counted, k.lost))
  Step-Stuck (cancel p earlier later e q) h k = record {
    unfinished = k.unfinished;
    first = first_n-kept earlier later cancelled (ap first_n (sym q) ∙ k.first);
    lost = omega (arith, total-split cancelled_n earlier later cancelled);
  }
  Step-Stuck (joins p rest e q) h k = absurd (omega (arith, k.first, ap first_n q))
  Step-Stuck (join_fails p rest e q) h k = absurd (omega (arith, k.first, ap first_n q))
  Step-Stuck (returns p e q) h k = absurd (omega (arith, k.first, ap first_n q))

  Reach-Stuck :
      {n limit : ℕ} {p q : Prewarm}
      → EveryIndex
      → Reach n limit p q
      → Inv n limit p
      → Stuck p
      → Stuck q
  Reach-Stuck ix here h k = k
  Reach-Stuck ix (next r st) h k = Step-Stuck st (Reach-Inv ix r h) (Reach-Stuck ix r h k)

  -- If a task of `prewarm(n)` has been cancelled, and the handle that the call awaits is that of a
  -- task at the barrier, then the call never returns, and some thread of the pool is always at the
  -- barrier, whatever the order of the further steps. The threads of the pool are idle at first, and
  -- libvppcom has an index for every worker.
  pub prewarm-hangs :
      (n limit : ℕ) (s : State) (ts : List Thread) (p q : Prewarm) (rest : List Handle)
      → EveryIndex
      → waiting ts ≡ 0
      → length ts ≤ limit
      → Reach n limit (begin n s ts) p
      → p.outcome ≡ none
      → p.handles ≡ started ∷ rest
      → 0 < total cancelled_n p.handles
      → Reach n limit p q
      → (q.outcome ≡ none) × (0 < waiting q.threads)
  prewarm-hangs n limit s ts p q rest ix e le r unfinished first lost onward =
      let h =
        subst (Fits n limit p) (sym unfinished)
          (Reach-Fits n limit s ts p ix e le r none unfinished) in
      let k =
        Reach-Stuck ix onward h
          (record { unfinished = unfinished; first = ap first_n first; lost = lost }) in
      let g = Stuck-Gathering n limit q k (Reach-Inv ix onward h) in
      (k.unfinished, omega (arith, g.at_it, g.counted, first_n-started q.handles k.first))
