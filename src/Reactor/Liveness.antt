-- ===== src/Reactor/Liveness.antt =====
-- The periodic task gets every parked wait going again, whatever libvppcom has reported.
use vcl_rs.Base.{
  ℕ, zero, suc, ◌+◌, ◌<◌, ◌≡◌, ◌≢◌, inl, inr, refl, sym, subst, true, false, none, some, [], ◌∷◌,
  ◌==◌, Bool-cases, arith,
}
use vcl_rs.Error.{VclError}
use vcl_rs.Ffi.{Vcl, mq_ready, mq_failed, notified, expired}
use vcl_rs.Machine.{State, Exit, ok, err, returned, running, ◌>>=◌, gets, host, advance}
use vcl_rs.Machine.Hoare.{
  After, Hoare, Hoare-bind, Hoare-pure, Hoare-host, Hoare-advance, Hoare-weaken,
}
use vcl_rs.Reactor.{VclReactor, TickTimes, notify_all, tick}
use vcl_rs.Reactor.Waiters.{find}
use vcl_rs.Reactor.Permits.{Permits}
use vcl_rs.Reactor.Backlog.{Backlog, drain_events-ends}
use vcl_rs.Reactor.Keeps.{Waiters, Within, DrainKeeps}
use vcl_rs.Reactor.Future.{Wait, start, selecting, checking, Progress, parked, done, poll_wait}

module _ ⦃V : Vcl⦄ where
  -- Parked on `n`, with this future.
  abbrev pub ParkedOn : V.Notify → V.Notified → Wait → Type 0
  ParkedOn n f (start h limit) = false ≡ true
  ParkedOn n f (selecting m g deadline) = (m ≡ n) × (g ≡ f)
  ParkedOn n f (checking m g deadline) = (m ≡ n) × (g ≡ f)

  abbrev pub IsDone : Progress → Type 0
  IsDone (parked w) = false ≡ true
  IsDone (done r) = Unit {0}

  abbrev Never : VclError → State → Type 0
  Never e s = false ≡ true

  find-hit :
      (h j : ℕ) (m n : V.Notify) (ws : Waiters)
      → (j == h) ≡ true
      → find h ((j, m) ∷ ws) ≡ some n
      → m ≡ n
  unfolding find
  find-hit h j m n ws same e = ground arith

  find-miss :
      (h j : ℕ) (m n : V.Notify) (ws : Waiters)
      → (j == h) ≡ false
      → find h ((j, m) ∷ ws) ≡ some n
      → find h ws ≡ some n
  unfolding find
  find-miss h j m n ws differs e = ground arith

  module _ (L : Permits) (n : V.Notify) where
    abbrev Permit : V.World → Waiters → Type 0
    Permit w ws = L.has_permit n w ≡ true

    Permit-DrainKeeps : DrainKeeps Permit
    Permit-DrainKeeps = record {
      notify = λ m w ws p. L.permit_notify n m w p;
      epoll = λ vep size ms w ws p. L.permit_epoll n vep size ms w p;
    }

    poll_check-IsDone :
        (k : ℕ) (r : VclReactor) (m : V.Notify) (f : V.Notified) (deadline : ℕ)
        → 0 < k
        → Hoare
            (λ s. L.is_told f s.world ≡ true)
            (poll_wait k r (checking m f deadline))
            (λ p s. IsDone p)
            Never
            (false ≡ true)
    unfolding poll_wait
    poll_check-IsDone zero r m f deadline lt = ground arith
    poll_check-IsDone (suc k) r m f deadline lt =
        Hoare-bind _ _ (λ o s. o ≡ some true) _ (Hoare-host _ (λ s p. L.check_wakes f s.world p))
          (elim [
            | none ↦ record { at = λ s q. ground arith }
            | some true ↦ Hoare-pure _ (λ s p. tt)
            | some false ↦ record { at = λ s q. ground arith }
          ])

    -- The end of a wait that has looked at the queue of messages, when the `Notify` has a permit.
    pub cleared-IsDone :
        (k : ℕ) (r : VclReactor) (deadline : ℕ)
        → 0 < k
        → Hoare
            (Within Permit)
            (advance V.clear_ready >>= λ _.
              host (V.new_notified n) >>= λ f. poll_wait k r (checking n f deadline))
            (λ p s. IsDone p)
            Never
            (false ≡ true)
    cleared-IsDone k r deadline lt =
        Hoare-bind _ _ (λ _. Within Permit) _ (Hoare-advance _ (λ s p. L.permit_clear n s.world p))
          λ _.
            Hoare-bind _ _ (λ f s. L.is_told f s.world ≡ true) _
              (Hoare-host _ (λ s p. L.takes n s.world p)) λ f. poll_check-IsDone k r n f deadline lt

    module _ (f : V.Notified) where
      -- Only this future waits; and it is ready besides.
      abbrev Only : V.World → Waiters → Type 0
      Only w ws = L.is_only n f w ≡ true

      abbrev Told : V.World → Waiters → Type 0
      Told w ws = (L.is_only n f w ≡ true) × (L.is_told f w ≡ true)

      notify_all-Told :
          (ws : Waiters)
          → Hoare (Within Told) (notify_all ws) (λ _. Within Told) Never (false ≡ true)
      unfolding notify_all
      notify_all-Told [] = Hoare-pure _ (λ s p. p)
      notify_all-Told ((j, m) ∷ ws) =
          Hoare-bind _ _ (λ _. Within Told) _
            (Hoare-advance _
              (λ s (o, t). (L.only_notify n f m s.world o, L.told_notify f m s.world t)))
            (λ _. notify_all-Told ws)

      -- Whoever waits on what is in the map is ready afterwards.
      notify_all-find :
          (h : ℕ) (ws : Waiters)
          → find h ws ≡ some n
          → Hoare (Within Only) (notify_all ws) (λ _. Within Told) Never (false ≡ true)
      unfolding notify_all find
      notify_all-find h [] e = ground arith
      notify_all-find h ((j, m) ∷ ws) e = elim (Bool-cases (j == h)) [
        | inl same ↦
            Hoare-bind _ _ (λ _. Within Told) _
              (Hoare-advance _ (λ s o. (
                L.only_notify n f m s.world o,
                subst (λ x. L.is_told f (V.notify_one x s.world) ≡ true)
                    (sym (find-hit h j m n ws same e)) (L.completes n f s.world o),
              )))
              (λ _. notify_all-Told ws)
        | inr differs ↦
            Hoare-bind _ _ (λ _. Within Only) _
              (Hoare-advance _ (λ s o. L.only_notify n f m s.world o))
              (λ _. notify_all-find h ws (find-miss h j m n ws differs e))
      ]

      Told-select :
          (g : V.Notified) (deadline : ℕ) (w : V.World)
          → g ≡ f
          → Told w []
          → ((V.poll_select g deadline w).0 ≢ none)
            × ((V.poll_select g deadline w).0 ≡ some mq_ready
                → L.has_permit n (V.poll_select g deadline w).1 ≡ true)
      Told-select g deadline w same (o, t) =
          subst
            (λ x.
              ((V.poll_select x deadline w).0 ≢ none)
              × ((V.poll_select x deadline w).0 ≡ some mq_ready
                  → L.has_permit n (V.poll_select x deadline w).1 ≡ true))
            (sym same) (L.select_wakes f deadline w t, λ e. L.select_returns n f deadline w o t e)

      selecting-IsDone :
          (k : ℕ) (r : VclReactor) (B : Backlog r.vep) (g : V.Notified) (deadline : ℕ)
          → g ≡ f
          → B.capacity < k
          → Hoare
              (Within Told)
              (poll_wait (suc k) r (selecting n g deadline))
              (λ p s. IsDone p)
              Never
              (false ≡ true)
      unfolding poll_wait
      selecting-IsDone k r B g deadline same lt =
          Hoare-bind _ _ (λ o s. (o ≢ none) × (o ≡ some mq_ready → Within Permit s)) _
            (Hoare-host _ (λ s p. Told-select g deadline s.world same p))
            (elim [
              | none ↦ record { at = λ s q. absurd (q.0 refl) }
              | some mq_failed ↦ Hoare-pure _ (λ s p. tt)
              | some notified ↦ Hoare-pure _ (λ s p. tt)
              | some expired ↦ Hoare-pure _ (λ s p. tt)
              | some mq_ready ↦
                  Hoare-bind _ _ (λ _. Within Permit) _
                    (Hoare-weaken (Within Permit) (λ s q. q.1 refl)
                      (drain_events-ends _ r B Permit Permit-DrainKeeps k lt))
                    (λ _. cleared-IsDone k r deadline (omega (arith, lt)))
            ])

      poll_wait-IsDone :
          (k : ℕ) (r : VclReactor) (B : Backlog r.vep) (w : Wait)
          → ParkedOn n f w
          → 1 + B.capacity < k
          → Hoare (Within Told) (poll_wait k r w) (λ p s. IsDone p) Never (false ≡ true)
      poll_wait-IsDone zero r B w e lt = ground arith
      poll_wait-IsDone (suc k) r B (start h limit) e lt = ground arith
      poll_wait-IsDone (suc k) r B (selecting m g deadline) (on_n, same) lt =
          rw on_n (selecting-IsDone k r B g deadline same (omega (arith, lt)))
      poll_wait-IsDone (suc k) r B (checking m g deadline) (on_n, same) lt =
          Hoare-weaken (λ s. L.is_told g s.world ≡ true)
            (λ s (o, t). subst (λ x. L.is_told x s.world ≡ true) (sym same) t)
            (poll_check-IsDone (suc k) r m g deadline (omega (arith, lt)))

      abbrev InMap : ℕ → V.World → Waiters → Type 0
      InMap h w ws = (find h ws ≡ some n) × (L.is_only n f w ≡ true)

      InMap-DrainKeeps : (h : ℕ) → DrainKeeps (InMap h)
      InMap-DrainKeeps h = record {
        notify = λ m w ws (p, o). (p, L.only_notify n f m w o);
        epoll = λ vep size ms w ws (p, o). (p, L.only_epoll n f vep size ms w o);
      }

      tick-Told :
          (k h : ℕ) (r : VclReactor) (B : Backlog r.vep) (times : TickTimes)
          → B.capacity < k
          → Hoare (Within (InMap h)) (tick k r times) (λ _. Within Told) Never (false ≡ true)
      unfolding tick gets
      tick-Told k h r B times lt =
          Hoare-bind _ _ (λ _. Within (InMap h)) _
            (Hoare-host _ (λ s (p, o). (p, L.only_now n f s.world o)))
            λ now.
              Hoare-bind _ _ _ _ (drain_events-ends _ r B (InMap h) (InMap-DrainKeeps h) k lt) λ _.
                Hoare-bind _ _ (λ ws s. (find h ws ≡ some n) × Within Only s) _
                  (record { at = λ s p. p })
                  λ ws.
                    Hoare-bind _ _ (λ _. Within Told) _
                      (record { at = λ s (p, o). (notify_all-find h ws p).at s o })
                      λ _.
                        Hoare-bind _ _ (λ _. Within Told) _
                          (Hoare-host _
                            (λ s (o, t). (L.only_now n f s.world o, L.told_now f s.world t)))
                          λ later. Hoare-pure _ (λ s p. p)

  After-Told :
      {A : Type 0} (L : Permits) (n : V.Notify) (f : V.Notified) (r : Exit A) (t : State)
      → After (λ _. Within (Told L n f)) Never (false ≡ true) r t
      → L.is_told f t.world ≡ true
  After-Told L n f (returned (ok a)) t h = h.1
  After-Told L n f (returned (err e)) t h = ground arith
  After-Told L n f running t h = ground arith

  -- The only future that waits on what is in the map is ready after a tick.
  pub tick-tells :
      (L : Permits) (n : V.Notify) (f : V.Notified) (k h : ℕ) (r : VclReactor) (B : Backlog r.vep)
      (times : TickTimes) (s : State)
      → B.capacity < k
      → find h s.waiters ≡ some n
      → L.is_only n f s.world ≡ true
      → L.is_told f (tick k r times s).1.world ≡ true
  tick-tells L n f k h r B times s lt e only =
      After-Told L n f (tick k r times s).0 (tick k r times s).1
        ((tick-Told L n f k h r B times lt).at s (e, only))

  -- A tick returns, and after it the next poll of a wait whose `Notify` is in the reactor's map, and on
  -- whose `Notify` no other wait is, returns and ends the wait: it does not park again, whatever
  -- events libvppcom reports or has failed to report, and even if it was in the middle of its
  -- time-out of 0 ms. Each loop is given one round for each event of the queue's capacity and two
  -- more. `Notify` is assumed to keep its permits, and no event to arrive during a drain.
  pub tick-wakes :
      (k h : ℕ) (r : VclReactor) (times : TickTimes) (n : V.Notify) (f : V.Notified) (w : Wait)
      (s : State) (L : Permits)
      → (B : Backlog r.vep) → 1 + B.capacity < k
      → find h s.waiters ≡ some n
      → L.is_only n f s.world ≡ true
      → ParkedOn n f w
      → let run = (tick k r times >>= λ _. poll_wait k r w) s in
        After (λ p t. IsDone p) (λ e t. false ≡ true) (false ≡ true) run.0 run.1
  tick-wakes k h r times n f w s L B lt e only on_n =
      (Hoare-bind _ _ _ _ (tick-Told L n f k h r B times (omega arith))
          (λ _. poll_wait-IsDone L n f k r B w on_n lt)).at
        s (e, only)
