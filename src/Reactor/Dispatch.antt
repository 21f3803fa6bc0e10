-- ===== src/Reactor/Dispatch.antt =====
-- Whom `drain_events_with_inner` of src/reactor.rs tells of which event.
use vcl_rs.Base.{
  ℕ, zero, suc, ◌*◌, ◌^◌, ◌%◌, ◌≤◌, ◌<◌, ◌≡◌, refl, sym, ap, ◌∙◌, subst, true, false, ltb→lt,
  ltb→le, Option, none, some, List, [], ◌∷◌, ◌++◌, length, take, drop, length-take, length-drop,
  take_all, take-append-drop, append_nil, append_assoc, ℤ, pos, arith,
}
use vcl_rs.Error.{VclError}
use vcl_rs.Ffi.{Vcl, EpollEvent}
use vcl_rs.Machine.{gets, State, M, Exit, returned, running, ok, err}
use vcl_rs.Machine.Hoare.{
  After, Hoare, Hoare-bind, Hoare-pure, Hoare-when, Hoare-advance, Hoare-call_out,
}
use vcl_rs.Reactor.{VclReactor, wake, wake_each, drained, drain_events}
use vcl_rs.Reactor.Waiters.{find}
use vcl_rs.Reactor.Queue.{Queue, target, targets, targets-append}
use vcl_rs.Reactor.Keeps.{Waiters, Within}

module _ ⦃V : Vcl⦄ where
  -- `I` is what else the calls of a drain keep.
  module _ (r : VclReactor) (Q : Queue r.vep) (I : V.World → Type 0)
      (on_notify : (n : V.Notify) (w : V.World) → I w → I (V.notify_one n w))
      (on_epoll : (w : V.World) → I w → I (V.epoll_wait r.vep 64 0 w).2) (ws : Waiters) where
    -- These events are left, and these have been told.
    abbrev pub Standing : List EpollEvent → List V.Notify → State → Type 0
    Standing es told = Within (λ w vs. (Q.pending w ≡ es) × (Q.woken w ≡ told) × (vs ≡ ws) × I w)

    abbrev pub Never : VclError → State → Type 0
    Never e s = false ≡ true

    abbrev pub Tells :
        List EpollEvent → List V.Notify → M (Unit {0}) → List EpollEvent → List V.Notify → Type 0
    Tells es told m es' told' =
        Hoare (Standing es told) m (λ _. Standing es' told') Never (false ≡ true)

    wake-Tells :
        (es : List EpollEvent) (told : List V.Notify) (o : Option V.Notify)
        → Tells es told (wake o) es (told ++ target o)
    wake-Tells es told none = Hoare-pure _ (λ s (p, t, v, i). (p, t ∙ sym (append_nil told), v, i))
    wake-Tells es told (some n) = Hoare-advance _ (λ s (p, t, v, i). (
      Q.keeps n s.world ∙ p,
      Q.tells n s.world ∙ ap (λ ns. ns ++ (n ∷ [])) t,
      v,
      on_notify n s.world i,
    ))

    wake_found-Tells :
        (es : List EpollEvent) (told : List V.Notify) (h : ℕ) (vs : Waiters)
        → Hoare
            (λ s. Standing es told s × (vs ≡ ws))
            (wake (find h vs))
            (λ _. Standing es (told ++ target (find h ws)))
            Never
            (false ≡ true)
    wake_found-Tells es told h vs = record {
      at = λ s (p, same).
          subst
            (λ us.
              After (λ _. Standing es (told ++ target (find h ws))) Never (false ≡ true)
                (wake (find h us) s).0 (wake (find h us) s).1)
            (sym same) ((wake-Tells es told (find h ws)).at s p);
    }

    wake_each-Tells :
        (es : List EpollEvent) (told : List V.Notify) (xs : List EpollEvent)
        → Tells es told (wake_each xs) es (told ++ targets ws xs)
    unfolding wake_each targets gets
    wake_each-Tells es told [] =
        Hoare-pure _ (λ s (p, t, v, i). (p, t ∙ sym (append_nil told), v, i))
    wake_each-Tells es told (x ∷ xs) =
        let h = x.user % 2 ^ 32 in
        Hoare-bind _ _ (λ vs s. Standing es told s × (vs ≡ ws)) _
          (record { at = λ s (p, t, v, i). ((p, t, v, i), v) })
          λ vs. Hoare-bind _ _ _ _ (wake_found-Tells es told h vs) λ _.
            subst (λ all. Tells es (told ++ target (find h ws)) (wake_each xs) es all)
              (append_assoc told (target (find h ws)) (targets ws xs))
              (wake_each-Tells es (told ++ target (find h ws)) xs)

    -- What is told when the rest of a queue has been told after its first batch.
    batch-targets :
        (told : List V.Notify) (es : List EpollEvent)
        → told ++ targets ws (take 64 es) ++ targets ws (drop 64 es) ≡ told ++ targets ws es
    batch-targets told es =
        append_assoc told (targets ws (take 64 es)) (targets ws (drop 64 es))
        ∙ ap (λ ns. told ++ ns)
            (sym (targets-append ws (take 64 es) (drop 64 es))
              ∙ ap (targets ws) (take-append-drop 64 es))

    empty : (es : List EpollEvent) → length es ≡ 0 → es ≡ []
    empty [] e = refl
    empty (x ∷ xs) e = absurd (omega (arith, e))

    drained-Tells :
        (again : M (Unit {0})) (es : List EpollEvent) (told : List V.Notify) (n : ℕ)
        → n ≡ length (take 64 es)
        → (64 ≤ length es
            → Tells
                (drop 64 es)
                (told ++ targets ws (take 64 es))
                again
                []
                (told ++ targets ws (take 64 es) ++ targets ws (drop 64 es)))
        → Tells (drop 64 es) told (drained again (take 64 es) (pos n)) [] (told ++ targets ws es)
    unfolding drained targets
    drained-Tells again es told zero e more =
        let none_left = empty es (omega (arith, e, length-take 64 es)) in
        Hoare-pure _ (λ s (p, t, v, i). (
          p ∙ ap (λ xs. drop 64 xs) none_left,
          t ∙ sym (append_nil told) ∙ ap (λ xs. told ++ targets ws xs) (sym none_left),
          v,
          i,
        ))
    drained-Tells again es told (suc m) e more =
        Hoare-bind _ _ (λ _. Standing (drop 64 es) (told ++ targets ws (take 64 es))) _
          (subst
            (λ xs.
              Tells (drop 64 es) told (wake_each xs) (drop 64 es) (told ++ targets ws (take 64 es)))
            (sym (take_all (suc m) (take 64 es) (omega (arith, e))))
            (wake_each-Tells (drop 64 es) told (take 64 es)))
          λ _.
            Hoare-when _
              (λ few.
                let below = ltb→lt (suc m) 64 few in
                Hoare-pure _ (λ s (p, t, v, i). (
                  p
                      ∙ empty (drop 64 es)
                          (omega (arith, below, e, length-take 64 es, length-drop 64 es)),
                  t
                      ∙ ap (λ xs. told ++ targets ws xs)
                          (take_all 64 es (omega (arith, below, e, length-take 64 es))),
                  v,
                  i,
                )))
              (λ full.
                let reached = ltb→le (suc m) 64 full in
                subst (λ all. Tells (drop 64 es) (told ++ targets ws (take 64 es)) again [] all)
                  (batch-targets told es) (more (omega (arith, reached, e, length-take 64 es))))

    -- What one `epoll_wait` comes to.
    abbrev Batch : List EpollEvent → List V.Notify → ℤ × List EpollEvent → State → Type 0
    Batch es told (rc, xs) s =
        Standing (drop 64 es) told s × (rc ≡ pos (length (take 64 es))) × (xs ≡ take 64 es)

    Batch-Tells :
        (again : M (Unit {0})) (es : List EpollEvent) (told : List V.Notify) (rc : ℤ)
        (xs : List EpollEvent)
        → Tells
            (drop 64 es)
            told
            (drained again (take 64 es) (pos (length (take 64 es))))
            []
            (told ++ targets ws es)
        → Hoare
            (Batch es told (rc, xs))
            (drained again xs rc)
            (λ _. Standing [] (told ++ targets ws es))
            Never
            (false ≡ true)
    Batch-Tells again es told rc xs h = record { at = λ s (p, c, x). rw (c, x) (h.at s p) }

    pub drain_events-Tells :
        (k : ℕ) (es : List EpollEvent) (told : List V.Notify)
        → length es < 64 * k
        → Tells es told (drain_events k r) [] (told ++ targets ws es)
    unfolding drain_events
    drain_events-Tells zero es told le = absurd (omega (arith, le))
    drain_events-Tells (suc k) es told le =
        Hoare-bind _ _ (λ got. Batch es told got) _
          (Hoare-call_out _ _ (λ s (p, t, v, i). (
            (
              Q.takes s.world ∙ ap (λ xs. drop 64 xs) p,
              Q.wakes_none s.world ∙ t,
              v,
              on_epoll s.world i,
            ),
            Q.counts s.world ∙ ap (λ xs. pos (length (take 64 xs))) p,
            Q.reports s.world ∙ ap (λ xs. take 64 xs) p,
          )))
          λ (rc, xs). Batch-Tells _ es told rc xs (
            drained-Tells _ es told _ refl (λ full.
              drain_events-Tells k (drop 64 es) (told ++ targets ws (take 64 es))
                (omega (arith, le, full, length-drop 64 es))))

    finished :
        (es : List EpollEvent) (told : List V.Notify) (x : Exit (Unit {0})) (t : State)
        → After (λ _. Standing es told) Never (false ≡ true) x t
        → (x ≡ returned (ok tt)) × Standing es told t
    finished es told (returned (ok _)) t h = (refl, h)
    finished es told (returned (err e)) t h = absurd (ground (arith, h))
    finished es told running t h = absurd (ground (arith, h))

  -- A drain of the queue returns, takes every event that is pending, and tells of each event, in
  -- their order, the `Notify` of whoever waits for its session, if anybody does, and nobody else;
  -- the map of waiters stays as it was. A round for each 64 events and one more are enough. libvppcom
  -- is assumed to hand its events out in order, each once.
  pub drain_events-dispatches :
      (k : ℕ) (r : VclReactor) (Q : Queue r.vep) (s : State)
      → length (Q.pending s.world) < 64 * k
      → let run = drain_events k r s in
        (run.0 ≡ returned (ok tt))
        × (Q.pending run.1.world ≡ [])
        × (Q.woken run.1.world ≡ Q.woken s.world ++ targets s.waiters (Q.pending s.world))
        × (run.1.waiters ≡ s.waiters)
  drain_events-dispatches k r Q s le =
      let (done, (drained_all, told, same, _)) =
        finished r Q (λ w. Unit {0}) (λ n w i. tt) (λ w i. tt) s.waiters [] _ _ _
          ((drain_events-Tells r Q (λ w. Unit {0}) (λ n w i. tt) (λ w i. tt) s.waiters k
              (Q.pending s.world) (Q.woken s.world) le).at
            s (refl, refl, refl, tt)) in
      (done, drained_all, told, same)
