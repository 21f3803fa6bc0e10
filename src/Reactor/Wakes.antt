-- ===== src/Reactor/Wakes.antt =====
-- An event of its session ends a wait of src/reactor.rs.
use vcl_rs.Base.{
  ℕ, suc, ◌*◌, ◌^◌, ◌%◌, ◌<◌, ◌≡◌, refl, sym, ap, ◌∙◌, subst, true, false, some, List, [], ◌∷◌,
  ◌++◌, All, length, append_nil, append_assoc, arith,
}
use vcl_rs.Error.{VclError}
use vcl_rs.Ffi.{Vcl, EpollEvent, mq_ready}
use vcl_rs.Machine.{State, ◌>>=◌, advance, host}
use vcl_rs.Machine.Hoare.{After, Hoare, Hoare-bind, Hoare-mono}
use vcl_rs.Reactor.{VclReactor, drain_events}
use vcl_rs.Reactor.Waiters.{find}
use vcl_rs.Reactor.Queue.{Queue, target, targets, targets-append}
use vcl_rs.Reactor.Dispatch.{Standing, drain_events-Tells}
use vcl_rs.Reactor.Permits.{Permits}
use vcl_rs.Reactor.Liveness.{IsDone, cleared-IsDone}
use vcl_rs.Reactor.Future.{selecting, checking, poll_wait}

module _ ⦃V : Vcl⦄ where
  abbrev Never : VclError → State → Type 0
  Never e s = false ≡ true

  module _ {A : Type 0} (P : A → Type 0) where
    All-append : (xs ys : List A) → All P xs → All P ys → All P (xs ++ ys)
    All-append [] ys h g = g
    All-append (x ∷ xs) ys (p, h) g = (p, All-append xs ys h g)

    All-behind : (xs ys : List A) → All P (xs ++ ys) → All P ys
    All-behind [] ys h = h
    All-behind (x ∷ xs) ys (p, h) = All-behind xs ys h

    All-map : (Q : A → Type 0) → ((a : A) → P a → Q a) → (xs : List A) → All P xs → All Q xs
    All-map Q f [] h = tt
    All-map Q f (x ∷ xs) (p, h) = (f x p, All-map Q f xs h)

  cancel : {A : Type 0} (xs ys zs : List A) → xs ++ ys ≡ xs ++ zs → ys ≡ zs
  cancel [] ys zs e = e
  cancel (x ∷ xs) ys zs e = cancel xs ys zs (ground (arith, e))

  module _ (L : Permits) (r : VclReactor) (Q : Queue r.vep) (n : V.Notify) where
    -- If this is the `Notify` `n`, then it has a permit.
    abbrev HasPermit : V.World → V.Notify → Type 0
    HasPermit w m = m ≡ n → L.has_permit n w ≡ true

    -- Nobody waits on `n`, which has a permit if it has been told since `told`.
    abbrev Stored : List V.Notify → V.World → Type 0
    Stored told w =
        (L.is_free n w ≡ true)
        × (xs : List V.Notify) × (Q.woken w ≡ told ++ xs)
        × All (HasPermit w) xs

    notify-Stored :
        (told : List V.Notify) (m : V.Notify) (w : V.World)
        → Stored told w
        → Stored told (V.notify_one m w)
    notify-Stored told m w (free, xs, e, h) = (
      L.free_notify n m w free,
      xs ++ (m ∷ []),
      Q.tells m w ∙ ap (λ ns. ns ++ (m ∷ [])) e ∙ append_assoc told xs (m ∷ []),
      All-append (HasPermit (V.notify_one m w)) xs (m ∷ [])
          (All-map (HasPermit w) (HasPermit (V.notify_one m w))
            (λ x p same. L.permit_notify n m w (p same)) xs h)
          (
            λ same.
                subst (λ x. L.has_permit n (V.notify_one x w) ≡ true) (sym same)
                  (L.stores n w free),
            tt,
          ),
    )

    epoll-Stored :
        (told : List V.Notify) (w : V.World)
        → Stored told w
        → Stored told (V.epoll_wait r.vep 64 0 w).2
    epoll-Stored told w (free, xs, e, h) = (
      L.free_epoll n r.vep 64 0 w free,
      xs,
      Q.wakes_none w ∙ e,
      All-map (HasPermit w) (HasPermit (V.epoll_wait r.vep 64 0 w).2)
          (λ x p same. L.permit_epoll n r.vep 64 0 w (p same)) xs h,
    )

    module _ (ws : List (ℕ × V.Notify)) (before behind : List EpollEvent) (e : EpollEvent)
        (waits : find (e.user % 2 ^ 32) ws ≡ some n) where
      abbrev all_events : List EpollEvent
      all_events = before ++ (e ∷ behind)

      target-HasPermit :
          (w : V.World) → All (HasPermit w) (targets ws all_events) → L.has_permit n w ≡ true
      unfolding targets
      target-HasPermit w h =
          let rest =
            All-behind (HasPermit w) (targets ws before) (targets ws (e ∷ behind))
              (subst (All (HasPermit w)) (targets-append ws before (e ∷ behind)) h) in
          (subst (λ o. All (HasPermit w) (target o ++ targets ws behind)) waits rest).0 refl

      module _ (told : List V.Notify) where
        abbrev Before : State → Type 0
        Before =
            Standing r Q (Stored told) (notify-Stored told) (epoll-Stored told) ws all_events told

        drain_events-Permit :
            (k : ℕ)
            → length all_events < 64 * k
            → Hoare Before
                (drain_events k r)
                (λ _ t. L.has_permit n t.world ≡ true)
                Never
                (false ≡ true)
        drain_events-Permit k le =
            Hoare-mono _ _
              (λ _ t (_, w, _, (_, xs, x, h)). target-HasPermit t.world (
                subst (All (HasPermit t.world)) (cancel told xs (targets ws all_events) (sym x ∙ w))
                  h))
              (λ _ t bad. bad)
              (drain_events-Tells r Q (Stored told) (notify-Stored told) (epoll-Stored told) ws k
                all_events told le)

        drained-IsDone :
            (k deadline : ℕ)
            → length all_events < 64 * k
            → Hoare Before
                (drain_events k r >>= λ _. advance V.clear_ready >>= λ _.
                  host (V.new_notified n) >>= λ check. poll_wait k r (checking n check deadline))
                (λ p t. IsDone p)
                Never
                (false ≡ true)
        drained-IsDone k deadline le =
            Hoare-bind _ _ _ _ (drain_events-Permit k le)
              (λ _. cleared-IsDone L n k r deadline (omega (arith, le)))

  -- If libvppcom has an event of its session, and the task looks because the queue of messages is
  -- ready, then a wait on whose `Notify` no other wait is ends at this poll: it does not park,
  -- whatever other events are before that one. A round for each 64 events and two more are enough.
  -- libvppcom is assumed to hand its events out in order, each once, and `Notify` to keep its permits.
  pub poll_wait-wakes :
      (k deadline : ℕ) (r : VclReactor) (n : V.Notify) (f : V.Notified)
      (before behind : List EpollEvent) (e : EpollEvent) (s : State) (L : Permits)
      → (Q : Queue r.vep) → find (e.user % 2 ^ 32) s.waiters ≡ some n
      → L.is_only n f s.world ≡ true
      → (V.poll_select f deadline s.world).0 ≡ some mq_ready
      → Q.pending (V.poll_select f deadline s.world).1 ≡ before ++ (e ∷ behind)
      → length (before ++ (e ∷ behind)) < 64 * k
      → let run = poll_wait (suc k) r (selecting n f deadline) s in
        After (λ p t. IsDone p) (λ e t. false ≡ true) (false ≡ true) run.0 run.1
  unfolding poll_wait ◌>>=◌
  poll_wait-wakes k deadline r n f before behind e s L Q waits only ready pend le =
      let w = (V.poll_select f deadline s.world).1 in
      rw ready (
        (drained-IsDone L r Q n s.waiters before behind e waits (Q.woken w) k deadline le).at
          (record s { world = w })
          (
            pend,
            refl,
            refl,
            (L.select_frees n f deadline s.world only ready, [], sym (append_nil (Q.woken w)), tt),
          ))
