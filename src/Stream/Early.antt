-- ===== src/Stream/Early.antt =====
-- `connect_async` of src/stream.rs to a peer that does not answer.
use vcl_rs.Base.{
  ℕ, ◌<◌, ◌≡◌, refl, Bool, true, false, Option, none, some, ℤ, pos, negsuc, neg, arith,
}
use vcl_rs.Net.{SocketAddr}
use vcl_rs.Error.{VclError, would_block, from_rc, e_in_progress}
use vcl_rs.Ffi.{Vcl, Endpoint, EpollEvent}
use vcl_rs.Machine.{State, Exit, returned, running, ok, err, gets, call_void, set_registered}
use vcl_rs.Machine.Hoare.{
  After, Hoare, Hoare-bind, Hoare-cases, Hoare-pure, Hoare-when, Hoare-call, Hoare-call_out,
  Anything, Always,
}
use vcl_rs.Machine.Runs.{Hoare-on_err}
use vcl_rs.Session.{check, create_tcp, create, bind, connect, set_nodelay, set_attr, drop_handle}
use vcl_rs.Session.Check.{check-either, check-fails}
use vcl_rs.App.{register_worker_thread, registered_as}
use vcl_rs.Reactor.{VclReactor, register, wait_writable}
use vcl_rs.Reactor.Future.Executor.{Executor}
use vcl_rs.Reactor.Ticked.{Ticker, meanwhile, Unanswered, wait_event-notified}
use vcl_rs.Tcp.{start_connect}
use vcl_rs.Stream.{VclStream, ignore, bind_source, async_setup, connect_async}

module _ ⦃V : Vcl⦄ where
  -- libvppcom accepts the calls that set a session up, and a connection stays in progress.
  pub record InProgress : Type 0 where
    pub creates : (p f : ℕ) (w : V.World) → (h : ℕ) × ((V.session_create p f w).0 ≡ pos h)
    pub binds :
        (h : ℕ) (ep : Endpoint) (w : V.World) → (n : ℕ) × ((V.session_bind h ep w).0 ≡ pos n)
    pub adds :
        (vep op h : ℕ) (ev : Option EpollEvent) (w : V.World)
        → (n : ℕ) × ((V.epoll_ctl vep op h ev w).0 ≡ pos n)
    pub in_progress :
        (h : ℕ) (ep : Endpoint) (w : V.World) → (V.session_connect h ep w).0 ≡ neg e_in_progress

  abbrev pub Never : VclError → State → Type 0
  Never e s = false ≡ true

  module _ (E : VclError → State → Type 0) (R : Type 0) where
    check-passes : (rc : ℤ) → Hoare (λ s. (n : ℕ) × (rc ≡ pos n)) (check rc) (λ _. Always) E R
    unfolding check
    check-passes (pos n) = Hoare-pure _ (λ s p. tt)
    check-passes (negsuc n) = record { at = λ s (m, e). ground arith }

    registered_as-passes : (idx : ℤ) → Hoare Always (registered_as idx) (λ _. Always) E R
    unfolding registered_as call_void set_registered
    registered_as-passes (pos n) = record { at = λ s p. tt }
    registered_as-passes (negsuc n) = record { at = λ s p. tt }

    register_worker_thread-passes : Hoare Always register_worker_thread (λ _. Always) E R
    unfolding register_worker_thread gets
    register_worker_thread-passes =
        Hoare-bind _ _ (λ _. Always) _ (record { at = λ s p. tt })
          λ known.
            Hoare-when known (λ e. Hoare-pure _ (λ s p. tt))
              λ e.
                Hoare-bind _ _ (λ _. Always) _ (Hoare-call _ _ (λ s p. tt))
                  λ _.
                    Hoare-bind _ _ (λ _. Always) _ (Hoare-call _ _ (λ s p. tt)) registered_as-passes

    ignore_nodelay-passes : (h : ℕ) → Hoare Always (ignore (set_nodelay h)) (λ _. Always) E R
    unfolding ignore set_nodelay set_attr
    ignore_nodelay-passes h =
        Hoare-cases _ Anything Anything
          (Hoare-bind _ _ (λ _. Always) _ (Hoare-call_out _ _ (λ s p. tt))
            λ (rc, a). Hoare-bind _ _ _ _ (check-either Always R rc) λ n. Hoare-pure _ (λ s p. tt))
          (λ r. Hoare-pure _ (λ s p. tt))

    module _ (C : InProgress) where
      create_tcp-passes : (b : Bool) → Hoare Always (create_tcp b) (λ _. Always) E R
      unfolding create_tcp create
      create_tcp-passes b =
          Hoare-bind _ _ (λ rc s. (h : ℕ) × (rc ≡ pos h)) _
            (Hoare-call _ _ (λ s p. C.creates _ _ s.world)) check-passes

      bind_source-passes :
          (h : ℕ) (source : Option SocketAddr)
          → Hoare Always (bind_source h source) (λ _. Always) E R
      unfolding bind_source bind
      bind_source-passes h none = Hoare-pure _ (λ s p. tt)
      bind_source-passes h (some src) =
          Hoare-bind _ _ (λ rc s. (n : ℕ) × (rc ≡ pos n)) _
            (Hoare-call _ _ (λ s p. C.binds h _ s.world))
            λ rc. Hoare-bind _ _ _ _ (check-passes rc) λ n. Hoare-pure _ (λ s p. tt)

      register-passes : (r : VclReactor) (h : ℕ) → Hoare Always (register r h) (λ _. Always) E R
      unfolding register
      register-passes r h =
          Hoare-bind _ _ (λ rc s. (n : ℕ) × (rc ≡ pos n)) _
            (Hoare-call _ _ (λ s p. C.adds _ _ h _ s.world))
            λ rc. Hoare-bind _ _ _ _ (check-passes rc) λ n. Hoare-pure _ (λ s p. tt)

      start_connect-passes :
          (h : ℕ) (addr : SocketAddr) → Hoare Always (start_connect h addr) (λ _. Always) E R
      unfolding start_connect connect from_rc
      start_connect-passes h addr =
          Hoare-cases _ Anything (λ e s. e ≡ would_block)
            (Hoare-bind _ _ (λ rc s. rc ≡ neg e_in_progress) _
              (Hoare-call _ _ (λ s p. C.in_progress h _ s.world))
              λ rc.
                Hoare-bind _ _ _ _ (check-fails Anything R 114 would_block rc refl)
                  λ n. Hoare-pure _ (λ s p. tt))
            (elim [
              | ok _ ↦ Hoare-pure _ (λ s p. tt)
              | err would_block ↦ Hoare-pure _ (λ s p. tt)
              | err e ↦ record { at = λ s p. ground arith }
            ])

      module _ (T : Ticker) (soon : ℕ) (U : Unanswered T soon) (X : Executor (meanwhile T)) where
        async_setup-passes :
            (k h : ℕ) (addr : SocketAddr) (source : Option SocketAddr) (r : VclReactor) (limit : ℕ)
            → (k ≡ 0 → R)
            → soon < limit
            → Hoare Always (async_setup k h addr source r limit) (λ _. Always) E R
        unfolding async_setup wait_writable
        async_setup-passes k h addr source r limit out lt =
            Hoare-bind _ _ _ _ (ignore_nodelay-passes h) λ _.
              Hoare-bind _ _ _ _ (bind_source-passes h source) λ _.
                Hoare-bind _ _ _ _ (register-passes r h) λ _.
                  Hoare-bind _ _ _ _ (start_connect-passes h addr)
                    λ _. wait_event-notified T soon U X E R k r h limit out lt

  module _ (E : VclError → State → Type 0) (R : Type 0) (C : InProgress) (T : Ticker) (soon : ℕ)
      (U : Unanswered T soon) (X : Executor (meanwhile T)) where
    pub connect_async-passes :
        (k : ℕ) (addr : SocketAddr) (source : Option SocketAddr) (r : VclReactor) (limit : ℕ)
        → (k ≡ 0 → R)
        → soon < limit
        → Hoare Always (connect_async k addr source r limit) (λ _. Always) E R
    unfolding connect_async
    connect_async-passes k addr source r limit out lt =
        Hoare-bind _ _ _ _ (register_worker_thread-passes E R) λ _.
          Hoare-bind _ _ _ _ (create_tcp-passes E R C true) λ h.
            Hoare-bind _ _ (λ _. Always) _
              (Hoare-on_err (drop_handle h) Never
                (async_setup-passes Never R C T soon U X k h addr source r limit out lt)
                (λ e t q. absurd (ground arith)))
              λ _. Hoare-pure _ (λ s p. tt)

  After-ok :
      {A : Type 0} (r : Exit A) (t : State)
      → After (λ _. Always) Never (false ≡ true) r t
      → (a : A) × (r ≡ returned (ok a))
  After-ok (returned (ok a)) t h = (a, refl)
  After-ok (returned (err e)) t h = ground arith
  After-ok running t h = ground arith

  -- `connect_async` to a peer that does not answer returns a stream: the first tick of the periodic
  -- task ends the wait for the handshake, if the time limit is longer than the time to that tick. The
  -- session's calls are accepted, its connection stays in progress, no event arrives, `Notify` keeps
  -- its permits, and no two waits are on the same one.
  pub connect_async-early :
      (k : ℕ) (addr : SocketAddr) (source : Option SocketAddr) (r : VclReactor) (limit : ℕ)
      (s : State)
      → InProgress
      → (T : Ticker) (soon : ℕ) → Unanswered T soon
      → Executor (meanwhile T)
      → 0 < k
      → soon < limit
      → (st : VclStream) × ((connect_async k addr source r limit s).0 ≡ returned (ok st))
  connect_async-early k addr source r limit s C T soon U X pos_k lt =
      let run = connect_async k addr source r limit s in
      After-ok run.0 run.1 (
        (connect_async-passes Never (false ≡ true) C T soon U X k addr source r limit
            (λ e. absurd (omega (arith, e))) lt).at
          s tt)
