-- ===== src/Stream/Faults.antt =====
-- What a failed `connect_async` of src/stream.rs leaves in the reactor.
use vcl_rs.Base.{
  ℕ, ◌==◌, ==_refl, ◌≡◌, ◌≢◌, refl, subst, Bool, true, false, Option, none, some, List, ◌∷◌, ℤ, pos,
  negsuc, arith, if◌then◌else◌,
}
use vcl_rs.Net.{SocketAddr}
use vcl_rs.Error.{VclError, would_block, timeout}
use vcl_rs.Ffi.{Vcl}
use vcl_rs.Machine.{
  Event, State, M, ok, err, returned, session_close, gets, set_waiters, call_void, set_registered,
  ◌>>=◌,
}
use vcl_rs.Machine.Hoare.{
  After, Hoare, Hoare-bind, Hoare-cases, Hoare-pure, Hoare-fail, Hoare-when, Hoare-call, Hoare-host,
  Hoare-mono, Hoare-Anything, Anything, Always,
}
use vcl_rs.Machine.Runs.{Hoare-on_err}
use vcl_rs.Session.{create_tcp, create, drop_handle, bind, connect}
use vcl_rs.Session.Errors.{NoTimeout, check-NoTimeout}
use vcl_rs.App.{register_worker_thread, registered_as}
use vcl_rs.Reactor.{VclReactor, register, entry, waiter, wait_event, wait_writable}
use vcl_rs.Reactor.Keeps.{Waiters, WaitKeeps, wait_loop-Within}
use vcl_rs.Reactor.Waiters.{find, insert_new}
use vcl_rs.Reactor.Waiters.Laws.{find-insert_new}
use vcl_rs.Tcp.{start_connect}
use vcl_rs.Stream.{ignore, bind_source, async_setup, connect_async}

module _ ⦃V : Vcl⦄ where
  abbrev InMap : ℕ → V.World → Waiters → Type 0
  InMap h w ws = find h ws ≢ none

  abbrev Waits : ℕ → State → Type 0
  Waits h s = find h s.waiters ≢ none

  -- The other tasks do not take the entry of `h` out of the map.
  pub record KeepsEntry (h : ℕ) : Type 0 where
    pub select :
        (n : V.Notify) (deadline : ℕ) (w : V.World) (ws : Waiters)
        → find h ws ≢ none
        → find h (V.select n deadline w ws).2 ≢ none
    pub notified_poll :
        (n : V.Notify) (w : V.World) (ws : Waiters)
        → find h ws ≢ none
        → find h (V.poll_notified n w ws).2 ≢ none

  insert-InMap :
      (h j : ℕ) (n : V.Notify) (ws : Waiters) → find h ws ≢ none → find h (insert_new j n ws) ≢ none
  insert-InMap h j n ws p = rw (find-insert_new j h n ws) (there (j == h))
    where
      there : (b : Bool) → (if b then some n else find h ws) ≢ none
      there true = ground arith
      there false = p

  InMap-WaitKeeps : (h : ℕ) → KeepsEntry h → WaitKeeps (InMap h)
  InMap-WaitKeeps h K = record {
    drain = record { notify = λ n w ws p. p; epoll = λ vep n ms w ws p. p };
    clear = λ w ws p. p;
    now = λ w ws p. p;
    new_notify = λ w ws p. p;
    insert = λ j n w ws p. insert-InMap h j n ws p;
    select = K.select;
    notified_poll = K.notified_poll;
  }

  inserted : (h : ℕ) (n : V.Notify) (ws : Waiters) → find h (insert_new h n ws) ≢ none
  inserted h n ws = rw (find-insert_new h h n ws, ==_refl h) (ground arith)

  entry-Waits :
      (h : ℕ) (ws : Waiters) (o : Option V.Notify)
      → find h ws ≡ o
      → Hoare (λ s. s.waiters ≡ ws) (entry h ws o) (λ _. Waits h) (λ e s. false ≡ true) (Unit {0})
  unfolding set_waiters
  entry-Waits h ws (some n) e = Hoare-pure _ (λ s same. rw (same, e) (ground arith))
  entry-Waits h ws none e =
      Hoare-bind _ _ (λ n. Always) _ (Hoare-host _ (λ s p. tt))
        λ n.
          Hoare-bind _ _ (λ _. Waits h) _ (record { at = λ s p. inserted h n ws })
            (λ _. Hoare-pure _ (λ s p. p))

  waiter-Waits : (h : ℕ) → Hoare Always (waiter h) (λ _. Waits h) (λ e s. false ≡ true) (Unit {0})
  unfolding waiter gets
  waiter-Waits h =
      Hoare-bind _ _ (λ ws s. s.waiters ≡ ws) _ (record { at = λ s p. refl })
        (λ ws. entry-Waits h ws (find h ws) refl)

  -- Whatever ends the wait, its entry is in the map.
  wait_writable-Waits :
      (k : ℕ) (r : VclReactor) (h limit : ℕ)
      → KeepsEntry h
      → Hoare Always (wait_writable k r h limit) (λ _. Waits h) (λ e. Waits h) (Unit {0})
  unfolding wait_writable wait_event
  wait_writable-Waits k r h limit K =
      Hoare-bind _ _ _ _
        (Hoare-mono _ _ (λ n t q. q) (λ e t q. absurd (ground arith)) (waiter-Waits h))
        λ n.
          Hoare-bind _ _ (λ _. Waits h) _ (Hoare-host _ (λ s p. p))
            λ now.
              Hoare-mono _ _ (λ _ t q. q) (λ e t q. q.1)
                (wait_loop-Within (InMap h) (InMap-WaitKeeps h K) k r n _)

  -- A time-out comes from the wait alone.
  abbrev LateWaits : ℕ → VclError → State → Type 0
  LateWaits h e s = e ≡ timeout → Waits h s

  early :
      {A : Type 0} {m : M A} (h : ℕ)
      → Hoare Always m Anything NoTimeout (Unit {0})
      → Hoare Always m Anything (LateWaits h) (Unit {0})
  early h km = Hoare-mono _ _ (λ a t q. tt) (λ e t q. λ late. absurd (q late)) km

  bind-NoTimeout :
      (h : ℕ) (addr : SocketAddr) → Hoare Always (bind h addr) Anything NoTimeout (Unit {0})
  unfolding bind
  bind-NoTimeout h addr =
      Hoare-bind _ _ Anything _ (Hoare-call _ _ (λ s p. tt))
        λ rc. Hoare-bind _ _ Anything _ (check-NoTimeout rc) λ n. Hoare-pure _ (λ s p. tt)

  connect-NoTimeout :
      (h : ℕ) (addr : SocketAddr) → Hoare Always (connect h addr) Anything NoTimeout (Unit {0})
  unfolding connect
  connect-NoTimeout h addr =
      Hoare-bind _ _ Anything _ (Hoare-call _ _ (λ s p. tt))
        λ rc. Hoare-bind _ _ Anything _ (check-NoTimeout rc) λ n. Hoare-pure _ (λ s p. tt)

  register-NoTimeout :
      (r : VclReactor) (h : ℕ) → Hoare Always (register r h) Anything NoTimeout (Unit {0})
  unfolding register
  register-NoTimeout r h =
      Hoare-bind _ _ Anything _ (Hoare-call _ _ (λ s p. tt))
        λ rc. Hoare-bind _ _ Anything _ (check-NoTimeout rc) λ n. Hoare-pure _ (λ s p. tt)

  create_tcp-NoTimeout : (b : Bool) → Hoare Always (create_tcp b) Anything NoTimeout (Unit {0})
  unfolding create_tcp create
  create_tcp-NoTimeout b = Hoare-bind _ _ Anything _ (Hoare-call _ _ (λ s p. tt)) check-NoTimeout

  start_connect-NoTimeout :
      (h : ℕ) (addr : SocketAddr)
      → Hoare Always (start_connect h addr) Anything NoTimeout (Unit {0})
  unfolding start_connect
  start_connect-NoTimeout h addr = Hoare-cases _ _ _ (connect-NoTimeout h addr) (elim [
    | ok _ ↦ Hoare-pure _ (λ s p. tt)
    | err would_block ↦ Hoare-pure _ (λ s p. tt)
    | err e ↦ Hoare-fail _ (λ s p. p)
  ])

  bind_source-NoTimeout :
      (h : ℕ) (source : Option SocketAddr)
      → Hoare Always (bind_source h source) Anything NoTimeout (Unit {0})
  unfolding bind_source
  bind_source-NoTimeout h none = Hoare-pure _ (λ s p. tt)
  bind_source-NoTimeout h (some src) = bind-NoTimeout h src

  ignore-NoTimeout : {A : Type 0} (m : M A) → Hoare Always (ignore m) Anything NoTimeout (Unit {0})
  unfolding ignore
  ignore-NoTimeout m =
      Hoare-cases _ Anything Anything (Hoare-Anything m) (λ r. Hoare-pure _ (λ s p. tt))

  registered_as-NoTimeout :
      (idx : ℤ) → Hoare Always (registered_as idx) Anything NoTimeout (Unit {0})
  unfolding registered_as call_void set_registered
  registered_as-NoTimeout (pos n) = record { at = λ s p. tt }
  registered_as-NoTimeout (negsuc n) = record { at = λ s p. tt }

  register_worker_thread-NoTimeout :
      Hoare Always register_worker_thread Anything NoTimeout (Unit {0})
  unfolding register_worker_thread gets
  register_worker_thread-NoTimeout =
      Hoare-bind _ _ Anything _ (record { at = λ s p. tt })
        λ known.
          Hoare-when known (λ e. Hoare-pure _ (λ s p. tt))
            λ e.
              Hoare-bind _ _ Anything _ (Hoare-call _ _ (λ s p. tt))
                λ _. Hoare-bind _ _ Anything _ (Hoare-call _ _ (λ s p. tt)) registered_as-NoTimeout

  async_setup-LateWaits :
      (k h : ℕ) (addr : SocketAddr) (source : Option SocketAddr) (r : VclReactor) (limit : ℕ)
      → KeepsEntry h
      → Hoare Always (async_setup k h addr source r limit) Anything (LateWaits h) (Unit {0})
  unfolding async_setup
  async_setup-LateWaits k h addr source r limit K =
      Hoare-bind _ _ Anything _ (early h (ignore-NoTimeout _)) λ _.
        Hoare-bind _ _ Anything _ (early h (bind_source-NoTimeout h source)) λ _.
          Hoare-bind _ _ Anything _ (early h (register-NoTimeout r h)) λ _.
            Hoare-bind _ _ Anything _ (early h (start_connect-NoTimeout h addr)) λ _.
              Hoare-mono _ _ (λ a t q. tt) (λ e t q. λ late. q) (wait_writable-Waits k r h limit K)

  -- After the drop of the session's handle, whose entry is still there.
  abbrev pub Left : State → Type 0
  Left t =
      (h : ℕ) × (rc : ℤ) × (earlier : List Event) × (t.trace
        ≡ record { call = session_close h; rc = rc } ∷ earlier)
      × (find h t.waiters ≢ none)

  drop_handle-Left : (h : ℕ) (t : State) → Waits h t → Left (drop_handle h t).1
  unfolding drop_handle ◌>>=◌
  drop_handle-Left h t p = (h, (V.session_close h t.world).0, t.trace, refl, p)

  connect_async-Left :
      (k : ℕ) (addr : SocketAddr) (source : Option SocketAddr) (r : VclReactor) (limit : ℕ)
      → ((h : ℕ) → KeepsEntry h)
      → Hoare Always
          (connect_async k addr source r limit)
          Anything
          (λ e t. e ≡ timeout → Left t)
          (Unit {0})
  unfolding connect_async
  connect_async-Left k addr source r limit K =
      let never : (e : VclError) (t : State) → NoTimeout e t → e ≡ timeout → Left t =
        λ e t q late. absurd (q late) in
      Hoare-bind _ _ Anything _
        (Hoare-mono _ _ (λ a t q. tt) never register_worker_thread-NoTimeout)
        λ _.
          Hoare-bind _ _ Anything _ (Hoare-mono _ _ (λ a t q. tt) never (create_tcp-NoTimeout true))
            λ h.
              Hoare-bind _ _ Anything _
                (Hoare-on_err (drop_handle h) (LateWaits h)
                  (async_setup-LateWaits k h addr source r limit (K h))
                  (λ e t q. λ late. drop_handle-Left h t (q late)))
                λ _. Hoare-pure _ (λ s p. tt)

  -- If `connect_async` fails with a time-out, its last call has closed a session whose entry is still
  -- in the reactor's map. The other tasks are assumed to take no entry out of the map.
  pub connect_async-leaves_entry :
      (k : ℕ) (addr : SocketAddr) (source : Option SocketAddr) (r : VclReactor) (limit : ℕ)
      (s t : State)
      → ((h : ℕ) → KeepsEntry h)
      → connect_async k addr source r limit s ≡ (returned (err timeout), t)
      → Left t
  connect_async-leaves_entry k addr source r limit s t K e =
      (subst (λ x. After Anything (λ e t. e ≡ timeout → Left t) (Unit {0}) x.0 x.1) e
          ((connect_async-Left k addr source r limit K).at s tt))
        refl
