-- ===== src/App/Laws.antt =====
-- The flags of src/app.rs.
use vcl_rs.Base.{List, ◌∷◌, pos, inl, inr, ◌⊎◌, ℤ, ℕ, false, refl, ◌≡◌, true, negsuc, Bool-cases}
use vcl_rs.Error.{api, already_initialized}
use vcl_rs.Ffi.{Vcl}
use vcl_rs.Machine.{
  Event, worker_unregister, call_void, set_registered, State, returned, ok, err, ◌>>=◌,
}
use vcl_rs.App.{registered_as, has_nul, init, register_worker_thread}

module _ ⦃V : Vcl⦄ where
  -- A second `init` is refused while the first app lives, makes no foreign call and changes nothing.
  pub init-refused :
      (name : List ℕ) (s : State)
      → s.initialized ≡ true
      → init name s ≡ (returned (err (api already_initialized (negsuc 0))), s)
  unfolding init ◌>>=◌
  init-refused name s e = rw e refl

  -- After an `init` whose name has a NUL byte, no app exists and yet every `init` is refused.
  pub init-after_nul :
      (bad name : List ℕ) (s : State)
      → has_nul bad ≡ true
      → ((init bad s).1.trace ≡ s.trace)
        × ((init name (init bad s).1).0 ≡ returned (err (api already_initialized (negsuc 0))))
  unfolding init ◌>>=◌
  init-after_nul bad name s e = elim (Bool-cases s.initialized) [
    | inl t ↦ rw t (refl, refl)
    | inr f ↦ rw (f, e) (refl, refl)
  ]

  -- A thread whose registration succeeded is not registered again, and makes no further call.
  pub register_worker_thread_once :
      (s : State)
      → (register_worker_thread s).1.registered ≡ true
      → register_worker_thread (register_worker_thread s).1
        ≡ (returned (ok tt), (register_worker_thread s).1)
  unfolding register_worker_thread ◌>>=◌
  register_worker_thread_once s e = rw e refl

  -- How a registration ends, by the index of the worker.
  abbrev pub Registration : ℤ → State → Type 0
  Registration idx after =
      ((n : ℕ) × (idx ≡ pos n) × (after.registered ≡ true))
      ⊎ ((n : ℕ) × (earlier : List Event) × (idx ≡ negsuc n)
          × (after.registered ≡ false)
          × (after.trace ≡ record { call = worker_unregister; rc = pos 0 } ∷ earlier))

  registered_as-cases :
      (idx : ℤ) (s : State) → s.registered ≡ false → Registration idx (registered_as idx s).1
  unfolding registered_as call_void set_registered
  registered_as-cases (pos n) s unmarked = inl (n, refl, refl)
  registered_as-cases (negsuc n) s unmarked = inr (n, s.trace, refl, unmarked, refl)

  -- On a thread that is not registered, `register_worker_thread` either gets an index of 0 or more
  -- and marks the thread, or a negative one, and then it gives the slot back by its last call and
  -- leaves the thread unmarked.
  pub register_worker_thread-cases :
      (s : State)
      → s.registered ≡ false
      → Registration (V.worker_index (V.worker_register s.world).1).0 (register_worker_thread s).1
  unfolding register_worker_thread ◌>>=◌
  register_worker_thread-cases s unmarked = rw unmarked (registered_as-cases _ _ refl)
