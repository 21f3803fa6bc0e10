-- ===== src/Machine.antt =====
-- What every function of the crate runs on: the world of `Ffi`, the state that the crate itself
-- keeps (the reactor's waiters, the flags of src/app.rs) and the foreign calls that it has made.
-- A function that returns `Result` is a computation over this state; one whose fuel has run out
-- is still `running`.
pub mod Ledger
pub mod Balance
pub mod Scopes
pub mod Steady
pub mod Hoare
pub mod Runs
pub mod Ends
pub mod Held
pub mod Fuel
use vcl_rs.Base.{ℕ, Bool, true, false, Option, List, ◌∷◌, ℤ, pos}
use vcl_rs.Error.{VclError}
use vcl_rs.Ffi.{Vcl, Endpoint, Attr, EpollEvent}

-- The calls of src/ffi.rs, with the arguments that the crate passes.
pub data Call : Type 0 where
  app_create : List ℕ → Call
  app_destroy : Call
  session_create : ℕ → ℕ → Call
  session_close : ℕ → Call
  session_shutdown : ℕ → ℕ → Call
  session_bind : ℕ → Endpoint → Call
  session_listen : ℕ → ℕ → Call
  session_accept : ℕ → ℕ → Call
  session_connect : ℕ → Endpoint → Call
  session_read : ℕ → ℕ → Call
  session_write : ℕ → List ℕ → Call
  session_sendto : ℕ → List ℕ → ℕ → Endpoint → Call
  session_recvfrom : ℕ → ℕ → ℕ → Call
  session_attr : ℕ → ℕ → Attr → Call
  epoll_create : Call
  epoll_ctl : ℕ → ℕ → ℕ → Option EpollEvent → Call
  epoll_wait : ℕ → ℕ → ℕ → Call
  mq_epoll_fd : Call
  worker_register : Call
  worker_unregister : Call
  worker_index : Call

pub record Event : Type 0 where
  pub call : Call
  pub rc : ℤ

pub data Result (A : Type 0) : Type 0 where
  ok : A → Result A
  err : VclError → Result A

pub data Exit (A : Type 0) : Type 0 where
  returned : Result A → Exit A
  running : Exit A

module _ ⦃V : Vcl⦄ where
  pub record State : Type 0 where
    pub world : V.World
    pub waiters : List (ℕ × V.Notify)
    -- The thread-local `REGISTERED`, and `INITIALIZED`.
    pub registered : Bool
    pub initialized : Bool
    -- The latest call first.
    pub trace : List Event

  abbrev pub M : Type 0 → Type 0
  M A = State → Exit A × State

  unfoldable pub pure : {A : Type 0} → A → M A
  pure a s = (returned (ok a), s)

  unfoldable pub fail : {A : Type 0} → VclError → M A
  fail e s = (returned (err e), s)

  unfoldable pub of_result : {A : Type 0} → Result A → M A
  of_result r s = (returned r, s)

  unfoldable pub out_of_fuel : {A : Type 0} → M A
  out_of_fuel s = (running, s)

  abbrev pub log : Event → V.World → State → State
  log e w s = record s { world = w; trace = e ∷ s.trace }

  -- A foreign call that gives only its return code, one that also writes through a pointer, and
  -- one that returns nothing.
  unfoldable pub call : Call → (V.World → ℤ × V.World) → M ℤ
  call c f s = let (rc, w) = f s.world in (returned (ok rc), log (record { call = c; rc = rc }) w s)

  unfoldable pub call_out : {B : Type 0} → Call → (V.World → ℤ × B × V.World) → M (ℤ × B)
  call_out c f s =
      let (rc, b, w) = f s.world in (returned (ok (rc, b)), log (record { call = c; rc = rc }) w s)

  unfoldable pub call_void : Call → (V.World → V.World) → M (Unit {0})
  call_void c f s = (returned (ok tt), log (record { call = c; rc = pos 0 }) (f s.world) s)

  -- What only reads or advances the host.
  unfoldable pub host : {B : Type 0} → (V.World → B × V.World) → M B
  host f s = let (b, w) = f s.world in (returned (ok b), record s { world = w })

  unfoldable pub advance : (V.World → V.World) → M (Unit {0})
  advance f s = (returned (ok tt), record s { world = f s.world })

  -- The crate's own state.
  unfoldable pub gets : {A : Type 0} → (State → A) → M A
  gets f s = (returned (ok (f s)), s)

  unfoldable pub set_registered : Bool → M (Unit {0})
  set_registered b s = (returned (ok tt), record s { registered = b })

  unfoldable pub set_initialized : Bool → M (Unit {0})
  set_initialized b s = (returned (ok tt), record s { initialized = b })

  unfoldable pub set_waiters : List (ℕ × V.Notify) → M (Unit {0})
  set_waiters ws s = (returned (ok tt), record s { waiters = ws })

  -- A wait: other tasks run, on the world and the waiters.
  unfoldable pub await :
      {B : Type 0} → (V.World → List (ℕ × V.Notify) → B × V.World × List (ℕ × V.Notify)) → M B
  await f s =
      let (b, w, ws) = f s.world s.waiters in
      (returned (ok b), record s { world = w; waiters = ws })

  -- `if` between two computations, shut so that the rules of the judgements find it.
  infix 1 when◌then◌else◌
  unfoldable pub when◌then◌else◌ : {A : Type 0} → Bool → M A → M A → M A
  when true then m else n = m
  when false then m else n = n

  abbrev pub continue : {A B : Type 0} → (A → M B) → Exit A → State → Exit B × State
  continue f (returned (ok a)) s = f a s
  continue f (returned (err e)) s = (returned (err e), s)
  continue f running s = (running, s)

  -- Rust's `?`. What opens it opens the actions above too.
  infixl 5 ◌>>=◌ ◌>>◌
  unfoldable pub ◌>>=◌ : {A B : Type 0} → M A → (A → M B) → M B
  unfolding pure fail of_result out_of_fuel call call_out call_void host advance gets set_registered
      set_initialized set_waiters await when◌then◌else◌
  ◌>>=◌ m f s = let (r, t) = m s in continue f r t

  abbrev pub ◌>>◌ : {B : Type 0} → M (Unit {0}) → M B → M B
  m >> k = m >>= λ _. k

  abbrev pub reify : {A : Type 0} → Exit A → State → Exit (Result A) × State
  reify (returned r) s = (returned (ok r), s)
  reify running s = (running, s)

  -- The `Result` of a call as a value, for a `match` on it.
  unfoldable pub attempt : {A : Type 0} → M A → M (Result A)
  attempt m s = let (r, t) = m s in reify r t

  abbrev pub finish : {A : Type 0} → Result A → Exit (Unit {0}) × State → Exit A × State
  finish r (_, t) = (returned r, t)

  abbrev pub after_all : {A : Type 0} → M (Unit {0}) → Exit A → State → Exit A × State
  after_all d (returned r) s = finish r (d s)
  after_all d running s = (running, s)

  abbrev pub after_err : {A : Type 0} → M (Unit {0}) → Exit A → State → Exit A × State
  after_err d (returned (ok a)) s = (returned (ok a), s)
  after_err d (returned (err e)) s = finish (err e) (d s)
  after_err d running s = (running, s)

  -- A value that goes out of scope on every way out of `m`: `d` is its `drop`.
  unfoldable pub finally : {A : Type 0} → M A → M (Unit {0}) → M A
  finally m d s = let (r, t) = m s in after_all d r t

  -- A value that `m` moves into its `Ok` result, and that an error drops.
  unfoldable pub on_err : {A : Type 0} → M A → M (Unit {0}) → M A
  on_err m d s = let (r, t) = m s in after_err d r t

  abbrev pub swap_registered : {A : Type 0} → Bool → Exit A × State → Exit A × State
  swap_registered b (r, t) = (r, record t { registered = b })

  -- `m` on another thread, whose `REGISTERED` is `b`.
  unfoldable pub on_thread : {A : Type 0} → Bool → M A → M A
  on_thread b m s = swap_registered s.registered (m (record s { registered = b }))
